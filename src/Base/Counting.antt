-- ===== src/Base/Counting.antt =====
-- How many rows pass a test: never more than the table has, and fewer where the test is narrower.
use Prim.Native.Nat.{◌≤◌, ◌<◌}
use mathlib.Core.Path.{◌≡◌, sym, ap, ◌∙◌}
use mathlib.Core.Bool.{Bool, true, false}
use mathlib.Core.Option.{some}
use mathlib.Core.List.{List, [], ◌∷◌}
use native.Mathlib.Omega.{arith}
use durable_workflows.Base.Lists.{length}
use durable_workflows.Base.Member.{Memᴰ}
use durable_workflows.Base.Table.{first_where, count_where}

module _ {ℓ} {A : Type ℓ} where
  pub count_where-le-length : (p : A → Bool) (xs : List A) → count_where p xs ≤ length xs
  count_where-le-length p [] = omega arith
  count_where-le-length p (x ∷ xs) = ground (arith, count_where-le-length p xs)

  pub count_where_mono :
      (p q : A → Bool)
      → ((x : A) → p x ≡ true → q x ≡ true)
      → (xs : List A) → count_where p xs ≤ count_where q xs
  count_where_mono p q imp [] = omega arith
  count_where_mono p q imp (x ∷ xs) = ground (arith, imp x, count_where_mono p q imp xs)

  -- A row that the narrower test leaves out makes its count smaller.
  pub count_where-lt :
      (p q t : A → Bool)
      → ((x : A) → p x ≡ true → q x ≡ true)
      → (xs : List A) (s : A) → first_where t xs ≡ some s
      → q s ≡ true
      → p s ≡ false
      → count_where p xs < count_where q xs
  count_where-lt p q t imp [] s found hq hp = ground arith
  count_where-lt p q t imp (x ∷ xs) s found hq hp = ground (
    arith,
    imp x,
    count_where_mono p q imp xs,
    λ (e : first_where t xs ≡ some s). count_where-lt p q t imp xs s e hq hp,
  )

  pub count_where-Memᴰ :
      (p : A → Bool) (xs : List A) (x : A) → Memᴰ x xs → p x ≡ true → 0 < count_where p xs
  count_where-Memᴰ p [] x m e = elim m [ ]
  count_where-Memᴰ p (y ∷ xs) x (Memᴰ.head q) e =
      let k : p y ≡ true = ap p (sym q) ∙ e in ground (arith, k)
  count_where-Memᴰ p (y ∷ xs) x (Memᴰ.tail m) e = ground (arith, count_where-Memᴰ p xs x m e)
