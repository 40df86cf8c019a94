-- ===== src/Base/Table.antt =====
-- A database table as the list of its rows, with the statements the program sends: `SELECT … WHERE`
-- (first row or all), `UPDATE … WHERE … SET`, and the number of rows that an update changed.
use Prim.Native.Nat.{ℕ, zero, suc, ◌+◌}
use mathlib.Core.Path.{◌≡◌, refl, sym, ap, subst, ◌∙◌}
use mathlib.Core.Bool.{Bool, true, false}
use mathlib.Core.Option.{Option, none, some}
use mathlib.Core.List.{List, [], ◌∷◌, ◌++◌}
use durable_workflows.Base.Tests.{if◌then◌else◌}
use durable_workflows.Base.Lists.{All}

module _ {ℓ} {A : Type ℓ} where
  -- The first row that passes, in the table's order.
  abbrev pub first_where : (A → Bool) → List A → Option A
  first_where p [] = none
  first_where p (r ∷ rs) = if p r then some r else first_where p rs

  abbrev pub select_where : (A → Bool) → List A → List A
  select_where p [] = []
  select_where p (r ∷ rs) = let rest = select_where p rs in if p r then r ∷ rest else rest

  -- `ORDER BY` and `LIMIT 1`: the least row, the first of equal ones.
  abbrev better : (A → A → Bool) → A → Option A → A
  better precedes r none = r
  better precedes r (some s) = if precedes s r then s else r

  unfoldable pub first_by : (A → A → Bool) → List A → Option A
  first_by precedes [] = none
  first_by precedes (r ∷ rs) = some (better precedes r (first_by precedes rs))

  -- `ORDER BY`: each row before those that it precedes.
  unfoldable pub insert_by : (A → A → Bool) → A → List A → List A
  insert_by precedes r [] = r ∷ []
  insert_by precedes r (s ∷ rs) =
      let rest = insert_by precedes r rs in if precedes s r then s ∷ rest else r ∷ s ∷ rs

  unfoldable pub order_by : (A → A → Bool) → List A → List A
  unfolding insert_by
  order_by precedes [] = []
  order_by precedes (r ∷ rs) = insert_by precedes r (order_by precedes rs)

  -- `LIMIT n`.
  unfoldable pub limit : ℕ → List A → List A
  limit zero rs = []
  limit (suc n) [] = []
  limit (suc n) (r ∷ rs) = r ∷ limit n rs

  abbrev pub update_where : (A → Bool) → (A → A) → List A → List A
  update_where p f [] = []
  update_where p f (r ∷ rs) = (if p r then f r else r) ∷ update_where p f rs

  abbrev pub count_where : (A → Bool) → List A → ℕ
  count_where p [] = 0
  count_where p (r ∷ rs) = (if p r then 1 else 0) + count_where p rs

  -- An update keeps a property of every row if it does so at the rows it changes.
  pub All-update_where {κ} :
      (P : A → Type κ) (p : A → Bool) (f : A → A)
      → ((r : A) → p r ≡ true → P r → P (f r))
      → (rs : List A) → All P rs
      → All P (update_where p f rs)
  All-update_where P p f keep [] h = h
  All-update_where P p f keep (r ∷ rs) h = (at_row (p r) refl, All-update_where P p f keep rs h.1)
    where
      at_row : (b : Bool) → p r ≡ b → P (if b then f r else r)
      at_row true e = keep r e h.0
      at_row false e = h.0

  -- The same, where the changed rows may use what holds of every row.
  pub All-update_where_when {κ μ} :
      (Q : A → Type μ) (P : A → Type κ) (p : A → Bool) (f : A → A)
      → ((r : A) → Q r → p r ≡ true → P r → P (f r))
      → (rs : List A) → All Q rs
      → All P rs
      → All P (update_where p f rs)
  All-update_where_when Q P p f keep [] q h = h
  All-update_where_when Q P p f keep (r ∷ rs) q h =
      (at_row (p r) refl, All-update_where_when Q P p f keep rs q.1 h.1)
    where
      at_row : (b : Bool) → p r ≡ b → P (if b then f r else r)
      at_row true e = keep r q.0 e h.0
      at_row false e = h.0

  pub All-append {κ} : (P : A → Type κ) (xs ys : List A) → All P xs → All P ys → All P (xs ++ ys)
  All-append P [] ys hx hy = hy
  All-append P (x ∷ xs) ys hx hy = (hx.0, All-append P xs ys hx.1 hy)

  better-All {κ} :
      (P : A → Type κ) (precedes : A → A → Bool) (r : A) (o : Option A)
      → P r
      → ((s : A) → o ≡ some s → P s)
      → P (better precedes r o)
  better-All P precedes r none h k = h
  better-All P precedes r (some s) h k = pick (precedes s r)
    where
      pick : (b : Bool) → P (if b then s else r)
      pick true = k s refl
      pick false = h

  -- What holds of every row holds of the least one.
  pub first_by-All {κ} :
      (P : A → Type κ) (precedes : A → A → Bool) (rs : List A) (s : A)
      → All P rs
      → first_by precedes rs ≡ some s
      → P s
  unfolding first_by
  first_by-All P precedes [] s h e = cc
  first_by-All P precedes (r ∷ rs) s h e = subst P (some-inj e) (
      better-All P precedes r (first_by precedes rs) h.0
        (λ t e'. first_by-All P precedes rs t h.1 e'))
    where
      some-inj : {x y : A} → some x ≡ some y → x ≡ y
      some-inj e = cc

  pub select_where-All : (p : A → Bool) (rs : List A) → All (λ r. p r ≡ true) (select_where p rs)
  select_where-All p [] = tt
  select_where-All p (r ∷ rs) = at_row (p r) refl (select_where-All p rs)
    where
      at_row :
          (b : Bool)
          → p r ≡ b
          → All (λ t. p t ≡ true) (select_where p rs)
          → All (λ t. p t ≡ true) (if b then r ∷ select_where p rs else select_where p rs)
      at_row true e h = (e, h)
      at_row false e h = h

  -- A row that a query finds passes its test, and what holds of every row holds of it.
  pub first_where-All {κ} :
      (P : A → Type κ) (p : A → Bool) (rs : List A) (s : A)
      → All P rs
      → first_where p rs ≡ some s
      → P s × (p s ≡ true)
  first_where-All P p [] s h e = cc
  first_where-All P p (r ∷ rs) s h e = at_row (p r) refl e (first_where-All P p rs s h.1)
    where
      at_row :
          (b : Bool)
          → p r ≡ b
          → (if b then some r else first_where p rs) ≡ some s
          → (first_where p rs ≡ some s → P s × (p s ≡ true))
          → P s × (p s ≡ true)
      at_row true k e' rest = let q : r ≡ s = cc in (subst P q h.0, ap p (sym q) ∙ k)
      at_row false k e' rest = rest e'

  insert_by-All {κ} :
      (P : A → Type κ) (precedes : A → A → Bool) (r : A) (rs : List A)
      → P r
      → All P rs
      → All P (insert_by precedes r rs)
  unfolding insert_by
  insert_by-All P precedes r [] k h = (k, tt)
  insert_by-All P precedes r (s ∷ rs) k h =
      at_row (precedes s r) (insert_by-All P precedes r rs k h.1)
    where
      at_row :
          (b : Bool)
          → All P (insert_by precedes r rs)
          → All P (if b then s ∷ insert_by precedes r rs else r ∷ s ∷ rs)
      at_row true q = (h.0, q)
      at_row false q = (k, h)

  pub order_by-All {κ} :
      (P : A → Type κ) (precedes : A → A → Bool) (rs : List A)
      → All P rs
      → All P (order_by precedes rs)
  unfolding order_by
  order_by-All P precedes [] h = tt
  order_by-All P precedes (r ∷ rs) h =
      insert_by-All P precedes r (order_by precedes rs) h.0 (order_by-All P precedes rs h.1)

  pub limit-All {κ} : (P : A → Type κ) (n : ℕ) (rs : List A) → All P rs → All P (limit n rs)
  unfolding limit
  limit-All P zero rs h = tt
  limit-All P (suc n) [] h = tt
  limit-All P (suc n) (r ∷ rs) h = (h.0, limit-All P n rs h.1)

-- Each row of the first table has a row in the same place of the second that `R` relates to it;
-- the second may have further rows at its end.
pub data Grows {ℓ κ} {A : Type ℓ} (R : A → A → Type κ) : List A → List A → Type (ℓ ⊔ κ) where
  done : {ys : List A} → Grows R [] ys
  more : {x y : A} {xs ys : List A} → R x y → Grows R xs ys → Grows R (x ∷ xs) (y ∷ ys)

module _ {ℓ κ} {A : Type ℓ} (R : A → A → Type κ) (R_refl : (r : A) → R r r) where
  pub Grows-refl : (xs : List A) → Grows R xs xs
  Grows-refl [] = Grows.done
  Grows-refl (x ∷ xs) = Grows.more (R_refl x) (Grows-refl xs)

  pub Grows-append : (xs ys : List A) → Grows R xs (xs ++ ys)
  Grows-append [] ys = Grows.done
  Grows-append (x ∷ xs) ys = Grows.more (R_refl x) (Grows-append xs ys)

  pub Grows-update_where :
      (p : A → Bool) (f : A → A)
      → ((r : A) → p r ≡ true → R r (f r))
      → (xs : List A) → Grows R xs (update_where p f xs)
  Grows-update_where p f step [] = Grows.done
  Grows-update_where p f step (x ∷ xs) =
      Grows.more (at_row (p x) refl) (Grows-update_where p f step xs)
    where
      at_row : (b : Bool) → p x ≡ b → R x (if b then f x else x)
      at_row true e = step x e
      at_row false e = R_refl x

module _ {ℓ κ} {A : Type ℓ} (R : A → A → Type κ)
    (R_trans : (x y z : A) → R x y → R y z → R x z) where
  pub Grows-trans : {xs ys zs : List A} → Grows R xs ys → Grows R ys zs → Grows R xs zs
  Grows-trans Grows.done g = Grows.done
  Grows-trans (Grows.more {x = x} {y = y} r g) (Grows.more {y = z} r' g') =
      Grows.more (R_trans x y z r r') (Grows-trans g g')

pub Grows-map {ℓ κ μ} :
    {A : Type ℓ} (R : A → A → Type κ) (S : A → A → Type μ)
    → ((x y : A) → R x y → S x y)
    → {xs ys : List A} → Grows R xs ys
    → Grows S xs ys
Grows-map R S f Grows.done = Grows.done
Grows-map R S f (Grows.more {x = x} {y = y} r g) = Grows.more (f x y r) (Grows-map R S f g)
