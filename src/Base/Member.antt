-- ===== src/Base/Member.antt =====
-- Membership of a list, under the library's name, and what grows with its rows.
use mathlib.Core.Path.{◌≡◌, refl, sym, subst}
use mathlib.Core.List.{List, [], ◌∷◌}
pub use mathlib.Core.List.{Memᴰ}
use durable_workflows.Base.Lists.{All}
use durable_workflows.Base.Table.{Grows}

module _ {ℓ κ} {A : Type ℓ} (R : A → A → Type κ) (x : A) where
  -- A row has its successor in the table that follows.
  pub Grows-Memᴰ : {xs ys : List A} → Grows R xs ys → Memᴰ x xs → (y : A) × Memᴰ y ys × R x y
  Grows-Memᴰ Grows.done m = elim m [ ]
  Grows-Memᴰ (Grows.more {y = y} r g) (Memᴰ.head e) =
      (y, Memᴰ.head refl, subst (λ z. R z y) (sym e) r)
  Grows-Memᴰ (Grows.more r g) (Memᴰ.tail m) =
      let found = Grows-Memᴰ g m in (found.0, Memᴰ.tail found.1, found.2)

  pub Grows-Memᴰ_same :
      ((y : A) → R x y → y ≡ x) → {xs ys : List A} → Grows R xs ys → Memᴰ x xs → Memᴰ x ys
  Grows-Memᴰ_same same {ys = ys} g m =
      let found = Grows-Memᴰ g m in subst (λ z. Memᴰ z ys) (same found.0 found.2) found.1

module _ {ℓ κ} {A : Type ℓ} (P : A → Type κ) (Q : A → Type κ) where
  pub All-map : ((x : A) → P x → Q x) → (xs : List A) → All P xs → All Q xs
  All-map f [] h = tt
  All-map f (x ∷ xs) h = (f x h.0, All-map f xs h.1)

module _ {ℓ κ} {A : Type ℓ} (P : A → Type κ) where
  pub All-Memᴰ : (xs : List A) (x : A) → All P xs → Memᴰ x xs → P x
  All-Memᴰ [] x h m = elim m [ ]
  All-Memᴰ (y ∷ xs) x h (Memᴰ.head e) = subst P (sym e) h.0
  All-Memᴰ (y ∷ xs) x h (Memᴰ.tail m) = All-Memᴰ xs x h.1 m

  pub Memᴰ-All : (xs : List A) → ((x : A) → Memᴰ x xs → P x) → All P xs
  Memᴰ-All [] h = tt
  Memᴰ-All (x ∷ xs) h = (h x (Memᴰ.head refl), Memᴰ-All xs (λ y m. h y (Memᴰ.tail m)))
