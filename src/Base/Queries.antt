-- ===== src/Base/Queries.antt =====
-- What holds of every row of a table holds of every row of a query's answer, ordered or not.
use mathlib.Core.Path.{◌≡◌, refl, ap}
use mathlib.Core.Bool.{Bool, true, false}
use mathlib.Core.List.{List, [], ◌∷◌}
use durable_workflows.Base.Tests.{if◌then◌else◌}
use durable_workflows.Base.Lists.{All}
use durable_workflows.Base.Member.{Memᴰ}
use durable_workflows.Base.Table.{select_where, insert_by, order_by}

-- Of a list that is not empty.
abbrev pub IsFound {ℓ} : {A : Type ℓ} → List A → Type ℓ
IsFound {A} xs = (x : A) × (rest : List A) × (xs ≡ x ∷ rest)

module _ {ℓ} {A : Type ℓ} where
  -- A query keeps what holds of every row, and so does the order and the limit of its answer.
  pub select_where-keeps {κ} :
      (P : A → Type κ) (p : A → Bool) (rs : List A)
      → All P rs
      → All (λ r. P r × (p r ≡ true)) (select_where p rs)
  select_where-keeps P p [] h = tt
  select_where-keeps P p (r ∷ rs) h = at_row (p r) refl (select_where-keeps P p rs h.1)
    where
      at_row :
          (b : Bool)
          → p r ≡ b
          → All (λ t. P t × (p t ≡ true)) (select_where p rs)
          → All (λ t. P t × (p t ≡ true)) (if b then r ∷ select_where p rs else select_where p rs)
      at_row true e k = ((h.0, e), k)
      at_row false e k = k

  insert_by-keeps {κ} :
      (P : A → Type κ) (precedes : A → A → Bool) (r : A) (rs : List A)
      → P r
      → All P rs
      → All P (insert_by precedes r rs)
  unfolding insert_by
  insert_by-keeps P precedes r [] p h = (p, tt)
  insert_by-keeps P precedes r (s ∷ rs) p h =
      at_row (precedes s r) (insert_by-keeps P precedes r rs p h.1)
    where
      at_row :
          (b : Bool)
          → All P (insert_by precedes r rs)
          → All P (if b then s ∷ insert_by precedes r rs else r ∷ s ∷ rs)
      at_row true k = (h.0, k)
      at_row false k = (p, h)

  pub order_by-keeps {κ} :
      (P : A → Type κ) (precedes : A → A → Bool) (rs : List A)
      → All P rs
      → All P (order_by precedes rs)
  unfolding order_by
  order_by-keeps P precedes [] h = tt
  order_by-keeps P precedes (r ∷ rs) h =
      insert_by-keeps P precedes r (order_by precedes rs) h.0 (order_by-keeps P precedes rs h.1)

  pub select_where-IsFound :
      (p : A → Bool) (rs : List A) (r : A) → Memᴰ r rs → p r ≡ true → IsFound (select_where p rs)
  select_where-IsFound p [] r m e = elim m [ ]
  select_where-IsFound p (s ∷ rs) r m e =
      at_row (p s) refl m (λ m'. select_where-IsFound p rs r m' e)
    where
      at_row :
          (b : Bool)
          → p s ≡ b
          → Memᴰ r (s ∷ rs)
          → (Memᴰ r rs → IsFound (select_where p rs))
          → IsFound (if b then s ∷ select_where p rs else select_where p rs)
      at_row true k m below = (s, select_where p rs, refl)
      at_row false k (Memᴰ.head q) below = absurd (differs (ap p q))
        where
          differs : p r ≡ p s → ⊥
          differs q' = cc
      at_row false k (Memᴰ.tail m) below = below m

  insert_by-IsFound :
      (precedes : A → A → Bool) (r : A) (rs : List A) → IsFound (insert_by precedes r rs)
  unfolding insert_by
  insert_by-IsFound precedes r [] = (r, [], refl)
  insert_by-IsFound precedes r (s ∷ rs) = at_row (precedes s r)
    where
      at_row : (b : Bool) → IsFound (if b then s ∷ insert_by precedes r rs else r ∷ s ∷ rs)
      at_row true = (s, insert_by precedes r rs, refl)
      at_row false = (r, s ∷ rs, refl)

  pub order_by-IsFound :
      (precedes : A → A → Bool) (rs : List A) → IsFound rs → IsFound (order_by precedes rs)
  unfolding order_by
  order_by-IsFound precedes [] found = absurd (empty found.1 found.2)
    where
      empty : (rest : List A) → [] ≡ found.0 ∷ rest → ⊥
      empty rest e = cc
  order_by-IsFound precedes (r ∷ rs) found = insert_by-IsFound precedes r (order_by precedes rs)
