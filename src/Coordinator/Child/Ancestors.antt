-- ===== src/Coordinator/Child/Ancestors.antt =====
-- The walk over a workflow's ancestors ends, and finds each of them.
use durable_workflows.Base.{
  ℕ, zero, suc, ◌<◌, ◌+◌, ◌≡◌, sym, subst, refl, arith, Bool, true, false, Option, none, some, List,
  All, length, Option-cases, Bool-cases, inl, inr, ◌⊎◌, ◌∷◌, ◌↔◌,
}
use durable_workflows.Base.Int.{ℤ, ltb_ℤ, ◌==ℤ◌, ==ℤ_refl, ==ℤ_iff}
use durable_workflows.Base.Table.{first_where, count_where, first_where-All}
use durable_workflows.Base.Counting.{count_where-le-length, count_where-lt}
use durable_workflows.Base.Outcome.{Result, ok, err, DurableError}
use durable_workflows.Rows.{WorkflowRow}
use durable_workflows.Coordinator.Child.{link_of, link_at, walk, is_caller_or_ancestor}

abbrev earlier : Option ℤ → ℤ → Bool
earlier none id = true
earlier (some target) id = ltb_ℤ target id

-- A row was inserted after the rows that it links to.
abbrev pub LinksEarlier : WorkflowRow → Type 0
LinksEarlier r = earlier (link_of r) r.id ≡ true

-- From one id to another along the links, the caller's own row standing for its id.
pub data LeadsTo (workflows : List WorkflowRow) (caller : WorkflowRow) (target : ℤ)
    : ℤ → Type 0 where
  there : LeadsTo workflows caller target target
  up :
      {id parent : ℤ}
      → link_at workflows caller id ≡ ok (some parent)
      → LeadsTo workflows caller target parent
      → LeadsTo workflows caller target id

LeadsTo-inv :
    (workflows : List WorkflowRow) (caller : WorkflowRow) (target id : ℤ)
    → LeadsTo workflows caller target id
    → (id ≡ target)
      ⊎ ((parent : ℤ) × (link_at workflows caller id ≡ ok (some parent))
          × LeadsTo workflows caller target parent)
LeadsTo-inv workflows caller target id there = inl refl
LeadsTo-inv workflows caller target id (up {parent = parent} e l) = inr (parent, e, l)

abbrev has_id : ℤ → WorkflowRow → Bool
has_id id r = r.id ==ℤ id

abbrev below : ℤ → WorkflowRow → Bool
below id r = ltb_ℤ r.id id

below_mono :
    (p id : ℤ) → ltb_ℤ p id ≡ true → (r : WorkflowRow) → below p r ≡ true → below id r ≡ true
below_mono p id h r k = ground arith

below_at : (p id : ℤ) (r : WorkflowRow) → has_id p r ≡ true → ltb_ℤ p id ≡ true → below id r ≡ true
below_at p id r h k = ground arith

below_self : (p : ℤ) (r : WorkflowRow) → has_id p r ≡ true → below p r ≡ false
below_self p r h = ground arith

-- A link is read from the caller's row or from a row of the table.
link_at-inv :
    (workflows : List WorkflowRow) (caller : WorkflowRow) (id : ℤ) (next : Option ℤ)
    → link_at workflows caller id ≡ ok next
    → (r : WorkflowRow) × (first_where (has_id id) (caller ∷ workflows) ≡ some r)
      × (link_of r ≡ next)
link_at-inv workflows caller id next e = elim (Bool-cases (id ==ℤ caller.id)) [
  | inl same ↦ (caller, ground (arith, same), ground (arith, same, e))
  | inr other ↦ elim (Option-cases (first_where (has_id id) workflows)) [
    | inl missing ↦ ground (arith, other, missing, e)
    | inr (r, found) ↦ (r, ground (arith, other, found), ground (arith, other, found, e))
  ]
]

Link-cases :
    (r : Result (Option ℤ))
    → ((e : DurableError) × (r ≡ err e)) ⊎ (r ≡ ok none) ⊎ ((p : ℤ) × (r ≡ ok (some p)))
Link-cases (err e) = inl (e, refl)
Link-cases (ok none) = inr (inl refl)
Link-cases (ok (some p)) = inr (inr (p, refl))

walk-none :
    (workflows : List WorkflowRow) (caller : WorkflowRow) (target : ℤ) (fuel : ℕ)
    → 0 < fuel
    → walk workflows caller target fuel none ≡ some (ok false)
unfolding walk
walk-none workflows caller target zero h = elim h [ ]
walk-none workflows caller target (suc fuel) h = refl

module _ (workflows : List WorkflowRow) (caller : WorkflowRow)
    (linked : All LinksEarlier (caller ∷ workflows)) where
  -- The rounds that the walk may still need.
  abbrev rounds : ℤ → ℕ
  rounds id = count_where (below id) (caller ∷ workflows)

  link-earlier :
      (id : ℤ) (next : Option ℤ) → link_at workflows caller id ≡ ok next → earlier next id ≡ true
  link-earlier id next e =
      let found = link_at-inv workflows caller id next e in
      let fits =
        first_where-All LinksEarlier (has_id id) (caller ∷ workflows) found.0 linked found.1 in
      ground (arith, found.2, fits.0, fits.1)

  -- A row that is found at the far end of a link leaves fewer rounds.
  rounds-lt :
      (id p : ℤ) (next : Option ℤ)
      → link_at workflows caller id ≡ ok (some p)
      → link_at workflows caller p ≡ ok next
      → rounds p < rounds id
  rounds-lt id p next e e' =
      let found = link_at-inv workflows caller p next e' in
      let fits =
        first_where-All LinksEarlier (has_id p) (caller ∷ workflows) found.0 linked found.1 in
      let lower = link-earlier id (some p) e in
      count_where-lt (below p) (below id) (has_id p) (below_mono p id lower) (caller ∷ workflows)
        found.0 found.1 (below_at p id found.0 fits.1 lower) (below_self p found.0 fits.1)

  -- What the walk answers: that it reaches the target, or not, or that a row is missing.
  Answers : ℤ → ℤ → ℕ → Type 0
  Answers target id fuel =
      (answer : Result Bool) × (walk workflows caller target fuel (some id) ≡ some answer)
      × ((answer ≡ ok true) ↔ LeadsTo workflows caller target id)

  no_way :
      (target id : ℤ)
      → (id ==ℤ target) ≡ false
      → ((parent : ℤ) → link_at workflows caller id ≡ ok (some parent) → ⊥)
      → ¬ LeadsTo workflows caller target id
  no_way target id other stop l = elim (LeadsTo-inv workflows caller target id l) [
    | inl same ↦ ground (arith, ==ℤ_refl target)
    | inr (parent, e, rest) ↦ stop parent e
  ]

  LeadsTo-parent :
      (target id parent : ℤ)
      → (id ==ℤ target) ≡ false
      → link_at workflows caller id ≡ ok (some parent)
      → LeadsTo workflows caller target id
      → LeadsTo workflows caller target parent
  LeadsTo-parent target id parent other e l = elim (LeadsTo-inv workflows caller target id l) [
    | inl same ↦ ground (arith, ==ℤ_refl target)
    | inr (p, e', rest) ↦ subst (LeadsTo workflows caller target) (same_parent p parent e' e) rest
  ]
    where
      same_parent :
          (p q : ℤ)
          → link_at workflows caller id ≡ ok (some p)
          → link_at workflows caller id ≡ ok (some q)
          → p ≡ q
      same_parent p q a b = cc

  walk_total :
      (target : ℤ) (fuel : ℕ) (id : ℤ)
      → 0 < fuel
      → ((next : Option ℤ) → link_at workflows caller id ≡ ok next → rounds id + 1 < fuel)
      → Answers target id fuel
  unfolding Answers walk
  walk_total target zero id h k = elim h [ ]
  walk_total target (suc fuel) id h k = elim (Bool-cases (id ==ℤ target)) [
    | inl same ↦ (
      ok true,
      rw (same, walk) refl,
      (
        λ e. subst (LeadsTo workflows caller target) (sym ((==ℤ_iff id target).0 same)) there,
        λ l. refl,
      ),
    )
    | inr other ↦ elim (Link-cases (link_at workflows caller id)) [
      | inl (e, missing) ↦ (
        err e,
        rw (other, walk) (rw (missing, walk) refl),
        (λ a. cc, λ l. absurd (no_way target id other (λ p e'. cc) l)),
      )
      | inr (inl e) ↦ (
        ok false,
        rw (other, walk)
            (rw (e, walk) (walk-none workflows caller target fuel (omega (arith, k none e)))),
        (λ a. cc, λ l. absurd (no_way target id other (λ p e'. cc) l)),
      )
      | inr (inr (p, e)) ↦
          let rest =
            walk_total target fuel p (omega (arith, k (some p) e))
              (λ next e'. omega (arith, k (some p) e, rounds-lt id p next e e')) in
          (
            rest.0,
            rw (other, walk) (rw (e, walk) rest.1),
            (λ a. up e (rest.2.0 a), λ l. rest.2.1 (LeadsTo-parent target id p other e l)),
          )
    ]
  ]

  -- When the caller's row and every row of the table was inserted after the row it links to, the walk
  -- from the caller ends, and it answers yes exactly for the caller and for the rows that its links
  -- lead to.
  pub is_caller_or_ancestor_total :
      (target : ℤ)
      → (answer : Result Bool) × (is_caller_or_ancestor workflows caller target ≡ some answer)
        × ((answer ≡ ok true) ↔ LeadsTo workflows caller target caller.id)
  unfolding is_caller_or_ancestor Answers
  is_caller_or_ancestor_total target =
      walk_total target (suc (suc (suc (length workflows)))) caller.id (omega arith)
        (λ next e. omega (arith, count_where-le-length (below caller.id) (caller ∷ workflows)))
