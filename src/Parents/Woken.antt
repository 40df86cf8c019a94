-- ===== src/Parents/Woken.antt =====
-- A terminal child leaves no parent waiting for it.
use durable_workflows.Base.{
  ◌≡◌, ◌∙◌, sym, ap, subst, ◌&&◌, ◌⊎◌, inl, inr, arith, Bool, true, false, not, List, [], ◌∷◌,
  Option, none, String, if◌then◌else◌, Bool-cases, All,
}
use durable_workflows.Base.Int.{ℤ, ◌==ℤ◌}
use durable_workflows.Base.Member.{Memᴰ}
use durable_workflows.Base.Table.{select_where, update_where, select_where-All}
use durable_workflows.Base.Outcome.{ok}
use durable_workflows.Clock.{DbMillis}
use durable_workflows.Status.Workflow
use durable_workflows.Status.Workflow.{WorkflowStatus}
use durable_workflows.Wait.{Wait}
use durable_workflows.Rows.{WorkflowRow}
use durable_workflows.Tx.{Db, eq_int, reads, ◌>>=◌}
use durable_workflows.Tx.Leaves.{
  Ends, Leaves, Leaves-pure, Leaves-lift, Leaves-lift-bind, Leaves-or_fail, Leaves-ensure_fenced,
  Leaves-bind, Leaves-append_event, Leaves-next_event_sequence, Leaves-update_workflows,
}
use durable_workflows.Events.{Env, append_system_event}
use durable_workflows.Parents.{
  ChildOutcome, awaits, eq_kind, row_wait, waits_on_child, woken, clear_wait, deliver_to_parent,
  deliver_if_waiting, wake_loaded_parent_on_child_terminal, wake_parents,
  wake_waiting_parents_on_child_terminal,
}

-- Every row that still waits for the child is one of these parents.
abbrev Only : ℤ → List WorkflowRow → List WorkflowRow → Type 0
Only child ps rs = (r : WorkflowRow) → Memᴰ r rs → awaits child r ≡ true → Memᴰ r ps

absurd : {A : Type 0} → ⊥ → A
absurd h = elim h [ ]

absurd_test : false ≡ true → ⊥
absurd_test e = cc

cases : {r w : WorkflowRow} {ps : List WorkflowRow} → Memᴰ r (w ∷ ps) → (r ≡ w) ⊎ Memᴰ r ps
cases (Memᴰ.head e) = inl e
cases (Memᴰ.tail m) = inr m

select_where-Memᴰ :
    (p : WorkflowRow → Bool) (rs : List WorkflowRow) (r : WorkflowRow)
    → Memᴰ r rs
    → p r ≡ true
    → Memᴰ r (select_where p rs)
select_where-Memᴰ p [] r m h = elim m [ ]
select_where-Memᴰ p (s ∷ rs) r (Memᴰ.head e) h = rw (ap p (sym e) ∙ h, if◌then◌else◌) (Memᴰ.head e)
select_where-Memᴰ p (s ∷ rs) r (Memᴰ.tail m) h = elim (Bool-cases (p s)) [
  | inl e ↦ rw (e, if◌then◌else◌) (Memᴰ.tail (select_where-Memᴰ p rs r m h))
  | inr e ↦ rw (e, if◌then◌else◌) (select_where-Memᴰ p rs r m h)
]

-- A row of the updated table is an updated row that passed, or an old row that did not.
update_where-Memᴰ :
    (p : WorkflowRow → Bool) (f : WorkflowRow → WorkflowRow) (rs : List WorkflowRow)
    (r' : WorkflowRow)
    → Memᴰ r' (update_where p f rs)
    → ((r : WorkflowRow) × (r' ≡ f r)) ⊎ (Memᴰ r' rs × (p r' ≡ false))
update_where-Memᴰ p f [] r' m = elim m [ ]
update_where-Memᴰ p f (s ∷ rs) r' (Memᴰ.head e) = elim (Bool-cases (p s)) [
  | inl h ↦ inl (s, rw (h, if◌then◌else◌) at e)
  | inr h ↦ let k = rw (h, if◌then◌else◌) at e in inr (Memᴰ.head k, ap p k ∙ h)
]
update_where-Memᴰ p f (s ∷ rs) r' (Memᴰ.tail m) = elim (update_where-Memᴰ p f rs r' m) [
  | inl x ↦ inl x
  | inr x ↦ inr (Memᴰ.tail x.0, x.1)
]

-- A waiting parent passes the fence of its own wake.
own_fence :
    (child : ℤ) (w : WorkflowRow)
    → awaits child w ≡ true
    → w.id ==ℤ w.id
        && Workflow.same w.status w.status
        && eq_kind w.wait_kind w.wait_kind
        && eq_int w.wait_reference_id w.wait_reference_id
      ≡ true
own_fence child w h = ground (arith, h)

-- The rows that a wake updates, and what it makes of them.
abbrev own : WorkflowRow → WorkflowRow → Bool
own w r =
    r.id ==ℤ w.id
    && Workflow.same r.status w.status
    && eq_kind r.wait_kind w.wait_kind
    && eq_int r.wait_reference_id w.wait_reference_id

abbrev freed : WorkflowStatus → DbMillis → WorkflowRow → WorkflowRow
freed s now r = record r {
  status = woken s;
  wait_kind = none;
  wait_reference_id = none;
  available_at = now;
  updated_at = now;
}

freed_not_waiting :
    (child : ℤ) (s : WorkflowStatus) (now : DbMillis) (r r' : WorkflowRow)
    → r' ≡ freed s now r
    → awaits child r' ≡ false
freed_not_waiting child s now r r' e = ap (awaits child) e

waits_as_parsed :
    (child : ℤ) (w : WorkflowRow) (o : Option Wait)
    → awaits child w ≡ true
    → row_wait w ≡ ok o
    → waits_on_child o child ≡ true
unfolding durable_workflows.Wait.parse durable_workflows.Wait.new_id
    durable_workflows.Wait.u32_try_from
waits_as_parsed child w o h e = ground (arith, h, e)

remaining :
    (child : ℤ) (w : WorkflowRow) (ps rs : List WorkflowRow) (now : DbMillis)
    → awaits child w ≡ true
    → Only child (w ∷ ps) rs
    → Only child ps (update_where (own w) (freed w.status now) rs)
remaining child w ps rs now a only r' m h =
    place (update_where-Memᴰ (own w) (freed w.status now) rs r' m)
  where
    place :
        ((r : WorkflowRow) × (r' ≡ freed w.status now r)) ⊎ (Memᴰ r' rs × (own w r' ≡ false))
        → Memᴰ r' ps
    place (inl x) = absurd (absurd_test (sym (freed_not_waiting child w.status now x.0 r' x.1) ∙ h))
    place (inr x) = elim (cases (only r' x.0 h)) [
      | inl e ↦ absurd (absurd_test (sym x.1 ∙ ap (own w) e ∙ own_fence child w a))
      | inr t ↦ t
    ]

Leaves-clear_wait :
    (child : ℤ) (w : WorkflowRow) (ps : List WorkflowRow) (now : DbMillis)
    → awaits child w ≡ true
    → Leaves (Only child (w ∷ ps)) (Only child ps) (clear_wait w now)
unfolding clear_wait
Leaves-clear_wait child w ps now a =
    Leaves-bind _ _
      (Leaves-update_workflows (own w) (freed w.status now)
        (λ rs only. remaining child w ps rs now a only))
      (λ n. Leaves-ensure_fenced n)

Leaves-append_system_event :
    {W : List WorkflowRow → Type 0} (w : ℤ) (d : Option ℤ) (t : String) (j reason : Option String)
    (now : DbMillis)
    → Leaves W W (append_system_event w d t j reason now)
unfolding append_system_event
Leaves-append_system_event w d t j reason now =
    Leaves-bind _ _ (Leaves-next_event_sequence _) (λ s. Leaves-append_event _)

Leaves-deliver_to_parent :
    (env : Env) (w c : WorkflowRow) (ps : List WorkflowRow) (o : ChildOutcome) (now : DbMillis)
    → awaits c.id w ≡ true
    → Leaves (Only c.id (w ∷ ps)) (Only c.id ps) (deliver_to_parent env w c o now)
unfolding deliver_to_parent
Leaves-deliver_to_parent env w c ps o now a = Leaves-bind _ _ (Leaves-lift _) (λ n.
    Leaves-bind _ _ (Leaves-lift _) (λ event. Leaves-bind _ _ (Leaves-or_fail _ _) (λ d.
      Leaves-bind _ _ (Leaves-append_system_event _ _ _ _ _ _)
        (λ u. Leaves-clear_wait c.id w ps now a))))

-- The two tests of the code pass for a parent that the query finds.
Leaves-wake_loaded_parent :
    (env : Env) (w c : WorkflowRow) (ps : List WorkflowRow) (o : ChildOutcome) (now : DbMillis)
    → awaits c.id w ≡ true
    → Leaves
        (Only c.id (w ∷ ps))
        (Only c.id ps)
        (wake_loaded_parent_on_child_terminal env w c o now)
unfolding wake_loaded_parent_on_child_terminal deliver_if_waiting
Leaves-wake_loaded_parent env w c ps o now a =
    let e : Workflow.awaits_child w.status ≡ true = ground (arith, a) in
    rw (e, not, if◌then◌else◌)
      (Leaves-lift-bind _ _ (λ wait k.
        rw (waits_as_parsed c.id w wait a k, not, if◌then◌else◌)
          (Leaves-deliver_to_parent env w c ps o now a)))

Leaves-wake_parents :
    (env : Env) (ps : List WorkflowRow) (c : WorkflowRow) (o : ChildOutcome) (now : DbMillis)
    → All (λ w. awaits c.id w ≡ true) ps
    → Leaves (Only c.id ps) (Only c.id []) (wake_parents env ps c o now)
unfolding wake_parents
Leaves-wake_parents env [] c o now a = Leaves-pure tt
Leaves-wake_parents env (w ∷ ps) c o now a =
    Leaves-bind _ _ (Leaves-wake_loaded_parent env w c ps o now a.0)
      (λ u. Leaves-wake_parents env ps c o now a.1)

-- When the wake of the parents of a terminal child succeeds, no workflow is left that waits for the
-- child, whether in `waiting_child` or paused with that wait.
pub wake_waiting_parents-none_left :
    (env : Env) (child : WorkflowRow) (outcome : ChildOutcome) (now : DbMillis) (db db' : Db)
    → wake_waiting_parents_on_child_terminal env child outcome now db ≡ ok (tt, db')
    → (r : WorkflowRow) → Memᴰ r db'.workflows
    → awaits child.id r ≡ false
unfolding wake_waiting_parents_on_child_terminal ◌>>=◌ reads
wake_waiting_parents-none_left env c o now db db' e r m =
    let found = select_where (awaits c.id) db.workflows in
    let only : Only c.id [] db'.workflows = subst (Ends (Only c.id [])) e (
      (Leaves-wake_parents env found c o now (select_where-All (awaits c.id) db.workflows)).at db
        (λ s k h. select_where-Memᴰ (awaits c.id) db.workflows s k h)) in
    elim (Bool-cases (awaits c.id r)) [ inl h ↦ elim (only r m h) [ ] | inr h ↦ h ]
