-- ===== src/Wait/Columns.antt =====
-- Reading the wait columns and writing them are inverse.
use durable_workflows.Base.{ℕ, ◌≤◌, ◌<◌, ◌≡◌, ◌↔◌, ap, refl, arith, Option, none, some}
use durable_workflows.Base.Int.{ℤ, pos, pos_part}
use durable_workflows.Base.Outcome.{ok}
use durable_workflows.Status.Waits.{WaitKind}
use durable_workflows.Wait.{
  Wait, timer, activity, child, approval, parse, new_id, u32_try_from, kind, reference_id,
}

-- The ids of a wait are positive, and a timer's command sequence is a `u32`.
abbrev pub IsStorable : Wait → Type 0
IsStorable (timer n) = n ≤ 4_294_967_295
IsStorable (activity id) = 0 < pos_part id
IsStorable (child id) = 0 < pos_part id
IsStorable (approval id) = 0 < pos_part id

-- What the two columns hold for a wait, or for none.
abbrev pub columns : Option Wait → Option WaitKind × Option ℤ
columns none = (none, none)
columns (some w) = (some (kind w), some (reference_id w))

abbrev pub AllStorable : Option Wait → Type 0
AllStorable none = Unit
AllStorable (some w) = IsStorable w

new_id_iff : (a b : ℤ) → (new_id a ≡ ok b) ↔ ((a ≡ b) × (0 < pos_part b))
unfolding new_id
new_id_iff a b = (λ h. ground arith, λ h. ground arith)

parse-columns : (w : Option Wait) → AllStorable w → parse (columns w).0 (columns w).1 ≡ ok w
unfolding parse new_id u32_try_from
parse-columns none h = refl
parse-columns (some (timer n)) h = ground arith
parse-columns (some (activity id)) h = ground arith
parse-columns (some (child id)) h = ground arith
parse-columns (some (approval id)) h = ground arith

pub u32_try_from_inv : (a : ℤ) (n : ℕ) → u32_try_from a ≡ ok n → (a ≡ pos n) × (n ≤ 4_294_967_295)
unfolding u32_try_from
u32_try_from_inv a n h = ground arith

columns-parse :
    (k : Option WaitKind) (r : Option ℤ) (w : Option Wait)
    → parse k r ≡ ok w
    → ((k, r) ≡ columns w) × AllStorable w
unfolding parse
columns-parse none none w h = ground arith
columns-parse none (some r) w h = cc
columns-parse (some k) none w h = cc
columns-parse (some WaitKind.timer) (some r) w h = ground (arith)
columns-parse (some WaitKind.activity) (some r) w h = ground (arith)
columns-parse (some WaitKind.child) (some r) w h = ground (arith)
columns-parse (some WaitKind.approval) (some r) w h = ground (arith)

-- The two columns parse to a wait, or to none, exactly when they are the columns it is written to
-- and its ids are valid; a kind without a reference and a reference without a kind never parse.
pub parse_iff :
    (k : Option WaitKind) (r : Option ℤ) (w : Option Wait)
    → (parse k r ≡ ok w) ↔ (((k, r) ≡ columns w) × AllStorable w)
parse_iff k r w = (
  columns-parse k r w,
  λ h.
      rw
        (
          ← ap (λ (c : Option WaitKind × Option ℤ). c.0) h.0,
          ← ap (λ (c : Option WaitKind × Option ℤ). c.1) h.0,
        )
        at (parse-columns w h.1),
)
