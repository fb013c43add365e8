-- ===== src/Tickets/Transition/Stamps.antt =====
-- The time stamps over several transitions.
use task_ticket_management_s.Prelude.{ℕ, ◌+◌, ◌≡◌, refl, false, Option, none, some, is_some, List}
use task_ticket_management_s.Codes.{TicketStatus}
use task_ticket_management_s.Store.{Ticket, ProjectMember}
use task_ticket_management_s.Tickets.Transition.{apply_transition}
use task_ticket_management_s.Validity.{IsValidRow}

stamp_none : (o : Option ℕ) → is_some o ≡ false → o ≡ none
stamp_none none h = refl
stamp_none (some a) h = cc

-- Writing to the columns of the status what stands there changes nothing.
same_columns :
    (t : Ticket) (st : TicketStatus) (a c x : Option ℕ) (v u : ℕ)
    → t.status ≡ st
    → t.actual_started_at ≡ a
    → t.completed_at ≡ c
    → t.cancelled_at ≡ x
    → (record t {
      status = st;
      actual_started_at = a;
      completed_at = c;
      cancelled_at = x;
      version = v;
      updated_at = u;
    })
      ≡ record t { version = v; updated_at = u }
same_columns t st a c x v u e f g h = rw (← e, ← f, ← g, ← h) refl

-- A ticket of a valid row that was started and is in progress, and is completed at one time and
-- reopened at another, is again as it was but for its version, which has grown by two, and its
-- time of update: it has no completion time, and it keeps its start.
pub apply_transition-reopen :
    (ms : List ProjectMember) (t : Ticket) (s n m : ℕ)
    → IsValidRow ms t
    → t.status ≡ TicketStatus.in_progress
    → t.actual_started_at ≡ some s
    → apply_transition m TicketStatus.in_progress (apply_transition n TicketStatus.done t)
      ≡ record t { version = t.version + 1 + 1; updated_at = m }
unfolding apply_transition
apply_transition-reopen ms t s n m v e started =
    same_columns t _ _ _ _ (t.version + 1 + 1) m e (rw started refl)
      (stamp_none t.completed_at (rw e at (v.completed))) (rw e refl)
