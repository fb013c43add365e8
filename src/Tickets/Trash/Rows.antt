-- ===== src/Tickets/Trash/Rows.antt =====
-- A row that goes to the trash and comes back.
use task_ticket_management_s.Prelude.{ℕ, ◌+◌, ◌≡◌, refl, Option, none, some, is_some, List}
use task_ticket_management_s.Store.{Ticket, ProjectMember}
use task_ticket_management_s.Validity.{IsValidRow}
use task_ticket_management_s.Tickets.Trash.{trash_ticket, restore_ticket}

same_columns :
    (t : Ticket) (d b : Option ℕ) (v u : ℕ)
    → t.deleted_at ≡ d
    → t.deletion_batch_id ≡ b
    → (record t { deleted_at = d; deletion_batch_id = b; version = v; updated_at = u })
      ≡ record t { version = v; updated_at = u }
same_columns t d b v u e f = rw (← e, ← f) refl

none_by : (a b : Option ℕ) → is_some a ≡ is_some b → a ≡ none → b ≡ none
none_by a none h e = refl
none_by none (some y) h e = cc
none_by (some x) (some y) h e = cc

-- A ticket of a valid row outside the trash that is moved to the trash and restored is as it was
-- but for its version, which has grown by two, and its time of update.
pub restore_ticket-trash_ticket :
    (ms : List ProjectMember) (t : Ticket) (n batch m : ℕ)
    → IsValidRow ms t
    → t.deleted_at ≡ none
    → restore_ticket m (trash_ticket n batch t)
      ≡ record t { version = t.version + 1 + 1; updated_at = m }
unfolding restore_ticket trash_ticket
restore_ticket-trash_ticket ms t n batch m v active =
    same_columns t none none (t.version + 1 + 1) m active
      (none_by t.deleted_at t.deletion_batch_id v.deletion_pair active)
