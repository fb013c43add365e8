-- ===== src/Tickets/Guards/Machine.antt =====
-- The finite state machine of a ticket's status, as a graph.
use task_ticket_management_s.Prelude.{◌≡◌, refl, not, ◌&&◌, true, false}
use task_ticket_management_s.Codes.{TicketStatus, status_eq}
use task_ticket_management_s.Projects.Queries.{is_terminal}
use task_ticket_management_s.Tickets.Guards.{is_allowed_transition}

-- The statuses that a ticket comes through.
pub data Leads : TicketStatus → TicketStatus → Type 0 where
  here : (s : TicketStatus) → Leads s s
  through : (s m t : TicketStatus) → is_allowed_transition s m ≡ true → Leads m t → Leads s t

-- An allowed transition changes the status; only a ticket in progress is completed; and a ticket
-- that is done or cancelled goes to an open status.
pub is_allowed_transition_lem :
    (s t : TicketStatus)
    → is_allowed_transition s t ≡ true
    → (status_eq s t ≡ false)
      × ((status_eq t TicketStatus.done && not (status_eq s TicketStatus.in_progress)) ≡ false)
      × ((is_terminal s && is_terminal t) ≡ false)
unfolding is_allowed_transition
is_allowed_transition_lem TicketStatus.todo TicketStatus.todo h = cc
is_allowed_transition_lem TicketStatus.todo TicketStatus.in_progress h = (refl, refl, refl)
is_allowed_transition_lem TicketStatus.todo TicketStatus.done h = cc
is_allowed_transition_lem TicketStatus.todo TicketStatus.on_hold h = (refl, refl, refl)
is_allowed_transition_lem TicketStatus.todo TicketStatus.cancelled h = (refl, refl, refl)
is_allowed_transition_lem TicketStatus.in_progress TicketStatus.todo h = cc
is_allowed_transition_lem TicketStatus.in_progress TicketStatus.in_progress h = cc
is_allowed_transition_lem TicketStatus.in_progress TicketStatus.done h = (refl, refl, refl)
is_allowed_transition_lem TicketStatus.in_progress TicketStatus.on_hold h = (refl, refl, refl)
is_allowed_transition_lem TicketStatus.in_progress TicketStatus.cancelled h = (refl, refl, refl)
is_allowed_transition_lem TicketStatus.on_hold TicketStatus.todo h = (refl, refl, refl)
is_allowed_transition_lem TicketStatus.on_hold TicketStatus.in_progress h = (refl, refl, refl)
is_allowed_transition_lem TicketStatus.on_hold TicketStatus.done h = cc
is_allowed_transition_lem TicketStatus.on_hold TicketStatus.on_hold h = cc
is_allowed_transition_lem TicketStatus.on_hold TicketStatus.cancelled h = (refl, refl, refl)
is_allowed_transition_lem TicketStatus.done TicketStatus.todo h = cc
is_allowed_transition_lem TicketStatus.done TicketStatus.in_progress h = (refl, refl, refl)
is_allowed_transition_lem TicketStatus.done TicketStatus.done h = cc
is_allowed_transition_lem TicketStatus.done TicketStatus.on_hold h = cc
is_allowed_transition_lem TicketStatus.done TicketStatus.cancelled h = cc
is_allowed_transition_lem TicketStatus.cancelled TicketStatus.todo h = (refl, refl, refl)
is_allowed_transition_lem TicketStatus.cancelled TicketStatus.in_progress h = cc
is_allowed_transition_lem TicketStatus.cancelled TicketStatus.done h = cc
is_allowed_transition_lem TicketStatus.cancelled TicketStatus.on_hold h = cc
is_allowed_transition_lem TicketStatus.cancelled TicketStatus.cancelled h = cc

-- Every status leads to IN_PROGRESS, and IN_PROGRESS to every status.
to_progress : (s : TicketStatus) → Leads s TicketStatus.in_progress
unfolding is_allowed_transition
to_progress TicketStatus.todo = through _ _ _ refl (here _)
to_progress TicketStatus.in_progress = here _
to_progress TicketStatus.on_hold = through _ _ _ refl (here _)
to_progress TicketStatus.done = through _ _ _ refl (here _)
to_progress TicketStatus.cancelled =
    through _ TicketStatus.todo _ refl (through _ _ _ refl (here _))

from_progress : (t : TicketStatus) → Leads TicketStatus.in_progress t
unfolding is_allowed_transition
from_progress TicketStatus.todo =
    through _ TicketStatus.on_hold _ refl (through _ _ _ refl (here _))
from_progress TicketStatus.in_progress = here _
from_progress TicketStatus.on_hold = through _ _ _ refl (here _)
from_progress TicketStatus.done = through _ _ _ refl (here _)
from_progress TicketStatus.cancelled = through _ _ _ refl (here _)

Leads-join : (s m t : TicketStatus) → Leads s m → Leads m t → Leads s t
Leads-join s m t (here _) q = q
Leads-join s m t (through _ n _ step rest) q = through s n t step (Leads-join n m t rest q)

-- No status is a dead end: from every status, allowed transitions lead to every other.
pub get_allowed_transitions-Leads : (s t : TicketStatus) → Leads s t
get_allowed_transitions-Leads s t =
    Leads-join s TicketStatus.in_progress t (to_progress s) (from_progress t)
