-- ===== src/Validity/Update.antt =====
-- Updates of the tickets' table that keep it valid: of all rows by a function, and of one row.
use task_ticket_management_s.Prelude.{
  ℕ, ◌≡◌, refl, sym, ◌∙◌, true, none, some, List, map, inl, inr, ◌==◌, ==→eq, Bool-cases, In,
  map-In, find_first-In, if◌then◌else◌,
}
use task_ticket_management_s.Store.{Ticket, ProjectMember}
use task_ticket_management_s.Tickets.Queries.{find_ticket}
use task_ticket_management_s.Tickets.Snapshots.{put_ticket}
use task_ticket_management_s.Validity.{HasParent, IsValidRow, IsValidTickets}
use task_ticket_management_s.Validity.Ids.{same_id, ids-map, find_ticket-map}

-- What an update of every row by `f` has to keep.
pub record IsUpdate (ts : List Ticket) (ms : List ProjectMember) (f : Ticket → Ticket)
    : Type 0 where
  pub keeps_id : (t : Ticket) → In t ts → (f t).id ≡ t.id
  pub same_project : (t : Ticket) → In t ts → (f t).project_id ≡ t.project_id
  pub same_type : (t : Ticket) → In t ts → (f t).type ≡ t.type
  pub row : (t : Ticket) → In t ts → IsValidRow ms (f t)
  pub parent : (t : Ticket) → In t ts → (p : ℕ) → (f t).parent_id ≡ some p → HasParent ts t p
  pub active :
      (t : Ticket)
      → In t ts
      → (p : ℕ) → (f t).parent_id ≡ some p
      → (u : Ticket) → find_ticket p ts ≡ some u
      → (f t).deleted_at ≡ none
      → (f u).deleted_at ≡ none

pub find_ticket-row :
    (ts : List Ticket) (p : ℕ) (u : Ticket) → find_ticket p ts ≡ some u → In u ts × (u.id ≡ p)
find_ticket-row ts p u h =
    let (m, e) = find_first-In (λ (t : Ticket). t.id == p) ts u h in (m, ==→eq u.id p e)

pub HasParent-active :
    (ts : List Ticket) (t u : Ticket) (p : ℕ)
    → HasParent ts t p
    → find_ticket p ts ≡ some u
    → t.deleted_at ≡ none
    → u.deleted_at ≡ none
HasParent-active ts t u p h found a =
    let both : some h.parent ≡ some u = cc (h.found) in
    let same : u ≡ h.parent = cc in rw same (h.active a)

module _ (ts : List Ticket) (ms : List ProjectMember) (f : Ticket → Ticket) where
  update_parent :
      IsUpdate ts ms f
      → (t : Ticket) → In t ts
      → (p : ℕ) → (f t).parent_id ≡ some p
      → HasParent (map f ts) (f t) p
  update_parent up t m p e =
      let old = up.parent t m p e in
      let (n, _) = find_ticket-row ts p old.parent old.found in
      record {
        parent = f old.parent;
        found = find_ticket-map f p ts up.keeps_id old.parent old.found;
        same_project = up.same_project old.parent n ∙ old.same_project ∙ sym (up.same_project t m);
        above = rw (up.same_type t m, up.same_type old.parent n) old.above;
        active = up.active t m p e old.parent old.found;
      }

  pub update-IsValidTickets : IsValidTickets ts ms → IsUpdate ts ms f → IsValidTickets (map f ts) ms
  update-IsValidTickets v up = record {
    unique = rw (ids-map f ts up.keeps_id) v.unique;
    row = λ t' m'. let (t, m, e) = map-In f ts t' m' in rw e (up.row t m);
    parent =
        λ t' m' p h. let (t, m, e) = map-In f ts t' m' in rw e (update_parent up t m p (rw e at h));
  }

-- An update of one active row: its id, project and type stay, and so does its place outside the
-- trash.
pub record IsRowUpdate (ts : List Ticket) (ms : List ProjectMember) (o c : Ticket) : Type 0 where
  pub old_row : In o ts
  pub keeps_id : c.id ≡ o.id
  pub same_project : c.project_id ≡ o.project_id
  pub same_type : c.type ≡ o.type
  pub was_active : o.deleted_at ≡ none
  pub is_active : c.deleted_at ≡ none
  pub row : IsValidRow ms c
  pub parent : (p : ℕ) → c.parent_id ≡ some p → HasParent ts o p

module _ (ts : List Ticket) (ms : List ProjectMember) (o c : Ticket) (v : IsValidTickets ts ms)
    (up : IsRowUpdate ts ms o c) where
  abbrev replaced : Ticket → Ticket
  replaced t = if t.id == c.id then c else t

  is_old : (t : Ticket) → In t ts → (t.id == c.id) ≡ true → t ≡ o
  is_old t m e = same_id ts t o v.unique m up.old_row (==→eq t.id c.id e ∙ up.keeps_id)

  -- A property of the new row and of every other row is one of all rows.
  replaced_ind :
      (P : Ticket → Ticket → Type 0)
      → P o c
      → ((t : Ticket) → In t ts → P t t)
      → (t : Ticket) → In t ts
      → P t (replaced t)
  replaced_ind P new other t m = elim (Bool-cases (t.id == c.id)) [
    | inl e ↦ rw e (rw (is_old t m e) new)
    | inr e ↦ rw e (other t m)
  ]

  replaced_active : (u : Ticket) → In u ts → u.deleted_at ≡ none → (replaced u).deleted_at ≡ none
  replaced_active u n =
      replaced_ind (λ t t'. t.deleted_at ≡ none → t'.deleted_at ≡ none) (λ _. up.is_active)
        (λ t m h. h) u n

  replaced-IsUpdate : IsUpdate ts ms replaced
  replaced-IsUpdate = record {
    keeps_id = replaced_ind (λ t t'. t'.id ≡ t.id) up.keeps_id (λ t m. refl);
    same_project =
        replaced_ind (λ t t'. t'.project_id ≡ t.project_id) up.same_project (λ t m. refl);
    same_type = replaced_ind (λ t t'. t'.type ≡ t.type) up.same_type (λ t m. refl);
    row = replaced_ind (λ t t'. IsValidRow ms t') up.row v.row;
    parent =
        replaced_ind (λ t t'. (p : ℕ) → t'.parent_id ≡ some p → HasParent ts t p) up.parent
          v.parent;
    active = λ t m p e u h a.
        let (n, _) = find_ticket-row ts p u h in
        replaced_active u n (
          replaced_ind
            (λ t t'.
              (p : ℕ)
              → t'.parent_id ≡ some p
              → (u : Ticket) → find_ticket p ts ≡ some u
              → t'.deleted_at ≡ none
              → u.deleted_at ≡ none)
            (λ p e u h a. HasParent-active ts o u p (up.parent p e) h up.was_active)
            (λ t m p e u h a. HasParent-active ts t u p (v.parent t m p e) h a) t m p e u h a);
  }

  pub put_ticket-IsValidTickets : IsValidTickets (put_ticket c ts) ms
  put_ticket-IsValidTickets = update-IsValidTickets ts ms replaced v replaced-IsUpdate
