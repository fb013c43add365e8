-- ===== src/Projects/Members/Replaced.antt =====
-- Valid members and tickets after one membership is replaced by one with the same id, project and
-- user.
use task_ticket_management_s.Prelude.{
  ℕ, ◌<◌, ◌≡◌, refl, ◌∙◌, true, some, List, ◌==◌, arith, Bool-cases, inl, inr, ◌⊎◌, In, ==→eq,
  &&-true,
}
use task_ticket_management_s.Codes.{ProjectRole, role_eq}
use task_ticket_management_s.Store.{Project, ProjectMember, Ticket}
use task_ticket_management_s.Projects.Queries.{project_administrator_count, is_admin_of, is_open}
use task_ticket_management_s.Projects.Settings.{put_member}
use task_ticket_management_s.Projects.Members.Rows.{
  same_member, put-ids, count_where-put, count_where-put_fitting, any-put,
}
use task_ticket_management_s.Tickets.Queries.{is_assignable}
use task_ticket_management_s.Validity.{IsValidMembers}
use task_ticket_management_s.Validity.Members.{KeepsAssignees}

pub record IsReplacement (ms : List ProjectMember) (o c : ProjectMember) : Type 0 where
  pub old_row : In o ms
  pub keeps_id : c.id ≡ o.id
  pub keeps_project : c.project_id ≡ o.project_id
  pub keeps_user : c.user_id ≡ o.user_id

module _ (ps : List Project) (ms : List ProjectMember) (o c : ProjectMember)
    (v : IsValidMembers ps ms) (r : IsReplacement ms o c) where
  -- The project keeps an administrator if the row stays one, or another row is one.
  replaced-administered :
      (role_eq o.role ProjectRole.admin ≡ true → role_eq c.role ProjectRole.admin ≡ true)
        ⊎ (1 < project_administrator_count ms o.project_id)
      → (p : Project) → In p ps
      → 0 < project_administrator_count (put_member c ms) p.id
  replaced-administered (inl stays) p i =
      let before = v.administered p i in
      let kept = count_where-put_fitting (is_admin_of p.id) c ms λ m j e h.
        let is_o = same_member ms m o v.unique j r.old_row (==→eq m.id c.id e ∙ r.keeps_id) in
        let (project, admin) =
          &&-true (m.project_id == p.id) (role_eq m.role ProjectRole.admin) h in
        let there : (c.project_id == p.id) ≡ true = rw (r.keeps_project, ← is_o) project in
        rw (there, stays (rw (← is_o) admin)) refl in
      omega arith
  replaced-administered (inr other) p i =
      let before = v.administered p i in
      elim (Bool-cases (o.project_id == p.id)) [
        | inl e ↦
            let lost = count_where-put (is_admin_of p.id) c ms v.unique in
            let more : 1 < project_administrator_count ms p.id =
              rw (← (==→eq o.project_id p.id e)) other in
            omega arith
        | inr e ↦
            let kept = count_where-put_fitting (is_admin_of p.id) c ms λ m j f h.
              let is_o = same_member ms m o v.unique j r.old_row (==→eq m.id c.id f ∙ r.keeps_id) in
              let (project, _) =
                &&-true (m.project_id == p.id) (role_eq m.role ProjectRole.admin) h in
              let there : (o.project_id == p.id) ≡ true = rw (← is_o) project in cc in
            omega arith
      ]

  pub put_member-IsValidMembers :
      (role_eq o.role ProjectRole.admin ≡ true → role_eq c.role ProjectRole.admin ≡ true)
        ⊎ (1 < project_administrator_count ms o.project_id)
      → IsValidMembers ps (put_member c ms)
  put_member-IsValidMembers guard = record {
    unique = rw (put-ids c ms) v.unique;
    administered = replaced-administered guard;
  }

  -- The open tickets keep their assignees if the new row may be assigned, or the old one serves
  -- none of them.
  pub put_member-KeepsAssignees :
      (ts : List Ticket)
      → ((t : Ticket)
          → In t ts
          → (u : ℕ) → t.assignee_id ≡ some u
          → is_open t ≡ true
          → is_assignable t.project_id u o ≡ true
          → is_assignable t.project_id u c ≡ true)
      → KeepsAssignees ts ms (put_member c ms)
  put_member-KeepsAssignees ts fits t i u e opened h =
      any-put (is_assignable t.project_id u) o c ms v.unique r.old_row r.keeps_id
        (fits t i u e opened) h
