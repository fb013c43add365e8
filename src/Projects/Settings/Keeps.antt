-- ===== src/Projects/Settings/Keeps.antt =====
-- Creating and changing a project keeps the tables valid.
use task_ticket_management_s.Prelude.{
  ℕ, ◌≡◌, refl, ap, Bool, true, false, some, List, [], ◌∷◌, ◌++◌, ◌==◌, arith, Bool-cases, inl, inr,
  In-append, map-In, member, find_first-In, ==→eq, ==_refl, Text, if◌then◌else◌,
}
use task_ticket_management_s.Store.{Project, ProjectMember, Db}
use task_ticket_management_s.Action.{Env, Action, modify, ◌>>=◌}
use task_ticket_management_s.Action.Triple.{
  Returns, Returns-pure, Returns-bind, Returns-raise_if, Returns-or_raise, Returns-or_raise_last,
  Returns-gets, Returns-modify, Returns-modify_last, Returns-raise_if_last, transaction_keeps,
}
use task_ticket_management_s.Projects.Queries.{lock_project_membership, find_project, is_admin_of}
use task_ticket_management_s.Projects.Access.{require_system_administrator, when}
use task_ticket_management_s.Projects.Access.Rules.{
  Returns-access, Returns-when, is_system_administrator-Returns,
}
use task_ticket_management_s.Projects.Settings.{
  ProjectCreate, ProjectUpdate, put_member, put_project, new_project, create_project_body,
  create_project, changes_activity, lock_project_management, apply_project_update,
  write_project_update, update_project_body, update_project, favorite_body, set_project_favorite,
}
use task_ticket_management_s.Projects.Members.Rows.{member_ids}
use task_ticket_management_s.Projects.Members.Replaced.{
  IsReplacement, put_member-IsValidMembers, put_member-KeepsAssignees,
}
use task_ticket_management_s.Validity.{IsValid, IsValidMembers}
use task_ticket_management_s.Validity.Ids.{NoDup-append}
use task_ticket_management_s.Validity.Members.{
  members-IsValidTickets, append-KeepsAssignees, count_where-append, count_where-append_fitting,
}

module _ (actor : ℕ) (db : Db) where
  require_system_administrator-Returns :
      Returns (λ _ d. d ≡ db) (require_system_administrator actor db)
  unfolding require_system_administrator
  require_system_administrator-Returns =
      Returns-bind _ _ _ _ db (is_system_administrator-Returns actor db)
        λ b d (same, active). rw same (Returns-raise_if_last _ _ _ db λ _. refl)

  lock_project_management-Returns :
      (pid : ℕ)
      → Returns
          (λ p d. (d ≡ db) × (find_project pid db.projects ≡ some p))
          (lock_project_management pid db)
  unfolding lock_project_management
  lock_project_management-Returns pid =
      Returns-gets _ _ _ db (Returns-or_raise_last _ _ _ db λ p found. (refl, found))

  -- The rule for the lock on the project's row.
  pub Returns-lock :
      {B : Type 0} (Q : B → Db → Type 0) (pid : ℕ) (k : Project → Action B)
      → ((p : Project) → Returns Q (k p db))
      → Returns Q ((lock_project_management pid >>= k) db)
  Returns-lock Q pid k next =
      Returns-bind Q _ _ k db (lock_project_management-Returns pid) λ p d (e, _). rw e (next p)

pub member_ids-append :
    (ms : List ProjectMember) (n : ProjectMember)
    → member_ids (ms ++ n ∷ []) ≡ member_ids ms ++ n.id ∷ []
member_ids-append [] n = refl
member_ids-append (m ∷ ms) n = ap (λ (is : List ℕ). m.id ∷ is) (member_ids-append ms n)

module _ (ps : List Project) (ms : List ProjectMember) (v : IsValidMembers ps ms)
    (n : ProjectMember) (fresh : member n.id (member_ids ms) ≡ false) where
  pub append-IsValidMembers : IsValidMembers ps (ms ++ n ∷ [])
  append-IsValidMembers = record {
    unique = rw (member_ids-append ms n) (NoDup-append n.id (member_ids ms) v.unique fresh);
    administered = λ p i.
        let before = v.administered p i in
        let grown = count_where-append (is_admin_of p.id) ms (n ∷ []) in omega arith;
  }

  -- A new project comes with its administrator.
  pub append_project-IsValidMembers :
      (p : Project) → is_admin_of p.id n ≡ true → IsValidMembers (ps ++ p ∷ []) (ms ++ n ∷ [])
  append_project-IsValidMembers p h = record {
    unique = append-IsValidMembers.unique;
    administered = λ q i. elim (In-append ps (p ∷ []) q i) [
      | inl old ↦ append-IsValidMembers.administered q old
      | inr (inl e) ↦ rw e (count_where-append_fitting (is_admin_of p.id) ms n h)
      | inr (inr empty) ↦ absurd empty
    ];
  }

-- A project's row changes, but not its id.
put_project-IsValidMembers :
    (c : Project) (ps : List Project) (ms : List ProjectMember)
    → IsValidMembers ps ms
    → IsValidMembers (put_project c ps) ms
put_project-IsValidMembers c ps ms v = record {
  unique = v.unique;
  administered = λ p i.
      let (o, j, e) = map-In (λ q. if q.id == c.id then c else q) ps p i in
      let before = v.administered o j in
      elim (Bool-cases (o.id == c.id)) [
        | inl f ↦
            let is_c : p ≡ c = rw f at e in let same = ==→eq o.id c.id f in rw (is_c, ← same) before
        | inr f ↦ let is_o : p ≡ o = rw f at e in rw is_o before
      ];
}

module _ (env : Env) (actor : ℕ) (payload : ProjectCreate) (db : Db) (valid : IsValid db)
    (fresh : member env.new_member_id (member_ids db.members) ≡ false) where
  create_project_body-Returns :
      Returns (λ (_ : ℕ) d. IsValid d) (create_project_body env actor payload db)
  unfolding create_project_body
  create_project_body-Returns =
      Returns-bind _ _ _ _ db (require_system_administrator-Returns actor db) λ _ d same. rw same (
        Returns-gets _ _ _ db (
          Returns-raise_if _ _ _ _ db λ _. Returns-raise_if _ _ _ _ db λ _. Returns-modify _ _ _ _ (
            Returns-modify _ _ _ _ (
              Returns-modify _ _ _ _ (
                Returns-modify _ _ _ _ (
                  Returns-pure _ _ _ (
                    members-IsValidTickets _ _ _ valid.0 (append-KeepsAssignees _ _ _),
                    valid.1,
                    append_project-IsValidMembers _ _ valid.2 _ fresh
                        (new_project env actor payload) (rw (==_refl env.new_id) refl),
                  )))))))

  -- `create_project`: if the id of the new membership is not in use, then if the tables are valid
  -- beforehand, they are valid afterwards, whether the call returns or raises. So the project has
  -- an administrator from the start.
  pub create_project-IsValid : IsValid (create_project env actor payload db).1
  unfolding create_project
  create_project-IsValid =
      transaction_keeps _ IsValid _ db valid (λ _ _ h. h) create_project_body-Returns

when_last-Returns :
    (Q : Unit {0} → Db → Type 0) (b : Bool) (f : Db → Db) (d : Db)
    → Q tt (f d)
    → Q tt d
    → Returns Q (when b (modify f) d)
unfolding when
when_last-Returns Q true f d written kept = Returns-modify_last Q f d written
when_last-Returns Q false f d written kept = Returns-pure Q tt d kept

module _ (actor : ℕ) (key : Text) (db : Db) (valid : IsValid db) where
  write_project_update-Returns :
      (payload : ProjectUpdate) (p : Project) (d : Db)
      → IsValid d
      → Returns (λ _ e. IsValid e) (write_project_update actor payload p d)
  unfolding write_project_update
  write_project_update-Returns payload p d v =
      let w : IsValid
          (record d { projects = put_project (apply_project_update payload p) d.projects }) =
        (
          v.0,
          v.1,
          put_project-IsValidMembers (apply_project_update payload p) d.projects d.members v.2,
        ) in
      Returns-modify _ _ _ _ (
        Returns-when _ _ _ _ _ (when_last-Returns _ (changes_activity payload p) _ _ w w)
          (when_last-Returns _ (changes_activity payload p) _ _ w w))

  when_changed-Returns :
      (payload : ProjectUpdate) (p : Project) (b : Bool) (d : Db)
      → IsValid d
      → Returns (λ _ e. IsValid e) (when b (write_project_update actor payload p) d)
  unfolding when
  when_changed-Returns payload p false d v = Returns-pure _ tt d v
  when_changed-Returns payload p true d v = write_project_update-Returns payload p d v

  update_project_body-Returns :
      (payload : ProjectUpdate)
      → Returns (λ _ d. IsValid d) (update_project_body actor key payload db)
  unfolding update_project_body
  update_project_body-Returns payload = Returns-access _ _ _ _ db _ _ λ p xs access.
      let d0 : Db = record db { audits = xs } in
      Returns-lock actor d0 _ _ _ λ row.
        Returns-bind _ _ _ _ d0 (when_changed-Returns payload row _ d0 valid)
          λ _ d v. Returns-pure _ _ d v

  -- `update_project`: if the tables are valid beforehand, they are valid afterwards, whether the
  -- call returns or raises.
  pub update_project-IsValid :
      (payload : ProjectUpdate) → IsValid (update_project actor key payload db).1
  unfolding update_project
  update_project-IsValid payload =
      transaction_keeps _ IsValid _ db valid (λ _ _ h. h) (update_project_body-Returns payload)

  marked-IsValid :
      (m : ProjectMember) (b : Bool)
      → lock_project_membership db key actor ≡ some m
      → IsValid (record db { members = put_member (record m { is_favorite = b }) db.members })
  marked-IsValid m b found =
      let (i, _) = find_first-In _ db.members m found in
      let r : IsReplacement db.members m (record m { is_favorite = b }) = record {
        old_row = i;
        keeps_id = refl;
        keeps_project = refl;
        keeps_user = refl;
      } in
      let c = record m { is_favorite = b } in
      (
        members-IsValidTickets db.tickets db.members (put_member c db.members) valid.0 (
            put_member-KeepsAssignees db.projects db.members m c valid.2 r db.tickets
              λ t j u e o h. h),
        valid.1,
        put_member-IsValidMembers db.projects db.members m c valid.2 r (inl λ h. h),
      )

  favorite_body-Returns :
      (b : Bool) → Returns (λ (_ : Bool) d. IsValid d) (favorite_body actor key b db)
  unfolding favorite_body
  favorite_body-Returns b = Returns-gets _ _ _ db (
      Returns-or_raise _ _ _ _ db λ m found.
        Returns-when _ _ _ _ db (Returns-pure _ _ _ (marked-IsValid m b found))
          (Returns-pure _ _ _ valid))

  -- `set_project_favorite`: if the tables are valid beforehand, they are valid afterwards, whether
  -- the call returns or raises.
  pub set_project_favorite-IsValid : (b : Bool) → IsValid (set_project_favorite actor key b db).1
  unfolding set_project_favorite
  set_project_favorite-IsValid b =
      transaction_keeps _ IsValid _ db valid (λ _ _ h. h) (favorite_body-Returns b)
