-- ===== src/Accounts/Administered.antt =====
-- `create_user`, `update_user` and `reset_user_password` keep the accounts valid.
use task_ticket_management_s.Prelude.{
  ℕ, ◌≡◌, refl, ◌&&◌, Bool, true, false, leb, member, In, Text, select-In, not, ◌==◌, inl, arith,
}
use task_ticket_management_s.Store.{User, UserSession, Db}
use task_ticket_management_s.Action.{Env, Action, pure}
use task_ticket_management_s.Action.Triple.{
  Returns, returned, Returns-bind, Returns-pure, Returns-gets, Returns-raise_if, Returns-or_raise,
  Returns-modify, Returns-modify_last, Returns-raise_if_last, transaction_keeps,
}
use task_ticket_management_s.Projects.Access.{when}
use task_ticket_management_s.Accounts.Passwords.{Secrets}
use task_ticket_management_s.Accounts.Queries.{
  active_system_administrator_count, revoke_user_sessions,
}
use task_ticket_management_s.Accounts.Users.{
  UserView, UserCreate, UserUpdate, new_user, create_user_body, create_user,
  removes_active_administrator, protect_last_active_administrator, activity_change, write_user,
  update_user_body, update_user, reset_password, reset_password_body, reset_user_password, put_user,
}
use task_ticket_management_s.Accounts.Tree.{
  HasOrganization, find_organization-some, require_administrator-Keeps, Returns-check,
  Returns-organization,
}
use task_ticket_management_s.Accounts.Validity.{
  user_ids, IsValidAccounts, AreValid, put_user-IsValidAccounts,
}
use task_ticket_management_s.Accounts.Edited.{
  append-user, Returns-managed, hash_password-Keeps, written-AreValid, revoke_if-rest,
}

when-Returns :
    (P : Db → Type 0) (b : Bool) (m : Action (Unit {0})) (db : Db)
    → P db
    → Returns (λ _ d. P d) (m db)
    → Returns (λ _ d. P d) (when b m db)
unfolding when pure
when-Returns P true m db h k = k
when-Returns P false m db h k = returned tt db h

module _ (env : Env) (actor : ℕ) (db : Db) (valid : AreValid db) where
  create_user_body-Returns :
      (secrets : Secrets) (payload : UserCreate) (ip : Text)
      → member env.new_id (user_ids db.users) ≡ false
      → Returns (λ (_ : ℕ) d. AreValid d) (create_user_body env secrets actor payload ip db)
  unfolding create_user_body new_user
  create_user_body-Returns secrets payload ip fresh =
      Returns-check _ _ _ _ (require_administrator-Keeps _ actor) λ _.
        Returns-or_raise _ _ _ _ _ λ login found. Returns-organization _ _ _ _ _ λ o here.
          Returns-gets _ _ _ _ (
            Returns-raise_if _ _ _ _ _ λ _.
              Returns-check _ _ _ _ (hash_password-Keeps _ secrets _) λ password_hash.
                Returns-modify _ _ _ _ (
                  Returns-modify _ _ _ _ (
                    Returns-pure _ _ _ (
                      append-user (new_user env login payload password_hash) db.users
                        db.organizations db.sessions valid fresh
                        (record {
                          deactivated_at = refl;
                          deactivated_by = refl;
                          organization =
                              find_organization-some db.organizations payload.organization_id here;
                        })))))

  pub create_user-IsValid :
      (secrets : Secrets) (payload : UserCreate) (ip : Text)
      → member env.new_id (user_ids db.users) ≡ false
      → AreValid (create_user env secrets actor payload ip db).1
  unfolding create_user
  create_user-IsValid secrets payload ip fresh =
      transaction_keeps _ AreValid _ db valid (λ _ _ h. h)
        (create_user_body-Returns secrets payload ip fresh)

  write_user-Returns :
      (u : User) (payload : UserUpdate) (ip : Text)
      → In u db.users
      → HasOrganization db.organizations payload.organization_id
      → (removes_active_administrator u payload
          && leb (active_system_administrator_count db.users) 1)
        ≡ false
      → Returns (λ (_ : Unit {0}) d. AreValid d) (write_user env actor ip u payload db)
  unfolding write_user
  write_user-Returns u payload ip here o guard =
      let rest = revoke_if-rest (activity_change u.is_active payload.is_active) u.id db in
      Returns-modify _ _ _ _ (
        Returns-modify _ _ _ _ (
          Returns-modify_last _ _ _
            (rw rest (written-AreValid env actor payload u db valid here o guard))))

  update_user_body-Returns :
      (uid : ℕ) (payload : UserUpdate) (ip : Text)
      → Returns (λ (_ : UserView) d. AreValid d) (update_user_body env actor uid payload ip db)
  unfolding update_user_body protect_last_active_administrator
  update_user_body-Returns uid payload ip =
      Returns-check _ _ _ _ (require_administrator-Keeps _ actor) λ _.
        Returns-managed _ _ _ _ λ managed here is. Returns-organization _ _ _ _ _ λ o there.
          Returns-gets _ _ _ _ (
            Returns-raise_if _ _ _ _ _ λ _.
              Returns-bind _
                (λ _ d.
                  (d ≡ db)
                  × ((removes_active_administrator managed.user payload
                        && leb (active_system_administrator_count db.users) 1)
                      ≡ false))
                _ _ _ (Returns-gets _ _ _ _ (Returns-raise_if_last _ _ _ _ λ guard. (refl, guard)))
                λ _ d (same, guard). rw same (
                  Returns-bind _ (λ _ d. AreValid d) _ _ _
                    (when-Returns AreValid _ _ db valid
                      (write_user-Returns managed.user payload ip here there guard))
                    λ _ d h. Returns-pure _ _ _ h))

  pub update_user-IsValid :
      (uid : ℕ) (payload : UserUpdate) (ip : Text)
      → AreValid (update_user env actor uid payload ip db).1
  unfolding update_user
  update_user-IsValid uid payload ip =
      transaction_keeps _ AreValid _ db valid (λ _ _ h. h) (update_user_body-Returns uid payload ip)

  reset-AreValid :
      (u : User) (password_hash : Text)
      → In u db.users
      → IsValidAccounts
          (put_user (reset_password password_hash u) db.users)
          db.organizations
          (revoke_user_sessions u.id db.sessions)
  reset-AreValid u password_hash here =
      put_user-IsValidAccounts db.users db.organizations db.sessions _ u
        (reset_password password_hash u) valid
        (record {
          stands = here;
          keeps_id = refl;
          row = record {
            deactivated_at = (valid.row u here).deactivated_at;
            deactivated_by = (valid.row u here).deactivated_by;
            organization = (valid.row u here).organization;
          };
          administrator = inl (λ h. h);
        })
        λ s m.
          let (n, other) =
            select-In (λ (s : UserSession). not (s.user_id == u.id)) db.sessions s m in
          (n, λ same. absurd (ground (arith, same, other)))

  reset_password_body-Returns :
      (secrets : Secrets) (uid : ℕ) (password ip : Text)
      → Returns
          (λ (_ : UserView) d. AreValid d)
          (reset_password_body env secrets actor uid password ip db)
  unfolding reset_password_body
  reset_password_body-Returns secrets uid password ip =
      Returns-check _ _ _ _ (require_administrator-Keeps _ actor) λ _.
        Returns-managed _ _ _ _ λ managed here is.
          Returns-check _ _ _ _ (hash_password-Keeps _ secrets _) λ password_hash.
            Returns-modify _ _ _ _ (
              Returns-modify _ _ _ _ (
                Returns-modify _ _ _ _
                  (Returns-pure _ _ _ (reset-AreValid managed.user password_hash here))))

  pub reset_user_password-IsValid :
      (secrets : Secrets) (uid : ℕ) (password ip : Text)
      → AreValid (reset_user_password env secrets actor uid password ip db).1
  unfolding reset_user_password
  reset_user_password-IsValid secrets uid password ip =
      transaction_keeps _ AreValid _ db valid (λ _ _ h. h)
        (reset_password_body-Returns secrets uid password ip)
