-- ===== src/Accounts/Throttle.antt =====
-- The throttle of logins and password changes in app/services/auth.py.
use task_ticket_management_s.Prelude.{
  ℕ, ◌-◌, ◌*◌, ◌≤◌, ◌<◌, ◌≡◌, refl, Bool, true, false, ◌||◌, Option, none, some, List, [], ◌∷◌,
  ◌++◌, leb, Bool-cases, inl, inr, ||-false, count_where, count_where_mono, count_where-append,
  arith, Text, text_eq, text_eq→eq,
}
use task_ticket_management_s.Store.{User, SecurityEvent, Db, password_changed}
use task_ticket_management_s.Action.{
  Env, auth_error, login_rate_limited, Result, err, Action, pure, raise, gets, ◌>>=◌, transaction,
}
use task_ticket_management_s.Action.Triple.{
  Returns, Returns-bind, Returns-pure, Returns-gets, Returns-modify, transaction_keeps,
}
use task_ticket_management_s.Action.Frame.{
  Keeps, keeps_rules, Keeps-bind, Keeps-raise_if, Returns-Keeps,
}
use task_ticket_management_s.Accounts.Passwords.{
  Secrets, Settings, Identity, validate_password, normalized_login_id,
}
use task_ticket_management_s.Accounts.Queries.{
  is_login_failed, is_login_identity, is_failure_of, is_failure_from, count_identity_failures,
  count_address_failures, find_login,
}
use task_ticket_management_s.Tickets.Snapshots.{option_text_eq}
use task_ticket_management_s.Accounts.Sessions.{
  second, window_start, is_limited, failure_event, session_event, login_key, find_candidate,
  accepted_user, revoke_previous, has_token_length, open_session, unless_limited, authenticate_body,
  authenticate_user, verified_user, put_password, write_password, change_password_body,
  change_user_password,
}
use task_ticket_management_s.Accounts.Edited.{hash_password-Keeps}
use task_ticket_management_s.Accounts.Logins.{build_identity-Keeps, raise_result-Keeps}

-- No login id and no address has more failures since then than the settings allow.
pub record IsThrottled (settings : Settings) (since : ℕ) (es : List SecurityEvent) : Type 0 where
  pub by_identity :
      (key : Text) → count_identity_failures since key es ≤ settings.login_max_failures
  pub by_address : (ip : Text) → count_address_failures since ip es ≤ settings.login_max_ip_failures

abbrev pub Throttled : Settings → ℕ → Db → Type 0
Throttled settings since db = IsThrottled settings since db.events

-- An event that is no failure.
other_event :
    (settings : Settings) (since : ℕ) (es : List SecurityEvent) (e : SecurityEvent)
    → is_login_failed e.action ≡ false
    → IsThrottled settings since es
    → IsThrottled settings since (es ++ e ∷ [])
other_event settings since es e other h = record {
  by_identity = λ key.
      let before = h.by_identity key in
      let more = count_where-append (is_failure_of since key) es (e ∷ []) in
      let nothing : is_failure_of since key e ≡ false = rw other refl in
      let one : count_where (is_failure_of since key) (e ∷ []) ≡ 0 = rw nothing refl in omega arith;
  by_address = λ ip.
      let before = h.by_address ip in
      let more = count_where-append (is_failure_from since ip) es (e ∷ []) in
      let nothing : is_failure_from since ip e ≡ false = rw other refl in
      let one : count_where (is_failure_from since ip) (e ∷ []) ≡ 0 = rw nothing refl in
      omega arith;
}

-- At most one more.
count-one : (p : SecurityEvent → Bool) (e : SecurityEvent) → count_where p (e ∷ []) ≤ 1
count-one p e = elim (Bool-cases (p e)) [ inl t ↦ rw t (omega arith) | inr f ↦ rw f (omega arith) ]

leb-false : (a b : ℕ) → leb a b ≡ false → b < a
leb-false a b h = ground arith

-- A failure of a login id and an address that are below their limits.
module _ (settings : Settings) (since : ℕ) (es : List SecurityEvent) (key ip : Text)
    (e : SecurityEvent) (target : (k : Text) → is_login_identity k e.target ≡ text_eq key k)
    (address : (a : Text) → option_text_eq e.ip_address (some a) ≡ text_eq ip a) where
  add_failure :
      (leb settings.login_max_failures (count_identity_failures since key es)
          || leb settings.login_max_ip_failures (count_address_failures since ip es))
        ≡ false
      → IsThrottled settings since es
      → IsThrottled settings since (es ++ e ∷ [])
  add_failure below h =
      let (below_key, below_ip) = ||-false _ _ below in
      let room_key =
        leb-false settings.login_max_failures (count_identity_failures since key es) below_key in
      let room_ip =
        leb-false settings.login_max_ip_failures (count_address_failures since ip es) below_ip in
      record {
        by_identity = λ k.
            let before = h.by_identity k in
            let more = count_where-append (is_failure_of since k) es (e ∷ []) in
            let one = count-one (is_failure_of since k) e in
            elim (Bool-cases (text_eq key k)) [
              | inl t ↦
                  let room : count_identity_failures since k es < settings.login_max_failures =
                    rw (← (text_eq→eq key k t)) room_key in
                  omega arith
              | inr f ↦
                  let nothing : is_failure_of since k e ≡ false = rw (target k, f) (ground arith) in
                  let zero : count_where (is_failure_of since k) (e ∷ []) ≡ 0 = rw nothing refl in
                  omega arith
            ];
        by_address = λ a.
            let before = h.by_address a in
            let more = count_where-append (is_failure_from since a) es (e ∷ []) in
            let one = count-one (is_failure_from since a) e in
            elim (Bool-cases (text_eq ip a)) [
              | inl t ↦
                  let room : count_address_failures since a es < settings.login_max_ip_failures =
                    rw (← (text_eq→eq ip a t)) room_ip in
                  omega arith
              | inr f ↦
                  let nothing : is_failure_from since a e ≡ false =
                    rw (address a, f) (ground arith) in
                  let zero : count_where (is_failure_from since a) (e ∷ []) ≡ 0 = rw nothing refl in
                  omega arith
            ];
      }

-- The window moves on.
later :
    (settings : Settings) (since since' : ℕ) (es : List SecurityEvent)
    → since ≤ since'
    → IsThrottled settings since es
    → IsThrottled settings since' es
later settings since since' es after h = record {
  by_identity = λ key.
      let before = h.by_identity key in
      let fewer =
        count_where_mono (is_failure_of since' key) (is_failure_of since key)
          (λ e t. ground (arith, after, t)) es in
      omega arith;
  by_address = λ ip.
      let before = h.by_address ip in
      let fewer =
        count_where_mono (is_failure_from since' ip) (is_failure_from since ip)
          (λ e t. ground (arith, after, t)) es in
      omega arith;
}

unless_limited-Returns :
    {A : Type 0} (P : Db → Type 0) (b : Bool) (m : Action (Result A)) (db : Db)
    → P db
    → (b ≡ false → Returns (λ _ d. P d) (m db))
    → Returns (λ _ d. P d) (unless_limited b m db)
unless_limited-Returns P true m db h next = Returns-pure _ _ _ h
unless_limited-Returns P false m db h next = next refl

revoke_previous-events :
    (secrets : Secrets) (previous : Option Text) (db : Db)
    → (revoke_previous secrets previous db).events ≡ db.events
revoke_previous-events secrets none db = refl
revoke_previous-events secrets (some token) db = elim (Bool-cases (has_token_length token)) [
  | inl t ↦ rw t refl
  | inr f ↦ rw f refl
]

module _ (env : Env) (secrets : Secrets) (settings : Settings) where
  abbrev Now : Db → Type 0
  Now db = Throttled settings (window_start env settings) db

  failed :
      (actor : Option ℕ) (key ip : Text) (db : Db)
      → is_limited env settings key ip db ≡ false
      → Now db
      → Now (failure_event env actor key ip db)
  unfolding is_limited
  failed actor key ip db below h =
      add_failure settings (window_start env settings) db.events key ip _ (λ k. refl) (λ a. refl)
        below h

  open_session-Throttled :
      (key ip : Text) (previous : Option Text) (o : Option User) (db : Db)
      → is_limited env settings key ip db ≡ false
      → Now db
      → Returns (λ _ d. Now d) (open_session env secrets settings key ip previous o db)
  open_session-Throttled key ip previous none db below h =
      Returns-modify _ _ _ _ (Returns-pure _ _ _ (failed none key ip db below h))
  open_session-Throttled key ip previous (some u) db below h = Returns-modify _ _ _ _ (
      Returns-modify _ _ _ _ (
        Returns-bind _ (λ _ d. Now d) _ _ _
          (Returns-Keeps Now _ _ (build_identity-Keeps Now u env.new_id)
            (rw (revoke_previous-events secrets previous db) h))
          λ identity d k.
            Returns-modify _ _ _ _ (Returns-pure _ _ _ (other_event settings _ d.events _ refl k))))

  authenticate_body-Throttled :
      (login password ip : Text) (previous : Option Text) (db : Db)
      → Now db
      → Returns
          (λ _ d. Now d)
          (authenticate_body env secrets settings login password ip previous db)
  unfolding authenticate_body
  authenticate_body-Throttled login password ip previous db h = Returns-gets _ _ _ _ (
      unless_limited-Returns Now (is_limited env settings (login_key secrets login) ip db)
        (open_session env secrets settings (login_key secrets login) ip previous (
          accepted_user secrets password db
            (find_candidate (normalized_login_id secrets login) db.users)))
        db h λ below. open_session-Throttled (login_key secrets login) ip previous _ db below h)

  authenticate_user-Throttled :
      (login password ip : Text) (previous : Option Text)
      → Keeps Now (authenticate_user env secrets settings login password ip previous)
  unfolding authenticate_user
  authenticate_user-Throttled login password ip previous =
      search (keeps_rules, raise_result-Keeps, block)
    where
      block :
          Keeps Now
            (transaction (authenticate_body env secrets settings login password ip previous))
      block = record {
        at = λ db h.
            transaction_keeps _ Now _ db h (λ _ _ k. k)
              (authenticate_body-Throttled login password ip previous db h);
      }

  put_password-Throttled :
      (u : User) (new_hash ip : Text) (b : Bool)
      → Keeps Now (put_password env secrets u new_hash ip b)
  put_password-Throttled u new_hash ip false = search keeps_rules
  put_password-Throttled u new_hash ip true = search (keeps_rules, changed) depth 30
    where
      changed : (db : Db) → Now db → Now (session_event env password_changed u.id ip db)
      changed db h = other_event settings _ db.events _ refl h

  put_new_password-Throttled :
      (identity : Identity) (password key ip : Text) (u : User)
      → Keeps Now (write_password env secrets identity password key ip (some u))
  put_new_password-Throttled identity password key ip u =
      search (keeps_rules, hash_password-Keeps, put_password-Throttled) depth 20

  write_password-Throttled :
      (identity : Identity) (password key ip : Text) (o : Option User) (db : Db)
      → is_limited env settings key ip db ≡ false
      → Now db
      → Returns (λ _ d. Now d) (write_password env secrets identity password key ip o db)
  write_password-Throttled identity password key ip none db below h =
      Returns-modify _ _ _ _ (Returns-pure _ _ _ (failed (some identity.id) key ip db below h))
  write_password-Throttled identity password key ip (some u) db below h =
      Returns-Keeps Now (write_password env secrets identity password key ip (some u)) db
        (put_new_password-Throttled identity password key ip u) h

  change_password_body-Throttled :
      (identity : Identity) (current password ip : Text) (db : Db)
      → Now db
      → Returns
          (λ _ d. Now d)
          (change_password_body env secrets settings identity current password ip db)
  unfolding change_password_body
  change_password_body-Throttled identity current password ip db h = Returns-gets _ _ _ _ (
      unless_limited-Returns Now
        (is_limited env settings (secrets.token_digest identity.login_id) ip db)
        (write_password env secrets identity password (secrets.token_digest identity.login_id) ip
          (verified_user secrets current (find_login identity.login_id db.users)))
        db h
        λ below.
          write_password-Throttled identity password (secrets.token_digest identity.login_id) ip _
            db below h)

  change_password_block-Throttled :
      (identity : Identity) (current password ip : Text)
      → Keeps Now
          (transaction (change_password_body env secrets settings identity current password ip))
  change_password_block-Throttled identity current password ip = record {
    at = λ db h.
        transaction_keeps _ Now _ db h (λ _ _ k. k)
          (change_password_body-Throttled identity current password ip db h);
  }

  validate_password-Throttled : (password : Text) → Keeps Now (validate_password password)
  unfolding validate_password
  validate_password-Throttled password = search keeps_rules depth 20

  change_user_password-Throttled :
      (identity : Identity) (current password confirmation ip : Text)
      → Keeps Now
          (change_user_password env secrets settings identity current password confirmation ip)
  unfolding change_user_password
  change_user_password-Throttled identity current password confirmation ip =
      search
        (
          Keeps-bind, Keeps-raise_if, validate_password-Throttled, raise_result-Keeps,
          change_password_block-Throttled,
        )
        depth 30 fits 3000

-- Logins and password changes in the order of their times, from one database and time to another.
pub data Attempts (settings : Settings) : ℕ → Db → ℕ → Db → Type 0 where
  begins : (now : ℕ) (db : Db) → Attempts settings now db now db
  logs_in :
      (start now : ℕ) (db mid : Db) (env : Env) (secrets : Secrets) (login password ip : Text)
      (previous : Option Text)
      → Attempts settings start db now mid
      → now ≤ env.now
      → Attempts settings start db env.now
          (authenticate_user env secrets settings login password ip previous mid).1
  changes_password :
      (start now : ℕ) (db mid : Db) (env : Env) (secrets : Secrets) (identity : Identity)
      (current password confirmation ip : Text)
      → Attempts settings start db now mid
      → now ≤ env.now
      → Attempts settings start db env.now
          (change_user_password env secrets settings identity current password confirmation ip
            mid).1

abbrev pub window_of : Settings → ℕ → ℕ
window_of settings now = now - settings.login_window_seconds * second

-- If no login id and no address has more failures in the window before the start than the settings
-- allow, then this holds of the window before each later attempt, after any sequence of logins and
-- password changes, each no earlier than the one before, with any login ids, passwords and
-- addresses.
pub Attempts-IsThrottled :
    (settings : Settings) (start : ℕ) (db : Db) (now : ℕ) (db' : Db)
    → Attempts settings start db now db'
    → IsThrottled settings (window_of settings start) db.events
    → IsThrottled settings (window_of settings now) db'.events
Attempts-IsThrottled settings start db _ _ (begins now _) h = h
Attempts-IsThrottled settings start db _ _
      (logs_in _ now _ mid env secrets login password ip previous path after) h =
    let before = Attempts-IsThrottled settings start db now mid path h in
    (authenticate_user-Throttled env secrets settings login password ip previous).at mid (
      later settings (window_of settings now) (window_of settings env.now) mid.events (omega arith)
        before)
Attempts-IsThrottled settings start db _ _
      (changes_password _ now _ mid env secrets identity current password confirmation ip path
        after)
      h =
    let before = Attempts-IsThrottled settings start db now mid path h in
    (change_user_password-Throttled env secrets settings identity current password confirmation
        ip).at
      mid
      (later settings (window_of settings now) (window_of settings env.now) mid.events (omega arith)
        before)

-- `authenticate_user`: where a login id or the address has reached its limit, the call raises
-- `login_rate_limited` with status 429, whether the password is right or not, and writes nothing.
pub authenticate_user-limited :
    (env : Env) (secrets : Secrets) (settings : Settings) (login password ip : Text)
    (previous : Option Text) (db : Db)
    → is_limited env settings (login_key secrets login) ip db ≡ true
    → authenticate_user env secrets settings login password ip previous db
      ≡ (err (auth_error login_rate_limited 429), db)
unfolding authenticate_user authenticate_body transaction ◌>>=◌ gets pure raise
authenticate_user-limited env secrets settings login password ip previous db h = rw h refl
