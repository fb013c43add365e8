-- ===== src/Accounts/Passwords.antt =====
-- app/domain/auth.py: the rules for login ids and passwords. Argon2, SHA-256, the random token and
-- Unicode's lower case are parameters.
use task_ticket_management_s.Prelude.{
  ℕ, Bool, false, Option, none, some, [], ◌∷◌, ◌&&◌, ◌||◌, not, ◌==◌, leb, ltb, length, any,
  if◌then◌else◌, Text, strip,
}
use task_ticket_management_s.Document.{has_items}
use task_ticket_management_s.Store.{SystemRole}
use task_ticket_management_s.Action.{auth_error, invalid_password, Action, pure, raise_if, ◌>>◌}

-- What a call takes from libraries: `str.lower`, `PasswordHasher.hash` (with the salt that it draws
-- in this call) and `PasswordHasher.verify`, `hashlib.sha256`, and the token that
-- `secrets.token_urlsafe` draws.
pub record Secrets : Type 0 where
  pub lower : Text → Text
  pub hash : Text → Text
  pub verify : Text → Text → Bool
  pub token_digest : Text → Text
  pub new_session_token : Text

-- app/core/config.py: the settings that the logins read.
pub record Settings : Type 0 where
  pub login_window_seconds : ℕ
  pub login_max_failures : ℕ
  pub login_max_ip_failures : ℕ
  pub lifetime_minutes : ℕ

pub record Identity : Type 0 where
  pub id : ℕ
  pub login_id : Text
  pub display_name : Text
  pub organization : Text
  pub system_role : SystemRole
  pub must_change_password : Bool
  pub session_id : ℕ

-- `[a-z0-9]` and `[a-z0-9._-]`
abbrev pub is_login_start : ℕ → Bool
is_login_start c = (leb b'a' c && leb c b'z') || (leb b'0' c && leb c b'9')

abbrev pub is_login_char : ℕ → Bool
is_login_char c = is_login_start c || (c == b'.') || (c == b'_') || (c == b'-')

-- `re.fullmatch(r"[a-z0-9][a-z0-9._-]{2,99}", …)`
unfoldable pub is_login_id : Text → Bool
is_login_id [] = false
is_login_id (c ∷ s) =
    is_login_start c
    && not (any (λ d. not (is_login_char d)) s)
    && leb 2 (length s)
    && leb (length s) 99

-- `value.strip().lower()`, which is the login id if the pattern fits.
unfoldable pub normalized_login_id : Secrets → Text → Option Text
unfolding is_login_id strip
normalized_login_id secrets value =
    if is_login_id (secrets.lower (strip value)) then some (secrets.lower (strip value)) else none

abbrev pub is_control : ℕ → Bool
is_control c = ltb c 32 || (c == 127)

unfoldable pub validate_password : Text → Action (Unit {0})
unfolding strip
validate_password value = do
  raise_if (not (leb 12 (length value) && leb (length value) 128)) (auth_error invalid_password 400)
  raise_if (not (has_items (strip value)) || any is_control value) (auth_error invalid_password 400)

unfoldable pub hash_password : Secrets → Text → Action Text
hash_password secrets value = do validate_password value; pure (secrets.hash value)

-- `verify_password`; without a stored hash the result is false whatever the dummy hash does.
unfoldable pub verify_password : Secrets → Text → Option Text → Bool
verify_password secrets value none = false
verify_password secrets value (some stored) = leb (length value) 128 && secrets.verify stored value
