-- ===== src/Attachments/Names.antt =====
-- app/domain/attachments.py: the checks of an uploaded file's name, extension and media type, and the
-- key under which app/storage/attachments.py stores it.
use task_ticket_management_s.Prelude.{
  ℕ, zero, suc, Bool, true, false, not, ◌&&◌, ◌||◌, Option, none, some, List, [], ◌∷◌, ◌++◌, map,
  ◌==◌, leb, ltb, length, any, if◌then◌else◌, option_or, Text, text, text_eq, strip, show,
}
use task_ticket_management_s.Document.{has_items}
use task_ticket_management_s.Accounts.Passwords.{is_control}
use task_ticket_management_s.Accounts.Sessions.{take}

abbrev pub all : {A : Type 0} → (A → Bool) → List A → Bool
all p [] = true
all p (x ∷ xs) = p x && all p xs

-- The codes of `AttachmentValidationError`.
pub data AttachmentCode : Type 0 where
  invalid_attachment_name attachment_extension_required blocked_attachment_extension :
      AttachmentCode
  unsupported_attachment_extension attachment_media_type_mismatch : AttachmentCode
  attachment_content_mismatch attachment_archive_too_many_entries : AttachmentCode

-- A value, or the code of the exception.
pub data Checked (A : Type 0) : Type 0 where
  accepted : A → Checked A
  rejected : AttachmentCode → Checked A

-- `path.replace("\\", "/")`
unfoldable pub forward_slashes : Text → Text
forward_slashes s = map (λ c. if c == b'\\' then b'/' else c) s

-- `s.rsplit(c, 1)[-1]`: what follows the last `c`, or all.
unfoldable pub after_last : ℕ → Text → Text
after_last c [] = []
after_last c (x ∷ s) =
    let rest = after_last c s in if any (λ d. d == c) s then rest else if x == c then s else x ∷ s

unfoldable pub normalize_attachment_filename : Option Text → Checked Text
unfolding after_last forward_slashes strip text_eq
normalize_attachment_filename raw =
    let filename = strip (after_last b'/' (forward_slashes (option_or raw []))) in
    if not (has_items filename) || text_eq filename (text ".") || text_eq filename (text "..")
    then rejected invalid_attachment_name
    else if ltb 512 (length filename) || any is_control filename
    then rejected invalid_attachment_name
    else accepted filename

-- `filename.endswith(".")`
abbrev pub ends_with : ℕ → Text → Bool
ends_with c [] = false
ends_with c (x ∷ []) = x == c
ends_with c (x ∷ y ∷ s) = ends_with c (y ∷ s)

-- The extension, to which `str.lower` is still to be applied.
unfoldable pub attachment_extension : Text → Checked Text
unfolding after_last
attachment_extension filename =
    if not (any (λ d. d == b'.') filename) || ends_with b'.' filename
    then rejected attachment_extension_required
    else accepted (after_last b'.' filename)

-- app/core/config.py: the settings of attachments, as their validator leaves them.
pub record AttachmentSettings : Type 0 where
  pub max_file_size_mb : ℕ
  pub allowed_extensions : List Text
  pub blocked_extensions : List Text
  pub allowed_media_types : List (Text × List Text)

abbrev pub has_text : Text → List Text → Bool
has_text t ts = any (λ u. text_eq u t) ts

-- `allowed_media_types.get(extension, [])`
abbrev pub media_types_of : Text → List (Text × List Text) → List Text
media_types_of extension [] = []
media_types_of extension ((k, types) ∷ rest) =
    if text_eq k extension then types else media_types_of extension rest

-- `s.split(c, 1)[0]`
abbrev pub before_first : ℕ → Text → Text
before_first c [] = []
before_first c (x ∷ s) = if x == c then [] else x ∷ before_first c s

-- An accepted file: its name, extension and media type.
pub record AttachmentMetadata : Type 0 where
  pub filename : Text
  pub extension : Text
  pub media_type : Text

abbrev pub check_media_type : AttachmentSettings → Text → Text → Text → Checked AttachmentMetadata
check_media_type settings filename extension media_type =
    if has_text extension settings.blocked_extensions
    then rejected blocked_attachment_extension
    else if not (has_text extension settings.allowed_extensions)
    then rejected unsupported_attachment_extension
    else if not (has_text media_type (media_types_of extension settings.allowed_media_types))
    then rejected attachment_media_type_mismatch
    else accepted (record { filename = filename; extension = extension; media_type = media_type })

abbrev pub and_then : {A B : Type 0} → Checked A → (A → Checked B) → Checked B
and_then (accepted a) k = k a
and_then (rejected c) k = rejected c

-- `str.lower` is a parameter.
unfoldable pub validate_attachment_metadata :
    (Text → Text) → AttachmentSettings → Option Text → Option Text → Checked AttachmentMetadata
unfolding normalize_attachment_filename attachment_extension
validate_attachment_metadata lower settings raw declared =
    and_then (normalize_attachment_filename raw) λ filename.
      and_then (attachment_extension filename) λ extension.
        check_media_type settings filename (lower extension)
          (lower (strip (before_first b';' (option_or declared []))))

abbrev pub is_upper : ℕ → Bool
is_upper c = leb b'A' c && leb c b'Z'

abbrev pub is_lower : ℕ → Bool
is_lower c = leb b'a' c && leb c b'z'

abbrev pub is_digit : ℕ → Bool
is_digit c = leb b'0' c && leb c b'9'

abbrev pub is_hex : ℕ → Bool
is_hex c = is_digit c || (leb b'a' c && leb c b'f')

-- `SAFE_PROJECT_KEY_PATTERN`
abbrev pub is_safe_project_key : Text → Bool
is_safe_project_key [] = false
is_safe_project_key (c ∷ s) =
    is_upper c && all (λ d. is_upper d || is_digit d) s && leb 1 (length s) && leb (length s) 31

abbrev pub is_storage_identifier : Text → Bool
is_storage_identifier s = all is_hex s && (length s == 32)

abbrev pub is_safe_extension : Text → Bool
is_safe_extension s = has_items s && all (λ c. is_lower c || is_digit c) s

abbrev pub drop : {A : Type 0} → ℕ → List A → List A
drop zero xs = xs
drop (suc n) [] = []
drop (suc n) (x ∷ xs) = drop n xs

-- `"/".join(parts)`
abbrev pub join_parts : List Text → Text
join_parts [] = []
join_parts (p ∷ []) = p
join_parts (p ∷ q ∷ ps) = p ++ b'/' ∷ join_parts (q ∷ ps)

abbrev pub storage_parts : Text → ℕ → Text → Text → List Text
storage_parts project_key tid identifier extension =
    text "projects"
    ∷ project_key
    ∷ text "tickets"
    ∷ show tid
    ∷ take 2 identifier
    ∷ take 2 (drop 2 identifier)
    ∷ (identifier ++ b'.' ∷ extension)
    ∷ []

-- Without a key, the call raises `ValueError`.
unfoldable pub build_attachment_storage_key : Text → ℕ → Text → Text → Option Text
unfolding show
build_attachment_storage_key project_key tid identifier extension =
    if is_safe_project_key project_key
      && ltb 0 tid
      && is_storage_identifier identifier
      && is_safe_extension extension
    then some (join_parts (storage_parts project_key tid identifier extension))
    else none

-- `s.split(c)`
abbrev pub prepend : ℕ → List Text → List Text
prepend x [] = (x ∷ []) ∷ []
prepend x (p ∷ ps) = (x ∷ p) ∷ ps

unfoldable pub split_on : ℕ → Text → List Text
split_on c [] = [] ∷ []
split_on c (x ∷ s) = let rest = split_on c s in if x == c then [] ∷ rest else prepend x rest

abbrev pub starts_with : ℕ → Text → Bool
starts_with c [] = false
starts_with c (x ∷ s) = x == c

-- `part in {"", ".", ".."}`
unfoldable pub is_bad_part : Text → Bool
unfolding text_eq
is_bad_part p = not (has_items p) || text_eq p (text ".") || text_eq p (text "..")

-- `_resolve_storage_key` of app/storage/attachments.py. The path it returns stands as the parts that
-- it joins below the root; `inside` is the test of `os.path.commonpath`, whether `os.path.realpath`
-- leads from there to a place below the root. Without a path, the call raises.
unfoldable pub resolve_storage_key : (List Text → Bool) → Text → Option (List Text)
unfolding forward_slashes split_on is_bad_part
resolve_storage_key inside key =
    if not (has_items (forward_slashes key))
      || starts_with b'/' (forward_slashes key)
      || any is_bad_part (split_on b'/' (forward_slashes key))
    then none
    else if not (inside (split_on b'/' (forward_slashes key)))
    then none
    else some (split_on b'/' (forward_slashes key))
