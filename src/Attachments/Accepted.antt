-- ===== src/Attachments/Accepted.antt =====
-- What `validate_attachment_metadata` has checked of a file that it accepts.
use task_ticket_management_s.Prelude.{
  ◌≤◌, ◌≡◌, refl, sym, ap, Bool, true, false, not, ◌||◌, Option, ◌==◌, ltb, length, any,
  if◌then◌else◌, Text, text, text_eq, ||-false, not-false, arith,
}
use task_ticket_management_s.Document.{has_items}
use task_ticket_management_s.Accounts.Passwords.{is_control}
use task_ticket_management_s.Attachments.Names.{
  all, AttachmentCode, Checked, accepted, rejected, invalid_attachment_name,
  attachment_extension_required, blocked_attachment_extension, unsupported_attachment_extension,
  attachment_media_type_mismatch, after_last, normalize_attachment_filename, ends_with,
  attachment_extension, AttachmentSettings, has_text, media_types_of, AttachmentMetadata,
  check_media_type, and_then, validate_attachment_metadata,
}
use task_ticket_management_s.Attachments.BaseName.{
  is_name_char, no_backslash, no_slash, all-three, base_name, base_name-no_slash,
  base_name-no_backslash,
}

-- A name without a directory, that can be shown.
pub record IsName (name : Text) : Type 0 where
  pub plain : all is_name_char name ≡ true
  pub short : length name ≤ 512
  pub something : has_items name ≡ true
  pub not_here : text_eq name (text ".") ≡ false
  pub not_above : text_eq name (text "..") ≡ false

pub record IsAccepted (lower : Text → Text) (settings : AttachmentSettings)
    (file : AttachmentMetadata) : Type 0 where
  pub named : IsName file.filename
  pub extended : file.extension ≡ lower (after_last b'.' file.filename)
  pub allowed : has_text file.extension settings.allowed_extensions ≡ true
  pub not_blocked : has_text file.extension settings.blocked_extensions ≡ false
  pub typed :
      has_text file.media_type (media_types_of file.extension settings.allowed_media_types) ≡ true

-- `rejected c` is not `accepted a`, and the test that leads to it has failed.
pub unless-accepted :
    {A : Type 0} (b : Bool) (c : AttachmentCode) (r : Checked A) (a : A)
    → (if b then rejected c else r) ≡ accepted a
    → (b ≡ false) × (r ≡ accepted a)
unless-accepted true c r a h = cc
unless-accepted false c r a h = (refl, h)

and_then_accepts :
    {A B : Type 0} (r : Checked A) (k : A → Checked B) (b : B)
    → and_then r k ≡ accepted b
    → (a : A) × (r ≡ accepted a) × (k a ≡ accepted b)
and_then_accepts (accepted a) k b h = (a, refl, h)
and_then_accepts (rejected c) k b h = cc

accepted-same : {A : Type 0} (a b : A) → ◌≡◌ {A = Checked A} (accepted a) (accepted b) → a ≡ b
accepted-same a b h = cc

-- A name that passes both tests.
checked-IsName :
    (f name : Text)
    → all no_slash f ≡ true
    → all no_backslash f ≡ true
    → (if not (has_items f) || text_eq f (text ".") || text_eq f (text "..")
        then rejected invalid_attachment_name
        else if ltb 512 (length f) || any is_control f
        then rejected invalid_attachment_name
        else accepted f)
      ≡ accepted name
    → IsName name
checked-IsName f name slash backslash h =
    let (fine, first) =
      unless-accepted (not (has_items f) || text_eq f (text ".") || text_eq f (text ".."))
        invalid_attachment_name
        (if ltb 512 (length f) || any is_control f
          then rejected invalid_attachment_name
          else accepted f)
        name h in
    let (shown, second) =
      unless-accepted (ltb 512 (length f) || any is_control f) invalid_attachment_name (accepted f)
        name first in
    let (both, not_above) =
      ||-false (not (has_items f) || text_eq f (text ".")) (text_eq f (text "..")) fine in
    let (items, not_here) = ||-false (not (has_items f)) (text_eq f (text ".")) both in
    let (short, control) = ||-false (ltb 512 (length f)) (any is_control f) shown in
    rw (← accepted-same f name second) (record {
      plain = all-three f slash backslash control;
      short = ground (arith, short);
      something = not-false (has_items f) items;
      not_here = not_here;
      not_above = not_above;
    })

normalize_attachment_filename-IsName :
    (raw : Option Text) (name : Text)
    → normalize_attachment_filename raw ≡ accepted name
    → IsName name
unfolding normalize_attachment_filename
normalize_attachment_filename-IsName raw name h =
    checked-IsName (base_name raw) name (base_name-no_slash raw) (base_name-no_backslash raw) h

attachment_extension_accepts :
    (name extension : Text)
    → attachment_extension name ≡ accepted extension
    → after_last b'.' name ≡ extension
unfolding attachment_extension
attachment_extension_accepts name extension h =
    accepted-same (after_last b'.' name) extension
      (unless-accepted (not (any (λ d. d == b'.') name) || ends_with b'.' name)
        attachment_extension_required (accepted (after_last b'.' name)) extension h).1

-- What the three lists of the settings say of an accepted file.
check_media_type-IsAccepted :
    (lower : Text → Text) (settings : AttachmentSettings) (name extension media_type : Text)
    (file : AttachmentMetadata)
    → IsName name
    → extension ≡ lower (after_last b'.' name)
    → check_media_type settings name extension media_type ≡ accepted file
    → IsAccepted lower settings file
check_media_type-IsAccepted lower settings name extension media_type file named extended h =
    let made : AttachmentMetadata = record {
      filename = name;
      extension = extension;
      media_type = media_type;
    } in
    let typed : Checked AttachmentMetadata =
      if not (has_text media_type (media_types_of extension settings.allowed_media_types))
      then rejected attachment_media_type_mismatch
      else accepted made in
    let allowed : Checked AttachmentMetadata =
      if not (has_text extension settings.allowed_extensions)
      then rejected unsupported_attachment_extension
      else typed in
    let (not_blocked, first) =
      unless-accepted (has_text extension settings.blocked_extensions) blocked_attachment_extension
        allowed file h in
    let (listed, second) =
      unless-accepted (not (has_text extension settings.allowed_extensions))
        unsupported_attachment_extension typed file first in
    let (known, third) =
      unless-accepted
        (not (has_text media_type (media_types_of extension settings.allowed_media_types)))
        attachment_media_type_mismatch (accepted made) file second in
    rw (← accepted-same made file third) (record {
      named = named;
      extended = extended;
      allowed = not-false _ listed;
      not_blocked = not_blocked;
      typed = not-false _ known;
    })

-- If `validate_attachment_metadata` accepts an upload, then its name has one to 512 characters,
-- none of them a slash, a backslash or a control character, and is not `.` or `..`, whatever path
-- was sent; the extension is what follows the last dot of that name, in lower case, is allowed and
-- is not blocked; and the media type is one that the settings list for the extension.
pub validate_attachment_metadata-IsAccepted :
    (lower : Text → Text) (settings : AttachmentSettings) (raw declared : Option Text)
    (file : AttachmentMetadata)
    → validate_attachment_metadata lower settings raw declared ≡ accepted file
    → IsAccepted lower settings file
unfolding validate_attachment_metadata
validate_attachment_metadata-IsAccepted lower settings raw declared file h =
    let (name, first, rest) = and_then_accepts (normalize_attachment_filename raw) _ file h in
    let (extension, second, last) = and_then_accepts (attachment_extension name) _ file rest in
    check_media_type-IsAccepted lower settings name (lower extension) _ file
      (normalize_attachment_filename-IsName raw name first)
      (ap lower (sym (attachment_extension_accepts name extension second))) last
