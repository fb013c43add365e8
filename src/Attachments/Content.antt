-- ===== src/Attachments/Content.antt =====
-- app/domain/attachments.py: the checks of an uploaded file's contents, a list of bytes.
use task_ticket_management_s.Prelude.{
  Bool, true, false, not, ◌&&◌, ◌||◌, Option, none, some, List, [], ◌∷◌, ◌==◌, ltb, length, any,
  if◌then◌else◌, Text, text, text_eq,
}
use task_ticket_management_s.Accounts.Sessions.{take}
use task_ticket_management_s.Attachments.Names.{
  Checked, accepted, rejected, attachment_content_mismatch, attachment_archive_too_many_entries,
  drop, has_text,
}

-- `s.startswith(p)`
abbrev pub has_prefix : Text → Text → Bool
has_prefix [] s = true
has_prefix (c ∷ p) [] = false
has_prefix (c ∷ p) (x ∷ s) = (x == c) && has_prefix p s

abbrev pub text_extensions : List Text
text_extensions = text "txt" ∷ text "md" ∷ text "csv" ∷ []

abbrev pub zip_extensions : List Text
zip_extensions = text "zip" ∷ text "docx" ∷ text "xlsx" ∷ text "pptx" ∷ []

-- The end of a check: `_raise_content_mismatch`, or a return.
abbrev pub mismatch_if : Bool → Checked (Unit {0})
mismatch_if b = if b then rejected attachment_content_mismatch else accepted tt

-- `is_utf8` tells whether the strict decoder of `codecs` decodes the bytes.
abbrev pub validate_utf8_text : (Text → Bool) → Text → Checked (Unit {0})
validate_utf8_text is_utf8 content =
    mismatch_if (any (λ b. b == 0) content || not (is_utf8 content))

abbrev pub required_prefix : Text → Text
required_prefix extension =
    if text_eq extension (text "docx")
    then text "word/"
    else if text_eq extension (text "xlsx")
    then text "xl/"
    else text "ppt/"

abbrev pub check_names : Option (List Text) → Text → Checked (Unit {0})
check_names none extension = rejected attachment_content_mismatch
check_names (some names) extension =
    if ltb 10000 (length names)
    then rejected attachment_archive_too_many_entries
    else if text_eq extension (text "zip")
    then accepted tt
    else mismatch_if (
        not (has_text (text "[Content_Types].xml") names)
        || not (any (has_prefix (required_prefix extension)) names))

-- `zip_names` is `zipfile.ZipFile(...).namelist()`, or nothing where one of the exceptions that are
-- caught is raised.
abbrev pub validate_zip_container : (Text → Option (List Text)) → Text → Text → Checked (Unit {0})
validate_zip_container zip_names content extension = check_names (zip_names content) extension

-- `b"\\x89PNG\\r\\n\\x1a\\n"`
abbrev pub png_signature : Text
png_signature = 137 ∷ 80 ∷ 78 ∷ 71 ∷ 13 ∷ 10 ∷ 26 ∷ 10 ∷ []

-- `b"\\xff\\xd8\\xff"`
abbrev pub jpeg_signature : Text
jpeg_signature = 255 ∷ 216 ∷ 255 ∷ []

unfoldable pub validate_attachment_content :
    (Text → Bool) → (Text → Option (List Text)) → Text → Text → Checked (Unit {0})
unfolding text_eq
validate_attachment_content is_utf8 zip_names content extension =
    let header = take 16 content in
    if text_eq extension (text "png") && not (has_prefix png_signature header)
    then rejected attachment_content_mismatch
    else if (text_eq extension (text "jpg") || text_eq extension (text "jpeg"))
        && not (has_prefix jpeg_signature header)
    then rejected attachment_content_mismatch
    else if text_eq extension (text "gif")
        && not (text_eq (take 6 header) (text "GIF87a") || text_eq (take 6 header) (text "GIF89a"))
    then rejected attachment_content_mismatch
    else if text_eq extension (text "webp")
        && not (has_prefix (text "RIFF") header && text_eq (take 4 (drop 8 header)) (text "WEBP"))
    then rejected attachment_content_mismatch
    else if text_eq extension (text "pdf") && not (has_prefix (text "%PDF-") header)
    then rejected attachment_content_mismatch
    else if has_text extension text_extensions
    then validate_utf8_text is_utf8 content
    else if has_text extension zip_extensions
    then validate_zip_container zip_names content extension
    else accepted tt
