-- ===== src/Tests/Attachments.antt =====
-- The theorems on names and storage keys at a file of the sample project.
use task_ticket_management_s.Prelude.{
  none, ◌≡◌, refl, true, false, some, text, strip, text_eq, [], ◌∷◌, ◌++◌, Text,
}
use task_ticket_management_s.Attachments.Names.{
  accepted, AttachmentSettings, AttachmentMetadata, validate_attachment_metadata, join_parts,
  storage_parts, build_attachment_storage_key, resolve_storage_key,
}
use task_ticket_management_s.Attachments.Keys.{resolve_storage_key-build_attachment_storage_key}
use task_ticket_management_s.Attachments.Accepted.{
  IsAccepted, validate_attachment_metadata-IsAccepted,
}
use task_ticket_management_s.Prelude.{inl, inr}
use task_ticket_management_s.Attachments.Content.{validate_attachment_content}
use task_ticket_management_s.Attachments.Signatures.{
  same_format, validate_attachment_content_distinguishes,
}
use task_ticket_management_s.Tests.{key_ab}

abbrev eight : Text
eight = 97 ∷ 98 ∷ 99 ∷ 100 ∷ 48 ∷ 49 ∷ 50 ∷ 51 ∷ []

abbrev sample_identifier : Text
sample_identifier = eight ++ eight ++ eight ++ eight

abbrev sample_extension : Text
sample_extension = 112 ∷ 110 ∷ 103 ∷ []

abbrev sample_key : Text
sample_key = join_parts (storage_parts key_ab 2 sample_identifier sample_extension)

build_attachment_storage_key-sample :
    build_attachment_storage_key key_ab 2 sample_identifier sample_extension ≡ some sample_key
unfolding build_attachment_storage_key
build_attachment_storage_key-sample = refl

resolve_storage_key-build_attachment_storage_key_example :
    resolve_storage_key (λ _. true) sample_key
    ≡ some (storage_parts key_ab 2 sample_identifier sample_extension)
resolve_storage_key-build_attachment_storage_key_example =
    resolve_storage_key-build_attachment_storage_key (λ _. true) (λ ps h. refl) key_ab 2
      sample_identifier sample_extension sample_key build_attachment_storage_key-sample

abbrev sample_media_type : Text
sample_media_type = text "image/png"

abbrev sample_settings : AttachmentSettings
sample_settings = record {
  max_file_size_mb = 25;
  allowed_extensions = sample_extension ∷ [];
  blocked_extensions = text "exe" ∷ [];
  allowed_media_types = (sample_extension, sample_media_type ∷ []) ∷ [];
}

-- A browser that sends the whole path of a file.
abbrev sample_upload : Text
sample_upload = text "C:\\notes/a.png"

abbrev sample_file : AttachmentMetadata
sample_file = record {
  filename = text "a.png";
  extension = sample_extension;
  media_type = sample_media_type;
}

validate_attachment_metadata-sample :
    validate_attachment_metadata
      (λ s. s)
      sample_settings
      (some sample_upload)
      (some sample_media_type)
    ≡ accepted sample_file
unfolding validate_attachment_metadata text_eq strip
validate_attachment_metadata-sample = refl

validate_attachment_metadata-IsAccepted_example : IsAccepted (λ s. s) sample_settings sample_file
validate_attachment_metadata-IsAccepted_example =
    validate_attachment_metadata-IsAccepted (λ s. s) sample_settings (some sample_upload)
      (some sample_media_type) sample_file validate_attachment_metadata-sample

-- The first bytes of a picture in JPEG.
abbrev sample_content : Text
sample_content = 255 ∷ 216 ∷ 255 ∷ 224 ∷ 0 ∷ []

validate_attachment_content-jpg :
    validate_attachment_content (λ _. false) (λ _. none) sample_content (text "jpg") ≡ accepted tt
unfolding validate_attachment_content text_eq
validate_attachment_content-jpg = refl

validate_attachment_content-jpeg :
    validate_attachment_content (λ _. false) (λ _. none) sample_content (text "jpeg") ≡ accepted tt
unfolding validate_attachment_content text_eq
validate_attachment_content-jpeg = refl

validate_attachment_content_distinguishes_example : same_format (text "jpg") (text "jpeg") ≡ true
validate_attachment_content_distinguishes_example =
    validate_attachment_content_distinguishes (λ _. false) (λ _. none) sample_content (text "jpg")
      (text "jpeg") (inr (inl refl)) (inr (inr (inl refl))) validate_attachment_content-jpg
      validate_attachment_content-jpeg
