-- ===== src/Attachments/Signatures.antt =====
-- The signatures by which the checks of contents tell the formats apart.
use task_ticket_management_s.Prelude.{
  ℕ, suc, ◌≡◌, refl, Bool, true, false, not, ◌&&◌, ◌||◌, Option, List, [], ◌∷◌, ◌==◌, In, inl, inr,
  if◌then◌else◌, Text, text, text_eq, &&-true, ||-true, arith,
}
use task_ticket_management_s.Accounts.Sessions.{take}
use task_ticket_management_s.Attachments.Names.{
  accepted, rejected, attachment_content_mismatch, drop, starts_with, all,
}
use task_ticket_management_s.Attachments.Content.{
  has_prefix, png_signature, jpeg_signature, validate_attachment_content,
}

abbrev pub signed_extensions : List Text
signed_extensions =
    text "png" ∷ text "jpg" ∷ text "jpeg" ∷ text "gif" ∷ text "webp" ∷ text "pdf" ∷ []

abbrev is_jpeg : Text → Bool
is_jpeg e = text_eq e (text "jpg") || text_eq e (text "jpeg")

-- Whether two extensions stand for the same format.
unfoldable pub same_format : Text → Text → Bool
unfolding text_eq
same_format e f = text_eq e f || (is_jpeg e && is_jpeg f)

-- The first byte of a format's signature.
unfoldable lead : Text → ℕ
unfolding text_eq
lead e =
    if text_eq e (text "png")
    then 137
    else if is_jpeg e
    then 255
    else if text_eq e (text "gif")
    then 71
    else if text_eq e (text "webp")
    then 82
    else 37

has_prefix-starts_with :
    (c n : ℕ) (p s : Text) → has_prefix (c ∷ p) (take (suc n) s) ≡ true → starts_with c s ≡ true
has_prefix-starts_with c n p [] h = cc
has_prefix-starts_with c n p (x ∷ s) h = (&&-true (x == c) (has_prefix p (take n s)) h).0

text_eq-starts_with :
    (c n m : ℕ) (p s : Text)
    → text_eq (take (suc m) (take (suc n) s)) (c ∷ p) ≡ true
    → starts_with c s ≡ true
unfolding text_eq
text_eq-starts_with c n m p [] h = cc
text_eq-starts_with c n m p (x ∷ s) h = (&&-true (x == c) (text_eq (take m (take n s)) p) h).0

-- A test that would have raised has found the signature.
kept :
    (b : Bool)
    → (if not b then rejected attachment_content_mismatch else accepted tt) ≡ accepted tt
    → b ≡ true
kept true h = refl
kept false h = cc

validate_attachment_content-lead :
    (is_utf8 : Text → Bool) (zip_names : Text → Option (List Text)) (content e : Text)
    → In e signed_extensions
    → validate_attachment_content is_utf8 zip_names content e ≡ accepted tt
    → starts_with (lead e) content ≡ true
unfolding validate_attachment_content lead text_eq
validate_attachment_content-lead is_utf8 zip_names content e m h =
    let header : Text = take 16 content in
    elim m [
      | inl p ↦ rw p (
          has_prefix-starts_with 137 15 (drop 1 png_signature) content
            (kept (has_prefix png_signature header) (rw p at h)))
      | inr (inl p) ↦ rw p (
          has_prefix-starts_with 255 15 (drop 1 jpeg_signature) content
            (kept (has_prefix jpeg_signature header) (rw p at h)))
      | inr (inr (inl p)) ↦ rw p (
          has_prefix-starts_with 255 15 (drop 1 jpeg_signature) content
            (kept (has_prefix jpeg_signature header) (rw p at h)))
      | inr (inr (inr (inl p))) ↦
          let either =
            kept
              (text_eq (take 6 header) (text "GIF87a") || text_eq (take 6 header) (text "GIF89a"))
              (rw p at h) in
          rw p
            (elim (||-true (text_eq (take 6 header) (text "GIF87a"))
              (text_eq (take 6 header) (text "GIF89a")) either) [
                | inl t ↦ text_eq-starts_with 71 15 5 (text "IF87a") content t
                | inr t ↦ text_eq-starts_with 71 15 5 (text "IF89a") content t
              ])
      | inr (inr (inr (inr (inl p)))) ↦
          let both =
            kept (has_prefix (text "RIFF") header && text_eq (take 4 (drop 8 header)) (text "WEBP"))
              (rw p at h) in
          rw p (
            has_prefix-starts_with 82 15 (text "IFF") content
              (&&-true (has_prefix (text "RIFF") header)
                (text_eq (take 4 (drop 8 header)) (text "WEBP")) both).0)
      | inr (inr (inr (inr (inr (inl p))))) ↦ rw p (
          has_prefix-starts_with 37 15 (text "PDF-") content
            (kept (has_prefix (text "%PDF-") header) (rw p at h)))
      | inr (inr (inr (inr (inr (inr empty))))) ↦ absurd empty
    ]

-- Different formats begin with different bytes.
leads-differ :
    all
      (λ e. all (λ f. not (lead e == lead f) || same_format e f) signed_extensions)
      signed_extensions
    ≡ true
unfolding lead same_format
leads-differ = refl

all-In : {A : Type 0} (p : A → Bool) (x : A) (xs : List A) → In x xs → all p xs ≡ true → p x ≡ true
all-In p x [] m h = absurd m
all-In p x (y ∷ ys) m h =
    let (here, rest) = &&-true (p y) (all p ys) h in
    elim m [ inl e ↦ rw e here | inr n ↦ all-In p x ys n rest ]

one_first_byte :
    (c d : ℕ) (s : Text) → starts_with c s ≡ true → starts_with d s ≡ true → (c == d) ≡ true
one_first_byte c d [] h k = cc
one_first_byte c d (x ∷ s) h k = ground (arith, h, k)

-- If `validate_attachment_content` accepts the same bytes under two of the extensions that it
-- checks by a signature, then the two stand for the same format: they are the same, or `jpg` and
-- `jpeg`.
pub validate_attachment_content_distinguishes :
    (is_utf8 : Text → Bool) (zip_names : Text → Option (List Text)) (content e f : Text)
    → In e signed_extensions
    → In f signed_extensions
    → validate_attachment_content is_utf8 zip_names content e ≡ accepted tt
    → validate_attachment_content is_utf8 zip_names content f ≡ accepted tt
    → same_format e f ≡ true
validate_attachment_content_distinguishes is_utf8 zip_names content e f m n h k =
    let same =
      one_first_byte (lead e) (lead f) content
        (validate_attachment_content-lead is_utf8 zip_names content e m h)
        (validate_attachment_content-lead is_utf8 zip_names content f n k) in
    let row =
      all-In (λ e. all (λ f. not (lead e == lead f) || same_format e f) signed_extensions) e
        signed_extensions m leads-differ in
    let entry : (not (lead e == lead f) || same_format e f) ≡ true =
      all-In (λ f. not (lead e == lead f) || same_format e f) f signed_extensions n row in
    rw same at entry
