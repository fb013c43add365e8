-- ===== src/Attachments/Keys.antt =====
-- The keys that `build_attachment_storage_key` makes are ones that the storage accepts.
use task_ticket_management_s.Prelude.{
  ℕ, zero, suc, ◌+◌, ◌<◌, ◌≡◌, refl, Bool, true, ◌&&◌, ◌||◌, none, some, List, [], ◌∷◌, ◌++◌, ◌==◌,
  leb, ltb, length, Text, text, show, show_digits, Bool-cases, inl, inr, &&-true, ==→eq, arith,
}
use Prim.Native.Nat.{◌/◌, ◌%◌}
use task_ticket_management_s.Document.{has_items}
use task_ticket_management_s.Accounts.Sessions.{take}
use task_ticket_management_s.Attachments.Names.{
  all, is_upper, is_lower, is_digit, is_hex, is_safe_project_key, is_storage_identifier,
  is_safe_extension, drop, join_parts, storage_parts, build_attachment_storage_key,
  resolve_storage_key,
}
use task_ticket_management_s.Attachments.Parts.{
  is_alnum, is_key_char, is_part, all_mono, all-append, resolve_parts,
}

-- The parts of a key.
digit-part : (n : ℕ) → is_digit (48 + n % 10) ≡ true
digit-part n = ground arith

show_digits-digits :
    (fuel n : ℕ) (rest : Text)
    → all is_digit rest ≡ true
    → all is_digit (show_digits fuel n rest) ≡ true
unfolding show_digits
show_digits-digits zero n rest h = h
show_digits-digits (suc fuel) n rest h =
    let here : all is_digit ((48 + n % 10) ∷ rest) ≡ true = rw (digit-part n, h) refl in
    let longer = show_digits-digits fuel (n / 10) ((48 + n % 10) ∷ rest) here in
    elim (Bool-cases (leb 10 n)) [ inl t ↦ rw t longer | inr f ↦ rw f here ]

show_digits-items :
    (fuel n : ℕ) (rest : Text) → has_items rest ≡ true → has_items (show_digits fuel n rest) ≡ true
unfolding show_digits
show_digits-items zero n rest h = h
show_digits-items (suc fuel) n rest h =
    let longer = show_digits-items fuel (n / 10) ((48 + n % 10) ∷ rest) refl in
    elim (Bool-cases (leb 10 n)) [ inl t ↦ rw t longer | inr f ↦ rw f refl ]

show-items : (n : ℕ) → has_items (show n) ≡ true
unfolding show show_digits
show-items n =
    let longer = show_digits-items n (n / 10) ((48 + n % 10) ∷ []) refl in
    elim (Bool-cases (leb 10 n)) [ inl t ↦ rw t longer | inr f ↦ rw f refl ]

show-digits : (n : ℕ) → all is_digit (show n) ≡ true
unfolding show
show-digits n = show_digits-digits (suc n) n [] refl

alnum-part : (s : Text) → has_items s ≡ true → all is_alnum s ≡ true → is_part s ≡ true
alnum-part [] h k = cc
alnum-part (c ∷ s) h k =
    let (here, rest) = &&-true (is_alnum c) (all is_alnum s) k in
    rw (here, all_mono is_alnum is_key_char (λ d e. rw e refl) s rest) refl

show-part : (n : ℕ) → is_part (show n) ≡ true
show-part n =
    alnum-part (show n) (show-items n)
      (all_mono is_digit is_alnum (λ c h. rw h refl) (show n) (show-digits n))

project_key-part : (s : Text) → is_safe_project_key s ≡ true → is_part s ≡ true
project_key-part [] h = cc
project_key-part (c ∷ s) h =
    let (left, _) =
      &&-true (is_upper c && all (λ d. is_upper d || is_digit d) s && leb 1 (length s))
        (leb (length s) 31) h in
    let (both, _) =
      &&-true (is_upper c && all (λ d. is_upper d || is_digit d) s) (leb 1 (length s)) left in
    let (here, rest) = &&-true (is_upper c) (all (λ d. is_upper d || is_digit d) s) both in
    let letter : is_alnum c ≡ true = ground (arith, here) in
    rw
      (
        letter,
        all_mono (λ d. is_upper d || is_digit d) is_key_char (λ d e. ground (arith, e)) s rest,
      )
      refl

hex-alnum : (c : ℕ) → is_hex c ≡ true → is_alnum c ≡ true
hex-alnum c h = ground arith

-- The first two characters.
hex_pair-part : (s : Text) → all is_hex s ≡ true → 1 < length s → is_part (take 2 s) ≡ true
hex_pair-part [] h k = absurd (omega arith)
hex_pair-part (a ∷ []) h k = absurd (omega arith)
hex_pair-part (a ∷ b ∷ s) h k =
    let (here, rest) = &&-true (is_hex a) (all is_hex (b ∷ s)) h in
    let (next, _) = &&-true (is_hex b) (all is_hex s) rest in
    rw (hex-alnum a here, hex-alnum b next) refl

all-drop :
    (s : Text)
    → all is_hex s ≡ true
    → 3 < length s
    → (all is_hex (drop 2 s) ≡ true) × (1 < length (drop 2 s))
all-drop [] h k = absurd (omega arith)
all-drop (a ∷ []) h k = absurd (omega arith)
all-drop (a ∷ b ∷ s) h k =
    let (_, rest) = &&-true (is_hex a) (all is_hex (b ∷ s)) h in
    let (_, more) = &&-true (is_hex b) (all is_hex s) rest in (more, omega arith)

file-part :
    (s t : Text)
    → all is_hex s ≡ true
    → 1 < length s
    → all (λ c. is_lower c || is_digit c) t ≡ true
    → is_part (s ++ b'.' ∷ t) ≡ true
file-part [] t h k e = absurd (omega arith)
file-part (a ∷ s) t h k e =
    let (here, rest) = &&-true (is_hex a) (all is_hex s) h in
    let dotted : all is_key_char (b'.' ∷ t) ≡ true =
      all_mono (λ c. is_lower c || is_digit c) is_key_char (λ c i. ground (arith, i)) t e in
    rw
      (
        hex-alnum a here,
        all-append is_key_char s (b'.' ∷ t)
            (all_mono is_hex is_key_char (λ c i. ground (arith, i)) s rest) dotted,
      )
      refl

storage_parts-parts :
    (project_key : Text) (tid : ℕ) (identifier extension : Text)
    → is_safe_project_key project_key ≡ true
    → is_storage_identifier identifier ≡ true
    → is_safe_extension extension ≡ true
    → all is_part (storage_parts project_key tid identifier extension) ≡ true
storage_parts-parts project_key tid identifier extension k i e =
    let (hex, long) = &&-true (all is_hex identifier) (length identifier == 32) i in
    let size : length identifier ≡ 32 = ==→eq (length identifier) 32 long in
    let (dropped, left) = all-drop identifier hex (omega arith) in
    let (_, plain) =
      &&-true (has_items extension) (all (λ c. is_lower c || is_digit c) extension) e in
    rw
      (
        project_key-part project_key k,
        show-part tid,
        hex_pair-part identifier hex (omega arith),
        hex_pair-part (drop 2 identifier) dropped left,
        file-part identifier extension hex (omega arith) plain,
      )
      refl

-- If `build_attachment_storage_key` makes a key, then the storage accepts it and finds in it just
-- the parts that the key was joined from, on a file system where a path of parts that begin with a
-- letter or a digit, and go on with these and dots, does not lead out of the root (one without
-- links). So no project key, ticket, identifier or extension that is accepted reaches out of its
-- own directory.
pub resolve_storage_key-build_attachment_storage_key :
    (inside : List Text → Bool)
    → ((ps : List Text) → all is_part ps ≡ true → inside ps ≡ true)
    → (project_key : Text) (tid : ℕ) (identifier extension key : Text)
    → build_attachment_storage_key project_key tid identifier extension ≡ some key
    → resolve_storage_key inside key ≡ some (storage_parts project_key tid identifier extension)
unfolding build_attachment_storage_key
resolve_storage_key-build_attachment_storage_key inside linkless project_key tid identifier
      extension key h =
    elim (Bool-cases (
      is_safe_project_key project_key
      && ltb 0 tid
      && is_storage_identifier identifier
      && is_safe_extension extension)) [
        | inl t ↦
            let (left, e) =
              &&-true
                (is_safe_project_key project_key && ltb 0 tid && is_storage_identifier identifier)
                (is_safe_extension extension) t in
            let (first, i) =
              &&-true (is_safe_project_key project_key && ltb 0 tid)
                (is_storage_identifier identifier) left in
            let (k, _) = &&-true (is_safe_project_key project_key) (ltb 0 tid) first in
            let made : some (join_parts (storage_parts project_key tid identifier extension))
                ≡ some key =
              rw t at h in
            let same : join_parts (storage_parts project_key tid identifier extension) ≡ key = cc in
            let plain = storage_parts-parts project_key tid identifier extension k i e in
            rw (← same) (
              resolve_parts (text "projects") _ plain inside
                (linkless (storage_parts project_key tid identifier extension) plain))
        | inr f ↦ let nothing : none ≡ some key = rw f at h in cc
      ]
