-- ===== src/Attachments/Parts.antt =====
-- Paths as texts and as their parts: joining the parts of a storage key, and splitting it again.
use task_ticket_management_s.Prelude.{
  ℕ, ◌≡◌, refl, ap, ◌∙◌, Bool, true, false, not, ◌&&◌, ◌||◌, some, List, [], ◌∷◌, ◌++◌, ◌==◌, any,
  Text, text_eq, &&-true, not-true, ==_refl, arith,
}
use task_ticket_management_s.Document.{has_items}
use task_ticket_management_s.Attachments.Names.{
  all, forward_slashes, is_upper, is_lower, is_digit, join_parts, split_on, starts_with,
  is_bad_part, resolve_storage_key,
}

-- Letters and digits of ASCII, and those with the dot.
abbrev pub is_alnum : ℕ → Bool
is_alnum c = is_digit c || is_upper c || is_lower c

abbrev pub is_key_char : ℕ → Bool
is_key_char c = is_alnum c || (c == b'.')

-- A part of a key: it begins with a letter or a digit.
abbrev pub is_part : Text → Bool
is_part [] = false
is_part (c ∷ s) = is_alnum c && all is_key_char s

pub all_mono :
    (p q : ℕ → Bool)
    → ((c : ℕ) → p c ≡ true → q c ≡ true)
    → (s : Text) → all p s ≡ true
    → all q s ≡ true
all_mono p q sub [] h = refl
all_mono p q sub (c ∷ s) h =
    let (here, rest) = &&-true (p c) (all p s) h in rw (sub c here, all_mono p q sub s rest) refl

pub all-append :
    (p : ℕ → Bool) (s t : Text) → all p s ≡ true → all p t ≡ true → all p (s ++ t) ≡ true
all-append p [] t h k = k
all-append p (c ∷ s) t h k =
    let (here, rest) = &&-true (p c) (all p s) h in rw (here, all-append p s t rest k) refl

abbrev other : ℕ → ℕ → Bool
other c d = not (d == c)

key_char-other : (c : ℕ) → is_key_char c ≡ true → other b'/' c ≡ true
key_char-other c h = ground arith

-- No part holds a slash or a backslash.
part-others : (s : Text) → is_part s ≡ true → all (other b'/') s ≡ true
part-others [] h = cc
part-others (c ∷ s) h =
    let (here, rest) = &&-true (is_alnum c) (all is_key_char s) h in
    rw
      (
        key_char-other c (ground (arith, here)),
        all_mono is_key_char (other b'/') key_char-other s rest,
      )
      refl

part-good : (s : Text) → is_part s ≡ true → is_bad_part s ≡ false
unfolding is_bad_part text_eq
part-good [] h = cc
part-good (c ∷ s) h =
    let (here, _) = &&-true (is_alnum c) (all is_key_char s) h in
    let not_dot : (c == b'.') ≡ false = ground (arith, here) in rw not_dot refl

split_on-append :
    (c : ℕ) (p s : Text) → all (other c) p ≡ true → split_on c (p ++ c ∷ s) ≡ p ∷ split_on c s
unfolding split_on
split_on-append c [] s h = rw (==_refl c) refl
split_on-append c (d ∷ p) s h =
    let (here, rest) = &&-true (other c d) (all (other c) p) h in
    rw (not-true (d == c) here, split_on-append c p s rest) refl

split_on-all : (c : ℕ) (p : Text) → all (other c) p ≡ true → split_on c p ≡ p ∷ []
unfolding split_on
split_on-all c [] h = refl
split_on-all c (d ∷ p) h =
    let (here, rest) = &&-true (other c d) (all (other c) p) h in
    rw (not-true (d == c) here, split_on-all c p rest) refl

-- Splitting gives back the parts that were joined.
split_on-join_parts :
    (p : Text) (ps : List Text)
    → all is_part (p ∷ ps) ≡ true
    → split_on b'/' (join_parts (p ∷ ps)) ≡ p ∷ ps
split_on-join_parts p [] h = split_on-all b'/' p (part-others p (&&-true (is_part p) true h).0)
split_on-join_parts p (q ∷ ps) h =
    let (here, rest) = &&-true (is_part p) (all is_part (q ∷ ps)) h in
    split_on-append b'/' p (join_parts (q ∷ ps)) (part-others p here)
    ∙ ap (λ (rs : List Text). p ∷ rs) (split_on-join_parts q ps rest)

abbrev plain_char : ℕ → Bool
plain_char c = is_key_char c || (c == b'/')

forward_slashes-same : (s : Text) → all plain_char s ≡ true → forward_slashes s ≡ s
unfolding forward_slashes
forward_slashes-same [] h = refl
forward_slashes-same (c ∷ s) h =
    let (here, rest) = &&-true (plain_char c) (all plain_char s) h in
    let same : (c == b'\\') ≡ false = ground (arith, here) in
    rw same (ap (λ (t : Text). c ∷ t) (forward_slashes-same s rest))

part-plain : (s : Text) → is_part s ≡ true → all plain_char s ≡ true
part-plain [] h = cc
part-plain (c ∷ s) h =
    let (here, rest) = &&-true (is_alnum c) (all is_key_char s) h in
    rw (here, all_mono is_key_char plain_char (λ d k. rw k refl) s rest) refl

join_parts-plain : (ps : List Text) → all is_part ps ≡ true → all plain_char (join_parts ps) ≡ true
join_parts-plain [] h = refl
join_parts-plain (p ∷ []) h = part-plain p (&&-true (is_part p) true h).0
join_parts-plain (p ∷ q ∷ ps) h =
    let (here, rest) = &&-true (is_part p) (all is_part (q ∷ ps)) h in
    all-append plain_char p (b'/' ∷ join_parts (q ∷ ps)) (part-plain p here)
      (rw (join_parts-plain (q ∷ ps) rest) refl)

none-bad : (ps : List Text) → all is_part ps ≡ true → any is_bad_part ps ≡ false
none-bad [] h = refl
none-bad (p ∷ ps) h =
    let (here, rest) = &&-true (is_part p) (all is_part ps) h in
    rw (part-good p here, none-bad ps rest) refl

-- The first character of a key whose first part is a part.
join_parts-first :
    (p : Text) (ps : List Text)
    → is_part p ≡ true
    → (has_items (join_parts (p ∷ ps)) ≡ true) × (starts_with b'/' (join_parts (p ∷ ps)) ≡ false)
join_parts-first [] ps h = cc
join_parts-first (c ∷ s) [] h =
    let (here, _) = &&-true (is_alnum c) (all is_key_char s) h in (refl, ground (arith, here))
join_parts-first (c ∷ s) (q ∷ ps) h =
    let (here, _) = &&-true (is_alnum c) (all is_key_char s) h in (refl, ground (arith, here))

pub resolve_parts :
    (p : Text) (ps : List Text)
    → all is_part (p ∷ ps) ≡ true
    → (inside : List Text → Bool) → inside (p ∷ ps) ≡ true
    → resolve_storage_key inside (join_parts (p ∷ ps)) ≡ some (p ∷ ps)
unfolding resolve_storage_key
resolve_parts p ps h inside kept =
    let same = forward_slashes-same (join_parts (p ∷ ps)) (join_parts-plain (p ∷ ps) h) in
    let (there, relative) = join_parts-first p ps (&&-true (is_part p) (all is_part ps) h).0 in
    let split = split_on-join_parts p ps h in
    rw (same, there, relative, split, none-bad (p ∷ ps) h, kept) refl
