-- ===== src/Attachments/BaseName.antt =====
-- The characters of the base name that `normalize_attachment_filename` takes from a path.
use task_ticket_management_s.Prelude.{
  ℕ, ◌≡◌, refl, Bool, true, false, not, ◌&&◌, Option, [], ◌∷◌, ◌==◌, any, option_or, Text, strip,
  strip_left, is_space, Bool-cases, inl, inr, &&-true, ||-false,
}
use mathlib.Core.List.{reverse, reverse-cons}
use task_ticket_management_s.Accounts.Passwords.{is_control}
use task_ticket_management_s.Attachments.Names.{all, forward_slashes, after_last}
use task_ticket_management_s.Attachments.Parts.{all-append}

abbrev pub is_name_char : ℕ → Bool
is_name_char c = not (c == b'/') && not (c == b'\\') && not (is_control c)

-- Each character of the text that is left was one of the text before.
abbrev pub no_backslash : ℕ → Bool
no_backslash c = not (c == b'\\')

abbrev pub no_slash : ℕ → Bool
no_slash c = not (c == b'/')

forward_slashes-no_backslash : (s : Text) → all no_backslash (forward_slashes s) ≡ true
unfolding forward_slashes
forward_slashes-no_backslash [] = refl
forward_slashes-no_backslash (c ∷ s) = elim (Bool-cases (c == b'\\')) [
  | inl t ↦ rw t (forward_slashes-no_backslash s)
  | inr f ↦ rw (f, f) (forward_slashes-no_backslash s)
]

all-after_last : (p : ℕ → Bool) (c : ℕ) (s : Text) → all p s ≡ true → all p (after_last c s) ≡ true
unfolding after_last
all-after_last p c [] h = refl
all-after_last p c (x ∷ s) h =
    let (here, rest) = &&-true (p x) (all p s) h in
    elim (Bool-cases (any (λ d. d == c) s)) [
      | inl t ↦ rw t (all-after_last p c s rest)
      | inr f ↦ elim (Bool-cases (x == c)) [ inl t ↦ rw (f, t) rest | inr g ↦ rw (f, g) h ]
    ]

any-other : (c : ℕ) (s : Text) → any (λ d. d == c) s ≡ false → all (λ d. not (d == c)) s ≡ true
any-other c [] h = refl
any-other c (x ∷ s) h =
    let (here, rest) = ||-false (x == c) (any (λ d. d == c) s) h in
    rw (here, any-other c s rest) refl

after_last-other : (c : ℕ) (s : Text) → all (λ d. not (d == c)) (after_last c s) ≡ true
unfolding after_last
after_last-other c [] = refl
after_last-other c (x ∷ s) = elim (Bool-cases (any (λ d. d == c) s)) [
  | inl t ↦ rw t (after_last-other c s)
  | inr f ↦ elim (Bool-cases (x == c)) [
    | inl t ↦ rw (f, t) (any-other c s f)
    | inr g ↦ rw (f, g) (rw g (any-other c s f))
  ]
]

all-strip_left : (p : ℕ → Bool) (s : Text) → all p s ≡ true → all p (strip_left s) ≡ true
unfolding strip_left
all-strip_left p [] h = refl
all-strip_left p (c ∷ s) h =
    let (_, rest) = &&-true (p c) (all p s) h in
    elim (Bool-cases (is_space c)) [ inl t ↦ rw t (all-strip_left p s rest) | inr f ↦ rw f h ]

all-reverse : (p : ℕ → Bool) (s : Text) → all p s ≡ true → all p (reverse s) ≡ true
all-reverse p [] h = refl
all-reverse p (c ∷ s) h =
    let (here, rest) = &&-true (p c) (all p s) h in
    rw (reverse-cons c s) (all-append p (reverse s) (c ∷ []) (all-reverse p s rest) (rw here refl))

all-strip : (p : ℕ → Bool) (s : Text) → all p s ≡ true → all p (strip s) ≡ true
unfolding strip
all-strip p s h = all-reverse p (strip_left (reverse (strip_left s))) (
    all-strip_left p (reverse (strip_left s)) (all-reverse p (strip_left s) (all-strip_left p s h)))

-- The base name of a path holds no separator.
pub all-three :
    (s : Text)
    → all no_slash s ≡ true
    → all no_backslash s ≡ true
    → any is_control s ≡ false
    → all is_name_char s ≡ true
all-three [] h k n = refl
all-three (c ∷ s) h k n =
    let (a, more_a) = &&-true (no_slash c) (all no_slash s) h in
    let (b, more_b) = &&-true (no_backslash c) (all no_backslash s) k in
    let (d, more_d) = ||-false (is_control c) (any is_control s) n in
    rw (a, b, d, all-three s more_a more_b more_d) refl

abbrev pub base_name : Option Text → Text
base_name raw = strip (after_last b'/' (forward_slashes (option_or raw [])))

pub base_name-no_slash : (raw : Option Text) → all no_slash (base_name raw) ≡ true
base_name-no_slash raw =
    all-strip no_slash _ (after_last-other b'/' (forward_slashes (option_or raw [])))

pub base_name-no_backslash : (raw : Option Text) → all no_backslash (base_name raw) ≡ true
base_name-no_backslash raw =
    all-strip no_backslash _
      (all-after_last no_backslash b'/' _ (forward_slashes-no_backslash (option_or raw [])))
