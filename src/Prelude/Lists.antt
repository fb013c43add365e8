-- ===== src/Prelude/Lists.antt =====
-- The list functions by which the queries are written: a selection, the first row that fits, a
-- count, a sort, and membership as a predicate by recursion.
use task_ticket_management_s.Prelude.Tests.{if◌then◌else◌, ◌==◌, Bool-cases}
use Prim.Native.Nat.{ℕ, suc}
use mathlib.Core.Path.{◌≡◌, refl, ap}
use mathlib.Core.Logic.{◌⊎◌, inl, inr}
use mathlib.Core.Bool.{Bool, true, false, ◌||◌}
use mathlib.Core.Option.{Option, none, some}
use mathlib.Core.List.{List, [], ◌∷◌, ◌++◌, map}
use native.Mathlib.Omega.{arith}

module _ {ℓ} {A : Type ℓ} where
  abbrev pub length : List A → ℕ
  length [] = 0
  length (x ∷ xs) = suc (length xs)

  -- The rows for which a WHERE clause holds.
  abbrev pub select : (A → Bool) → List A → List A
  select p [] = []
  select p (x ∷ xs) = if p x then x ∷ select p xs else select p xs

  -- The first row for which it holds: the result of `scalar`, `one_or_none` and `next`.
  abbrev pub find_first : (A → Bool) → List A → Option A
  find_first p [] = none
  find_first p (x ∷ xs) = if p x then some x else find_first p xs

  abbrev pub any : (A → Bool) → List A → Bool
  any p [] = false
  any p (x ∷ xs) = p x || any p xs

  abbrev pub count_where : (A → Bool) → List A → ℕ
  count_where p [] = 0
  count_where p (x ∷ xs) = if p x then suc (count_where p xs) else count_where p xs

  abbrev pub list_if : Bool → A → List A
  list_if true x = x ∷ []
  list_if false x = []

  -- ORDER BY: a stable insertion sort by a Boolean order.
  abbrev pub insert_by : (A → A → Bool) → A → List A → List A
  insert_by le x [] = x ∷ []
  insert_by le x (y ∷ ys) = if le x y then x ∷ y ∷ ys else y ∷ insert_by le x ys

  abbrev pub order_by : (A → A → Bool) → List A → List A
  order_by le [] = []
  order_by le (x ∷ xs) = insert_by le x (order_by le xs)

module _ {A : Type 0} where
  -- The row stands in the list.
  abbrev pub In : A → List A → Type 0
  In a [] = ⊥
  In a (x ∷ xs) = (a ≡ x) ⊎ In a xs

  pub find_first-In :
      (p : A → Bool) (xs : List A) (a : A) → find_first p xs ≡ some a → In a xs × (p a ≡ true)
  find_first-In p [] a h = cc
  find_first-In p (x ∷ xs) a h = elim (Bool-cases (p x)) [
    | inl e ↦
        let head : some x ≡ some a = rw e at h in let found : a ≡ x = cc in (inl found, rw found e)
    | inr e ↦ let (m, q) = find_first-In p xs a (rw e at h) in (inr m, q)
  ]

  -- A query that finds nothing: no row fits.
  pub find_first-none :
      (p : A → Bool) (xs : List A) (a : A) → find_first p xs ≡ none → In a xs → p a ≡ false
  find_first-none p [] a h m = absurd m
  find_first-none p (x ∷ xs) a h (inl e) = elim (Bool-cases (p x)) [
    | inl t ↦ cc (rw t at h)
    | inr f ↦ rw e f
  ]
  find_first-none p (x ∷ xs) a h (inr m) = elim (Bool-cases (p x)) [
    | inl t ↦ cc (rw t at h)
    | inr f ↦ find_first-none p xs a (rw f at h) m
  ]

  pub any_intro : (p : A → Bool) (xs : List A) (a : A) → In a xs → p a ≡ true → any p xs ≡ true
  any_intro p [] a m h = absurd m
  any_intro p (x ∷ xs) a (inl e) h = rw (← e, h)
  any_intro p (x ∷ xs) a (inr m) h = ground (arith, any_intro p xs a m h)

  pub any-In : (p : A → Bool) (xs : List A) → any p xs ≡ true → (a : A) × In a xs × (p a ≡ true)
  any-In p [] h = cc
  any-In p (x ∷ xs) h = elim (Bool-cases (p x)) [
    | inl t ↦ (x, inl refl, t)
    | inr f ↦ let (a, m, q) = any-In p xs (rw f at h) in (a, inr m, q)
  ]

  pub any_ext : (p q : A → Bool) (xs : List A) → ((x : A) → p x ≡ q x) → any p xs ≡ any q xs
  any_ext p q [] h = refl
  any_ext p q (x ∷ xs) h = let first = h x in let rest = any_ext p q xs h in cc

  pub any-false : (p : A → Bool) (xs : List A) (a : A) → any p xs ≡ false → In a xs → p a ≡ false
  any-false p xs a h m = elim (Bool-cases (p a)) [ inl t ↦ cc (any_intro p xs a m t) | inr f ↦ f ]

  pub select-In : (p : A → Bool) (xs : List A) (a : A) → In a (select p xs) → In a xs × (p a ≡ true)
  select-In p [] a m = absurd m
  select-In p (x ∷ xs) a m = elim (Bool-cases (p x)) [
    | inl t ↦ elim (let m' : In a (x ∷ select p xs) = rw t at m in m') [
      | inl e ↦ (inl e, rw e t)
      | inr r ↦ let (i, q) = select-In p xs a r in (inr i, q)
    ]
    | inr f ↦ let (i, q) = select-In p xs a (rw f at m) in (inr i, q)
  ]

  pub In-select : (p : A → Bool) (xs : List A) (a : A) → In a xs → p a ≡ true → In a (select p xs)
  In-select p [] a m h = absurd m
  In-select p (x ∷ xs) a (inl e) h = rw (← e, h) (inl refl)
  In-select p (x ∷ xs) a (inr m) h = elim (Bool-cases (p x)) [
    | inl t ↦ rw t (inr (In-select p xs a m h))
    | inr f ↦ rw f (In-select p xs a m h)
  ]

  pub In-append : (xs ys : List A) (a : A) → In a (xs ++ ys) → In a xs ⊎ In a ys
  In-append [] ys a m = inr m
  In-append (x ∷ xs) ys a (inl e) = inl (inl e)
  In-append (x ∷ xs) ys a (inr m) = elim (In-append xs ys a m) [
    | inl l ↦ inl (inr l)
    | inr r ↦ inr r
  ]

  pub In-append_left : (xs ys : List A) (a : A) → In a xs → In a (xs ++ ys)
  In-append_left [] ys a m = absurd m
  In-append_left (x ∷ xs) ys a (inl e) = inl e
  In-append_left (x ∷ xs) ys a (inr m) = inr (In-append_left xs ys a m)

  pub In-append_right : (xs ys : List A) (a : A) → In a ys → In a (xs ++ ys)
  In-append_right [] ys a m = m
  In-append_right (x ∷ xs) ys a m = inr (In-append_right xs ys a m)

  pub In-insert_by :
      (le : A → A → Bool) (x : A) (ys : List A) (a : A) → In a (x ∷ ys) → In a (insert_by le x ys)
  In-insert_by le x [] a m = m
  In-insert_by le x (y ∷ ys) a m = elim (Bool-cases (le x y)) [
    | inl t ↦ rw t m
    | inr f ↦ rw f (elim m [
      | inl e ↦ inr (In-insert_by le x ys a (inl e))
      | inr (inl e) ↦ inl e
      | inr (inr r) ↦ inr (In-insert_by le x ys a (inr r))
    ])
  ]

  pub In-order_by : (le : A → A → Bool) (xs : List A) (a : A) → In a xs → In a (order_by le xs)
  In-order_by le [] a m = m
  In-order_by le (x ∷ xs) a (inl e) = In-insert_by le x (order_by le xs) a (inl e)
  In-order_by le (x ∷ xs) a (inr m) =
      In-insert_by le x (order_by le xs) a (inr (In-order_by le xs a m))

  pub insert_by-In :
      (le : A → A → Bool) (x : A) (ys : List A) (a : A) → In a (insert_by le x ys) → In a (x ∷ ys)
  insert_by-In le x [] a m = m
  insert_by-In le x (y ∷ ys) a m = elim (Bool-cases (le x y)) [
    | inl t ↦ let m' : In a (x ∷ y ∷ ys) = rw t at m in m'
    | inr f ↦ elim (let m' : In a (y ∷ insert_by le x ys) = rw f at m in m') [
      | inl e ↦ inr (inl e)
      | inr r ↦ elim (insert_by-In le x ys a r) [ inl e ↦ inl e | inr q ↦ inr (inr q) ]
    ]
  ]

  pub order_by-In : (le : A → A → Bool) (xs : List A) (a : A) → In a (order_by le xs) → In a xs
  order_by-In le [] a m = m
  order_by-In le (x ∷ xs) a m = elim (insert_by-In le x (order_by le xs) a m) [
    | inl e ↦ inl e
    | inr r ↦ inr (order_by-In le xs a r)
  ]

module _ {A B : Type 0} where
  pub map-In : (f : A → B) (xs : List A) (b : B) → In b (map f xs) → (a : A) × In a xs × (b ≡ f a)
  map-In f [] b m = absurd m
  map-In f (x ∷ xs) b (inl e) = (x, inl refl, e)
  map-In f (x ∷ xs) b (inr m) = let (a, i, e) = map-In f xs b m in (a, inr i, e)

  pub In-map : (f : A → B) (xs : List A) (a : A) → In a xs → In (f a) (map f xs)
  In-map f [] a m = absurd m
  In-map f (x ∷ xs) a (inl e) = inl (ap f e)
  In-map f (x ∷ xs) a (inr m) = inr (In-map f xs a m)

-- `x in xs` for numbers.
abbrev pub member : ℕ → List ℕ → Bool
member a xs = any (λ x. x == a) xs
