-- ===== src/Prelude/Counts.antt =====
-- Counts of the rows for which a test holds.
use task_ticket_management_s.Prelude.Tests.{Bool-cases}
use task_ticket_management_s.Prelude.Lists.{length, In, count_where}
use Prim.Native.Nat.{◌≤◌, ◌<◌, ◌+◌}
use mathlib.Core.Path.{◌≡◌, refl}
use mathlib.Core.Logic.{inl, inr}
use mathlib.Core.Bool.{Bool, true, false}
use mathlib.Core.List.{List, [], ◌∷◌, ◌++◌, map}
use native.Mathlib.Omega.{arith}

module _ {A : Type 0} (p q : A → Bool) (sub : (x : A) → p x ≡ true → q x ≡ true) where
  pub count_where_mono : (xs : List A) → count_where p xs ≤ count_where q xs
  count_where_mono [] = omega arith
  count_where_mono (x ∷ xs) =
      let rest = count_where_mono xs in
      elim (Bool-cases (p x)) [
        | inl e ↦ rw (e, sub x e) (omega arith)
        | inr e ↦
            rw e
              (elim (Bool-cases (q x)) [ inl f ↦ rw f (omega arith) | inr f ↦ rw f (omega arith) ])
      ]

  -- A row that only `q` takes makes the count strictly larger.
  pub count_where-less :
      (xs : List A) (a : A)
      → In a xs
      → p a ≡ false
      → q a ≡ true
      → count_where p xs < count_where q xs
  count_where-less [] a m f t = absurd m
  count_where-less (x ∷ xs) a (inl e) f t =
      let rest = count_where_mono xs in
      let pf : p x ≡ false = rw (← e) f in
      let qt : q x ≡ true = rw (← e) t in rw (pf, qt) (omega arith)
  count_where-less (x ∷ xs) a (inr m) f t =
      let rest = count_where-less xs a m f t in
      elim (Bool-cases (p x)) [
        | inl e ↦ rw (e, sub x e) (omega arith)
        | inr e ↦
            rw e
              (elim (Bool-cases (q x)) [ inl g ↦ rw g (omega arith) | inr g ↦ rw g (omega arith) ])
      ]

pub count_where-length : {A : Type 0} (p : A → Bool) (xs : List A) → count_where p xs ≤ length xs
count_where-length p [] = omega arith
count_where-length p (x ∷ xs) =
    let rest = count_where-length p xs in
    elim (Bool-cases (p x)) [ inl e ↦ rw e (omega arith) | inr e ↦ rw e (omega arith) ]

module _ {A : Type 0} (p : A → Bool) where
  pub count_where-append :
      (xs ys : List A) → count_where p (xs ++ ys) ≡ count_where p xs + count_where p ys
  count_where-append [] ys = omega arith
  count_where-append (x ∷ xs) ys =
      let rest = count_where-append xs ys in
      elim (Bool-cases (p x)) [ inl e ↦ rw e (omega arith) | inr e ↦ rw e (omega arith) ]

  pub count_where-positive : (xs : List A) (a : A) → In a xs → p a ≡ true → 0 < count_where p xs
  count_where-positive [] a m h = absurd m
  count_where-positive (x ∷ xs) a (inl e) h =
      let here : p x ≡ true = rw (← e) h in rw here (omega arith)
  count_where-positive (x ∷ xs) a (inr m) h =
      let rest = count_where-positive xs a m h in
      elim (Bool-cases (p x)) [ inl e ↦ rw e (omega arith) | inr e ↦ rw e (omega arith) ]

  -- A change of the rows that takes no row out of the count.
  pub count_where-map :
      (f : A → A) (xs : List A)
      → ((x : A) → In x xs → p x ≡ true → p (f x) ≡ true)
      → count_where p xs ≤ count_where p (map f xs)
  count_where-map f [] h = omega arith
  count_where-map f (x ∷ xs) h =
      let rest = count_where-map f xs (λ y m. h y (inr m)) in
      elim (Bool-cases (p x)) [
        | inl e ↦ rw (e, h x (inl refl) e) (omega arith)
        | inr e ↦ rw e (elim (Bool-cases (p (f x))) [
          | inl g ↦ rw g (omega arith)
          | inr g ↦ rw g (omega arith)
        ])
      ]
