-- ===== src/Validity/Ids.antt =====
-- Rows with unique ids: a row is what its id finds, also after an update that keeps the ids.
use task_ticket_management_s.Prelude.{
  ℕ, ◌≡◌, refl, false, some, List, [], ◌∷◌, ◌++◌, map, inl, inr, arith, ◌==◌, ==_refl, Bool-cases,
  member, In, any-false, In-map,
}
use task_ticket_management_s.Store.{Ticket}
use task_ticket_management_s.Tickets.Queries.{find_ticket, ids}

abbrev pub NoDup : List ℕ → Type 0
NoDup [] = Unit
NoDup (x ∷ xs) = (member x xs ≡ false) × NoDup xs

member-append :
    (x y : ℕ) (xs : List ℕ)
    → member x xs ≡ false
    → (y == x) ≡ false
    → member x (xs ++ y ∷ []) ≡ false
member-append x y [] h e = ground arith
member-append x y (z ∷ xs) h e = ground (arith, member-append x y xs)

pub NoDup-append : (y : ℕ) (xs : List ℕ) → NoDup xs → member y xs ≡ false → NoDup (xs ++ y ∷ [])
NoDup-append y [] d h = (refl, tt)
NoDup-append y (x ∷ xs) d h =
    (member-append x y xs d.0 (ground arith), NoDup-append y xs d.1 (ground arith))

-- A row of a table with unique ids is the one that its id finds.
pub find_ticket-In :
    (ts : List Ticket) (t : Ticket) → NoDup (ids ts) → In t ts → find_ticket t.id ts ≡ some t
find_ticket-In [] t d m = absurd m
find_ticket-In (x ∷ ts) t d (inl e) = rw (e, ==_refl x.id)
find_ticket-In (x ∷ ts) t d (inr m) = elim (Bool-cases (x.id == t.id)) [
  | inl same ↦
      let absent =
        any-false (λ (i : ℕ). i == x.id) (ids ts) t.id d.0 (In-map (λ (u : Ticket). u.id) ts t m) in
      absurd (ground arith)
  | inr other ↦ rw other (find_ticket-In ts t d.1 m)
]

pub same_id :
    (ts : List Ticket) (t u : Ticket) → NoDup (ids ts) → In t ts → In u ts → t.id ≡ u.id → t ≡ u
same_id ts t u d m n e =
    let left : find_ticket t.id ts ≡ some t = find_ticket-In ts t d m in
    let right : find_ticket t.id ts ≡ some u = rw e (find_ticket-In ts u d n) in cc

module _ (f : Ticket → Ticket) where
  pub ids-map :
      (ts : List Ticket) → ((t : Ticket) → In t ts → (f t).id ≡ t.id) → ids (map f ts) ≡ ids ts
  ids-map [] keep = refl
  ids-map (t ∷ ts) keep =
      let rest = ids-map ts (λ u m. keep u (inr m)) in let first = keep t (inl refl) in cc

  pub find_ticket-map :
      (i : ℕ) (ts : List Ticket)
      → ((t : Ticket) → In t ts → (f t).id ≡ t.id)
      → (u : Ticket) → find_ticket i ts ≡ some u
      → find_ticket i (map f ts) ≡ some (f u)
  find_ticket-map i [] keep u h = cc
  find_ticket-map i (t ∷ ts) keep u h =
      let first = keep t (inl refl) in
      elim (Bool-cases (t.id == i)) [
        | inl same ↦ rw (first, same) (let e : some t ≡ some u = rw same at h in cc)
        | inr other ↦
            rw (first, other) (find_ticket-map i ts (λ v m. keep v (inr m)) u (rw other at h))
      ]
