-- ===== src/Tickets/Update/Cycles.antt =====
-- The loop `parent_would_cycle` of app/repositories/tickets.py ends: each turn marks a row that was
-- not marked before, so the rows bound the turns.
use task_ticket_management_s.Prelude.{
  ℕ, zero, suc, ◌+◌, ◌≤◌, ◌<◌, ◌≡◌, refl, Bool, true, false, not, Option, none, some, List, [], ◌∷◌,
  ◌&&◌, ◌==◌, arith, Bool-cases, inl, inr, In, find_first, find_first-In, count_where, length,
  member, is_some, count_where-less, count_where-length, &&-true, ==→eq, ==_refl,
}
use task_ticket_management_s.Store.{Ticket}
use task_ticket_management_s.Tickets.Update.{
  parent_of, parent_id_in, cycle_loop, parent_would_cycle,
}

-- The rows that the loop has not seen.
abbrev unseen : List ℕ → Ticket → Bool
unseen seen t = not (member t.id seen)

unseen-shrinks :
    (i : ℕ) (seen : List ℕ) (t : Ticket) → unseen (i ∷ seen) t ≡ true → unseen seen t ≡ true
unseen-shrinks i seen t h = ground arith

-- A row that has a parent stands in the table.
parent_row :
    (ts : List Ticket) (pid i j : ℕ)
    → parent_id_in ts pid i ≡ some j
    → (t : Ticket) × (In t ts × (t.id ≡ i))
parent_row ts pid i j h = from (find_first (λ t. (t.project_id == pid) && (t.id == i)) ts) refl h
  where
    from :
        (o : Option Ticket)
        → find_first (λ t. (t.project_id == pid) && (t.id == i)) ts ≡ o
        → parent_of o ≡ some j
        → (t : Ticket) × (In t ts × (t.id ≡ i))
    from none e h = cc
    from (some t) e h =
        let (m, q) = find_first-In _ ts t e in
        (t, (m, ==→eq t.id i (&&-true (t.project_id == pid) (t.id == i) q).1))

marks :
    (i : ℕ) (seen : List ℕ) (t : Ticket)
    → t.id ≡ i
    → member i seen ≡ false
    → (unseen (i ∷ seen) t ≡ false) × (unseen seen t ≡ true)
marks i seen t e h = rw e (rw (==_refl i) (refl, rw h refl))

cycle_loop-none :
    (fuel : ℕ) (ts : List Ticket) (pid : ℕ) (seen : List ℕ)
    → 0 < fuel
    → is_some (cycle_loop fuel ts pid seen none) ≡ true
unfolding cycle_loop
cycle_loop-none zero ts pid seen h = absurd (omega arith)
cycle_loop-none (suc fuel) ts pid seen h = refl

-- One turn: if the loop goes on, it sees a new row.
turn-total :
    (fuel : ℕ) (ts : List Ticket) (pid i : ℕ) (seen : List ℕ) (o : Option ℕ)
    → ((j : ℕ)
        → count_where (unseen (i ∷ seen)) ts + 2 ≤ fuel
        → is_some (cycle_loop fuel ts pid (i ∷ seen) (some j)) ≡ true)
    → count_where (unseen seen) ts + 2 ≤ suc fuel
    → member i seen ≡ false
    → parent_id_in ts pid i ≡ o
    → is_some (cycle_loop fuel ts pid (i ∷ seen) o) ≡ true
turn-total fuel ts pid i seen none rest h e f = cycle_loop-none fuel ts pid (i ∷ seen) (omega arith)
turn-total fuel ts pid i seen (some j) rest h e f =
    let (t, (m, same)) = parent_row ts pid i j f in
    let (now, before) = marks i seen t same e in
    let fewer =
      count_where-less (unseen (i ∷ seen)) (unseen seen) (unseen-shrinks i seen) ts t m now
        before in
    rest j (omega arith)

cycle_loop-total :
    (fuel : ℕ) (ts : List Ticket) (pid : ℕ) (seen : List ℕ) (current : Option ℕ)
    → count_where (unseen seen) ts + 2 ≤ fuel
    → is_some (cycle_loop fuel ts pid seen current) ≡ true
unfolding cycle_loop
cycle_loop-total zero ts pid seen current h = absurd (omega arith)
cycle_loop-total (suc fuel) ts pid seen none h = refl
cycle_loop-total (suc fuel) ts pid seen (some i) h =
    let rest : (j : ℕ)
        → count_where (unseen (i ∷ seen)) ts + 2 ≤ fuel
        → is_some (cycle_loop fuel ts pid (i ∷ seen) (some j)) ≡ true =
      λ j. cycle_loop-total fuel ts pid (i ∷ seen) (some j) in
    elim (Bool-cases (member i seen)) [
      | inl e ↦ rw e refl
      | inr e ↦ rw e (turn-total fuel ts pid i seen (parent_id_in ts pid i) rest h e refl)
    ]

-- The loop of `parent_would_cycle` ends on every table, with cycles or without: the fuel that the
-- model gives it, two more than the number of rows, is enough for an answer.
pub parent_would_cycle-total :
    (ts : List Ticket) (pid tid : ℕ) (parent : Option ℕ)
    → is_some (parent_would_cycle ts pid tid parent) ≡ true
unfolding parent_would_cycle
parent_would_cycle-total ts pid tid parent =
    let bound = count_where-length (unseen (tid ∷ [])) ts in
    cycle_loop-total (length ts + 2) ts pid (tid ∷ []) parent (omega arith)
