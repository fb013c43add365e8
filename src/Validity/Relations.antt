-- ===== src/Validity/Relations.antt =====
-- Valid relations after one is added and after one is removed.
use task_ticket_management_s.Prelude.{
  ◌≡◌, refl, Bool, false, List, [], ◌∷◌, ◌++◌, any, select, inl, inr, arith, In-append, select-In,
  Bool-cases, ||-false,
}
use task_ticket_management_s.Store.{TicketRelation}
use task_ticket_management_s.Validity.{
  IsValidRelation, IsValidRelations, AreDistinct, same_endpoints,
}

any-append_one :
    (p : TicketRelation → Bool) (xs : List TicketRelation) (y : TicketRelation)
    → any p xs ≡ false
    → p y ≡ false
    → any p (xs ++ y ∷ []) ≡ false
any-append_one p [] y h e = ground arith
any-append_one p (x ∷ xs) y h e = ground (arith, any-append_one p xs y)

AreDistinct-append :
    (rs : List TicketRelation) (n : TicketRelation)
    → AreDistinct rs
    → any (λ r. same_endpoints r n) rs ≡ false
    → AreDistinct (rs ++ n ∷ [])
AreDistinct-append [] n d h = (refl, tt)
AreDistinct-append (r ∷ rs) n d h =
    let (first, rest) = ||-false (same_endpoints r n) _ h in
    (any-append_one (same_endpoints r) rs n d.0 first, AreDistinct-append rs n d.1 rest)

any-select :
    (p q : TicketRelation → Bool) (xs : List TicketRelation)
    → any p xs ≡ false
    → any p (select q xs) ≡ false
any-select p q [] h = refl
any-select p q (x ∷ xs) h = ground (arith, any-select p q xs)

AreDistinct-select :
    (q : TicketRelation → Bool) (rs : List TicketRelation)
    → AreDistinct rs
    → AreDistinct (select q rs)
AreDistinct-select q [] d = tt
AreDistinct-select q (r ∷ rs) d = elim (Bool-cases (q r)) [
  | inl e ↦ rw e (any-select (same_endpoints r) q rs d.0, AreDistinct-select q rs d.1)
  | inr e ↦ rw e (AreDistinct-select q rs d.1)
]

pub append-IsValidRelations :
    (rs : List TicketRelation) (n : TicketRelation)
    → IsValidRelations rs
    → IsValidRelation n
    → any (λ r. same_endpoints r n) rs ≡ false
    → IsValidRelations (rs ++ n ∷ [])
append-IsValidRelations rs n v new absent = record {
  each = λ r m. elim (In-append rs (n ∷ []) r m) [
    | inl old ↦ v.each r old
    | inr (inl e) ↦ rw e new
    | inr (inr none_left) ↦ absurd none_left
  ];
  distinct = AreDistinct-append rs n v.distinct absent;
}

pub select-IsValidRelations :
    (q : TicketRelation → Bool) (rs : List TicketRelation)
    → IsValidRelations rs
    → IsValidRelations (select q rs)
select-IsValidRelations q rs v = record {
  each = λ r m. v.each r (select-In q rs r m).0;
  distinct = AreDistinct-select q rs v.distinct;
}
