-- ===== src/Projects/Members/Rows.antt =====
-- One membership is replaced or deleted: what its queries count and find afterwards.
use task_ticket_management_s.Prelude.{
  ℕ, ◌+◌, ◌≤◌, ◌≡◌, refl, sym, ◌∙◌, Bool, true, false, List, [], ◌∷◌, ◌==◌, map, arith, Bool-cases,
  inl, inr, In, In-map, In-select, any, any-In, any_intro, any-false, count_where, member, ==→eq,
  if◌then◌else◌,
}
use task_ticket_management_s.Store.{ProjectMember}
use task_ticket_management_s.Projects.Settings.{put_member}
use task_ticket_management_s.Projects.Members.{without_member}
use task_ticket_management_s.Validity.Ids.{NoDup}

abbrev pub member_ids : List ProjectMember → List ℕ
member_ids ms = map (λ m. m.id) ms

pub same_member :
    (ms : List ProjectMember) (m n : ProjectMember)
    → NoDup (member_ids ms)
    → In m ms
    → In n ms
    → m.id ≡ n.id
    → m ≡ n
same_member [] m n d i j e = absurd i
same_member (x ∷ xs) m n d (inl a) (inl b) e = a ∙ sym b
same_member (x ∷ xs) m n d (inl a) (inr j) e =
    let absent =
      any-false (λ (k : ℕ). k == x.id) (member_ids xs) n.id d.0
        (In-map (λ (u : ProjectMember). u.id) xs n j) in
    let same : n.id ≡ x.id = rw (← a, e) refl in absurd (ground arith)
same_member (x ∷ xs) m n d (inr i) (inl b) e =
    let absent =
      any-false (λ (k : ℕ). k == x.id) (member_ids xs) m.id d.0
        (In-map (λ (u : ProjectMember). u.id) xs m i) in
    let same : m.id ≡ x.id = rw (← b, e) refl in absurd (ground arith)
same_member (x ∷ xs) m n d (inr i) (inr j) e = same_member xs m n d.1 i j e

-- No row has the id: nothing changes.
without-absent :
    (i : ℕ) (ms : List ProjectMember) → member i (member_ids ms) ≡ false → without_member i ms ≡ ms
without-absent i [] h = refl
without-absent i (m ∷ ms) h = ground (arith, without-absent i ms)

put-absent :
    (c : ProjectMember) (ms : List ProjectMember)
    → member c.id (member_ids ms) ≡ false
    → put_member c ms ≡ ms
put-absent c [] h = refl
put-absent c (m ∷ ms) h = ground (arith, put-absent c ms)

pub put-ids :
    (c : ProjectMember) (ms : List ProjectMember) → member_ids (put_member c ms) ≡ member_ids ms
put-ids c [] = refl
put-ids c (m ∷ ms) =
    let rest = put-ids c ms in
    elim (Bool-cases (m.id == c.id)) [
      | inl e ↦ let same = ==→eq m.id c.id e in rw e cc
      | inr e ↦ rw e cc
    ]

without-member_absent :
    (i j : ℕ) (ms : List ProjectMember)
    → member j (member_ids ms) ≡ false
    → member j (member_ids (without_member i ms)) ≡ false
without-member_absent i j [] h = refl
without-member_absent i j (m ∷ ms) h = ground (arith, without-member_absent i j ms)

pub without-NoDup :
    (i : ℕ) (ms : List ProjectMember)
    → NoDup (member_ids ms)
    → NoDup (member_ids (without_member i ms))
without-NoDup i [] d = tt
without-NoDup i (m ∷ ms) d = elim (Bool-cases (m.id == i)) [
  | inl e ↦ rw e (without-NoDup i ms d.1)
  | inr e ↦ rw e (without-member_absent i m.id ms d.0, without-NoDup i ms d.1)
]

module _ (p : ProjectMember → Bool) where
  -- At most one row is lost to a count.
  pub count_where-without :
      (i : ℕ) (ms : List ProjectMember)
      → NoDup (member_ids ms)
      → count_where p ms ≤ count_where p (without_member i ms) + 1
  count_where-without i [] d = omega arith
  count_where-without i (m ∷ ms) d =
      let rest = count_where-without i ms d.1 in
      elim (Bool-cases (m.id == i)) [
        | inl e ↦ rw e (rw (without-absent i ms (rw (==→eq m.id i e) at (d.0))) (ground arith))
        | inr e ↦ rw e (ground arith)
      ]

  pub count_where-put :
      (c : ProjectMember) (ms : List ProjectMember)
      → NoDup (member_ids ms)
      → count_where p ms ≤ count_where p (put_member c ms) + 1
  count_where-put c [] d = omega arith
  count_where-put c (m ∷ ms) d =
      let rest = count_where-put c ms d.1 in
      elim (Bool-cases (m.id == c.id)) [
        | inl e ↦ rw e (rw (put-absent c ms (rw (==→eq m.id c.id e) at (d.0))) (ground arith))
        | inr e ↦ rw e (ground arith)
      ]

  -- No row is lost that the count does not take, or that still fits.
  pub count_where-without_other :
      (i : ℕ) (ms : List ProjectMember)
      → ((m : ProjectMember) → In m ms → p m ≡ true → (m.id == i) ≡ false)
      → count_where p ms ≤ count_where p (without_member i ms)
  count_where-without_other i [] h = omega arith
  count_where-without_other i (m ∷ ms) h =
      let rest = count_where-without_other i ms (λ n j. h n (inr j)) in
      let first = h m (inl refl) in
      elim (Bool-cases (p m)) [
        | inl e ↦ let other = first e in rw (other, e) (omega arith)
        | inr e ↦ rw e (ground arith)
      ]

  pub count_where-put_fitting :
      (c : ProjectMember) (ms : List ProjectMember)
      → ((m : ProjectMember) → In m ms → (m.id == c.id) ≡ true → p m ≡ true → p c ≡ true)
      → count_where p ms ≤ count_where p (put_member c ms)
  count_where-put_fitting c [] h = omega arith
  count_where-put_fitting c (m ∷ ms) h =
      let rest = count_where-put_fitting c ms (λ n j. h n (inr j)) in
      let first = h m (inl refl) in
      elim (Bool-cases (m.id == c.id)) [
        | inl e ↦ elim (Bool-cases (p m)) [
          | inl f ↦ let fits = first e f in rw (e, fits, f) (omega arith)
          | inr f ↦ rw (e, f) (ground arith)
        ]
        | inr e ↦ rw e (ground arith)
      ]

  pub any-without :
      (m : ProjectMember) (ms : List ProjectMember)
      → NoDup (member_ids ms)
      → In m ms
      → p m ≡ false
      → any p ms ≡ true
      → any p (without_member m.id ms) ≡ true
  any-without m ms d i f h =
      let (n, j, t) = any-In p ms h in
      elim (Bool-cases (n.id == m.id)) [
        | inl e ↦
            let same = same_member ms n m d j i (==→eq n.id m.id e) in
            absurd (let both : p m ≡ true = rw (← same) t in cc)
        | inr e ↦ any_intro p (without_member m.id ms) n (In-select _ ms n j (rw e refl)) t
      ]

  pub any-put :
      (o c : ProjectMember) (ms : List ProjectMember)
      → NoDup (member_ids ms)
      → In o ms
      → c.id ≡ o.id
      → (p o ≡ true → p c ≡ true)
      → any p ms ≡ true
      → any p (put_member c ms) ≡ true
  any-put o c ms d i same fits h =
      let (n, j, t) = any-In p ms h in
      let there = In-map (λ (m : ProjectMember). if m.id == c.id then c else m) ms n j in
      elim (Bool-cases (n.id == c.id)) [
        | inl e ↦
            let is_o = same_member ms n o d j i (==→eq n.id c.id e ∙ same) in
            any_intro p (put_member c ms) c (rw e at there) (fits (rw (← is_o) t))
        | inr e ↦ any_intro p (put_member c ms) n (rw e at there) t
      ]
