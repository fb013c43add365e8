-- ===== src/Mentions/Synchronized.antt =====
-- What `synchronize_mentions` makes of the mentions' table.
use task_ticket_management_s.Prelude.{
  ℕ, ◌≡◌, refl, sym, ◌∙◌, Bool, true, false, Option, none, some, List, [], ◌∷◌, ◌&&◌, ◌==◌, ==_refl,
  ==→eq, option_eq, is_none, map, leb, any, any-In, any_intro, In, In-map, map-In, In-append,
  In-append_left, In-append_right, In-select, In-order_by, order_by-In, select-In, order_by, member,
  inl, inr, Bool-cases, &&_intro, &&-true, if◌then◌else◌,
}
use task_ticket_management_s.Document.{Document}
use task_ticket_management_s.Store.{Ticket, Mention}
use task_ticket_management_s.Mentions.{
  mentioned_ids, distinct, of_source, synchronize_row, new_mention, newly_mentioned,
  synchronize_mentions,
}

distinct-In : (xs : List ℕ) (x : ℕ) → In x (distinct xs) → In x xs
distinct-In [] x m = m
distinct-In (y ∷ xs) x m = elim (Bool-cases (member y xs)) [
  | inl t ↦ inr (distinct-In xs x (rw t at m))
  | inr f ↦ elim (let m' : In x (y ∷ distinct xs) = rw f at m in m') [
    | inl e ↦ inl e
    | inr r ↦ inr (distinct-In xs x r)
  ]
]

In-distinct : (xs : List ℕ) (x : ℕ) → In x xs → In x (distinct xs)
In-distinct [] x m = m
In-distinct (y ∷ xs) x (inl e) = elim (Bool-cases (member y xs)) [
  | inl t ↦
      let (z, i, q) = any-In (λ (k : ℕ). k == y) xs t in
      let same : z ≡ x = ==→eq z y q ∙ sym e in rw t (rw (← same) (In-distinct xs z i))
  | inr f ↦ rw f (inl e)
]
In-distinct (y ∷ xs) x (inr m) = elim (Bool-cases (member y xs)) [
  | inl t ↦ rw t (In-distinct xs x m)
  | inr f ↦ rw f (inr (In-distinct xs x m))
]

member-In : (xs : List ℕ) (x : ℕ) → member x xs ≡ true → In x xs
member-In xs x h = let (z, i, q) = any-In (λ (k : ℕ). k == x) xs h in rw (← (==→eq z x q)) i

In-member : (xs : List ℕ) (x : ℕ) → In x xs → member x xs ≡ true
In-member xs x m = any_intro (λ (k : ℕ). k == x) xs x m (==_refl x)

option_eq_refl : (o : Option ℕ) → option_eq o o ≡ true
option_eq_refl none = refl
option_eq_refl (some a) = ==_refl a

module _ (now actor : ℕ) (requested : List ℕ) (m : Mention) where
  -- A mention of the source is live afterwards if and only if its user is requested.
  synchronize_row-live :
      (b : Bool) (o : Option ℕ)
      → member m.target_user_id requested ≡ b
      → m.removed_at ≡ o
      → is_none (synchronize_row now actor requested m).removed_at ≡ b
  unfolding synchronize_row
  synchronize_row-live true none t e = rw (t, e) refl
  synchronize_row-live true (some r) t e = rw (t, e) refl
  synchronize_row-live false none t e = rw (t, e) refl
  synchronize_row-live false (some r) t e = rw (t, e) refl

  synchronize_row-key :
      (b : Bool) (o : Option ℕ)
      → member m.target_user_id requested ≡ b
      → m.removed_at ≡ o
      → ((synchronize_row now actor requested m).ticket_id ≡ m.ticket_id)
        × ((synchronize_row now actor requested m).comment_id ≡ m.comment_id)
        × ((synchronize_row now actor requested m).target_user_id ≡ m.target_user_id)
  unfolding synchronize_row
  synchronize_row-key true none t e = rw (t, e) (refl, refl, refl)
  synchronize_row-key true (some r) t e = rw (t, e) (refl, refl, refl)
  synchronize_row-key false none t e = rw (t, e) (refl, refl, refl)
  synchronize_row-key false (some r) t e = rw (t, e) (refl, refl, refl)

module _ (now actor : ℕ) (t : Ticket) (document : Document) (comment : Option ℕ)
    (ms : List Mention) where
  abbrev requested : List ℕ
  requested = mentioned_ids document

  abbrev changed : Mention → Mention
  changed m = if of_source t.id comment m then synchronize_row now actor requested m else m

  abbrev pub after_mentions : List Mention
  after_mentions = synchronize_mentions now actor t document comment ms

  old_row : (m : Mention) → In m ms → In (changed m) after_mentions
  unfolding synchronize_mentions
  old_row m i = In-append_left _ _ _ (In-map changed ms m i)

  -- A mention that was there.
  old_live :
      (o m : Mention)
      → m ≡ changed o
      → of_source t.id comment m ≡ true
      → is_none m.removed_at ≡ member m.target_user_id requested
  old_live o m e h = elim (Bool-cases (of_source t.id comment o)) [
    | inl s ↦
        let is_synced : m ≡ synchronize_row now actor requested o = rw s at e in
        let (_, _, user) = synchronize_row-key now actor requested o _ o.removed_at refl refl in
        rw is_synced (rw user (synchronize_row-live now actor requested o _ o.removed_at refl refl))
    | inr f ↦ let same : m ≡ o = rw f at e in absurd (cc)
  ]

  -- A mention that is new.
  new_live :
      (m : Mention)
      → In m (map (new_mention now actor t comment) (newly_mentioned ms t.id comment requested))
      → is_none m.removed_at ≡ member m.target_user_id requested
  new_live m i =
      let (u, j, e) = map-In (new_mention now actor t comment) _ m i in
      let (k, _) = select-In _ (order_by leb (distinct requested)) u j in
      rw e (
        sym (
          In-member requested u
            (distinct-In requested u (order_by-In leb (distinct requested) u k))))

  -- After `synchronize_mentions`, a mention of the source is live (it has no time of removal) if
  -- and only if the document mentions its user.
  pub synchronize_mentions-live :
      (m : Mention)
      → In m after_mentions
      → of_source t.id comment m ≡ true
      → is_none m.removed_at ≡ member m.target_user_id requested
  unfolding synchronize_mentions
  synchronize_mentions-live m i h = elim (In-append (map changed ms) _ m i) [
    | inl l ↦ let (o, j, e) = map-In changed ms m l in old_live o m e h
    | inr r ↦ new_live m r
  ]

  abbrev is_live_of : ℕ → Mention → Bool
  is_live_of u m = of_source t.id comment m && (m.target_user_id == u) && is_none m.removed_at

  kept_is_live :
      (o : Mention) (u : ℕ)
      → of_source t.id comment o ≡ true
      → (o.target_user_id == u) ≡ true
      → member u requested ≡ true
      → is_live_of u (synchronize_row now actor requested o) ≡ true
  kept_is_live o u s g h =
      let (ticket, place, user) =
        synchronize_row-key now actor requested o _ o.removed_at refl refl in
      let asked : member o.target_user_id requested ≡ true = rw (==→eq o.target_user_id u g) h in
      let live = synchronize_row-live now actor requested o true o.removed_at asked refl in
      rw (ticket, place, user, live) (&&_intro _ true (&&_intro _ _ s g) refl)

  new_is_live : (u : ℕ) → is_live_of u (new_mention now actor t comment u) ≡ true
  new_is_live u = rw (==_refl t.id, option_eq_refl comment, ==_refl u) refl

  -- After `synchronize_mentions`, each user whom the document mentions has a live mention of the
  -- source.
  pub synchronize_mentions_complete :
      (u : ℕ)
      → member u requested ≡ true
      → any
          (λ m. of_source t.id comment m && (m.target_user_id == u) && is_none m.removed_at)
          after_mentions
        ≡ true
  unfolding synchronize_mentions
  synchronize_mentions_complete u h =
      elim (Bool-cases (any (λ m. of_source t.id comment m && (m.target_user_id == u)) ms)) [
        | inl old ↦
            let (o, i, q) = any-In _ ms old in
            let (s, g) = &&-true (of_source t.id comment o) (o.target_user_id == u) q in
            any_intro (is_live_of u) after_mentions (synchronize_row now actor requested o)
              (rw s at (old_row o i)) (kept_is_live o u s g h)
        | inr none_yet ↦
            any_intro (is_live_of u) after_mentions (new_mention now actor t comment u)
              (In-append_right (map changed ms) _ _ (
                In-map (new_mention now actor t comment) _ u (
                  In-select _ _ u
                    (In-order_by leb _ u (In-distinct requested u (member-In requested u h)))
                    (rw none_yet refl))))
              (new_is_live u)
      ]
