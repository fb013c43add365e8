-- ===== src/Action/Triple.antt =====
-- Rules for what holds after a call that returns: one for each way to build an action.
use task_ticket_management_s.Prelude.{Bool, true, false, Option, none, some, ◌≡◌, refl}
use task_ticket_management_s.Store.{Db}
use task_ticket_management_s.Action.{
  Failure, Result, ok, err, Action, pure, gets, or_raise, raise_if, modify, continue, ◌>>=◌, settle,
  transaction,
}

-- If the call returned, `Q` holds of its value and of the database that it leaves.
pub data Returns {A : Type 0} (Q : A → Db → Type 0) : Result A × Db → Type 0 where
  returned : (a : A) (db : Db) → Q a db → Returns Q (ok a, db)
  raised : (e : Failure) (db : Db) → Returns Q (err e, db)

module _ {A : Type 0} (Q : A → Db → Type 0) where
  pub Returns-pure : (a : A) (db : Db) → Q a db → Returns Q (pure a db)
  unfolding pure
  Returns-pure a db h = returned a db h

  pub Returns-or_raise_last :
      (o : Option A) (e : Failure) (db : Db)
      → ((a : A) → o ≡ some a → Q a db)
      → Returns Q (or_raise o e db)
  unfolding or_raise
  Returns-or_raise_last none e db h = raised e db
  Returns-or_raise_last (some a) e db h = returned a db (h a refl)

  pub Returns-weaken :
      (R : A → Db → Type 0) (r : Result A × Db)
      → Returns R r
      → ((a : A) (d : Db) → R a d → Q a d)
      → Returns Q r
  Returns-weaken R r (returned a d h) weaken = returned a d (weaken a d h)
  Returns-weaken R r (raised e d) weaken = raised e d

  pub Returns-elim : (r : Result A × Db) (a : A) → Returns Q r → r.0 ≡ ok a → Q a r.1
  Returns-elim r a (returned b db h) e = let same : b ≡ a = cc in rw (← same) h
  Returns-elim r a (raised f db) e = cc

  -- A transaction keeps what holds at its start and at each of its returns.
  pub transaction_keeps :
      (P : Db → Type 0) (m : Action A) (db : Db)
      → P db
      → ((a : A) (d : Db) → Q a d → P d)
      → Returns Q (m db)
      → P (transaction m db).1
  unfolding transaction
  transaction_keeps P m db p weaken h = go (m db) h
    where
      go : (r : Result A × Db) → Returns Q r → P (settle db r).1
      go r (returned a d q) = weaken a d q
      go r (raised e d) = p

  pub Returns-transaction :
      (m : Action A) (db : Db) → Returns Q (m db) → Returns Q (transaction m db)
  unfolding transaction
  Returns-transaction m db h = go (m db) h
    where
      go : (r : Result A × Db) → Returns Q r → Returns Q (settle db r)
      go r (returned a d q) = returned a d q
      go r (raised e d) = raised e db

module _ {A B : Type 0} (Q : B → Db → Type 0) where
  pub Returns-bind :
      (R : A → Db → Type 0) (m : Action A) (k : A → Action B) (db : Db)
      → Returns R (m db)
      → ((a : A) (d : Db) → R a d → Returns Q (k a d))
      → Returns Q ((m >>= k) db)
  unfolding ◌>>=◌
  Returns-bind R m k db h next = go (m db) h
    where
      go : (r : Result A × Db) → Returns R r → Returns Q (continue r.0 k r.1)
      go r (returned a d q) = next a d q
      go r (raised e d) = raised e d

  pub Returns-gets :
      (f : Db → A) (k : A → Action B) (db : Db)
      → Returns Q (k (f db) db)
      → Returns Q ((gets f >>= k) db)
  unfolding ◌>>=◌
  Returns-gets f k db h = h

  pub Returns-or_raise :
      (o : Option A) (e : Failure) (k : A → Action B) (db : Db)
      → ((a : A) → o ≡ some a → Returns Q (k a db))
      → Returns Q ((or_raise o e >>= k) db)
  unfolding ◌>>=◌
  Returns-or_raise none e k db h = raised e db
  Returns-or_raise (some a) e k db h = h a refl

module _ {B : Type 0} (Q : B → Db → Type 0) where
  pub Returns-raise_if :
      (b : Bool) (e : Failure) (k : Unit {0} → Action B) (db : Db)
      → (b ≡ false → Returns Q (k tt db))
      → Returns Q ((raise_if b e >>= k) db)
  unfolding ◌>>=◌
  Returns-raise_if true e k db h = raised e db
  Returns-raise_if false e k db h = h refl

  pub Returns-modify :
      (f : Db → Db) (k : Unit {0} → Action B) (db : Db)
      → Returns Q (k tt (f db))
      → Returns Q ((modify f >>= k) db)
  unfolding ◌>>=◌
  Returns-modify f k db h = h

-- A block that ends with a write.
pub Returns-modify_last :
    (Q : Unit {0} → Db → Type 0) (f : Db → Db) (db : Db) → Q tt (f db) → Returns Q (modify f db)
unfolding modify
Returns-modify_last Q f db h = returned tt (f db) h

-- A block that ends with a guard.
pub Returns-raise_if_last :
    (Q : Unit {0} → Db → Type 0) (b : Bool) (e : Failure) (db : Db)
    → (b ≡ false → Q tt db)
    → Returns Q (raise_if b e db)
unfolding raise_if
Returns-raise_if_last Q true e db h = raised e db
Returns-raise_if_last Q false e db h = returned tt db (h refl)
