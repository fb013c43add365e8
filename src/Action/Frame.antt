-- ===== src/Action/Frame.antt =====
-- Invariants of actions, one rule for each way to build an action: for a block that keeps a
-- predicate whatever it has read.
use task_ticket_management_s.Prelude.{Bool, true, false, Option, none, some}
use task_ticket_management_s.Store.{Db}
use task_ticket_management_s.Action.{
  Failure, Result, ok, err, Action, pure, raise, gets, or_raise, raise_if, modify, continue, ◌>>=◌,
  settle, transaction,
}
use task_ticket_management_s.Action.Triple.{Returns, returned, raised}

-- The action keeps `P`, whether it returns or raises.
pub record Keeps {A : Type 0} (P : Db → Type 0) (m : Action A) : Type 0 where
  pub at : (db : Db) → P db → P (m db).1

module _ {A : Type 0} {P : Db → Type 0} where
  pub Keeps-pure : (a : A) → Keeps P (pure a)
  unfolding pure
  Keeps-pure a = record { at = λ db h. h }

  pub Keeps-raise : (e : Failure) → Keeps P (raise {A = A} e)
  unfolding raise
  Keeps-raise e = record { at = λ db h. h }

  pub Keeps-gets : (f : Db → A) → Keeps P (gets f)
  unfolding gets
  Keeps-gets f = record { at = λ db h. h }

  pub Keeps-or_raise : (o : Option A) (e : Failure) → Keeps P (or_raise o e)
  unfolding or_raise
  Keeps-or_raise none e = record { at = λ db h. h }
  Keeps-or_raise (some a) e = record { at = λ db h. h }

  pub Keeps-transaction : (m : Action A) → Keeps P m → Keeps P (transaction m)
  unfolding transaction
  Keeps-transaction m keeps = record { at = λ db h. go db (m db) h (keeps.at db h) }
    where
      go : (db : Db) (r : Result A × Db) → P db → P r.1 → P (settle db r).1
      go db (ok a, d) h g = g
      go db (err e, d) h g = h

module _ {P : Db → Type 0} where
  pub Keeps-raise_if : (b : Bool) (e : Failure) → Keeps P (raise_if b e)
  unfolding raise_if
  Keeps-raise_if true e = record { at = λ db h. h }
  Keeps-raise_if false e = record { at = λ db h. h }

  pub Keeps-modify : (f : Db → Db) → ((db : Db) → P db → P (f db)) → Keeps P (modify f)
  unfolding modify
  Keeps-modify f h = record { at = h }

module _ {A B : Type 0} {P : Db → Type 0} where
  pub Keeps-bind :
      (m : Action A) (k : A → Action B) → Keeps P m → ((a : A) → Keeps P (k a)) → Keeps P (m >>= k)
  unfolding ◌>>=◌
  Keeps-bind m k first next = record { at = λ db h. go (m db) (first.at db h) }
    where
      go : (r : Result A × Db) → P r.1 → P (continue r.0 k r.1).1
      go (ok a, d) h = (next a).at d h
      go (err e, d) h = h

-- An action that keeps `P`, from where `P` holds, returns where it holds.
pub Returns-Keeps :
    {A : Type 0} (P : Db → Type 0) (m : Action A) (db : Db)
    → Keeps P m
    → P db
    → Returns (λ _ d. P d) (m db)
Returns-Keeps {A = A} P m db keeps h = go (m db) (keeps.at db h)
  where
    go : (r : Result A × Db) → P r.1 → Returns (λ _ d. P d) r
    go (ok a, d) k = returned a d k
    go (err e, d) k = raised e d

pub ruleset keeps_rules = (
  Keeps-pure, Keeps-raise, Keeps-gets, Keeps-or_raise, Keeps-raise_if, Keeps-modify, Keeps-bind,
  Keeps-transaction,
)
