-- ===== src/Mentions/Rules.antt =====
-- The checks of a document write nothing.
use task_ticket_management_s.Prelude.{ℕ, ◌≡◌, refl, Option}
use task_ticket_management_s.Document.{Document}
use task_ticket_management_s.Store.{Db}
use task_ticket_management_s.Action.{Env, Action, ◌>>=◌}
use task_ticket_management_s.Action.Triple.{
  Returns, Returns-pure, Returns-bind, Returns-gets, Returns-raise_if, Returns-raise_if_last,
}
use task_ticket_management_s.Mentions.{validate_mentions, require_available_document_attachments}

module _ (env : Env) (pid : ℕ) (tid : Option ℕ) (document : Document) (db : Db) where
  validate_mentions-Returns :
      Returns (λ (_ : Document) d. d ≡ db) (validate_mentions env pid document db)
  unfolding validate_mentions
  validate_mentions-Returns =
      Returns-gets _ _ _ db
        (Returns-raise_if _ _ _ _ db λ _. Returns-raise_if _ _ _ _ db λ _. Returns-pure _ _ db refl)

  -- The rules for the checks in a block.
  pub Returns-mentions :
      {B : Type 0} (Q : B → Db → Type 0) (k : Document → Action B)
      → ((d : Document) → Returns Q (k d db))
      → Returns Q ((validate_mentions env pid document >>= k) db)
  Returns-mentions Q k next =
      Returns-bind Q _ _ k db validate_mentions-Returns λ x d e. rw e (next x)

  require_available-Returns :
      Returns
        (λ (_ : Unit {0}) d. d ≡ db)
        (require_available_document_attachments pid tid document db)
  unfolding require_available_document_attachments
  require_available-Returns = Returns-gets _ _ _ db (Returns-raise_if_last _ _ _ db λ _. refl)

  pub Returns-attachments :
      {B : Type 0} (Q : B → Db → Type 0) (k : Unit {0} → Action B)
      → Returns Q (k tt db)
      → Returns Q ((require_available_document_attachments pid tid document >>= k) db)
  Returns-attachments Q k next =
      Returns-bind Q _ _ k db require_available-Returns λ x d e. rw e next
