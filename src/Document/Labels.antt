-- ===== src/Document/Labels.antt =====
-- Setting the labels of the mentions leaves the rest of a document as it is.
use task_ticket_management_s.Prelude.{ℕ, ◌≡◌, refl, List, [], ◌∷◌, ◌++◌, map, Text}
use task_ticket_management_s.Document.{
  Node, nil, cons, text_node, mention_node, image_node, element, Document, iter_attachment_ids,
  node_attachment_ids, iter_mention_nodes, node_mentions, relabel_mentions, relabel_node,
  document_schema_version, has_items,
}

-- The mentions of a document, with the labels that `name` gives.
abbrev labelled : (ℕ → Text) → List (ℕ × Text) → List (ℕ × Text)
labelled name ms = map (λ m. (m.0, name m.0)) ms

labelled-append :
    (name : ℕ → Text) (xs ys : List (ℕ × Text))
    → labelled name (xs ++ ys) ≡ labelled name xs ++ labelled name ys
labelled-append name [] ys = refl
labelled-append name (x ∷ xs) ys = let rest = labelled-append name xs ys in cc

mutual
  unfolding iter_mention_nodes relabel_mentions

  iter_mention_nodes-relabel_mentions :
      (name : ℕ → Text) (d : Document)
      → iter_mention_nodes (relabel_mentions name d) ≡ labelled name (iter_mention_nodes d)
  iter_mention_nodes-relabel_mentions name nil = refl
  iter_mention_nodes-relabel_mentions name (cons n ns) =
      rw
        (
          node_mentions-relabel_node name n,
          iter_mention_nodes-relabel_mentions name ns,
          labelled-append name (node_mentions n) (iter_mention_nodes ns),
        )
        refl

  node_mentions-relabel_node :
      (name : ℕ → Text) (n : Node)
      → node_mentions (relabel_node name n) ≡ labelled name (node_mentions n)
  node_mentions-relabel_node name (text_node s m) = refl
  node_mentions-relabel_node name (mention_node u l) = refl
  node_mentions-relabel_node name (image_node i a) = refl
  node_mentions-relabel_node name (element k a ns) = iter_mention_nodes-relabel_mentions name ns

mutual
  unfolding iter_attachment_ids relabel_mentions

  iter_attachment_ids-relabel_mentions :
      (name : ℕ → Text) (d : Document)
      → iter_attachment_ids (relabel_mentions name d) ≡ iter_attachment_ids d
  iter_attachment_ids-relabel_mentions name nil = refl
  iter_attachment_ids-relabel_mentions name (cons n ns) =
      rw (node_attachment_ids-relabel_node name n, iter_attachment_ids-relabel_mentions name ns)
        refl

  node_attachment_ids-relabel_node :
      (name : ℕ → Text) (n : Node)
      → node_attachment_ids (relabel_node name n) ≡ node_attachment_ids n
  node_attachment_ids-relabel_node name (text_node s m) = refl
  node_attachment_ids-relabel_node name (mention_node u l) = refl
  node_attachment_ids-relabel_node name (image_node i a) = refl
  node_attachment_ids-relabel_node name (element k a ns) =
      iter_attachment_ids-relabel_mentions name ns

has_items-labelled :
    (name : ℕ → Text) (ms : List (ℕ × Text)) → has_items (labelled name ms) ≡ has_items ms
has_items-labelled name [] = refl
has_items-labelled name (m ∷ ms) = refl

schema_version_kept :
    (name : ℕ → Text) (d : Document)
    → document_schema_version (relabel_mentions name d) ≡ document_schema_version d
unfolding document_schema_version
schema_version_kept name d =
    rw (iter_mention_nodes-relabel_mentions name d, has_items-labelled name (iter_mention_nodes d))
      refl

-- A document whose mentions are relabelled mentions the same users in the same order, each under
-- the name that is given for them; it has the same attachments in the same order, and the same
-- schema version.
pub relabel_mentions_lem :
    (name : ℕ → Text) (d : Document)
    → (iter_mention_nodes (relabel_mentions name d)
        ≡ map (λ m. (m.0, name m.0)) (iter_mention_nodes d))
      × (iter_attachment_ids (relabel_mentions name d) ≡ iter_attachment_ids d)
      × (document_schema_version (relabel_mentions name d) ≡ document_schema_version d)
relabel_mentions_lem name d = (
  iter_mention_nodes-relabel_mentions name d,
  iter_attachment_ids-relabel_mentions name d,
  schema_version_kept name d,
)
