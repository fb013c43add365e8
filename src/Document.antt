-- ===== src/Document.antt =====
-- app/domain/rich_text.py: the normalised Tiptap document tree, and the functions by which the
-- services read it. A node with a list of nodes inside is a `mutual` block.
pub mod Labels
pub mod Plain
use task_ticket_management_s.Prelude.{
  ℕ, Bool, true, false, List, [], ◌∷◌, ◌++◌, ◌&&◌, ◌==◌, if◌then◌else◌, Text, text_eq,
}

-- `{"type": …, "attrs": {…}}` in `marks`: its type and its attributes.
pub record Mark : Type 0 where
  pub name : Text
  pub attrs : List (Text × Text)

mutual
  pub data Node : Type 0 where
    text_node : Text → List Mark → Node
    mention_node : ℕ → Text → Node
    image_node : ℕ → List (Text × Text) → Node
    element : Text → List (Text × Text) → Nodes → Node

  pub data Nodes : Type 0 where
    nil : Nodes
    cons : Node → Nodes → Nodes

-- The `content` of the top node, whose type is always `doc`.
abbrev pub Document : Type 0
Document = Nodes

-- `empty_body_document`
abbrev pub paragraph : Text
paragraph = 112 ∷ 97 ∷ 114 ∷ 97 ∷ 103 ∷ 114 ∷ 97 ∷ 112 ∷ 104 ∷ []

abbrev pub empty_body_document : Document
empty_body_document = cons (element paragraph [] nil) nil

-- `_iter_attachment_ids`: an image yields its own id before those of its children.
unfoldable mutual
  pub iter_attachment_ids : Nodes → List ℕ
  iter_attachment_ids nil = []
  iter_attachment_ids (cons n ns) = node_attachment_ids n ++ iter_attachment_ids ns

  pub node_attachment_ids : Node → List ℕ
  node_attachment_ids (text_node _ _) = []
  node_attachment_ids (mention_node _ _) = []
  node_attachment_ids (image_node i _) = i ∷ []
  node_attachment_ids (element _ _ ns) = iter_attachment_ids ns

-- `iter_mention_nodes`: user id and label of each mention.
unfoldable mutual
  pub iter_mention_nodes : Nodes → List (ℕ × Text)
  iter_mention_nodes nil = []
  iter_mention_nodes (cons n ns) = node_mentions n ++ iter_mention_nodes ns

  pub node_mentions : Node → List (ℕ × Text)
  node_mentions (text_node _ _) = []
  node_mentions (mention_node u l) = (u, l) ∷ []
  node_mentions (image_node _ _) = []
  node_mentions (element _ _ ns) = iter_mention_nodes ns

abbrev pub has_items {ℓ} : {A : Type ℓ} → List A → Bool
has_items [] = false
has_items (_ ∷ _) = true

unfoldable pub document_schema_version : Document → ℕ
unfolding iter_mention_nodes
document_schema_version d = if has_items (iter_mention_nodes d) then 3 else 2

-- `node["attrs"]["label"] = name_of(userId)` at every mention, as `validate_mentions` does.
unfoldable mutual
  pub relabel_mentions : (ℕ → Text) → Nodes → Nodes
  relabel_mentions name nil = nil
  relabel_mentions name (cons n ns) = cons (relabel_node name n) (relabel_mentions name ns)

  pub relabel_node : (ℕ → Text) → Node → Node
  relabel_node name (text_node s m) = text_node s m
  relabel_node name (mention_node u l) = mention_node u (name u)
  relabel_node name (image_node i a) = image_node i a
  relabel_node name (element k a ns) = element k a (relabel_mentions name ns)

abbrev pub attrs_eq : List (Text × Text) → List (Text × Text) → Bool
attrs_eq [] [] = true
attrs_eq ((k, v) ∷ a) ((k', v') ∷ b) = text_eq k k' && text_eq v v' && attrs_eq a b
attrs_eq _ _ = false

abbrev pub marks_eq : List Mark → List Mark → Bool
marks_eq [] [] = true
marks_eq (m ∷ a) (m' ∷ b) = text_eq m.name m'.name && attrs_eq m.attrs m'.attrs && marks_eq a b
marks_eq _ _ = false

-- `==` of two documents.
unfoldable mutual
  pub document_eq : Nodes → Nodes → Bool
  document_eq nil nil = true
  document_eq nil (cons _ _) = false
  document_eq (cons _ _) nil = false
  document_eq (cons n ns) (cons m ms) = node_eq n m && document_eq ns ms

  pub node_eq : Node → Node → Bool
  node_eq (text_node s m) (text_node s' m') = text_eq s s' && marks_eq m m'
  node_eq (mention_node u l) (mention_node u' l') = (u == u') && text_eq l l'
  node_eq (image_node i a) (image_node i' a') = (i == i') && attrs_eq a a'
  node_eq (element k a ns) (element k' a' ns') = text_eq k k' && attrs_eq a a' && document_eq ns ns'
  node_eq _ _ = false
