-- ===== src/Document/Plain.antt =====
-- app/domain/rich_text.py: the plain text of a document, for lists and for the test whether a
-- comment is empty. An attribute's value is held as the text that JSON has for it.
use task_ticket_management_s.Prelude.{
  List, [], ◌∷◌, ◌++◌, any, map, select, if◌then◌else◌, Text, text, text_eq, strip,
}
use task_ticket_management_s.Document.{
  Node, Nodes, Document, nil, cons, text_node, mention_node, image_node, element, has_items,
}

-- `separator.join(…)`
unfoldable pub join : Text → List Text → Text
join separator [] = []
join separator (s ∷ []) = s
join separator (s ∷ t ∷ ts) = s ++ (separator ++ join separator (t ∷ ts))

-- `attrs.get(name, "")`
unfoldable pub attribute : Text → List (Text × Text) → Text
unfolding text_eq
attribute name [] = []
attribute name ((k, v) ∷ rest) = if text_eq k name then v else attribute name rest

-- `text_block_types`: BLOCK_NODE_TYPES and the parts of lists and tables.
abbrev pub text_block_types : List Text
text_block_types =
    text "paragraph"
    ∷ text "heading"
    ∷ text "bulletList"
    ∷ text "orderedList"
    ∷ text "taskList"
    ∷ text "blockquote"
    ∷ text "codeBlock"
    ∷ text "table"
    ∷ text "image"
    ∷ text "listItem"
    ∷ text "taskItem"
    ∷ text "tableRow"
    ∷ text "tableCell"
    ∷ text "tableHeader"
    ∷ []

abbrev pub newline : Text
newline = 10 ∷ []

abbrev pub separator_of : Text → Text
separator_of kind = if any (text_eq kind) text_block_types then newline else []

abbrev pub task_marker : List (Text × Text) → Text
task_marker attrs =
    if text_eq (attribute (text "checked") attrs) (text "true") then text "[x] " else text "[ ] "

-- `_extract_node_text`, and the texts of the children that are not empty.
unfoldable mutual
  unfolding join attribute text_eq

  pub extract_node_text : Node → Text
  extract_node_text (text_node s _) = s
  extract_node_text (mention_node _ label) = b'@' ∷ label
  extract_node_text (image_node _ attrs) = attribute (text "alt") attrs
  extract_node_text (element kind attrs content) =
      let inner = join (separator_of kind) (select has_items (child_texts content)) in
      if text_eq kind (text "hardBreak")
      then newline
      else if text_eq kind (text "taskItem")
      then task_marker attrs ++ inner
      else inner

  pub child_texts : Nodes → List Text
  child_texts nil = []
  child_texts (cons n ns) = extract_node_text n ∷ child_texts ns

-- `extract_body_document_text`
unfoldable pub extract_body_document_text : Document → Text
unfolding child_texts strip join
extract_body_document_text document =
    strip (join newline (select has_items (map strip (child_texts document))))
