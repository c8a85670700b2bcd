-- ===== src/Sources/Notion/Markdown.antt =====
-- The texts of backend/app/sources/notion.py: rich texts, and `_blocks_to_markdown` before its `strip`.
use Prim.Native.String.{◌++◌ as concat}
use know_gate.Prelude.{
  String, Bool, not, Option, none, some, List, [], ◌∷◌, ◌++◌, str_eq, if◌then◌else◌,
}

-- The `plain_text` of the segments of a rich text.
abbrev pub RichText : Type 0
RichText = List (Option String)

abbrev pub or_empty : Option String → String
or_empty none = ""
or_empty (some s) = s

unfoldable pub plain_text : RichText → String
plain_text [] = ""
plain_text (seg ∷ rich) = concat (or_empty seg) (plain_text rich)

-- The truth of a text, and of one that may be None.
abbrev pub truthy : String → Bool
truthy s = not (str_eq s "")

-- A block of a page: its type, and of the content under that type the text, the mark of a to-do and
-- the language of code.
pub record Block : Type 0 where
  pub type : Option String
  pub rich_text : RichText
  pub checked : Bool
  pub language : Option String

abbrev pub newline : String
newline = "\n"

-- The lines of one block before the blank one.
unfoldable pub block_lines : String → Block → String → List String
block_lines type block text =
    if str_eq type "heading_1"
    then concat "# " text ∷ []
    else if str_eq type "heading_2"
    then concat "## " text ∷ []
    else if str_eq type "heading_3"
    then concat "### " text ∷ []
    else if str_eq type "bulleted_list_item"
    then concat "- " text ∷ []
    else if str_eq type "numbered_list_item"
    then concat "1. " text ∷ []
    else if str_eq type "to_do"
    then concat (if block.checked then "- [x] " else "- [ ] ") text ∷ []
    else if str_eq type "code"
    then concat (concat (concat "```" (or_empty block.language)) newline)
        (concat text (concat newline "```"))
      ∷ []
    else if str_eq type "quote"
    then concat "> " text ∷ []
    else if str_eq type "divider"
    then "---" ∷ []
    else if truthy text
    then text ∷ []
    else []

-- A block without a type is passed over; every other ends in a blank line.
unfoldable pub of_type : Option String → Block → List String
of_type none block = []
of_type (some type) block =
    if truthy type then block_lines type block (plain_text block.rich_text) ++ "" ∷ [] else []

unfoldable pub lines_of : List Block → List String
unfolding of_type
lines_of [] = []
lines_of (block ∷ blocks) = of_type block.type block ++ lines_of blocks

-- `"\n".join(lines)`
unfoldable pub join_lines : List String → String
join_lines [] = ""
join_lines (line ∷ []) = line
join_lines (line ∷ next ∷ lines) = concat line (concat newline (join_lines (next ∷ lines)))
