-- ===== src/Report/Html.antt =====
-- The text of the details in the HTML of services/dba-mcp/src/dbatools.ts: `esc` and `prose`.
mod Order
mod Kept
mod Tests
use mssql_data_api.Prelude.{
  ℕ, Bool, true, false, not, ◌&&◌, ◌||◌, ◌==◌, Option, none, some, List, [], ◌∷◌, ◌++◌, map,
  if◌then◌else◌, any,
}
use mssql_data_api.Prelude.Text.{Text, codes, trim}
use mssql_data_api.Safety.Guard.{split}
use mssql_data_api.Settings.{is_blank}

unfoldable pub esc_char : ℕ → Text
esc_char c =
    if c == b'&'
    then codes "&amp;"
    else if c == b'<'
    then codes "&lt;"
    else if c == b'>'
    then codes "&gt;"
    else if c == b'"'
    then codes "&quot;"
    else if c == b'\''
    then codes "&#39;"
    else c ∷ []

unfoldable pub esc : Text → Text
unfolding esc_char
esc [] = []
esc (c ∷ s) = esc_char c ++ esc s

-- What is pushed to `out`: a line, or the bullets that are flushed.
pub data Block : Type 0 where
  line : Text → Block
  bullets : List Text → Block

unfoldable pub flush : List Text → List Block → List Block
flush [] out = out
flush (b ∷ l) out = out ++ bullets (b ∷ l) ∷ []

-- `t.startsWith("* ")`, with the rest.
abbrev pub bullet_of : Text → Option Text
bullet_of (c ∷ d ∷ s) = if c == b'*' && d == 32 then some s else none
bullet_of _ = none

-- `bullets` and `out`.
abbrev pub Pending : Type 0
Pending = List Text × List Block

abbrev pub add_line : Text → Option Text → Pending → Pending
add_line t (some b) (held, out) = (held ++ b ∷ [], out)
add_line t none (held, out) = ([], flush held out ++ line t ∷ [])

unfoldable pub add_lines : List Text → Pending → Pending
unfolding trim flush
add_lines [] p = p
add_lines (s ∷ l) p =
    add_lines l (if is_blank (trim s) then p else add_line (trim s) (bullet_of (trim s)) p)

unfoldable pub blocks_of : Text → List Block
unfolding add_lines flush split
blocks_of s = let p = add_lines (split 10 s) ([], []) in flush p.0 p.1

abbrev item_html : Text → Text
item_html b = codes "<li style=\"margin:3px 0\">" ++ (esc b ++ codes "</li>")

unfoldable pub items_html : List Text → Text
unfolding esc
items_html [] = []
items_html (b ∷ l) = item_html b ++ items_html l

unfoldable pub block_html : Block → Text
unfolding esc items_html
block_html (line t) = codes "<div style=\"margin:4px 0\">" ++ (esc t ++ codes "</div>")
block_html (bullets l) =
    codes "<ul style=\"margin:5px 0 5px;padding-left:20px\">" ++ (items_html l ++ codes "</ul>")

unfoldable pub blocks_html : List Block → Text
unfolding block_html
blocks_html [] = []
blocks_html (b ∷ l) = block_html b ++ blocks_html l

unfoldable pub prose : Text → Text
unfolding blocks_html blocks_of esc
prose s = if any (λ c. c == 10) s then blocks_html (blocks_of s) else esc s
