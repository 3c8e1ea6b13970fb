-- ===== src/Compare/Report/Cell.antt =====
-- `markdownCell` and `firstEight` of diagnosis/compare/compare.go. A cell is escaped for HTML first.
use optimizer_canary_service.Base.{
  ℕ, min, ◌≢◌, inl, inr, ◌&&◌, [], ◌∷◌, ◌++◌, arith, ◌==◌, if◌then◌else◌, Bool-cases, length, take,
  All, All-append,
}
use optimizer_canary_service.Text.{Bytes, codes}

unfoldable pub first_eight : Bytes → Bytes
first_eight value = take (min 8 (length value)) value

-- `html.EscapeString`.
abbrev pub html_byte : ℕ → Bytes
html_byte c =
    if c == b'&'
    then codes "&amp;"
    else if c == b'\''
    then codes "&#39;"
    else if c == b'<'
    then codes "&lt;"
    else if c == b'>'
    then codes "&gt;"
    else if c == b'"'
    then codes "&#34;"
    else c ∷ []

unfoldable pub escape_html : Bytes → Bytes
escape_html [] = []
escape_html (c ∷ s) = html_byte c ++ escape_html s

-- What the replacer of `markdownCell` writes for a byte that begins no longer match.
abbrev pub cell_byte : ℕ → Bytes
cell_byte c =
    if c == b'\\'
    then codes "\\\\"
    else if c == b'|'
    then codes "&#124;"
    else if c == b'`'
    then codes "\\`"
    else if c == b'*'
    then codes "\\*"
    else if c == b'_'
    then codes "\\_"
    else if c == b'['
    then codes "\\["
    else if c == b']'
    then codes "\\]"
    else if c == 10
    then codes "<br>"
    else if c == 13
    then codes "<br>"
    else c ∷ []

-- The replacer; the flag says that a carriage return stands in front, whose `<br>` is due.
unfoldable pub replace_cell : Bytes → Bytes
replace_cell [] = []
replace_cell (c ∷ []) = cell_byte c
replace_cell (c ∷ d ∷ s) =
    let one = cell_byte c ++ replace_cell (d ∷ s) in
    let two = codes "<br>" ++ replace_cell s in if c == 13 && d == 10 then two else one

unfoldable pub markdown_cell : Bytes → Bytes
unfolding escape_html replace_cell
markdown_cell value = replace_cell (escape_html value)

abbrev pub CellByte : ℕ → Type 0
CellByte c = (c ≢ b'|') × (c ≢ 10) × (c ≢ 13)

-- A text that stays inside a table cell: one line, without a bar.
abbrev pub InCell : Bytes → Type 0
InCell s = All CellByte s

line_break-InCell : InCell (codes "<br>")
line_break-InCell = ground arith

cell_byte-InCell : (c : ℕ) → InCell (cell_byte c)
cell_byte-InCell c = ground arith

replace_cell-InCell : (s : Bytes) → InCell (replace_cell s)
unfolding replace_cell
replace_cell-InCell [] = tt
replace_cell-InCell (c ∷ []) = cell_byte-InCell c
replace_cell-InCell (c ∷ d ∷ s) = elim (Bool-cases (c == 13 && d == 10)) [
  | inl both ↦ rw both (
      All-append CellByte (codes "<br>") (replace_cell s) line_break-InCell (replace_cell-InCell s))
  | inr one ↦ rw one (
      All-append CellByte (cell_byte c) (replace_cell (d ∷ s)) (cell_byte-InCell c)
        (replace_cell-InCell (d ∷ s)))
]

-- Whatever the value, its cell is on one line and has no bar, so that a row keeps its columns.
markdown_cell-InCell : (value : Bytes) → InCell (markdown_cell value)
unfolding markdown_cell
markdown_cell-InCell value = replace_cell-InCell (escape_html value)
