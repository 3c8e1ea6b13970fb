-- ===== src/Compare/Plan/Line.antt =====
-- One row of EXPLAIN text: its depth in the tree, its operator and its cells.
use optimizer_canary_service.Base.{
  ℕ, zero, suc, ◌+◌, ◌-◌, ◌*◌, ◌^◌, Bool, false, not, ◌&&◌, Option, none, some, [], ◌∷◌, leb, ◌==◌,
  if◌then◌else◌, length, take, drop,
}
use optimizer_canary_service.Text.{Bytes, codes, to_lower}
use optimizer_canary_service.Text.Search.{has_prefix, has_suffix, index, index_byte}
use optimizer_canary_service.Text.Trim.{trim_space}

-- "│ ", "├─" and "└─" in UTF-8.
abbrev pub bar_space : Bytes
bar_space = 0xE2 ∷ 0x94 ∷ 0x82 ∷ 0x20 ∷ []

abbrev pub tee : Bytes
tee = 0xE2 ∷ 0x94 ∷ 0x9C ∷ 0xE2 ∷ 0x94 ∷ 0x80 ∷ []

abbrev pub corner : Bytes
corner = 0xE2 ∷ 0x94 ∷ 0x94 ∷ 0xE2 ∷ 0x94 ∷ 0x80 ∷ []

drop_tabs : Bytes → Bytes
drop_tabs [] = []
drop_tabs (c ∷ s) = let rest = drop_tabs s in if c == b'\t' then rest else c ∷ s

-- The middle loop; the first number counts bytes of a marker still to be passed over.
indents : ℕ → ℕ → Bytes → ℕ × Bytes
unfolding has_prefix
indents k depth [] = (depth, [])
indents (suc k) depth (c ∷ s) = indents k depth s
indents zero depth (c ∷ s) =
    let bar = indents 3 (depth + 1) s in
    let blank = indents 1 (depth + 1) s in
    if has_prefix (c ∷ s) bar_space
    then bar
    else if has_prefix (c ∷ s) (codes "  ")
    then blank
    else (depth, c ∷ s)

branch : ℕ × Bytes → ℕ × Bytes
unfolding has_prefix
branch (depth, line) =
    if has_prefix line tee
    then (depth + 1, drop (length tee) line)
    else if has_prefix line corner
    then (depth + 1, drop (length corner) line)
    else (depth, line)

unfoldable pub plan_depth : Bytes → ℕ × Bytes
unfolding drop_tabs indents branch
plan_depth line = branch (indents 0 0 (drop_tabs line))

abbrev is_digit : ℕ → Bool
is_digit c = leb b'0' c && leb c b'9'

-- `\([^)]*\)$` behind its opening parenthesis.
closes : Bytes → Bool
closes [] = false
closes (c ∷ []) = c == b')'
closes (c ∷ d ∷ s) = not (c == b')') && closes (d ∷ s)

abbrev one_more : ℕ → Option Bytes → Option Bytes
one_more c none = none
one_more c (some ds) = some (c ∷ ds)

-- `[0-9]*(?:\([^)]*\))?$`, with the digits.
digits_tail : Bytes → Option Bytes
unfolding closes
digits_tail [] = some []
digits_tail (c ∷ s) =
    let more = one_more c (digits_tail s) in
    if is_digit c then more else if c == b'(' && closes s then some [] else none

-- `[0-9]+(?:\([^)]*\))?$`.
id_tail : Bytes → Option Bytes
unfolding digits_tail
id_tail [] = none
id_tail (c ∷ s) = if is_digit c then one_more c (digits_tail s) else none

abbrev at_underscore : Option Bytes → Option (Bytes × Bytes)
at_underscore none = none
at_underscore (some ds) = some ([], ds)

-- `operatorIDPattern`: the longest operator in front of an underscore and a numeric tail.
match_operator_id : Bytes → Option (Bytes × Bytes)
unfolding id_tail
match_operator_id [] = none
match_operator_id (c ∷ s) =
    let here = if c == b'_' then at_underscore (id_tail s) else none in
    elim (match_operator_id s) [ some (operator, ds) ↦ some (c ∷ operator, ds) | none ↦ here ]

decimal : ℕ → Bytes → ℕ
decimal n [] = n
decimal n (c ∷ s) = decimal (n * 10 + (c - b'0')) s

abbrev pub max_int : ℕ
max_int = 2 ^ 63 - 1

-- `none` where `strconv.Atoi` refuses the digits as out of range.
unfoldable pub parse_operator_id : Bytes → Option (ℕ × Bytes)
unfolding match_operator_id decimal
parse_operator_id text = elim (match_operator_id (trim_space text)) [
  | none ↦ some (0, trim_space text)
  | some (operator, ds) ↦ if leb (decimal 0 ds) max_int then some (decimal 0 ds, operator) else none
]

abbrev is_wrapped : Bytes → Bytes → Bool
is_wrapped prefix task = has_prefix task prefix && has_suffix task (codes "]")

abbrev unwrap : Bytes → Bytes → Bytes
unwrap prefix task = take (length task - 1 - length prefix) (drop (length prefix) task)

unfoldable pub normalize_task : Bytes → Bytes
unfolding has_prefix has_suffix
normalize_task text =
    let task = trim_space text in
    if is_wrapped (codes "cop[") task
    then unwrap (codes "cop[") task
    else if is_wrapped (codes "mpp[") task
    then unwrap (codes "mpp[") task
    else task

abbrev before_comma : Bytes → Bytes
before_comma value = elim (index_byte value b',') [ none ↦ value | some i ↦ take i value ]

value_after : Bytes → Bytes → Bytes
unfolding index index_byte to_lower trim_space
value_after key value = elim (index (to_lower value) key) [
  | none ↦ []
  | some i ↦ trim_space (before_comma (trim_space (drop (i + length key) value)))
]

unfoldable pub plan_index : Bytes → Bytes
unfolding value_after
plan_index value = value_after (codes "index:") value

unfoldable pub plan_access_table : Bytes → Bytes
unfolding value_after
plan_access_table value = value_after (codes "table:") value
