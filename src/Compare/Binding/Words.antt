-- ===== src/Compare/Binding/Words.antt =====
-- The tokens that the scanner of `getCurrentPlanBinding` passes over.
use optimizer_canary_service.Base.{
  ℕ, suc, ◌+◌, Bool, false, ◌&&◌, ◌||◌, Option, none, some, [], ◌∷◌, leb, ◌==◌, if◌then◌else◌, drop,
  Outcome, ok, err,
}
use optimizer_canary_service.Text.{Bytes, codes}
use optimizer_canary_service.Text.Search.{index}

pub data BindingError : Type 0 where
  hint_terminator unterminated_quote unterminated_comment no_main_select : BindingError
  unterminated_hint : BindingError

unfoldable pub sql_word_byte : ℕ → Bool
sql_word_byte c =
    leb b'a' c && leb c b'z'
    || leb b'A' c && leb c b'Z'
    || leb b'0' c && leb c b'9'
    || c == b'_'
    || c == b'$'
    || leb 128 c

abbrev plus : ℕ → Option ℕ → Option ℕ
plus n none = none
plus n (some k) = some (n + k)

-- The bytes from behind an opening quote to behind its closing one, or `none` if it is not closed.
unfoldable pub quoted : ℕ → Bytes → Option ℕ
quoted quote [] = none
quoted quote (c ∷ []) = if c == b'\\' then none else if c == quote then some 1 else none
quoted quote (c ∷ d ∷ s) =
    let two = plus 2 (quoted quote s) in
    let one = plus 1 (quoted quote (d ∷ s)) in
    if c == b'\\' then two else if c == quote then (if d == quote then two else some 1) else one

-- The bytes up to the end of the line.
unfoldable pub line_rest : Bytes → ℕ
line_rest [] = 0
line_rest (c ∷ s) = let more = suc (line_rest s) in if c == b'\n' || c == b'\r' then 0 else more

unfoldable pub word_rest : Bytes → ℕ
word_rest [] = 0
word_rest (c ∷ s) = let more = suc (word_rest s) in if sql_word_byte c then more else 0

abbrev starts_dashes : Bytes → Bool
starts_dashes (c ∷ d ∷ s) = c == b'-' && leb d b' '
starts_dashes _ = false

abbrev starts_star : Bytes → Bool
starts_star [] = false
starts_star (c ∷ s) = c == b'*'

pub data Kind : Type 0 where
  passed opening closing word : Kind

abbrev with_quote : Option ℕ → Outcome BindingError (ℕ × Kind)
with_quote none = err unterminated_quote
with_quote (some n) = ok (suc n, passed)

abbrev with_comment : Option ℕ → Outcome BindingError (ℕ × Kind)
with_comment none = err unterminated_comment
with_comment (some end) = ok (end + 4, passed)

-- The `switch` at the byte `c`, with `s` behind it: how many bytes it takes, and what they are.
unfoldable pub token : ℕ → Bytes → Outcome BindingError (ℕ × Kind)
unfolding index
token c s =
    if c == b'\'' || c == b'"' || c == b'`'
    then with_quote (quoted c s)
    else if c == b'#' || c == b'-' && starts_dashes s
    then ok (suc (line_rest s), passed)
    else if c == b'/' && starts_star s
    then with_comment (index (drop 1 s) (codes "*/"))
    else if c == b'('
    then ok (1, opening)
    else if c == b')'
    then ok (1, closing)
    else if sql_word_byte c
    then ok (suc (word_rest s), word)
    else ok (1, passed)
