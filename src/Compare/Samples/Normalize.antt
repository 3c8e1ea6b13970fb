-- ===== src/Compare/Samples/Normalize.antt =====
-- `normalizeExplainSQL`, `quotedSQLTokenEnd` and `isDoubleQuotedStringStart` of
-- diagnosis/compare/compare_repository.go.
use optimizer_canary_service.Base.{
  ℕ, zero, suc, ◌+◌, ◌/◌, ◌%◌, Bool, true, false, not, ◌&&◌, ◌||◌, [], ◌∷◌, ◌++◌, ltb, leb, ◌==◌,
  if◌then◌else◌, take, Outcome, ok, panic, ◌>>=◌,
}
use optimizer_canary_service.Text.{Bytes, lower_byte}

-- How many bytes a quoted token has behind its opening quote; all, where it is not closed.
unfoldable pub quoted_sql_token_end : ℕ → Bytes → ℕ
quoted_sql_token_end quote [] = 0
quoted_sql_token_end quote (c ∷ []) = 1
quoted_sql_token_end quote (c ∷ d ∷ s) =
    let doubled = 2 + quoted_sql_token_end quote s in
    let longer = 1 + quoted_sql_token_end quote (d ∷ s) in
    if c == quote then (if d == quote then doubled else 1) else longer

abbrev is_operator_byte : ℕ → Bool
is_operator_byte c =
    c == b'='
    || c == b'<'
    || c == b'>'
    || c == b'!'
    || c == b'('
    || c == b','
    || c == b'+'
    || c == b'-'
    || c == b'*'
    || c == b'/'
    || c == b'%'

-- The argument is the text before the quote, the last byte first.
unfoldable pub is_double_quoted_string_start : Bytes → Bool
is_double_quoted_string_start [] = true
is_double_quoted_string_start (c ∷ before) =
    let further = is_double_quoted_string_start before in
    if c == b' ' then further else is_operator_byte c

-- `unicode.IsSpace` of a byte as a code point.
abbrev pub is_space_point : ℕ → Bool
is_space_point c = leb 9 c && leb c 13 || c == b' ' || c == 0x85 || c == 0xA0

-- `unicode.ToLower` of a byte as a code point.
abbrev pub lower_point : ℕ → ℕ
lower_point c = if leb 0xC0 c && leb c 0xDE && not (c == 0xD7) then c + 32 else lower_byte c

-- `WriteRune` of a code point below 256.
abbrev pub rune_bytes : ℕ → Bytes
rune_bytes c = if ltb c 128 then c ∷ [] else (0xC0 + c / 64) ∷ (0x80 + c % 64) ∷ []

-- The space that is due before something is written.
abbrev pub due : Bool → Bool → Bytes
due pending written = if pending && written then b' ' ∷ [] else []

-- `'` and what stands inside double quotes, or a panic where the quote is the last byte: the slice
-- from behind the quote to before the end of the token would end before it begins.
abbrev pub requoted : Bytes → ℕ → Outcome Unit Bytes
requoted s zero = panic
requoted s (suc n) = ok (b'\'' ∷ (take n s ++ b'\'' ∷ []))

abbrev pub prepend : Bytes → Outcome Unit Bytes → Outcome Unit Bytes
prepend text rest = rest >>= λ more. ok (text ++ more)

-- The loop: bytes that the last token still covers, the text before, whether a space is pending,
-- and whether anything was written. The result is what is written from here on.
unfoldable pub normalize_from : ℕ → Bytes → Bool → Bool → Bytes → Outcome Unit Bytes
unfolding quoted_sql_token_end is_double_quoted_string_start
normalize_from k before pending written [] = ok []
normalize_from (suc k) before pending written (c ∷ s) =
    normalize_from k (c ∷ before) pending written s
normalize_from zero before pending written (c ∷ s) =
    let single = quoted_sql_token_end b'\'' s in
    let double = quoted_sql_token_end b'"' s in
    let left = pending && not written in
    let after_single = normalize_from single (c ∷ before) left true s in
    let after_double = normalize_from double (c ∷ before) left true s in
    let after_space = normalize_from 0 (c ∷ before) true written s in
    let after_byte = normalize_from 0 (c ∷ before) false true s in
    if c == b'\''
    then prepend (due pending written ++ c ∷ take single s) after_single
    else if c == b'"'
    then (if is_double_quoted_string_start before
        then requoted s double >>= (λ token. prepend (due pending written ++ token) after_double)
        else prepend (due pending written ++ c ∷ take double s) after_double)
    else if is_space_point c
    then after_space
    else prepend (due pending written ++ rune_bytes (lower_point c)) after_byte

unfoldable pub normalize_explain_sql : Bytes → Outcome Unit Bytes
unfolding normalize_from
normalize_explain_sql text = normalize_from 0 [] false false text
