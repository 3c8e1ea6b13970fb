-- ===== src/Compare/Samples/Arguments.antt =====
-- `convertToLegalSQL` and `parseTiDBArgument` of diagnosis/compare/compare_repository.go, and the
-- rest of `parseTiDBArguments`. `F` is float64; strconv.Unquote and strconv.ParseFloat are parameters.
use optimizer_canary_service.Base.{
  ℕ, zero, suc, ◌+◌, ◌-◌, ◌*◌, ◌%◌, ◌^◌, Bool, false, ◌&&◌, Option, none, some, List, [], ◌∷◌, ltb,
  leb, ◌==◌, if◌then◌else◌, length, get_or, take, drop, Outcome, ok, err, ◌>>=◌, ℤ, pos, negsuc,
}
use optimizer_canary_service.Text.{Bytes, codes, to_lower, equal_fold}
use optimizer_canary_service.Text.Trim.{trim_space}
use optimizer_canary_service.Text.Search.{has_prefix, has_suffix, trim_suffix, last_index}
use optimizer_canary_service.Compare.Samples.Normalize.{is_space_point}
use optimizer_canary_service.Compare.Samples.Scanner.{
  ArgumentError, split_arguments, not_closed, empty_argument, bad_string,
}

-- The value that a driver is given.
pub data Argument (F : Type 0) : Type 0 where
  null : Argument F
  string : Bytes → Argument F
  bytes : Bytes → Argument F
  int64 : ℤ → Argument F
  uint64 : ℕ → Argument F
  float64 : F → Argument F

abbrev hex_digit : ℕ → Option ℕ
hex_digit c =
    if leb b'0' c && leb c b'9'
    then some (c - b'0')
    else if leb b'a' c && leb c b'f'
    then some (c - 87)
    else if leb b'A' c && leb c b'F'
    then some (c - 55)
    else none

abbrev hex_pair : Option ℕ → Option ℕ → Option Bytes → Option Bytes
hex_pair (some a) (some b) (some rest) = some ((a * 16 + b) ∷ rest)
hex_pair _ _ _ = none

-- `hex.DecodeString`.
unfoldable pub decode_hex : Bytes → Option Bytes
decode_hex [] = some []
decode_hex (c ∷ []) = none
decode_hex (c ∷ d ∷ s) = hex_pair (hex_digit c) (hex_digit d) (decode_hex s)

-- The number that decimal digits alone write, at least one of them.
unfoldable pub digits_from : ℕ → Bytes → Option ℕ
digits_from n [] = some n
digits_from n (c ∷ s) =
    let more = digits_from (n * 10 + (c - b'0')) s in
    if leb b'0' c && leb c b'9' then more else none

abbrev pub below : ℕ → Option ℕ → Option ℕ
below bound none = none
below bound (some n) = if ltb n bound then some n else none

-- `strconv.ParseUint(text, 10, 64)`, where it returns no error.
unfoldable pub parse_uint : Bytes → Option ℕ
unfolding digits_from
parse_uint [] = none
parse_uint (c ∷ s) = below (2 ^ 64) (digits_from 0 (c ∷ s))

abbrev pub positive : Option ℕ → Option ℤ
positive none = none
positive (some n) = if ltb n (2 ^ 63) then some (pos n) else none

abbrev pub negative : Option ℕ → Option ℤ
negative none = none
negative (some zero) = some (pos 0)
negative (some (suc n)) = if ltb n (2 ^ 63) then some (negsuc n) else none

-- `strconv.ParseInt(text, 10, 64)`, where it returns no error.
unfoldable pub parse_int : Bytes → Option ℤ
unfolding parse_uint
parse_int [] = none
parse_int (c ∷ s) =
    if c == b'+'
    then positive (parse_uint s)
    else if c == b'-'
    then negative (parse_uint s)
    else positive (parse_uint (c ∷ s))

abbrev last_byte : Bytes → ℕ
last_byte [] = 0
last_byte (c ∷ []) = c
last_byte (c ∷ d ∷ s) = last_byte (d ∷ s)

abbrev pub is_between : ℕ → Bytes → Bool
is_between q [] = false
is_between q (c ∷ s) = leb 1 (length s) && c == q && last_byte s == q

-- The text without its first and last byte.
abbrev pub inner : Bytes → Bytes
inner text = take (length text - 2) (drop 1 text)

abbrev pub unquoted : {F : Type 0} → Bytes → Option Bytes → Outcome ArgumentError (Argument F)
unquoted text (some value) = ok (string value)
unquoted text none = err (bad_string text)

abbrev pub is_hex : Bytes → Bool
is_hex text = has_prefix (to_lower text) (codes "0x") && length text % 2 == 0

module _ {F : Type 0} (parse_float : Bytes → Option F) where
  abbrev pub or_float : Bytes → Option F → Argument F
  or_float text (some value) = float64 value
  or_float text none = string text

  abbrev pub or_uint : Bytes → Option ℕ → Argument F
  or_uint text (some n) = uint64 n
  or_uint text none = or_float text (parse_float text)

  abbrev pub or_int : Bytes → Option ℤ → Argument F
  or_int text (some n) = int64 n
  or_int text none = or_uint text (parse_uint text)

  -- A number, or the text itself.
  unfoldable pub parse_number : Bytes → Argument F
  unfolding parse_int parse_uint
  parse_number text = or_int text (parse_int text)

  abbrev pub or_number : Bytes → Option Bytes → Argument F
  or_number text (some value) = bytes value
  or_number text none = parse_number text

module _ {F : Type 0} (unquote : Bytes → Option Bytes) (parse_float : Bytes → Option F) where
  unfoldable pub parse_trimmed : Bytes → Outcome ArgumentError (Argument F)
  unfolding equal_fold decode_hex parse_number has_prefix to_lower
  parse_trimmed [] = err empty_argument
  parse_trimmed (c ∷ s) =
      let text = c ∷ s in
      if equal_fold text (codes "NULL")
      then ok null
      else if is_between b'"' text
      then unquoted text (unquote text)
      else if is_between b'\'' text
      then ok (string (inner text))
      else if is_hex text
      then ok (or_number parse_float text (decode_hex (drop 2 text)))
      else ok (parse_number parse_float text)

  unfoldable pub parse_tidb_argument : Bytes → Outcome ArgumentError (Argument F)
  unfolding trim_space parse_trimmed
  parse_tidb_argument text = parse_trimmed (trim_space text)

  unfoldable pub parse_all : List Bytes → Outcome ArgumentError (List (Argument F))
  unfolding parse_tidb_argument
  parse_all [] = ok []
  parse_all (part ∷ parts) =
      parse_tidb_argument part >>= λ argument. parse_all parts >>= λ rest. ok (argument ∷ rest)

  abbrev pub without_parens : Bytes → Bytes
  without_parens text =
      if has_prefix text (codes "(") && has_suffix text (codes ")")
      then trim_space (inner text)
      else text

  abbrev pub parse_parts : Bytes → Outcome ArgumentError (List (Argument F))
  parse_parts [] = ok []
  parse_parts (c ∷ s) = split_arguments (c ∷ s) >>= parse_all

  unfoldable pub parse_tidb_arguments : Bytes → Outcome ArgumentError (List (Argument F))
  unfolding trim_space split_arguments parse_all has_prefix has_suffix
  parse_tidb_arguments text = parse_parts (without_parens (trim_space text))

  abbrev pub Legal : Type 0
  Legal = Bytes × List (Argument F)

  -- The statement before the annotation at `i`, with the annotation's arguments.
  unfoldable pub annotated : Bytes → ℕ → Outcome ArgumentError Legal
  unfolding trim_space trim_suffix has_suffix parse_tidb_arguments
  annotated sample i =
      let statement = trim_space (take i sample) in
      let text = trim_space (trim_suffix (trim_space (drop (i + 11) sample)) (codes ";")) in
      if has_suffix text (codes "]")
      then parse_tidb_arguments (trim_space (trim_suffix text (codes "]")))
        >>= (λ arguments. ok (trim_suffix (trim_space statement) (codes ";"), arguments))
      else err not_closed

  abbrev pub plain : Bytes → Outcome ArgumentError Legal
  plain sample = ok (trim_suffix sample (codes ";"), [])

  unfoldable pub convert_trimmed : Bytes → Option ℕ → Outcome ArgumentError Legal
  unfolding annotated trim_suffix
  convert_trimmed sample none = plain sample
  convert_trimmed sample (some zero) = plain sample
  convert_trimmed sample (some (suc i)) =
      if is_space_point (get_or sample i 0) then annotated sample (suc i) else plain sample

  unfoldable pub convert_to_legal_sql : Bytes → Outcome ArgumentError Legal
  unfolding trim_space last_index convert_trimmed
  convert_to_legal_sql sample =
      let trimmed = trim_space sample in
      convert_trimmed trimmed (last_index trimmed (codes "[arguments:"))
