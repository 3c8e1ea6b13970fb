-- ===== src/Compare/Samples/Scanner.antt =====
-- The loop of `parseTiDBArguments` of diagnosis/compare/compare_repository.go, byte by byte: every
-- delimiter is ASCII.
use optimizer_canary_service.Base.{
  ℕ, zero, suc, Bool, true, false, ◌||◌, Option, none, some, List, [], ◌∷◌, ◌++◌, ◌==◌,
  if◌then◌else◌, Outcome, ok, err, ◌>>=◌,
}
use optimizer_canary_service.Text.{Bytes}
use optimizer_canary_service.Text.Trim.{trim_space}

pub data ArgumentError : Type 0 where
  not_closed unexpected_paren unterminated unclosed empty_argument : ArgumentError
  bad_string : Bytes → ArgumentError

-- `quote`, `escaped` and `depth` of the loop.
pub record ScanState : Type 0 where
  pub quote : Option ℕ
  pub escaped : Bool
  pub depth : ℕ

abbrev pub outside : ℕ → ScanState
outside depth = record { quote = none; escaped = false; depth = depth }

-- A byte is added to the part, or ends it.
pub data Action : Type 0 where
  add : ScanState → Action
  cut : Action

abbrev pub is_quote : ℕ → Bool
is_quote c = c == b'\'' || c == b'"' || c == b'`'

abbrev pub close_paren : ℕ → Outcome ArgumentError Action
close_paren zero = err unexpected_paren
close_paren (suc depth) = ok (add (outside depth))

abbrev pub comma : ℕ → Action
comma zero = cut
comma (suc depth) = add (outside (suc depth))

unfoldable pub advance_in : Option ℕ → Bool → ℕ → ℕ → Outcome ArgumentError Action
advance_in (some q) true depth c =
    ok (add (record { quote = some q; escaped = false; depth = depth }))
advance_in (some q) false depth c =
    if c == b'\\'
    then ok (add (record { quote = some q; escaped = true; depth = depth }))
    else if c == q
    then ok (add (outside depth))
    else ok (add (record { quote = some q; escaped = false; depth = depth }))
advance_in none escaped depth c =
    if is_quote c
    then ok (add (record { quote = some c; escaped = escaped; depth = depth }))
    else if c == b'('
    then ok (add (record { quote = none; escaped = escaped; depth = suc depth }))
    else if c == b')'
    then close_paren depth
    else if c == b','
    then ok (comma depth)
    else ok (add (record { quote = none; escaped = escaped; depth = depth }))

-- One round of the loop.
abbrev pub advance : ScanState → ℕ → Outcome ArgumentError Action
advance state c = advance_in state.quote state.escaped state.depth c

-- Behind the loop.
abbrev pub finish : Option ℕ → ℕ → Bytes → Outcome ArgumentError (List Bytes)
finish (some q) depth part = err unterminated
finish none (suc depth) part = err unclosed
finish none zero part = ok (trim_space part ∷ [])

-- The loop, with the part that is being read.
unfoldable pub split_from : ScanState → Bytes → Bytes → Outcome ArgumentError (List Bytes)
unfolding advance_in
split_from state part [] = finish state.quote state.depth part
split_from state part (c ∷ s) = advance state c >>= λ action. elim action [
  | add state' ↦ split_from state' (part ++ c ∷ []) s
  | cut ↦ split_from (outside 0) [] s >>= λ parts. ok (trim_space part ∷ parts)
]

unfoldable pub split_arguments : Bytes → Outcome ArgumentError (List Bytes)
unfolding split_from
split_arguments text = split_from (outside 0) [] text
