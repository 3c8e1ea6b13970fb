-- ===== src/Compare/Samples/ArgumentTests.antt =====
-- Annotated statements and their arguments, by evaluation.
use optimizer_canary_service.Base.{
  ◌-◌, ◌≡◌, refl, ◌↔◌, Option, none, some, List, [], ◌∷◌, map, arith, length, take, drop, All, ok,
  err, pos, negsuc,
}
use optimizer_canary_service.Text.{Bytes, codes, bytes_eq, to_lower}
use optimizer_canary_service.Text.Trim.{trim_space}
use optimizer_canary_service.Text.Split.{join}
use optimizer_canary_service.Compare.Samples.Arguments.{
  null, string, bytes, int64, uint64, parse_number, parse_tidb_arguments, convert_to_legal_sql,
}
use optimizer_canary_service.Compare.Samples.Scanner.{
  unterminated, unexpected_paren, not_closed, split_arguments,
}
use optimizer_canary_service.Compare.Samples.Grammar.{Argued, split_arguments_iff}
use optimizer_canary_service.Compare.Samples.Numbers.{
  number_text, number_value, parse_number-number_text,
}

abbrev no_float : Bytes → Option (Unit {0})
no_float text = none

abbrev between_quotes : Bytes → Option Bytes
between_quotes text = some (take (length text - 2) (drop 1 text))

bound_statement :
    convert_to_legal_sql between_quotes no_float
      (codes "SELECT * FROM t WHERE id = ? [arguments: 42]; ")
    ≡ ok (codes "SELECT * FROM t WHERE id = ?", int64 (pos 42) ∷ [])
unfolding convert_to_legal_sql bytes_eq to_lower
bound_statement = refl

no_annotation :
    convert_to_legal_sql between_quotes no_float (codes " SELECT 1; ") ≡ ok (codes "SELECT 1", [])
unfolding convert_to_legal_sql bytes_eq
no_annotation = refl

open_annotation :
    convert_to_legal_sql between_quotes no_float (codes "SELECT ? [arguments: 42") ≡ err not_closed
unfolding convert_to_legal_sql bytes_eq
open_annotation = refl

several :
    parse_tidb_arguments between_quotes no_float
      (codes "(-7, \"a,b\", 0x4142, NULL, 18446744073709551615, 'it')")
    ≡ ok (
        int64 (negsuc 6)
        ∷ string (codes "a,b")
        ∷ bytes (codes "AB")
        ∷ null
        ∷ uint64 18446744073709551615
        ∷ string (codes "it")
        ∷ [])
unfolding parse_tidb_arguments bytes_eq to_lower
several = refl

stray_paren : split_arguments (codes "1)") ≡ err unexpected_paren
unfolding split_arguments
stray_paren = refl

open_quote : split_arguments (codes "'a, 2") ≡ err unterminated
unfolding split_arguments
open_quote = refl

split_arguments_iff_example :
    (split_arguments (codes "1, 'a,b'") ≡ ok (codes "1" ∷ codes "'a,b'" ∷ [])) ↔ (
      (raw : Bytes) × (raws : List Bytes) × All (λ t. Argued 0 t) (raw ∷ raws)
      × (codes "1, 'a,b'" ≡ join (raw ∷ raws) (b',' ∷ []))
      × (codes "1" ∷ codes "'a,b'" ∷ [] ≡ map trim_space (raw ∷ raws)))
split_arguments_iff_example =
    split_arguments_iff (codes "1, 'a,b'") (codes "1" ∷ codes "'a,b'" ∷ [])

parse_number-number_text_example :
    parse_number no_float (number_text no_float (negsuc 41)) ≡ number_value no_float (negsuc 41)
parse_number-number_text_example = parse_number-number_text no_float (negsuc 41) (omega arith)
