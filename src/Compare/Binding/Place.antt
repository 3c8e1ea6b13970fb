-- ===== src/Compare/Binding/Place.antt =====
-- `getCurrentPlanBinding`, `bindingStatement`, `formatExecTime`.
use optimizer_canary_service.Base.{
  ℕ, suc, ◌+◌, Option, none, some, [], ◌∷◌, ◌++◌, leb, if◌then◌else◌, take, drop, Outcome, ok, err,
  ◌>>=◌,
}
use optimizer_canary_service.Text.{Bytes, codes}
use optimizer_canary_service.Text.Search.{has_prefix, index, contains, trim_suffix}
use optimizer_canary_service.Text.Trim.{trim_space}
use optimizer_canary_service.Compare.Binding.Words.{
  BindingError, hint_terminator, no_main_select, unterminated_hint,
}
use optimizer_canary_service.Compare.Binding.Select.{main_select}

-- The bytes not above a blank in front of a text.
unfoldable pub blanks : Bytes → ℕ
blanks [] = 0
blanks (c ∷ s) = let more = suc (blanks s) in if leb c b' ' then more else 0

abbrev pub hint_comment : Bytes → Bytes
hint_comment hint = codes " /*+ " ++ (hint ++ codes " */")

abbrev pub over_hint : Bytes → Bytes → Bytes → Option ℕ → Outcome BindingError Bytes
over_hint before hint after none = err unterminated_hint
over_hint before hint after (some end) =
    ok (before ++ (hint_comment hint ++ drop (3 + end + 2) after))

-- What follows the scan, with the text split behind the main SELECT.
unfoldable pub put_hint : Bytes → Bytes → Bytes → Outcome BindingError Bytes
put_hint before hint after =
    let rest = drop (blanks after) after in
    if has_prefix rest (codes "/*+")
    then over_hint before hint rest (index (drop 3 rest) (codes "*/"))
    else ok (before ++ (hint_comment hint ++ after))

abbrev pub at_select : Bytes → Bytes → Option ℕ → Outcome BindingError Bytes
at_select sql hint none = err no_main_select
at_select sql hint (some end) = put_hint (take end sql) hint (drop end sql)

abbrev pub with_hint : Bytes → Bytes → Outcome BindingError Bytes
with_hint sql [] = ok []
with_hint sql (c ∷ hint) =
    if contains (c ∷ hint) (codes "*/")
    then err hint_terminator
    else do found ← main_select sql; at_select sql (c ∷ hint) found

unfoldable pub get_current_plan_binding : Bytes → Bytes → Outcome BindingError Bytes
unfolding put_hint blanks has_prefix index main_select contains trim_space
get_current_plan_binding sql hint = with_hint sql (trim_space hint)

-- `AddOptimizerHint`.
unfoldable pub add_optimizer_hint : Bytes → Bytes → Outcome BindingError Bytes
unfolding get_current_plan_binding
add_optimizer_hint = get_current_plan_binding

abbrev bare : Bytes → Bytes
bare sql = trim_suffix (trim_space sql) (codes ";")

unfoldable pub binding_statement : Bytes → Bytes → Bytes
unfolding trim_suffix trim_space
binding_statement origin hinted = elim (bare hinted) [
  | [] ↦ []
  | c ∷ s ↦
      codes "CREATE GLOBAL BINDING FOR "
      ++ (bare origin ++ (codes " USING " ++ ((c ∷ s) ++ codes ";")))
]
