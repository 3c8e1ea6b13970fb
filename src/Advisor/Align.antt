-- ===== src/Advisor/Align.antt =====
-- `alignPlanColumns` of diagnosis/index_advisor/recommend_index.go. The texts are valid UTF-8, in which
-- a rune has one byte that does not continue another.
use optimizer_canary_service.Base.{
  ℕ, zero, suc, ◌+◌, ◌-◌, max, ◌&&◌, List, [], ◌∷◌, ◌++◌, map, leb, if◌then◌else◌, get_or, drop,
}
use optimizer_canary_service.Text.{Bytes}
use optimizer_canary_service.Text.Trim.{trim_right_byte}
use optimizer_canary_service.Text.Split.{split, join}

-- `utf8.RuneCountInString`.
unfoldable pub rune_count : Bytes → ℕ
rune_count [] = 0
rune_count (c ∷ s) = if leb 0x80 c && leb c 0xBF then rune_count s else suc (rune_count s)

-- `strings.Repeat(" ", n)`.
abbrev pub spaces : ℕ → Bytes
spaces zero = []
spaces (suc n) = b' ' ∷ spaces n

-- The widths with those of a row, which may have more columns.
unfoldable pub widen : List ℕ → List Bytes → List ℕ
unfolding rune_count
widen widths [] = widths
widen [] (value ∷ row) = rune_count value ∷ widen [] row
widen (w ∷ widths) (value ∷ row) = max w (rune_count value) ∷ widen widths row

unfoldable pub all_widths : List ℕ → List (List Bytes) → List ℕ
unfolding widen
all_widths widths [] = widths
all_widths widths (row ∷ rows) = all_widths (widen widths row) rows

abbrev pub padded : ℕ → Bytes → Bytes
unfolding rune_count
padded width value = value ++ spaces (width - rune_count value + 2)

-- One row: every cell but the last is padded.
unfoldable pub align_row : List ℕ → List Bytes → Bytes
unfolding padded
align_row widths [] = []
align_row widths (value ∷ []) = value
align_row widths (value ∷ next ∷ row) =
    padded (get_or widths 0 0) value ++ align_row (drop 1 widths) (next ∷ row)

abbrev pub plan_rows : Bytes → List (List Bytes)
unfolding split trim_right_byte
plan_rows plan = map (λ line. map (trim_right_byte b' ') (split line b'\t')) (split plan 10)

unfoldable pub align_plan_columns : Bytes → Bytes
unfolding plan_rows all_widths align_row join
align_plan_columns plan =
    join (map (align_row (all_widths [] (plan_rows plan))) (plan_rows plan)) (10 ∷ [])
