-- ===== src/Advisor/Aligned.antt =====
-- The columns of an aligned plan begin at one place each.
use optimizer_canary_service.Base.{
  ℕ, zero, suc, ◌+◌, ◌-◌, ◌≤◌, ◌≡◌, refl, ap, List, [], ◌∷◌, ◌++◌, map, arith, get_or, drop, All,
}
use optimizer_canary_service.Text.{Bytes}
use optimizer_canary_service.Text.Split.{join}
use optimizer_canary_service.Advisor.Align.{
  rune_count, spaces, widen, all_widths, align_row, plan_rows, align_plan_columns,
}

-- No cell of a row is wider than its column.
abbrev Fits : List ℕ → List Bytes → Type 0
Fits widths [] = Unit
Fits [] (value ∷ row) = ⊥
Fits (w ∷ widths) (value ∷ row) = (rune_count value ≤ w) × Fits widths row

-- A text shows the cells of a row, each but the last followed by at least two blanks up to where the
-- next column begins: two runes behind the width of its own.
abbrev pub Aligned : List ℕ → List Bytes → Bytes → Type 0
Aligned widths [] text = text ≡ []
Aligned widths (value ∷ []) text = text ≡ value
Aligned widths (value ∷ next ∷ row) text =
    (n : ℕ) × (rest : Bytes) × (text ≡ (value ++ spaces (n + 2)) ++ rest)
    × (rune_count (value ++ spaces (n + 2)) ≡ get_or widths 0 0 + 2)
    × Aligned (drop 1 widths) (next ∷ row) rest

widen-Fits : (widths : List ℕ) (row : List Bytes) → Fits (widen widths row) row
unfolding widen
widen-Fits widths [] = tt
widen-Fits [] (value ∷ row) = (omega arith, widen-Fits [] row)
widen-Fits (w ∷ widths) (value ∷ row) = (omega arith, widen-Fits widths row)

widen-still :
    (widths : List ℕ) (row other : List Bytes) → Fits widths other → Fits (widen widths row) other
unfolding widen
widen-still widths [] other h = h
widen-still [] (value ∷ row) [] h = tt
widen-still [] (value ∷ row) (o ∷ other) h = elim h [ ]
widen-still (w ∷ widths) (value ∷ row) [] h = tt
widen-still (w ∷ widths) (value ∷ row) (o ∷ other) h =
    (omega (arith, h.0), widen-still widths row other h.1)

all_widths-still :
    (widths : List ℕ) (rows : List (List Bytes)) (other : List Bytes)
    → Fits widths other
    → Fits (all_widths widths rows) other
unfolding all_widths
all_widths-still widths [] other h = h
all_widths-still widths (row ∷ rows) other h =
    all_widths-still (widen widths row) rows other (widen-still widths row other h)

all_widths-Fits :
    (widths : List ℕ) (rows : List (List Bytes))
    → All (λ row. Fits (all_widths widths rows) row) rows
unfolding all_widths
all_widths-Fits widths [] = tt
all_widths-Fits widths (row ∷ rows) = (
  all_widths-still (widen widths row) rows row (widen-Fits widths row),
  all_widths-Fits (widen widths row) rows,
)

rune_count-spaces : (n : ℕ) → rune_count (spaces n) ≡ n
unfolding rune_count
rune_count-spaces zero = refl
rune_count-spaces (suc n) = ap (λ k. suc k) (rune_count-spaces n)

rune_count-append : (s t : Bytes) → rune_count (s ++ t) ≡ rune_count s + rune_count t
unfolding rune_count
rune_count-append [] t = omega arith
rune_count-append (c ∷ s) t = ground (arith, rune_count-append s t)

align_row-Aligned :
    (widths : List ℕ) (row : List Bytes)
    → Fits widths row
    → Aligned widths row (align_row widths row)
unfolding align_row
align_row-Aligned widths [] h = refl
align_row-Aligned widths (value ∷ []) h = refl
align_row-Aligned [] (value ∷ next ∷ row) h = elim h [ ]
align_row-Aligned (w ∷ widths) (value ∷ next ∷ row) h =
    let n = w - rune_count value in
    (
      n,
      align_row widths (next ∷ row),
      refl,
      omega (arith, rune_count-append value (spaces (n + 2)), rune_count-spaces (n + 2), h.0),
      align_row-Aligned widths (next ∷ row) h.1,
    )

All-Aligned :
    (widths : List ℕ) (rows : List (List Bytes))
    → All (λ row. Fits widths row) rows
    → All (λ row. Aligned widths row (align_row widths row)) rows
All-Aligned widths [] h = tt
All-Aligned widths (row ∷ rows) h = (align_row-Aligned widths row h.0, All-Aligned widths rows h.1)

-- An aligned plan has the lines of the plan, and with the widths of its columns every line shows the
-- cells of its row, without their trailing blanks, such that each column begins at one place in all
-- lines.
pub align_plan_columns-Aligned :
    (plan : Bytes)
    → (widths : List ℕ) × (align_plan_columns plan
        ≡ join (map (align_row widths) (plan_rows plan)) (10 ∷ []))
      × All (λ row. Aligned widths row (align_row widths row)) (plan_rows plan)
unfolding align_plan_columns
align_plan_columns-Aligned plan =
    let widths = all_widths [] (plan_rows plan) in
    (widths, refl, All-Aligned widths (plan_rows plan) (all_widths-Fits [] (plan_rows plan)))
