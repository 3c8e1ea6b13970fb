-- ===== src/Compare/Binding/Select.antt =====
-- The loop of `getCurrentPlanBinding`: the end of the main SELECT.
use optimizer_canary_service.Base.{
  ℕ, zero, suc, ◌+◌, ◌-◌, ◌^◌, Bool, Option, none, some, [], ◌∷◌, if◌then◌else◌, take, Outcome, ok,
  ◌>>=◌, ℤ, pos, inc, dec, ltb_ℤ,
}
use optimizer_canary_service.Text.{Bytes, codes, equal_fold}
use optimizer_canary_service.Compare.Binding.Words.{
  BindingError, Kind, passed, opening, closing, word, token,
}

-- `bestDepth` and `selectEnd`; the source's -1 is `none`.
pub record Best : Type 0 where
  pub depth : ℤ
  pub select_end : Option ℕ

-- `int(^uint(0)>>1)`.
abbrev pub no_select : Best
no_select = record { depth = pos (2 ^ 63 - 1); select_end = none }

abbrev pub is_select : Bytes → Bool
is_select w = equal_fold w (codes "select")

abbrev pub depth_after : Kind → ℤ → ℤ
depth_after opening depth = inc depth
depth_after closing depth = dec depth
depth_after passed depth = depth
depth_after word depth = depth

abbrev pub better : Best → ℤ → ℕ → Best
better best depth end =
    if ltb_ℤ depth best.depth then record { depth = depth; select_end = some end } else best

-- What a token of `w` bytes at position `i` does to the two variables.
abbrev pub best_after : Kind → Best → ℤ → ℕ → Bytes → Best
best_after word best depth end w = if is_select w then better best depth end else best
best_after passed best depth end w = best
best_after opening best depth end w = best
best_after closing best depth end w = best

-- The first number counts bytes of the last token still to be passed over; `i` is the position.
unfoldable pub scan : ℕ → ℕ → ℤ → Best → Bytes → Outcome BindingError Best
unfolding token
scan k i depth best [] = ok best
scan (suc k) i depth best (c ∷ s) = scan k (suc i) depth best s
scan zero i depth best (c ∷ s) = do
  (w, kind) ← token c s
  scan (w - 1) (suc i) (depth_after kind depth)
      (best_after kind best depth (i + w) (take w (c ∷ s))) s

unfoldable pub main_select : Bytes → Outcome BindingError (Option ℕ)
unfolding scan
main_select sql = do best ← scan 0 0 (pos 0) no_select sql; ok best.select_end
