-- ===== src/Compare/Binding/Main.antt =====
-- The main SELECT: among the SELECT words outside quotes and comments, the first of those at the
-- least parenthesis depth.
use optimizer_canary_service.Base.{
  ℕ, zero, suc, ◌+◌, ◌-◌, ◌≡◌, refl, sym, ap, ◌∙◌, ◌⊎◌, inl, inr, true, false, some, List, [], ◌∷◌,
  ◌++◌, arith, if◌then◌else◌, Bool-cases, take, All, Outcome, ok, ◌>>=◌, bind_ok, bind_through,
  bind_values, ℤ, pos, ltb_ℤ,
}
use optimizer_canary_service.Text.{Bytes}
use optimizer_canary_service.Compare.Binding.Words.{
  BindingError, Kind, passed, opening, closing, word, token,
}
use optimizer_canary_service.Compare.Binding.Select.{
  Best, no_select, is_select, depth_after, better, best_after, scan, main_select,
}

-- A SELECT word: its parenthesis depth and the position behind it.
pub record SelectWord : Type 0 where
  pub depth : ℤ
  pub end : ℕ

abbrev pub found_by : Kind → ℤ → ℕ → Bytes → List SelectWord
found_by word depth end w = if is_select w then record { depth = depth; end = end } ∷ [] else []
found_by passed depth end w = []
found_by opening depth end w = []
found_by closing depth end w = []

-- All SELECT words, in the order of the text.
unfoldable pub selects : ℕ → ℕ → ℤ → Bytes → Outcome BindingError (List SelectWord)
selects k i depth [] = ok []
selects (suc k) i depth (c ∷ s) = selects k (suc i) depth s
selects zero i depth (c ∷ s) = do
  (w, kind) ← token c s
  later ← selects (w - 1) (suc i) (depth_after kind depth) s
  ok (found_by kind depth (i + w) (take w (c ∷ s)) ++ later)

abbrev pub pick : Best → List SelectWord → Best
pick best [] = best
pick best (x ∷ xs) = pick (better best x.depth x.end) xs

pick-found_by :
    (kind : Kind) (best : Best) (depth : ℤ) (end : ℕ) (w : Bytes) (later : List SelectWord)
    → pick best (found_by kind depth end w ++ later) ≡ pick (best_after kind best depth end w) later
pick-found_by word best depth end w later = ground arith
pick-found_by passed best depth end w later = refl
pick-found_by opening best depth end w later = refl
pick-found_by closing best depth end w later = refl

-- The scan keeps the best of what it finds.
scan-selects :
    (s : Bytes) (k i : ℕ) (depth : ℤ) (best : Best)
    → scan k i depth best s ≡ (selects k i depth s >>= λ found. ok (pick best found))
unfolding scan selects
scan-selects [] k i depth best = ground arith
scan-selects (c ∷ s) (suc k) i depth best = scan-selects s k (suc i) depth best
scan-selects (c ∷ s) zero i depth best = bind_through (token c s) _ _ _ λ t.
    let found = found_by t.1 depth (i + t.0) (take t.0 (c ∷ s)) in
    scan-selects s (t.0 - 1) (suc i) (depth_after t.1 depth)
      (best_after t.1 best depth (i + t.0) (take t.0 (c ∷ s)))
    ∙ bind_values (selects (t.0 - 1) (suc i) (depth_after t.1 depth) s) _ (λ later. found ++ later)
        (pick best) λ later. sym (pick-found_by t.1 best depth (i + t.0) (take t.0 (c ∷ s)) later)

abbrev pub of_word : SelectWord → Best
of_word w = record { depth = w.depth; select_end = some w.end }

abbrev pub Deeper : ℤ → List SelectWord → Type 0
Deeper d = All (λ x. ltb_ℤ d x.depth ≡ true)

abbrev pub NotShallower : ℤ → List SelectWord → Type 0
NotShallower d = All (λ x. ltb_ℤ x.depth d ≡ false)

-- The first of the words at the least depth, with what stands before and after it.
pub record First (words : List SelectWord) (w : SelectWord) : Type 0 where
  pub before : List SelectWord
  pub after : List SelectWord
  pub splits : words ≡ before ++ w ∷ after
  pub deeper : Deeper w.depth before
  pub not_shallower : NotShallower w.depth after

ltb_ℤ_trans : (a b c : ℤ) → ltb_ℤ a b ≡ true → ltb_ℤ b c ≡ true → ltb_ℤ a c ≡ true
ltb_ℤ_trans a b c h k = ground arith

ltb-not_ltb_ℤ : (a b c : ℤ) → ltb_ℤ a b ≡ true → ltb_ℤ c b ≡ false → ltb_ℤ a c ≡ true
ltb-not_ltb_ℤ a b c h k = ground arith

abbrev Unchanged : Best → List SelectWord → Type 0
Unchanged best words = (pick best words ≡ best) × NotShallower best.depth words

abbrev Chosen : Best → List SelectWord → Type 0
Chosen best words =
    (w : SelectWord) × First words w
    × (pick best words ≡ of_word w)
    × (ltb_ℤ w.depth best.depth ≡ true)

First-cons :
    (x w : SelectWord) {words : List SelectWord}
    → ltb_ℤ w.depth x.depth ≡ true
    → First words w
    → First (x ∷ words) w
First-cons x w h f = record {
  before = x ∷ f.before;
  after = f.after;
  splits = ap (λ l. x ∷ l) f.splits;
  deeper = (h, f.deeper);
  not_shallower = f.not_shallower;
}

pick-First : (best : Best) (words : List SelectWord) → Unchanged best words ⊎ Chosen best words
pick-First best [] = inl (refl, tt)
pick-First best (x ∷ words) = elim (Bool-cases (ltb_ℤ x.depth best.depth)) [
  | inl up ↦ rw up (elim (pick-First (of_word x) words) [
    | inl (same, rest) ↦ inr (
      x,
      record { before = []; after = words; splits = refl; deeper = tt; not_shallower = rest },
      same,
      up,
    )
    | inr (w, first, same, lower) ↦
        inr (w, First-cons x w lower first, same, ltb_ℤ_trans w.depth x.depth best.depth lower up)
  ])
  | inr keeps ↦ rw keeps (elim (pick-First best words) [
    | inl (same, rest) ↦ inl (same, (refl, rest))
    | inr (w, first, same, lower) ↦ inr (
      w,
      First-cons x w (ltb-not_ltb_ℤ w.depth best.depth x.depth lower keeps) first,
      same,
      lower,
    )
  ])
]

-- `getCurrentPlanBinding` takes for the main SELECT the first of the SELECT words at the least
-- parenthesis depth: those before it are deeper, and none after it is shallower.
pub main_select-First :
    (sql : Bytes) {end : ℕ}
    → main_select sql ≡ ok (some end)
    → (words : List SelectWord) × (w : SelectWord) × (selects 0 0 (pos 0) sql ≡ ok words)
      × First words w
      × (w.end ≡ end)
unfolding main_select
main_select-First sql {end} e =
    let (best, scanned, kept) = bind_ok (scan 0 0 (pos 0) no_select sql) (λ b. ok b.select_end) e in
    let (words, listed, picked) =
      bind_ok (selects 0 0 (pos 0) sql) (λ found. ok (pick no_select found))
        (sym (scan-selects sql 0 0 (pos 0) no_select) ∙ scanned) in
    elim (pick-First no_select words) [
      | inl (same, rest) ↦ cc
      | inr (w, first, same, lower) ↦ (words, w, listed, first, cc)
    ]
