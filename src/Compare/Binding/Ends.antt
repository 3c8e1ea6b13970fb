-- ===== src/Compare/Binding/Ends.antt =====
-- Where the main SELECT stands in the text.
use optimizer_canary_service.Base.{
  ℕ, zero, suc, ◌+◌, ◌-◌, ◌≡◌, refl, sym, ap, ◌∙◌, inl, inr, true, some, List, [], ◌∷◌, ◌++◌,
  append_assoc, arith, Bool-cases, length, take, drop, length-append, take-append-drop, All,
  All-append, ok, ◌>>=◌, bind_ok, append_split, ℤ, pos,
}
use optimizer_canary_service.Text.{Bytes, codes, equal_fold}
use optimizer_canary_service.Compare.Binding.Words.{Kind, passed, opening, closing, word, token}
use optimizer_canary_service.Compare.Binding.Select.{is_select, depth_after, main_select}
use optimizer_canary_service.Compare.Binding.Main.{
  SelectWord, found_by, selects, First, main_select-First,
}

-- The text up to the end of such a word ends in "select", in any case.
pub record EndsSelect (sql : Bytes) (w : SelectWord) : Type 0 where
  pub before : Bytes
  pub written : Bytes
  pub is_written : is_select written ≡ true
  pub splits : take w.end sql ≡ before ++ written

found_by-EndsSelect :
    (pre s : Bytes) (kind : Kind) (depth : ℤ) (n : ℕ)
    → All (EndsSelect (pre ++ s)) (found_by kind depth (length pre + n) (take n s))
found_by-EndsSelect pre s passed depth n = tt
found_by-EndsSelect pre s opening depth n = tt
found_by-EndsSelect pre s closing depth n = tt
found_by-EndsSelect pre s word depth n = elim (Bool-cases (is_select (take n s))) [
  | inl is ↦ rw is (
    record { before = pre; written = take n s; is_written = is; splits = (append_split pre s n).0 },
    tt,
  )
  | inr not_one ↦ rw not_one tt
]

selects-EndsSelect :
    (s pre sql : Bytes) (k i : ℕ) (depth : ℤ) {words : List SelectWord}
    → length pre ≡ i
    → sql ≡ pre ++ s
    → selects k i depth s ≡ ok words
    → All (EndsSelect sql) words
unfolding selects
selects-EndsSelect [] pre sql k i depth {words} at whole e =
    let none_left : [] ≡ words = cc in rw (← none_left) tt
selects-EndsSelect (c ∷ s) pre sql (suc k) i depth at whole e =
    selects-EndsSelect s (pre ++ c ∷ []) sql k (suc i) depth
      (omega (arith, length-append pre (c ∷ []))) (whole ∙ sym (append_assoc pre (c ∷ []) s)) e
selects-EndsSelect (c ∷ s) pre sql zero i depth {words} at whole e =
    let (t, taken, listed) =
      bind_ok (token c s)
        (λ t. selects (t.0 - 1) (suc i) (depth_after t.1 depth) s >>= λ later.
          ok (found_by t.1 depth (i + t.0) (take t.0 (c ∷ s)) ++ later))
        e in
    let found = found_by t.1 depth (i + t.0) (take t.0 (c ∷ s)) in
    let (later, rest, same) =
      bind_ok (selects (t.0 - 1) (suc i) (depth_after t.1 depth) s) (λ later. ok (found ++ later))
        listed in
    let here : All (EndsSelect sql) found =
      rw (whole, ← at) (found_by-EndsSelect pre (c ∷ s) t.1 depth t.0) in
    let there =
      selects-EndsSelect s (pre ++ c ∷ []) sql (t.0 - 1) (suc i) (depth_after t.1 depth)
        (omega (arith, length-append pre (c ∷ []))) (whole ∙ sym (append_assoc pre (c ∷ []) s))
        rest in
    let all_found : found ++ later ≡ words = cc in
    rw (← all_found) (All-append (EndsSelect sql) found later here there)

All-First :
    {words : List SelectWord} {w : SelectWord} (P : SelectWord → Type 0)
    → First words w
    → All P words
    → P w
All-First {words} {w} P f a = at_middle f.before (rw f.splits at a)
  where
    at_middle : (before : List SelectWord) → All P (before ++ w ∷ f.after) → P w
    at_middle [] h = h.0
    at_middle (x ∷ before) h = at_middle before h.1

-- The main SELECT ends where a word ends that reads "select", in any case.
pub main_select-EndsSelect :
    (sql : Bytes) {end : ℕ}
    → main_select sql ≡ ok (some end)
    → (before written : Bytes) × (equal_fold written (codes "select") ≡ true)
      × (sql ≡ before ++ (written ++ drop end sql))
      × (take end sql ≡ before ++ written)
main_select-EndsSelect sql {end} e =
    let (words, w, listed, first, same) = main_select-First sql e in
    let all_end = selects-EndsSelect sql [] sql 0 0 (pos 0) refl refl listed in
    let ends = All-First (EndsSelect sql) first all_end in
    let taken : take end sql ≡ ends.before ++ ends.written = rw (← same) ends.splits in
    (
      ends.before,
      ends.written,
      ends.is_written,
      sym (take-append-drop end sql)
          ∙ ap (λ s. s ++ drop end sql) taken
          ∙ append_assoc ends.before ends.written (drop end sql),
      taken,
    )
