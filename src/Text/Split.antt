-- ===== src/Text/Split.antt =====
-- strings.Split at one byte, Join and ReplaceAll of one byte.
use optimizer_canary_service.Base.{
  ℕ, ◌≡◌, refl, sym, ap, ◌≢◌, inl, inr, List, [], ◌∷◌, ◌++◌, append_assoc, arith, ◌==◌,
  if◌then◌else◌, Bool-cases, All, All-append,
}
use optimizer_canary_service.Text.Basic.{Bytes}

-- Puts a byte in front of the first piece.
abbrev cons_first : ℕ → List Bytes → List Bytes
cons_first c [] = (c ∷ []) ∷ []
cons_first c (p ∷ ps) = (c ∷ p) ∷ ps

-- `strings.Split` by a separator of one byte: always at least one piece.
unfoldable pub split : Bytes → ℕ → List Bytes
split [] b = [] ∷ []
split (c ∷ s) b = let ps = split s b in if c == b then [] ∷ ps else cons_first c ps

-- `strings.Join`.
unfoldable pub join : List Bytes → Bytes → Bytes
join [] sep = []
join (p ∷ []) sep = p
join (p ∷ q ∷ ps) sep = p ++ sep ++ join (q ∷ ps) sep

-- `strings.ReplaceAll` of one byte.
unfoldable pub replace_all : Bytes → ℕ → Bytes → Bytes
replace_all [] b r = []
replace_all (c ∷ s) b r = if c == b then r ++ replace_all s b r else c ∷ replace_all s b r

pub split-ne-nil : (s : Bytes) (b : ℕ) → split s b ≢ []
unfolding split
split-ne-nil [] b h = cc
split-ne-nil (c ∷ s) b h = ground (arith, split-ne-nil s b)

-- A piece without a byte.
abbrev pub Without : ℕ → Bytes → Type 0
Without b p = All (λ c. c ≢ b) p

cons_first-Without :
    (b c : ℕ) (ps : List Bytes)
    → c ≢ b
    → All (λ p. Without b p) ps
    → All (λ p. Without b p) (cons_first c ps)
cons_first-Without b c [] h k = ((h, tt), tt)
cons_first-Without b c (p ∷ ps) h k = ((h, k.0), k.1)

pub split-Without : (s : Bytes) (b : ℕ) → All (λ p. Without b p) (split s b)
unfolding split
split-Without [] b = (tt, tt)
split-Without (c ∷ s) b = elim (Bool-cases (c == b)) [
  | inl is ↦ rw is (tt, split-Without s b)
  | inr other ↦
      rw other (cons_first-Without b c (split s b) (ground (arith, other)) (split-Without s b))
]

split-append : (p s : Bytes) (b : ℕ) → Without b p → split (p ++ b ∷ s) b ≡ p ∷ split s b
unfolding split
split-append [] s b h = ground arith
split-append (c ∷ p) s b h = ground (arith, split-append p s b h.1)

split_one : (p : Bytes) (b : ℕ) → Without b p → split p b ≡ p ∷ []
unfolding split
split_one [] b h = refl
split_one (c ∷ p) b h = ground (arith, split_one p b h.1)

-- Pieces without the separator are read back from their concatenation.
split-join :
    (p : Bytes) (ps : List Bytes) (b : ℕ)
    → All (λ p. Without b p) (p ∷ ps)
    → split (join (p ∷ ps) (b ∷ [])) b ≡ p ∷ ps
unfolding join
split-join p [] b h = split_one p b h.0
split-join p (q ∷ ps) b h =
    rw (append_assoc p (b ∷ []) (join (q ∷ ps) (b ∷ [])))
      (rw (split-append p (join (q ∷ ps) (b ∷ [])) b h.0) (ap (λ r. p ∷ r) (split-join q ps b h.1)))

pub split-join-All :
    (ps : List Bytes) (b : ℕ)
    → ps ≢ []
    → All (λ p. Without b p) ps
    → split (join ps (b ∷ [])) b ≡ ps
split-join-All [] b some_piece h = elim (some_piece refl) [ ]
split-join-All (p ∷ ps) b some_piece h = split-join p ps b h

-- A text without a byte has pieces without it, and so has a text of such pieces.
pub pieces-Without :
    (b : ℕ) (s : Bytes) (sep : ℕ) → Without b s → All (λ p. Without b p) (split s sep)
unfolding split
pieces-Without b [] sep h = (tt, tt)
pieces-Without b (c ∷ s) sep h = elim (Bool-cases (c == sep)) [
  | inl is ↦ rw is (tt, pieces-Without b s sep h.1)
  | inr other ↦ rw other (cons_first-Without b c (split s sep) h.0 (pieces-Without b s sep h.1))
]

pub join-Without :
    (b : ℕ) (ps : List Bytes) (sep : ℕ)
    → b ≢ sep
    → All (λ p. Without b p) ps
    → Without b (join ps (sep ∷ []))
unfolding join
join-Without b [] sep differ h = tt
join-Without b (p ∷ []) sep differ h = h.0
join-Without b (p ∷ q ∷ ps) sep differ h =
    All-append (λ c. c ≢ b) (p ++ sep ∷ []) (join (q ∷ ps) (sep ∷ []))
      (All-append (λ c. c ≢ b) p (sep ∷ []) h.0 ((λ e. differ (sym e)), tt))
      (join-Without b (q ∷ ps) sep differ h.1)
