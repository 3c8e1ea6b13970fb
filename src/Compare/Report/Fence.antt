-- ===== src/Compare/Report/Fence.antt =====
-- `writeCodeBlock` of diagnosis/compare/compare.go.
use optimizer_canary_service.Base.{
  ℕ, zero, suc, ◌+◌, ◌≤◌, ◌<◌, ◌≡◌, refl, ap, inl, inr, true, false, Option, none, some, [], ◌∷◌,
  ◌++◌, arith, if◌then◌else◌, Bool-cases, Option-cases, length, take, drop, length-append,
}
use optimizer_canary_service.Text.{Bytes, codes}
use optimizer_canary_service.Text.Search.{index_split, index, contains}

abbrev pub ticks : ℕ → Bytes
ticks zero = []
ticks (suc n) = b'`' ∷ ticks n

-- The loop of `writeCodeBlock`, from a fence of `n` backticks.
unfoldable pub fence_from : ℕ → ℕ → Bytes → Option ℕ
unfolding contains
fence_from zero n text = none
fence_from (suc fuel) n text =
    let more = fence_from fuel (suc n) text in if contains text (ticks n) then more else some n

-- A fence that the text contains is no longer than the text.
abbrev pub fence_fuel : Bytes → ℕ
fence_fuel text = suc (length text)

abbrev fenced : Bytes → Option ℕ → Option Bytes
fenced text none = none
fenced text (some n) =
    some (ticks n ++ codes "text\n" ++ text ++ codes "\n" ++ ticks n ++ codes "\n")

unfoldable pub write_code_block : Bytes → Option Bytes
unfolding fence_from
write_code_block text = fenced text (fence_from (fence_fuel text) 3 text)

contains-long : (text p : Bytes) → contains text p ≡ true → length p ≤ length text
unfolding contains
contains-long text p h = elim (Option-cases (index text p)) [
  | inl e ↦ ground arith
  | inr (i, e) ↦
      let parts = ap length (index_split text p e) in
      omega (
        arith,
        parts,
        length-append (take i text) (p ++ drop (i + length p) text),
        length-append p (drop (i + length p) text),
      )
]

length-ticks : (n : ℕ) → length (ticks n) ≡ n
length-ticks zero = refl
length-ticks (suc n) = omega (arith, length-ticks n)

-- The fence that is found is the shortest of `n` backticks or more that the text does not contain.
abbrev pub Shortest : ℕ → ℕ → Bytes → ℕ → Type 0
Shortest fuel n text m =
    (fence_from fuel n text ≡ some m)
    × (n ≤ m)
    × (contains text (ticks m) ≡ false)
    × ((k : ℕ) → n ≤ k → k < m → contains text (ticks k) ≡ true)

none_below : 0 < 0 → ⊥
none_below h = omega (arith, h)

none_between : {n k : ℕ} → n ≤ k → k < n → ⊥
none_between a b = omega (arith, a, b)

pub fence_from-total :
    (fuel n : ℕ) (text : Bytes)
    → 0 < fuel
    → suc (length text) < fuel + n
    → (m : ℕ) × Shortest fuel n text m
unfolding fence_from
fence_from-total zero n text g h = elim (none_below g) [ ]
fence_from-total (suc fuel) n text g h = elim (Bool-cases (contains text (ticks n))) [
  | inl is ↦
      let short : n ≤ length text =
        omega (arith, contains-long text (ticks n) is, length-ticks n) in
      let (m, (found, least, free, all)) =
        fence_from-total fuel (suc n) text (omega arith) (omega arith) in
      (m, (rw is found, omega arith, free, λ k a b. ground (arith, all k)))
  | inr no_fence ↦
      (n, (rw no_fence refl, omega arith, no_fence, λ k a b. elim (none_between a b) [ ]))
]

-- A code block is always written, inside a fence of at least three backticks that its text does not
-- contain, the shortest such fence.
pub write_code_block-Fenced :
    (text : Bytes)
    → (m : ℕ) × (write_code_block text
        ≡ some (ticks m ++ codes "text\n" ++ text ++ codes "\n" ++ ticks m ++ codes "\n"))
      × (3 ≤ m)
      × (contains text (ticks m) ≡ false)
      × ((k : ℕ) → 3 ≤ k → k < m → contains text (ticks k) ≡ true)
unfolding write_code_block
write_code_block-Fenced text =
    let (m, (found, least, free, all)) =
      fence_from-total (fence_fuel text) 3 text (omega arith) (omega arith) in
    (m, ap (λ o. fenced text o) found, least, free, all)
