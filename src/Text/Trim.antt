-- ===== src/Text/Trim.antt =====
-- strings.TrimSpace, Fields, TrimSuffix and TrimRight.
use optimizer_canary_service.Base.{
  ℕ, zero, suc, ◌-◌, ◌<◌, ◌≡◌, refl, Bool, true, false, ◌&&◌, ◌||◌, List, [], ◌∷◌, ◌++◌, arith, leb,
  ◌==◌, if◌then◌else◌,
}
use optimizer_canary_service.Text.Basic.{Bytes}

-- `unicode.IsSpace` below 256.
abbrev pub is_space_byte : ℕ → Bool
is_space_byte c = leb 9 c && leb c 13 || c == b' '

two_byte_space : ℕ → ℕ → ℕ
two_byte_space c d = if c == 0xC2 && (d == 0x85 || d == 0xA0) then 2 else 0

three_byte_space : ℕ → ℕ → ℕ → ℕ
three_byte_space c d e =
    if c == 0xE1 && d == 0x9A && e == 0x80
    then 3
    else if c == 0xE2
        && d == 0x80
        && (leb 0x80 e && leb e 0x8A || e == 0xA8 || e == 0xA9 || e == 0xAF)
    then 3
    else if c == 0xE2 && d == 0x81 && e == 0x9F
    then 3
    else if c == 0xE3 && d == 0x80 && e == 0x80
    then 3
    else 0

wide_space : ℕ → Bytes → ℕ
unfolding two_byte_space three_byte_space
wide_space c [] = 0
wide_space c (d ∷ []) = two_byte_space c d
wide_space c (d ∷ e ∷ s) =
    let two = two_byte_space c d in if two == 0 then three_byte_space c d e else two

-- The number of bytes of the white-space character in front, and 0 where there is none.
unfoldable pub space_width : Bytes → ℕ
unfolding wide_space
space_width [] = 0
space_width (c ∷ s) = if is_space_byte c then 1 else wide_space c s

-- Whether the text is white space alone; the number counts bytes still to be passed over.
all_space : ℕ → Bytes → Bool
unfolding space_width
all_space k [] = true
all_space (suc k) (c ∷ s) = all_space k s
all_space zero (c ∷ s) =
    let w = space_width (c ∷ s) in let rest = all_space (w - 1) s in if w == 0 then false else rest

trim_left : ℕ → Bytes → Bytes
unfolding space_width
trim_left k [] = []
trim_left (suc k) (c ∷ s) = trim_left k s
trim_left zero (c ∷ s) =
    let w = space_width (c ∷ s) in let rest = trim_left (w - 1) s in if w == 0 then c ∷ s else rest

trim_right : Bytes → Bytes
unfolding all_space
trim_right [] = []
trim_right (c ∷ s) = let rest = trim_right s in if all_space 0 (c ∷ s) then [] else c ∷ rest

-- `strings.TrimSpace`.
unfoldable pub trim_space : Bytes → Bytes
unfolding trim_left trim_right
trim_space s = trim_right (trim_left 0 s)

abbrev pub flush : Bytes → List Bytes → List Bytes
flush [] fs = fs
flush (c ∷ s) fs = (c ∷ s) ∷ fs

unfoldable pub fields_from : ℕ → Bytes → Bytes → List Bytes
unfolding space_width
fields_from k cur [] = flush cur []
fields_from (suc k) cur (c ∷ s) = fields_from k cur s
fields_from zero cur (c ∷ s) =
    let w = space_width (c ∷ s) in
    let longer = fields_from 0 (cur ++ c ∷ []) s in
    let cut = flush cur (fields_from (w - 1) [] s) in if w == 0 then longer else cut

-- `strings.Fields`.
unfoldable pub fields : Bytes → List Bytes
unfolding fields_from
fields s = fields_from 0 [] s

-- `strings.TrimRight` with a cutset of one byte.
unfoldable pub trim_right_byte : ℕ → Bytes → Bytes
trim_right_byte b [] = []
trim_right_byte b (c ∷ s) =
    let rest = trim_right_byte b s in
    elim rest [ [] ↦ (if c == b then [] else c ∷ []) | d ∷ t ↦ c ∷ d ∷ t ]

-- Bytes below 128 are white space or not, whatever stands behind them.
space_width-ascii :
    (c : ℕ) (s : Bytes) → c < 128 → space_width (c ∷ s) ≡ (if is_space_byte c then 1 else 0)
unfolding space_width wide_space two_byte_space three_byte_space
space_width-ascii c [] h = ground (arith, h)
space_width-ascii c (d ∷ []) h = ground (arith, h)
space_width-ascii c (d ∷ e ∷ s) h = ground (arith, h)

pub fields_from-space :
    (c : ℕ) (cur s : Bytes)
    → c < 128
    → is_space_byte c ≡ true
    → fields_from 0 cur (c ∷ s) ≡ flush cur (fields_from 0 [] s)
unfolding fields_from
fields_from-space c cur s h space =
    let w : space_width (c ∷ s) ≡ 1 = ground (arith, space_width-ascii c s h, space) in rw w refl

pub fields_from-other :
    (c : ℕ) (cur s : Bytes)
    → c < 128
    → is_space_byte c ≡ false
    → fields_from 0 cur (c ∷ s) ≡ fields_from 0 (cur ++ c ∷ []) s
unfolding fields_from
fields_from-other c cur s h other =
    let w : space_width (c ∷ s) ≡ 0 = ground (arith, space_width-ascii c s h, other) in rw w refl
