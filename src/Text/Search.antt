-- ===== src/Text/Search.antt =====
-- strings.HasPrefix, HasSuffix, Index, LastIndex, Contains, IndexByte and TrimSuffix.
use optimizer_canary_service.Base.{
  ℕ, suc, ◌+◌, ◌-◌, ◌≡◌, refl, ap, inl, inr, Bool, true, false, ◌&&◌, Option, none, some, [], ◌∷◌,
  ◌++◌, arith, leb, ◌==◌, if◌then◌else◌, Bool-cases, Option-cases, length, take, drop,
}
use optimizer_canary_service.Text.Basic.{Bytes, bytes_eq}

unfoldable pub has_prefix : Bytes → Bytes → Bool
has_prefix s [] = true
has_prefix [] (y ∷ p) = false
has_prefix (x ∷ s) (y ∷ p) = x == y && has_prefix s p

unfoldable pub has_suffix : Bytes → Bytes → Bool
unfolding bytes_eq
has_suffix s p = leb (length p) (length s) && bytes_eq (drop (length s - length p) s) p

unfoldable pub trim_suffix : Bytes → Bytes → Bytes
unfolding has_suffix
trim_suffix s p = if has_suffix s p then take (length s - length p) s else s

abbrev next : Option ℕ → Option ℕ
next none = none
next (some i) = some (suc i)

-- The first position at which `p` stands in `s`.
unfoldable pub index : Bytes → Bytes → Option ℕ
unfolding has_prefix
index [] p = if has_prefix [] p then some 0 else none
index (c ∷ s) p = let later = next (index s p) in if has_prefix (c ∷ s) p then some 0 else later

-- The last one.
unfoldable pub last_index : Bytes → Bytes → Option ℕ
unfolding has_prefix
last_index [] p = if has_prefix [] p then some 0 else none
last_index (c ∷ s) p =
    let here = if has_prefix (c ∷ s) p then some 0 else none in
    elim (last_index s p) [ some i ↦ some (suc i) | none ↦ here ]

unfoldable pub index_byte : Bytes → ℕ → Option ℕ
index_byte [] b = none
index_byte (c ∷ s) b = let later = next (index_byte s b) in if c == b then some 0 else later

abbrev is_found : Option ℕ → Bool
is_found none = false
is_found (some i) = true

unfoldable pub contains : Bytes → Bytes → Bool
unfolding index
contains s p = is_found (index s p)

-- A text begins with `p` exactly when it is `p` and a rest.
pub has_prefix_split : (s p : Bytes) → has_prefix s p ≡ true → s ≡ p ++ drop (length p) s
unfolding has_prefix
has_prefix_split s [] h = refl
has_prefix_split [] (y ∷ p) h = cc
has_prefix_split (x ∷ s) (y ∷ p) h = ground (arith, has_prefix_split s p)

pub has_prefix-append : (p s : Bytes) → has_prefix (p ++ s) p ≡ true
unfolding has_prefix
has_prefix-append [] s = refl
has_prefix-append (c ∷ p) s = ground (arith, has_prefix-append p s)

-- A text that holds `p` first at `i` is what stands before, `p`, and what stands behind.
pub index_split :
    (s p : Bytes) {i : ℕ} → index s p ≡ some i → s ≡ take i s ++ (p ++ drop (i + length p) s)
unfolding index
index_split [] p {i} h = elim (Bool-cases (has_prefix [] p)) [
  | inl is ↦
      let here : 0 ≡ i = ground (arith, has_prefix_split [] p is) in
      let n : 0 + length p ≡ length p = omega arith in rw (← here) (rw n (has_prefix_split [] p is))
  | inr not_one ↦ ground arith
]
index_split (c ∷ s) p {i} h = elim (Bool-cases (has_prefix (c ∷ s) p)) [
  | inl is ↦
      let here : 0 ≡ i = ground arith in
      let n : 0 + length p ≡ length p = omega arith in
      rw (← here) (rw n (has_prefix_split (c ∷ s) p is))
  | inr not_here ↦ elim (Option-cases (index s p)) [
    | inl e ↦ ground arith
    | inr (j, e) ↦
        let there : suc j ≡ i = ground arith in
        let n : suc j + length p ≡ suc (j + length p) = omega arith in
        rw (← there) (rw n (ap (λ t. c ∷ t) (index_split s p e)))
  ]
]
