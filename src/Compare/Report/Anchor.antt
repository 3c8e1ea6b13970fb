-- ===== src/Compare/Report/Anchor.antt =====
-- `uniqueHeadingAnchor` of diagnosis/compare/compare.go.
use optimizer_canary_service.Base.{
  ℕ, suc, ◌+◌, ◌<◌, ◌≡◌, refl, sym, ap, ◌∙◌, ◌≢◌, inl, inr, true, List, [], ◌∷◌, ◌++◌, arith, ltb,
  if◌then◌else◌, Bool-cases, length, drop, length-append,
}
use optimizer_canary_service.Text.{Bytes, bytes_eq, to_lower, equal_fold, bytes_eq_iff}
use optimizer_canary_service.Text.Decimal.{itoa, numeral_from, numeral_from-itoa}

-- The map `anchors`, an association list.
abbrev pub Anchors : Type 0
Anchors = List (Bytes × ℕ)

-- `anchors[anchor]`, 0 where there is none.
unfoldable pub count_of : Anchors → Bytes → ℕ
count_of [] k = 0
count_of ((j, n) ∷ m) k = let rest = count_of m k in if bytes_eq j k then n else rest

-- `anchors[anchor]++`.
unfoldable pub increment : Anchors → Bytes → Anchors
increment [] k = (k, 1) ∷ []
increment ((j, n) ∷ m) k =
    let rest = increment m k in if bytes_eq j k then (j, suc n) ∷ m else (j, n) ∷ rest

abbrev pub numbered : Bytes → ℕ → Bytes
numbered anchor n = if ltb 1 n then anchor ++ (b'-' ∷ itoa n) else anchor

unfoldable pub unique_heading_anchor : Bytes → Anchors → Bytes × Anchors
unfolding count_of increment
unique_heading_anchor title anchors =
    let anchor = to_lower title in
    let anchors' = increment anchors anchor in
    (numbered anchor (count_of anchors' anchor), anchors')

-- The map after the anchors of some titles.
abbrev pub after : List Bytes → Anchors → Anchors
after [] m = m
after (t ∷ ts) m = after ts (unique_heading_anchor t m).1

-- How many of the titles differ from `title` in case alone, or not at all.
unfoldable pub occurrences : List Bytes → Bytes → ℕ
occurrences [] title = 0
occurrences (t ∷ ts) title =
    let rest = occurrences ts title in if equal_fold t title then suc rest else rest

count_of-increment :
    (m : Anchors) (j k : Bytes)
    → count_of (increment m j) k ≡ (if bytes_eq j k then suc (count_of m k) else count_of m k)
unfolding count_of increment
count_of-increment [] j k = ground arith
count_of-increment ((i, n) ∷ m) j k =
    ground (arith, bytes_eq_iff i j, bytes_eq_iff i k, bytes_eq_iff j k, count_of-increment m j k)

count_of-after :
    (ts : List Bytes) (m : Anchors) (title : Bytes)
    → count_of (after ts m) (to_lower title) ≡ occurrences ts title + count_of m (to_lower title)
unfolding occurrences unique_heading_anchor equal_fold
count_of-after [] m title = ground arith
count_of-after (t ∷ ts) m title = ground (
  arith,
  count_of-after ts (increment m (to_lower t)) title,
  count_of-increment m (to_lower t) (to_lower title),
)

-- The anchor of a heading, after those of some titles: it is the title in lower case, with the
-- number of its occurrences so far where that is more than one.
pub unique_heading_anchor-after :
    (ts : List Bytes) (title : Bytes)
    → (unique_heading_anchor title (after ts [])).0
      ≡ numbered (to_lower title) (suc (occurrences ts title))
unfolding unique_heading_anchor count_of
unique_heading_anchor-after ts title =
    let same : bytes_eq (to_lower title) (to_lower title) ≡ true =
      (bytes_eq_iff (to_lower title) (to_lower title)).1 refl in
    ap (λ n. numbered (to_lower title) n)
      (ground (
        arith,
        count_of-increment (after ts []) (to_lower title) (to_lower title),
        same,
        count_of-after ts [] title,
      ))

cancel : (s t u : Bytes) → s ++ t ≡ s ++ u → t ≡ u
cancel [] t u h = h
cancel (c ∷ s) t u h = cancel s t u (ap (λ x. drop 1 x) h)

longer : (s : Bytes) (c : ℕ) (t : Bytes) → s ++ c ∷ t ≢ s
longer s c t h = omega (arith, ap length h, length-append s (c ∷ t))

numbered-inj : (s : Bytes) (m n : ℕ) → 0 < m → m < n → numbered s m ≢ numbered s n
numbered-inj s m n a b h = elim (Bool-cases (ltb 1 m)) [
  | inl more ↦
      let both = cancel s (b'-' ∷ itoa m) (b'-' ∷ itoa n) (ground (arith, h)) in
      omega
        (arith, ap (λ x. numeral_from 0 (drop 1 x)) both, numeral_from-itoa m, numeral_from-itoa n)
  | inr one ↦ longer s b'-' (itoa n) (ground (arith, h))
]

occurrences-append :
    (ts us : List Bytes) (title : Bytes)
    → occurrences (ts ++ us) title ≡ occurrences ts title + occurrences us title
unfolding occurrences
occurrences-append [] us title = ground arith
occurrences-append (t ∷ ts) us title = ground (arith, occurrences-append ts us title)

occurrences-again :
    (before between : List Bytes) (title : Bytes)
    → occurrences before title < occurrences (before ++ title ∷ between) title
unfolding occurrences equal_fold
occurrences-again before between title =
    let same : bytes_eq (to_lower title) (to_lower title) ≡ true =
      (bytes_eq_iff (to_lower title) (to_lower title)).1 refl in
    ground (arith, occurrences-append before (title ∷ between) title, same)

-- Two headings with the same title have different anchors, whatever stands before and between.
unique_heading_anchor-differ :
    (before between : List Bytes) (title : Bytes)
    → (unique_heading_anchor title (after before [])).0
      ≢ (unique_heading_anchor title (after (before ++ title ∷ between) [])).0
unique_heading_anchor-differ before between title h =
    numbered-inj (to_lower title) (suc (occurrences before title))
      (suc (occurrences (before ++ title ∷ between) title)) (omega arith)
      (omega (arith, occurrences-again before between title))
      (sym (unique_heading_anchor-after before title)
        ∙ (h ∙ unique_heading_anchor-after (before ++ title ∷ between) title))
