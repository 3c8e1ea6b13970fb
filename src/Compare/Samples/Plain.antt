-- ===== src/Compare/Samples/Plain.antt =====
-- Without quotes and in ASCII, a normalized statement is its words in lower case, one space apart.
use optimizer_canary_service.Base.{
  ℕ, ◌<◌, ◌≡◌, refl, sym, ap, ◌∙◌, ◌≢◌, inl, inr, Bool, true, false, List, [], ◌∷◌, ◌++◌,
  append-nil, append_assoc, arith, ◌==◌, Bool-cases, All, Outcome, ok, err, panic,
}
use optimizer_canary_service.Text.{Bytes, lower_byte, to_lower}
use optimizer_canary_service.Text.Trim.{
  fields, fields_from, fields_from-space, fields_from-other, is_space_byte,
}
use optimizer_canary_service.Text.Split.{join}
use optimizer_canary_service.Compare.Samples.Normalize.{
  normalize_from, normalize_explain_sql, prepend, rune_bytes, lower_point, is_space_point, due,
}

-- ASCII and no quote.
abbrev pub PlainByte : ℕ → Type 0
PlainByte c = (c < 128) × (c ≢ b'\'') × (c ≢ b'"')

abbrev pub Plain : Bytes → Type 0
Plain s = All PlainByte s

abbrev pub words_text : List Bytes → Bytes
unfolding join
words_text ws = to_lower (join ws (b' ' ∷ []))

abbrev after_space : List Bytes → Bytes
after_space [] = []
after_space (w ∷ ws) = b' ' ∷ words_text (w ∷ ws)

normalize_from-space :
    (c : ℕ) (before : Bytes) (pending written : Bool) (s : Bytes)
    → PlainByte c
    → is_space_byte c ≡ true
    → normalize_from 0 before pending written (c ∷ s) ≡ normalize_from 0 (c ∷ before) true written s
unfolding normalize_from
normalize_from-space c before pending written s h space =
    let one : (c == b'\'') ≡ false = ground (arith, h.1) in
    let two : (c == b'"') ≡ false = ground (arith, h.2) in
    let point : is_space_point c ≡ true = ground (arith, space) in rw (one, two, point) refl

normalize_from-other :
    (c : ℕ) (before : Bytes) (pending written : Bool) (s : Bytes)
    → PlainByte c
    → is_space_byte c ≡ false
    → normalize_from 0 before pending written (c ∷ s)
      ≡ prepend
          (due pending written ++ lower_byte c ∷ [])
          (normalize_from 0 (c ∷ before) false true s)
unfolding normalize_from
normalize_from-other c before pending written s h other =
    let one : (c == b'\'') ≡ false = ground (arith, h.1) in
    let two : (c == b'"') ≡ false = ground (arith, h.2) in
    let point : is_space_point c ≡ false = ground (arith, other, h.0) in
    let low : rune_bytes (lower_point c) ≡ lower_byte c ∷ [] = ground (arith, h.0) in
    rw (one, two, point, low) refl

to_lower-append : (s t : Bytes) → to_lower (s ++ t) ≡ to_lower s ++ to_lower t
unfolding to_lower
to_lower-append [] t = refl
to_lower-append (c ∷ s) t = ap (λ u. lower_byte c ∷ u) (to_lower-append s t)

words_text-cons : (w : Bytes) (ws : List Bytes) → words_text (w ∷ ws) ≡ to_lower w ++ after_space ws
unfolding join to_lower
words_text-cons w [] = sym (append-nil (to_lower w))
words_text-cons w (v ∷ ws) =
    let rest = join (v ∷ ws) (b' ' ∷ []) in
    to_lower-append (w ++ b' ' ∷ []) rest
    ∙ ap (λ t. t ++ to_lower rest) (to_lower-append w (b' ' ∷ []))
    ∙ append_assoc (to_lower w) (b' ' ∷ []) (to_lower rest)

prepend-prepend :
    (s t : Bytes) (rest : Outcome Unit Bytes) → prepend s (prepend t rest) ≡ prepend (s ++ t) rest
prepend-prepend s t (ok u) = ap (λ v. ok v) (sym (append_assoc s t u))
prepend-prepend s t (err e) = refl
prepend-prepend s t panic = refl

fields_from-cons-ne-nil : (d : ℕ) (cur s : Bytes) → Plain s → fields_from 0 (d ∷ cur) s ≢ []
unfolding fields_from
fields_from-cons-ne-nil d cur [] h e = cc
fields_from-cons-ne-nil d cur (c ∷ s) h e = elim (Bool-cases (is_space_byte c)) [
  | inl space ↦ nonempty (sym (fields_from-space c (d ∷ cur) s h.0.0 space) ∙ e)
  | inr other ↦
      fields_from-cons-ne-nil d (cur ++ c ∷ []) s h.1
        (sym (fields_from-other c (d ∷ cur) s h.0.0 other) ∙ e)
]
  where
    nonempty : (d ∷ cur) ∷ fields_from 0 [] s ≡ [] → ⊥
    nonempty e = cc

after_space-words : (ws : List Bytes) → ws ≢ [] → after_space ws ≡ b' ' ∷ words_text ws
after_space-words [] h = elim (h refl) [ ]
after_space-words (w ∷ ws) h = refl

due-none : (pending : Bool) → due pending false ≡ []
due-none true = refl
due-none false = refl

mutual
  unfolding normalize_from fields_from to_lower

  -- Inside a word: what was read of it stands in front.
  in_word :
      (s before : Bytes) (d : ℕ) (cur : Bytes)
      → Plain s
      → prepend (to_lower (d ∷ cur)) (normalize_from 0 before false true s)
        ≡ ok (words_text (fields_from 0 (d ∷ cur) s))
  in_word [] before d cur h = ap (λ t. ok t) (sym (words_text-cons (d ∷ cur) []))
  in_word (c ∷ s) before d cur h = elim (Bool-cases (is_space_byte c)) [
    | inl space ↦
        ap (prepend (to_lower (d ∷ cur)))
          (normalize_from-space c before false true s h.0 space ∙ between_words s (c ∷ before) h.1)
        ∙ ap (λ t. ok t)
            (sym (words_text-cons (d ∷ cur) (fields_from 0 [] s))
              ∙ ap words_text (sym (fields_from-space c (d ∷ cur) s h.0.0 space)))
    | inr other ↦
        ap (prepend (to_lower (d ∷ cur))) (normalize_from-other c before false true s h.0 other)
        ∙ prepend-prepend (to_lower (d ∷ cur)) (lower_byte c ∷ [])
            (normalize_from 0 (c ∷ before) false true s)
        ∙ ap (λ t. prepend t (normalize_from 0 (c ∷ before) false true s))
            (sym (to_lower-append (d ∷ cur) (c ∷ [])))
        ∙ in_word s (c ∷ before) d (cur ++ c ∷ []) h.1
        ∙ ap (λ f. ok (words_text f)) (sym (fields_from-other c (d ∷ cur) s h.0.0 other))
  ]

  -- Between two words, with one written.
  between_words :
      (s before : Bytes)
      → Plain s
      → normalize_from 0 before true true s ≡ ok (after_space (fields_from 0 [] s))
  between_words [] before h = refl
  between_words (c ∷ s) before h = elim (Bool-cases (is_space_byte c)) [
    | inl space ↦
        normalize_from-space c before true true s h.0 space
        ∙ between_words s (c ∷ before) h.1
        ∙ ap (λ f. ok (after_space f)) (sym (fields_from-space c [] s h.0.0 space))
    | inr other ↦
        normalize_from-other c before true true s h.0 other
        ∙ sym (
            prepend-prepend (b' ' ∷ []) (lower_byte c ∷ [])
              (normalize_from 0 (c ∷ before) false true s))
        ∙ ap (prepend (b' ' ∷ [])) (in_word s (c ∷ before) c [] h.1)
        ∙ ap (λ t. ok t)
            (sym (after_space-words (fields_from 0 (c ∷ []) s) (fields_from-cons-ne-nil c [] s h.1))
              ∙ ap after_space (sym (fields_from-other c [] s h.0.0 other)))
  ]

-- Before the first word.
before_words :
    (s before : Bytes) (pending : Bool)
    → Plain s
    → normalize_from 0 before pending false s ≡ ok (words_text (fields_from 0 [] s))
unfolding normalize_from fields_from to_lower words_text
before_words [] before pending h = refl
before_words (c ∷ s) before pending h = elim (Bool-cases (is_space_byte c)) [
  | inl space ↦
      normalize_from-space c before pending false s h.0 space
      ∙ before_words s (c ∷ before) true h.1
      ∙ ap (λ f. ok (words_text f)) (sym (fields_from-space c [] s h.0.0 space))
  | inr other ↦
      normalize_from-other c before pending false s h.0 other
      ∙ ap (λ t. prepend (t ++ lower_byte c ∷ []) (normalize_from 0 (c ∷ before) false true s))
          (due-none pending)
      ∙ in_word s (c ∷ before) c [] h.1
      ∙ ap (λ f. ok (words_text f)) (sym (fields_from-other c [] s h.0.0 other))
]

-- The normal form of a statement in ASCII without quotes is its fields in lower case, one space
-- apart: neither blanks nor case matter.
pub normalize_explain_sql-Plain :
    (text : Bytes)
    → Plain text
    → normalize_explain_sql text ≡ ok (to_lower (join (fields text) (b' ' ∷ [])))
unfolding normalize_explain_sql fields to_lower words_text
normalize_explain_sql-Plain text h = before_words text [] false h
