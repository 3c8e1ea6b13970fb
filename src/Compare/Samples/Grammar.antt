-- ===== src/Compare/Samples/Grammar.antt =====
-- The arguments of an annotation as a grammar, beside the loop of `parseTiDBArguments`.
use optimizer_canary_service.Base.{
  ℕ, zero, suc, ◌≡◌, refl, sym, ap, ◌∙◌, ◌↔◌, Bool, true, false, Option, none, some, List, [], ◌∷◌,
  ◌++◌, map, arith, ◌==◌, if◌then◌else◌, ==_iff, All, Outcome, ok,
}
use optimizer_canary_service.Text.{Bytes}
use mathlib.Core.Path.{subst}
use optimizer_canary_service.Text.Trim.{trim_space}
use optimizer_canary_service.Text.Split.{join}
use optimizer_canary_service.Compare.Samples.Scanner.{
  split_arguments, ScanState, ArgumentError, outside, Action, add, advance_in, is_quote,
  close_paren, comma,
}
use optimizer_canary_service.Compare.Samples.Parted.{
  scan, added, ok_inj, IsPart, split_arguments-Parts,
}

-- The rest of a string in quotes `q`, the closing one included; a backslash takes the next byte.
pub data Body (q : ℕ) : Bytes → Type 0 where
  closing : Body q (q ∷ [])
  escape : (c : ℕ) {s : Bytes} → Body q s → Body q (b'\\' ∷ c ∷ s)
  byte : (c : ℕ) {s : Bytes} → c == b'\\' ≡ false → c == q ≡ false → Body q s → Body q (c ∷ s)

-- A byte without a meaning of its own.
abbrev pub IsPlain : ℕ → Type 0
IsPlain c = (is_quote c ≡ false) × (c == b'(' ≡ false) × (c == b')' ≡ false) × (c == b',' ≡ false)

-- The rest of an argument inside `depth` parentheses: all of them and every string is closed, and a
-- comma stands inside parentheses or a string alone.
pub data Argued : ℕ → Bytes → Type 0 where
  done : Argued 0 []
  opening : {d : ℕ} {s : Bytes} → Argued (suc d) s → Argued d (b'(' ∷ s)
  closing : {d : ℕ} {s : Bytes} → Argued d s → Argued (suc d) (b')' ∷ s)
  inner_comma : {d : ℕ} {s : Bytes} → Argued (suc d) s → Argued (suc d) (b',' ∷ s)
  string :
      {d : ℕ} (q : ℕ) {body s : Bytes}
      → is_quote q ≡ true
      → Body q body
      → Argued d s
      → Argued d (q ∷ body ++ s)
  plain : {d : ℕ} (c : ℕ) {s : Bytes} → IsPlain c → Argued d s → Argued d (c ∷ s)

abbrev in_string : ℕ → Bool → ℕ → ScanState
in_string q escaped depth = record { quote = some q; escaped = escaped; depth = depth }

scan-Body :
    (q d : ℕ) {body : Bytes} (s : Bytes)
    → q == b'\\' ≡ false
    → Body q body
    → scan (in_string q false d) (body ++ s) ≡ scan (outside d) s
unfolding scan advance_in
scan-Body q d s other Body.closing = rw other (rw ((==_iff q q).1 refl) refl)
scan-Body q d s other (Body.escape c rest) = scan-Body q d s other rest
scan-Body q d s other (Body.byte c here there rest) =
    rw here (rw there (scan-Body q d s other rest))

quote-other : (q : ℕ) → is_quote q ≡ true → q == b'\\' ≡ false
quote-other q h = ground (arith, h)

scan-Argued : {d : ℕ} {s : Bytes} → Argued d s → scan (outside d) s ≡ ok (outside 0)
unfolding scan advance_in
scan-Argued Argued.done = refl
scan-Argued (Argued.opening rest) = scan-Argued rest
scan-Argued (Argued.closing rest) = scan-Argued rest
scan-Argued (Argued.inner_comma rest) = scan-Argued rest
scan-Argued {d} (Argued.string q {body} {s} is written rest) =
    rw is (scan-Body q d s (quote-other q is) written ∙ scan-Argued rest)
scan-Argued (Argued.plain c (a, b, e, f) rest) = rw a (rw b (rw e (rw f (scan-Argued rest))))

abbrev Closes : ℕ → ℕ → Bytes → Type 0
Closes q d s = (body : Bytes) × (rest : Bytes) × (s ≡ body ++ rest) × Body q body × Argued d rest

-- What is left to read in a state.
abbrev Rest : Option ℕ → Bool → ℕ → Bytes → Type 0
Rest none escaped d s = Argued d s
Rest (some q) false d s = Closes q d s
Rest (some q) true d s = (c : ℕ) × (t : Bytes) × (s ≡ c ∷ t) × Closes q d t

abbrev Ahead : Bytes → Type 0
Ahead s =
    (quote : Option ℕ) (escaped : Bool) (depth : ℕ)
    → (quote ≡ none → escaped ≡ false)
    → scan (record { quote = quote; escaped = escaped; depth = depth }) s ≡ ok (outside 0)
    → Rest quote escaped depth s

abbrev Reads : Outcome ArgumentError Action → Bytes → Type 0
Reads action s = added action (λ state. scan state s) ≡ ok (outside 0)

-- A byte outside quotes, by the tests that the loop makes of it.
plain_byte :
    (q p r k : Bool) (d c : ℕ) (s : Bytes)
    → is_quote c ≡ q
    → c == b'(' ≡ p
    → c == b')' ≡ r
    → c == b',' ≡ k
    → Ahead s
    → Reads
        (if q
          then ok (add (in_string c false d))
          else if p
          then ok (add (outside (suc d)))
          else if r
          then close_paren d
          else if k
          then ok (comma d)
          else ok (add (outside d)))
        s
    → Argued d (c ∷ s)
plain_byte true p r k d c s is e f g ahead h =
    let (body, rest, cut_at, written, argued) = ahead (some c) false d (λ e. cc) h in
    rw cut_at (Argued.string c is written argued)
plain_byte false true r k d c s is e f g ahead h =
    rw ((==_iff c b'(').0 e) (Argued.opening (ahead none false (suc d) (λ e. refl) h))
plain_byte false false true k zero c s is e f g ahead h = cc
plain_byte false false true k (suc d) c s is e f g ahead h =
    rw ((==_iff c b')').0 f) (Argued.closing (ahead none false d (λ e. refl) h))
plain_byte false false false true zero c s is e f g ahead h = cc
plain_byte false false false true (suc d) c s is e f g ahead h =
    rw ((==_iff c b',').0 g) (Argued.inner_comma (ahead none false (suc d) (λ e. refl) h))
plain_byte false false false false d c s is e f g ahead h =
    Argued.plain c (is, e, f, g) (ahead none false d (λ e. refl) h)

quoted_byte :
    (escape ends : Bool) (q d c : ℕ) (s : Bytes)
    → c == b'\\' ≡ escape
    → c == q ≡ ends
    → Ahead s
    → Reads
        (if escape
          then ok (add (in_string q true d))
          else if ends
          then ok (add (outside d))
          else ok (add (in_string q false d)))
        s
    → Closes q d (c ∷ s)
quoted_byte true ends q d c s is e ahead h =
    let (taken, t, cut_at, (body, rest, text, written, argued)) =
      ahead (some q) true d (λ e. cc) h in
    (
      b'\\' ∷ taken ∷ body,
      rest,
      rw ((==_iff c b'\\').0 is) (rw cut_at (rw text refl)),
      Body.escape taken written,
      argued,
    )
quoted_byte false true q d c s is e ahead h =
    (q ∷ [], s, ap (λ x. x ∷ s) ((==_iff c q).0 e), Body.closing, ahead none false d (λ e. refl) h)
quoted_byte false false q d c s is e ahead h =
    let (body, rest, text, written, argued) = ahead (some q) false d (λ e. cc) h in
    (c ∷ body, rest, ap (λ t. c ∷ t) text, Body.byte c is e written, argued)

outside_end : (d : ℕ) → outside d ≡ outside 0 → Argued d []
outside_end d h = subst (λ n. Argued n []) (ap (λ (st : ScanState). st.depth) (sym h)) Argued.done

scan-Ahead : (s : Bytes) → Ahead s
unfolding scan advance_in
scan-Ahead [] none true d tidy h = cc (tidy refl)
scan-Ahead [] none false d tidy h = outside_end d (ok_inj h)
scan-Ahead [] (some q) escaped d tidy h = cc
scan-Ahead (c ∷ s) none true d tidy h = cc (tidy refl)
scan-Ahead (c ∷ s) none false d tidy h =
    plain_byte (is_quote c) (c == b'(') (c == b')') (c == b',') d c s refl refl refl refl
      (scan-Ahead s) h
scan-Ahead (c ∷ s) (some q) false d tidy h =
    quoted_byte (c == b'\\') (c == q) q d c s refl refl (scan-Ahead s) h
scan-Ahead (c ∷ s) (some q) true d tidy h = (c, s, refl, scan-Ahead s (some q) false d (λ e. cc) h)

parts-Argued : (parts : List Bytes) → All IsPart parts → All (λ t. Argued 0 t) parts
parts-Argued [] all = tt
parts-Argued (part ∷ parts) all =
    (scan-Ahead part none false 0 (λ e. refl) all.0, parts-Argued parts all.1)

parts-IsPart : (parts : List Bytes) → All (λ t. Argued 0 t) parts → All IsPart parts
parts-IsPart [] all = tt
parts-IsPart (part ∷ parts) all = (scan-Argued all.0, parts-IsPart parts all.1)

-- An argument list is split into parts exactly when it is made of them, one comma between two: of
-- texts in which every string and parenthesis is closed, by the grammar of strings with their
-- escapes, and every comma stands inside one. The parts are these texts without the white space
-- around them.
pub split_arguments_iff :
    (text : Bytes) (parts : List Bytes)
    → (split_arguments text ≡ ok parts) ↔ (
        (raw : Bytes) × (raws : List Bytes) × All (λ t. Argued 0 t) (raw ∷ raws)
        × (text ≡ join (raw ∷ raws) (b',' ∷ []))
        × (parts ≡ map trim_space (raw ∷ raws)))
split_arguments_iff text parts =
    let (read, write) = split_arguments-Parts text parts in
    (
      λ h.
          let (raw, raws, all, is, are) = read h in
          (raw, raws, parts-Argued (raw ∷ raws) all, is, are),
      λ (raw, raws, all, is, are). write (raw, raws, parts-IsPart (raw ∷ raws) all, is, are),
    )
