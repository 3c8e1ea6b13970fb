-- ===== src/Compare/Samples/Parted.antt =====
-- How the arguments of an annotation are told apart.
use optimizer_canary_service.Base.{
  ℕ, zero, suc, ◌≡◌, refl, sym, ap, ◌∙◌, ◌↔◌, Bool, true, false, Option, none, some, List, [], ◌∷◌,
  ◌++◌, map, append-nil, append_assoc, arith, ◌==◌, if◌then◌else◌, All, Outcome, ok, err, panic,
  ◌>>=◌, bind_ok,
}
use optimizer_canary_service.Text.{Bytes}
use mathlib.Core.Path.{subst}
use optimizer_canary_service.Text.Trim.{trim_space}
use optimizer_canary_service.Text.Split.{join}
use optimizer_canary_service.Compare.Samples.Scanner.{
  ArgumentError, ScanState, outside, Action, add, cut, advance_in, advance, finish, split_from,
  split_arguments, comma, close_paren, is_quote,
}

abbrev pub added :
    Outcome ArgumentError Action
    → (ScanState → Outcome ArgumentError ScanState)
    → Outcome ArgumentError ScanState
added (ok (add state)) next = next state
added (ok cut) next = panic
added (err e) next = err e
added panic next = panic

-- A part that is read from the first byte to the last, without a comma that ends it.
unfoldable pub scan : ScanState → Bytes → Outcome ArgumentError ScanState
scan state [] = ok state
scan state (c ∷ s) = added (advance state c) (λ state'. scan state' s)

-- Its quotes and parentheses are closed as well.
abbrev pub IsPart : Bytes → Type 0
IsPart part = scan (outside 0) part ≡ ok (outside 0)

scan_none : {state : ScanState} → scan state [] ≡ ok state
unfolding scan
scan_none = refl

pub ok_inj : {x y : ScanState} → ◌≡◌ {A = Outcome ArgumentError ScanState} (ok x) (ok y) → x ≡ y
ok_inj h = cc

added-append :
    (action : Outcome ArgumentError Action) (state' : ScanState) (s t : Bytes)
    → ((state : ScanState) → scan state s ≡ ok state' → scan state (s ++ t) ≡ scan state' t)
    → added action (λ state. scan state s) ≡ ok state'
    → added action (λ state. scan state (s ++ t)) ≡ scan state' t
added-append (ok (add state)) state' s t ih h = ih state h
added-append (ok cut) state' s t ih h = cc
added-append (err e) state' s t ih h = cc
added-append panic state' s t ih h = cc

scan-append :
    (state state' : ScanState) (s t : Bytes)
    → scan state s ≡ ok state'
    → scan state (s ++ t) ≡ scan state' t
unfolding scan
scan-append state state' [] t h = ap (λ st. scan st t) (ok_inj h)
scan-append state state' (c ∷ s) t h =
    added-append (advance state c) state' s t (λ st k. scan-append st state' s t k) h

-- Outside quotes nothing is escaped.
abbrev IsTidy : ScanState → Type 0
IsTidy state = state.quote ≡ none → state.escaped ≡ false

abbrev ActionIsTidy : Outcome ArgumentError Action → Type 0
ActionIsTidy (ok (add state)) = IsTidy state
ActionIsTidy _ = Unit

if-ActionIsTidy :
    (b : Bool) (x y : Outcome ArgumentError Action)
    → ActionIsTidy x
    → ActionIsTidy y
    → ActionIsTidy (if b then x else y)
if-ActionIsTidy true x y h k = h
if-ActionIsTidy false x y h k = k

close_paren-ActionIsTidy : (depth : ℕ) → ActionIsTidy (close_paren depth)
close_paren-ActionIsTidy zero = tt
close_paren-ActionIsTidy (suc depth) = λ _. refl

comma-ActionIsTidy : (depth : ℕ) → ActionIsTidy (ok (comma depth))
comma-ActionIsTidy zero = tt
comma-ActionIsTidy (suc depth) = λ _. refl

advance-IsTidy :
    (quote : Option ℕ) (escaped : Bool) (depth c : ℕ)
    → (quote ≡ none → escaped ≡ false)
    → ActionIsTidy (advance_in quote escaped depth c)
unfolding advance_in
advance-IsTidy (some q) true depth c h = λ e. refl
advance-IsTidy (some q) false depth c h =
    if-ActionIsTidy (c == b'\\') _ _ (λ e. cc)
      (if-ActionIsTidy (c == q) _ _ (λ e. refl) (λ e. refl))
advance-IsTidy none escaped depth c h =
    if-ActionIsTidy (is_quote c) _ _ (λ e. cc)
      (if-ActionIsTidy (c == b'(') _ _ (λ e. h refl)
        (if-ActionIsTidy (c == b')') _ _ (close_paren-ActionIsTidy depth)
          (if-ActionIsTidy (c == b',') _ _ (comma-ActionIsTidy depth) (λ e. h refl))))

cut-outside :
    (quote : Option ℕ) (escaped : Bool) (depth c : ℕ)
    → (quote ≡ none → escaped ≡ false)
    → advance_in quote escaped depth c ≡ ok cut
    → (c ≡ b',') × (quote ≡ none) × (escaped ≡ false) × (depth ≡ 0)
unfolding advance_in
cut-outside (some q) true depth c h k = cc
cut-outside (some q) false depth c h k = ground (arith, k)
cut-outside none escaped zero c h k = (ground (arith, k), refl, h refl, refl)
cut-outside none escaped (suc depth) c h k = ground (arith, k)

-- What a text is made of, with the beginning of its first part read.
abbrev Parts : Bytes → List Bytes → Type 0
Parts text parts =
    (raw : Bytes) × (raws : List Bytes) × All IsPart (raw ∷ raws)
    × (text ≡ join (raw ∷ raws) (b',' ∷ []))
    × (parts ≡ map trim_space (raw ∷ raws))

finish-Parts :
    (quote : Option ℕ) (escaped : Bool) (depth : ℕ) (part : Bytes) {parts : List Bytes}
    → (quote ≡ none → escaped ≡ false)
    → scan (outside 0) part ≡ ok (record { quote = quote; escaped = escaped; depth = depth })
    → finish quote depth part ≡ ok parts
    → Parts (part ++ []) parts
unfolding join
finish-Parts (some q) escaped depth part tidy read h = cc
finish-Parts none escaped (suc depth) part tidy read h = cc
finish-Parts none true zero part tidy read h = cc (tidy refl)
finish-Parts none false zero part tidy read h = (part, [], (read, tt), append-nil part, cc)

scan-snoc :
    (state state' : ScanState) (part : Bytes) (c : ℕ)
    → scan (outside 0) part ≡ ok state
    → advance state c ≡ ok (add state')
    → scan (outside 0) (part ++ c ∷ []) ≡ ok state'
unfolding scan
scan-snoc state state' part c read h =
    scan-append (outside 0) state part (c ∷ []) read ∙ ap (λ o. added o (λ st. ok st)) h

-- What the loop does with an action, its two recursive calls given.
abbrev acted :
    Outcome ArgumentError Action
    → (ScanState → Outcome ArgumentError (List Bytes))
    → Outcome ArgumentError (List Bytes)
    → Outcome ArgumentError (List Bytes)
acted action more later = action >>= λ a. elim a [ add state ↦ more state | cut ↦ later ]

acted-Parts :
    (action : Outcome ArgumentError Action) (state : ScanState) (part : Bytes) (c : ℕ) (s : Bytes)
    {parts : List Bytes}
    → IsTidy state
    → scan (outside 0) part ≡ ok state
    → advance state c ≡ action
    → ((st : ScanState) (p : Bytes) (ps : List Bytes)
        → IsTidy st
        → scan (outside 0) p ≡ ok st
        → split_from st p s ≡ ok ps
        → Parts (p ++ s) ps)
    → acted action
        (λ st. split_from st (part ++ c ∷ []) s)
        (split_from (outside 0) [] s >>= λ ps. ok (trim_space part ∷ ps))
      ≡ ok parts
    → Parts (part ++ c ∷ s) parts
unfolding join
acted-Parts panic state part c s tidy read is ih h = cc
acted-Parts (err e) state part c s tidy read is ih h = cc
acted-Parts (ok (add st)) state part c s {parts} tidy read is ih h =
    let kept : IsTidy st =
      subst ActionIsTidy is (advance-IsTidy state.quote state.escaped state.depth c tidy) in
    rw (← (append_assoc part (c ∷ []) s))
      (ih st (part ++ c ∷ []) parts kept (scan-snoc state st part c read is) h)
acted-Parts (ok cut) state part c s {parts} tidy read is ih h =
    let (comma, no_quote, plain, shallow) =
      cut-outside state.quote state.escaped state.depth c tidy is in
    let (ps, returned, same) =
      bind_ok (split_from (outside 0) [] s) (λ ps. ok (trim_space part ∷ ps)) h in
    let (raw, raws, all, text, trimmed) = ih (outside 0) [] ps (λ e. refl) scan_none returned in
    let parts_are : parts ≡ trim_space part ∷ ps = cc in
    let state_is : state ≡ outside 0 = ground (arith, no_quote, plain, shallow) in
    (
      part,
      raw ∷ raws,
      (read ∙ ap (λ st. ok st) state_is, all),
      rw (comma, append_assoc part (b',' ∷ []) (join (raw ∷ raws) (b',' ∷ [])))
          (ap (λ t. part ++ b',' ∷ t) text),
      parts_are ∙ ap (λ t. trim_space part ∷ t) trimmed,
    )

split_from-Parts :
    (state : ScanState) (part s : Bytes) {parts : List Bytes}
    → IsTidy state
    → scan (outside 0) part ≡ ok state
    → split_from state part s ≡ ok parts
    → Parts (part ++ s) parts
unfolding split_from
split_from-Parts state part [] tidy read h =
    finish-Parts state.quote state.escaped state.depth part tidy read h
split_from-Parts state part (c ∷ s) tidy read h =
    acted-Parts (advance state c) state part c s tidy read refl
      (λ st p ps t r k. split_from-Parts st p s t r k) h

acted-scanned :
    (action : Outcome ArgumentError Action) (state' : ScanState) (part : Bytes) (c : ℕ)
    (p s : Bytes) (later : Outcome ArgumentError (List Bytes))
    → ((st : ScanState)
        → scan st p ≡ ok state'
        → split_from st (part ++ c ∷ []) (p ++ s) ≡ split_from state' ((part ++ c ∷ []) ++ p) s)
    → added action (λ st. scan st p) ≡ ok state'
    → acted action (λ st. split_from st (part ++ c ∷ []) (p ++ s)) later
      ≡ split_from state' (part ++ c ∷ p) s
acted-scanned (ok (add st)) state' part c p s later ih h =
    ih st h ∙ ap (λ q. split_from state' q s) (append_assoc part (c ∷ []) p)
acted-scanned (ok cut) state' part c p s later ih h = cc
acted-scanned (err e) state' part c p s later ih h = cc
acted-scanned panic state' part c p s later ih h = cc

split_from-scanned :
    (state state' : ScanState) (part p s : Bytes)
    → scan state p ≡ ok state'
    → split_from state part (p ++ s) ≡ split_from state' (part ++ p) s
unfolding scan split_from
split_from-scanned state state' part [] s h =
    ap (λ st. split_from st part s) (ok_inj h)
    ∙ ap (λ q. split_from state' q s) (sym (append-nil part))
split_from-scanned state state' part (c ∷ p) s h =
    acted-scanned (advance state c) state' part c p s
      (split_from (outside 0) [] (p ++ s) >>= λ ps. ok (trim_space part ∷ ps))
      (λ st k. split_from-scanned st state' (part ++ c ∷ []) p s k) h

join-Parts :
    (raw : Bytes) (raws : List Bytes)
    → All IsPart (raw ∷ raws)
    → split_from (outside 0) [] (join (raw ∷ raws) (b',' ∷ [])) ≡ ok (map trim_space (raw ∷ raws))
unfolding join split_from
join-Parts raw [] all =
    ap (λ t. split_from (outside 0) [] t) (sym (append-nil raw))
    ∙ split_from-scanned (outside 0) (outside 0) [] raw [] all.0
join-Parts raw (next ∷ raws) all =
    let rest = join (next ∷ raws) (b',' ∷ []) in
    ap (λ t. split_from (outside 0) [] t) (append_assoc raw (b',' ∷ []) rest)
    ∙ split_from-scanned (outside 0) (outside 0) [] raw (b',' ∷ rest) all.0
    ∙ ap (λ o. o >>= λ ps. ok (trim_space raw ∷ ps)) (join-Parts next raws all.1)

-- The loop cuts a text at its commas that stand outside quotes and parentheses, as `scan` counts them.
pub split_arguments-Parts :
    (text : Bytes) (parts : List Bytes)
    → (split_arguments text ≡ ok parts) ↔ (
        (raw : Bytes) × (raws : List Bytes) × All IsPart (raw ∷ raws)
        × (text ≡ join (raw ∷ raws) (b',' ∷ []))
        × (parts ≡ map trim_space (raw ∷ raws)))
unfolding split_arguments
split_arguments-Parts text parts = (
  (λ h. split_from-Parts (outside 0) [] text (λ e. refl) scan_none h),
  λ (raw, raws, all, is, are). rw is (rw are (join-Parts raw raws all)),
)
