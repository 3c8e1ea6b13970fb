-- ===== src/Prepare/Inserted.antt =====
-- Every row is inserted once, in batches, and quoted identifiers are read back.
use optimizer_canary_service.Base.{
  ℕ, zero, suc, ◌+◌, ◌*◌, ◌≤◌, ◌≡◌, refl, sym, ap, ◌∙◌, ◌≢◌, inl, inr, Option, none, List, [], ◌∷◌,
  ◌++◌, append-nil, append_assoc, arith, ◌==◌, if◌then◌else◌, Bool-cases, length, take, drop,
  length-append, take-append-drop, length-drop, All, All-append,
}
use optimizer_canary_service.Text.{Bytes, codes}
use optimizer_canary_service.Text.Split.{replace_all}
use native.Mathlib.Nat.{suc-mul}
use optimizer_canary_service.Prepare.Insert.{
  quote_identifier, insert_batch_size, append_rows, wrong_row, insert_query, insert_batches,
  insert_rows, InsertError,
}

-- What stands between the quotes, read as TiDB reads it: two backticks are one, a single one ends
-- the identifier.
unfoldable pub read_quoted : Bytes → Bytes × Bytes
read_quoted [] = ([], [])
read_quoted (c ∷ []) = if c == b'`' then ([], []) else (c ∷ [], [])
read_quoted (c ∷ d ∷ s) =
    let two = read_quoted s in
    let one = read_quoted (d ∷ s) in
    if c == b'`'
    then (if d == b'`' then (b'`' ∷ two.0, two.1) else ([], d ∷ s))
    else (c ∷ one.0, one.1)

read_quoted-other :
    (x : ℕ) (t : Bytes)
    → x ≢ b'`'
    → read_quoted (x ∷ t) ≡ (x ∷ (read_quoted t).0, (read_quoted t).1)
unfolding read_quoted
read_quoted-other x [] h = ground (arith, h)
read_quoted-other x (d ∷ t) h = ground (arith, h)

read_quoted-replace_all :
    (s : Bytes) (c : ℕ) (rest : Bytes)
    → c ≢ b'`'
    → read_quoted (replace_all s b'`' (codes "``") ++ b'`' ∷ c ∷ rest) ≡ (s, c ∷ rest)
unfolding read_quoted replace_all
read_quoted-replace_all [] c rest h = ground (arith, h)
read_quoted-replace_all (x ∷ s) c rest h = elim (Bool-cases (x == b'`')) [
  | inl is ↦
      let same : x ≡ b'`' = ground (arith, is) in
      rw is (rw (read_quoted-replace_all s c rest h) (ap (λ y. (y ∷ s, c ∷ rest)) (sym same)))
  | inr other ↦ rw other (
      read_quoted-other x (replace_all s b'`' (codes "``") ++ b'`' ∷ c ∷ rest)
        (ground (arith, other))
      ∙ ap (λ r. (x ∷ r.0, r.1)) (read_quoted-replace_all s c rest h))
]

-- An identifier that is quoted and followed by a text that begins with no backtick is read back,
-- whatever it holds, and the text is left.
pub quote_identifier_lem :
    (identifier : Bytes) (c : ℕ) (rest : Bytes)
    → c ≢ b'`'
    → (text : Bytes) × (quote_identifier identifier ++ c ∷ rest ≡ b'`' ∷ text)
      × (read_quoted text ≡ (identifier, c ∷ rest))
unfolding quote_identifier
quote_identifier_lem identifier c rest h = (
  replace_all identifier b'`' (codes "``") ++ b'`' ∷ [] ++ c ∷ rest,
  refl,
  rw (append_assoc (replace_all identifier b'`' (codes "``")) (b'`' ∷ []) (c ∷ rest))
      (read_quoted-replace_all identifier c rest h),
)

none_left : {n : ℕ} → suc n ≤ 0 → ⊥
none_left h = omega (arith, h)

module _ {V : Type 0} where
  -- A connection on which every statement succeeds, and which notes each with its arguments.
  abbrev pub noting :
      Bytes → List V → List (Bytes × List V) → Option (Unit {0}) × List (Bytes × List V)
  noting query arguments s = (none, s ++ (query, arguments) ∷ [])

  abbrev pub arguments_of : List (Bytes × List V) → List V
  arguments_of [] = []
  arguments_of (statement ∷ statements) = statement.1 ++ arguments_of statements

  arguments_of-append :
      (xs ys : List (Bytes × List V)) → arguments_of (xs ++ ys) ≡ arguments_of xs ++ arguments_of ys
  arguments_of-append [] ys = refl
  arguments_of-append (x ∷ xs) ys =
      ap (λ t. x.1 ++ t) (arguments_of-append xs ys)
      ∙ sym (append_assoc x.1 (arguments_of xs) (arguments_of ys))

  append_rows-append :
      (xs ys : List (List V)) → append_rows (xs ++ ys) ≡ append_rows xs ++ append_rows ys
  append_rows-append [] ys = refl
  append_rows-append (x ∷ xs) ys =
      ap (λ t. x ++ t) (append_rows-append xs ys)
      ∙ sym (append_assoc x (append_rows xs) (append_rows ys))

  abbrev pub Wide : ℕ → List (List V) → Type 0
  Wide width rows = All (λ row. length row ≡ width) rows

  pub wrong_row-take :
      (n width : ℕ) (rows : List (List V)) → Wide width rows → wrong_row width (take n rows) ≡ none
  unfolding wrong_row
  wrong_row-take zero width rows h = refl
  wrong_row-take (suc n) width [] h = refl
  wrong_row-take (suc n) width (row ∷ rows) h = ground (arith, h.0, wrong_row-take n width rows h.1)

  pub Wide-drop : (n width : ℕ) (rows : List (List V)) → Wide width rows → Wide width (drop n rows)
  Wide-drop zero width rows h = h
  Wide-drop (suc n) width [] h = tt
  Wide-drop (suc n) width (row ∷ rows) h = Wide-drop n width rows h.1

  length-append_rows :
      (n width : ℕ) (rows : List (List V))
      → Wide width rows
      → length (append_rows (take n rows)) ≤ n * width
  length-append_rows zero width rows h = omega arith
  length-append_rows (suc n) width [] h = omega arith
  length-append_rows (suc n) width (row ∷ rows) h =
      let n_rows : suc n * width ≡ n * width + width = suc-mul n width in
      omega (
        arith,
        n_rows,
        h.0,
        length-append row (append_rows (take n rows)),
        length-append_rows n width rows h.1,
      )

  -- What the loop does on a connection where every statement succeeds.
  abbrev Inserts :
      ℕ
      → List (Bytes × List V)
      → List (List V)
      → Option (InsertError (Unit {0})) × List (Bytes × List V)
      → Type 0
  Inserts width s rows (error, s') =
      (error ≡ none)
      × (arguments_of s' ≡ arguments_of s ++ append_rows rows)
      × (All (λ statement. length statement.1 ≤ insert_batch_size * width) s')

  insert_batches-Inserts :
      (fuel : ℕ) (table : Bytes) (columns : List Bytes) (start : ℕ) (rows : List (List V))
      (s : List (Bytes × List V))
      → length rows ≤ fuel
      → Wide (length columns) rows
      → All (λ statement. length statement.1 ≤ insert_batch_size * length columns) s
      → Inserts (length columns) s rows (insert_batches noting fuel table columns start rows s)
  unfolding insert_batches
  insert_batches-Inserts fuel table columns start [] s enough wide small =
      (refl, sym (append-nil (arguments_of s)), small)
  insert_batches-Inserts zero table columns start (row ∷ rows) s enough wide small =
      elim (none_left enough) [ ]
  insert_batches-Inserts (suc fuel) table columns start (row ∷ rows) s enough wide small =
      let batch = take insert_batch_size (row ∷ rows) in
      let rest = drop insert_batch_size (row ∷ rows) in
      let query = insert_query table columns batch in
      let s1 = s ++ (query, append_rows batch) ∷ [] in
      let noted : arguments_of s1 ≡ arguments_of s ++ append_rows batch =
        arguments_of-append s ((query, append_rows batch) ∷ [])
        ∙ ap (λ t. arguments_of s ++ t) (append-nil (append_rows batch)) in
      let parts : append_rows batch ++ append_rows rest ≡ append_rows (row ∷ rows) =
        sym (append_rows-append batch rest)
        ∙ ap append_rows (take-append-drop insert_batch_size (row ∷ rows)) in
      let small1 =
        All-append (λ statement. length statement.1 ≤ insert_batch_size * length columns) s
          ((query, append_rows batch) ∷ []) small
          (length-append_rows insert_batch_size (length columns) (row ∷ rows) wide, tt) in
      let (fine, all, each) =
        insert_batches-Inserts fuel table columns (start + insert_batch_size) rest s1
          (omega (arith, length-drop insert_batch_size (row ∷ rows), enough))
          (Wide-drop insert_batch_size (length columns) (row ∷ rows) wide) small1 in
      rw (wrong_row-take insert_batch_size (length columns) (row ∷ rows) wide) (
        fine,
        all
            ∙ ap (λ t. t ++ append_rows rest) noted
            ∙ append_assoc (arguments_of s) (append_rows batch) (append_rows rest)
            ∙ ap (λ t. arguments_of s ++ t) parts,
        each,
      )

  -- Where every row has a value for each column and no statement fails, `insertRows` reports no
  -- error, its statements carry the values of all rows, each once and in order, and no statement
  -- carries more values than 1000 rows have.
  pub insert_rows-Inserts :
      (table : Bytes) (columns : List Bytes) (rows : List (List V))
      → Wide (length columns) rows
      → ((insert_rows noting table columns rows []).0 ≡ none)
        × (arguments_of (insert_rows noting table columns rows []).1 ≡ append_rows rows)
        × (All
            (λ statement. length statement.1 ≤ insert_batch_size * length columns)
            (insert_rows noting table columns rows []).1)
  unfolding insert_rows
  insert_rows-Inserts table columns rows wide =
      insert_batches-Inserts (length rows) table columns 0 rows [] (omega arith) wide tt
