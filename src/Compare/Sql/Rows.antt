-- ===== src/Compare/Sql/Rows.antt =====
-- `readStringRows` of diagnosis/compare/compare_repository.go and the texts that are made of its
-- rows. A cell is a sql.NullString.
use optimizer_canary_service.Base.{
  ◌⊎◌, inl, inr, Option, none, some, List, [], ◌∷◌, ◌++◌, map, Outcome, ok, err, panic, ◌>>=◌,
}
use optimizer_canary_service.Text.{Bytes, codes}
use optimizer_canary_service.Text.Split.{join}

-- What `*sql.Rows` answers: its columns, each row or the error of its scan, the error after them.
pub record RowSet (E : Type 0) : Type 0 where
  pub columns : Outcome E (List Bytes)
  pub rows : List (E ⊎ List (Option Bytes))
  pub rows_err : Option E

pub data ReadError (E : Type 0) : Type 0 where
  read_columns scan_row read_rows : E → ReadError E

abbrev pub Table : Type 0
Table = List Bytes × List (List Bytes)

-- `sql.NullString.String`: empty where the cell is NULL.
abbrev pub cell_text : Option Bytes → Bytes
cell_text none = []
cell_text (some text) = text

module _ {E : Type 0} where
  abbrev pub after_rows : Option E → Outcome (ReadError E) (List (List Bytes))
  after_rows none = ok []
  after_rows (some e) = err (read_rows e)

  -- The loop over the rows.
  unfoldable pub collect_rows :
      List (E ⊎ List (Option Bytes)) → Option E → Outcome (ReadError E) (List (List Bytes))
  collect_rows [] rows_err = after_rows rows_err
  collect_rows (inl e ∷ rows) rows_err = err (scan_row e)
  collect_rows (inr cells ∷ rows) rows_err =
      collect_rows rows rows_err >>= λ rest. ok (map cell_text cells ∷ rest)

  unfoldable pub read_from :
      Outcome E (List Bytes)
      → List (E ⊎ List (Option Bytes))
      → Option E
      → Outcome (ReadError E) Table
  unfolding collect_rows
  read_from panic rows rows_err = panic
  read_from (err e) rows rows_err = err (read_columns e)
  read_from (ok columns) rows rows_err =
      collect_rows rows rows_err >>= λ values. ok (columns, values)

  unfoldable pub read_string_rows : RowSet E → Outcome (ReadError E) Table
  unfolding read_from
  read_string_rows set = read_from set.columns set.rows set.rows_err

-- The lines of a plan: the columns and the rows, with tabs.
unfoldable pub plan_text : Table → Bytes
unfolding join
plan_text (columns, rows) =
    join (join columns (b'\t' ∷ []) ∷ map (λ row. join row (b'\t' ∷ [])) rows) (b'\n' ∷ [])

-- One line for each cell of a row, `column: value`; a row has no more cells than there are columns.
abbrev pub binding_row : List Bytes → List Bytes → Bytes
binding_row columns [] = []
binding_row [] (value ∷ values) = []
binding_row (column ∷ columns) (value ∷ values) =
    column ++ codes ": " ++ value ++ codes "\n" ++ binding_row columns values

unfoldable pub binding_text : Table → Bytes
unfolding join
binding_text (columns, rows) = join (map (λ row. binding_row columns row) rows) (b'\n' ∷ [])
