-- ===== src/Prepare/Insert.antt =====
-- `quoteIdentifier` and `insertRows` of prepare/tpcc_schema.go. `V` is the type of an argument, `S`
-- the state of the connection, whose `ExecContext` is a parameter.
use optimizer_canary_service.Base.{
  ℕ, zero, suc, ◌+◌, ◌-◌, ◌*◌, ◌/◌, Option, none, some, List, [], ◌∷◌, ◌++◌, map, ◌==◌,
  if◌then◌else◌, length, take, drop,
}
use optimizer_canary_service.Text.{Bytes, codes}
use optimizer_canary_service.Text.Split.{join, replace_all}

unfoldable pub quote_identifier : Bytes → Bytes
unfolding replace_all
quote_identifier identifier = b'`' ∷ (replace_all identifier b'`' (codes "``") ++ b'`' ∷ [])

abbrev pub insert_batch_size : ℕ
insert_batch_size = 1000

-- The errors of `insertRows`: a row with another number of values than there are columns, and a
-- statement that failed, with the range of its rows.
pub data InsertError (E : Type 0) : Type 0 where
  wrong_width : ℕ → InsertError E
  insert_failed : ℕ → ℕ → E → InsertError E

abbrev pub placeholders : ℕ → Bytes
placeholders zero = []
placeholders (suc zero) = b'?' ∷ []
placeholders (suc (suc n)) = b'?' ∷ b',' ∷ placeholders (suc n)

abbrev pub row_text : ℕ → Bytes
row_text width = b'(' ∷ (placeholders width ++ b')' ∷ [])

module _ {V : Type 0} where
  abbrev pub append_rows : List (List V) → List V
  append_rows [] = []
  append_rows (row ∷ rows) = row ++ append_rows rows

  -- The first row whose width is not that of the columns.
  unfoldable pub wrong_row : ℕ → List (List V) → Option ℕ
  wrong_row width [] = none
  wrong_row width (row ∷ rows) =
      let later = wrong_row width rows in if length row == width then later else some (length row)

  -- The text of one statement.
  unfoldable pub insert_query : Bytes → List Bytes → List (List V) → Bytes
  unfolding quote_identifier join
  insert_query table columns rows =
      codes "INSERT IGNORE INTO "
      ++ quote_identifier table
      ++ codes " ("
      ++ join (map quote_identifier columns) (codes ",")
      ++ codes ") VALUES "
      ++ join (map (λ row. row_text (length row)) rows) (codes ",")

  module _ {S E : Type 0} (exec_context : Bytes → List V → S → Option E × S) where
    abbrev pub after_exec :
        Option E → ℕ → ℕ → S → Option (InsertError E) × S → Option (InsertError E) × S
    after_exec (some e) start end s rest = (some (insert_failed start (end - 1) e), s)
    after_exec none start end s rest = rest

    abbrev pub unless_wrong : Option ℕ → S → Option (InsertError E) × S → Option (InsertError E) × S
    unless_wrong (some width) s rest = (some (wrong_width width), s)
    unless_wrong none s rest = rest

    -- The loop over the batches, from `start`; each takes at least one row, so that their number
    -- is fuel enough.
    unfoldable pub insert_batches :
        ℕ → Bytes → List Bytes → ℕ → List (List V) → S → Option (InsertError E) × S
    unfolding insert_query wrong_row
    insert_batches fuel table columns start [] s = (none, s)
    insert_batches zero table columns start (row ∷ rows) s = (none, s)
    insert_batches (suc fuel) table columns start (row ∷ rows) s =
        let batch = take insert_batch_size (row ∷ rows) in
        let (failed, s') = exec_context (insert_query table columns batch) (append_rows batch) s in
        let rest =
          insert_batches fuel table columns (start + insert_batch_size)
            (drop insert_batch_size (row ∷ rows)) s' in
        unless_wrong (wrong_row (length columns) batch) s
          (after_exec failed start (start + length batch) s' rest)

    unfoldable pub insert_rows : Bytes → List Bytes → List (List V) → S → Option (InsertError E) × S
    unfolding insert_batches
    insert_rows table columns rows s = insert_batches (length rows) table columns 0 rows s

-- `tpccFixtureRowCount`.
abbrev pub warehouse_count : ℕ
warehouse_count = 100

abbrev pub district_count : ℕ
district_count = 10

abbrev pub customer_count : ℕ
customer_count = 1000

abbrev pub order_count : ℕ
order_count = 1000

abbrev pub order_lines_per_order : ℕ
order_lines_per_order = 5

abbrev pub item_count : ℕ
item_count = 1000

unfoldable pub tpcc_fixture_row_count : ℕ
tpcc_fixture_row_count =
    warehouse_count
      * (1
          + district_count
          + customer_count
          + order_count
          + order_count * 3 / 10
          + order_count * order_lines_per_order
          + item_count)
    + item_count
