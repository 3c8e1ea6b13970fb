-- ===== src/Prepare/Seeded.antt =====
-- The fixture fits its tables: no row is refused for its width.
use optimizer_canary_service.Base.{
  ℕ, zero, suc, ◌+◌, ◌≡◌, refl, ◌≢◌, Option, none, some, List, [], ◌∷◌, ◌++◌, map, ltb, length,
  take, drop, keep, All, All-append,
}
use optimizer_canary_service.Text.{Bytes, codes}
use optimizer_canary_service.Prepare.Ddl.{tpcc_table_ddls}
use optimizer_canary_service.Prepare.Insert.{
  quote_identifier, InsertError, wrong_width, insert_rows, insert_batches, insert_batch_size,
  warehouse_count, after_exec, append_rows, insert_query,
}
use optimizer_canary_service.Prepare.Inserted.{Wide, Wide-drop, wrong_row-take}
use optimizer_canary_service.Prepare.Fixture.{
  Value, Insert, ids, concat_map, fixture_inserts, warehouse_inserts, warehouse_row, district_row,
  item_row, customer_row, order_row, new_order_row, order_line_row, stock_row,
}
use optimizer_canary_service.Prepare.Tiflash.{TiFlashError}
use optimizer_canary_service.Prepare.Schema.{
  SchemaError, insert_table, Stage, go_on, failed_as, each, insert_all, seed_tpcc_warehouse,
  seed_tpcc_data, statement, prepare_tpcc_schema, create_schema, select_schema, create_table,
  replicas, analyze_table, analyzed_tables, create_tables, analyze_tables, stages,
}

Wide-map :
    {A : Type 0} (width : ℕ) (row : A → List Value) (xs : List A)
    → ((x : A) → length (row x) ≡ width)
    → Wide width (map row xs)
Wide-map width row [] h = tt
Wide-map width row (x ∷ xs) h = (h x, Wide-map width row xs h)

Wide-concat_map :
    (width : ℕ) (rows : ℕ → List (List Value)) (ns : List ℕ)
    → ((n : ℕ) → Wide width (rows n))
    → Wide width (concat_map rows ns)
unfolding concat_map
Wide-concat_map width rows [] h = tt
Wide-concat_map width rows (n ∷ ns) h =
    All-append (λ row. length row ≡ width) (rows n) (concat_map rows ns) (h n)
      (Wide-concat_map width rows ns h)

-- The rows of an insert have a value for each of its columns.
abbrev Fits : Insert → Type 0
Fits i = Wide (length i.columns) i.rows

fixture_inserts-Fits : All Fits fixture_inserts
unfolding fixture_inserts
fixture_inserts-Fits = (
  Wide-map 9 (λ w. warehouse_row w) (ids 1 100) (λ w. refl),
  (
    Wide-concat_map 11 (λ w. map (λ d. district_row w d) (ids 1 10)) (ids 1 100)
        (λ w. Wide-map 11 (λ d. district_row w d) (ids 1 10) (λ d. refl)),
    (Wide-map 5 (λ id. item_row id) (ids 1 1000) (λ id. refl), tt),
  ),
)

warehouse_inserts-Fits : (w : ℕ) → All Fits (warehouse_inserts w)
unfolding warehouse_inserts
warehouse_inserts-Fits w = (
  Wide-map 21 (λ id. customer_row w id) (ids 1 1000) (λ id. refl),
  (
    Wide-map 8 (λ id. order_row w id) (ids 1 1000) (λ id. refl),
    (
      Wide-map 3 (λ id. new_order_row w id) (keep (λ id. ltb 700 id) (ids 1 1000)) (λ id. refl),
      (
        Wide-concat_map 10 (λ id. map (λ line. order_line_row w id line) (ids 1 5)) (ids 1 1000)
            (λ id. Wide-map 10 (λ line. order_line_row w id line) (ids 1 5) (λ line. refl)),
        (Wide-map 17 (λ id. stock_row w id) (ids 1 1000) (λ id. refl), tt),
      ),
    ),
  ),
)

module _ {S E : Type 0} (exec_context : Bytes → List Value → S → Option E × S) where
  -- Not an error that a row has the wrong width.
  abbrev IsSent : Option (InsertError E) → Type 0
  IsSent error = (n : ℕ) → error ≢ some (wrong_width n)

  after_exec-IsSent :
      (failed : Option E) (start end : ℕ) (s : S) (rest : Option (InsertError E) × S)
      → IsSent rest.0
      → IsSent (after_exec exec_context failed start end s rest).0
  after_exec-IsSent none start end s rest h = h
  after_exec-IsSent (some e) start end s rest h = λ n p. cc

  insert_batches-IsSent :
      (fuel : ℕ) (table : Bytes) (columns : List Bytes) (start : ℕ) (rows : List (List Value))
      (s : S)
      → Wide (length columns) rows
      → IsSent (insert_batches exec_context fuel table columns start rows s).0
  unfolding insert_batches
  insert_batches-IsSent fuel table columns start [] s wide = λ n p. cc
  insert_batches-IsSent zero table columns start (row ∷ rows) s wide = λ n p. cc
  insert_batches-IsSent (suc fuel) table columns start (row ∷ rows) s wide =
      let batch = take insert_batch_size (row ∷ rows) in
      let rest = drop insert_batch_size (row ∷ rows) in
      let done = exec_context (insert_query table columns batch) (append_rows batch) s in
      rw (wrong_row-take insert_batch_size (length columns) (row ∷ rows) wide) (
        after_exec-IsSent done.0 start (start + length batch) done.1
          (insert_batches exec_context fuel table columns (start + insert_batch_size) rest done.1)
          (insert_batches-IsSent fuel table columns (start + insert_batch_size) rest done.1
            (Wide-drop insert_batch_size (length columns) (row ∷ rows) wide)))

  insert_rows-IsSent :
      (table : Bytes) (columns : List Bytes) (rows : List (List Value)) (s : S)
      → Wide (length columns) rows
      → IsSent (insert_rows exec_context table columns rows s).0
  unfolding insert_rows
  insert_rows-IsSent table columns rows s wide =
      insert_batches-IsSent (length rows) table columns 0 rows s wide

  -- Not an error that a row of an insert has the wrong width.
  abbrev IsPrepared : Option (SchemaError E) → Type 0
  IsPrepared error = (table : Bytes) (n : ℕ) → error ≢ some (insert_table table (wrong_width n))

  go_on-IsPrepared :
      (first : Option (SchemaError E) × S) (next : Stage S E)
      → IsPrepared first.0
      → ((s : S) → IsPrepared (next s).0)
      → IsPrepared (go_on first next).0
  go_on-IsPrepared (none, s) next h k = k s
  go_on-IsPrepared (some e, s) next h k = h

  each-IsPrepared :
      {A : Type 0} (P : A → Type 0) (act : A → Stage S E) (xs : List A) (s : S)
      → All P xs
      → ((x : A) (s : S) → P x → IsPrepared (act x s).0)
      → IsPrepared (each act xs s).0
  unfolding each
  each-IsPrepared P act [] s h k = λ table n p. cc
  each-IsPrepared P act (x ∷ xs) s h k =
      go_on-IsPrepared (act x s) (λ s'. each act xs s') (k x s h.0)
        (λ s'. each-IsPrepared P act xs s' h.1 k)

  insert_table-IsPrepared :
      (table : Bytes) (result : Option (InsertError E) × S)
      → IsSent result.0
      → IsPrepared (failed_as (insert_table table) result).0
  insert_table-IsPrepared table (none, s) h = λ t n p. cc
  insert_table-IsPrepared table (some e, s) h = λ t n p. h n (cc)

  insert_all-IsPrepared :
      (inserts : List Insert) (s : S)
      → All Fits inserts
      → IsPrepared (insert_all exec_context inserts s).0
  insert_all-IsPrepared inserts s fit =
      each-IsPrepared Fits
        (λ i s.
          failed_as (insert_table i.table) (insert_rows exec_context i.table i.columns i.rows s))
        inserts s fit
        (λ i s wide.
          insert_table-IsPrepared i.table (insert_rows exec_context i.table i.columns i.rows s)
            (insert_rows-IsSent i.table i.columns i.rows s wide))

  All-any : {A : Type 0} (xs : List A) → All (λ x. Unit {0}) xs
  All-any [] = tt
  All-any (x ∷ xs) = (tt, All-any xs)

  seed_tpcc_data-IsPrepared : (s : S) → IsPrepared (seed_tpcc_data exec_context s).0
  unfolding seed_tpcc_data seed_tpcc_warehouse
  seed_tpcc_data-IsPrepared s =
      go_on-IsPrepared (insert_all exec_context fixture_inserts s)
        (λ s'. each (seed_tpcc_warehouse exec_context) (ids 1 warehouse_count) s')
        (insert_all-IsPrepared fixture_inserts s fixture_inserts-Fits)
        (λ s'.
          each-IsPrepared (λ w. Unit) (seed_tpcc_warehouse exec_context) (ids 1 warehouse_count) s'
            (All-any (ids 1 warehouse_count))
            (λ w s h. insert_all-IsPrepared (warehouse_inserts w) s (warehouse_inserts-Fits w)))

  failed_as-IsPrepared :
      {X : Type 0} (wrap : X → SchemaError E) (result : Option X × S)
      → ((x : X) (table : Bytes) (n : ℕ) → wrap x ≢ insert_table table (wrong_width n))
      → IsPrepared (failed_as wrap result).0
  failed_as-IsPrepared wrap (none, s) h = λ t n p. cc
  failed_as-IsPrepared wrap (some x, s) h = λ t n p. h x t n (cc)

  abbrev Prepares : Stage S E → Type 0
  Prepares stage = (s : S) → IsPrepared (stage s).0

  statement-IsPrepared :
      (wrap : E → SchemaError E) (text : Bytes) (s : S)
      → ((e : E) (table : Bytes) (n : ℕ) → wrap e ≢ insert_table table (wrong_width n))
      → IsPrepared (statement exec_context wrap text s).0
  statement-IsPrepared wrap text s h = failed_as-IsPrepared wrap (exec_context text [] s) h

  create_tables-Prepares : Prepares (create_tables exec_context)
  create_tables-Prepares s =
      each-IsPrepared (λ table. Unit)
        (λ table s. statement exec_context (create_table table.name) table.sql s) tpcc_table_ddls s
        (All-any tpcc_table_ddls)
        (λ table s h. statement-IsPrepared (create_table table.name) table.sql s (λ e t n p. cc))

  analyze_tables-Prepares : Prepares (analyze_tables exec_context)
  analyze_tables-Prepares s =
      each-IsPrepared (λ table. Unit)
        (λ table s.
          statement exec_context (analyze_table table)
            (codes "ANALYZE TABLE " ++ quote_identifier table) s)
        analyzed_tables s (All-any analyzed_tables)
        (λ table s h.
          statement-IsPrepared (analyze_table table)
            (codes "ANALYZE TABLE " ++ quote_identifier table) s (λ e t n p. cc))

  stages-Prepares :
      (schema : Bytes) (replicate : S → Option (TiFlashError E) × S)
      → All Prepares (stages exec_context schema replicate)
  unfolding stages
  stages-Prepares schema replicate = (
    (λ s.
        statement-IsPrepared (create_schema schema)
          (codes "CREATE DATABASE IF NOT EXISTS " ++ quote_identifier schema) s (λ e t n p. cc)),
    (
      (λ s.
          statement-IsPrepared (select_schema schema) (codes "USE " ++ quote_identifier schema) s
            (λ e t n p. cc)),
      (
        create_tables-Prepares,
        (
          seed_tpcc_data-IsPrepared,
          (
            (λ s. failed_as-IsPrepared replicas (replicate s) (λ e t n p. cc)),
            (analyze_tables-Prepares, tt),
          ),
        ),
      ),
    ),
  )

  -- On no connection and with no schema does `prepareTPCCSchema` fail because a row of the fixture
  -- has another number of values than its table has columns.
  pub prepare_tpcc_schema-ne-wrong_width :
      (schema : Bytes) (context_error : Option E) (replicate : S → Option (TiFlashError E) × S)
      (s : S) (table : Bytes) (n : ℕ)
      → (prepare_tpcc_schema exec_context schema context_error replicate s).0
        ≢ some (insert_table table (wrong_width n))
  unfolding prepare_tpcc_schema
  prepare_tpcc_schema-ne-wrong_width schema (some e) replicate s = λ t n p. cc
  prepare_tpcc_schema-ne-wrong_width schema none replicate s =
      each-IsPrepared Prepares (λ stage s. stage s) (stages exec_context schema replicate) s
        (stages-Prepares schema replicate) (λ stage s h. h s)
