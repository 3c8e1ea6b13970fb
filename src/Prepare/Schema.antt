-- ===== src/Prepare/Schema.antt =====
-- `prepareTPCCSchema`, `seedTPCCData` and `seedTPCCWarehouse` of prepare/tpcc_schema.go. `S` is the
-- state of the connection, whose ExecContext is a parameter; the replicas are of Tiflash.antt.
use optimizer_canary_service.Base.{ℕ, Option, none, some, List, [], ◌∷◌, ◌++◌}
use optimizer_canary_service.Text.{Bytes, codes}
use optimizer_canary_service.Prepare.Ddl.{tpcc_table_ddls}
use optimizer_canary_service.Prepare.Insert.{
  quote_identifier, InsertError, insert_rows, warehouse_count,
}
use optimizer_canary_service.Prepare.Fixture.{
  Value, Insert, ids, fixture_inserts, warehouse_inserts,
}
use optimizer_canary_service.Prepare.Tiflash.{TiFlashError}

pub data SchemaError (E : Type 0) : Type 0 where
  context_done : E → SchemaError E
  create_schema : Bytes → E → SchemaError E
  select_schema : Bytes → E → SchemaError E
  create_table : Bytes → E → SchemaError E
  insert_table : Bytes → InsertError E → SchemaError E
  replicas : TiFlashError E → SchemaError E
  analyze_table : Bytes → E → SchemaError E

abbrev pub analyzed_tables : List Bytes
analyzed_tables =
    codes "warehouse"
    ∷ codes "district"
    ∷ codes "customer"
    ∷ codes "orders"
    ∷ codes "order_line"
    ∷ codes "stock"
    ∷ codes "item"
    ∷ []

abbrev pub Stage : Type 0 → Type 0 → Type 0
Stage S E = S → Option (SchemaError E) × S

module _ {S E : Type 0} where
  abbrev pub go_on : Option (SchemaError E) × S → Stage S E → Option (SchemaError E) × S
  go_on (some e, s) next = (some e, s)
  go_on (none, s) next = next s

  abbrev pub failed_as :
      {X : Type 0} → (X → SchemaError E) → Option X × S → Option (SchemaError E) × S
  failed_as wrap (some e, s) = (some (wrap e), s)
  failed_as wrap (none, s) = (none, s)

  -- One statement after another, up to the first that fails.
  unfoldable pub each : {A : Type 0} → (A → Stage S E) → List A → Stage S E
  each act [] s = (none, s)
  each act (x ∷ xs) s = go_on (act x s) (λ s'. each act xs s')

  module _ (exec_context : Bytes → List Value → S → Option E × S) where
    abbrev pub insert_all : List Insert → Stage S E
    insert_all inserts s =
        each
          (λ i s.
            failed_as (insert_table i.table) (insert_rows exec_context i.table i.columns i.rows s))
          inserts s

    unfoldable pub seed_tpcc_warehouse : ℕ → Stage S E
    unfolding warehouse_inserts
    seed_tpcc_warehouse warehouse_id s = insert_all (warehouse_inserts warehouse_id) s

    unfoldable pub seed_tpcc_data : Stage S E
    unfolding fixture_inserts seed_tpcc_warehouse
    seed_tpcc_data s =
        go_on (insert_all fixture_inserts s)
          (λ s'. each seed_tpcc_warehouse (ids 1 warehouse_count) s')

    abbrev pub statement : (E → SchemaError E) → Bytes → Stage S E
    statement wrap text s = failed_as wrap (exec_context text [] s)

    abbrev pub create_tables : Stage S E
    create_tables s =
        each (λ table s. statement (create_table table.name) table.sql s) tpcc_table_ddls s

    abbrev pub analyze_tables : Stage S E
    analyze_tables s =
        each
          (λ table s.
            statement (analyze_table table) (codes "ANALYZE TABLE " ++ quote_identifier table) s)
          analyzed_tables s

    -- The stages of `prepareTPCCSchema` in their order; `replicate` is `prepareTPCCTiFlashReplicas`.
    unfoldable pub stages : Bytes → (S → Option (TiFlashError E) × S) → List (Stage S E)
    unfolding quote_identifier each seed_tpcc_data
    stages schema replicate =
        (λ s.
          statement (create_schema schema)
            (codes "CREATE DATABASE IF NOT EXISTS " ++ quote_identifier schema) s)
        ∷ (λ s. statement (select_schema schema) (codes "USE " ++ quote_identifier schema) s)
        ∷ create_tables
        ∷ seed_tpcc_data
        ∷ (λ s. failed_as replicas (replicate s))
        ∷ analyze_tables
        ∷ []

    -- `context_error` is `ctx.Err()` at the start.
    unfoldable pub prepare_tpcc_schema :
        Bytes → Option E → (S → Option (TiFlashError E) × S) → Stage S E
    unfolding each stages
    prepare_tpcc_schema schema (some e) replicate s = (some (context_done e), s)
    prepare_tpcc_schema schema none replicate s =
        each (λ stage s. stage s) (stages schema replicate) s
