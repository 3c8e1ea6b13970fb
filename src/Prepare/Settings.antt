-- ===== src/Prepare/Settings.antt =====
-- `Config.validate` of prepare/prepare.go, `normalizedOperatorID` of prepare/tpcc_workload.go and
-- `pendingTiFlashTables` of prepare/tpcc_tiflash.go.
use optimizer_canary_service.Base.{
  ℕ, Bool, true, not, ◌&&◌, Option, none, some, List, [], ◌∷◌, leb, ◌==◌, if◌then◌else◌, keep, ℤ,
  pos, ltb_ℤ,
}
use optimizer_canary_service.Base.Sort.{sort}
use optimizer_canary_service.Text.{Bytes, codes, bytes_eq, compare_bytes}
use optimizer_canary_service.Text.Trim.{trim_space}

-- `Config`; the duration is in nanoseconds.
pub record Config : Type 0 where
  pub dsn : Bytes
  pub schema : Bytes
  pub concurrency : ℤ
  pub duration : ℤ

pub data ConfigError : Type 0 where
  empty_dsn empty_schema no_concurrency no_duration : ConfigError

abbrev pub is_blank : Bytes → Bool
unfolding trim_space
is_blank s = bytes_eq (trim_space s) []

abbrev pub is_positive : ℤ → Bool
is_positive n = ltb_ℤ (pos 0) n

unfoldable pub validate_config : Config → Option ConfigError
unfolding is_blank
validate_config c =
    if is_blank c.dsn
    then some empty_dsn
    else if is_blank c.schema
    then some empty_schema
    else if not (is_positive c.concurrency)
    then some no_concurrency
    else if not (is_positive c.duration)
    then some no_duration
    else none

abbrev is_digit : ℕ → Bool
is_digit c = leb b'0' c && leb c b'9'

abbrev pub all_digits : Bytes → Bool
all_digits [] = true
all_digits (c ∷ s) = is_digit c && all_digits s

-- The text before the last underscore and the text behind it.
unfoldable pub at_last_underscore : Bytes → Option (Bytes × Bytes)
at_last_underscore [] = none
at_last_underscore (c ∷ s) =
    let here = if c == b'_' then some ([], s) else none in
    elim (at_last_underscore s) [ some (a, b) ↦ some (c ∷ a, b) | none ↦ here ]

abbrev pub cut_number : Bytes → Option (Bytes × Bytes) → Bytes
cut_number id none = id
cut_number id (some (before, [])) = id
cut_number id (some (before, d ∷ digits)) = if all_digits (d ∷ digits) then before else id

unfoldable pub normalized_operator_id : Bytes → Bytes
unfolding at_last_underscore
normalized_operator_id id = cut_number id (at_last_underscore id)

-- `tiFlashReplicaStatus`, whose progress is not read.
pub record TiFlashReplicaStatus : Type 0 where
  pub available : Bool

unfoldable pub find_status :
    List (Bytes × TiFlashReplicaStatus) → Bytes → Option TiFlashReplicaStatus
find_status [] table = none
find_status ((name, status) ∷ statuses) table =
    let rest = find_status statuses table in if bytes_eq name table then some status else rest

abbrev pub is_pending : Option TiFlashReplicaStatus → Bool
is_pending none = true
is_pending (some status) = not status.available

-- The tables of `tpccTableDDLs`.
abbrev pub tpcc_tables : List Bytes
tpcc_tables =
    codes "warehouse"
    ∷ codes "district"
    ∷ codes "customer"
    ∷ codes "history"
    ∷ codes "new_order"
    ∷ codes "orders"
    ∷ codes "order_line"
    ∷ codes "stock"
    ∷ codes "item"
    ∷ []

unfoldable pub pending_tables : List Bytes → List (Bytes × TiFlashReplicaStatus) → List Bytes
unfolding find_status
pending_tables tables statuses =
    sort compare_bytes (keep (λ table. is_pending (find_status statuses table)) tables)

unfoldable pub pending_tiflash_tables : List (Bytes × TiFlashReplicaStatus) → List Bytes
unfolding pending_tables
pending_tiflash_tables statuses = pending_tables tpcc_tables statuses
