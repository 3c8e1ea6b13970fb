-- ===== src/Prepare/Checked.antt =====
-- What the settings are checked for, which operator names count as one, and when the wait for the
-- replicas ends.
use optimizer_canary_service.Base.{
  ℕ, ◌≡◌, refl, ap, ◌∙◌, ◌≢◌, ◌↔◌, Bool, true, false, none, some, List, [], ◌∷◌, ◌++◌, arith, keep,
  All,
}
use optimizer_canary_service.Text.{Bytes, compare_bytes, bytes_eq_iff}
use optimizer_canary_service.Base.Sort.{insert, sort}
use optimizer_canary_service.Text.Trim.{trim_space}
use optimizer_canary_service.Prepare.Settings.{
  TiFlashReplicaStatus, pending_tables, find_status, is_pending, Config, validate_config,
  is_positive, all_digits, at_last_underscore, normalized_operator_id,
}

-- A configuration passes exactly when neither the DSN nor the schema is blank, and the concurrency
-- and the duration are positive.
validate_config_iff :
    (c : Config)
    → (validate_config c ≡ none) ↔ (
        (trim_space c.dsn ≢ [])
        × (trim_space c.schema ≢ [])
        × (is_positive c.concurrency ≡ true)
        × (is_positive c.duration ≡ true))
unfolding validate_config
validate_config_iff c =
    ground (arith, bytes_eq_iff (trim_space c.dsn) [], bytes_eq_iff (trim_space c.schema) [])

digits-none : (s : Bytes) → all_digits s ≡ true → at_last_underscore s ≡ none
unfolding at_last_underscore
digits-none [] h = refl
digits-none (c ∷ s) h = ground (arith, digits-none s)

at_last_underscore-append :
    (name digits : Bytes)
    → all_digits digits ≡ true
    → at_last_underscore (name ++ b'_' ∷ digits) ≡ some (name, digits)
unfolding at_last_underscore
at_last_underscore-append [] digits h = rw (digits-none digits h) refl
at_last_underscore-append (c ∷ name) digits h = rw (at_last_underscore-append name digits h) refl

-- An operator name with an underscore and a number behind it counts as the name.
normalized_operator_id-number :
    (name : Bytes) (d : ℕ) (digits : Bytes)
    → all_digits (d ∷ digits) ≡ true
    → normalized_operator_id (name ++ b'_' ∷ d ∷ digits) ≡ name
unfolding normalized_operator_id
normalized_operator_id-number name d digits h =
    rw (at_last_underscore-append name (d ∷ digits) h) (rw h refl)

insert-ne-nil : (x : Bytes) (xs : List Bytes) → insert compare_bytes x xs ≢ []
unfolding insert
insert-ne-nil x [] h = cc
insert-ne-nil x (y ∷ ys) h = ground arith

sort-nil : (xs : List Bytes) → sort compare_bytes xs ≡ [] → xs ≡ []
unfolding sort
sort-nil [] h = refl
sort-nil (x ∷ xs) h = elim (insert-ne-nil x (sort compare_bytes xs) h) [ ]

keep-nil_iff : (p : Bytes → Bool) (xs : List Bytes) → (keep p xs ≡ []) ↔ All (λ x. p x ≡ false) xs
keep-nil_iff p [] = (λ h. tt, λ h. refl)
keep-nil_iff p (x ∷ xs) =
    let rest = keep-nil_iff p xs in
    (nil_to x xs (p x) refl rest.0, λ h. all_to x xs (p x) h.0 (rest.1 h.1))
  where
    nil_to :
        (x : Bytes) (xs : List Bytes) (b : Bool)
        → p x ≡ b
        → (keep p xs ≡ [] → All (λ x. p x ≡ false) xs)
        → elim b [ true ↦ x ∷ keep p xs | false ↦ keep p xs ] ≡ []
        → All (λ x. p x ≡ false) (x ∷ xs)
    nil_to x xs true e f h = cc
    nil_to x xs false e f h = (e, f h)

    all_to :
        (x : Bytes) (xs : List Bytes) (b : Bool)
        → b ≡ false
        → keep p xs ≡ []
        → elim b [ true ↦ x ∷ keep p xs | false ↦ keep p xs ] ≡ []
    all_to x xs true e h = cc
    all_to x xs false e h = h

sort_none : sort compare_bytes [] ≡ []
unfolding sort
sort_none = refl

-- The wait for the replicas ends, for want of a pending table, exactly when every table of the list
-- has a status that says it is available.
pub pending_tables_iff :
    (tables : List Bytes) (statuses : List (Bytes × TiFlashReplicaStatus))
    → (pending_tables tables statuses ≡ [])
      ↔ All (λ table. is_pending (find_status statuses table) ≡ false) tables
unfolding pending_tables
pending_tables_iff tables statuses =
    let p : Bytes → Bool = λ table. is_pending (find_status statuses table) in
    let both = keep-nil_iff p tables in
    (λ h. both.0 (sort-nil (keep p tables) h), λ h. ap (sort compare_bytes) (both.1 h) ∙ sort_none)
