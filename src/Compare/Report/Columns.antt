-- ===== src/Compare/Report/Columns.antt =====
-- `withoutPlanColumns` of diagnosis/compare/compare.go.
use optimizer_canary_service.Base.{
  ℕ, ◌≡◌, refl, ◌≢◌, inl, inr, Bool, true, false, not, Option, none, some, List, [], ◌∷◌, map,
  arith, ◌==◌, if◌then◌else◌, Bool-cases, length, keep, any, All,
}
use optimizer_canary_service.Text.{Bytes, codes, equal_fold}
use optimizer_canary_service.Text.Trim.{trim_space}
use optimizer_canary_service.Text.Split.{
  pieces-Without, split-ne-nil, split-join-All, join-Without, split-Without, split, join, Without,
}

abbrev pub is_id : Bytes → Bool
unfolding equal_fold trim_space
is_id field = equal_fold (trim_space field) (codes "id")

-- The fields of the first line that has a field `id`.
unfoldable pub header_fields : List Bytes → Option (List Bytes)
unfolding split is_id
header_fields [] = none
header_fields (line ∷ lines) =
    let later = header_fields lines in
    let fields = split line b'\t' in if any is_id fields then some fields else later

abbrev pub is_named : List Bytes → Bytes → Bool
is_named names field = any (λ name. equal_fold (trim_space field) name) names

-- The set `remove`: for each column of the header, whether it goes.
unfoldable pub removed_columns : List Bytes → List Bytes → List Bool
unfolding equal_fold trim_space
removed_columns names header = map (λ field. is_named names field) header

-- The fields that stay.
unfoldable pub kept_fields : List Bool → List Bytes → List Bytes
kept_fields (true ∷ remove) (field ∷ fields) = kept_fields remove fields
kept_fields (false ∷ remove) (field ∷ fields) = field ∷ kept_fields remove fields
kept_fields [] fields = fields
kept_fields (r ∷ remove) [] = []

unfoldable pub strip_line : List Bool → Bytes → Bytes
unfolding split join kept_fields
strip_line remove line =
    let fields = split line b'\t' in
    if length fields == length remove then join (kept_fields remove fields) (b'\t' ∷ []) else line

unfoldable pub strip_lines : Bytes → Option (List Bytes) → List Bytes → Bytes
unfolding removed_columns strip_line join
strip_lines plan none names = plan
strip_lines plan (some header) names =
    let remove = removed_columns names header in
    if any (λ r. r) remove
    then join (map (λ line. strip_line remove line) (split plan 10)) (10 ∷ [])
    else plan

unfoldable pub without_plan_columns : Bytes → List Bytes → Bytes
unfolding header_fields strip_lines split
without_plan_columns plan names = strip_lines plan (header_fields (split plan 10)) names

-- The columns of the header that are not named, which stay.
header_kept :
    (names header : List Bytes)
    → kept_fields (removed_columns names header) header
      ≡ keep (λ field. not (is_named names field)) header
unfolding kept_fields removed_columns
header_kept names [] = refl
header_kept names (field ∷ header) = ground (arith, header_kept names header)

kept_fields-Without :
    (b : ℕ) (remove : List Bool) (fields : List Bytes)
    → All (λ p. Without b p) fields
    → All (λ p. Without b p) (kept_fields remove fields)
unfolding kept_fields
kept_fields-Without b (true ∷ remove) (field ∷ fields) h = kept_fields-Without b remove fields h.1
kept_fields-Without b (false ∷ remove) (field ∷ fields) h =
    (h.0, kept_fields-Without b remove fields h.1)
kept_fields-Without b [] fields h = h
kept_fields-Without b (true ∷ remove) [] h = tt
kept_fields-Without b (false ∷ remove) [] h = tt

-- The fields of a stripped line are those that stay.
split-strip_line :
    (remove : List Bool) (line : Bytes)
    → length (split line b'\t') ≡ length remove
    → kept_fields remove (split line b'\t') ≢ []
    → split (strip_line remove line) b'\t' ≡ kept_fields remove (split line b'\t')
unfolding strip_line
split-strip_line remove line same some_kept =
    let eq : (length (split line b'\t') == length remove) ≡ true = ground arith in
    let free = kept_fields-Without b'\t' remove (split line b'\t') (split-Without line b'\t') in
    rw eq (split-join-All (kept_fields remove (split line b'\t')) b'\t' some_kept free)

strip_line-Without :
    (b : ℕ) (remove : List Bool) (line : Bytes)
    → b ≢ b'\t'
    → Without b line
    → Without b (strip_line remove line)
unfolding strip_line
strip_line-Without b remove line differ h =
    elim (Bool-cases (length (split line b'\t') == length remove)) [
      | inl eq ↦ rw eq (
          join-Without b (kept_fields remove (split line b'\t')) b'\t' differ
            (kept_fields-Without b remove (split line b'\t') (pieces-Without b line b'\t' h)))
      | inr other ↦ rw other h
    ]

map-Without :
    (remove : List Bool) (lines : List Bytes)
    → All (λ p. Without 10 p) lines
    → All (λ p. Without 10 p) (map (λ line. strip_line remove line) lines)
map-Without remove [] h = tt
map-Without remove (line ∷ lines) h =
    (strip_line-Without 10 remove line (omega arith) h.0, map-Without remove lines h.1)

map-ne-nil : (f : Bytes → Bytes) (xs : List Bytes) → xs ≢ [] → map f xs ≢ []
map-ne-nil f [] h e = h refl
map-ne-nil f (x ∷ xs) h e = cc

-- Where the plan has a header and a column of it is named: the report shows as many lines, each the
-- plan's with the columns removed; the header keeps exactly the columns that are not named; and a
-- line as wide as the header shows its fields in the columns that stay, if there is one.
pub without_plan_columns_lem :
    (plan : Bytes) (names header : List Bytes)
    → header_fields (split plan 10) ≡ some header
    → any (λ r. r) (removed_columns names header) ≡ true
    → (split (without_plan_columns plan names) 10
        ≡ map (λ line. strip_line (removed_columns names header) line) (split plan 10))
      × (kept_fields (removed_columns names header) header
          ≡ keep (λ field. not (is_named names field)) header)
      × ((line : Bytes)
          → length (split line b'\t') ≡ length (removed_columns names header)
          → kept_fields (removed_columns names header) (split line b'\t') ≢ []
          → split (strip_line (removed_columns names header) line) b'\t'
            ≡ kept_fields (removed_columns names header) (split line b'\t'))
unfolding without_plan_columns strip_lines
without_plan_columns_lem plan names header found named =
    let remove = removed_columns names header in
    (
      rw found (
          rw named (
            split-join-All (map (λ line. strip_line remove line) (split plan 10)) 10
              (map-ne-nil (λ line. strip_line remove line) (split plan 10) (split-ne-nil plan 10))
              (map-Without remove (split plan 10) (split-Without plan 10)))),
      header_kept names header,
      λ line. split-strip_line remove line,
    )
