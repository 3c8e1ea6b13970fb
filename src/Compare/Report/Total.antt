-- ===== src/Compare/Report/Total.antt =====
-- The report is always produced, with a row for each changed plan.
use optimizer_canary_service.Base.{ℕ, ◌≡◌, Option, none, some, length}
use optimizer_canary_service.Compare.Report.Render.{Draft}

-- There is a value, and it has the property.
unfoldable Returns : {A : Type 0} → (A → Type 0) → Option A → Type 0
Returns P none = ⊥
Returns P (some a) = P a

abbrev Any : {A : Type 0} → A → Type 0
Any a = Unit {0}

-- A group is opened without a row.
abbrev Rows : ℕ → Draft → Type 0
Rows n draft = length draft.rows ≡ n
