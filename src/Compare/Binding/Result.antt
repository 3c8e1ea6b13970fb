-- ===== src/Compare/Binding/Result.antt =====
-- What `getCurrentPlanBinding` returns.
use optimizer_canary_service.Base.{ℕ, ◌≤◌, ◌≡◌, ◌⊎◌, true, some, ◌++◌, take, All, ok}
use optimizer_canary_service.Text.{Bytes, codes, equal_fold}
use optimizer_canary_service.Compare.Binding.Select.{main_select}
use optimizer_canary_service.Compare.Binding.Place.{hint_comment}

-- `after` begins with blanks and an optimizer hint, and goes on with `kept`.
pub record Replaced (after kept : Bytes) : Type 0 where
  pub gap : Bytes
  pub old : Bytes
  pub blank : All (λ c. c ≤ b' ') gap
  pub splits : after ≡ gap ++ (codes "/*+" ++ (old ++ (codes "*/" ++ kept)))

-- How the result stands to the statement: its bytes are kept up to the end of the main SELECT, and
-- behind it, but for a hint that stood there.
pub record Bound (sql hint out : Bytes) : Type 0 where
  pub before : Bytes
  pub written : Bytes
  pub after : Bytes
  pub kept : Bytes
  pub splits : sql ≡ before ++ (written ++ after)
  pub reads : equal_fold written (codes "select") ≡ true
  pub result : out ≡ (before ++ written) ++ (hint_comment hint ++ kept)
  pub keeps : (kept ≡ after) ⊎ Replaced after kept
  pub end : ℕ
  pub is_main : main_select sql ≡ ok (some end)
  pub cut : take end sql ≡ before ++ written
