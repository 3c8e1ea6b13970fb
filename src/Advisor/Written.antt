-- ===== src/Advisor/Written.antt =====
-- The report of the index advisor is always written.
use optimizer_canary_service.Base.{◌≡◌, Option, some}
use optimizer_canary_service.Text.{Bytes}

abbrev Written : Option Bytes → Type 0
Written report = (text : Bytes) × (report ≡ some text)
