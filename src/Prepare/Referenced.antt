-- ===== src/Prepare/Referenced.antt =====
-- The rows of the fixture: how many they are, and what they refer to.
use optimizer_canary_service.Base.{
  ℕ, zero, suc, ◌+◌, ◌*◌, ◌/◌, ◌≤◌, ◌<◌, ◌≡◌, refl, List, [], ◌∷◌, arith, length,
}
use optimizer_canary_service.Prepare.Insert.{
  customer_count, order_count, order_lines_per_order, item_count,
}
use optimizer_canary_service.Prepare.Fixture.{Value, int, Insert, ids}

pub length-ids : (first n : ℕ) → length (ids first n) ≡ n
unfolding ids
length-ids first zero = refl
length-ids first (suc n) = omega (arith, length-ids (suc first) n)

abbrev pub total_rows : List Insert → ℕ
total_rows [] = 0
total_rows (insert ∷ inserts) = length insert.rows + total_rows inserts

-- An order line of warehouse `w`: its order is one of the fixture's, which a customer of the same
-- number has placed, its line is one of five, and its item is one of the items.
abbrev pub IsOrderLine : ℕ → List Value → Type 0
IsOrderLine w row =
    (order line item : ℕ) × (rest : List Value) × (row
      ≡ int order ∷ int 1 ∷ int w ∷ int line ∷ int item ∷ int w ∷ rest)
    × (1 ≤ order)
    × (order ≤ customer_count)
    × (1 ≤ line)
    × (line ≤ order_lines_per_order)
    × (1 ≤ item)
    × (item ≤ item_count)

-- A new order of warehouse `w`: one of the last three tenths of the orders.
abbrev pub IsNewOrder : ℕ → List Value → Type 0
IsNewOrder w row =
    (order : ℕ) × (row ≡ int order ∷ int 1 ∷ int w ∷ [])
    × (order_count * 7 / 10 < order)
    × (order ≤ order_count)
