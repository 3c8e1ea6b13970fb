-- ===== src/Prepare/Fixture.antt =====
-- The rows of `seedTPCCData` and `seedTPCCWarehouse` of prepare/tpcc_schema.go, in the order of their
-- inserts. A floating-point value is written in hundredths.
use optimizer_canary_service.Base.{
  ℕ, zero, suc, ◌+◌, ◌-◌, ◌*◌, ◌/◌, ◌%◌, String, List, [], ◌∷◌, ◌++◌, map, ltb, length, keep, ℤ,
  pos, negsuc,
}
use optimizer_canary_service.Text.{Bytes, codes}
use optimizer_canary_service.Text.Decimal.{itoa}
use optimizer_canary_service.Prepare.Insert.{
  district_count, customer_count, order_count, order_lines_per_order, item_count, warehouse_count,
}

pub data Value : Type 0 where
  int : ℕ → Value
  real : ℤ → Value
  text : Bytes → Value

pub record Insert : Type 0 where
  pub table : Bytes
  pub columns : List Bytes
  pub rows : List (List Value)

-- The numbers of a loop from `first` on.
unfoldable pub ids : ℕ → ℕ → List ℕ
ids first zero = []
ids first (suc n) = first ∷ ids (suc first) n

abbrev zeros : ℕ → Bytes
zeros zero = []
zeros (suc n) = b'0' ∷ zeros n

-- `%0wd` of a number that is not negative.
unfoldable pub padded : ℕ → ℕ → Bytes
unfolding itoa
padded width n = zeros (width - length (itoa n)) ++ itoa n

abbrev pub literal : String → Value
literal s = text (codes s)

abbrev pub fixture_timestamp : Value
fixture_timestamp = literal "2026-01-01 00:00:00"

abbrev pub target_stock_quantity : ℕ
target_stock_quantity = 15

abbrev pub warehouse_columns : List Bytes
warehouse_columns =
    codes "w_id"
    ∷ codes "w_name"
    ∷ codes "w_street_1"
    ∷ codes "w_street_2"
    ∷ codes "w_city"
    ∷ codes "w_state"
    ∷ codes "w_zip"
    ∷ codes "w_tax"
    ∷ codes "w_ytd"
    ∷ []

abbrev pub warehouse_row : ℕ → List Value
warehouse_row warehouse_id =
    int warehouse_id
    ∷ text (b'W' ∷ itoa warehouse_id)
    ∷ literal "Street 1"
    ∷ literal "Street 2"
    ∷ literal "Portland"
    ∷ literal "OR"
    ∷ literal "972010000"
    ∷ real (pos 10)
    ∷ real (pos 30000000)
    ∷ []

abbrev pub district_columns : List Bytes
district_columns =
    codes "d_id"
    ∷ codes "d_w_id"
    ∷ codes "d_name"
    ∷ codes "d_street_1"
    ∷ codes "d_street_2"
    ∷ codes "d_city"
    ∷ codes "d_state"
    ∷ codes "d_zip"
    ∷ codes "d_tax"
    ∷ codes "d_ytd"
    ∷ codes "d_next_o_id"
    ∷ []

abbrev pub district_row : ℕ → ℕ → List Value
district_row warehouse_id district_id =
    int district_id
    ∷ int warehouse_id
    ∷ text (b'D' ∷ itoa district_id)
    ∷ literal "Street 1"
    ∷ literal "Street 2"
    ∷ literal "Portland"
    ∷ literal "OR"
    ∷ literal "972010000"
    ∷ real (pos 10)
    ∷ real (pos 3000000)
    ∷ int (order_count + 1)
    ∷ []

abbrev pub item_columns : List Bytes
item_columns =
    codes "i_id" ∷ codes "i_im_id" ∷ codes "i_name" ∷ codes "i_price" ∷ codes "i_data" ∷ []

abbrev pub item_row : ℕ → List Value
item_row id =
    int id
    ∷ int (id % 100)
    ∷ text (codes "ITEM" ++ padded 4 id)
    ∷ real (pos (100 + id % 100 * 100))
    ∷ literal "optimizer canary item"
    ∷ []

abbrev pub customer_columns : List Bytes
customer_columns =
    codes "c_id"
    ∷ codes "c_d_id"
    ∷ codes "c_w_id"
    ∷ codes "c_first"
    ∷ codes "c_middle"
    ∷ codes "c_last"
    ∷ codes "c_street_1"
    ∷ codes "c_street_2"
    ∷ codes "c_city"
    ∷ codes "c_state"
    ∷ codes "c_zip"
    ∷ codes "c_phone"
    ∷ codes "c_since"
    ∷ codes "c_credit"
    ∷ codes "c_credit_lim"
    ∷ codes "c_discount"
    ∷ codes "c_balance"
    ∷ codes "c_ytd_payment"
    ∷ codes "c_payment_cnt"
    ∷ codes "c_delivery_cnt"
    ∷ codes "c_data"
    ∷ []

abbrev pub customer_row : ℕ → ℕ → List Value
customer_row warehouse_id id =
    int id
    ∷ int 1
    ∷ int warehouse_id
    ∷ text (b'C' ∷ padded 4 id)
    ∷ literal "OE"
    ∷ text (codes "LAST" ++ padded 3 (id % 100))
    ∷ literal "Street 1"
    ∷ literal "Street 2"
    ∷ literal "Portland"
    ∷ literal "OR"
    ∷ literal "972010000"
    ∷ text (padded 16 id)
    ∷ fixture_timestamp
    ∷ literal "GC"
    ∷ real (pos 5000000)
    ∷ real (pos 5)
    ∷ real (negsuc 999)
    ∷ real (pos 1000)
    ∷ int 1
    ∷ int 0
    ∷ literal "optimizer canary TPC-C fixture"
    ∷ []

abbrev pub orders_columns : List Bytes
orders_columns =
    codes "o_id"
    ∷ codes "o_d_id"
    ∷ codes "o_w_id"
    ∷ codes "o_c_id"
    ∷ codes "o_entry_d"
    ∷ codes "o_carrier_id"
    ∷ codes "o_ol_cnt"
    ∷ codes "o_all_local"
    ∷ []

abbrev pub order_row : ℕ → ℕ → List Value
order_row warehouse_id id =
    int id
    ∷ int 1
    ∷ int warehouse_id
    ∷ int id
    ∷ fixture_timestamp
    ∷ int (id % 10 + 1)
    ∷ int order_lines_per_order
    ∷ int 1
    ∷ []

abbrev pub new_order_columns : List Bytes
new_order_columns = codes "no_o_id" ∷ codes "no_d_id" ∷ codes "no_w_id" ∷ []

abbrev pub new_order_row : ℕ → ℕ → List Value
new_order_row warehouse_id id = int id ∷ int 1 ∷ int warehouse_id ∷ []

abbrev pub order_line_columns : List Bytes
order_line_columns =
    codes "ol_o_id"
    ∷ codes "ol_d_id"
    ∷ codes "ol_w_id"
    ∷ codes "ol_number"
    ∷ codes "ol_i_id"
    ∷ codes "ol_supply_w_id"
    ∷ codes "ol_delivery_d"
    ∷ codes "ol_quantity"
    ∷ codes "ol_amount"
    ∷ codes "ol_dist_info"
    ∷ []

-- The item of a line.
unfoldable pub line_item : ℕ → ℕ → ℕ
line_item id line = ((id - 1) * order_lines_per_order + line - 1) % item_count + 1

abbrev pub order_line_row : ℕ → ℕ → ℕ → List Value
order_line_row warehouse_id id line =
    int id
    ∷ int 1
    ∷ int warehouse_id
    ∷ int line
    ∷ int (line_item id line)
    ∷ int warehouse_id
    ∷ fixture_timestamp
    ∷ int 5
    ∷ real (pos (100 + line * 100))
    ∷ literal "optimizer canary dist"
    ∷ []

abbrev pub stock_columns : List Bytes
stock_columns =
    codes "s_i_id"
    ∷ codes "s_w_id"
    ∷ codes "s_quantity"
    ∷ codes "s_dist_01"
    ∷ codes "s_dist_02"
    ∷ codes "s_dist_03"
    ∷ codes "s_dist_04"
    ∷ codes "s_dist_05"
    ∷ codes "s_dist_06"
    ∷ codes "s_dist_07"
    ∷ codes "s_dist_08"
    ∷ codes "s_dist_09"
    ∷ codes "s_dist_10"
    ∷ codes "s_ytd"
    ∷ codes "s_order_cnt"
    ∷ codes "s_remote_cnt"
    ∷ codes "s_data"
    ∷ []

abbrev pub stock_row : ℕ → ℕ → List Value
stock_row warehouse_id id =
    let dist = text (codes "DIST" ++ padded 4 id) in
    int id
    ∷ int warehouse_id
    ∷ int (target_stock_quantity + id % 20)
    ∷ dist
    ∷ dist
    ∷ dist
    ∷ dist
    ∷ dist
    ∷ dist
    ∷ dist
    ∷ dist
    ∷ dist
    ∷ dist
    ∷ int 0
    ∷ int 0
    ∷ int 0
    ∷ literal "optimizer canary stock"
    ∷ []

unfoldable pub concat_map : {A : Type 0} → (ℕ → List A) → List ℕ → List A
concat_map f [] = []
concat_map f (n ∷ ns) = f n ++ concat_map f ns

unfoldable pub fixture_inserts : List Insert
fixture_inserts =
    record {
      table = codes "warehouse";
      columns = warehouse_columns;
      rows = map (λ w. warehouse_row w) (ids 1 warehouse_count);
    }
    ∷ record {
      table = codes "district";
      columns = district_columns;
      rows =
          concat_map (λ w. map (λ d. district_row w d) (ids 1 district_count))
            (ids 1 warehouse_count);
    }
    ∷ record {
      table = codes "item";
      columns = item_columns;
      rows = map (λ id. item_row id) (ids 1 item_count);
    }
    ∷ []

unfoldable pub customer_rows : ℕ → List (List Value)
customer_rows w = map (λ id. customer_row w id) (ids 1 customer_count)

unfoldable pub order_rows : ℕ → List (List Value)
order_rows w = map (λ id. order_row w id) (ids 1 customer_count)

unfoldable pub new_order_rows : ℕ → List (List Value)
new_order_rows w =
    map (λ id. new_order_row w id)
      (keep (λ id. ltb (order_count * 7 / 10) id) (ids 1 customer_count))

unfoldable pub order_line_rows : ℕ → List (List Value)
order_line_rows w =
    concat_map (λ id. map (λ line. order_line_row w id line) (ids 1 order_lines_per_order))
      (ids 1 customer_count)

unfoldable pub stock_rows : ℕ → List (List Value)
stock_rows w = map (λ id. stock_row w id) (ids 1 item_count)

-- The five inserts of a warehouse.
unfoldable pub warehouse_inserts : ℕ → List Insert
unfolding customer_rows order_rows new_order_rows order_line_rows stock_rows
warehouse_inserts w =
    record { table = codes "customer"; columns = customer_columns; rows = customer_rows w }
    ∷ record { table = codes "orders"; columns = orders_columns; rows = order_rows w }
    ∷ record { table = codes "new_order"; columns = new_order_columns; rows = new_order_rows w }
    ∷ record { table = codes "order_line"; columns = order_line_columns; rows = order_line_rows w }
    ∷ record { table = codes "stock"; columns = stock_columns; rows = stock_rows w }
    ∷ []
