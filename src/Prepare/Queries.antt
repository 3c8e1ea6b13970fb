-- ===== src/Prepare/Queries.antt =====
-- The queries of `tpccWorkloads` of prepare/tpcc_queries.go, in their order.
use optimizer_canary_service.Base.{List, [], ◌∷◌, ◌++◌}
use optimizer_canary_service.Text.{Bytes, codes}

-- The arguments of a call of `newTPCCWorkload`.
pub record WorkloadQuery : Type 0 where
  pub name : Bytes
  pub statement : Bytes
  pub tables : List Bytes

abbrev pub transaction_queries : List WorkloadQuery
transaction_queries =
    record {
      name = codes "new_order_customer";
      statement =
          codes "SELECT c_discount, c_last, c_credit, w_tax\n"
          ++ codes "\t\t FROM customer, warehouse\n"
          ++ codes "\t\t WHERE w_id = 1 AND c_w_id = w_id AND c_d_id = 1 AND c_id = 7";
      tables = codes "customer" ∷ codes "warehouse" ∷ [];
    }
    ∷ record {
      name = codes "order_status_customer_by_last";
      statement =
          codes "SELECT c_balance, c_first, c_middle, c_id\n"
          ++ codes "\t\t FROM customer\n"
          ++ codes "\t\t WHERE c_w_id = 1 AND c_d_id = 1 AND c_last = 'LAST007'\n"
          ++ codes "\t\t ORDER BY c_first";
      tables = codes "customer" ∷ [];
    }
    ∷ record {
      name = codes "order_status_latest_order";
      statement =
          codes "SELECT o_id, o_carrier_id, o_entry_d\n"
          ++ codes "\t\t FROM orders\n"
          ++ codes "\t\t WHERE o_w_id = 1 AND o_d_id = 1 AND o_c_id = 7\n"
          ++ codes "\t\t ORDER BY o_id DESC LIMIT 1";
      tables = codes "orders" ∷ [];
    }
    ∷ record {
      name = codes "order_status_order_lines";
      statement =
          codes "SELECT ol_i_id, ol_supply_w_id, ol_quantity, ol_amount, ol_delivery_d\n"
          ++ codes "\t\t FROM order_line\n"
          ++ codes "\t\t WHERE ol_w_id = 1 AND ol_d_id = 1 AND ol_o_id = 907";
      tables = codes "order_line" ∷ [];
    }
    ∷ record {
      name = codes "new_order_items";
      statement =
          codes "SELECT i_price, i_name, i_data, i_id\n"
          ++ codes "\t\t FROM item\n"
          ++ codes "\t\t WHERE i_id IN (7, 17, 27, 37, 47)";
      tables = codes "item" ∷ [];
    }
    ∷ record {
      name = codes "stock_level";
      statement =
          codes "SELECT COUNT(DISTINCT s_i_id) AS stock_count\n"
          ++ codes "\t\t FROM order_line, stock\n"
          ++ codes "\t\t WHERE ol_w_id = 1 AND ol_d_id = 1\n"
          ++ codes "\t\t   AND ol_o_id < 1001 AND ol_o_id >= 981\n"
          ++ codes "\t\t   AND s_w_id = 1 AND s_i_id = ol_i_id AND s_quantity < 25";
      tables = codes "order_line" ∷ codes "stock" ∷ [];
    }
    ∷ record {
      name = codes "warehouse_by_id";
      statement =
          codes "SELECT w_name, w_tax, w_ytd\n"
          ++ codes "\t\t FROM warehouse\n"
          ++ codes "\t\t WHERE w_id = 42";
      tables = codes "warehouse" ∷ [];
    }
    ∷ record {
      name = codes "warehouse_id_range";
      statement =
          codes "SELECT w_id, w_name\n"
          ++ codes "\t\t FROM warehouse\n"
          ++ codes "\t\t WHERE w_id BETWEEN 40 AND 45\n"
          ++ codes "\t\t ORDER BY w_id";
      tables = codes "warehouse" ∷ [];
    }
    ∷ record {
      name = codes "warehouse_id_list";
      statement =
          codes "SELECT w_id, w_city, w_state\n"
          ++ codes "\t\t FROM warehouse\n"
          ++ codes "\t\t WHERE w_id IN (1, 25, 50, 75, 100)";
      tables = codes "warehouse" ∷ [];
    }
    ∷ []

abbrev pub district_queries : List WorkloadQuery
district_queries =
    record {
      name = codes "district_by_id";
      statement =
          codes "SELECT d_name, d_tax, d_ytd, d_next_o_id\n"
          ++ codes "\t\t FROM district\n"
          ++ codes "\t\t WHERE d_w_id = 42 AND d_id = 3";
      tables = codes "district" ∷ [];
    }
    ∷ record {
      name = codes "districts_for_warehouse";
      statement =
          codes "SELECT d_id, d_name, d_next_o_id\n"
          ++ codes "\t\t FROM district\n"
          ++ codes "\t\t WHERE d_w_id = 42\n"
          ++ codes "\t\t ORDER BY d_id";
      tables = codes "district" ∷ [];
    }
    ∷ record {
      name = codes "district_id_range";
      statement =
          codes "SELECT d_id, d_tax\n"
          ++ codes "\t\t FROM district\n"
          ++ codes "\t\t WHERE d_w_id = 42 AND d_id BETWEEN 3 AND 7\n"
          ++ codes "\t\t ORDER BY d_id DESC";
      tables = codes "district" ∷ [];
    }
    ∷ record {
      name = codes "district_join_warehouse";
      statement =
          codes "SELECT d.d_id, d.d_name, w.w_name\n"
          ++ codes "\t\t FROM district AS d\n"
          ++ codes "\t\t JOIN warehouse AS w ON w.w_id = d.d_w_id\n"
          ++ codes "\t\t WHERE d.d_w_id = 42 AND d.d_id = 3";
      tables = codes "d" ∷ codes "w" ∷ [];
    }
    ∷ record {
      name = codes "customer_by_id";
      statement =
          codes "SELECT c_first, c_middle, c_last, c_balance\n"
          ++ codes "\t\t FROM customer\n"
          ++ codes "\t\t WHERE c_w_id = 42 AND c_d_id = 1 AND c_id = 707";
      tables = codes "customer" ∷ [];
    }
    ∷ record {
      name = codes "customer_id_range";
      statement =
          codes "SELECT c_id, c_first, c_last\n"
          ++ codes "\t\t FROM customer\n"
          ++ codes "\t\t WHERE c_w_id = 42 AND c_d_id = 1 AND c_id BETWEEN 700 AND 710\n"
          ++ codes "\t\t ORDER BY c_id";
      tables = codes "customer" ∷ [];
    }
    ∷ record {
      name = codes "customer_last_count";
      statement =
          codes "SELECT COUNT(c_id) AS customer_count\n"
          ++ codes "\t\t FROM customer\n"
          ++ codes "\t\t WHERE c_w_id = 42 AND c_d_id = 1 AND c_last = 'LAST007'";
      tables = codes "customer" ∷ [];
    }
    ∷ record {
      name = codes "customer_last_limit";
      statement =
          codes "SELECT c_id, c_first, c_balance\n"
          ++ codes "\t\t FROM customer\n"
          ++ codes "\t\t WHERE c_w_id = 42 AND c_d_id = 1 AND c_last = 'LAST007'\n"
          ++ codes "\t\t ORDER BY c_first\n"
          ++ codes "\t\t LIMIT 5";
      tables = codes "customer" ∷ [];
    }
    ∷ record {
      name = codes "customer_credit_by_id";
      statement =
          codes "SELECT c_credit, c_credit_lim, c_discount\n"
          ++ codes "\t\t FROM customer\n"
          ++ codes "\t\t WHERE c_w_id = 42 AND c_d_id = 1 AND c_id = 707";
      tables = codes "customer" ∷ [];
    }
    ∷ []

abbrev pub order_queries : List WorkloadQuery
order_queries =
    record {
      name = codes "customer_join_district";
      statement =
          codes "SELECT c.c_id, c.c_last, d.d_name, d.d_tax\n"
          ++ codes "\t\t FROM customer AS c\n"
          ++ codes "\t\t JOIN district AS d ON d.d_w_id = c.c_w_id AND d.d_id = c.c_d_id\n"
          ++ codes "\t\t WHERE c.c_w_id = 42 AND c.c_d_id = 1 AND c.c_id = 707";
      tables = codes "c" ∷ codes "d" ∷ [];
    }
    ∷ record {
      name = codes "customer_join_warehouse";
      statement =
          codes "SELECT c.c_id, c.c_balance, w.w_name, w.w_tax\n"
          ++ codes "\t\t FROM customer AS c\n"
          ++ codes "\t\t JOIN warehouse AS w ON w.w_id = c.c_w_id\n"
          ++ codes "\t\t WHERE c.c_w_id = 42 AND c.c_d_id = 1 AND c.c_id = 707";
      tables = codes "c" ∷ codes "w" ∷ [];
    }
    ∷ record {
      name = codes "order_by_id";
      statement =
          codes "SELECT o_c_id, o_entry_d, o_carrier_id, o_ol_cnt\n"
          ++ codes "\t\t FROM orders\n"
          ++ codes "\t\t WHERE o_w_id = 42 AND o_d_id = 1 AND o_id = 707";
      tables = codes "orders" ∷ [];
    }
    ∷ record {
      name = codes "orders_customer_range";
      statement =
          codes "SELECT o_id, o_entry_d, o_carrier_id\n"
          ++ codes "\t\t FROM orders\n"
          ++ codes "\t\t WHERE o_w_id = 42 AND o_d_id = 1 AND o_c_id = 707\n"
          ++ codes "\t\t   AND o_id BETWEEN 700 AND 720\n"
          ++ codes "\t\t ORDER BY o_id";
      tables = codes "orders" ∷ [];
    }
    ∷ record {
      name = codes "orders_customer_count";
      statement =
          codes "SELECT COUNT(*) AS order_count\n"
          ++ codes "\t\t FROM orders\n"
          ++ codes "\t\t WHERE o_w_id = 42 AND o_d_id = 1 AND o_c_id = 707";
      tables = codes "orders" ∷ [];
    }
    ∷ record {
      name = codes "orders_recent_range";
      statement =
          codes "SELECT o_id, o_c_id, o_ol_cnt\n"
          ++ codes "\t\t FROM orders\n"
          ++ codes "\t\t WHERE o_w_id = 42 AND o_d_id = 1 AND o_id >= 990\n"
          ++ codes "\t\t ORDER BY o_id DESC";
      tables = codes "orders" ∷ [];
    }
    ∷ record {
      name = codes "order_join_customer";
      statement =
          codes "SELECT o.o_id, o.o_entry_d, c.c_first, c.c_last\n"
          ++ codes "\t\t FROM orders AS o\n"
          ++ codes "\t\t JOIN customer AS c\n"
          ++ codes "\t\t   ON c.c_w_id = o.o_w_id AND c.c_d_id = o.o_d_id AND c.c_id = o.o_c_id\n"
          ++ codes "\t\t WHERE o.o_w_id = 42 AND o.o_d_id = 1 AND o.o_id = 707";
      tables = codes "o" ∷ codes "c" ∷ [];
    }
    ∷ record {
      name = codes "new_order_by_id";
      statement =
          codes "SELECT no_o_id, no_d_id, no_w_id\n"
          ++ codes "\t\t FROM new_order\n"
          ++ codes "\t\t WHERE no_w_id = 42 AND no_d_id = 1 AND no_o_id = 907";
      tables = codes "new_order" ∷ [];
    }
    ∷ record {
      name = codes "new_order_first";
      statement =
          codes "SELECT no_o_id\n"
          ++ codes "\t\t FROM new_order\n"
          ++ codes "\t\t WHERE no_w_id = 42 AND no_d_id = 1\n"
          ++ codes "\t\t ORDER BY no_o_id\n"
          ++ codes "\t\t LIMIT 1";
      tables = codes "new_order" ∷ [];
    }
    ∷ []

abbrev pub join_queries : List WorkloadQuery
join_queries =
    record {
      name = codes "new_order_count";
      statement =
          codes "SELECT COUNT(*) AS new_order_count\n"
          ++ codes "\t\t FROM new_order\n"
          ++ codes "\t\t WHERE no_w_id = 42 AND no_d_id = 1 AND no_o_id >= 900";
      tables = codes "new_order" ∷ [];
    }
    ∷ record {
      name = codes "order_line_by_id";
      statement =
          codes "SELECT ol_i_id, ol_quantity, ol_amount\n"
          ++ codes "\t\t FROM order_line\n"
          ++ codes "\t\t WHERE ol_w_id = 42 AND ol_d_id = 1 AND ol_o_id = 907 AND ol_number = 3";
      tables = codes "order_line" ∷ [];
    }
    ∷ record {
      name = codes "order_line_order_sum";
      statement =
          codes "SELECT SUM(ol_amount) AS order_amount\n"
          ++ codes "\t\t FROM order_line\n"
          ++ codes "\t\t WHERE ol_w_id = 42 AND ol_d_id = 1 AND ol_o_id = 907";
      tables = codes "order_line" ∷ [];
    }
    ∷ record {
      name = codes "order_line_order_range";
      statement =
          codes "SELECT ol_o_id, ol_number, ol_i_id\n"
          ++ codes "\t\t FROM order_line\n"
          ++ codes "\t\t WHERE ol_w_id = 42 AND ol_d_id = 1\n"
          ++ codes "\t\t   AND ol_o_id BETWEEN 900 AND 905 AND ol_number = 1\n"
          ++ codes "\t\t ORDER BY ol_o_id";
      tables = codes "order_line" ∷ [];
    }
    ∷ record {
      name = codes "order_line_join_orders";
      statement =
          codes "SELECT ol.ol_number, ol.ol_i_id, o.o_c_id\n"
          ++ codes "\t\t FROM order_line AS ol\n"
          ++ codes "\t\t JOIN orders AS o\n"
          ++ codes
              "\t\t   ON o.o_w_id = ol.ol_w_id AND o.o_d_id = ol.ol_d_id AND o.o_id = ol.ol_o_id\n"
          ++ codes "\t\t WHERE ol.ol_w_id = 42 AND ol.ol_d_id = 1 AND ol.ol_o_id = 907";
      tables = codes "ol" ∷ codes "o" ∷ [];
    }
    ∷ record {
      name = codes "item_by_id";
      statement =
          codes "SELECT i_name, i_price, i_data\n"
          ++ codes "\t\t FROM item\n"
          ++ codes "\t\t WHERE i_id = 707";
      tables = codes "item" ∷ [];
    }
    ∷ record {
      name = codes "item_id_range";
      statement =
          codes "SELECT i_id, i_name, i_price\n"
          ++ codes "\t\t FROM item\n"
          ++ codes "\t\t WHERE i_id BETWEEN 700 AND 710\n"
          ++ codes "\t\t ORDER BY i_id";
      tables = codes "item" ∷ [];
    }
    ∷ record {
      name = codes "stock_by_id";
      statement =
          codes "SELECT s_quantity, s_ytd, s_order_cnt, s_remote_cnt\n"
          ++ codes "\t\t FROM stock\n"
          ++ codes "\t\t WHERE s_w_id = 42 AND s_i_id = 707";
      tables = codes "stock" ∷ [];
    }
    ∷ record {
      name = codes "stock_item_range";
      statement =
          codes "SELECT s_i_id, s_quantity\n"
          ++ codes "\t\t FROM stock\n"
          ++ codes "\t\t WHERE s_w_id = 42 AND s_i_id BETWEEN 700 AND 710\n"
          ++ codes "\t\t ORDER BY s_i_id";
      tables = codes "stock" ∷ [];
    }
    ∷ []

unfoldable pub tpcc_queries : List WorkloadQuery
tpcc_queries = transaction_queries ++ (district_queries ++ (order_queries ++ join_queries))
