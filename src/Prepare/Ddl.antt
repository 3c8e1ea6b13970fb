-- ===== src/Prepare/Ddl.antt =====
-- `tpccTableDDLs` of prepare/tpcc_schema.go.
use optimizer_canary_service.Base.{List, [], ◌∷◌, ◌++◌}
use optimizer_canary_service.Text.{Bytes, codes}

pub record TableDdl : Type 0 where
  pub name : Bytes
  pub sql : Bytes

abbrev pub warehouse_ddl : TableDdl
warehouse_ddl = record {
  name = codes "warehouse";
  sql =
      codes "CREATE TABLE IF NOT EXISTS warehouse (\n"
      ++ codes "\t\tw_id INT NOT NULL,\n"
      ++ codes "\t\tw_name VARCHAR(10),\n"
      ++ codes "\t\tw_street_1 VARCHAR(20),\n"
      ++ codes "\t\tw_street_2 VARCHAR(20),\n"
      ++ codes "\t\tw_city VARCHAR(20),\n"
      ++ codes "\t\tw_state CHAR(2),\n"
      ++ codes "\t\tw_zip CHAR(9),\n"
      ++ codes "\t\tw_tax DECIMAL(4, 4),\n"
      ++ codes "\t\tw_ytd DECIMAL(12, 2),\n"
      ++ codes "\t\tPRIMARY KEY (w_id)\n"
      ++ codes "\t)";
}

abbrev pub district_ddl : TableDdl
district_ddl = record {
  name = codes "district";
  sql =
      codes "CREATE TABLE IF NOT EXISTS district (\n"
      ++ codes "\t\td_id INT NOT NULL,\n"
      ++ codes "\t\td_w_id INT NOT NULL,\n"
      ++ codes "\t\td_name VARCHAR(10),\n"
      ++ codes "\t\td_street_1 VARCHAR(20),\n"
      ++ codes "\t\td_street_2 VARCHAR(20),\n"
      ++ codes "\t\td_city VARCHAR(20),\n"
      ++ codes "\t\td_state CHAR(2),\n"
      ++ codes "\t\td_zip CHAR(9),\n"
      ++ codes "\t\td_tax DECIMAL(4, 4),\n"
      ++ codes "\t\td_ytd DECIMAL(12, 2),\n"
      ++ codes "\t\td_next_o_id INT,\n"
      ++ codes "\t\tPRIMARY KEY (d_w_id, d_id)\n"
      ++ codes "\t)";
}

abbrev pub customer_ddl : TableDdl
customer_ddl = record {
  name = codes "customer";
  sql =
      codes "CREATE TABLE IF NOT EXISTS customer (\n"
      ++ codes "\t\tc_id INT NOT NULL,\n"
      ++ codes "\t\tc_d_id INT NOT NULL,\n"
      ++ codes "\t\tc_w_id INT NOT NULL,\n"
      ++ codes "\t\tc_first VARCHAR(16),\n"
      ++ codes "\t\tc_middle CHAR(2),\n"
      ++ codes "\t\tc_last VARCHAR(16),\n"
      ++ codes "\t\tc_street_1 VARCHAR(20),\n"
      ++ codes "\t\tc_street_2 VARCHAR(20),\n"
      ++ codes "\t\tc_city VARCHAR(20),\n"
      ++ codes "\t\tc_state CHAR(2),\n"
      ++ codes "\t\tc_zip CHAR(9),\n"
      ++ codes "\t\tc_phone CHAR(16),\n"
      ++ codes "\t\tc_since DATETIME,\n"
      ++ codes "\t\tc_credit CHAR(2),\n"
      ++ codes "\t\tc_credit_lim DECIMAL(12, 2),\n"
      ++ codes "\t\tc_discount DECIMAL(4, 4),\n"
      ++ codes "\t\tc_balance DECIMAL(12, 2),\n"
      ++ codes "\t\tc_ytd_payment DECIMAL(12, 2),\n"
      ++ codes "\t\tc_payment_cnt INT,\n"
      ++ codes "\t\tc_delivery_cnt INT,\n"
      ++ codes "\t\tc_data VARCHAR(500),\n"
      ++ codes "\t\tPRIMARY KEY (c_w_id, c_d_id, c_id),\n"
      ++ codes "\t\tINDEX idx_customer (c_w_id, c_d_id, c_last, c_first)\n"
      ++ codes "\t)";
}

abbrev pub history_ddl : TableDdl
history_ddl = record {
  name = codes "history";
  sql =
      codes "CREATE TABLE IF NOT EXISTS history (\n"
      ++ codes "\t\th_c_id INT NOT NULL,\n"
      ++ codes "\t\th_c_d_id INT NOT NULL,\n"
      ++ codes "\t\th_c_w_id INT NOT NULL,\n"
      ++ codes "\t\th_d_id INT NOT NULL,\n"
      ++ codes "\t\th_w_id INT NOT NULL,\n"
      ++ codes "\t\th_date DATETIME,\n"
      ++ codes "\t\th_amount DECIMAL(6, 2),\n"
      ++ codes "\t\th_data VARCHAR(24),\n"
      ++ codes "\t\tINDEX idx_h_w_id (h_w_id),\n"
      ++ codes "\t\tINDEX idx_h_c_w_id (h_c_w_id)\n"
      ++ codes "\t)";
}

abbrev pub new_order_ddl : TableDdl
new_order_ddl = record {
  name = codes "new_order";
  sql =
      codes "CREATE TABLE IF NOT EXISTS new_order (\n"
      ++ codes "\t\tno_o_id INT NOT NULL,\n"
      ++ codes "\t\tno_d_id INT NOT NULL,\n"
      ++ codes "\t\tno_w_id INT NOT NULL,\n"
      ++ codes "\t\tPRIMARY KEY (no_w_id, no_d_id, no_o_id)\n"
      ++ codes "\t)";
}

abbrev pub orders_ddl : TableDdl
orders_ddl = record {
  name = codes "orders";
  sql =
      codes "CREATE TABLE IF NOT EXISTS orders (\n"
      ++ codes "\t\to_id INT NOT NULL,\n"
      ++ codes "\t\to_d_id INT NOT NULL,\n"
      ++ codes "\t\to_w_id INT NOT NULL,\n"
      ++ codes "\t\to_c_id INT,\n"
      ++ codes "\t\to_entry_d DATETIME,\n"
      ++ codes "\t\to_carrier_id INT,\n"
      ++ codes "\t\to_ol_cnt INT,\n"
      ++ codes "\t\to_all_local INT,\n"
      ++ codes "\t\tPRIMARY KEY (o_w_id, o_d_id, o_id),\n"
      ++ codes "\t\tINDEX idx_order (o_w_id, o_d_id, o_c_id, o_id)\n"
      ++ codes "\t)";
}

abbrev pub order_line_ddl : TableDdl
order_line_ddl = record {
  name = codes "order_line";
  sql =
      codes "CREATE TABLE IF NOT EXISTS order_line (\n"
      ++ codes "\t\tol_o_id INT NOT NULL,\n"
      ++ codes "\t\tol_d_id INT NOT NULL,\n"
      ++ codes "\t\tol_w_id INT NOT NULL,\n"
      ++ codes "\t\tol_number INT NOT NULL,\n"
      ++ codes "\t\tol_i_id INT NOT NULL,\n"
      ++ codes "\t\tol_supply_w_id INT,\n"
      ++ codes "\t\tol_delivery_d DATETIME,\n"
      ++ codes "\t\tol_quantity INT,\n"
      ++ codes "\t\tol_amount DECIMAL(6, 2),\n"
      ++ codes "\t\tol_dist_info CHAR(24),\n"
      ++ codes "\t\tPRIMARY KEY (ol_w_id, ol_d_id, ol_o_id, ol_number)\n"
      ++ codes "\t)";
}

abbrev pub stock_ddl : TableDdl
stock_ddl = record {
  name = codes "stock";
  sql =
      codes "CREATE TABLE IF NOT EXISTS stock (\n"
      ++ codes "\t\ts_i_id INT NOT NULL,\n"
      ++ codes "\t\ts_w_id INT NOT NULL,\n"
      ++ codes "\t\ts_quantity INT,\n"
      ++ codes "\t\ts_dist_01 CHAR(24),\n"
      ++ codes "\t\ts_dist_02 CHAR(24),\n"
      ++ codes "\t\ts_dist_03 CHAR(24),\n"
      ++ codes "\t\ts_dist_04 CHAR(24),\n"
      ++ codes "\t\ts_dist_05 CHAR(24),\n"
      ++ codes "\t\ts_dist_06 CHAR(24),\n"
      ++ codes "\t\ts_dist_07 CHAR(24),\n"
      ++ codes "\t\ts_dist_08 CHAR(24),\n"
      ++ codes "\t\ts_dist_09 CHAR(24),\n"
      ++ codes "\t\ts_dist_10 CHAR(24),\n"
      ++ codes "\t\ts_ytd INT,\n"
      ++ codes "\t\ts_order_cnt INT,\n"
      ++ codes "\t\ts_remote_cnt INT,\n"
      ++ codes "\t\ts_data VARCHAR(50),\n"
      ++ codes "\t\tPRIMARY KEY (s_w_id, s_i_id)\n"
      ++ codes "\t)";
}

abbrev pub item_ddl : TableDdl
item_ddl = record {
  name = codes "item";
  sql =
      codes "CREATE TABLE IF NOT EXISTS item (\n"
      ++ codes "\t\ti_id INT NOT NULL,\n"
      ++ codes "\t\ti_im_id INT,\n"
      ++ codes "\t\ti_name VARCHAR(24),\n"
      ++ codes "\t\ti_price DECIMAL(5, 2),\n"
      ++ codes "\t\ti_data VARCHAR(50),\n"
      ++ codes "\t\tPRIMARY KEY (i_id)\n"
      ++ codes "\t)";
}

abbrev pub tpcc_table_ddls : List TableDdl
tpcc_table_ddls =
    warehouse_ddl ∷ district_ddl ∷ customer_ddl ∷ history_ddl ∷ new_order_ddl ∷ orders_ddl
    ∷ order_line_ddl ∷ stock_ddl ∷ item_ddl ∷ []
