-- ===== src/Compare/Plan/Json.antt =====
-- `PlanNode.String`: a node's own fields as a JSON object, as `json.Marshal` prints them. Texts are
-- valid UTF-8 without U+2028 and U+2029.
use optimizer_canary_service.Base.{
  ℕ, ◌+◌, ◌-◌, ◌/◌, ◌%◌, String, ◌||◌, [], ◌∷◌, ◌++◌, ltb, ◌==◌, if◌then◌else◌,
}
use optimizer_canary_service.Text.{Bytes, codes}

-- The fields of a `PlanNode` but for `Children`.
pub record Operator : Type 0 where
  pub operator : Bytes
  pub id : ℕ
  pub task : Bytes
  pub index : Bytes
  pub access_table : Bytes

hex_digit : ℕ → ℕ
hex_digit d = if ltb d 10 then b'0' + d else b'a' + (d - 10)

unicode_escape : ℕ → Bytes
unfolding hex_digit
unicode_escape c = codes "\\u00" ++ (hex_digit (c / 16) ∷ hex_digit (c % 16) ∷ [])

json_byte : ℕ → Bytes
unfolding unicode_escape
json_byte c =
    if c == b'"'
    then codes "\\\""
    else if c == b'\\'
    then codes "\\\\"
    else if c == 8
    then codes "\\b"
    else if c == 12
    then codes "\\f"
    else if c == 10
    then codes "\\n"
    else if c == 13
    then codes "\\r"
    else if c == 9
    then codes "\\t"
    else if ltb c 32 || c == b'<' || c == b'>' || c == b'&'
    then unicode_escape c
    else c ∷ []

json_bytes : Bytes → Bytes
unfolding json_byte
json_bytes [] = []
json_bytes (c ∷ s) = json_byte c ++ json_bytes s

json_field : String → Bytes → Bytes
unfolding json_bytes
json_field name value = b'"' ∷ (codes name ++ (codes "\":\"" ++ (json_bytes value ++ (b'"' ∷ []))))

-- `func (n *PlanNode) String() string`.
unfoldable pub node_string : Operator → Bytes
unfolding json_field
node_string n =
    b'{'
    ∷ (json_field "operator" n.operator
        ++ (b','
            ∷ (json_field "task" n.task
                ++ (b','
                    ∷ (json_field "index" n.index
                        ++ (b',' ∷ (json_field "accessTable" n.access_table ++ (b'}' ∷ []))))))))
