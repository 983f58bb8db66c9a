-- ===== src/Diagnostics/Messages.antt =====
-- vsql_m_message (vsql/std_2_13_1_sql_client_module_definition.c).
use Prim.Native.String.{String}
use vsql.Base.{List, [], ◌∷◌, if◌then◌else◌}
use vsql.Base.Bytes.{Bytes, bytes, str_eq}

-- The messages of the conditions that the runtime raises.
unfoldable pub messages : List (String × String)
messages =
    ("01000", "warning")
    ∷ ("01004", "warning: string data, right truncation")
    ∷ ("01005", "warning: insufficient item descriptor areas")
    ∷ ("02000", "no data")
    ∷ ("07001", "dynamic SQL error: using clause does not match dynamic parameter specifications")
    ∷ ("07002", "dynamic SQL error: using clause does not match target specifications")
    ∷ ("07003", "dynamic SQL error: cursor specification cannot be executed")
    ∷ ("07004", "dynamic SQL error: using clause required for dynamic parameters")
    ∷ ("07005", "dynamic SQL error: prepared statement not a cursor specification")
    ∷ ("07007", "dynamic SQL error: using clause required for result fields")
    ∷ ("07008", "dynamic SQL error: invalid descriptor count")
    ∷ ("07009", "dynamic SQL error: invalid descriptor index")
    ∷ ("0700E", "dynamic SQL error: invalid LEVEL value")
    ∷ ("0700F", "dynamic SQL error: invalid DATETIME_INTERVAL_CODE")
    ∷ ("08002", "connection exception: connection name in use")
    ∷ ("08003", "connection exception: connection does not exist")
    ∷ ("0A001", "feature not supported: multiple server transactions")
    ∷ ("21000", "cardinality violation")
    ∷ ("22002", "data exception: null value, no indicator parameter")
    ∷ ("22003", "data exception: numeric value out of range")
    ∷ ("22005", "data exception: error in assignment")
    ∷ ("22010", "data exception: invalid indicator parameter value")
    ∷ ("22022", "data exception: indicator overflow")
    ∷ ("22024", "data exception: unterminated C string")
    ∷ ("24000", "invalid cursor state")
    ∷ ("25001", "invalid transaction state: active SQL-transaction")
    ∷ ("26000", "invalid SQL statement name")
    ∷ ("28000", "invalid authorization specification")
    ∷ ("2E000", "invalid connection name")
    ∷ ("33000", "invalid SQL descriptor name")
    ∷ ("42000", "syntax error or access rule violation")
    ∷ ("HY000", "CLI-specific condition: general error")
    ∷ ("HY001", "CLI-specific condition: memory allocation error")
    ∷ []

unfoldable pub message_in : Bytes → List (String × String) → Bytes
unfolding str_eq
message_in code [] = []
message_in code ((key, message) ∷ rest) =
    if str_eq (bytes key) code then bytes message else message_in code rest

-- vsql_m_message
unfoldable pub message_of : Bytes → Bytes
unfolding message_in messages
message_of code = message_in code messages
