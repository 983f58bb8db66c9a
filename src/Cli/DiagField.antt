-- ===== src/Cli/DiagField.antt =====
-- The codes of the diagnostics items that the runtime uses: those of libvsql/libvsql.h, and the
-- ones of the runtime's own (vsql/std_2_13_1_sql_client_module_definition.c).
use vsql.Base.Ints.{ℤ, pos, negsuc}

abbrev pub number : ℤ
number = pos 2

abbrev pub row_count : ℤ
row_count = pos 3

abbrev pub sqlstate : ℤ
sqlstate = pos 4

abbrev pub message_text : ℤ
message_text = pos 6

abbrev pub cli_dynamic_function : ℤ
cli_dynamic_function = pos 7

abbrev pub class_origin : ℤ
class_origin = pos 8

abbrev pub subclass_origin : ℤ
subclass_origin = pos 9

abbrev pub connection_name : ℤ
connection_name = pos 10

abbrev pub server_name : ℤ
server_name = pos 11

abbrev pub cli_dynamic_function_code : ℤ
cli_dynamic_function_code = pos 12

abbrev pub more : ℤ
more = pos 13

abbrev pub constraint_catalog : ℤ
constraint_catalog = pos 15

abbrev pub constraint_schema : ℤ
constraint_schema = pos 16

abbrev pub constraint_name : ℤ
constraint_name = pos 17

abbrev pub cursor_name : ℤ
cursor_name = pos 22

abbrev pub message_length : ℤ
message_length = pos 23

abbrev pub message_octet_length : ℤ
message_octet_length = pos 24

abbrev pub transactions_committed : ℤ
transactions_committed = pos 34

abbrev pub transactions_rolled_back : ℤ
transactions_rolled_back = pos 35

abbrev pub transaction_active : ℤ
transaction_active = pos 36

-- VSQL_M_COMMAND_FUNCTION and the three after it
abbrev pub command_function : ℤ
command_function = negsuc 0

abbrev pub command_function_code : ℤ
command_function_code = negsuc 1

abbrev pub dynamic_function : ℤ
dynamic_function = negsuc 2

abbrev pub dynamic_function_code : ℤ
dynamic_function_code = negsuc 3
