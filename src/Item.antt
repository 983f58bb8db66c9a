-- ===== src/Item.antt =====
-- struct vsql_m_item and the enumerations of its components
-- (vsql/std_2_13_1_sql_client_module_definition.c).
pub mod Checks
pub mod Contents
use vsql.Base.{ℕ, Bool, Option, none, ◌==◌, if◌then◌else◌}
use vsql.Base.Ints.{ℤ, pos}
use vsql.Base.Bytes.{Bytes}
use vsql.Cli.{Value}

-- VSQL_M_TYPE and the components after it
pub data NumberField : Type 0 where
  type length octet_length precision scale : NumberField
  datetime_interval_code datetime_interval_precision nullable unnamed level : NumberField
  key_member indicator returned_length returned_octet_length cardinality : NumberField
  degree parameter_mode parameter_ordinal_position returned_cardinality : NumberField
  user_defined_type_code : NumberField

-- VSQL_M_NAME and the components after it
pub data StringField : Type 0 where
  name character_set_catalog character_set_schema character_set_name : StringField
  collation_catalog collation_schema collation_name : StringField
  parameter_specific_catalog parameter_specific_schema parameter_specific_name : StringField
  scope_catalog scope_schema scope_name : StringField
  user_defined_type_catalog user_defined_type_schema user_defined_type_name : StringField

abbrev number_index : NumberField → ℕ
number_index type = 0
number_index length = 1
number_index octet_length = 2
number_index precision = 3
number_index scale = 4
number_index datetime_interval_code = 5
number_index datetime_interval_precision = 6
number_index nullable = 7
number_index unnamed = 8
number_index level = 9
number_index key_member = 10
number_index indicator = 11
number_index returned_length = 12
number_index returned_octet_length = 13
number_index cardinality = 14
number_index degree = 15
number_index parameter_mode = 16
number_index parameter_ordinal_position = 17
number_index returned_cardinality = 18
number_index user_defined_type_code = 19

abbrev string_index : StringField → ℕ
string_index name = 0
string_index character_set_catalog = 1
string_index character_set_schema = 2
string_index character_set_name = 3
string_index collation_catalog = 4
string_index collation_schema = 5
string_index collation_name = 6
string_index parameter_specific_catalog = 7
string_index parameter_specific_schema = 8
string_index parameter_specific_name = 9
string_index scope_catalog = 10
string_index scope_schema = 11
string_index scope_name = 12
string_index user_defined_type_catalog = 13
string_index user_defined_type_schema = 14
string_index user_defined_type_name = 15

abbrev pub Numbers : Type 0
Numbers = NumberField → ℤ

abbrev pub Strings : Type 0
Strings = StringField → Option Bytes

-- number[field] = v
abbrev pub set_number : Numbers → NumberField → ℤ → Numbers
set_number f i v j = if number_index i == number_index j then v else f j

abbrev pub set_string : Strings → StringField → Option Bytes → Strings
set_string f i v j = if string_index i == string_index j then v else f j

-- struct vsql_m_item. `data` is `none` when it is undefined.
pub record Item : Type 0 where
  pub number : Numbers
  pub string : Strings
  pub data_value : Option Value
  pub length : ℤ

-- What calloc makes, and vsql_m_reset_item, which leaves the length/indicator.
abbrev pub zero_item : Item
zero_item = record { number = λ i. pos 0; string = λ i. none; data_value = none; length = pos 0 }

-- vsql_m_reset_item
abbrev pub reset_item : Item → Item
reset_item item = record item { number = λ i. pos 0; string = λ i. none; data_value = none }
