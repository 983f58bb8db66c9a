-- ===== src/Cli/SqlType.antt =====
-- The codes of the data types (libvsql/libvsql.h).
use vsql.Base.Ints.{ℤ, pos}

abbrev pub char : ℤ
char = pos 1

abbrev pub numeric : ℤ
numeric = pos 2

abbrev pub decimal : ℤ
decimal = pos 3

abbrev pub integer : ℤ
integer = pos 4

abbrev pub smallint : ℤ
smallint = pos 5

abbrev pub float : ℤ
float = pos 6

abbrev pub real : ℤ
real = pos 7

abbrev pub double : ℤ
double = pos 8

abbrev pub datetime : ℤ
datetime = pos 9

abbrev pub varchar : ℤ
varchar = pos 12

abbrev pub boolean : ℤ
boolean = pos 16

abbrev pub bigint : ℤ
bigint = pos 25

-- SQL_TYPE_DATE and SQL_TYPE_TIMESTAMP_WITH_TIMEZONE, the ends of the concise datetime types
abbrev pub type_date : ℤ
type_date = pos 91

abbrev pub type_timestamp_with_timezone : ℤ
type_timestamp_with_timezone = pos 95
