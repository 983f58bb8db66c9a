-- ===== src/Tests/Items.antt =====
-- SQL descriptor areas and their items (vsql/std_2_20_1_description_of_sql_descriptor_areas.c).
use vsql.Base.{◌≡◌, refl, inl, true, false, none, some, [], ◌∷◌, if◌then◌else◌}
use vsql.Base.Ints.{IsInt32, pos, narrow}
use vsql.Base.Bytes.{bytes}
use vsql.Cli.{long, int}
use vsql.Cli.SqlType
use vsql.Runtime.{Descriptor}
use vsql.Item.{Item, NumberField, zero_item}
use vsql.Item.Checks.{matches, valid}
use vsql.Item.Contents.{with_number, get_data, set_data, set_type, set_component, set_number}
use vsql.Item.Contents.Typed.{IsTyped, after, set_data-IsTyped, get_data_lem}
use vsql.Item.Contents.Numbers.{default_length, set_number_lem, set_type-valid}
use vsql.Action.{pure, ◌>>=◌}
use vsql.Action.Hoare.{is_none}
use vsql.Item.Contents.Stored.{set_data-get_data}
use vsql.Item.Contents.{store, as_data}
use vsql.Item.Checks.{matches, type_matches}
use vsql.Action.{allocate, call}
use vsql.Cli.{long_long, failed}
use vsql.Descriptor.{find, remove, update, new_descriptor}
use vsql.Descriptor.Names.{same_key, change, IsDistinct, find-update, find-remove}
use vsql.Program.{initial}
use vsql.Tests.Programs.{quiet}

abbrev integer_item : Item
integer_item = record (with_number NumberField.type SqlType.integer zero_item) {
  data_value = some (int (pos 3));
}

set_data-IsTyped_example :
    IsTyped (after (set_data SqlType.integer (pos 0) (long (pos 5)) integer_item) quiet initial)
set_data-IsTyped_example =
    set_data-IsTyped SqlType.integer (pos 0) (long (pos 5)) integer_item quiet initial (inl refl)
      refl

get_data_lem_example : is_none (get_data integer_item SqlType.integer 0 (long (pos 0))) ≡ false
unfolding matches
get_data_lem_example =
    get_data_lem integer_item SqlType.integer (pos 0) 0 (long (pos 0)) refl refl refl

set_type-valid_example :
    let changed =
      with_number NumberField.type SqlType.numeric
        (set_type SqlType.numeric zero_item quiet initial).0 in
    (valid changed ≡ true)
    × (changed.number NumberField.type ≡ SqlType.numeric)
    × (changed.number NumberField.length ≡ default_length SqlType.numeric)
    × (changed.number NumberField.precision ≡ pos 18)
    × (changed.number NumberField.scale ≡ pos 0)
set_type-valid_example = set_type-valid SqlType.numeric zero_item quiet initial refl refl

set_number_lem_example :
    IsInt32 (pos 6)
    × ((set_number NumberField.scale (pos 6) zero_item quiet initial).0.1.number NumberField.scale
        ≡ pos 6)
unfolding set_number set_component narrow ◌>>=◌ pure
set_number_lem_example = set_number_lem NumberField.scale (pos 6) zero_item quiet initial refl

abbrev bigint_item : Item
bigint_item = with_number NumberField.type SqlType.bigint zero_item

abbrev one : Descriptor
one = new_descriptor (bytes "D") none 2

abbrev two : Descriptor
two = new_descriptor (bytes "E") (some 7) 1

abbrev counted : Descriptor → Descriptor
counted d = record d { count = pos 1 }

find-update_example : find (bytes "D") none (update (bytes "D") none counted (one ∷ two ∷ [])) ≡ (
    if same_key (bytes "D") none (bytes "D") none
    then change counted (find (bytes "D") none (one ∷ two ∷ []))
    else find (bytes "D") none (one ∷ two ∷ []))
find-update_example =
    find-update (bytes "D") none counted (λ d. (refl, refl)) (bytes "D") none (one ∷ two ∷ [])

distinct : IsDistinct (one ∷ two ∷ [])
unfolding find
distinct = (refl, (refl, tt))

find-remove_example : find (bytes "D") none (remove (bytes "D") none (one ∷ two ∷ [])) ≡ (
    if same_key (bytes "D") none (bytes "D") none
    then none
    else find (bytes "D") none (one ∷ two ∷ []))
find-remove_example = find-remove (bytes "D") none (bytes "D") none (one ∷ two ∷ []) distinct

could : (set_number NumberField.nullable (pos 9) zero_item quiet initial).0.0 ≡ true
unfolding set_number set_component pure ◌>>=◌ narrow
could = refl

written : (set_data SqlType.bigint (pos 0) (long_long (pos 5)) bigint_item quiet initial).0.0 ≡ true
unfolding set_data matches type_matches as_data store allocate call failed pure ◌>>=◌
written = refl

set_data-get_data_example :
    get_data
      (after (set_data SqlType.bigint (pos 0) (long_long (pos 5)) bigint_item) quiet initial)
      SqlType.bigint
      0
      (long_long (pos 0))
    ≡ some (false, long_long (pos 5))
set_data-get_data_example =
    set_data-get_data SqlType.bigint (pos 0) 0 (long_long (pos 0)) (long_long (pos 5)) bigint_item
      quiet initial refl refl written
