-- ===== src/Tests/Storage/Pages.antt =====
-- Two transactions write versions of an object to a page, and a pager keeps pages in memory.
use vsql.Base.{
  ℕ, ◌<◌, ◌≡◌, refl, ◌⊎◌, false, Option, none, some, List, [], ◌∷◌, arith, length, ◌==◌,
  if◌then◌else◌,
}
use vsql.Base.Bytes.{Bytes, bytes}
use mathlib.Core.List.{Perm}
use vsql.Storage.Mvcc.{
  TransactionIds, no_transactions, add, remove, exists, index_of, is_in, update_end, last_used,
  object_is_visible,
}
use vsql.Storage.Page.{
  PageObject, Page, Result, ok, conflict, panic, objects, objects_from, page_size, object_bytes,
  parse_page_object, read_prefix, read_u8s, value_length,
}
use vsql.Storage.Page.Encoded.{IsEncodable}
use vsql.Storage.Page.Operations.{
  get, new_page, update, versions, add as store_object, write_over, all_bytes, sort_objects, expire,
  expired, compare_bytes, insert_object, delete, has_object, used_without, without,
}
use vsql.Storage.Numbers.{to_int}
use vsql.Base.Ints.{narrow, narrow_16}
use vsql.Storage.Page.Refined.{Stores}
use vsql.Storage.Page.Ended.{write, commit_page, rollback_page, read_page, commit_objects, seen}
use vsql.Storage.Page.Written.{written, write-Stores}
use vsql.Storage.Page.Reached.{
  Reached, made, begun, wrote, committed, new_page-IsPage, commit-read, rollback-read, write-read,
}
use vsql.Storage.Pager.{new_file_pager}
use vsql.Storage.Page.Again.{insert_again, insert_again-get}
use vsql.Storage.Pager.Cache.{Operation, fetch, store, append, forget, answers, answers-cache}

abbrev object : ℕ → Bytes → PageObject
object tid value = record {
  key = bytes "k";
  value = value;
  is_blob_ref = false;
  tid = tid;
  xid = 0;
}

abbrev first : PageObject
first = object 5 (bytes "1")

abbrev second : PageObject
second = object 6 (bytes "2")

abbrev page_in : Result Page → Page
page_in (ok p) = p
page_in conflict = new_page 0 0
page_in panic = new_page 0 0

abbrev active_in : Option TransactionIds → TransactionIds
active_in none = no_transactions
active_in (some t) = t

abbrev only_5 : TransactionIds
only_5 = active_in (add 5 no_transactions)

abbrev only_6 : TransactionIds
only_6 = active_in (add 6 (remove 5 only_5))

abbrev empty_page : Page
empty_page = new_page 0 120

abbrev page_5 : Page
page_5 = page_in (write first empty_page)

abbrev page_6 : Page
page_6 = page_in (write second (page_in (commit_page 5 page_5)))

encodable : (tid : ℕ) (value : Bytes) → tid < 9 → length value < 9 → IsEncodable (object tid value)
encodable tid value h k = record {
  key_fits = omega arith;
  length_fits = omega arith;
  tid_fits = omega arith;
  xid_fits = omega arith;
}

reached_5 : Reached 120 only_5 page_5
unfolding write update objects objects_from versions store_object page_size write_over all_bytes
    sort_objects object_bytes parse_page_object read_prefix read_u8s value_length expire expired
    compare_bytes insert_object narrow narrow_16 to_int new_page add index_of is_in remove
    update_end last_used exists commit_page commit_objects delete has_object used_without without
reached_5 =
    wrote first (begun 5 (made 0 (omega arith) (omega arith)) (λ e. absurd (omega arith)) refl refl)
      ((λ e. absurd (omega arith)), refl) (encodable 5 (bytes "1") (omega arith) (omega arith))
      (omega arith) refl

reached_6 : Reached 120 only_6 page_6
unfolding write update objects objects_from versions store_object page_size write_over all_bytes
    sort_objects object_bytes parse_page_object read_prefix read_u8s value_length expire expired
    compare_bytes insert_object narrow narrow_16 to_int new_page add index_of is_in remove
    update_end last_used exists commit_page commit_objects delete has_object used_without without
reached_6 =
    wrote second
      (begun 6 (committed 5 reached_5 (λ e. absurd (omega arith)) refl) (λ e. absurd (omega arith))
        refl refl)
      ((λ e. absurd (omega arith)), refl) (encodable 6 (bytes "2") (omega arith) (omega arith))
      (omega arith) refl

abbrev values : Bytes → Result (List (Bytes × Bytes))
values value = ok ((bytes "k", value) ∷ [])

reads_old : read_page 0 only_6 page_6 ≡ values (bytes "1")
unfolding write update objects objects_from versions store_object page_size write_over all_bytes
    sort_objects object_bytes parse_page_object read_prefix read_u8s value_length expire expired
    compare_bytes insert_object narrow narrow_16 to_int new_page add index_of is_in remove
    update_end last_used exists commit_page commit_objects delete has_object used_without without
    read_page seen object_is_visible
reads_old = refl

reads_own : read_page 6 only_6 page_6 ≡ values (bytes "2")
unfolding write update objects objects_from versions store_object page_size write_over all_bytes
    sort_objects object_bytes parse_page_object read_prefix read_u8s value_length expire expired
    compare_bytes insert_object narrow narrow_16 to_int new_page add index_of is_in remove
    update_end last_used exists commit_page commit_objects delete has_object used_without without
    read_page seen object_is_visible
reads_own = refl

commit-read_example :
    (q : Page) × (commit_page 6 page_6 ≡ ok q)
    × (read_page 0 (remove 6 only_6) q ≡ read_page 6 only_6 page_6)
unfolding reached_6 reached_5
commit-read_example =
    commit-read 120 reached_6 tt 6 0 (λ e. absurd (omega arith)) (λ d. absurd (d refl))

rollback-read_example :
    (q : Page) × (rollback_page 6 page_6 ≡ ok q)
    × (read_page 7 (remove 6 only_6) q ≡ read_page 7 only_6 page_6)
unfolding add index_of is_in remove update_end last_used exists reached_6 reached_5
rollback-read_example =
    rollback-read 120 reached_6 tt 6 7 (λ e. absurd (omega arith)) (λ e. absurd (omega arith)) refl

write-read_example :
    (write second page_6 ≡ conflict)
    ⊎ ((q : Page) × (before after : List (Bytes × Bytes)) × (write second page_6 ≡ ok q)
        × (read_page 7 only_6 page_6 ≡ ok before)
        × (read_page 7 only_6 q ≡ ok after)
        × Perm after before)
unfolding write update objects objects_from versions store_object page_size write_over all_bytes
    sort_objects object_bytes parse_page_object read_prefix read_u8s value_length expire expired
    compare_bytes insert_object narrow narrow_16 to_int new_page add index_of is_in remove
    update_end last_used exists commit_page commit_objects delete has_object used_without without
write-read_example =
    write-read 120 reached_6 second 7 (λ e. absurd (omega arith))
      (encodable 6 (bytes "2") (omega arith) (omega arith)) (omega arith) refl
      (λ e. absurd (omega arith))

write-Stores_example : Stores 120 (write first empty_page) (written first [])
unfolding new_page
write-Stores_example =
    write-Stores 120 first empty_page [] (new_page-IsPage 0 120 (omega arith) (omega arith))
      (encodable 5 (bytes "1") (omega arith) (omega arith)) (omega arith)

insert_again-get_example :
    (q : Page) × (insert_again (bytes "2") first empty_page ≡ ok q)
    × (get (bytes "k") 5 q ≡ ok none)
insert_again-get_example =
    insert_again-get 120 empty_page first (bytes "2")
      (new_page-IsPage 0 120 (omega arith) (omega arith))
      (encodable 5 (bytes "1") (omega arith) (omega arith))
      (encodable 5 (bytes "2") (omega arith) (omega arith)) refl refl (omega arith)

abbrev file : ℕ → Option Bytes
file n = if n == 9 then none else some (bytes "a page of 20 bytes .")

-- The file after a commit
abbrev later : ℕ → Option Bytes
later n = some (bytes "the page after this.")

abbrev operations : List Operation
operations =
    fetch 0
    ∷ fetch 1
    ∷ fetch 0
    ∷ store 0 page_5
    ∷ fetch 0
    ∷ fetch 9
    ∷ append page_5
    ∷ forget later
    ∷ fetch 1
    ∷ fetch 0
    ∷ []

answers-cache_example :
    answers file operations (new_file_pager 4136 20 0 1)
    ≡ answers file operations (new_file_pager 4136 20 0 0)
answers-cache_example = answers-cache file operations 4136 20 0 1
