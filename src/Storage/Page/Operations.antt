-- ===== src/Storage/Page/Operations.antt =====
-- The operations on a page: Page.update to Page.expire (vsql/page.v), and what COMMIT and ROLLBACK do
-- to it (vsql/std_2_17_7_commit_statement.v, vsql/std_2_17_8_rollback_statement.v).
use vsql.Base.{
  ℕ, suc, ◌+◌, ◌-◌, ◌%◌, ◌^◌, Bool, true, false, not, ◌&&◌, ◌||◌, Option, none, some, List, [], ◌∷◌,
  ◌++◌, ltb, leb, ◌==◌, if◌then◌else◌, length, replicate,
}
use vsql.Base.Ints.{ℤ, pos, negsuc, eqz, lez}
use vsql.Base.Bytes.{Bytes}
use vsql.Storage.Page.{
  PageObject, Page, Result, ok, conflict, panic, ◌>>=◌, object_length, object_bytes, page_size,
  page_header_size, objects,
}

abbrev pub minus : ℕ → ℕ → ℤ
minus a b = if leb b a then pos (a - b) else negsuc (b - a - 1)

unfoldable pub compare_bytes : Bytes → Bytes → ℤ
compare_bytes [] bs = minus 0 (length bs)
compare_bytes (a ∷ as') [] = minus (suc (length as')) 0
compare_bytes (a ∷ as') (b ∷ bs) = if a == b then compare_bytes as' bs else minus a b

abbrev pub is_key : Bytes → PageObject → Bool
is_key key o = eqz (compare_bytes o.key key) (pos 0)

abbrev pub is_object : Bytes → ℕ → PageObject → Bool
is_object key tid o = eqz (compare_bytes key o.key) (pos 0) && o.tid == tid

unfoldable pub new_page : ℕ → ℕ → Page
new_page kind size = record {
  kind = kind;
  used = page_header_size;
  content = replicate (size - page_header_size) 0;
}

-- Page.versions
unfoldable pub versions : Bytes → List PageObject → List ℕ
unfolding compare_bytes
versions key [] = []
versions key (o ∷ os) = if is_key key o then o.tid ∷ versions key os else versions key os

-- p.data[offset] = s[i], from the start of the page on
unfoldable pub write_over : Bytes → Bytes → Result Bytes
write_over [] content = ok content
write_over (b ∷ bs) [] = panic
write_over (b ∷ bs) (old ∷ content) = do rest ← write_over bs content; ok (b ∷ rest)

unfoldable pub all_bytes : List PageObject → Bytes
all_bytes [] = []
all_bytes (o ∷ os) = object_bytes o ++ all_bytes os

-- objects.sort_with_compare, which keeps objects with the same key in their order
unfoldable pub insert_object : PageObject → List PageObject → List PageObject
unfolding compare_bytes
insert_object o [] = o ∷ []
insert_object o (q ∷ qs) =
    if lez (compare_bytes o.key q.key) (pos 0) then o ∷ q ∷ qs else q ∷ insert_object o qs

unfoldable pub sort_objects : List PageObject → List PageObject
unfolding insert_object
sort_objects [] = []
sort_objects (o ∷ os) = insert_object o (sort_objects os)

-- Page.add
unfoldable pub add : PageObject → Page → Result Page
add o p = if ltb (page_size p) (p.used + object_length o) then panic else do
  os ← objects p
  if leb 2 (length (versions o.key os)) then conflict else do
    content ← write_over (all_bytes (sort_objects (os ++ o ∷ []))) p.content
    ok (record p { content = content; used = (p.used + object_length o) % 2 ^ 16 })

unfoldable pub without : Bytes → ℕ → List PageObject → List PageObject
unfolding compare_bytes
without key tid [] = []
without key tid (o ∷ os) =
    if is_object key tid o then without key tid os else o ∷ without key tid os

-- p.used -= u16(object.length()), for each object that goes
unfoldable pub used_without : Bytes → ℕ → List PageObject → ℕ → ℕ
unfolding compare_bytes
used_without key tid [] used = used
used_without key tid (o ∷ os) used =
    used_without key tid os
      (if is_object key tid o then (used + 2 ^ 16 - object_length o % 2 ^ 16) % 2 ^ 16 else used)

unfoldable pub has_object : Bytes → ℕ → List PageObject → Bool
unfolding compare_bytes
has_object key tid [] = false
has_object key tid (o ∷ os) = is_object key tid o || has_object key tid os

-- Page.delete
unfoldable pub delete : Bytes → ℕ → Page → Result (Bool × Page)
delete key tid p = do
  os ← objects p
  content ← write_over (all_bytes (without key tid os)) p.content
  ok (has_object key tid os, record p { content = content; used = used_without key tid os p.used })

-- Page.get: the first one, if there is one
unfoldable pub first_object : Bytes → ℕ → List PageObject → Option PageObject
unfolding compare_bytes
first_object key tid [] = none
first_object key tid (o ∷ os) = if is_object key tid o then some o else first_object key tid os

unfoldable pub get : Bytes → ℕ → Page → Result (Option PageObject)
get key tid p = do os ← objects p; ok (first_object key tid os)

abbrev pub with_xid : ℕ → PageObject → PageObject
with_xid xid o = record o { xid = xid }

-- The objects of Page.expire, and whether one was modified. An object that another transaction has
-- expired is a conflict.
unfoldable pub expired : Bytes → ℕ → ℕ → List PageObject → Result (Bool × List PageObject)
unfolding compare_bytes
expired key tid xid [] = ok (false, [])
expired key tid xid (o ∷ os) = do
  (modified, rest) ← expired key tid xid os
  if is_object key tid o
      then (if not (xid == 0) && (not (o.xid == 0) && not (o.xid == xid))
          then conflict
          else ok (true, with_xid xid o ∷ rest))
      else ok (modified, o ∷ rest)

-- Page.expire
unfoldable pub expire : Bytes → ℕ → ℕ → Page → Result (Bool × Page)
expire key tid xid p = do
  os ← objects p
  (modified, os') ← expired key tid xid os
  content ← write_over (all_bytes os') p.content
  ok (modified, record p { content = content })

-- Page.update
unfoldable pub update : PageObject → ℕ → Page → Result Page
update old tid p = do
  os ← objects p
  elim (versions old.key os) [
    | [] ↦ ok p
    | v ∷ [] ↦
        if v == tid
        then (do (done, p') ← delete old.key tid p; ok p')
        else (do (modified, p') ← expire old.key v tid p; ok p')
    | v ∷ w ∷ [] ↦ (do (done, p') ← delete old.key tid p; ok p')
    | v ∷ w ∷ x ∷ more ↦ ok p
  ]
