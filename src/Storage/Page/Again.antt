-- ===== src/Storage/Page/Again.antt =====
-- A transaction inserts an object, deletes it and inserts it again: Storage.write_row and
-- Storage.delete_row (vsql/storage.v) on a page (vsql/page.v).
use vsql.Base.{
  ℕ, ◌+◌, ◌<◌, ◌≤◌, ◌≡◌, refl, inl, inr, true, not, ◌&&◌, none, List, [], ◌∷◌, arith, ◌==◌, length,
  Bool-cases, ==_refl,
}
use vsql.Base.Ints.{pos}
use vsql.Base.Bytes.{Bytes}
use vsql.Storage.Page.{PageObject, Page, Result, ok, ◌>>=◌, object_length, page_size}
use vsql.Storage.Page.Encoded.{IsEncodable}
use vsql.Storage.Page.Operations.{
  compare_bytes, versions, insert_object, sort_objects, add, expired, expire, with_xid,
  first_object, get,
}
use vsql.Storage.Page.Stored.{IsPage, objects_lem, length_size}
use vsql.Storage.Page.Refined.{add_lem, expire_lem}
use vsql.Storage.Page.Ended.{page_of, commit_page}
use vsql.Storage.Page.Amended.{run, is_object_self}
use vsql.Storage.Page.Looped.{HasKey, commit_act, commit_objects-run}

-- The object is inserted, deleted, and inserted with another value, and the transaction ends.
unfoldable pub insert_again : Bytes → PageObject → Page → Result Page
unfolding add expire commit_page
insert_again value o p = do
  p' ← add o p
  p'' ← page_of (expire o.key o.tid o.tid p')
  p''' ← add (record o { value = value }) p''
  commit_page o.tid p'''

compare_self : (key : Bytes) → compare_bytes key key ≡ pos 0
unfolding compare_bytes
compare_self [] = refl
compare_self (b ∷ bs) = rw (==_refl b) (compare_self bs)

module _ (n : ℕ) (p : Page) (o : PageObject) (value : Bytes) (h : IsPage n p []) (e : IsEncodable o)
    (k : IsEncodable (record o { value = value })) (x : o.xid ≡ 0) (y : HasKey o)
    (l : 16 + object_length o + object_length (record o { value = value }) ≤ n) where
  abbrev again : PageObject
  again = record o { value = value }

  inserted : (q : Page) × (add o p ≡ ok q) × IsPage n q (o ∷ [])
  unfolding sort_objects insert_object versions
  inserted =
      add_lem n p [] h o e (let u = h.used in let z = h.sized in omega (arith, length_size []))
        (omega arith)

  expired_one : expired o.key o.tid o.tid (o ∷ []) ≡ ok (true, with_xid o.tid o ∷ [])
  unfolding expired
  expired_one = elim (Bool-cases (not (o.tid == 0) && (not (o.xid == 0) && not (o.xid == o.tid)))) [
    | inl c ↦ absurd (ground arith)
    | inr c ↦ rw (is_object_self o, c) refl
  ]

  few : length (versions o.key (with_xid o.tid o ∷ [])) < 2
  unfolding versions
  few = rw (compare_self o.key) (omega arith)

  abbrev both : List PageObject
  both = with_xid o.tid o ∷ again ∷ []

  both_sorted : sort_objects both ≡ both
  unfolding sort_objects insert_object
  both_sorted = rw (compare_self o.key) refl

  both_run : run (commit_act o.tid) both both ≡ []
  both_run = rw (is_object_self o, ==_refl o.tid) refl

  -- In a page without objects, a transaction that inserts an object with a key, deletes it, inserts the key again
  -- with another value, and commits, leaves a page without the key: both versions have the transaction's
  -- number, and removing the one that was deleted removes the other one. The two objects fit in the page,
  -- and their numbers fit.
  pub insert_again-get :
      (q : Page) × (insert_again value o p ≡ ok q) × (get o.key o.tid q ≡ ok none)
  unfolding insert_again commit_page get first_object versions
  insert_again-get =
      let (p1, d, h1) = inserted in
      let (p2, f, h2) =
        expire_lem n p1 (o ∷ []) h1 o.key o.tid o.tid true (with_xid o.tid o ∷ []) e.tid_fits
          expired_one in
      let fits : p2.used + object_length again ≤ page_size p2 =
        (let u = h2.used in
          let z = h2.sized in omega (arith, length_size (with_xid o.tid o ∷ []))) in
      let (p3, g, h3) = add_lem n p2 (with_xid o.tid o ∷ []) h2 again k fits few in
      let w : IsPage n p3 both = rw both_sorted at h3 in
      let (q, c, r) = commit_objects-run o.tid n both both p3 w (y, (y, tt)) in
      (q, rw (d, f, g, objects_lem n p3 both w) c, rw (objects_lem n q [] (rw both_run at r)) refl)
