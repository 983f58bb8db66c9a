-- ===== src/Storage/Page/Ended.antt =====
-- What the statements do to a page: a new version of an object (vsql/btree.v), COMMIT
-- (vsql/std_2_17_7_commit_statement.v), ROLLBACK (vsql/std_2_17_8_rollback_statement.v), and what is
-- read from it (vsql/storage.v).
use vsql.Base.{true, false, ◌&&◌, ◌||◌, ℕ, Bool, List, [], ◌∷◌, ◌==◌, if◌then◌else◌}
use vsql.Base.Bytes.{Bytes}
use vsql.Storage.Mvcc.{TransactionIds, object_is_visible}
use vsql.Storage.Page.{panic, PageObject, Page, Result, ok, ◌>>=◌, objects}
use vsql.Storage.Page.Operations.{add, delete, expire, update}

-- Btree.update, in the leaf page of the key, when the new version takes at most half of a page and fits
-- in it, and the transaction's own version has no blob.
unfoldable pub write : PageObject → Page → Result Page
write o p = do p' ← update o o.tid p; add o p'

abbrev pub page_of : Result (Bool × Page) → Result Page
page_of r = do (done, p) ← r; ok p

-- obj.key[0] of an empty key is a panic, which is read for the objects of the transaction.
abbrev pub no_key : Bytes → Bool
no_key [] = true
no_key (b ∷ key) = false

abbrev pub is_bad : ℕ → PageObject → Bool
is_bad tid o = no_key o.key && (o.tid == tid || o.xid == tid)

-- The loop of CatalogConnection.commit_transaction over the objects of a page
unfoldable pub commit_objects : ℕ → List PageObject → Page → Result Page
commit_objects tid [] p = ok p
commit_objects tid (o ∷ os) p = do
  p' ← if is_bad tid o then panic else if o.xid == tid then page_of (delete o.key o.tid p) else ok p
  commit_objects tid os p'

unfoldable pub commit_page : ℕ → Page → Result Page
commit_page tid p = do os ← objects p; commit_objects tid os p

-- The loop of CatalogConnection.rollback_transaction over the objects of a page
unfoldable pub rollback_objects : ℕ → List PageObject → Page → Result Page
rollback_objects tid [] p = ok p
rollback_objects tid (o ∷ os) p = do
  p' ←
      if is_bad tid o
      then panic
      else if o.tid == tid
      then page_of (delete o.key tid p)
      else if o.xid == tid
      then page_of (expire o.key o.tid 0 p)
      else ok p
  rollback_objects tid os p'

unfoldable pub rollback_page : ℕ → Page → Result Page
rollback_page tid p = do os ← objects p; rollback_objects tid os p

-- Storage.read_objects, over the objects of a page: the keys and values that a transaction sees
unfoldable pub seen : ℕ → TransactionIds → List PageObject → List (Bytes × Bytes)
seen current active [] = []
seen current active (o ∷ os) =
    let rest = seen current active os in
    if object_is_visible o.tid o.xid current active then (o.key, o.value) ∷ rest else rest

-- What a transaction reads from a page
unfoldable pub read_page : ℕ → TransactionIds → Page → Result (List (Bytes × Bytes))
unfolding seen
read_page current active p = do os ← objects p; ok (seen current active os)
