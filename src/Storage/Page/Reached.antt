-- ===== src/Storage/Page/Reached.antt =====
-- The pages that transactions reach from an empty page, with the transactions that are active
-- (vsql/btree.v, vsql/mvcc.v, vsql/page.v).
use vsql.Base.{
  ℕ, ◌+◌, ◌-◌, ◌^◌, ◌<◌, ◌≤◌, ◌≡◌, refl, sym, ap, ◌∙◌, ◌≢◌, ◌⊎◌, inl, inr, Bool, true, false, none,
  some, List, [], ◌∷◌, arith, All, Bool-cases, length-replicate, replicate,
}
use vsql.Base.Bytes.{Bytes}
use mathlib.Core.List.{Perm}
use vsql.Storage.Mvcc.{TransactionIds, no_transactions, add, remove, exists}
use vsql.Storage.Mvcc.Active.{IsSound, add-Adds, remove-Removes, no_transactions-IsSound}
use vsql.Storage.Page.{
  ◌>>=◌, PageObject, Page, Result, ok, conflict, panic, object_length, page_size,
}
use vsql.Storage.Page.Encoded.{IsEncodable}
use vsql.Storage.Page.Operations.{
  get, first_object, expire, add as store_object, is_object, expired, new_page, all_bytes,
}
use vsql.Storage.Page.Stored.{IsPage, objects_lem, size, length_size}
use vsql.Storage.Page.Sizes.{OnOk, OnOk-bind}
use vsql.Storage.Page.Refined.{add-Stores, expire-Stores, Stores, added}
use vsql.Storage.Page.Ended.{page_of, write, commit_page, rollback_page, read_page, seen}
use vsql.Storage.Page.Amended.{run, All-map, IsUnique}
use vsql.Storage.Page.Looped.{
  HasKey, commit_act, rollback_act, commit-IsLocal, rollback-IsLocal, commit_objects-run,
  rollback_objects-run,
}
use vsql.Storage.Page.Isolation.{IsCreated, commit-seen, rollback-seen}
use vsql.Storage.Page.Unseen.{write-seen}
use vsql.Storage.Page.Created.{
  run-IsCreated, run-IsUnique, expired-IsCreated, added-IsCreated, written-IsCreated,
}
use vsql.Storage.Page.Written.{written, write-Stores}
use vsql.Storage.Page.Unique.{IsFresh, Kept, expired-Kept, added-IsUnique, written-IsUnique}

-- A new page of `n` bytes, and then transactions that begin, write new versions, insert, delete, commit
-- and roll back. Each object has a key.
pub data Reached (n : ℕ) : TransactionIds → Page → Type 0 where
  made : (kind : ℕ) → 16 ≤ n → n < 2 ^ 16 → Reached n no_transactions (new_page kind n)
  begun :
      {a b : TransactionIds} {p : Page} (tid : ℕ)
      → Reached n a p
      → tid ≢ 0
      → exists tid a ≡ false
      → add tid a ≡ some b
      → Reached n b p
  wrote :
      {a : TransactionIds} {p q : Page} (o : PageObject)
      → Reached n a p
      → IsCreated o
      → IsEncodable o
      → p.used + object_length o ≤ n
      → write o p ≡ ok q
      → Reached n a q
  inserted :
      {a : TransactionIds} {p q : Page} (o : PageObject)
      → Reached n a p
      → IsCreated o
      → IsEncodable o
      → p.used + object_length o ≤ n
      → store_object o p ≡ ok q
      → Reached n a q
  deleted :
      {a : TransactionIds} {p q : Page} (key : Bytes) (version tid : ℕ)
      → Reached n a p
      → tid < 2 ^ 64
      → page_of (expire key version tid p) ≡ ok q
      → Reached n a q
  committed :
      {a : TransactionIds} {p q : Page} (tid : ℕ)
      → Reached n a p
      → tid ≢ 0
      → commit_page tid p ≡ ok q
      → Reached n (remove tid a) q
  rolled_back :
      {a : TransactionIds} {p q : Page} (tid : ℕ)
      → Reached n a p
      → tid ≢ 0
      → rollback_page tid p ≡ ok q
      → Reached n (remove tid a) q

-- No transaction has inserted an object while the page had a version of it that the transaction had
-- created, and deleted since: Page.get has found none.
abbrev pub IsOnce : {n : ℕ} {a : TransactionIds} {p : Page} → Reached n a p → Type 0
IsOnce (made kind l s) = Unit
IsOnce (begun tid r z e h) = IsOnce r
IsOnce (wrote o r y e l h) = IsOnce r
IsOnce (inserted {a} {p} {q} o r y e l h) = (get o.key o.tid p ≡ ok none) × IsOnce r
IsOnce (deleted key v tid r t h) = IsOnce r
IsOnce (committed tid r z h) = IsOnce r
IsOnce (rolled_back tid r z h) = IsOnce r

-- What a reached page is, where `U` is what keeps its objects different.
record IsKeptWell (n : ℕ) (a : TransactionIds) (p : Page) (U : Type 0) : Type 0 where
  sound : IsSound a
  os : List PageObject
  page : IsPage n p os
  unique : U → IsUnique os
  created : All IsCreated os

pub new_page-IsPage : (kind n : ℕ) → 16 ≤ n → n < 2 ^ 16 → IsPage n (new_page kind n) []
unfolding new_page all_bytes page_size
new_page-IsPage kind n l s = record {
  encodable = tt;
  unused = replicate (n - 16) 0;
  stored = refl;
  used = refl;
  sized = omega (arith, length-replicate {A = ℕ} (n - 16) 0);
  small = s;
}

written-Wells :
    (U : Type 0) (n : ℕ) (a : TransactionIds) (q : Page) (r : Result Page)
    (w : Result (List PageObject))
    → IsSound a
    → r ≡ ok q
    → Stores n r w
    → (U → OnOk IsUnique w)
    → OnOk (All IsCreated) w
    → IsKeptWell n a q U
written-Wells U n a q (ok p) (ok os) s e h u y =
    let k : p ≡ q = cc in record { sound = s; os = os; page = rw (← k) h; unique = u; created = y }
written-Wells U n a q (ok p) conflict s e h u y = absurd h
written-Wells U n a q (ok p) panic s e h u y = absurd h
written-Wells U n a q conflict w s e h u y = absurd (cc)
written-Wells U n a q panic w s e h u y = absurd h

ok_injective : {A : Type 0} {a b : A} → ok a ≡ ok b → a ≡ b
ok_injective e = cc

fits :
    (n : ℕ) (p : Page) (os : List PageObject) (o : PageObject)
    → IsPage n p os
    → p.used + object_length o ≤ n
    → 16 + size os + object_length o ≤ n
fits n p os o h l = let u = h.used in omega (arith, length_size os)

abbrev remaining : Result (Bool × List PageObject) → Result (List PageObject)
remaining r = do (modified, os) ← r; ok os

first_object-IsFresh :
    (key : Bytes) (tid : ℕ) (os : List PageObject)
    → first_object key tid os ≡ none
    → IsFresh key tid os
unfolding first_object
first_object-IsFresh key tid [] h = tt
first_object-IsFresh key tid (o ∷ os) h = elim (Bool-cases (is_object key tid o)) [
  | inl e ↦ absurd (let k = rw e at h in cc)
  | inr e ↦ (e, first_object-IsFresh key tid os (rw e at h))
]

unfound-IsFresh :
    (n : ℕ) (p : Page) (os : List PageObject) (o : PageObject)
    → IsPage n p os
    → get o.key o.tid p ≡ ok none
    → IsFresh o.key o.tid os
unfolding get
unfound-IsFresh n p os o h g =
    first_object-IsFresh o.key o.tid os (ok_injective (rw (objects_lem n p os h) at g))

have_keys : (os : List PageObject) → All IsCreated os → All HasKey os
have_keys os y = All-map IsCreated HasKey os (λ o w. w.1) y

commit_page-run :
    (n tid : ℕ) (p : Page) (os : List PageObject)
    → IsPage n p os
    → All HasKey os
    → (q : Page) × (commit_page tid p ≡ ok q) × IsPage n q (run (commit_act tid) os os)
unfolding commit_page
commit_page-run n tid p os h w =
    let (q, e, k) = commit_objects-run tid n os os p h w in (q, rw (objects_lem n p os h) e, k)

rollback_page-run :
    (n tid : ℕ) (p : Page) (os : List PageObject)
    → IsPage n p os
    → All HasKey os
    → (q : Page) × (rollback_page tid p ≡ ok q) × IsPage n q (run (rollback_act tid) os os)
unfolding rollback_page
rollback_page-run n tid p os h w =
    let (q, e, k) = rollback_objects-run tid n os os p h w in (q, rw (objects_lem n p os h) e, k)

reached : (n : ℕ) {a : TransactionIds} {p : Page} (r : Reached n a p) → IsKeptWell n a p (IsOnce r)
reached n (made kind l s) = record {
  sound = no_transactions-IsSound;
  os = [];
  page = new_page-IsPage kind n l s;
  unique = λ u. tt;
  created = tt;
}
reached n (begun {a} {b} {p} tid r z e h) =
    let w = reached n r in
    let x = add-Adds tid a b w.sound z e h in
    record { sound = x.sound; os = w.os; page = w.page; unique = w.unique; created = w.created }
reached n (wrote {a} {p} {q} o r z e l h) =
    let w = reached n r in
    written-Wells (IsOnce r) n a q (write o p) (written o w.os) w.sound h
      (write-Stores n o p w.os w.page e (fits n p w.os o w.page l))
      (λ u. written-IsUnique o w.os (w.unique u)) (written-IsCreated o w.os z w.created)
reached n (inserted {a} {p} {q} o r z e l h) =
    let w = reached n r in
    written-Wells ((get o.key o.tid p ≡ ok none) × IsOnce r) n a q (store_object o p) (added o w.os)
      w.sound h (add-Stores n p w.os w.page o e (fits n p w.os o w.page l))
      (λ (g, u). added-IsUnique o w.os (w.unique u, inl (unfound-IsFresh n p w.os o w.page g)))
      (added-IsCreated o w.os z w.created)
reached n (deleted {a} {p} {q} key v tid r t h) =
    let w = reached n r in
    written-Wells (IsOnce r) n a q (page_of (expire key v tid p))
      (remaining (expired key v tid w.os)) w.sound h (expire-Stores n p w.os w.page key v tid t)
      (λ u.
        OnOk-bind (Kept w.os) IsUnique (expired key v tid w.os) _ (expired-Kept key v tid w.os)
          (λ s k. k.0 (w.unique u)))
      (OnOk-bind (λ (s : Bool × List PageObject). All IsCreated s.1) (All IsCreated)
        (expired key v tid w.os) _ (expired-IsCreated key v tid w.os w.created) (λ s k. k))
reached n (committed {a} {p} {q} tid r z h) =
    let w = reached n r in
    let (q', e, k) = commit_page-run n tid p w.os w.page (have_keys w.os w.created) in
    let same : q' ≡ q = ok_injective (sym e ∙ h) in
    let act = commit_act tid in
    record {
      sound = (remove-Removes tid a w.sound z).sound;
      os = run act w.os w.os;
      page = rw (← same) k;
      unique = λ u. run-IsUnique act (commit-IsLocal tid) w.os w.os (w.unique u);
      created = run-IsCreated act (commit-IsLocal tid) w.os w.os w.created;
    }
reached n (rolled_back {a} {p} {q} tid r z h) =
    let w = reached n r in
    let (q', e, k) = rollback_page-run n tid p w.os w.page (have_keys w.os w.created) in
    let same : q' ≡ q = ok_injective (sym e ∙ h) in
    let act = rollback_act tid in
    record {
      sound = (remove-Removes tid a w.sound z).sound;
      os = run act w.os w.os;
      page = rw (← same) k;
      unique = λ u. run-IsUnique act (rollback-IsLocal tid) w.os w.os (w.unique u);
      created = run-IsCreated act (rollback-IsLocal tid) w.os w.os w.created;
    }

reads :
    (n c : ℕ) (a : TransactionIds) (p : Page) (os : List PageObject)
    → IsPage n p os
    → read_page c a p ≡ ok (seen c a os)
unfolding read_page
reads n c a p os h = rw (objects_lem n p os h) refl

module _ (n : ℕ) {a : TransactionIds} {p : Page} (r : Reached n a p) (once : IsOnce r) (tid c : ℕ)
    (z : tid ≢ 0) where
  -- In a page that transactions have reached, each of which has not inserted a key again while a version
  -- of the key that it had created, and deleted, was in the page: COMMIT of a transaction other than 0,
  -- and its removal from the active ones, succeed, and let a reader that is 0 or not active read what the
  -- transaction read before.
  pub commit-read :
      (c ≢ 0 → exists c a ≡ false)
      → (q : Page) × (commit_page tid p ≡ ok q) × (read_page c (remove tid a) q ≡ read_page tid a p)
  commit-read f =
      let w = reached n r in
      let (q, qs, e, k, s) =
        commit-seen n tid p w.os a w.page (w.unique once) w.created w.sound z c f in
      (
        q,
        e,
        reads n c (remove tid a) q qs k
            ∙ ap (λ (l : List (Bytes × Bytes)). ok l) s
            ∙ sym (reads n tid a p w.os w.page),
      )

  -- In a page that transactions have reached, each of which has not inserted a key again while a version
  -- of the key that it had created, and deleted, was in the page: ROLLBACK of an active transaction other
  -- than 0, and its removal from the active ones, succeed, and change nothing of what another transaction
  -- reads.
  pub rollback-read :
      c ≢ tid
      → exists tid a ≡ true
      → (q : Page) × (rollback_page tid p ≡ ok q) × (read_page c (remove tid a) q ≡ read_page c a p)
  rollback-read d t =
      let w = reached n r in
      let (q, qs, e, k, s) =
        rollback-seen n tid p w.os a w.page (w.unique once) w.created w.sound z c d t in
      (
        q,
        e,
        reads n c (remove tid a) q qs k
            ∙ ap (λ (l : List (Bytes × Bytes)). ok l) s
            ∙ sym (reads n c a p w.os w.page),
      )

module _ (n : ℕ) {a : TransactionIds} {p : Page} (r : Reached n a p) (o : PageObject) (c : ℕ) where
  -- In a page that transactions have reached, a new version of an object whose numbers fit, which fits
  -- in the page and is written by an active transaction other than 0, is a conflict, or changes nothing
  -- of what another transaction reads but for the order.
  pub write-read :
      o.tid ≢ 0
      → IsEncodable o
      → p.used + object_length o ≤ n
      → exists o.tid a ≡ true
      → c ≢ o.tid
      → (write o p ≡ conflict)
        ⊎ ((q : Page) × (before after : List (Bytes × Bytes)) × (write o p ≡ ok q)
            × (read_page c a p ≡ ok before)
            × (read_page c a q ≡ ok after)
            × Perm after before)
  write-read z e l t d =
      let w = reached n r in
      elim (write-seen n o p w.os a c w.page e (fits n p w.os o w.page l) z t d) [
        | inl x ↦ inl x
        | inr (q, qs, x, k, m) ↦
            inr (q, seen c a w.os, seen c a qs, x, reads n c a p w.os w.page, reads n c a q qs k, m)
      ]
