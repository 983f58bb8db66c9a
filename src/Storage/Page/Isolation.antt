-- ===== src/Storage/Page/Isolation.antt =====
-- What the transactions see of a page, before and after COMMIT and ROLLBACK (vsql/mvcc.v).
use vsql.Base.{
  ℕ, ◌≡◌, refl, sym, ◌∙◌, ◌≢◌, inl, inr, true, false, Option, none, some, List, [], ◌∷◌, ◌++◌, ◌==◌,
  All, Bool-cases,
}
use vsql.Storage.Mvcc.{TransactionIds, remove, exists, object_is_visible}
use vsql.Storage.Mvcc.Active.{IsSound}
use vsql.Storage.Mvcc.Versions.{
  visible-commit, visible-expired, visible-created, visible-reset, visible-other,
}
use vsql.Storage.Page.{PageObject, Page, ok}
use vsql.Storage.Page.Stored.{IsPage}
use vsql.Storage.Page.Ended.{commit_page, rollback_page, seen}
use vsql.Storage.Page.Amended.{attach, amend, IsUnique, is_object_self, All-map}
use vsql.Storage.Page.Looped.{HasKey, commit_act, rollback_act, commit_page_lem, rollback_page_lem}

-- An object has a key, and was created by a transaction.
abbrev pub IsCreated : PageObject → Type 0
IsCreated o = (o.tid ≢ 0) × HasKey o

pub seen-cons :
    (c : ℕ) (a : TransactionIds) (o : PageObject) (os : List PageObject)
    → seen c a (o ∷ os) ≡ seen c a (o ∷ []) ++ seen c a os
unfolding seen
seen-cons c a o os = elim (Bool-cases (object_is_visible o.tid o.xid c a)) [
  | inl e ↦ rw e refl
  | inr e ↦ rw e refl
]

pub seen-nil : (c : ℕ) (a : TransactionIds) → seen c a [] ≡ []
unfolding seen
seen-nil c a = refl

seen-attach :
    (c : ℕ) (a : TransactionIds) (x : Option PageObject) (os : List PageObject)
    → seen c a (attach x os) ≡ seen c a (attach x []) ++ seen c a os
unfolding seen
seen-attach c a none os = refl
seen-attach c a (some q) os = seen-cons c a q os

-- What becomes of each object is seen by `c` among the transactions `a` as the object is by `d`
-- among `b`.
module _ (c d : ℕ) (a b : TransactionIds) (f : PageObject → Option PageObject) where
  abbrev SeenAs : PageObject → Type 0
  SeenAs o = seen c a (attach (f o) []) ≡ seen d b (o ∷ [])

  seen-amend : (os : List PageObject) → All SeenAs os → seen c a (amend f os) ≡ seen d b os
  seen-amend [] h = seen-nil c a ∙ sym (seen-nil d b)
  seen-amend (o ∷ os) h =
      seen-attach c a (f o) (amend f os)
      ∙ (λ i. h.0 i ++ seen-amend os h.1 i)
      ∙ sym (seen-cons d b o os)

module _ (tid : ℕ) (a : TransactionIds) (s : IsSound a) (z : tid ≢ 0) where
  -- A reader that is not active sees an object after COMMIT as the transaction saw it before.
  commit-SeenAs :
      (c : ℕ) (o : PageObject)
      → (c ≢ 0 → exists c a ≡ false)
      → IsCreated o
      → SeenAs c tid (remove tid a) a (λ q. commit_act tid q q) o
  unfolding seen
  commit-SeenAs c o r y = elim (Bool-cases (o.xid == tid)) [
    | inl e ↦ rw (e, is_object_self o, visible-expired tid a s z o.tid o.xid y.0 e) refl
    | inr e ↦ rw (e, visible-commit tid a s z o.tid o.xid y.0 c r e) refl
  ]

  -- Another reader sees an object after ROLLBACK as it saw it before.
  rollback-SeenAs :
      (c : ℕ) (o : PageObject)
      → c ≢ tid
      → exists tid a ≡ true
      → IsCreated o
      → SeenAs c c (remove tid a) a (λ q. rollback_act tid q q) o
  unfolding seen
  rollback-SeenAs c o r t y = elim (Bool-cases (o.tid == tid)) [
    | inl e ↦ rw (is_object_self o, e, visible-created tid a s z o.tid o.xid y.0 c r t e) refl
    | inr e ↦ elim (Bool-cases (o.xid == tid)) [
      | inl x ↦ rw (is_object_self o, e, x, visible-reset tid a s z o.tid o.xid y.0 c r t e x) refl
      | inr x ↦ rw (is_object_self o, e, x, visible-other tid a s z o.tid o.xid y.0 c r e x) refl
    ]
  ]

module _ (n tid : ℕ) (p : Page) (os : List PageObject) (a : TransactionIds) (h : IsPage n p os)
    (u : IsUnique os) (y : All IsCreated os) (s : IsSound a) (z : tid ≢ 0) where
  -- COMMIT on a page whose objects differ in key or transaction leaves a page in which a reader that is
  -- not active, once the transaction has been removed, sees exactly what the transaction saw before.
  pub commit-seen :
      (c : ℕ)
      → (c ≢ 0 → exists c a ≡ false)
      → (q : Page) × (qs : List PageObject) × (commit_page tid p ≡ ok q)
        × IsPage n q qs
        × (seen c (remove tid a) qs ≡ seen tid a os)
  commit-seen c r =
      let (q, e, k) = commit_page_lem tid n p os h (All-map IsCreated HasKey os (λ o w. w.1) y) u in
      (
        q,
        amend (λ o. commit_act tid o o) os,
        e,
        k,
        seen-amend c tid (remove tid a) a (λ o. commit_act tid o o) os
            (All-map IsCreated (SeenAs c tid (remove tid a) a (λ o. commit_act tid o o)) os
              (λ o w. commit-SeenAs tid a s z c o r w) y),
      )

  -- ROLLBACK of an active transaction, on a page whose objects differ in key or transaction, leaves a
  -- page in which every other transaction sees exactly what it saw before.
  pub rollback-seen :
      (c : ℕ)
      → c ≢ tid
      → exists tid a ≡ true
      → (q : Page) × (qs : List PageObject) × (rollback_page tid p ≡ ok q)
        × IsPage n q qs
        × (seen c (remove tid a) qs ≡ seen c a os)
  rollback-seen c r t =
      let (q, e, k) =
        rollback_page_lem tid n p os h (All-map IsCreated HasKey os (λ o w. w.1) y) u in
      (
        q,
        amend (λ o. rollback_act tid o o) os,
        e,
        k,
        seen-amend c c (remove tid a) a (λ o. rollback_act tid o o) os
            (All-map IsCreated (SeenAs c c (remove tid a) a (λ o. rollback_act tid o o)) os
              (λ o w. rollback-SeenAs tid a s z c o r t w) y),
      )
