-- ===== src/Storage/Page/Created.antt =====
-- The objects of a page stay objects that a transaction has created (vsql/page.v).
use vsql.Base.{
  ℕ, ◌≡◌, refl, inl, inr, Bool, not, ◌&&◌, Option, none, some, List, [], ◌∷◌, ◌++◌, leb, ◌==◌,
  length, All, Bool-cases,
}
use vsql.Base.Bytes.{Bytes}
use vsql.Storage.Page.{PageObject}
use vsql.Storage.Page.Operations.{is_object, versions, expired}
use vsql.Storage.Page.Sizes.{OnOk, OnOk-bind, All-append, All-sort, All-without}
use vsql.Storage.Page.Refined.{updated, added}
use vsql.Storage.Page.Amended.{Act, run, IsLocal, IsUnique, attach, amend}
use vsql.Storage.Page.Isolation.{IsCreated}
use vsql.Storage.Page.Written.{updated-OnOk, written}
use vsql.Storage.Page.Unique.{amend-IsUnique, IsKept}

-- Each object was created by a transaction, which an operation does not change.
pub expired-IsCreated :
    (key : Bytes) (v xid : ℕ) (os : List PageObject)
    → All IsCreated os
    → OnOk (λ (r : Bool × List PageObject). All IsCreated r.1) (expired key v xid os)
unfolding expired
expired-IsCreated key v xid [] y = tt
expired-IsCreated key v xid (o ∷ os) y =
    OnOk-bind (λ (r : Bool × List PageObject). All IsCreated r.1)
      (λ (r : Bool × List PageObject). All IsCreated r.1) (expired key v xid os) _
      (expired-IsCreated key v xid os y.1)
      λ (m, rest) k. elim (Bool-cases (is_object key v o)) [
        | inl e ↦ elim (Bool-cases (not (xid == 0) && (not (o.xid == 0) && not (o.xid == xid)))) [
          | inl g ↦ rw (e, g) tt
          | inr g ↦ rw (e, g) (y.0, k)
        ]
        | inr e ↦ rw e (y.0, k)
      ]

pub added-IsCreated :
    (o : PageObject) (os : List PageObject)
    → IsCreated o
    → All IsCreated os
    → OnOk (All IsCreated) (added o os)
unfolding added
added-IsCreated o os z y = elim (Bool-cases (leb 2 (length (versions o.key os)))) [
  | inl e ↦ rw e tt
  | inr e ↦ rw e (All-sort IsCreated (os ++ o ∷ []) (All-append IsCreated os (o ∷ []) y (z, tt)))
]

pub written-IsCreated :
    (o : PageObject) (os : List PageObject)
    → IsCreated o
    → All IsCreated os
    → OnOk (All IsCreated) (written o os)
unfolding written
written-IsCreated o os z y =
    OnOk-bind (All IsCreated) (All IsCreated) (updated o.key o.tid os) (added o)
      (updated-OnOk o.key o.tid os (All IsCreated) (λ _. y) (λ _. y)
        (All-without IsCreated o.key o.tid os y) (λ v _ _. expired-IsCreated o.key v o.tid os y))
      (λ qs k. added-IsCreated o qs z k)

module _ (f : PageObject → Option PageObject)
    (k : (o q : PageObject) → f o ≡ some q → IsKept o q) where
  attach-IsCreated :
      (o : PageObject) (x : Option PageObject) (qs : List PageObject)
      → f o ≡ x
      → IsCreated o
      → All IsCreated qs
      → All IsCreated (attach x qs)
  attach-IsCreated o none qs e z y = y
  attach-IsCreated o (some q) qs e z y = let (j, t) = k o q e in (rw (j, t) z, y)

  pub amend-IsCreated : (os : List PageObject) → All IsCreated os → All IsCreated (amend f os)
  amend-IsCreated [] y = tt
  amend-IsCreated (o ∷ os) y =
      attach-IsCreated o (f o) (amend f os) refl y.0 (amend-IsCreated os y.1)

-- A loop of COMMIT or ROLLBACK changes neither keys nor transactions.
module _ (act : Act) (l : IsLocal act) where
  pub run-IsCreated :
      (snap os : List PageObject) → All IsCreated os → All IsCreated (run act snap os)
  run-IsCreated [] os y = y
  run-IsCreated (s ∷ snap) os y =
      run-IsCreated snap (amend (act s) os) (amend-IsCreated (act s) (l.keeps s) os y)

  pub run-IsUnique : (snap os : List PageObject) → IsUnique os → IsUnique (run act snap os)
  run-IsUnique [] os u = u
  run-IsUnique (s ∷ snap) os u =
      run-IsUnique snap (amend (act s) os) (amend-IsUnique (act s) (l.keeps s) os u)
