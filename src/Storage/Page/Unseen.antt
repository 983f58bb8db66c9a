-- ===== src/Storage/Page/Unseen.antt =====
-- What the transactions see of a page when one of them writes a new version of an object to it
-- (vsql/btree.v, vsql/page.v).
use vsql.Base.{
  ℕ, ◌+◌, ◌≤◌, ◌≡◌, refl, sym, ap, ◌∙◌, ◌≢◌, ◌⊎◌, inl, inr, Bool, true, false, not, ◌&&◌, ◌||◌,
  List, [], ◌∷◌, ◌++◌, arith, leb, ◌==◌, if◌then◌else◌, length, Bool-cases,
}
use vsql.Base.Ints.{pos, lez}
use vsql.Base.Bytes.{Bytes}
use mathlib.Core.List.{Perm}
use mathlib.Core.List.Perm
use vsql.Storage.Mvcc.{TransactionIds, exists, object_is_visible}
use vsql.Storage.Mvcc.Versions.{visible_ext}
use vsql.Storage.Page.{PageObject, Page, Result, ok, conflict, panic, object_length}
use vsql.Storage.Page.Encoded.{IsEncodable}
use vsql.Storage.Page.Operations.{
  compare_bytes, is_object, versions, insert_object, sort_objects, without, expired, with_xid,
}
use vsql.Storage.Page.Stored.{IsPage, size}
use vsql.Storage.Page.Sizes.{OnOk, OnOk-bind, OnOk-weaken}
use vsql.Storage.Page.Refined.{Stores, updated, added}
use vsql.Storage.Page.Ended.{write, seen}
use vsql.Storage.Page.Isolation.{seen-cons}
use vsql.Storage.Page.Written.{updated-OnOk, written, write-Stores}

-- The transaction `tid` is active, and `c` is another one.
module _ (tid c : ℕ) (a : TransactionIds) (t : exists tid a ≡ true) (r : c ≢ tid) where
  -- Its own versions are not seen,
  unseen :
      (o : PageObject) (os : List PageObject)
      → o.tid == tid ≡ true
      → seen c a (o ∷ os) ≡ seen c a os
  unfolding seen object_is_visible
  unseen o os e =
      let k : o.tid ≡ tid = ground arith in
      let f : exists o.tid a ≡ true = ap (λ (j : ℕ). exists j a) k ∙ t in
      let g : o.tid == c ≡ false = ground arith in rw (f, g) refl

  seen-without : (key : Bytes) (os : List PageObject) → seen c a (without key tid os) ≡ seen c a os
  unfolding without
  seen-without key [] = refl
  seen-without key (o ∷ os) = elim (Bool-cases (is_object key tid o)) [
    | inl e ↦ rw e (seen-without key os ∙ sym (unseen o os (ground arith)))
    | inr e ↦ rw e (
        seen-cons c a o (without key tid os)
        ∙ ap (λ (l : List (Bytes × Bytes)). seen c a (o ∷ []) ++ l) (seen-without key os)
        ∙ sym (seen-cons c a o os))
  ]

  seen_cons :
      (o q : PageObject) (os qs : List PageObject)
      → seen c a (q ∷ []) ≡ seen c a (o ∷ [])
      → seen c a qs ≡ seen c a os
      → seen c a (q ∷ qs) ≡ seen c a (o ∷ os)
  seen_cons o q os qs h k = seen-cons c a q qs ∙ (λ i. h i ++ k i) ∙ sym (seen-cons c a o os)

  -- and the versions that it expires are seen as before.
  expiring : (o : PageObject) → Bool
  expiring o = not (tid == 0) && (not (o.xid == 0) && not (o.xid == tid))

  visible-expiring :
      (o : PageObject)
      → tid ≢ 0
      → expiring o ≡ false
      → object_is_visible o.tid tid c a ≡ object_is_visible o.tid o.xid c a
  unfolding object_is_visible expiring
  visible-expiring o z e = elim (Bool-cases (o.xid == tid)) [
    | inl k ↦ let x : o.xid ≡ tid = ground arith in rw x refl
    | inr k ↦
        let same : (not (tid == 0) && (not (exists tid a) || tid == c))
            ≡ (not (o.xid == 0) && (not (exists o.xid a) || o.xid == c)) =
          ground arith in
        visible_ext refl same
  ]

  seen-expiring :
      (o : PageObject)
      → tid ≢ 0
      → expiring o ≡ false
      → seen c a (with_xid tid o ∷ []) ≡ seen c a (o ∷ [])
  unfolding seen
  seen-expiring o z e =
      ap (λ (b : Bool). if b then (o.key, o.value) ∷ [] else []) (visible-expiring o z e)

  abbrev SeenSame : List PageObject → List PageObject → Type 0
  SeenSame os qs = seen c a qs ≡ seen c a os

  seen-expired :
      (key : Bytes) (v : ℕ) (os : List PageObject)
      → tid ≢ 0
      → OnOk (λ (r : Bool × List PageObject). SeenSame os r.1) (expired key v tid os)
  unfolding expired expiring
  seen-expired key v [] z = refl
  seen-expired key v (o ∷ os) z =
      OnOk-bind (λ (r : Bool × List PageObject). SeenSame os r.1)
        (λ (r : Bool × List PageObject). SeenSame (o ∷ os) r.1) (expired key v tid os) _
        (seen-expired key v os z)
        λ (modified, rest) k. elim (Bool-cases (is_object key v o)) [
          | inl e ↦ elim (Bool-cases (expiring o)) [
            | inl f ↦ rw (e, f) tt
            | inr f ↦ rw (e, f) (seen_cons o (with_xid tid o) os rest (seen-expiring o z f) k)
          ]
          | inr e ↦ rw e (seen_cons o o os rest refl k)
        ]

  seen-updated :
      (key : Bytes) (os : List PageObject) → tid ≢ 0 → OnOk (SeenSame os) (updated key tid os)
  seen-updated key os z =
      updated-OnOk key tid os (SeenSame os) (λ _. refl) (λ _. refl) (seen-without key os)
        (λ v _ _. seen-expired key v os z)

  -- The order of the objects does not matter.
  seen-swap :
      (o q : PageObject) (os : List PageObject)
      → Perm (seen c a (q ∷ o ∷ os)) (seen c a (o ∷ q ∷ os))
  unfolding seen
  seen-swap o q os = elim (Bool-cases (object_is_visible o.tid o.xid c a)) [
    | inl e ↦ elim (Bool-cases (object_is_visible q.tid q.xid c a)) [
      | inl f ↦ rw (e, f) (Perm.swap _ _ _)
      | inr f ↦ rw (e, f) (Perm.refl _)
    ]
    | inr e ↦ rw e (Perm.refl _)
  ]

  seen_cons_perm :
      (q : PageObject) (os qs : List PageObject)
      → Perm (seen c a os) (seen c a qs)
      → Perm (seen c a (q ∷ os)) (seen c a (q ∷ qs))
  seen_cons_perm q os qs h =
      rw (seen-cons c a q os, seen-cons c a q qs) (Perm.append_left (seen c a (q ∷ [])) h)

  seen-insert :
      (o : PageObject) (os : List PageObject)
      → Perm (seen c a (insert_object o os)) (seen c a (o ∷ os))
  unfolding insert_object
  seen-insert o [] = Perm.refl _
  seen-insert o (q ∷ os) = elim (Bool-cases (lez (compare_bytes o.key q.key) (pos 0))) [
    | inl e ↦ rw e (Perm.refl _)
    | inr e ↦ rw e (
        Perm.trans (seen_cons_perm q (insert_object o os) (o ∷ os) (seen-insert o os))
          (seen-swap o q os))
  ]

  seen-sort : (os : List PageObject) → Perm (seen c a (sort_objects os)) (seen c a os)
  unfolding sort_objects
  seen-sort [] = Perm.refl _
  seen-sort (o ∷ os) =
      Perm.trans (seen-insert o (sort_objects os))
        (seen_cons_perm o (sort_objects os) os (seen-sort os))

  seen-last :
      (o : PageObject) (os : List PageObject) → o.tid ≡ tid → seen c a (os ++ o ∷ []) ≡ seen c a os
  seen-last o [] e = unseen o [] (ground arith)
  seen-last o (q ∷ os) e =
      seen-cons c a q (os ++ o ∷ [])
      ∙ ap (λ (l : List (Bytes × Bytes)). seen c a (q ∷ []) ++ l) (seen-last o os e)
      ∙ sym (seen-cons c a q os)

  abbrev SeenPerm : List PageObject → List PageObject → Type 0
  SeenPerm os qs = Perm (seen c a qs) (seen c a os)

  seen-added :
      (o : PageObject) (os : List PageObject) → o.tid ≡ tid → OnOk (SeenPerm os) (added o os)
  unfolding added
  seen-added o os e = elim (Bool-cases (leb 2 (length (versions o.key os)))) [
    | inl k ↦ rw k tt
    | inr k ↦ rw (k, ← seen-last o os e) (seen-sort (os ++ o ∷ []))
  ]

  pub seen-written :
      (o : PageObject) (os : List PageObject)
      → o.tid ≡ tid
      → tid ≢ 0
      → OnOk (SeenPerm os) (written o os)
  unfolding written
  seen-written o os e z =
      OnOk-bind (SeenSame os) (SeenPerm os) (updated o.key o.tid os) (added o)
        (rw e (seen-updated o.key os z))
        λ qs k.
          OnOk-weaken (SeenPerm qs) (SeenPerm os) (added o qs) (seen-added o qs e)
            (λ rs h. rw (← k) h)

module _ (n : ℕ) where
  -- When an active transaction writes a new version of an object to a page that it fits in, either
  -- there is a conflict, or the page stores objects of which every other transaction sees the same keys
  -- and values as before, in some order.
  pub write-seen :
      (o : PageObject) (p : Page) (os : List PageObject) (a : TransactionIds) (c : ℕ)
      → IsPage n p os
      → IsEncodable o
      → 16 + size os + object_length o ≤ n
      → o.tid ≢ 0
      → exists o.tid a ≡ true
      → c ≢ o.tid
      → (write o p ≡ conflict)
        ⊎ ((q : Page) × (qs : List PageObject) × (write o p ≡ ok q)
            × IsPage n q qs
            × Perm (seen c a qs) (seen c a os))
  write-seen o p os a c h e f z t r =
      of_results (write o p) (written o os) refl (write-Stores n o p os h e f)
        (seen-written o.tid c a t r o os refl z)
    where
      of_results :
          (x : Result Page) (y : Result (List PageObject))
          → write o p ≡ x
          → Stores n x y
          → OnOk (λ qs. Perm (seen c a qs) (seen c a os)) y
          → (write o p ≡ conflict)
            ⊎ ((q : Page) × (qs : List PageObject) × (write o p ≡ ok q)
                × IsPage n q qs
                × Perm (seen c a qs) (seen c a os))
      of_results (ok q) (ok qs) w k l = inr (q, qs, w, k, l)
      of_results (ok q) conflict w k l = absurd k
      of_results (ok q) panic w k l = absurd k
      of_results conflict y w k l = inl w
      of_results panic y w k l = absurd k
