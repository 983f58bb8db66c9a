-- ===== src/Storage/Page/Unique.antt =====
-- A page has no two objects with the same key and transaction, and no more than two versions of a
-- key (vsql/page.v).
use vsql.Base.{
  ℕ, ◌≤◌, ◌≡◌, refl, sym, ◌∙◌, ◌⊎◌, inl, inr, Bool, true, false, not, ◌&&◌, Option, none, some,
  List, [], ◌∷◌, ◌++◌, arith, leb, ◌==◌, length, All, Bool-cases,
}
use vsql.Base.Ints.{pos, lez, eqz}
use vsql.Base.Bytes.{Bytes}
use vsql.Storage.Page.{PageObject}
use vsql.Storage.Page.Operations.{
  compare_bytes, is_key, is_object, versions, insert_object, sort_objects, without, expired,
}
use vsql.Storage.Page.Sizes.{OnOk, OnOk-bind, OnOk-weaken, All-append, All-without}
use vsql.Storage.Page.Refined.{updated, added}
use vsql.Storage.Page.Amended.{compare-str_eq, str_eq_comm, is_object_comm, IsUnique, attach, amend}
use vsql.Storage.Page.Written.{updated-OnOk, written}

-- There is no object with the key and the transaction.
abbrev pub IsFresh : Bytes → ℕ → List PageObject → Type 0
IsFresh key tid os = All (λ q. is_object key tid q ≡ false) os

insert-IsFresh :
    (key : Bytes) (tid : ℕ) (r : PageObject) (rs : List PageObject)
    → is_object key tid r ≡ false
    → IsFresh key tid rs
    → IsFresh key tid (insert_object r rs)
unfolding insert_object
insert-IsFresh key tid r [] g h = (g, tt)
insert-IsFresh key tid r (s ∷ rs) g h =
    elim (Bool-cases (lez (compare_bytes r.key s.key) (pos 0))) [
      | inl e ↦ rw e (g, h)
      | inr e ↦ rw e (h.0, insert-IsFresh key tid r rs g h.1)
    ]

insert-IsUnique :
    (o : PageObject) (os : List PageObject)
    → IsFresh o.key o.tid os
    → IsUnique os
    → IsUnique (insert_object o os)
unfolding insert_object
insert-IsUnique o [] f u = (tt, tt)
insert-IsUnique o (q ∷ os) f u = elim (Bool-cases (lez (compare_bytes o.key q.key) (pos 0))) [
  | inl e ↦ rw e (f, u)
  | inr e ↦
      rw e (
        insert-IsFresh q.key q.tid o os (is_object_comm q o ∙ f.0) u.0,
        insert-IsUnique o os f.1 u.1,
      )
]

sort-IsFresh :
    (key : Bytes) (tid : ℕ) (os : List PageObject)
    → IsFresh key tid os
    → IsFresh key tid (sort_objects os)
unfolding sort_objects
sort-IsFresh key tid [] f = tt
sort-IsFresh key tid (o ∷ os) f =
    insert-IsFresh key tid o (sort_objects os) f.0 (sort-IsFresh key tid os f.1)

sort-IsUnique : (os : List PageObject) → IsUnique os → IsUnique (sort_objects os)
unfolding sort_objects
sort-IsUnique [] u = tt
sort-IsUnique (o ∷ os) u =
    insert-IsUnique o (sort_objects os) (sort-IsFresh o.key o.tid os u.0) (sort-IsUnique os u.1)

last-IsUnique :
    (o : PageObject) (os : List PageObject)
    → IsFresh o.key o.tid os
    → IsUnique os
    → IsUnique (os ++ o ∷ [])
last-IsUnique o [] f u = (tt, tt)
last-IsUnique o (q ∷ os) f u = (
  All-append (λ r. is_object q.key q.tid r ≡ false) os (o ∷ []) u.0 (is_object_comm q o ∙ f.0, tt),
  last-IsUnique o os f.1 u.1,
)

without-IsUnique :
    (key : Bytes) (tid : ℕ) (os : List PageObject) → IsUnique os → IsUnique (without key tid os)
unfolding without
without-IsUnique key tid [] u = tt
without-IsUnique key tid (o ∷ os) u = elim (Bool-cases (is_object key tid o)) [
  | inl e ↦ rw e (without-IsUnique key tid os u.1)
  | inr e ↦ rw e (
    All-without (λ r. is_object o.key o.tid r ≡ false) key tid os u.0,
    without-IsUnique key tid os u.1,
  )
]

without-IsFresh :
    (key : Bytes) (tid : ℕ) (os : List PageObject) → IsFresh key tid (without key tid os)
unfolding without
without-IsFresh key tid [] = tt
without-IsFresh key tid (o ∷ os) = elim (Bool-cases (is_object key tid o)) [
  | inl e ↦ rw e (without-IsFresh key tid os)
  | inr e ↦ rw e (e, without-IsFresh key tid os)
]

-- The versions of a key that are not the transaction's.
versions-IsFresh :
    (key : Bytes) (tid : ℕ) (os : List PageObject)
    → All (λ v. v == tid ≡ false) (versions key os)
    → IsFresh key tid os
unfolding versions
versions-IsFresh key tid [] h = tt
versions-IsFresh key tid (o ∷ os) h = elim (Bool-cases (is_key key o)) [
  | inl e ↦ let (f, g) = rw e at h in (ground arith, versions-IsFresh key tid os g)
  | inr e ↦
      let same : eqz (compare_bytes key o.key) (pos 0) ≡ is_key key o =
        compare-str_eq key o.key ∙ str_eq_comm key o.key ∙ sym (compare-str_eq o.key key) in
      (ground (arith, same), versions-IsFresh key tid os (rw e at h))
]

-- Expiring an object changes neither keys nor transactions.
abbrev pub Alike : List PageObject → List PageObject → Type 0
Alike os qs = (key : Bytes) (tid : ℕ) → IsFresh key tid os → IsFresh key tid qs

abbrev pub Kept : List PageObject → Bool × List PageObject → Type 0
Kept os (m, qs) = (IsUnique os → IsUnique qs) × Alike os qs

pub expired-Kept :
    (key : Bytes) (v tid : ℕ) (os : List PageObject) → OnOk (Kept os) (expired key v tid os)
unfolding expired
expired-Kept key v tid [] = (λ u. u, λ k t f. f)
expired-Kept key v tid (o ∷ os) =
    OnOk-bind (Kept os) (Kept (o ∷ os)) (expired key v tid os) _ (expired-Kept key v tid os)
      λ (m, rest) (u, f). elim (Bool-cases (is_object key v o)) [
        | inl e ↦ elim (Bool-cases (not (tid == 0) && (not (o.xid == 0) && not (o.xid == tid)))) [
          | inl g ↦ rw (e, g) tt
          | inr g ↦ rw (e, g) (λ w. (f o.key o.tid w.0, u w.1), λ k t w. (w.0, f k t w.1))
        ]
        | inr e ↦ rw e (λ w. (f o.key o.tid w.0, u w.1), λ k t w. (w.0, f k t w.1))
      ]

abbrev pub Room : Bytes → ℕ → List PageObject → Type 0
Room key tid qs = IsUnique qs × (IsFresh key tid qs ⊎ (3 ≤ length (versions key qs)))

updated-Room :
    (key : Bytes) (tid : ℕ) (os : List PageObject)
    → IsUnique os
    → OnOk (Room key tid) (updated key tid os)
updated-Room key tid os u =
    updated-OnOk key tid os (Room key tid) (λ e. (u, inl (versions-IsFresh key tid os (rw e tt))))
      (λ l. (u, inr l)) (without-IsUnique key tid os u, inl (without-IsFresh key tid os))
      λ v e f.
        OnOk-weaken (Kept os) (λ r. Room key tid r.1) (expired key v tid os)
          (expired-Kept key v tid os)
          (λ r (k, l). (k u, inl (l key tid (versions-IsFresh key tid os (rw e (f, tt))))))

pub added-IsUnique :
    (o : PageObject) (os : List PageObject) → Room o.key o.tid os → OnOk IsUnique (added o os)
unfolding added
added-IsUnique o os (u, inl f) = elim (Bool-cases (leb 2 (length (versions o.key os)))) [
  | inl e ↦ rw e tt
  | inr e ↦ rw e (sort-IsUnique (os ++ o ∷ []) (last-IsUnique o os f u))
]
added-IsUnique o os (u, inr l) =
    let e : leb 2 (length (versions o.key os)) ≡ true = ground arith in rw e tt

-- A new version replaces the transaction's own version of the key, or there is none.
pub written-IsUnique :
    (o : PageObject) (os : List PageObject) → IsUnique os → OnOk IsUnique (written o os)
unfolding written
written-IsUnique o os u =
    OnOk-bind (Room o.key o.tid) IsUnique (updated o.key o.tid os) (added o)
      (updated-Room o.key o.tid os u) (λ qs r. added-IsUnique o qs r)

abbrev pub IsKept : PageObject → PageObject → Type 0
IsKept o q = (q.key ≡ o.key) × (q.tid ≡ o.tid)

is_object-kept :
    (key : Bytes) (tid : ℕ) (o q : PageObject)
    → IsKept o q
    → is_object key tid q ≡ is_object key tid o
is_object-kept key tid o q (k, t) = λ i. eqz (compare_bytes key (k i)) (pos 0) && t i == tid

module _ (f : PageObject → Option PageObject)
    (k : (o q : PageObject) → f o ≡ some q → IsKept o q) where
  attach-IsFresh :
      (key : Bytes) (tid : ℕ) (o : PageObject) (x : Option PageObject) (qs : List PageObject)
      → f o ≡ x
      → is_object key tid o ≡ false
      → IsFresh key tid qs
      → IsFresh key tid (attach x qs)
  attach-IsFresh key tid o none qs e g h = h
  attach-IsFresh key tid o (some q) qs e g h = (is_object-kept key tid o q (k o q e) ∙ g, h)

  amend-IsFresh :
      (key : Bytes) (tid : ℕ) (os : List PageObject)
      → IsFresh key tid os
      → IsFresh key tid (amend f os)
  amend-IsFresh key tid [] h = tt
  amend-IsFresh key tid (o ∷ os) h =
      attach-IsFresh key tid o (f o) (amend f os) refl h.0 (amend-IsFresh key tid os h.1)

  attach-IsUnique :
      (o : PageObject) (x : Option PageObject) (qs : List PageObject)
      → f o ≡ x
      → IsFresh o.key o.tid qs
      → IsUnique qs
      → IsUnique (attach x qs)
  attach-IsUnique o none qs e h u = u
  attach-IsUnique o (some q) qs e h u = let (a, b) = k o q e in rw (a, b) (h, u)

  -- What a loop leaves of the objects.
  pub amend-IsUnique : (os : List PageObject) → IsUnique os → IsUnique (amend f os)
  amend-IsUnique [] u = tt
  amend-IsUnique (o ∷ os) u =
      attach-IsUnique o (f o) (amend f os) refl (amend-IsFresh o.key o.tid os u.0)
        (amend-IsUnique os u.1)
