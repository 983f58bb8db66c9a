-- ===== src/Storage/Page/Refined.antt =====
-- The operations on the bytes of a page are operations on the list of its objects (vsql/page.v).
use vsql.Base.{
  ℕ, ◌+◌, ◌%◌, ◌^◌, ◌<◌, ◌≤◌, ◌≡◌, refl, ap, ◌∙◌, inl, inr, Bool, true, false, List, [], ◌∷◌, ◌++◌,
  arith, ltb, leb, ◌==◌, if◌then◌else◌, length, Bool-cases, length-append,
}
use vsql.Base.Bytes.{Bytes}
use vsql.Storage.Page.{
  PageObject, Page, Result, ok, conflict, panic, ◌>>=◌, object_length, page_size,
}
use vsql.Storage.Page.Encoded.{IsEncodable}
use vsql.Storage.Page.Stored.{IsPage, objects_lem, size, length_size, write_over-IsPage}
use vsql.Storage.Page.Sizes.{
  size-append, size-sort, size-without-le, used_without_lem, All-append, All-sort, All-without,
  OnOk, SameSize, expired-SameSize,
}
use vsql.Storage.Page.Operations.{
  versions, all_bytes, sort_objects, add, without, used_without, has_object, delete, expired,
  expire, update,
}

module _ (n : ℕ) (p : Page) (os : List PageObject) (h : IsPage n p os) where
  used_size : p.used ≡ 16 + size os
  used_size = (let u = h.used in omega (arith, length_size os))

  content_size : size os ≤ length p.content
  content_size = omega (
    arith,
    ap (λ (t : Bytes). length t) h.stored,
    length-append (all_bytes os) h.unused,
    length_size os,
  )

  pub add_lem :
      (o : PageObject)
      → IsEncodable o
      → p.used + object_length o ≤ page_size p
      → length (versions o.key os) < 2
      → (q : Page) × (add o p ≡ ok q) × IsPage n q (sort_objects (os ++ o ∷ []))
  unfolding add page_size
  add_lem o e f v =
      let new = sort_objects (os ++ o ∷ []) in
      let s : size new ≡ size os + object_length o =
        omega (arith, size-sort (os ++ o ∷ []), size-append os (o ∷ [])) in
      let small : ltb (length p.content + 16) (p.used + object_length o) ≡ false = ground arith in
      let few : leb 2 (length (versions o.key os)) ≡ false = ground arith in
      let u = used_size in
      let (c, w, k) =
        write_over-IsPage n p new
          (All-sort IsEncodable (os ++ o ∷ [])
            (All-append IsEncodable os (o ∷ []) h.encodable (e, tt)))
          (omega arith) h.sized h.small in
      let l = h.small in
      let z = h.sized in
      (
        record p { content = c; used = (p.used + object_length o) % 2 ^ 16 },
        rw (small, objects_lem n p os h, few, w) refl,
        k ((p.used + object_length o) % 2 ^ 16) (omega arith),
      )

  pub add-conflict :
      (o : PageObject)
      → p.used + object_length o ≤ page_size p
      → 2 ≤ length (versions o.key os)
      → add o p ≡ conflict
  unfolding add page_size
  add-conflict o f v =
      let small : ltb (length p.content + 16) (p.used + object_length o) ≡ false = ground arith in
      let many : leb 2 (length (versions o.key os)) ≡ true = ground arith in
      rw (small, objects_lem n p os h, many) refl

  pub delete_lem :
      (key : Bytes) (tid : ℕ)
      → (q : Page) × (delete key tid p ≡ ok (has_object key tid os, q))
        × IsPage n q (without key tid os)
  unfolding delete page_size
  delete_lem key tid =
      let l = size-without-le key tid os in
      let (c, w, k) =
        write_over-IsPage n p (without key tid os) (All-without IsEncodable key tid os h.encodable)
          (omega (arith, content_size)) h.sized h.small in
      let u : used_without key tid os p.used ≡ 16 + size (without key tid os) =
        ap (used_without key tid os) used_size
        ∙ used_without_lem key tid os 16
            (let c = content_size in let m = h.small in let z = h.sized in omega arith) in
      (
        record p { content = c; used = used_without key tid os p.used },
        rw (objects_lem n p os h, w) refl,
        k (used_without key tid os p.used) u,
      )

  pub expire_lem :
      (key : Bytes) (tid xid : ℕ) (modified : Bool) (os' : List PageObject)
      → xid < 2 ^ 64
      → expired key tid xid os ≡ ok (modified, os')
      → (q : Page) × (expire key tid xid p ≡ ok (modified, q)) × IsPage n q os'
  unfolding expire
  expire_lem key tid xid modified os' x e =
      let (s, k) = rw e at (expired-SameSize key tid xid os x h.encodable) in
      let (c, w, l) = write_over-IsPage n p os' k (omega (arith, content_size)) h.sized h.small in
      (
        record p { content = c },
        rw (objects_lem n p os h, e, w) refl,
        l p.used (omega (arith, used_size)),
      )

  pub expire-conflict :
      (key : Bytes) (tid xid : ℕ)
      → expired key tid xid os ≡ conflict
      → expire key tid xid p ≡ conflict
  unfolding expire
  expire-conflict key tid xid e = rw (objects_lem n p os h, e) refl

-- Page.update, on the list of the objects
unfoldable pub updated : Bytes → ℕ → List PageObject → Result (List PageObject)
updated key tid os = elim (versions key os) [
  | [] ↦ ok os
  | v ∷ [] ↦
      if v == tid
      then ok (without key tid os)
      else (do (modified, os') ← expired key v tid os; ok os')
  | v ∷ w ∷ [] ↦ ok (without key tid os)
  | v ∷ w ∷ x ∷ more ↦ ok os
]

-- Page.add, on the list of the objects
unfoldable pub added : PageObject → List PageObject → Result (List PageObject)
added o os =
    if leb 2 (length (versions o.key os)) then conflict else ok (sort_objects (os ++ o ∷ []))

-- The page stores the objects of the result, or there is a conflict in both.
abbrev pub Stores : ℕ → Result Page → Result (List PageObject) → Type 0
Stores n (ok q) (ok os) = IsPage n q os
Stores n (ok q) conflict = ⊥
Stores n (ok q) panic = ⊥
Stores n conflict (ok os) = ⊥
Stores n conflict conflict = Unit
Stores n conflict panic = ⊥
Stores n panic os = ⊥

module _ (n : ℕ) (p : Page) (os : List PageObject) (h : IsPage n p os) where
  delete-Stores :
      (key : Bytes) (tid : ℕ)
      → Stores n (do (done, q) ← delete key tid p; ok q) (ok (without key tid os))
  delete-Stores key tid = let (q, e, k) = delete_lem n p os h key tid in rw e k

  pub expire-Stores :
      (key : Bytes) (tid xid : ℕ)
      → xid < 2 ^ 64
      → Stores n
          (do (modified, q) ← expire key tid xid p; ok q)
          (do (modified, os') ← expired key tid xid os; ok os')
  expire-Stores key tid xid x =
      of_expired (expired key tid xid os) refl (expired-SameSize key tid xid os x h.encodable)
    where
      of_expired :
          (r : Result (Bool × List PageObject))
          → expired key tid xid os ≡ r
          → OnOk (SameSize os) r
          → Stores n
              (do (modified, q) ← expire key tid xid p; ok q)
              (do (modified, os') ← r; ok os')
      of_expired (ok (modified, os')) e k =
          let (q, f, l) = expire_lem n p os h key tid xid modified os' x e in rw f l
      of_expired conflict e k = rw (expire-conflict n p os h key tid xid e) tt
      of_expired panic e k = absurd k

  -- Page.add
  pub add-Stores :
      (o : PageObject)
      → IsEncodable o
      → 16 + size os + object_length o ≤ n
      → Stores n (add o p) (added o os)
  unfolding added
  add-Stores o e f =
      let fits : p.used + object_length o ≤ page_size p =
        (let u = used_size n p os h in let z = h.sized in omega arith) in
      elim (Bool-cases (leb 2 (length (versions o.key os)))) [
        | inl many ↦ rw (many, add-conflict n p os h o fits (ground arith)) tt
        | inr few ↦ let (q, k, l) = add_lem n p os h o e fits (ground arith) in rw (few, k) l
      ]

  -- Page.update makes of the objects of a page what `updated` makes of them, and conflicts where it
  -- does.
  pub update-Stores :
      (old : PageObject) (tid : ℕ)
      → tid < 2 ^ 64
      → Stores n (update old tid p) (updated old.key tid os)
  unfolding update updated
  update-Stores old tid t = rw (objects_lem n p os h) (of_versions (versions old.key os))
    where
      of_versions :
          (vs : List ℕ)
          → Stores n
              (elim vs [
                | [] ↦ ok p
                | v ∷ [] ↦
                    if v == tid
                    then (do (done, p') ← delete old.key tid p; ok p')
                    else (do (modified, p') ← expire old.key v tid p; ok p')
                | v ∷ w ∷ [] ↦ (do (done, p') ← delete old.key tid p; ok p')
                | v ∷ w ∷ x ∷ more ↦ ok p
              ])
              (elim vs [
                | [] ↦ ok os
                | v ∷ [] ↦
                    if v == tid
                    then ok (without old.key tid os)
                    else (do (modified, os') ← expired old.key v tid os; ok os')
                | v ∷ w ∷ [] ↦ ok (without old.key tid os)
                | v ∷ w ∷ x ∷ more ↦ ok os
              ])
      of_versions [] = h
      of_versions (v ∷ []) = elim (Bool-cases (v == tid)) [
        | inl e ↦ rw e (delete-Stores old.key tid)
        | inr e ↦ rw e (expire-Stores old.key v tid t)
      ]
      of_versions (v ∷ w ∷ []) = delete-Stores old.key tid
      of_versions (v ∷ w ∷ x ∷ more) = h
