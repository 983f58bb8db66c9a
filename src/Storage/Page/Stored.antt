-- ===== src/Storage/Page/Stored.antt =====
-- A page that stores some objects, and the objects that the operations leave in it (vsql/page.v).
use vsql.Base.{
  ℕ, zero, suc, ◌+◌, ◌-◌, ◌^◌, ◌<◌, ◌≤◌, ◌≡◌, refl, sym, ap, ◌∙◌, List, [], ◌∷◌, ◌++◌, arith,
  if◌then◌else◌, length, All, length-append,
}
use vsql.Base.Bytes.{Bytes}
use mathlib.Core.List.{append_assoc}
use vsql.Storage.Numbers.{drop, drop-append}
use vsql.Storage.Page.{
  PageObject, Page, ok, object_length, object_bytes, page_size, parse_page_object, objects_from,
  objects,
}
use vsql.Storage.Page.Encoded.{IsEncodable, parse-bytes}
use vsql.Storage.Page.Operations.{write_over, all_bytes}

-- The page has `n` bytes, stores the objects from its start on, and `used` counts their bytes.
pub record IsPage (n : ℕ) (p : Page) (os : List PageObject) : Type 0 where
  pub encodable : All IsEncodable os
  pub unused : Bytes
  pub stored : p.content ≡ all_bytes os ++ unused
  pub used : p.used ≡ 16 + length (all_bytes os)
  pub sized : page_size p ≡ n
  pub small : n < 2 ^ 16

length-bytes : (o : PageObject) → length (object_bytes o) ≡ object_length o
unfolding object_bytes
length-bytes o = omega (arith, length-append o.key ((if o.is_blob_ref then 1 else 0) ∷ o.value))

objects_step :
    (fuel left n : ℕ) (rest : Bytes) (o : PageObject) (os : List PageObject)
    → 0 < left
    → parse_page_object rest ≡ ok (n, o)
    → objects_from fuel (left - n) (drop n rest) ≡ ok os
    → objects_from (suc fuel) left rest ≡ ok (o ∷ os)
unfolding objects_from
objects_step fuel zero n rest o os z h k = absurd (omega arith)
objects_step fuel (suc left) n rest o os z h k = rw (h, k) refl

objects_end : (fuel : ℕ) (rest : Bytes) → objects_from (suc fuel) 0 rest ≡ ok []
unfolding objects_from
objects_end fuel rest = refl

objects_from-bytes :
    (os : List PageObject) (fuel : ℕ) (unused : Bytes)
    → All IsEncodable os
    → length os < fuel
    → objects_from fuel (length (all_bytes os)) (all_bytes os ++ unused) ≡ ok os
unfolding all_bytes
objects_from-bytes os zero unused e h = absurd (omega arith)
objects_from-bytes [] (suc fuel) unused e h = objects_end fuel unused
objects_from-bytes (o ∷ os) (suc fuel) unused e h =
    let l = length-bytes o in
    let assoc = append_assoc (object_bytes o) (all_bytes os) unused in
    let r = length-append (object_bytes o) (all_bytes os) in
    let left : length (object_bytes o ++ all_bytes os) - object_length o ≡ length (all_bytes os) =
      omega (arith, r, l) in
    let rest =
      ap (λ (n : ℕ). drop n ((object_bytes o ++ all_bytes os) ++ unused)) (sym l)
      ∙ ap (drop (length (object_bytes o))) assoc
      ∙ drop-append (object_bytes o) (all_bytes os ++ unused) in
    objects_step fuel (length (object_bytes o ++ all_bytes os)) (object_length o) _ o os
      (omega (arith, r, l))
      (ap parse_page_object assoc ∙ parse-bytes o e.0 (all_bytes os ++ unused))
      (rw (left, rest) (objects_from-bytes os fuel unused e.1 (omega arith)))

length-all_bytes : (os : List PageObject) → length os ≤ length (all_bytes os)
unfolding all_bytes
length-all_bytes [] = omega arith
length-all_bytes (o ∷ os) =
    omega
      (arith, length-append (object_bytes o) (all_bytes os), length-bytes o, length-all_bytes os)

-- The objects of a page are read back from its bytes.
pub objects_lem : (n : ℕ) (p : Page) (os : List PageObject) → IsPage n p os → objects p ≡ ok os
unfolding objects
objects_lem n p os h =
    let left : p.used - 16 ≡ length (all_bytes os) = (let u = h.used in omega arith) in
    rw (left, h.stored)
      (objects_from-bytes os (suc p.used) h.unused h.encodable
        (let u = h.used in omega (arith, length-all_bytes os)))

write_over-append :
    (new rest : Bytes)
    → length new ≤ length rest
    → (left : Bytes) × (write_over new rest ≡ ok (new ++ left))
      × (length (new ++ left) ≡ length rest)
unfolding write_over
write_over-append [] rest h = (rest, refl, refl)
write_over-append (b ∷ new) [] h = absurd (omega arith)
write_over-append (b ∷ new) (old ∷ rest) h =
    let (left, e, l) = write_over-append new rest (omega arith) in (left, rw e refl, ap suc l)

-- The bytes that the objects take.
abbrev pub size : List PageObject → ℕ
size [] = 0
size (o ∷ os) = object_length o + size os

pub length_size : (os : List PageObject) → length (all_bytes os) ≡ size os
unfolding all_bytes
length_size [] = refl
length_size (o ∷ os) =
    omega (arith, length-append (object_bytes o) (all_bytes os), length-bytes o, length_size os)

-- Other objects are written over those of a page, when they fit.
pub write_over-IsPage :
    (n : ℕ) (p : Page) (os : List PageObject)
    → All IsEncodable os
    → size os ≤ length p.content
    → page_size p ≡ n
    → n < 2 ^ 16
    → (q : Bytes) × (write_over (all_bytes os) p.content ≡ ok q)
      × ((u : ℕ) → u ≡ 16 + size os → IsPage n (record p { content = q; used = u }) os)
unfolding page_size
write_over-IsPage n p os e h z s =
    let l = length_size os in
    let (left, w, k) = write_over-append (all_bytes os) p.content (omega arith) in
    (
      all_bytes os ++ left,
      w,
      λ u v. record {
        encodable = e;
        unused = left;
        stored = refl;
        used = omega arith;
        sized = ap (λ (j : ℕ). j + 16) k ∙ z;
        small = s;
      },
    )
