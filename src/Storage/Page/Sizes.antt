-- ===== src/Storage/Page/Sizes.antt =====
-- The bytes that the operations on the objects of a page need (vsql/page.v).
use vsql.Base.{
  ℕ, ◌+◌, ◌-◌, ◌%◌, ◌^◌, ◌<◌, ◌≤◌, ◌≡◌, refl, ap, ◌∙◌, inl, inr, Bool, true, false, not, ◌&&◌, List,
  [], ◌∷◌, ◌++◌, arith, ◌==◌, if◌then◌else◌, All, Bool-cases,
}
use vsql.Base.Ints.{pos, lez}
use vsql.Base.Bytes.{Bytes}
use vsql.Storage.Page.{PageObject, Result, ok, conflict, panic, ◌>>=◌, object_length}
use vsql.Storage.Page.Encoded.{IsEncodable}
use vsql.Storage.Page.Stored.{size}
use vsql.Storage.Page.Operations.{
  compare_bytes, insert_object, sort_objects, without, used_without, is_object, expired, with_xid,
}

pub size-append : (os qs : List PageObject) → size (os ++ qs) ≡ size os + size qs
size-append [] qs = omega arith
size-append (o ∷ os) qs = omega (arith, size-append os qs)

pub size-insert :
    (o : PageObject) (os : List PageObject) → size (insert_object o os) ≡ object_length o + size os
unfolding insert_object
size-insert o [] = refl
size-insert o (q ∷ qs) = elim (Bool-cases (lez (compare_bytes o.key q.key) (pos 0))) [
  | inl h ↦ rw h refl
  | inr h ↦ rw h (omega (arith, size-insert o qs))
]

pub size-sort : (os : List PageObject) → size (sort_objects os) ≡ size os
unfolding sort_objects
size-sort [] = refl
size-sort (o ∷ os) = omega (arith, size-insert o (sort_objects os), size-sort os)

module _ (P : PageObject → Type 0) where
  pub All-append : (os qs : List PageObject) → All P os → All P qs → All P (os ++ qs)
  All-append [] qs h k = k
  All-append (o ∷ os) qs h k = (h.0, All-append os qs h.1 k)

  All-insert : (o : PageObject) (os : List PageObject) → P o → All P os → All P (insert_object o os)
  unfolding insert_object
  All-insert o [] h k = (h, tt)
  All-insert o (q ∷ qs) h k = elim (Bool-cases (lez (compare_bytes o.key q.key) (pos 0))) [
    | inl e ↦ rw e (h, k)
    | inr e ↦ rw e (k.0, All-insert o qs h k.1)
  ]

  pub All-sort : (os : List PageObject) → All P os → All P (sort_objects os)
  unfolding sort_objects
  All-sort [] h = tt
  All-sort (o ∷ os) h = All-insert o (sort_objects os) h.0 (All-sort os h.1)

  pub All-without :
      (key : Bytes) (tid : ℕ) (os : List PageObject) → All P os → All P (without key tid os)
  unfolding without
  All-without key tid [] h = tt
  All-without key tid (o ∷ os) h = elim (Bool-cases (is_object key tid o)) [
    | inl e ↦ rw e (All-without key tid os h.1)
    | inr e ↦ rw e (h.0, All-without key tid os h.1)
  ]

pub size-without-le :
    (key : Bytes) (tid : ℕ) (os : List PageObject) → size (without key tid os) ≤ size os
unfolding without
size-without-le key tid [] = omega arith
size-without-le key tid (o ∷ os) = elim (Bool-cases (is_object key tid o)) [
  | inl e ↦ rw e (omega (arith, size-without-le key tid os))
  | inr e ↦ rw e (omega (arith, size-without-le key tid os))
]

-- What is counted as used is what the other objects take.
pub used_without_lem :
    (key : Bytes) (tid : ℕ) (os : List PageObject) (n : ℕ)
    → n + size os < 2 ^ 16
    → used_without key tid os (n + size os) ≡ n + size (without key tid os)
unfolding used_without without
used_without_lem key tid [] n h = refl
used_without_lem key tid (o ∷ os) n h = elim (Bool-cases (is_object key tid o)) [
  | inl e ↦
      let k : (n + (object_length o + size os) + 2 ^ 16 - object_length o % 2 ^ 16) % 2 ^ 16
          ≡ n + size os =
        omega arith in
      rw (e, k) (used_without_lem key tid os n (omega arith))
  | inr e ↦
      let k : n + (object_length o + size os) ≡ n + object_length o + size os = omega arith in
      rw (e, k) (used_without_lem key tid os (n + object_length o) (omega arith) ∙ omega arith)
]

-- What holds of a result, unless there is a conflict.
abbrev pub OnOk : {A : Type 0} → (A → Type 0) → Result A → Type 0
OnOk P (ok a) = P a
OnOk P conflict = Unit
OnOk P panic = ⊥

pub OnOk-bind :
    {A B : Type 0} (P : A → Type 0) (Q : B → Type 0) (r : Result A) (f : A → Result B)
    → OnOk P r
    → ((a : A) → P a → OnOk Q (f a))
    → OnOk Q (r >>= f)
OnOk-bind P Q (ok a) f h k = k a h
OnOk-bind P Q conflict f h k = tt
OnOk-bind P Q panic f h k = absurd h

pub OnOk-weaken :
    {A : Type 0} (P Q : A → Type 0) (r : Result A) → OnOk P r → ((a : A) → P a → Q a) → OnOk Q r
OnOk-weaken P Q (ok a) h k = k a h
OnOk-weaken P Q conflict h k = tt
OnOk-weaken P Q panic h k = h

-- The objects take as many bytes as before.
abbrev pub SameSize : List PageObject → Bool × List PageObject → Type 0
SameSize os (modified, os') = (size os' ≡ size os) × All IsEncodable os'

pub expired-SameSize :
    (key : Bytes) (tid xid : ℕ) (os : List PageObject)
    → xid < 2 ^ 64
    → All IsEncodable os
    → OnOk (SameSize os) (expired key tid xid os)
unfolding expired
expired-SameSize key tid xid [] x e = (refl, tt)
expired-SameSize key tid xid (o ∷ os) x e =
    OnOk-bind (SameSize os) (SameSize (o ∷ os)) (expired key tid xid os) _
      (expired-SameSize key tid xid os x e.1)
      λ (modified, rest) (s, k).
        same_if (is_object key tid o) (not (xid == 0) && (not (o.xid == 0) && not (o.xid == xid)))
          modified rest s k
  where
    same_if :
        (b c : Bool) (modified : Bool) (rest : List PageObject)
        → size rest ≡ size os
        → All IsEncodable rest
        → OnOk (SameSize (o ∷ os)) (
            if b
            then (if c then conflict else ok (true, with_xid xid o ∷ rest))
            else ok (modified, o ∷ rest))
    same_if true true modified rest s k = tt
    same_if true false modified rest s k = (
      ap (λ (n : ℕ). object_length o + n) s,
      (
        record {
          key_fits = e.0.key_fits;
          length_fits = e.0.length_fits;
          tid_fits = e.0.tid_fits;
          xid_fits = x;
        },
        k,
      ),
    )
    same_if false c modified rest s k = (ap (λ (n : ℕ). object_length o + n) s, (e.0, k))
