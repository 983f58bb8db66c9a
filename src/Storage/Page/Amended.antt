-- ===== src/Storage/Page/Amended.antt =====
-- Loops over the objects of a page that change or remove each of them, through its key and the
-- transaction that created it (vsql/page.v).
use vsql.Base.{
  ℕ, ◌≡◌, refl, sym, ap, ◌∙◌, inl, inr, true, false, ◌&&◌, Option, none, some, List, [], ◌∷◌, arith,
  ◌==◌, All, Bool-cases, ==_refl,
}
use vsql.Base.Ints.{pos, eqz}
use vsql.Base.Bytes.{Bytes, str_eq, str_eq_refl}
use vsql.Storage.Page.{PageObject}
use vsql.Storage.Page.Operations.{compare_bytes, is_object}

pub compare-str_eq : (a b : Bytes) → eqz (compare_bytes a b) (pos 0) ≡ str_eq a b
unfolding compare_bytes str_eq
compare-str_eq [] [] = refl
compare-str_eq [] (b ∷ bs) = ground arith
compare-str_eq (a ∷ as') [] = ground arith
compare-str_eq (a ∷ as') (b ∷ bs) = elim (Bool-cases (a == b)) [
  | inl e ↦ rw e (compare-str_eq as' bs)
  | inr e ↦ rw e (ground arith)
]

abbrev pub attach : Option PageObject → List PageObject → List PageObject
attach none os = os
attach (some o) os = o ∷ os

abbrev pub follow : Option PageObject → (PageObject → Option PageObject) → Option PageObject
follow none f = none
follow (some o) f = f o

-- The objects that are left, as `f` changes them.
abbrev pub amend : (PageObject → Option PageObject) → List PageObject → List PageObject
amend f [] = []
amend f (o ∷ os) = attach (f o) (amend f os)

-- A loop over the objects `snap`, and what becomes of one object in it.
abbrev pub Act : Type 0
Act = PageObject → PageObject → Option PageObject

abbrev pub run : Act → List PageObject → List PageObject → List PageObject
run act [] os = os
run act (s ∷ snap) os = run act snap (amend (act s) os)

abbrev pub fate : Act → List PageObject → PageObject → Option PageObject
fate act [] o = some o
fate act (s ∷ snap) o = follow (act s o) (fate act snap)

amend-some : (os : List PageObject) → amend some os ≡ os
amend-some [] = refl
amend-some (o ∷ os) = ap (λ (t : List PageObject). o ∷ t) (amend-some os)

amend-attach :
    (f : PageObject → Option PageObject) (x : Option PageObject) (os : List PageObject)
    → amend f (attach x os) ≡ attach (follow x f) (amend f os)
amend-attach f none os = refl
amend-attach f (some o) os = refl

amend-fate :
    (act : Act) (s : PageObject) (snap os : List PageObject)
    → amend (fate act snap) (amend (act s) os) ≡ amend (fate act (s ∷ snap)) os
amend-fate act s snap [] = refl
amend-fate act s snap (o ∷ os) =
    amend-attach (fate act snap) (act s o) (amend (act s) os)
    ∙ ap (attach (follow (act s o) (fate act snap))) (amend-fate act s snap os)

run-amend : (act : Act) (snap os : List PageObject) → run act snap os ≡ amend (fate act snap) os
run-amend act [] os = sym (amend-some os)
run-amend act (s ∷ snap) os = run-amend act snap (amend (act s) os) ∙ amend-fate act s snap os

amend_ext :
    (f g : PageObject → Option PageObject) (os : List PageObject)
    → All (λ o. f o ≡ g o) os
    → amend f os ≡ amend g os
amend_ext f g [] h = refl
amend_ext f g (o ∷ os) h = λ i. attach (h.0 i) (amend_ext f g os h.1 i)

-- No two objects have the same key and were created by the same transaction.
abbrev pub IsUnique : List PageObject → Type 0
IsUnique [] = Unit
IsUnique (o ∷ os) = All (λ q. is_object o.key o.tid q ≡ false) os × IsUnique os

pub is_object_self : (o : PageObject) → is_object o.key o.tid o ≡ true
is_object_self o = rw (compare-str_eq o.key o.key, str_eq_refl o.key) (==_refl o.tid)

pub str_eq_comm : (a b : Bytes) → str_eq a b ≡ str_eq b a
unfolding str_eq
str_eq_comm [] [] = refl
str_eq_comm [] (b ∷ bs) = refl
str_eq_comm (a ∷ as') [] = refl
str_eq_comm (a ∷ as') (b ∷ bs) = ground (arith, str_eq_comm as' bs)

pub is_object_comm : (s q : PageObject) → is_object s.key s.tid q ≡ is_object q.key q.tid s
is_object_comm s q =
    rw (compare-str_eq s.key q.key, compare-str_eq q.key s.key, str_eq_comm s.key q.key)
      (ground arith)

All-map2 :
    (P Q R : PageObject → Type 0) (os : List PageObject)
    → ((o : PageObject) → P o → Q o → R o)
    → All P os
    → All Q os
    → All R os
All-map2 P Q R [] f h k = tt
All-map2 P Q R (o ∷ os) f h k = (f o h.0 k.0, All-map2 P Q R os f h.1 k.1)

pub All-map :
    (P Q : PageObject → Type 0) (os : List PageObject)
    → ((o : PageObject) → P o → Q o)
    → All P os
    → All Q os
All-map P Q [] f h = tt
All-map P Q (o ∷ os) f h = (f o h.0, All-map P Q os f h.1)

-- Each step of the loop leaves objects with another key or transaction, and changes neither.
pub record IsLocal (act : Act) : Type 0 where
  pub other : (s o : PageObject) → is_object s.key s.tid o ≡ false → act s o ≡ some o
  pub keeps : (s o q : PageObject) → act s o ≡ some q → (q.key ≡ o.key) × (q.tid ≡ o.tid)

module _ (act : Act) (l : IsLocal act) where
  fate-other :
      (os : List PageObject) (o : PageObject)
      → All (λ s. is_object s.key s.tid o ≡ false) os
      → fate act os o ≡ some o
  fate-other [] o h = refl
  fate-other (s ∷ os) o h =
      ap (λ (x : Option PageObject). follow x (fate act os)) (l.other s o h.0) ∙ fate-other os o h.1

  fate-kept :
      (os : List PageObject) (s : PageObject) (x : Option PageObject)
      → act s s ≡ x
      → All (λ q. is_object s.key s.tid q ≡ false) os
      → follow x (fate act os) ≡ x
  fate-kept os s none e h = refl
  fate-kept os s (some q) e h =
      let (k, t) = l.keeps s s q e in
      fate-other os q (
        All-map (λ r. is_object s.key s.tid r ≡ false) (λ r. is_object r.key r.tid q ≡ false) os
          (λ r f.
            ap (λ (y : Bytes). eqz (compare_bytes r.key y) (pos 0) && q.tid == r.tid) k
            ∙ ap (λ (y : ℕ). eqz (compare_bytes r.key s.key) (pos 0) && y == r.tid) t
            ∙ is_object_comm r s
            ∙ f)
          h)

  -- When no two objects are the same, an object meets itself only.
  fate_unique : (os : List PageObject) → IsUnique os → All (λ o. fate act os o ≡ act o o) os
  fate_unique [] h = tt
  fate_unique (s ∷ os) h = (
    ap (λ (x : Option PageObject). follow x (fate act os)) refl ∙ fate-kept os s (act s s) refl h.0,
    All-map2 (λ o. is_object s.key s.tid o ≡ false) (λ o. fate act os o ≡ act o o)
        (λ o. fate act (s ∷ os) o ≡ act o o) os
        (λ o f k. ap (λ (x : Option PageObject). follow x (fate act os)) (l.other s o f) ∙ k) h.0
        (fate_unique os h.1),
  )

  -- The loop over the objects of a page does to each what its own step does.
  pub run_unique : (os : List PageObject) → IsUnique os → run act os os ≡ amend (λ o. act o o) os
  run_unique os h =
      run-amend act os os ∙ amend_ext (fate act os) (λ o. act o o) os (fate_unique os h)
