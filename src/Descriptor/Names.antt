-- ===== src/Descriptor/Names.antt =====
-- The SQL descriptor areas of an SQL-connection are a map from names
-- (vsql/std_2_20_1_description_of_sql_descriptor_areas.c).
use vsql.Base.{
  ℕ, ◌≡◌, refl, sym, ap, ◌∙◌, inl, inr, Bool, true, false, ◌&&◌, Option, none, some, List, [], ◌∷◌,
  arith, if◌then◌else◌, Bool-cases,
}
use vsql.Base.Bytes.{Bytes, str_eq, eq_of_str_eq}
use vsql.Runtime.{Descriptor}
use vsql.Session.{same}
use vsql.Descriptor.{is_named, find, remove, update}

abbrev pub Key : Type 0
Key = Bytes × Option ℕ

-- What the statements can see of the list: the area behind each name.
abbrev pub View : Type 0
View = Bytes → Option ℕ → Option Descriptor

abbrev pub view : List Descriptor → View
view ds name scope = find name scope ds

-- Two names are the name of one area.
abbrev pub same_key : Bytes → Option ℕ → Bytes → Option ℕ → Bool
same_key name scope name' scope' = same scope scope' && str_eq name name'

abbrev pub change : {A : Type 0} → (A → A) → Option A → Option A
change f none = none
change f (some a) = some (f a)

eq_of_same : (a b : Option ℕ) → same a b ≡ true → a ≡ b
eq_of_same none none h = refl
eq_of_same none (some b) h = cc
eq_of_same (some a) none h = cc
eq_of_same (some a) (some b) h = ap some (ground arith)

key_of :
    (name : Bytes) (scope : Option ℕ) (d : Descriptor)
    → is_named name scope d ≡ true
    → (d.module_id ≡ scope) × (d.name ≡ name)
unfolding is_named
key_of name scope d h =
    (eq_of_same d.module_id scope (ground arith), eq_of_str_eq d.name name (ground arith))

is_named-same :
    (name : Bytes) (scope : Option ℕ) (name' : Bytes) (scope' : Option ℕ) (d : Descriptor)
    → is_named name scope d ≡ true
    → is_named name' scope' d ≡ same_key name scope name' scope'
unfolding is_named
is_named-same name scope name' scope' d h = let (e, k) = key_of name scope d h in rw (e, k) refl

-- An area that has neither name is not the one that both are.
is_named-other :
    (name : Bytes) (scope : Option ℕ) (name' : Bytes) (scope' : Option ℕ) (d : Descriptor)
    → same_key name scope name' scope' ≡ true
    → is_named name scope d ≡ is_named name' scope' d
unfolding is_named
is_named-other name scope name' scope' d h =
    let e = eq_of_same scope scope' (ground arith) in
    let k = eq_of_str_eq name name' (ground arith) in rw (e, k) refl

module _ {A : Type 0} where
  if_same : (b : Bool) (x : A) → x ≡ (if b then x else x)
  if_same true x = refl
  if_same false x = refl

  if_twice : (b : Bool) (x y z : A) → (if b then x else z) ≡ (if b then x else if b then y else z)
  if_twice true x y z = refl
  if_twice false x y z = refl

  -- Two tests that do not both succeed can be made in either order.
  if_swap :
      (b c : Bool) (x y z : A)
      → (c ≡ true → b ≡ false)
      → (if b then x else if c then y else z) ≡ (if c then y else if b then x else z)
  if_swap true true x y z h = absurd (cc (h refl))
  if_swap true false x y z h = refl
  if_swap false true x y z h = refl
  if_swap false false x y z h = refl

not_both :
    (name : Bytes) (scope : Option ℕ) (name' : Bytes) (scope' : Option ℕ) (d : Descriptor)
    → is_named name scope d ≡ false
    → same_key name scope name' scope' ≡ true
    → is_named name' scope' d ≡ false
not_both name scope name' scope' d h k = sym (is_named-other name scope name' scope' d k) ∙ h

module _ (name : Bytes) (scope : Option ℕ) (f : Descriptor → Descriptor)
    (keeps : (d : Descriptor) → ((f d).name ≡ d.name) × ((f d).module_id ≡ d.module_id)) where
  is_named-keeps : (n : Bytes) (s : Option ℕ) (d : Descriptor) → is_named n s (f d) ≡ is_named n s d
  unfolding is_named
  is_named-keeps n s d = rw ((keeps d).0, (keeps d).1) refl

  -- A write `f` through the pointer to an area, which keeps its name and module, changes what the
  -- name and the module find, and what no other name and module find.
  pub find-update :
      (name' : Bytes) (scope' : Option ℕ) (ds : List Descriptor)
      → find name' scope' (update name scope f ds) ≡ (
          if same_key name scope name' scope'
          then change f (find name scope ds)
          else find name' scope' ds)
  unfolding find update
  find-update name' scope' [] = if_same (same_key name scope name' scope') none
  find-update name' scope' (d ∷ ds) = elim (Bool-cases (is_named name scope d)) [
    | inl h ↦
        rw (h, is_named-keeps name' scope' d, is_named-same name scope name' scope' d h)
          (if_twice (same_key name scope name' scope') (some (f d)) (some d) (find name' scope' ds))
    | inr h ↦
        rw (h, find-update name' scope' ds)
          (if_swap (is_named name' scope' d) (same_key name scope name' scope') (some d)
            (change f (find name scope ds)) (find name' scope' ds)
            (not_both name scope name' scope' d h))
  ]

-- No two areas of the list have the same name.
abbrev pub IsDistinct : List Descriptor → Type 0
IsDistinct [] = Unit
IsDistinct (d ∷ ds) = (find d.name d.module_id ds ≡ none) × IsDistinct ds

find-same :
    (name : Bytes) (scope : Option ℕ) (name' : Bytes) (scope' : Option ℕ) (ds : List Descriptor)
    → same_key name scope name' scope' ≡ true
    → find name scope ds ≡ find name' scope' ds
find-same name scope name' scope' ds h =
    let e = eq_of_same scope scope' (ground arith) in
    let k = eq_of_str_eq name name' (ground arith) in rw (e, k) refl

if_gone :
    {A : Type 0} (b : Bool) (y z : Option A)
    → (b ≡ true → z ≡ none)
    → z ≡ (if b then none else if b then y else z)
if_gone true y z h = h refl
if_gone false y z h = refl

gone_of :
    (name : Bytes) (scope : Option ℕ) (d : Descriptor) (ds : List Descriptor)
    → is_named name scope d ≡ true
    → find d.name d.module_id ds ≡ none
    → find name scope ds ≡ none
gone_of name scope d ds h k =
    let (e, n) = key_of name scope d h in
    sym (
      ap (λ (x : Key). find x.0 x.1 ds)
        (ap (λ (y : Bytes). (y, d.module_id)) n ∙ ap (λ (y : Option ℕ). (name, y)) e))
    ∙ k

-- If no two areas of the list have the same name and module, the one that is removed is not found
-- afterwards, and all others are found as before.
pub find-remove :
    (name : Bytes) (scope : Option ℕ) (name' : Bytes) (scope' : Option ℕ) (ds : List Descriptor)
    → IsDistinct ds
    → find name' scope' (remove name scope ds)
      ≡ (if same_key name scope name' scope' then none else find name' scope' ds)
unfolding find remove
find-remove name scope name' scope' [] h = if_same (same_key name scope name' scope') none
find-remove name scope name' scope' (d ∷ ds) h = elim (Bool-cases (is_named name scope d)) [
  | inl k ↦
      rw (k, is_named-same name scope name' scope' d k)
        (if_gone (same_key name scope name' scope') (some d) (find name' scope' ds)
          (λ e. sym (find-same name scope name' scope' ds e) ∙ gone_of name scope d ds k h.0))
  | inr k ↦
      rw (k, find-remove name scope name' scope' ds h.1)
        (if_swap (is_named name' scope' d) (same_key name scope name' scope') (some d) none
          (find name' scope' ds) (not_both name scope name' scope' d k))
]
