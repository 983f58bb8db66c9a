-- ===== src/Storage/Page/Looped.antt =====
-- COMMIT and ROLLBACK on the bytes of a page are loops over the list of its objects
-- (vsql/std_2_17_7_commit_statement.v, vsql/std_2_17_8_rollback_statement.v).
use vsql.Base.{
  All, ℕ, ◌≡◌, refl, sym, ap, ◌∙◌, inl, inr, Bool, true, false, ◌&&◌, Option, none, some, List, [],
  ◌∷◌, arith, ◌==◌, if◌then◌else◌, Bool-cases,
}
use vsql.Storage.Page.{PageObject, Page, ok}
use vsql.Storage.Page.Operations.{is_object, without, expired, with_xid, delete}
use vsql.Storage.Page.Stored.{IsPage, objects_lem}
use vsql.Storage.Page.Refined.{delete_lem, expire_lem}
use vsql.Storage.Page.Ended.{
  no_key, page_of, commit_objects, commit_page, rollback_objects, rollback_page,
}
use vsql.Storage.Page.Amended.{attach, amend, Act, run, IsLocal, IsUnique, run_unique}

-- What the loops do to an object `o`, when they come to `s`.
abbrev pub commit_act : ℕ → Act
commit_act tid s o = if s.xid == tid && is_object s.key s.tid o then none else some o

abbrev pub rollback_act : ℕ → Act
rollback_act tid s o =
    if is_object s.key s.tid o
    then (if s.tid == tid then none else if s.xid == tid then some (with_xid 0 o) else some o)
    else some o

pub commit-IsLocal : (tid : ℕ) → IsLocal (commit_act tid)
commit-IsLocal tid = record { other = λ s o h. ground arith; keeps = λ s o q h. ground arith }

pub rollback-IsLocal : (tid : ℕ) → IsLocal (rollback_act tid)
rollback-IsLocal tid = record { other = λ s o h. ground arith; keeps = λ s o q h. ground arith }

-- One step on the list.
without-amend :
    (tid : ℕ) (s : PageObject) (os : List PageObject)
    → s.xid == tid ≡ true
    → without s.key s.tid os ≡ amend (commit_act tid s) os
unfolding without
without-amend tid s [] h = refl
without-amend tid s (o ∷ os) h = elim (Bool-cases (is_object s.key s.tid o)) [
  | inl e ↦ rw (h, e) (without-amend tid s os h)
  | inr e ↦ rw (h, e) (ap (λ (t : List PageObject). o ∷ t) (without-amend tid s os h))
]

amend_same :
    (f : PageObject → Option PageObject) (os : List PageObject)
    → ((o : PageObject) → f o ≡ some o)
    → os ≡ amend f os
amend_same f [] h = refl
amend_same f (o ∷ os) h = λ i. attach (sym (h o) i) (amend_same f os h i)

without-rollback :
    (tid : ℕ) (s : PageObject) (os : List PageObject)
    → s.tid == tid ≡ true
    → without s.key s.tid os ≡ amend (rollback_act tid s) os
unfolding without
without-rollback tid s [] h = refl
without-rollback tid s (o ∷ os) h = elim (Bool-cases (is_object s.key s.tid o)) [
  | inl e ↦ rw (e, h) (without-rollback tid s os h)
  | inr e ↦ rw e (ap (λ (t : List PageObject). o ∷ t) (without-rollback tid s os h))
]

expired-rollback :
    (tid : ℕ) (s : PageObject) (os : List PageObject)
    → s.tid == tid ≡ false
    → s.xid == tid ≡ true
    → (m : Bool) × (expired s.key s.tid 0 os ≡ ok (m, amend (rollback_act tid s) os))
unfolding expired
expired-rollback tid s [] h k = (false, refl)
expired-rollback tid s (o ∷ os) h k =
    let (m, e) = expired-rollback tid s os h k in
    elim (Bool-cases (is_object s.key s.tid o)) [
      | inl f ↦ (true, rw (e, f, h, k) refl)
      | inr f ↦ (m, rw (e, f) refl)
    ]

abbrev pub HasKey : PageObject → Type 0
HasKey o = no_key o.key ≡ false

module _ (tid n : ℕ) where
  pub commit_objects-run :
      (snap os : List PageObject) (p : Page)
      → IsPage n p os
      → All HasKey snap
      → (q : Page) × (commit_objects tid snap p ≡ ok q) × IsPage n q (run (commit_act tid) snap os)
  unfolding commit_objects
  commit_objects-run [] os p h w = (p, refl, h)
  commit_objects-run (s ∷ snap) os p h w = elim (Bool-cases (s.xid == tid)) [
    | inl e ↦
        let (q, d, k) = delete_lem n p os h s.key s.tid in
        let (r, f, l) =
          commit_objects-run snap (amend (commit_act tid s) os) q
            (rw (← without-amend tid s os e) k) w.1 in
        (r, rw (w.0, e, d) f, l)
    | inr e ↦
        let same = amend_same (commit_act tid s) os (λ o. rw e refl) in
        let (r, f, l) =
          commit_objects-run snap (amend (commit_act tid s) os) p (rw (← same) h) w.1 in
        (r, rw (w.0, e) f, l)
  ]

  rollback_skip :
      (s : PageObject) (snap : List PageObject) (p : Page)
      → HasKey s
      → s.tid == tid ≡ false
      → s.xid == tid ≡ false
      → rollback_objects tid (s ∷ snap) p ≡ rollback_objects tid snap p
  unfolding rollback_objects
  rollback_skip s snap p w e x = rw (w, e, x) refl

  pub rollback_objects-run :
      (snap os : List PageObject) (p : Page)
      → IsPage n p os
      → All HasKey snap
      → (q : Page) × (rollback_objects tid snap p ≡ ok q)
        × IsPage n q (run (rollback_act tid) snap os)
  unfolding rollback_objects
  rollback_objects-run [] os p h w = (p, refl, h)
  rollback_objects-run (s ∷ snap) os p h w = elim (Bool-cases (s.tid == tid)) [
    | inl e ↦
        let (q, d, k) = delete_lem n p os h s.key s.tid in
        let same : s.tid ≡ tid = ground arith in
        let (r, f, l) =
          rollback_objects-run snap (amend (rollback_act tid s) os) q
            (rw (← without-rollback tid s os e) k) w.1 in
        let step = ap (λ (t : ℕ). page_of (delete s.key t p)) (sym same) ∙ ap page_of d in
        (r, rw (w.0, e, step) f, l)
    | inr e ↦ elim (Bool-cases (s.xid == tid)) [
      | inl x ↦
          let (m, y) = expired-rollback tid s os e x in
          let (q, d, k) = expire_lem n p os h s.key s.tid 0 m _ (omega arith) y in
          let (r, f, l) = rollback_objects-run snap (amend (rollback_act tid s) os) q k w.1 in
          (r, rw (w.0, e, x, d) f, l)
      | inr x ↦
          let same =
            amend_same (rollback_act tid s) os
              (λ o. rw (e, x) (if_either (is_object s.key s.tid o) o)) in
          let (r, f, l) =
            rollback_objects-run snap (amend (rollback_act tid s) os) p (rw (← same) h) w.1 in
          (r, rollback_skip s snap p w.0 e x ∙ f, l)
    ]
  ]
    where
      if_either : (b : Bool) (o : PageObject) → (if b then some o else some o) ≡ some o
      if_either true o = refl
      if_either false o = refl

  -- COMMIT removes the objects that the transaction has expired.
  pub commit_page_lem :
      (p : Page) (os : List PageObject)
      → IsPage n p os
      → All HasKey os
      → IsUnique os
      → (q : Page) × (commit_page tid p ≡ ok q) × IsPage n q (amend (λ o. commit_act tid o o) os)
  unfolding commit_page
  commit_page_lem p os h w u =
      let (q, e, k) = commit_objects-run os os p h w in
      (
        q,
        rw (objects_lem n p os h) e,
        rw (← run_unique (commit_act tid) (commit-IsLocal tid) os u) k,
      )

  -- ROLLBACK removes the objects that the transaction has created, and resets the others.
  pub rollback_page_lem :
      (p : Page) (os : List PageObject)
      → IsPage n p os
      → All HasKey os
      → IsUnique os
      → (q : Page) × (rollback_page tid p ≡ ok q)
        × IsPage n q (amend (λ o. rollback_act tid o o) os)
  unfolding rollback_page
  rollback_page_lem p os h w u =
      let (q, e, k) = rollback_objects-run os os p h w in
      (
        q,
        rw (objects_lem n p os h) e,
        rw (← run_unique (rollback_act tid) (rollback-IsLocal tid) os u) k,
      )
