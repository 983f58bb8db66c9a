-- ===== src/Storage/Mvcc/Versions.antt =====
-- Which version of a record a transaction sees (vsql/mvcc.v).
use vsql.Base.{
  ℕ, ◌≡◌, refl, ap, ◌∙◌, ◌≢◌, inl, inr, Bool, true, false, not, ◌&&◌, ◌||◌, arith, ◌==◌,
  if◌then◌else◌, Bool-cases,
}
use vsql.Storage.Mvcc.{TransactionIds, remove, exists, object_is_visible}
use vsql.Storage.Mvcc.Active.{IsSound, remove-Removes}

-- A record that was created by `old`, which has ended, was updated by `tid`: the version of `old`
-- expires in `tid`, and there is a version of `tid`.
module _ (tid old : ℕ) (t : TransactionIds) (z : tid ≢ 0) where
  updated-active :
      exists tid t ≡ true
      → exists old t ≡ false
      → (current : ℕ)
      → (object_is_visible old tid current t ≡ not (tid == current))
        × (object_is_visible tid 0 current t ≡ (tid == current))
  unfolding object_is_visible
  updated-active a o current = ground arith

  updated-ended :
      exists tid t ≡ false
      → exists old t ≡ false
      → (current : ℕ)
      → (object_is_visible old tid current t ≡ false) × (object_is_visible tid 0 current t ≡ true)
  unfolding object_is_visible
  updated-ended a o current = ground arith

-- The two tests of object_is_visible.
pub visible_ext :
    {b c b' c' : Bool}
    → b ≡ b'
    → c ≡ c'
    → (if b then false else if c then false else true)
      ≡ (if b' then false else if c' then false else true)
visible_ext p q = λ i. if p i then false else if q i then false else true

-- What the others see of a version, when the transaction `tid` is removed.
module _ (tid : ℕ) (a : TransactionIds) (s : IsSound a) (z : tid ≢ 0) (old xid : ℕ)
    (y : old ≢ 0) where
  removed : (j : ℕ) → j ≢ 0 → exists j (remove tid a) ≡ (not (tid == j) && exists j a)
  removed j k = (remove-Removes tid a s z).active j k

  -- Versions that it has not expired are seen by a reader that is not active as it sees them.
  pub visible-commit :
      (c : ℕ)
      → (c ≢ 0 → exists c a ≡ false)
      → xid == tid ≡ false
      → object_is_visible old xid c (remove tid a) ≡ object_is_visible old xid tid a
  unfolding object_is_visible
  visible-commit c r x =
      let e = removed old y in
      let active : (j : ℕ) → j ≢ 0 → exists j a ≡ true → j == c ≡ false = λ j k h.
        elim (Bool-cases (j == c)) [
          | inl same ↦
              let t : j ≡ c = ground arith in
              absurd (let f = r (λ w. k (t ∙ w)) in let g = ap (λ (i : ℕ). exists i a) t in cc)
          | inr other ↦ other
        ] in
      let created : (exists old (remove tid a) && not (old == c))
          ≡ (exists old a && not (old == tid)) =
        ground (arith, e, active old y) in
      visible_ext created (elim (Bool-cases (xid == 0)) [
        | inl none ↦ rw none refl
        | inr some ↦
            let k : xid ≢ 0 = λ w. ground arith in ground (arith, removed xid k, active xid k)
      ])

  pub visible-expired : xid == tid ≡ true → object_is_visible old xid tid a ≡ false
  unfolding object_is_visible
  visible-expired x = ground arith

  -- Another transaction sees of its versions, and of those it has expired, what it sees without it.
  pub visible-created :
      (c : ℕ)
      → c ≢ tid
      → exists tid a ≡ true
      → old == tid ≡ true
      → object_is_visible old xid c a ≡ false
  unfolding object_is_visible
  visible-created c r t x =
      let k : old ≡ tid = ground arith in ground (arith, ap (λ (i : ℕ). exists i a) k)

  pub visible-reset :
      (c : ℕ)
      → c ≢ tid
      → exists tid a ≡ true
      → old == tid ≡ false
      → xid == tid ≡ true
      → object_is_visible old 0 c (remove tid a) ≡ object_is_visible old xid c a
  unfolding object_is_visible
  visible-reset c r t x w =
      let k : xid ≡ tid = ground arith in
      let created : (exists old (remove tid a) && not (old == c))
          ≡ (exists old a && not (old == c)) =
        ground (arith, removed old y) in
      let kept : false ≡ (not (xid == 0) && (not (exists xid a) || xid == c)) =
        ground (arith, ap (λ (i : ℕ). exists i a) k) in
      visible_ext created kept

  pub visible-other :
      (c : ℕ)
      → c ≢ tid
      → old == tid ≡ false
      → xid == tid ≡ false
      → object_is_visible old xid c (remove tid a) ≡ object_is_visible old xid c a
  unfolding object_is_visible
  visible-other c r x w =
      let created : (exists old (remove tid a) && not (old == c))
          ≡ (exists old a && not (old == c)) =
        ground (arith, removed old y) in
      visible_ext created (elim (Bool-cases (xid == 0)) [
        | inl none ↦ rw none refl
        | inr some ↦ let k : xid ≢ 0 = λ e. ground arith in ground (arith, removed xid k)
      ])

-- While the transaction `tid` is active, it sees its own version of a record that it has updated, and
-- all others see the version of `old`, a transaction that has ended. Once `tid` has been removed, all
-- see its version. So each sees exactly one.
pub visible-update :
    (tid old : ℕ) (t : TransactionIds)
    → IsSound t
    → tid ≢ 0
    → old ≢ 0
    → exists tid t ≡ true
    → exists old t ≡ false
    → (current : ℕ)
    → (object_is_visible old tid current t ≡ not (tid == current))
      × (object_is_visible tid 0 current t ≡ (tid == current))
      × (object_is_visible old tid current (remove tid t) ≡ false)
      × (object_is_visible tid 0 current (remove tid t) ≡ true)
visible-update tid old t s z y a o current =
    let r = remove-Removes tid t s z in
    let (p, q) = updated-active tid old t z a o current in
    let (p', q') =
      updated-ended tid old (remove tid t) z (r.active tid z ∙ ground arith)
        (r.active old y ∙ ground arith) current in
    (p, q, p', q')
