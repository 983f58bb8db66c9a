-- ===== src/Storage/Mvcc/Slots.antt =====
-- The slots of the active transactions, and what a search of them finds (vsql/mvcc.v).
use vsql.Base.{
  ℕ, zero, suc, ◌<◌, ◌≤◌, ◌≡◌, refl, sym, ap, ◌∙◌, ◌≢◌, inl, inr, Bool, true, false, not, ◌&&◌,
  ◌||◌, none, some, List, [], ◌∷◌, arith, ltb, ◌==◌, length, set, Bool-cases, ltb→lt,
}
use vsql.Storage.Mvcc.{TransactionIds, slots, slot, last_used, update_end, index_of, is_in, exists}

-- The slots from `end` on are free, and there are 256.
pub record IsValid (t : TransactionIds) : Type 0 where
  pub full : length t.tids ≡ slots
  pub free : (i : ℕ) → t.end ≤ i → slot t.tids i ≡ 0

-- Does any slot hold it?
abbrev pub holds : ℕ → List ℕ → Bool
holds tid [] = false
holds tid (t ∷ ts) = t == tid || holds tid ts

-- Each transaction has one slot.
abbrev pub IsDistinct : List ℕ → Type 0
IsDistinct [] = Unit
IsDistinct (t ∷ ts) = (t ≢ 0 → holds t ts ≡ false) × IsDistinct ts

-- Only the slots before `end` have to be searched.
pub is_in-holds :
    (n tid : ℕ) (ts : List ℕ)
    → ((i : ℕ) → n ≤ i → slot ts i ≡ 0)
    → tid ≢ 0
    → is_in n tid ts ≡ holds tid ts
unfolding is_in
is_in-holds zero tid [] f h = refl
is_in-holds zero tid (t ∷ ts) f h =
    let z = f 0 (omega arith) in
    let r = is_in-holds zero tid ts (λ i _. f (suc i) (omega arith)) h in ground (arith, z, r)
is_in-holds (suc n) tid [] f h = refl
is_in-holds (suc n) tid (t ∷ ts) f h =
    ap (λ (b : Bool). t == tid || b) (is_in-holds n tid ts (λ i k. f (suc i) (omega arith)) h)

pub exists-holds :
    (tid : ℕ) (t : TransactionIds) → IsValid t → tid ≢ 0 → exists tid t ≡ holds tid t.tids
unfolding exists
exists-holds tid t v h = is_in-holds t.end tid t.tids v.free h

pub index_of-some :
    (t : ℕ) (ss : List ℕ) (i : ℕ) → index_of t ss ≡ some i → (i < length ss) × (slot ss i ≡ t)
unfolding index_of
index_of-some t [] i h = absurd (cc)
index_of-some t (s ∷ ss) zero h = elim (Bool-cases (s == t)) [
  | inl e ↦ (omega arith, ground arith)
  | inr e ↦ ground arith
]
index_of-some t (s ∷ ss) (suc i) h = elim (Bool-cases (s == t)) [
  | inl e ↦ absurd (ground arith)
  | inr e ↦ let (l, k) = index_of-some t ss i (ground arith) in (omega arith, k)
]

pub index_of-none : (t : ℕ) (ss : List ℕ) → index_of t ss ≡ none → holds t ss ≡ false
unfolding index_of
index_of-none t [] h = refl
index_of-none t (s ∷ ss) h = ground (arith, index_of-none t ss)

-- A transaction in a free slot.
pub holds-set :
    (tid j i : ℕ) (ts : List ℕ)
    → i < length ts
    → slot ts i ≡ 0
    → j ≢ 0
    → holds j (set ts i tid) ≡ (tid == j || holds j ts)
holds-set tid j i [] l f h = absurd (omega arith)
holds-set tid j zero (t ∷ ts) l f h = ground arith
holds-set tid j (suc i) (t ∷ ts) l f h = ground (arith, holds-set tid j i ts (omega arith) f h)

-- The slot of a transaction is freed.
pub holds-slot : (tid i : ℕ) (ts : List ℕ) → i < length ts → slot ts i ≡ tid → holds tid ts ≡ true
holds-slot tid i [] l f = absurd (omega arith)
holds-slot tid zero (t ∷ ts) l f = ground arith
holds-slot tid (suc i) (t ∷ ts) l f = ground (arith, holds-slot tid i ts (omega arith) f)

pub holds-clear :
    (tid j i : ℕ) (ts : List ℕ)
    → tid ≢ 0
    → i < length ts
    → slot ts i ≡ tid
    → IsDistinct ts
    → j ≢ 0
    → holds j (set ts i 0) ≡ (not (tid == j) && holds j ts)
holds-clear tid j i [] z l f d h = absurd (omega arith)
holds-clear tid j zero (t ∷ ts) z l f d h = elim (Bool-cases (tid == j)) [
  | inl e ↦
      let k : t ≡ j = ground arith in
      let u : holds t ts ≡ false = d.0 (λ y. z (sym f ∙ y)) in
      rw e (ground (arith, ap (λ (x : ℕ). holds x ts) k, u))
  | inr e ↦ rw e (ground arith)
]
holds-clear tid j (suc i) (t ∷ ts) z l f d h = elim (Bool-cases (t == j)) [
  | inl e ↦ elim (Bool-cases (tid == j)) [
    | inl k ↦
        let same : tid ≡ t = ground arith in
        let u : holds t ts ≡ false = d.0 (λ y. z (same ∙ y)) in
        absurd
          (ground (arith, ap (λ (x : ℕ). holds x ts) same, holds-slot tid i ts (omega arith) f, u))
    | inr k ↦ rw (e, k) refl
  ]
  | inr e ↦ rw e (holds-clear tid j i ts z (omega arith) f d.1 h)
]

pub slot-set : (ts : List ℕ) (i v j : ℕ) → i ≢ j → slot (set ts i v) j ≡ slot ts j
slot-set [] i v j h = refl
slot-set (t ∷ ts) zero v zero h = absurd (h refl)
slot-set (t ∷ ts) zero v (suc j) h = refl
slot-set (t ∷ ts) (suc i) v zero h = refl
slot-set (t ∷ ts) (suc i) v (suc j) h = slot-set ts i v j (λ e. h (ap suc e))

pub length-set : (ts : List ℕ) (i v : ℕ) → length (set ts i v) ≡ length ts
length-set [] i v = refl
length-set (t ∷ ts) zero v = refl
length-set (t ∷ ts) (suc i) v = ap suc (length-set ts i v)

pub slot-length : (ts : List ℕ) (i : ℕ) → length ts ≤ i → slot ts i ≡ 0
slot-length [] i h = refl
slot-length (t ∷ ts) zero h = absurd (omega arith)
slot-length (t ∷ ts) (suc i) h = slot-length ts i (omega arith)

pub last_used-free : (ts : List ℕ) (n i : ℕ) → last_used ts n ≤ i → i < n → slot ts i ≡ 0
unfolding last_used
last_used-free ts zero i h l = absurd (omega arith)
last_used-free ts (suc n) i h l = elim (Bool-cases (slot ts n == 0)) [
  | inl e ↦ elim (Bool-cases (i == n)) [
    | inl k ↦ let same : i ≡ n = ground arith in ap (slot ts) same ∙ ground arith
    | inr k ↦ last_used-free ts n i (rw e at h) (ground arith)
  ]
  | inr e ↦ absurd (let k : suc n ≤ i = rw e at h in omega arith)
]

pub update_end-IsValid : (ts : List ℕ) → length ts ≡ slots → IsValid (update_end ts)
unfolding update_end
update_end-IsValid ts h = record {
  full = h;
  free = λ i k. elim (Bool-cases (ltb i slots)) [
    | inl l ↦ last_used-free ts slots i k (ltb→lt i slots l)
    | inr l ↦ slot-length ts i (ground arith)
  ];
}

pub add-IsDistinct :
    (tid i : ℕ) (ts : List ℕ)
    → i < length ts
    → slot ts i ≡ 0
    → holds tid ts ≡ false
    → IsDistinct ts
    → IsDistinct (set ts i tid)
add-IsDistinct tid i [] l f k d = tt
add-IsDistinct tid zero (t ∷ ts) l f k d = (λ z. ground arith, d.1)
add-IsDistinct tid (suc i) (t ∷ ts) l f k d = (
  λ z. let u = d.0 z in ground (arith, holds-set tid t i ts (omega arith) f z, u),
  add-IsDistinct tid i ts (omega arith) f (ground arith) d.1,
)

pub clear-IsDistinct :
    (tid i : ℕ) (ts : List ℕ)
    → tid ≢ 0
    → i < length ts
    → slot ts i ≡ tid
    → IsDistinct ts
    → IsDistinct (set ts i 0)
clear-IsDistinct tid i [] z l f d = tt
clear-IsDistinct tid zero (t ∷ ts) z l f d = (λ y. absurd (y refl), d.1)
clear-IsDistinct tid (suc i) (t ∷ ts) z l f d = (
  λ y. let u = d.0 y in ground (arith, holds-clear tid t i ts z (omega arith) f d.1 y, u),
  clear-IsDistinct tid i ts z (omega arith) f d.1,
)
