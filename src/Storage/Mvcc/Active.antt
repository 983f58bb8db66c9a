-- ===== src/Storage/Mvcc/Active.antt =====
-- The slots hold the transactions that have been added and not removed (vsql/mvcc.v).
use vsql.Base.{
  length-replicate, replicate, ℕ, zero, suc, ◌<◌, ◌≡◌, refl, sym, ap, ◌∙◌, ◌≢◌, inl, inr, Bool,
  false, not, ◌&&◌, ◌||◌, some, arith, leb, ◌==◌, if◌then◌else◌, length, set, Bool-cases,
  Option-cases,
}
use vsql.Storage.Mvcc.{
  TransactionIds, no_transactions, slots, slot, update_end, index_of, add, remove, exists,
}
use vsql.Storage.Mvcc.Slots.{
  IsValid, holds, IsDistinct, exists-holds, index_of-some, index_of-none, holds-set, holds-clear,
  slot-set, length-set, update_end-IsValid, add-IsDistinct, clear-IsDistinct,
}

-- The slots are used as they should be.
pub record IsSound (t : TransactionIds) : Type 0 where
  pub valid : IsValid t
  pub distinct : IsDistinct t.tids

-- The transactions that are active are those that were, with `tid` added.
pub record Adds (tid : ℕ) (t u : TransactionIds) : Type 0 where
  pub sound : IsSound u
  pub active : (j : ℕ) → j ≢ 0 → exists j u ≡ (tid == j || exists j t)

-- The transactions that are active are those that were, but for `tid`.
pub record Removes (tid : ℕ) (t u : TransactionIds) : Type 0 where
  pub sound : IsSound u
  pub active : (j : ℕ) → j ≢ 0 → exists j u ≡ (not (tid == j) && exists j t)

abbrev put_at : ℕ → ℕ → TransactionIds → TransactionIds
put_at tid i t = record { tids = set t.tids i tid; end = if leb t.end i then suc i else t.end }

put_at-IsValid :
    (tid i : ℕ) (t : TransactionIds) → IsValid t → i < length t.tids → IsValid (put_at tid i t)
put_at-IsValid tid i t v l = record {
  full = length-set t.tids i tid ∙ v.full;
  free = λ j k. slot-set t.tids i tid j (λ e. ground arith) ∙ v.free j (ground arith);
}

put_at-Adds :
    (tid i : ℕ) (t : TransactionIds)
    → IsSound t
    → tid ≢ 0
    → exists tid t ≡ false
    → i < length t.tids
    → slot t.tids i ≡ 0
    → Adds tid t (put_at tid i t)
put_at-Adds tid i t s z n l f =
    let v = put_at-IsValid tid i t s.valid l in
    record {
      sound = record {
        valid = v;
        distinct =
            add-IsDistinct tid i t.tids l f (sym (exists-holds tid t s.valid z) ∙ n) s.distinct;
      };
      active = λ j y.
          exists-holds j (put_at tid i t) v y
          ∙ holds-set tid j i t.tids l f y
          ∙ ap (λ (b : Bool). tid == j || b) (sym (exists-holds j t s.valid y));
    }

clear_at-Removes :
    (tid i : ℕ) (t : TransactionIds)
    → IsSound t
    → tid ≢ 0
    → i < length t.tids
    → slot t.tids i ≡ tid
    → Removes tid t (update_end (set t.tids i 0))
unfolding update_end
clear_at-Removes tid i t s z l f =
    let v = update_end-IsValid (set t.tids i 0) (length-set t.tids i 0 ∙ s.valid.full) in
    record {
      sound = record { valid = v; distinct = clear-IsDistinct tid i t.tids z l f s.distinct };
      active = λ j y.
          exists-holds j (update_end (set t.tids i 0)) v y
          ∙ holds-clear tid j i t.tids z l f s.distinct y
          ∙ ap (λ (b : Bool). not (tid == j) && b) (sym (exists-holds j t s.valid y));
    }

absent-Removes :
    (tid : ℕ) (t : TransactionIds)
    → IsSound t
    → tid ≢ 0
    → holds tid t.tids ≡ false
    → Removes tid t t
absent-Removes tid t s z h = record {
  sound = s;
  active = λ j y. elim (Bool-cases (tid == j)) [
    | inl e ↦
        let k : tid ≡ j = ground arith in
        rw e (ap (λ (x : ℕ). exists x t) (sym k) ∙ exists-holds tid t s.valid z ∙ h)
    | inr e ↦ rw e refl
  ];
}

-- A transaction that is not active and could be added is active afterwards, and the others are as
-- they were. The search of the slots stops early, and finds all that is there.
pub add-Adds :
    (tid : ℕ) (t u : TransactionIds)
    → IsSound t
    → tid ≢ 0
    → exists tid t ≡ false
    → add tid t ≡ some u
    → Adds tid t u
unfolding add
add-Adds tid t u s z n h = elim (Option-cases (index_of 0 t.tids)) [
  | inl e ↦ absurd (let k = rw (e, add) at h in cc)
  | inr (i, e) ↦
      let k : put_at tid i t ≡ u = (let k = rw (e, add) at h in cc) in
      let (l, f) = index_of-some 0 t.tids i e in rw (← k) (put_at-Adds tid i t s z n l f)
]

-- If the slots from `end` on are free and no transaction but 0 has two, this holds after a transaction
-- other than 0 has been removed too, which is then not active, and the others are as they were.
pub remove-Removes :
    (tid : ℕ) (t : TransactionIds) → IsSound t → tid ≢ 0 → Removes tid t (remove tid t)
unfolding remove
remove-Removes tid t s z = elim (Option-cases (index_of tid t.tids)) [
  | inl e ↦ rw (e, remove) (absent-Removes tid t s z (index_of-none tid t.tids e))
  | inr (i, e) ↦
      let (l, f) = index_of-some tid t.tids i e in rw (e, remove) (clear_at-Removes tid i t s z l f)
]

free-slot : (n i : ℕ) → slot (replicate n 0) i ≡ 0
free-slot zero i = refl
free-slot (suc n) zero = refl
free-slot (suc n) (suc i) = free-slot n i

free-IsDistinct : (n : ℕ) → IsDistinct (replicate n 0)
free-IsDistinct zero = tt
free-IsDistinct (suc n) = (λ z. absurd (z refl), free-IsDistinct n)

pub no_transactions-IsSound : IsSound no_transactions
no_transactions-IsSound = record {
  valid = record { full = length-replicate {A = ℕ} slots 0; free = λ i _. free-slot slots i };
  distinct = free-IsDistinct slots;
}
