-- ===== src/Storage/Mvcc.antt =====
-- The transactions that are active, and what a transaction sees (vsql/mvcc.v).
pub mod Slots
pub mod Active
pub mod Versions
use vsql.Base.{
  ℕ, zero, suc, ◌+◌, Bool, true, false, not, ◌&&◌, ◌||◌, Option, none, some, List, [], ◌∷◌, leb,
  ◌==◌, if◌then◌else◌, set, replicate,
}

-- struct TransactionIDs. `tids` has 256 slots, and 0 is a free one.
pub record TransactionIds : Type 0 where
  pub tids : List ℕ
  pub end : ℕ

abbrev pub slots : ℕ
slots = 256

abbrev pub no_transactions : TransactionIds
no_transactions = record { tids = replicate slots 0; end = 0 }

-- t.tids[i]
abbrev pub slot : List ℕ → ℕ → ℕ
slot [] i = 0
slot (t ∷ ts) zero = t
slot (t ∷ ts) (suc i) = slot ts i

-- The loop of update_end, down from `n`.
unfoldable pub last_used : List ℕ → ℕ → ℕ
last_used tids zero = 0
last_used tids (suc n) = let rest = last_used tids n in if slot tids n == 0 then rest else suc n

unfoldable pub update_end : List ℕ → TransactionIds
unfolding last_used
update_end tids = record { tids = tids; end = last_used tids slots }

-- The first slot that holds `t`.
unfoldable pub index_of : ℕ → List ℕ → Option ℕ
index_of t [] = none
index_of t (s ∷ ss) =
    if s == t then some 0 else elim (index_of t ss) [ none ↦ none | some i ↦ some (suc i) ]

-- `none` is SQLSTATE 0B000.
unfoldable pub add : ℕ → TransactionIds → Option TransactionIds
unfolding index_of
add tid t = elim (index_of 0 t.tids) [
  | none ↦ none
  | some i ↦ some record { tids = set t.tids i tid; end = if leb t.end i then suc i else t.end }
]

unfoldable pub remove : ℕ → TransactionIds → TransactionIds
unfolding index_of
remove tid t = elim (index_of tid t.tids) [ none ↦ t | some i ↦ update_end (set t.tids i 0) ]

-- Is the transaction in the first `n` slots?
unfoldable pub is_in : ℕ → ℕ → List ℕ → Bool
is_in zero tid ts = false
is_in (suc n) tid [] = false
is_in (suc n) tid (t ∷ ts) = t == tid || is_in n tid ts

unfoldable pub exists : ℕ → TransactionIds → Bool
unfolding is_in
exists tid t = is_in t.end tid t.tids

unfoldable pub object_is_visible : ℕ → ℕ → ℕ → TransactionIds → Bool
object_is_visible object_tid object_xid current_tid active =
    if exists object_tid active && not (object_tid == current_tid)
    then false
    else if not (object_xid == 0) && (not (exists object_xid active) || object_xid == current_tid)
    then false
    else true
