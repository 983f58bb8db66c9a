-- ===== src/Base/Ints.antt =====
-- Signed numbers, and the conversion to an SQLINTEGER (int32_t), which wraps around.
use Prim.Native.Nat.{ℕ, zero, suc, ◌+◌, ◌-◌, ◌%◌, ◌^◌, ◌<◌}
use mathlib.Core.Path.{◌≡◌}
use mathlib.Core.Logic.{◌↔◌}
use mathlib.Core.Bool.{Bool, true, false}
use native.Mathlib.Omega.{arith}
use vsql.Base.Tests.{ltb, leb, ◌==◌, if◌then◌else◌}

-- `negsuc n` is -(n + 1).
pub data ℤ : Type 0 where
  pos : ℕ → ℤ
  negsuc : ℕ → ℤ

abbrev pub is_negative : ℤ → Bool
is_negative (pos n) = false
is_negative (negsuc n) = true

abbrev pub eqz : ℤ → ℤ → Bool
eqz (pos a) (pos b) = a == b
eqz (negsuc a) (negsuc b) = a == b
eqz (pos a) (negsuc b) = false
eqz (negsuc a) (pos b) = false

abbrev pub lez : ℤ → ℤ → Bool
lez (pos a) (pos b) = leb a b
lez (negsuc a) (negsuc b) = leb b a
lez (pos a) (negsuc b) = false
lez (negsuc a) (pos b) = true

abbrev pub between : ℤ → ℤ → ℤ → Bool
between lo hi v = if lez lo v then lez v hi else false

-- The part of a number that an array index or a size is made of.
abbrev pub to_ℕ : ℤ → ℕ
to_ℕ (pos n) = n
to_ℕ (negsuc n) = 0

abbrev pub succz : ℤ → ℤ
succz (pos n) = pos (n + 1)
succz (negsuc zero) = pos 0
succz (negsuc (suc n)) = negsuc n

abbrev pub predz : ℤ → ℤ
predz (pos zero) = negsuc 0
predz (pos (suc n)) = pos n
predz (negsuc n) = negsuc (n + 1)

-- (SQLINTEGER)value, for a value of any width.
unfoldable pub narrow : ℤ → ℤ
narrow (pos n) =
    if ltb (n % 2 ^ 32) (2 ^ 31) then pos (n % 2 ^ 32) else negsuc (2 ^ 32 - 1 - n % 2 ^ 32)
narrow (negsuc n) =
    if ltb (n % 2 ^ 32) (2 ^ 31) then negsuc (n % 2 ^ 32) else pos (2 ^ 32 - 1 - n % 2 ^ 32)

-- (SQLSMALLINT)value
unfoldable pub narrow_16 : ℤ → ℤ
narrow_16 (pos n) =
    if ltb (n % 2 ^ 16) (2 ^ 15) then pos (n % 2 ^ 16) else negsuc (2 ^ 16 - 1 - n % 2 ^ 16)
narrow_16 (negsuc n) =
    if ltb (n % 2 ^ 16) (2 ^ 15) then negsuc (n % 2 ^ 16) else pos (2 ^ 16 - 1 - n % 2 ^ 16)

abbrev pub IsInt32 : ℤ → Type 0
IsInt32 (pos n) = n < 2 ^ 31
IsInt32 (negsuc n) = n < 2 ^ 31

pub eqz_iff : (a b : ℤ) → (eqz a b ≡ true) ↔ (a ≡ b)
eqz_iff (pos a) (pos b) = ground arith
eqz_iff (negsuc a) (negsuc b) = ground arith
eqz_iff (pos a) (negsuc b) = ground arith
eqz_iff (negsuc a) (pos b) = ground arith

pub narrow-IsInt32 : (v : ℤ) → IsInt32 (narrow v)
unfolding narrow
narrow-IsInt32 (pos n) = ground arith
narrow-IsInt32 (negsuc n) = ground arith

-- The test `value != (SQLINTEGER)value` finds exactly the values that do not fit.
pub narrow_eq_iff : (v : ℤ) → (narrow v ≡ v) ↔ IsInt32 v
unfolding narrow
narrow_eq_iff (pos n) = ground arith
narrow_eq_iff (negsuc n) = ground arith
