-- ===== src/Storage/Numbers.antt =====
-- Big-endian numbers in a byte stream (vsql/bytes.v), and slices of it.
use vsql.Base.{
  ℕ, zero, suc, ◌+◌, ◌-◌, ◌*◌, ◌/◌, ◌%◌, ◌^◌, ◌<◌, ◌≤◌, ◌≡◌, refl, ap, List, [], ◌∷◌, ◌++◌, arith,
  length, take,
}
use vsql.Base.Ints.{ℤ, pos, negsuc, narrow}
use vsql.Base.Bytes.{Bytes}

-- data[n..]
abbrev pub drop {ℓ} : {A : Type ℓ} → ℕ → List A → List A
drop zero xs = xs
drop (suc n) [] = []
drop (suc n) (x ∷ xs) = drop n xs

-- data[0], which is only read where it is there
abbrev pub byte_at : Bytes → ℕ
byte_at [] = 0
byte_at (b ∷ bs) = b

-- binary.big_endian_put_u16, binary.big_endian_u16
abbrev pub put_u16 : ℕ → Bytes
put_u16 n = (n / 2 ^ 8 % 256) ∷ (n % 256) ∷ []

abbrev pub get_u16 : Bytes → ℕ
get_u16 (a ∷ b ∷ rest) = a * 2 ^ 8 + b
get_u16 rest = 0

-- binary.big_endian_put_u32, binary.big_endian_u32
abbrev pub put_u32 : ℕ → Bytes
put_u32 n = (n / 2 ^ 24 % 256) ∷ (n / 2 ^ 16 % 256) ∷ (n / 2 ^ 8 % 256) ∷ (n % 256) ∷ []

abbrev pub get_u32 : Bytes → ℕ
get_u32 (a ∷ b ∷ c ∷ d ∷ rest) = a * 2 ^ 24 + b * 2 ^ 16 + c * 2 ^ 8 + d
get_u32 rest = 0

-- binary.big_endian_put_u64, binary.big_endian_u64
abbrev pub put_u64 : ℕ → Bytes
put_u64 n =
    (n / 2 ^ 56 % 256) ∷ (n / 2 ^ 48 % 256) ∷ (n / 2 ^ 40 % 256) ∷ (n / 2 ^ 32 % 256) ∷ put_u32 n

abbrev pub get_u64 : Bytes → ℕ
get_u64 (a ∷ b ∷ c ∷ d ∷ rest) = (a * 2 ^ 24 + b * 2 ^ 16 + c * 2 ^ 8 + d) * 2 ^ 32 + get_u32 rest
get_u64 rest = 0

-- int(number), for a u32
unfoldable pub to_int : ℕ → ℤ
unfolding narrow
to_int n = narrow (pos n)

-- u64(number), for an int
abbrev pub to_u64 : ℤ → ℕ
to_u64 (pos n) = n % 2 ^ 64
to_u64 (negsuc n) = 2 ^ 64 - 1 - n % 2 ^ 64

pub get_u32-put : (n : ℕ) → n < 2 ^ 32 → get_u32 (put_u32 n) ≡ n
get_u32-put n h = omega arith

pub get_u16-put : (n : ℕ) → n < 2 ^ 16 → get_u16 (put_u16 n) ≡ n
get_u16-put n h = omega arith

pub get_u64-put : (n : ℕ) → n < 2 ^ 64 → get_u64 (put_u64 n) ≡ n
get_u64-put n h = omega arith

pub to_int_lem : (n : ℕ) → n < 2 ^ 31 → to_int n ≡ pos n
unfolding to_int
to_int_lem n h = ground arith

module _ {ℓ} {A : Type ℓ} where
  pub take-append : (xs ys : List A) → take (length xs) (xs ++ ys) ≡ xs
  take-append [] ys = refl
  take-append (x ∷ xs) ys = ap (λ (t : List A). x ∷ t) (take-append xs ys)

  pub drop-append : (xs ys : List A) → drop (length xs) (xs ++ ys) ≡ ys
  drop-append [] ys = refl
  drop-append (x ∷ xs) ys = drop-append xs ys

  pub length-take : (n : ℕ) (xs : List A) → n ≤ length xs → length (take n xs) ≡ n
  length-take zero xs h = refl
  length-take (suc n) [] h = omega arith
  length-take (suc n) (x ∷ xs) h = ap suc (length-take n xs (omega arith))
