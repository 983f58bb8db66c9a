-- ===== src/Text/Put/Padding.antt =====
-- What vsql_m_put leaves in the target.
use mathlib.Core.List.{append-nil}
use vsql.Base.{
  ℕ, zero, suc, ◌+◌, ◌-◌, ◌*◌, ◌≤◌, ◌<◌, ◌≡◌, refl, ap, ◌∙◌, false, [], ◌∷◌, ◌++◌, arith, ltb,
  if◌then◌else◌, length, length-append, length-replicate, replicate,
}
use vsql.Base.Bytes.{Bytes}
use vsql.Text.Put.{is_start, characters, cut, Assigned, put, is_more}

characters-append : (s t : Bytes) → characters (s ++ t) ≡ characters s + characters t
unfolding characters
characters-append [] t = omega arith
characters-append (b ∷ s) t = ground (arith, characters-append s t)

characters-spaces : (n : ℕ) → characters (replicate n b' ') ≡ n
unfolding characters is_start
characters-spaces zero = refl
characters-spaces (suc n) = omega (arith, characters-spaces n)

cut-kept : (limit n : ℕ) (s : Bytes) → (cut limit n s).kept ++ (cut limit n s).rest ≡ s
unfolding cut
cut-kept limit n [] = refl
cut-kept limit n (b ∷ s) = ground (arith, cut-kept limit (if is_start b then n + 1 else n) s)

cut-count :
    (limit n : ℕ) (s : Bytes)
    → n ≤ limit
    → ((cut limit n s).count ≡ n + characters (cut limit n s).kept)
      × ((cut limit n s).count ≤ limit)
unfolding cut characters
cut-count limit n [] h = ground arith
cut-count limit n (b ∷ s) h = ground (arith, cut-count limit (n + 1) s, cut-count limit n s)

cut-more :
    (limit n : ℕ) (s : Bytes)
    → n ≤ limit
    → is_more (cut limit n s).rest ≡ ltb limit (n + characters s)
unfolding cut characters
cut-more limit n [] h = ground arith
cut-more limit n (b ∷ s) h = ground (arith, cut-more limit (n + 1) s, cut-more limit n s)

cut-full :
    (limit n : ℕ) (s : Bytes) → n ≤ limit → limit < n + characters s → (cut limit n s).count ≡ limit
unfolding cut characters
cut-full limit n [] h k = ground arith
cut-full limit n (b ∷ s) h k = ground (arith, cut-full limit (n + 1) s, cut-full limit n s)

sub_self : (n : ℕ) → n - n ≡ 0
sub_self n = omega arith

cut-fits :
    (limit n : ℕ) (s : Bytes)
    → n + characters s ≤ limit
    → cut limit n s ≡ record { kept = s; count = n + characters s; rest = [] }
unfolding cut characters
cut-fits limit n [] h = ground arith
cut-fits limit n (b ∷ s) h = ground (arith, cut-fits limit (n + 1) s, cut-fits limit n s)

-- The target of a CHARACTER(limit) has exactly `limit` characters, whatever the value.
pub characters-put : (limit : ℕ) (value : Bytes) → characters (put limit value).target ≡ limit
unfolding put
characters-put limit value = omega (
  arith,
  characters-append (cut limit 0 value).kept (replicate (limit - (cut limit 0 value).count) b' '),
  characters-spaces (limit - (cut limit 0 value).count),
  cut-count limit 0 value (omega arith),
)

put-truncated :
    (limit : ℕ) (value : Bytes) → (put limit value).truncated ≡ ltb limit (characters value)
unfolding put
put-truncated limit value = ground (arith, cut-more limit 0 value)

put-padded :
    (limit : ℕ) (value : Bytes)
    → characters value ≤ limit
    → put limit value
      ≡ record { target = value ++ replicate (limit - characters value) b' '; truncated = false }
unfolding put
put-padded limit value h = ground (arith, cut-fits limit 0 value)

put-cut :
    (limit : ℕ) (value : Bytes)
    → limit < characters value
    → (put limit value).target ++ (cut limit 0 value).rest ≡ value
unfolding put
put-cut limit value h =
    let full : limit - (cut limit 0 value).count ≡ 0 = omega (arith, cut-full limit 0 value) in
    rw (full, append-nil) (cut-kept limit 0 value)

-- The value is cut when it has more than `limit` characters, and only then. A value that is not cut
-- is padded with spaces, and one that is cut starts with the target.
pub put_lem :
    (limit : ℕ) (value : Bytes)
    → ((put limit value).truncated ≡ ltb limit (characters value))
      × (characters value ≤ limit
          → (put limit value).target ≡ value ++ replicate (limit - characters value) b' ')
      × (limit < characters value → (rest : Bytes) × ((put limit value).target ++ rest ≡ value))
put_lem limit value = (
  put-truncated limit value,
  λ h. ap (λ (a : Assigned). a.target) (put-padded limit value h),
  λ h. ((cut limit 0 value).rest, put-cut limit value h),
)

-- Assigning a target to itself leaves it as it is, and truncates nothing.
pub put-put :
    (limit : ℕ) (value : Bytes)
    → put limit (put limit value).target
      ≡ record { target = (put limit value).target; truncated = false }
put-put limit value =
    put-padded limit (put limit value).target (omega (arith, characters-put limit value))
    ∙ rw (characters-put, sub_self limit, append-nil) refl

-- No more than `k` continuation bytes come next, and at most three behind each character.
abbrev pub IsSized : ℕ → Bytes → Type 0
IsSized k [] = Unit
IsSized k (b ∷ s) = if is_start b then IsSized 3 s else (0 < k) × IsSized (k - 1) s

cut-IsSized :
    (limit n k : ℕ) (s : Bytes)
    → n ≤ limit
    → IsSized k s
    → length (cut limit n s).kept + 4 * n ≤ k + 4 * (cut limit n s).count
unfolding cut
cut-IsSized limit n k [] h z = ground arith
cut-IsSized limit n k (b ∷ s) h z =
    ground
      (arith, cut-IsSized limit (n + 1) 3 s, cut-IsSized limit n (k - 1) s, cut-count limit n s)

-- If each character of the value has at most four bytes (at most three continuation bytes come
-- behind each byte that starts a character, and the value starts with one that does), the target
-- has less than (limit + 1) * 4 bytes, so that its null character fits too.
pub put_fits :
    (limit : ℕ) (value : Bytes)
    → IsSized 0 value
    → length (put limit value).target < (limit + 1) * 4
unfolding put
put_fits limit value h = omega (
  arith,
  length-append (cut limit 0 value).kept (replicate (limit - (cut limit 0 value).count) b' '),
  length-replicate {A = ℕ} (limit - (cut limit 0 value).count) b' ',
  cut-IsSized limit 0 0 value (omega arith) h,
  cut-count limit 0 value (omega arith),
)
