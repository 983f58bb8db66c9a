-- ===== src/Text/Name/Bounds.antt =====
-- The length of what vsql_m_name writes
-- (vsql/std_2_13_1_sql_client_module_definition.c).
use vsql.Base.{
  ℕ, ◌+◌, ◌≤◌, ◌<◌, ◌≡◌, refl, inl, inr, Bool, true, false, Option, none, some, [], ◌∷◌, arith,
  ◌==◌, length, Bool-cases,
}
use vsql.Base.Bytes.{Bytes, or_empty, to_upper}
use vsql.Text.Name.{trim_start, trim_end, keep, unquote, regular, split_last, identifier, name}

keep-le :
    (n b : ℕ) (o : Option Bytes) (t : Bytes)
    → ((s : Bytes) → o ≡ some s → n + 1 + length s ≤ 128)
    → keep b o ≡ some t
    → n + length t ≤ 128
keep-le n b none t h e = cc
keep-le n b (some s) t h e = ground (arith, h s refl)

below_limit : (n : ℕ) → n ≤ 128 → (n == 128) ≡ false → n + 1 ≤ 128
below_limit n h e = ground arith

unquote-le : (n : ℕ) (s : Bytes) (t : Bytes) → n ≤ 128 → unquote n s ≡ some t → n + length t ≤ 128
unfolding unquote
unquote-le n [] t h e = ground arith
unquote-le n (b ∷ []) t h e = ground arith
unquote-le n (b ∷ c ∷ s) t h e = elim (Bool-cases (n == 128)) [
  | inl full ↦ ground arith
  | inr room ↦
      let ih = λ (u : Bytes). unquote-le (n + 1) s u (below_limit n h room) in
      let ih' = λ (u : Bytes). unquote-le (n + 1) (c ∷ s) u (below_limit n h room) in
      ground
        (arith, keep-le n b (unquote (n + 1) s) t ih, keep-le n b (unquote (n + 1) (c ∷ s)) t ih')
]

regular-le :
    (f : Bool) (n : ℕ) (s : Bytes) (t : Bytes)
    → n ≤ 128
    → regular f n s ≡ some t
    → n + length t ≤ 128
unfolding regular
regular-le f n [] t h e = ground arith
regular-le f n (c ∷ s) t h e = elim (Bool-cases (n == 128)) [
  | inl full ↦ ground arith
  | inr room ↦
      let ih = λ (u : Bytes). regular-le false (n + 1) s u (below_limit n h room) in
      ground (arith, keep-le n (to_upper c) (regular false (n + 1) s) t ih)
]

or_empty-le :
    (o : Option Bytes) → ((t : Bytes) → o ≡ some t → length t ≤ 128) → length (or_empty o) ≤ 128
or_empty-le none h = omega arith
or_empty-le (some t) h = h t refl

identifier-le : (s : Bytes) (t : Bytes) → identifier s ≡ some t → length t ≤ 128
unfolding identifier
identifier-le [] t e = ground arith
identifier-le (b ∷ []) t e = ground (arith, regular-le true 0 (b ∷ []) t)
identifier-le (b ∷ c ∷ []) t e = ground (arith, regular-le true 0 (b ∷ c ∷ []) t)
identifier-le (b ∷ c ∷ d ∷ s) t e =
    ground (arith, unquote-le 0 (c ∷ (split_last d s).0) t, regular-le true 0 (b ∷ c ∷ d ∷ s) t)

-- Whatever the text, the name and its null character fit in the 129 bytes of the buffer.
pub name-le : (s : Bytes) → length (name s) < 129
unfolding name
name-le s = omega (
  arith,
  or_empty-le (identifier (trim_end (trim_start s))) (identifier-le (trim_end (trim_start s))),
)
