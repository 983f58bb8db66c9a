-- ===== src/Text/Name/Delimited.antt =====
-- Delimited identifiers that vsql_m_name reads
-- (vsql/std_2_13_1_sql_client_module_definition.c).
use vsql.Base.{
  ℕ, zero, suc, ◌+◌, ◌≤◌, ◌<◌, ◌≡◌, refl, sym, ap, ◌∙◌, inl, inr, false, some, [], ◌∷◌, ◌++◌, arith,
  ◌==◌, if◌then◌else◌, length, replicate, Bool-cases,
}
use vsql.Base.Bytes.{Bytes, or_empty}
use vsql.Text.Name.{
  trim_start, trim_end, cons_unless_blank, keep, unquote, split_last, identifier, name,
}

abbrev pub blanks : ℕ → Bytes
blanks n = replicate n b' '

trim_start-blanks : (n : ℕ) (s : Bytes) → trim_start (blanks n ++ s) ≡ trim_start s
unfolding trim_start
trim_start-blanks zero s = refl
trim_start-blanks (suc n) s = trim_start-blanks n s

trim_end-only : (n : ℕ) → trim_end (blanks n) ≡ []
unfolding trim_end
trim_end-only zero = refl
trim_end-only (suc n) = ap (cons_unless_blank b' ') (trim_end-only n)

trim_end-blanks : (s : Bytes) (n : ℕ) → trim_end (s ++ blanks n) ≡ trim_end s
unfolding trim_end
trim_end-blanks [] n = trim_end-only n
trim_end-blanks (b ∷ s) n = ap (cons_unless_blank b) (trim_end-blanks s n)

trim_end-quote : (s : Bytes) → trim_end (s ++ b'"' ∷ []) ≡ s ++ b'"' ∷ []
unfolding trim_end
trim_end-quote [] = refl
trim_end-quote (b ∷ []) = refl
trim_end-quote (b ∷ c ∷ s) = ap (cons_unless_blank b) (trim_end-quote (c ∷ s))

split_last-append : (b : ℕ) (s : Bytes) (z : ℕ) → split_last b (s ++ z ∷ []) ≡ (b ∷ s, z)
unfolding split_last
split_last-append b [] z = refl
split_last-append b (c ∷ s) z = rw (split_last-append c s z)

-- The name between quotes, each quote in it doubled.
abbrev pub escape : Bytes → Bytes
escape [] = []
escape (b ∷ s) = if b == b'"' then b'"' ∷ b'"' ∷ escape s else b ∷ escape s

abbrev pub delimited : Bytes → Bytes
delimited x = b'"' ∷ (escape x ++ b'"' ∷ [])

unquote_quote :
    (n : ℕ) (s : Bytes) → n < 128 → unquote n (b'"' ∷ b'"' ∷ s) ≡ keep b'"' (unquote (n + 1) s)
unfolding unquote
unquote_quote n s h = ground arith

unquote_other :
    (n b : ℕ) (s : Bytes)
    → n < 128
    → (b == b'"') ≡ false
    → unquote n (b ∷ s) ≡ keep b (unquote (n + 1) s)
unfolding unquote
unquote_other n b [] h k = ground arith
unquote_other n b (c ∷ s) h k = ground arith

unquote-escape : (n : ℕ) (x : Bytes) → n + length x ≤ 128 → unquote n (escape x) ≡ some x
unfolding unquote
unquote-escape n [] h = refl
unquote-escape n (b ∷ x) h = elim (Bool-cases (b == b'"')) [
  | inl e ↦
      rw (e, unquote_quote n (escape x) (omega arith), unquote-escape (n + 1) x (omega arith))
        (ground arith)
  | inr e ↦
      rw (e, unquote_other n b (escape x) (omega arith) e, unquote-escape (n + 1) x (omega arith))
        refl
]

identifier-quoted :
    (b : ℕ) (s : Bytes) → identifier (b'"' ∷ (b ∷ s) ++ b'"' ∷ []) ≡ unquote 0 (b ∷ s)
unfolding identifier
identifier-quoted b [] = refl
identifier-quoted b (c ∷ s) = rw split_last-append refl

escape-cons : (b : ℕ) (x : Bytes) → (c : ℕ) × (s : Bytes) × (escape (b ∷ x) ≡ c ∷ s)
escape-cons b x = elim (Bool-cases (b == b'"')) [
  | inl e ↦ (b'"', b'"' ∷ escape x, rw e)
  | inr e ↦ (b, escape x, rw e)
]

identifier-delimited :
    (b : ℕ) (x : Bytes) → length (b ∷ x) ≤ 128 → identifier (delimited (b ∷ x)) ≡ some (b ∷ x)
identifier-delimited b x h =
    let (c, s, e) = escape-cons b x in
    ap (λ (t : Bytes). identifier (b'"' ∷ (t ++ b'"' ∷ []))) e
    ∙ identifier-quoted c s
    ∙ ap (unquote 0) (sym e)
    ∙ unquote-escape 0 (b ∷ x) (omega arith)

trim_start-id : (b : ℕ) (s : Bytes) → (b == b' ') ≡ false → trim_start (b ∷ s) ≡ b ∷ s
unfolding trim_start
trim_start-id b s h = rw h

pub trimmed :
    (i j b : ℕ) (s : Bytes)
    → (b == b' ') ≡ false
    → trim_end (trim_start (blanks i ++ ((b ∷ s) ++ blanks j))) ≡ trim_end (b ∷ s)
trimmed i j b s h =
    ap trim_end (trim_start-blanks i ((b ∷ s) ++ blanks j) ∙ trim_start-id b (s ++ blanks j) h)
    ∙ trim_end-blanks (b ∷ s) j

-- A name of 1 to 128 bytes that is quoted, with each quote in it doubled, and has spaces before
-- and after it, is read back as it was.
pub name-delimited :
    (i j : ℕ) (x : Bytes)
    → 0 < length x
    → length x ≤ 128
    → name (blanks i ++ (delimited x ++ blanks j)) ≡ x
unfolding name
name-delimited i j [] p h = elim p [ ]
name-delimited i j (b ∷ x) p h =
    ap (λ (s : Bytes). or_empty (identifier s))
      (trimmed i j b'"' (escape (b ∷ x) ++ b'"' ∷ []) refl ∙ trim_end-quote (b'"' ∷ escape (b ∷ x)))
    ∙ ap or_empty (identifier-delimited b x h)
