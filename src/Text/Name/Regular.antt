-- ===== src/Text/Name/Regular.antt =====
-- Regular identifiers that vsql_m_name reads
-- (vsql/std_2_13_1_sql_client_module_definition.c).
use vsql.Base.{
  ℕ, ◌+◌, ◌≤◌, ◌≡◌, refl, ap, ◌∙◌, Bool, true, false, some, [], ◌∷◌, ◌++◌, map, arith, ◌==◌, length,
}
use vsql.Base.Bytes.{Bytes, or_empty, to_upper}
use vsql.Text.Name.{trim_end, cons_unless_blank, is_name_byte, regular, identifier, name}
use vsql.Text.Name.Delimited.{blanks, trimmed}

-- A letter or "_", then letters, digits and "_".
abbrev pub IsRegular : Bool → Bytes → Type 0
IsRegular first [] = Unit
IsRegular first (c ∷ s) = (is_name_byte first c ≡ true) × IsRegular false s

name_byte_not_blank : (f : Bool) (c : ℕ) → is_name_byte f c ≡ true → (c == b' ') ≡ false
unfolding is_name_byte
name_byte_not_blank f c h = ground arith

name_byte_not_quote : (f : Bool) (c : ℕ) → is_name_byte f c ≡ true → (c == b'"') ≡ false
unfolding is_name_byte
name_byte_not_quote f c h = ground arith

trim_end-IsRegular : (f : Bool) (s : Bytes) → IsRegular f s → trim_end s ≡ s
unfolding trim_end
trim_end-IsRegular f [] h = refl
trim_end-IsRegular f (c ∷ []) h = rw (name_byte_not_blank f c h.0)
trim_end-IsRegular f (c ∷ d ∷ s) h = ap (cons_unless_blank c) (trim_end-IsRegular false (d ∷ s) h.1)

regular-IsRegular :
    (f : Bool) (n : ℕ) (s : Bytes)
    → n + length s ≤ 128
    → IsRegular f s
    → regular f n s ≡ some (map to_upper s)
unfolding regular
regular-IsRegular f n [] k h = refl
regular-IsRegular f n (c ∷ s) k h =
    rw (h.0, regular-IsRegular false (n + 1) s (omega arith) h.1) (ground arith)

identifier-IsRegular :
    (c : ℕ) (s : Bytes)
    → length (c ∷ s) ≤ 128
    → IsRegular true (c ∷ s)
    → identifier (c ∷ s) ≡ some (map to_upper (c ∷ s))
unfolding identifier
identifier-IsRegular c [] k h =
    rw (name_byte_not_quote true c h.0) (regular-IsRegular true 0 (c ∷ []) k h)
identifier-IsRegular c (d ∷ []) k h =
    rw (name_byte_not_quote true c h.0) (regular-IsRegular true 0 (c ∷ d ∷ []) k h)
identifier-IsRegular c (d ∷ e ∷ s) k h =
    rw (name_byte_not_quote true c h.0) (regular-IsRegular true 0 (c ∷ d ∷ e ∷ s) (omega arith) h)

-- A regular identifier of at most 128 bytes is read in upper case, with the spaces around it
-- removed.
pub name-regular :
    (i j c : ℕ) (s : Bytes)
    → length (c ∷ s) ≤ 128
    → IsRegular true (c ∷ s)
    → name (blanks i ++ ((c ∷ s) ++ blanks j)) ≡ map to_upper (c ∷ s)
unfolding name
name-regular i j c s k h =
    ap (λ (t : Bytes). or_empty (identifier t))
      (trimmed i j c s (name_byte_not_blank true c h.0) ∙ trim_end-IsRegular true (c ∷ s) h)
    ∙ ap or_empty (identifier-IsRegular c s k h)
