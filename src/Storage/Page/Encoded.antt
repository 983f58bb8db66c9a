-- ===== src/Storage/Page/Encoded.antt =====
-- The bytes of a page say which objects it has (vsql/page.v).
use vsql.Base.{
  ℕ, ◌+◌, ◌-◌, ◌^◌, ◌<◌, ◌≡◌, refl, ap, ◌∙◌, Bool, true, false, not, [], ◌∷◌, ◌++◌, arith, ltb,
  ◌==◌, length, length-append,
}
use vsql.Base.Ints.{pos, narrow_16}
use vsql.Base.Bytes.{Bytes}
use mathlib.Core.List.{append_assoc}
use vsql.Storage.Numbers.{
  put_u16, get_u16, put_u32, get_u32, put_u64, to_int, get_u16-put, get_u32-put, get_u64-put,
  to_int_lem, take-append, drop-append,
}
use vsql.Storage.Page.{
  PageObject, ok, object_length, object_bytes, bool_byte, read_u8s, read_prefix, value_length,
  parse_page_object,
}

-- The lengths and the transactions fit in the numbers that they are written as.
pub record IsEncodable (o : PageObject) : Type 0 where
  pub key_fits : length o.key < 2 ^ 15
  pub length_fits : object_length o < 2 ^ 31
  pub tid_fits : o.tid < 2 ^ 64
  pub xid_fits : o.xid < 2 ^ 64

read_u8s-append : (xs ys : Bytes) → read_u8s (length xs) (xs ++ ys) ≡ ok (xs, ys)
unfolding read_u8s
read_u8s-append xs ys =
    let long : ltb (length (xs ++ ys)) (length xs) ≡ false =
      (let e = length-append xs ys in ground arith) in
    rw (long, take-append xs ys, drop-append xs ys) refl

narrow_16_lem : (n : ℕ) → n < 2 ^ 15 → narrow_16 (pos n) ≡ pos n
unfolding narrow_16
narrow_16_lem n h = ground arith

value_length_lem : (k v : ℕ) → value_length (23 + k + v) k ≡ ok v
unfolding value_length
value_length_lem k v =
    let long : ltb (23 + k + v) (23 + k) ≡ false = ground arith in
    let d : 23 + k + v - 23 - k ≡ v = omega arith in rw (long, d) refl

bool-byte : (b : Bool) → not (bool_byte b == 0) ≡ b
bool-byte true = refl
bool-byte false = refl

module _ (o : PageObject) (e : IsEncodable o) (rest : Bytes) where
  -- What stands behind the numbers.
  abbrev tail : Bytes
  tail = o.key ++ (bool_byte o.is_blob_ref ∷ (o.value ++ rest))

  abbrev head : Bytes
  head = put_u32 (object_length o) ++ (put_u64 o.tid ++ (put_u64 o.xid ++ put_u16 (length o.key)))

  object_bytes-append : object_bytes o ++ rest ≡ head ++ tail
  unfolding object_bytes
  object_bytes-append =
      ap (λ (t : Bytes). head ++ t) (append_assoc o.key (bool_byte o.is_blob_ref ∷ o.value) rest)

  read_prefix-bytes :
      read_prefix (head ++ tail)
      ≡ ok (
        record {
          total = pos (object_length o);
          tid = o.tid;
          xid = o.xid;
          key_length = pos (length o.key);
        },
        tail,
      )
  unfolding read_prefix
  read_prefix-bytes =
      let l = e.length_fits in
      let t : to_int (get_u32 (put_u32 (object_length o))) ≡ pos (object_length o) =
        ap to_int (get_u32-put (object_length o) (omega arith)) ∙ to_int_lem (object_length o) l in
      let k : narrow_16 (pos (get_u16 (put_u16 (length o.key)))) ≡ pos (length o.key) =
        (let f = e.key_fits in
          ap (λ (n : ℕ). narrow_16 (pos n)) (get_u16-put (length o.key) (omega arith))
          ∙ narrow_16_lem (length o.key) f) in
      rw (read_u8s-append head tail) λ i. ok (
        record {
          total = t i;
          tid = get_u64-put o.tid e.tid_fits i;
          xid = get_u64-put o.xid e.xid_fits i;
          key_length = k i;
        },
        tail,
      )

  -- The object that has been written is read back, and its length, whatever stands behind it.
  pub parse-bytes : parse_page_object (object_bytes o ++ rest) ≡ ok (object_length o, o)
  unfolding parse_page_object
  parse-bytes =
      rw
        (
          object_bytes-append,
          read_prefix-bytes,
          read_u8s-append o.key (bool_byte o.is_blob_ref ∷ (o.value ++ rest)),
          read_u8s-append (bool_byte o.is_blob_ref ∷ []) (o.value ++ rest),
          value_length_lem (length o.key) (length o.value),
          read_u8s-append o.value rest,
          bool-byte o.is_blob_ref,
        )
        refl
