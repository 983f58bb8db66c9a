-- ===== src/Storage/Page.antt =====
-- A page and its objects (vsql/page.v). A read or a write outside of the bytes of a page is a panic.
pub mod Operations
pub mod Encoded
pub mod Stored
pub mod Sizes
pub mod Refined
pub mod Ended
pub mod Amended
pub mod Looped
pub mod Isolation
pub mod Written
pub mod Unseen
pub mod Unique
pub mod Created
pub mod Reached
pub mod Again
use vsql.Base.{
  ℕ, zero, suc, ◌+◌, ◌-◌, ◌*◌, ◌/◌, ◌%◌, ◌^◌, Bool, true, false, not, ◌&&◌, ◌||◌, List, [], ◌∷◌,
  ◌++◌, ltb, leb, ◌==◌, if◌then◌else◌, length, take,
}
use vsql.Base.Ints.{ℤ, pos, negsuc, eqz, lez, is_negative, narrow_16}
use vsql.Base.Bytes.{Bytes}
use vsql.Storage.Numbers.{
  drop, byte_at, put_u16, get_u16, put_u32, get_u32, put_u64, get_u64, to_int,
}

pub record PageObject : Type 0 where
  pub key : Bytes
  pub value : Bytes
  pub is_blob_ref : Bool
  pub tid : ℕ
  pub xid : ℕ

-- `conflict` is SQLSTATE 40001.
pub data Result (A : Type 0) : Type 0 where
  ok : A → Result A
  conflict : Result A
  panic : Result A

infixl 5 ◌>>=◌
abbrev pub ◌>>=◌ : {A B : Type 0} → Result A → (A → Result B) → Result B
ok a >>= f = f a
conflict >>= f = conflict
panic >>= f = panic

abbrev pub page_object_prefix_length : ℕ
page_object_prefix_length = 23

-- PageObject.length
abbrev pub object_length : PageObject → ℕ
object_length o = page_object_prefix_length + length o.key + length o.value

abbrev pub bool_byte : Bool → ℕ
bool_byte b = if b then 1 else 0

-- PageObject.bytes
unfoldable pub object_bytes : PageObject → Bytes
object_bytes o =
    put_u32 (object_length o)
    ++ (put_u64 o.tid
        ++ (put_u64 o.xid
            ++ (put_u16 (length o.key) ++ (o.key ++ (bool_byte o.is_blob_ref ∷ o.value)))))

-- Bytes.read_u8s: the bytes, and the rest
unfoldable pub read_u8s : ℕ → Bytes → Result (Bytes × Bytes)
read_u8s n content = if ltb (length content) n then panic else ok (take n content, drop n content)

-- The numbers before the key: the whole length, tid, xid and the length of the key
pub record Prefix : Type 0 where
  pub total : ℤ
  pub tid : ℕ
  pub xid : ℕ
  pub key_length : ℤ

unfoldable pub read_prefix : Bytes → Result (Prefix × Bytes)
unfolding to_int narrow_16
read_prefix content = do
  (head, rest) ← read_u8s 22 content
  ok (
    record {
      total = to_int (get_u32 head);
      tid = get_u64 (drop 4 head);
      xid = get_u64 (drop 12 head);
      key_length = narrow_16 (pos (get_u16 (drop 20 head)));
    },
    rest,
  )

-- A length that is negative is a panic.
abbrev pub natural : ℤ → Result ℕ
natural (pos n) = ok n
natural (negsuc n) = panic

-- total - page_object_prefix_length - key_length
unfoldable pub value_length : ℕ → ℕ → Result ℕ
value_length total key_length =
    if ltb total (page_object_prefix_length + key_length)
    then panic
    else ok (total - page_object_prefix_length - key_length)

unfoldable pub parse_page_object : Bytes → Result (ℕ × PageObject)
parse_page_object content = do
  (prefix, rest) ← read_prefix content
  key_length ← natural prefix.key_length
  (key, rest') ← read_u8s key_length rest
  (blob, rest'') ← read_u8s 1 rest'
  total ← natural prefix.total
  n ← value_length total key_length
  (value, end) ← read_u8s n rest''
  ok (
    total,
    record {
      key = key;
      value = value;
      is_blob_ref = not (byte_at blob == 0);
      tid = prefix.tid;
      xid = prefix.xid;
    },
  )

abbrev pub page_header_size : ℕ
page_header_size = 16

-- struct Page. `used` is a u16.
pub record Page : Type 0 where
  pub kind : ℕ
  pub used : ℕ
  pub content : Bytes

unfoldable pub page_size : Page → ℕ
page_size p = length p.content + page_header_size

-- The loop of Page.objects, with `left` bytes to go.
unfoldable pub objects_from : ℕ → ℕ → Bytes → Result (List PageObject)
objects_from zero left rest = panic
objects_from (suc fuel) zero rest = ok []
objects_from (suc fuel) (suc left) rest = do
  (n, object) ← parse_page_object rest
  objects ← objects_from fuel (suc left - n) (drop n rest)
  ok (object ∷ objects)

-- Page.objects
unfoldable pub objects : Page → Result (List PageObject)
objects p = objects_from (suc p.used) (p.used - page_header_size) p.content
