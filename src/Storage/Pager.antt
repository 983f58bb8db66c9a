-- ===== src/Storage/Pager.antt =====
-- The pager of a database file (vsql/pager.v). A map from page numbers to pages is an association
-- list, and the int numbers of pages, which are not negative, are ℕ.
pub mod Cache
use vsql.Base.{
  ℕ, zero, suc, ◌+◌, ◌-◌, ◌/◌, ◌%◌, Option, none, some, List, [], ◌∷◌, ◌++◌, map, ltb, ◌==◌,
  if◌then◌else◌, length, set, replicate,
}
use vsql.Base.Bytes.{Bytes}
use vsql.Storage.Numbers.{drop, byte_at, put_u16, get_u16}
use vsql.Storage.Page.{Page, page_header_size}

-- map[int][]u8
abbrev pub PageMap : Type 0
PageMap = List (ℕ × Bytes)

unfoldable pub lookup : ℕ → PageMap → Option Bytes
lookup n [] = none
lookup n ((k, page) ∷ pages) = if k == n then some page else lookup n pages

unfoldable pub insert : ℕ → Bytes → PageMap → PageMap
insert n page [] = (n, page) ∷ []
insert n page ((k, old) ∷ pages) =
    if k == n then (k, page) ∷ pages else (k, old) ∷ insert n page pages

unfoldable pub delete : ℕ → PageMap → PageMap
delete n [] = []
delete n ((k, page) ∷ pages) = if k == n then pages else (k, page) ∷ delete n pages

-- struct FilePager, but for the file
pub record FilePager : Type 0 where
  pub page_size : ℕ
  pub total_pages : ℕ
  pub dirty : PageMap
  pub root_page : ℕ
  pub cache_size : ℕ
  pub cache : PageMap
  pub cache_order : List ℕ
  pub cache_next : ℕ

-- For at least the bytes of the header of a page
unfoldable pub new_page_from_bytes : Bytes → Page
new_page_from_bytes content = record {
  kind = byte_at content;
  used = get_u16 (drop 2 content);
  content = drop page_header_size content;
}

-- Page.bytes
unfoldable pub page_bytes : Page → Bytes
page_bytes p = p.kind ∷ 0 ∷ (put_u16 p.used ++ (replicate 12 0 ++ p.content))

-- p.cache_order[p.cache_next]
abbrev oldest : List ℕ → ℕ → ℕ
oldest [] i = 0
oldest (n ∷ ns) zero = n
oldest (n ∷ ns) (suc i) = oldest ns i

unfoldable pub cache_page : ℕ → Bytes → FilePager → FilePager
unfolding insert delete
cache_page n page p =
    if p.cache_size == 0
    then p
    else if ltb (length p.cache_order) p.cache_size
    then record p { cache_order = p.cache_order ++ n ∷ []; cache = insert n page p.cache }
    else record p {
      cache_order = set p.cache_order p.cache_next n;
      cache_next = (p.cache_next + 1) % p.cache_size;
      cache = insert n page (delete (oldest p.cache_order p.cache_next) p.cache);
    }

-- The file of the pager, which is locked: the bytes of a page, or SQLSTATE 58030
abbrev pub PageFile : Type 0
PageFile = ℕ → Option Bytes

unfoldable pub fetch_page : PageFile → ℕ → FilePager → Option Page × FilePager
unfolding lookup new_page_from_bytes cache_page
fetch_page file n p = elim (lookup n p.dirty) [
  | some page ↦ (some (new_page_from_bytes page), p)
  | none ↦ elim (lookup n p.cache) [
    | some page ↦ (some (new_page_from_bytes page), p)
    | none ↦ elim (file n) [
      | none ↦ (none, p)
      | some page ↦ (some (new_page_from_bytes page), cache_page n page p)
    ]
  ]
]

unfoldable pub store_page : ℕ → Page → FilePager → FilePager
unfolding insert page_bytes
store_page n page p = record p { dirty = insert n (page_bytes page) p.dirty }

unfoldable pub discard : FilePager → FilePager
discard p = record p { dirty = []; cache = []; cache_order = []; cache_next = 0 }

-- The number of the page, and the pager
unfoldable pub append_page : Page → FilePager → ℕ × FilePager
unfolding store_page
append_page page p =
    (p.total_pages, record (store_page p.total_pages page p) { total_pages = p.total_pages + 1 })

-- For the length of an initialized file
unfoldable pub new_file_pager : ℕ → ℕ → ℕ → ℕ → FilePager
new_file_pager length page_size root cache_size = record {
  page_size = page_size;
  total_pages = (length - 4096) / page_size;
  dirty = [];
  root_page = root;
  cache_size = cache_size;
  cache = [];
  cache_order = [];
  cache_next = 0;
}
