-- ===== src/Storage/Pager/Cache.antt =====
-- The pages that are kept in memory do not change what the pager answers (vsql/pager.v).
use vsql.Base.{
  ℕ, ◌+◌, ◌^◌, ◌<◌, ◌≡◌, refl, sym, ap, ◌∙◌, inl, inr, Option, none, some, List, [], ◌∷◌, arith,
  ltb, ◌==◌, length, Bool-cases, Option-cases,
}
use vsql.Base.Bytes.{Bytes}
use vsql.Storage.Numbers.{get_u16-put}
use vsql.Storage.Page.{Page}
use vsql.Storage.Pager.{
  PageMap, FilePager, PageFile, lookup, insert, delete, page_bytes, new_page_from_bytes, cache_page,
  fetch_page, store_page, append_page, discard, new_file_pager,
}

-- A page that is written is read back, if its kind is a byte and `used` fits in 16 bits.
pub page-bytes : (p : Page) → p.used < 2 ^ 16 → new_page_from_bytes (page_bytes p) ≡ p
unfolding new_page_from_bytes page_bytes
page-bytes p u = λ i. record { kind = p.kind; used = get_u16-put p.used u i; content = p.content }

-- The map has only pages of the file.
abbrev IsCopy : PageFile → PageMap → Type 0
IsCopy file [] = Unit
IsCopy file ((n, page) ∷ pages) = (file n ≡ some page) × IsCopy file pages

-- What is asked of the pager, and what it answers. The file is locked until the pager discards what it
-- has, after which another file may be found: `forget` has the file that comes next.
pub data Operation : Type 0 where
  fetch : ℕ → Operation
  store : ℕ → Page → Operation
  append : Page → Operation
  forget : PageFile → Operation

pub data Answer : Type 0 where
  fetched : Option Page → Answer
  appended : ℕ → Answer
  done : Answer

unfoldable pub answer : PageFile → Operation → FilePager → Answer × FilePager
unfolding fetch_page store_page append_page discard
answer file (fetch n) p = let (page, q) = fetch_page file n p in (fetched page, q)
answer file (store n page) p = (done, store_page n page p)
answer file (append page) p = let (n, q) = append_page page p in (appended n, q)
answer file (forget later) p = (done, discard p)

abbrev after : PageFile → Operation → PageFile
after file (forget later) = later
after file _ = file

unfoldable pub answers : PageFile → List Operation → FilePager → List Answer
unfolding answer
answers file [] p = []
answers file (o ∷ os) p = let (a, q) = answer file o p in a ∷ answers (after file o) os q

module _ (file : PageFile) where
  lookup-IsCopy :
      (n : ℕ) (pages : PageMap) (page : Bytes)
      → IsCopy file pages
      → lookup n pages ≡ some page
      → file n ≡ some page
  unfolding lookup
  lookup-IsCopy n [] page c h = absurd (cc)
  lookup-IsCopy n ((k, old) ∷ pages) page c h = elim (Bool-cases (k == n)) [
    | inl e ↦ let same : k ≡ n = ground arith in ap file (sym same) ∙ c.0 ∙ rw e at h
    | inr e ↦ lookup-IsCopy n pages page c.1 (rw e at h)
  ]

  insert-IsCopy :
      (n : ℕ) (page : Bytes) (pages : PageMap)
      → file n ≡ some page
      → IsCopy file pages
      → IsCopy file (insert n page pages)
  unfolding insert
  insert-IsCopy n page [] f c = (f, tt)
  insert-IsCopy n page ((k, old) ∷ pages) f c = elim (Bool-cases (k == n)) [
    | inl e ↦ let same : k ≡ n = ground arith in rw e (ap file same ∙ f, c.1)
    | inr e ↦ rw e (c.0, insert-IsCopy n page pages f c.1)
  ]

  delete-IsCopy : (n : ℕ) (pages : PageMap) → IsCopy file pages → IsCopy file (delete n pages)
  unfolding delete
  delete-IsCopy n [] c = tt
  delete-IsCopy n ((k, old) ∷ pages) c = elim (Bool-cases (k == n)) [
    | inl e ↦ rw e c.1
    | inr e ↦ rw e (c.0, delete-IsCopy n pages c.1)
  ]

  record Cached (p q : FilePager) : Type 0 where
    copy : IsCopy file q.cache
    dirty : q.dirty ≡ p.dirty
    total : q.total_pages ≡ p.total_pages

  cache_page-Cached :
      (n : ℕ) (page : Bytes) (p : FilePager)
      → file n ≡ some page
      → IsCopy file p.cache
      → Cached p (cache_page n page p)
  unfolding cache_page
  cache_page-Cached n page p f c = elim (Bool-cases (p.cache_size == 0)) [
    | inl e ↦ rw e (record { copy = c; dirty = refl; total = refl })
    | inr e ↦ elim (Bool-cases (ltb (length p.cache_order) p.cache_size)) [
      | inl l ↦
          rw (e, l) (record { copy = insert-IsCopy n page p.cache f c; dirty = refl; total = refl })
      | inr l ↦
          rw (e, l)
            (record {
              copy = insert-IsCopy n page _ f (delete-IsCopy _ p.cache c);
              dirty = refl;
              total = refl;
            })
    ]
  ]

  -- The page as it is without the pages in memory
  stored_page : ℕ → PageMap → Option Page
  stored_page n dirty = elim (lookup n dirty) [
    | some page ↦ some (new_page_from_bytes page)
    | none ↦ elim (file n) [ none ↦ none | some page ↦ some (new_page_from_bytes page) ]
  ]

  fetch_page-stored :
      (n : ℕ) (p : FilePager)
      → IsCopy file p.cache
      → ((fetch_page file n p).0 ≡ stored_page n p.dirty) × Cached p (fetch_page file n p).1
  unfolding fetch_page stored_page
  fetch_page-stored n p c = elim (Option-cases (lookup n p.dirty)) [
    | inl d ↦ elim (Option-cases (lookup n p.cache)) [
      | inl k ↦ elim (Option-cases (file n)) [
        | inl f ↦
            rw (d, k, f, fetch_page, stored_page)
              (refl, record { copy = c; dirty = refl; total = refl })
        | inr (page, f) ↦
            rw (d, k, f, fetch_page, stored_page) (refl, cache_page-Cached n page p f c)
      ]
      | inr (page, k) ↦
          rw (d, k, lookup-IsCopy n p.cache page c k, fetch_page, stored_page)
            (refl, record { copy = c; dirty = refl; total = refl })
    ]
    | inr (page, d) ↦
        rw (d, fetch_page, stored_page) (refl, record { copy = c; dirty = refl; total = refl })
  ]

  -- What the answers of two pagers depend on.
  record Like (p q : FilePager) : Type 0 where
    copy_p : IsCopy file p.cache
    copy_q : IsCopy file q.cache
    dirty : p.dirty ≡ q.dirty
    total : p.total_pages ≡ q.total_pages

  fetch-Like :
      (n : ℕ) (p q : FilePager)
      → Like p q
      → ((fetch_page file n p).0 ≡ (fetch_page file n q).0)
        × Like (fetch_page file n p).1 (fetch_page file n q).1
  fetch-Like n p q l =
      let (e, c) = fetch_page-stored n p l.copy_p in
      let (f, d) = fetch_page-stored n q l.copy_q in
      (
        e ∙ ap (stored_page n) l.dirty ∙ sym f,
        record {
          copy_p = c.copy;
          copy_q = d.copy;
          dirty = c.dirty ∙ l.dirty ∙ sym d.dirty;
          total = c.total ∙ l.total ∙ sym d.total;
        },
      )

answer-Like :
    (file : PageFile) (o : Operation) (p q : FilePager)
    → Like file p q
    → ((answer file o p).0 ≡ (answer file o q).0)
      × Like (after file o) (answer file o p).1 (answer file o q).1
unfolding answer store_page append_page discard
answer-Like file (fetch n) p q l = let (e, k) = fetch-Like file n p q l in (ap fetched e, k)
answer-Like file (store n page) p q l = (
  refl,
  record {
    copy_p = l.copy_p;
    copy_q = l.copy_q;
    dirty = ap (insert n (page_bytes page)) l.dirty;
    total = l.total;
  },
)
answer-Like file (append page) p q l = (
  ap appended l.total,
  record {
    copy_p = l.copy_p;
    copy_q = l.copy_q;
    dirty = λ i. insert (l.total i) (page_bytes page) (l.dirty i);
    total = ap (λ (n : ℕ). n + 1) l.total;
  },
)
answer-Like file (forget later) p q l =
    (refl, record { copy_p = tt; copy_q = tt; dirty = refl; total = l.total })

answers-Like :
    (file : PageFile) (os : List Operation) (p q : FilePager)
    → Like file p q
    → answers file os p ≡ answers file os q
unfolding answers
answers-Like file [] p q l = refl
answers-Like file (o ∷ os) p q l =
    let (e, k) = answer-Like file o p q l in
    let rest = answers-Like (after file o) os (answer file o p).1 (answer file o q).1 k in
    λ i. e i ∷ rest i

-- A pager that keeps any number of pages in memory gives the answers of one that keeps none: to
-- fetching, storing and appending pages and to discarding the changes, in any order, errors included,
-- also if each time that the changes are discarded the file is another one from then on.
pub answers-cache :
    (file : PageFile) (os : List Operation) (length page_size root cache_size : ℕ)
    → answers file os (new_file_pager length page_size root cache_size)
      ≡ answers file os (new_file_pager length page_size root 0)
unfolding new_file_pager
answers-cache file os length page_size root cache_size =
    answers-Like file os _ _ (record { copy_p = tt; copy_q = tt; dirty = refl; total = refl })
