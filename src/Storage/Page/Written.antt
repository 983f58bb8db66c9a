-- ===== src/Storage/Page/Written.antt =====
-- A new version of an object in the bytes of a page, and in the list of its objects (vsql/btree.v,
-- vsql/page.v).
use vsql.Base.{
  ℕ, ◌+◌, ◌^◌, ◌<◌, ◌≤◌, ◌≡◌, refl, inl, inr, Bool, false, List, [], ◌∷◌, arith, ◌==◌,
  if◌then◌else◌, length, All, Bool-cases,
}
use vsql.Base.Bytes.{Bytes}
use vsql.Storage.Page.{PageObject, Page, Result, ok, conflict, panic, ◌>>=◌, object_length}
use vsql.Storage.Page.Encoded.{IsEncodable}
use vsql.Storage.Page.Operations.{versions, without, expired, add, update}
use vsql.Storage.Page.Stored.{IsPage, size}
use vsql.Storage.Page.Sizes.{
  OnOk, OnOk-bind, OnOk-weaken, SameSize, expired-SameSize, size-without-le,
}
use vsql.Storage.Page.Refined.{Stores, updated, added, update-Stores, add-Stores}
use vsql.Storage.Page.Ended.{write}

-- Btree.update on the list of the objects
unfoldable pub written : PageObject → List PageObject → Result (List PageObject)
written o os = do os' ← updated o.key o.tid os; added o os'

-- What holds of the objects that Page.update leaves, by the versions that there are.
pub updated-OnOk :
    (key : Bytes) (tid : ℕ) (os : List PageObject) (P : List PageObject → Type 0)
    → (versions key os ≡ [] → P os)
    → (3 ≤ length (versions key os) → P os)
    → P (without key tid os)
    → ((v : ℕ)
        → versions key os ≡ v ∷ []
        → v == tid ≡ false
        → OnOk (λ (r : Bool × List PageObject). P r.1) (expired key v tid os))
    → OnOk P (updated key tid os)
unfolding updated
updated-OnOk key tid os P none many gone one = of_versions (versions key os) refl
  where
    of_versions :
        (vs : List ℕ)
        → versions key os ≡ vs
        → OnOk P (elim vs [
          | [] ↦ ok os
          | v ∷ [] ↦
              if v == tid
              then ok (without key tid os)
              else (do (modified, os') ← expired key v tid os; ok os')
          | v ∷ w ∷ [] ↦ ok (without key tid os)
          | v ∷ w ∷ x ∷ more ↦ ok os
        ])
    of_versions [] e = none e
    of_versions (v ∷ []) e = elim (Bool-cases (v == tid)) [
      | inl f ↦ rw f gone
      | inr f ↦ rw f (
          OnOk-bind (λ (r : Bool × List PageObject). P r.1) P (expired key v tid os) _ (one v e f)
            (λ (modified, os') k. k))
    ]
    of_versions (v ∷ w ∷ []) e = gone
    of_versions (v ∷ w ∷ x ∷ more) e = many (rw e (omega arith))

size-updated :
    (key : Bytes) (tid : ℕ) (os : List PageObject)
    → tid < 2 ^ 64
    → All IsEncodable os
    → OnOk (λ qs. size qs ≤ size os) (updated key tid os)
size-updated key tid os t e =
    updated-OnOk key tid os (λ qs. size qs ≤ size os) (λ _. omega arith) (λ _. omega arith)
      (size-without-le key tid os)
      λ v _ _.
        OnOk-weaken (SameSize os) (λ r. size r.1 ≤ size os) (expired key v tid os)
          (expired-SameSize key v tid os t e) (λ r (s, k). omega arith)

module _ (n : ℕ) where
  Stores-bind :
      (P : List PageObject → Type 0) (r : Result Page) (s : Result (List PageObject))
      (f : Page → Result Page) (g : List PageObject → Result (List PageObject))
      → Stores n r s
      → OnOk P s
      → ((q : Page) (qs : List PageObject) → IsPage n q qs → P qs → Stores n (f q) (g qs))
      → Stores n (r >>= f) (s >>= g)
  Stores-bind P (ok q) (ok qs) f g h k l = l q qs h k
  Stores-bind P (ok q) conflict f g h k l = absurd h
  Stores-bind P (ok q) panic f g h k l = absurd h
  Stores-bind P conflict (ok qs) f g h k l = absurd h
  Stores-bind P conflict conflict f g h k l = tt
  Stores-bind P conflict panic f g h k l = absurd h
  Stores-bind P panic s f g h k l = absurd h

  -- In the bytes of a page that stores a list of objects, a new version of an object whose numbers fit,
  -- and which fits in the page, is written as `written` writes it to the list, and there is a conflict
  -- in both or in neither. Nothing outside of the page is read or written.
  pub write-Stores :
      (o : PageObject) (p : Page) (os : List PageObject)
      → IsPage n p os
      → IsEncodable o
      → 16 + size os + object_length o ≤ n
      → Stores n (write o p) (written o os)
  unfolding write written
  write-Stores o p os h e f =
      Stores-bind (λ qs. size qs ≤ size os) (update o o.tid p) (updated o.key o.tid os) (add o)
        (added o) (update-Stores n p os h o o.tid e.tid_fits)
        (size-updated o.key o.tid os e.tid_fits h.encodable)
        (λ q qs k l. add-Stores n q qs k o e (omega arith))
