-- ===== src/VirtualDevice/Iteration.antt =====
-- Searching the object table in the order that its map visits it.
use mtp_rs.Prelude.{
  ℕ, ◌≡◌, refl, ◌∙◌, ap, true, ◌&&◌, List, [], ◌∷◌, Option, none, some, All, ◌==◌, Bool-cases, ◌⊎◌,
  inl, inr, arith, ◌≢◌,
}
use mtp_rs.VirtualDevice.{FilePath, Order, same_path, VirtualObject, get, handle_at}
use mtp_rs.VirtualDevice.Table.{Distinct, same_path→eq, same_path_refl}

-- An entry that stands in the list of the visited ones.
abbrev pub Visited : ℕ → VirtualObject → List (ℕ × VirtualObject) → Type 0
Visited k o [] = ⊥
Visited k o ((k', o') ∷ rest) = ((k' ≡ k) × (o' ≡ o)) ⊎ Visited k o rest

-- `HashMap::iter` visits the entries of the map, and all of them.
pub record Iterates (order : Order) : Type 0 where
  pub entries :
      (objects : List (ℕ × VirtualObject))
      → Distinct objects
      → All (λ e. get objects e.0 ≡ some e.1) (order objects)
  pub all :
      (objects : List (ℕ × VirtualObject)) (k : ℕ) (o : VirtualObject)
      → Distinct objects
      → get objects k ≡ some o
      → Visited k o (order objects)

-- The object under the handle `h` stands at the path `rel` of the storage.
pub record Holds (storage_id : ℕ) (rel : FilePath) (h : ℕ) (objects : List (ℕ × VirtualObject))
    (o : VirtualObject) : Type 0 where
  pub here : get objects h ≡ some o
  pub storage : o.storage_id ≡ storage_id
  pub path : o.rel_path ≡ rel

-- No path of the storage has two handles.
abbrev pub OneHandle : ℕ → List (ℕ × VirtualObject) → Type 0
OneHandle storage_id objects =
    (rel : FilePath) (h h' : ℕ) (o o' : VirtualObject)
    → Holds storage_id rel h objects o
    → Holds storage_id rel h' objects o'
    → h ≡ h'

module _ (objects : List (ℕ × VirtualObject)) (storage_id : ℕ) (rel : FilePath) where
  pub handle_at-Holds :
      (visited : List (ℕ × VirtualObject)) (h : ℕ)
      → All (λ e. get objects e.0 ≡ some e.1) visited
      → handle_at visited storage_id rel ≡ some h
      → (o : VirtualObject) × Holds storage_id rel h objects o
  unfolding handle_at
  handle_at-Holds [] h a e = absurd cc
  handle_at-Holds ((k, o) ∷ rest) h a e =
      elim (Bool-cases (o.storage_id == storage_id && same_path o.rel_path rel)) [
        | inl found ↦
            let same : some k ≡ some h = rw found at e in
            let is_h : k ≡ h = cc in
            let path : same_path o.rel_path rel ≡ true = ground arith in
            (
              o,
              record {
                here = rw is_h at a.0;
                storage = ground arith;
                path = same_path→eq o.rel_path rel path;
              },
            )
        | inr other ↦ handle_at-Holds rest h a.1 (rw other at e)
      ]

  pub handle_at-ne-none :
      (visited : List (ℕ × VirtualObject)) (h : ℕ) (o : VirtualObject)
      → Visited h o visited
      → o.storage_id ≡ storage_id
      → o.rel_path ≡ rel
      → handle_at visited storage_id rel ≢ none
  unfolding handle_at
  handle_at-ne-none [] h o v s p e = v
  handle_at-ne-none ((k, o') ∷ rest) h o (inl same) s p e =
      let path : same_path o'.rel_path rel ≡ true = (rw (same.1, p) (same_path_refl rel)) in
      let storage : o'.storage_id == storage_id ≡ true = rw (same.1, s) (ground arith) in
      absurd (let e1 = rw (storage, path) at e in cc)
  handle_at-ne-none ((k, o') ∷ rest) h o (inr later) s p e =
      elim (Bool-cases (o'.storage_id == storage_id && same_path o'.rel_path rel)) [
        | inl found ↦ absurd (let e1 = rw found at e in cc)
        | inr other ↦ handle_at-ne-none rest h o later s p (rw other at e)
      ]

-- A path that an object stands at is found under its handle, whatever the order.
pub handle_at-order :
    (order : Order) (objects : List (ℕ × VirtualObject)) (storage_id : ℕ) (rel : FilePath) (h : ℕ)
    (o : VirtualObject)
    → Iterates order
    → Distinct objects
    → OneHandle storage_id objects
    → Holds storage_id rel h objects o
    → handle_at (order objects) storage_id rel ≡ some h
handle_at-order order objects storage_id rel h o it d one held =
    found (handle_at (order objects) storage_id rel) refl
  where
    found :
        (x : Option ℕ)
        → handle_at (order objects) storage_id rel ≡ x
        → handle_at (order objects) storage_id rel ≡ some h
    found none e = absurd (
        handle_at-ne-none objects storage_id rel (order objects) h o
          (it.all objects h o d held.here) held.storage held.path e)
    found (some h') e =
        let (o', held') =
          handle_at-Holds objects storage_id rel (order objects) h' (it.entries objects d) e in
        e ∙ ap some (one rel h' h o' o held' held)
