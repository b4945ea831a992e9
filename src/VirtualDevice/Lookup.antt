-- ===== src/VirtualDevice/Lookup.antt =====
-- Looking up handles and paths in an object table that changed.
use mtp_rs.Prelude.{
  ℕ, ◌≡◌, refl, ap, false, List, [], ◌∷◌, map, Option, none, some, ◌==◌, if◌then◌else◌, Bool-cases,
  inl, inr, All, ◌≢◌, arith,
}
use mtp_rs.VirtualDevice.{FilePath, same_path, VirtualObject, get, remove, handle_of_path, reparent}
use mtp_rs.VirtualDevice.Table.{Distinct}

-- The object after its parent, if it was the old handle, has become the new one.
abbrev pub moved : (old_handle new_handle : ℕ) → VirtualObject → VirtualObject
moved old_handle new_handle o =
    if o.parent == old_handle then record o { parent = new_handle } else o

pub get-map :
    (old new k : ℕ) (o : VirtualObject) (objects : List (ℕ × VirtualObject))
    → get objects k ≡ some o
    → get (map (reparent old new) objects) k ≡ some (moved old new o)
unfolding get reparent
get-map old new k o [] e = absurd cc
get-map old new k o ((k', o') ∷ rest) e = elim (Bool-cases (k' == k)) [
  | inl same ↦
      let here : some o' ≡ some o = rw same at e in
      rw same (
        ap (λ (x : Option VirtualObject). elim x [ none ↦ none | some y ↦ some (moved old new y) ])
          here)
  | inr other ↦ rw other (get-map old new k o rest (rw other at e))
]

pub get-map_none :
    (old new k : ℕ) (objects : List (ℕ × VirtualObject))
    → get objects k ≡ none
    → get (map (reparent old new) objects) k ≡ none
unfolding get reparent
get-map_none old new k [] e = refl
get-map_none old new k ((k', o') ∷ rest) e = elim (Bool-cases (k' == k)) [
  | inl same ↦ absurd (let e1 = rw same at e in cc)
  | inr other ↦ rw other (get-map_none old new k rest (rw other at e))
]

pub get-remove : (objects : List (ℕ × VirtualObject)) (h : ℕ) → get (remove objects h) h ≡ none
unfolding get remove
get-remove [] h = refl
get-remove ((k, o) ∷ rest) h = elim (Bool-cases (k == h)) [
  | inl same ↦ rw same (get-remove rest h)
  | inr other ↦ rw (other, other) (get-remove rest h)
]

pub get-remove_other :
    (objects : List (ℕ × VirtualObject)) (h k : ℕ) (o : VirtualObject)
    → k == h ≡ false
    → get objects k ≡ some o
    → get (remove objects h) k ≡ some o
unfolding get remove
get-remove_other [] h k o d e = absurd cc
get-remove_other ((k', o') ∷ rest) h k o d e = elim (Bool-cases (k' == k)) [
  | inl same ↦ let kept : k' == h ≡ false = ground arith in rw (kept, same) (rw same at e)
  | inr other ↦ elim (Bool-cases (k' == h)) [
    | inl gone ↦ rw gone (get-remove_other rest h k o d (rw other at e))
    | inr kept ↦ rw (kept, other) (get-remove_other rest h k o d (rw other at e))
  ]
]

pub handle_of_path-get :
    (objects visited : List (ℕ × VirtualObject)) (rel : FilePath) (k : ℕ)
    → All (λ e. get objects e.0 ≡ some e.1) visited
    → handle_of_path visited rel ≡ some k
    → (o : VirtualObject) × (get objects k ≡ some o)
unfolding handle_of_path
handle_of_path-get objects [] rel k a e = absurd cc
handle_of_path-get objects ((k', o') ∷ rest) rel k a e =
    elim (Bool-cases (same_path o'.rel_path rel)) [
      | inl here ↦
          let found : some k' ≡ some k = rw here at e in
          let is_k : k' ≡ k = cc in (o', rw is_k at a.0)
      | inr later ↦ handle_of_path-get objects rest rel k a.1 (rw later at e)
    ]

pub All-remove :
    (P : ℕ → Type 0) (objects : List (ℕ × VirtualObject)) (h : ℕ)
    → All (λ e. P (e.0)) objects
    → All (λ e. P (e.0)) (remove objects h)
unfolding remove
All-remove P [] h a = tt
All-remove P ((k, o) ∷ rest) h a = elim (Bool-cases (k == h)) [
  | inl gone ↦ rw gone (All-remove P rest h a.1)
  | inr kept ↦ rw kept (a.0, All-remove P rest h a.1)
]

pub All-map :
    (P : ℕ → Type 0) (old new : ℕ) (objects : List (ℕ × VirtualObject))
    → All (λ e. P (e.0)) objects
    → All (λ e. P (e.0)) (map (reparent old new) objects)
unfolding reparent
All-map P old new [] a = tt
All-map P old new ((k, o) ∷ rest) a = (a.0, All-map P old new rest a.1)

pub Distinct-remove :
    (objects : List (ℕ × VirtualObject)) (h : ℕ) → Distinct objects → Distinct (remove objects h)
unfolding remove
Distinct-remove [] h d = tt
Distinct-remove ((k, o) ∷ rest) h d = elim (Bool-cases (k == h)) [
  | inl gone ↦ rw gone (Distinct-remove rest h d.1)
  | inr kept ↦ rw kept (All-remove (λ j. j ≢ k) rest h d.0, Distinct-remove rest h d.1)
]

pub Distinct-map :
    (old new : ℕ) (objects : List (ℕ × VirtualObject))
    → Distinct objects
    → Distinct (map (reparent old new) objects)
unfolding reparent
Distinct-map old new [] d = tt
Distinct-map old new ((k, o) ∷ rest) d =
    (All-map (λ j. j ≢ k) old new rest d.0, Distinct-map old new rest d.1)
