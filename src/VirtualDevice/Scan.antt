-- ===== src/VirtualDevice/Scan.antt =====
-- `scan_dir` keeps the table, and a directory that did not change is scanned to the same handles.
mod Entries
pub mod Again
use mtp_rs.Prelude.{
  ◌⊎◌, ==→eq, sym, ap, ℕ, suc, ◌+◌, ◌%◌, ◌^◌, ◌≤◌, ◌<◌, ◌≡◌, refl, ◌∙◌, ap, sym, Bool, true, false,
  not, ◌&&◌, List, [], ◌∷◌, ◌++◌, length, Option, none, some, All, ◌==◌, if◌then◌else◌, Bool-cases,
  inl, inr, arith,
}
use mtp_rs.VirtualDevice.{
  Order, FilePath, same_path, VirtualObject, VirtualDeviceState, alloc_handle, get, remove, insert,
  handle_at, track, VirtualStorageState,
}
use mtp_rs.VirtualDevice.Iteration.{Iterates, OneHandle, Holds, handle_at-Holds, handle_at-ne-none}
use mtp_rs.VirtualDevice.Table.{IsTable, same_path→eq, same_path_refl, remove_new, insert-IsTable}

-- What one state of the table still has of an earlier one.
pub record Extends (storage_id : ℕ) (s s1 : VirtualDeviceState) : Type 0 where
  pub table : IsTable s1
  pub storages : s1.storages ≡ s.storages
  pub one_handle : OneHandle storage_id s1.objects
  pub objects : (k : ℕ) (o : VirtualObject) → get s.objects k ≡ some o → get s1.objects k ≡ some o

pub Extends-refl :
    (storage_id : ℕ) (s : VirtualDeviceState)
    → IsTable s
    → OneHandle storage_id s.objects
    → Extends storage_id s s
Extends-refl storage_id s t one = record {
  table = t;
  storages = refl;
  one_handle = one;
  objects = λ k o e. e;
}

pub Extends-trans :
    (storage_id : ℕ) (s s1 s2 : VirtualDeviceState)
    → Extends storage_id s s1
    → Extends storage_id s1 s2
    → Extends storage_id s s2
Extends-trans storage_id s s1 s2 a b = record {
  table = b.table;
  storages = b.storages ∙ a.storages;
  one_handle = b.one_handle;
  objects = λ k o e. b.objects k o (a.objects k o e);
}

pub Extends-Holds :
    (storage_id : ℕ) (s s1 : VirtualDeviceState) (rel : FilePath) (h : ℕ) (o : VirtualObject)
    → Extends storage_id s s1
    → Holds storage_id rel h s.objects o
    → Holds storage_id rel h s1.objects o
Extends-Holds storage_id s s1 rel h o x held = record {
  here = x.objects h o held.here;
  storage = held.storage;
  path = held.path;
}

-- An object of the table is not under the next handle.
pub get-lt :
    (objects : List (ℕ × VirtualObject)) (n k : ℕ) (o : VirtualObject)
    → All (λ e. (1 ≤ e.0) × (e.0 < n)) objects
    → get objects k ≡ some o
    → k < n
unfolding get
get-lt [] n k o a e = absurd cc
get-lt ((k', o') ∷ rest) n k o a e = elim (Bool-cases (k' == k)) [
  | inl same ↦ ground (arith)
  | inr other ↦ get-lt rest n k o a.1 (rw other at e)
]

get_later :
    (objects : List (ℕ × VirtualObject)) (n k : ℕ) (new o : VirtualObject)
    → k < n
    → get objects k ≡ some o
    → get ((n, new) ∷ objects) k ≡ some o
unfolding get
get_later objects n k new o lt e = let other : n == k ≡ false = ground arith in rw other e

get_now :
    (objects : List (ℕ × VirtualObject)) (n : ℕ) (new : VirtualObject)
    → get ((n, new) ∷ objects) n ≡ some new
unfolding get
get_now objects n new = let here : n == n ≡ true = ground arith in rw here refl

-- The new entry is the only one at its path.
module _ (objects : List (ℕ × VirtualObject)) (n : ℕ) (new : VirtualObject) where
  Holds-cases :
      (storage_id : ℕ) (rel : FilePath) (h : ℕ) (o : VirtualObject)
      → Holds storage_id rel h ((n, new) ∷ objects) o
      → ((n ≡ h) × (new ≡ o)) ⊎ Holds storage_id rel h objects o
  unfolding get
  Holds-cases storage_id rel h o held = elim (Bool-cases (n == h)) [
    | inl same ↦ let e : some new ≡ some o = rw same at held.here in inl (==→eq _ _ same, cc)
    | inr other ↦
        inr (record { here = rw other at held.here; storage = held.storage; path = held.path })
  ]

  OneHandle-new :
      (storage_id : ℕ)
      → OneHandle storage_id objects
      → ((h : ℕ) (o : VirtualObject) → ¬ Holds storage_id new.rel_path h objects o)
      → OneHandle storage_id ((n, new) ∷ objects)
  OneHandle-new storage_id one absent rel h h' o o' a b = elim (Holds-cases storage_id rel h o a) [
    | inl x ↦ elim (Holds-cases storage_id rel h' o' b) [
      | inl y ↦ sym x.0 ∙ y.0
      | inr y ↦ absurd (
          absent h' o' (record {
            here = y.here;
            storage = y.storage;
            path = b.path ∙ sym a.path ∙ ap (λ (z : VirtualObject). z.rel_path) (sym x.1);
          }))
    ]
    | inr x ↦ elim (Holds-cases storage_id rel h' o' b) [
      | inl y ↦ absurd (
          absent h o (record {
            here = x.here;
            storage = x.storage;
            path = a.path ∙ sym b.path ∙ ap (λ (z : VirtualObject). z.rel_path) (sym y.1);
          }))
      | inr y ↦ one rel h h' o o' x y
    ]
  ]

pub record Tracks (storage_id : ℕ) (rel : FilePath) (s : VirtualDeviceState)
    (r : ℕ × VirtualDeviceState) : Type 0 where
  pub extends : Extends storage_id s (r.1)
  pub bound : r.1.next_handle ≤ s.next_handle + 1
  pub found : (o : VirtualObject) × Holds storage_id rel (r.0) (r.1.objects) o

pub track-Tracks :
    (order : Order) (storage_id parent : ℕ) (rel : FilePath) (x : Option ℕ) (s : VirtualDeviceState)
    → Iterates order
    → IsTable s
    → OneHandle storage_id s.objects
    → s.next_handle + 1 < 2 ^ 32
    → handle_at (order s.objects) storage_id rel ≡ x
    → Tracks storage_id rel s (track storage_id parent rel x s)
unfolding track alloc_handle
track-Tracks order storage_id parent rel (some h) s it t one fits e = record {
  extends = Extends-refl storage_id s t one;
  bound = omega arith;
  found =
      handle_at-Holds s.objects storage_id rel (order s.objects) h (it.entries s.objects t.distinct)
        e;
}
track-Tracks order storage_id parent rel none s it t one fits e =
    let h = s.next_handle in
    let o : VirtualObject = record { rel_path = rel; storage_id = storage_id; parent = parent } in
    let same : remove s.objects h ≡ s.objects = remove_new s.objects h t.handed_out in
    let absent : (k : ℕ) (p : VirtualObject) → ¬ Holds storage_id rel k s.objects p = (λ k p held.
      handle_at-ne-none s.objects storage_id rel (order s.objects) k p
        (it.all s.objects k p t.distinct held.here) held.storage held.path e) in
    record {
      extends = record {
        table = insert-IsTable s o t fits;
        storages = refl;
        one_handle = rw same (OneHandle-new s.objects h o storage_id one absent);
        objects = λ k o2 found.
            rw same
              (get_later s.objects h k o o2 (get-lt s.objects h k o2 t.handed_out found) found);
      };
      bound = omega arith;
      found = (o, record { here = rw same (get_now s.objects h o); storage = refl; path = refl });
    }
