-- ===== src/VirtualDevice.antt =====
-- The object table of crates/mtp-rs/src/transport/virtual_device/state.rs over any file system.
pub mod Builders
pub mod Table
pub mod Scan
pub mod Iteration
mod Lookup
pub mod Rekey
mod Tests
use mtp_rs.Prelude.{
  ℕ, suc, ◌+◌, ◌%◌, ◌^◌, Bool, true, false, not, ◌&&◌, ◌||◌, List, [], ◌∷◌, ◌++◌, Option, none,
  some, map, ◌==◌, if◌then◌else◌,
}
use mtp_rs.Error.{Result, ok, err, panic, io}
use mtp_rs.Pack.Utf16.{Str}

-- A path by its components.
abbrev pub FilePath : Type 0
FilePath = List Str

-- What the device asks the file system, which does not change during an operation: an entry of a directory can fail on its own.
pub record FileSystem : Type 0 where
  pub is_dir : FilePath → Bool
  pub read_dir : FilePath → Option (List (Option Str))

abbrev pub same_text : Str → Str → Bool
same_text [] [] = true
same_text (a ∷ s) (b ∷ t) = a == b && same_text s t
same_text _ _ = false

abbrev pub same_path : FilePath → FilePath → Bool
same_path [] [] = true
same_path (a ∷ s) (b ∷ t) = same_text a b && same_path s t
same_path _ _ = false

-- `backing_dir` stands in the storage's configuration.
pub record VirtualStorageState : Type 0 where
  pub backing_dir : FilePath
  pub storage_id : ℕ

pub record VirtualObject : Type 0 where
  pub rel_path : FilePath
  pub storage_id : ℕ
  pub parent : ℕ

-- The part of the state that handles are looked up in. `objects` holds the entries of the map, in no
-- order that a search may use: what `HashMap::iter` visits is the parameter `order`.
pub record VirtualDeviceState : Type 0 where
  pub next_handle : ℕ
  pub objects : List (ℕ × VirtualObject)
  pub storages : List VirtualStorageState

-- The order in which the map visits its entries. One operation only adds entries or searches once,
-- so that a function of the entries can stand for any order that it meets.
abbrev pub Order : Type 0
Order = List (ℕ × VirtualObject) → List (ℕ × VirtualObject)

-- `alloc_handle`; the handle wraps, as it does without overflow checks.
unfoldable pub alloc_handle : VirtualDeviceState → ℕ × VirtualDeviceState
alloc_handle s = (s.next_handle, record s { next_handle = (s.next_handle + 1) % 2 ^ 32 })

-- `objects.get`, `objects.remove` and `objects.insert`; where `insert` puts the entry matters to no
-- search, since each goes through `order`.
unfoldable pub get : List (ℕ × VirtualObject) → ℕ → Option VirtualObject
get [] h = none
get ((k, o) ∷ rest) h = if k == h then some o else get rest h

unfoldable pub remove : List (ℕ × VirtualObject) → ℕ → List (ℕ × VirtualObject)
remove [] h = []
remove ((k, o) ∷ rest) h = let others = remove rest h in if k == h then others else (k, o) ∷ others

abbrev pub insert : List (ℕ × VirtualObject) → ℕ → VirtualObject → List (ℕ × VirtualObject)
insert objects h o = (h, o) ∷ remove objects h

-- `find_storage`
unfoldable pub find_storage : List VirtualStorageState → ℕ → Option VirtualStorageState
find_storage [] id = none
find_storage (s ∷ rest) id = if s.storage_id == id then some s else find_storage rest id

-- The handle that a path of a storage has.
unfoldable pub handle_at : List (ℕ × VirtualObject) → (storage_id : ℕ) → FilePath → Option ℕ
handle_at [] storage_id rel = none
handle_at ((k, o) ∷ rest) storage_id rel =
    if o.storage_id == storage_id && same_path o.rel_path rel
    then some k
    else handle_at rest storage_id rel

-- The handle that the path of an entry has, or a new one.
unfoldable pub track :
    (storage_id parent : ℕ) → FilePath → Option ℕ → VirtualDeviceState → ℕ × VirtualDeviceState
track storage_id parent rel (some h) s = (h, s)
track storage_id parent rel none s =
    let (h, s1) = alloc_handle s in
    (
      h,
      record s1 {
        objects =
            insert s1.objects h
              (record { rel_path = rel; storage_id = storage_id; parent = parent });
      },
    )

abbrev pub Scanned : Type 0
Scanned = Result (List ℕ) × VirtualDeviceState

abbrev pub push : ℕ → Scanned → Scanned
push h (ok hs, s) = (ok (h ∷ hs), s)
push h r = r

-- The path that the loop reads again for each entry: a missing parent is an `unwrap` of nothing.
unfoldable pub entry_base : List (ℕ × VirtualObject) → (parent : ℕ) → Option FilePath
entry_base objects parent =
    if parent == 0
    then some []
    else elim (get objects parent) [ none ↦ none | some o ↦ some o.rel_path ]

unfoldable pub track_entry :
    Order → (storage_id parent : ℕ) → (rel : FilePath) → VirtualDeviceState → ℕ × VirtualDeviceState
track_entry order storage_id parent rel s =
    track storage_id parent rel (handle_at (order s.objects) storage_id rel) s

-- The loop of `scan_dir` over the entries of a directory.
unfoldable pub scan_entries :
    Order → (storage_id parent : ℕ) → List (Option Str) → VirtualDeviceState → Scanned
scan_entries order storage_id parent [] s = (ok [], s)
scan_entries order storage_id parent (none ∷ entries) s = (err io, s)
scan_entries order storage_id parent (some name ∷ entries) s = elim (entry_base s.objects parent) [
  | none ↦ (panic, s)
  | some base ↦
      let (h, s1) = track_entry order storage_id parent (base ++ (name ∷ [])) s in
      push h (scan_entries order storage_id parent entries s1)
]

-- The path of the parent below its storage: the root's is empty.
unfoldable pub parent_path : List (ℕ × VirtualObject) → (storage_id parent : ℕ) → Option FilePath
parent_path objects storage_id parent = if parent == 0 then some [] else elim (get objects parent) [
  | none ↦ none
  | some o ↦ if o.storage_id == storage_id then some o.rel_path else none
]

unfoldable pub scan_at :
    Order
    → FileSystem
    → (storage_id parent : ℕ) → VirtualStorageState
    → Option FilePath
    → VirtualDeviceState
    → Scanned
scan_at order fs storage_id parent storage none s = (ok [], s)
scan_at order fs storage_id parent storage (some base) s =
    let dir_path = storage.backing_dir ++ base in
    if not (fs.is_dir dir_path) then (ok [], s) else elim (fs.read_dir dir_path) [
      | none ↦ (err io, s)
      | some entries ↦ scan_entries order storage_id parent entries s
    ]

-- `scan_dir`; `err io` stands for `std::io::Error`.
unfoldable pub scan_dir :
    Order → FileSystem → (storage_id parent : ℕ) → VirtualDeviceState → Scanned
scan_dir order fs storage_id parent s = elim (find_storage s.storages storage_id) [
  | none ↦ (err io, s)
  | some storage ↦
      scan_at order fs storage_id parent storage (parent_path s.objects storage_id parent) s
]

-- The first object at a path, in any storage.
unfoldable pub handle_of_path : List (ℕ × VirtualObject) → FilePath → Option ℕ
handle_of_path [] rel = none
handle_of_path ((k, o) ∷ rest) rel =
    if same_path o.rel_path rel then some k else handle_of_path rest rel

unfoldable pub reparent : (old_handle new_handle : ℕ) → ℕ × VirtualObject → ℕ × VirtualObject
reparent old_handle new_handle (k, o) =
    (k, if o.parent == old_handle then record o { parent = new_handle } else o)

unfoldable pub rekey :
    (old_key new_handle : ℕ)
    → Option VirtualObject
    → VirtualDeviceState
    → Option (ℕ × ℕ) × VirtualDeviceState
rekey old_key new_handle none s = (none, s)
rekey old_key new_handle (some o) s = (
  some (old_key, new_handle),
  record s {
    objects = map (reparent old_key new_handle) (insert (remove s.objects old_key) new_handle o);
  },
)

unfoldable pub rekey_found : Option ℕ → VirtualDeviceState → Option (ℕ × ℕ) × VirtualDeviceState
rekey_found none s = (none, s)
rekey_found (some old_key) s =
    let (new_handle, s1) = alloc_handle s in rekey old_key new_handle (get s1.objects old_key) s1

-- `rekey_object`
unfoldable pub rekey_object :
    Order → FilePath → VirtualDeviceState → Option (ℕ × ℕ) × VirtualDeviceState
rekey_object order rel s = rekey_found (handle_of_path (order s.objects) rel) s
