-- ===== src/VirtualDevice/Scan/Again.antt =====
-- Scanning a directory, and scanning it again.
use mtp_rs.VirtualDevice.Scan.Entries.{Option-cases, scan_entries-Extends, scan_entries_again}
use mtp_rs.Prelude.{
  ℕ, ◌+◌, ◌^◌, ◌<◌, ◌≡◌, refl, ◌∙◌, ap, true, false, List, [], ◌++◌, length, Option, none, some,
  ◌==◌, Bool-cases, inl, inr,
}
use mtp_rs.Error.{ok, err, io}
use mtp_rs.Pack.Utf16.{Str}
use mtp_rs.VirtualDevice.{
  Order, FilePath, FileSystem, VirtualObject, VirtualDeviceState, get, scan_entries, scan_at,
  scan_dir, parent_path, find_storage, Scanned, VirtualStorageState,
}
use mtp_rs.VirtualDevice.Iteration.{Iterates, OneHandle}
use mtp_rs.VirtualDevice.Table.{IsTable}
use mtp_rs.VirtualDevice.Scan.{Extends, Extends-refl}

-- No directory has so many entries that the handles run out.
abbrev pub FitsIn : FileSystem → VirtualDeviceState → Type 0
FitsIn fs s =
    (dir : FilePath) (entries : List (Option Str))
    → fs.read_dir dir ≡ some entries
    → s.next_handle + length entries < 2 ^ 32

scan_at_entries :
    (order : Order) (fs : FileSystem) (storage_id parent : ℕ) (storage : VirtualStorageState)
    (base : FilePath) (s : VirtualDeviceState) (entries : List (Option Str))
    → fs.is_dir (storage.backing_dir ++ base) ≡ true
    → fs.read_dir (storage.backing_dir ++ base) ≡ some entries
    → scan_at order fs storage_id parent storage (some base) s
      ≡ scan_entries order storage_id parent entries s
unfolding scan_at
scan_at_entries order fs storage_id parent storage base s entries d e = rw (d, e, scan_at) refl

scan_at_missing :
    (order : Order) (fs : FileSystem) (storage_id parent : ℕ) (storage : VirtualStorageState)
    (base : FilePath) (s : VirtualDeviceState)
    → fs.is_dir (storage.backing_dir ++ base) ≡ false
    → scan_at order fs storage_id parent storage (some base) s ≡ (ok [], s)
unfolding scan_at
scan_at_missing order fs storage_id parent storage base s d = rw (d, scan_at) refl

scan_at_unread :
    (order : Order) (fs : FileSystem) (storage_id parent : ℕ) (storage : VirtualStorageState)
    (base : FilePath) (s : VirtualDeviceState)
    → fs.is_dir (storage.backing_dir ++ base) ≡ true
    → fs.read_dir (storage.backing_dir ++ base) ≡ none
    → scan_at order fs storage_id parent storage (some base) s ≡ (err io, s)
unfolding scan_at
scan_at_unread order fs storage_id parent storage base s d e = rw (d, e, scan_at) refl

record Again (storage_id : ℕ) (hs : List ℕ) (s : VirtualDeviceState)
    (scan scan2 : VirtualDeviceState → Scanned) : Type 0 where
  extends : Extends storage_id s ((scan s).1)
  again : scan2 ((scan s).1) ≡ (ok hs, (scan s).1)

scan_at-Again :
    (order order2 : Order) (fs : FileSystem) (storage_id parent : ℕ) (storage : VirtualStorageState)
    (base : FilePath) (s : VirtualDeviceState) (hs : List ℕ)
    → Iterates order
    → Iterates order2
    → IsTable s
    → OneHandle storage_id s.objects
    → FitsIn fs s
    → (scan_at order fs storage_id parent storage (some base) s).0 ≡ ok hs
    → Again storage_id hs s
        (scan_at order fs storage_id parent storage (some base))
        (scan_at order2 fs storage_id parent storage (some base))
scan_at-Again order order2 fs storage_id parent storage base s hs it it2 t one fits e =
    let dir = storage.backing_dir ++ base in
    elim (Bool-cases (fs.is_dir dir)) [
      | inr missing ↦
          let same = scan_at_missing order fs storage_id parent storage base s missing in
          let same2 = scan_at_missing order2 fs storage_id parent storage base s missing in
          record {
            extends = rw same (Extends-refl storage_id s t one);
            again = rw (same, same2) (let e1 = rw same at e in cc);
          }
      | inl there ↦ elim (Option-cases (fs.read_dir dir)) [
        | inl unread ↦ absurd (
            let e1 =
              rw (scan_at_unread order fs storage_id parent storage base s there unread) at e in
            cc)
        | inr (entries, read) ↦
            let step = λ (s2 : VirtualDeviceState).
              scan_at_entries order fs storage_id parent storage base s2 entries there read in
            let step2 = λ (s2 : VirtualDeviceState).
              scan_at_entries order2 fs storage_id parent storage base s2 entries there read in
            let s2 = (scan_entries order storage_id parent entries s).1 in
            let x =
              scan_entries-Extends order storage_id parent entries s it t one
                (fits dir entries read) in
            let again =
              scan_entries_again order order2 storage_id parent entries s s2 hs it it2 t one
                (fits dir entries read) (rw (step s) at e)
                (Extends-refl storage_id s2 x.table x.one_handle) in
            record { extends = rw (step s) x; again = rw (step s, step2 s2) again }
      ]
    ]

parent_path-Extends :
    (storage_id parent : ℕ) (s s1 : VirtualDeviceState) (base : FilePath)
    → Extends storage_id s s1
    → parent_path s.objects storage_id parent ≡ some base
    → parent_path s1.objects storage_id parent ≡ some base
unfolding parent_path
parent_path-Extends storage_id parent s s1 base x e = elim (Option-cases (get s.objects parent)) [
  | inl missing ↦ elim (Bool-cases (parent == 0)) [
    | inl root ↦ rw root (rw root at e)
    | inr other ↦ absurd (let e1 = rw (other, missing) at e in cc)
  ]
  | inr (o, found) ↦ rw (x.objects parent o found) (rw found at e)
]

scan_dir_at :
    (order : Order) (fs : FileSystem) (storage_id parent : ℕ) (s : VirtualDeviceState)
    (storage : VirtualStorageState) (x : Option FilePath)
    → find_storage s.storages storage_id ≡ some storage
    → parent_path s.objects storage_id parent ≡ x
    → scan_dir order fs storage_id parent s ≡ scan_at order fs storage_id parent storage x s
unfolding scan_dir
scan_dir_at order fs storage_id parent s storage x f e = rw (f, scan_dir, e) refl

scan_dir_storage :
    (order : Order) (fs : FileSystem) (storage_id parent : ℕ) (s : VirtualDeviceState)
    → find_storage s.storages storage_id ≡ none
    → scan_dir order fs storage_id parent s ≡ (err io, s)
unfolding scan_dir
scan_dir_storage order fs storage_id parent s f = rw (f, scan_dir) refl

scan_dir-Again :
    (order order2 : Order) (fs : FileSystem) (storage_id parent : ℕ) (s : VirtualDeviceState)
    (hs : List ℕ)
    → Iterates order
    → Iterates order2
    → IsTable s
    → OneHandle storage_id s.objects
    → FitsIn fs s
    → (scan_dir order fs storage_id parent s).0 ≡ ok hs
    → Again storage_id hs s
        (scan_dir order fs storage_id parent)
        (scan_dir order2 fs storage_id parent)
scan_dir-Again order order2 fs storage_id parent s hs it it2 t one fits e =
    elim (Option-cases (find_storage s.storages storage_id)) [
      | inl no_storage ↦
          absurd (let e1 = rw (scan_dir_storage order fs storage_id parent s no_storage) at e in cc)
      | inr (storage, f) ↦ elim (Option-cases (parent_path s.objects storage_id parent)) [
        | inl no_parent ↦
            let same : scan_dir order fs storage_id parent s ≡ (ok [], s) =
              scan_dir_at order fs storage_id parent s storage none f no_parent
              ∙ (unfold scan_at in refl) in
            let same2 : scan_dir order2 fs storage_id parent s ≡ (ok [], s) =
              scan_dir_at order2 fs storage_id parent s storage none f no_parent
              ∙ (unfold scan_at in refl) in
            record {
              extends = rw same (Extends-refl storage_id s t one);
              again = rw (same, same2) (let e1 = rw same at e in cc);
            }
        | inr (base, b) ↦
            let step = scan_dir_at order fs storage_id parent s storage (some base) f b in
            let s2 = (scan_at order fs storage_id parent storage (some base) s).1 in
            let a =
              scan_at-Again order order2 fs storage_id parent storage base s hs it it2 t one fits
                (rw step at e) in
            let x = a.extends in
            let step2 =
              scan_dir_at order2 fs storage_id parent s2 storage (some base) (rw x.storages f)
                (parent_path-Extends storage_id parent s s2 base x b) in
            record { extends = rw step x; again = rw (step, step2) a.again }
      ]
    ]

-- Let the table be well-formed, let no path of the storage have two handles, and let the handles that
-- are left be more than the entries of any directory. When a scan of a directory succeeds, the table
-- is well-formed after it, no path of the storage has two handles, every object is still under its
-- handle, and a second scan over the same file system returns the same handles and changes nothing.
-- This holds for any order in which the map visits its entries in the first scan, and any other in
-- the second.
pub scan_dir_again :
    (order order2 : Order) (fs : FileSystem) (storage_id parent : ℕ) (s s1 : VirtualDeviceState)
    (hs : List ℕ)
    → Iterates order
    → Iterates order2
    → IsTable s
    → OneHandle storage_id s.objects
    → FitsIn fs s
    → scan_dir order fs storage_id parent s ≡ (ok hs, s1)
    → IsTable s1
      × OneHandle storage_id s1.objects
      × ((k : ℕ) (o : VirtualObject) → get s.objects k ≡ some o → get s1.objects k ≡ some o)
      × (scan_dir order2 fs storage_id parent s1 ≡ (ok hs, s1))
scan_dir_again order order2 fs storage_id parent s s1 hs it it2 t one fits e =
    let a =
      scan_dir-Again order order2 fs storage_id parent s hs it it2 t one fits
        (ap (λ (r : Scanned). r.0) e) in
    let same = ap (λ (r : Scanned). r.1) e in
    let x : Extends storage_id s s1 = rw same at a.extends in
    (x.table, x.one_handle, x.objects, rw same at a.again)
