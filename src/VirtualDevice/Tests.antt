-- ===== src/VirtualDevice/Tests.antt =====
-- Concrete runs of the object table, and its theorem at a concrete state.
mod Orders
use mtp_rs.Prelude.{ℕ, ◌≡◌, refl, true, false, List, [], ◌∷◌, length, Option, none, some, ap, arith}
use mtp_rs.Error.{ok, ◌>>=◌}
use mtp_rs.Device.{DeviceInfo, parse_device_info}
use mtp_rs.VirtualDevice.Builders.Reported.{Reports}
use mtp_rs.VirtualDevice.Builders.{VirtualDeviceConfig, build_device_info}
use mtp_rs.VirtualDevice.Builders.Strings.{is_ascii_text-IsText}
use mtp_rs.VirtualDevice.Builders.Described.{
  described, IsNamed, parse_device_info-build_device_info,
}
use mtp_rs.Pack.Utf16.{Str}
use mtp_rs.VirtualDevice.{
  Order, FileSystem, VirtualObject, VirtualDeviceState, get, scan_dir, scan_at, scan_entries,
  entry_base, track_entry, track, alloc_handle, handle_at, find_storage, parent_path, remove,
  rekey_object, rekey_found, rekey, handle_of_path, reparent,
}
use mtp_rs.VirtualDevice.Table.{IsTable, Distinct}
use mtp_rs.VirtualDevice.Iteration.{Iterates, OneHandle, Holds, Visited}
use mtp_rs.Prelude.{All, All-append, ◌≢◌, ◌==◌, ==→eq, ◌++◌, ◌⊎◌, inl, inr, Bool-cases, sym, ◌∙◌}
use mtp_rs.VirtualDevice.Rekey.{Rekeyed, rekey_object-Rekeyed}
use mtp_rs.VirtualDevice.Scan.Again.{FitsIn, scan_dir_again}
use mtp_rs.VirtualDevice.Tests.Orders.{
  stored, reversed, Visited-cases, get_empty, stored-Iterates, reversed-Iterates,
}

-- A file system whose directories all hold `a` and `b`.
abbrev two_names : List (Option Str)
two_names = some (97 ∷ []) ∷ some (98 ∷ []) ∷ []

abbrev two_files : FileSystem
two_files = record { is_dir = λ path. true; read_dir = λ path. some two_names }

-- The file `a` of the first storage has been listed before.
abbrev file_a : VirtualObject
file_a = record { rel_path = (97 ∷ []) ∷ []; storage_id = 65537; parent = 0 }

abbrev file_b : VirtualObject
file_b = record { rel_path = (98 ∷ []) ∷ []; storage_id = 65537; parent = 0 }

abbrev with_objects : ℕ → List (ℕ × VirtualObject) → VirtualDeviceState
with_objects next objects = record {
  next_handle = next;
  objects = objects;
  storages = record { backing_dir = (115 ∷ []) ∷ []; storage_id = 65537 } ∷ [];
}

abbrev listed_a : VirtualDeviceState
listed_a = with_objects 6 ((5, file_a) ∷ [])

abbrev listed_both : VirtualDeviceState
listed_both = with_objects 7 ((6, file_b) ∷ (5, file_a) ∷ [])

scan_both : scan_dir stored two_files 65537 0 listed_a ≡ (ok (5 ∷ 6 ∷ []), listed_both)
unfolding scan_dir scan_at scan_entries entry_base track_entry track alloc_handle handle_at
    find_storage parent_path remove stored
scan_both = refl

rekey_a :
    rekey_object reversed ((97 ∷ []) ∷ []) listed_a
    ≡ (some (5, 6), with_objects 7 ((6, file_a) ∷ []))
unfolding rekey_object rekey_found rekey handle_of_path reparent alloc_handle get remove reversed
rekey_a = refl

listed_a-IsTable : IsTable listed_a
listed_a-IsTable = record {
  handed_out = ((omega arith, omega arith), tt);
  distinct = (tt, tt);
  next-ne-zero = omega arith;
}

names_of : Option (List (Option Str)) → ℕ
names_of none = 0
names_of (some entries) = length entries

two_files-FitsIn : FitsIn two_files listed_a
unfolding names_of
two_files-FitsIn dir entries e = let two : 2 ≡ length entries = ap names_of e in omega arith

listed_a-OneHandle : OneHandle 65537 listed_a.objects
listed_a-OneHandle rel h h' o o' a b = elim (Visited-cases 5 file_a [] h o a.here) [
  | inl x ↦ elim (Visited-cases 5 file_a [] h' o' b.here) [
    | inl y ↦ sym x.0 ∙ y.0
    | inr y ↦ absurd (get_empty h' o' y)
  ]
  | inr x ↦ absurd (get_empty h o x)
]

-- The second scan runs with the entries the other way round.
scan_dir_again_example :
    IsTable listed_both
    × OneHandle 65537 listed_both.objects
    × ((k : ℕ) (o : VirtualObject)
        → get listed_a.objects k ≡ some o
        → get listed_both.objects k ≡ some o)
    × (scan_dir reversed two_files 65537 0 listed_both ≡ (ok (5 ∷ 6 ∷ []), listed_both))
scan_dir_again_example =
    scan_dir_again stored reversed two_files 65537 0 listed_a listed_both (5 ∷ 6 ∷ [])
      stored-Iterates reversed-Iterates listed_a-IsTable listed_a-OneHandle two_files-FitsIn
      scan_both

-- A device that serves neither partial reads nor property lists.
abbrev plain : VirtualDeviceConfig
plain = record {
  manufacturer = 65 ∷ 99 ∷ 109 ∷ 101 ∷ [];
  model = 77 ∷ 49 ∷ [];
  serial = [];
  supports_rename = true;
  supports_partial_object_64 = false;
  supports_partial_object = false;
  supports_object_prop_list = false;
}

plain-IsNamed : IsNamed plain
plain-IsNamed = record {
  manufacturer = is_ascii_text-IsText plain.manufacturer refl;
  model = is_ascii_text-IsText plain.model refl;
  serial = is_ascii_text-IsText plain.serial refl;
}

parse_device_info-build_device_info_example :
    (d : DeviceInfo) × ((build_device_info plain >>= parse_device_info) ≡ ok d) × Reports plain d
parse_device_info-build_device_info_example =
    parse_device_info-build_device_info plain plain-IsNamed

path_a : handle_of_path (reversed listed_a.objects) ((97 ∷ []) ∷ []) ≡ some 5
unfolding handle_of_path reversed
path_a = refl

-- `a` moves from the handle 5 to the handle 6.
rekey_object-Rekeyed_example :
    ((rekey_object reversed ((97 ∷ []) ∷ []) listed_a).0 ≡ some (5, 6))
    × Rekeyed 5 listed_a ((rekey_object reversed ((97 ∷ []) ∷ []) listed_a).1)
rekey_object-Rekeyed_example =
    rekey_object-Rekeyed reversed ((97 ∷ []) ∷ []) listed_a 5 reversed-Iterates listed_a-IsTable
      (omega arith) path_a
