-- ===== src/VirtualDevice/Scan/Entries.antt =====
-- The loop of `scan_dir` over the entries of a directory, run twice.
use mtp_rs.Prelude.{
  ℕ, ◌+◌, ◌^◌, ◌<◌, ◌≡◌, refl, List, [], ◌∷◌, ◌++◌, length, Option, none, some, ◌==◌, Bool-cases,
  ◌⊎◌, inl, inr, arith,
}
use mtp_rs.Error.{ok, err, panic}
use mtp_rs.Pack.Utf16.{Str}
use mtp_rs.VirtualDevice.{
  Order, FilePath, VirtualDeviceState, get, handle_at, track, track_entry, entry_base, scan_entries,
  push, Scanned,
}
use mtp_rs.VirtualDevice.Iteration.{Iterates, OneHandle, handle_at-order}
use mtp_rs.VirtualDevice.Table.{IsTable}
use mtp_rs.VirtualDevice.Scan.{
  Extends, Extends-refl, Extends-trans, Extends-Holds, Tracks, track-Tracks,
}

pub Option-cases : {A : Type 0} (x : Option A) → (x ≡ none) ⊎ ((a : A) × (x ≡ some a))
Option-cases none = inl refl
Option-cases (some a) = inr (a, refl)

track_entry-Tracks :
    (order : Order) (storage_id parent : ℕ) (rel : FilePath) (s : VirtualDeviceState)
    → Iterates order
    → IsTable s
    → OneHandle storage_id s.objects
    → s.next_handle + 1 < 2 ^ 32
    → Tracks storage_id rel s (track_entry order storage_id parent rel s)
unfolding track_entry
track_entry-Tracks order storage_id parent rel s it t one fits =
    track-Tracks order storage_id parent rel (handle_at (order s.objects) storage_id rel) s it t one
      fits refl

track_entry_again :
    (order : Order) (storage_id parent h : ℕ) (rel : FilePath) (s : VirtualDeviceState)
    → handle_at (order s.objects) storage_id rel ≡ some h
    → track_entry order storage_id parent rel s ≡ (h, s)
unfolding track_entry track
track_entry_again order storage_id parent h rel s e = rw e refl

push_state : (h : ℕ) (r : Scanned) → (push h r).1 ≡ r.1
push_state h (ok hs, s) = refl
push_state h (err e, s) = refl
push_state h (panic, s) = refl

scan_entries-none :
    (order : Order) (storage_id parent : ℕ) (name : Str) (entries : List (Option Str))
    (s : VirtualDeviceState)
    → entry_base s.objects parent ≡ none
    → scan_entries order storage_id parent (some name ∷ entries) s ≡ (panic, s)
unfolding scan_entries
scan_entries-none order storage_id parent name entries s e = rw (e, scan_entries) refl

scan_entries-some :
    (order : Order) (storage_id parent : ℕ) (name : Str) (entries : List (Option Str))
    (s : VirtualDeviceState) (base : FilePath)
    → entry_base s.objects parent ≡ some base
    → scan_entries order storage_id parent (some name ∷ entries) s ≡ (
        let r = track_entry order storage_id parent (base ++ (name ∷ [])) s in
        push (r.0) (scan_entries order storage_id parent entries (r.1)))
unfolding scan_entries
scan_entries-some order storage_id parent name entries s base e = rw (e, scan_entries) refl

pub scan_entries-Extends :
    (order : Order) (storage_id parent : ℕ) (entries : List (Option Str)) (s : VirtualDeviceState)
    → Iterates order
    → IsTable s
    → OneHandle storage_id s.objects
    → s.next_handle + length entries < 2 ^ 32
    → Extends storage_id s ((scan_entries order storage_id parent entries s).1)
unfolding scan_entries
scan_entries-Extends order storage_id parent [] s it t one fits = Extends-refl storage_id s t one
scan_entries-Extends order storage_id parent (none ∷ entries) s it t one fits =
    Extends-refl storage_id s t one
scan_entries-Extends order storage_id parent (some name ∷ entries) s it t one fits =
    elim (Option-cases (entry_base s.objects parent)) [
      | inl missing ↦
          rw (scan_entries-none order storage_id parent name entries s missing)
            (Extends-refl storage_id s t one)
      | inr (base, e) ↦
          let r = track_entry order storage_id parent (base ++ (name ∷ [])) s in
          let k =
            track_entry-Tracks order storage_id parent (base ++ (name ∷ [])) s it t one
              (omega arith) in
          let bound = k.bound in
          let rest =
            scan_entries-Extends order storage_id parent entries (r.1) it k.extends.table
              k.extends.one_handle (omega arith) in
          rw
            (
              scan_entries-some order storage_id parent name entries s base e,
              push_state (r.0) (scan_entries order storage_id parent entries (r.1)),
            )
            (Extends-trans storage_id s (r.1)
              ((scan_entries order storage_id parent entries (r.1)).1) k.extends rest)
    ]

entry_base-Extends :
    (storage_id parent : ℕ) (s s1 : VirtualDeviceState) (base : FilePath)
    → Extends storage_id s s1
    → entry_base s.objects parent ≡ some base
    → entry_base s1.objects parent ≡ some base
unfolding entry_base
entry_base-Extends storage_id parent s s1 base x e = elim (Option-cases (get s.objects parent)) [
  | inl missing ↦ elim (Bool-cases (parent == 0)) [
    | inl root ↦ rw root (rw root at e)
    | inr other ↦ absurd (let e1 = rw (other, missing) at e in cc)
  ]
  | inr (o, found) ↦ rw (x.objects parent o found) (rw found at e)
]

push_ok :
    (h : ℕ) (hs : List ℕ) (r : Scanned)
    → (push h r).0 ≡ ok hs
    → (rest : List ℕ) × (r.0 ≡ ok rest) × (hs ≡ h ∷ rest)
push_ok h hs (ok rest, s1) e = (rest, refl, cc)
push_ok h hs (err e1, s1) e = absurd cc
push_ok h hs (panic, s1) e = absurd cc

pub scan_entries_again :
    (order order2 : Order) (storage_id parent : ℕ) (entries : List (Option Str))
    (s s2 : VirtualDeviceState) (hs : List ℕ)
    → Iterates order
    → Iterates order2
    → IsTable s
    → OneHandle storage_id s.objects
    → s.next_handle + length entries < 2 ^ 32
    → (scan_entries order storage_id parent entries s).0 ≡ ok hs
    → Extends storage_id ((scan_entries order storage_id parent entries s).1) s2
    → scan_entries order2 storage_id parent entries s2 ≡ (ok hs, s2)
unfolding scan_entries
scan_entries_again order order2 storage_id parent [] s s2 hs it it2 t one fits e x = cc
scan_entries_again order order2 storage_id parent (none ∷ entries) s s2 hs it it2 t one fits e x =
    absurd cc
scan_entries_again order order2 storage_id parent (some name ∷ entries) s s2 hs it it2 t one fits e
      x =
    elim (Option-cases (entry_base s.objects parent)) [
      | inl missing ↦ absurd (
          let e1 = rw (scan_entries-none order storage_id parent name entries s missing) at e in cc)
      | inr (base, b) ↦
          let rel = base ++ (name ∷ []) in
          let r = track_entry order storage_id parent rel s in
          let tail = scan_entries order storage_id parent entries (r.1) in
          let k = track_entry-Tracks order storage_id parent rel s it t one (omega arith) in
          let bound = k.bound in
          let step = scan_entries-some order storage_id parent name entries s base b in
          let (rest, e_tail, e_hs) = push_ok (r.0) hs tail (rw step at e) in
          let x_tail : Extends storage_id (tail.1) s2 = rw (step, push_state (r.0) tail) at x in
          let kept =
            scan_entries-Extends order storage_id parent entries (r.1) it k.extends.table
              k.extends.one_handle (omega arith) in
          let later = Extends-trans storage_id (r.1) (tail.1) s2 kept x_tail in
          let all = Extends-trans storage_id s (r.1) s2 k.extends later in
          let (o, held) = k.found in
          let held2 = Extends-Holds storage_id (r.1) s2 rel (r.0) o later held in
          let found =
            handle_at-order order2 s2.objects storage_id rel (r.0) o it2 all.table.distinct
              all.one_handle held2 in
          let again =
            scan_entries_again order order2 storage_id parent entries (r.1) s2 rest it it2
              k.extends.table k.extends.one_handle (omega arith) e_tail x_tail in
          rw
            (
              scan_entries-some order2 storage_id parent name entries s2 base
                  (entry_base-Extends storage_id parent s s2 base all b),
              track_entry_again order2 storage_id parent (r.0) rel s2 found,
              again,
              e_hs,
            )
            refl
    ]
