-- ===== src/VirtualDevice/Rekey.antt =====
-- `rekey_object` gives an object a new handle.
use mtp_rs.Prelude.{
  ℕ, ◌+◌, ◌%◌, ◌^◌, ◌≤◌, ◌<◌, ◌≡◌, refl, ◌∙◌, sym, true, false, ◌∷◌, map, none, some, ◌==◌, arith,
}
use mtp_rs.VirtualDevice.{
  Order, FilePath, VirtualObject, VirtualDeviceState, alloc_handle, get, remove, insert,
  handle_of_path, reparent, rekey, rekey_found, rekey_object,
}
use mtp_rs.VirtualDevice.Table.{IsTable, raise, remove_new}
use mtp_rs.VirtualDevice.Scan.{get-lt}
use mtp_rs.VirtualDevice.Iteration.{Iterates}
use mtp_rs.VirtualDevice.Lookup.{
  moved, get-map, get-map_none, get-remove, get-remove_other, handle_of_path-get, All-remove,
  All-map, Distinct-remove, Distinct-map,
}

-- The table after the object `o` went from the handle `old` to the next one.
abbrev rekeyed : ℕ → VirtualObject → VirtualDeviceState → VirtualDeviceState
rekeyed old o s = record s {
  next_handle = (s.next_handle + 1) % 2 ^ 32;
  objects = map (reparent old s.next_handle) (insert (remove s.objects old) s.next_handle o);
}

rekey_object-rekeyed :
    (order : Order) (rel : FilePath) (s : VirtualDeviceState) (old : ℕ) (o : VirtualObject)
    → handle_of_path (order s.objects) rel ≡ some old
    → get s.objects old ≡ some o
    → rekey_object order rel s ≡ (some (old, s.next_handle), rekeyed old o s)
unfolding rekey_object rekey_found rekey alloc_handle
rekey_object-rekeyed order rel s old o e g = rw (e, g) refl

pub record Rekeyed (old : ℕ) (s s1 : VirtualDeviceState) : Type 0 where
  pub table : IsTable s1
  pub old_gone : get s1.objects old ≡ none
  pub at_new :
      (o : VirtualObject)
      → get s.objects old ≡ some o
      → get s1.objects s.next_handle ≡ some (moved old s.next_handle o)
  pub others :
      (k : ℕ) (o : VirtualObject)
      → k == old ≡ false
      → get s.objects k ≡ some o
      → get s1.objects k ≡ some (moved old s.next_handle o)

rekeyed-Rekeyed :
    (s : VirtualDeviceState) (old : ℕ) (o : VirtualObject)
    → IsTable s
    → s.next_handle + 1 < 2 ^ 32
    → get s.objects old ≡ some o
    → Rekeyed old s (rekeyed old o s)
unfolding get
rekeyed-Rekeyed s old o t fits g =
    let new = s.next_handle in
    let kept = remove s.objects old in
    let below = All-remove (λ k. (1 ≤ k) × (k < new)) s.objects old t.handed_out in
    let same = remove_new kept new below in
    let (in_range, fresh) = raise kept new below in
    let table = (new, o) ∷ kept in
    let more : (new + 1) % 2 ^ 32 ≡ new + 1 = omega arith in
    let lt = get-lt s.objects new old o t.handed_out g in
    let gone : get table old ≡ none =
      (let other : new == old ≡ false = ground arith in rw other (get-remove s.objects old)) in
    rw (same, more)
      (record {
        table = record {
          handed_out =
              All-map (λ k. (1 ≤ k) × (k < new + 1)) old new table
                ((t.next-ne-zero, omega arith), in_range);
          distinct = Distinct-map old new table (fresh, Distinct-remove s.objects old t.distinct);
          next-ne-zero = omega arith;
        };
        old_gone = get-map_none old new old table gone;
        at_new = λ o2 g2.
            get-map old new new o2 table
              (let here : new == new ≡ true = ground arith in rw here (sym g ∙ g2));
        others = λ k o2 d g2.
            let below_k = get-lt s.objects new k o2 t.handed_out g2 in
            get-map old new k o2 table (
              let other : new == k ≡ false = ground arith in
              rw other (get-remove_other s.objects old k o2 d g2));
      })

-- Let the table be well-formed, with a handle left, and let the path be found under a handle, in
-- whatever order the map visits its entries. Then re-keying succeeds with that handle and the next
-- one. The table is well-formed after it, nothing is under the old handle, its object is under the
-- new one, and every other object is under its handle; among all of these, an object changes only
-- its parent, from the old handle to the new.
pub rekey_object-Rekeyed :
    (order : Order) (rel : FilePath) (s : VirtualDeviceState) (old : ℕ)
    → Iterates order
    → IsTable s
    → s.next_handle + 1 < 2 ^ 32
    → handle_of_path (order s.objects) rel ≡ some old
    → ((rekey_object order rel s).0 ≡ some (old, s.next_handle))
      × Rekeyed old s ((rekey_object order rel s).1)
rekey_object-Rekeyed order rel s old it t fits e =
    let (o, g) =
      handle_of_path-get s.objects (order s.objects) rel old (it.entries s.objects t.distinct) e in
    rw (rekey_object-rekeyed order rel s old o e g) (refl, rekeyed-Rekeyed s old o t fits g)
