-- ===== src/VirtualDevice/Table.antt =====
-- The object table: its handles are distinct and were all handed out.
use mtp_rs.Prelude.{
  ℕ, ◌+◌, ◌%◌, ◌^◌, ◌≤◌, ◌<◌, ◌≡◌, refl, ap, ◌≢◌, true, false, List, [], ◌∷◌, All, ◌==◌, arith,
}
use mtp_rs.Pack.Utf16.{Str}
use mtp_rs.VirtualDevice.{
  FilePath, same_text, same_path, VirtualObject, VirtualDeviceState, remove, insert,
}

abbrev pub Distinct : List (ℕ × VirtualObject) → Type 0
Distinct [] = Unit
Distinct ((k, o) ∷ rest) = All (λ e. e.0 ≢ k) rest × Distinct rest

pub record IsTable (s : VirtualDeviceState) : Type 0 where
  pub handed_out : All (λ e. (1 ≤ e.0) × (e.0 < s.next_handle)) s.objects
  pub distinct : Distinct s.objects
  pub next-ne-zero : 1 ≤ s.next_handle

same_text→eq : (s t : Str) → same_text s t ≡ true → s ≡ t
same_text→eq [] [] e = refl
same_text→eq [] (b ∷ t) e = absurd cc
same_text→eq (a ∷ s) [] e = absurd cc
same_text→eq (a ∷ s) (b ∷ t) e = ground (arith, same_text→eq s t)

pub same_path→eq : (s t : FilePath) → same_path s t ≡ true → s ≡ t
same_path→eq [] [] e = refl
same_path→eq [] (b ∷ t) e = absurd cc
same_path→eq (a ∷ s) [] e = absurd cc
same_path→eq (a ∷ s) (b ∷ t) e = ground (arith, same_text→eq a b, same_path→eq s t)

same_text_refl : (s : Str) → same_text s s ≡ true
same_text_refl [] = refl
same_text_refl (a ∷ s) = ground (arith, same_text_refl s)

pub same_path_refl : (s : FilePath) → same_path s s ≡ true
same_path_refl [] = refl
same_path_refl (a ∷ s) = ground (arith, same_text_refl a, same_path_refl s)

-- A new handle removes nothing.
pub remove_new :
    (objects : List (ℕ × VirtualObject)) (h : ℕ)
    → All (λ e. (1 ≤ e.0) × (e.0 < h)) objects
    → remove objects h ≡ objects
unfolding remove
remove_new [] h a = refl
remove_new ((k, o) ∷ rest) h a =
    let other : k == h ≡ false = ground arith in
    rw other (ap (λ (r : List (ℕ × VirtualObject)). (k, o) ∷ r) (remove_new rest h a.1))

pub raise :
    (objects : List (ℕ × VirtualObject)) (h : ℕ)
    → All (λ e. (1 ≤ e.0) × (e.0 < h)) objects
    → All (λ e. (1 ≤ e.0) × (e.0 < h + 1)) objects × All (λ e. e.0 ≢ h) objects
raise [] h a = (tt, tt)
raise ((k, o) ∷ rest) h a = let (b, c) = raise rest h a.1 in ((omega arith, b), (omega arith, c))

-- A new object under a new handle.
pub insert-IsTable :
    (s : VirtualDeviceState) (o : VirtualObject)
    → IsTable s
    → s.next_handle + 1 < 2 ^ 32
    → IsTable (record s {
      next_handle = (s.next_handle + 1) % 2 ^ 32;
      objects = insert s.objects s.next_handle o;
    })
insert-IsTable s o t fits =
    let h = s.next_handle in
    let same = remove_new s.objects h t.handed_out in
    let more : (h + 1) % 2 ^ 32 ≡ h + 1 = omega arith in
    let (below, new) = raise s.objects h t.handed_out in
    rw (same, more)
      (record {
        handed_out = ((t.next-ne-zero, omega arith), below);
        distinct = (new, t.distinct);
        next-ne-zero = omega arith;
      })
