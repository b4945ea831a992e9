-- ===== src/VirtualDevice/Tests/Orders.antt =====
-- Two orders in which a map can visit its entries.
use mtp_rs.Prelude.{ℕ, ◌≡◌, refl, true, false, List, [], ◌∷◌, some, arith}
use mtp_rs.VirtualDevice.{Order, VirtualObject, get}
use mtp_rs.VirtualDevice.Table.{Distinct}
use mtp_rs.VirtualDevice.Iteration.{Iterates, Visited}
use mtp_rs.Prelude.{All, All-append, ◌≢◌, ◌==◌, ==→eq, ◌++◌, ◌⊎◌, inl, inr, Bool-cases}

-- A map that visits the entry that was inserted last first, and one that visits it last.
unfoldable pub stored : Order
stored objects = objects

unfoldable pub reversed : Order
reversed [] = []
reversed (e ∷ rest) = reversed rest ++ (e ∷ [])

module _ (k : ℕ) (o : VirtualObject) (rest : List (ℕ × VirtualObject)) where
  entries_behind :
      (visited : List (ℕ × VirtualObject))
      → All (λ e. e.0 ≢ k) visited
      → All (λ e. get rest e.0 ≡ some e.1) visited
      → All (λ e. get ((k, o) ∷ rest) e.0 ≡ some e.1) visited
  unfolding get
  entries_behind [] a b = tt
  entries_behind ((k', o') ∷ more) a b =
      let other : k == k' ≡ false = (let apart = a.0 in ground arith) in
      (rw other b.0, entries_behind more a.1 b.1)

  entry_in_front : get ((k, o) ∷ rest) k ≡ some o
  unfolding get
  entry_in_front = let here : k == k ≡ true = ground arith in rw here refl

  pub Visited-cases :
      (h : ℕ) (o' : VirtualObject)
      → get ((k, o) ∷ rest) h ≡ some o'
      → ((k ≡ h) × (o ≡ o')) ⊎ (get rest h ≡ some o')
  unfolding get
  Visited-cases h o' e = elim (Bool-cases (k == h)) [
    | inl same ↦ (let e1 : some o ≡ some o' = rw same at e in inl (==→eq _ _ same, cc))
    | inr other ↦ inr (rw other at e)
  ]

reversed-All :
    (P : ℕ × VirtualObject → Type 0) (objects : List (ℕ × VirtualObject))
    → All P objects
    → All P (reversed objects)
unfolding reversed
reversed-All P [] a = tt
reversed-All P (e ∷ rest) a =
    All-append P (reversed rest) (e ∷ []) (reversed-All P rest a.1) (a.0, tt)

Visited-front :
    (k : ℕ) (o : VirtualObject) (xs ys : List (ℕ × VirtualObject))
    → Visited k o xs
    → Visited k o (xs ++ ys)
Visited-front k o [] ys v = elim v [ ]
Visited-front k o ((k', o') ∷ xs) ys (inl same) = inl same
Visited-front k o ((k', o') ∷ xs) ys (inr later) = inr (Visited-front k o xs ys later)

Visited-back :
    (k : ℕ) (o : VirtualObject) (xs : List (ℕ × VirtualObject)) (k' : ℕ) (o' : VirtualObject)
    → (k' ≡ k) × (o' ≡ o)
    → Visited k o (xs ++ ((k', o') ∷ []))
Visited-back k o [] k' o' same = inl same
Visited-back k o ((j, p) ∷ xs) k' o' same = inr (Visited-back k o xs k' o' same)

stored-entries :
    (objects : List (ℕ × VirtualObject))
    → Distinct objects
    → All (λ e. get objects e.0 ≡ some e.1) objects
stored-entries [] d = tt
stored-entries ((k, o) ∷ rest) d =
    (entry_in_front k o rest, entries_behind k o rest rest d.0 (stored-entries rest d.1))

pub get_empty : (k : ℕ) (o : VirtualObject) → ¬ (get [] k ≡ some o)
unfolding get
get_empty k o e = absurd cc

stored-Visited :
    (objects : List (ℕ × VirtualObject)) (k : ℕ) (o : VirtualObject)
    → get objects k ≡ some o
    → Visited k o objects
stored-Visited [] k o e = absurd (get_empty k o e)
stored-Visited ((k', o') ∷ rest) k o e = elim (Visited-cases k' o' rest k o e) [
  | inl same ↦ inl same
  | inr later ↦ inr (stored-Visited rest k o later)
]

reversed-Visited :
    (objects : List (ℕ × VirtualObject)) (k : ℕ) (o : VirtualObject)
    → get objects k ≡ some o
    → Visited k o (reversed objects)
unfolding reversed get
reversed-Visited [] k o e = absurd cc
reversed-Visited ((k', o') ∷ rest) k o e = elim (Visited-cases k' o' rest k o e) [
  | inl same ↦ Visited-back k o (reversed rest) k' o' same
  | inr later ↦ Visited-front k o (reversed rest) ((k', o') ∷ []) (reversed-Visited rest k o later)
]

pub stored-Iterates : Iterates stored
unfolding stored
stored-Iterates = record {
  entries = stored-entries;
  all = λ objects k o d e. stored-Visited objects k o e;
}

pub reversed-Iterates : Iterates reversed
reversed-Iterates = record {
  entries = λ objects d.
      reversed-All (λ e. get objects e.0 ≡ some e.1) objects (stored-entries objects d);
  all = λ objects k o d e. reversed-Visited objects k o e;
}
