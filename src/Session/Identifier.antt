-- ===== src/Session/Identifier.antt =====
-- The transaction IDs that a session hands out, and which late replies it recognizes.
use mtp_rs.Prelude.{ℕ, zero, suc, ◌+◌, ◌-◌, ◌%◌, ◌≤◌, ◌<◌, ◌≡◌, ◌≢◌, ◌∙◌, true, false, arith}
use mtp_rs.Session.{next, is_stale_reply}

-- The IDs of a session: neither 0 nor 0xFFFFFFFF.
abbrev pub IsId : ℕ → Type 0
IsId id = (1 ≤ id) × (id ≤ 0xFFFFFFFE)

-- The ID of the k-th operation after the one with ID `id`.
unfoldable pub iterate_next : ℕ → ℕ → ℕ
iterate_next zero id = id
iterate_next (suc k) id = next (iterate_next k id)

next-closed : (id : ℕ) → IsId id → next id ≡ 1 + id % 0xFFFFFFFE
unfolding next
next-closed id h = ground arith

iterate_next-closed : (k id : ℕ) → IsId id → iterate_next k id ≡ 1 + (id - 1 + k) % 0xFFFFFFFE
unfolding iterate_next
iterate_next-closed zero id h = omega arith
iterate_next-closed (suc k) id h =
    let ih = iterate_next-closed k id h in
    let e = next-closed (iterate_next k id) (omega arith, omega arith) in e ∙ (rw ih (omega arith))

-- The counter never leaves the valid IDs, and hands out each of the 2^32 - 2 before it repeats one.
pub iterate_next-fresh :
    (k id : ℕ)
    → IsId id
    → IsId (iterate_next k id) × (0 < k → k < 0xFFFFFFFE → iterate_next k id ≢ id)
iterate_next-fresh k id h =
    let e = iterate_next-closed k id h in ((omega arith, omega arith), λ lo hi same. (omega arith))

-- A reply to any of the 2^31 - 3 operations before the one that waits is recognized as late, also
-- across the wrap-around of the counter, and a reply to one of as many later operations is not.
pub is_stale_reply-iterate_next :
    (k id : ℕ)
    → IsId id
    → 0 < k
    → k < 0x7FFFFFFE
    → (is_stale_reply id (iterate_next k id) ≡ true)
      × (is_stale_reply (iterate_next k id) id ≡ false)
unfolding is_stale_reply
is_stale_reply-iterate_next k id h lo hi =
    let e = iterate_next-closed k id h in (ground arith, ground arith)
