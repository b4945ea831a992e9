-- ===== src/Session/Operations/FullInfo.antt =====
-- `get_object_info_full` of crates/mtp-rs/src/ptp/session/operations.rs.
use mtp_rs.Prelude.{
  ℕ, ◌≡◌, inl, inr, ◌==◌, Bool-cases, ◌≢◌, ◌≤◌, ◌<◌, ltb, length, take, refl, arith, if◌then◌else◌,
  ==→eq,
}
use mtp_rs.Codes.ObjectProperty.{ObjectPropertyCode}
use mtp_rs.Error.{PtpError, Result, ok, err, panic}
use mtp_rs.Pack.Slice.{Bytes}
use mtp_rs.Pack.Word.{unpack_u64, unpack_word, from_le}
use mtp_rs.Object.{ObjectInfo, u32_max}
use mtp_rs.Session.{Session}
use mtp_rs.Session.Stream.Chunks.{if_true, if_false}
use mtp_rs.Session.Io.{Transport, Exit, done, failed, panicked, dropped, running, Io, ◌>>=◌}
use mtp_rs.Session.Operations.{get_object_info, get_object_prop_value}

-- `if let Ok(real_size) = unpack_u64(&bytes)`
abbrev pub with_size : ObjectInfo → Result ℕ → Exit ObjectInfo
with_size info (ok size) = done (record info { size = size })
with_size info (err e) = done info
with_size info panic = panicked

-- The answer to the second question: every error of it leaves the saturated size.
unfoldable pub resolved :
    {S : Type 0} → ObjectInfo → Exit Bytes × Session S → Exit ObjectInfo × Session S
resolved info (done bytes, s) = (with_size info (unpack_u64 bytes), s)
resolved info (failed e, s) = (done info, s)
resolved info (panicked, s) = (panicked, s)
resolved info (dropped, s) = (dropped, s)
resolved info (running, s) = (running, s)

unfoldable pub resolve_size :
    {S : Type 0} → (fuel : ℕ) → Transport S → ℕ → ObjectInfo → Io (Session S) ObjectInfo
resolve_size fuel t handle info s =
    if info.size == u32_max
    then resolved info (get_object_prop_value t fuel handle ObjectPropertyCode.object_size s)
    else (done info, s)

-- The size of an object over 4 GiB takes a question of its own.
unfoldable pub get_object_info_full :
    {S : Type 0} → (fuel : ℕ) → Transport S → ℕ → Io (Session S) ObjectInfo
get_object_info_full fuel t handle = get_object_info t fuel handle >>= resolve_size fuel t handle

-- What the fallback to the question for the size returns, for an object of which `info` is known and
-- the outcome `second` of that question.
pub data Resolves {S : Type 0} (info : ObjectInfo) (s : Session S) (second : Exit Bytes × Session S)
    (r : Exit ObjectInfo × Session S) : Type 0 where
  exact : info.size ≢ u32_max → r ≡ (done info, s) → Resolves info s second r
  larger :
      (bytes : Bytes)
      → info.size ≡ u32_max
      → second.0 ≡ done bytes
      → 8 ≤ length bytes
      → r ≡ (done (record info { size = from_le (take 8 bytes) }), second.1)
      → Resolves info s second r
  unreadable :
      (bytes : Bytes)
      → info.size ≡ u32_max
      → second.0 ≡ done bytes
      → length bytes < 8
      → r ≡ (done info, second.1)
      → Resolves info s second r
  unsupported :
      (e : PtpError)
      → info.size ≡ u32_max
      → second.0 ≡ failed e
      → r ≡ (done info, second.1)
      → Resolves info s second r
  drops :
      info.size ≡ u32_max → second.0 ≡ dropped → r ≡ (dropped, second.1) → Resolves info s second r
  panics :
      info.size ≡ u32_max
      → second.0 ≡ panicked
      → r ≡ (panicked, second.1)
      → Resolves info s second r
  runs_on :
      info.size ≡ u32_max → second.0 ≡ running → r ≡ (running, second.1) → Resolves info s second r

answered-Resolves :
    {S : Type 0} (info : ObjectInfo) (s : Session S) (bytes : Bytes) (s2 : Session S)
    → info.size ≡ u32_max
    → Resolves info s (done bytes, s2) (with_size info (unpack_u64 bytes), s2)
unfolding unpack_word
answered-Resolves info s bytes s2 e = elim (Bool-cases (ltb (length bytes) 8)) [
  | inl short ↦ unreadable bytes e refl (ground arith) (rw short refl)
  | inr long ↦ larger bytes e refl (ground arith) (rw long refl)
]

resolved-Resolves :
    {S : Type 0} (info : ObjectInfo) (s : Session S) (second : Exit Bytes × Session S)
    → info.size ≡ u32_max
    → Resolves info s second (resolved info second)
unfolding resolved
resolved-Resolves info s (done bytes, s2) e = answered-Resolves info s bytes s2 e
resolved-Resolves info s (failed x, s2) e = unsupported x e refl refl
resolved-Resolves info s (panicked, s2) e = panics e refl refl
resolved-Resolves info s (dropped, s2) e = drops e refl refl
resolved-Resolves info s (running, s2) e = runs_on e refl refl

resolve_size-Resolves :
    {S : Type 0} (fuel : ℕ) (t : Transport S) (handle : ℕ) (info : ObjectInfo) (s : Session S)
    → Resolves info s
        (get_object_prop_value t fuel handle ObjectPropertyCode.object_size s)
        (resolve_size fuel t handle info s)
unfolding resolve_size
resolve_size-Resolves fuel t handle info s = elim (Bool-cases (info.size == u32_max)) [
  | inl saturated ↦ rw (if_true _ _ saturated) (
      resolved-Resolves info s
        (get_object_prop_value t fuel handle ObjectPropertyCode.object_size s)
        (==→eq _ _ saturated))
  | inr small ↦ exact (λ e. ground (arith, e)) (if_false _ _ small)
]

-- Whatever the transport answers: once `get_object_info` returned `info`, `get_object_info_full`
-- does not fail. It returns `info` with nothing more sent when the size of `info` is not the largest
-- that 32 bits hold. Otherwise it depends on what `get_object_prop_value` brings for `ObjectSize`:
-- the first 8 bytes of the answer become the size, little-endian; after fewer bytes, or after any
-- error, `info` is returned as it was. Only when that question is dropped, panics or runs out of
-- fuel does `get_object_info_full` end so.
pub get_object_info_full-Resolves :
    {S : Type 0} (fuel : ℕ) (t : Transport S) (handle : ℕ) (s s' : Session S) (info : ObjectInfo)
    → get_object_info t fuel handle s ≡ (done info, s')
    → Resolves info s'
        (get_object_prop_value t fuel handle ObjectPropertyCode.object_size s')
        (get_object_info_full fuel t handle s)
unfolding get_object_info_full
get_object_info_full-Resolves fuel t handle s s' info e =
    rw e (resolve_size-Resolves fuel t handle info s')
