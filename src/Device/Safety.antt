-- ===== src/Device/Safety.antt =====
-- Parsing a DeviceInfo or StorageInfo dataset stays within the buffer.
use mtp_rs.Prelude.{◌≢◌, arith}
use mtp_rs.Error.{panic}
use mtp_rs.Error.Ensures.{returns, Ensures-bind, Ensures-ne-panic}
use mtp_rs.Pack.Slice.{Bytes}
use mtp_rs.Pack.Text.{unpack_string-Ensures}
use mtp_rs.Pack.Array.{unpack_array-Ensures}
use mtp_rs.Pack.Cursor.{read_word-Ensures, read_sized-Ensures}
use mtp_rs.Device.{parse_device_info, parse_storage_info}

parse_device_info-ne-panic : (buf : Bytes) → parse_device_info buf ≢ panic
unfolding parse_device_info
parse_device_info-ne-panic buf = Ensures-ne-panic {Q = λ _. Unit {0}} (
    Ensures-bind (read_word-Ensures 2 buf 0 (omega arith)) λ r1 k1.
      Ensures-bind (read_word-Ensures 4 buf r1.1 k1) λ r2 k2.
        Ensures-bind (read_word-Ensures 2 buf r2.1 k2) λ r3 k3.
          Ensures-bind (read_sized-Ensures unpack_string-Ensures buf r3.1 k3) λ r4 k4.
            Ensures-bind (read_word-Ensures 2 buf r4.1 k4) λ r5 k5.
              Ensures-bind (read_sized-Ensures (unpack_array-Ensures 2) buf r5.1 k5) λ r6 k6.
                Ensures-bind (read_sized-Ensures (unpack_array-Ensures 2) buf r6.1 k6) λ r7 k7.
                  Ensures-bind (read_sized-Ensures (unpack_array-Ensures 2) buf r7.1 k7) λ r8 k8.
                    Ensures-bind (read_sized-Ensures (unpack_array-Ensures 2) buf r8.1 k8) λ r9 k9.
                      Ensures-bind (read_sized-Ensures (unpack_array-Ensures 2) buf r9.1 k9)
                        λ r10 k10.
                          Ensures-bind (read_sized-Ensures unpack_string-Ensures buf r10.1 k10)
                            λ r11 k11.
                              Ensures-bind (read_sized-Ensures unpack_string-Ensures buf r11.1 k11)
                                λ r12 k12.
                                  Ensures-bind
                                    (read_sized-Ensures unpack_string-Ensures buf r12.1 k12)
                                    λ r13 k13.
                                      Ensures-bind
                                        (read_sized-Ensures unpack_string-Ensures buf r13.1 k13)
                                        λ r14 k14. returns tt)

parse_storage_info-ne-panic : (buf : Bytes) → parse_storage_info buf ≢ panic
unfolding parse_storage_info
parse_storage_info-ne-panic buf = Ensures-ne-panic {Q = λ _. Unit {0}} (
    Ensures-bind (read_word-Ensures 2 buf 0 (omega arith)) λ r1 k1.
      Ensures-bind (read_word-Ensures 2 buf r1.1 k1) λ r2 k2.
        Ensures-bind (read_word-Ensures 2 buf r2.1 k2) λ r3 k3.
          Ensures-bind (read_word-Ensures 8 buf r3.1 k3) λ r4 k4.
            Ensures-bind (read_word-Ensures 8 buf r4.1 k4) λ r5 k5.
              Ensures-bind (read_word-Ensures 4 buf r5.1 k5) λ r6 k6.
                Ensures-bind (read_sized-Ensures unpack_string-Ensures buf r6.1 k6) λ r7 k7.
                  Ensures-bind (read_sized-Ensures unpack_string-Ensures buf r7.1 k7)
                    λ r8 k8. returns tt)

-- Every buffer is a device dataset or an error, and a storage dataset or an error: parsing one
-- never panics.
pub datasets-ne-panic :
    (buf : Bytes) → (parse_device_info buf ≢ panic) × (parse_storage_info buf ≢ panic)
datasets-ne-panic buf = (parse_device_info-ne-panic buf, parse_storage_info-ne-panic buf)
