-- ===== src/Codes/DeviceProperty.antt =====
-- `DevicePropertyCode` of crates/mtp-rs/src/ptp/codes.rs.
use mtp_rs.Prelude.{ℕ, ◌<◌, ◌^◌, ◌≡◌, refl, ap, Bool, true, false, List, [], ◌∷◌, arith}
use mtp_rs.Codes.NumEnum.{from_primitive, into-from_primitive, IsCode}

pub data DevicePropertyCode : Type 0 where
  undefined battery_level functional_mode image_size compression_setting : DevicePropertyCode
  white_balance rgb_gain f_number focal_length focus_distance focus_mode : DevicePropertyCode
  exposure_metering_mode flash_mode exposure_time exposure_program_mode : DevicePropertyCode
  exposure_index exposure_bias_compensation date_time capture_delay : DevicePropertyCode
  still_capture_mode contrast sharpness digital_zoom effect_mode burst_number : DevicePropertyCode
  burst_interval timelapse_number timelapse_interval focus_metering_mode : DevicePropertyCode
  upload_url artist copyright_info : DevicePropertyCode
  unknown : ℕ → DevicePropertyCode

-- The declared discriminants.
unfoldable pub to_code : DevicePropertyCode → ℕ
to_code undefined = 0x5000
to_code battery_level = 0x5001
to_code functional_mode = 0x5002
to_code image_size = 0x5003
to_code compression_setting = 0x5004
to_code white_balance = 0x5005
to_code rgb_gain = 0x5006
to_code f_number = 0x5007
to_code focal_length = 0x5008
to_code focus_distance = 0x5009
to_code focus_mode = 0x500A
to_code exposure_metering_mode = 0x500B
to_code flash_mode = 0x500C
to_code exposure_time = 0x500D
to_code exposure_program_mode = 0x500E
to_code exposure_index = 0x500F
to_code exposure_bias_compensation = 0x5010
to_code date_time = 0x5011
to_code capture_delay = 0x5012
to_code still_capture_mode = 0x5013
to_code contrast = 0x5014
to_code sharpness = 0x5015
to_code digital_zoom = 0x5016
to_code effect_mode = 0x5017
to_code burst_number = 0x5018
to_code burst_interval = 0x5019
to_code timelapse_number = 0x501A
to_code timelapse_interval = 0x501B
to_code focus_metering_mode = 0x501C
to_code upload_url = 0x501D
to_code artist = 0x501E
to_code copyright_info = 0x501F
to_code (unknown code) = code

variants : List DevicePropertyCode
variants =
    undefined ∷ battery_level ∷ functional_mode ∷ image_size ∷ compression_setting ∷ white_balance
    ∷ rgb_gain ∷ f_number ∷ focal_length ∷ focus_distance ∷ focus_mode ∷ exposure_metering_mode
    ∷ flash_mode ∷ exposure_time ∷ exposure_program_mode ∷ exposure_index
    ∷ exposure_bias_compensation ∷ date_time ∷ capture_delay ∷ still_capture_mode ∷ contrast
    ∷ sharpness ∷ digital_zoom ∷ effect_mode ∷ burst_number ∷ burst_interval ∷ timelapse_number
    ∷ timelapse_interval ∷ focus_metering_mode ∷ upload_url ∷ artist ∷ copyright_info ∷ []

unfoldable pub from_code : ℕ → DevicePropertyCode
unfolding variants to_code
from_code = from_primitive to_code unknown variants

abbrev pub is_named : DevicePropertyCode → Bool
is_named (unknown code) = false
is_named _ = true

pub to_code-from_code : (code : ℕ) → to_code (from_code code) ≡ code
unfolding from_code
to_code-from_code = into-from_primitive to_code unknown (λ code. refl) variants

pub from_code-to_code : (v : DevicePropertyCode) → is_named v ≡ true → from_code (to_code v) ≡ v
unfolding from_code
from_code-to_code (unknown code) h = cc
from_code-to_code _ h = refl

pub to_code-lt : (v : DevicePropertyCode) → is_named v ≡ true → to_code v < 2 ^ 16
unfolding to_code
to_code-lt (unknown code) h = cc
to_code-lt _ h = omega arith

pub from_code-IsCode : (code : ℕ) → code < 2 ^ 16 → IsCode to_code from_code (from_code code)
from_code-IsCode code h = record {
  in_range = rw (to_code-from_code code) h;
  decodes = ap from_code (to_code-from_code code);
}
