-- ===== src/Codes/Format.antt =====
-- `ObjectFormatCode` of crates/mtp-rs/src/ptp/codes.rs.
use mtp_rs.Prelude.{ℕ, ◌<◌, ◌^◌, ◌≡◌, refl, ap, Bool, true, false, List, [], ◌∷◌, arith}
use mtp_rs.Codes.NumEnum.{from_primitive, into-from_primitive, IsCode}

pub data ObjectFormatCode : Type 0 where
  undefined association script executable text html dpof aiff wav mp3 avi mpeg : ObjectFormatCode
  asf jpeg tiff gif bmp pict png wma_audio ogg_audio aac_audio flac_audio : ObjectFormatCode
  wmv_video mp4_container m4a_audio : ObjectFormatCode
  unknown : ℕ → ObjectFormatCode

-- The declared discriminants.
unfoldable pub to_code : ObjectFormatCode → ℕ
to_code undefined = 0x3000
to_code association = 0x3001
to_code script = 0x3002
to_code executable = 0x3003
to_code text = 0x3004
to_code html = 0x3005
to_code dpof = 0x3006
to_code aiff = 0x3007
to_code wav = 0x3008
to_code mp3 = 0x3009
to_code avi = 0x300A
to_code mpeg = 0x300B
to_code asf = 0x300C
to_code jpeg = 0x3801
to_code tiff = 0x3804
to_code gif = 0x3807
to_code bmp = 0x3808
to_code pict = 0x380A
to_code png = 0x380B
to_code wma_audio = 0xB901
to_code ogg_audio = 0xB902
to_code aac_audio = 0xB903
to_code flac_audio = 0xB906
to_code wmv_video = 0xB981
to_code mp4_container = 0xB982
to_code m4a_audio = 0xB984
to_code (unknown code) = code

variants : List ObjectFormatCode
variants =
    undefined ∷ association ∷ script ∷ executable ∷ text ∷ html ∷ dpof ∷ aiff ∷ wav ∷ mp3 ∷ avi
    ∷ mpeg ∷ asf ∷ jpeg ∷ tiff ∷ gif ∷ bmp ∷ pict ∷ png ∷ wma_audio ∷ ogg_audio ∷ aac_audio
    ∷ flac_audio ∷ wmv_video ∷ mp4_container ∷ m4a_audio ∷ []

unfoldable pub from_code : ℕ → ObjectFormatCode
unfolding variants to_code
from_code = from_primitive to_code unknown variants

abbrev pub is_named : ObjectFormatCode → Bool
is_named (unknown code) = false
is_named _ = true

pub to_code-from_code : (code : ℕ) → to_code (from_code code) ≡ code
unfolding from_code
to_code-from_code = into-from_primitive to_code unknown (λ code. refl) variants

pub from_code-to_code : (v : ObjectFormatCode) → is_named v ≡ true → from_code (to_code v) ≡ v
unfolding from_code
from_code-to_code (unknown code) h = cc
from_code-to_code _ h = refl

pub to_code-lt : (v : ObjectFormatCode) → is_named v ≡ true → to_code v < 2 ^ 16
unfolding to_code
to_code-lt (unknown code) h = cc
to_code-lt _ h = omega arith

pub from_code-IsCode : (code : ℕ) → code < 2 ^ 16 → IsCode to_code from_code (from_code code)
from_code-IsCode code h = record {
  in_range = rw (to_code-from_code code) h;
  decodes = ap from_code (to_code-from_code code);
}

-- `ObjectFormatCode::is_audio`
unfoldable pub is_audio : ObjectFormatCode → Bool
is_audio aiff = true
is_audio wav = true
is_audio mp3 = true
is_audio wma_audio = true
is_audio ogg_audio = true
is_audio aac_audio = true
is_audio flac_audio = true
is_audio m4a_audio = true
is_audio _ = false

-- `ObjectFormatCode::is_video`
unfoldable pub is_video : ObjectFormatCode → Bool
is_video avi = true
is_video mpeg = true
is_video asf = true
is_video wmv_video = true
is_video mp4_container = true
is_video _ = false

-- `ObjectFormatCode::is_image`
unfoldable pub is_image : ObjectFormatCode → Bool
is_image jpeg = true
is_image tiff = true
is_image gif = true
is_image bmp = true
is_image pict = true
is_image png = true
is_image _ = false

-- `format == ObjectFormatCode::Association`
unfoldable pub is_association : ObjectFormatCode → Bool
is_association association = true
is_association _ = false
