-- ===== src/Cv/Uuid/Tests.antt =====
-- Runs of `str2uuid`.
use cligen.Prelude.{◌≡◌, refl, arith, some, [], ◌∷◌, map, length}
use cligen.Memory.{Bytes}
use cligen.Cv.Hex.{lower}
use cligen.Cv.Uuid.{uuid2str, str2uuid}
use cligen.Cv.Uuid.RoundTrip.{str2uuid-uuid2str}
use cligen.Cv.Uuid.Sound.{uuid2str-str2uuid}

abbrev id : Bytes
id = 244 ∷ 122 ∷ 193 ∷ 11 ∷ 88 ∷ 204 ∷ 67 ∷ 114 ∷ 165 ∷ 103 ∷ 14 ∷ 2 ∷ 178 ∷ 195 ∷ 212 ∷ 121 ∷ []

str2uuid-uuid2str_example : str2uuid (uuid2str id 37) ≡ some id
str2uuid-uuid2str_example = str2uuid-uuid2str id refl (omega arith)

uuid2str-str2uuid_example : (uuid2str id 37 ≡ map lower (uuid2str id 37)) × (length id ≡ 16)
uuid2str-str2uuid_example = uuid2str-str2uuid (uuid2str id 37) id str2uuid-uuid2str_example
