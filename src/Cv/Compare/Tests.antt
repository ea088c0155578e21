-- ===== src/Cv/Compare/Tests.antt =====
-- Runs of the comparison of integers.
use cligen.Prelude.{◌≡◌, refl, arith, some}
use cligen.Cv.Number.{pos, negsuc}
use cligen.Cv.Compare.{int8, int16, int64, int8_set, int64_set, cmp_ints}
use cligen.Cv.Compare.Order.{cmp_ints-word, zeroed, cmp_ints_negative}

cmp_ints-word_example :
    cmp_ints (record { var_type = int8; word = 255 }) (record { var_type = int16; word = 256 })
    ≡ some (negsuc 0)
cmp_ints-word_example =
    cmp_ints-word (record { var_type = int8; word = 255 }) (record { var_type = int16; word = 256 })
      refl refl

-- -1 is compared with 1.
cmp_ints_negative_example :
    (cmp_ints (int8_set (zeroed int8) (negsuc 0)) (int8_set (zeroed int8) (pos 1)) ≡ some (pos 1))
    × (cmp_ints (int64_set (zeroed int64) (negsuc 0)) (int64_set (zeroed int64) (pos 1))
        ≡ some (pos 1))
cmp_ints_negative_example =
    cmp_ints_negative 0 1 0 1 (omega arith) (omega arith) (omega arith) (omega arith)
