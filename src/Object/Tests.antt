-- ===== src/Object/Tests.antt =====
-- Objects compared, and the theorems at concrete objects.
use cligen.Prelude.{◌≡◌, refl, arith, true, false, none, some, [], ◌∷◌}
use Prim.Native.Nat.Ordering.{lt}
use cligen.Memory.{Bytes}
use cligen.Strcmp.{Settings, strcmp}
use cligen.Cv.Compare.{CvType}
use cligen.Object.{
  ObjType, command, variable, Common, Varspec, rank, co_eq, flags_get, flags_set, flags_reset, mark,
}
use cligen.Object.Compare.{co_eq_cycle}
use cligen.Object.Preference.{co_pref, co_pref_ranges}

-- strcmp(3) decides, and strverscmp(3) is taken to be the same.
abbrev exact : Settings
exact = record { lexicalorder = false; ignorecase = false; strverscmp = strcmp }

abbrev spec_of : CvType → Varspec
spec_of t = record {
  vtype = t;
  expand_fn_str = none;
  translate_fn_str = none;
  choice = none;
  ranges = [];
  regex = none;
  dec64_n = 2;
}

abbrev named_object : ObjType → Bytes → CvType → Common
named_object type name t = record {
  type = type;
  preference = 0;
  name = some name;
  prefix = none;
  callbacks = [];
  helpstring = none;
  flags = 0;
  value = none;
  spec = spec_of t;
}

-- `c`, of an int8, and `a`, a string, with the command `b` between them.
abbrev number : Common
number = named_object variable (b'c' ∷ []) CvType.int8

abbrev text : Common
text = named_object variable (b'a' ∷ []) CvType.string

abbrev verb : Common
verb = named_object command (b'b' ∷ []) CvType.err

co_eq_cycle_example :
    (co_eq exact number text ≡ lt) × (co_eq exact text verb ≡ lt) × (co_eq exact verb number ≡ lt)
unfolding rank strcmp
co_eq_cycle_example =
    co_eq_cycle exact number text verb (b'c' ∷ []) (b'a' ∷ []) (b'b' ∷ []) refl refl refl refl refl
      refl (omega arith) refl refl

flags_test : flags_get (flags_reset (flags_set verb mark) mark) mark ≡ false
unfolding flags_get flags_set flags_reset
flags_test = refl

-- A range from its least value on, which makes no difference.
abbrev ranged : Common
ranged = record number {
  spec = record (spec_of CvType.int8) {
    ranges =
        (record { var_type = CvType.empty; word = 0 }, record { var_type = CvType.int8; word = 9 })
        ∷ [];
  };
}

co_pref_ranges_example : co_pref ranged true ≡ co_pref number true
co_pref_ranges_example = co_pref_ranges number ranged.spec.ranges true
