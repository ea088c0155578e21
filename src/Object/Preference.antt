-- ===== src/Object/Preference.antt =====
-- Preferences of objects, `cov_pref` and `co_pref` of cligen_object.c: of several objects that match a
-- word the one with the highest is taken.
use cligen.Prelude.{
  ap, ℕ, ◌≤◌, ◌<◌, ◌≡◌, refl, arith, Bool, true, List, ltb, ◌==◌, if◌then◌else◌, length,
}
use cligen.Cv.Compare.{CvType, Var}
use cligen.Object.{ObjType, command, variable, reference, empty, Common, Varspec, is_set}

-- The preference of an integer type without and with a range.
abbrev by_range : Varspec → ℕ → ℕ → ℕ
by_range v plain ranged = if length v.ranges == 0 then plain else ranged

abbrev string_pref : Varspec → ℕ
string_pref v = if is_set v.expand_fn_str then 14 else if is_set v.regex then 8 else 6

-- The switch of `cov_pref`.
abbrev pub type_pref : CvType → Varspec → ℕ
type_pref CvType.err v = 0
type_pref CvType.int8 v = by_range v 52 52
type_pref CvType.int16 v = by_range v 50 50
type_pref CvType.int32 v = by_range v 48 48
type_pref CvType.int64 v = by_range v 46 46
type_pref CvType.uint8 v = by_range v 51 51
type_pref CvType.uint16 v = by_range v 49 49
type_pref CvType.uint32 v = by_range v 47 47
type_pref CvType.uint64 v = by_range v 45 45
type_pref CvType.dec64 v = 62
type_pref CvType.bool v = 16
type_pref CvType.rest v = 1
type_pref CvType.string v = string_pref v
type_pref CvType.interface v = 18
type_pref CvType.ipv4addr v = 70
type_pref CvType.ipv4pfx v = 70
type_pref CvType.ipv6addr v = 71
type_pref CvType.ipv6pfx v = 71
type_pref CvType.macaddr v = 72
type_pref CvType.url v = 20
type_pref CvType.uuid v = 73
type_pref CvType.time v = 75
type_pref CvType.void v = 0
type_pref CvType.empty v = 0

pub cov_pref : Common → ℕ
cov_pref co = type_pref co.spec.vtype co.spec

-- The switch of `co_pref`.
abbrev by_type : ObjType → Common → Bool → ℕ
by_type command co exact = if exact then 100 else 3
by_type variable co exact = cov_pref co
by_type reference co exact = 0
by_type empty co exact = 0

pub co_pref : Common → Bool → ℕ
unfolding cov_pref
co_pref co exact = if ltb 0 co.preference then co.preference else by_type co.type co exact

cov_pref-le : (co : Common) → cov_pref co ≤ 75
unfolding cov_pref
cov_pref-le co = by_vtype co.spec.vtype co.spec
  where
    by_vtype : (t : CvType) (v : Varspec) → type_pref t v ≤ 75
    by_vtype CvType.string v = ground arith
    by_vtype _ v = ground arith

-- Where no preference is set, a command that matches exactly is preferred to every variable.
pub co_pref-command :
    (c v : Common) (exact : Bool)
    → c.type ≡ command
    → v.type ≡ variable
    → c.preference ≡ 0
    → v.preference ≡ 0
    → co_pref v exact < co_pref c true
unfolding co_pref
co_pref-command c v exact tc tv pc pv = rw (pc, pv, tc, tv) (omega (arith, cov_pref-le v))

-- A range makes no difference: whatever ranges a variable has, its preference is that of the same
-- variable without them.
pub co_pref_ranges :
    (co : Common) (ranges : List (Var × Var)) (exact : Bool)
    → co_pref (record co { spec = record co.spec { ranges = ranges } }) exact ≡ co_pref co exact
unfolding co_pref
co_pref_ranges co ranges exact =
    ap (λ p. if ltb 0 co.preference then co.preference else p) (by_kind co.type)
  where
    ranged : Common
    ranged = record co { spec = record co.spec { ranges = ranges } }

    one : (v w : ℕ) (b c : Bool) → v ≡ w → (if b then v else w) ≡ (if c then v else w)
    one v w b c h = ground arith

    by_vtype : (t : CvType) → type_pref t ranged.spec ≡ type_pref t co.spec
    by_vtype CvType.int8 = one 52 52 _ _ refl
    by_vtype CvType.int16 = one 50 50 _ _ refl
    by_vtype CvType.int32 = one 48 48 _ _ refl
    by_vtype CvType.int64 = one 46 46 _ _ refl
    by_vtype CvType.uint8 = one 51 51 _ _ refl
    by_vtype CvType.uint16 = one 49 49 _ _ refl
    by_vtype CvType.uint32 = one 47 47 _ _ refl
    by_vtype CvType.uint64 = one 45 45 _ _ refl
    by_vtype _ = refl

    by_kind : (k : ObjType) → by_type k ranged exact ≡ by_type k co exact
    by_kind variable = by_vtype co.spec.vtype
    by_kind command = refl
    by_kind reference = refl
    by_kind empty = refl
