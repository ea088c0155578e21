-- ===== src/Object.antt =====
-- The objects of a parse tree, `cg_obj` of cligen_object.c: their fields, flags, preference and
-- comparison. Pointers to the parent, to the original and to compiled functions are left out.
pub mod Compare
pub mod Preference
mod Tests
use cligen.Prelude.{
  ℕ, ◌+◌, ◌-◌, ◌*◌, ◌/◌, ◌%◌, Bool, true, false, ◌||◌, Option, none, some, List, [], ◌∷◌, ◌==◌, ltb,
  length, if◌then◌else◌,
}
use Prim.Native.Nat.{compare, Ordering}
use Prim.Native.Nat.Ordering.{lt, eq, gt}
use cligen.Memory.{Bytes}
use cligen.Order.{or_else, with_null}
use cligen.Strcmp.{Settings, strcmp, str_cmp}
use cligen.Cv.Number.{ℤ, pos, negsuc}
use cligen.Cv.Compare.{CvType, Var, cmp_ints, is_int, is_string}

-- `enum cg_objtype`
pub data ObjType : Type 0 where
  command variable reference empty : ObjType

-- `struct cg_callback`; the function pointer is a number, 0 for NULL.
pub record Callback : Type 0 where
  pub fn_vec : ℕ
  pub fn_str : Option Bytes
  pub cvec : List Bytes
  pub flags : ℕ

-- `struct cg_varspec`. `ranges` has the bounds of `cgs_rangecvv_low` and `cgs_rangecvv_upp`, which
-- have the same length, `cgs_rangelen`.
pub record Varspec : Type 0 where
  pub vtype : CvType
  pub expand_fn_str : Option Bytes
  pub translate_fn_str : Option Bytes
  pub choice : Option Bytes
  pub ranges : List (Var × Var)
  pub regex : Option (List Bytes)
  pub dec64_n : ℕ

-- `struct cg_obj` without its children; `value` is `coc_value`.
pub record Common : Type 0 where
  pub type : ObjType
  pub preference : ℕ
  pub name : Option Bytes
  pub prefix : Option Bytes
  pub callbacks : List Callback
  pub helpstring : Option Bytes
  pub flags : ℕ
  pub value : Option Bytes
  pub spec : Varspec

-- Flags of one bit: `CO_FLAGS_MARK`, `CO_FLAGS_TOPOFTREE` and `CO_FLAGS_MATCH`.
abbrev pub mark : ℕ
mark = 2

abbrev pub topoftree : ℕ
topoftree = 4

unfoldable pub flags_get : Common → ℕ → Bool
flags_get co flag = co.flags / flag % 2 == 1

unfoldable pub flags_set : Common → ℕ → Common
unfolding flags_get
flags_set co flag = record co { flags = if flags_get co flag then co.flags else co.flags + flag }

unfoldable pub flags_reset : Common → ℕ → Common
unfolding flags_get
flags_reset co flag = record co { flags = if flags_get co flag then co.flags - flag else co.flags }

-- `enum cv_type` as a number
unfoldable pub rank : CvType → ℕ
rank CvType.err = 0
rank CvType.int8 = 1
rank CvType.int16 = 2
rank CvType.int32 = 3
rank CvType.int64 = 4
rank CvType.uint8 = 5
rank CvType.uint16 = 6
rank CvType.uint32 = 7
rank CvType.uint64 = 8
rank CvType.dec64 = 9
rank CvType.bool = 10
rank CvType.rest = 11
rank CvType.string = 12
rank CvType.interface = 13
rank CvType.ipv4addr = 14
rank CvType.ipv4pfx = 15
rank CvType.ipv6addr = 16
rank CvType.ipv6pfx = 17
rank CvType.macaddr = 18
rank CvType.url = 19
rank CvType.uuid = 20
rank CvType.time = 21
rank CvType.void = 22
rank CvType.empty = 23

-- The sign of an int.
abbrev pub sign : ℤ → Ordering
sign (pos n) = compare n 0
sign (negsuc n) = lt

-- The sign of what a comparison returns; two integers always have one.
abbrev pub sign_of : Option ℤ → Ordering
sign_of none = eq
sign_of (some z) = sign z

-- `cv_cmp` of two bounds of a range: each is an integer, or `CGV_EMPTY` for no bound.
unfoldable pub cmp_bound : Var → Var → Ordering
cmp_bound a b =
    if is_int a.var_type
    then (if is_int b.var_type
        then sign_of (cmp_ints a b)
        else compare (rank a.var_type) (rank b.var_type))
    else compare (rank a.var_type) (rank b.var_type)

abbrev pub is_set {ℓ} : {A : Type ℓ} → Option A → Bool
is_set none = false
is_set (some a) = true

-- The loop over the regular expressions of both, and the comparison of their numbers behind it.
unfoldable pub cmp_regex : Settings → List Bytes → List Bytes → Ordering
cmp_regex s [] [] = eq
cmp_regex s [] (d ∷ ds) = lt
cmp_regex s (c ∷ cs) [] = gt
cmp_regex s (c ∷ cs) (d ∷ ds) = or_else (str_cmp s (some c) (some d)) (cmp_regex s cs ds)

-- The loop over the ranges of both, which are as many.
unfoldable pub cmp_bounds : List (Var × Var) → List (Var × Var) → Ordering
cmp_bounds [] _ = eq
cmp_bounds (_ ∷ _) [] = eq
cmp_bounds ((low1, upp1) ∷ r1) ((low2, upp2) ∷ r2) =
    or_else (cmp_bound low1 low2) (or_else (cmp_bound upp1 upp2) (cmp_bounds r1 r2))

abbrev cmp_ranges : Varspec → Varspec → Ordering
cmp_ranges v1 v2 =
    if is_int v1.vtype || is_string v1.vtype
    then or_else (compare (length v1.ranges) (length v2.ranges)) (cmp_bounds v1.ranges v2.ranges)
    else eq

-- The case `CO_VARIABLE` of `co_eq`.
unfoldable pub cmp_spec : Settings → Varspec → Varspec → Ordering
cmp_spec s v1 v2 = or_else (compare (rank v1.vtype) (rank v2.vtype)) (
    if is_set v1.expand_fn_str || is_set v2.expand_fn_str
    then str_cmp s v1.expand_fn_str v2.expand_fn_str
    else if is_set v1.choice || is_set v2.choice
    then str_cmp s v1.choice v2.choice
    else or_else (with_null (cmp_regex s) v1.regex v2.regex) (cmp_ranges v1 v2))

-- `co_eq`, by the types of both. A command and a variable have names, so strcmp(3) is given no NULL.
abbrev pub co_eq_by : Settings → ObjType → ObjType → Common → Common → Ordering
co_eq_by s reference reference a b = str_cmp s a.name b.name
co_eq_by s reference _ a b = gt
co_eq_by s _ reference a b = lt
co_eq_by s empty empty a b = eq
co_eq_by s empty _ a b = lt
co_eq_by s _ empty a b = gt
co_eq_by s command command a b = str_cmp s a.name b.name
co_eq_by s variable variable a b = cmp_spec s a.spec b.spec
co_eq_by s _ _ a b = with_null strcmp a.name b.name

unfoldable pub co_eq : Settings → Common → Common → Ordering
co_eq s a b = co_eq_by s a.type b.type a b
