-- ===== src/Object/Compare.antt =====
-- Where `co_eq` puts objects in order, and where it does not.
use cligen.Prelude.{ℕ, ◌<◌, ◌≡◌, refl, arith, Bool, true, false, Option, none, some}
use Prim.Native.Nat.{compare, Ordering}
use Prim.Native.Nat.Ordering.{lt}
use cligen.Memory.{Bytes}
use cligen.Order.{IsOrder, or_else, with_null, with_null-IsOrder, pulled-IsOrder, or_else-IsOrder}
use cligen.Strcmp.{Settings, str_cmp, strcmp, selected, selected-IsOrder, compare-IsOrder}
use cligen.Object.{
  ObjType, command, variable, reference, empty, Common, rank, co_eq, co_eq_by, cmp_spec,
}

abbrev pub is_variable : ObjType → Bool
is_variable variable = true
is_variable _ = false

-- Empty objects first, then commands, references last; the name counts but for empty ones.
abbrev type_rank : ObjType → ℕ
type_rank empty = 0
type_rank command = 1
type_rank variable = 1
type_rank reference = 2

abbrev pub key_name : ObjType → Option Bytes → Option Bytes
key_name empty n = none
key_name command n = n
key_name variable n = n
key_name reference n = n

abbrev pub plain_cmp : Settings → Common → Common → Ordering
plain_cmp s a b =
    or_else (compare (type_rank a.type) (type_rank b.type))
      (with_null (selected s) (key_name a.type a.name) (key_name b.type b.name))

pub plain_cmp-IsOrder : (s : Settings) → IsOrder s.strverscmp → IsOrder (plain_cmp s)
plain_cmp-IsOrder s vers =
    or_else-IsOrder (pulled-IsOrder compare-IsOrder (λ (co : Common). type_rank co.type)) (
      pulled-IsOrder (with_null-IsOrder (selected-IsOrder s vers))
        (λ (co : Common). key_name co.type co.name))

-- Without variables `co_eq` is that order.
pub co_eq-plain_cmp :
    (s : Settings) (a b : Common)
    → is_variable a.type ≡ false
    → is_variable b.type ≡ false
    → co_eq s a b ≡ plain_cmp s a b
unfolding co_eq str_cmp
co_eq-plain_cmp s a b ha hb = by_type a.type b.type ha hb
  where
    by_type :
        (t u : ObjType)
        → is_variable t ≡ false
        → is_variable u ≡ false
        → co_eq_by s t u a b
          ≡ or_else
              (compare (type_rank t) (type_rank u))
              (with_null (selected s) (key_name t a.name) (key_name u b.name))
    by_type command command p q = refl
    by_type command reference p q = refl
    by_type command empty p q = refl
    by_type reference command p q = refl
    by_type reference reference p q = refl
    by_type reference empty p q = refl
    by_type empty command p q = refl
    by_type empty reference p q = refl
    by_type empty empty p q = refl
    by_type variable u p q = cc
    by_type command variable p q = cc
    by_type reference variable p q = cc
    by_type empty variable p q = cc

-- Variables are compared by type and with a command by name, so a command whose name stands between
-- those of two variables can be less than the lesser and greater than the greater of them.
pub co_eq_cycle :
    (s : Settings) (v w c : Common) (nv nw nc : Bytes)
    → v.type ≡ variable
    → w.type ≡ variable
    → c.type ≡ command
    → v.name ≡ some nv
    → w.name ≡ some nw
    → c.name ≡ some nc
    → rank v.spec.vtype < rank w.spec.vtype
    → strcmp nw nc ≡ lt
    → strcmp nc nv ≡ lt
    → (co_eq s v w ≡ lt) × (co_eq s w c ≡ lt) × (co_eq s c v ≡ lt)
unfolding co_eq cmp_spec
co_eq_cycle s v w c nv nw nc tv tw tc ev ew ec h p q =
    (rw (tv, tw, before), rw (tw, tc, ew, ec) p, rw (tc, tv, ec, ev) q)
  where
    before : compare (rank v.spec.vtype) (rank w.spec.vtype) ≡ lt
    before = ground arith
