-- ===== src/Tree/Find.antt =====
-- What `co_find_one` finds behind an insertion.
use cligen.Prelude.{
  ◌≡◌, refl, ap, ap₂, ◌∙◌, sym, subst, Bool, Option, none, some, List, [], ◌∷◌, if◌then◌else◌, All,
  returns, Returns, Returns-mono,
}
use Prim.Native.Nat.{Ordering}
use Prim.Native.Nat.Ordering.{lt, eq, gt}
use cligen.Memory.{Bytes}
use cligen.Order.{IsOrder, with_null}
use cligen.Strcmp.{Settings, selected, str_cmp}
use cligen.Cv.Compare.{CvType}
use cligen.Object.{command, Common}
use cligen.Slots.Sorted.{IsSorted}
use cligen.Slots.Insert.{probe-Fits}
use cligen.Slots.Ordered.{OnSlot, find, search1-find, new_or_old}
use cligen.Tree.{
  Obj, object, Tree, null, tree, Children, entries, children, common, co_insert1, co_find_one,
  slot_name, combine,
}
use cligen.Tree.Build.{EveryObject, EveryChild-entries, entries-children}
use cligen.Tree.Paths.{IsPlain, is_eq, named}
use cligen.Tree.Insert.{plain_obj, IsOrdered, order, co_insert1_lem, Inserted, Q}

-- A command with a name, as a key to search for.
abbrev key : Bytes → Obj
key n =
    object
      (record {
        type = command;
        preference = 0;
        name = some n;
        prefix = none;
        callbacks = [];
        helpstring = none;
        flags = 0;
        value = none;
        spec = record {
          vtype = CvType.err;
          expand_fn_str = none;
          translate_fn_str = none;
          choice = none;
          ranges = [];
          regex = none;
          dec64_n = 0;
        };
      })
      null

abbrev pub IsCommand : Common → Type 0
IsCommand c = c.type ≡ command

-- The objects of the first level are commands.
abbrev pub AllCommands : Tree → Type 0
AllCommands null = Unit
AllCommands (tree set cs) = All (OnSlot (λ o. IsCommand (common o))) (entries cs)

module _ (s : Settings) (vers : IsOrder s.strverscmp) (n : Bytes) where
  by_name :
      (o : Obj)
      → IsCommand (common o)
      → plain_obj s (key n) o ≡ with_null (selected s) (some n) (common o).name
  by_name o h = rw h

  agree :
      (xs : List (Option Obj))
      → All (OnSlot (λ o. IsCommand (common o))) xs
      → All (λ o. str_cmp s (some n) (slot_name o) ≡ with_null (plain_obj s) (some (key n)) o) xs
  unfolding str_cmp
  agree [] h = tt
  agree (none ∷ xs) h = (refl, agree xs h.1)
  agree (some o ∷ xs) h = (sym (by_name o h.0), agree xs h.1)

  co_find_one-find :
      (set : Bool) (cs : Children)
      → IsSorted (plain_obj s) (entries cs)
      → All (OnSlot (λ o. IsCommand (common o))) (entries cs)
      → co_find_one s (tree set cs) (some n)
        ≡ returns (find (with_null (plain_obj s) (some (key n))) (entries cs))
  unfolding co_find_one
  co_find_one-find set cs sorted h =
      search1-find (plain_obj s) (with_null (plain_obj s) (some (key n)))
        (λ o. str_cmp s (some n) (slot_name o)) (entries cs)
        (probe-Fits (order s vers) (combine s) (key n)) sorted (agree (entries cs) h)

  renamed :
      (o : Ordering) (new old : Option Obj) → new_or_old o new old ≡ (if is_eq o then new else old)
  renamed lt new old = refl
  renamed eq new old = refl
  renamed gt new old = refl

  found_behind :
      (set : Bool) (cs : Children) (co : Obj) (r : Option Obj × Tree) (xs : List (Option Obj))
      (old : Option Obj)
      → IsCommand (common co)
      → r.1 ≡ tree set (children xs)
      → Inserted s vers IsCommand co (entries cs) (r.0, xs)
      → find (with_null (plain_obj s) (some (key n))) (entries cs) ≡ old
      → co_find_one s r.1 (some n) ≡ returns (if named s n (common co) then r.0 else old)
  found_behind set cs co r xs old h e i was =
      ap (λ t. co_find_one s t (some n)) e
      ∙ co_find_one-find set (children xs)
          (subst (IsSorted (plain_obj s)) (sym (entries-children xs)) i.0.0)
          (subst (All (OnSlot (λ o. IsCommand (common o)))) (sym (entries-children xs))
            (commands xs i.0.1))
      ∙ ap returns (
          ap (find (with_null (plain_obj s) (some (key n)))) (entries-children xs)
          ∙ i.1 (some (key n))
          ∙ ap₂ (λ o p. new_or_old o r.0 p) (by_name co h) was
          ∙ renamed (with_null (selected s) (some n) (common co).name) r.0 old)
    where
      commands :
          (xs : List (Option Obj))
          → All (OnSlot (Q s vers IsCommand)) xs
          → All (OnSlot (λ o. IsCommand (common o))) xs
      commands [] a = tt
      commands (none ∷ xs) a = (tt, commands xs a.1)
      commands (some o ∷ xs) a = (a.0.1, commands xs a.1)

slots_and :
    (xs : List (Option Obj))
    → All (OnSlot (EveryObject IsPlain)) xs
    → All (OnSlot (λ o. IsCommand (common o))) xs
    → All (OnSlot (λ o. EveryObject IsPlain o × IsCommand (common o))) xs
slots_and [] h k = tt
slots_and (none ∷ xs) h k = (tt, slots_and xs h.1 k.1)
slots_and (some o ∷ xs) h k = ((h.0, k.0), slots_and xs h.1 k.1)

-- In a tree whose objects on the first level are commands in strictly ascending order, and in which on
-- all levels no object is a variable, none is marked CO_FLAGS_TOPOFTREE, all have a tree and empty
-- objects have no name, as below the inserted command, and while memory is granted, `co_find_one` finds the object that `co_insert1`
-- returns by each name that str_cmp takes for that of the inserted command, and by every other
-- name what it found before, if it returned. strverscmp(3) is an order.
pub co_find_one-co_insert1 :
    (s : Settings) (t : Tree) (co : Obj) (n : Bytes) (old : Option Obj)
    → IsOrder s.strverscmp
    → IsOrdered s t
    → AllCommands t
    → EveryObject IsPlain co
    → IsCommand (common co)
    → co_find_one s t (some n) ≡ returns old
    → Returns
        (co_insert1 s t (some co))
        (λ r. co_find_one s r.1 (some n) ≡ returns (if named s n (common co) then r.0 else old))
co_find_one-co_insert1 s null co n old vers h k p c e = absurd h
co_find_one-co_insert1 s (tree set cs) co n old vers h k p c e =
    Returns-mono (co_insert1 s (tree set cs) (some co)) _ _
      (co_insert1_lem s vers IsCommand set cs co (p, c) h.0
        (slots_and (entries cs) (EveryChild-entries IsPlain cs h.1) k))
      (λ r i.
        found_behind s vers n set cs co r i.0 old c i.1 i.2
          (returned (sym (co_find_one-find s vers n set cs h.0 k) ∙ e)))
  where
    returned : {a b : Option Obj} → returns a ≡ returns b → a ≡ b
    returned q = cc
