-- ===== src/Tree/Paths.antt =====
-- The paths of commands in a tree: what a tree is as a set of command lines.
use cligen.Prelude.{
  ◌≡◌, refl, ap, ap₂, ◌∙◌, sym, Bool, true, false, ◌&&◌, ◌||◌, some, List, [], ◌∷◌,
}
use Prim.Native.Nat.{Ordering}
use Prim.Native.Nat.Ordering.{lt, eq, gt}
use cligen.Memory.{Bytes}
use cligen.Order.{IsOrder, swap, or_else, with_null, with_null-IsOrder}
use cligen.Strcmp.{Settings, selected, selected-IsOrder}
use cligen.Object.Compare.{is_variable, key_name, co_eq-plain_cmp}
use cligen.Object.{Common, topoftree, flags_get, co_eq}
use cligen.Tree.{
  Obj, object, Tree, null, tree, Children, end, gap, child, entries, common, subtree, copy_object,
  copy_tree, copy_children,
}
use cligen.Tree.Build.{EveryTree, EveryChild, any_object}

abbrev pub is_eq : Ordering → Bool
is_eq lt = false
is_eq eq = true
is_eq gt = false

-- An object has the name.
abbrev pub named : Settings → Bytes → Common → Bool
named s n c = is_eq (with_null (selected s) (some n) c.name)

-- The names lead from the tree down to some object.
unfoldable pub has_path : Settings → List Bytes → Tree → Bool
has_path s [] t = true
has_path s (n ∷ ns) null = false
has_path s (n ∷ ns) (tree set cs) =
    any_object (λ o. named s n (common o) && has_path s ns (subtree o)) (entries cs)

-- Its first step, at one object.
abbrev pub leads : Settings → Bytes → List Bytes → Obj → Bool
leads s n ns o = named s n (common o) && has_path s ns (subtree o)

-- No variable, not the top of an expanded tree, and without a name if it is an empty object.
abbrev pub IsPlain : Common → Type 0
IsPlain c =
    (is_variable c.type ≡ false)
    × (flags_get c topoftree ≡ false)
    × (key_name c.type c.name ≡ c.name)

second_eq : (o p : Ordering) → or_else o p ≡ eq → p ≡ eq
second_eq lt p h = cc
second_eq eq p h = h
second_eq gt p h = cc

-- Equal objects have the same names.
pub named-eq :
    (s : Settings) (vers : IsOrder s.strverscmp) (n : Bytes) (a b : Common)
    → IsPlain a
    → IsPlain b
    → co_eq s a b ≡ eq
    → named s n a ≡ named s n b
named-eq s vers n a b ha hb e =
    let o : IsOrder (with_null (selected s)) = with_null-IsOrder (selected-IsOrder s vers) in
    let same : with_null (selected s) a.name b.name ≡ eq =
      ap₂ (with_null (selected s)) (sym ha.2) (sym hb.2)
      ∙ second_eq _ _ (sym (co_eq-plain_cmp s a b ha.0 hb.0) ∙ e) in
    ap is_eq (
      o.flip a.name (some n)
      ∙ ap swap (o.eq_left a.name b.name (some n) same)
      ∙ sym (o.flip b.name (some n)))

-- A copy of commands has the same paths.
module _ (s : Settings) where
  any_object-copy_children :
      (n : Bytes) (ns : List Bytes)
      → ((t : Tree) → EveryTree IsPlain t → has_path s ns (copy_tree t) ≡ has_path s ns t)
      → (cs : Children) → EveryChild IsPlain cs
      → any_object (leads s n ns) (entries (copy_children cs))
        ≡ any_object (leads s n ns) (entries cs)
  unfolding copy_object entries
  any_object-copy_children n ns ih end h = refl
  any_object-copy_children n ns ih (gap cs) h = any_object-copy_children n ns ih cs h
  any_object-copy_children n ns ih (child (object c t) cs) h =
      rw (h.0.0.1)
        (ap₂ (λ a b. named s n c && a || b) (ih t h.0.1) (any_object-copy_children n ns ih cs h.1))

  pub has_path-copy_tree :
      (ps : List Bytes) (t : Tree)
      → EveryTree IsPlain t
      → has_path s ps (copy_tree t) ≡ has_path s ps t
  unfolding has_path copy_object
  has_path-copy_tree [] t h = refl
  has_path-copy_tree (n ∷ ns) null h = refl
  has_path-copy_tree (n ∷ ns) (tree set cs) h =
      any_object-copy_children n ns (has_path-copy_tree ns) cs h
