-- ===== src/Tree/Insert.antt =====
-- Insertion into an ordered tree, and the search behind it.
use cligen.Prelude.{
  ◌≡◌, refl, sym, subst, Bool, Option, none, some, List, [], ◌∷◌, All, Returns, Returns-bind,
  Returns-mono, Returns-all,
}
use Prim.Native.Nat.{Ordering}
use cligen.Order.{IsOrder, with_null, pulled-IsOrder, cmp_refl}
use cligen.Strcmp.{Settings}
use cligen.Object.{Common}
use cligen.Object.Compare.{plain_cmp, plain_cmp-IsOrder, co_eq-plain_cmp}
use cligen.Slots.{insert1_object}
use cligen.Slots.Sorted.{IsSorted}
use cligen.Slots.Insert.{put_in, insert1_object-put_in}
use cligen.Slots.Ordered.{OnSlot, Combines, put_in-Keeps, put_in-Finds, find, new_or_old}
use cligen.Tree.{
  Obj, object, Tree, null, tree, Children, entries, children, common, obj_cmp, combine, co_insert1,
  merge_tree,
}
use cligen.Tree.Build.{
  EveryChild, EveryObject, EveryChild-entries, EveryChild-children, entries-children,
}
use cligen.Tree.Paths.{IsPlain}
use cligen.Tree.Merge.{Merged, merge_tree-paths}

-- The order of objects that are no variables.
abbrev pub plain_obj : Settings → Obj → Obj → Ordering
plain_obj s a b = plain_cmp s (common a) (common b)

-- The objects are no variables, all have trees, and those of the first level are sorted without two
-- that are equal.
abbrev pub IsOrdered : Settings → Tree → Type 0
IsOrdered s null = ⊥
IsOrdered s (tree set cs) = IsSorted (plain_obj s) (entries cs) × EveryChild IsPlain cs

module _ (s : Settings) (vers : IsOrder s.strverscmp) where
  pub order : IsOrder (plain_obj s)
  order = pulled-IsOrder (plain_cmp-IsOrder s vers) common

  IsPlain-common : (o : Obj) → EveryObject IsPlain o → IsPlain (common o)
  IsPlain-common (object c t) h = h.0

  agree :
      (co : Obj) (o : Option Obj)
      → EveryObject IsPlain co
      → OnSlot (EveryObject IsPlain) o
      → with_null (obj_cmp s) (some co) o ≡ with_null (plain_obj s) (some co) o
  agree co none h k = refl
  agree co (some o) h k =
      co_eq-plain_cmp s (common co) (common o) (IsPlain-common co h).0 (IsPlain-common o k).0

  -- Of the objects of the first level something more is known.
  module _ (K : Common → Type 0) where
    abbrev pub Q : Obj → Type 0
    Q o = EveryObject IsPlain o × K (common o)

    combines : (co c : Obj) → Q co → Q c → Combines (plain_obj s) (combine s) Q co c
    combines (object c1 t1) (object c2 t2) h k e =
        Returns-bind (merge_tree s t1 t2) _ (Merged s vers t1 t2) _
          (merge_tree-paths s t1 t2 vers h.0.1 k.0.1)
          (λ t m. (cmp_refl (plain_cmp-IsOrder s vers) c2, ((k.0.0, m.0), k.1)))

    All-Combines :
        (co : Obj) (xs : List (Option Obj))
        → Q co
        → All (OnSlot Q) xs
        → All (OnSlot (Combines (plain_obj s) (combine s) Q co)) xs
    All-Combines co [] h hs = tt
    All-Combines co (none ∷ xs) h hs = (tt, All-Combines co xs h hs.1)
    All-Combines co (some c ∷ xs) h hs = (combines co c h hs.0, All-Combines co xs h hs.1)

    All-agree :
        (co : Obj) (xs : List (Option Obj))
        → Q co
        → All (OnSlot Q) xs
        → All (λ o. with_null (obj_cmp s) (some co) o ≡ with_null (plain_obj s) (some co) o) xs
    All-agree co [] h hs = tt
    All-agree co (none ∷ xs) h hs = (refl, All-agree co xs h hs.1)
    All-agree co (some c ∷ xs) h hs = (agree co (some c) h.0 hs.0.0, All-agree co xs h hs.1)

    abbrev pub Inserted : Obj → List (Option Obj) → Option Obj × List (Option Obj) → Type 0
    Inserted co xs r =
        (IsSorted (plain_obj s) r.1 × All (OnSlot Q) r.1)
        × ((key : Option Obj)
            → find (with_null (plain_obj s) key) r.1
              ≡ new_or_old (with_null (plain_obj s) key (some co)) r.0
                  (find (with_null (plain_obj s) key) xs))

    insert_lem :
        (co : Obj) (xs : List (Option Obj))
        → Q co
        → IsSorted (plain_obj s) xs
        → All (OnSlot Q) xs
        → Returns (insert1_object (obj_cmp s) (combine s) co xs) (Inserted co xs)
    insert_lem co xs h sorted hs =
        subst (λ m. Returns m (Inserted co xs))
          (sym (
            insert1_object-put_in order (combine s) co (obj_cmp s) xs sorted
              (All-agree co xs h hs)))
          (Returns-all (put_in (plain_obj s) (combine s) co xs) _ _
            (Returns-mono (put_in (plain_obj s) (combine s) co xs) _ _
              (put_in-Keeps order (combine s) Q co h xs sorted hs (All-Combines co xs h hs))
              (λ r k. (k.0, k.2)))
            (λ key. put_in-Finds order key (combine s) Q co xs sorted (All-Combines co xs h hs)))

    -- What insertion does to the tree.
    pub co_insert1_lem :
        (set : Bool) (cs : Children) (co : Obj)
        → Q co
        → IsSorted (plain_obj s) (entries cs)
        → All (OnSlot Q) (entries cs)
        → Returns (co_insert1 s (tree set cs) (some co)) (λ r.
          (xs : List (Option Obj)) × (r.1 ≡ tree set (children xs))
          × Inserted co (entries cs) (r.0, xs))
    unfolding co_insert1
    co_insert1_lem set cs co h sorted hs =
        Returns-bind (insert1_object (obj_cmp s) (combine s) co (entries cs)) _
          (Inserted co (entries cs)) _ (insert_lem co (entries cs) h sorted hs)
          (λ r i. (r.1, refl, i))

slots_unit :
    (xs : List (Option Obj))
    → All (OnSlot (EveryObject IsPlain)) xs
    → All (OnSlot (λ o. EveryObject IsPlain o × Unit {0})) xs
slots_unit [] h = tt
slots_unit (none ∷ xs) h = (tt, slots_unit xs h.1)
slots_unit (some o ∷ xs) h = ((h.0, tt), slots_unit xs h.1)

pub slots_every :
    (K : Common → Type 0) (xs : List (Option Obj))
    → All (OnSlot (λ o. EveryObject IsPlain o × K (common o))) xs
    → All (OnSlot (EveryObject IsPlain)) xs
slots_every K [] h = tt
slots_every K (none ∷ xs) h = (tt, slots_every K xs h.1)
slots_every K (some o ∷ xs) h = (h.0.0, slots_every K xs h.1)

-- From a tree in which, on all levels, no object is a variable, none is marked CO_FLAGS_TOPOFTREE, all
-- have a tree and empty objects have no name, and whose objects on the first level are in strictly
-- ascending order, `co_insert1` of another object like these, all of which hold for what is below it,
-- returns, while memory is granted, a tree of the same kind: its objects are in strictly ascending
-- order again, an equal object being merged with. It holds for all settings, if strverscmp(3) is an
-- order.
pub co_insert1-IsOrdered :
    (s : Settings) (t : Tree) (co : Obj)
    → IsOrder s.strverscmp
    → IsOrdered s t
    → EveryObject IsPlain co
    → Returns (co_insert1 s t (some co)) (λ r. IsOrdered s r.1)
co_insert1-IsOrdered s null co vers h k = absurd h
co_insert1-IsOrdered s (tree set cs) co vers h k =
    Returns-mono (co_insert1 s (tree set cs) (some co)) _ _
      (co_insert1_lem s vers (λ c. Unit {0}) set cs co (k, tt) h.0
        (slots_unit (entries cs) (EveryChild-entries IsPlain cs h.1)))
      (λ r i. subst (IsOrdered s) (sym i.1) (
        subst (IsSorted (plain_obj s)) (sym (entries-children i.0)) i.2.0.0,
        EveryChild-children IsPlain i.0 (slots_every (λ c. Unit {0}) i.0 i.2.0.1),
      ))
