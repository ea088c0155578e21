-- ===== src/Tree/Merge.antt =====
-- Merging makes a tree with the paths of both.
use cligen.Prelude.{
  ◌≡◌, refl, ap, ap₂, ◌∙◌, sym, subst, arith, Bool, false, ◌&&◌, ◌||◌, Option, none, some, List, [],
  ◌∷◌, All, Outcome, returns, Returns, Returns-bind, Returns-mono, ◌>>=◌,
}
use Prim.Native.Nat.{Ordering}
use Prim.Native.Nat.Ordering.{lt, eq, gt}
use cligen.Memory.{Bytes}
use cligen.Order.{IsOrder}
use cligen.Strcmp.{Settings}
use cligen.Object.{Callback, Common, mark, topoftree, flags_get, flags_reset, co_eq}
use cligen.Slots.Ordered.{OnSlot}
use cligen.Tree.{
  Obj, object, Tree, null, tree, Children, end, gap, child, entries, children, copy_object, qsort,
  merged_callbacks, parsetree_sort, merge_object, merge_gap, merge_tree, merge_children,
}
use cligen.Tree.Build.{
  EveryTree, EveryChild, EveryObject, any_object, EveryChild-entries, EveryChild-children,
  entries-children, EveryObject-copy_object, All-qsort, any_object-qsort,
}
use cligen.Tree.Paths.{IsPlain, has_path, has_path-copy_tree, leads, named, named-eq}

unmarked : (c : Common) → IsPlain c → IsPlain (flags_reset c mark)
unfolding flags_reset flags_get
unmarked c h = (h.0, flag, h.2)
  where
    flag : flags_get (flags_reset c mark) topoftree ≡ false
    flag = ground arith

recalled : (c : Common) (cs : List Callback) → IsPlain c → IsPlain (record c { callbacks = cs })
unfolding flags_get
recalled c cs h = h

or_false : (a b : Bool) → a ≡ b → (a || false) ≡ b
or_false a b h = ground arith

or_assoc : (a b c d : Bool) → b ≡ (c || d) → (a || b) ≡ ((a || c) || d)
or_assoc a b c d h = ground arith

or_assoc' : (a b c : Bool) → ((a || b) || c) ≡ (a || (b || c))
or_assoc' a b c = ground arith

or_shared :
    (a a' p q r t : Bool) → a ≡ a' → t ≡ (p || q) → ((a && t) || r) ≡ (((a && p) || r) || (a' && q))
or_shared a a' p q r t h k = ground arith

module _ (s : Settings) (vers : IsOrder s.strverscmp) where
  abbrev pub Slot : Option Obj → Type 0
  Slot = OnSlot (EveryObject IsPlain)

  -- A tree that results from two, and vectors that result from a vector and objects with a step `f`.
  abbrev pub Merged : Tree → Tree → Tree → Type 0
  Merged t1 t0 t =
      EveryTree IsPlain t
      × ((ps : List Bytes) → has_path s ps t ≡ (has_path s ps t0 || has_path s ps t1))

  abbrev Added : (Bytes → List Bytes → Bool) → List (Option Obj) → List (Option Obj) → Type 0
  Added f xs ys =
      All Slot ys
      × ((n : Bytes) (ns : List Bytes)
          → any_object (leads s n ns) ys ≡ (any_object (leads s n ns) xs || f n ns))

  sort_lem :
      (set : Bool) (f : Bytes → List Bytes → Bool) (t0 t1 : Tree) (xs ys : List (Option Obj))
      → ((n : Bytes) (ns : List Bytes) → has_path s (n ∷ ns) t0 ≡ any_object (leads s n ns) xs)
      → ((n : Bytes) (ns : List Bytes) → has_path s (n ∷ ns) t1 ≡ f n ns)
      → Added f xs ys
      → Returns (parsetree_sort s (tree set (children ys))) (Merged t1 t0)
  unfolding parsetree_sort has_path
  sort_lem set f t0 t1 xs ys h0 h1 a = (every, paths)
    where
      every : EveryChild IsPlain (children (qsort s (entries (children ys))))
      every =
          EveryChild-children IsPlain _
            (All-qsort s Slot _ (subst (All Slot) (sym (entries-children ys)) a.0))

      paths :
          (ps : List Bytes)
          → has_path s ps (tree set (children (qsort s (entries (children ys)))))
            ≡ (has_path s ps t0 || has_path s ps t1)
      paths [] = refl
      paths (n ∷ ns) =
          ap (any_object (leads s n ns)) (entries-children (qsort s (entries (children ys))))
          ∙ any_object-qsort s (leads s n ns) (entries (children ys))
          ∙ ap (any_object (leads s n ns)) (entries-children ys)
          ∙ a.1 n ns
          ∙ ap₂ ◌||◌ (sym (h0 n ns)) (sym (h1 n ns))

  abbrev leads_by : Obj → Bytes → List Bytes → Bool
  leads_by o n ns = leads s n ns o

  module _ (c1 : Common) (t1 : Tree) (merge : Tree → Outcome Tree) (copied : Obj)
      (plain : IsPlain c1)
      (merges : (t0 : Tree) → EveryTree IsPlain t0 → Returns (merge t0) (Merged t1 t0))
      (every : EveryObject IsPlain copied)
      (same : (n : Bytes) (ns : List Bytes)
        → leads_by copied n ns ≡ leads_by (object c1 t1) n ns) where
    merge_object_lem :
        (xs : List (Option Obj))
        → All Slot xs
        → Returns (merge_object s c1 merge copied xs) (Added (leads_by (object c1 t1)) xs)
    unfolding merge_object
    merge_object_lem [] h = ((every, tt), λ n ns. or_false _ _ (same n ns))
    merge_object_lem (none ∷ xs) h =
        Returns-bind (merge_object s c1 merge copied xs) _ (Added (leads_by (object c1 t1)) xs) _
          (merge_object_lem xs h.1) (λ ys a. ((tt, a.0), a.1))
    merge_object_lem (some (object c0 t0) ∷ xs) h =
        by_order (co_eq s c0 c1) refl (merge_object_lem xs h.1)
      where
        c0' : Common
        c0' = record c0 { callbacks = merged_callbacks c0.callbacks c1.callbacks }

        later : Outcome (List (Option Obj))
        later = merge_object s c1 merge copied xs >>= λ ys. returns (some (object c0 t0) ∷ ys)

        later_lem :
            Returns (merge_object s c1 merge copied xs) (Added (leads_by (object c1 t1)) xs)
            → Returns later (Added (leads_by (object c1 t1)) (some (object c0 t0) ∷ xs))
        later_lem ih =
            Returns-bind (merge_object s c1 merge copied xs) _ (Added (leads_by (object c1 t1)) xs)
              _ ih
              (λ ys a.
                ((h.0, a.0), λ n ns. or_assoc (leads_by (object c0 t0) n ns) _ _ _ (a.1 n ns)))

        by_order :
            (o : Ordering)
            → co_eq s c0 c1 ≡ o
            → Returns (merge_object s c1 merge copied xs) (Added (leads_by (object c1 t1)) xs)
            → Returns
                (elim o [
                  | eq ↦ merge t0 >>= λ t. returns (some (object c0' t) ∷ xs)
                  | lt ↦ later
                  | gt ↦ later
                ])
                (Added (leads_by (object c1 t1)) (some (object c0 t0) ∷ xs))
        by_order lt e ih = later_lem ih
        by_order gt e ih = later_lem ih
        by_order eq e ih = Returns-bind (merge t0) _ (Merged t1 t0) _ (merges t0 h.0.1) (λ t m. (
          ((recalled c0 _ h.0.0, m.0), h.1),
          λ n ns.
              or_shared (named s n c0) (named s n c1) _ _ _ _
                (named-eq s vers n c0 c1 h.0.0 plain e) (m.1 ns),
        ))

  merge_gap_lem :
      (xs : List (Option Obj))
      → All Slot xs
      → All Slot (merge_gap xs)
        × ((n : Bytes) (ns : List Bytes)
            → any_object (leads s n ns) (merge_gap xs) ≡ any_object (leads s n ns) xs)
  unfolding merge_gap
  merge_gap_lem [] h = ((tt, tt), λ n ns. refl)
  merge_gap_lem (none ∷ xs) h = (h, λ n ns. refl)
  merge_gap_lem (some o ∷ xs) h =
      let ih = merge_gap_lem xs h.1 in
      ((h.0, ih.0), λ n ns. ap (λ b. leads s n ns o || b) (ih.1 n ns))

  copy_lem :
      (c : Common) (t : Tree)
      → EveryObject IsPlain (object c t)
      → (n : Bytes) (ns : List Bytes)
      → leads_by (copy_object (object c t)) n ns ≡ leads_by (object c t) n ns
  unfolding copy_object
  copy_lem c t h n ns = ap (λ b. named s n c && b) (has_path-copy_tree s ns t h.1)

  first_step :
      (set : Bool) (cs : Children) (n : Bytes) (ns : List Bytes)
      → has_path s (n ∷ ns) (tree set cs) ≡ any_object (leads s n ns) (entries cs)
  unfolding has_path
  first_step set cs n ns = refl

  mutual
    unfolding merge_tree entries

    merge_tree_lem :
        (t1 t0 : Tree)
        → EveryTree IsPlain t1
        → EveryTree IsPlain t0
        → Returns (merge_tree s t1 t0) (Merged t1 t0)
    merge_tree_lem null t0 h1 h0 = absurd h1
    merge_tree_lem (tree set1 cs) null h1 h0 = absurd h0
    merge_tree_lem (tree set1 cs) (tree set0 xs) h1 h0 =
        Returns-bind (merge_children s cs (entries xs)) _
          (Added (λ n ns. any_object (leads s n ns) (entries cs)) (entries xs))
          (Merged (tree set1 cs) (tree set0 xs))
          (merge_children_lem cs (entries xs) h1 (EveryChild-entries IsPlain xs h0))
          (λ ys a.
            sort_lem set0 _ (tree set0 xs) (tree set1 cs) (entries xs) ys
              (λ n ns. first_step set0 xs n ns) (λ n ns. first_step set1 cs n ns) a)

    merge_children_lem :
        (cs : Children) (xs : List (Option Obj))
        → EveryChild IsPlain cs
        → All Slot xs
        → Returns
            (merge_children s cs xs)
            (Added (λ n ns. any_object (leads s n ns) (entries cs)) xs)
    merge_children_lem end xs h hs = (hs, λ n ns. sym (or_false _ _ refl))
    merge_children_lem (gap cs) xs h hs =
        let g = merge_gap_lem xs hs in
        Returns-mono (merge_children s cs (merge_gap xs)) _ _
          (merge_children_lem cs (merge_gap xs) h g.0)
          (λ ys a. (
            a.0,
            λ n ns. a.1 n ns ∙ ap (λ b. b || any_object (leads s n ns) (entries cs)) (g.1 n ns),
          ))
    merge_children_lem (child (object c1 t1) cs) xs h hs =
        Returns-bind (merge_object s c1 (merge_tree s t1) (copy_object (object c1 t1)) xs) _
          (Added (leads_by (object c1 t1)) xs) _
          (merge_object_lem c1 t1 (merge_tree s t1) (copy_object (object c1 t1)) h.0.0
            (λ t0 h0. merge_tree_lem t1 t0 h.0.1 h0)
            (EveryObject-copy_object IsPlain unmarked (object c1 t1) h.0) (copy_lem c1 t1 h.0) xs
            hs)
          (λ ys a.
            Returns-mono (merge_children s cs ys) _ _ (merge_children_lem cs ys h.1 a.0) (λ zs b. (
              b.0,
              λ n ns.
                  b.1 n ns
                  ∙ ap (λ b. b || any_object (leads s n ns) (entries cs)) (a.1 n ns)
                  ∙ or_assoc' (any_object (leads s n ns) xs) (leads_by (object c1 t1) n ns)
                      (any_object (leads s n ns) (entries cs)),
            )))

-- Of two trees in which, on all levels, no object is a variable, none is marked CO_FLAGS_TOPOFTREE, all
-- have a tree, if only an empty one, and empty objects have no name, `cligen_parsetree_merge` returns,
-- while memory is granted, such a tree again, and a path of names is in it exactly if it is in one of
-- the two. It holds for all settings, if strverscmp(3) is an order.
pub merge_tree-paths :
    (s : Settings) (t1 t0 : Tree)
    → IsOrder s.strverscmp
    → EveryTree IsPlain t1
    → EveryTree IsPlain t0
    → Returns (merge_tree s t1 t0) (λ t.
      EveryTree IsPlain t
      × ((ps : List Bytes) → has_path s ps t ≡ (has_path s ps t0 || has_path s ps t1)))
merge_tree-paths s t1 t0 vers h1 h0 = merge_tree_lem s vers t1 t0 h1 h0
