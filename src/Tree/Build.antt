-- ===== src/Tree/Build.antt =====
-- Predicates on all objects of a tree, kept by copying and sorting.
use cligen.Prelude.{
  ◌≡◌, refl, ap, ◌∙◌, arith, Bool, true, false, ◌||◌, Option, none, some, List, [], ◌∷◌, All,
  if◌then◌else◌,
}
use Prim.Native.Nat.{Ordering}
use Prim.Native.Nat.Ordering.{lt, eq, gt}
use cligen.Strcmp.{Settings}
use cligen.Object.{Common, mark, topoftree, flags_get, flags_reset}
use cligen.Slots.Ordered.{OnSlot}
use cligen.Tree.{
  Obj, object, Tree, null, tree, Children, end, gap, child, entries, children, co_cmp, copy_object,
  copy_tree, copy_children, insert_sorted, qsort,
}

-- Every object satisfies `P`, and none lacks a tree.
abbrev mutual
  pub EveryObject : (Common → Type 0) → Obj → Type 0
  EveryObject P (object c t) = P c × EveryTree P t

  pub EveryTree : (Common → Type 0) → Tree → Type 0
  EveryTree P null = ⊥
  EveryTree P (tree set cs) = EveryChild P cs

  pub EveryChild : (Common → Type 0) → Children → Type 0
  EveryChild P end = Unit
  EveryChild P (gap cs) = EveryChild P cs
  EveryChild P (child o cs) = EveryObject P o × EveryChild P cs

pub entries-children : (xs : List (Option Obj)) → entries (children xs) ≡ xs
unfolding entries children
entries-children [] = refl
entries-children (none ∷ xs) = ap (◌∷◌ none) (entries-children xs)
entries-children (some o ∷ xs) = ap (◌∷◌ (some o)) (entries-children xs)

module _ (P : Common → Type 0) where
  pub EveryChild-entries :
      (cs : Children) → EveryChild P cs → All (OnSlot (EveryObject P)) (entries cs)
  unfolding entries
  EveryChild-entries end h = tt
  EveryChild-entries (gap cs) h = (tt, EveryChild-entries cs h)
  EveryChild-entries (child o cs) h = (h.0, EveryChild-entries cs h.1)

  pub EveryChild-children :
      (xs : List (Option Obj)) → All (OnSlot (EveryObject P)) xs → EveryChild P (children xs)
  unfolding children
  EveryChild-children [] h = tt
  EveryChild-children (none ∷ xs) h = EveryChild-children xs h.1
  EveryChild-children (some o ∷ xs) h = (h.0, EveryChild-children xs h.1)

  -- `P` says nothing of the mark, so that a copy satisfies it, too.
  module _ (unmarked : (c : Common) → P c → P (flags_reset c mark)) where
    mutual
      unfolding copy_object

      copy_tree_lem : (t : Tree) → EveryTree P t → EveryTree P (copy_tree t)
      copy_tree_lem null h = h
      copy_tree_lem (tree set cs) h = copy_children_lem cs h

      copy_children_lem : (cs : Children) → EveryChild P cs → EveryChild P (copy_children cs)
      copy_children_lem end h = h
      copy_children_lem (gap cs) h = copy_children_lem cs h
      copy_children_lem (child (object c t) cs) h =
          by_flag (flags_get c topoftree)
            ((unmarked c h.0.0, copy_tree_lem t h.0.1), copy_children_lem cs h.1)
        where
          by_flag :
              (b : Bool)
              → EveryObject P (object (flags_reset c mark) (copy_tree t))
                × EveryChild P (copy_children cs)
              → EveryChild P (
                  if b
                  then copy_children cs
                  else child (object (flags_reset c mark) (copy_tree t)) (copy_children cs))
          by_flag true r = r.1
          by_flag false r = r

    pub EveryObject-copy_object : (o : Obj) → EveryObject P o → EveryObject P (copy_object o)
    unfolding copy_object
    EveryObject-copy_object (object c t) h = (unmarked c h.0, copy_tree_lem t h.1)

module _ (s : Settings) where
  All-insert_sorted :
      (P : Option Obj → Type 0) (o : Option Obj) (xs : List (Option Obj))
      → P o
      → All P xs
      → All P (insert_sorted s o xs)
  unfolding insert_sorted
  All-insert_sorted P o [] h hs = (h, tt)
  All-insert_sorted P o (x ∷ xs) h hs = by_order (co_cmp s o x) (All-insert_sorted P o xs h hs.1)
    where
      by_order :
          (r : Ordering)
          → All P (insert_sorted s o xs)
          → All P (elim r [ gt ↦ x ∷ insert_sorted s o xs | lt ↦ o ∷ x ∷ xs | eq ↦ o ∷ x ∷ xs ])
      by_order lt ih = (h, hs)
      by_order eq ih = (h, hs)
      by_order gt ih = (hs.0, ih)

  pub All-qsort : (P : Option Obj → Type 0) (xs : List (Option Obj)) → All P xs → All P (qsort s xs)
  unfolding qsort
  All-qsort P [] h = tt
  All-qsort P (x ∷ xs) h = All-insert_sorted P x (qsort s xs) h.0 (All-qsort P xs h.1)

-- Some object of the vector passes a test.
abbrev pub any_object : (Obj → Bool) → List (Option Obj) → Bool
any_object f [] = false
any_object f (none ∷ xs) = any_object f xs
any_object f (some o ∷ xs) = f o || any_object f xs

module _ (s : Settings) (f : Obj → Bool) where
  any_object-insert_sorted :
      (o : Option Obj) (xs : List (Option Obj))
      → any_object f (insert_sorted s o xs) ≡ any_object f (o ∷ xs)
  unfolding insert_sorted
  any_object-insert_sorted o [] = refl
  any_object-insert_sorted o (x ∷ xs) = by_order (co_cmp s o x) (any_object-insert_sorted o xs)
    where
      swapped :
          (o x : Option Obj) (ys : List (Option Obj))
          → any_object f ys ≡ any_object f (o ∷ xs)
          → any_object f (x ∷ ys) ≡ any_object f (o ∷ x ∷ xs)
      swapped none none ys h = h
      swapped none (some x) ys h = ap (λ b. f x || b) h
      swapped (some o) none ys h = h
      swapped (some o) (some x) ys h = ground arith

      by_order :
          (r : Ordering)
          → any_object f (insert_sorted s o xs) ≡ any_object f (o ∷ xs)
          → any_object f
              (elim r [ gt ↦ x ∷ insert_sorted s o xs | lt ↦ o ∷ x ∷ xs | eq ↦ o ∷ x ∷ xs ])
            ≡ any_object f (o ∷ x ∷ xs)
      by_order lt ih = refl
      by_order eq ih = refl
      by_order gt ih = swapped o x (insert_sorted s o xs) ih

  any_object-cons :
      (x : Option Obj) (xs ys : List (Option Obj))
      → any_object f xs ≡ any_object f ys
      → any_object f (x ∷ xs) ≡ any_object f (x ∷ ys)
  any_object-cons none xs ys h = h
  any_object-cons (some x) xs ys h = ap (λ b. f x || b) h

  pub any_object-qsort : (xs : List (Option Obj)) → any_object f (qsort s xs) ≡ any_object f xs
  unfolding qsort
  any_object-qsort [] = refl
  any_object-qsort (x ∷ xs) =
      any_object-insert_sorted x (qsort s xs)
      ∙ any_object-cons x (qsort s xs) xs (any_object-qsort xs)
