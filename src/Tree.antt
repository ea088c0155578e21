-- ===== src/Tree.antt =====
-- Parse trees of cligen_parsetree.c: copying, sorting and merging, and insertion and search of
-- cligen_object.c. Memory is granted. The pointers to parents are left out.
mod Build
mod Paths
mod Merge
mod Insert
mod Find
mod Tests
use cligen.Prelude.{
  ℕ, ◌+◌, Bool, true, false, Option, none, some, List, [], ◌∷◌, ◌++◌, length, if◌then◌else◌,
  Outcome, returns, fault, ◌>>=◌,
}
use Prim.Native.Nat.{Ordering}
use Prim.Native.Nat.Ordering.{lt, eq, gt}
use cligen.Memory.{Bytes}
use cligen.Order.{with_null}
use cligen.Strcmp.{Settings, str_cmp}
use cligen.Object.{Callback, Common, empty, mark, topoftree, flags_get, flags_reset, co_eq}
use cligen.Slots.{enlarge, search1, insert1_object, insert1_null}

-- `cg_obj` with the tree below it, and `parse_tree` with its flag for sets; a gap is a NULL slot.
mutual
  pub data Obj : Type 0 where
    object : Common → Tree → Obj

  pub data Tree : Type 0 where
    null : Tree
    tree : Bool → Children → Tree

  pub data Children : Type 0 where
    end : Children
    gap : Children → Children
    child : Obj → Children → Children

-- `pt_vec`, as a list.
unfoldable pub entries : Children → List (Option Obj)
entries end = []
entries (gap cs) = none ∷ entries cs
entries (child o cs) = some o ∷ entries cs

unfoldable pub children : List (Option Obj) → Children
children [] = end
children (none ∷ xs) = gap (children xs)
children (some o ∷ xs) = child o (children xs)

abbrev pub common : Obj → Common
common (object c t) = c

-- `co_pt_get`
abbrev pub subtree : Obj → Tree
subtree (object c t) = t

-- `co_eq` and `co_cmp`
abbrev pub obj_cmp : Settings → Obj → Obj → Ordering
obj_cmp s a b = co_eq s (common a) (common b)

abbrev pub co_cmp : Settings → Option Obj → Option Obj → Ordering
co_cmp s = with_null (obj_cmp s)

-- `co_copy` and `pt_copy`, without the pointer to the original. An object on top of an expanded tree
-- is left out of a copy.
unfoldable mutual
  unfolding flags_get flags_reset

  pub copy_object : Obj → Obj
  copy_object (object c t) = object (flags_reset c mark) (copy_tree t)

  pub copy_tree : Tree → Tree
  copy_tree null = null
  copy_tree (tree set cs) = tree set (copy_children cs)

  pub copy_children : Children → Children
  copy_children end = end
  copy_children (gap cs) = gap (copy_children cs)
  copy_children (child (object c t) cs) =
      let rest = copy_children cs in
      let copied = object (flags_reset c mark) (copy_tree t) in
      if flags_get c topoftree then rest else child copied rest

-- qsort(3) by `co_cmp`, as a sort by insertion.
pub insert_sorted : Settings → Option Obj → List (Option Obj) → List (Option Obj)
insert_sorted s o [] = o ∷ []
insert_sorted s o (x ∷ xs) =
    let rest = insert_sorted s o xs in
    elim (co_cmp s o x) [ gt ↦ x ∷ rest | lt ↦ o ∷ x ∷ xs | eq ↦ o ∷ x ∷ xs ]

pub qsort : Settings → List (Option Obj) → List (Option Obj)
unfolding insert_sorted
qsort s [] = []
qsort s (x ∷ xs) = insert_sorted s x (qsort s xs)

-- `cligen_parsetree_sort`; it reads the fields of the tree, which must not be NULL.
pub parsetree_sort : Settings → Tree → Outcome Tree
unfolding qsort entries children
parsetree_sort s null = fault
parsetree_sort s (tree set cs) = returns (tree set (children (qsort s (entries cs))))

-- The callbacks of an object that is there already are kept, unless it has none.
abbrev pub merged_callbacks : List Callback → List Callback → List Callback
merged_callbacks [] new = new
merged_callbacks (c ∷ cs) new = c ∷ cs

-- The inner loop of `cligen_parsetree_merge` for an object, with what is done behind it: the first equal
-- object is merged with, by `merge`, or a copy of the new one is put behind the others.
pub merge_object :
    Settings
    → Common
    → (Tree → Outcome Tree)
    → Obj
    → List (Option Obj)
    → Outcome (List (Option Obj))
merge_object s c1 merge copied [] = returns (some copied ∷ [])
merge_object s c1 merge copied (none ∷ xs) =
    merge_object s c1 merge copied xs >>= λ ys. returns (none ∷ ys)
merge_object s c1 merge copied (some (object c0 t0) ∷ xs) =
    let later = merge_object s c1 merge copied xs >>= λ ys. returns (some (object c0 t0) ∷ ys) in
    let c0' = record c0 { callbacks = merged_callbacks c0.callbacks c1.callbacks } in
    elim (co_eq s c0 c1) [
      | eq ↦ merge t0 >>= λ t. returns (some (object c0' t) ∷ xs)
      | lt ↦ later
      | gt ↦ later
    ]

-- The same for NULL.
pub merge_gap : List (Option Obj) → List (Option Obj)
merge_gap [] = none ∷ []
merge_gap (none ∷ xs) = none ∷ xs
merge_gap (some o ∷ xs) = some o ∷ merge_gap xs

-- What follows the outer loop.
abbrev pub sorted_into : Settings → Bool → Outcome (List (Option Obj)) → Outcome Tree
sorted_into s set m = m >>= λ xs. parsetree_sort s (tree set (children xs))

-- `cligen_parsetree_merge` of the first tree into the second, and its outer loop.
unfoldable mutual
  unfolding parsetree_sort merge_object merge_gap copy_object entries children

  pub merge_tree : Settings → Tree → Tree → Outcome Tree
  merge_tree s null t0 = parsetree_sort s t0
  merge_tree s (tree set1 cs) null = fault
  merge_tree s (tree set1 cs) (tree set0 xs) = sorted_into s set0 (merge_children s cs (entries xs))

  pub merge_children : Settings → Children → List (Option Obj) → Outcome (List (Option Obj))
  merge_children s end xs = returns xs
  merge_children s (gap cs) xs = merge_children s cs (merge_gap xs)
  merge_children s (child (object c1 t1) cs) xs =
      merge_object s c1 (merge_tree s t1) (copy_object (object c1 t1)) xs >>= λ ys.
      merge_children s cs ys

-- `co_insert1` merges the children of an object with those of an equal one that is there.
abbrev pub combine : Settings → Obj → Obj → Outcome Obj
combine s (object c2 t2) (object c1 t1) = merge_tree s t1 t2 >>= λ t. returns (object c2 t)

abbrev pub replaced : Bool → Option Obj × List (Option Obj) → Outcome (Option Obj × Tree)
replaced set (found, xs) = returns (found, tree set (children xs))

-- It returns the object that is in the tree afterwards, and the tree.
pub co_insert1 : Settings → Tree → Option Obj → Outcome (Option Obj × Tree)
unfolding merge_tree insert1_object insert1_null entries children
co_insert1 s null co1 = returns (none, null)
co_insert1 s (tree set cs) none = insert1_null (obj_cmp s) (combine s) (entries cs) >>= replaced set
co_insert1 s (tree set cs) (some co1) =
    insert1_object (obj_cmp s) (combine s) co1 (entries cs) >>= replaced set

-- The name of a slot that is searched for; that of NULL is NULL.
abbrev pub slot_name : Option Obj → Option Bytes
slot_name none = none
slot_name (some o) = (common o).name

-- `co_find_one`
pub co_find_one : Settings → Tree → Option Bytes → Outcome (Option Obj)
unfolding search1 str_cmp entries
co_find_one s null name = returns none
co_find_one s (tree set cs) name =
    let xs = entries cs in
    search1 (length xs + 2) (λ o. str_cmp s name (slot_name o)) xs 0 (length xs + 1)
