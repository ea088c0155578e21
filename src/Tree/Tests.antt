-- ===== src/Tree/Tests.antt =====
-- Trees built, merged and searched, and the theorems at concrete trees.
use cligen.Prelude.{
  ◌≡◌, refl, false, ◌||◌, none, some, List, [], ◌∷◌, Returns, returns, if◌then◌else◌,
}
use cligen.Memory.{Bytes}
use cligen.Strcmp.{Settings, strcmp, str_cmp, strcmp-IsOrder}
use cligen.Cv.Compare.{CvType}
use cligen.Object.{ObjType, command, reference, Common, co_eq, flags_get}
use cligen.Slots.{i_get, insert1_object}
use cligen.Slots.Insert.{put_in, insert1_object-put_in}
use cligen.Tree.{
  Obj, object, Tree, tree, end, child, entries, common, obj_cmp, combine, merge_tree, co_insert1,
  co_find_one,
}
use cligen.Tree.Build.{EveryTree, EveryObject}
use cligen.Tree.Paths.{IsPlain, has_path, named}
use cligen.Tree.Merge.{merge_tree-paths}
use cligen.Tree.Insert.{plain_obj, IsOrdered, order, co_insert1-IsOrdered}
use cligen.Tree.Find.{co_find_one-co_insert1}

abbrev exact : Settings
exact = record { lexicalorder = false; ignorecase = false; strverscmp = strcmp }

abbrev labelled : ObjType → Bytes → Common
labelled type name = record {
  type = type;
  preference = 0;
  name = some name;
  prefix = none;
  callbacks = [];
  helpstring = none;
  flags = 0;
  value = none;
  spec = record {
    vtype = CvType.err;
    expand_fn_str = none;
    translate_fn_str = none;
    choice = none;
    ranges = [];
    regex = none;
    dec64_n = 0;
  };
}

abbrev leaf : Bytes → Obj
leaf name = object (labelled command name) (tree false end)

-- `b x`, `d` and, to be merged with them, `b y` and `a`.
abbrev below : Bytes → Bytes → Obj
below name sub = object (labelled command name) (tree false (child (leaf sub) end))

abbrev two : Tree
two = tree false (child (below (b'b' ∷ []) (b'x' ∷ [])) (child (leaf (b'd' ∷ [])) end))

abbrev other : Tree
other = tree false (child (below (b'b' ∷ []) (b'y' ∷ [])) (child (leaf (b'a' ∷ [])) end))

merged_test :
    merge_tree exact other two
    ≡ returns (
        tree false (
          child (leaf (b'a' ∷ [])) (
            child
              (object
                (labelled command (b'b' ∷ []))
                (tree false (child (leaf (b'x' ∷ [])) (child (leaf (b'y' ∷ [])) end))))
              (child (leaf (b'd' ∷ [])) end))))
unfolding merge_tree co_eq strcmp str_cmp
merged_test = refl

two-Every : EveryTree IsPlain two
unfolding flags_get
two-Every = (((refl, refl, refl), (((refl, refl, refl), tt), tt)), (((refl, refl, refl), tt), tt))

other-Every : EveryTree IsPlain other
unfolding flags_get
other-Every = (((refl, refl, refl), (((refl, refl, refl), tt), tt)), (((refl, refl, refl), tt), tt))

merge_tree-paths_example : Returns (merge_tree exact other two) (λ t.
    EveryTree IsPlain t
    × ((ps : List Bytes)
        → has_path exact ps t ≡ (has_path exact ps two || has_path exact ps other)))
merge_tree-paths_example = merge_tree-paths exact other two strcmp-IsOrder other-Every two-Every

two-IsOrdered : IsOrdered exact two
unfolding strcmp entries flags_get
two-IsOrdered = (((refl, tt), (tt, tt)), two-Every)

-- `b y`, which is merged with `b x`.
abbrev more : Obj
more = below (b'b' ∷ []) (b'y' ∷ [])

more-Every : EveryObject IsPlain more
unfolding flags_get
more-Every = ((refl, refl, refl), (((refl, refl, refl), tt), tt))

co_insert1-IsOrdered_example : Returns (co_insert1 exact two (some more)) (λ r. IsOrdered exact r.1)
co_insert1-IsOrdered_example =
    co_insert1-IsOrdered exact two more strcmp-IsOrder two-IsOrdered more-Every

find_b : co_find_one exact two (some (b'b' ∷ [])) ≡ returns (some (below (b'b' ∷ []) (b'x' ∷ [])))
unfolding co_find_one strcmp i_get
find_b = refl

co_find_one-co_insert1_example : Returns (co_insert1 exact two (some more)) (λ r.
    co_find_one exact r.1 (some (b'b' ∷ []))
    ≡ returns (
        if named exact (b'b' ∷ []) (common more)
        then r.0
        else some (below (b'b' ∷ []) (b'x' ∷ []))))
unfolding entries
co_find_one-co_insert1_example =
    co_find_one-co_insert1 exact two more (b'b' ∷ []) (some (below (b'b' ∷ []) (b'x' ∷ [])))
      strcmp-IsOrder two-IsOrdered (refl, (refl, tt)) more-Every refl find_b

insert1_object-put_in_example :
    insert1_object (obj_cmp exact) (combine exact) more (entries (child (leaf (b'b' ∷ [])) end))
    ≡ put_in (plain_obj exact) (combine exact) more (entries (child (leaf (b'b' ∷ [])) end))
unfolding entries co_eq str_cmp
insert1_object-put_in_example =
    insert1_object-put_in (order exact strcmp-IsOrder) (combine exact) more (obj_cmp exact)
      (some (leaf (b'b' ∷ [])) ∷ []) (tt, tt) (refl, tt)

-- A reference behind the commands is out of the order of names, and is not found.
find_reference :
    co_find_one exact
      (tree false (
        child (leaf (b'b' ∷ [])) (
          child
            (leaf (b'c' ∷ []))
            (child (object (labelled reference (b'a' ∷ [])) (tree false end)) end))))
      (some (b'a' ∷ []))
    ≡ returns none
unfolding co_find_one strcmp i_get
find_reference = refl
