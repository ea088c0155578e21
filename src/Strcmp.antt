-- ===== src/Strcmp.antt =====
-- Comparison of strings with strcmp(3) and strcasecmp(3), of strings that may be NULL as `str_cmp` of
-- cligen_object.c compares them; of the int that C returns the sign is
-- kept.
use cligen.Prelude.{
  ℕ, ◌+◌, ◌≡◌, refl, arith, Bool, true, false, ◌&&◌, Option, [], ◌∷◌, map, leb, if◌then◌else◌,
}
use cligen.Memory.{Bytes}
use cligen.Order.{IsOrder, swap, or_else, with_null}
use Prim.Native.Nat.{compare, Ordering}
use Prim.Native.Nat.Ordering.{lt, eq, gt}

unfoldable pub strcmp : Bytes → Bytes → Ordering
strcmp [] [] = eq
strcmp [] (d ∷ t) = lt
strcmp (c ∷ s) [] = gt
strcmp (c ∷ s) (d ∷ t) = or_else (compare c d) (strcmp s t)

-- tolower(3) in the C locale
abbrev pub tolower : ℕ → ℕ
tolower c = if leb b'A' c && leb c b'Z' then c + 32 else c

pub strcasecmp : Bytes → Bytes → Ordering
strcasecmp s t = strcmp (map tolower s) (map tolower t)

-- The two global settings that `str_cmp` asks for, and strverscmp(3).
pub record Settings : Type 0 where
  pub lexicalorder : Bool
  pub ignorecase : Bool
  pub strverscmp : Bytes → Bytes → Ordering

abbrev pub selected : Settings → Bytes → Bytes → Ordering
selected s = if s.lexicalorder then s.strverscmp else if s.ignorecase then strcasecmp else strcmp

-- `str_cmp`, where strverscmp(3) is there
unfoldable pub str_cmp : Settings → Option Bytes → Option Bytes → Ordering
str_cmp s = with_null (selected s)

pub compare-IsOrder : IsOrder compare
compare-IsOrder = record {
  flip = λ a b. ground arith;
  lt_trans = λ a b c. ground arith;
  eq_left = λ a b c. ground arith;
}

strcmp-flip : (s t : Bytes) → strcmp t s ≡ swap (strcmp s t)
unfolding strcmp
strcmp-flip [] [] = refl
strcmp-flip [] (d ∷ t) = refl
strcmp-flip (c ∷ s) [] = refl
strcmp-flip (c ∷ s) (d ∷ t) = ground (arith, strcmp-flip s t)

strcmp-lt_trans : (s t u : Bytes) → strcmp s t ≡ lt → strcmp t u ≡ lt → strcmp s u ≡ lt
unfolding strcmp
strcmp-lt_trans [] [] u p q = q
strcmp-lt_trans [] (d ∷ t) [] p q = cc
strcmp-lt_trans [] (d ∷ t) (e ∷ u) p q = refl
strcmp-lt_trans (c ∷ s) [] u p q = cc
strcmp-lt_trans (c ∷ s) (d ∷ t) [] p q = cc
strcmp-lt_trans (c ∷ s) (d ∷ t) (e ∷ u) p q = ground (arith, strcmp-lt_trans s t u)

strcmp-eq_left : (s t u : Bytes) → strcmp s t ≡ eq → strcmp s u ≡ strcmp t u
unfolding strcmp
strcmp-eq_left [] [] u p = refl
strcmp-eq_left [] (d ∷ t) u p = cc
strcmp-eq_left (c ∷ s) [] u p = cc
strcmp-eq_left (c ∷ s) (d ∷ t) [] p = refl
strcmp-eq_left (c ∷ s) (d ∷ t) (e ∷ u) p = ground (arith, strcmp-eq_left s t u)

pub strcmp-IsOrder : IsOrder strcmp
strcmp-IsOrder = record { flip = strcmp-flip; lt_trans = strcmp-lt_trans; eq_left = strcmp-eq_left }

pub strcasecmp-IsOrder : IsOrder strcasecmp
unfolding strcasecmp
strcasecmp-IsOrder = record {
  flip = λ s t. strcmp-flip (map tolower s) (map tolower t);
  lt_trans = λ s t u. strcmp-lt_trans (map tolower s) (map tolower t) (map tolower u);
  eq_left = λ s t u. strcmp-eq_left (map tolower s) (map tolower t) (map tolower u);
}

-- `str_cmp` puts strings in order whatever the settings are, if strverscmp(3) does.
pub selected-IsOrder : (s : Settings) → IsOrder s.strverscmp → IsOrder (selected s)
selected-IsOrder s vers = by_flags s.lexicalorder s.ignorecase
  where
    by_flags : (l i : Bool) → IsOrder (if l then s.strverscmp else if i then strcasecmp else strcmp)
    by_flags true i = vers
    by_flags false true = strcasecmp-IsOrder
    by_flags false false = strcmp-IsOrder
