-- ===== src/Order.antt =====
-- What a comparison has to satisfy to put values in order, and how such comparisons are made of others.
use cligen.Prelude.{◌≡◌, ◌⊎◌, inl, inr, refl, arith, Option, none, some}
use Prim.Native.Nat.{Ordering}
use Prim.Native.Nat.Ordering.{lt, eq, gt}

abbrev pub swap : Ordering → Ordering
swap lt = gt
swap eq = eq
swap gt = lt

-- The second comparison counts where the first finds no difference.
abbrev pub or_else : Ordering → Ordering → Ordering
or_else lt o = lt
or_else eq o = o
or_else gt o = gt

pub record IsOrder {ℓ} {A : Type ℓ} (cmp : A → A → Ordering) : Type ℓ where
  pub flip : (a b : A) → cmp b a ≡ swap (cmp a b)
  pub lt_trans : (a b c : A) → cmp a b ≡ lt → cmp b c ≡ lt → cmp a c ≡ lt
  pub eq_left : (a b c : A) → cmp a b ≡ eq → cmp a c ≡ cmp b c

-- NULL is less than every value.
abbrev pub with_null {ℓ} : {A : Type ℓ} → (A → A → Ordering) → Option A → Option A → Ordering
with_null cmp none none = eq
with_null cmp none (some b) = lt
with_null cmp (some a) none = gt
with_null cmp (some a) (some b) = cmp a b

pub Ordering-cases : (o : Ordering) → (o ≡ lt) ⊎ (o ≡ eq) ⊎ (o ≡ gt)
Ordering-cases lt = inl refl
Ordering-cases eq = inr (inl refl)
Ordering-cases gt = inr (inr refl)

module _ {ℓ} {A : Type ℓ} {cmp : A → A → Ordering} (o : IsOrder cmp) where
  with_null-flip : (a b : Option A) → with_null cmp b a ≡ swap (with_null cmp a b)
  with_null-flip none none = refl
  with_null-flip none (some b) = refl
  with_null-flip (some a) none = refl
  with_null-flip (some a) (some b) = o.flip a b

  with_null-lt_trans :
      (a b c : Option A) → with_null cmp a b ≡ lt → with_null cmp b c ≡ lt → with_null cmp a c ≡ lt
  with_null-lt_trans none none c p q = q
  with_null-lt_trans none (some b) none p q = cc
  with_null-lt_trans none (some b) (some c) p q = refl
  with_null-lt_trans (some a) none c p q = cc
  with_null-lt_trans (some a) (some b) none p q = cc
  with_null-lt_trans (some a) (some b) (some c) p q = o.lt_trans a b c p q

  with_null-eq_left :
      (a b c : Option A) → with_null cmp a b ≡ eq → with_null cmp a c ≡ with_null cmp b c
  with_null-eq_left none none c p = refl
  with_null-eq_left none (some b) c p = cc
  with_null-eq_left (some a) none c p = cc
  with_null-eq_left (some a) (some b) none p = refl
  with_null-eq_left (some a) (some b) (some c) p = o.eq_left a b c p

  pub with_null-IsOrder : IsOrder (with_null cmp)
  with_null-IsOrder = record {
    flip = with_null-flip;
    lt_trans = with_null-lt_trans;
    eq_left = with_null-eq_left;
  }

  pub cmp_refl : (a : A) → cmp a a ≡ eq
  cmp_refl a = ground (arith, o.flip a a)

  pub lt-eq_trans : (a b c : A) → cmp a b ≡ lt → cmp b c ≡ eq → cmp a c ≡ lt
  lt-eq_trans a b c p q = ground (arith, o.flip a b, o.flip a c, o.eq_left b c a q)

-- An order of what a function finds in the values, and an order that asks a second one.
pub pulled-IsOrder {ℓ κ} :
    {A : Type ℓ} {B : Type κ} {cmp : B → B → Ordering} (o : IsOrder cmp) (f : A → B)
    → IsOrder (λ (x : A) (y : A). cmp (f x) (f y))
pulled-IsOrder o f = record {
  flip = λ a b. o.flip (f a) (f b);
  lt_trans = λ a b c. o.lt_trans (f a) (f b) (f c);
  eq_left = λ a b c. o.eq_left (f a) (f b) (f c);
}

module _ {ℓ} {A : Type ℓ} {first second : A → A → Ordering} (o : IsOrder first)
    (p : IsOrder second) where
  abbrev both : A → A → Ordering
  both a b = or_else (first a b) (second a b)

  both-flip : (a b : A) → both b a ≡ swap (both a b)
  both-flip a b = ground (arith, o.flip a b, p.flip a b)

  both-lt_trans : (a b c : A) → both a b ≡ lt → both b c ≡ lt → both a c ≡ lt
  both-lt_trans a b c =
      ground (arith, o.lt_trans a b c, o.eq_left a b c, lt-eq_trans o a b c, p.lt_trans a b c)

  both-eq_left : (a b c : A) → both a b ≡ eq → both a c ≡ both b c
  both-eq_left a b c = ground (arith, o.eq_left a b c, p.eq_left a b c)

  pub or_else-IsOrder : IsOrder both
  or_else-IsOrder = record { flip = both-flip; lt_trans = both-lt_trans; eq_left = both-eq_left }
