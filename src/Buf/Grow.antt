-- ===== src/Buf/Grow.antt =====
-- The loop of `cbuf_realloc` that enlarges `cb_buflen`.
use cligen.Prelude.{
  ℕ, zero, suc, ◌+◌, ◌-◌, ◌/◌, ◌≤◌, ◌<◌, ◌≡◌, refl, not, ◌||◌, ◌==◌, ltb, if◌then◌else◌, arith,
}
use cligen.Memory.{size_max, add_size, double_size}
use cligen.Buf.{Growth, enough, enomem, spinning, grow}

-- The loop ends, at a size that is enough, or at the error exit below what is needed.
abbrev pub Grown : ℕ → ℕ → Growth → Type 0
Grown needed buflen (enough n) = (needed ≤ n) × (buflen ≤ n) × (n ≤ size_max)
Grown needed buflen (enomem n) = (n < needed) × (buflen ≤ n) × (n ≤ size_max)
Grown needed buflen spinning = ⊥

Grown-trans : (needed a b : ℕ) (g : Growth) → a ≤ b → Grown needed b g → Grown needed a g
Grown-trans needed a b (enough n) h g = omega arith
Grown-trans needed a b (enomem n) h g = omega arith
Grown-trans needed a b spinning h g = g

-- One round of the loop.
grow_step :
    (fuel threshold needed buflen : ℕ)
    → grow (suc fuel) threshold needed buflen ≡ (
        if not (ltb buflen needed)
        then enough buflen
        else if threshold == 0 || ltb buflen threshold
        then (if ltb (size_max / 2) buflen
            then enomem buflen
            else grow fuel threshold needed (double_size buflen))
        else if ltb (size_max - threshold) buflen
        then enomem buflen
        else grow fuel threshold needed (add_size buflen threshold))
unfolding grow
grow_step fuel threshold needed buflen = refl

pub grow-Grown :
    (fuel threshold needed buflen : ℕ)
    → 0 < buflen
    → buflen ≤ size_max
    → needed ≤ buflen + fuel
    → threshold ≤ size_max
    → Grown needed buflen (grow (suc fuel) threshold needed buflen)
grow-Grown zero threshold needed buflen p q h t =
    ground (arith, grow_step 0 threshold needed buflen)
grow-Grown (suc fuel) threshold needed buflen p q h t = ground (
  arith,
  grow_step (suc fuel) threshold needed buflen,
  grow-Grown fuel threshold needed (buflen + buflen),
  grow-Grown fuel threshold needed (buflen + threshold),
  Grown-trans needed buflen (buflen + buflen) (grow (suc fuel) threshold needed (buflen + buflen)),
  Grown-trans needed buflen (buflen + threshold)
      (grow (suc fuel) threshold needed (buflen + threshold)),
)

abbrev pub IsEnough : Growth → Type 0
IsEnough (enough n) = Unit
IsEnough _ = ⊥

-- Below 2 ^ 62 the loop cannot meet the error exit.
pub grow-IsEnough :
    (fuel threshold needed buflen : ℕ)
    → 0 < buflen
    → buflen ≤ size_max
    → needed ≤ buflen + fuel
    → needed < 4611686018427387904
    → threshold < 4611686018427387904
    → IsEnough (grow (suc fuel) threshold needed buflen)
grow-IsEnough zero threshold needed buflen p q h k t =
    ground (arith, grow_step 0 threshold needed buflen)
grow-IsEnough (suc fuel) threshold needed buflen p q h k t = ground (
  arith,
  grow_step (suc fuel) threshold needed buflen,
  grow-IsEnough fuel threshold needed (buflen + buflen),
  grow-IsEnough fuel threshold needed (buflen + threshold),
)

-- From size 0 the loop never ends: doubling keeps 0.
pub grow_zero : (fuel threshold needed : ℕ) → 0 < needed → grow fuel threshold needed 0 ≡ spinning
unfolding grow
grow_zero zero threshold needed h = refl
grow_zero (suc fuel) threshold needed h = ground (arith, grow_zero fuel threshold needed h)
