-- ===== src/History/Window.antt =====
-- The slots of the ring in the order of their age.
use cligen.Prelude.{
  ℕ, zero, suc, ◌+◌, ◌-◌, ◌%◌, ◌≤◌, ◌<◌, ◌≡◌, ◌≢◌, ◌⊎◌, inl, inr, refl, ap, ap₂, ◌∙◌, sym, arith,
  List, [], ◌∷◌, ◌++◌, length, get_or, set, get_or-set_ne, get_or-set_self, replicate,
}
use native.Mathlib.Nat.{mod-add-mod, mod-eq_of_lt, mod-eq-sub-mod}
use native.Mathlib.Decide.{dec_lt}

-- A step of fewer than `size` slots goes round the end of the ring at most once.
abbrev Wraps : ℕ → ℕ → ℕ → Type 0
Wraps size i k =
    ((i + k) % size ≡ i + k) × (i + k < size) ⊎ (((i + k) % size ≡ i + k - size) × (size ≤ i + k))

pub wrap_cases : (size i k : ℕ) → i < size → k < size → Wraps size i k
wrap_cases size i k hi hk = elim (dec_lt (i + k) size) [
  | yes p ↦ inl (mod-eq_of_lt p, p)
  | no p ↦ inr (
    mod-eq-sub-mod {n = i + k} {m = size} (omega arith) ∙ mod-eq_of_lt (omega arith),
    omega arith,
  )
]

pub mod_suc : (size i n : ℕ) → ((i + 1) % size + n) % size ≡ (i + suc n) % size
mod_suc size i n = rw mod-add-mod (ap (λ k. k % size) (omega arith))

pub mod_zero : (size i : ℕ) → i < size → (i + 0) % size ≡ i
mod_zero size i h = omega (arith, mod-eq_of_lt {n = i + 0} {m = size} (omega arith))

module _ {ℓ} {A : Type ℓ} (size : ℕ) (d : A) where
  -- The `n` slots from index `i` on, going round at `size`.
  abbrev pub window : List A → ℕ → ℕ → List A
  window slots i zero = []
  window slots i (suc n) = get_or slots i d ∷ window slots ((i + 1) % size) n

  pub length-window : (slots : List A) (i n : ℕ) → length (window slots i n) ≡ n
  length-window slots i zero = refl
  length-window slots i (suc n) = ap suc (length-window slots ((i + 1) % size) n)

  -- The last of the slots, taken by itself.
  window-suc :
      (slots : List A) (i n : ℕ)
      → i < size
      → window slots i (suc n) ≡ window slots i n ++ (get_or slots ((i + n) % size) d ∷ [])
  window-suc slots i zero h = rw (mod_zero size i h)
  window-suc slots i (suc n) h = ap (◌∷◌ (get_or slots i d)) (
      window-suc slots ((i + 1) % size) n (omega arith)
      ∙ ap (λ k. window slots ((i + 1) % size) n ++ (get_or slots k d ∷ [])) (mod_suc size i n))

  -- A write to a slot that the window does not reach.
  window-set :
      (slots : List A) (i n j : ℕ) (v : A)
      → i < size
      → ((k : ℕ) → k < n → (i + k) % size ≢ j)
      → window (set slots j v) i n ≡ window slots i n
  window-set slots i zero j v h out = refl
  window-set slots i (suc n) j v h out =
      ap₂ ◌∷◌ (get_or-set_ne slots v d (λ e. out 0 (omega arith) (mod_zero size i h ∙ sym e))) (
        window-set slots ((i + 1) % size) n j v (omega arith)
          (λ k hk e. out (suc k) (omega arith) (sym (mod_suc size i k) ∙ e)))

-- Where the slots behind slot `last` stand in the ring, seen from the one behind its successor.
module _ (size n last : ℕ) (two : size ≡ n + 2) (in_ring : last < size) where
  abbrev after : ℕ
  after = (last + 1) % size

  abbrev second : ℕ
  second = (after + 1) % size

  to_after : Wraps size last 1
  to_after = wrap_cases size last 1 in_ring (omega arith)

  to_second : Wraps size after 1
  to_second = wrap_cases size after 1 (omega arith) (omega arith)

  second-ne : (k : ℕ) → k < n → ((second + k) % size ≢ last) × ((second + k) % size ≢ after)
  second-ne k h = (
    λ e. omega (arith, e, to_after, to_second, far),
    λ e. omega (arith, e, to_after, to_second, far),
  )
    where
      far : Wraps size second k
      far = wrap_cases size second k (omega arith) (omega arith)

  second-last : (second + n) % size ≡ last
  second-last =
      omega (arith, to_after, to_second, wrap_cases size second n (omega arith) (omega arith))

  last-ne-after : after ≢ last
  last-ne-after e = omega (arith, e, to_after)

  -- A value put at `last`, and another behind it: all slots but the oldest, then the value.
  module _ {ℓ} {A : Type ℓ} (d : A) (slots : List A) (v e : A) (sized : length slots ≡ size) where
    pub window-push :
        window size d (set (set slots last v) after e) second (suc n)
        ≡ window size d slots second n ++ (v ∷ [])
    window-push =
        window-suc size d (set (set slots last v) after e) second n (omega arith)
        ∙ ap₂ (λ w x. w ++ (x ∷ []))
            (window-set size d (set slots last v) second n after e (omega arith)
                (λ k h. (second-ne k h).1)
              ∙ window-set size d slots second n last v (omega arith) (λ k h. (second-ne k h).0))
            (ap (λ k. get_or (set (set slots last v) after e) k d) second-last
              ∙ get_or-set_ne (set slots last v) e d last-ne-after
              ∙ get_or-set_self slots last v d (omega arith))

module _ {ℓ} {A : Type ℓ} (size : ℕ) (d : A) where
  pub get_or-window :
      (slots : List A) (i n j : ℕ)
      → i < size
      → j < n
      → get_or (window size d slots i n) j d ≡ get_or slots ((i + j) % size) d
  get_or-window slots i zero j h lt = absurd (omega arith)
  get_or-window slots i (suc n) zero h lt = ap (λ k. get_or slots k d) (sym (mod_zero size i h))
  get_or-window slots i (suc n) (suc j) h lt =
      get_or-window slots ((i + 1) % size) n j (omega arith) (omega arith)
      ∙ ap (λ k. get_or slots k d) (mod_suc size i j)

-- The slot `k` steps behind `last` is the `k`-th from the end of the window.
pub behind :
    (size last k : ℕ)
    → last < size
    → 0 < k
    → k < size
    → (last + (size - k)) % size ≡ ((last + 1) % size + (size - 1 - k)) % size
behind size last k h p q = omega (
  arith,
  wrap_cases size last 1 h (omega arith),
  wrap_cases size ((last + 1) % size) (size - 1 - k) (omega arith) (omega arith),
  wrap_cases size last (size - k) h (omega arith),
)

-- One step back from there, which is not `last`.
pub behind-back :
    (size last k : ℕ)
    → last < size
    → 0 < k
    → k + 1 < size
    → ((last + (size - k)) % size + size - 1) % size ≡ (last + (size - (k + 1))) % size
behind-back size last k h p q = omega (
  arith,
  ap (λ i. i % size) regroup,
  wrap_cases size last (size - k) h (omega arith),
  wrap_cases size last (size - (k + 1)) h (omega arith),
  wrap_cases size ((last + (size - k)) % size) (size - 1) (omega arith) (omega arith),
)
  where
    regroup : (last + (size - k)) % size + size - 1 ≡ (last + (size - k)) % size + (size - 1)
    regroup = omega arith

pub behind-ne :
    (size last k : ℕ) → last < size → 0 < k → k < size → (last + (size - k)) % size ≢ last
behind-ne size last k h p q e = omega (arith, e, wrap_cases size last (size - k) h (omega arith))

-- A step forward undoes a step back.
pub forth-back : (size i : ℕ) → 1 < size → i < size → ((i + size - 1) % size + 1) % size ≡ i
forth-back size i two h = omega (
  arith,
  ap (λ k. k % size) regroup,
  wrap_cases size i (size - 1) h (omega arith),
  wrap_cases size ((i + size - 1) % size) 1 (omega arith) (omega arith),
)
  where
    regroup : i + size - 1 ≡ i + (size - 1)
    regroup = omega arith

-- Slots that hold one value.
module _ {ℓ} {A : Type ℓ} (size : ℕ) (d v : A) (slots : List A) where
  pub window_const :
      (i n : ℕ)
      → i < size
      → ((k : ℕ) → k < n → get_or slots ((i + k) % size) d ≡ v)
      → window size d slots i n ≡ replicate n v
  window_const i zero h same = refl
  window_const i (suc n) h same =
      ap₂ ◌∷◌ (ap (λ k. get_or slots k d) (sym (mod_zero size i h)) ∙ same 0 (omega arith)) (
        window_const ((i + 1) % size) n (omega arith)
          (λ k lt. ap (λ j. get_or slots j d) (mod_suc size i k) ∙ same (suc k) (omega arith)))
