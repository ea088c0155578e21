-- ===== src/Slots/Search.antt =====
-- Bisection finds the place of an object in a vector that its comparison splits.
use cligen.Prelude.{
  ℕ, zero, suc, ◌+◌, ◌-◌, ◌/◌, ◌≤◌, ◌<◌, ◌≡◌, ◌≢◌, refl, ap, arith, Option, none, some, List, [],
  ◌∷◌, inl, inr, Bool-cases, leb, leb→le, length, get_elem?, All, All-get_elem?, Outcome, returns,
  ◌>>=◌, sym, ◌∙◌,
}
use native.Mathlib.Decide.{dec_lt}
use Prim.Native.Nat.{Ordering}
use Prim.Native.Nat.Ordering.{lt, eq, gt}
use cligen.Order.{Ordering-cases}
use cligen.Slots.{i_get, insert_pos, search1}

-- Every slot before the place `r` is less, and every slot behind it is greater.
pub record Split {ℓ} {A : Type ℓ} (probe : Option A → Ordering) (xs : List (Option A)) (r : ℕ)
    : Type ℓ where
  pub inside : r ≤ length xs
  pub before : (i : ℕ) (o : Option A) → get_elem? xs i ≡ some o → i < r → probe o ≡ gt
  pub after : (i : ℕ) (o : Option A) → get_elem? xs i ≡ some o → r < i → probe o ≡ lt
  pub here : (o : Option A) → get_elem? xs r ≡ some o → probe o ≢ gt

-- Only what the comparison finds in the slots counts.
pub Split-cong {ℓ} :
    {A : Type ℓ} (probe probe' : Option A → Ordering) (xs : List (Option A)) (r : ℕ)
    → All (λ o. probe' o ≡ probe o) xs
    → Split probe xs r
    → Split probe' xs r
Split-cong probe probe' xs r same s = record {
  inside = s.inside;
  before = λ i o e h. All-get_elem? _ xs i o same e ∙ s.before i o e h;
  after = λ i o e h. All-get_elem? _ xs i o same e ∙ s.after i o e h;
  here = λ o e h. s.here o e (sym (All-get_elem? _ xs r o same e) ∙ h);
}

-- The slot at the place, if the comparison finds it equal.
abbrev pub found {ℓ} : {A : Type ℓ} → (Option A → Ordering) → Option (Option A) → Option A
found probe none = none
found probe (some o) = elim (probe o) [ lt ↦ none | eq ↦ o | gt ↦ none ]

module _ {ℓ} {A : Type ℓ} where
  pub get_elem?-some : (xs : List A) (i : ℕ) → i < length xs → (o : A) × (get_elem? xs i ≡ some o)
  get_elem?-some [] i h = absurd (omega arith)
  get_elem?-some (x ∷ xs) zero h = (x, refl)
  get_elem?-some (x ∷ xs) (suc i) h = get_elem?-some xs i (omega arith)

  pub get_elem?-lt : (xs : List A) (i : ℕ) (o : A) → get_elem? xs i ≡ some o → i < length xs
  get_elem?-lt [] i o e = absurd (cc)
  get_elem?-lt (x ∷ xs) zero o e = omega arith
  get_elem?-lt (x ∷ xs) (suc i) o e = omega (arith, get_elem?-lt xs i o e)

  pub i_get_lem :
      (xs : List (Option A)) (i : ℕ) (o : Option A)
      → i < length xs
      → get_elem? xs i ≡ some o
      → i_get xs i ≡ returns o
  unfolding i_get
  i_get_lem [] i o h e = absurd (omega arith)
  i_get_lem (x ∷ xs) i o h e = ground (arith)

module _ {ℓ} {A : Type ℓ} (probe : Option A → Ordering) (xs : List (Option A)) (r : ℕ)
    (s : Split probe xs r) where
  -- What the comparison with a slot says of the place.
  less : (i : ℕ) (o : Option A) → get_elem? xs i ≡ some o → probe o ≡ lt → r ≤ i
  less i o e p = elim (Bool-cases (leb r i)) [
    | inl h ↦ leb→le r i h
    | inr h ↦ absurd (clash (s.before i o e (ground (arith, h))))
  ]
    where
      clash : probe o ≡ gt → ⊥
      clash q = cc

  greater : (i : ℕ) (o : Option A) → get_elem? xs i ≡ some o → probe o ≡ gt → i < r
  greater i o e p = elim (dec_lt i r) [
    | yes h ↦ h
    | no h ↦ absurd (elim (dec_lt r i) [
      | yes k ↦ behind (s.after i o e k)
      | no k ↦ s.here o (let same : i ≡ r = omega arith in rw (← same) e) p
    ])
  ]
    where
      behind : probe o ≡ lt → ⊥
      behind q = cc

  equal : (i : ℕ) (o : Option A) → get_elem? xs i ≡ some o → probe o ≡ eq → i ≡ r
  equal i o e p = elim (dec_lt i r) [
    | yes h ↦ absurd (clash_gt (s.before i o e h))
    | no h ↦ elim (dec_lt r i) [ yes k ↦ absurd (clash_lt (s.after i o e k)) | no k ↦ omega arith ]
  ]
    where
      clash_gt : probe o ≡ gt → ⊥
      clash_gt q = cc

      clash_lt : probe o ≡ lt → ⊥
      clash_lt q = cc

  -- A round of either search: what it returns in each of the three cases.
  round {κ} :
      {B : Type κ} (mid : ℕ) (left right res : Outcome B) (hit : Option A → Outcome B)
      → mid < length xs
      → ((o : Option A) → get_elem? xs mid ≡ some o → probe o ≡ lt → left ≡ res)
      → (mid < r → right ≡ res)
      → ((o : Option A) → get_elem? xs mid ≡ some o → probe o ≡ eq → hit o ≡ res)
      → (i_get xs mid >>= λ co. elim (probe co) [ lt ↦ left | gt ↦ right | eq ↦ hit co ]) ≡ res
  round mid left right res hit h on_lt on_gt on_eq =
      let (o, e) = get_elem?-some xs mid h in
      rw (i_get_lem xs mid o h e) (elim (Ordering-cases (probe o)) [
        | inl p ↦ rw p (on_lt o e p)
        | inr (inl p) ↦ rw p (on_eq o e p)
        | inr (inr p) ↦ rw p (on_gt (greater mid o e p))
      ])

  pub insert_pos_lem :
      (fuel low upper1 : ℕ)
      → low ≤ r
      → r ≤ upper1
      → upper1 ≤ length xs + 1
      → upper1 - low < fuel
      → insert_pos fuel probe xs low upper1 ≡ returns r
  unfolding insert_pos
  insert_pos_lem zero low upper1 h1 h2 h3 h4 = absurd (omega arith)
  insert_pos_lem (suc fuel) low upper1 h1 h2 h3 h4 =
      let mid = (low + upper1 - 1) / 2 in
      elim (Bool-cases (leb upper1 low)) [
        | inl done ↦ rw done (ap returns (ground (arith, done)))
        | inr more ↦ rw more (elim (Bool-cases (leb (length xs) mid)) [
          | inl past ↦ rw past (ap returns (ground (arith, past, more, s.inside)))
          | inr in_range ↦ rw in_range (
              round mid _ _ _ (λ o. returns mid) (ground (arith, in_range))
                (λ o e p.
                  insert_pos_lem fuel low mid h1 (less mid o e p) (ground (arith, in_range))
                    (ground (arith, more, h4)))
                (λ p.
                  insert_pos_lem fuel (mid + 1) upper1 (omega arith) h2 h3
                    (ground (arith, more, h4)))
                (λ o e p. ap returns (equal mid o e p)))
        ])
      ]

  -- Nothing equal stands at `upper1`, so that a search that ends there has not missed it.
  abbrev Missed : ℕ → Type ℓ
  Missed upper1 = (o : Option A) → get_elem? xs r ≡ some o → probe o ≡ eq → r < upper1

  found-none : (upper1 : ℕ) → upper1 ≤ r → Missed upper1 → found probe (get_elem? xs r) ≡ none
  found-none upper1 h missed = by_slot (get_elem? xs r) refl
    where
      by_slot : (x : Option (Option A)) → get_elem? xs r ≡ x → found probe x ≡ none
      by_slot none e = refl
      by_slot (some o) e = elim (Ordering-cases (probe o)) [
        | inl p ↦ rw (found, p)
        | inr (inl p) ↦ absurd (omega (arith, missed o e p))
        | inr (inr p) ↦ rw (found, p)
      ]

  outside : (o : Option A) → get_elem? xs r ≡ some o → length xs ≤ r → ⊥
  outside o e h = omega (arith, get_elem?-lt xs r o e)

  not_there : (mid : ℕ) (o : Option A) → get_elem? xs mid ≡ some o → probe o ≡ lt → Missed mid
  not_there mid o e p o' e' p' = elim (dec_lt r mid) [
    | yes h ↦ h
    | no h ↦ let same : mid ≡ r = omega (arith, less mid o e p) in absurd (clash same)
  ]
    where
      clash : mid ≡ r → ⊥
      clash same = let e2 : get_elem? xs r ≡ some o = rw (← same) e in cc

  there :
      (mid : ℕ) (o : Option A)
      → get_elem? xs mid ≡ some o
      → probe o ≡ eq
      → o ≡ found probe (get_elem? xs r)
  there mid o e p = let same : mid ≡ r = equal mid o e p in rw (← same) (rw e (rw (found, p)))

  pub search1_lem :
      (fuel low upper1 : ℕ)
      → low ≤ r
      → r ≤ upper1
      → upper1 ≤ length xs + 1
      → upper1 - low < fuel
      → Missed upper1
      → search1 fuel probe xs low upper1 ≡ returns (found probe (get_elem? xs r))
  unfolding search1
  search1_lem zero low upper1 h1 h2 h3 h4 h5 = absurd (omega arith)
  search1_lem (suc fuel) low upper1 h1 h2 h3 h4 h5 =
      let mid = (low + upper1 - 1) / 2 in
      elim (Bool-cases (leb upper1 low)) [
        | inl done ↦ rw done (ap returns (sym (found-none upper1 (ground (arith, done)) h5)))
        | inr more ↦ rw more (elim (Bool-cases (leb (length xs) mid)) [
          | inl past ↦ rw past (
              ap returns (
                sym (
                  found-none mid (ground (arith, past, more, s.inside))
                    (λ o e p. absurd (outside o e (ground (arith, past, more, s.inside)))))))
          | inr in_range ↦ rw in_range (
              round mid _ _ _ (λ o. returns o) (ground (arith, in_range))
                (λ o e p.
                  search1_lem fuel low mid h1 (less mid o e p) (ground (arith, in_range))
                    (ground (arith, more, h4)) (not_there mid o e p))
                (λ p.
                  search1_lem fuel (mid + 1) upper1 (omega arith) h2 h3 (ground (arith, more, h4))
                    h5)
                (λ o e p. ap returns (there mid o e p)))
        ])
      ]
