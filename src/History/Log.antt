-- ===== src/History/Log.antt =====
-- The abstract log: the last lines that were added, oldest first.
use cligen.Prelude.{
  ℕ, suc, ◌-◌, ◌≤◌, ◌≡◌, refl, ap, ◌∙◌, arith, Bool, not, ◌||◌, ◌&&◌, false, Option, none, some,
  List, [], ◌∷◌, ◌++◌, ◌==◌, length, drop, if◌then◌else◌, length-append, if◌then◌else◌,
}
use cligen.Memory.{Bytes}
use cligen.History.{differs, is_blank, skip_blank}

-- The lines of slots, null slots left out.
abbrev pub somes {ℓ} : {A : Type ℓ} → List (Option A) → List A
somes [] = []
somes (none ∷ r) = somes r
somes (some x ∷ r) = x ∷ somes r

abbrev pub last? {ℓ} : {A : Type ℓ} → List A → Option A
last? [] = none
last? (x ∷ []) = some x
last? (x ∷ (y ∷ r)) = last? (y ∷ r)

abbrev pub keep_last {ℓ} : {A : Type ℓ} → ℕ → List A → List A
keep_last n xs = drop (length xs - n) xs

-- Some character of the line is not blank.
unfoldable pub has_text : Bytes → Bool
has_text [] = false
has_text (c ∷ cs) = not (is_blank c) || has_text cs

pub has_text_lem : (line : Bytes) → not (length (skip_blank line) == 0) ≡ has_text line
unfolding has_text skip_blank
has_text_lem [] = refl
has_text_lem (c ∷ cs) = ground (arith, has_text_lem cs)

-- The log of at most `bound` lines after a line is read: a blank line is not logged, nor is one that
-- `differs` takes for the newest.
unfoldable pub add : ℕ → List Bytes → Bytes → List Bytes
add bound lines line =
    if has_text line && differs (last? lines) line
    then keep_last bound (lines ++ (line ∷ []))
    else lines

-- No slot is null behind one that is not, and each line satisfies `P`.
abbrev pub AllSome {ℓ} : {A : Type ℓ} → (A → Type 0) → List (Option A) → Type 0
AllSome P [] = Unit
AllSome P (none ∷ r) = ⊥
AllSome P (some x ∷ r) = P x × AllSome P r

abbrev pub IsPacked {ℓ} : {A : Type ℓ} → (A → Type 0) → List (Option A) → Type 0
IsPacked P [] = Unit
IsPacked P (none ∷ r) = IsPacked P r
IsPacked P (some x ∷ r) = P x × AllSome P r

pub somes-append {ℓ} : {A : Type ℓ} (v w : List (Option A)) → somes (v ++ w) ≡ somes v ++ somes w
somes-append [] w = refl
somes-append (none ∷ v) w = somes-append v w
somes-append (some x ∷ v) w = ap (◌∷◌ x) (somes-append v w)

pub length-somes-le {ℓ} : {A : Type ℓ} (w : List (Option A)) → length (somes w) ≤ length w
length-somes-le [] = omega arith
length-somes-le (none ∷ w) = omega (arith, length-somes-le w)
length-somes-le (some x ∷ w) = omega (arith, length-somes-le w)

module _ {ℓ} {A : Type ℓ} (P : A → Type 0) where
  AllSome-snoc : (w : List (Option A)) (x : A) → AllSome P w → P x → AllSome P (w ++ (some x ∷ []))
  AllSome-snoc [] x h p = (p, tt)
  AllSome-snoc (none ∷ w) x h p = absurd h
  AllSome-snoc (some y ∷ w) x h p = (h.0, AllSome-snoc w x h.1 p)

  pub IsPacked-snoc :
      (w : List (Option A)) (x : A) → IsPacked P w → P x → IsPacked P (w ++ (some x ∷ []))
  IsPacked-snoc [] x h p = (p, tt)
  IsPacked-snoc (none ∷ w) x h p = IsPacked-snoc w x h p
  IsPacked-snoc (some y ∷ w) x h p = (h.0, AllSome-snoc w x h.1 p)

  AllSome-IsPacked : (w : List (Option A)) → AllSome P w → IsPacked P w
  AllSome-IsPacked [] h = h
  AllSome-IsPacked (none ∷ w) h = absurd h
  AllSome-IsPacked (some x ∷ w) h = h

  -- The slots without the oldest.
  pub IsPacked-tail : (o : Option A) (w : List (Option A)) → IsPacked P (o ∷ w) → IsPacked P w
  IsPacked-tail none w h = h
  IsPacked-tail (some x) w h = AllSome-IsPacked w h.1

  pub length-somes : (w : List (Option A)) → AllSome P w → length (somes w) ≡ length w
  length-somes [] h = refl
  length-somes (none ∷ w) h = absurd h
  length-somes (some x ∷ w) h = ap suc (length-somes w h.1)

  -- Dropping the oldest slot for a new line keeps as many of the last lines as there are slots.
  pub somes-snoc :
      (o : Option A) (w : List (Option A)) (x : A)
      → IsPacked P (o ∷ w)
      → somes (w ++ (some x ∷ [])) ≡ keep_last (suc (length w)) (somes (o ∷ w) ++ (x ∷ []))
  somes-snoc none w x h =
      somes-append w (some x ∷ []) ∙ ap (λ k. drop k (somes w ++ (x ∷ []))) none_over
    where
      none_over : 0 ≡ length (somes w ++ (x ∷ [])) - suc (length w)
      none_over = omega (arith, length-append (somes w) (x ∷ []), length-somes-le w)
  somes-snoc (some y) w x h =
      somes-append w (some x ∷ []) ∙ ap (λ k. drop k (y ∷ (somes w ++ (x ∷ [])))) one_over
    where
      one_over : 1 ≡ length (y ∷ (somes w ++ (x ∷ []))) - suc (length w)
      one_over = omega (arith, length-append (somes w) (x ∷ []), length-somes w h.1)

pub last?-snoc {ℓ} : {A : Type ℓ} (xs : List A) (x : A) → last? (xs ++ (x ∷ [])) ≡ some x
last?-snoc [] x = refl
last?-snoc (y ∷ []) x = refl
last?-snoc (y ∷ (z ∷ xs)) x = last?-snoc (z ∷ xs) x

module _ {ℓ} {A : Type ℓ} (P Q : A → Type 0) (weaker : (x : A) → P x → Q x) where
  AllSome-mono : (w : List (Option A)) → AllSome P w → AllSome Q w
  AllSome-mono [] h = h
  AllSome-mono (none ∷ w) h = h
  AllSome-mono (some x ∷ w) h = (weaker x h.0, AllSome-mono w h.1)

  pub IsPacked-mono : (w : List (Option A)) → IsPacked P w → IsPacked Q w
  IsPacked-mono [] h = h
  IsPacked-mono (none ∷ w) h = IsPacked-mono w h
  IsPacked-mono (some x ∷ w) h = (weaker x h.0, AllSome-mono w h.1)
