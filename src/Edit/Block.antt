-- ===== src/Edit/Block.antt =====
-- A block that holds a line, byte by byte, and the loops that move its bytes.
use cligen.Prelude.{
  ℕ, zero, suc, ◌+◌, ◌-◌, ◌≤◌, ◌<◌, ◌≡◌, refl, ap, ◌∙◌, sym, arith, false, ◌&&◌, [], ◌∷◌, ◌++◌,
  ◌==◌, ltb, leb, length, length-set, length-drop, length-append, get_or, set, get_elem?-get_or,
  take, drop, if◌then◌else◌, returns, Returns, Returns-mono, ◌>>=◌,
}
use cligen.Memory.{Bytes, IsText, cstring}
use cligen.Edit.{peek, poke, strlen, move_right, move_left}

-- The block has the line and a NUL behind it.
abbrev pub Holds : Bytes → Bytes → Type 0
Holds b t = (length t < length b) × ((j : ℕ) → j ≤ length t → get_or b j 1 ≡ get_or t j 0)

pub strlen-Holds : (b t : Bytes) → Holds b t → IsText t → strlen b ≡ returns (length t)
unfolding strlen
strlen-Holds [] t h x = absurd (omega (arith, h.0))
strlen-Holds (c ∷ b) [] h x = ground (arith, h.1 0 (omega arith))
strlen-Holds (c ∷ b) (d ∷ t) h x =
    let nonzero : (c == 0) ≡ false = ground (arith, h.1 0 (omega arith), x.0) in
    rw nonzero (ap (λ o. o >>= λ n. returns (suc n)) (strlen-Holds b t rest x.2))
  where
    rest : Holds b t
    rest = (omega (arith, h.0), λ j k. h.1 (suc j) (omega arith))

pub get_or-drop : (i : ℕ) (t : Bytes) (j d : ℕ) → get_or (drop i t) j d ≡ get_or t (i + j) d
get_or-drop zero t j d = let same : j ≡ 0 + j = omega arith in ap (λ k. get_or t k d) same
get_or-drop (suc i) [] j d = refl
get_or-drop (suc i) (x ∷ t) j d =
    let next : suc (i + j) ≡ suc i + j = omega arith in
    get_or-drop i t j d ∙ ap (λ k. get_or (x ∷ t) k d) next

-- The string at a place in the line, and its beginning up to a place.
pub cstring-drop :
    (b t : Bytes) (i : ℕ) → Holds b t → IsText t → i ≤ length t → cstring (drop i b) ≡ drop i t
unfolding cstring
cstring-drop [] t i h x k = absurd (omega (arith, h.0))
cstring-drop (c ∷ b) [] (suc i) h x k = absurd (omega arith)
cstring-drop (c ∷ b) [] zero h x k = ground (arith, h.1 0 (omega arith))
cstring-drop (c ∷ b) (d ∷ t) zero h x k =
    let rest : cstring b ≡ t =
      cstring-drop b t 0 (omega (arith, h.0), λ j k. h.1 (suc j) (omega arith)) x.2 (omega arith) in
    ground (arith, h.1 0 (omega arith), x.0, rest)
cstring-drop (c ∷ b) (d ∷ t) (suc i) h x k =
    cstring-drop b t i (omega (arith, h.0), λ j k. h.1 (suc j) (omega arith)) x.2 (omega arith)

pub cstring-take_line :
    (b t : Bytes) (i : ℕ) → Holds b t → IsText t → i ≤ length t → cstring (take i b) ≡ take i t
unfolding cstring
cstring-take_line b t zero h x k = refl
cstring-take_line [] t (suc i) h x k = absurd (omega (arith, h.0))
cstring-take_line (c ∷ b) [] (suc i) h x k = absurd (omega arith)
cstring-take_line (c ∷ b) (d ∷ t) (suc i) h x k =
    let rest : cstring (take i b) ≡ take i t =
      cstring-take_line b t i (omega (arith, h.0), λ j k. h.1 (suc j) (omega arith)) x.2
        (omega arith) in
    ground (arith, h.1 0 (omega arith), x.0, rest)

-- The first bytes of two blocks side by side, and of the beginning of a block.
get_or-append_left :
    (xs ys : Bytes) (j d : ℕ) → j < length xs → get_or (xs ++ ys) j d ≡ get_or xs j d
get_or-append_left [] ys j d h = absurd (omega arith)
get_or-append_left (x ∷ xs) ys zero d h = refl
get_or-append_left (x ∷ xs) ys (suc j) d h = get_or-append_left xs ys j d (omega arith)

-- More bytes behind the block do not matter.
pub Holds-append : (b ys t : Bytes) → Holds b t → Holds (b ++ ys) t
Holds-append b ys t h = (
  omega (arith, h.0, length-append b ys),
  λ j k. get_or-append_left b ys j 1 (omega (arith, h.0)) ∙ h.1 j k,
)

pub get_or-take_within :
    (n : ℕ) (xs : Bytes) (j d : ℕ) → j < n → get_or (take n xs) j d ≡ get_or xs j d
get_or-take_within zero xs j d h = absurd (omega arith)
get_or-take_within (suc n) [] j d h = refl
get_or-take_within (suc n) (x ∷ xs) zero d h = refl
get_or-take_within (suc n) (x ∷ xs) (suc j) d h = get_or-take_within n xs j d (omega arith)

-- The rest of the line, moved to the front of the block.
pub Holds-front :
    (b b' t : Bytes) (i : ℕ)
    → Holds b t
    → i ≤ length t
    → length b' ≡ length b
    → take (length t - i + 1) b' ≡ take (length t - i + 1) (drop i b)
    → Holds b' (drop i t)
Holds-front b b' t i h k size same = (
  omega (arith, h.0, length-drop i t, size),
  λ j in_line.
      let inner : j < length t - i + 1 = omega (arith, in_line, length-drop i t) in
      sym (get_or-take_within (length t - i + 1) b' j 1 inner)
      ∙ ap (λ ys. get_or ys j 1) same
      ∙ get_or-take_within (length t - i + 1) (drop i b) j 1 inner
      ∙ get_or-drop i b j 1
      ∙ h.1 (i + j) (omega (arith, length-drop i t))
      ∙ sym (get_or-drop i t j 0),
)

pub peek_lem : (b : Bytes) (i : ℕ) → i < length b → peek b i ≡ returns (get_or b i 1)
unfolding peek
peek_lem b i h = rw (get_elem?-get_or b i 1 h)

pub poke_lem : (b : Bytes) (i v : ℕ) → i < length b → poke b i v ≡ returns (set b i v)
unfolding poke
poke_lem b i v h = ground arith

pub get_or-set :
    (xs : Bytes) (i v j d : ℕ)
    → i < length xs
    → get_or (set xs i v) j d ≡ (if i == j then v else get_or xs j d)
get_or-set [] i v j d h = absurd (omega arith)
get_or-set (x ∷ xs) zero v zero d h = refl
get_or-set (x ∷ xs) zero v (suc j) d h = ground arith
get_or-set (x ∷ xs) (suc i) v zero d h = ground arith
get_or-set (x ∷ xs) (suc i) v (suc j) d h = ground (arith, get_or-set xs i v j d)

-- The bytes from `start` to `i` stand `by` places further on.
abbrev pub MovedRight : ℕ → ℕ → ℕ → Bytes → Bytes → Type 0
MovedRight start by i b b' =
    (length b' ≡ length b)
    × ((j : ℕ)
        → get_or b' j 1
          ≡ (if leb (start + by) j && leb j (i + by) then get_or b (j - by) 1 else get_or b j 1))

pub move_right-Moved :
    (n start by i : ℕ) (b : Bytes)
    → start + n ≡ i + 1
    → 0 < by
    → i + by < length b
    → Returns (move_right n i by b) (MovedRight start by i b)
unfolding move_right
move_right-Moved zero start by i b e p h = (refl, λ j. ground arith)
move_right-Moved (suc zero) start by i b e p h =
    rw (peek_lem b i (omega arith), poke_lem b (i + by) (get_or b i 1) h)
      (
        length-set b (i + by) (get_or b i 1),
        λ j.
            let here : i + by ≡ j → get_or b (j - by) 1 ≡ get_or b i 1 =
              λ q. ap (λ k. get_or b k 1) (let same : j - by ≡ i = omega arith in same) in
            ground (arith, here, get_or-set b (i + by) (get_or b i 1) j 1),
      )
move_right-Moved (suc (suc n)) start by i b e p h =
    rw (peek_lem b i (omega arith), poke_lem b (i + by) (get_or b i 1) h)
      (Returns-mono (move_right (suc n) (i - 1) by b1) (MovedRight start by (i - 1) b1)
        (MovedRight start by i b)
        (move_right-Moved (suc n) start by (i - 1) b1 (omega arith) p
          (omega (arith, length-set b (i + by) (get_or b i 1))))
        (λ b' m. (
          m.0 ∙ length-set b (i + by) (get_or b i 1),
          λ j.
              let here : i + by ≡ j → get_or b (j - by) 1 ≡ get_or b i 1 =
                λ q. ap (λ k. get_or b k 1) (let same : j - by ≡ i = omega arith in same) in
              ground (
                arith,
                here,
                m.1 j,
                get_or-set b (i + by) (get_or b i 1) j 1,
                get_or-set b (i + by) (get_or b i 1) (j - by) 1,
              ),
        )))
  where
    b1 : Bytes
    b1 = set b (i + by) (get_or b i 1)

-- The bytes from `i + 1` to `i + n` stand one place before.
abbrev pub MovedLeft : ℕ → ℕ → Bytes → Bytes → Type 0
MovedLeft n i b b' =
    (length b' ≡ length b)
    × ((j : ℕ)
        → get_or b' j 1 ≡ (if leb i j && ltb j (i + n) then get_or b (j + 1) 1 else get_or b j 1))

pub move_left-Moved :
    (n i : ℕ) (b : Bytes) → i + n < length b → Returns (move_left n i b) (MovedLeft n i b)
unfolding move_left
move_left-Moved zero i b h = (refl, λ j. ground arith)
move_left-Moved (suc n) i b h =
    rw (peek_lem b (i + 1) (omega arith), poke_lem b i (get_or b (i + 1) 1) (omega arith))
      (Returns-mono (move_left n (i + 1) b1) (MovedLeft n (i + 1) b1) (MovedLeft (suc n) i b)
        (move_left-Moved n (i + 1) b1 (omega (arith, length-set b i (get_or b (i + 1) 1))))
        (λ b' m. (
          m.0 ∙ length-set b i (get_or b (i + 1) 1),
          λ j. ground (
            arith,
            m.1 j,
            get_or-set b i (get_or b (i + 1) 1) j 1,
            get_or-set b i (get_or b (i + 1) 1) (j + 1) 1,
          ),
        )))
  where
    b1 : Bytes
    b1 = set b i (get_or b (i + 1) 1)
