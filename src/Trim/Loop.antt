-- ===== src/Trim/Loop.antt =====
-- The loop of `cli_trim`, which writes over the line that it reads.
use cligen.Prelude.{
  ℕ, zero, suc, ◌+◌, ◌≤◌, ◌<◌, ◌≡◌, refl, ap, ◌∙◌, subst, arith, Bool, true, false, ◌||◌, [], ◌∷◌,
  ◌==◌, length, length-set, get_or, set, Outcome, returns, Returns, Returns-mono, ◌>>=◌, Bool-cases,
  inl, inr,
}
use cligen.Memory.{Bytes, IsText}
use cligen.Lines.{is_blank}
use cligen.Edit.{peek, poke}
use cligen.Edit.Block.{peek_lem, poke_lem, get_or-set}
use cligen.Trim.{is_comment, trim_loop}
use cligen.Trim.Text.{squeezed}

-- The text stands at the place `i` of the block, with a NUL behind it.
abbrev pub ReadsAt : ℕ → Bytes → Bytes → Type 0
ReadsAt i t b =
    (i + length t < length b) × ((j : ℕ) → j ≤ length t → get_or b (i + j) 1 ≡ get_or t j 0)

-- The text has been written at the place `k`, and what is before it is as it was.
abbrev pub Wrote : ℕ → Bytes → Bytes → Bytes → Type 0
Wrote k t b b' =
    (length b' ≡ length b)
    × ((j : ℕ) → j < k → get_or b' j 1 ≡ get_or b j 1)
    × ((j : ℕ) → j ≤ length t → get_or b' (k + j) 1 ≡ get_or t j 0)

-- A byte written at a place that has been read leaves the rest to read.
ReadsAt-next :
    (i k x c : ℕ) (t b : Bytes) → ReadsAt i (x ∷ t) b → k ≤ i → ReadsAt (i + 1) t (set b k c)
ReadsAt-next i k x c t b r le = (
  omega (arith, r.0, length-set b k c),
  λ j h.
      let other : (k == (i + 1 + j)) ≡ false = ground arith in
      get_or-set b k c (i + 1 + j) 1 (omega (arith, r.0))
      ∙ rw other (ap (λ n. get_or b n 1) (let next : i + 1 + j ≡ i + suc j = omega arith in next))
      ∙ r.1 (suc j) (omega arith),
)

ReadsAt-skip : (i x : ℕ) (t b : Bytes) → ReadsAt i (x ∷ t) b → ReadsAt (i + 1) t b
ReadsAt-skip i x t b r = (
  omega (arith, r.0),
  λ j h.
      ap (λ n. get_or b n 1) (let next : i + 1 + j ≡ i + suc j = omega arith in next)
      ∙ r.1 (suc j) (omega arith),
)

-- A byte written, and then a text behind it.
Wrote-next :
    (k c : ℕ) (t b b' : Bytes)
    → k < length b
    → Wrote (k + 1) t (set b k c) b'
    → Wrote k (c ∷ t) b b'
Wrote-next k c t b b' less w = (
  w.0 ∙ length-set b k c,
  λ j h.
      w.1 j (omega arith)
      ∙ get_or-set b k c j 1 less
      ∙ (let other : (k == j) ≡ false = ground arith in rw other),
  bytes,
)
  where
    bytes : (j : ℕ) → j ≤ length (c ∷ t) → get_or b' (k + j) 1 ≡ get_or (c ∷ t) j 0
    bytes zero h =
        let same : (k == k + 0) ≡ true = ground arith in
        w.1 (k + 0) (omega arith) ∙ get_or-set b k c (k + 0) 1 less ∙ rw same
    bytes (suc j) h =
        ap (λ n. get_or b' n 1) (let next : k + suc j ≡ k + 1 + j = omega arith in next)
        ∙ w.2 j (omega arith)

-- The NUL at the end of a text, written alone.
Wrote-nul : (k : ℕ) (b : Bytes) → k < length b → Wrote k [] b (set b k 0)
Wrote-nul k b less = (
  length-set b k 0,
  λ j h. get_or-set b k 0 j 1 less ∙ (let other : (k == j) ≡ false = ground arith in rw other),
  λ j h. let same : (k == k + j) ≡ true = ground arith in get_or-set b k 0 (k + j) 1 less ∙ rw same,
)

read_first : (i : ℕ) (t b : Bytes) → ReadsAt i t b → peek b i ≡ returns (get_or t 0 0)
read_first i t b r =
    peek_lem b i (omega (arith, r.0))
    ∙ ap returns
        (ap (λ n. get_or b n 1) (let same : i ≡ i + 0 = omega arith in same) ∙ r.1 0 (omega arith))

no_comment_nul : (comment : ℕ) (edge : Bool) → is_comment comment edge 0 ≡ false
no_comment_nul comment edge = ground arith

not_first : (i : ℕ) → (i + 1 == 0) ≡ false
not_first i = ground arith

-- A round of the loop at a byte that has been read.
module _ (n comment i k : ℕ) (c : ℕ) (b : Bytes) (read : peek b i ≡ returns c) where
  abbrev after_read : Bool → Outcome Bytes
  after_read whitespace = elim (is_comment comment (whitespace || i == 0) c) [
    | true ↦ poke b k b'\n' >>= λ b1. poke b1 (k + 1) 0
    | false ↦ elim (is_blank c) [
      | true ↦ elim whitespace [
        | true ↦ trim_loop n comment (i + 1) k true b
        | false ↦ poke b k b' ' >>= λ b1. trim_loop n comment (i + 1) (k + 1) true b1
      ]
      | false ↦ poke b k c >>= λ b1. trim_loop n comment (i + 1) (k + 1) false b1
    ]
  ]

  round : (w : Bool) → trim_loop (suc n) comment i k w b ≡ after_read w
  unfolding trim_loop
  round w = rw read

  round_comment :
      (w : Bool)
      → is_comment comment (w || i == 0) c ≡ true
      → trim_loop (suc n) comment i k w b ≡ (poke b k b'\n' >>= λ b1. poke b1 (k + 1) 0)
  round_comment w hit = round w ∙ rw (after_read, hit)

  round_letter :
      (w : Bool)
      → is_comment comment (w || i == 0) c ≡ false
      → is_blank c ≡ false
      → trim_loop (suc n) comment i k w b
        ≡ (poke b k c >>= λ b1. trim_loop n comment (i + 1) (k + 1) false b1)
  round_letter w miss letter = round w ∙ rw (after_read, miss, letter)

  round_blank :
      is_comment comment (false || i == 0) c ≡ false
      → is_blank c ≡ true
      → trim_loop (suc n) comment i k false b
        ≡ (poke b k b' ' >>= λ b1. trim_loop n comment (i + 1) (k + 1) true b1)
  round_blank miss blank = round false ∙ rw (after_read, miss, blank)

  round_again :
      is_comment comment (true || i == 0) c ≡ false
      → is_blank c ≡ true
      → trim_loop (suc n) comment i k true b ≡ trim_loop n comment (i + 1) k true b
  round_again miss blank = round true ∙ rw (after_read, miss, blank)

-- A blank is written unless there is one before it.
blank_round :
    (comment i k : ℕ) (whitespace : Bool) (c : ℕ) (t b : Bytes)
    → ReadsAt i (c ∷ t) b
    → k < length b
    → is_comment comment (whitespace || i == 0) c ≡ false
    → is_blank c ≡ true
    → Returns
        (trim_loop (suc (length t)) comment (i + 1) (k + 1) true (set b k b' '))
        (Wrote k (b' ' ∷ squeezed comment true false t) b)
    → Returns
        (trim_loop (suc (length t)) comment (i + 1) k true b)
        (Wrote k (squeezed comment true false t) b)
    → Returns
        (trim_loop (suc (suc (length t))) comment i k whitespace b)
        (Wrote k (squeezed comment whitespace (i == 0) (c ∷ t)) b)
unfolding squeezed
blank_round comment i k true c t b r less miss blank write skip =
    rw
      (
        round_again (suc (length t)) comment i k c b (read_first i (c ∷ t) b r) miss blank,
        miss,
        blank,
      )
      skip
blank_round comment i k false c t b r less miss blank write skip =
    rw
      (
        round_blank (suc (length t)) comment i k c b (read_first i (c ∷ t) b r) miss blank,
        miss,
        blank,
        poke_lem b k b' ' less,
      )
      write

pub trim_loop-Wrote :
    (comment i k : ℕ) (whitespace : Bool) (t b : Bytes)
    → ReadsAt i t b
    → k ≤ i
    → IsText t
    → Returns
        (trim_loop (suc (length t)) comment i k whitespace b)
        (Wrote k (squeezed comment whitespace (i == 0) t) b)
unfolding squeezed trim_loop
trim_loop-Wrote comment i k whitespace [] b r le x =
    rw
      (
        round_letter 0 comment i k 0 b (read_first i [] b r) whitespace
            (no_comment_nul comment (whitespace || i == 0)) refl,
        poke_lem b k 0 (omega (arith, r.0)),
      )
      (Wrote-nul k b (omega (arith, r.0)))
trim_loop-Wrote comment i k whitespace (c ∷ t) b r le x =
    let less : k < length b = omega (arith, r.0) in
    let write : (d : ℕ) (w : Bool)
        → Returns (trim_loop (suc (length t)) comment (i + 1) (k + 1) w (set b k d))
            (Wrote k (d ∷ squeezed comment w false t) b) =
      λ d w.
        Returns-mono (trim_loop (suc (length t)) comment (i + 1) (k + 1) w (set b k d))
          (Wrote (k + 1) (squeezed comment w (i + 1 == 0) t) (set b k d))
          (Wrote k (d ∷ squeezed comment w false t) b)
          (trim_loop-Wrote comment (i + 1) (k + 1) w t (set b k d) (ReadsAt-next i k c d t b r le)
            (omega arith) x.2)
          (λ b' w'. Wrote-next k d (squeezed comment w false t) b b' less (
            subst (λ f. Wrote (k + 1) (squeezed comment w f t) (set b k d) b') (not_first i) w')) in
    let skip : Returns (trim_loop (suc (length t)) comment (i + 1) k true b)
        (Wrote k (squeezed comment true false t) b) =
      subst
        (λ f.
          Returns (trim_loop (suc (length t)) comment (i + 1) k true b)
            (Wrote k (squeezed comment true f t) b))
        (not_first i)
        (trim_loop-Wrote comment (i + 1) k true t b (ReadsAt-skip i c t b r) (omega arith) x.2) in
    elim (Bool-cases (is_comment comment (whitespace || i == 0) c)) [
      | inl hit ↦
          let more : k + 1 < length (set b k b'\n') = omega (arith, r.0, length-set b k b'\n') in
          rw
            (
              round_comment (suc (length t)) comment i k c b (read_first i (c ∷ t) b r) whitespace
                  hit,
              hit,
              poke_lem b k b'\n' less,
              poke_lem (set b k b'\n') (k + 1) 0 more,
              Returns,
            )
            (Wrote-next k b'\n' [] b (set (set b k b'\n') (k + 1) 0) less
              (Wrote-nul (k + 1) (set b k b'\n') more))
      | inr miss ↦ elim (Bool-cases (is_blank c)) [
        | inr letter ↦
            rw
              (
                round_letter (suc (length t)) comment i k c b (read_first i (c ∷ t) b r) whitespace
                    miss letter,
                miss,
                letter,
                poke_lem b k c less,
              )
              (write c false)
        | inl blank ↦
            blank_round comment i k whitespace c t b r less miss blank (write b' ' true) skip
      ]
    ]
