-- ===== src/Edit/Stops.antt =====
-- The keys of words.
use cligen.Prelude.{
  ℕ, zero, suc, ◌+◌, ◌-◌, ◌≤◌, ◌<◌, ◌≡◌, refl, ap, ◌∙◌, sym, arith, Bool, not, ◌++◌, ltb, length,
  length-append, length-take, length-drop, get_or, take, drop, if◌then◌else◌, returns, Outcome,
  within, Returns, ◌>>=◌, Option, some, Bool-cases, inl, inr,
}
use cligen.Memory.{Bytes, IsText, cstring}
use cligen.Cv.Number.{pos, is_space}
use cligen.Edit.{Editor, fixup, unchanged, peek}
use cligen.Edit.Words.{skip_back, skip_ahead, word_start, word_left, word_right}
use cligen.Edit.Press.{meta_b, meta_f}
use cligen.Edit.Block.{Holds, get_or-drop, get_or-take_within, peek_lem, cstring-take_line}
use cligen.Edit.Text.{
  Line, typed, back_while, ahead_while, onto_word, word_back, behind_word, word_ahead, cut,
  get_or-append, IsText-drop,
}
use cligen.Edit.Keys.{Shows, placed-Shows}

back_while_le : (test : ℕ → Bool) (n : ℕ) (t : Bytes) → back_while test n t ≤ n
unfolding back_while
back_while_le test zero t = omega arith
back_while_le test (suc n) t = ground (arith, back_while_le test n t)

-- A byte of the line, read from the block.
read_lem : (b t : Bytes) (i : ℕ) → Holds b t → i ≤ length t → peek b i ≡ returns (get_or t i 0)
read_lem b t i h k = peek_lem b i (omega (arith, h.0)) ∙ ap returns (h.1 i k)

skip_back_lem :
    (test : ℕ → Bool) (n : ℕ) (b t : Bytes)
    → Holds b t
    → n ≤ length t
    → skip_back test n b ≡ returns (back_while test n t)
unfolding skip_back back_while
skip_back_lem test zero b t h k = rw (read_lem b t 0 h (omega arith))
skip_back_lem test (suc n) b t h k = elim (Bool-cases (test (get_or t (suc n) 0))) [
  | inl more ↦ rw (read_lem b t (suc n) h k, more) (skip_back_lem test n b t h (omega arith))
  | inr stop ↦ rw (read_lem b t (suc n) h k, stop)
]

skip_ahead_lem :
    (test : ℕ → Bool) (n i : ℕ) (b t : Bytes)
    → Holds b t
    → i + n ≤ length t
    → skip_ahead test n i b ≡ returns (ahead_while test n i t)
unfolding skip_ahead ahead_while
skip_ahead_lem test zero i b t h k = rw (read_lem b t i h (omega arith))
skip_ahead_lem test (suc n) i b t h k = elim (Bool-cases (test (get_or t i 0))) [
  | inl more ↦
      rw (read_lem b t i h (omega arith), more) (skip_ahead_lem test n (i + 1) b t h (omega arith))
  | inr stop ↦ rw (read_lem b t i h (omega arith), stop)
]

ahead_while_le : (test : ℕ → Bool) (n i : ℕ) (t : Bytes) → ahead_while test n i t ≤ i + n
unfolding ahead_while
ahead_while_le test zero i t = omega arith
ahead_while_le test (suc n) i t = ground (arith, ahead_while_le test n (i + 1) t)

-- A word before a place begins in the line, and before the place, but for the beginning of the line.
pub word_back_le :
    (i : ℕ) (t : Bytes) → i ≤ length t → (word_back i t ≤ length t) × (0 < i → word_back i t ≤ i)
word_back_le i t h =
    let first = back_while_le is_space (i - 1) t in
    let second = back_while_le (λ c. not (is_space c)) (back_while is_space (i - 1) t) t in
    (ground (arith, first, second), λ p. ground (arith, first, second))

pub word_start_lem :
    (i : ℕ) (b t : Bytes)
    → Holds b t
    → i ≤ length t
    → word_start (length t) i b ≡ returns (word_back i t)
unfolding word_start
word_start_lem i b t h k =
    rw
      (
        skip_back_lem is_space (i - 1) b t h (omega arith),
        skip_back_lem (λ c. not (is_space c)) (back_while is_space (i - 1) t) b t h
            (omega (arith, first)),
      )
      last
  where
    first : back_while is_space (i - 1) t ≤ i - 1
    first = back_while_le is_space (i - 1) t

    end : ℕ
    end = back_while (λ c. not (is_space c)) (back_while is_space (i - 1) t) t

    last :
        (if ltb end (length t)
          then (peek b end >>= λ c. returns (if is_space c then end + 1 else end))
          else returns end)
        ≡ returns (onto_word end t)
    last = elim (Bool-cases (ltb end (length t))) [
      | inl inner ↦ rw (inner, read_lem b t end h (ground (arith, inner)))
      | inr behind ↦ rw behind
    ]

-- Where the words of the line begin and end, read from the block.
left_stop :
    {A : Type 0} (l : Line) (block : Bytes) (buf : Option Bytes) (cnt p : ℕ) (f : ℕ → Outcome A)
    → Holds block l.text
    → l.cursor ≤ length l.text
    → buf ≡ some block
    → cnt ≡ length l.text
    → p ≡ l.cursor
    → (within buf >>= λ b. word_start cnt p b >>= f) ≡ f (word_back l.cursor l.text)
left_stop l block buf cnt p f h le is_buf counted at =
    rw (is_buf, counted, at, word_start_lem l.cursor block l.text h le)

right_stop :
    {A : Type 0} (l : Line) (block : Bytes) (buf : Option Bytes) (cnt p : ℕ) (f : ℕ → Outcome A)
    → Holds block l.text
    → l.cursor ≤ length l.text
    → buf ≡ some block
    → cnt ≡ length l.text
    → p ≡ l.cursor
    → (within buf >>= λ b. skip_ahead (λ c. not (is_space c)) (cnt - p) p b >>= λ j.
        skip_ahead is_space (cnt - j) j b >>= f)
      ≡ f (word_ahead l.cursor l.text)
right_stop l block buf cnt p f h le is_buf counted at =
    let first = ahead_while_le (λ c. not (is_space c)) (length l.text - l.cursor) l.cursor l.text in
    rw (
      is_buf,
      counted,
      at,
      skip_ahead_lem (λ c. not (is_space c)) (length l.text - l.cursor) l.cursor block l.text h
          (omega arith),
      skip_ahead_lem is_space (length l.text - behind_word l.cursor l.text)
          (behind_word l.cursor l.text) block l.text h (omega (arith, first)),
    )

pub word_left-Shows :
    (e : Editor) (l : Line) → Shows e l → Returns (word_left e) (λ e'. Shows e' (typed l meta_b))
unfolding word_left typed
word_left-Shows e l s =
    let le = word_back_le l.cursor l.text s.inside in
    rw
      (left_stop l s.block e.handle.buf e.gl_cnt e.gl_pos (λ i. fixup e unchanged (pos i)) s.holds
        s.inside s.is_buf s.counted s.at_cursor)
      (placed-Shows e l (word_back l.cursor l.text) (word_back l.cursor l.text) s refl le.0)

pub word_right-Shows :
    (e : Editor) (l : Line) → Shows e l → Returns (word_right e) (λ e'. Shows e' (typed l meta_f))
unfolding word_right typed
word_right-Shows e l s =
    let first = ahead_while_le (λ c. not (is_space c)) (length l.text - l.cursor) l.cursor l.text in
    let second =
      ahead_while_le is_space (length l.text - behind_word l.cursor l.text)
        (behind_word l.cursor l.text) l.text in
    rw
      (right_stop l s.block e.handle.buf e.gl_cnt e.gl_pos (λ i. fixup e unchanged (pos i)) s.holds
        s.inside s.is_buf s.counted s.at_cursor)
      (placed-Shows e l (word_ahead l.cursor l.text) (word_ahead l.cursor l.text) s refl
        (omega (arith, s.inside, first, second)))

-- The line behind `w`, moved to the place `i` before it.
pub Holds-cut :
    (b b' t : Bytes) (i w : ℕ)
    → Holds b t
    → i ≤ w
    → w ≤ length t
    → length b' ≡ length b
    → take (i + (length t - w + 1)) b' ≡ take i b ++ take (length t - w + 1) (drop w b)
    → Holds b' (cut i w t)
Holds-cut b b' t i w h p q size same = (
  omega (arith, h.0, size, total),
  λ j in_line.
      let inner : j < i + (length t - w + 1) = omega (arith, in_line, total) in
      sym (get_or-take_within (i + (length t - w + 1)) b' j 1 inner)
      ∙ ap (λ ys. get_or ys j 1) same
      ∙ get_or-append (take i b) (take (length t - w + 1) (drop w b)) j 1
      ∙ rw (front, front_text) (halves j inner)
      ∙ sym (get_or-append (take i t) (drop w t) j 0),
)
  where
    front : length (take i b) ≡ i
    front = omega (arith, h.0, length-take i b)

    front_text : length (take i t) ≡ i
    front_text = omega (arith, length-take i t)

    total : length (cut i w t) ≡ i + (length t - w)
    total = omega (arith, length-append (take i t) (drop w t), length-take i t, length-drop w t)

    halves :
        (j : ℕ)
        → j < i + (length t - w + 1)
        → (if ltb j i
            then get_or (take i b) j 1
            else get_or (take (length t - w + 1) (drop w b)) (j - i) 1)
          ≡ (if ltb j i then get_or (take i t) j 0 else get_or (drop w t) (j - i) 0)
    halves j inner = elim (Bool-cases (ltb j i)) [
      | inl before ↦
          let less : j < i = ground (arith, before) in
          rw before (
            get_or-take_within i b j 1 less
            ∙ h.1 j (omega arith)
            ∙ sym (get_or-take_within i t j 0 less))
      | inr behind ↦
          let more : i ≤ j = ground (arith, behind) in
          rw behind (
            get_or-take_within (length t - w + 1) (drop w b) (j - i) 1 (omega arith)
            ∙ get_or-drop w b (j - i) 1
            ∙ h.1 (w + (j - i)) (omega arith)
            ∙ sym (get_or-drop w t (j - i) 0))
    ]

-- What is put into the kill buffer.
pub killed_lem :
    (b t : Bytes) (i w : ℕ)
    → Holds b t
    → IsText t
    → i ≤ w
    → w ≤ length t
    → cstring (take (w - i) (drop i b)) ≡ take (w - i) (drop i t)
killed_lem b t i w h x p q =
    cstring-take_line (drop i b) (drop i t) (w - i)
      (
        omega (arith, h.0, length-drop i b, length-drop i t),
        λ j k.
            get_or-drop i b j 1
            ∙ h.1 (i + j) (omega (arith, length-drop i t))
            ∙ sym (get_or-drop i t j 0),
      )
      (IsText-drop i t x) (omega (arith, length-drop i t))
