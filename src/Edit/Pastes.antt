-- ===== src/Edit/Pastes.antt =====
-- `gl_yank`: what was killed is put before the cursor, or over the line from it on.
use cligen.Prelude.{
  ℕ, suc, ◌+◌, ◌-◌, ◌≤◌, ◌<◌, ◌≡◌, refl, ap, ◌∙◌, sym, arith, ◌&&◌, ◌++◌, [], ◌∷◌, ltb, leb, ◌==◌,
  length, length-append, length-take, length-drop, get_or, take, drop, if◌then◌else◌, within,
  Returns, Returns-bind, Returns-mono, length-set, set, ◌>>=◌, Option, some, Bool-cases, inl, inr,
}
use cligen.Memory.{Bytes, IsText, IsText-append}
use cligen.Cv.Number.{pos}
use cligen.Edit.{Editor, move_right, with_buf, fixup, from}
use cligen.Edit.Words.{fill, yank_insert, yank_over}
use cligen.Edit.Block.{Holds, poke_lem, get_or-set, MovedRight, move_right-Moved, get_or-drop}
use cligen.Edit.Text.{Line, paste, get_or-append, get_or-take, IsText-take, IsText-drop}
use cligen.Edit.Keys.{Shows, redrawn-Shows}

-- Bytes written one behind the other.
abbrev Filled : Bytes → ℕ → Bytes → Bytes → Type 0
Filled cs i b b' =
    (length b' ≡ length b)
    × ((j : ℕ)
        → get_or b' j 1
          ≡ (if leb i j && ltb j (i + length cs) then get_or cs (j - i) 0 else get_or b j 1))

fill-Filled :
    (cs : Bytes) (i : ℕ) (b : Bytes)
    → i + length cs ≤ length b
    → Returns (fill cs i b) (Filled cs i b)
unfolding fill
fill-Filled [] i b h = (refl, λ j. ground arith)
fill-Filled (c ∷ cs) i b h = rw (poke_lem b i c (omega arith)) (
    Returns-mono (fill cs (i + 1) (set b i c)) (Filled cs (i + 1) (set b i c)) (Filled (c ∷ cs) i b)
      (fill-Filled cs (i + 1) (set b i c) (omega (arith, length-set b i c)))
      (λ b' f. (f.0 ∙ length-set b i c, λ j. bytes b' f j)))
  where
    bytes :
        (b' : Bytes)
        → Filled cs (i + 1) (set b i c) b'
        → (j : ℕ)
        → get_or b' j 1 ≡ (
            if leb i j && ltb j (i + length (c ∷ cs))
            then get_or (c ∷ cs) (j - i) 0
            else get_or b j 1)
    bytes b' f j = elim (Bool-cases (i == j)) [
      | inl same ↦
          let first : get_or (c ∷ cs) (j - i) 0 ≡ c =
            ap (λ k. get_or (c ∷ cs) k 0) (let none : j - i ≡ 0 = ground (arith, same) in none) in
          ground (arith, f.1 j, get_or-set b i c j 1, same, first)
      | inr other ↦
          let next : i < j → get_or (c ∷ cs) (j - i) 0 ≡ get_or cs (j - (i + 1)) 0 = λ less.
            ap (λ k. get_or (c ∷ cs) k 0)
              (let more : j - i ≡ suc (j - (i + 1)) = omega arith in more) in
          ground (arith, f.1 j, get_or-set b i c j 1, other, next)
    ]

-- The bytes of a text with another one put into it.
get_or-paste :
    (i k : ℕ) (ks t : Bytes) (j : ℕ)
    → i ≤ length t
    → get_or (paste i k ks t) j 0 ≡ (
        if ltb j i
        then get_or t j 0
        else if ltb j (i + length ks)
        then get_or ks (j - i) 0
        else get_or t (k + (j - i - length ks)) 0)
get_or-paste i k ks t j h =
    let front : length (take i t) ≡ i = omega (arith, length-take i t) in
    ground (
      arith,
      front,
      get_or-append (take i t) (ks ++ drop k t) j 0,
      get_or-append ks (drop k t) (j - i) 0,
      get_or-take i t j,
      get_or-drop k t (j - i - length ks) 0,
    )

length-paste :
    (i k : ℕ) (ks t : Bytes)
    → i ≤ length t
    → length (paste i k ks t) ≡ i + length ks + (length t - k)
length-paste i k ks t h = omega (
  arith,
  length-append (take i t) (ks ++ drop k t),
  length-append ks (drop k t),
  length-take i t,
  length-drop k t,
)

IsText-paste : (i k : ℕ) (ks t : Bytes) → IsText ks → IsText t → IsText (paste i k ks t)
IsText-paste i k ks t x y =
    IsText-append (take i t) (ks ++ drop k t) (IsText-take i t y)
      (IsText-append ks (drop k t) x (IsText-drop k t y))

module _ (e : Editor) (l : Line) (s : Shows e l) where
  abbrev pub pasted : ℕ → Line
  pasted k = record l {
    text = paste l.cursor k l.killed l.text;
    cursor = l.cursor + length l.killed;
  }

  in_pasted : (k : ℕ) → l.cursor + length l.killed ≤ length (pasted k).text
  in_pasted k = omega (arith, length-paste l.cursor k l.killed l.text s.inside)

  -- The bytes from the cursor on have made room, and are filled.
  inserted-Holds :
      (b1 b2 : Bytes)
      → length l.text + length l.killed < length s.block
      → MovedRight l.cursor (length l.killed) (length l.text) s.block b1
      → Filled l.killed l.cursor b1 b2
      → Holds b2 (pasted l.cursor).text
  inserted-Holds b1 b2 room m f = (omega (arith, room, m.0, f.0, total), λ j k. bytes j k)
    where
      total :
          length (paste l.cursor l.cursor l.killed l.text)
          ≡ l.cursor + length l.killed + (length l.text - l.cursor)
      total = length-paste l.cursor l.cursor l.killed l.text s.inside

      bytes :
          (j : ℕ)
          → j ≤ length (paste l.cursor l.cursor l.killed l.text)
          → get_or b2 j 1 ≡ get_or (paste l.cursor l.cursor l.killed l.text) j 0
      bytes j k =
          let back : l.cursor + length l.killed ≤ j
              → l.cursor + (j - l.cursor - length l.killed) ≡ j - length l.killed =
            λ h. omega arith in
          let moved : l.cursor + length l.killed ≤ j
              → get_or l.text (l.cursor + (j - l.cursor - length l.killed)) 0
                ≡ get_or l.text (j - length l.killed) 0 =
            λ h. ap (λ i. get_or l.text i 0) (back h) in
          ground (
            arith,
            total,
            s.inside,
            f.1 j,
            m.1 j,
            s.holds.1 j,
            s.holds.1 (j - length l.killed),
            moved,
            get_or-paste l.cursor l.cursor l.killed l.text j s.inside,
          )

  -- The bytes from the cursor on are filled over; a NUL stands where the line is to end behind its end.
  overwritten-Holds :
      (b : Bytes)
      → l.cursor + length l.killed < length s.block
      → get_or s.block (l.cursor + length l.killed) 1 ≡ get_or l.text (l.cursor + length l.killed) 0
      → Filled l.killed l.cursor s.block b
      → Holds b (pasted (l.cursor + length l.killed)).text
  overwritten-Holds b room ends f = (omega (arith, room, s.holds.0, f.0, total), λ j k. bytes j k)
    where
      total :
          length (paste l.cursor (l.cursor + length l.killed) l.killed l.text)
          ≡ l.cursor + length l.killed + (length l.text - (l.cursor + length l.killed))
      total = length-paste l.cursor (l.cursor + length l.killed) l.killed l.text s.inside

      bytes :
          (j : ℕ)
          → j ≤ length (paste l.cursor (l.cursor + length l.killed) l.killed l.text)
          → get_or b j 1 ≡ get_or (paste l.cursor (l.cursor + length l.killed) l.killed l.text) j 0
      bytes j k =
          let same : l.cursor + length l.killed ≤ j
              → get_or l.text (l.cursor + length l.killed + (j - l.cursor - length l.killed)) 0
                ≡ get_or l.text j 0 =
            λ h.
              ap (λ i. get_or l.text i 0)
                (let is : l.cursor + length l.killed + (j - l.cursor - length l.killed) ≡ j =
                    omega arith in
                  is) in
          let last : j ≡ l.cursor + length l.killed → get_or s.block j 1 ≡ get_or l.text j 0 =
            λ h. ap (λ i. get_or s.block i 1) h ∙ ends ∙ ap (λ i. get_or l.text i 0) (sym h) in
          ground (
            arith,
            total,
            s.inside,
            f.1 j,
            s.holds.1 j,
            same,
            last,
            get_or-paste l.cursor (l.cursor + length l.killed) l.killed l.text j s.inside,
          )

  insert_run :
      (buf : Option Bytes) (cnt p : ℕ) (ks : Bytes)
      → buf ≡ some s.block
      → cnt ≡ length l.text
      → p ≡ l.cursor
      → ks ≡ l.killed
      → 0 < length l.killed
      → length l.text + length l.killed < length s.block
      → Returns
          (within buf >>= λ b. move_right (cnt + 1 - p) cnt (length ks) b >>= λ b1.
            fill ks p b1 >>= λ b2. fixup (with_buf e b2) (from p) (pos (p + length ks)))
          (λ e'. Shows e' (pasted l.cursor))
  insert_run buf cnt p ks is_buf counted at same some_killed room =
      rw (is_buf, counted, at, same)
        (Returns-bind
          (move_right (length l.text + 1 - l.cursor) (length l.text) (length l.killed) s.block)
          (λ b1. fill l.killed l.cursor b1 >>= λ b2.
            fixup (with_buf e b2) (from l.cursor) (pos (l.cursor + length l.killed)))
          (MovedRight l.cursor (length l.killed) (length l.text) s.block)
          (λ e'. Shows e' (pasted l.cursor))
          (move_right-Moved (length l.text + 1 - l.cursor) l.cursor (length l.killed)
            (length l.text) s.block (omega (arith, s.inside)) some_killed room)
          (λ b1 m.
            Returns-bind (fill l.killed l.cursor b1)
              (λ b2. fixup (with_buf e b2) (from l.cursor) (pos (l.cursor + length l.killed)))
              (Filled l.killed l.cursor b1) (λ e'. Shows e' (pasted l.cursor))
              (fill-Filled l.killed l.cursor b1 (omega (arith, m.0, s.inside, room)))
              (λ b2 f.
                redrawn-Shows e l b2 (pasted l.cursor).text l.cursor (l.cursor + length l.killed) s
                  (f.0 ∙ m.0 ∙ s.sized) (inserted-Holds b1 b2 room m f)
                  (IsText-paste l.cursor l.cursor l.killed l.text s.kill_text s.is_text)
                  (in_pasted l.cursor))))

  over_run :
      (buf : Option Bytes) (p : ℕ) (ks : Bytes)
      → buf ≡ some s.block
      → p ≡ l.cursor
      → ks ≡ l.killed
      → l.cursor + length l.killed < length s.block
      → get_or s.block (l.cursor + length l.killed) 1 ≡ get_or l.text (l.cursor + length l.killed) 0
      → Returns
          (within buf >>= λ b.
            fill ks p b >>= λ b1. fixup (with_buf e b1) (from p) (pos (p + length ks)))
          (λ e'. Shows e' (pasted (l.cursor + length l.killed)))
  over_run buf p ks is_buf at same room ends =
      rw (is_buf, at, same)
        (Returns-bind (fill l.killed l.cursor s.block)
          (λ b1. fixup (with_buf e b1) (from l.cursor) (pos (l.cursor + length l.killed)))
          (Filled l.killed l.cursor s.block) (λ e'. Shows e' (pasted (l.cursor + length l.killed)))
          (fill-Filled l.killed l.cursor s.block (omega (arith, room)))
          (λ b f.
            redrawn-Shows e l b (pasted (l.cursor + length l.killed)).text l.cursor
              (l.cursor + length l.killed) s (f.0 ∙ s.sized) (overwritten-Holds b room ends f)
              (IsText-paste l.cursor (l.cursor + length l.killed) l.killed l.text s.kill_text
                s.is_text)
              (in_pasted (l.cursor + length l.killed))))

  pub yank_insert-Shows :
      0 < length l.killed
      → length l.text + length l.killed < length s.block
      → Returns (yank_insert e) (λ e'. Shows e' (pasted l.cursor))
  unfolding yank_insert
  yank_insert-Shows some_killed room =
      insert_run e.handle.buf e.gl_cnt e.gl_pos e.killbuf s.is_buf s.counted s.at_cursor s.same_kill
        some_killed room

  pub yank_over-Shows :
      l.cursor + length l.killed < length s.block
      → get_or s.block (l.cursor + length l.killed) 1 ≡ get_or l.text (l.cursor + length l.killed) 0
      → Returns (yank_over e) (λ e'. Shows e' (pasted (l.cursor + length l.killed)))
  unfolding yank_over
  yank_over-Shows room ends =
      over_run e.handle.buf e.gl_pos e.killbuf s.is_buf s.at_cursor s.same_kill room ends
