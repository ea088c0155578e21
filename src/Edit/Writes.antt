-- ===== src/Edit/Writes.antt =====
-- The keys that write.
use cligen.Prelude.{
  ℕ, ◌+◌, ◌-◌, ◌<◌, ◌≡◌, ◌∙◌, arith, true, false, ◌&&◌, ◌||◌, not, ◌∷◌, ◌==◌, ltb, length,
  length-set, get_or, set, take, drop, Returns, Returns-bind, ◌>>=◌, inl, inr, Bool-cases,
}
use cligen.Memory.{Bytes, IsText, IsText-append}
use cligen.Cv.Number.{pos}
use cligen.Edit.{Editor, from, with_buf, fixup, poke, put_char, transpose, move_right}
use cligen.Edit.Press.{char, ctrl_t}
use cligen.Edit.Block.{Holds, peek_lem, poke_lem, get_or-set, MovedRight, move_right-Moved}
use cligen.Edit.Text.{
  Line, typed, put, swapped, get_or-put, length-put, IsText-take, IsText-drop, IsText-set,
  get_or-IsText,
}
use cligen.Edit.Keys.{Shows, redrawn-Shows}
use cligen.Edit.Cuts.{ring-Shows}

-- The bytes of a line that `put` and `swapped` make are no NULs.
IsText-put : (t : Bytes) (i c : ℕ) → 0 < c → c < 256 → IsText t → IsText (put i c t)
IsText-put t i c p q x =
    IsText-append (take i t) (c ∷ drop i t) (IsText-take i t x) (p, q, IsText-drop i t x)

IsText-swapped : (t : Bytes) (i : ℕ) → 0 < i → i < length t → IsText t → IsText (swapped i t)
IsText-swapped t i p q x =
    let here = get_or-IsText t i x q in
    let before = get_or-IsText t (i - 1) x (omega arith) in
    IsText-set (set t (i - 1) (get_or t i 0)) i (get_or t (i - 1) 0) before.0 before.1
      (IsText-set t (i - 1) (get_or t i 0) here.0 here.1 x)

-- A byte of the line in the block, and in the line, is overwritten.
pub Holds-set : (b t : Bytes) (i c : ℕ) → Holds b t → i < length t → Holds (set b i c) (set t i c)
Holds-set b t i c h k = (
  omega (arith, h.0, length-set b i c, length-set t i c),
  λ j in_line.
      ground (arith, h.0, h.1 j, get_or-set b i c j 1, get_or-set t i c j 0, length-set t i c),
)

pub transpose-Shows :
    (e : Editor) (l : Line) → Shows e l → Returns (transpose e) (λ e'. Shows e' (typed l ctrl_t))
unfolding transpose typed fixup
transpose-Shows e l s = elim (Bool-cases (ltb 0 l.cursor && ltb l.cursor (length l.text))) [
  | inl inner ↦
      let first : 0 < l.cursor = ground (arith, inner) in
      let under : l.cursor < length l.text = ground (arith, inner) in
      let size = length-set s.block (l.cursor - 1) (get_or s.block l.cursor 1) in
      rw
        (
          same_test ∙ inner,
          inner,
          s.is_buf,
          s.at_cursor,
          peek_lem s.block (l.cursor - 1) (omega (arith, s.holds.0)),
          peek_lem s.block l.cursor (omega (arith, s.holds.0)),
          poke_lem s.block (l.cursor - 1) (get_or s.block l.cursor 1) (omega (arith, s.holds.0)),
          poke_lem (set s.block (l.cursor - 1) (get_or s.block l.cursor 1)) l.cursor
              (get_or s.block (l.cursor - 1) 1) (omega (arith, s.holds.0, size)),
        )
        (redrawn-Shows e l
          (set (set s.block (l.cursor - 1) (get_or s.block l.cursor 1)) l.cursor
            (get_or s.block (l.cursor - 1) 1))
          (swapped l.cursor l.text) (l.cursor - 1) l.cursor s
          (length-set _ l.cursor _ ∙ size ∙ s.sized) (swapped-Holds first under)
          (IsText-swapped l.text l.cursor first under s.is_text)
          (omega (
            arith,
            s.inside,
            length-set (set l.text (l.cursor - 1) (get_or l.text l.cursor 0)) l.cursor
                (get_or l.text (l.cursor - 1) 0),
            length-set l.text (l.cursor - 1) (get_or l.text l.cursor 0),
          )))
  | inr outer ↦ rw (same_test ∙ outer, outer, Returns) (ring-Shows e l s)
]
  where
    same_test :
        (ltb 0 e.gl_pos && ltb e.gl_pos e.gl_cnt) ≡ (ltb 0 l.cursor && ltb l.cursor (length l.text))
    same_test = rw (s.at_cursor, s.counted)

    swapped-Holds :
        0 < l.cursor
        → l.cursor < length l.text
        → Holds
            (set
              (set s.block (l.cursor - 1) (get_or s.block l.cursor 1))
              l.cursor
              (get_or s.block (l.cursor - 1) 1))
            (swapped l.cursor l.text)
    swapped-Holds first under =
        rw (s.holds.1 l.cursor (omega arith), s.holds.1 (l.cursor - 1) (omega arith))
          (Holds-set (set s.block (l.cursor - 1) (get_or l.text l.cursor 0))
            (set l.text (l.cursor - 1) (get_or l.text l.cursor 0)) l.cursor
            (get_or l.text (l.cursor - 1) 0)
            (Holds-set s.block l.text (l.cursor - 1) (get_or l.text l.cursor 0) s.holds
              (omega arith))
            (omega (arith, length-set l.text (l.cursor - 1) (get_or l.text l.cursor 0))))

module _ (e : Editor) (l : Line) (c : ℕ) (s : Shows e l) (room : length l.text + 1 < length s.block)
    (p : 0 < c) (q : c < 256) where
  -- The bytes behind the cursor make room, and the new one is put before them.
  inserted-Holds :
      (b : Bytes)
      → MovedRight l.cursor 1 (length l.text) s.block b
      → Holds (set b l.cursor c) (put l.cursor c l.text)
  inserted-Holds b m = (
    omega (arith, room, m.0, length-set b l.cursor c, length-put l.cursor c l.text s.inside),
    λ j k. ground (
      arith,
      m.0,
      m.1 j,
      s.holds.1 j,
      s.holds.1 (j - 1),
      s.inside,
      get_or-set b l.cursor c j 1,
      get_or-put l.cursor c l.text j s.inside,
      length-put l.cursor c l.text s.inside,
    ),
  )

  put_char_inserts :
      (not e.gl_overwrite || e.gl_pos == e.gl_cnt) ≡ true
      → Returns
          (put_char e c)
          (λ e'. Shows e' (record l { text = put l.cursor c l.text; cursor = l.cursor + 1 }))
  unfolding put_char fixup
  put_char_inserts test =
      rw (test, s.is_buf, s.at_cursor, s.counted)
        (Returns-bind (move_right (length l.text + 1 - l.cursor) (length l.text) 1 s.block)
          (λ b1.
            poke b1 l.cursor c >>= λ b2. fixup (with_buf e b2) (from l.cursor) (pos (l.cursor + 1)))
          (MovedRight l.cursor 1 (length l.text) s.block)
          (λ e'. Shows e' (record l { text = put l.cursor c l.text; cursor = l.cursor + 1 }))
          (move_right-Moved (length l.text + 1 - l.cursor) l.cursor 1 (length l.text) s.block
            (omega (arith, s.inside)) (omega arith) room)
          (λ b m. rw (poke_lem b l.cursor c (omega (arith, room, m.0, s.inside))) (
            redrawn-Shows e l (set b l.cursor c) (put l.cursor c l.text) l.cursor (l.cursor + 1) s
              (length-set b l.cursor c ∙ m.0 ∙ s.sized) (inserted-Holds b m)
              (IsText-put l.text l.cursor c p q s.is_text)
              (omega (arith, s.inside, length-put l.cursor c l.text s.inside)))))

  put_char_overwrites :
      (not e.gl_overwrite || e.gl_pos == e.gl_cnt) ≡ false
      → l.cursor < length l.text
      → Returns
          (put_char e c)
          (λ e'. Shows e' (record l { text = set l.text l.cursor c; cursor = l.cursor + 1 }))
  unfolding put_char fixup
  put_char_overwrites test under =
      rw (test, s.is_buf, s.at_cursor, poke_lem s.block l.cursor c (omega (arith, s.holds.0)))
        (redrawn-Shows e l (set s.block l.cursor c) (set l.text l.cursor c) l.cursor (l.cursor + 1)
          s (length-set s.block l.cursor c ∙ s.sized)
          (Holds-set s.block l.text l.cursor c s.holds under)
          (IsText-set l.text l.cursor c p q s.is_text)
          (omega (arith, length-set l.text l.cursor c)))

  pub put_char-Shows : Returns (put_char e c) (λ e'. Shows e' (typed l (char c)))
  unfolding typed
  put_char-Shows = elim (Bool-cases (l.over && ltb l.cursor (length l.text))) [
    | inl over ↦ rw over (
        put_char_overwrites (ground (arith, s.same_mode, s.at_cursor, s.counted, over))
          (ground (arith, over)))
    | inr insert ↦
        rw insert
          (put_char_inserts (ground (arith, s.same_mode, s.at_cursor, s.counted, s.inside, insert)))
  ]
