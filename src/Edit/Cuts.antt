-- ===== src/Edit/Cuts.antt =====
-- The keys that delete.
use cligen.Prelude.{
  ◌≤◌, ℕ, suc, ◌+◌, ◌-◌, ◌<◌, ◌≡◌, refl, ap, ◌∙◌, subst, arith, true, false, ◌==◌, ltb, length,
  length-set, length-take, length-drop, set, take, drop, Returns, Returns-bind, inl, inr,
  Bool-cases,
}
use cligen.Memory.{Bytes, IsText-append, cstring, store_lem}
use cligen.Cv.Number.{pos}
use cligen.Edit.{
  Editor, redraw, from, with_buf, fixup, del_from, del_left, del_here, kill, kill_begin, move_left,
  ring,
}
use cligen.Edit.Press.{ctrl_d, ctrl_h, ctrl_k, ctrl_u}
use cligen.Edit.Block.{
  cstring-drop, cstring-take_line, Holds-front, Holds, strlen-Holds, poke_lem, get_or-set,
  MovedLeft, move_left-Moved,
}
use cligen.Edit.Text.{
  Line, typed, remove, get_or-remove, get_or-take, length-remove, IsText-take, IsText-drop,
}
use cligen.Edit.Keys.{Shows, drawn-Shows, redrawn-Shows}

-- The bell leaves the line as it is.
pub ring-Shows : (e : Editor) (l : Line) → Shows e l → Shows (ring e) l
ring-Shows e l s = record {
  block = s.block;
  is_buf = s.is_buf;
  sized = s.sized;
  holds = s.holds;
  is_text = s.is_text;
  at_cursor = s.at_cursor;
  counted = s.counted;
  inside = s.inside;
  same_mode = s.same_mode;
  same_kill = s.same_kill;
  kill_text = s.kill_text;
}

-- A byte is taken out of the line.
del_from-Shows :
    (e : Editor) (l : Line) (start i : ℕ)
    → Shows e l
    → start ≡ i
    → i < length l.text
    → Returns (del_from e start) (λ e'. Shows e' (record l { text = remove i l.text; cursor = i }))
unfolding del_from fixup
del_from-Shows e l start i s is h =
    rw (s.is_buf, s.counted, is, Returns)
      (Returns-bind (move_left (length l.text - i) i s.block)
        (λ b. fixup (with_buf e b) (from i) (pos i)) (MovedLeft (length l.text - i) i s.block)
        (λ e'. Shows e' (record l { text = remove i l.text; cursor = i }))
        (move_left-Moved (length l.text - i) i s.block (omega (arith, s.holds.0)))
        (λ b m.
          redrawn-Shows e l b (remove i l.text) i i s (m.0 ∙ s.sized)
            (
              omega (arith, m.0, s.holds.0, length-remove i l.text h),
              λ j k. ground (
                arith,
                m.1 j,
                s.holds.1 j,
                s.holds.1 (j + 1),
                get_or-remove i l.text j h,
                length-remove i l.text h,
              ),
            )
            (IsText-append (take i l.text) (drop (suc i) l.text) (IsText-take i l.text s.is_text)
              (IsText-drop (suc i) l.text s.is_text))
            (omega (arith, length-remove i l.text h))))

pub del_left-Shows :
    (e : Editor) (l : Line) → Shows e l → Returns (del_left e) (λ e'. Shows e' (typed l ctrl_h))
unfolding del_left typed
del_left-Shows e l s = elim (Bool-cases (ltb 0 e.gl_pos)) [
  | inl inner ↦
      let test : ltb 0 l.cursor ≡ true = ground (arith, s.at_cursor, inner) in
      rw (inner, test)
        (del_from-Shows e l (e.gl_pos - 1) (l.cursor - 1) s (ap (λ i. i - 1) s.at_cursor)
          (ground (arith, s.inside, test)))
  | inr first ↦
      let test : ltb 0 l.cursor ≡ false = ground (arith, s.at_cursor, first) in
      rw (first, test, Returns) (ring-Shows e l s)
]

-- Where the cursor stands behind the line, a key that deletes forward rings the bell.
same_test :
    (e : Editor) (l : Line) → Shows e l → ltb e.gl_pos e.gl_cnt ≡ ltb l.cursor (length l.text)
same_test e l s = rw (s.at_cursor, s.counted)

pub del_here-Shows :
    (e : Editor) (l : Line) → Shows e l → Returns (del_here e) (λ e'. Shows e' (typed l ctrl_d))
unfolding del_here typed
del_here-Shows e l s = elim (Bool-cases (ltb l.cursor (length l.text))) [
  | inl inner ↦
      rw (same_test e l s ∙ inner, inner)
        (del_from-Shows e l e.gl_pos l.cursor s s.at_cursor (ground (arith, inner)))
  | inr last ↦ rw (same_test e l s ∙ last, last, Returns) (ring-Shows e l s)
]

pub kill-Shows :
    (e : Editor) (l : Line) → Shows e l → Returns (kill e) (λ e'. Shows e' (typed l ctrl_k))
unfolding kill typed fixup
kill-Shows e l s = elim (Bool-cases (ltb l.cursor (length l.text))) [
  | inl inner ↦
      let under : l.cursor < length l.text = ground (arith, inner) in
      rw
        (
          same_test e l s ∙ inner,
          inner,
          s.is_buf,
          s.at_cursor,
          poke_lem s.block l.cursor 0 (omega (arith, s.holds.0)),
        )
        (drawn-Shows e l (set s.block l.cursor 0) (take l.cursor l.text)
          (cstring (drop l.cursor s.block)) (drop l.cursor l.text) l.cursor l.cursor s
          (length-set s.block l.cursor 0 ∙ s.sized) (cut-Holds under)
          (IsText-take l.cursor l.text s.is_text) (omega (arith, length-take l.cursor l.text))
          (cstring-drop s.block l.text l.cursor s.holds s.is_text s.inside)
          (IsText-drop l.cursor l.text s.is_text))
  | inr last ↦ rw (same_test e l s ∙ last, last, Returns) (ring-Shows e l s)
]
  where
    cut-Holds : l.cursor < length l.text → Holds (set s.block l.cursor 0) (take l.cursor l.text)
    cut-Holds under = (
      omega (arith, length-set s.block l.cursor 0, length-take l.cursor l.text, s.holds.0),
      λ j k. ground (
        arith,
        get_or-set s.block l.cursor 0 j 1,
        s.holds,
        s.holds.1 j,
        get_or-take l.cursor l.text j,
        length-take l.cursor l.text,
      ),
    )

-- Drawing all of the line once more.
pub again-Shows :
    (e : Editor) (l : Line) (c : ℕ)
    → Shows e l
    → c ≤ length l.text
    → Returns (fixup e redraw (pos c)) (λ e'. Shows e' (record l { cursor = c }))
unfolding fixup
again-Shows e l c s le =
    let inside : ltb (length l.text) c ≡ false = ground arith in
    rw (s.is_buf, strlen-Holds s.block l.text s.holds s.is_text, inside, Returns)
      (record {
        block = s.block;
        is_buf = refl;
        sized = s.sized;
        holds = s.holds;
        is_text = s.is_text;
        at_cursor = refl;
        counted = refl;
        inside = le;
        same_mode = s.same_mode;
        same_kill = s.same_kill;
        kill_text = s.kill_text;
      })

pub kill_begin-Shows :
    (e : Editor) (l : Line) → Shows e l → Returns (kill_begin e) (λ e'. Shows e' (typed l ctrl_u))
unfolding kill_begin typed fixup
kill_begin-Shows e l s = elim (Bool-cases (e.gl_pos == 0)) [
  | inl first ↦
      let test : ltb 0 l.cursor ≡ false = ground (arith, s.at_cursor, first) in
      rw (first, test, Returns) (ring-Shows e l s)
  | inr inner ↦
      let test : ltb 0 l.cursor ≡ true = ground (arith, s.at_cursor, inner) in
      let (b, stored, size, same) =
        store_lem s.block 0 moved (omega (arith, s.holds.0, moved_size)) in
      rw (inner, test, s.is_buf, strlen-Holds s.block l.text s.holds s.is_text, s.at_cursor, stored)
        (Returns-bind
          (fixup (record (with_buf e b) { killbuf = cstring (take l.cursor s.block) }) (from 0)
            (pos 0))
          (λ e1. fixup e1 redraw (pos 0))
          (λ e'.
            Shows e'
              (record l { text = drop l.cursor l.text; cursor = 0; killed = take l.cursor l.text }))
          (λ e'.
            Shows e'
              (record l { text = drop l.cursor l.text; cursor = 0; killed = take l.cursor l.text }))
          (drawn-Shows e l b (drop l.cursor l.text) (cstring (take l.cursor s.block))
            (take l.cursor l.text) 0 0 s (size ∙ s.sized)
            (Holds-front s.block b l.text l.cursor s.holds s.inside size
              (subst (λ n. take n b ≡ moved) all_size same))
            (IsText-drop l.cursor l.text s.is_text) (omega arith)
            (cstring-take_line s.block l.text l.cursor s.holds s.is_text s.inside)
            (IsText-take l.cursor l.text s.is_text))
          (λ e' s'. again-Shows e' _ 0 s' (omega arith)))
]
  where
    moved : Bytes
    moved = take (length l.text - l.cursor + 1) (drop l.cursor s.block)

    moved_size : length moved ≡ length l.text - l.cursor + 1
    moved_size = omega (
      arith,
      s.holds.0,
      s.inside,
      length-take (length l.text - l.cursor + 1) (drop l.cursor s.block),
      length-drop l.cursor s.block,
    )

    all_size : 0 + length moved ≡ length l.text - l.cursor + 1
    all_size = omega (arith, moved_size)
