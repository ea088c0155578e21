-- ===== src/Edit/Keys.antt =====
-- The buffer and the cursor as a line, and the keys that move the cursor.
use cligen.Prelude.{
  ℕ, ◌+◌, ◌-◌, ◌≤◌, ◌≡◌, refl, ap, subst, arith, false, some, ◌==◌, ltb, length, returns, Returns,
  inl, inr, Bool-cases, min,
}
use cligen.Memory.{Bytes, IsText}
use cligen.Cv.Number.{pos, negsuc}
use cligen.Edit.{Editor, unchanged, from, with_buf, fixup, home, to_end, back, forward}
use cligen.Edit.Press.{ctrl_a, ctrl_b, ctrl_e, ctrl_f}
use cligen.Edit.Block.{Holds, strlen-Holds}
use cligen.Edit.Text.{Line, typed}

-- The buffer has the line and a NUL behind it, and the cursor stands in the line.
pub record Shows (e : Editor) (l : Line) : Type 0 where
  pub block : Bytes
  pub is_buf : e.handle.buf ≡ some block
  pub sized : length block ≡ e.handle.bufsize
  pub holds : Holds block l.text
  pub is_text : IsText l.text
  pub at_cursor : e.gl_pos ≡ l.cursor
  pub counted : e.gl_cnt ≡ length l.text
  pub inside : l.cursor ≤ length l.text
  pub same_mode : e.gl_overwrite ≡ l.over
  pub same_kill : e.killbuf ≡ l.killed
  pub kill_text : IsText l.killed

-- Drawing a line that a new block holds, with the cursor in it.
fixup_lem :
    (e : Editor) (b t k : Bytes) (i c : ℕ)
    → Holds b t
    → IsText t
    → c ≤ length t
    → fixup (record (with_buf e b) { killbuf = k }) (from i) (pos c)
      ≡ returns (record (with_buf e b) { killbuf = k; gl_cnt = length t; gl_pos = c })
unfolding fixup
fixup_lem e b t k i c h x le =
    let inside : ltb (length t) c ≡ false = ground arith in rw (strlen-Holds b t h x, inside)

-- The line is drawn from a new block.
pub drawn-Shows :
    (e : Editor) (l : Line) (b t k k' : Bytes) (i c : ℕ)
    → Shows e l
    → length b ≡ e.handle.bufsize
    → Holds b t
    → IsText t
    → c ≤ length t
    → k ≡ k'
    → IsText k'
    → Returns
        (fixup (record (with_buf e b) { killbuf = k }) (from i) (pos c))
        (λ e'. Shows e' (record l { text = t; cursor = c; killed = k' }))
drawn-Shows e l b t k k' i c s size h x le same kt =
    rw (fixup_lem e b t k i c h x le, Returns)
      (record {
        block = b;
        is_buf = refl;
        sized = size;
        holds = h;
        is_text = x;
        at_cursor = refl;
        counted = refl;
        inside = le;
        same_mode = s.same_mode;
        same_kill = same;
        kill_text = kt;
      })

-- The same with the kill buffer left as it is.
pub redrawn-Shows :
    (e : Editor) (l : Line) (b t : Bytes) (i c : ℕ)
    → Shows e l
    → length b ≡ e.handle.bufsize
    → Holds b t
    → IsText t
    → c ≤ length t
    → Returns
        (fixup (with_buf e b) (from i) (pos c))
        (λ e'. Shows e' (record l { text = t; cursor = c }))
redrawn-Shows e l b t i c s size h x le =
    drawn-Shows e l b t e.killbuf l.killed i c s size h x le s.same_kill s.kill_text

-- Only the cursor moves, and does not leave the line.
moved-Shows :
    (e : Editor) (l : Line) (c : ℕ)
    → Shows e l
    → Returns
        (fixup e unchanged (pos c))
        (λ e'. Shows e' (record l { cursor = min c (length l.text) }))
unfolding fixup
moved-Shows e l c s = elim (Bool-cases (ltb e.gl_cnt c)) [
  | inl behind ↦
      rw (behind, Returns)
        (record {
          block = s.block;
          is_buf = s.is_buf;
          sized = s.sized;
          holds = s.holds;
          is_text = s.is_text;
          at_cursor = ground (arith, s.counted, behind);
          counted = s.counted;
          inside = ground arith;
          same_mode = s.same_mode;
          same_kill = s.same_kill;
          kill_text = s.kill_text;
        })
  | inr within_line ↦
      rw (within_line, Returns)
        (record {
          block = s.block;
          is_buf = s.is_buf;
          sized = s.sized;
          holds = s.holds;
          is_text = s.is_text;
          at_cursor = ground (arith, s.counted, within_line);
          counted = s.counted;
          inside = ground arith;
          same_mode = s.same_mode;
          same_kill = s.same_kill;
          kill_text = s.kill_text;
        })
]

-- It moves to a place in the line.
pub placed-Shows :
    (e : Editor) (l : Line) (p c : ℕ)
    → Shows e l
    → p ≡ c
    → c ≤ length l.text
    → Returns (fixup e unchanged (pos p)) (λ e'. Shows e' (record l { cursor = c }))
placed-Shows e l p c s is le =
    let same : min p (length l.text) ≡ c = ground arith in
    subst (λ i. Returns (fixup e unchanged (pos p)) (λ e'. Shows e' (record l { cursor = i }))) same
      (moved-Shows e l p s)

pub home-Shows :
    (e : Editor) (l : Line) → Shows e l → Returns (home e) (λ e'. Shows e' (typed l ctrl_a))
unfolding home typed
home-Shows e l s = placed-Shows e l 0 0 s refl (omega arith)

pub to_end-Shows :
    (e : Editor) (l : Line) → Shows e l → Returns (to_end e) (λ e'. Shows e' (typed l ctrl_e))
unfolding to_end typed
to_end-Shows e l s = placed-Shows e l e.gl_cnt (length l.text) s s.counted (omega arith)

pub forward-Shows :
    (e : Editor) (l : Line) → Shows e l → Returns (forward e) (λ e'. Shows e' (typed l ctrl_f))
unfolding forward typed
forward-Shows e l s =
    subst
      (λ i.
        Returns (forward e) (λ e'. Shows e' (record l { cursor = min (i + 1) (length l.text) })))
      s.at_cursor (moved-Shows e l (e.gl_pos + 1) s)

-- Before the line the cursor stays at its beginning.
at_begin-Shows :
    (e : Editor) (l : Line)
    → Shows e l
    → l.cursor ≡ 0
    → Returns (fixup e unchanged (negsuc 0)) (λ e'. Shows e' (record l { cursor = l.cursor - 1 }))
unfolding fixup
at_begin-Shows e l s first = record {
  block = s.block;
  is_buf = s.is_buf;
  sized = s.sized;
  holds = s.holds;
  is_text = s.is_text;
  at_cursor = omega arith;
  counted = s.counted;
  inside = omega (arith, s.inside);
  same_mode = s.same_mode;
  same_kill = s.same_kill;
  kill_text = s.kill_text;
}

pub back-Shows :
    (e : Editor) (l : Line) → Shows e l → Returns (back e) (λ e'. Shows e' (typed l ctrl_b))
unfolding back typed
back-Shows e l s = elim (Bool-cases (e.gl_pos == 0)) [
  | inl first ↦ rw first (at_begin-Shows e l s (ground (arith, s.at_cursor, first)))
  | inr inner ↦ rw inner (
      placed-Shows e l (e.gl_pos - 1) (l.cursor - 1) s (ap (λ i. i - 1) s.at_cursor)
        (omega (arith, s.inside)))
]
