-- ===== src/Edit/KillWord.antt =====
-- `gl_kill_word`.
use cligen.Prelude.{
  ℕ, ◌+◌, ◌-◌, ◌≤◌, ◌<◌, ◌≡◌, ◌∙◌, subst, arith, true, false, ◌++◌, ltb, ◌==◌, length,
  length-append, length-take, length-drop, take, drop, within, Returns, Returns-bind, ◌>>=◌, Option,
  some, Bool-cases, inl, inr,
}
use cligen.Memory.{Bytes, IsText-append, cstring, store_lem, store}
use cligen.Cv.Number.{pos}
use cligen.Edit.{Editor, with_buf, fixup, from, redraw}
use cligen.Edit.Words.{word_start, kill_word}
use cligen.Edit.Press.{ctrl_w}
use cligen.Edit.Text.{Line, typed, word_back, cut, IsText-take, IsText-drop}
use cligen.Edit.Keys.{Shows, drawn-Shows}
use cligen.Edit.Cuts.{ring-Shows, again-Shows}
use cligen.Edit.Stops.{word_back_le, word_start_lem, Holds-cut, killed_lem}

module _ (e : Editor) (l : Line) (s : Shows e l) (inner : 0 < l.cursor) where
  abbrev start : ℕ
  start = word_back l.cursor l.text

  abbrev moved : Bytes
  moved = take (length l.text - l.cursor + 1) (drop l.cursor s.block)

  abbrev killed_line : Line
  killed_line = record l {
    text = cut start l.cursor l.text;
    cursor = start;
    killed = take (l.cursor - start) (drop start l.text);
  }

  start_le : start ≤ l.cursor
  start_le = (word_back_le l.cursor l.text s.inside).1 inner

  size : length moved ≡ length l.text - l.cursor + 1
  size = omega (
    arith,
    s.holds.0,
    s.inside,
    length-take (length l.text - l.cursor + 1) (drop l.cursor s.block),
    length-drop l.cursor s.block,
  )

  inside_cut : start ≤ length (cut start l.cursor l.text)
  inside_cut = omega (
    arith,
    start_le,
    s.inside,
    length-append (take start l.text) (drop l.cursor l.text),
    length-take start l.text,
  )

  kill_word_run :
      (buf : Option Bytes) (cnt p : ℕ)
      → buf ≡ some s.block
      → cnt ≡ length l.text
      → p ≡ l.cursor
      → Returns
          (within buf >>= λ b. word_start cnt p b >>= λ i.
            within (store b i (take (cnt - p + 1) (drop p b))) >>= λ b1.
            fixup
              (record (with_buf e b1) { killbuf = cstring (take (p - i) (drop i b)) })
              (from p)
              (pos i)
            >>= λ e1. fixup e1 redraw (pos i))
          (λ e'. Shows e' killed_line)
  kill_word_run buf cnt p is_buf counted at =
      let (b, stored, same_size, same) =
        store_lem s.block start moved (omega (arith, size, start_le, s.inside, s.holds.0)) in
      rw (is_buf, counted, at, word_start_lem l.cursor s.block l.text s.holds s.inside, stored)
        (Returns-bind
          (fixup
            (record (with_buf e b) {
              killbuf = cstring (take (l.cursor - start) (drop start s.block));
            })
            (from l.cursor) (pos start))
          (λ e1. fixup e1 redraw (pos start)) (λ e'. Shows e' killed_line)
          (λ e'. Shows e' killed_line)
          (drawn-Shows e l b (cut start l.cursor l.text)
            (cstring (take (l.cursor - start) (drop start s.block)))
            (take (l.cursor - start) (drop start l.text)) l.cursor start s (same_size ∙ s.sized)
            (Holds-cut s.block b l.text start l.cursor s.holds start_le s.inside same_size
              (subst (λ n. take (start + n) b ≡ take start s.block ++ moved) size same))
            (IsText-append (take start l.text) (drop l.cursor l.text)
              (IsText-take start l.text s.is_text) (IsText-drop l.cursor l.text s.is_text))
            inside_cut
            (killed_lem s.block l.text start l.cursor s.holds s.is_text start_le s.inside)
            (IsText-take (l.cursor - start) (drop start l.text)
              (IsText-drop start l.text s.is_text)))
          (λ e' s'. again-Shows e' killed_line start s' inside_cut))

pub kill_word-Shows :
    (e : Editor) (l : Line) → Shows e l → Returns (kill_word e) (λ e'. Shows e' (typed l ctrl_w))
unfolding kill_word typed
kill_word-Shows e l s = elim (Bool-cases (e.gl_pos == 0)) [
  | inl first ↦
      let test : ltb 0 l.cursor ≡ false = ground (arith, s.at_cursor, first) in
      rw (first, test, Returns) (ring-Shows e l s)
  | inr inner ↦
      let test : ltb 0 l.cursor ≡ true = ground (arith, s.at_cursor, inner) in
      rw (inner, test)
        (kill_word_run e l s (ground (arith, test)) e.handle.buf e.gl_cnt e.gl_pos s.is_buf
          s.counted s.at_cursor)
]
