-- ===== src/Edit/Yank.antt =====
-- `gl_yank` with a buffer that may be too small.
use cligen.Prelude.{
  true, false, Bool, if◌then◌else◌, ltb, ap, zero, [], ◌∷◌, drop, not, ◌==◌, get_or, set,
  length-set, get_or-set_self, Option, within, ℕ, suc, ◌+◌, ◌≤◌, ◌<◌, ◌≡◌, refl, sym, subst, ◌∙◌,
  arith, some, ◌++◌, length, take, returns, Returns, Returns-bind, Bool-cases, inl, inr, ◌>>=◌,
}
use cligen.Memory.{Bytes, Machine}
use cligen.History.{Hist}
use cligen.History.Enlarge.{half_max}
use cligen.Edit.{ring, with_buf, poke, Editor}
use cligen.Edit.Press.{done, ctrl_y}
use cligen.Edit.Block.{poke_lem, get_or-set}
use cligen.Edit.Text.{Line, typed}
use cligen.Edit.Keys.{Shows}
use cligen.Edit.Words.{yank, yank_insert, yank_over, end_line}
use cligen.Edit.Pastes.{pasted, yank_insert-Shows, yank_over-Shows}
use cligen.Edit.Cuts.{ring-Shows}
use cligen.Edit.Grow.{Types, done-Types, after_increase, after_increase-Types}

-- A NUL at the place where a line of what was killed is to end behind the end of the line.
end_run :
    (e : Editor) (l : Line) (s : Shows e l) (buf : Option Bytes) (p : ℕ) (ks : Bytes)
    → buf ≡ some s.block
    → p ≡ l.cursor
    → ks ≡ l.killed
    → length l.text < l.cursor + length l.killed
    → l.cursor + length l.killed < length s.block
    → Returns
        (within buf >>= λ b. poke b (p + length ks) 0 >>= λ b1. returns (with_buf e b1))
        (λ e'.
          (s' : Shows e' l) × (l.cursor + length l.killed < length s'.block)
          × (get_or s'.block (l.cursor + length l.killed) 1 ≡ 0))
end_run e l s buf p ks is_buf at same behind room =
    rw (is_buf, at, same, poke_lem s.block (l.cursor + length l.killed) 0 room, Returns)
      (
        shown,
        omega (arith, room, size),
        get_or-set_self s.block (l.cursor + length l.killed) 0 1 room,
      )
  where
    size : length (set s.block (l.cursor + length l.killed) 0) ≡ length s.block
    size = length-set s.block (l.cursor + length l.killed) 0

    shown : Shows (with_buf e (set s.block (l.cursor + length l.killed) 0)) l
    shown = record {
      block = set s.block (l.cursor + length l.killed) 0;
      is_buf = refl;
      sized = size ∙ s.sized;
      holds = (
        omega (arith, size, s.holds.0),
        λ j k. ground (arith, s.holds.1 j, get_or-set s.block (l.cursor + length l.killed) 0 j 1),
      );
      is_text = s.is_text;
      at_cursor = s.at_cursor;
      counted = s.counted;
      inside = s.inside;
      same_mode = s.same_mode;
      same_kill = s.same_kill;
      kill_text = s.kill_text;
    }

-- Nothing that was killed leaves the line as it is.
nothing_pasted :
    (e : Editor) (l : Line) (s : Shows e l)
    → length l.killed ≡ 0
    → (k : ℕ) → k ≡ l.cursor
    → pasted e l s k ≡ l
nothing_pasted e l s none k same =
    ap (λ t. record l { text = t; cursor = l.cursor + length l.killed })
      (rw (same, is_empty l.killed none) (take-append-drop_lem l.cursor l.text))
    ∙ ap (λ c. record l { cursor = c })
        (let same_place : l.cursor + length l.killed ≡ l.cursor = omega arith in same_place)
  where
    is_empty : (ks : Bytes) → length ks ≡ 0 → ks ≡ []
    is_empty [] h = refl
    is_empty (c ∷ ks) h = absurd (omega arith)

    take-append-drop_lem : (i : ℕ) (t : Bytes) → take i t ++ ([] ++ drop i t) ≡ t
    take-append-drop_lem zero t = refl
    take-append-drop_lem (suc i) [] = refl
    take-append-drop_lem (suc i) (x ∷ t) = ap (◌∷◌ x) (take-append-drop_lem i t)

module _ (m : Machine) (e : Editor) (l : Line) (s : Shows e l)
    (small : length l.text + length l.killed + 1 < half_max) where
  yank_nothing : length l.killed ≡ 0 → Shows (ring e) (typed l ctrl_y)
  unfolding typed
  yank_nothing none =
      subst (λ l'. Shows (ring e) l')
        (sym (
          nothing_pasted e l s none (if l.over then l.cursor + length l.killed else l.cursor)
            (ground arith)))
        (ring-Shows e l s)

  end_line_over :
      (h : Hist)
      → Shows (record e { handle = h }) l
      → l.cursor + length l.killed + 1 < h.bufsize
      → length l.text < l.cursor + length l.killed
      → Returns
          (end_line (record e { handle = h }) >>= yank_over)
          (λ e'. Shows e' (pasted e l s (l.cursor + length l.killed)))
  unfolding end_line
  end_line_over h s' room behind =
      Returns-bind (end_line (record e { handle = h })) yank_over
        (λ e'.
          (s2 : Shows e' l) × (l.cursor + length l.killed < length s2.block)
          × (get_or s2.block (l.cursor + length l.killed) 1 ≡ 0))
        (λ e'. Shows e' (pasted e l s (l.cursor + length l.killed)))
        (end_run (record e { handle = h }) l s' h.buf e.gl_pos e.killbuf s'.is_buf s.at_cursor
          s.same_kill behind (omega (arith, s'.sized, room)))
        (λ e' r.
          yank_over-Shows e' l r.0 r.1
            (r.2 ∙ sym (get_or_behind l.text (l.cursor + length l.killed) (omega arith))))
    where
      get_or_behind : (t : Bytes) (i : ℕ) → length t ≤ i → get_or t i 0 ≡ 0
      get_or_behind [] i h = refl
      get_or_behind (x ∷ t) zero h = absurd (omega arith)
      get_or_behind (x ∷ t) (suc i) h = get_or_behind t i (omega arith)

  yank_typed_over : l.over ≡ true → typed l ctrl_y ≡ pasted e l s (l.cursor + length l.killed)
  unfolding typed
  yank_typed_over over = rw over

  yank_typed_insert : l.over ≡ false → typed l ctrl_y ≡ pasted e l s l.cursor
  unfolding typed
  yank_typed_insert insert = rw insert

  yank_inserts :
      l.over ≡ false
      → 0 < length l.killed
      → Returns
          (after_increase m e (e.gl_cnt + length e.killbuf + 1) yank_insert)
          (Types m (typed l ctrl_y))
  yank_inserts insert some_killed =
      subst
        (λ l'.
          Returns (after_increase m e (e.gl_cnt + length e.killbuf + 1) yank_insert) (Types m l'))
        (sym (yank_typed_insert insert))
        (after_increase-Types m e l (pasted e l s l.cursor) (e.gl_cnt + length e.killbuf + 1)
          yank_insert s (omega (arith, s.counted, same))
          (λ h s' room.
            yank_insert-Shows (record e { handle = h }) l s' some_killed
              (omega (arith, s.counted, same, s'.sized, room))))
    where
      same : length e.killbuf ≡ length l.killed
      same = ap (λ ks. length ks) s.same_kill

  yank_over_end :
      l.over ≡ true
      → length l.text < l.cursor + length l.killed
      → Returns
          (after_increase m e (e.gl_pos + length e.killbuf + 1) (λ e'. end_line e' >>= yank_over))
          (Types m (typed l ctrl_y))
  yank_over_end over behind =
      subst
        (λ l'.
          Returns
            (after_increase m e (e.gl_pos + length e.killbuf + 1) (λ e'. end_line e' >>= yank_over))
            (Types m l'))
        (sym (yank_typed_over over))
        (after_increase-Types m e l (pasted e l s (l.cursor + length l.killed))
          (e.gl_pos + length e.killbuf + 1) (λ e'. end_line e' >>= yank_over) s
          (omega (arith, s.at_cursor, s.inside, same))
          (λ h s' room. end_line_over h s' (omega (arith, s.at_cursor, same, room)) behind))
    where
      same : length e.killbuf ≡ length l.killed
      same = ap (λ ks. length ks) s.same_kill

  yank_over_inner :
      l.over ≡ true
      → l.cursor + length l.killed ≤ length l.text
      → Returns (done (yank_over e)) (Types m (typed l ctrl_y))
  yank_over_inner over inner =
      subst (λ l'. Returns (done (yank_over e)) (Types m l')) (sym (yank_typed_over over))
        (done-Types m (pasted e l s (l.cursor + length l.killed)) (yank_over e) (
          yank_over-Shows e l s (omega (arith, s.holds.0))
            (s.holds.1 (l.cursor + length l.killed) inner)))

  yank_mode :
      (mode : Bool)
      → l.over ≡ mode
      → 0 < length l.killed
      → Returns
          (if not mode
            then after_increase m e (e.gl_cnt + length e.killbuf + 1) yank_insert
            else if ltb e.gl_cnt (e.gl_pos + length e.killbuf)
            then after_increase m e
                (e.gl_pos + length e.killbuf + 1)
                (λ e'. end_line e' >>= yank_over)
            else done (yank_over e))
          (Types m (typed l ctrl_y))
  yank_mode false insert some_killed = yank_inserts insert some_killed
  yank_mode true over some_killed = elim (Bool-cases (ltb e.gl_cnt (e.gl_pos + length e.killbuf))) [
    | inl behind ↦
        rw behind (yank_over_end over (ground (arith, same, s.at_cursor, s.counted, behind)))
    | inr inner ↦
        rw inner (yank_over_inner over (ground (arith, same, s.at_cursor, s.counted, inner)))
  ]
    where
      same : length e.killbuf ≡ length l.killed
      same = ap (λ ks. length ks) s.same_kill

  pub yank-Types : Returns (yank m e) (Types m (typed l ctrl_y))
  unfolding yank
  yank-Types = elim (Bool-cases (length e.killbuf == 0)) [
    | inl none ↦ rw (none, Returns) (yank_nothing (ground (arith, same, none)))
    | inr killed ↦
        rw killed (yank_mode e.gl_overwrite (sym s.same_mode) (ground (arith, same, killed)))
  ]
    where
      same : length e.killbuf ≡ length l.killed
      same = ap (λ ks. length ks) s.same_kill
