-- ===== src/Edit/Words.antt =====
-- Words of the line in cligen_getline.c: `gl_word` and `gl_kill_word`; and `gl_yank`, which puts what
-- was killed into the line. Words end at the blanks of isspace(3) in the C locale.
use cligen.Prelude.{
  ℕ, zero, suc, ◌+◌, ◌-◌, Bool, not, if◌then◌else◌, ltb, ◌==◌, length, take, drop, [], ◌∷◌, Outcome,
  returns, within, ◌>>=◌,
}
use cligen.Memory.{Bytes, Machine, Status, ok, failed, store, cstring}
use cligen.Cv.Number.{pos, is_space}
use cligen.History.{buf_increase}
use cligen.Edit.{Editor, with_buf, ring, peek, poke, from, unchanged, redraw, fixup, move_right}

-- `while (test(buf[pos]) && pos > 0) pos--`
unfoldable pub skip_back : (ℕ → Bool) → ℕ → Bytes → Outcome ℕ
skip_back test zero b = peek b 0 >>= λ c. returns 0
skip_back test (suc n) b =
    let rest = skip_back test n b in
    peek b (suc n) >>= λ c. if test c then rest else returns (suc n)

-- `while (test(buf[pos]) && pos < gl_cnt) pos++`, where `gl_cnt - pos` is the first argument.
unfoldable pub skip_ahead : (ℕ → Bool) → ℕ → ℕ → Bytes → Outcome ℕ
skip_ahead test zero i b = peek b i >>= λ c. returns i
skip_ahead test (suc n) i b =
    let rest = skip_ahead test n (i + 1) b in peek b i >>= λ c. if test c then rest else returns i

-- Where a step to the left ends, in `gl_word` and in `gl_kill_word`.
unfoldable pub word_start : ℕ → ℕ → Bytes → Outcome ℕ
word_start cnt i b = skip_back is_space (i - 1) b >>= λ j.
    skip_back (λ c. not (is_space c)) j b >>= λ k.
    (if ltb k cnt then (peek b k >>= λ c. returns (if is_space c then k + 1 else k)) else returns k)

unfoldable pub word_left : Editor → Outcome Editor
word_left e =
    within e.handle.buf >>= λ b. word_start e.gl_cnt e.gl_pos b >>= λ i. fixup e unchanged (pos i)

unfoldable pub word_right : Editor → Outcome Editor
word_right e = within e.handle.buf >>= λ b.
    skip_ahead (λ c. not (is_space c)) (e.gl_cnt - e.gl_pos) e.gl_pos b >>= λ j.
    skip_ahead is_space (e.gl_cnt - j) j b >>= λ k. fixup e unchanged (pos k)

unfoldable pub kill_word : Editor → Outcome Editor
kill_word e =
    if e.gl_pos == 0
    then returns (ring e)
    else (within e.handle.buf >>= λ b. word_start e.gl_cnt e.gl_pos b >>= λ i.
        within (store b i (take (e.gl_cnt - e.gl_pos + 1) (drop e.gl_pos b))) >>= λ b1.
        fixup (record (with_buf e b1) { killbuf = cstring (take (e.gl_pos - i) (drop i b)) })
          (from e.gl_pos) (pos i)
        >>= λ e1. fixup e1 redraw (pos i))

-- `for (i=0; i < len; i++) buf[pos+i] = killbuf[i]`
unfoldable pub fill : Bytes → ℕ → Bytes → Outcome Bytes
fill [] i b = returns b
fill (c ∷ cs) i b = poke b i c >>= fill cs (i + 1)

-- The bytes behind the cursor make room, or are overwritten.
unfoldable pub yank_insert : Editor → Outcome Editor
yank_insert e = within e.handle.buf >>= λ b.
    move_right (e.gl_cnt + 1 - e.gl_pos) e.gl_cnt (length e.killbuf) b >>= λ b1.
    fill e.killbuf e.gl_pos b1 >>= λ b2.
    fixup (with_buf e b2) (from e.gl_pos) (pos (e.gl_pos + length e.killbuf))

unfoldable pub yank_over : Editor → Outcome Editor
yank_over e = within e.handle.buf >>= λ b. fill e.killbuf e.gl_pos b >>= λ b1.
    fixup (with_buf e b1) (from e.gl_pos) (pos (e.gl_pos + length e.killbuf))

-- The line ends behind what is put over its end.
unfoldable pub end_line : Editor → Outcome Editor
end_line e = within e.handle.buf >>= λ b.
    poke b (e.gl_pos + length e.killbuf) 0 >>= λ b1. returns (with_buf e b1)

unfoldable pub yank : Machine → Editor → Outcome (Status × Editor)
yank m e =
    if length e.killbuf == 0
    then returns (ok, ring e)
    else if not e.gl_overwrite
    then (buf_increase m e.handle (e.gl_cnt + length e.killbuf + 1) >>= λ r. elim r.0 [
      | failed ↦ returns (failed, record e { handle = r.1 })
      | ok ↦ yank_insert (record e { handle = r.1 }) >>= λ e1. returns (ok, e1)
    ])
    else if ltb e.gl_cnt (e.gl_pos + length e.killbuf)
    then (buf_increase m e.handle (e.gl_pos + length e.killbuf + 1) >>= λ r. elim r.0 [
      | failed ↦ returns (failed, record e { handle = r.1 })
      | ok ↦ end_line (record e { handle = r.1 }) >>= yank_over >>= λ e1. returns (ok, e1)
    ])
    else (yank_over e >>= λ e1. returns (ok, e1))
