-- ===== src/Edit.antt =====
-- Editing of the input line in cligen_getline.c: the functions that change the line buffer and the
-- cursor. What they print is left out but for the bell; the prompt does not change. The line
-- buffer is the one of the handle, which the history grows; the kill buffer is the string in it, whose
-- memory is granted.
pub mod Block
pub mod Text
mod Words
pub mod Press
mod Keys
mod Cuts
mod Writes
mod Stops
mod KillWord
mod Pastes
mod Grow
mod Yank
mod Refine
mod Tests
use cligen.Prelude.{
  ℕ, zero, suc, ◌+◌, ◌-◌, Bool, true, false, ◌&&◌, ◌||◌, not, Option, none, some, List, [], ◌∷◌,
  ◌==◌, ltb, leb, length, take, drop, get_elem?, set, if◌then◌else◌, Outcome, returns, fault,
  within, ◌>>=◌,
}
use cligen.Memory.{Bytes, Machine, Status, ok, failed, store, cstring}
use cligen.Cv.Number.{ℤ, pos, negsuc}
use cligen.History.{Hist, buf_increase}

-- `gl_pos` is the cursor and `gl_cnt` the length of the line; `bell` is set once the bell was rung.
pub record Editor : Type 0 where
  pub handle : Hist
  pub gl_pos : ℕ
  pub gl_cnt : ℕ
  pub gl_overwrite : Bool
  pub killbuf : Bytes
  pub bell : Bool

-- A read and a write of a byte of a block.
unfoldable pub peek : Bytes → ℕ → Outcome ℕ
peek b i = within (get_elem? b i)

unfoldable pub poke : Bytes → ℕ → ℕ → Outcome Bytes
poke b i v = if ltb i (length b) then returns (set b i v) else fault

-- strlen(3) runs over the end of a block that has no NUL.
unfoldable pub strlen : Bytes → Outcome ℕ
strlen [] = fault
strlen (c ∷ b) = let rest = strlen b >>= λ n. returns (suc n) in if c == 0 then returns 0 else rest

abbrev pub with_buf : Editor → Bytes → Editor
with_buf e b = record e { handle = record e.handle { buf = some b } }

abbrev pub ring : Editor → Editor
ring e = record e { bell = true }

-- `change` of `gl_fixup`: -2 to draw all, -1 for no change, or where the change begins.
pub data Change : Type 0 where
  redraw unchanged : Change
  from : ℕ → Change

-- `gl_cnt` is counted again if the text has changed.
abbrev pub recount : Editor → Change → Outcome ℕ
recount e unchanged = returns e.gl_cnt
recount e redraw = within e.handle.buf >>= strlen
recount e (from i) = within e.handle.buf >>= strlen

-- A cursor outside of the line rings the bell, but for the size of the buffer, which means the end.
abbrev pub move_cursor : Editor → ℤ → ℕ → Editor
move_cursor e (negsuc n) cnt = record e { gl_cnt = cnt; gl_pos = 0; bell = true }
move_cursor e (pos cursor) cnt =
    if ltb cnt cursor
    then record e {
      gl_cnt = cnt;
      gl_pos = cnt;
      bell = if cursor == e.handle.bufsize then e.bell else true;
    }
    else record e { gl_cnt = cnt; gl_pos = cursor }

-- What `gl_fixup_scroll` and `gl_fixup_noscroll` do to `gl_cnt` and `gl_pos`.
unfoldable pub fixup : Editor → Change → ℤ → Outcome Editor
unfolding strlen
fixup e change cursor = recount e change >>= λ cnt. returns (move_cursor e cursor cnt)

-- `for (i = gl_cnt; i >= gl_pos; i--) buf[i+by] = buf[i]`, of so many rounds.
unfoldable pub move_right : ℕ → ℕ → ℕ → Bytes → Outcome Bytes
move_right zero i by b = returns b
move_right (suc n) i by b = peek b i >>= λ v. poke b (i + by) v >>= λ b'. move_right n (i - 1) by b'

-- `for (i = gl_pos+loc; i < gl_cnt; i++) buf[i] = buf[i+1]`
unfoldable pub move_left : ℕ → ℕ → Bytes → Outcome Bytes
move_left zero i b = returns b
move_left (suc n) i b = peek b (i + 1) >>= λ v. poke b i v >>= λ b'. move_left n (i + 1) b'

-- What `gl_addchar` does behind `cligen_buf_increase`.
unfoldable pub put_char : Editor → ℕ → Outcome Editor
put_char e c = within e.handle.buf >>= λ b.
    (if not e.gl_overwrite || e.gl_pos == e.gl_cnt
      then move_right (e.gl_cnt + 1 - e.gl_pos) e.gl_cnt 1 b
      else returns b)
    >>= λ b1.
        poke b1 e.gl_pos c >>= λ b2. fixup (with_buf e b2) (from e.gl_pos) (pos (e.gl_pos + 1))

unfoldable pub addchar : Machine → Editor → ℕ → Outcome (Status × Editor)
addchar m e c = buf_increase m e.handle (e.gl_cnt + 1) >>= λ r.
    let e1 = record e { handle = r.1 } in
    elim r.0 [ failed ↦ returns (failed, e1) | ok ↦ put_char e1 c >>= λ e2. returns (ok, e2) ]

-- `gl_del`, to the left of the cursor and under it.
unfoldable pub del_from : Editor → ℕ → Outcome Editor
del_from e start = within e.handle.buf >>= λ b.
    move_left (e.gl_cnt - start) start b >>= λ b1. fixup (with_buf e b1) (from start) (pos start)

unfoldable pub del_left : Editor → Outcome Editor
unfolding del_from
del_left e = if ltb 0 e.gl_pos then del_from e (e.gl_pos - 1) else returns (ring e)

unfoldable pub del_here : Editor → Outcome Editor
unfolding del_from
del_here e = if ltb e.gl_pos e.gl_cnt then del_from e e.gl_pos else returns (ring e)

-- `gl_kill` from the cursor on.
unfoldable pub kill : Editor → Outcome Editor
kill e =
    if ltb e.gl_pos e.gl_cnt
    then (within e.handle.buf >>= λ b. poke b e.gl_pos 0 >>= λ b1.
        fixup (record (with_buf e b1) { killbuf = cstring (drop e.gl_pos b) }) (from e.gl_pos)
          (pos e.gl_pos))
    else returns (ring e)

-- `gl_kill_begin` up to the cursor. memmove(3) takes the rest of the line with its NUL to the front.
unfoldable pub kill_begin : Editor → Outcome Editor
kill_begin e =
    if e.gl_pos == 0
    then returns (ring e)
    else (within e.handle.buf >>= λ b. strlen b >>= λ len.
        within (store b 0 (take (len - e.gl_pos + 1) (drop e.gl_pos b))) >>= λ b1.
        fixup (record (with_buf e b1) { killbuf = cstring (take e.gl_pos b) }) (from 0) (pos 0)
        >>= λ e1. fixup e1 redraw (pos 0))

unfoldable pub transpose : Editor → Outcome Editor
transpose e =
    if ltb 0 e.gl_pos && ltb e.gl_pos e.gl_cnt
    then (within e.handle.buf >>= λ b. peek b (e.gl_pos - 1) >>= λ c. peek b e.gl_pos >>= λ d.
        poke b (e.gl_pos - 1) d >>= λ b1.
        poke b1 e.gl_pos c >>= λ b2. fixup (with_buf e b2) (from (e.gl_pos - 1)) (pos e.gl_pos))
    else returns (ring e)

-- The keys ^A, ^B, ^E, ^F and ^O of `gl_getline`; a cursor before the line is -1.
unfoldable pub back : Editor → Outcome Editor
back e = fixup e unchanged (if e.gl_pos == 0 then negsuc 0 else pos (e.gl_pos - 1))

unfoldable pub forward : Editor → Outcome Editor
forward e = fixup e unchanged (pos (e.gl_pos + 1))

unfoldable pub home : Editor → Outcome Editor
home e = fixup e unchanged (pos 0)

unfoldable pub to_end : Editor → Outcome Editor
to_end e = fixup e unchanged (pos e.gl_cnt)

abbrev pub toggle : Editor → Editor
toggle e = record e { gl_overwrite = not e.gl_overwrite }
