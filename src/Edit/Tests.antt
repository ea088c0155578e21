-- ===== src/Edit/Tests.antt =====
-- Keys pressed on a line, and the theorem at a concrete line.
use cligen.Prelude.{◌≡◌, refl, false, true, none, some, List, [], ◌∷◌, returns, ◌>>=◌}
use cligen.Memory.{Bytes, Machine, realloc, store}
use cligen.History.{Hist, buf_increase, increase_to, grow_buf}
use cligen.Edit.{Editor, move_right, peek, poke}
use cligen.Edit.Press.{
  Key, char, ctrl_a, ctrl_d, ctrl_h, ctrl_k, ctrl_o, ctrl_t, ctrl_u, ctrl_w, ctrl_y, meta_b, meta_f,
  opens, press, presses,
}
use cligen.Edit.Text.{back_while, ahead_while, Line, typed}
use cligen.Edit.Refine.{type_all}

abbrev roomy : Machine
roomy = record { grants = λ n. true; junk = λ i. 170 }

-- "abc" with the cursor on the c, in a buffer that is full.
abbrev block : Bytes
block = b'a' ∷ b'b' ∷ b'c' ∷ 0 ∷ []

abbrev handle : Hist
handle = record {
  slots = some [] ∷ none ∷ [];
  size = 2;
  cur = 0;
  last = 0;
  pre = none;
  buf = some block;
  bufsize = 4;
}

abbrev editor : Editor
editor = record {
  handle = handle;
  gl_pos = 2;
  gl_cnt = 3;
  gl_overwrite = false;
  killbuf = [];
  bell = false;
}

abbrev line : Line
line = record { text = b'a' ∷ b'b' ∷ b'c' ∷ []; cursor = 2; over = false; killed = [] }

abbrev keys : List Key
keys =
    char b'\\'
    ∷ char b'x'
    ∷ ctrl_t
    ∷ ctrl_h
    ∷ ctrl_o
    ∷ char b'y'
    ∷ ctrl_a
    ∷ ctrl_d
    ∷ ctrl_k
    ∷ ctrl_y
    ∷ ctrl_w
    ∷ ctrl_y
    ∷ meta_b
    ∷ meta_f
    ∷ []

typed_test :
    type_all false line keys
    ≡ record { text = b'b' ∷ b'y' ∷ []; cursor = 2; over = true; killed = b'b' ∷ b'y' ∷ [] }
unfolding opens typed back_while ahead_while
typed_test = refl

-- The transposed byte, "abxc" with the cursor at 3 being "abcx" afterwards, is in the grown buffer.
pressed_test :
    (presses roomy false editor (char b'x' ∷ ctrl_t ∷ []) >>= λ r. returns r.1.handle.buf)
    ≡ returns (some (b'a' ∷ b'b' ∷ b'c' ∷ b'x' ∷ 0 ∷ 0 ∷ 0 ∷ 0 ∷ []))
unfolding presses opens press buf_increase increase_to grow_buf realloc move_right peek poke
pressed_test = refl

-- The bytes up to the cursor are killed, and the rest moves to the front.
killed_test :
    (presses roomy false editor (ctrl_u ∷ []) >>= λ r. returns r.1.handle.buf)
    ≡ returns (some (b'c' ∷ 0 ∷ b'c' ∷ 0 ∷ []))
unfolding presses opens press store
killed_test = refl

-- A backslash behind a backslash, and a newline behind one, are characters of the line.
escaped_test :
    (type_all false line (char b'\\' ∷ char b'\\' ∷ char b'\\' ∷ char b'\n' ∷ [])).text
    ≡ b'a' ∷ b'b' ∷ b'\\' ∷ b'\n' ∷ b'c' ∷ []
unfolding opens typed
escaped_test = refl

-- A blank before the cursor in the first place stays where the last word is killed.
abbrev blank : Line
blank = record { text = b' ' ∷ []; cursor = 1; over = false; killed = [] }

first_blank_stays : (typed blank ctrl_w).text ≡ b' ' ∷ []
unfolding typed back_while
first_blank_stays = refl
