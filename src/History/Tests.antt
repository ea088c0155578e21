-- ===== src/History/Tests.antt =====
-- Runs of cligen_history.c on a ring of three slots.
use cligen.Prelude.{
  ◌≡◌, refl, arith, true, false, none, some, [], ◌∷◌, ◌>>=◌, returns, fault, Returns,
}
use cligen.Memory.{Bytes, Machine, ok, eq_bytes}
use cligen.Buf.{Sizes}
use cligen.Buf.Calls.{Granting}
use cligen.History.{
  Hist, shown, add, prev, next, init, clear_slots, exit, file_save, differs, copy, slot, has,
  skip_blank, compared_length,
}
use cligen.History.Add.{IsValid, lines}
use cligen.History.Increase.{Added, add-Added}
use cligen.History.Browse.{prevs, prevs-newest, next-prev}
use cligen.History.Start.{init-IsValid, file_save-lines}
use cligen.History.File.{file_load}
use cligen.History.Reload.{read, add_all}
use cligen.History.Load.{Holds}
use cligen.History.RoundTrip.{file_load-Holds, file_load-file_save}
use cligen.History.Log
use cligen.History.Copy.{Copied, copy-Copied}

abbrev roomy : Machine
roomy = record { grants = λ n. true; junk = λ i. 170 }

abbrev stingy : Machine
stingy = record { grants = λ n. false; junk = λ i. 170 }

abbrev small : Sizes
small = record { start = 4; threshold = 8 }

roomy-Granting : Granting small roomy
roomy-Granting = record { grants_all = λ n. refl; small_threshold = omega arith }

abbrev line_a : Bytes
line_a = b'a' ∷ []

abbrev line_b : Bytes
line_b = b'b' ∷ []

abbrev line_c : Bytes
line_c = b'c' ∷ b'c' ∷ []

abbrev block : Bytes
block = 0 ∷ 0 ∷ 0 ∷ 0 ∷ []

-- "b" and "a", the ring being full.
abbrev two_lines : Hist
two_lines = record {
  slots = some line_a ∷ some [] ∷ some line_b ∷ [];
  size = 3;
  cur = 1;
  last = 1;
  pre = some line_a;
  buf = some block;
  bufsize = 4;
}

abbrev unset : Hist
unset = record {
  slots = [];
  size = 0;
  cur = 0;
  last = 0;
  pre = none;
  buf = some block;
  bufsize = 4;
}

two_lines-IsValid : IsValid two_lines
unfolding Log.has_text
two_lines-IsValid = record {
  sized = refl;
  two = omega arith;
  last_in = omega arith;
  cur_in = omega arith;
  cleared = refl;
  packed = ((omega arith, refl), ((omega arith, refl), tt));
  pre_is = refl;
  block = (block, refl, refl);
  positive = omega arith;
}

-- A line that ends in a newline is never taken for a repeated one, since the newline is stored.
repeated_newline : differs (some (b'a' ∷ b'\n' ∷ [])) (b'a' ∷ b'\n' ∷ []) ≡ true
unfolding differs compared_length skip_blank has eq_bytes
repeated_newline = refl

add-Added_example : Returns (add roomy two_lines line_c) (Added roomy two_lines line_c)
add-Added_example = add-Added roomy two_lines line_c two_lines-IsValid (omega arith)

prevs-newest_example :
    prevs 1 two_lines ≡ returns (shown (some line_b), record two_lines { cur = 2 })
prevs-newest_example = prevs-newest 1 two_lines two_lines-IsValid (omega arith) refl (omega arith)

prev-two_lines : prev two_lines ≡ returns (shown (some line_a), record two_lines { cur = 0 })
unfolding prev slot
prev-two_lines = refl

next-prev_example : next (record two_lines { cur = 0 }) ≡ returns (shown (some []), two_lines)
next-prev_example =
    next-prev two_lines (record two_lines { cur = 0 }) (shown (some line_a)) two_lines-IsValid
      prev-two_lines (omega arith)

init-IsValid_example :
    Returns (init roomy unset 2) (λ r. (r.0 ≡ ok) × IsValid r.1 × (lines r.1 ≡ []) × (r.1.size ≡ 3))
init-IsValid_example =
    init-IsValid roomy unset 2 (omega arith) (omega arith) refl (omega arith) refl refl
      (omega arith)

-- Behind `hist_exit` the old size is still that of the lines, which are gone.
init_after_exit : init roomy (exit two_lines) 2 ≡ fault
unfolding init clear_slots exit
init_after_exit = refl

-- A refused call leaves the new size with the old slots, and the next call reads behind them.
init_after_refusal : (init stingy two_lines 3 >>= λ r. init roomy r.1 2) ≡ fault
unfolding init clear_slots
init_after_refusal = refl

file_save-lines_example : file_save two_lines ≡ returns (b'b' ∷ b'\n' ∷ b'a' ∷ b'\n' ∷ [])
file_save-lines_example = file_save-lines two_lines two_lines-IsValid

file_load-Holds_example :
    Returns
      (file_load small roomy two_lines (b'c' ∷ b'\n' ∷ []))
      (Holds 3 (read 2 (line_b ∷ line_a ∷ []) [] (b'c' ∷ b'\n' ∷ [])))
file_load-Holds_example =
    file_load-Holds small roomy two_lines (b'c' ∷ b'\n' ∷ []) roomy-Granting (omega arith)
      (omega arith) two_lines-IsValid (omega arith) (omega arith)

two_lines_logged : line_b ∷ line_a ∷ [] ≡ add_all 2 [] (line_b ∷ line_a ∷ [])
unfolding add_all Log.add Log.has_text differs compared_length skip_blank has eq_bytes
two_lines_logged = refl

file_load-file_save_example :
    Returns
      (file_save two_lines >>= λ file. init roomy unset 2 >>= λ r0. file_load small roomy r0.1 file)
      (λ r. (r.0 ≡ ok) × IsValid r.1 × (lines r.1 ≡ line_b ∷ line_a ∷ []))
file_load-file_save_example =
    file_load-file_save small roomy two_lines unset (line_b ∷ line_a ∷ []) 2 roomy-Granting
      (omega arith) (omega arith) two_lines-IsValid refl two_lines_logged (omega arith)
      (omega arith) (omega arith) (omega arith) refl refl (omega arith)

copy-Copied_example : Returns (copy two_lines line_c) (Copied two_lines line_c)
copy-Copied_example = copy-Copied two_lines line_c two_lines-IsValid (omega arith) (omega arith)
