-- ===== src/Buf/Tests.antt =====
-- Runs of cligen_buf.c on a small buffer.
use cligen.Prelude.{
  ℕ, ◌≡◌, refl, arith, true, false, none, some, List, [], ◌∷◌, returns, diverges, Returns,
}
use cligen.Memory.{Bytes, Machine, ok, failed}
use cligen.Buf.{Sizes, Cbuf, spinning, new_alloc, append_str, cprintf, trunc, grow}
use cligen.Buf.Valid.{IsValid}
use cligen.Buf.Append.{Appended, AppendedTo, append_str-Appended, cprintf-Appended}
use cligen.Buf.Failure.{FailsThenFaults, append_str_zero, append_str_refused}
use cligen.Buf.Text
use cligen.Buf.Text.{Op, put_str, put_char, cut, clear, IsSound}
use cligen.Buf.Calls.{Granting}
use cligen.Buf.Refine.{MeetsAll, run, run-refines}

abbrev roomy : Machine
roomy = record { grants = λ n. true; junk = λ i. 170 }

abbrev full : Machine
full = record { grants = λ n. false; junk = λ i. 170 }

abbrev small : Sizes
small = record { start = 4; threshold = 8 }

-- "ab", in a block of 4 bytes.
abbrev ab : Cbuf
ab = record { buffer = b'a' ∷ b'b' ∷ 0 ∷ 7 ∷ []; buflen = 4; strlen = 2 }

abbrev cd : Bytes
cd = b'c' ∷ b'd' ∷ []

ab-IsValid : IsValid ab
ab-IsValid = record { allocated = refl; room = omega arith; small = omega arith; terminated = refl }

roomy-Granting : Granting small roomy
roomy-Granting = record { grants_all = λ n. refl; small_threshold = omega arith }

abbrev script : List Op
script = put_str (some cd) ∷ put_char b'e' ∷ cut 3 ∷ put_str none ∷ cut 9 ∷ []

text_of_script :
    Text.run (b'a' ∷ b'b' ∷ []) script
    ≡ (ok ∷ ok ∷ ok ∷ failed ∷ failed ∷ [], b'a' ∷ b'b' ∷ b'c' ∷ [])
unfolding Text.run Text.step
text_of_script = refl

trunc_past_end : trunc ab 3 ≡ returns (failed, ab)
unfolding trunc
trunc_past_end = refl

run-refines_example : Returns (run small roomy ab script) (MeetsAll ab script)
run-refines_example = run-refines ab script roomy-Granting ab-IsValid tt (omega arith)

append_str-Appended_example :
    Returns (append_str small roomy ab (some cd)) (Appended small roomy ab cd)
append_str-Appended_example =
    append_str-Appended small roomy ab cd ab-IsValid (omega arith) (omega arith)

cprintf-Appended_example :
    Returns (cprintf small full (some ab) (some cd)) (AppendedTo small full ab cd)
cprintf-Appended_example = cprintf-Appended small full ab cd ab-IsValid (omega arith) (omega arith)

abbrev empty : Cbuf
empty = record { buffer = []; buflen = 0; strlen = 0 }

new_empty : new_alloc roomy 0 ≡ some empty
unfolding new_alloc
new_empty = refl

append_str_zero_example :
    (append_str small roomy empty (some cd) ≡ diverges) × ((fuel : ℕ) → grow fuel 8 3 0 ≡ spinning)
append_str_zero_example = append_str_zero small roomy cd (omega arith) new_empty

append_str_refused_example : Returns (append_str small full ab (some cd)) (FailsThenFaults small cd)
append_str_refused_example =
    append_str_refused small full ab cd ab-IsValid (λ n. refl) (omega arith) (omega arith)
      (omega arith)
