-- ===== src/Buf/Text.antt =====
-- What a client asks of a string buffer, and the abstract text.
use cligen.Prelude.{
  ℕ, ◌+◌, ◌%◌, ◌≤◌, Option, none, some, List, [], ◌∷◌, ◌++◌, ◌==◌, leb, length, take, if◌then◌else◌,
}
use cligen.Memory.{Bytes, Status, ok, failed}

pub data Op : Type 0 where
  put_str : Option Bytes → Op
  put_char : ℕ → Op
  put_buf : Option Bytes → ℕ → Op
  print : Option Bytes → Op
  cut : ℕ → Op
  clear : Op

-- A buffer that holds `text`: the status of a call, and the text after it.
unfoldable pub step : Bytes → Op → Status × Bytes
step text (put_str none) = (failed, text)
step text (put_str (some str)) = (ok, text ++ str)
step text (put_char c) = (ok, if c % 256 == 0 then text else text ++ (c % 256 ∷ []))
step text (put_buf none n) = (failed, text)
step text (put_buf (some src) n) = (ok, text ++ take n src)
step text (print none) = (failed, text)
step text (print (some out)) = (ok, text ++ out)
step text (cut i) = if leb i (length text) then (ok, take i text) else (failed, text)
step text clear = (ok, [])

unfoldable pub run : Bytes → List Op → List Status × Bytes
run text [] = ([], text)
run text (op ∷ ops) =
    let (s, text') = step text op in let (ss, last) = run text' ops in (s ∷ ss, last)

-- The most that a call may append.
abbrev pub cost : Op → ℕ
cost (put_str (some str)) = length str
cost (put_char c) = 1
cost (put_buf (some src) n) = n
cost (print (some out)) = length out
cost _ = 0

abbrev pub total : List Op → ℕ
total [] = 0
total (op ∷ ops) = cost op + total ops

-- A source block is as long as the caller says.
abbrev pub IsSound : List Op → Type 0
IsSound [] = Unit
IsSound (put_buf (some src) n ∷ ops) = (n ≤ length src) × IsSound ops
IsSound (op ∷ ops) = IsSound ops
