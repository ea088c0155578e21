-- ===== src/Cv.antt =====
-- cligen_cv.c: the values of variables, as they are parsed and printed. This file has what the
-- parsers share.
pub mod Hex
pub mod Uuid
pub mod Mac
pub mod Url
pub mod Number
pub mod Compare
mod Decimal
use cligen.Prelude.{ℕ, ◌+◌, Option, none, some, if◌then◌else◌, length}
use cligen.Memory.{Bytes, Machine}

-- What the parsers return: 1 with the value that they have stored, 0 for a string that is not one,
-- and -1 where memory is refused. The text of the reason is left out, and so is what a parser that
-- fails has stored of the value.
pub data Parsed {ℓ} (A : Type ℓ) : Type ℓ where
  parsed : A → Parsed A
  invalid : Parsed A
  error : Parsed A

infixl 5 ◌>>=◌
abbrev pub ◌>>=◌ {ℓ κ} : {A : Type ℓ} {B : Type κ} → Parsed A → (A → Parsed B) → Parsed B
parsed a >>= f = f a
invalid >>= f = invalid
error >>= f = error

-- strdup(3)
abbrev pub dup : Machine → Bytes → Parsed Bytes
dup m s = if m.grants (length s + 1) then parsed s else error
