-- ===== src/Trim.antt =====
-- `cli_trim` of cligen_read.c, which takes comments and needless blanks out of a command line, in place.
pub mod Text
mod Loop
pub mod Strip
pub mod Command
mod Tests
use cligen.Prelude.{
  ℕ, zero, suc, ◌+◌, ◌-◌, Bool, true, false, not, ◌&&◌, ◌||◌, [], ◌∷◌, ◌==◌, ltb, length,
  if◌then◌else◌, Outcome, returns, fault, diverges, ◌>>=◌,
}
use cligen.Memory.{Bytes}
use cligen.Lines.{is_blank}
use cligen.Edit.{peek, poke, strlen}

-- `comment && ch == comment && (whitespace || point == 0)`
abbrev pub is_comment : ℕ → Bool → ℕ → Bool
is_comment comment edge ch = not (comment == 0) && (ch == comment && edge)

-- The loop `for (point = 0; point <= len; point++)`, of so many rounds, where `s1` is written to.
unfoldable pub trim_loop : ℕ → ℕ → ℕ → ℕ → Bool → Bytes → Outcome Bytes
trim_loop zero comment point s1 whitespace s = returns s
trim_loop (suc n) comment point s1 whitespace s = peek s point >>= λ ch.
    elim (is_comment comment (whitespace || point == 0) ch) [
      | true ↦ poke s s1 b'\n' >>= λ b. poke b (s1 + 1) 0
      | false ↦ elim (is_blank ch) [
        | true ↦ elim whitespace [
          | true ↦ trim_loop n comment (point + 1) s1 true s
          | false ↦ poke s s1 b' ' >>= λ b. trim_loop n comment (point + 1) (s1 + 1) true b
        ]
        | false ↦ poke s s1 ch >>= λ b. trim_loop n comment (point + 1) (s1 + 1) false b
      ]
    ]

-- `while ((strlen(s) > 0) && isblank(*s)) s++`, where `s` is the rest of the block.
unfoldable pub strip_heading : Bytes → Outcome Bytes
strip_heading [] = fault
strip_heading (c ∷ s) =
    let rest = strip_heading s in
    strlen (c ∷ s) >>= λ n. if ltb 0 n && is_blank c then rest else returns (c ∷ s)

abbrev pub is_trailing : ℕ → Bool
is_trailing c = is_blank c || c == b'\n'

-- The loop that ends the string before blanks and newlines at its end. Each round makes the string
-- shorter, so a round for each byte of the block is enough fuel.
unfoldable pub strip_trailing : ℕ → Bytes → Outcome Bytes
strip_trailing zero s = diverges
strip_trailing (suc fuel) s = strlen s >>= λ n. elim (ltb 0 n) [
  | false ↦ returns s
  | true ↦ peek s (n - 1) >>= λ c. elim (is_trailing c) [
    | true ↦ poke s (n - 1) 0 >>= strip_trailing fuel
    | false ↦ returns s
  ]
]

-- `!isascii(comment)` takes a comment character of eight bits out of use.
abbrev pub ascii : ℕ → ℕ
ascii c = if ltb c 128 then c else 0

-- The block from `*line` on.
unfoldable pub cli_trim : ℕ → Bytes → Outcome Bytes
cli_trim comment line = strlen line >>= λ len.
    trim_loop (len + 1) (ascii comment) 0 0 false line >>= λ s.
    strip_heading s >>= λ s1. strip_trailing (length s1) s1
