-- ===== src/Buf.antt =====
-- cligen_buf.c: a string that grows. Each function is named without its prefix `cbuf_`; one that
-- updates `*cb` returns the new record beside its status.
mod Grow
pub mod Valid
mod Append
mod Failure
pub mod Calls
mod Refine
pub mod Text
mod Tests
use cligen.Prelude.{
  ℕ, zero, suc, ◌+◌, ◌%◌, ◌/◌, ◌-◌, not, ◌||◌, Option, none, some, [], ◌∷◌, ◌++◌, ◌==◌, ltb, length,
  take, replicate, get_or, if◌then◌else◌, Outcome, returns, fault, diverges, ◌>>=◌, within, ◌≡◌,
  ◌≤◌, ◌<◌,
}
use cligen.Memory.{
  Bytes, Machine, Status, ok, failed, size_max, add_size, sub_size, double_size, malloc, realloc,
  store, load, cstring,
}

-- The two globals `cbuflen_start` and `cbuflen_threshold`.
pub record Sizes : Type 0 where
  pub start : ℕ
  pub threshold : ℕ

abbrev default_sizes : Sizes
default_sizes = record { start = 1024; threshold = 65536 }

alloc_get : Sizes → ℕ × ℕ
alloc_get s = (s.start, s.threshold)

alloc_set : Sizes → ℕ → ℕ → Sizes
alloc_set s start threshold = record s { start = start; threshold = threshold }

-- `struct cbuf`. The size of the block is `length buffer`, which `buflen` is to tell.
pub record Cbuf : Type 0 where
  pub buffer : Bytes
  pub buflen : ℕ
  pub strlen : ℕ

abbrev pub sizeof_cbuf : ℕ
sizeof_cbuf = 24

pub new_alloc : Machine → ℕ → Option Cbuf
new_alloc m sz =
    if m.grants sizeof_cbuf
    then (if m.grants sz
        then some (record { buffer = replicate sz 0; buflen = sz; strlen = 0 })
        else none)
    else none

pub new : Sizes → Machine → Option Cbuf
new s m = new_alloc m s.start

-- `cbuf_get` gives the address of the buffer, where a string stands up to the first NUL.
pub get : Cbuf → Bytes
get cb = cstring cb.buffer

pub len : Cbuf → ℕ
len cb = cb.strlen

buflen_get : Cbuf → ℕ
buflen_get cb = cb.buflen

-- `cb_buffer[0] = '\0'`
pub reset : Cbuf → Outcome Cbuf
reset cb = do
  b ← within (store cb.buffer 0 (0 ∷ []))
  returns (record cb { buffer = b; strlen = 0 })

-- How the loop of `cbuf_realloc` leaves `cb_buflen`: large enough, at the error exit, or never.
pub data Growth : Type 0 where
  enough : ℕ → Growth
  enomem : ℕ → Growth
  spinning : Growth

pub grow : ℕ → ℕ → ℕ → ℕ → Growth
grow zero threshold needed buflen = spinning
grow (suc fuel) threshold needed buflen =
    let doubled = grow fuel threshold needed (double_size buflen) in
    let added = grow fuel threshold needed (add_size buflen threshold) in
    if not (ltb buflen needed)
    then enough buflen
    else if threshold == 0 || ltb buflen threshold
    then (if ltb (size_max / 2) buflen then enomem buflen else doubled)
    else if ltb (size_max - threshold) buflen
    then enomem buflen
    else added

-- What follows the loop. At the error exits `cb_buflen` stays as the loop left it.
pub resize : Machine → Cbuf → Growth → Outcome (Status × Cbuf)
resize m cb (enough n) = elim (realloc m cb.buffer n) [
  | none ↦ returns (failed, record cb { buflen = n })
  | some b ↦ returns (ok, record cb { buffer = b; buflen = n })
]
resize m cb (enomem n) = returns (failed, record cb { buflen = n })
resize m cb spinning = diverges

abbrev pub needed_for : Cbuf → ℕ → ℕ
needed_for cb sz = add_size (add_size cb.strlen sz) 1

-- `cbuf_realloc`. Each round of the loop adds to a `cb_buflen` that is not 0, so one round for each
-- byte needed is enough fuel.
pub reserve : Sizes → Machine → Cbuf → ℕ → Outcome (Status × Cbuf)
reserve s m cb sz =
    if ltb (sub_size (sub_size size_max cb.strlen) 1) sz
    then returns (failed, cb)
    else if ltb cb.buflen (needed_for cb sz)
    then resize m cb (grow (suc (needed_for cb sz)) s.threshold (needed_for cb sz) cb.buflen)
    else returns (ok, cb)

-- The rest of a function after a call of `cbuf_realloc`.
abbrev pub after : (Cbuf → Outcome (Status × Cbuf)) → Status × Cbuf → Outcome (Status × Cbuf)
after k (ok, cb) = k cb
after k (failed, cb) = returns (failed, cb)

-- The second vsnprintf(3) of `cprintf`: of the text what fits before a NUL.
pub print_text : Bytes → Cbuf → Outcome (Status × Cbuf)
print_text text cb =
    let size = sub_size cb.buflen cb.strlen in
    let done = λ (b : Bytes).
      returns (ok, record cb { buffer = b; strlen = add_size cb.strlen (length text) }) in
    if size == 0
    then done cb.buffer
    else within (store cb.buffer cb.strlen (take (size - 1) text ++ (0 ∷ []))) >>= done

-- `cprintf` and `vcprintf`. The text is what vsnprintf(3) makes of the format, `none` where it
-- fails; a null `cb` is accepted.
pub cprintf : Sizes → Machine → Option Cbuf → Option Bytes → Outcome (Status × Option Cbuf)
cprintf s m none text = returns (ok, none)
cprintf s m (some cb) none = returns (failed, some cb)
cprintf s m (some cb) (some text) = do
  (status, cb') ← reserve s m cb (length text) >>= after (print_text text)
  returns (status, some cb')

pub append_str : Sizes → Machine → Cbuf → Option Bytes → Outcome (Status × Cbuf)
append_str s m cb none = returns (failed, cb)
append_str s m cb (some str) =
    let len = add_size cb.strlen (length str) in
    reserve s m cb len
    >>= after λ c. do
      b ← within (store c.buffer c.strlen (str ++ (0 ∷ [])))
      returns (ok, record c { buffer = b; strlen = len })

-- `char str[2]`, with the character, and a NUL behind it.
pub char_text : ℕ → Bytes
char_text c = if c % 256 == 0 then [] else c % 256 ∷ []

pub append : Sizes → Machine → Cbuf → ℕ → Outcome (Status × Cbuf)
append s m cb c = append_str s m cb (some (char_text c))

-- `n` bytes of a source block.
pub append_buf : Sizes → Machine → Cbuf → Option Bytes → ℕ → Outcome (Status × Cbuf)
append_buf s m cb none n = returns (failed, cb)
append_buf s m cb (some src) n =
    let len0 = cb.strlen in
    let len = add_size cb.strlen n in
    reserve s m cb (add_size len 1)
    >>= after λ c. do
      bytes ← within (load src n)
      b ← within (store c.buffer len0 bytes)
      b' ← within (store b len (0 ∷ []))
      returns (ok, record c { buffer = b'; strlen = len })

pub trunc : Cbuf → ℕ → Outcome (Status × Cbuf)
trunc cb i =
    if ltb cb.strlen i
    then returns (failed, cb)
    else within (store cb.buffer i (0 ∷ [])) >>= λ b.
        returns (ok, record cb { buffer = b; strlen = i })
