-- ===== src/History.antt =====
-- cligen_history.c: the ring of earlier input lines, with the input buffer of cligen_handle.c that
-- the lines are copied to. Functions are named without the prefixes `hist_` and `cligen_hist_`.
mod Window
pub mod Log
mod Add
pub mod Enlarge
mod Increase
mod Newest
mod Browse
mod Copy
mod Start
pub mod File
mod Reload
pub mod Load
mod RoundTrip
mod Tests
use cligen.Prelude.{
  ℕ, zero, suc, ◌+◌, ◌-◌, ◌%◌, ◌*◌, not, ◌||◌, ◌&&◌, Bool, true, false, Option, none, some, List,
  [], ◌∷◌, ◌++◌, ◌==◌, ltb, leb, length, take, replicate, get_elem?, set, if◌then◌else◌, Outcome,
  returns, fault, diverges, ◌>>=◌, within,
}
use cligen.Memory.{Bytes, Machine, Status, ok, failed, add_size, int_max, realloc, store, eq_bytes}

-- The fields of `struct cligen_handle` that the history uses, and `_getline_bufsize`. A null
-- `ch_hist_buf` is an empty list of slots; a slot is null or a line. `pre` is the line that
-- `ch_hist_pre` points to, and `buf` the block at `ch_buf`.
pub record Hist : Type 0 where
  pub slots : List (Option Bytes)
  pub size : ℕ
  pub cur : ℕ
  pub last : ℕ
  pub pre : Option Bytes
  pub buf : Option Bytes
  pub bufsize : ℕ

-- A read and a write of `ch_hist_buf[i]`.
pub slot : List (Option Bytes) → ℕ → Outcome (Option Bytes)
slot slots i = within (get_elem? slots i)

pub set_slot : List (Option Bytes) → ℕ → Option Bytes → Outcome (List (Option Bytes))
set_slot slots i line = if ltb i (length slots) then returns (set slots i line) else fault

-- The loop of `cligen_buf_increase`. The size is an int, whose overflow is undefined; one round for
-- each byte needed is enough fuel, since each round adds to a size that is not 0.
unfoldable pub increase_to : ℕ → ℕ → ℕ → Outcome ℕ
increase_to zero needed size = diverges
increase_to (suc fuel) needed size =
    let rest = increase_to fuel needed (size * 2) in
    if not (ltb size needed) then returns size else if ltb int_max (size * 2) then fault else rest

-- The old bytes of the input buffer with zeros behind them, or a null pointer.
unfoldable pub grow_buf : Machine → Hist → ℕ → Outcome (Status × Hist)
grow_buf m h n = within h.buf >>= λ old. elim (realloc m old n) [
  | none ↦ returns (failed, record h { buf = none; bufsize = n })
  | some b ↦
      returns
        (ok, record h { buf = some (take h.bufsize b ++ replicate (n - h.bufsize) 0); bufsize = n })
]

unfoldable pub buf_increase : Machine → Hist → ℕ → Outcome (Status × Hist)
buf_increase m h len1 =
    if leb (add_size len1 1) h.bufsize
    then returns (ok, h)
    else increase_to (suc (add_size len1 1)) (add_size len1 1) h.bufsize >>= grow_buf m h

abbrev pub is_blank : ℕ → Bool
is_blank c = c == b' ' || (c == b'\t' || c == b'\n')

pub skip_blank : Bytes → Bytes
skip_blank [] = []
skip_blank (c ∷ cs) = if is_blank c then skip_blank cs else c ∷ cs

pub has : ℕ → Bytes → Bool
has c [] = false
has c (x ∷ xs) = x == c || has c xs

-- `len`, which leaves a newline at the end of the line out of account.
pub compared_length : Bytes → ℕ
compared_length buf = if has b'\n' (skip_blank buf) then length buf - 1 else length buf

-- `strlen(pre) != len || strncmp(pre, buf, len) != 0`, or no previous line.
pub differs : Option Bytes → Bytes → Bool
differs none buf = true
differs (some pre) buf =
    not (length pre == compared_length buf)
    || not (eq_bytes (take (compared_length buf) pre) (take (compared_length buf) buf))

-- `hist_save`: strdup(3), or malloc(3) and a copy, which both ask for the string and its NUL.
pub save_line : Machine → Bytes → Option Bytes
save_line m p = if m.grants (length p + 1) then some p else none

-- The part of `hist_add` that stores a line. The slot behind the new line is cleared.
pub push : Machine → Hist → Bytes → Outcome (Status × Hist)
push m h line = do
  slots ← set_slot h.slots h.last (save_line m line)
  elim (save_line m line) [
    | none ↦ returns (failed, record h { slots = slots })
    | some saved ↦
        let last = (h.last + 1) % h.size in
        set_slot slots last (some []) >>= λ cleared.
        returns (ok, record h { slots = cleared; pre = some saved; last = last; cur = last })
  ]

-- The rest of `hist_add` behind the check of the buffer's size.
pub add_line : Machine → Hist → Bytes → Outcome (Status × Hist)
add_line m h line =
    if not (length (skip_blank line) == 0) && differs h.pre line
    then push m h line
    else returns (ok, record h { cur = h.last })

-- `hist_add`.
pub add : Machine → Hist → Bytes → Outcome (Status × Hist)
add m h line =
    if leb h.bufsize (length line)
    then (buf_increase m h (length line) >>= λ r. elim r.0 [
      | ok ↦ add_line m r.1 line
      | failed ↦ returns r
    ])
    else add_line m h line

-- What `hist_prev` and `hist_next` return: the line, and whether the terminal's bell was rung.
pub record Shown : Type 0 where
  pub line : Bytes
  pub bell : Bool

abbrev pub shown : Option Bytes → Shown
shown none = record { line = []; bell = true }
shown (some line) = record { line = line; bell = false }

-- `(ch_hist_cur - 1 + ch_hist_size) % ch_hist_size`, where a size of 0 is a fault, and so is a sum
-- that an int cannot hold.
abbrev pub back : Hist → ℕ
back h = (h.cur + h.size - 1) % h.size

pub prev : Hist → Outcome (Shown × Hist)
prev h =
    if h.size == 0 || ltb int_max (h.cur + h.size - 1)
    then fault
    else slot h.slots h.cur >>= λ here. elim here [
      | none ↦ returns (shown none, h)
      | some _ ↦
          if back h == h.last
          then returns (shown none, h)
          else slot h.slots (back h) >>= λ p. returns (shown p, record h { cur = back h })
    ]

pub next : Hist → Outcome (Shown × Hist)
next h =
    if h.cur == h.last
    then returns (shown none, h)
    else if h.size == 0
    then fault
    else slot h.slots ((h.cur + 1) % h.size) >>= λ p.
        returns (shown p, record h { cur = (h.cur + 1) % h.size })

pos_set : Hist → ℕ → Hist
pos_set h pos = record h { cur = pos }

pos : Hist → ℕ
pos h = h.cur

last_get : Hist → ℕ
last_get h = h.last

-- strncpy(3) into the input buffer: the line, then zeros up to the size, cut where it is longer.
pub copy : Hist → Bytes → Outcome Hist
copy h line = within h.buf >>= λ block.
    within (store block 0 (take h.bufsize (line ++ replicate h.bufsize 0))) >>= λ b.
    returns (record h { buf = some b })

copy_prev : Hist → Outcome (Shown × Hist)
copy_prev h = prev h >>= λ r. copy r.1 r.0.line >>= λ h'. returns (r.0, h')

copy_next : Hist → Outcome (Shown × Hist)
copy_next h = next h >>= λ r. copy r.1 r.0.line >>= λ h'. returns (r.0, h')

-- A null slot is read through here, which is a fault.
copy_pos : Hist → Outcome Hist
copy_pos h = slot h.slots h.cur >>= λ p. within p >>= copy h

abbrev pub sizeof_pointer : ℕ
sizeof_pointer = 8

-- The loop of `cligen_hist_init` that frees the old lines: the first slots, as many as the old size
-- says, are read and are null afterwards. Fewer slots, or a null `ch_hist_buf`, are a fault.
unfoldable pub clear_slots : ℕ → List (Option Bytes) → Outcome (List (Option Bytes))
clear_slots zero slots = returns slots
clear_slots (suc n) [] = fault
clear_slots (suc n) (line ∷ slots) = clear_slots n slots >>= λ rest. returns (none ∷ rest)

-- `cligen_hist_init`. The new size, an int, is stored, and the old lines are freed, before the
-- allocation that may fail. Slots that realloc(3) adds are all written before they are read.
pub init : Machine → Hist → ℕ → Outcome (Status × Hist)
init m h lines =
    if ltb lines 1
    then returns (failed, h)
    else if ltb int_max (lines + 1)
    then fault
    else clear_slots h.size h.slots >>= λ cleared. returns (
        if m.grants ((lines + 1) * sizeof_pointer)
        then (
          ok,
          record h {
            slots = some [] ∷ replicate lines none;
            size = lines + 1;
            cur = 0;
            last = 0;
            pre = none;
          },
        )
        else (failed, record h { slots = cleared; size = lines + 1 }))

-- `hist_exit`
exit : Hist → Hist
exit h = record h { slots = [] }

-- The first loop of `cligen_hist_file_save`, which passes over null slots. It stops at the slot
-- `last` at the latest, so as many rounds as there are slots are enough fuel.
pub rewind : ℕ → Hist → ℕ → Outcome ℕ
rewind zero h i = diverges
rewind (suc fuel) h i =
    let rest = rewind fuel h ((i + 1) % h.size) in
    slot h.slots i >>= λ p. elim p [ none ↦ rest | some _ ↦ returns i ]

-- The second loop, with the bytes that it prints.
pub print_from : ℕ → Hist → ℕ → Outcome Bytes
print_from zero h i = diverges
print_from (suc fuel) h i =
    let rest = print_from fuel h ((i + 1) % h.size) in
    if i == h.last
    then returns []
    else slot h.slots i >>= λ p. elim p [
      | none ↦ returns []
      | some line ↦ rest >>= λ out. returns (line ++ (b'\n' ∷ out))
    ]

pub file_save : Hist → Outcome Bytes
file_save h =
    if h.size == 0
    then fault
    else rewind (suc h.size) h ((h.last + 1) % h.size) >>= print_from (suc h.size) h
