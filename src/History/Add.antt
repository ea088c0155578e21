-- ===== src/History/Add.antt =====
-- The invariant of the ring, and the part of `hist_add` that stores a line.
use cligen.Prelude.{
  ℕ, suc, ◌+◌, ◌-◌, ◌%◌, ◌≤◌, ◌<◌, ◌≡◌, ap, ap₂, ◌∙◌, sym, subst, arith, true, false, Option, none,
  some, List, [], ◌∷◌, ◌++◌, length, get_or, set, length-set, get_or-set_self, returns,
}
use cligen.Memory.{Bytes, Machine, ok, failed}
use cligen.History.{Hist, set_slot, push, save_line}
use cligen.History.Window.{window, length-window, window-push}
use cligen.History.Log.{
  somes, last?, keep_last, has_text, IsPacked, IsPacked-snoc, IsPacked-tail, somes-snoc,
  somes-append, last?-snoc,
}

-- The slots from the oldest line to the newest; the slot `last` is not one of them.
abbrev pub ages : Hist → List (Option Bytes)
ages h = window h.size none h.slots ((h.last + 1) % h.size) (h.size - 1)

abbrev pub lines : Hist → List Bytes
lines h = somes (ages h)

-- A line that fits into the input buffer with its NUL, and is not blank.
abbrev pub IsLine : ℕ → Bytes → Type 0
IsLine bufsize line = (length line < bufsize) × (has_text line ≡ true)

-- The invariant of the history once `cligen_hist_init` has returned.
pub record IsValid (h : Hist) : Type 0 where
  pub sized : length h.slots ≡ h.size
  pub two : 2 ≤ h.size
  pub last_in : h.last < h.size
  pub cur_in : h.cur < h.size
  pub cleared : get_or h.slots h.last none ≡ some []
  pub packed : IsPacked (IsLine h.bufsize) (ages h)
  pub pre_is : h.pre ≡ last? (lines h)
  pub block : (b : Bytes) × (h.buf ≡ some b) × (length b ≡ h.bufsize)
  pub positive : 0 < h.bufsize

set_slot_in :
    (slots : List (Option Bytes)) (i : ℕ) (p : Option Bytes)
    → i < length slots
    → set_slot slots i p ≡ returns (set slots i p)
unfolding set_slot
set_slot_in slots i p h = ground arith

save_line_granted :
    (m : Machine) (line : Bytes) → m.grants (length line + 1) ≡ true → save_line m line ≡ some line
unfolding save_line
save_line_granted m line h = ground arith

save_line_refused :
    (m : Machine) (line : Bytes) → m.grants (length line + 1) ≡ false → save_line m line ≡ none
unfolding save_line
save_line_refused m line h = ground arith

module _ (m : Machine) (h : Hist) (v : IsValid h) (line : Bytes) where
  abbrev pub n : ℕ
  n = h.size - 2

  abbrev last' : ℕ
  last' = (h.last + 1) % h.size

  abbrev pushed : Hist
  pushed = record h {
    slots = set (set h.slots h.last (some line)) last' (some []);
    pre = some line;
    last = last';
    cur = last';
  }

  ages-split :
      ages h ≡ get_or h.slots last' none ∷ window h.size none h.slots ((last' + 1) % h.size) n
  ages-split = ap (λ k. window h.size none h.slots last' k) size_is
    where
      size_is : h.size - 1 ≡ suc n
      size_is = omega arith

  ages-pushed :
      ages pushed ≡ window h.size none h.slots ((last' + 1) % h.size) n ++ (some line ∷ [])
  ages-pushed =
      ap (λ k. window h.size none pushed.slots ((last' + 1) % h.size) k) size_is
      ∙ window-push h.size n h.last (omega arith) v.last_in none h.slots (some line) (some [])
          v.sized
    where
      size_is : h.size - 1 ≡ suc n
      size_is = omega arith

  abbrev pub kept : List (Option Bytes)
  kept = window h.size none h.slots ((last' + 1) % h.size) n

  split-IsPacked : IsPacked (IsLine h.bufsize) (get_or h.slots last' none ∷ kept)
  split-IsPacked = subst (IsPacked (IsLine h.bufsize)) ages-split v.packed

  -- The new line takes the place of the oldest slot.
  pub lines-pushed : lines pushed ≡ keep_last (h.size - 1) (lines h ++ (line ∷ []))
  lines-pushed =
      ap somes ages-pushed
      ∙ somes-snoc (IsLine h.bufsize) (get_or h.slots last' none) kept line split-IsPacked
      ∙ ap₂ (λ k l. keep_last k (l ++ (line ∷ []))) count (ap somes (sym ages-split))
    where
      count : suc (length kept) ≡ h.size - 1
      count = omega (arith, length-window h.size none h.slots ((last' + 1) % h.size) n)

  pub pushed-IsValid : IsLine h.bufsize line → IsValid pushed
  pushed-IsValid w = record {
    sized = omega (arith, same_length);
    two = v.two;
    last_in = omega arith;
    cur_in = omega arith;
    cleared =
        get_or-set_self (set h.slots h.last (some line)) last' (some []) none
          (omega (arith, length-set h.slots h.last (some line)));
    packed = subst (IsPacked (IsLine h.bufsize)) (sym ages-pushed) (
        IsPacked-snoc (IsLine h.bufsize) kept line
          (IsPacked-tail (IsLine h.bufsize) (get_or h.slots last' none) kept split-IsPacked) w);
    pre_is = sym (
        ap last? (ap somes ages-pushed ∙ somes-append kept (some line ∷ []))
        ∙ last?-snoc (somes kept) line);
    block = v.block;
    positive = v.positive;
  }
    where
      same_length : length pushed.slots ≡ length h.slots
      same_length = omega (
        arith,
        length-set (set h.slots h.last (some line)) last' (some []),
        length-set h.slots h.last (some line),
      )

  pub push-pushed : m.grants (length line + 1) ≡ true → push m h line ≡ returns (ok, pushed)
  unfolding push
  push-pushed saved = rw (
    save_line_granted m line saved,
    set_slot_in h.slots h.last (some line) (omega arith),
    set_slot_in (set h.slots h.last (some line)) last' (some [])
        (omega (arith, length-set h.slots h.last (some line))),
  )

  -- Without memory for the line the slot `last` is null and `hist_add` fails.
  pub push-refused :
      m.grants (length line + 1) ≡ false
      → push m h line ≡ returns (failed, record h { slots = set h.slots h.last none })
  unfolding push
  push-refused refused =
      rw (save_line_refused m line refused, set_slot_in h.slots h.last none (omega arith))
