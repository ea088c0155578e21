-- ===== src/History/Browse.antt =====
-- `hist_prev` and `hist_next` walk over the lines.
use cligen.Prelude.{
  ℕ, zero, suc, ◌+◌, ◌-◌, ◌%◌, ◌≤◌, ◌<◌, ◌≡◌, ◌≢◌, ap, ◌∙◌, sym, arith, true, false, none, some,
  List, [], ◌==◌, ltb, length, get_or, get_elem?-get_or, Outcome, returns, ◌>>=◌,
}
use cligen.Memory.{int_max, Bytes}
use cligen.History.{Hist, Shown, shown, back, prev, next}
use cligen.History.Window.{length-window, behind-back, behind-ne, forth-back}
use cligen.History.Add.{IsValid, ages, lines}
use cligen.History.Log.{length-somes-le}
use cligen.History.Newest.{newest, behind_last, slot-newest, slot_in}

-- The cursor stands `k` steps behind the newest slot.
abbrev At : Hist → ℕ → Type 0
At h zero = h.cur ≡ h.last
At h (suc k) = h.cur ≡ behind_last h (suc k)

newest-some : (xs : List Bytes) (j : ℕ) → j < length xs → (l : Bytes) × (newest xs j ≡ some l)
newest-some xs j lt = (
  get_or xs (length xs - 1 - j) [],
  rw (near, get_elem?-get_or xs (length xs - 1 - j) [] (omega arith)),
)
  where
    near : ltb j (length xs) ≡ true
    near = ground arith

length-lines : (h : Hist) → length (lines h) ≤ h.size - 1
length-lines h = omega (
  arith,
  length-somes-le (ages h),
  length-window h.size none h.slots ((h.last + 1) % h.size) (h.size - 1),
)

suc-add : (n : ℕ) → suc n ≡ n + 1
suc-add n = omega arith

cursor_some :
    (h : Hist) (k : ℕ)
    → IsValid h
    → At h k
    → k ≤ length (lines h)
    → (l : Bytes) × (get_or h.slots h.cur none ≡ some l)
cursor_some h zero v a le = ([], ap (λ i. get_or h.slots i none) a ∙ v.cleared)
cursor_some h (suc k) v a le =
    let (l, e) = newest-some (lines h) k (omega arith) in
    (
      l,
      ap (λ i. get_or h.slots i none) (a ∙ ap (behind_last h) (suc-add k))
          ∙ slot-newest h k v (omega (arith, length-lines h))
          ∙ e,
    )

back-behind :
    (h : Hist) (k : ℕ) → IsValid h → At h k → k + 1 < h.size → back h ≡ behind_last h (k + 1)
back-behind h zero v a lt = ap (λ i. i % h.size) here
  where
    here : h.cur + h.size - 1 ≡ h.last + (h.size - (0 + 1))
    here = omega (arith, a)
back-behind h (suc k) v a lt =
    ap (λ i. (i + h.size - 1) % h.size) a
    ∙ behind-back h.size h.last (suc k) v.last_in (omega arith) lt

-- The largest size for which `hist_prev` adds no ints whose sum is too large.
abbrev pub ring_max : ℕ
ring_max = 1073741824

-- One step back, to a slot that is there.
prev-At :
    (h : Hist) (k : ℕ)
    → IsValid h
    → h.size ≤ ring_max
    → At h k
    → k < length (lines h)
    → prev h ≡ returns (shown (newest (lines h) k), record h { cur = behind_last h (k + 1) })
unfolding prev
prev-At h k v small a lt =
    let (l, here) = cursor_some h k v a (omega arith) in
    rw (
      sized,
      an_int,
      slot_in h h.cur v v.cur_in,
      here,
      step,
      not_last,
      slot_in h (behind_last h (k + 1)) v in_ring,
      slot-newest h k v room,
    )
  where
    room : k + 1 < h.size
    room = omega (arith, length-lines h)

    sized : (h.size == 0) ≡ false
    sized = ground arith

    an_int : ltb int_max (h.cur + h.size - 1) ≡ false
    an_int = ground (arith, v.cur_in)

    in_ring : behind_last h (k + 1) < h.size
    in_ring = omega arith

    step : back h ≡ behind_last h (k + 1)
    step = back-behind h k v a room

    not_last : (behind_last h (k + 1) == h.last) ≡ false
    not_last = ground (arith, behind-ne h.size h.last (k + 1) v.last_in (omega arith) room)

-- The up key, pressed `k + 1` times.
pub prevs : ℕ → Hist → Outcome (Shown × Hist)
prevs zero h = prev h
prevs (suc k) h = prev h >>= λ r. prevs k r.1

moved-IsValid : (h : Hist) (i : ℕ) → IsValid h → i < h.size → IsValid (record h { cur = i })
moved-IsValid h i v lt = record {
  sized = v.sized;
  two = v.two;
  last_in = v.last_in;
  cur_in = lt;
  cleared = v.cleared;
  packed = v.packed;
  pre_is = v.pre_is;
  block = v.block;
  positive = v.positive;
}

prevs-At :
    (k : ℕ) (h : Hist) (i j : ℕ)
    → IsValid h
    → h.size ≤ ring_max
    → At h i
    → i + k ≡ j
    → j < length (lines h)
    → prevs k h ≡ returns (shown (newest (lines h) j), record h { cur = behind_last h (j + 1) })
unfolding prevs
prevs-At zero h i j v small a e lt =
    prev-At h i v small a (omega arith)
    ∙ ap (λ n. returns (shown (newest (lines h) n), record h { cur = behind_last h (n + 1) })) same
  where
    same : i ≡ j
    same = omega arith
prevs-At (suc k) h i j v small a e lt =
    ap (λ o. o >>= λ (r : Shown × Hist). prevs k r.1) (prev-At h i v small a (omega arith))
    ∙ prevs-At k (record h { cur = behind_last h (i + 1) }) (suc i) j
        (moved-IsValid h (behind_last h (i + 1)) v (omega arith)) small
        (ap (behind_last h) (sym (suc-add i))) (omega arith) lt

-- In a ring of up to 2 ^ 30 slots, from the newest slot, the `k + 1`-st press of the up key shows the `k`-th newest line counted
-- from 0, without the bell, and moves the cursor to its slot, for each of the lines.
pub prevs-newest :
    (k : ℕ) (h : Hist)
    → IsValid h
    → h.size ≤ ring_max
    → h.cur ≡ h.last
    → k < length (lines h)
    → prevs k h ≡ returns (shown (newest (lines h) k), record h { cur = behind_last h (k + 1) })
prevs-newest k h v small a lt = prevs-At k h 0 k v small a (omega arith) lt

prev_moved :
    (h h' : Hist) (s : Shown)
    → prev h ≡ returns (s, h')
    → h'.cur ≢ h.cur
    → ((back h == h.last) ≡ false) × (record h { cur = back h } ≡ h')
unfolding prev
prev_moved h h' s e moved = ground arith

-- Where the up key has moved the cursor, the down key shows the line that the cursor stood at and
-- gives back the state.
pub next-prev :
    (h h' : Hist) (s : Shown)
    → IsValid h
    → prev h ≡ returns (s, h')
    → h'.cur ≢ h.cur
    → next h' ≡ returns (shown (get_or h.slots h.cur none), h)
unfolding next
next-prev h h' s v e moved =
    let (not_last, h'_is) = prev_moved h h' s e moved in
    rw (← h'_is, not_last, sized, forth, slot_in h h.cur v v.cur_in)
  where
    sized : (h.size == 0) ≡ false
    sized = ground arith

    forth : (back h + 1) % h.size ≡ h.cur
    forth = forth-back h.size h.cur (omega arith) v.cur_in
