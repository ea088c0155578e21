-- ===== src/History/Start.antt =====
-- `cligen_hist_init` and `cligen_hist_file_save`.
use cligen.Prelude.{
  ℕ, zero, suc, ◌+◌, ◌-◌, ◌*◌, ◌%◌, ◌<◌, ◌≡◌, ◌≢◌, refl, ap, ◌∙◌, sym, subst, arith, true, false,
  Option, none, some, List, [], ◌∷◌, ◌++◌, ◌==◌, ltb, length, replicate, get_or, length-replicate,
  ◌≤◌, Returns, returns, ◌>>=◌, Option-cases, inl, inr,
}
use cligen.Memory.{int_max, Bytes, Machine, ok}
use cligen.History.{Hist, init, clear_slots, rewind, print_from, file_save, sizeof_pointer}
use cligen.History.Window.{window, window_const, wrap_cases, mod_suc, mod_zero}
use cligen.History.Add.{IsValid, IsLine, ages, lines}
use cligen.History.Newest.{slot_in}
use cligen.History.Log.{somes, last?, AllSome, IsPacked}

replicate-IsPacked : (P : Bytes → Type 0) (n : ℕ) → IsPacked P (replicate n none)
replicate-IsPacked P zero = tt
replicate-IsPacked P (suc n) = replicate-IsPacked P n

somes-replicate : (n : ℕ) → somes {A = Bytes} (replicate n none) ≡ []
somes-replicate zero = refl
somes-replicate (suc n) = somes-replicate n

get_or-replicate : (n i : ℕ) → get_or {A = Option Bytes} (replicate n none) i none ≡ none
get_or-replicate zero i = refl
get_or-replicate (suc n) zero = refl
get_or-replicate (suc n) (suc i) = get_or-replicate n i

-- The lines of a file, each with a newline behind it.
abbrev pub unlines : List Bytes → Bytes
unlines [] = []
unlines (l ∷ ls) = l ++ (b'\n' ∷ unlines ls)

-- Where all slots are there, the loop over the old lines returns.
clear_slots-returns :
    (n : ℕ) (slots : List (Option Bytes))
    → n ≤ length slots
    → (cleared : List (Option Bytes)) × (clear_slots n slots ≡ returns cleared)
unfolding clear_slots
clear_slots-returns zero slots h = (slots, refl)
clear_slots-returns (suc n) [] h = absurd (omega arith)
clear_slots-returns (suc n) (line ∷ slots) h =
    let (cleared, e) = clear_slots-returns n slots (omega arith) in (none ∷ cleared, rw e refl)

module _ (m : Machine) (h : Hist) (n : ℕ) (some_lines : 0 < n)
    (given : m.grants ((n + 1) * sizeof_pointer) ≡ true) where
  abbrev started : Hist
  started = record h {
    slots = some [] ∷ replicate n none;
    size = n + 1;
    cur = 0;
    last = 0;
    pre = none;
  }

  init-started : n < int_max → h.size ≤ length h.slots → init m h n ≡ returns (ok, started)
  unfolding init
  init-started an_int all =
      let (cleared, e) = clear_slots-returns h.size h.slots all in
      rw
        (
          (let e : ltb n 1 ≡ false = ground arith in e),
          (let e : ltb int_max (n + 1) ≡ false = ground arith in e),
          e,
          given,
        )
        refl

  ages-started : ages started ≡ replicate (n + 1 - 1) none
  ages-started =
      window_const (n + 1) none none started.slots ((0 + 1) % (n + 1)) (n + 1 - 1) (omega arith)
        empty
    where
      empty :
          (k : ℕ)
          → k < n + 1 - 1
          → get_or started.slots (((0 + 1) % (n + 1) + k) % (n + 1)) none ≡ none
      empty k lt = ap (λ i. get_or started.slots i none) (index k lt) ∙ get_or-replicate n k
        where
          index : (k : ℕ) → k < n + 1 - 1 → ((0 + 1) % (n + 1) + k) % (n + 1) ≡ suc k
          index k lt = omega (
            arith,
            wrap_cases (n + 1) ((0 + 1) % (n + 1)) k (omega arith) (omega arith),
            wrap_cases (n + 1) 0 1 (omega arith) (omega arith),
          )

  -- What `cligen_hist_init` leaves is valid and has no lines.
  started-IsValid :
      (b : Bytes) × (h.buf ≡ some b) × (length b ≡ h.bufsize)
      → 0 < h.bufsize
      → IsValid started × (lines started ≡ [])
  started-IsValid block positive = (
    record {
      sized = omega (arith, length-replicate {A = Option Bytes} n none);
      two = omega arith;
      last_in = omega arith;
      cur_in = omega arith;
      cleared = refl;
      packed =
          subst (IsPacked (IsLine h.bufsize)) (sym ages-started)
            (replicate-IsPacked (IsLine h.bufsize) (n + 1 - 1));
      pre_is = sym (ap last? nothing);
      block = block;
      positive = positive;
    },
    nothing,
  )
    where
      nothing : lines started ≡ []
      nothing = ap somes ages-started ∙ somes-replicate (n + 1 - 1)

-- For at least one line and less than INT_MAX lines, with memory for the slots, on a handle that
-- has an input buffer and at least as many slots as its old size says (as before the first call, or
-- after calls that succeeded, but not behind `hist_exit` or a refused call), `cligen_hist_init`
-- succeeds, and what it leaves is valid, has no lines and a slot more than lines were asked for.
pub init-IsValid :
    (m : Machine) (h : Hist) (n : ℕ) {b : Bytes}
    → 0 < n
    → n < int_max
    → m.grants ((n + 1) * sizeof_pointer) ≡ true
    → h.size ≤ length h.slots
    → h.buf ≡ some b
    → length b ≡ h.bufsize
    → 0 < h.bufsize
    → Returns (init m h n) (λ r. (r.0 ≡ ok) × IsValid r.1 × (lines r.1 ≡ []) × (r.1.size ≡ n + 1))
init-IsValid m h n {b} one an_int given all block size positive =
    rw (init-started m h n one given an_int all, Returns)
      let (v, nothing) = started-IsValid m h n one given (b, block, size) positive in
        (refl, v, nothing, refl)

module _ (h : Hist) (v : IsValid h) (P : Bytes → Type 0) where
  abbrev from : ℕ → ℕ → List (Option Bytes)
  from i n = window h.size none h.slots i n

  next_in : (i : ℕ) → i < h.size → (i + 1) % h.size < h.size
  next_in i lt = omega arith

  ahead-ne : (i n : ℕ) → i < h.size → suc n < h.size → (i + suc n) % h.size ≡ h.last → i ≢ h.last
  ahead-ne i n lt less e same = omega (arith, e, same, wrap_cases h.size i (suc n) lt less)

  print_from-lines :
      (fuel i n : ℕ)
      → i < h.size
      → n < fuel
      → n < h.size
      → (i + n) % h.size ≡ h.last
      → AllSome P (from i n)
      → print_from fuel h i ≡ returns (unlines (somes (from i n)))
  unfolding print_from
  print_from-lines zero i n lt f s e all = absurd (omega arith)
  print_from-lines (suc fuel) i zero lt f s e all = rw (here i (sym (mod_zero h.size i lt) ∙ e))
    where
      here : (i : ℕ) → i ≡ h.last → (i == h.last) ≡ true
      here i same = ground arith
  print_from-lines (suc fuel) i (suc n) lt f s e all = elim (Option-cases (get_or h.slots i none)) [
    | inl null ↦ absurd (subst (λ o. AllSome P (o ∷ from ((i + 1) % h.size) n)) null all)
    | inr (x, found) ↦
        rw (not_last, slot_in h i v lt, found)
          (ap (λ o. o >>= λ (out : Bytes). returns (x ++ (b'\n' ∷ out)))
            (print_from-lines fuel ((i + 1) % h.size) n (next_in i lt) (omega arith) (omega arith)
              (mod_suc h.size i n ∙ e)
              (subst (λ o. AllSome P (o ∷ from ((i + 1) % h.size) n)) found all).1))
  ]
    where
      not_last : (i == h.last) ≡ false
      not_last = ground (arith, ahead-ne i n lt s e)

  save_from-lines :
      (fuel i n : ℕ)
      → i < h.size
      → n < fuel
      → n < h.size
      → (i + n) % h.size ≡ h.last
      → IsPacked P (from i n)
      → (rewind fuel h i >>= print_from (suc h.size) h) ≡ returns (unlines (somes (from i n)))
  unfolding rewind
  save_from-lines zero i n lt f s e packed = absurd (omega arith)
  save_from-lines (suc fuel) i zero lt f s e packed =
      rw (slot_in h i v lt, ap (λ k. get_or h.slots k none) here ∙ v.cleared)
        (print_from-lines (suc h.size) i zero lt (omega arith) s e tt)
    where
      here : i ≡ h.last
      here = sym (mod_zero h.size i lt) ∙ e
  save_from-lines (suc fuel) i (suc n) lt f s e packed =
      elim (Option-cases (get_or h.slots i none)) [
        | inl null ↦
            rw (slot_in h i v lt, null)
              (save_from-lines fuel ((i + 1) % h.size) n (next_in i lt) (omega arith) (omega arith)
                (mod_suc h.size i n ∙ e)
                (subst (λ o. IsPacked P (o ∷ from ((i + 1) % h.size) n)) null packed))
        | inr (x, found) ↦
            rw (slot_in h i v lt, found)
              (print_from-lines (suc h.size) i (suc n) lt (omega arith) s e (
                  subst (λ o. AllSome P (o ∷ from ((i + 1) % h.size) n)) (sym found)
                    (subst (λ o. IsPacked P (o ∷ from ((i + 1) % h.size) n)) found packed))
                ∙ ap (λ o. returns (unlines (somes (o ∷ from ((i + 1) % h.size) n)))) found)
      ]

-- From a valid history `cligen_hist_file_save` returns, and the file that it writes has the lines of
-- the history, oldest first.
pub file_save-lines : (h : Hist) → IsValid h → file_save h ≡ returns (unlines (lines h))
unfolding file_save
file_save-lines h v = rw sized (
    save_from-lines h v (IsLine h.bufsize) (suc h.size) ((h.last + 1) % h.size) (h.size - 1)
      (omega arith) (omega arith) (omega arith) back_to_last v.packed)
  where
    sized : (h.size == 0) ≡ false
    sized = ground arith

    back_to_last : ((h.last + 1) % h.size + (h.size - 1)) % h.size ≡ h.last
    back_to_last = omega (
      arith,
      wrap_cases h.size h.last 1 v.last_in (omega arith),
      wrap_cases h.size ((h.last + 1) % h.size) (h.size - 1) (omega arith) (omega arith),
    )
