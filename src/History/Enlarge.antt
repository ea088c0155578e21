-- ===== src/History/Enlarge.antt =====
-- `cligen_buf_increase`.
use cligen.Prelude.{
  ℕ, zero, suc, ◌+◌, ◌-◌, ◌*◌, ◌≤◌, ◌<◌, ◌≡◌, refl, arith, true, false, not, if◌then◌else◌, ltb,
  leb, take, replicate, returns, Returns, Returns-bind, Returns-mono, fault, Bool-cases, inl, inr,
  length-append, length-take, length-replicate,
}
use cligen.Memory.{
  int_max, Machine, Status, ok, failed, add_size, realloc_granted, realloc_refused, realloc_grown,
}
use cligen.History.{Hist, buf_increase, increase_to, grow_buf}
use cligen.History.Add.{IsValid, IsLine, ages, lines}
use cligen.History.Log.{IsPacked-mono}

abbrev pub half_max : ℕ
half_max = 1073741824

increase_to_step :
    (fuel needed size : ℕ)
    → increase_to (suc fuel) needed size ≡ (
        if not (ltb size needed)
        then returns size
        else if ltb int_max (size * 2)
        then fault
        else increase_to fuel needed (size * 2))
unfolding increase_to
increase_to_step fuel needed size = refl

abbrev pub Between : ℕ → ℕ → ℕ → Type 0
Between needed size n = (needed ≤ n) × (size ≤ n)

pub increase_to-Returns :
    (fuel needed size : ℕ)
    → 0 < size
    → needed ≤ size + fuel
    → needed ≤ half_max
    → Returns (increase_to (suc fuel) needed size) (Between needed size)
increase_to-Returns zero needed size p f h =
    rw (increase_to_step 0 needed size, (let e : ltb size needed ≡ false = ground arith in e))
      (omega arith)
increase_to-Returns (suc fuel) needed size p f h = elim (Bool-cases (ltb size needed)) [
  | inl less ↦
      rw (increase_to_step (suc fuel) needed size, less, no_overflow less)
        (Returns-mono (increase_to (suc fuel) needed (size * 2)) (Between needed (size * 2))
          (Between needed size)
          (increase_to-Returns fuel needed (size * 2) (omega arith) (omega arith) h)
          (λ n b. omega arith))
  | inr done ↦ rw (increase_to_step (suc fuel) needed size, done) (ground arith)
]
  where
    no_overflow : ltb size needed ≡ true → ltb int_max (size * 2) ≡ false
    no_overflow less = ground arith

-- A refusal is the one reason why a call may fail.
abbrev pub Refusal : Machine → Type 0
Refusal m = (n : ℕ) × (m.grants n ≡ false)

-- The buffer is larger than the line, and the history is the same.
abbrev pub Increased : Machine → Hist → ℕ → Status × Hist → Type 0
Increased m h len1 (ok, h') =
    IsValid h' × (len1 < h'.bufsize) × (lines h' ≡ lines h) × (h'.size ≡ h.size) × (h'.pre ≡ h.pre)
Increased m h len1 (failed, h') = Refusal m

grow_buf-Increased :
    (m : Machine) (h : Hist) (len1 n : ℕ)
    → IsValid h
    → len1 < n
    → h.bufsize ≤ n
    → Returns (grow_buf m h n) (Increased m h len1)
unfolding grow_buf
grow_buf-Increased m h len1 n v less le =
    let (old, is_old, old_size) = v.block in
    elim (Bool-cases (m.grants n)) [
      | inl given ↦
          let (b, e) = realloc_granted m old n given in
          let (size, kept) = realloc_grown m old n (omega arith) e in
          rw (is_old, e, Returns)
            (
              record {
                sized = v.sized;
                two = v.two;
                last_in = v.last_in;
                cur_in = v.cur_in;
                cleared = v.cleared;
                packed =
                    IsPacked-mono (IsLine h.bufsize) (IsLine n) (λ x w. (omega arith, w.1)) (ages h)
                      v.packed;
                pre_is = v.pre_is;
                block = (
                  _,
                  refl,
                  omega (
                    arith,
                    length-append (take h.bufsize b) (replicate (n - h.bufsize) 0),
                    length-take h.bufsize b,
                    length-replicate {A = ℕ} (n - h.bufsize) 0,
                  ),
                );
                positive = omega (arith, v.positive);
              },
              less,
              refl,
              refl,
              refl,
            )
      | inr refused ↦ rw (is_old, realloc_refused m old n refused, Returns) (n, refused)
    ]

pub buf_increase-Increased :
    (m : Machine) (h : Hist) (len1 : ℕ)
    → IsValid h
    → len1 < half_max
    → h.bufsize ≤ len1
    → Returns (buf_increase m h len1) (Increased m h len1)
unfolding buf_increase
buf_increase-Increased m h len1 v small short =
    rw (short_test, exact, Returns)
      (Returns-bind (increase_to (suc (len1 + 1)) (len1 + 1) h.bufsize) (grow_buf m h)
        (Between (len1 + 1) h.bufsize) (Increased m h len1)
        (increase_to-Returns (len1 + 1) (len1 + 1) h.bufsize v.positive (omega arith) (omega arith))
        (λ n b. grow_buf-Increased m h len1 n v (omega arith) (omega arith)))
  where
    exact : add_size len1 1 ≡ len1 + 1
    exact = omega arith

    short_test : leb (add_size len1 1) h.bufsize ≡ false
    short_test = ground arith
