-- ===== src/Escape/Overrun.antt =====
-- What `cligen_escape_do` does with a string that needs no escape.
use cligen.Prelude.{
  ℕ, ◌+◌, ◌-◌, ◌≤◌, ◌<◌, ◌≡◌, refl, ap, arith, true, false, ◌||◌, ◌==◌, Bool-cases, Option-cases,
  inl, inr, leb, some, [], ◌∷◌, ltb, length, fault, Returns-eq,
}
use cligen.Memory.{
  Bytes, Machine, store, int_max, size_max, malloc_granted, fresh, length-fresh, store_overrun,
}
use cligen.Escape.{copy_from, write_next, fill, escape_do}
use cligen.Escape.Text.{body, has_special, body_plain}
use cligen.Escape.Fit.{Filled, opened-Filled, write_next_lem}

fill-fault :
    (s block : Bytes)
    → body s ≡ s
    → length block ≡ length s + 1
    → length s + 1 ≤ int_max
    → fill s block ≡ fault
unfolding fill write_next
fill-fault s block plain h small =
    let (b, is, r) = opened-Filled s block (omega (arith, same)) (omega (arith, same)) in
    let ((b', j), copied, (size, at, took)) =
      Returns-eq (copy_from b 1 s) (Filled block (b'"' ∷ body s)) r in
    rw (is, copied, store_overrun b' j (b'"' ∷ []) (omega (arith, same)))
  where
    same : length (body s) ≡ length s
    same = ap (λ (t : Bytes). length t) plain

-- Where the string is longer than an int, `j` overflows, unless a write is outside of the block.
copy_from-overflow :
    (cs block : Bytes) (j : ℕ)
    → has_special cs ≡ false
    → j ≤ int_max
    → int_max < j + length cs
    → copy_from block j cs ≡ fault
unfolding copy_from write_next has_special
copy_from-overflow [] block j plain le lt = absurd (omega arith)
copy_from-overflow (c ∷ cs) block j plain le lt = elim (Option-cases (store block j (c ∷ []))) [
  | inl outside ↦ rw (kept, outside) refl
  | inr (b, is) ↦ elim (Bool-cases (ltb j int_max)) [
    | inl counts ↦
        rw (kept, is, counts)
          (copy_from-overflow cs b (j + 1) (ground (arith, plain)) (ground (arith, counts))
            (omega arith))
    | inr overflows ↦ rw (kept, is, overflows) refl
  ]
]
  where
    kept : (c == b'?' || c == b'\\') ≡ false
    kept = ground (arith, plain)

fill-overflow :
    (s block : Bytes)
    → has_special s ≡ false
    → length block ≡ length s + 1
    → int_max < length s + 1
    → fill s block ≡ fault
unfolding fill
fill-overflow s block plain h large =
    let (b, is, size, took) =
      write_next_lem block [] 0 b'"' refl refl (omega arith) (omega arith) in
    rw (is, copy_from-overflow s b 1 plain (omega arith) (omega arith)) refl

-- A string without blank, `?` and backslash, whose length and NUL the allocator grants, is given no room for the quotes: the second quote is
-- written behind the block, or, from 2 ^ 31 - 1 bytes on, the int that counts what is written overflows.
pub escape_do_plain :
    (m : Machine) (s : Bytes)
    → has_special s ≡ false
    → length s + 1 ≤ size_max
    → m.grants (length s + 1) ≡ true
    → escape_do m (some s) ≡ fault
unfolding escape_do
escape_do_plain m s plain small given =
    let (same, none_counted) = body_plain s plain in
    rw (none_counted, fits, size, malloc_granted m (length s + 1) given)
      (elim (Bool-cases (leb (length s + 1) int_max)) [
        | inl fits ↦
            fill-fault s (fresh m 0 (length s + 1)) same (length-fresh m 0 (length s + 1))
              (ground (arith, fits))
        | inr large ↦
            fill-overflow s (fresh m 0 (length s + 1)) plain (length-fresh m 0 (length s + 1))
              (ground (arith, large))
      ])
  where
    fits : ltb (size_max - 0 - 1) (length s) ≡ false
    fits = ground arith

    size : length s + 1 + 0 ≡ length s + 1
    size = omega arith
