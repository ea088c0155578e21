-- ===== src/Buf/Failure.antt =====
-- What `cbuf_realloc` does where it goes wrong: a buffer of size 0, and a refused realloc(3).
use cligen.Prelude.{
  ℕ, suc, ◌+◌, ◌≤◌, ◌<◌, ◌≡◌, refl, ap, arith, some, true, false, length, ltb, returns, fault,
  diverges, Returns, [], ◌∷◌, ◌++◌, length-append,
}
use cligen.Memory.{
  Bytes, Machine, Status, ok, failed, size_max, add_size, sub_size, realloc_refused, store_overrun,
}
use cligen.Buf.{
  Sizes, Cbuf, Growth, enough, enomem, spinning, grow, resize, reserve, needed_for, append_str,
  new_alloc,
}
use cligen.Buf.Grow.{Grown, grow-Grown, IsEnough, grow-IsEnough, grow_zero}
use cligen.Buf.Valid.{IsValid, Returns-after}

reserve_zero :
    (s : Sizes) (m : Machine) (cb : Cbuf) (sz : ℕ)
    → cb.buflen ≡ 0
    → cb.strlen ≡ 0
    → sz < size_max
    → reserve s m cb sz ≡ diverges
unfolding reserve resize
reserve_zero s m cb sz b l h =
    ground (arith, grow_zero (suc (needed_for cb sz)) s.threshold (needed_for cb sz))

new_alloc_zero :
    (m : Machine) {cb : Cbuf} → new_alloc m 0 ≡ some cb → (cb.buflen ≡ 0) × (cb.strlen ≡ 0)
unfolding new_alloc
new_alloc_zero m e = ground arith

-- A buffer made by `cbuf_new_alloc(0)` can never be appended to: the loop of `cbuf_realloc` doubles
-- a size of 0, so it goes on for ever, whatever the threshold, and no fuel ends it.
pub append_str_zero :
    (s : Sizes) (m : Machine) (str : Bytes) {cb : Cbuf}
    → length str < size_max
    → new_alloc m 0 ≡ some cb
    → (append_str s m cb (some str) ≡ diverges)
      × ((fuel : ℕ) → grow fuel s.threshold (length str + 1) cb.buflen ≡ spinning)
unfolding append_str
append_str_zero s m str {cb} h e =
    let (b, l) = new_alloc_zero m e in
    (
      rw (reserve_zero s m cb (add_size cb.strlen (length str)) b l (omega arith)),
      λ fuel. rw b (grow_zero fuel s.threshold (length str + 1) (omega arith)),
    )

abbrev Overstated : Cbuf → ℕ → Status × Cbuf → Type 0
Overstated cb sz (ok, c) = ⊥
Overstated cb sz (failed, c) =
    (c.buffer ≡ cb.buffer) × (c.strlen ≡ cb.strlen) × (cb.strlen + sz < c.buflen)

resize_refused :
    (m : Machine) (cb : Cbuf) (sz : ℕ) (g : Growth)
    → ((n : ℕ) → m.grants n ≡ false)
    → Grown (cb.strlen + sz + 1) cb.buflen g
    → IsEnough g
    → Returns (resize m cb g) (Overstated cb sz)
unfolding resize
resize_refused m cb sz (enough n) refuses g e =
    rw (realloc_refused m cb.buffer n (refuses n), resize, Returns) (refl, refl, omega arith)
resize_refused m cb sz (enomem n) refuses g e = absurd e
resize_refused m cb sz spinning refuses g e = absurd e

-- After a refused realloc(3), `cb_buflen` tells a size that the block does not have.
reserve_refused :
    (s : Sizes) (m : Machine) (cb : Cbuf) (sz : ℕ)
    → IsValid cb
    → ((n : ℕ) → m.grants n ≡ false)
    → cb.strlen + sz + 1 < 4611686018427387904
    → s.threshold < 4611686018427387904
    → cb.buflen ≤ cb.strlen + sz
    → Returns (reserve s m cb sz) (Overstated cb sz)
unfolding reserve
reserve_refused s m cb sz v refuses h t big =
    rw (fits, more, exact, Returns)
      (resize_refused m cb sz
        (grow (suc (cb.strlen + sz + 1)) s.threshold (cb.strlen + sz + 1) cb.buflen) refuses
        (grow-Grown _ _ _ _ (omega arith) v.small (omega arith) (omega arith))
        (grow-IsEnough _ _ _ _ (omega arith) v.small (omega arith) h t))
  where
    fits : ltb (sub_size (sub_size size_max cb.strlen) 1) sz ≡ false
    fits = ground arith

    more : ltb cb.buflen (needed_for cb sz) ≡ true
    more = ground arith

    exact : needed_for cb sz ≡ cb.strlen + sz + 1
    exact = omega arith

reserve_enough :
    (s : Sizes) (m : Machine) (cb : Cbuf) (sz : ℕ)
    → cb.strlen + sz + 1 < 4611686018427387904
    → cb.strlen + sz < cb.buflen
    → reserve s m cb sz ≡ returns (ok, cb)
unfolding reserve
reserve_enough s m cb sz h room = ground arith

append_str_overrun :
    (s : Sizes) (m : Machine) (c : Cbuf) (str : Bytes)
    → c.strlen + (c.strlen + length str) + 1 < 4611686018427387904
    → c.strlen + (c.strlen + length str) < c.buflen
    → length c.buffer ≤ c.strlen + length str
    → append_str s m c (some str) ≡ fault
unfolding append_str
append_str_overrun s m c str h room small = rw (
  exact,
  reserve_enough s m c (c.strlen + length str) h room,
  store_overrun c.buffer c.strlen (str ++ (0 ∷ [])) past,
)
  where
    exact : add_size c.strlen (length str) ≡ c.strlen + length str
    exact = omega arith

    past : length c.buffer < c.strlen + length (str ++ (0 ∷ []))
    past = omega (arith, length-append str (0 ∷ []))

-- The call failed, and the same call on what it has left writes outside of the block.
abbrev pub FailsThenFaults : Sizes → Bytes → Status × Cbuf → Type 0
FailsThenFaults s str (ok, c) = ⊥
FailsThenFaults s str (failed, c) = (m : Machine) → append_str s m c (some str) ≡ fault

-- Where realloc(3) refuses the room that a string needs, `cbuf_append_str` fails, but `cb_buflen`
-- keeps the size that was asked for. Calling it again with the same string, on any machine, writes
-- outside of the block.
pub append_str_refused :
    (s : Sizes) (m : Machine) (cb : Cbuf) (str : Bytes)
    → IsValid cb
    → ((n : ℕ) → m.grants n ≡ false)
    → cb.strlen + (cb.strlen + length str) + 1 < 4611686018427387904
    → s.threshold < 4611686018427387904
    → cb.buflen ≤ cb.strlen + length str
    → Returns (append_str s m cb (some str)) (FailsThenFaults s str)
unfolding append_str
append_str_refused s m cb str v refuses h t big = rw exact (
    Returns-after (reserve s m cb (cb.strlen + length str)) _
      (Overstated cb (cb.strlen + length str)) (FailsThenFaults s str)
      (reserve_refused s m cb (cb.strlen + length str) v refuses h t (omega arith))
      (λ c o. absurd o)
      (λ c o m'.
        let (same, pos, grown) = o in
        append_str_overrun s m' c str (omega arith) (omega arith)
          (omega (arith, v.allocated, ap (λ (b : Bytes). length b) same))))
  where
    exact : add_size cb.strlen (length str) ≡ cb.strlen + length str
    exact = omega arith
