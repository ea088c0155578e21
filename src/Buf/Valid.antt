-- ===== src/Buf/Valid.antt =====
-- The invariant of `struct cbuf`, and what `cbuf_realloc` does to it.
use cligen.Prelude.{
  false, ℕ, suc, ◌+◌, ◌≤◌, ◌<◌, ◌≡◌, refl, ◌>>=◌, arith, length, take, get_or, length-take, Outcome,
  Returns, Returns-bind, ltb, Bool-cases, inl, inr, ◌⊎◌, ◌&&◌,
}
use cligen.Memory.{
  Bytes, Machine, Status, ok, failed, size_max, sub_size, realloc_grown, realloc_granted,
  realloc_refused,
}
use cligen.Buf.{
  Sizes, Cbuf, Growth, enough, enomem, spinning, grow, resize, reserve, needed_for, after,
}
use cligen.Buf.Grow.{Grown, grow-Grown, IsEnough, grow-IsEnough}

-- `cb_buflen` is the size of the block, and the string ends inside of it with a NUL.
pub record IsValid (cb : Cbuf) : Type 0 where
  pub allocated : length cb.buffer ≡ cb.buflen
  pub room : cb.strlen < cb.buflen
  pub small : cb.buflen ≤ size_max
  pub terminated : get_or cb.buffer cb.strlen 1 ≡ 0

abbrev pub contents : Cbuf → Bytes
contents cb = take cb.strlen cb.buffer

pub length-contents : {cb : Cbuf} → IsValid cb → length (contents cb) ≡ cb.strlen
length-contents {cb} v = omega (arith, length-take cb.strlen cb.buffer)

-- Why a call that needs `k` bytes may fail: realloc(3) refuses a size, or a size is huge.
abbrev pub huge : ℕ
huge = 4611686018427387904

abbrev pub Excuse : Sizes → Machine → ℕ → Type 0
Excuse s m k = ((n : ℕ) × (m.grants n ≡ false)) ⊎ ((huge ≤ k) ⊎ (huge ≤ s.threshold))

Excuse-mono : (s : Sizes) (m : Machine) (k k' : ℕ) → k ≤ k' → Excuse s m k → Excuse s m k'
Excuse-mono s m k k' h (inl refusal) = inl refusal
Excuse-mono s m k k' h (inr (inl big)) = inr (inl (omega arith))
Excuse-mono s m k k' h (inr (inr big)) = inr (inr big)

-- The call has failed with an excuse, and the string is as it was; `cb_buflen` may have grown.
pub record SameText (s : Sizes) (m : Machine) (k : ℕ) (cb cb' : Cbuf) : Type 0 where
  pub same_buffer : cb'.buffer ≡ cb.buffer
  pub same_strlen : cb'.strlen ≡ cb.strlen
  pub grown : cb.buflen ≤ cb'.buflen
  pub excuse : Excuse s m k

pub SameText-mono :
    (s : Sizes) (m : Machine) (k k' : ℕ) (cb c : Cbuf)
    → k ≤ k'
    → SameText s m k cb c
    → SameText s m k' cb c
SameText-mono s m k k' cb c h e = record {
  same_buffer = e.same_buffer;
  same_strlen = e.same_strlen;
  grown = e.grown;
  excuse = Excuse-mono s m k k' h e.excuse;
}

-- What `cbuf_realloc` leaves: room for `sz` more bytes and a NUL, or an error.
pub record HasRoom (cb : Cbuf) (sz : ℕ) (cb' : Cbuf) : Type 0 where
  pub allocated : length cb'.buffer ≡ cb'.buflen
  pub room : cb.strlen + sz + 1 ≤ cb'.buflen
  pub small : cb'.buflen ≤ size_max
  pub same_strlen : cb'.strlen ≡ cb.strlen
  pub same_text : take cb.strlen cb'.buffer ≡ take cb.strlen cb.buffer

abbrev Reserved : Sizes → Machine → Cbuf → ℕ → Status × Cbuf → Type 0
Reserved s m cb sz (ok, cb') = HasRoom cb sz cb'
Reserved s m cb sz (failed, cb') = SameText s m (cb.strlen + sz + 1) cb cb'

resize-Reserved :
    (s : Sizes) (m : Machine) (cb : Cbuf) (sz : ℕ) (g : Growth)
    → IsValid cb
    → Grown (cb.strlen + sz + 1) cb.buflen g
    → IsEnough g ⊎ Excuse s m (cb.strlen + sz + 1)
    → Returns (resize m cb g) (Reserved s m cb sz)
unfolding resize
resize-Reserved s m cb sz spinning v g w = g
resize-Reserved s m cb sz (enomem n) v g (inl w) = absurd w
resize-Reserved s m cb sz (enomem n) v g (inr w) = record {
  same_buffer = refl;
  same_strlen = refl;
  grown = omega arith;
  excuse = w;
}
resize-Reserved s m cb sz (enough n) v g w = elim (Bool-cases (m.grants n)) [
  | inl given ↦
      let (b, e) = realloc_granted m cb.buffer n given in
      rw (e, resize, Returns)
        let (size, kept) = realloc_grown m cb.buffer n (omega arith) e in
          (record {
            allocated = size;
            room = omega arith;
            small = omega arith;
            same_strlen = refl;
            same_text = kept cb.strlen (omega arith);
          })
  | inr refused ↦
      rw (realloc_refused m cb.buffer n refused, resize, Returns)
        (record {
          same_buffer = refl;
          same_strlen = refl;
          grown = omega arith;
          excuse = inl (n, refused);
        })
]

grow-Excuse :
    (s : Sizes) (m : Machine) (needed buflen : ℕ)
    → 0 < buflen
    → buflen ≤ size_max
    → IsEnough (grow (suc needed) s.threshold needed buflen) ⊎ Excuse s m needed
grow-Excuse s m needed buflen p q = elim (Bool-cases (ltb needed huge && ltb s.threshold huge)) [
  | inl small ↦ inl (
      grow-IsEnough needed s.threshold needed buflen p q (omega arith) (ground arith)
        (ground arith))
  | inr big ↦ inr (inr (ground arith))
]

reserve-Reserved :
    (s : Sizes) (m : Machine) (cb : Cbuf) (sz : ℕ)
    → IsValid cb
    → sz ≤ size_max
    → s.threshold ≤ size_max
    → Returns (reserve s m cb sz) (Reserved s m cb sz)
unfolding reserve
reserve-Reserved s m cb sz v h t =
    elim (Bool-cases (ltb (sub_size (sub_size size_max cb.strlen) 1) sz)) [
      | inl big ↦
          rw (big, Returns)
            (record {
              same_buffer = refl;
              same_strlen = refl;
              grown = omega arith;
              excuse = inr (inl (ground arith));
            })
      | inr fits ↦
          rw (fits, Returns)
            let exact : needed_for cb sz ≡ cb.strlen + sz + 1 = ground arith in
              elim (Bool-cases (ltb cb.buflen (needed_for cb sz))) [
                | inl more ↦
                    rw (more, exact, Returns)
                      (resize-Reserved s m cb sz
                        (grow (suc (cb.strlen + sz + 1)) s.threshold (cb.strlen + sz + 1) cb.buflen)
                        v
                        (grow-Grown (cb.strlen + sz + 1) s.threshold (cb.strlen + sz + 1) cb.buflen
                          (omega arith) v.small (omega arith) t)
                        (grow-Excuse s m (cb.strlen + sz + 1) cb.buflen (omega arith) v.small))
                | inr has ↦
                    rw (has, Returns)
                      (record {
                        allocated = v.allocated;
                        room = ground arith;
                        small = v.small;
                        same_strlen = refl;
                        same_text = refl;
                      })
              ]
    ]

-- The rule for a call of `cbuf_realloc` and what follows it.
pub Returns-after :
    (o : Outcome (Status × Cbuf)) (k : Cbuf → Outcome (Status × Cbuf))
    (P Q : Status × Cbuf → Type 0)
    → Returns o P
    → ((c : Cbuf) → P (ok, c) → Returns (k c) Q)
    → ((c : Cbuf) → P (failed, c) → Q (failed, c))
    → Returns (o >>= after k) Q
Returns-after o k P Q h good bad = Returns-bind o (after k) P Q h go
  where
    go : (r : Status × Cbuf) → P r → Returns (after k r) Q
    go (ok, c) h = good c h
    go (failed, c) h = bad c h

pub reserve-Returns :
    (s : Sizes) (m : Machine) (cb : Cbuf) (sz : ℕ) (k : Cbuf → Outcome (Status × Cbuf))
    (P : Status × Cbuf → Type 0)
    → IsValid cb
    → sz ≤ size_max
    → s.threshold ≤ size_max
    → ((c : Cbuf) → HasRoom cb sz c → Returns (k c) P)
    → ((c : Cbuf) → SameText s m (cb.strlen + sz + 1) cb c → P (failed, c))
    → Returns (reserve s m cb sz >>= after k) P
reserve-Returns s m cb sz k P v h t =
    Returns-after (reserve s m cb sz) k (Reserved s m cb sz) P (reserve-Reserved s m cb sz v h t)
