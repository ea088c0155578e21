-- ===== src/Buf/Calls.antt =====
-- One call of a client, on a valid buffer and while memory is granted.
use cligen.Prelude.{
  ℕ, zero, suc, ◌+◌, ◌%◌, ◌≤◌, ◌<◌, ◌≡◌, refl, ap, ap₂, ◌∙◌, sym, arith, true, false, Option, none,
  some, [], ◌∷◌, ◌++◌, length, take, get_or, replicate, length-replicate, length-take, Outcome,
  returns, fault, ◌>>=◌, Returns, Returns-bind, Returns-mono, ltb, leb, ◌==◌, Bool-cases, inl, inr,
  take-take, append-nil,
}
use cligen.Memory.{
  Bytes, Machine, Status, ok, failed, size_max, store_lem, cut_nul, IsText, cstring-take,
}
use cligen.Buf.Text
use cligen.Buf.Text.{Op, put_str, put_char, put_buf, print, cut, clear, cost, total, IsSound}
use cligen.Buf.{
  Sizes, Cbuf, append_str, append, char_text, append_buf, cprintf, trunc, reset, get, new,
  new_alloc, sizeof_cbuf,
}
use cligen.Buf.Valid.{IsValid, contents, length-contents, Excuse, huge}
use cligen.Buf.Append.{
  Appended, AppendedTo, append_str-Appended, append_buf-Appended, cprintf-Appended,
}

abbrev printed : Status × Option Cbuf → Outcome (Status × Cbuf)
printed (status, none) = fault
printed (status, some cb) = returns (status, cb)

pub call : Sizes → Machine → Cbuf → Op → Outcome (Status × Cbuf)
call s m cb (put_str str) = append_str s m cb str
call s m cb (put_char c) = append s m cb c
call s m cb (put_buf src n) = append_buf s m cb src n
call s m cb (print text) = cprintf s m (some cb) text >>= printed
call s m cb (cut i) = trunc cb i
call s m cb clear = reset cb >>= λ c. returns (ok, c)

abbrev pub Meets : Cbuf → Op → Status × Cbuf → Type 0
Meets cb op (status, cb') = IsValid cb' × ((status, contents cb') ≡ Text.step (contents cb) op)

pub record Granting (s : Sizes) (m : Machine) : Type 0 where
  pub grants_all : (n : ℕ) → m.grants n ≡ true
  pub small_threshold : s.threshold < huge

not-Excuse : {s : Sizes} {m : Machine} (k : ℕ) → Granting s m → k < huge → Excuse s m k → ⊥
not-Excuse k g h (inl (n, e)) = cc (g.grants_all n)
not-Excuse k g h (inr (inl big)) = omega arith
not-Excuse k g h (inr (inr big)) = omega arith

Appended-ok :
    {s : Sizes} {m : Machine} (cb : Cbuf) (text : Bytes) (r : Status × Cbuf)
    → Granting s m
    → cb.strlen + cb.strlen + length text + 2 < huge
    → Appended s m cb text r
    → (r.0 ≡ ok) × IsValid r.1 × (contents r.1 ≡ contents cb ++ text)
Appended-ok cb text (ok, c) g h a = (refl, a.0, a.1)
Appended-ok cb text (failed, c) g h a = absurd (not-Excuse _ g h a.excuse)

pub reset-Meets : (cb : Cbuf) → IsValid cb → Returns (reset cb) (λ c. IsValid c × (contents c ≡ []))
unfolding reset
reset-Meets cb v =
    let (b, e, size, front) = store_lem cb.buffer 0 (0 ∷ []) (omega arith) in
    let (text_is, nul) = cut_nul b [] 0 refl front in
    rw (e, Returns)
      (
        record {
          allocated = size ∙ v.allocated;
          room = omega arith;
          small = v.small;
          terminated = nul;
        },
        refl,
      )

trunc-Meets : (cb : Cbuf) (i : ℕ) → IsValid cb → Returns (trunc cb i) (Meets cb (cut i))
unfolding trunc Text.step
trunc-Meets cb i v = elim (Bool-cases (ltb cb.strlen i)) [
  | inl over ↦ rw (over, long over, Returns) (v, refl)
  | inr under ↦
      let (b, e, size, front) = store_lem cb.buffer i (0 ∷ []) (ground arith) in
      let (text_is, nul) =
        cut_nul b (take i cb.buffer) i (omega (arith, le under, length-take i cb.buffer))
          (ap (λ k. take k b) (suc-add i) ∙ front) in
      rw (under, e, short under, Returns)
        (
          record {
            allocated = size ∙ v.allocated;
            room = omega (arith, le under);
            small = v.small;
            terminated = nul;
          },
          ap (λ t. (ok, t)) (text_is ∙ sym (take-take i cb.strlen cb.buffer (le under))),
        )
]
  where
    suc-add : (n : ℕ) → suc n ≡ n + 1
    suc-add n = omega arith

    le : ltb cb.strlen i ≡ false → i ≤ cb.strlen
    le h = ground arith

    long : ltb cb.strlen i ≡ true → leb i (length (contents cb)) ≡ false
    long h = ground (arith, length-contents v)

    short : ltb cb.strlen i ≡ false → leb i (length (contents cb)) ≡ true
    short h = ground (arith, length-contents v)

Appended-Meets :
    {s : Sizes} {m : Machine} (cb : Cbuf) (op : Op) (text : Bytes)
    → Granting s m
    → cb.strlen + length text ≤ 1152921504606846976
    → Text.step (contents cb) op ≡ (ok, contents cb ++ text)
    → (r : Status × Cbuf) → Appended s m cb text r
    → Meets cb op r
Appended-Meets cb op text g h e r a =
    let (is_ok, v, text_is) = Appended-ok cb text r g (omega arith) a in
    (v, ap₂ (λ (st : Status) (t : Bytes). (st, t)) is_ok text_is ∙ sym e)

char_text-length : (c : ℕ) → length (char_text c) ≤ 1
unfolding char_text
char_text-length c = ground arith

step-put_char : (text : Bytes) (c : ℕ) → Text.step text (put_char c) ≡ (ok, text ++ char_text c)
unfolding Text.step char_text
step-put_char text c = elim (Bool-cases (c % 256 == 0)) [
  | inl nul ↦ rw (nul, append-nil)
  | inr char ↦ rw char
]

-- One call of a client does to the text what it is promised.
pub call-Meets :
    {s : Sizes} {m : Machine} (cb : Cbuf) (op : Op)
    → Granting s m
    → IsValid cb
    → IsSound (op ∷ [])
    → cb.strlen + cost op ≤ 1152921504606846976
    → Returns (call s m cb op) (Meets cb op)
unfolding call Text.step append_str append_buf cprintf append
call-Meets cb (put_str none) g v w h = (v, refl)
call-Meets {s} {m} cb (put_str (some str)) g v w h =
    Returns-mono _ (Appended s m cb str) (Meets cb (put_str (some str)))
      (append_str-Appended s m cb str v (omega arith) (omega arith))
      (Appended-Meets cb (put_str (some str)) str g h refl)
call-Meets {s} {m} cb (put_char c) g v w h =
    Returns-mono _ (Appended s m cb (char_text c)) (Meets cb (put_char c))
      (append_str-Appended s m cb (char_text c) v (omega (arith, char_text-length c)) (omega arith))
      (Appended-Meets cb (put_char c) (char_text c) g (omega (arith, char_text-length c))
        (step-put_char (contents cb) c))
call-Meets cb (put_buf none n) g v w h = (v, refl)
call-Meets {s} {m} cb (put_buf (some src) n) g v w h =
    Returns-mono _ (Appended s m cb (take n src)) (Meets cb (put_buf (some src) n))
      (append_buf-Appended s m cb src n v w.0 (omega arith) (omega arith))
      (Appended-Meets cb (put_buf (some src) n) (take n src) g (omega (arith, length-take n src))
        refl)
call-Meets cb (print none) g v w h = (v, refl)
call-Meets {s} {m} cb (print (some out)) g v w h =
    Returns-bind (cprintf s m (some cb) (some out)) printed (AppendedTo s m cb out)
      (Meets cb (print (some out))) (cprintf-Appended s m cb out v (omega arith) (omega arith))
      unwrap
  where
    unwrap :
        (r : Status × Option Cbuf)
        → AppendedTo s m cb out r
        → Returns (printed r) (Meets cb (print (some out)))
    unwrap (status, none) a = a
    unwrap (status, some c) a = Appended-Meets cb (print (some out)) out g h refl (status, c) a
call-Meets cb (cut i) g v w h = trunc-Meets cb i v
call-Meets cb clear g v w h =
    Returns-bind (reset cb) _ (λ c. IsValid c × (contents c ≡ [])) (Meets cb clear)
      (reset-Meets cb v) (λ c a. (a.0, ap (λ t. (ok, t)) a.1))

char_text_lem : (c : ℕ) → 0 < c → c < 256 → char_text c ≡ c ∷ []
unfolding char_text
char_text_lem c p q = ground arith

-- What `cbuf_get` gives is the text that was appended.
pub get-contents : (cb : Cbuf) → IsValid cb → IsText (contents cb) → get cb ≡ contents cb
unfolding get
get-contents cb v t = cstring-take cb.buffer cb.strlen t v.terminated

pub append-ok :
    {s : Sizes} {m : Machine} (cb : Cbuf) (c : ℕ)
    → Granting s m
    → IsValid cb
    → 0 < c
    → c < 256
    → cb.strlen + 1 ≤ 1152921504606846976
    → Returns
        (append s m cb c)
        (λ r. (r.0 ≡ ok) × IsValid r.1 × (contents r.1 ≡ contents cb ++ (c ∷ [])))
unfolding append
append-ok {s} {m} cb c g v p q h = rw char (
    Returns-mono (append_str s m cb (some (c ∷ []))) (Appended s m cb (c ∷ [])) _
      (append_str-Appended s m cb (c ∷ []) v (omega arith) (omega arith))
      (λ r a. Appended-ok cb (c ∷ []) r g (omega arith) a))
  where
    char : char_text c ≡ c ∷ []
    char = char_text_lem c p q

-- With memory for it, `cbuf_new` gives a valid buffer that has no text.
pub new_granted :
    (s : Sizes) (m : Machine)
    → Granting s m
    → 0 < s.start
    → s.start ≤ size_max
    → (cb : Cbuf) × (new s m ≡ some cb) × IsValid cb × (contents cb ≡ [])
unfolding new_alloc new
new_granted s m g one small = (
  record { buffer = replicate s.start 0; buflen = s.start; strlen = 0 },
  rw (g.grants_all sizeof_cbuf, g.grants_all s.start) refl,
  record {
    allocated = omega (arith, length-replicate {A = ℕ} s.start 0);
    room = one;
    small = small;
    terminated = first s.start one;
  },
  refl,
)
  where
    first : (n : ℕ) → 0 < n → get_or {A = ℕ} (replicate n 0) 0 1 ≡ 0
    first zero h = absurd (omega arith)
    first (suc n) h = refl
