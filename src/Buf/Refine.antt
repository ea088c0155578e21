-- ===== src/Buf/Refine.antt =====
-- Sequences of calls on a string buffer, against the abstract text.
use cligen.Prelude.{
  ◌+◌, ◌%◌, ◌≤◌, ◌≡◌, refl, ap, ◌∙◌, arith, none, some, List, [], ◌∷◌, length, take, length-append,
  length-take, Outcome, returns, ◌>>=◌, Returns, Returns-bind,
}
use cligen.Memory.{Bytes, Machine, Status}
use cligen.Buf.Text
use cligen.Buf.Text.{Op, put_str, put_char, put_buf, print, cut, clear, cost, total, IsSound}
use cligen.Buf.{Sizes, Cbuf}
use cligen.Buf.Valid.{IsValid, contents, length-contents}
use cligen.Buf.Calls.{Granting, Meets, call, call-Meets}

-- The calls of a client in order, with what each returns.
pub run : Sizes → Machine → Cbuf → List Op → Outcome (List Status × Cbuf)
run s m cb [] = returns ([], cb)
run s m cb (op ∷ ops) =
    call s m cb op >>= λ r. run s m r.1 ops >>= λ rest. returns (r.0 ∷ rest.0, rest.1)

abbrev pub MeetsAll : Cbuf → List Op → List Status × Cbuf → Type 0
MeetsAll cb ops (statuses, cb') =
    IsValid cb' × ((statuses, contents cb') ≡ Text.run (contents cb) ops)

length-step : (text : Bytes) (op : Op) → length (Text.step text op).1 ≤ length text + cost op
unfolding Text.step
length-step text (put_str none) = omega arith
length-step text (put_str (some str)) = omega (arith, length-append text str)
length-step text (put_char c) = ground (arith, length-append text (c % 256 ∷ []))
length-step text (put_buf none n) = omega arith
length-step text (put_buf (some src) n) =
    omega (arith, length-append text (take n src), length-take n src)
length-step text (print none) = omega arith
length-step text (print (some out)) = omega (arith, length-append text out)
length-step text (cut i) = ground (arith, length-take i text)
length-step text clear = omega arith

IsSound-cons : (op : Op) (ops : List Op) → IsSound (op ∷ ops) → IsSound (op ∷ []) × IsSound ops
IsSound-cons (put_buf (some src) n) ops w = ((w.0, tt), w.1)
IsSound-cons (put_buf none n) ops w = (tt, w)
IsSound-cons (put_str str) ops w = (tt, w)
IsSound-cons (put_char c) ops w = (tt, w)
IsSound-cons (print str) ops w = (tt, w)
IsSound-cons (cut i) ops w = (tt, w)
IsSound-cons clear ops w = (tt, w)

strlen-call :
    (cb : Cbuf) (op : Op) (r : Status × Cbuf)
    → IsValid cb
    → Meets cb op r
    → r.1.strlen ≤ cb.strlen + cost op
strlen-call cb op (status, c) v m = omega (
  arith,
  length-contents v,
  length-contents m.0,
  length-step (contents cb) op,
  ap (λ (p : Status × Bytes). length p.1) m.1,
)

-- While memory is granted, and the threshold is less than 2 ^ 62, no sequence of calls tells a valid
-- buffer from the text that it holds: every status, and the text at the end, are those of the
-- abstract string. Source blocks are as long as the caller says, and the string and all that is
-- appended have at most 2 ^ 60 bytes.
pub run-refines :
    {s : Sizes} {m : Machine} (cb : Cbuf) (ops : List Op)
    → Granting s m
    → IsValid cb
    → IsSound ops
    → cb.strlen + total ops ≤ 1152921504606846976
    → Returns (run s m cb ops) (MeetsAll cb ops)
unfolding run Text.run
run-refines cb [] g v w h = (v, refl)
run-refines {s} {m} cb (op ∷ ops) g v w h =
    Returns-bind (call s m cb op) _ (Meets cb op) (MeetsAll cb (op ∷ ops))
      (call-Meets cb op g v (IsSound-cons op ops w).0 (omega arith))
      (λ r first.
        Returns-bind (run s m r.1 ops) _ (MeetsAll r.1 ops) (MeetsAll cb (op ∷ ops))
          (run-refines r.1 ops g first.0 (IsSound-cons op ops w).1
            (omega (arith, strlen-call cb op r v first)))
          (λ rest later. (later.0, both r rest first later)))
  where
    both :
        (r : Status × Cbuf) (rest : List Status × Cbuf)
        → Meets cb op r
        → MeetsAll r.1 ops rest
        → (r.0 ∷ rest.0, contents rest.1) ≡ Text.run (contents cb) (op ∷ ops)
    both r rest first later =
        ap (λ (q : List Status × Bytes). (r.0 ∷ q.0, q.1)) later.1
        ∙ ap (λ (p : Status × Bytes). (p.0 ∷ (Text.run p.1 ops).0, (Text.run p.1 ops).1)) first.1
