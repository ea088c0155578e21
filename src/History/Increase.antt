-- ===== src/History/Increase.antt =====
-- `hist_add` on every branch.
use cligen.Prelude.{
  ℕ, ◌+◌, ◌-◌, ◌<◌, ◌≡◌, refl, ap₂, ◌∷◌, ◌∙◌, sym, arith, Bool, true, false, not, ◌&&◌, List, [],
  ◌++◌, ◌==◌, leb, length, returns, Returns, Returns-bind, Returns-mono, Bool-cases, inl, inr,
}
use cligen.Memory.{Bytes, Machine, Status, ok, failed}
use cligen.History.{Hist, add_line, add, differs, skip_blank, buf_increase}
use cligen.History.Add.{IsValid, lines, pushed-IsValid, lines-pushed, push-pushed, push-refused}
use cligen.History.Log.{has_text, has_text_lem, last?, keep_last, IsPacked-mono, IsPacked}
use cligen.History.Log
use cligen.History.Enlarge.{half_max, Refusal, Increased, buf_increase-Increased}

-- What a call of `hist_add` does: the invariant is kept and the lines are those of the log, or
-- memory was refused.
abbrev pub Added : Machine → Hist → Bytes → Status × Hist → Type 0
Added m h line (ok, h') =
    IsValid h'
    × (lines h' ≡ Log.add (h.size - 1) (lines h) line)
    × (h'.cur ≡ h'.last)
    × (h'.size ≡ h.size)
Added m h line (failed, h') = Refusal m

Log-add_new :
    (cap : ℕ) (old : List Bytes) (line : Bytes)
    → (has_text line && differs (last? old) line) ≡ true
    → Log.add cap old line ≡ keep_last cap (old ++ (line ∷ []))
unfolding Log.add
Log-add_new cap old line h = rw h

Log-add_same :
    (cap : ℕ) (old : List Bytes) (line : Bytes)
    → (has_text line && differs (last? old) line) ≡ false
    → Log.add cap old line ≡ old
unfolding Log.add
Log-add_same cap old line h = rw h

and-left : (a b : Bool) → (a && b) ≡ true → a ≡ true
and-left a b h = ground arith

add_line-Added :
    (m : Machine) (h : Hist) (line : Bytes)
    → IsValid h
    → length line < h.bufsize
    → Returns (add_line m h line) (Added m h line)
unfolding add_line
add_line-Added m h line v fits =
    elim (Bool-cases (has_text line && differs (last? (lines h)) line)) [
      | inl new ↦
          rw (test, new, Returns)
            (elim (Bool-cases (m.grants (length line + 1))) [
              | inl given ↦ rw (push-pushed m h v line given) (
                pushed-IsValid m h v line (fits, and-left _ _ new),
                lines-pushed m h v line ∙ sym (Log-add_new (h.size - 1) (lines h) line new),
                refl,
                refl,
              )
              | inr refused ↦ rw (push-refused m h v line refused) (length line + 1, refused)
            ])
      | inr same ↦
          rw (test, same, Returns)
            (
              record {
                sized = v.sized;
                two = v.two;
                last_in = v.last_in;
                cur_in = v.last_in;
                cleared = v.cleared;
                packed = v.packed;
                pre_is = v.pre_is;
                block = v.block;
                positive = v.positive;
              },
              sym (Log-add_same (h.size - 1) (lines h) line same),
              refl,
              refl,
            )
    ]
  where
    test :
        (not (length (skip_blank line) == 0) && differs h.pre line)
        ≡ (has_text line && differs (last? (lines h)) line)
    test = ap₂ (λ a p. a && differs p line) (has_text_lem line) v.pre_is

Added-eq :
    (m : Machine) (h h' : Hist) (line : Bytes)
    → lines h' ≡ lines h
    → h'.size ≡ h.size
    → (r : Status × Hist) → Added m h' line r
    → Added m h line r
Added-eq m h h' line same size (ok, g) (v, log, cur, size') =
    (v, log ∙ ap₂ (λ k old. Log.add (k - 1) old line) size same, cur, size' ∙ size)
Added-eq m h h' line same size (failed, g) refusal = refusal

-- From a valid history `hist_add` of a line of less than 2 ^ 30 bytes returns. Where no memory is
-- refused it keeps the invariant and the size, leaves the cursor at the newest slot, and the lines
-- are those of the log: a blank line, or one that `differs` takes for the newest, changes nothing,
-- and any other is put last, the oldest being dropped once the ring is full.
pub add-Added :
    (m : Machine) (h : Hist) (line : Bytes)
    → IsValid h
    → length line < half_max
    → Returns (add m h line) (Added m h line)
unfolding add
add-Added m h line v small = elim (Bool-cases (leb h.bufsize (length line))) [
  | inl short ↦
      rw (short, Returns)
        (Returns-bind (buf_increase m h (length line)) _ (Increased m h (length line))
          (Added m h line) (buf_increase-Increased m h (length line) v small (ground arith)) rest)
  | inr long ↦ rw (long, Returns) (add_line-Added m h line v (ground arith))
]
  where
    rest :
        (r : Status × Hist)
        → Increased m h (length line) r
        → Returns (elim r.0 [ ok ↦ add_line m r.1 line | failed ↦ returns r ]) (Added m h line)
    rest (ok, h') (v', fits, same, size, pre) =
        Returns-mono (add_line m h' line) (Added m h' line) (Added m h line)
          (add_line-Added m h' line v' fits) (Added-eq m h h' line same size)
    rest (failed, h') refusal = refusal
