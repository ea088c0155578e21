-- ===== src/History/Copy.antt =====
-- `hist_copy` puts a line into the input buffer.
use cligen.Prelude.{
  ℕ, zero, suc, ◌+◌, ◌<◌, ◌≡◌, refl, ap, ◌∙◌, sym, arith, some, [], ◌∷◌, ◌++◌, length, take,
  replicate, take_all, length-append, length-take, length-replicate, Returns,
}
use cligen.Memory.{Bytes, IsText, cstring, store_lem}
use cligen.History.{Hist, copy}
use cligen.History.Add.{IsValid}

cstring-padded :
    (line : Bytes) (n m : ℕ)
    → IsText line
    → length line < n
    → 0 < m
    → cstring (take n (line ++ replicate m 0)) ≡ line
unfolding cstring
cstring-padded line zero m t h p = absurd (omega arith)
cstring-padded line (suc n) zero t h p = absurd (omega arith)
cstring-padded [] (suc n) (suc m) t h p = refl
cstring-padded (c ∷ line) (suc n) (suc m) t h p = ground (arith, cstring-padded line n (suc m))

-- The input buffer, of the size that it had, is read as the line, and nothing else has changed.
abbrev pub Copied : Hist → Bytes → Hist → Type 0
Copied h line h' =
    (b : Bytes) × (h' ≡ record h { buf = some b }) × (length b ≡ h.bufsize) × (cstring b ≡ line)

-- From a valid history, `hist_copy` of a line that fits into the input buffer with its NUL writes
-- inside of the buffer, and leaves the line there with a NUL behind it.
pub copy-Copied :
    (h : Hist) (line : Bytes)
    → IsValid h
    → IsText line
    → length line < h.bufsize
    → Returns (copy h line) (Copied h line)
unfolding copy
copy-Copied h line v t fits =
    let (block, is, size) = v.block in
    let (b, e, same, front) = store_lem block 0 text (omega (arith, length_text)) in
    rw (is, e, Returns)
      (
        b,
        refl,
        same ∙ size,
        ap cstring (sym (take_all b (0 + length text) (omega (arith, length_text))) ∙ front)
            ∙ cstring-padded line h.bufsize h.bufsize t fits v.positive,
      )
  where
    text : Bytes
    text = take h.bufsize (line ++ replicate h.bufsize 0)

    length_text : length text ≡ h.bufsize
    length_text = omega (
      arith,
      length-take h.bufsize (line ++ replicate h.bufsize 0),
      length-append line (replicate h.bufsize 0),
      length-replicate {A = ℕ} h.bufsize 0,
    )
