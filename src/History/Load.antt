-- ===== src/History/Load.antt =====
-- The loop of `cligen_hist_file_load`.
use cligen.Prelude.{
  ℕ, ◌+◌, ◌-◌, ◌≤◌, ◌≡◌, refl, ap, ap₂, ◌∙◌, sym, subst, arith, List, [], ◌∷◌, ◌++◌, ◌==◌, length,
  length-append, returns, ◌>>=◌, Returns, Returns-bind, Returns-mono, Bool-cases, inl, inr,
}
use cligen.Memory.{Bytes, Machine, Status, ok, failed, IsText, IsText-append}
use cligen.Buf
use cligen.Buf.{Sizes, Cbuf}
use cligen.Buf.Valid
use cligen.Buf.Valid.{contents, length-contents}
use cligen.Buf.Calls.{Granting, get-contents, append-ok, reset-Meets}
use cligen.History.{Hist, add}
use cligen.History.Add.{IsValid, lines}
use cligen.History.Enlarge.{Refusal}
use cligen.History.Increase.{Added, add-Added}
use cligen.History.File.{load_from}
use cligen.History.Reload.{read}
use cligen.History.Log

-- The call has succeeded, the invariant holds, and the lines are `log`.
abbrev pub Holds : ℕ → List Bytes → Status × Hist → Type 0
Holds size log (status, h) = (status ≡ ok) × IsValid h × (lines h ≡ log) × (h.size ≡ size)

abbrev pub most : ℕ
most = 536870912

no-Refusal : {s : Sizes} {m : Machine} → Granting s m → Refusal m → ⊥
no-Refusal g (n, e) = cc (g.grants_all n)

pub Holds-eq :
    (size size' : ℕ) (old old' : List Bytes) (part part' file : Bytes) (r : Status × Hist)
    → size' ≡ size
    → old' ≡ old
    → part' ≡ part
    → Holds size' (read (size' - 1) old' part' file) r
    → Holds size (read (size - 1) old part file) r
Holds-eq size size' old old' part part' file (status, h) es eo ep (good, v, log, same) = (
  good,
  v,
  log ∙ ap₂ (λ k o. read (k - 1) o part' file) es eo ∙ ap (λ p. read (size - 1) old p file) ep,
  same ∙ es,
)

-- What loading does with the bytes that are left of the file.
abbrev Loads : Sizes → Machine → Bytes → Type 0
Loads s m file =
    (cb : Cbuf) (h : Hist)
    → Valid.IsValid cb
    → IsValid h
    → IsText (contents cb)
    → cb.strlen + length file ≤ most
    → Returns (load_from s m cb h file)
        (Holds h.size (read (h.size - 1) (lines h) (contents cb) file))

module _ {s : Sizes} {m : Machine} (g : Granting s m) where
  -- Behind a newline the rest is loaded with an empty buffer.
  newline-Holds :
      (cs : Bytes) (cb : Cbuf) (h : Hist) (line : Bytes)
      → Loads s m cs
      → Valid.IsValid cb
      → length cs ≤ most
      → (r : Status × Hist) → Added m h line r
      → Returns
          (elim r.0 [ ok ↦ Buf.reset cb >>= λ cb'. load_from s m cb' r.1 cs | failed ↦ returns r ])
          (Holds h.size (read (h.size - 1) (Log.add (h.size - 1) (lines h) line) [] cs))
  newline-Holds cs cb h line loads w small (failed, h') refusal = absurd (no-Refusal g refusal)
  newline-Holds cs cb h line loads w small (ok, h') (v, log, cur, size) =
      Returns-bind (Buf.reset cb) _ (λ c. Valid.IsValid c × (contents c ≡ [])) _ (reset-Meets cb w)
        (λ cb' e.
          Returns-mono (load_from s m cb' h' cs)
            (Holds h'.size (read (h'.size - 1) (lines h') (contents cb') cs)) _
            (loads cb' h' e.0 v (subst IsText (sym e.1) tt)
              (omega (arith, length-contents e.0, ap (λ (b : Bytes). length b) e.1)))
            (λ r. Holds-eq h.size h'.size _ (lines h') [] (contents cb') cs r size log e.1))

  -- Any other byte is put behind what was read of the line.
  char-Holds :
      (cs : Bytes) (cb : Cbuf) (h : Hist) (c : ℕ)
      → Loads s m cs
      → IsValid h
      → Valid.IsValid cb
      → IsText (contents cb ++ (c ∷ []))
      → cb.strlen + 1 + length cs ≤ most
      → (r : Status × Cbuf)
      → (r.0 ≡ ok) × Valid.IsValid r.1 × (contents r.1 ≡ contents cb ++ (c ∷ []))
      → Returns
          (elim r.0 [ ok ↦ load_from s m r.1 h cs | failed ↦ returns (failed, h) ])
          (Holds h.size (read (h.size - 1) (lines h) (contents cb ++ (c ∷ [])) cs))
  char-Holds cs cb h c loads v w t small (failed, cb') (good, w', text) = cc good
  char-Holds cs cb h c loads v w t small (ok, cb') (good, w', text) =
      Returns-mono (load_from s m cb' h cs)
        (Holds h.size (read (h.size - 1) (lines h) (contents cb') cs)) _
        (loads cb' h w' v (subst IsText (sym text) t) (
          omega (
            arith,
            length-contents w,
            length-contents w',
            ap (λ (b : Bytes). length b) text,
            length-append (contents cb) (c ∷ []),
          )))
        (λ r.
          Holds-eq h.size h.size (lines h) (lines h) (contents cb ++ (c ∷ [])) (contents cb') cs r
            refl refl text)

  pub load_from-Holds : (file : Bytes) → IsText file → Loads s m file
  unfolding load_from read
  load_from-Holds [] f cb h w v t small = (refl, v, refl, refl)
  load_from-Holds (c ∷ cs) f cb h w v t small = elim (Bool-cases (c == b'\n')) [
    | inl newline ↦
        rw (newline, get-contents cb w t, read)
          (Returns-bind (add m h (contents cb)) _ (Added m h (contents cb)) _
            (add-Added m h (contents cb) v (omega (arith, length-contents w)))
            (newline-Holds cs cb h (contents cb) (load_from-Holds cs f.2) w (omega arith)))
    | inr char ↦
        rw (char, read)
          (Returns-bind (Buf.append s m cb c) _
            (λ r. (r.0 ≡ ok) × Valid.IsValid r.1 × (contents r.1 ≡ contents cb ++ (c ∷ []))) _
            (append-ok cb c g w f.0 f.1 (omega arith))
            (char-Holds cs cb h c (load_from-Holds cs f.2) v w
              (IsText-append (contents cb) (c ∷ []) t (f.0, f.1, tt)) (omega arith)))
  ]
