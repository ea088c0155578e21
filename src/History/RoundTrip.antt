-- ===== src/History/RoundTrip.antt =====
-- `cligen_hist_file_load`, and a history that is saved and loaded.
use cligen.Prelude.{
  ℕ, ◌+◌, ◌-◌, ◌*◌, ◌≤◌, ◌<◌, ◌≡◌, refl, ap, ap₂, ◌∙◌, sym, subst, arith, some, List, [], length,
  ◌>>=◌, Returns, Returns-eq, Returns-mono,
}
use cligen.Memory.{int_max, Bytes, Machine, ok, size_max, IsText}
use cligen.Buf.{Sizes}
use cligen.Buf.Valid.{contents, length-contents}
use cligen.Buf.Calls.{Granting, new_granted}
use cligen.History.{Hist, init, file_save, sizeof_pointer}
use cligen.History.Add.{IsValid, lines}
use cligen.History.Start.{unlines, init-IsValid, file_save-lines}
use cligen.History.File
use cligen.History.File.{file_load}
use cligen.History.Reload.{read, add_all, AllClean, unlines-IsText, read-unlines, add_all-add_all}
use cligen.History.Load.{Holds, Holds-eq, most, load_from-Holds}

-- While memory is granted, and a new buffer has a size above 0, loading a text of up to 2 ^ 29 bytes
-- into a valid history succeeds and logs its lines.
pub file_load-Holds :
    (s : Sizes) (m : Machine) (h : Hist) (file : Bytes)
    → Granting s m
    → 0 < s.start
    → s.start ≤ size_max
    → IsValid h
    → IsText file
    → length file ≤ most
    → Returns (file_load s m h file) (Holds h.size (read (h.size - 1) (lines h) [] file))
unfolding file_load
file_load-Holds s m h file g one small v t short =
    let (cb, e, w, none_yet) = new_granted s m g one small in
    rw (file_load, e)
      (Returns-mono (File.load_from s m cb h file)
        (Holds h.size (read (h.size - 1) (lines h) (contents cb) file)) _
        (load_from-Holds g file t cb h w v (subst IsText (sym none_yet) tt)
          (omega (arith, length-contents w, ap (λ (b : Bytes). length b) none_yet)))
        (λ r.
          Holds-eq h.size h.size (lines h) (lines h) [] (contents cb) file r refl refl none_yet))

-- While memory is granted, and a new buffer has a size above 0, a valid history that has logged
-- `input`, and whose lines are clean, that is texts without newlines, is saved to a file of up to 2 ^ 29
-- bytes. The file is loaded into another history, which `cligen_hist_init` has set up for as many
-- lines, less than INT_MAX, from a handle that has an input buffer and at least as many slots as its
-- old size says: it then has the same lines.
pub file_load-file_save :
    (s : Sizes) (m : Machine) (h h0 : Hist) (input : List Bytes) (n : ℕ) {b : Bytes}
    → Granting s m
    → 0 < s.start
    → s.start ≤ size_max
    → IsValid h
    → h.size ≡ n + 1
    → lines h ≡ add_all n [] input
    → AllClean (lines h)
    → length (unlines (lines h)) ≤ most
    → n < int_max
    → h0.size ≤ length h0.slots
    → h0.buf ≡ some b
    → length b ≡ h0.bufsize
    → 0 < h0.bufsize
    → Returns
        (file_save h >>= λ file. init m h0 n >>= λ r0. file_load s m r0.1 file)
        (λ r. (r.0 ≡ ok) × IsValid r.1 × (lines r.1 ≡ lines h))
file_load-file_save s m h h0 input n g one small v size logged clean short an_int all block len
      positive =
    let ((status, h1), made, (good, v', empty, n_is)) =
      Returns-eq (init m h0 n)
        (λ r. (r.0 ≡ ok) × IsValid r.1 × (lines r.1 ≡ []) × (r.1.size ≡ n + 1))
        (init-IsValid m h0 n (omega (arith, v.two)) an_int (g.grants_all ((n + 1) * sizeof_pointer))
          all block len positive) in
    rw (file_save-lines h v, made)
      (Returns-mono (file_load s m h1 (unlines (lines h)))
        (Holds h1.size (read (h1.size - 1) (lines h1) [] (unlines (lines h)))) _
        (file_load-Holds s m h1 (unlines (lines h)) g one small v' (unlines-IsText (lines h) clean)
          short)
        (λ r held. (
          held.0,
          held.1,
          held.2
              ∙ ap₂ (λ k o. read k o [] (unlines (lines h))) (omega (arith, n_is)) empty
              ∙ read-unlines n [] (lines h) clean
              ∙ again logged,
        )))
  where
    again : {xs : List Bytes} → xs ≡ add_all n [] input → add_all n [] xs ≡ xs
    again e = ap (λ l. add_all n [] l) e ∙ add_all-add_all n input ∙ sym e
