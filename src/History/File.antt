-- ===== src/History/File.antt =====
-- `cligen_hist_file_load`: the file's bytes go through a `cbuf` into `hist_add`.
use cligen.Prelude.{none, some, [], ◌∷◌, ◌==◌, if◌then◌else◌, Outcome, returns, ◌>>=◌}
use cligen.Memory.{Bytes, Machine, Status, ok, failed}
use cligen.Buf
use cligen.Buf.{Sizes, Cbuf}
use cligen.History.{Hist, add}

-- `file` holds what fgetc(3) has still to return.
unfoldable pub load_from : Sizes → Machine → Cbuf → Hist → Bytes → Outcome (Status × Hist)
load_from s m cb h [] = returns (ok, h)
load_from s m cb h (c ∷ cs) =
    if c == b'\n'
    then (add m h (Buf.get cb) >>= λ r. elim r.0 [
      | ok ↦ Buf.reset cb >>= λ cb'. load_from s m cb' r.1 cs
      | failed ↦ returns r
    ])
    else (Buf.append s m cb c >>= λ r. elim r.0 [
      | ok ↦ load_from s m r.1 h cs
      | failed ↦ returns (failed, h)
    ])

unfoldable pub file_load : Sizes → Machine → Hist → Bytes → Outcome (Status × Hist)
file_load s m h file = elim (Buf.new s m) [
  | none ↦ returns (failed, h)
  | some cb ↦ load_from s m cb h file
]
