-- ===== src/Edit/Grow.antt =====
-- `cligen_buf_increase` below the editor, and `gl_addchar`.
use cligen.Prelude.{
  ℕ, suc, ◌+◌, ◌-◌, ◌≤◌, ◌<◌, ◌≡◌, refl, subst, ◌∙◌, arith, some, ◌++◌, leb, length, length-append,
  length-replicate, take, take_all, replicate, returns, fault, diverges, Outcome, Returns,
  Returns-bind, Bool-cases, inl, inr, ◌>>=◌,
}
use cligen.Memory.{
  Bytes, Machine, Status, ok, failed, add_size, realloc_granted, realloc_refused, realloc_grown,
}
use cligen.History.{Hist, buf_increase, increase_to, grow_buf}
use cligen.History.Enlarge.{Refusal, half_max, Between, increase_to-Returns}
use cligen.Edit.{Editor, addchar, put_char}
use cligen.Edit.Press.{done, char}
use cligen.Edit.Block.{Holds-append}
use cligen.Edit.Text.{Line, typed}
use cligen.Edit.Keys.{Shows}
use cligen.Edit.Writes.{put_char-Shows}

-- A call is done on the line, unless the allocator has refused a request.
abbrev pub Types : Machine → Line → Status × Editor → Type 0
Types m l (ok, e) = Shows e l
Types m l (failed, e) = Refusal m

-- The buffer has room for `need` bytes and a NUL, and shows the same line.
abbrev pub Grown : Machine → Editor → Line → ℕ → Status × Hist → Type 0
Grown m e l need (ok, h) = Shows (record e { handle = h }) l × (need < h.bufsize)
Grown m e l need (failed, h) = Refusal m

grow_buf-Grown :
    (m : Machine) (e : Editor) (l : Line) (need n : ℕ)
    → Shows e l
    → need < n
    → e.handle.bufsize ≤ n
    → Returns (grow_buf m e.handle n) (Grown m e l need)
unfolding grow_buf
grow_buf-Grown m e l need n s room le = elim (Bool-cases (m.grants n)) [
  | inl given ↦
      let (b, made) = realloc_granted m s.block n given in
      let (size, kept) = realloc_grown m s.block n (omega (arith, s.sized)) made in
      let old : take e.handle.bufsize b ≡ s.block =
        subst (λ k. take k b ≡ s.block) s.sized
          (kept (length s.block) (omega arith) ∙ take_all s.block (length s.block) (omega arith)) in
      rw (s.is_buf, made, old, Returns) (shown, room)
  | inr refused ↦ rw (s.is_buf, realloc_refused m s.block n refused, Returns) (n, refused)
]
  where
    zeros : Bytes
    zeros = replicate (n - e.handle.bufsize) 0

    shown :
        Shows
          (record e { handle = record e.handle { buf = some (s.block ++ zeros); bufsize = n } })
          l
    shown = record {
      block = s.block ++ zeros;
      is_buf = refl;
      sized = omega (
        arith,
        s.sized,
        le,
        length-append s.block zeros,
        length-replicate {A = ℕ} (n - e.handle.bufsize) 0,
      );
      holds = Holds-append s.block zeros l.text s.holds;
      is_text = s.is_text;
      at_cursor = s.at_cursor;
      counted = s.counted;
      inside = s.inside;
      same_mode = s.same_mode;
      same_kill = s.same_kill;
      kill_text = s.kill_text;
    }

buf_increase-Grown :
    (m : Machine) (e : Editor) (l : Line) (need : ℕ)
    → Shows e l
    → need < half_max
    → Returns (buf_increase m e.handle need) (Grown m e l need)
unfolding buf_increase
buf_increase-Grown m e l need s small = elim (Bool-cases (leb (need + 1) e.handle.bufsize)) [
  | inl fits ↦ rw (exact, fits, Returns) (s, ground (arith, fits))
  | inr short ↦
      rw (exact, short)
        (Returns-bind (increase_to (suc (need + 1)) (need + 1) e.handle.bufsize)
          (grow_buf m e.handle) (Between (need + 1) e.handle.bufsize) (Grown m e l need)
          (increase_to-Returns (need + 1) (need + 1) e.handle.bufsize
            (omega (arith, s.sized, s.holds.0)) (omega arith) (omega arith))
          (λ n b. grow_buf-Grown m e l need n s (omega arith) b.1))
]
  where
    exact : add_size need 1 ≡ need + 1
    exact = omega arith

-- A function that never fails is a call that is done.
pub done-Types :
    (m : Machine) (l : Line) (o : Outcome Editor)
    → Returns o (λ e. Shows e l)
    → Returns (done o) (Types m l)
done-Types m l (returns e) h = h
done-Types m l fault h = absurd h
done-Types m l diverges h = absurd h

-- A function that runs behind `cligen_buf_increase`.
abbrev pub after_increase :
    Machine → Editor → ℕ → (Editor → Outcome Editor) → Outcome (Status × Editor)
after_increase m e need f = buf_increase m e.handle need >>= λ r. elim r.0 [
  | failed ↦ returns (failed, record e { handle = r.1 })
  | ok ↦ f (record e { handle = r.1 }) >>= λ e2. returns (ok, e2)
]

pub after_increase-Types :
    (m : Machine) (e : Editor) (l l' : Line) (need : ℕ) (f : Editor → Outcome Editor)
    → Shows e l
    → need < half_max
    → ((h : Hist)
        → Shows (record e { handle = h }) l
        → need < h.bufsize
        → Returns (f (record e { handle = h })) (λ e'. Shows e' l'))
    → Returns (after_increase m e need f) (Types m l')
after_increase-Types m e l l' need f s small run =
    Returns-bind (buf_increase m e.handle need)
      (λ r. elim r.0 [
        | failed ↦ returns (failed, record e { handle = r.1 })
        | ok ↦ f (record e { handle = r.1 }) >>= λ e2. returns (ok, e2)
      ])
      (Grown m e l need) (Types m l') (buf_increase-Grown m e l need s small) go
  where
    go :
        (r : Status × Hist)
        → Grown m e l need r
        → Returns
            (elim r.0 [
              | failed ↦ returns (failed, record e { handle = r.1 })
              | ok ↦ f (record e { handle = r.1 }) >>= λ e2. returns (ok, e2)
            ])
            (Types m l')
    go (ok, h) g = done-Types m l' (f (record e { handle = h })) (run h g.0 g.1)
    go (failed, h) g = g

pub addchar-Types :
    (m : Machine) (e : Editor) (l : Line) (c : ℕ)
    → Shows e l
    → length l.text + 1 < half_max
    → 0 < c
    → c < 256
    → Returns (addchar m e c) (Types m (typed l (char c)))
unfolding addchar
addchar-Types m e l c s small p q =
    after_increase-Types m e l (typed l (char c)) (e.gl_cnt + 1) (λ e'. put_char e' c) s
      (omega (arith, s.counted))
      (λ h s' room.
        put_char-Shows (record e { handle = h }) l c s' (omega (arith, s'.sized, s.counted)) p q)
