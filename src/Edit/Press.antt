-- ===== src/Edit/Press.antt =====
-- The keys of `gl_getline` in cligen_getline.c that edit the line, and what it calls for each, with no
-- hook for `?` and TAB, no exit characters but those that its switch has, and outside of a search.
use cligen.Prelude.{
  ℕ, Bool, true, false, not, ◌&&◌, ◌||◌, ◌==◌, leb, ltb, List, [], ◌∷◌, Outcome, returns, ◌>>=◌,
  if◌then◌else◌,
}
use cligen.Memory.{Machine, Status, ok, failed}
use cligen.Edit.{
  Editor, ring, addchar, put_char, del_left, del_here, kill, kill_begin, transpose, back, forward,
  home, to_end, toggle, fixup,
}
use cligen.Edit.Words.{word_left, word_right, kill_word, yank}

-- `char` is a byte that has no other key, `meta_b` and `meta_f` are the escape sequences of words.
pub data Key : Type 0 where
  char : ℕ → Key
  ctrl_a ctrl_b ctrl_d ctrl_e ctrl_f ctrl_h ctrl_k ctrl_o ctrl_t ctrl_u ctrl_w ctrl_y meta_b
        meta_f :
      Key

abbrev pub done : Outcome Editor → Outcome (Status × Editor)
done o = o >>= λ e. returns (ok, e)

-- isprint(3) in the C locale.
abbrev pub is_print : ℕ → Bool
is_print c = leb 32 c && ltb c 127

-- The bytes that are characters of the line: a newline is one behind a backslash.
abbrev pub is_char : Bool → ℕ → Bool
is_char escape c = is_print c || (escape && c == b'\n')

-- A backslash with `escape` not set sets it, and does nothing else.
unfoldable pub opens : Bool → Key → Bool
opens escape (char c) = not escape && c == b'\\'
opens escape _ = false

-- A key that does not open an escape. ^D in an empty line ends the input, as a newline that is not
-- escaped does: these are no keys that edit. A `char` that is no character of the line, being a
-- control byte without a case of its own, rings the bell; TAB, the keys of the history and of a
-- search, and the bytes of UTF-8, which have cases, are no keys here.
unfoldable pub press : Machine → Bool → Editor → Key → Outcome (Status × Editor)
unfolding addchar put_char del_left del_here kill kill_begin transpose back forward home to_end
    fixup
press m escape e (char c) = if is_char escape c then addchar m e c else returns (ok, ring e)
press m escape e ctrl_a = done (home e)
press m escape e ctrl_b = done (back e)
press m escape e ctrl_d = done (del_here e)
press m escape e ctrl_e = done (to_end e)
press m escape e ctrl_f = done (forward e)
press m escape e ctrl_h = done (del_left e)
press m escape e ctrl_k = done (kill e)
press m escape e ctrl_o = returns (ok, toggle e)
press m escape e ctrl_t = done (transpose e)
press m escape e ctrl_u = done (kill_begin e)
press m escape e ctrl_w = done (kill_word e)
press m escape e ctrl_y = yank m e
press m escape e meta_b = done (word_left e)
press m escape e meta_f = done (word_right e)

-- The loop over the keys, with `escape`, which any key but an opening backslash resets.
unfoldable pub presses : Machine → Bool → Editor → List Key → Outcome (Status × Editor)
presses m escape e [] = returns (ok, e)
presses m escape e (k ∷ ks) = elim (opens escape k) [
  | true ↦ presses m true e ks
  | false ↦
      press m escape e k >>= λ r. elim r.0 [ ok ↦ presses m false r.1 ks | failed ↦ returns r ]
]
