-- ===== src/Edit/Text.antt =====
-- The line as a text with a cursor in it, and what the keys do to it.
use cligen.Prelude.{
  ap, ℕ, zero, suc, ◌+◌, ◌-◌, ◌≤◌, ◌<◌, ◌≡◌, arith, Bool, ◌&&◌, not, [], ◌∷◌, ◌++◌, ◌==◌, ltb,
  length, length-append, length-take, length-drop, get_or, set, min, take, drop, if◌then◌else◌,
}
use cligen.Memory.{Bytes, IsText}
use cligen.Cv.Number.{is_space}
use cligen.Edit.Press.{
  Key, char, ctrl_a, ctrl_b, ctrl_d, ctrl_e, ctrl_f, ctrl_h, ctrl_k, ctrl_o, ctrl_t, ctrl_u, ctrl_w,
  ctrl_y, meta_b, meta_f,
}

pub record Line : Type 0 where
  pub text : Bytes
  pub cursor : ℕ
  pub over : Bool
  pub killed : Bytes

abbrev pub put : ℕ → ℕ → Bytes → Bytes
put i c t = take i t ++ c ∷ drop i t

abbrev pub remove : ℕ → Bytes → Bytes
remove i t = take i t ++ drop (suc i) t

-- The bytes before and under the cursor change places.
abbrev pub swapped : ℕ → Bytes → Bytes
swapped i t = set (set t (i - 1) (get_or t i 0)) i (get_or t (i - 1) 0)

-- The first byte on the left, or on the right, of a place that fails a test, or the end.
unfoldable pub back_while : (ℕ → Bool) → ℕ → Bytes → ℕ
back_while test zero t = 0
back_while test (suc n) t = if test (get_or t (suc n) 0) then back_while test n t else suc n

unfoldable pub ahead_while : (ℕ → Bool) → ℕ → ℕ → Bytes → ℕ
ahead_while test zero i t = i
ahead_while test (suc n) i t = if test (get_or t i 0) then ahead_while test n (i + 1) t else i

-- Over the blanks, then over the word, and to its first byte.
abbrev pub onto_word : ℕ → Bytes → ℕ
onto_word i t = if ltb i (length t) && is_space (get_or t i 0) then i + 1 else i

abbrev pub word_back : ℕ → Bytes → ℕ
word_back i t = onto_word (back_while (λ c. not (is_space c)) (back_while is_space (i - 1) t) t) t

abbrev pub behind_word : ℕ → Bytes → ℕ
behind_word i t = ahead_while (λ c. not (is_space c)) (length t - i) i t

abbrev pub word_ahead : ℕ → Bytes → ℕ
word_ahead i t = ahead_while is_space (length t - behind_word i t) (behind_word i t) t

-- Without the bytes from one place to another, and with a text instead of them.
abbrev pub cut : ℕ → ℕ → Bytes → Bytes
cut i j t = take i t ++ drop j t

abbrev pub paste : ℕ → ℕ → Bytes → Bytes → Bytes
paste i j ks t = take i t ++ (ks ++ drop j t)

-- What a key does to a line whose cursor lies in it, as the code has it: ^W and ESC-b stop behind a
-- blank in the first place.
unfoldable pub typed : Line → Key → Line
typed l (char c) =
    if l.over && ltb l.cursor (length l.text)
    then record l { text = set l.text l.cursor c; cursor = l.cursor + 1 }
    else record l { text = put l.cursor c l.text; cursor = l.cursor + 1 }
typed l ctrl_a = record l { cursor = 0 }
typed l ctrl_b = record l { cursor = l.cursor - 1 }
typed l ctrl_d =
    if ltb l.cursor (length l.text) then record l { text = remove l.cursor l.text } else l
typed l ctrl_e = record l { cursor = length l.text }
typed l ctrl_f = record l { cursor = min (l.cursor + 1) (length l.text) }
typed l ctrl_h =
    if ltb 0 l.cursor
    then record l { text = remove (l.cursor - 1) l.text; cursor = l.cursor - 1 }
    else l
typed l ctrl_k =
    if ltb l.cursor (length l.text)
    then record l { text = take l.cursor l.text; killed = drop l.cursor l.text }
    else l
typed l ctrl_o = record l { over = not l.over }
typed l ctrl_t =
    if ltb 0 l.cursor && ltb l.cursor (length l.text)
    then record l { text = swapped l.cursor l.text }
    else l
typed l ctrl_u =
    if ltb 0 l.cursor
    then record l { text = drop l.cursor l.text; cursor = 0; killed = take l.cursor l.text }
    else l
typed l ctrl_w =
    if ltb 0 l.cursor
    then record l {
      text = cut (word_back l.cursor l.text) l.cursor l.text;
      cursor = word_back l.cursor l.text;
      killed =
          take (l.cursor - word_back l.cursor l.text) (drop (word_back l.cursor l.text) l.text);
    }
    else l
typed l ctrl_y = record l {
  text = paste l.cursor (if l.over then l.cursor + length l.killed else l.cursor) l.killed l.text;
  cursor = l.cursor + length l.killed;
}
typed l meta_b = record l { cursor = word_back l.cursor l.text }
typed l meta_f = record l { cursor = word_ahead l.cursor l.text }

-- The bytes of such texts.
pub get_or-put :
    (i c : ℕ) (t : Bytes) (j : ℕ)
    → i ≤ length t
    → get_or (put i c t) j 0
      ≡ (if ltb j i then get_or t j 0 else if j == i then c else get_or t (j - 1) 0)
get_or-put zero c t zero h = ground arith
get_or-put zero c t (suc j) h = ground arith
get_or-put (suc i) c [] j h = absurd (omega arith)
get_or-put (suc i) c (x ∷ t) zero h = ground arith
get_or-put (suc i) c (x ∷ t) (suc zero) h = ground (arith, get_or-put i c t zero)
get_or-put (suc i) c (x ∷ t) (suc (suc j)) h = ground (arith, get_or-put i c t (suc j))

pub get_or-remove :
    (i : ℕ) (t : Bytes) (j : ℕ)
    → i < length t
    → get_or (remove i t) j 0 ≡ (if ltb j i then get_or t j 0 else get_or t (j + 1) 0)
get_or-remove i [] j h = absurd (omega arith)
get_or-remove zero (x ∷ t) j h = ground arith
get_or-remove (suc i) (x ∷ t) zero h = ground arith
get_or-remove (suc i) (x ∷ t) (suc j) h = ground (arith, get_or-remove i t j)

pub get_or-take :
    (i : ℕ) (t : Bytes) (j : ℕ) → get_or (take i t) j 0 ≡ (if ltb j i then get_or t j 0 else 0)
get_or-take zero t j = ground arith
get_or-take (suc i) [] j = ground arith
get_or-take (suc i) (x ∷ t) zero = ground arith
get_or-take (suc i) (x ∷ t) (suc j) = ground (arith, get_or-take i t j)

pub length-put : (i c : ℕ) (t : Bytes) → i ≤ length t → length (put i c t) ≡ length t + 1
length-put i c t h =
    omega (arith, length-append (take i t) (c ∷ drop i t), length-take i t, length-drop i t)

pub length-remove : (i : ℕ) (t : Bytes) → i < length t → length (remove i t) + 1 ≡ length t
length-remove i t h =
    omega (arith, length-append (take i t) (drop (suc i) t), length-take i t, length-drop (suc i) t)

pub IsText-take : (i : ℕ) (t : Bytes) → IsText t → IsText (take i t)
IsText-take zero t h = tt
IsText-take (suc i) [] h = tt
IsText-take (suc i) (x ∷ t) h = (h.0, h.1, IsText-take i t h.2)

pub IsText-drop : (i : ℕ) (t : Bytes) → IsText t → IsText (drop i t)
IsText-drop zero t h = h
IsText-drop (suc i) [] h = tt
IsText-drop (suc i) (x ∷ t) h = IsText-drop i t h.2

pub IsText-set : (t : Bytes) (i c : ℕ) → 0 < c → c < 256 → IsText t → IsText (set t i c)
IsText-set [] i c p q h = tt
IsText-set (x ∷ t) zero c p q h = (p, q, h.2)
IsText-set (x ∷ t) (suc i) c p q h = (h.0, h.1, IsText-set t i c p q h.2)

-- A byte of a text is no NUL.
pub get_or-IsText :
    (t : Bytes) (i : ℕ) → IsText t → i < length t → (0 < get_or t i 0) × (get_or t i 0 < 256)
get_or-IsText [] i h k = absurd (omega arith)
get_or-IsText (x ∷ t) zero h k = (h.0, h.1)
get_or-IsText (x ∷ t) (suc i) h k = get_or-IsText t i h.2 (omega arith)

-- The bytes of two texts side by side.
pub get_or-append :
    (xs ys : Bytes) (j d : ℕ)
    → get_or (xs ++ ys) j d
      ≡ (if ltb j (length xs) then get_or xs j d else get_or ys (j - length xs) d)
get_or-append [] ys j d =
    ground (arith, ap (λ k. get_or ys k d) (let same : j - 0 ≡ j = omega arith in same))
get_or-append (x ∷ xs) ys zero d = ground arith
get_or-append (x ∷ xs) ys (suc j) d = ground (arith, get_or-append xs ys j d)
