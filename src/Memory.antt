-- ===== src/Memory.antt =====
-- The C memory functions that cligen calls: malloc(3), realloc(3), memcpy(3), strlen(3) and size_t
-- arithmetic. A block is the list of its bytes, and a text is the bytes of a string without its NUL.
use cligen.Prelude.{
  ℕ, zero, suc, ◌+◌, ◌-◌, ◌%◌, ◌≤◌, ◌≡◌, ◌<◌, ◌↔◌, ◌&&◌, refl, ap, ◌∙◌, Bool, true, false, Option,
  none, some, List, [], ◌∷◌, ◌++◌, arith, length, take, drop, get_or, leb, if◌then◌else◌, ◌==◌,
  length-append, length-take, length-drop, take-append_left, take-append_right, take_all,
}

abbrev pub Bytes : Type 0
Bytes = List ℕ

-- The machine that the program runs on: which requests for `n` bytes are granted, and what the
-- byte at an offset of a fresh block happens to be.
pub record Machine : Type 0 where
  pub grants : ℕ → Bool
  pub junk : ℕ → ℕ

-- The values that a C function returns for success, 0, and for an error, -1.
pub data Status : Type 0 where
  ok failed : Status

abbrev pub int_max : ℕ
int_max = 2147483647

abbrev pub size_max : ℕ
size_max = 18446744073709551615

abbrev pub add_size : ℕ → ℕ → ℕ
add_size a b = (a + b) % 18446744073709551616

abbrev pub sub_size : ℕ → ℕ → ℕ
sub_size a b = (a + 18446744073709551616 - b) % 18446744073709551616

abbrev pub double_size : ℕ → ℕ
double_size a = (a + a) % 18446744073709551616

module _ (m : Machine) where
  pub fresh : ℕ → ℕ → Bytes
  fresh i zero = []
  fresh i (suc n) = m.junk i ∷ fresh (i + 1) n

  pub malloc : ℕ → Option Bytes
  malloc n = if m.grants n then some (fresh 0 n) else none

  -- The bytes that both blocks have stay, and the others are fresh.
  unfoldable pub realloc : Bytes → ℕ → Option Bytes
  realloc block n =
      if m.grants n then some (take n block ++ fresh (length block) (n - length block)) else none

  pub length-fresh : (i n : ℕ) → length (fresh i n) ≡ n
  unfolding fresh
  length-fresh i zero = refl
  length-fresh i (suc n) = ap suc (length-fresh (i + 1) n)

  realloc-eq-some :
      (block : Bytes) (n : ℕ) {b : Bytes}
      → realloc block n ≡ some b
      → take n block ++ fresh (length block) (n - length block) ≡ b
  unfolding realloc
  realloc-eq-some block n e = ground arith

  -- A granted realloc to no smaller a size gives a block of that size with the old bytes in front.
  pub realloc_grown :
      (block : Bytes) (n : ℕ) {b : Bytes}
      → length block ≤ n
      → realloc block n ≡ some b
      → (length b ≡ n) × ((k : ℕ) → k ≤ length block → take k b ≡ take k block)
  realloc_grown block n h e =
      rw (← realloc-eq-some block n e, take_all block n h)
        (size, λ k hk. take-append_left k block (fresh (length block) (n - length block)) hk)
    where
      size : length (block ++ fresh (length block) (n - length block)) ≡ n
      size = omega (
        arith,
        length-append block (fresh (length block) (n - length block)),
        length-fresh (length block) (n - length block),
      )

-- Bytes written at an offset, if they fit into the block.
unfoldable pub store : Bytes → ℕ → Bytes → Option Bytes
store block off bs =
    if leb (off + length bs) (length block)
    then some (take off block ++ (bs ++ drop (off + length bs) block))
    else none

-- The first `n` bytes, if the block has so many.
pub load : Bytes → ℕ → Option Bytes
load block n = if leb n (length block) then some (take n block) else none

pub load_lem : (block : Bytes) (n : ℕ) → n ≤ length block → load block n ≡ some (take n block)
unfolding load
load_lem block n h = ground arith

take_prefix : (xs ys : Bytes) → take (length xs) (xs ++ ys) ≡ xs
take_prefix xs ys =
    take-append_left (length xs) xs ys (omega arith) ∙ take_all xs (length xs) (omega arith)

-- The block that `store` makes.
module _ (block : Bytes) (off : ℕ) (bs : Bytes) (h : off + length bs ≤ length block) where
  abbrev written : Bytes
  written = take off block ++ (bs ++ drop (off + length bs) block)

  length-written : length written ≡ length block
  length-written = omega (
    arith,
    length-append (take off block) (bs ++ drop (off + length bs) block),
    length-append bs (drop (off + length bs) block),
    length-take off block,
    length-drop (off + length bs) block,
  )

  take-written : take (off + length bs) written ≡ take off block ++ bs
  take-written =
      ap (λ k. take k written) size
      ∙ take-append_right (take off block) (bs ++ drop (off + length bs) block) (length bs)
      ∙ ap (λ ys. take off block ++ ys) (take_prefix bs (drop (off + length bs) block))
    where
      size : off + length bs ≡ length (take off block) + length bs
      size = omega (arith, length-take off block)

  -- A write that fits succeeds, keeps the size, and leaves what stands before it.
  pub store_lem :
      (b : Bytes) × (store block off bs ≡ some b)
      × (length b ≡ length block)
      × (take (off + length bs) b ≡ take off block ++ bs)
  unfolding store
  store_lem = (written, ground arith, length-written, take-written)

-- Where a text and its NUL stand in front, the text is read back.
pub cut_nul :
    (b text : Bytes) (n : ℕ)
    → length text ≡ n
    → take (suc n) b ≡ text ++ (0 ∷ [])
    → (take n b ≡ text) × (get_or b n 1 ≡ 0)
cut_nul [] [] zero e h = ground arith
cut_nul (y ∷ b) [] zero e h = ground arith
cut_nul b (x ∷ text) zero e h = absurd (omega arith)
cut_nul b [] (suc n) e h = absurd (omega arith)
cut_nul [] (x ∷ text) (suc n) e h = ground arith
cut_nul (y ∷ b) (x ∷ text) (suc n) e h = ground (arith, cut_nul b text n)

-- What a C function reads as the string at an address: the bytes before the first NUL.
unfoldable pub cstring : Bytes → Bytes
cstring [] = []
cstring (c ∷ cs) = if c == 0 then [] else c ∷ cstring cs

pub realloc_refused :
    (m : Machine) (block : Bytes) (n : ℕ) → m.grants n ≡ false → realloc m block n ≡ none
unfolding realloc
realloc_refused m block n h = ground arith

pub realloc_granted :
    (m : Machine) (block : Bytes) (n : ℕ)
    → m.grants n ≡ true
    → (b : Bytes) × (realloc m block n ≡ some b)
unfolding realloc
realloc_granted m block n h =
    (take n block ++ fresh m (length block) (n - length block), ground arith)

pub store_overrun :
    (block : Bytes) (off : ℕ) (bs : Bytes)
    → length block < off + length bs
    → store block off bs ≡ none
unfolding store
store_overrun block off bs h = ground arith

-- strcmp(3) and strncmp(3), where they are compared with 0.
unfoldable pub eq_bytes : Bytes → Bytes → Bool
eq_bytes [] [] = true
eq_bytes (x ∷ xs) (y ∷ ys) = x == y && eq_bytes xs ys
eq_bytes _ _ = false

eq_bytes_iff : (xs ys : Bytes) → (eq_bytes xs ys ≡ true) ↔ (xs ≡ ys)
unfolding eq_bytes
eq_bytes_iff [] [] = ground arith
eq_bytes_iff [] (y ∷ ys) = ground arith
eq_bytes_iff (x ∷ xs) [] = ground arith
eq_bytes_iff (x ∷ xs) (y ∷ ys) = ground (arith, eq_bytes_iff xs ys)

-- The bytes of a C string, which are not NUL.
abbrev pub IsText : Bytes → Type 0
IsText [] = Unit
IsText (c ∷ cs) = (0 < c) × (c < 256) × IsText cs

pub IsText-append : (xs ys : Bytes) → IsText xs → IsText ys → IsText (xs ++ ys)
IsText-append [] ys hx hy = hy
IsText-append (c ∷ xs) ys hx hy = (hx.0, hx.1, IsText-append xs ys hx.2 hy)

-- The string at an address, where a text of `n` bytes and a NUL stand.
pub cstring-take : (b : Bytes) (n : ℕ) → IsText (take n b) → get_or b n 1 ≡ 0 → cstring b ≡ take n b
unfolding cstring
cstring-take [] zero t e = refl
cstring-take (x ∷ b) zero t e = ground arith
cstring-take [] (suc n) t e = refl
cstring-take (x ∷ b) (suc n) t e = ground (arith, cstring-take b n t.2 e)

pub malloc_granted : (m : Machine) (n : ℕ) → m.grants n ≡ true → malloc m n ≡ some (fresh m 0 n)
unfolding malloc
malloc_granted m n h = ground arith
