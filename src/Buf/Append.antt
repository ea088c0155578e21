-- ===== src/Buf/Append.antt =====
-- What each append of cligen_buf.c does on every branch.
use cligen.Prelude.{
  ◌==◌, false, ℕ, suc, ◌+◌, ◌-◌, ◌≤◌, ◌<◌, ◌≡◌, ap, ◌∙◌, within, ◌>>=◌, sym, arith, Option, none,
  some, [], ◌∷◌, ◌++◌, length, take, length-append, length-take, returns, Returns, Returns-bind,
  append_assoc, take_all,
}
use cligen.Memory.{
  Bytes, Machine, Status, ok, failed, size_max, add_size, sub_size, store, store_lem, load_lem,
  cut_nul, load,
}
use cligen.Buf.{Sizes, Cbuf, print_text, append_str, append_buf, cprintf}
use cligen.Buf.Valid.{
  IsValid, contents, length-contents, SameText, SameText-mono, HasRoom, reserve-Returns,
}

-- What an append of a text is to do: all of it and the invariant, or an error and the old string.
abbrev pub Appended : Sizes → Machine → Cbuf → Bytes → Status × Cbuf → Type 0
Appended s m cb text (ok, cb') = IsValid cb' × (contents cb' ≡ contents cb ++ text)
Appended s m cb text (failed, cb') = SameText s m (cb.strlen + cb.strlen + length text + 2) cb cb'

-- A block of the same size, with the string, the text and a NUL in front.
finished-Appended :
    (s : Sizes) (m : Machine) (cb c : Cbuf) (sz : ℕ) (text b : Bytes) (n : ℕ)
    → IsValid cb
    → HasRoom cb sz c
    → length text ≤ sz
    → n ≡ cb.strlen + length text
    → length b ≡ length c.buffer
    → take (suc n) b ≡ (contents cb ++ text) ++ (0 ∷ [])
    → Appended s m cb text (ok, record c { buffer = b; strlen = n })
finished-Appended s m cb c sz text b n v r le n_is size front =
    let (text_is, nul) =
      cut_nul b (contents cb ++ text) n
        (omega (arith, length-append (contents cb) text, length-contents v)) front in
    (
      record {
        allocated = size ∙ r.allocated;
        room = omega arith;
        small = r.small;
        terminated = nul;
      },
      text_is,
    )

-- A text and a NUL written behind the string, where there is room for them.
written-Appended :
    (s : Sizes) (m : Machine) (cb c : Cbuf) (sz : ℕ) (text : Bytes) (n : ℕ)
    → IsValid cb
    → HasRoom cb sz c
    → length text ≤ sz
    → n ≡ cb.strlen + length text
    → Returns
        (within (store c.buffer c.strlen (text ++ (0 ∷ []))) >>= λ b.
          returns (ok, record c { buffer = b; strlen = n }))
        (Appended s m cb text)
written-Appended s m cb c sz text n v r le n_is =
    let (b, e, size, front) = store_lem c.buffer c.strlen (text ++ (0 ∷ [])) fits in
    rw (e, Returns) (finished-Appended s m cb c sz text b n v r le n_is size (front_is b front))
  where
    fits : c.strlen + length (text ++ (0 ∷ [])) ≤ length c.buffer
    fits = omega (arith, length-append text (0 ∷ []))

    front_is :
        (b : Bytes)
        → take (c.strlen + length (text ++ (0 ∷ []))) b
          ≡ take c.strlen c.buffer ++ (text ++ (0 ∷ []))
        → take (suc n) b ≡ (contents cb ++ text) ++ (0 ∷ [])
    front_is b front =
        ap (λ k. take k b) size
        ∙ front
        ∙ ap (λ k. take k c.buffer ++ (text ++ (0 ∷ []))) r.same_strlen
        ∙ ap (λ t. t ++ (text ++ (0 ∷ []))) r.same_text
        ∙ sym (append_assoc (contents cb) text (0 ∷ []))
      where
        size : suc n ≡ c.strlen + length (text ++ (0 ∷ []))
        size = omega (arith, length-append text (0 ∷ []))

-- Total correctness of `cbuf_append_str`: from a valid buffer it returns, where the lengths of both
-- strings together, and the threshold, are sizes; it has either appended the whole string and kept
-- the invariant, or failed and left the string as it was, because memory was refused or a size is
-- 2 ^ 62 or more.
pub append_str-Appended :
    (s : Sizes) (m : Machine) (cb : Cbuf) (str : Bytes)
    → IsValid cb
    → cb.strlen + length str ≤ size_max
    → s.threshold ≤ size_max
    → Returns (append_str s m cb (some str)) (Appended s m cb str)
unfolding append_str
append_str-Appended s m cb str v h t =
    reserve-Returns s m cb (add_size cb.strlen (length str)) _ (Appended s m cb str) v (omega arith)
      t
      (λ c r.
        written-Appended s m cb c _ str (add_size cb.strlen (length str)) v r (omega arith)
          (omega arith))
      (λ c e. SameText-mono s m _ _ cb c (omega arith) e)

print_text-Appended :
    (s : Sizes) (m : Machine) (cb c : Cbuf) (text : Bytes)
    → IsValid cb
    → HasRoom cb (length text) c
    → cb.strlen + length text ≤ size_max
    → Returns (print_text text c) (Appended s m cb text)
unfolding print_text
print_text-Appended s m cb c text v r h =
    rw (some_room, whole)
      (written-Appended s m cb c (length text) text (add_size c.strlen (length text)) v r
        (omega arith) (omega arith))
  where
    some_room : (sub_size c.buflen c.strlen == 0) ≡ false
    some_room = ground arith

    whole : take (sub_size c.buflen c.strlen - 1) text ≡ text
    whole = take_all text (sub_size c.buflen c.strlen - 1) (omega arith)

-- `cprintf` appends the formatted text, as `cbuf_append_str` does a string.
abbrev pub AppendedTo : Sizes → Machine → Cbuf → Bytes → Status × Option Cbuf → Type 0
AppendedTo s m cb text (status, none) = ⊥
AppendedTo s m cb text (status, some cb') = Appended s m cb text (status, cb')

-- Total correctness of `cprintf`: with a format that vsnprintf(3) accepts, from a valid buffer it
-- returns, where the lengths of string and text together, and the threshold, are sizes; it has
-- either appended the whole text and kept the invariant, or failed and left the string as it was,
-- because memory was refused or a size is 2 ^ 62 or more.
pub cprintf-Appended :
    (s : Sizes) (m : Machine) (cb : Cbuf) (text : Bytes)
    → IsValid cb
    → cb.strlen + length text ≤ size_max
    → s.threshold ≤ size_max
    → Returns (cprintf s m (some cb) (some text)) (AppendedTo s m cb text)
unfolding cprintf
cprintf-Appended s m cb text v h t =
    Returns-bind _ _ (Appended s m cb text) (AppendedTo s m cb text)
      (reserve-Returns s m cb (length text) (print_text text) (Appended s m cb text) v (omega arith)
        t (λ c r. print_text-Appended s m cb c text v r h)
        (λ c e. SameText-mono s m _ _ cb c (omega arith) e))
      (λ r h. h)

add-one : (n : ℕ) → suc n ≡ n + 1
add-one n = omega arith

-- Total correctness of `cbuf_append_buf`: given a source block of at least `n` bytes it returns
-- from a valid buffer, where the length with `n` is less than SIZE_MAX and the threshold is a size;
-- it has either appended the first `n` bytes and kept the invariant, or failed and left the string
-- as it was, because memory was refused or a size is 2 ^ 62 or more.
pub append_buf-Appended :
    (s : Sizes) (m : Machine) (cb : Cbuf) (src : Bytes) (n : ℕ)
    → IsValid cb
    → n ≤ length src
    → cb.strlen + n < size_max
    → s.threshold ≤ size_max
    → Returns (append_buf s m cb (some src) n) (Appended s m cb (take n src))
unfolding append_buf
append_buf-Appended s m cb src n v le h t =
    reserve-Returns s m cb (add_size (add_size cb.strlen n) 1) _ (Appended s m cb (take n src)) v
      (omega arith) t good (λ c e. SameText-mono s m _ _ cb c (omega (arith, count)) e)
  where
    bytes : Bytes
    bytes = take n src

    count : length bytes ≡ n
    count = omega (arith, length-take n src)

    end_is : add_size cb.strlen n ≡ cb.strlen + length bytes
    end_is = omega (arith, count)

    loaded : load src n ≡ some bytes
    loaded = load_lem src n le

    good :
        (c : Cbuf)
        → HasRoom cb (add_size (add_size cb.strlen n) 1) c
        → Returns
            (within (load src n) >>= λ bytes. within (store c.buffer cb.strlen bytes) >>= λ b.
              within (store b (add_size cb.strlen n) (0 ∷ [])) >>= λ b'.
              returns (ok, record c { buffer = b'; strlen = add_size cb.strlen n }))
            (Appended s m cb bytes)
    good c r =
        let (b, e, size, front) = store_lem c.buffer cb.strlen bytes (omega (arith, count)) in
        let (b', e', size', front') = store_lem b (add_size cb.strlen n) (0 ∷ []) (omega arith) in
        rw (loaded, e, e', Returns)
          (finished-Appended s m cb c _ bytes b' (add_size cb.strlen n) v r (omega (arith, count))
            (omega (arith, count)) (size' ∙ size)
            (ap (λ k. take k b') (add-one (add_size cb.strlen n))
              ∙ front'
              ∙ ap (λ t. t ++ (0 ∷ []))
                  (ap (λ k. take k b) end_is ∙ front ∙ ap (λ t. t ++ bytes) r.same_text)))
