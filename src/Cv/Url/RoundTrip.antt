-- ===== src/Cv/Url/RoundTrip.antt =====
-- Printing a URL and parsing the text; a `@` in the path.
use cligen.Prelude.{
  ℕ, ◌+◌, ◌≡◌, refl, ap, ◌∙◌, sym, arith, true, false, ◌||◌, not, none, some, [], ◌∷◌, ◌++◌, ◌==◌,
  length, append_assoc, if◌then◌else◌,
}
use cligen.Memory.{Bytes, Machine}
use cligen.Cv.{parsed, dup}
use cligen.Cv.Url.{Url, break_at, user_field, address, after_proto, parse_url, print_url, is_empty}

-- The byte does not occur.
abbrev pub Free : ℕ → Bytes → Type 0
Free c [] = Unit
Free c (x ∷ s) = ((x == c) ≡ false) × Free c s

pub Free-append : (c : ℕ) (a b : Bytes) → Free c a → Free c b → Free c (a ++ b)
Free-append c [] b fa fb = fb
Free-append c (x ∷ a) b fa fb = (fa.0, Free-append c a b fa.1 fb)

pub break_at-first : (c : ℕ) (a b : Bytes) → Free c a → break_at c (a ++ (c ∷ b)) ≡ some (a, b)
unfolding break_at
break_at-first c [] b f = ground arith
break_at-first c (x ∷ a) b f = rw (f.0, break_at-first c a b f.1) refl

break_at-none : (c : ℕ) (a : Bytes) → Free c a → break_at c a ≡ none
unfolding break_at
break_at-none c [] f = refl
break_at-none c (x ∷ a) f = rw (f.0, break_at-none c a f.1) refl

-- What the parser needs of the parts, to find where they end.
pub record IsUrl (u : Url) : Type 0 where
  pub proto_colon : Free b':' u.proto
  pub user_colon : Free b':' u.user
  pub user_at : Free b'@' u.user
  pub passwd_at : Free b'@' u.passwd
  pub addr_at : Free b'@' u.addr
  pub addr_slash : Free b'/' u.addr
  pub path_at : Free b'@' u.path

module _ (m : Machine) (given : (n : ℕ) → m.grants n ≡ true) where
  dup_given : (s : Bytes) → dup m s ≡ parsed s
  dup_given s = rw (given (length s + 1)) refl

  address-slash :
      (addr path : Bytes)
      → Free b'/' addr
      → address m (addr ++ (b'/' ∷ path)) (break_at b'/' (addr ++ (b'/' ∷ path)))
        ≡ parsed (addr, path)
  address-slash addr path f =
      rw (break_at-first b'/' addr path f, given (length addr + 1), given (length path + 1)) refl

  -- A login, with or without a password, and the `@`.
  user-passwd :
      (user passwd rest : Bytes)
      → Free b':' user
      → Free b'@' user
      → Free b'@' passwd
      → user_field m
          (user ++ (b':' ∷ (passwd ++ (b'@' ∷ rest))))
          (break_at b'@' (user ++ (b':' ∷ (passwd ++ (b'@' ∷ rest)))))
        ≡ parsed (user, passwd, rest)
  user-passwd user passwd rest uc ua pa =
      rw
        (
          ap (break_at b'@') (sym (append_assoc user (b':' ∷ passwd) (b'@' ∷ rest)))
              ∙ break_at-first b'@' (user ++ (b':' ∷ passwd)) rest
                  (Free-append b'@' user (b':' ∷ passwd) ua (refl, pa)),
          break_at-first b':' user passwd uc,
          given (length passwd + 1),
          given (length user + 1),
        )
        refl

  user-alone :
      (user rest : Bytes)
      → Free b':' user
      → Free b'@' user
      → user_field m (user ++ (b'@' ∷ rest)) (break_at b'@' (user ++ (b'@' ∷ rest)))
        ≡ parsed (user, [], rest)
  user-alone user rest uc ua =
      rw
        (
          break_at-first b'@' user rest ua,
          break_at-none b':' user uc,
          given (0 + 1),
          given (length user + 1),
        )
        refl

  no-user :
      (rest : Bytes)
      → Free b'@' rest
      → user_field m rest (break_at b'@' rest) ≡ parsed ([], [], rest)
  no-user rest f = rw (break_at-none b'@' rest f, given (0 + 1)) refl

  -- The three shapes of a login.
  user_field-print :
      (user passwd rest : Bytes)
      → Free b':' user
      → Free b'@' user
      → Free b'@' passwd
      → Free b'@' rest
      → let text =
          user
          ++ ((if is_empty passwd then [] else b':' ∷ [])
              ++ (passwd
                  ++ ((if not (is_empty user) || not (is_empty passwd) then b'@' ∷ [] else [])
                      ++ rest))) in
        user_field m text (break_at b'@' text) ≡ parsed (user, passwd, rest)
  user_field-print [] [] rest uc ua pa ra = no-user rest ra
  user_field-print (c ∷ user) [] rest uc ua pa ra = user-alone (c ∷ user) rest uc ua
  user_field-print [] (d ∷ passwd) rest uc ua pa ra = user-passwd [] (d ∷ passwd) rest uc ua pa
  user_field-print (c ∷ user) (d ∷ passwd) rest uc ua pa ra =
      user-passwd (c ∷ user) (d ∷ passwd) rest uc ua pa

  -- While memory is granted, a URL is parsed from the text that is printed of it, if its protocol and
  -- its user have no `:`, its user, password, address and path no `@`, and its address no `/`.
  pub parse_url-print_url : (u : Url) → IsUrl u → parse_url m (print_url u) ≡ parsed u
  unfolding parse_url print_url after_proto
  parse_url-print_url u h =
      rw
        (
          given (length (print_url u) + 1),
          break_at-first b':' u.proto _ h.proto_colon,
          given (length u.proto + 1),
          user_field-print u.user u.passwd (u.addr ++ (b'/' ∷ u.path)) h.user_colon h.user_at
              h.passwd_at (Free-append b'@' u.addr (b'/' ∷ u.path) h.addr_at (refl, h.path_at)),
          address-slash u.addr u.path h.addr_slash,
        )
        refl

  -- Without a login, a `@` in the path makes the parser take the address, and the path up to the
  -- `@`, for the user.
  pub parse_url_at :
      (proto addr a b : Bytes)
      → Free b':' proto
      → Free b'@' addr
      → Free b'@' a
      → Free b':' (addr ++ (b'/' ∷ a))
      → Free b'/' b
      → parse_url m (
          print_url
            (record { proto = proto; user = []; passwd = []; addr = addr; path = a ++ (b'@' ∷ b) }))
        ≡ parsed
            (record { proto = proto; user = addr ++ (b'/' ∷ a); passwd = []; addr = b; path = [] })
  unfolding parse_url print_url after_proto
  parse_url_at proto addr a b pc da aa dc bs =
      rw
        (
          given _,
          break_at-first b':' proto _ pc,
          given (length proto + 1),
          sym (append_assoc addr (b'/' ∷ a) (b'@' ∷ b)),
          user-alone (addr ++ (b'/' ∷ a)) b dc (Free-append b'@' addr (b'/' ∷ a) da (refl, aa)),
          break_at-none b'/' b bs,
          given (length b + 1),
          given (0 + 1),
        )
        refl
