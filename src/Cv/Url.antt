-- ===== src/Cv/Url.antt =====
-- `parse_url` of cligen_cv.c, and how `cv2cbuf` prints a URL.
pub mod RoundTrip
mod Tests
use cligen.Prelude.{
  ℕ, zero, suc, ◌+◌, Bool, true, false, ◌&&◌, ◌||◌, not, Option, none, some, List, [], ◌∷◌, ◌++◌,
  ◌==◌, length, if◌then◌else◌,
}
use cligen.Memory.{Bytes, Machine, eq_bytes}
use cligen.Cv.{Parsed, parsed, invalid, error, ◌>>=◌, dup}

-- `var_urlproto`, `var_urluser`, `var_urlpasswd`, `var_urladdr` and `var_urlpath`.
pub record Url : Type 0 where
  pub proto : Bytes
  pub user : Bytes
  pub passwd : Bytes
  pub addr : Bytes
  pub path : Bytes

abbrev pub behind : ℕ → Option (Bytes × Bytes) → Option (Bytes × Bytes)
behind x none = none
behind x (some (a, b)) = some (x ∷ a, b)

-- strchr(3), and a NUL in the place that it finds: the strings before and behind it.
unfoldable pub break_at : ℕ → Bytes → Option (Bytes × Bytes)
break_at c [] = none
break_at c (x ∷ s) = if x == c then some ([], s) else behind x (break_at c s)

-- `<user>:<passwd>`, or a user alone.
abbrev login : Machine → Bytes → Option (Bytes × Bytes) → Parsed (Bytes × Bytes)
login m str (some (user, passwd)) = dup m passwd >>= λ p. dup m user >>= λ u. parsed (u, p)
login m str none = dup m [] >>= λ p. dup m str >>= λ u. parsed (u, p)

-- The user, the password, and what stands behind the `@`.
abbrev pub user_field : Machine → Bytes → Option (Bytes × Bytes) → Parsed (Bytes × Bytes × Bytes)
user_field m str (some (before, rest)) =
    login m before (break_at b':' before) >>= λ l. parsed (l.0, l.1, rest)
user_field m str none = dup m [] >>= λ u. dup m [] >>= λ p. parsed (u, p, str)

-- The address, and the path behind the first `/`.
abbrev pub address : Machine → Bytes → Option (Bytes × Bytes) → Parsed (Bytes × Bytes)
address m str (some (addr, path)) = dup m addr >>= λ a. dup m path >>= λ p. parsed (a, p)
address m str none = dup m str >>= λ a. dup m [] >>= λ p. parsed (a, p)

-- What follows `<proto>://`.
pub after_proto : Machine → Bytes → Bytes → Parsed Url
after_proto m proto str = user_field m str (break_at b'@' str) >>= λ l.
    address m l.2 (break_at b'/' l.2) >>= λ a.
    parsed (record { proto = proto; user = l.0; passwd = l.1; addr = a.0; path = a.1 })

abbrev with_proto : Machine → Option (Bytes × Bytes) → Parsed Url
with_proto m none = invalid
with_proto m (some (proto, x ∷ y ∷ str)) =
    if x == b'/' && y == b'/' then (dup m proto >>= λ p. after_proto m p str) else invalid
with_proto m (some (proto, _)) = invalid

pub parse_url : Machine → Bytes → Parsed Url
parse_url m url = dup m url >>= λ str. with_proto m (break_at b':' str)

abbrev pub is_empty : Bytes → Bool
is_empty [] = true
is_empty (c ∷ s) = false

-- The format "%s://%s%s%s%s%s/%s" of `cv2cbuf`.
pub print_url : Url → Bytes
print_url u =
    let colon = if is_empty u.passwd then [] else b':' ∷ [] in
    let at = if not (is_empty u.user) || not (is_empty u.passwd) then b'@' ∷ [] else [] in
    u.proto
    ++ (b':'
        ∷ b'/'
        ∷ b'/'
        ∷ (u.user ++ (colon ++ (u.passwd ++ (at ++ (u.addr ++ (b'/' ∷ u.path)))))))

-- `cg_urlprotostr`, from its index 1.
abbrev urlprotostr : List Bytes
urlprotostr =
    (b'f' ∷ b'i' ∷ b'l' ∷ b'e' ∷ [])
    ∷ (b'f' ∷ b'l' ∷ b'a' ∷ b's' ∷ b'h' ∷ [])
    ∷ (b't' ∷ b'f' ∷ b't' ∷ b'p' ∷ [])
    ∷ (b'f' ∷ b't' ∷ b'p' ∷ [])
    ∷ (b't' ∷ b'e' ∷ b'l' ∷ b'n' ∷ b'e' ∷ b't' ∷ [])
    ∷ (b'h' ∷ b't' ∷ b't' ∷ b'p' ∷ [])
    ∷ (b's' ∷ b's' ∷ b'h' ∷ [])
    ∷ []

-- The loop of `str2urlproto` from the index `proto`; 0 at the null pointer that ends the table.
pub find_proto : Bytes → ℕ → List Bytes → ℕ
find_proto str proto [] = 0
find_proto str proto (name ∷ names) =
    if eq_bytes str name then proto else find_proto str (proto + 1) names

pub str2urlproto : Bytes → ℕ
str2urlproto str = find_proto str 1 urlprotostr
