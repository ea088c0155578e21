-- ===== src/Cv/Url/Tests.antt =====
-- Runs of `parse_url` and `str2urlproto`.
use cligen.Prelude.{◌≡◌, refl, true, [], ◌∷◌}
use cligen.Memory.{Bytes, Machine, eq_bytes}
use cligen.Cv.{parsed, invalid}
use cligen.Cv.Url.{Url, break_at, find_proto, str2urlproto, parse_url, print_url}
use cligen.Cv.Url.RoundTrip.{IsUrl, parse_url-print_url, parse_url_at}

abbrev roomy : Machine
roomy = record { grants = λ n. true; junk = λ i. 170 }

abbrev ssh : Bytes
ssh = b's' ∷ b's' ∷ b'h' ∷ []

-- "ssh://u@h/"
abbrev url : Url
url = record { proto = ssh; user = b'u' ∷ []; passwd = []; addr = b'h' ∷ []; path = [] }

url-IsUrl : IsUrl url
url-IsUrl = record {
  proto_colon = (refl, (refl, (refl, tt)));
  user_colon = (refl, tt);
  user_at = (refl, tt);
  passwd_at = tt;
  addr_at = (refl, tt);
  addr_slash = (refl, tt);
  path_at = tt;
}

no_colon : parse_url roomy ssh ≡ invalid
unfolding parse_url break_at
no_colon = refl

protocols : (str2urlproto ssh ≡ 7) × (str2urlproto (b'x' ∷ []) ≡ 0)
unfolding str2urlproto find_proto eq_bytes
protocols = (refl, refl)

parse_url-print_url_example : parse_url roomy (print_url url) ≡ parsed url
parse_url-print_url_example = parse_url-print_url roomy (λ n. refl) url url-IsUrl

-- "ssh://h/a@b"
parse_url_at_example :
    parse_url roomy (
      print_url (record {
        proto = ssh;
        user = [];
        passwd = [];
        addr = b'h' ∷ [];
        path = b'a' ∷ b'@' ∷ b'b' ∷ [];
      }))
    ≡ parsed (record {
      proto = ssh;
      user = b'h' ∷ b'/' ∷ b'a' ∷ [];
      passwd = [];
      addr = b'b' ∷ [];
      path = [];
    })
parse_url_at_example =
    parse_url_at roomy (λ n. refl) ssh (b'h' ∷ []) (b'a' ∷ []) (b'b' ∷ [])
      (refl, (refl, (refl, tt))) (refl, tt) (refl, tt) (refl, (refl, (refl, tt))) (refl, tt)
