-- ===== src/Web/Http.antt =====
-- What the guards of src/web read of a request of axum. A header that is no visible ASCII text has no
-- value; the characters of one that is are its octets.
use sagittarius.Prelude.{
  ℕ, Bool, true, false, ◌&&◌, ◌||◌, Option, none, some, List, [], ◌∷◌, leb, ◌==◌, equal,
  if◌then◌else◌,
}
use sagittarius.Codec.Reader.{Bytes}

pub data Method : Type 0 where
  get head options trace post put patch delete : Method

-- `HeaderMap`, with lower-case names.
abbrev pub Headers : Type 0
Headers = List (Bytes × Option Bytes)

-- A request; a body that cannot be read is `none`.
pub record Request : Type 0 where
  pub method : Method
  pub path : Bytes
  pub headers : Headers
  pub body : Option Bytes

abbrev pub host_name : Bytes
host_name = b'h' ∷ b'o' ∷ b's' ∷ b't' ∷ []

abbrev pub forwarded_host : Bytes
forwarded_host =
    b'x' ∷ b'-' ∷ b'f' ∷ b'o' ∷ b'r' ∷ b'w' ∷ b'a' ∷ b'r' ∷ b'd' ∷ b'e' ∷ b'd' ∷ b'-' ∷ b'h' ∷ b'o'
    ∷ b's' ∷ b't' ∷ []

abbrev pub forwarded_proto : Bytes
forwarded_proto =
    b'x' ∷ b'-' ∷ b'f' ∷ b'o' ∷ b'r' ∷ b'w' ∷ b'a' ∷ b'r' ∷ b'd' ∷ b'e' ∷ b'd' ∷ b'-' ∷ b'p' ∷ b'r'
    ∷ b'o' ∷ b't' ∷ b'o' ∷ []

abbrev pub origin_name : Bytes
origin_name = b'o' ∷ b'r' ∷ b'i' ∷ b'g' ∷ b'i' ∷ b'n' ∷ []

abbrev pub referer_name : Bytes
referer_name = b'r' ∷ b'e' ∷ b'f' ∷ b'e' ∷ b'r' ∷ b'e' ∷ b'r' ∷ []

abbrev pub cookie_name : Bytes
cookie_name = b'c' ∷ b'o' ∷ b'o' ∷ b'k' ∷ b'i' ∷ b'e' ∷ []

abbrev pub content_type : Bytes
content_type =
    b'c' ∷ b'o' ∷ b'n' ∷ b't' ∷ b'e' ∷ b'n' ∷ b't' ∷ b'-' ∷ b't' ∷ b'y' ∷ b'p' ∷ b'e' ∷ []

abbrev pub csrf_header : Bytes
csrf_header = b'x' ∷ b'-' ∷ b'c' ∷ b's' ∷ b'r' ∷ b'f' ∷ b'-' ∷ b't' ∷ b'o' ∷ b'k' ∷ b'e' ∷ b'n' ∷ []

abbrev pub cookie_secure : Bytes
cookie_secure =
    b'_' ∷ b'_' ∷ b'H' ∷ b'o' ∷ b's' ∷ b't' ∷ b'-' ∷ b's' ∷ b'g' ∷ b't' ∷ b'_' ∷ b's' ∷ b'e' ∷ b's'
    ∷ b's' ∷ b'i' ∷ b'o' ∷ b'n' ∷ []

abbrev pub cookie_insecure : Bytes
cookie_insecure = b's' ∷ b'g' ∷ b't' ∷ b'_' ∷ b's' ∷ b'e' ∷ b's' ∷ b's' ∷ b'i' ∷ b'o' ∷ b'n' ∷ []

abbrev pub login_path : Bytes
login_path = b'/' ∷ b'l' ∷ b'o' ∷ b'g' ∷ b'i' ∷ b'n' ∷ []

abbrev pub setup_path : Bytes
setup_path = b'/' ∷ b's' ∷ b'e' ∷ b't' ∷ b'u' ∷ b'p' ∷ []

abbrev pub application_json : Bytes
application_json =
    b'a' ∷ b'p' ∷ b'p' ∷ b'l' ∷ b'i' ∷ b'c' ∷ b'a' ∷ b't' ∷ b'i' ∷ b'o' ∷ b'n' ∷ b'/' ∷ b'j' ∷ b's'
    ∷ b'o' ∷ b'n' ∷ []

abbrev pub csrf_key_name : Bytes
csrf_key_name = b'c' ∷ b's' ∷ b'r' ∷ b'f' ∷ []

abbrev pub csrf_form_name : Bytes
csrf_form_name = b'c' ∷ b's' ∷ b'r' ∷ b'f' ∷ b'_' ∷ b't' ∷ b'o' ∷ b'k' ∷ b'e' ∷ b'n' ∷ []

abbrev pub https_text : Bytes
https_text = b'h' ∷ b't' ∷ b't' ∷ b'p' ∷ b's' ∷ []

abbrev pub http_text : Bytes
http_text = b'h' ∷ b't' ∷ b't' ∷ b'p' ∷ []

-- `headers.get(name)`: the first value, when there is one.
unfoldable pub get_header : Bytes → Headers → Option (Option Bytes)
get_header name [] = none
get_header name ((n, value) ∷ headers) =
    let rest = get_header name headers in if equal n name then some value else rest

-- `headers.get(name).and_then(|v| v.to_str().ok())`
unfoldable pub header_str : Bytes → Headers → Option Bytes
unfolding get_header
header_str name headers = elim (get_header name headers) [ none ↦ none | some value ↦ value ]

-- `headers.get_all(name)`, the texts among them.
unfoldable pub get_all : Bytes → Headers → List Bytes
get_all name [] = []
get_all name ((n, none) ∷ headers) = get_all name headers
get_all name ((n, some value) ∷ headers) =
    let rest = get_all name headers in if equal n name then value ∷ rest else rest

-- `str::split`, at an octet.
abbrev pub into_first : ℕ → List Bytes → List Bytes
into_first c [] = (c ∷ []) ∷ []
into_first c (part ∷ parts) = (c ∷ part) ∷ parts

unfoldable pub split : ℕ → Bytes → List Bytes
split at_byte [] = [] ∷ []
split at_byte (c ∷ cs) =
    let rest = split at_byte cs in if c == at_byte then [] ∷ rest else into_first c rest

-- `str::split_once`
unfoldable pub split_once : ℕ → Bytes → Option (Bytes × Bytes)
split_once at_byte [] = none
split_once at_byte (c ∷ cs) =
    let rest = split_once at_byte cs in
    if c == at_byte
    then some ([], cs)
    else elim rest [ none ↦ none | some (before, behind) ↦ some (c ∷ before, behind) ]

-- `str::trim`, on ASCII text.
unfoldable pub trim_front : Bytes → Bytes
trim_front [] = []
trim_front (c ∷ cs) =
    let rest = trim_front cs in if c == 32 || (leb 9 c && leb c 13) then rest else c ∷ cs

unfoldable pub trim_back : Bytes → Bytes
trim_back [] = []
trim_back (c ∷ cs) = elim (trim_back cs) [
  | [] ↦ if c == 32 || (leb 9 c && leb c 13) then [] else c ∷ []
  | x ∷ xs ↦ c ∷ x ∷ xs
]

unfoldable pub trim : Bytes → Bytes
unfolding trim_front trim_back
trim s = trim_back (trim_front s)

-- `str::strip_prefix`
unfoldable pub strip_prefix : Bytes → Bytes → Option Bytes
strip_prefix [] s = some s
strip_prefix (p ∷ prefix) [] = none
strip_prefix (p ∷ prefix) (c ∷ s) =
    let rest = strip_prefix prefix s in if p == c then rest else none

-- `str::contains`
unfoldable pub contains_text : Bytes → Bytes → Bool
unfolding strip_prefix
contains_text needle [] = elim (strip_prefix needle []) [ none ↦ false | some rest ↦ true ]
contains_text needle (c ∷ s) =
    let later = contains_text needle s in
    elim (strip_prefix needle (c ∷ s)) [ none ↦ later | some rest ↦ true ]
