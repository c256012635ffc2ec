-- ===== src/Web/Origin.antt =====
-- The origin that the browser sees, src/web/origin.rs.
use sagittarius.Prelude.{
  Bool, true, false, Option, none, some, [], ◌∷◌, ◌++◌, map, equal, if◌then◌else◌,
}
use sagittarius.Codec.Reader.{Bytes}
use sagittarius.Codec.Name.{to_ascii_lowercase}
use sagittarius.Web.Http.{
  Headers, host_name, forwarded_host, forwarded_proto, https_text, http_text, get_header,
  header_str, split, trim,
}

-- `SessionCookieSecurePolicy` of src/config.rs.
pub data SessionCookieSecurePolicy : Type 0 where
  always never auto : SessionCookieSecurePolicy

-- `first_csv`
unfoldable pub first_csv : Bytes → Bytes
unfolding split trim
first_csv s = elim (split b',' s) [ [] ↦ trim s | part ∷ parts ↦ trim part ]

-- `is_https`
unfoldable pub is_https : SessionCookieSecurePolicy → Headers → Bool
unfolding header_str first_csv to_ascii_lowercase
is_https always headers = true
is_https never headers = false
is_https auto headers = elim (header_str forwarded_proto headers) [
  | none ↦ false
  | some v ↦ equal (map to_ascii_lowercase (first_csv v)) https_text
]

abbrev pub first_of : Option Bytes → Option Bytes
first_of none = none
first_of (some v) = some (first_csv v)

-- `host`; a forwarded host that is no text hides the `Host` header.
unfoldable pub host : Headers → Option Bytes
unfolding get_header first_csv
host headers = elim (get_header forwarded_host headers) [
  | some value ↦ first_of value
  | none ↦ elim (get_header host_name headers) [ some value ↦ first_of value | none ↦ none ]
]

-- `origin`
unfoldable pub origin : SessionCookieSecurePolicy → Headers → Option Bytes
unfolding is_https host
origin policy headers =
    let scheme : Bytes = if is_https policy headers then https_text else http_text in
    elim (host headers) [ none ↦ none | some h ↦ some (scheme ++ (b':' ∷ b'/' ∷ b'/' ∷ h)) ]
