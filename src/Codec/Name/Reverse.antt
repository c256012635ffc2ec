-- ===== src/Codec/Name/Reverse.antt =====
-- The reverse names of src/codec/name.rs: `Name::reverse_addr` and `Name::reverse_query`. An address
-- is the list of its octets.
pub mod Labels
pub mod Zones
pub mod Texts
pub mod RoundTrip
use sagittarius.Prelude.{
  ℕ, ◌+◌, ◌-◌, ◌*◌, ◌/◌, ◌%◌, bit_and, bit_or, not, ◌&&◌, Option, none, some, List, [], ◌∷◌, ◌++◌,
  ltb, leb, ◌==◌, equal, if◌then◌else◌, length, take, drop,
}
use sagittarius.Codec.Error.{Error, Result}
use sagittarius.Codec.Reader.{Bytes}
use sagittarius.Codec.Name.{Name, split_dot, from_str}

-- `std::net::IpAddr`
pub data IpAddr : Type 0 where
  v4 : Bytes → IpAddr
  v6 : Bytes → IpAddr

-- `b"in-addr"`, `b"arpa"` and `b"ip6"`
abbrev pub in_addr : Bytes
in_addr = b'i' ∷ b'n' ∷ b'-' ∷ b'a' ∷ b'd' ∷ b'd' ∷ b'r' ∷ []

abbrev pub arpa : Bytes
arpa = b'a' ∷ b'r' ∷ b'p' ∷ b'a' ∷ []

abbrev pub ip6 : Bytes
ip6 = b'i' ∷ b'p' ∷ b'6' ∷ []

-- `str::strip_suffix`
unfoldable pub strip_suffix : Bytes → Bytes → Option Bytes
strip_suffix suffix s =
    let n = length s - length suffix in
    if leb (length suffix) (length s) && equal (drop n s) suffix then some (take n s) else none

-- `str::parse::<u8>`: an optional plus sign, then digits, of a value of at most 255.
unfoldable pub decimal : ℕ → Bytes → Option ℕ
decimal acc [] = some acc
decimal acc (b ∷ bs) =
    let v = acc * 10 + (b - b'0') in
    let rest = decimal v bs in
    if not (leb b'0' b && leb b b'9') then none else if ltb 255 v then none else rest

unfoldable pub parse_u8 : Bytes → Option ℕ
unfolding decimal
parse_u8 [] = none
parse_u8 (b ∷ []) = decimal 0 (b ∷ [])
parse_u8 (b ∷ c ∷ cs) = if b == b'+' then decimal 0 (c ∷ cs) else decimal 0 (b ∷ c ∷ cs)

-- The loop of `Name::parse_in_addr_arpa`: a label goes in front of the octets so far, since
-- `addr` fills from its end.
unfoldable pub parse_octets : List Bytes → Bytes → Option Bytes
parse_octets [] addr = if length addr == 4 then some addr else none
parse_octets (label ∷ labels) addr =
    if leb 4 (length addr)
    then none
    else elim (parse_u8 label) [ none ↦ none | some octet ↦ parse_octets labels (octet ∷ addr) ]

unfoldable pub parse_in_addr_arpa : Bytes → Option Bytes
unfolding parse_octets parse_u8
parse_in_addr_arpa octets = parse_octets (split_dot octets) []

-- `char::to_digit(16)`
unfoldable pub to_digit : ℕ → Option ℕ
to_digit b =
    if leb b'0' b && leb b b'9'
    then some (b - b'0')
    else if leb b'a' b && leb b b'f'
    then some (b - b'a' + 10)
    else if leb b'A' b && leb b b'F'
    then some (b - b'A' + 10)
    else none

-- A label of one byte that is a digit.
unfoldable pub nibble : Bytes → Option ℕ
unfolding to_digit
nibble (b ∷ []) = to_digit b
nibble _ = none

-- The loop of `Name::parse_ip6_arpa`.
unfoldable pub parse_nibbles : List Bytes → Bytes → Option Bytes
parse_nibbles [] digits = if length digits == 32 then some digits else none
parse_nibbles (label ∷ labels) digits =
    if leb 32 (length digits)
    then none
    else elim (nibble label) [ none ↦ none | some d ↦ parse_nibbles labels (d ∷ digits) ]

-- Two nibbles to an octet.
unfoldable pub pack : Bytes → Bytes
pack (hi ∷ lo ∷ digits) = bit_or (hi * 16) lo ∷ pack digits
pack _ = []

unfoldable pub parse_ip6_arpa : Bytes → Option Bytes
unfolding parse_nibbles nibble pack
parse_ip6_arpa nibbles = elim (parse_nibbles (split_dot nibbles) []) [
  | none ↦ none
  | some digits ↦ some (pack digits)
]

abbrev pub addr_of : (Bytes → IpAddr) → Option Bytes → Option IpAddr
addr_of make none = none
addr_of make (some octets) = some (make octets)

-- `Name::reverse_addr`
unfoldable pub reverse_addr : Name → Option IpAddr
unfolding strip_suffix parse_in_addr_arpa parse_ip6_arpa
reverse_addr name = elim (strip_suffix (b'.' ∷ []) name.inner) [
  | none ↦ none
  | some body ↦ elim (strip_suffix (b'.' ∷ (in_addr ++ (b'.' ∷ arpa))) body) [
    | some octets ↦ addr_of v4 (parse_in_addr_arpa octets)
    | none ↦ elim (strip_suffix (b'.' ∷ (ip6 ++ (b'.' ∷ arpa))) body) [
      | some nibbles ↦ addr_of v6 (parse_ip6_arpa nibbles)
      | none ↦ none
    ]
  ]
]

-- `{d}` of a u8, and `{n:x}` of a nibble.
unfoldable pub show_u8 : ℕ → Bytes
show_u8 v =
    if ltb v 10
    then (b'0' + v) ∷ []
    else if ltb v 100
    then (b'0' + v / 10) ∷ (b'0' + v % 10) ∷ []
    else (b'0' + v / 100) ∷ (b'0' + v / 10 % 10) ∷ (b'0' + v % 10) ∷ []

unfoldable pub show_nibble : ℕ → Bytes
show_nibble n = (if ltb n 10 then b'0' + n else b'a' + (n - 10)) ∷ []

-- The labels of the octets, the last octet first, each before a dot, in front of `zone`.
unfoldable pub show_octets : Bytes → Bytes → Bytes
show_octets [] zone = zone
show_octets (a ∷ octets) zone = show_octets octets (show_u8 a ++ (b'.' ∷ zone))

unfoldable pub show_nibbles : Bytes → Bytes → Bytes
show_nibbles [] zone = zone
show_nibbles (a ∷ octets) zone =
    show_nibbles octets
      (show_nibble (bit_and a 0x0f) ++ (b'.' ∷ (show_nibble (a / 16) ++ (b'.' ∷ zone))))

-- `Name::reverse_query`, before its `expect`.
unfoldable pub reverse_query : IpAddr → Result Error Name
unfolding show_octets show_nibbles show_u8 show_nibble
reverse_query (v4 octets) = from_str (show_octets octets (in_addr ++ (b'.' ∷ arpa)))
reverse_query (v6 octets) = from_str (show_nibbles octets (ip6 ++ (b'.' ∷ arpa)))
