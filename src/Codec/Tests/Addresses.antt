-- ===== src/Codec/Tests/Addresses.antt =====
-- Runs of the reverse names on concrete addresses.
use sagittarius.Prelude.{◌≡◌, refl, some, [], ◌∷◌, arith}
use sagittarius.Codec.Error.{ok}
use sagittarius.Codec.Reader.{Bytes}
use sagittarius.Codec.Name.{Name}
use sagittarius.Codec.Name.Reverse.{v4, reverse_query, reverse_addr}
use sagittarius.Codec.Name.Reverse.RoundTrip.{reverse_addr-reverse_query}

abbrev router_address : Bytes
router_address = 192 ∷ 168 ∷ 0 ∷ 1 ∷ []

reverse_addr-reverse_query_example :
    (n : Name) × (reverse_query (v4 router_address) ≡ ok n)
    × (reverse_addr n ≡ some (v4 router_address))
reverse_addr-reverse_query_example =
    reverse_addr-reverse_query (v4 router_address)
      ((omega arith, (omega arith, (omega arith, (omega arith, tt)))), refl)
