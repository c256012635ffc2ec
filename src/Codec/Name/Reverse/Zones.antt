-- ===== src/Codec/Name/Reverse/Zones.antt =====
-- The labels of an address in front of its zone (src/codec/name.rs).
use sagittarius.Prelude.{
  ℕ, ◌+◌, ◌*◌, ◌/◌, ◌≤◌, ◌<◌, bit_and, ◌≡◌, refl, ap, ◌∙◌, false, List, [], ◌∷◌, ◌++◌, arith, leb,
  length, All, length-append,
}
use sagittarius.Prelude.Bits.{and_mask}
use sagittarius.Codec.Reader.{Bytes}
use sagittarius.Codec.Name.Valid.{IsLabel, wire}
use sagittarius.Codec.Name.Parse.{joined}
use sagittarius.Codec.Name.Reverse.{
  parse_octets, parse_nibbles, pack, show_u8, show_nibble, show_octets, show_nibbles,
}
use sagittarius.Codec.Name.Reverse.Labels.{
  parse_u8-show_u8, nibble-show_nibble, show_nibble-IsLabel, show_u8-IsLabel, length-show_u8,
  pack_octet,
}

abbrev pub AreOctets : Bytes → Type 0
AreOctets = All (λ b. b < 256)

-- The text of some labels, without its last dot.
abbrev pub join : List Bytes → Bytes
join [] = []
join (l ∷ ls) = joined l ls

-- The labels of an address, in front of those of its zone.
abbrev pub octet_labels : Bytes → List Bytes → List Bytes
octet_labels [] ls = ls
octet_labels (a ∷ octets) ls = octet_labels octets (show_u8 a ∷ ls)

abbrev pub nibble_labels : Bytes → List Bytes → List Bytes
nibble_labels [] ls = ls
nibble_labels (a ∷ octets) ls =
    nibble_labels octets (show_nibble (bit_and a 15) ∷ show_nibble (a / 16) ∷ ls)

pub show_octets-joined :
    (octets : Bytes) (z : Bytes) (zs : List Bytes)
    → show_octets octets (joined z zs) ≡ join (octet_labels octets (z ∷ zs))
unfolding show_octets
show_octets-joined [] z zs = refl
show_octets-joined (a ∷ octets) z zs = show_octets-joined octets (show_u8 a) (z ∷ zs)

pub show_nibbles-joined :
    (octets : Bytes) (z : Bytes) (zs : List Bytes)
    → show_nibbles octets (joined z zs) ≡ join (nibble_labels octets (z ∷ zs))
unfolding show_nibbles
show_nibbles-joined [] z zs = refl
show_nibbles-joined (a ∷ octets) z zs =
    show_nibbles-joined octets (show_nibble (bit_and a 15)) (show_nibble (a / 16) ∷ z ∷ zs)

pub parse_octets-labels :
    (octets : Bytes) (ls : List Bytes) (acc : Bytes)
    → AreOctets octets
    → length octets + length acc ≤ 4
    → parse_octets (octet_labels octets ls) acc ≡ parse_octets ls (octets ++ acc)
unfolding parse_octets
parse_octets-labels [] ls acc h fits = refl
parse_octets-labels (a ∷ octets) ls acc h fits =
    let room : leb 4 (length (octets ++ acc)) ≡ false =
      ground (arith, length-append octets acc, fits) in
    parse_octets-labels octets (show_u8 a ∷ ls) acc h.1 (omega (arith, fits))
    ∙ rw (room, parse_u8-show_u8 a h.0) refl

abbrev pub nibbles_of : Bytes → Bytes
nibbles_of [] = []
nibbles_of (a ∷ octets) = a / 16 ∷ bit_and a 15 ∷ nibbles_of octets

pub length-nibbles_of : (octets : Bytes) → length (nibbles_of octets) ≡ 2 * length octets
length-nibbles_of [] = omega arith
length-nibbles_of (a ∷ octets) = omega (arith, length-nibbles_of octets)

pub pack-nibbles_of : (octets : Bytes) → AreOctets octets → pack (nibbles_of octets) ≡ octets
unfolding pack
pack-nibbles_of [] h = refl
pack-nibbles_of (a ∷ octets) h =
    pack_octet a (nibbles_of octets) h.0 ∙ ap (◌∷◌ a) (pack-nibbles_of octets h.1)

low_nibble : (a : ℕ) → bit_and a 15 < 16
low_nibble a = omega (arith, and_mask 4 a)

pub parse_nibbles-labels :
    (octets : Bytes) (ls : List Bytes) (acc : Bytes)
    → AreOctets octets
    → 2 * length octets + length acc ≤ 32
    → parse_nibbles (nibble_labels octets ls) acc ≡ parse_nibbles ls (nibbles_of octets ++ acc)
unfolding parse_nibbles
parse_nibbles-labels [] ls acc h fits = refl
parse_nibbles-labels (a ∷ octets) ls acc h fits =
    let size = length-append (nibbles_of octets) acc in
    let count = length-nibbles_of octets in
    let room : leb 32 (length (nibbles_of octets ++ acc)) ≡ false =
      ground (arith, size, count, fits) in
    let room' : leb 32 (length (bit_and a 15 ∷ (nibbles_of octets ++ acc))) ≡ false =
      ground (arith, size, count, fits) in
    parse_nibbles-labels octets (show_nibble (bit_and a 15) ∷ show_nibble (a / 16) ∷ ls) acc h.1
      (omega (arith, fits))
    ∙ rw
        (
          room,
          nibble-show_nibble (bit_and a 15) (low_nibble a),
          room',
          nibble-show_nibble (a / 16) (omega (arith, h.0)),
        )
        refl

pub octet_labels-append :
    (octets : Bytes) (ls zs : List Bytes)
    → octet_labels octets (ls ++ zs) ≡ octet_labels octets ls ++ zs
octet_labels-append [] ls zs = refl
octet_labels-append (a ∷ octets) ls zs = octet_labels-append octets (show_u8 a ∷ ls) zs

pub nibble_labels-append :
    (octets : Bytes) (ls zs : List Bytes)
    → nibble_labels octets (ls ++ zs) ≡ nibble_labels octets ls ++ zs
nibble_labels-append [] ls zs = refl
nibble_labels-append (a ∷ octets) ls zs =
    nibble_labels-append octets (show_nibble (bit_and a 15) ∷ show_nibble (a / 16) ∷ ls) zs

pub octet_labels-IsLabel :
    (octets : Bytes) (ls : List Bytes)
    → AreOctets octets
    → All IsLabel ls
    → All IsLabel (octet_labels octets ls)
octet_labels-IsLabel [] ls h k = k
octet_labels-IsLabel (a ∷ octets) ls h k =
    octet_labels-IsLabel octets (show_u8 a ∷ ls) h.1 (show_u8-IsLabel a h.0, k)

pub nibble_labels-IsLabel :
    (octets : Bytes) (ls : List Bytes)
    → AreOctets octets
    → All IsLabel ls
    → All IsLabel (nibble_labels octets ls)
nibble_labels-IsLabel [] ls h k = k
nibble_labels-IsLabel (a ∷ octets) ls h k =
    nibble_labels-IsLabel octets (show_nibble (bit_and a 15) ∷ show_nibble (a / 16) ∷ ls) h.1 (
      show_nibble-IsLabel (bit_and a 15) (low_nibble a),
      (show_nibble-IsLabel (a / 16) (omega (arith, h.0)), k),
    )

pub wire-octet_labels :
    (octets : Bytes) (ls : List Bytes)
    → length (wire (octet_labels octets ls)) ≤ 4 * length octets + length (wire ls)
wire-octet_labels [] ls = omega arith
wire-octet_labels (a ∷ octets) ls = omega (
  arith,
  wire-octet_labels octets (show_u8 a ∷ ls),
  length-append (show_u8 a) (wire ls),
  length-show_u8 a,
)

pub wire-nibble_labels :
    (octets : Bytes) (ls : List Bytes)
    → length (wire (nibble_labels octets ls)) ≡ 4 * length octets + length (wire ls)
unfolding show_nibble
wire-nibble_labels [] ls = omega arith
wire-nibble_labels (a ∷ octets) ls =
    omega
      (arith, wire-nibble_labels octets (show_nibble (bit_and a 15) ∷ show_nibble (a / 16) ∷ ls))
