-- ===== src/Codec/Name/Reverse/RoundTrip.antt =====
-- `Name::reverse_addr` takes back what `Name::reverse_query` makes (src/codec/name.rs).
use sagittarius.Prelude.{
  ℕ, ◌≤◌, ◌≡◌, refl, sym, ap, ◌∙◌, inl, inr, true, some, [], ◌∷◌, ◌++◌, append_assoc, append-nil,
  arith, ◌==◌, length,
}
use sagittarius.Codec.Error.{ok}
use sagittarius.Codec.Reader.{Bytes}
use sagittarius.Codec.Name.{Name}
use sagittarius.Codec.Name.Valid.{IsLabelByte, IsLabel}
use sagittarius.Codec.Name.Reverse.{
  IpAddr, v4, v6, in_addr, arpa, ip6, parse_octets, parse_in_addr_arpa, parse_nibbles,
  parse_ip6_arpa, reverse_addr, reverse_query,
}
use sagittarius.Codec.Name.Reverse.Texts.{
  length-octet_labels, length-nibble_labels, join-append, from_str-join, strip_suffix-append,
  strip_suffix-ip6, split_dot-join,
}
use sagittarius.Codec.Name.Reverse.Zones.{
  AreOctets, join, octet_labels, nibble_labels, nibbles_of, show_octets-joined, show_nibbles-joined,
  parse_octets-labels, length-nibbles_of, pack-nibbles_of, parse_nibbles-labels,
  octet_labels-append, nibble_labels-append, octet_labels-IsLabel, nibble_labels-IsLabel,
  wire-octet_labels, wire-nibble_labels,
}

letter : (b : ℕ) → b'a' ≤ b → b ≤ b'z' → IsLabelByte b
letter b h k = inl (h, k)

arpa-IsLabel : IsLabel arpa
arpa-IsLabel = record {
  lower = omega arith;
  upper = omega arith;
  bytes = (
    letter b'a' (omega arith) (omega arith),
    (
      letter b'r' (omega arith) (omega arith),
      (letter b'p' (omega arith) (omega arith), (letter b'a' (omega arith) (omega arith), tt)),
    ),
  );
  no_start = λ e. omega (arith, e);
  no_end = λ e. omega (arith, e);
}

in_addr-IsLabel : IsLabel in_addr
in_addr-IsLabel = record {
  lower = omega arith;
  upper = omega arith;
  bytes = (
    letter b'i' (omega arith) (omega arith),
    (
      letter b'n' (omega arith) (omega arith),
      (
        inr (inr (inl refl)),
        (
          letter b'a' (omega arith) (omega arith),
          (
            letter b'd' (omega arith) (omega arith),
            (
              letter b'd' (omega arith) (omega arith),
              (letter b'r' (omega arith) (omega arith), tt),
            ),
          ),
        ),
      ),
    ),
  );
  no_start = λ e. omega (arith, e);
  no_end = λ e. omega (arith, e);
}

ip6-IsLabel : IsLabel ip6
ip6-IsLabel = record {
  lower = omega arith;
  upper = omega arith;
  bytes = (
    letter b'i' (omega arith) (omega arith),
    (letter b'p' (omega arith) (omega arith), (inr (inl (omega arith, omega arith)), tt)),
  );
  no_start = λ e. omega (arith, e);
  no_end = λ e. omega (arith, e);
}

-- The octets of an address.
abbrev pub IsAddress : IpAddr → Type 0
IsAddress (v4 octets) = AreOctets octets × (length octets ≡ 4)
IsAddress (v6 octets) = AreOctets octets × (length octets ≡ 16)

parse_in_addr_arpa-labels :
    (octets : Bytes)
    → AreOctets octets
    → length octets ≡ 4
    → parse_in_addr_arpa (join (octet_labels octets [])) ≡ some octets
unfolding parse_in_addr_arpa
parse_in_addr_arpa-labels octets h k =
    let split =
      split_dot-join (octet_labels octets []) (octet_labels-IsLabel octets [] h tt)
        (omega (arith, length-octet_labels octets [], k)) in
    let full : (length octets == 4) ≡ true = ground (arith, k) in
    rw
      (
        split,
        parse_octets-labels octets [] [] h (omega (arith, k)),
        append-nil octets,
        parse_octets,
        full,
      )
      refl

parse_ip6_arpa-labels :
    (octets : Bytes)
    → AreOctets octets
    → length octets ≡ 16
    → parse_ip6_arpa (join (nibble_labels octets [])) ≡ some octets
unfolding parse_ip6_arpa
parse_ip6_arpa-labels octets h k =
    let split =
      split_dot-join (nibble_labels octets []) (nibble_labels-IsLabel octets [] h tt)
        (omega (arith, length-nibble_labels octets [], k)) in
    let full : (length (nibbles_of octets) == 32) ≡ true =
      ground (arith, k, length-nibbles_of octets) in
    rw
      (
        split,
        parse_ip6_arpa,
        parse_nibbles-labels octets [] [] h (omega (arith, k)),
        append-nil (nibbles_of octets),
        parse_nibbles,
        full,
        pack-nibbles_of octets h,
      )
      refl

-- The name that `reverse_query` makes of an address of four or of sixteen octets is a name, and
-- `reverse_addr` takes the address back.
pub reverse_addr-reverse_query :
    (ip : IpAddr)
    → IsAddress ip
    → (n : Name) × (reverse_query ip ≡ ok n) × (reverse_addr n ≡ some ip)
unfolding reverse_query reverse_addr
reverse_addr-reverse_query (v4 octets) (h, k) =
    let ls = octet_labels octets (in_addr ∷ arpa ∷ []) in
    let front = join (octet_labels octets []) in
    let zone = b'.' ∷ (in_addr ++ (b'.' ∷ arpa)) in
    let body : join ls ≡ front ++ zone =
      ap join (octet_labels-append octets [] (in_addr ∷ arpa ∷ []))
      ∙ join-append (octet_labels octets []) in_addr (arpa ∷ [])
          (omega (arith, length-octet_labels octets [], k)) in
    let ends : join ls ≡ (front ++ (b'.' ∷ (in_addr ++ (b'.' ∷ [])))) ++ arpa =
      body ∙ sym (append_assoc front (b'.' ∷ (in_addr ++ (b'.' ∷ []))) arpa) in
    let labels =
      octet_labels-IsLabel octets (in_addr ∷ arpa ∷ []) h (in_addr-IsLabel, (arpa-IsLabel, tt)) in
    let named =
      from_str-join ls _ labels (omega (arith, length-octet_labels octets (in_addr ∷ arpa ∷ []), k))
        (omega (arith, wire-octet_labels octets (in_addr ∷ arpa ∷ []), k)) ends in
    (
      record { inner = join ls ++ (b'.' ∷ []) },
      rw (show_octets-joined octets in_addr (arpa ∷ [])) named,
      rw
          (
            strip_suffix-append (join ls) (b'.' ∷ []),
            reverse_addr,
            body,
            strip_suffix-append front zone,
            parse_in_addr_arpa-labels octets h k,
          )
          refl,
    )
reverse_addr-reverse_query (v6 octets) (h, k) =
    let ls = nibble_labels octets (ip6 ∷ arpa ∷ []) in
    let front = join (nibble_labels octets []) in
    let zone = b'.' ∷ (ip6 ++ (b'.' ∷ arpa)) in
    let body : join ls ≡ front ++ zone =
      ap join (nibble_labels-append octets [] (ip6 ∷ arpa ∷ []))
      ∙ join-append (nibble_labels octets []) ip6 (arpa ∷ [])
          (omega (arith, length-nibble_labels octets [], k)) in
    let ends : join ls ≡ (front ++ (b'.' ∷ (ip6 ++ (b'.' ∷ [])))) ++ arpa =
      body ∙ sym (append_assoc front (b'.' ∷ (ip6 ++ (b'.' ∷ []))) arpa) in
    let labels =
      nibble_labels-IsLabel octets (ip6 ∷ arpa ∷ []) h (ip6-IsLabel, (arpa-IsLabel, tt)) in
    let named =
      from_str-join ls _ labels (omega (arith, length-nibble_labels octets (ip6 ∷ arpa ∷ []), k))
        (omega (arith, wire-nibble_labels octets (ip6 ∷ arpa ∷ []), k)) ends in
    (
      record { inner = join ls ++ (b'.' ∷ []) },
      rw (show_nibbles-joined octets ip6 (arpa ∷ [])) named,
      rw
          (
            strip_suffix-append (join ls) (b'.' ∷ []),
            reverse_addr,
            body,
            strip_suffix-ip6 front,
            body,
            strip_suffix-append front zone,
            parse_ip6_arpa-labels octets h k,
          )
          refl,
    )
