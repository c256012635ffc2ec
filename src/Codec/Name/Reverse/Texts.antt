-- ===== src/Codec/Name/Reverse/Texts.antt =====
-- The texts of reverse names and their zones (src/codec/name.rs).
use sagittarius.Prelude.{
  ◌+◌, ◌-◌, ◌*◌, ◌/◌, ◌≤◌, bit_and, ◌≡◌, refl, sym, ap, ◌∙◌, subst, inl, inr, true, false, none,
  some, List, [], ◌∷◌, ◌++◌, append_assoc, arith, leb, equal, equal→path, equal_refl, leb→le,
  le→leb, Bool-cases, length, drop, All, length-append, take-length_append, drop-length_append,
  drop-drop,
}
use sagittarius.Codec.Error.{ok}
use sagittarius.Codec.Reader.{Bytes}
use sagittarius.Codec.Name.{split_dot, strip_dot, is_root_text, from_str}
use sagittarius.Codec.Name.Valid.{IsLabel, wire}
use sagittarius.Codec.Name.Parse.{joined, dotted-joined, split_dot-joined, parse_labels-labels}
use sagittarius.Codec.Name.Reverse.{in_addr, arpa, ip6, strip_suffix, show_u8, show_nibble}
use sagittarius.Codec.Name.Reverse.Zones.{join, octet_labels, nibble_labels}

pub length-octet_labels :
    (octets : Bytes) (ls : List Bytes) → length (octet_labels octets ls) ≡ length octets + length ls
length-octet_labels [] ls = omega arith
length-octet_labels (a ∷ octets) ls = omega (arith, length-octet_labels octets (show_u8 a ∷ ls))

pub length-nibble_labels :
    (octets : Bytes) (ls : List Bytes)
    → length (nibble_labels octets ls) ≡ 2 * length octets + length ls
length-nibble_labels [] ls = omega arith
length-nibble_labels (a ∷ octets) ls =
    omega
      (arith, length-nibble_labels octets (show_nibble (bit_and a 15) ∷ show_nibble (a / 16) ∷ ls))

pub join-append :
    (ls : List Bytes) (z : Bytes) (zs : List Bytes)
    → 1 ≤ length ls
    → join (ls ++ (z ∷ zs)) ≡ join ls ++ (b'.' ∷ joined z zs)
join-append [] z zs h = absurd (omega arith)
join-append (l ∷ []) z zs h = refl
join-append (l ∷ m ∷ ms) z zs h =
    ap (λ (t : Bytes). l ++ (b'.' ∷ t)) (join-append (m ∷ ms) z zs (omega arith))
    ∙ sym (append_assoc l (b'.' ∷ joined m ms) (b'.' ∷ joined z zs))

-- A text that ends in `arpa` has no last dot, and is not the root.
pub strip_dot-arpa : (xs : Bytes) → strip_dot (xs ++ arpa) ≡ xs ++ arpa
unfolding strip_dot
strip_dot-arpa [] = refl
strip_dot-arpa (x ∷ []) = refl
strip_dot-arpa (x ∷ y ∷ ys) = ap (◌∷◌ x) (strip_dot-arpa (y ∷ ys))

pub is_root_text-arpa : (xs : Bytes) → is_root_text (xs ++ arpa) ≡ false
unfolding is_root_text
is_root_text-arpa [] = refl
is_root_text-arpa (x ∷ []) = refl
is_root_text-arpa (x ∷ y ∷ ys) = refl

pub from_str-join :
    (ls : List Bytes) (xs : Bytes)
    → All IsLabel ls
    → 1 ≤ length ls
    → length (wire ls) ≤ 255
    → join ls ≡ xs ++ arpa
    → from_str (join ls) ≡ ok (record { inner = join ls ++ (b'.' ∷ []) })
unfolding from_str
from_str-join [] xs h k fits e = absurd (omega (arith, k))
from_str-join (l ∷ ls) xs h k fits e =
    let not_root : is_root_text (joined l ls) ≡ false =
      subst (λ t. is_root_text t ≡ false) (sym e) (is_root_text-arpa xs) in
    let whole : strip_dot (joined l ls) ≡ joined l ls =
      subst (λ t. strip_dot t ≡ t) (sym e) (strip_dot-arpa xs) in
    rw
      (
        not_root,
        whole,
        split_dot-joined l ls h,
        parse_labels-labels (l ∷ ls) [] 1 h (omega (arith, fits)),
        dotted-joined l ls,
      )
      refl

pub strip_suffix-append : (xs suffix : Bytes) → strip_suffix suffix (xs ++ suffix) ≡ some xs
unfolding strip_suffix
strip_suffix-append xs suffix =
    let size : length (xs ++ suffix) - length suffix ≡ length xs =
      omega (arith, length-append xs suffix) in
    let long : leb (length suffix) (length (xs ++ suffix)) ≡ true =
      le→leb _ _ (omega (arith, length-append xs suffix)) in
    rw (size, long, drop-length_append xs suffix, equal_refl suffix, take-length_append xs suffix)
      refl

-- The zone of IPv6 is not that of IPv4.
pub strip_suffix-ip6 :
    (xs : Bytes)
    → strip_suffix (b'.' ∷ (in_addr ++ (b'.' ∷ arpa))) (xs ++ (b'.' ∷ (ip6 ++ (b'.' ∷ arpa))))
      ≡ none
unfolding strip_suffix
strip_suffix-ip6 xs =
    let zone = b'.' ∷ (ip6 ++ (b'.' ∷ arpa)) in
    let other = b'.' ∷ (in_addr ++ (b'.' ∷ arpa)) in
    let s = xs ++ zone in
    let n = length s - length other in
    elim (Bool-cases (leb (length other) (length s))) [
      | inr short ↦ rw short refl
      | inl long ↦ elim (Bool-cases (equal (drop n s) other)) [
        | inr differs ↦ rw (long, differs) refl
        | inl same ↦
            let at : n + 4 ≡ length xs = omega (arith, length-append xs zone, leb→le _ _ long) in
            let tail : drop (n + 4) s ≡ drop 4 other =
              drop-drop n 4 s ∙ ap (drop 4) (equal→path (drop n s) other same) in
            let zone_tail : zone ≡ drop 4 other =
              sym (drop-length_append xs zone) ∙ ap (λ k. drop k s) (sym at) ∙ tail in
            absurd (cc zone_tail)
      ]
    ]

pub split_dot-join : (ls : List Bytes) → All IsLabel ls → 1 ≤ length ls → split_dot (join ls) ≡ ls
split_dot-join [] h k = absurd (omega (arith, k))
split_dot-join (l ∷ ls) h k = split_dot-joined l ls h
