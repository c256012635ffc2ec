-- ===== src/Codec/Name/Parse.antt =====
-- `Name::from_str` of src/codec/name.rs: what it accepts is a valid name, and it takes the text of
-- a valid name, with or without the last dot, back to the name.
use sagittarius.Prelude.{
  ℕ, ◌+◌, ◌≤◌, ◌≡◌, refl, sym, ap, ◌∙◌, subst, ◌≢◌, inl, inr, false, List, [], ◌∷◌, ◌++◌, map,
  append_assoc, append-nil, arith, ◌==◌, le→ltb, Bool-cases, length, All, length-append,
}
use sagittarius.Codec.Error.{ok, >>=-eq-ok, ok-injective}
use sagittarius.Codec.Reader.{Bytes}
use sagittarius.Codec.Name.{
  Name, validate_label, push_front, split_dot, strip_dot, parse_label, parse_labels, is_root_text,
  from_str,
}
use sagittarius.Codec.Name.Label.{map-lower, validate_label-label, validate_label-IsLabel}
use sagittarius.Codec.Name.Write.{no_dot, split_dot-label}
use sagittarius.Codec.Name.Accepts.{lower_label, length-wire-lower}
use sagittarius.Codec.Name.Valid.{IsLabelByte, IsLabel, wire, dotted, text, wire_size, IsValid}

parse_label-label :
    (l : Bytes) (wire_len : ℕ)
    → IsLabel l
    → wire_len + (1 + length l) ≤ 255
    → parse_label l wire_len ≡ ok (wire_len + (1 + length l))
unfolding parse_label
parse_label-label l wire_len h fits =
    let nonempty : (length l == 0) ≡ false = ground (arith, h.lower) in
    rw
      (
        nonempty,
        le→ltb 63 (length l) h.upper,
        validate_label-label l h,
        le→ltb 255 (wire_len + (1 + length l)) fits,
      )
      refl

pub parse_labels-labels :
    (ls : List Bytes) (normalized : Bytes) (wire_len : ℕ)
    → All IsLabel ls
    → wire_len + length (wire ls) ≤ 256
    → parse_labels ls normalized wire_len ≡ ok (normalized ++ dotted ls)
unfolding parse_labels
parse_labels-labels [] normalized wire_len h fits = ap ok (sym (append-nil normalized))
parse_labels-labels (l ∷ ls) normalized wire_len h fits =
    let long : length (wire (l ∷ ls)) ≡ 1 + (length l + length (wire ls)) =
      omega (arith, length-append l (wire ls)) in
    rw
      (
        parse_label-label l wire_len h.0 (omega (arith, long, wire_size ls h.1)),
        map-lower l h.0.bytes,
        parse_labels-labels ls (normalized ++ (l ++ (b'.' ∷ []))) (wire_len + (1 + length l)) h.1
            (omega (arith, long)),
      )
      (ap ok (
        append_assoc normalized (l ++ (b'.' ∷ [])) (dotted ls)
        ∙ ap (◌++◌ normalized) (append_assoc l (b'.' ∷ []) (dotted ls))))

-- The text of a name that is not the root, without its last dot.
abbrev pub joined : Bytes → List Bytes → Bytes
joined l [] = l
joined l (m ∷ ms) = l ++ (b'.' ∷ joined m ms)

pub dotted-joined : (l : Bytes) (ls : List Bytes) → dotted (l ∷ ls) ≡ joined l ls ++ (b'.' ∷ [])
dotted-joined l [] = refl
dotted-joined l (m ∷ ms) =
    ap (λ (t : Bytes). l ++ (b'.' ∷ t)) (dotted-joined m ms)
    ∙ sym (append_assoc l (b'.' ∷ joined m ms) (b'.' ∷ []))

strip_dot-append : (xs : Bytes) → strip_dot (xs ++ (b'.' ∷ [])) ≡ xs
unfolding strip_dot
strip_dot-append [] = refl
strip_dot-append (x ∷ []) = refl
strip_dot-append (x ∷ y ∷ ys) = ap (◌∷◌ x) (strip_dot-append (y ∷ ys))

split_dot-one : (l : Bytes) → All IsLabelByte l → split_dot l ≡ l ∷ []
unfolding split_dot
split_dot-one [] h = refl
split_dot-one (b ∷ bs) h = rw (no_dot b h.0, split_dot-one bs h.1)

pub split_dot-joined :
    (l : Bytes) (ls : List Bytes) → All IsLabel (l ∷ ls) → split_dot (joined l ls) ≡ l ∷ ls
split_dot-joined l [] h = split_dot-one l h.0.bytes
split_dot-joined l (m ∷ ms) h =
    split_dot-label l (joined m ms) h.0.bytes ∙ ap (◌∷◌ l) (split_dot-joined m ms h.1)

not_root : (l : Bytes) (ls : List Bytes) → IsLabel l → is_root_text (dotted (l ∷ ls)) ≡ false
unfolding is_root_text
not_root [] ls h = absurd (omega (arith, h.lower))
not_root (b ∷ []) ls h = refl
not_root (b ∷ c ∷ cs) ls h = refl

from_str-text :
    (ls : List Bytes)
    → All IsLabel ls
    → length (wire ls) ≤ 255
    → from_str (text ls) ≡ ok (record { inner = text ls })
unfolding from_str
from_str-text [] h fits = refl
from_str-text (l ∷ ls) h fits = rw (not_root l ls h.0) (
    rw
      (
        dotted-joined l ls,
        strip_dot-append (joined l ls),
        split_dot-joined l ls h,
        parse_labels-labels (l ∷ ls) [] 1 h (omega arith),
        dotted-joined l ls,
      )
      refl)

-- The text of a valid name parses to the name itself.
pub from_str-inner : (n : Name) → IsValid n → from_str n.inner ≡ ok n
from_str-inner n v =
    subst (λ (t : Bytes). from_str t ≡ ok (record { inner = t })) (sym v.is_text)
      (from_str-text v.labels v.are_labels v.fits)

parse_label_total :
    (l : Bytes) (wire_len : ℕ) {total : ℕ}
    → parse_label l wire_len ≡ ok total
    → (1 ≤ length l)
      × (length l ≤ 63)
      × (validate_label l ≡ ok tt)
      × (total ≡ wire_len + (1 + length l))
      × (total ≤ 255)
unfolding parse_label
parse_label_total l wire_len h = ground arith

-- The labels that the loop of `from_str` lets through.
parse_labels_total :
    (ls : List Bytes) (normalized : Bytes) (wire_len : ℕ) {t : Bytes}
    → wire_len ≤ 255
    → parse_labels ls normalized wire_len ≡ ok t
    → All IsLabel (map lower_label ls)
      × (t ≡ normalized ++ dotted (map lower_label ls))
      × (wire_len + length (wire ls) ≤ 256)
unfolding parse_labels
parse_labels_total [] normalized wire_len hw h =
    (tt, sym (ok-injective h) ∙ sym (append-nil normalized), omega arith)
parse_labels_total (l ∷ ls) normalized wire_len hw h =
    let (total, e, k) = >>=-eq-ok (parse_label l wire_len) _ h in
    let facts = parse_label_total l wire_len e in
    let rest = parse_labels_total ls _ total facts.4 k in
    (
      (validate_label-IsLabel l facts.0 facts.1 facts.2, rest.0),
      rest.1
          ∙ append_assoc normalized (lower_label l ++ (b'.' ∷ [])) (dotted (map lower_label ls))
          ∙ ap (◌++◌ normalized)
              (append_assoc (lower_label l) (b'.' ∷ []) (dotted (map lower_label ls))),
      omega (arith, rest.2, facts.3, length-append l (wire ls)),
    )

push_front-ne-nil : (b : ℕ) (parts : List Bytes) → push_front b parts ≢ []
push_front-ne-nil b [] h = cc
push_front-ne-nil b (p ∷ ps) h = cc

split_dot-ne-nil : (s : Bytes) → split_dot s ≢ []
unfolding split_dot
split_dot-ne-nil [] h = cc
split_dot-ne-nil (b ∷ bs) h = ground (arith, push_front-ne-nil b (split_dot bs))

dotted-text : (ls : List Bytes) → ls ≢ [] → dotted (map lower_label ls) ≡ text (map lower_label ls)
dotted-text [] h = absurd (h refl)
dotted-text (l ∷ ls) h = refl

-- Whatever the text, a name that `from_str` accepts is valid.
pub from_str-IsValid : (s : Bytes) {n : Name} → from_str s ≡ ok n → IsValid n
unfolding from_str
from_str-IsValid s {n} h = elim (Bool-cases (is_root_text s)) [
  | inl root ↦ record {
    labels = [];
    is_text = ap (λ (m : Name). m.inner) (sym (ok-injective (rw root at h)));
    are_labels = tt;
    fits = omega arith;
  }
  | inr other ↦
      let (t, e, k) = >>=-eq-ok (parse_labels (split_dot (strip_dot s)) [] 1) _ (rw other at h) in
      let facts = parse_labels_total (split_dot (strip_dot s)) [] 1 (omega arith) e in
      record {
        labels = map lower_label (split_dot (strip_dot s));
        is_text =
            ap (λ (m : Name). m.inner) (sym (ok-injective k))
            ∙ facts.1
            ∙ dotted-text _ (split_dot-ne-nil (strip_dot s));
        are_labels = facts.0;
        fits = omega (arith, facts.2, length-wire-lower (split_dot (strip_dot s)));
      }
]
