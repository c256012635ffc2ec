-- ===== src/Codec/Name.antt =====
-- src/codec/name.rs: domain names, their text and wire forms. A `str` is the list of its UTF-8
-- bytes. `usize` sums here stay below a few hundred, so `checked_add` cannot fail.
pub mod Valid
pub mod Label
pub mod Write
pub mod Question
pub mod Accepts
pub mod Ends
pub mod Parse
pub mod RoundTrip
pub mod Reverse
pub mod Skip
use sagittarius.Prelude.{
  ℕ, zero, suc, ◌+◌, ◌-◌, ◌*◌, ◌/◌, ◌%◌, ◌^◌, ◌≤◌, ◌<◌, min, max, bit_and, bit_or, ◌≡◌, refl, sym,
  ap, ap₂, ◌∙◌, subst, ◌≢◌, ◌↔◌, ◌⊎◌, inl, inr, Bool, true, false, not, ◌&&◌, ◌||◌, Option, none,
  some, List, [], ◌∷◌, ◌++◌, map, append_assoc, append-nil, arith, ltb, leb, ◌==◌, if◌then◌else◌,
  ltb→lt, lt→ltb, leb→le, le→leb, le→ltb, ltb→le, ==_iff, Bool-cases, Option-cases, length,
  get_elem?, set, take, drop, All, length-append, length-set, length-take, length-drop,
  take-append-drop, take-length_append, drop-length_append, drop-nil, drop-drop, get_elem?-drop,
  get_elem?-lt, get_elem?-le, get_elem?_lookup,
}
use sagittarius.Codec.Error.{
  Error, compression_pointer_in_question, label_too_long, name_too_long, empty_label,
  invalid_label_byte, Result, ok, err, out_of_fuel, ◌>>=◌,
}
use sagittarius.Codec.Reader.{Bytes, Reader, read_u8, read_slice}
use sagittarius.Codec.Writer.{Writer, write_u8, write_slice}

abbrev pub max_label_len : ℕ
max_label_len = 63

abbrev pub max_name_wire_len : ℕ
max_name_wire_len = 255

-- The normalized text, lowercase and with a trailing dot.
pub record Name : Type 0 where
  pub inner : Bytes

-- `u8::to_ascii_lowercase`
unfoldable pub to_ascii_lowercase : ℕ → ℕ
to_ascii_lowercase b = if leb b'A' b && leb b b'Z' then b + 32 else b

-- `u8::is_ascii_alphanumeric`
unfoldable pub is_ascii_alphanumeric : ℕ → Bool
is_ascii_alphanumeric b =
    (leb b'a' b && leb b b'z') || (leb b'A' b && leb b b'Z') || (leb b'0' b && leb b b'9')

-- `label.first() == Some(&b)` and `label.last() == Some(&b)`
unfoldable pub first_is : ℕ → Bytes → Bool
first_is b [] = false
first_is b (x ∷ xs) = x == b

unfoldable pub last_is : ℕ → Bytes → Bool
last_is b [] = false
last_is b (x ∷ []) = x == b
last_is b (x ∷ y ∷ ys) = last_is b (y ∷ ys)

-- The loop of `validate_label`.
unfoldable pub validate_bytes : Bytes → Result Error (Unit {0})
unfolding is_ascii_alphanumeric
validate_bytes [] = ok tt
validate_bytes (b ∷ bs) =
    if not (is_ascii_alphanumeric b || b == b'-' || b == b'_')
    then err (invalid_label_byte b)
    else validate_bytes bs

unfoldable pub validate_label : Bytes → Result Error (Unit {0})
unfolding first_is last_is validate_bytes
validate_label label =
    if first_is b'-' label || last_is b'-' label
    then err (invalid_label_byte b'-')
    else validate_bytes label

-- One non-empty label behind its length octet: the limits, the bytes, their syntax.
unfoldable pub read_label : Reader → ℕ → ℕ → Result Error (Bytes × ℕ × Reader)
read_label r label_len wire_len =
    if ltb max_label_len label_len
    then err (label_too_long label_len)
    else (let total = wire_len + (1 + label_len) in
        if ltb max_name_wire_len total then err (name_too_long total) else (do
          (label, r') ← read_slice r label_len
          valid ← validate_label label
          ok (label, total, r')))

-- The rest of the loop body of `read_question`, behind the length octet; `next` is its next round.
unfoldable pub read_octet :
    (Reader → Bytes → ℕ → Result Error (Bytes × Reader))
    → Bytes
    → ℕ
    → ℕ
    → Reader
    → Result Error (Bytes × Reader)
unfolding read_label
read_octet next normalized wire_len len_byte r =
    if bit_and len_byte 0xc0 == 0xc0
    then err compression_pointer_in_question
    else if len_byte == 0
    then ok (normalized, r)
    else (do
      (label, total, r') ← read_label r len_byte wire_len
      next r' (normalized ++ (map to_ascii_lowercase label ++ (b'.' ∷ []))) total)

-- The loop of `read_question`: the text so far, and the wire length so far.
unfoldable pub read_labels : ℕ → Reader → Bytes → ℕ → Result Error (Bytes × Reader)
read_labels zero r normalized wire_len = out_of_fuel
read_labels (suc fuel) r normalized wire_len = do
  (len_byte, r') ← read_u8 r
  read_octet (read_labels fuel) normalized wire_len len_byte r'

-- Root-only: just the trailing dot.
unfoldable pub from_normalized : Bytes → Name
from_normalized [] = record { inner = b'.' ∷ [] }
from_normalized (b ∷ bs) = record { inner = b ∷ bs }

-- A label takes two octets at least, so a name of 255 octets has at most 127 labels.
abbrev pub question_fuel : ℕ
question_fuel = 128

unfoldable pub read_question : Reader → Result Error (Name × Reader)
unfolding read_labels read_octet from_normalized
read_question r = do
  (normalized, r') ← read_labels question_fuel r [] 1
  ok (from_normalized normalized, r')

abbrev push_front : ℕ → List Bytes → List Bytes
push_front b [] = (b ∷ []) ∷ []
push_front b (part ∷ parts) = (b ∷ part) ∷ parts

-- `str::split('.')`
unfoldable pub split_dot : Bytes → List Bytes
split_dot [] = [] ∷ []
split_dot (b ∷ bs) =
    let parts = split_dot bs in if b == b'.' then [] ∷ parts else push_front b parts

-- The body of the loop of `write`; the final empty segment is skipped.
unfoldable pub write_segment : Writer → Bytes → Writer
write_segment w [] = w
write_segment w (b ∷ bs) = write_slice (write_u8 w (length (b ∷ bs))) (b ∷ bs)

unfoldable pub write_segments : Writer → List Bytes → Writer
unfolding write_segment
write_segments w [] = w
write_segments w (label ∷ labels) = write_segments (write_segment w label) labels

unfoldable pub write : Name → Writer → Writer
unfolding write_segments split_dot
write name w = write_u8 (write_segments w (split_dot name.inner)) 0

-- `s.strip_suffix('.').unwrap_or(s)`
unfoldable pub strip_dot : Bytes → Bytes
strip_dot [] = []
strip_dot (b ∷ []) = if b == b'.' then [] else b ∷ []
strip_dot (b ∷ c ∷ cs) = b ∷ strip_dot (c ∷ cs)

-- The body of the loop of `from_str`: the tests on one label, and the new wire length.
unfoldable pub parse_label : Bytes → ℕ → Result Error ℕ
parse_label label wire_len =
    if length label == 0
    then err empty_label
    else if ltb max_label_len (length label)
    then err (label_too_long (length label))
    else (do
      valid ← validate_label label
      let total = wire_len + (1 + length label)
      if ltb max_name_wire_len total then err (name_too_long total) else ok total)

unfoldable pub parse_labels : List Bytes → Bytes → ℕ → Result Error Bytes
parse_labels [] normalized wire_len = ok normalized
parse_labels (label ∷ labels) normalized wire_len = do
  total ← parse_label label wire_len
  parse_labels labels (normalized ++ (map to_ascii_lowercase label ++ (b'.' ∷ []))) total

-- `s == "." || s.is_empty()`
unfoldable pub is_root_text : Bytes → Bool
is_root_text [] = true
is_root_text (b ∷ []) = b == b'.'
is_root_text (b ∷ c ∷ cs) = false

-- `Name::from_str`
unfoldable pub from_str : Bytes → Result Error Name
unfolding is_root_text
from_str s = if is_root_text s then ok (record { inner = b'.' ∷ [] }) else (do
  normalized ← parse_labels (split_dot (strip_dot s)) [] 1
  ok (record { inner = normalized }))
