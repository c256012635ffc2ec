-- ===== src/Codec/Name/Valid.antt =====
-- What a `Name` of src/codec/name.rs promises, stated on its own: the text and the wire form are
-- two renderings of one list of labels.
use sagittarius.Prelude.{
  ℕ, ◌+◌, ◌*◌, ◌≤◌, ◌≡◌, ◌⊎◌, List, [], ◌∷◌, ◌++◌, arith, length, All, length-append,
}
use sagittarius.Codec.Reader.{Bytes}
use sagittarius.Codec.Name.{Name}

-- A lowercase letter, a digit, a hyphen or an underscore.
abbrev pub IsLabelByte : ℕ → Type 0
IsLabelByte b = ((b'a' ≤ b) × (b ≤ b'z')) ⊎ ((b'0' ≤ b) × (b ≤ b'9')) ⊎ (b ≡ b'-') ⊎ (b ≡ b'_')

abbrev pub Starts : ℕ → Bytes → Type 0
Starts b [] = ⊥
Starts b (x ∷ xs) = x ≡ b

abbrev pub Ends : ℕ → Bytes → Type 0
Ends b [] = ⊥
Ends b (x ∷ []) = x ≡ b
Ends b (x ∷ y ∷ ys) = Ends b (y ∷ ys)

-- A label of a normalized name (RFC 1035 §2.3.4, hyphens inside only).
pub record IsLabel (l : Bytes) : Type 0 where
  pub lower : 1 ≤ length l
  pub upper : length l ≤ 63
  pub bytes : All IsLabelByte l
  pub no_start : ¬ (Starts b'-' l)
  pub no_end : ¬ (Ends b'-' l)

-- Every label behind its length octet, then the root's zero octet.
abbrev pub wire : List Bytes → Bytes
wire [] = 0 ∷ []
wire (l ∷ ls) = length l ∷ (l ++ wire ls)

-- Every label before a dot.
abbrev pub dotted : List Bytes → Bytes
dotted [] = []
dotted (l ∷ ls) = l ++ (b'.' ∷ dotted ls)

-- The root is a lone dot.
abbrev pub text : List Bytes → Bytes
text [] = b'.' ∷ []
text (l ∷ ls) = dotted (l ∷ ls)

pub record IsValid (n : Name) : Type 0 where
  pub labels : List Bytes
  pub is_text : n.inner ≡ text labels
  pub are_labels : All IsLabel labels
  pub fits : length (wire labels) ≤ 255

-- A label takes two octets of the wire form at least.
pub wire_size : (ls : List Bytes) → All IsLabel ls → 2 * length ls + 1 ≤ length (wire ls)
wire_size [] h = omega arith
wire_size (l ∷ ls) h = omega (arith, h.0.lower, length-append l (wire ls), wire_size ls h.1)
