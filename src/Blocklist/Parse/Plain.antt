-- ===== src/Blocklist/Parse/Plain.antt =====
-- The text functions of src/blocklist/parse.rs on the characters of a name.
use sagittarius.Prelude.{
  ℕ, ◌<◌, ◌≡◌, refl, sym, ap, ◌∙◌, ◌≢◌, true, false, some, List, [], ◌∷◌, ◌++◌, append_assoc,
  append-nil, arith, ◌==◌, lt→ltb, All,
}
use sagittarius.Codec.Reader.{Bytes}
use sagittarius.Codec.Name.Valid.{IsLabelByte, IsLabel, dotted, text}
use sagittarius.Blocklist.Parse.{
  Text, encode_utf8, as_bytes, is_whitespace, is_ascii_whitespace, extend, split_lines, strip_cr,
  lines, trim_start, trim_end, strip_comment, preprocess, flush, split_fields, has_whitespace,
}

-- The characters of a name, and those that neither end a line nor begin a comment.
abbrev pub IsPlain : ℕ → Type 0
IsPlain c = (44 < c) × (c < 128)

abbrev pub IsInk : ℕ → Type 0
IsInk c = (31 < c) × (c ≢ 35)

pub All-append :
    {A : Type 0} (P : A → Type 0) (xs ys : List A) → All P xs → All P ys → All P (xs ++ ys)
All-append P [] ys h k = k
All-append P (x ∷ xs) ys h k = (h.0, All-append P xs ys h.1 k)

label-IsPlain : (l : Bytes) → All IsLabelByte l → All IsPlain l
label-IsPlain [] h = tt
label-IsPlain (c ∷ cs) h = (ground (arith, h.0), label-IsPlain cs h.1)

dotted-IsPlain : (ls : List Bytes) → All IsLabel ls → All IsPlain (dotted ls)
dotted-IsPlain [] h = tt
dotted-IsPlain (l ∷ ls) h =
    All-append IsPlain l (b'.' ∷ dotted ls) (label-IsPlain l h.0.bytes)
      ((omega arith, omega arith), dotted-IsPlain ls h.1)

pub text-IsPlain : (ls : List Bytes) → All IsLabel ls → All IsPlain (text ls)
text-IsPlain [] h = ((omega arith, omega arith), tt)
text-IsPlain (l ∷ ls) h = dotted-IsPlain (l ∷ ls) h

pub plain-IsInk : (l : Text) → All IsPlain l → All IsInk l
plain-IsInk [] h = tt
plain-IsInk (c ∷ cs) h = ((omega (arith, h.0), λ e. omega (arith, h.0, e)), plain-IsInk cs h.1)

pub as_bytes_plain : (l : Text) → All IsPlain l → as_bytes l ≡ l
unfolding encode_utf8
as_bytes_plain [] h = refl
as_bytes_plain (c ∷ cs) h = rw (lt→ltb c 128 h.0.1) (ap (◌∷◌ c) (as_bytes_plain cs h.1))

whitespace_plain : (c : ℕ) → IsPlain c → is_whitespace c ≡ false
unfolding is_whitespace
whitespace_plain c h = ground (arith, h)

ascii_whitespace_plain : (c : ℕ) → IsPlain c → is_ascii_whitespace c ≡ false
unfolding is_ascii_whitespace
ascii_whitespace_plain c h = ground (arith, h)

pub has_whitespace_plain : (l : Text) → All IsPlain l → has_whitespace l ≡ false
has_whitespace_plain [] h = refl
has_whitespace_plain (c ∷ cs) h = rw (whitespace_plain c h.0) (has_whitespace_plain cs h.1)

strip_comment_ink : (l : Text) → All IsInk l → strip_comment l ≡ l
unfolding strip_comment
strip_comment_ink [] h = refl
strip_comment_ink (c ∷ cs) h =
    let other : (c == b'#') ≡ false = ground (arith, h.0) in
    rw other (ap (◌∷◌ c) (strip_comment_ink cs h.1))

strip_cr_ink : (l : Text) → All IsInk l → strip_cr l ≡ l
strip_cr_ink [] h = refl
strip_cr_ink (c ∷ []) h = let other : (c == b'\r') ≡ false = ground (arith, h.0) in rw other refl
strip_cr_ink (c ∷ d ∷ ds) h = ap (◌∷◌ c) (strip_cr_ink (d ∷ ds) h.1)

split_lines_ink :
    (l rest : Text) → All IsInk l → split_lines (l ++ (b'\n' ∷ rest)) ≡ (l, true) ∷ split_lines rest
unfolding split_lines
split_lines_ink [] rest h = refl
split_lines_ink (c ∷ cs) rest h =
    let other : (c == b'\n') ≡ false = ground (arith, h.0) in
    rw other (ap (extend c) (split_lines_ink cs rest h.1))

pub lines_ink : (l rest : Text) → All IsInk l → lines (l ++ (b'\n' ∷ rest)) ≡ l ∷ lines rest
unfolding lines
lines_ink l rest h = rw (split_lines_ink l rest h, strip_cr_ink l h) refl

pub trim_end_plain :
    (xs : Text) (c : ℕ) (cs : Text)
    → All IsPlain (c ∷ cs)
    → trim_end (xs ++ (c ∷ cs)) ≡ xs ++ (c ∷ cs)
unfolding trim_end
trim_end_plain [] c [] h = rw (whitespace_plain c h.0) refl
trim_end_plain [] c (d ∷ ds) h = rw (trim_end_plain [] d ds h.1, trim_end) refl
trim_end_plain (x ∷ []) c cs h = rw (trim_end_plain [] c cs h, trim_end) refl
trim_end_plain (x ∷ y ∷ ys) c cs h = rw (trim_end_plain (y ∷ ys) c cs h, trim_end) refl

-- A line of ink that begins with a character of a name and does not end in white space.
pub preprocess_ink :
    (x : ℕ) (xs : Text)
    → IsPlain x
    → All IsInk xs
    → trim_end (x ∷ xs) ≡ x ∷ xs
    → preprocess (x ∷ xs) ≡ some (x ∷ xs)
unfolding preprocess trim_start
preprocess_ink x xs hx h trimmed =
    let line = x ∷ xs in
    let bare : strip_comment line ≡ line =
      strip_comment_ink line ((omega (arith, hx), λ e. omega (arith, hx, e)), h) in
    let other : (x == b'!') ≡ false = ground (arith, hx) in
    rw (bare, whitespace_plain x hx, trimmed, other) refl

pub split_fields_plain : (f l : Text) → All IsPlain l → split_fields f l ≡ flush (f ++ l) []
unfolding split_fields
split_fields_plain f [] h = ap (λ t. flush t []) (sym (append-nil f))
split_fields_plain f (c ∷ cs) h =
    rw (ascii_whitespace_plain c h.0) (
      split_fields_plain (f ++ (c ∷ [])) cs h.1 ∙ ap (λ t. flush t []) (append_assoc f (c ∷ []) cs))
