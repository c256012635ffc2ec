-- ===== src/Codec/Reader.antt =====
-- src/codec/reader.rs: the bounds-checked cursor. A buffer is the list of its bytes. A read
-- returns the value and the reader after it; every caller drops the reader of a failed read.
-- `pos + n` cannot pass `usize::MAX` unless it passes the buffer's length, and both tests of
-- `read_slice` raise the same error, so the sum is a plain number here.
pub mod Laws
use sagittarius.Prelude.{
  ℕ, ◌+◌, ◌-◌, ◌*◌, List, [], ◌∷◌, Option, none, some, leb, ltb, if◌then◌else◌, length, get_elem?,
  take, drop,
}
use sagittarius.Codec.Error.{Error, unexpected_eof, Result, ok, err}

abbrev pub Bytes : Type 0
Bytes = List ℕ

pub record Reader : Type 0 where
  pub buf : Bytes
  pub pos : ℕ

abbrev pub new : Bytes → Reader
new buf = record { buf = buf; pos = 0 }

-- `len.saturating_sub(pos)` is the truncated subtraction.
abbrev pub remaining : Reader → ℕ
remaining r = length r.buf - r.pos

abbrev pub eof : Reader → ℕ → Error
eof r needed = unexpected_eof r.pos needed (remaining r)

-- `self.pos += n`
abbrev pub advance : Reader → ℕ → Reader
advance r n = record r { pos = r.pos + n }

-- `buf.get(start..start + n)`
unfoldable pub get_range : Bytes → ℕ → ℕ → Option Bytes
get_range buf start n =
    if leb (start + n) (length buf) then some (take n (drop start buf)) else none

-- `u16::from_be_bytes` and `u32::from_be_bytes` on the bytes of a slice of that size.
abbrev pub be_u16 : Bytes → ℕ
be_u16 (a ∷ b ∷ _) = a * 256 + b
be_u16 _ = 0

abbrev pub be_u32 : Bytes → ℕ
be_u32 (a ∷ b ∷ c ∷ d ∷ _) = ((a * 256 + b) * 256 + c) * 256 + d
be_u32 _ = 0

unfoldable pub read_u8 : Reader → Result Error (ℕ × Reader)
read_u8 r = elim (get_elem? r.buf r.pos) [ none ↦ err (eof r 1) | some b ↦ ok (b, advance r 1) ]

unfoldable pub read_u16 : Reader → Result Error (ℕ × Reader)
read_u16 r = elim (get_range r.buf r.pos 2) [
  | none ↦ err (eof r 2)
  | some slice ↦ ok (be_u16 slice, advance r 2)
]

unfoldable pub read_u32 : Reader → Result Error (ℕ × Reader)
read_u32 r = elim (get_range r.buf r.pos 4) [
  | none ↦ err (eof r 4)
  | some slice ↦ ok (be_u32 slice, advance r 4)
]

unfoldable pub read_slice : Reader → ℕ → Result Error (Bytes × Reader)
read_slice r n =
    let end = r.pos + n in
    if ltb (length r.buf) end then err (eof r n) else ok (take n (drop r.pos r.buf), advance r n)

unfoldable pub peek_slice : Reader → ℕ → Result Error Bytes
peek_slice r n =
    let end = r.pos + n in
    if ltb (length r.buf) end then err (eof r n) else ok (take n (drop r.pos r.buf))

unfoldable pub peek_u8 : Reader → Result Error ℕ
peek_u8 r = elim (get_elem? r.buf r.pos) [ none ↦ err (eof r 1) | some b ↦ ok b ]
