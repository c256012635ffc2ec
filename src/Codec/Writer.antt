-- ===== src/Codec/Writer.antt =====
-- src/codec/writer.rs: the output buffer. `finish` hands the bytes over, so it is the field `buf`.
use sagittarius.Prelude.{ℕ, ◌+◌, ◌/◌, ◌%◌, [], ◌∷◌, ◌++◌, set}
use sagittarius.Codec.Reader.{Bytes}

pub record Writer : Type 0 where
  pub buf : Bytes

abbrev pub new : Writer
new = record { buf = [] }

-- `to_be_bytes` of a u16 and of a u32.
abbrev pub u16_bytes : ℕ → Bytes
u16_bytes v = (v / 256 % 256) ∷ (v % 256) ∷ []

abbrev pub u32_bytes : ℕ → Bytes
u32_bytes v = (v / 16777216 % 256) ∷ (v / 65536 % 256) ∷ (v / 256 % 256) ∷ (v % 256) ∷ []

abbrev pub write_slice : Writer → Bytes → Writer
write_slice w bytes = record { buf = w.buf ++ bytes }

abbrev pub write_u8 : Writer → ℕ → Writer
write_u8 w v = record { buf = w.buf ++ (v % 256 ∷ []) }

abbrev pub write_u16 : Writer → ℕ → Writer
write_u16 w v = record { buf = w.buf ++ u16_bytes v }

abbrev pub write_u32 : Writer → ℕ → Writer
write_u32 w v = record { buf = w.buf ++ u32_bytes v }

-- The two index writes; out of bounds they panic, and callers pass an offset inside the buffer.
abbrev pub patch_u16 : Writer → ℕ → ℕ → Writer
patch_u16 w offset v = record {
  buf = set (set w.buf offset (v / 256 % 256)) (offset + 1) (v % 256);
}
