-- ===== src/Codec/Name/Skip.antt =====
-- `Name::skip_rr` of src/codec/name.rs: moves a cursor past a name of a record section, following
-- compression pointers. `msg` is the reader's buffer, cloned at the start.
pub mod Ends
pub mod Bounds
pub mod Agree
use sagittarius.Prelude.{
  ℕ, zero, suc, ◌+◌, ◌-◌, ◌*◌, ◌/◌, ◌%◌, ◌^◌, ◌≤◌, ◌<◌, min, max, bit_and, bit_or, ◌≡◌, refl, sym,
  ap, ap₂, ◌∙◌, subst, ◌≢◌, ◌↔◌, ◌⊎◌, inl, inr, Bool, true, false, not, ◌&&◌, ◌||◌, Option, none,
  some, List, [], ◌∷◌, ◌++◌, map, append_assoc, append-nil, arith, ltb, leb, ◌==◌, if◌then◌else◌,
  ltb→lt, lt→ltb, leb→le, le→leb, le→ltb, ltb→le, ==_iff, Bool-cases, Option-cases, length,
  get_elem?, set, take, drop, All, length-append, length-set, length-take, length-drop,
  take-append-drop, take-length_append, drop-length_append, drop-nil, drop-drop, get_elem?-drop,
  get_elem?-lt, get_elem?-le, get_elem?_lookup, drop-get_elem?,
}
use sagittarius.Codec.Error.{
  Error, unexpected_eof, label_too_long, name_too_long, name_skip_limit_exceeded,
  invalid_pointer_target, Result, ok, err, out_of_fuel, ◌>>=◌,
}
use sagittarius.Codec.Reader.{Bytes, Reader, read_slice}
use sagittarius.Codec.Name.{max_label_len, max_name_wire_len}

abbrev pub max_skip_hops : ℕ
max_skip_hops = 16

-- The loop's variables.
pub record SkipState : Type 0 where
  pub reader : Reader
  pub cur_pos : ℕ
  pub fixed_reader : Bool
  pub hops : ℕ
  pub total_label_bytes : ℕ

-- A round returns, or goes on.
pub data Flow : Type 0 where
  return : Reader → Flow
  continue : SkipState → Flow

-- `msg.get(cur_pos).copied().ok_or(UnexpectedEof { .. })`
unfoldable pub octet_at : Bytes → ℕ → Result Error ℕ
octet_at msg cur_pos = elim (get_elem? msg cur_pos) [
  | none ↦ err (unexpected_eof cur_pos 1 (length msg - cur_pos))
  | some b ↦ ok b
]

-- `if !fixed_reader { reader.read_slice(n)?; }`
unfoldable pub sync_reader : Bool → Reader → ℕ → Result Error Reader
sync_reader true r n = ok r
sync_reader false r n = do (slice, r') ← read_slice r n; ok r'

-- The branch of a compression pointer; `cur_pos` stands behind its first octet.
unfoldable pub follow_pointer : Bytes → SkipState → ℕ → ℕ → Result Error Flow
follow_pointer msg s len_byte cur_pos = do
  low_byte ← octet_at msg cur_pos
  let after = cur_pos + 1
  reader ← sync_reader s.fixed_reader s.reader (after - s.reader.pos)
  let target = bit_and len_byte 0x3f * 256 + low_byte
  if leb (length msg) target
      then err (invalid_pointer_target target (length msg))
      else if leb (after - 2) target
      then err (invalid_pointer_target target (length msg))
      else if ltb max_skip_hops (s.hops + 1)
      then err name_skip_limit_exceeded
      else ok (
          continue (record s {
            reader = reader;
            cur_pos = target;
            fixed_reader = true;
            hops = s.hops + 1;
          }))

-- The branch of the root octet.
unfoldable pub end_name : SkipState → ℕ → Result Error Flow
end_name s cur_pos = do
  reader ← sync_reader s.fixed_reader s.reader (cur_pos - s.reader.pos)
  ok (return reader)

-- The branch of a label of `label_len` octets. The sum is small, so `saturating_add` and
-- `checked_add` are plain sums.
unfoldable pub skip_label : Bytes → SkipState → ℕ → ℕ → Result Error Flow
skip_label msg s label_len cur_pos =
    if ltb max_label_len label_len
    then err (label_too_long label_len)
    else if ltb max_name_wire_len (s.total_label_bytes + label_len)
    then err (name_too_long (s.total_label_bytes + label_len))
    else if ltb (length msg) (cur_pos + label_len)
    then err (unexpected_eof cur_pos label_len (length msg - cur_pos))
    else (do
      reader ← sync_reader s.fixed_reader s.reader (1 + label_len)
      ok (
          continue (record s {
            reader = reader;
            cur_pos = cur_pos + label_len;
            total_label_bytes = s.total_label_bytes + label_len;
          })))

-- One round of the loop.
unfoldable pub skip_round : Bytes → SkipState → Result Error Flow
unfolding follow_pointer end_name skip_label octet_at
skip_round msg s = do
  len_byte ← octet_at msg s.cur_pos
  let cur_pos = s.cur_pos + 1
  if bit_and len_byte 0xc0 == 0xc0
      then follow_pointer msg s len_byte cur_pos
      else if not (bit_and len_byte 0xc0 == 0)
      then err (label_too_long len_byte)
      else if len_byte == 0
      then end_name s cur_pos
      else skip_label msg s len_byte cur_pos

-- `continue` in the source is the next round, `next`.
abbrev pub go_on : (SkipState → Result Error Reader) → Flow → Result Error Reader
go_on next (return r) = ok r
go_on next (continue s) = next s

unfoldable pub skip_loop : ℕ → Bytes → SkipState → Result Error Reader
skip_loop zero msg s = out_of_fuel
skip_loop (suc fuel) msg s = do flow ← skip_round msg s; go_on (skip_loop fuel msg) flow

abbrev pub start : Reader → SkipState
start r = record {
  reader = r;
  cur_pos = r.pos;
  fixed_reader = false;
  hops = 0;
  total_label_bytes = 0;
}

-- At most 16 pointers and 255 labels of an octet each, and the round that returns.
abbrev pub skip_fuel : ℕ
skip_fuel = 272

unfoldable pub skip_rr : Reader → Result Error Reader
unfolding skip_loop skip_round sync_reader
skip_rr r = skip_loop skip_fuel r.buf (start r)
