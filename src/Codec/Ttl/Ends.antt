-- ===== src/Codec/Ttl/Ends.antt =====
-- `TtlScan::scan` of src/codec/ttl.rs ends on every message.
use sagittarius.Prelude.{ℕ, zero, suc}
use sagittarius.Codec.Error.{Returns, with_value, returns}
use sagittarius.Codec.Reader.{Bytes, Reader}
use sagittarius.Codec.Reader.Laws.{read_u16-Returns, read_u32-Returns, read_slice-Returns}
use sagittarius.Codec.Name.Skip.Ends.{skip_rr-Returns}
use sagittarius.Codec.Header.Wire
use sagittarius.Codec.Ttl.{TtlScan, skip_questions, read_record, scan_records, scan}

ruleset reads = (
  returns, skip_rr-Returns, read_u16-Returns, read_u32-Returns, read_slice-Returns,
  Wire.read-Returns,
)

pub skip_questions-Returns : (n : ℕ) (r : Reader) → Returns (skip_questions n r)
unfolding skip_questions
skip_questions-Returns zero r = with_value r
skip_questions-Returns (suc n) r = search (reads, skip_questions-Returns n) depth 12

pub read_record-Returns : (r : Reader) → Returns (read_record r)
unfolding read_record
read_record-Returns r = search reads depth 16

scan_records-Returns : (n : ℕ) (r : Reader) (s : TtlScan) → Returns (scan_records n r s)
unfolding scan_records
scan_records-Returns zero r s = with_value s
scan_records-Returns (suc n) r s =
    search (reads, read_record-Returns, scan_records-Returns n) depth 12

-- The scan of a message never runs out of fuel.
pub scan-Returns : (message : Bytes) → Returns (scan message)
unfolding scan
scan-Returns message = search (reads, skip_questions-Returns, scan_records-Returns) depth 12
