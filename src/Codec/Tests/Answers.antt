-- ===== src/Codec/Tests/Answers.antt =====
-- Runs of the TTL scan, the EDNS scan and the responses on concrete bytes.
use sagittarius.Prelude.{◌≡◌, refl, true, false, none, some, [], ◌∷◌, arith, length}
use sagittarius.Codec.Error.{ok}
use sagittarius.Codec.Reader
use sagittarius.Codec.Reader.{Bytes, Reader, new, advance, read_slice}
use sagittarius.Codec.Ttl
use sagittarius.Codec.Ttl.{TtlScan, scan}
use sagittarius.Codec.Ttl.Sound.{IsScan, scan-IsScan}
use sagittarius.Codec.Name.Skip
use sagittarius.Codec.Name.Skip.{
  skip_rr, skip_loop, skip_round, follow_pointer, skip_label, octet_at, sync_reader,
}
use sagittarius.Codec.Header
use sagittarius.Codec.Header.{Header, query}
use sagittarius.Codec.Message.RoundTrip.{message}
use sagittarius.Codec.Message.{Query}
use sagittarius.Codec.Header.{Rcode, no_error, form_err, not_impl}
use sagittarius.Codec.Name.Valid.{wire}
use sagittarius.Codec.Edns
use sagittarius.Codec.Edns.{EdnsInfo}
use sagittarius.Codec.Edns.Cookie.{IsCookie, scan-IsCookie}
use sagittarius.Codec.Synth.{
  BlockMode, address, block, local, local_nodata, local_ptr, error_response, truncated,
}
use sagittarius.Codec.Synth.Layout.{IsResponse, reply_flags}
use sagittarius.Codec.Synth.Replies.{block-IsResponse, replies}
use sagittarius.Codec.Tests.{name_a_b, a_b-IsValid, request, asked}

-- A response whose only record has the root as its owner, type A and a TTL of 300.
abbrev pub one_record : Bytes
one_record =
    0 ∷ 1 ∷ 0x80 ∷ 0 ∷ 0 ∷ 0 ∷ 0 ∷ 1 ∷ 0 ∷ 0 ∷ 0 ∷ 0 ∷ 0 ∷ 0 ∷ 1 ∷ 0 ∷ 1 ∷ 0 ∷ 0 ∷ 1 ∷ 44 ∷ 0 ∷ 4
    ∷ 127 ∷ 0 ∷ 0 ∷ 1 ∷ []

abbrev pub one_scan : TtlScan
one_scan = record { min_ttl = some 300; ttl_offsets = 17 ∷ [] }

pub scan_one : scan one_record ≡ ok one_scan
unfolding scan Ttl.skip_questions Ttl.scan_records Ttl.read_record Ttl.tally skip_rr skip_loop
    skip_round Skip.end_name octet_at sync_reader read_slice Header.read Reader.read_u16
    Reader.read_u32 Reader.get_range
scan_one = refl

scan-IsScan_example : IsScan one_record (length one_record) one_scan
scan-IsScan_example = scan-IsScan one_record scan_one

-- The request above as `parse` returns it, with EDNS and a client cookie.
abbrev query_a_b : Query
query_a_b = record {
  raw = message request asked [];
  header = request;
  question = asked;
  question_end = 21;
}

abbrev edns : EdnsInfo
edns = record { udp_payload_size = 4096; cookie = some (1 ∷ 2 ∷ 3 ∷ 4 ∷ 5 ∷ 6 ∷ 7 ∷ 8 ∷ []) }

abbrev sinkhole : BlockMode
sinkhole =
    address (0 ∷ 0 ∷ 0 ∷ 0 ∷ [])
      (0 ∷ 0 ∷ 0 ∷ 0 ∷ 0 ∷ 0 ∷ 0 ∷ 0 ∷ 0 ∷ 0 ∷ 0 ∷ 0 ∷ 0 ∷ 0 ∷ 0 ∷ 0 ∷ [])

block-IsResponse_example :
    IsResponse query_a_b
      (reply_flags query_a_b no_error false false)
      (record { rtype = 1; ttl = 60; rdata = 0 ∷ 0 ∷ 0 ∷ 0 ∷ [] } ∷ [])
      (some edns)
      (block query_a_b sinkhole 60 (some edns))
block-IsResponse_example = block-IsResponse query_a_b sinkhole 60 (some edns) (omega arith)

replies_example :
    IsResponse query_a_b
      (reply_flags query_a_b no_error true false)
      []
      none
      (local query_a_b [] 60 none)
    × IsResponse query_a_b
        (reply_flags query_a_b no_error true false)
        []
        none
        (local_nodata query_a_b none)
    × IsResponse query_a_b
        (reply_flags query_a_b no_error true false)
        (record { rtype = 12; ttl = 60; rdata = wire a_b-IsValid.labels } ∷ [])
        none
        (local_ptr query_a_b name_a_b 60 none)
    × IsResponse query_a_b
        (reply_flags query_a_b Rcode.serv_fail false false)
        []
        none
        (error_response query_a_b Rcode.serv_fail none)
    × IsResponse query_a_b
        (reply_flags query_a_b no_error false true)
        []
        none
        (truncated query_a_b none)
replies_example = replies query_a_b [] name_a_b a_b-IsValid 60 Rcode.serv_fail none (omega arith)

-- A query with an OPT record whose cookie option holds eight octets.
abbrev with_opt : Bytes
with_opt =
    0 ∷ 1 ∷ 1 ∷ 0 ∷ 0 ∷ 0 ∷ 0 ∷ 0 ∷ 0 ∷ 0 ∷ 0 ∷ 1 ∷ 0 ∷ 0 ∷ 41 ∷ 16 ∷ 0 ∷ 0 ∷ 0 ∷ 0 ∷ 0 ∷ 0 ∷ 12 ∷ 0
    ∷ 10 ∷ 0 ∷ 8 ∷ 1 ∷ 2 ∷ 3 ∷ 4 ∷ 5 ∷ 6 ∷ 7 ∷ 8 ∷ []

abbrev query_with_opt : Query
query_with_opt = record { raw = with_opt; header = request; question = asked; question_end = 12 }

edns_found : Edns.scan query_with_opt ≡ some edns
unfolding Edns.scan Edns.scan_sections Edns.skip_records Edns.find_opt Edns.extract_cookie
    Edns.find_cookie Ttl.skip_questions skip_rr skip_loop skip_round Skip.end_name octet_at
    sync_reader read_slice Header.read Reader.read_u16 Reader.read_u32 Reader.get_range
edns_found = refl

scan-IsCookie_example : IsCookie (1 ∷ 2 ∷ 3 ∷ 4 ∷ 5 ∷ 6 ∷ 7 ∷ 8 ∷ [])
scan-IsCookie_example = scan-IsCookie query_with_opt edns_found refl
