-- ===== src/Codec/Message/Total.antt =====
-- `Query::parse` of src/codec/message.rs ends on every datagram.
use sagittarius.Codec.Error.{
  Result, ok, err, out_of_fuel, map_err, Returns, with_value, with_error, guard-Returns, returns,
}
use sagittarius.Codec.Reader.{Bytes, Reader}
use sagittarius.Codec.Reader.Laws.{read_u16-Returns}
use sagittarius.Codec.Name.Ends
use sagittarius.Codec.Header.{Header}
use sagittarius.Codec.Header.Wire
use sagittarius.Codec.Message.{read_question, parse_body, parse}

map_err-Returns {ℓ} :
    {E F : Type 0} {A : Type ℓ} (f : E → F) (m : Result E A) → Returns m → Returns (map_err f m)
map_err-Returns f (ok a) h = with_value a
map_err-Returns f (err e) h = with_error (f e)
map_err-Returns f out_of_fuel h = elim h [ ]

ruleset parse_rules = (
  returns, guard-Returns, map_err-Returns, read_u16-Returns, Ends.read_question-Returns,
  Wire.read-Returns,
)

pub read_question-Returns : (r : Reader) → Returns (read_question r)
unfolding read_question
read_question-Returns r = search parse_rules depth 12

parse_body-Returns : (raw : Bytes) (h : Header) (r : Reader) → Returns (parse_body raw h r)
unfolding parse_body
parse_body-Returns raw h r = search (parse_rules, read_question-Returns) depth 12

-- The parse of a datagram never runs out of fuel.
pub parse-Returns : (raw : Bytes) → Returns (parse raw)
unfolding parse
parse-Returns raw = search (parse_rules, parse_body-Returns) depth 12
