-- ===== src/Blocklist/Parse.antt =====
-- The parsers of src/blocklist/parse.rs. A set of names is the list of their texts, without repetition.
pub mod Plain
pub mod RoundTrip
use sagittarius.Prelude.{
  ℕ, ◌+◌, ◌/◌, ◌%◌, Bool, true, false, ◌&&◌, ◌||◌, Option, none, some, List, [], ◌∷◌, ◌++◌, map,
  ltb, leb, ◌==◌, if◌then◌else◌,
}
use sagittarius.Codec.Error.{Result, ok, err, out_of_fuel}
use sagittarius.Codec.Reader.{Bytes}
use sagittarius.Codec.Name.{Name, from_str}
use sagittarius.Resolver.State.{contains}

-- The characters of a `str`.
abbrev pub Text : Type 0
Text = List ℕ

-- `char::encode_utf8`
unfoldable pub encode_utf8 : ℕ → Bytes
encode_utf8 c =
    if ltb c 128
    then c ∷ []
    else if ltb c 2048
    then (192 + c / 64) ∷ (128 + c % 64) ∷ []
    else if ltb c 65536
    then (224 + c / 4096) ∷ (128 + c / 64 % 64) ∷ (128 + c % 64) ∷ []
    else (240 + c / 262144) ∷ (128 + c / 4096 % 64) ∷ (128 + c / 64 % 64) ∷ (128 + c % 64) ∷ []

abbrev pub as_bytes : Text → Bytes
as_bytes [] = []
as_bytes (c ∷ cs) = encode_utf8 c ++ as_bytes cs

-- `char::is_whitespace`
unfoldable pub is_whitespace : ℕ → Bool
is_whitespace c =
    (leb 9 c && leb c 13)
    || c == 32
    || (leb 128 c
        && (c == 133
            || c == 160
            || c == 5760
            || (leb 8192 c && leb c 8202)
            || c == 8232
            || c == 8233
            || c == 8239
            || c == 8287
            || c == 12288))

-- `char::is_ascii_whitespace`
unfoldable pub is_ascii_whitespace : ℕ → Bool
is_ascii_whitespace c = c == 32 || c == 9 || c == 10 || c == 12 || c == 13

-- A line and whether a line feed ends it.
abbrev pub extend : ℕ → List (Text × Bool) → List (Text × Bool)
extend c [] = (c ∷ [], false) ∷ []
extend c ((line, ended) ∷ lines) = (c ∷ line, ended) ∷ lines

unfoldable pub split_lines : Text → List (Text × Bool)
split_lines [] = []
split_lines (c ∷ cs) =
    let rest = split_lines cs in if c == b'\n' then ([], true) ∷ rest else extend c rest

abbrev pub strip_cr : Text → Text
strip_cr [] = []
strip_cr (c ∷ []) = if c == b'\r' then [] else c ∷ []
strip_cr (c ∷ d ∷ ds) = c ∷ strip_cr (d ∷ ds)

-- `str::lines`
unfoldable pub lines : Text → List Text
unfolding split_lines
lines text = map (λ p. if p.1 then strip_cr p.0 else p.0) (split_lines text)

-- `str::trim`
unfoldable pub trim_start : Text → Text
trim_start [] = []
trim_start (c ∷ cs) = let rest = trim_start cs in if is_whitespace c then rest else c ∷ cs

unfoldable pub trim_end : Text → Text
trim_end [] = []
trim_end (c ∷ cs) = elim (trim_end cs) [
  | [] ↦ if is_whitespace c then [] else c ∷ []
  | d ∷ ds ↦ c ∷ d ∷ ds
]

-- What stands before the first `#`.
unfoldable pub strip_comment : Text → Text
strip_comment [] = []
strip_comment (c ∷ cs) = let rest = strip_comment cs in if c == b'#' then [] else c ∷ rest

-- What is left of a trimmed line.
abbrev pub content_of : Text → Option Text
content_of [] = none
content_of (c ∷ cs) = if c == b'!' then none else some (c ∷ cs)

-- `preprocess`
unfoldable pub preprocess : Text → Option Text
unfolding trim_start trim_end strip_comment
preprocess line = content_of (trim_end (trim_start (strip_comment line)))

abbrev pub flush : Text → List Text → List Text
flush [] fields = fields
flush (c ∷ cs) fields = (c ∷ cs) ∷ fields

-- `str::split_ascii_whitespace`, behind the characters of a field that is not at its end.
unfoldable pub split_fields : Text → Text → List Text
unfolding is_ascii_whitespace
split_fields field [] = flush field []
split_fields field (c ∷ cs) =
    let ended = split_fields [] cs in
    let longer = split_fields (field ++ (c ∷ [])) cs in
    if is_ascii_whitespace c then flush field ended else longer

-- `HashSet::insert`
unfoldable pub insert_name : Name → List Bytes → List Bytes
unfolding contains
insert_name name names = if contains names name then names else name.inner ∷ names

-- `if let Ok(name) = field.parse::<Name>() { names.insert(name) }`
unfoldable pub insert_field : Text → List Bytes → List Bytes
unfolding insert_name
insert_field field names = elim (from_str (as_bytes field)) [
  | ok name ↦ insert_name name names
  | _ ↦ names
]

unfoldable pub insert_fields : List Text → List Bytes → List Bytes
unfolding insert_field
insert_fields [] names = names
insert_fields (field ∷ fields) names = insert_fields fields (insert_field field names)

abbrev pub rest_of : List Text → List Text
rest_of [] = []
rest_of (ip ∷ hostnames) = hostnames

-- The body of the loop of `HostsParser::parse`.
unfoldable pub hosts_line : Text → List Bytes → List Bytes
unfolding preprocess insert_fields
hosts_line line names = elim (preprocess line) [
  | none ↦ names
  | some content ↦ insert_fields (rest_of (split_fields [] content)) names
]

abbrev pub has_whitespace : Text → Bool
has_whitespace [] = false
has_whitespace (c ∷ cs) = is_whitespace c || has_whitespace cs

-- The body of the loop of `DomainListParser::parse`.
unfoldable pub domain_line : Text → List Bytes → List Bytes
unfolding preprocess insert_field
domain_line line names = elim (preprocess line) [
  | none ↦ names
  | some content ↦ if has_whitespace content then names else insert_field content names
]

-- `BlocklistFormat` of src/storage/blocklists.rs, and the `Parser` that `From` makes of it.
pub data BlocklistFormat : Type 0 where
  hosts domain_list : BlocklistFormat

abbrev pub format_line : BlocklistFormat → Text → List Bytes → List Bytes
format_line hosts = hosts_line
format_line domain_list = domain_line

abbrev pub parse_lines : BlocklistFormat → List Text → List Bytes → List Bytes
parse_lines format [] names = names
parse_lines format (line ∷ lines) names = parse_lines format lines (format_line format line names)

-- `Parser::parse`
unfoldable pub parse : BlocklistFormat → Text → List Bytes
unfolding hosts_line domain_line
parse format text = parse_lines format (lines text) []
