-- ===== src/Blocklist/Parse/RoundTrip.antt =====
-- A blocklist that is written line by line is read back by src/blocklist/parse.rs.
use sagittarius.Prelude.{
  ◌≤◌, ◌≡◌, refl, ap, ◌∙◌, subst, inl, inr, Bool, true, false, ◌||◌, some, List, [], ◌∷◌, ◌++◌, map,
  arith, equal, equal→path, Bool-cases, length, set, drop, All, length-append,
}
use sagittarius.Codec.Reader.{Bytes}
use sagittarius.Codec.Name.{Name}
use sagittarius.Codec.Name.Valid.{IsValid, dotted, text}
use sagittarius.Codec.Name.Parse.{from_str-inner}
use sagittarius.Resolver.State.{contains}
use sagittarius.Blocklist.Parse.{
  Text, is_ascii_whitespace, split_lines, lines, preprocess, split_fields, insert_name,
  insert_field, insert_fields, hosts_line, domain_line, BlocklistFormat, hosts, domain_list,
  format_line, parse_lines, parse,
}
use sagittarius.Blocklist.Parse.Plain.{
  IsPlain, IsInk, All-append, text-IsPlain, plain-IsInk, as_bytes_plain, has_whitespace_plain,
  lines_ink, trim_end_plain, preprocess_ink, split_fields_plain,
}

-- The line of a name in a list of the format.
abbrev pub sink : Text
sink = b'0' ∷ b'.' ∷ b'0' ∷ b'.' ∷ b'0' ∷ b'.' ∷ b'0' ∷ []

sink-IsPlain : All IsPlain sink
sink-IsPlain =
    let digit : IsPlain b'0' = (omega arith, omega arith) in
    let dot : IsPlain b'.' = (omega arith, omega arith) in
    (digit, (dot, (digit, (dot, (digit, (dot, (digit, tt)))))))

abbrev pub line_of : BlocklistFormat → Name → Text
line_of hosts name = sink ++ (b' ' ∷ name.inner)
line_of domain_list name = name.inner

abbrev pub render : BlocklistFormat → List Name → Text
render format [] = []
render format (name ∷ names) = line_of format name ++ (b'\n' ∷ render format names)

name-IsPlain : (name : Name) → IsValid name → All IsPlain name.inner
name-IsPlain name v = rw v.is_text (text-IsPlain v.labels v.are_labels)

insert_field-inner :
    (name : Name) (names : List Bytes)
    → IsValid name
    → insert_field name.inner names ≡ insert_name name names
unfolding insert_field
insert_field-inner name names v =
    rw (as_bytes_plain name.inner (name-IsPlain name v), insert_field, from_str-inner name v) refl

sink-IsInk : (l : Text) → All IsPlain l → All IsInk (drop 1 sink ++ (b' ' ∷ l))
sink-IsInk l h =
    All-append IsInk (drop 1 sink) (b' ' ∷ l) (plain-IsInk (drop 1 sink) sink-IsPlain.1)
      ((omega arith, λ e. omega (arith, e)), plain-IsInk l h)

domain_line-inner :
    (l : Text) (names : List Bytes)
    → All IsPlain l
    → 1 ≤ length l
    → domain_line l names ≡ insert_field l names
unfolding domain_line
domain_line-inner [] names h k = absurd (omega arith)
domain_line-inner (c ∷ cs) names h k =
    let e : preprocess (c ∷ cs) ≡ some (c ∷ cs) =
      preprocess_ink c cs h.0 (plain-IsInk cs h.1) (trim_end_plain [] c cs h) in
    rw (e, domain_line, has_whitespace_plain (c ∷ cs) h) refl

sink_fields : (l : Text) → split_fields [] (sink ++ (b' ' ∷ l)) ≡ sink ∷ split_fields [] l
unfolding split_fields is_ascii_whitespace
sink_fields l = refl

hosts_line-inner :
    (l : Text) (names : List Bytes)
    → All IsPlain l
    → 1 ≤ length l
    → hosts_line (sink ++ (b' ' ∷ l)) names ≡ insert_field l names
unfolding hosts_line
hosts_line-inner [] names h k = absurd (omega arith)
hosts_line-inner (c ∷ cs) names h k =
    let line = sink ++ (b' ' ∷ c ∷ cs) in
    let e : preprocess line ≡ some line =
      preprocess_ink b'0' (drop 1 sink ++ (b' ' ∷ c ∷ cs)) (omega arith, omega arith)
        (sink-IsInk (c ∷ cs) h) (trim_end_plain (sink ++ (b' ' ∷ [])) c cs h) in
    let fields : split_fields [] line ≡ sink ∷ (c ∷ cs) ∷ [] =
      sink_fields (c ∷ cs) ∙ ap (◌∷◌ sink) (split_fields_plain [] (c ∷ cs) h) in
    rw (e, hosts_line, fields, insert_fields, insert_fields) refl

inner_nonempty : (name : Name) → IsValid name → 1 ≤ length name.inner
inner_nonempty name v = rw v.is_text (text_nonempty v.labels)
  where
    text_nonempty : (ls : List Bytes) → 1 ≤ length (text ls)
    text_nonempty [] = omega arith
    text_nonempty (l ∷ ls) = omega (arith, length-append l (b'.' ∷ dotted ls))

format_line-inner :
    (format : BlocklistFormat) (name : Name) (names : List Bytes)
    → IsValid name
    → format_line format (line_of format name) names ≡ insert_name name names
format_line-inner hosts name names v =
    hosts_line-inner name.inner names (name-IsPlain name v) (inner_nonempty name v)
    ∙ insert_field-inner name names v
format_line-inner domain_list name names v =
    domain_line-inner name.inner names (name-IsPlain name v) (inner_nonempty name v)
    ∙ insert_field-inner name names v

line_of-IsInk :
    (format : BlocklistFormat) (name : Name) → IsValid name → All IsInk (line_of format name)
line_of-IsInk hosts name v =
    let first = plain-IsInk sink sink-IsPlain in
    (first.0, sink-IsInk name.inner (name-IsPlain name v))
line_of-IsInk domain_list name v = plain-IsInk name.inner (name-IsPlain name v)

abbrev insert_names : List Name → List Bytes → List Bytes
insert_names [] set = set
insert_names (name ∷ names) set = insert_names names (insert_name name set)

parse_lines-render :
    (format : BlocklistFormat) (names : List Name) (set : List Bytes)
    → All IsValid names
    → parse_lines format (lines (render format names)) set ≡ insert_names names set
unfolding lines split_lines
parse_lines-render format [] set v = refl
parse_lines-render format (name ∷ names) set v =
    ap (λ ls. parse_lines format ls set)
      (lines_ink (line_of format name) (render format names) (line_of-IsInk format name v.0))
    ∙ ap (parse_lines format (lines (render format names))) (format_line-inner format name set v.0)
    ∙ parse_lines-render format names (insert_name name set) v.1

or_comm : (a b : Bool) → (a || b) ≡ (b || a)
or_comm true true = refl
or_comm true false = refl
or_comm false true = refl
or_comm false false = refl

or_assoc : (a b c : Bool) → ((a || b) || c) ≡ (a || (b || c))
or_assoc true b c = refl
or_assoc false b c = refl

contains-insert_name :
    (name m : Name) (set : List Bytes)
    → contains (insert_name name set) m ≡ (contains set m || equal name.inner m.inner)
unfolding insert_name contains
contains-insert_name name m set = elim (Bool-cases (contains set name)) [
  | inr new ↦ rw (new, insert_name) (or_comm (equal name.inner m.inner) (contains set m))
  | inl old ↦ elim (Bool-cases (equal name.inner m.inner)) [
    | inr other ↦ rw (old, insert_name, other) (or_comm false (contains set m))
    | inl same ↦
        let there : contains set m ≡ true =
          subst (λ b. contains set (record { inner = b }) ≡ true)
            (equal→path name.inner m.inner same) old in
        rw (old, insert_name, there) refl
  ]
]

contains-insert_names :
    (names : List Name) (m : Name) (set : List Bytes)
    → contains (insert_names names set) m
      ≡ (contains set m || contains (map (λ n. n.inner) names) m)
unfolding contains
contains-insert_names [] m set = or_comm false (contains set m)
contains-insert_names (name ∷ names) m set =
    contains-insert_names names m (insert_name name set)
    ∙ ap (λ b. b || contains (map (λ n. n.inner) names) m) (contains-insert_name name m set)
    ∙ or_assoc (contains set m) (equal name.inner m.inner) (contains (map (λ n. n.inner) names) m)

-- Valid names that are written line by line, in either format, are parsed to the set of these names.
pub parse-render :
    (format : BlocklistFormat) (names : List Name) (m : Name)
    → All IsValid names
    → contains (parse format (render format names)) m ≡ contains (map (λ n. n.inner) names) m
unfolding parse
parse-render format names m v =
    ap (λ set. contains set m) (parse_lines-render format names [] v)
    ∙ contains-insert_names names m []
