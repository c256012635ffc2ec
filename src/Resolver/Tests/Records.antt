-- ===== src/Resolver/Tests/Records.antt =====
-- Runs of the reverse index on concrete records.
use sagittarius.Prelude.{none, some, [], ◌∷◌}
use sagittarius.Codec.Name.Reverse.{v4}
use sagittarius.Codec.Tests.{name_a_b, a_b-IsValid}
use sagittarius.Resolver.Suffix.{NameEntry, RecordData}
use sagittarius.Resolver.Local.Added.{IsAdded, add-IsAdded}
use sagittarius.Resolver.Local.{LocalRecordsBuilder, build_records, reverse_lookup}
use sagittarius.Resolver.Local.Canonical.{IsCanonical, Owns, reverse_lookup-IsCanonical}

abbrev shared_entry : NameEntry
shared_entry = record { a = some (10 ∷ 0 ∷ 0 ∷ 1 ∷ [], 300); aaaa = none }

-- Two names of one address.
abbrev two_names : LocalRecordsBuilder
two_names = record {
  exact = (b'd' ∷ b'b' ∷ b'.' ∷ [], shared_entry) ∷ (b'a' ∷ b'.' ∷ [], shared_entry) ∷ [];
  wildcard = [];
}

reverse_lookup-IsCanonical_example :
    IsCanonical
      (Owns (v4 (10 ∷ 0 ∷ 0 ∷ 1 ∷ [])) two_names.exact)
      (reverse_lookup (build_records two_names) (v4 (10 ∷ 0 ∷ 0 ∷ 1 ∷ [])))
reverse_lookup-IsCanonical_example = reverse_lookup-IsCanonical two_names (v4 (10 ∷ 0 ∷ 0 ∷ 1 ∷ []))

-- A third name with an address of its own.
add-IsAdded_example : IsAdded name_a_b (RecordData.a (10 ∷ 0 ∷ 0 ∷ 7 ∷ [])) 60 two_names
add-IsAdded_example =
    add-IsAdded name_a_b (RecordData.a (10 ∷ 0 ∷ 0 ∷ 7 ∷ [])) 60 two_names a_b-IsValid
