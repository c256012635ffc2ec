-- ===== src/Blocklist/Tests.antt =====
-- Runs of the blocklist parsers and of the aggregation on concrete lists.
pub mod Refresh
use sagittarius.Prelude.{ℕ, ◌≡◌, some, List, [], ◌∷◌, map}
use sagittarius.Codec.Reader.{Bytes}
use sagittarius.Codec.Tests.{name_a_b, a_b-IsValid}
use sagittarius.Resolver.State.{contains, primary_source}
use sagittarius.Resolver.Tests.Requests.{blocking}
use sagittarius.Blocklist.Parse.{hosts, parse}
use sagittarius.Blocklist.Parse.RoundTrip.{render, parse-render}
use sagittarius.Blocklist.Aggregate.{from_sources, install}
use sagittarius.Blocklist.Aggregate.First.{contribution, install-first_source}

parse-render_example :
    contains (parse hosts (render hosts (name_a_b ∷ name_a_b ∷ []))) name_a_b
    ≡ contains (name_a_b.inner ∷ name_a_b.inner ∷ []) name_a_b
parse-render_example =
    parse-render hosts (name_a_b ∷ name_a_b ∷ []) name_a_b (a_b-IsValid, (a_b-IsValid, tt))

-- The name is in the lists of the second and the third source.
abbrev sources : List (ℕ × List Bytes)
sources = (9, []) ∷ (4, name_a_b.inner ∷ []) ∷ (7, name_a_b.inner ∷ []) ∷ []

install-first_source_example :
    (primary_source (install (from_sources sources) blocking).1.blocklist name_a_b ≡ some 4)
    × ((install (from_sources sources) blocking).0 ≡ map contribution sources)
unfolding contains
install-first_source_example = install-first_source sources blocking name_a_b
