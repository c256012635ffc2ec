-- ===== src/Storage/Blocklists/Rows.antt =====
-- What an update of the metadata, src/storage/blocklists.rs, leaves alone, and statements on a database
-- without faults.
use sagittarius.Prelude.{
  ℕ, ◌≡◌, refl, sym, ap, ap₂, ◌∙◌, inl, inr, Bool, true, false, ◌||◌, List, [], ◌∷◌, ◌==◌,
  if◌then◌else◌, Bool-cases,
}
use sagittarius.Codec.Error.{ok, >>=-eq-ok}
use sagittarius.Codec.Reader.{Bytes}
use sagittarius.Storage.Sqlite.{BlocklistRow, Tables, Db, execute_on}
use sagittarius.Storage.Blocklists.{
  Blocklist, RefreshMetadata, format_from_str, u64_try_from, blocklist_from_row, rows_to_blocklists,
  enabled_rows, update_row, put_metadata, has_id, cache_row, load_cache, save_cache,
  update_refresh_metadata, list_enabled,
}
use sagittarius.Storage.Blocklists.Ends.{cached_in, refreshed_in}
use sagittarius.Storage.Blocklists.Listed.{rows_to_blocklists-cons}

abbrev pub without_faults : Tables → Db
without_faults t = record { tables = t; faults = [] }

pub load_cache-without_faults :
    (id : ℕ) (t : Tables)
    → load_cache id (without_faults t) ≡ (ok (cache_row id t.blocklist_cache), without_faults t)
unfolding load_cache execute_on
load_cache-without_faults id t = refl

pub save_cache-without_faults :
    (now id : ℕ) (content : Bytes) (t : Tables)
    → has_id id t.blocklists ≡ true
    → (save_cache now id content (without_faults t)).1 ≡ without_faults (cached_in now id content t)
unfolding save_cache execute_on
save_cache-without_faults now id content t h = rw h refl

pub update_refresh_metadata-without_faults :
    (id : ℕ) (meta : RefreshMetadata) (t : Tables)
    → (update_refresh_metadata id meta (without_faults t)).1
      ≡ without_faults (refreshed_in id meta t)
unfolding update_refresh_metadata execute_on
update_refresh_metadata-without_faults id meta t = refl

pub list_enabled-without_faults :
    (t : Tables)
    → list_enabled (without_faults t)
      ≡ (rows_to_blocklists (enabled_rows t.blocklists), without_faults t)
unfolding list_enabled execute_on
list_enabled-without_faults t = refl

-- The same sources, up to their metadata.
abbrev pub SameRows : List BlocklistRow → List BlocklistRow → Type 0
SameRows [] [] = Unit
SameRows [] (row ∷ rows) = ⊥
SameRows (row ∷ rows) [] = ⊥
SameRows (row ∷ rows) (row' ∷ rows') =
    ((row.id ≡ row'.id) × (row.format ≡ row'.format) × (row.enabled ≡ row'.enabled))
    × SameRows rows rows'

abbrev pub SameSources : List Blocklist → List Blocklist → Type 0
SameSources [] [] = Unit
SameSources [] (s ∷ ss) = ⊥
SameSources (s ∷ ss) [] = ⊥
SameSources (s ∷ ss) (s' ∷ ss') = ((s.id ≡ s'.id) × (s.format ≡ s'.format)) × SameSources ss ss'

pub SameRows-refl : (rows : List BlocklistRow) → SameRows rows rows
SameRows-refl [] = tt
SameRows-refl (row ∷ rows) = ((refl, refl, refl), SameRows-refl rows)

pub SameRows-trans :
    (xs ys zs : List BlocklistRow) → SameRows xs ys → SameRows ys zs → SameRows xs zs
SameRows-trans [] [] [] h k = tt
SameRows-trans [] [] (z ∷ zs) h k = k
SameRows-trans [] (y ∷ ys) zs h k = absurd h
SameRows-trans (x ∷ xs) [] zs h k = absurd h
SameRows-trans (x ∷ xs) (y ∷ ys) [] h k = k
SameRows-trans (x ∷ xs) (y ∷ ys) (z ∷ zs) h k =
    ((h.0.0 ∙ k.0.0, h.0.1 ∙ k.0.1, h.0.2 ∙ k.0.2), SameRows-trans xs ys zs h.1 k.1)

pub update_row-SameRows :
    (id : ℕ) (meta : RefreshMetadata) (rows : List BlocklistRow)
    → SameRows rows (update_row id (put_metadata meta) rows)
unfolding update_row
update_row-SameRows id meta [] = tt
update_row-SameRows id meta (row ∷ rows) = elim (Bool-cases (row.id == id)) [
  | inl e ↦ simp e ((refl, refl, refl), update_row-SameRows id meta rows)
  | inr e ↦ simp e ((refl, refl, refl), update_row-SameRows id meta rows)
]

pub has_id-SameRows :
    (id : ℕ) (xs ys : List BlocklistRow) → SameRows xs ys → has_id id xs ≡ has_id id ys
unfolding has_id
has_id-SameRows id [] [] h = refl
has_id-SameRows id [] (y ∷ ys) h = absurd h
has_id-SameRows id (x ∷ xs) [] h = absurd h
has_id-SameRows id (x ∷ xs) (y ∷ ys) h =
    ap₂ (λ (n : ℕ) (b : Bool). n == id || b) h.0.0 (has_id-SameRows id xs ys h.1)

SameRows-keep :
    (b b' : Bool) (x y : BlocklistRow) (xs ys : List BlocklistRow)
    → b ≡ b'
    → (x.id ≡ y.id) × (x.format ≡ y.format) × (x.enabled ≡ y.enabled)
    → SameRows xs ys
    → SameRows (if b then x ∷ xs else xs) (if b' then y ∷ ys else ys)
SameRows-keep true true x y xs ys e h k = (h, k)
SameRows-keep false false x y xs ys e h k = k
SameRows-keep true false x y xs ys e h k = cc
SameRows-keep false true x y xs ys e h k = cc

pub enabled_rows-SameRows :
    (xs ys : List BlocklistRow) → SameRows xs ys → SameRows (enabled_rows xs) (enabled_rows ys)
unfolding enabled_rows
enabled_rows-SameRows [] [] h = tt
enabled_rows-SameRows [] (y ∷ ys) h = absurd h
enabled_rows-SameRows (x ∷ xs) [] h = absurd h
enabled_rows-SameRows (x ∷ xs) (y ∷ ys) h =
    SameRows-keep x.enabled y.enabled x y (enabled_rows xs) (enabled_rows ys) h.0.2 h.0
      (enabled_rows-SameRows xs ys h.1)

-- The parts of a source that was decoded.
pub blocklist_from_row-format :
    (row : BlocklistRow) {s : Blocklist}
    → blocklist_from_row row ≡ ok s
    → (s.id ≡ row.id) × (format_from_str row.format ≡ ok s.format)
unfolding blocklist_from_row
blocklist_from_row-format row h =
    let (format, f, g) = >>=-eq-ok (format_from_str row.format) _ h in
    let (count, k, l) = >>=-eq-ok (u64_try_from row.entry_count) _ g in (cc l, f ∙ ap ok (cc l))

same_format :
    (x y : BlocklistRow) {s s' : Blocklist}
    → x.format ≡ y.format
    → blocklist_from_row x ≡ ok s
    → blocklist_from_row y ≡ ok s'
    → s.format ≡ s'.format
same_format x y e h k =
    let f = (blocklist_from_row-format x h).1 in
    let g = (blocklist_from_row-format y k).1 in cc (sym f ∙ (ap format_from_str e ∙ g))

pub rows_to_blocklists-SameSources :
    (xs ys : List BlocklistRow) {ss ss' : List Blocklist}
    → SameRows xs ys
    → rows_to_blocklists xs ≡ ok ss
    → rows_to_blocklists ys ≡ ok ss'
    → SameSources ss ss'
rows_to_blocklists-SameSources [] [] {ss} {ss'} h f g =
    let e : ss ≡ [] = (unfold rows_to_blocklists in cc f) in
    let e' : ss' ≡ [] = (unfold rows_to_blocklists in cc g) in rw (e, e') tt
rows_to_blocklists-SameSources [] (y ∷ ys) h f g = absurd h
rows_to_blocklists-SameSources (x ∷ xs) [] h f g = absurd h
rows_to_blocklists-SameSources (x ∷ xs) (y ∷ ys) {ss} {ss'} h f g =
    let (s, rest, a, b, e) = rows_to_blocklists-cons x xs f in
    let (s', rest', a', b', e') = rows_to_blocklists-cons y ys g in
    rw (e, e')
      (
        (
          (blocklist_from_row-format x a).0 ∙ (h.0.0 ∙ sym (blocklist_from_row-format y a').0),
          same_format x y h.0.1 a a',
        ),
        rows_to_blocklists-SameSources xs ys h.1 b b',
      )
