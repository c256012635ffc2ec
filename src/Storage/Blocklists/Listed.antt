-- ===== src/Storage/Blocklists/Listed.antt =====
-- The sources that `SqliteBlocklistRepo::list_enabled` of src/storage/blocklists.rs returns.
use sagittarius.Prelude.{
  ℕ, ◌≡◌, refl, sym, ap, ◌∙◌, subst, ◌⊎◌, inl, inr, Bool, true, false, List, [], ◌∷◌, ◌==◌, equal,
  if◌then◌else◌, Bool-cases, All,
}
use sagittarius.Codec.Error.{
  Result, ok, err, >>=-eq-ok, Returns, Returns-cases, with_value, with_error, >>=-Returns,
  if-Returns,
}
use sagittarius.Blocklist.Parse.{hosts, domain_list}
use sagittarius.Resolver.State.{ℤ, pos, negsuc}
use sagittarius.Storage.Sqlite.{StorageError, decode_text, decode_number, BlocklistRow, Db}
use sagittarius.Storage.Sqlite.Ends.{Reads, answers, execute_on-Reads}
use sagittarius.Storage.Blocklists.{
  Blocklist, hosts_text, domain_list_text, format_from_str, u64_try_from, blocklist_from_row,
  rows_to_blocklists, enabled_rows, list_enabled,
}

-- No other source or row has the id.
abbrev pub IsNew : ℕ → List Blocklist → Type 0
IsNew id sources = All (λ (s : Blocklist). (id == s.id) ≡ false) sources

abbrev pub AreDistinct : List Blocklist → Type 0
AreDistinct [] = Unit
AreDistinct (s ∷ sources) = IsNew s.id sources × AreDistinct sources

-- The primary key of the table `blocklists`.
abbrev pub AreKeyed : List BlocklistRow → Type 0
AreKeyed [] = Unit
AreKeyed (row ∷ rows) = All (λ (r : BlocklistRow). (row.id == r.id) ≡ false) rows × AreKeyed rows

All-keep :
    (P : BlocklistRow → Type 0) (b : Bool) (row : BlocklistRow) (rest : List BlocklistRow)
    → P row
    → All P rest
    → All P (if b then row ∷ rest else rest)
All-keep P true row rest h k = (h, k)
All-keep P false row rest h k = k

pub enabled_rows-All :
    (P : BlocklistRow → Type 0) (rows : List BlocklistRow) → All P rows → All P (enabled_rows rows)
unfolding enabled_rows
enabled_rows-All P [] h = h
enabled_rows-All P (row ∷ rows) h =
    All-keep P row.enabled row (enabled_rows rows) h.0 (enabled_rows-All P rows h.1)

enabled_rows-AreKeyed : (rows : List BlocklistRow) → AreKeyed rows → AreKeyed (enabled_rows rows)
unfolding enabled_rows
enabled_rows-AreKeyed [] h = h
enabled_rows-AreKeyed (row ∷ rows) h = elim (Bool-cases row.enabled) [
  | inl e ↦ rw e (enabled_rows-All _ rows h.0, enabled_rows-AreKeyed rows h.1)
  | inr e ↦ rw e (enabled_rows-AreKeyed rows h.1)
]

pub blocklist_from_row-id :
    (row : BlocklistRow) {s : Blocklist} → blocklist_from_row row ≡ ok s → s.id ≡ row.id
unfolding blocklist_from_row
blocklist_from_row-id row h =
    let (format, f, g) = >>=-eq-ok (format_from_str row.format) _ h in
    let (count, k, l) = >>=-eq-ok (u64_try_from row.entry_count) _ g in cc l

-- What a list that was decoded is made of.
pub rows_to_blocklists-cons :
    (row : BlocklistRow) (rows : List BlocklistRow) {sources : List Blocklist}
    → rows_to_blocklists (row ∷ rows) ≡ ok sources
    → (s : Blocklist) × (rest : List Blocklist) × (blocklist_from_row row ≡ ok s)
      × (rows_to_blocklists rows ≡ ok rest)
      × (sources ≡ s ∷ rest)
unfolding rows_to_blocklists
rows_to_blocklists-cons row rows h =
    let (s, f, g) = >>=-eq-ok (blocklist_from_row row) _ h in
    let (rest, k, l) = >>=-eq-ok (rows_to_blocklists rows) _ g in (s, rest, f, k, cc l)

rows_to_blocklists-IsNew :
    (id : ℕ) (rows : List BlocklistRow) {sources : List Blocklist}
    → rows_to_blocklists rows ≡ ok sources
    → All (λ (r : BlocklistRow). (id == r.id) ≡ false) rows
    → IsNew id sources
rows_to_blocklists-IsNew id [] {sources} h k =
    let e : sources ≡ [] = (unfold rows_to_blocklists in cc h) in rw e tt
rows_to_blocklists-IsNew id (row ∷ rows) {sources} h k =
    let (s, rest, f, g, e) = rows_to_blocklists-cons row rows h in
    rw e (
      ap (λ (n : ℕ). id == n) (blocklist_from_row-id row f) ∙ k.0,
      rows_to_blocklists-IsNew id rows g k.1,
    )

rows_to_blocklists-AreDistinct :
    (rows : List BlocklistRow) {sources : List Blocklist}
    → rows_to_blocklists rows ≡ ok sources
    → AreKeyed rows
    → AreDistinct sources
rows_to_blocklists-AreDistinct [] {sources} h k =
    let e : sources ≡ [] = (unfold rows_to_blocklists in cc h) in rw e tt
rows_to_blocklists-AreDistinct (row ∷ rows) {sources} h k =
    let (s, rest, f, g, e) = rows_to_blocklists-cons row rows h in
    rw e (
      subst (λ n. IsNew n rest) (sym (blocklist_from_row-id row f))
          (rows_to_blocklists-IsNew row.id rows g k.0),
      rows_to_blocklists-AreDistinct rows g k.1,
    )

u64_try_from-Returns : (n : ℤ) → Returns (u64_try_from n)
unfolding u64_try_from
u64_try_from-Returns (pos n) = with_value n
u64_try_from-Returns (negsuc n) = with_error (decode_number (negsuc n))

blocklist_from_row-Returns : (row : BlocklistRow) → Returns (blocklist_from_row row)
unfolding blocklist_from_row format_from_str
blocklist_from_row-Returns row =
    >>=-Returns _ _
      (if-Returns (equal row.format hosts_text) _ _ (λ _. with_value hosts)
        (λ _.
          if-Returns (equal row.format domain_list_text) _ _ (λ _. with_value domain_list)
            (λ _. with_error (decode_text row.format))))
      λ format _. >>=-Returns _ _ (u64_try_from-Returns row.entry_count) λ count _. with_value _

rows_to_blocklists-Returns : (rows : List BlocklistRow) → Returns (rows_to_blocklists rows)
unfolding rows_to_blocklists blocklist_from_row
rows_to_blocklists-Returns [] = with_value []
rows_to_blocklists-Returns (row ∷ rows) =
    >>=-Returns _ _ (blocklist_from_row-Returns row)
      λ s _. >>=-Returns _ _ (rows_to_blocklists-Returns rows) λ rest _. with_value (s ∷ rest)

-- The query of the enabled sources.
pub record IsListed (db : Db) (r : Result StorageError (List Blocklist) × Db) : Type 0 where
  pub tables : r.1.tables ≡ db.tables
  pub decoded :
      (sources : List Blocklist)
      → r.0 ≡ ok sources
      → rows_to_blocklists (enabled_rows db.tables.blocklists) ≡ ok sources

pub list_enabled-IsListed : (db : Db) → IsListed db (list_enabled db)
unfolding list_enabled
list_enabled-IsListed db =
    elim (execute_on-Reads (λ t. enabled_rows t.blocklists) db.faults db.tables) [
      | answers e same ↦ record { tables = same; decoded = λ sources h. cc (rw e at h) }
      | Reads.fails x e same ↦ record {
        tables = same;
        decoded = λ sources h. absurd (cc (rw e at h));
      }
    ]

pub list_enabled-AreDistinct :
    (db : Db) {sources : List Blocklist}
    → AreKeyed db.tables.blocklists
    → (list_enabled db).0 ≡ ok sources
    → AreDistinct sources
list_enabled-AreDistinct db {sources} keyed h =
    rows_to_blocklists-AreDistinct (enabled_rows db.tables.blocklists)
      ((list_enabled-IsListed db).decoded sources h)
      (enabled_rows-AreKeyed db.tables.blocklists keyed)

pub list_enabled-cases :
    (db : Db)
    → ((sources : List Blocklist) × ((list_enabled db).0 ≡ ok sources))
      ⊎ ((e : StorageError) × ((list_enabled db).0 ≡ err e))
unfolding list_enabled
list_enabled-cases db =
    elim (execute_on-Reads (λ t. enabled_rows t.blocklists) db.faults db.tables) [
      | answers e same ↦ rw e (
          Returns-cases (rows_to_blocklists (enabled_rows db.tables.blocklists))
            (rows_to_blocklists-Returns (enabled_rows db.tables.blocklists)))
      | Reads.fails x e same ↦ inr (x, rw e refl)
    ]
