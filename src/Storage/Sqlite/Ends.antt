-- ===== src/Storage/Sqlite/Ends.antt =====
-- How a statement on src/storage/mod.rs's database ends.
use sagittarius.Prelude.{◌≡◌, refl, subst, ◌⊎◌, inl, inr, Option, none, some, List, [], ◌∷◌}
use sagittarius.Codec.Error.{Result, ok, err, out_of_fuel}
use sagittarius.Storage.Sqlite.{SqlxError, StorageError, sqlx, Tables, Db, carry_out, execute_on}

-- A query answers from the tables, or fails; it changes no table.
pub data Reads {ℓ} {A : Type ℓ} (a : A) (tables : Tables) (r : Result StorageError A × Db)
    : Type ℓ where
  answers : r.0 ≡ ok a → r.1.tables ≡ tables → Reads a tables r
  fails : (e : StorageError) → r.0 ≡ err e → r.1.tables ≡ tables → Reads a tables r

-- A statement writes, or fails and changes no table.
pub data Writes (tables written : Tables) (r : Result StorageError (Unit {0}) × Db) : Type 0 where
  writes : r.0 ≡ ok tt → r.1.tables ≡ written → Writes tables written r
  fails : (e : StorageError) → r.0 ≡ err e → r.1.tables ≡ tables → Writes tables written r

pub execute_on-Reads {ℓ} :
    {A : Type ℓ} (query : Tables → A) (faults : List (Option SqlxError)) (tables : Tables)
    → Reads (query tables) tables (execute_on (λ t. ok (query t, t)) faults tables)
unfolding execute_on
execute_on-Reads query [] tables = answers refl refl
execute_on-Reads query (none ∷ faults) tables = answers refl refl
execute_on-Reads query (some e ∷ faults) tables = Reads.fails (sqlx e) refl refl

carry_out-Writes :
    (r : Result SqlxError (Unit {0} × Tables)) (written : Tables) (faults : List (Option SqlxError))
    (tables : Tables)
    → (r ≡ ok (tt, written)) ⊎ ((e : SqlxError) × (r ≡ err e))
    → Writes tables written (carry_out r faults tables)
carry_out-Writes (ok (tt, t)) written faults tables (inl h) = writes refl (cc)
carry_out-Writes (ok (tt, t)) written faults tables (inr (e, h)) = cc
carry_out-Writes (err x) written faults tables (inl h) = cc
carry_out-Writes (err x) written faults tables (inr (e, h)) = Writes.fails (sqlx x) refl refl
carry_out-Writes out_of_fuel written faults tables (inl h) = cc
carry_out-Writes out_of_fuel written faults tables (inr (e, h)) = cc

pub execute_on-Writes :
    (statement : Tables → Result SqlxError (Unit {0} × Tables)) (written : Tables)
    (faults : List (Option SqlxError)) (tables : Tables)
    → (statement tables ≡ ok (tt, written)) ⊎ ((e : SqlxError) × (statement tables ≡ err e))
    → Writes tables written (execute_on statement faults tables)
unfolding execute_on
execute_on-Writes statement written [] tables h =
    carry_out-Writes (statement tables) written [] tables h
execute_on-Writes statement written (none ∷ faults) tables h =
    carry_out-Writes (statement tables) written faults tables h
execute_on-Writes statement written (some e ∷ faults) tables h = Writes.fails (sqlx e) refl refl

-- Without a fault the tables decide.
pub execute_on-no_fault {ℓ} :
    {A : Type ℓ} (statement : Tables → Result SqlxError (A × Tables)) (tables : Tables)
    → execute_on statement [] tables ≡ carry_out (statement tables) [] tables
unfolding execute_on
execute_on-no_fault statement tables = refl

-- The driver reports a fault at some statement.
abbrev pub Faulty : List (Option SqlxError) → Type 0
Faulty [] = ⊥
Faulty (none ∷ faults) = Faulty faults
Faulty (some e ∷ faults) = Unit

carry_out-faults {ℓ} :
    {A : Type ℓ} (r : Result SqlxError (A × Tables)) (faults : List (Option SqlxError))
    (tables : Tables)
    → (carry_out r faults tables).1.faults ≡ faults
carry_out-faults (ok (a, t)) faults tables = refl
carry_out-faults (err e) faults tables = refl
carry_out-faults out_of_fuel faults tables = refl

-- A fault that comes behind a statement was to come before it.
pub execute_on-Faulty {ℓ} :
    {A : Type ℓ} (statement : Tables → Result SqlxError (A × Tables))
    (faults : List (Option SqlxError)) (tables : Tables)
    → Faulty (execute_on statement faults tables).1.faults
    → Faulty faults
unfolding execute_on
execute_on-Faulty statement [] tables h =
    subst Faulty (carry_out-faults (statement tables) [] tables) h
execute_on-Faulty statement (none ∷ faults) tables h =
    subst Faulty (carry_out-faults (statement tables) faults tables) h
execute_on-Faulty statement (some e ∷ faults) tables h = tt

-- A query fails by a fault only.
pub err-Faulty {ℓ} :
    {A : Type ℓ} (query : Tables → A) (faults : List (Option SqlxError)) (tables : Tables)
    {e : StorageError}
    → (execute_on (λ t. ok (query t, t)) faults tables).0 ≡ err e
    → Faulty faults
unfolding execute_on
err-Faulty query [] tables h = cc
err-Faulty query (none ∷ faults) tables h = cc
err-Faulty query (some e ∷ faults) tables h = tt
