-- ===== src/Storage/Sessions.antt =====
-- The sessions of src/storage/sessions.rs, as far as a request reads and changes them.
use sagittarius.Prelude.{
  ℕ, ◌-◌, Option, none, some, List, [], ◌∷◌, leb, equal, if◌then◌else◌, length,
}
use sagittarius.Codec.Error.{Result, ok}
use sagittarius.Codec.Reader.{Bytes}
use sagittarius.Storage.Sqlite.{StorageError, SessionRecord, Db, execute, execute_on}

unfoldable pub session_row : Bytes → List SessionRecord → Option SessionRecord
session_row id [] = none
session_row id (s ∷ rows) = let rest = session_row id rows in if equal s.id id then some s else rest

unfoldable pub without_session : Bytes → List SessionRecord → List SessionRecord
without_session id [] = []
without_session id (s ∷ rows) =
    let rest = without_session id rows in if equal s.id id then rest else s ∷ rest

unfoldable pub without_expired : ℕ → List SessionRecord → List SessionRecord
without_expired now [] = []
without_expired now (s ∷ rows) =
    let rest = without_expired now rows in if leb s.expires_at now then rest else s ∷ rest

unfoldable pub touch_row : Bytes → ℕ → List SessionRecord → List SessionRecord
touch_row id expires_at [] = []
touch_row id expires_at (s ∷ rows) =
    (if equal s.id id then record s { expires_at = expires_at } else s)
    ∷ touch_row id expires_at rows

-- `SqliteSessionRepo::find`
unfoldable pub find : Bytes → Db → Result StorageError (Option SessionRecord) × Db
unfolding execute_on
find id = execute λ t. ok (session_row id t.sessions, t)

-- `SqliteSessionRepo::touch`
unfoldable pub touch : Bytes → ℕ → Db → Result StorageError (Unit {0}) × Db
unfolding execute_on
touch id expires_at =
    execute λ t. ok (tt, record t { sessions = touch_row id expires_at t.sessions })

-- `SqliteSessionRepo::delete`
unfoldable pub delete : Bytes → Db → Result StorageError (Unit {0}) × Db
unfolding execute_on
delete id = execute λ t. ok (tt, record t { sessions = without_session id t.sessions })

-- `SqliteSessionRepo::delete_expired`
unfoldable pub delete_expired : ℕ → Db → Result StorageError ℕ × Db
unfolding execute_on
delete_expired now = execute λ t.
    let kept : List SessionRecord = without_expired now t.sessions in
    ok (length t.sessions - length kept, record t { sessions = kept })
