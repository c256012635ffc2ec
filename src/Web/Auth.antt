-- ===== src/Web/Auth.antt =====
-- The session of a request, src/web/auth.rs. `sha256` is the digest of the crate sha2.
pub mod Live
use sagittarius.Prelude.{
  ℕ, ◌+◌, ◌*◌, min, Bool, not, ◌||◌, Option, none, some, List, [], ◌∷◌, ltb, leb, equal,
  if◌then◌else◌,
}
use sagittarius.Codec.Error.{Result, ok, err, out_of_fuel}
use sagittarius.Codec.Reader.{Bytes}
use sagittarius.Storage.Sqlite.{SessionRecord, Db}
use sagittarius.Storage.Sessions.{find, touch, delete, delete_expired}
use sagittarius.Web.Crypto.{to_hex, ct_eq}
use sagittarius.Web.Http.{
  Headers, cookie_name, cookie_secure, cookie_insecure, get_all, split, split_once, trim,
}

-- In seconds.
abbrev pub idle_secs : ℕ
idle_secs = 7 * 86400

abbrev pub absolute_secs : ℕ
absolute_secs = 30 * 86400

abbrev pub renew_threshold_secs : ℕ
renew_threshold_secs = 3600

pub record SessionCookie : Type 0 where
  pub id : Bytes
  pub token : Bytes

pub record CurrentUser : Type 0 where
  pub user_id : ℕ
  pub session_id : Bytes

-- The cookies of one header: `none` goes on with the next header, `some none` ends the search without a
-- session.
unfoldable pub from_pairs : List Bytes → Option (Option SessionCookie)
unfolding split_once trim
from_pairs [] = none
from_pairs (pair ∷ pairs) =
    let rest = from_pairs pairs in
    elim (split_once b'=' (trim pair)) [
      | none ↦ rest
      | some (name, value) ↦
          if equal name cookie_secure || equal name cookie_insecure
          then (elim (split_once b'.' value) [
            | none ↦ some none
            | some (id, token) ↦ some (some (record { id = id; token = token }))
          ])
          else rest
    ]

unfoldable pub from_values : List Bytes → Option SessionCookie
unfolding from_pairs split
from_values [] = none
from_values (value ∷ values) =
    let rest = from_values values in
    elim (from_pairs (split b';' value)) [ none ↦ rest | some found ↦ found ]

-- `SessionCookie::from_headers`
unfoldable pub from_headers : Headers → Option SessionCookie
unfolding from_values get_all
from_headers headers = from_values (get_all cookie_name headers)

module _ (sha256 : Bytes → Bytes) where
  -- `SessionToken::hash`
  abbrev pub token_hash : Bytes → Bytes
  token_hash token = to_hex (sha256 token)

  -- The slide of the idle window, in `current_user`; a failed write is ignored.
  unfoldable pub slide : ℕ → Bytes → SessionRecord → Db → Db
  slide now id session db =
      let new_expires : ℕ = min (now + idle_secs) (session.created_at + absolute_secs) in
      if ltb (session.expires_at + renew_threshold_secs) new_expires
      then (touch id new_expires db).1
      else db

  abbrev pub is_expired : ℕ → SessionRecord → Bool
  is_expired now session =
      leb session.expires_at now || leb (session.created_at + absolute_secs) now

  -- The checks of a session that was found.
  unfoldable pub check_session : ℕ → SessionCookie → SessionRecord → Db → Option CurrentUser × Db
  unfolding slide
  check_session now cookie session db =
      if is_expired now session
      then (none, (delete_expired now (delete cookie.id db).1).1)
      else if not (ct_eq (token_hash cookie.token) session.token_hash)
      then (none, db)
      else (
        some (record { user_id = session.user_id; session_id = cookie.id }),
        slide now cookie.id session db,
      )

  -- `AppState::current_user`; `now` is `Clock::now_secs()`.
  unfoldable pub current_user : ℕ → Headers → Db → Option CurrentUser × Db
  unfolding from_headers check_session
  current_user now headers db = elim (from_headers headers) [
    | none ↦ (none, db)
    | some cookie ↦
        let (found, db') = find cookie.id db in
        elim found [
          | ok (some session) ↦ check_session now cookie session db'
          | ok none ↦ (none, db')
          | err e ↦ (none, db')
          | out_of_fuel ↦ (none, db')
        ]
  ]
