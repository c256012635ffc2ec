-- ===== src/Web/Auth/Live.antt =====
-- The sessions that src/web/auth.rs accepts.
use sagittarius.Prelude.{
  ℕ, ◌+◌, ◌≤◌, ◌<◌, min, ◌≡◌, refl, sym, ap, ◌∙◌, ◌⊎◌, inl, inr, Bool, true, false, not, ◌||◌,
  Option, none, leb→le, some, arith, ltb, leb, ltb→lt, Bool-cases, Option-cases,
}
use sagittarius.Codec.Error.{ok, err}
use sagittarius.Codec.Reader.{Bytes}
use sagittarius.Storage.Sqlite.{StorageError, SessionRecord, Tables, Db}
use sagittarius.Storage.Sqlite.Ends.{
  Reads, answers, Writes, writes, execute_on-Reads, execute_on-Writes,
}
use sagittarius.Storage.Sessions.{session_row, touch_row, find, touch}
use sagittarius.Web.Crypto.{ct_eq}
use sagittarius.Web.Crypto.Equal.{ct_eq→path, ct_eq_refl}
use sagittarius.Web.Http.{Headers}
use sagittarius.Web.Auth.{
  idle_secs, absolute_secs, renew_threshold_secs, SessionCookie, CurrentUser, from_headers,
  token_hash, slide, is_expired, check_session, current_user,
}

-- The tables with a later end for one session.
abbrev pub extended : Bytes → ℕ → Tables → Tables
extended id expires_at t = record t { sessions = touch_row id expires_at t.sessions }

touch-Writes :
    (id : Bytes) (expires_at : ℕ) (db : Db)
    → Writes db.tables (extended id expires_at db.tables) (touch id expires_at db)
unfolding touch
touch-Writes id expires_at db =
    execute_on-Writes (λ t. ok (tt, extended id expires_at t)) (extended id expires_at db.tables)
      db.faults db.tables (inl refl)

find-Reads :
    (id : Bytes) (db : Db) → Reads (session_row id db.tables.sessions) db.tables (find id db)
unfolding find
find-Reads id db = execute_on-Reads (λ t. session_row id t.sessions) db.faults db.tables

not-or-false : (a b : Bool) → (a || b) ≡ false → (a ≡ false) × (b ≡ false)
not-or-false false b h = (refl, h)
not-or-false true b h = cc

not-not-false : (b : Bool) → not b ≡ false → b ≡ true
not-not-false true h = refl
not-not-false false h = cc

module _ (sha256 : Bytes → Bytes) where
  -- What holds of a user that was accepted.
  pub record IsLive (now : ℕ) (headers : Headers) (db db' : Db) (user : CurrentUser) : Type 0 where
    pub cookie : SessionCookie
    pub session : SessionRecord
    pub sent : from_headers headers ≡ some cookie
    pub stored : session_row cookie.id db.tables.sessions ≡ some session
    pub idle : now < session.expires_at
    pub absolute : now < session.created_at + absolute_secs
    pub secret : token_hash sha256 cookie.token ≡ session.token_hash
    pub whose : user ≡ record { user_id = session.user_id; session_id = cookie.id }
    pub slides :
        (db'.tables ≡ db.tables)
        ⊎ ((later : ℕ) × (session.expires_at < later)
            × (later ≤ now + idle_secs)
            × (later ≤ session.created_at + absolute_secs)
            × (db'.tables ≡ extended cookie.id later db.tables))

  slide-slides :
      (now : ℕ) (cookie : SessionCookie) (session : SessionRecord) (db db0 : Db)
      → db.tables ≡ db0.tables
      → ((slide sha256 now cookie.id session db).tables ≡ db0.tables)
        ⊎ ((later : ℕ) × (session.expires_at < later)
            × (later ≤ now + idle_secs)
            × (later ≤ session.created_at + absolute_secs)
            × ((slide sha256 now cookie.id session db).tables
                ≡ extended cookie.id later db0.tables))
  unfolding slide
  slide-slides now cookie session db db0 same =
      let later : ℕ = min (now + idle_secs) (session.created_at + absolute_secs) in
      elim (Bool-cases (ltb (session.expires_at + renew_threshold_secs) later)) [
        | inr keeps ↦ rw keeps (inl same)
        | inl renews ↦ rw renews (elim (touch-Writes cookie.id later db) [
          | Writes.fails x e kept ↦ inl (kept ∙ same)
          | writes e written ↦ inr (
            later,
            omega (arith, ltb→lt (session.expires_at + renew_threshold_secs) later renews),
            omega arith,
            omega arith,
            written ∙ ap (extended cookie.id later) same,
          )
        ])
      ]

  check_session-IsLive :
      (now : ℕ) (headers : Headers) (cookie : SessionCookie) (session : SessionRecord) (db db0 : Db)
      {user : CurrentUser}
      → from_headers headers ≡ some cookie
      → session_row cookie.id db0.tables.sessions ≡ some session
      → db.tables ≡ db0.tables
      → (check_session sha256 now cookie session db).0 ≡ some user
      → IsLive now headers db0 (check_session sha256 now cookie session db).1 user
  unfolding check_session
  check_session-IsLive now headers cookie session db db0 {user} sent stored same h =
      elim (Bool-cases (is_expired sha256 now session)) [
        | inl old ↦ absurd (cc (rw old at h))
        | inr young ↦
            elim (Bool-cases (not (ct_eq (token_hash sha256 cookie.token) session.token_hash))) [
              | inl bad ↦ absurd (cc (rw (young, bad) at h))
              | inr good ↦
                  let (idle, absolute) =
                    not-or-false (leb session.expires_at now)
                      (leb (session.created_at + absolute_secs) now) young in
                  rw (young, good)
                    (record {
                      cookie = cookie;
                      session = session;
                      sent = sent;
                      stored = stored;
                      idle = ground (arith, idle);
                      absolute = ground (arith, absolute);
                      secret = ct_eq→path _ _ (not-not-false _ good);
                      whose = sym (cc (rw (young, good) at h));
                      slides = slide-slides now cookie session db db0 same;
                    })
            ]
      ]

  current_user-IsLive :
      (now : ℕ) (headers : Headers) (db : Db) {user : CurrentUser}
      → (current_user sha256 now headers db).0 ≡ some user
      → IsLive now headers db (current_user sha256 now headers db).1 user
  unfolding current_user
  current_user-IsLive now headers db {user} h = elim (Option-cases (from_headers headers)) [
    | inl e ↦ absurd (cc (rw (e, current_user) at h))
    | inr (cookie, sent) ↦ elim (find-Reads cookie.id db) [
      | Reads.fails x e same ↦ absurd (cc (rw (sent, current_user, e) at h))
      | answers e same ↦ elim (Option-cases (session_row cookie.id db.tables.sessions)) [
        | inl gone ↦ absurd (cc (rw (sent, current_user, e, gone) at h))
        | inr (session, stored) ↦
            rw (sent, current_user, e, stored)
              (check_session-IsLive now headers cookie session (find cookie.id db).1 db sent stored
                same (rw (sent, current_user, e, stored) at h))
      ]
    ]
  ]

  -- Why nobody is logged in.
  pub data Denied (now : ℕ) (headers : Headers) (db : Db) : Type 0 where
    no_cookie : from_headers headers ≡ none → Denied now headers db
    unreadable :
        (cookie : SessionCookie) (e : StorageError)
        → from_headers headers ≡ some cookie
        → (find cookie.id db).0 ≡ err e
        → Denied now headers db
    unknown :
        (cookie : SessionCookie)
        → from_headers headers ≡ some cookie
        → session_row cookie.id db.tables.sessions ≡ none
        → Denied now headers db
    ended :
        (cookie : SessionCookie) (session : SessionRecord)
        → from_headers headers ≡ some cookie
        → session_row cookie.id db.tables.sessions ≡ some session
        → (session.expires_at ≤ now) ⊎ (session.created_at + absolute_secs ≤ now)
        → Denied now headers db
    wrong_token :
        (cookie : SessionCookie) (session : SessionRecord)
        → from_headers headers ≡ some cookie
        → session_row cookie.id db.tables.sessions ≡ some session
        → (token_hash sha256 cookie.token ≡ session.token_hash → ⊥)
        → Denied now headers db

  is_expired-ends :
      (now : ℕ) (session : SessionRecord)
      → is_expired sha256 now session ≡ true
      → (session.expires_at ≤ now) ⊎ (session.created_at + absolute_secs ≤ now)
  is_expired-ends now session h = elim (Bool-cases (leb session.expires_at now)) [
    | inl e ↦ inl (leb→le session.expires_at now e)
    | inr e ↦ inr (leb→le (session.created_at + absolute_secs) now (rw e at h))
  ]

  current_user-Denied :
      (now : ℕ) (headers : Headers) (db : Db)
      → (current_user sha256 now headers db).0 ≡ none
      → Denied now headers db
  unfolding current_user check_session
  current_user-Denied now headers db h = elim (Option-cases (from_headers headers)) [
    | inl e ↦ no_cookie e
    | inr (cookie, sent) ↦ elim (find-Reads cookie.id db) [
      | Reads.fails x e same ↦ unreadable cookie x sent e
      | answers e same ↦ elim (Option-cases (session_row cookie.id db.tables.sessions)) [
        | inl gone ↦ unknown cookie sent gone
        | inr (session, stored) ↦ elim (Bool-cases (is_expired sha256 now session)) [
          | inl old ↦ ended cookie session sent stored (is_expired-ends now session old)
          | inr young ↦
              elim (Bool-cases (ct_eq (token_hash sha256 cookie.token) session.token_hash)) [
                | inl good ↦ absurd (cc (rw (sent, current_user, e, stored, young, good) at h))
                | inr bad ↦ wrong_token cookie session sent stored (λ same_hash. cc (
                    sym bad
                    ∙ (ap (ct_eq (token_hash sha256 cookie.token)) (sym same_hash)
                        ∙ ct_eq_refl (token_hash sha256 cookie.token))))
              ]
        ]
      ]
    ]
  ]

  -- What the check of a session answers.
  pub data Checked (now : ℕ) (headers : Headers) (db : Db) (r : Option CurrentUser × Db)
      : Type 0 where
    accepted :
        (user : CurrentUser)
        → r.0 ≡ some user
        → IsLive now headers db r.1 user
        → Checked now headers db r
    denied : r.0 ≡ none → Denied now headers db → Checked now headers db r

  -- The session check accepts a user or denies the request. A user whom it accepts sent the session cookie
  -- of a stored session, whose idle and absolute ends are both still to come and whose stored hash is the
  -- hash of the token that was sent; it is the user of that session. The tables are then as before, or the
  -- sessions with that id were given a later idle end, within the idle time from now and the absolute
  -- lifetime from its creation. It denies only a request without a cookie, or whose session cannot be read,
  -- is not stored or has come to one of its ends, or whose token has another hash.
  pub current_user-Checked :
      (now : ℕ) (headers : Headers) (db : Db)
      → Checked now headers db (current_user sha256 now headers db)
  current_user-Checked now headers db = elim (Option-cases (current_user sha256 now headers db).0) [
    | inl h ↦ denied h (current_user-Denied now headers db h)
    | inr (user, h) ↦ accepted user h (current_user-IsLive now headers db h)
  ]
