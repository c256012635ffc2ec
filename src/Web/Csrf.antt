-- ===== src/Web/Csrf.antt =====
-- The guard against forged requests, src/web/csrf.rs. The keyed hash of the crates hmac and sha2, the
-- parser of serde_json and the check of UTF-8 are parameters.
pub mod Foreign
pub mod Guarded
use sagittarius.Prelude.{
  ℕ, ◌*◌, Bool, true, false, not, ◌||◌, Option, none, some, List, [], ◌∷◌, ltb, ◌==◌, equal,
  if◌then◌else◌, length,
}
use sagittarius.Codec.Reader.{Bytes}
use sagittarius.Storage.Sqlite.{Db}
use sagittarius.Web.Crypto.{to_hex, ct_eq}
use sagittarius.Web.Http.{
  Method, get, head, options, trace, Headers, Request, origin_name, referer_name, content_type,
  csrf_header, login_path, setup_path, application_json, csrf_key_name, csrf_form_name, header_str,
  split, split_once, strip_prefix, contains_text,
}
use sagittarius.Web.Origin.{SessionCookieSecurePolicy, origin}
use sagittarius.Web.Auth.{SessionCookie, CurrentUser, from_headers, current_user}

abbrev pub max_form_body : ℕ
max_form_body = 64 * 1024

-- `is_safe`
unfoldable pub is_safe : Method → Bool
is_safe get = true
is_safe head = true
is_safe options = true
is_safe trace = true
is_safe _ = false

-- `is_public_form`
unfoldable pub is_public_form : Bytes → Bool
is_public_form path = equal path login_path || equal path setup_path

-- `rest.starts_with('/')`
abbrev pub starts_with_slash : Bytes → Bool
starts_with_slash [] = false
starts_with_slash (c ∷ rest) = c == b'/'

-- The comparison of a `Referer`, in `origin_ok`.
unfoldable pub referer_ok : Bytes → Bytes → Bool
unfolding strip_prefix
referer_ok expected r =
    equal r expected
    || elim (strip_prefix expected r) [ none ↦ false | some rest ↦ starts_with_slash rest ]

-- `origin_ok`
unfoldable pub origin_ok : SessionCookieSecurePolicy → Headers → Bool → Bool
unfolding referer_ok header_str
origin_ok policy headers require_header = elim (origin policy headers) [
  | none ↦ false
  | some expected ↦ elim (header_str origin_name headers) [
    | some o ↦ equal o expected
    | none ↦ elim (header_str referer_name headers) [
      | some r ↦ referer_ok expected r
      | none ↦ not require_header
    ]
  ]
]

-- The loop of `form_field`.
unfoldable pub find_pair : Bytes → List Bytes → Option Bytes
unfolding split_once
find_pair key [] = none
find_pair key (pair ∷ pairs) =
    let rest = find_pair key pairs in
    elim (split_once b'=' pair) [ none ↦ rest | some (k, v) ↦ if equal k key then some v else rest ]

-- The response of the guard, or the request that goes on to the handler.
pub data Verdict : Type 0 where
  forbidden : Verdict
  next : Request → Verdict

-- What the guard takes of other crates: `HMAC-SHA256` under the key of the process, the digest, the
-- text of a field of a JSON object, and the check of UTF-8.
pub record Crates : Type 0 where
  pub hmac : Bytes → Bytes
  pub sha256 : Bytes → Bytes
  pub json_field : Bytes → Bytes → Option Bytes
  pub is_utf8 : Bytes → Bool

module _ (c : Crates) where
  -- `AppState::csrf_token`
  unfoldable pub csrf_token : Bytes → Bytes
  csrf_token session_id = to_hex (c.hmac session_id)

  -- `form_field`
  unfoldable pub form_field : Bytes → Bytes → Option Bytes
  unfolding find_pair split
  form_field body key = if c.is_utf8 body then find_pair key (split b'&' body) else none

  abbrev pub verifies : Bytes → Option Bytes → Bool
  verifies expected none = false
  verifies expected (some presented) = ct_eq expected presented

  abbrev pub is_json : Headers → Bool
  is_json headers = elim (header_str content_type headers) [
    | none ↦ false
    | some ct ↦ contains_text application_json ct
  ]

  -- The token of a body.
  unfoldable pub body_token : Headers → Bytes → Option Bytes
  unfolding form_field header_str contains_text
  body_token headers body =
      if is_json headers then c.json_field body csrf_key_name else form_field body csrf_form_name

  -- `axum::body::to_bytes`, and the check of the body's token; the body is put back.
  unfoldable pub check_body : Bytes → Request → Option Bytes → Verdict
  unfolding body_token
  check_body expected req none = forbidden
  check_body expected req (some bytes) =
      if ltb max_form_body (length bytes)
      then forbidden
      else if verifies expected (body_token req.headers bytes)
      then next (record req { body = some bytes })
      else forbidden

  -- The check of the token, behind the check of the origin.
  unfoldable pub check_token : ℕ → SessionCookie → Request → Db → Verdict × Db
  unfolding check_body
  check_token now cookie req db =
      let (user, db') = current_user c.sha256 now req.headers db in
      elim user [
        | none ↦ (next req, db')
        | some u ↦
            let expected = csrf_token cookie.id in
            if verifies expected (header_str csrf_header req.headers)
            then (next req, db')
            else (check_body expected req req.body, db')
      ]

  -- `guard`
  unfoldable pub guard : SessionCookieSecurePolicy → ℕ → Request → Db → Verdict × Db
  unfolding check_token
  guard policy now req db =
      if is_safe req.method
      then (next req, db)
      else (let cookie = from_headers req.headers in
          let public_form = is_public_form req.path in
          elim cookie [
            | none ↦ if origin_ok policy req.headers true then (next req, db) else (forbidden, db)
            | some cookie' ↦
                if origin_ok policy req.headers public_form
                then (if public_form then (next req, db) else check_token now cookie' req db)
                else (forbidden, db)
          ])
