-- ===== src/Web/Settings/Invalid.antt =====
-- Why a form of src/web/settings.rs is not accepted.
use sagittarius.Prelude.{
  ◌<◌, ◌≡◌, refl, ◌≢◌, ◌⊎◌, inl, inr, Bool, true, false, Option, none, [], ◌∷◌, arith, ltb→lt,
  ==_iff, Option-cases,
}
use sagittarius.Codec.Error.{Result, ok, err, out_of_fuel, ◌>>=◌, map_err}
use sagittarius.Codec.Reader.{Bytes}
use sagittarius.Blocklist.Parse.{Text}
use sagittarius.Resolver.State.{BlockingMode, nxdomain, null_address, custom}
use sagittarius.Storage.Sqlite.{StorageError}
use sagittarius.Storage.Settings.{Addresses, mode_from_str, strategy_from_str}
use sagittarius.Web.Render.{
  BadRequest, ttl_order, no_capacity, invalid_mode, no_retention, invalid_strategy, no_fanout,
  invalid_v4, invalid_v6, WebError, bad_request,
}
use sagittarius.Web.Settings.{
  SettingsForm, reject_if, parse_trimmed, parse_opt_ip, trim, custom_addresses, into_settings,
}

-- What a form that is rejected has, for each message.
pub data IsInvalid (std : Addresses) (form : SettingsForm) (e : WebError) : Type 0 where
  unordered :
      form.cache_max_ttl < form.cache_min_ttl → e ≡ bad_request ttl_order → IsInvalid std form e
  uncached : form.cache_capacity ≡ 0 → e ≡ bad_request no_capacity → IsInvalid std form e
  unknown_mode :
      (x : StorageError)
      → mode_from_str form.blocking_mode ≡ err x
      → e ≡ bad_request invalid_mode
      → IsInvalid std form e
  unread_ipv4 :
      mode_from_str form.blocking_mode ≡ ok custom
      → trim form.custom_block_ipv4 ≢ []
      → std.v4_from_str (trim form.custom_block_ipv4) ≡ none
      → e ≡ bad_request (invalid_v4 (trim form.custom_block_ipv4))
      → IsInvalid std form e
  unread_ipv6 :
      mode_from_str form.blocking_mode ≡ ok custom
      → trim form.custom_block_ipv6 ≢ []
      → std.v6_from_str (trim form.custom_block_ipv6) ≡ none
      → e ≡ bad_request (invalid_v6 (trim form.custom_block_ipv6))
      → IsInvalid std form e
  unretained :
      form.query_log_retention_days ≡ 0 → e ≡ bad_request no_retention → IsInvalid std form e
  unknown_strategy :
      (x : StorageError)
      → strategy_from_str form.upstream_selection_strategy ≡ err x
      → e ≡ bad_request invalid_strategy
      → IsInvalid std form e
  alone : form.upstream_parallel_fanout ≡ 0 → e ≡ bad_request no_fanout → IsInvalid std form e

-- Where a chain that fails has stopped.
>>=-eq-err :
    {E A B : Type 0} (first : Result E A) (next : A → Result E B) {e : E}
    → (first >>= next) ≡ err e
    → (first ≡ err e) ⊎ ((a : A) × (first ≡ ok a) × (next a ≡ err e))
>>=-eq-err out_of_fuel next h = cc
>>=-eq-err (err x) next h = inl (cc h)
>>=-eq-err (ok a) next h = inr (a, refl, h)

reject_if-eq-err :
    (b : Bool) (x : BadRequest) {e : WebError}
    → reject_if b x ≡ err e
    → (b ≡ true) × (e ≡ bad_request x)
reject_if-eq-err true x h = (refl, cc h)
reject_if-eq-err false x h = cc

map_err-eq-err :
    {E F A : Type 0} (x : F) (r : Result E A) {e : F}
    → map_err (λ _. x) r ≡ err e
    → (y : E) × (r ≡ err y) × (e ≡ x)
map_err-eq-err x (ok a) h = cc
map_err-eq-err x (err y) h = (y, refl, cc h)
map_err-eq-err x out_of_fuel h = cc

pub map_err-eq-ok :
    {E F A : Type 0} (f : E → F) (r : Result E A) {a : A} → map_err f r ≡ ok a → r ≡ ok a
map_err-eq-ok f (ok a) h = cc
map_err-eq-ok f (err e) h = cc
map_err-eq-ok f out_of_fuel h = cc

parse_opt_ip-eq-err :
    (from_str : Text → Option Bytes) (invalid : Text → BadRequest) (s : Text) {e : WebError}
    → parse_opt_ip from_str invalid s ≡ err e
    → (trim s ≢ []) × (from_str (trim s) ≡ none) × (e ≡ bad_request (invalid (trim s)))
unfolding parse_opt_ip
parse_opt_ip-eq-err from_str invalid s {e} h =
    let go : (t : Text)
        → parse_trimmed from_str invalid t ≡ err e
        → (t ≢ []) × (from_str t ≡ none) × (e ≡ bad_request (invalid t)) =
      λ t.
        elim t
          as (λ t.
            parse_trimmed from_str invalid t ≡ err e
            → (t ≢ []) × (from_str t ≡ none) × (e ≡ bad_request (invalid t))) [
              | [] ↦ λ k. cc
              | c ∷ cs ↦ λ k. elim (Option-cases (from_str (c ∷ cs))) [
                | inl g ↦ ((λ q. cc), g, cc (rw (g, parse_trimmed) at k))
                | inr (a, g) ↦ absurd (cc (rw (g, parse_trimmed) at k))
              ]
            ] in
    go (trim s) h

module _ (std : Addresses) (form : SettingsForm) {e : WebError} where
  custom_addresses-IsInvalid :
      (mode : BlockingMode)
      → mode_from_str form.blocking_mode ≡ ok mode
      → custom_addresses std mode form ≡ err e
      → IsInvalid std form e
  unfolding custom_addresses
  custom_addresses-IsInvalid nxdomain k h = cc
  custom_addresses-IsInvalid null_address k h = cc
  custom_addresses-IsInvalid custom k h =
      elim (>>=-eq-err (parse_opt_ip std.v4_from_str invalid_v4 form.custom_block_ipv4) _ h) [
        | inl a ↦
            let (full, gone, same) =
              parse_opt_ip-eq-err std.v4_from_str invalid_v4 form.custom_block_ipv4 a in
            unread_ipv4 k full gone same
        | inr (ipv4, a, h1) ↦
            elim (>>=-eq-err (parse_opt_ip std.v6_from_str invalid_v6 form.custom_block_ipv6) _
              h1) [
                | inl b ↦
                    let (full, gone, same) =
                      parse_opt_ip-eq-err std.v6_from_str invalid_v6 form.custom_block_ipv6 b in
                    unread_ipv6 k full gone same
                | inr (ipv6, b, h2) ↦ absurd (cc h2)
              ]
      ]

  pub into_settings-IsInvalid :
      (ui_theme : Text) → into_settings std form ui_theme ≡ err e → IsInvalid std form e
  unfolding into_settings
  into_settings-IsInvalid ui_theme h = elim (>>=-eq-err _ _ h) [
    | inl a ↦
        let (b, same) = reject_if-eq-err _ ttl_order a in
        unordered (ltb→lt form.cache_max_ttl form.cache_min_ttl b) same
    | inr (_, _, h1) ↦ elim (>>=-eq-err _ _ h1) [
      | inl a ↦
          let (b, same) = reject_if-eq-err _ no_capacity a in
          uncached ((==_iff form.cache_capacity 0).0 b) same
      | inr (_, _, h2) ↦ elim (>>=-eq-err _ _ h2) [
        | inl a ↦
            let (x, b, same) = map_err-eq-err _ (mode_from_str form.blocking_mode) a in
            unknown_mode x b same
        | inr (mode, m, h3) ↦ elim (>>=-eq-err _ _ h3) [
          | inl a ↦
              custom_addresses-IsInvalid mode (map_err-eq-ok _ (mode_from_str form.blocking_mode) m)
                a
          | inr (_, _, h4) ↦ elim (>>=-eq-err _ _ h4) [
            | inl a ↦
                let (b, same) = reject_if-eq-err _ no_retention a in
                unretained ((==_iff form.query_log_retention_days 0).0 b) same
            | inr (_, _, h5) ↦ elim (>>=-eq-err _ _ h5) [
              | inl a ↦
                  let (x, b, same) =
                    map_err-eq-err _ (strategy_from_str form.upstream_selection_strategy) a in
                  unknown_strategy x b same
              | inr (_, _, h6) ↦ elim (>>=-eq-err _ _ h6) [
                | inl a ↦
                    let (b, same) = reject_if-eq-err _ no_fanout a in
                    let lt = ltb→lt form.upstream_parallel_fanout 1 b in
                    alone (omega (arith, lt)) same
                | inr (_, _, h7) ↦ absurd (cc h7)
              ]
            ]
          ]
        ]
      ]
    ]
  ]
