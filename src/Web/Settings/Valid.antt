-- ===== src/Web/Settings/Valid.antt =====
-- What a form of src/web/settings.rs that is accepted says of the settings.
use sagittarius.Prelude.{
  ◌≤◌, ◌≡◌, refl, subst, ◌≢◌, ◌↔◌, ◌⊎◌, inl, inr, Bool, true, false, Option, none, some, [], ◌∷◌,
  arith, ltb, ◌==◌, ltb→le, Option-cases,
}
use sagittarius.Codec.Error.{Result, ok, >>=-eq-ok, map_err}
use sagittarius.Codec.Reader.{Bytes}
use sagittarius.Blocklist.Parse.{Text}
use sagittarius.Resolver.State.{BlockingMode, nxdomain, null_address, custom, Settings}
use sagittarius.Storage.Settings.{Addresses, mode_from_str, strategy_from_str}
use sagittarius.Web.Render.{BadRequest, bad_request, invalid_v4, invalid_v6}
use sagittarius.Web.Settings.Invalid.{map_err-eq-ok}
use sagittarius.Web.Settings.{
  is_some, SettingsForm, reject_if, parse_trimmed, parse_opt_ip, trim, custom_addresses,
  into_settings,
}

reject_if-eq-ok : (b : Bool) (e : BadRequest) {u : Unit {0}} → reject_if b e ≡ ok u → b ≡ false
reject_if-eq-ok true e h = cc
reject_if-eq-ok false e h = refl

-- The custom address for a mode and a trimmed text: in the custom mode a text has to be blank or an
-- address, in the other modes a text that is no address is passed over.
pub data IsAddress (from_str : Text → Option Bytes)
    : BlockingMode → Text → Option Bytes → Type 0 where
  blank : IsAddress from_str custom [] none
  given :
      (text : Text) (addr : Bytes)
      → text ≢ []
      → from_str text ≡ some addr
      → IsAddress from_str custom text (some addr)
  unused :
      (mode : BlockingMode) (text : Text)
      → (mode ≡ nxdomain) ⊎ (mode ≡ null_address)
      → IsAddress from_str mode text (from_str text)

-- The settings that a form gives: the fields of the form, within the limits of the program.
pub record IsAccepted (std : Addresses) (form : SettingsForm) (ui_theme : Text) (s : Settings)
    : Type 0 where
  pub ordered : s.cache_min_ttl ≤ s.cache_max_ttl
  pub capacity : 1 ≤ s.cache_capacity
  pub retention : 1 ≤ s.query_log_retention_days
  pub fanout : 1 ≤ s.upstream_parallel_fanout
  pub min_ttl : s.cache_min_ttl ≡ form.cache_min_ttl
  pub max_ttl : s.cache_max_ttl ≡ form.cache_max_ttl
  pub negative_ttl_cap : s.cache_negative_ttl_cap ≡ form.cache_negative_ttl_cap
  pub same_capacity : s.cache_capacity ≡ form.cache_capacity
  pub mode : mode_from_str form.blocking_mode ≡ ok s.blocking_mode
  pub ipv4 :
      IsAddress std.v4_from_str s.blocking_mode (trim form.custom_block_ipv4) s.custom_block_ipv4
  pub ipv6 :
      IsAddress std.v6_from_str s.blocking_mode (trim form.custom_block_ipv6) s.custom_block_ipv6
  pub interval : s.blocklist_refresh_interval ≡ form.blocklist_refresh_interval
  pub logged :
      (s.query_log_enabled ≡ true) ↔ ((value : Text) × (form.query_log_enabled ≡ some value))
  pub same_retention : s.query_log_retention_days ≡ form.query_log_retention_days
  pub strategy :
      strategy_from_str form.upstream_selection_strategy ≡ ok s.upstream_selection_strategy
  pub same_fanout : s.upstream_parallel_fanout ≡ form.upstream_parallel_fanout
  pub theme : s.ui_theme ≡ ui_theme

ok-inj : {E A : Type 0} (x y : A) → ◌≡◌ {A = Result E A} (ok x) (ok y) → x ≡ y
ok-inj x y h = cc

is_some-true : (o : Option Text) → (is_some o ≡ true) ↔ ((value : Text) × (o ≡ some value))
is_some-true none = (λ h. cc, λ h. cc h.1)
is_some-true (some value) = (λ h. (value, refl), λ h. refl)

parse_opt_ip-IsAddress :
    (from_str : Text → Option Bytes) (invalid : Text → BadRequest) (s : Text) {o : Option Bytes}
    → parse_opt_ip from_str invalid s ≡ ok o
    → IsAddress from_str custom (trim s) o
unfolding parse_opt_ip
parse_opt_ip-IsAddress from_str invalid s {o} h =
    let go : (t : Text) → parse_trimmed from_str invalid t ≡ ok o → IsAddress from_str custom t o =
      λ t.
        elim t as (λ t. parse_trimmed from_str invalid t ≡ ok o → IsAddress from_str custom t o) [
          | [] ↦ λ k. subst (IsAddress from_str custom []) (ok-inj none o k) blank
          | c ∷ cs ↦ λ k. elim (Option-cases (from_str (c ∷ cs))) [
            | inl g ↦ absurd (cc (rw (g, parse_trimmed) at k))
            | inr (a, g) ↦
                let same : some a ≡ o = cc (rw (g, parse_trimmed) at k) in
                subst (IsAddress from_str custom (c ∷ cs)) same (given (c ∷ cs) a (λ q. cc) g)
          ]
        ] in
    go (trim s) h

module _ (std : Addresses) where
  custom_addresses-IsAddress :
      (mode : BlockingMode) (form : SettingsForm) {a : Option Bytes × Option Bytes}
      → custom_addresses std mode form ≡ ok a
      → IsAddress std.v4_from_str mode (trim form.custom_block_ipv4) a.0
        × IsAddress std.v6_from_str mode (trim form.custom_block_ipv6) a.1
  unfolding custom_addresses
  custom_addresses-IsAddress nxdomain form {a} h =
      subst
        (λ (a : Option Bytes × Option Bytes).
          IsAddress std.v4_from_str nxdomain (trim form.custom_block_ipv4) a.0
          × IsAddress std.v6_from_str nxdomain (trim form.custom_block_ipv6) a.1)
        (ok-inj _ a h) (unused nxdomain _ (inl refl), unused nxdomain _ (inl refl))
  custom_addresses-IsAddress null_address form {a} h =
      subst
        (λ (a : Option Bytes × Option Bytes).
          IsAddress std.v4_from_str null_address (trim form.custom_block_ipv4) a.0
          × IsAddress std.v6_from_str null_address (trim form.custom_block_ipv6) a.1)
        (ok-inj _ a h) (unused null_address _ (inr refl), unused null_address _ (inr refl))
  custom_addresses-IsAddress custom form {a} h =
      let (ipv4, b, h1) =
        >>=-eq-ok (parse_opt_ip std.v4_from_str invalid_v4 form.custom_block_ipv4) _ h in
      let (ipv6, c, h2) =
        >>=-eq-ok (parse_opt_ip std.v6_from_str invalid_v6 form.custom_block_ipv6) _ h1 in
      subst
        (λ (a : Option Bytes × Option Bytes).
          IsAddress std.v4_from_str custom (trim form.custom_block_ipv4) a.0
          × IsAddress std.v6_from_str custom (trim form.custom_block_ipv6) a.1)
        (ok-inj _ a h2)
        (
          parse_opt_ip-IsAddress std.v4_from_str invalid_v4 form.custom_block_ipv4 b,
          parse_opt_ip-IsAddress std.v6_from_str invalid_v6 form.custom_block_ipv6 c,
        )

  pub into_settings-IsAccepted :
      (form : SettingsForm) (ui_theme : Text) {s : Settings}
      → into_settings std form ui_theme ≡ ok s
      → IsAccepted std form ui_theme s
  unfolding into_settings
  into_settings-IsAccepted form ui_theme {s} h =
      let (_, a, h1) = >>=-eq-ok (reject_if (ltb form.cache_max_ttl form.cache_min_ttl) _) _ h in
      let (_, b, h2) = >>=-eq-ok (reject_if (form.cache_capacity == 0) _) _ h1 in
      let (mode, c, h3) =
        >>=-eq-ok
          (map_err (λ _. bad_request BadRequest.invalid_mode) (mode_from_str form.blocking_mode)) _
          h2 in
      let (addresses, d, h4) = >>=-eq-ok (custom_addresses std mode form) _ h3 in
      let (_, e, h5) = >>=-eq-ok (reject_if (form.query_log_retention_days == 0) _) _ h4 in
      let (strategy, f, h6) =
        >>=-eq-ok
          (map_err (λ _. bad_request BadRequest.invalid_strategy)
            (strategy_from_str form.upstream_selection_strategy))
          _ h5 in
      let (_, g, h7) = >>=-eq-ok (reject_if (ltb form.upstream_parallel_fanout 1) _) _ h6 in
      let ordered = reject_if-eq-ok _ _ a in
      let capacity = reject_if-eq-ok _ _ b in
      let retention = reject_if-eq-ok _ _ e in
      let fanout = reject_if-eq-ok _ _ g in
      let mode_read = map_err-eq-ok _ (mode_from_str form.blocking_mode) c in
      let read = custom_addresses-IsAddress mode form d in
      subst (IsAccepted std form ui_theme) (ok-inj _ s h7) (record {
        ordered = ltb→le form.cache_max_ttl form.cache_min_ttl ordered;
        capacity = ground (arith, capacity);
        retention = ground (arith, retention);
        fanout = ltb→le form.upstream_parallel_fanout 1 fanout;
        min_ttl = refl;
        max_ttl = refl;
        negative_ttl_cap = refl;
        same_capacity = refl;
        mode = mode_read;
        ipv4 = read.0;
        ipv6 = read.1;
        interval = refl;
        logged = is_some-true form.query_log_enabled;
        same_retention = refl;
        same_fanout = refl;
        strategy = map_err-eq-ok _ (strategy_from_str form.upstream_selection_strategy) f;
        theme = refl;
      })
