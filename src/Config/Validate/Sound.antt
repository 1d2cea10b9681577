-- ===== src/Config/Validate/Sound.antt =====
-- What a validated configuration satisfies, for `Validate` of internal/config/config.go.
use utlsproxy.Config.Validate.Valid.{Distinct, ValidUpstream, ValidNames, ValidRuntime}
use utlsproxy.Config.Validate.Ranges.{
  known_profile-ok, in_range, duration_range, refresh_range, either, known_level, count_range,
  not_empty, some_elements, mode_servers,
}
use utlsproxy.Config.Validate.Loops.{
  check_servers-All, check_cidrs-All, fresh-contains, check_listen-Distinct,
}
use utlsproxy.Common.Outcome.{err}
use utlsproxy.Common.{◌==◌, nat_eq, list_eq, string_eq, ltb, subst, sym}
use utlsproxy.Config.Validate.{domain, validate_names, validate}
use utlsproxy.Common.{◌||◌, leb→le, ap, suc, not}
use utlsproxy.Common.Outcome.{then-ok, ensure-ok, ensure-true, bind-eq-ok}
use utlsproxy.Config.Domain.Laws.{IsHostname, domain-IsHostname}
use utlsproxy.Common.{
  ℕ, ◌≡◌, true, false, List, [], ◌∷◌, Option, arith, length, contains, refl, list_eq, nat_eq,
  string_eq, All, some,
}
use utlsproxy.Common.Int.{pos, int_eq, int_beq_iff}
use utlsproxy.Common.Text.{Bytes}
use utlsproxy.Common.Outcome.{Result, ok}
use utlsproxy.Config.{Config}
use utlsproxy.Config.Validate.{
  validate_upstream, check_listen, validate_runtime, check_domains, check_paths, check_durations,
  ConfigError,
}

config_of : Config → Result ConfigError Config → Config
config_of d (ok c) = c
config_of d (err _) = d

config_ok : (c d : Config) → ◌≡◌ {A = Result ConfigError Config} (ok c) (ok d) → c ≡ d
unfolding config_of
config_ok c d h = ap (config_of c) h

module _ (to_ascii : Bytes → Option Bytes) (parse_v6 : Bytes → Option ℕ) where
  validate_upstream-Valid :
      (c : Config) → validate_upstream to_ascii parse_v6 c ≡ ok tt → ValidUpstream parse_v6 c
  unfolding validate_upstream
  validate_upstream-Valid c h =
      let (profile, h1) = then-ok _ _ h in
      let (port, h2) = ensure-ok _ _ _ h1 in
      let (alpn_mode, h3) = ensure-ok _ _ _ h2 in
      let (mode, h4) = ensure-ok _ _ _ h3 in
      let (counts, h5) = ensure-ok _ _ _ h4 in
      let (count, h6) = ensure-ok _ _ _ h5 in
      let (servers, h7) = then-ok _ _ h6 in
      record {
        profile = known_profile-ok c.upstream.profile profile;
        port = in_range (pos 1) (pos 65535) c.upstream.port port;
        alpn_mode = either c.upstream.alpn_mode "strict" "compatible" alpn_mode;
        dns_mode = mode_servers c.dns.mode c.dns.servers mode counts;
        servers_count = leb→le _ _ count;
        servers = check_servers-All parse_v6 c.dns.servers servers;
        cache_size = in_range (pos 0) (pos 65536) c.dns.cache_size (ensure-true _ _ h7);
      }

  validate_runtime-Valid :
      (c : Config) → validate_runtime to_ascii parse_v6 c ≡ ok tt → ValidRuntime parse_v6 c
  unfolding validate_runtime check_paths check_durations
  validate_runtime-Valid c h =
      let (cidrs, h1) = ensure-ok _ _ _ h in
      let (nets, h2) = then-ok _ _ h1 in
      let (address, h3) = ensure-ok _ _ _ h2 in
      let (paths, h4) = then-ok _ _ h3 in
      let (cert, p1) = ensure-ok _ _ _ paths in
      let (key, p2) = ensure-ok _ _ _ p1 in
      let (state_dir, p3) = ensure-ok _ _ _ p2 in
      let (socket, p4) = ensure-ok _ _ _ p3 in
      let (socket_length, h5) = ensure-ok _ _ _ h4 in
      let (connections, h6) = ensure-ok _ _ _ h5 in
      let (durations, h7) = then-ok _ _ h6 in
      let (timeout, d1) = ensure-ok _ _ _ durations in
      let (refresh, d2) = ensure-ok _ _ _ d1 in
      let (handshake, d3) = ensure-ok _ _ _ d2 in
      let (idle, d4) = ensure-ok _ _ _ d3 in
      let (shutdown, d5) = ensure-ok _ _ _ d4 in
      let (interval, h8) = ensure-ok _ _ _ h7 in
      let (level, h9) = ensure-ok _ _ _ h8 in
      record {
        client_cidrs =
            (some_elements c.client_cidrs cidrs, check_cidrs-All parse_v6 c.client_cidrs nets);
        address = address;
        cert = not_empty c.ca.cert cert;
        key = not_empty c.ca.key key;
        state_dir = not_empty c.runtime.state_dir state_dir;
        control_socket = (not_empty c.runtime.control_socket socket, leb→le _ _ socket_length);
        max_connections = in_range (pos 1) (pos 65536) c.runtime.max_connections connections;
        timeout = duration_range c.dns.timeout timeout;
        refresh_interval = refresh_range c.dns.refresh_interval refresh interval;
        handshake_timeout = duration_range c.runtime.handshake_timeout handshake;
        idle_timeout = duration_range c.runtime.idle_timeout idle;
        shutdown_timeout = duration_range c.runtime.shutdown_timeout shutdown;
        level = known_level c.log.level level;
        format = either c.log.format "json" "text" (ensure-true _ _ h9);
      }

  cons_ok :
      (d : Bytes) (rest ds : List Bytes)
      → ◌≡◌ {A = Result ConfigError (List Bytes)} (ok (d ∷ rest)) (ok ds)
      → d ∷ rest ≡ ds
  cons_ok d rest ds h = cc

  nil_ok : (ds : List Bytes) → ◌≡◌ {A = Result ConfigError (List Bytes)} (ok []) (ok ds) → [] ≡ ds
  nil_ok ds h = cc

  check_domains-Distinct :
      ((s a : Bytes) → to_ascii s ≡ some a → to_ascii a ≡ some a)
      → (seen ss ds : List Bytes) → check_domains parse_v6 to_ascii seen ss ≡ ok ds
      → All (λ d. contains seen d ≡ false) ds
        × All (IsHostname parse_v6) ds
        × Distinct ds
        × (length ds ≡ length ss)
        × (check_domains parse_v6 to_ascii seen ds ≡ ok ds)
  unfolding check_domains
  check_domains-Distinct stable seen [] ds h = rw (← (nil_ok ds h)) (tt, tt, tt, refl, refl)
  check_domains-Distinct stable seen (s ∷ ss) ds h =
      let (d, hd, h1) = bind-eq-ok (domain to_ascii parse_v6 s) _ h in
      let (fresh, h2) = ensure-ok (not (contains seen d)) _ _ h1 in
      let (rest, hr, h3) = bind-eq-ok (check_domains parse_v6 to_ascii (d ∷ seen) ss) _ h2 in
      let (a, b, c, l, again) = check_domains-Distinct stable (d ∷ seen) ss rest hr in
      let (f, g) = fresh-contains parse_v6 d seen rest a in
      let (w, normal) = domain-IsHostname to_ascii parse_v6 stable s d hd in
      rw (← (cons_ok d rest ds h3))
        ((ground arith, g), (w, b), (f, c), ap suc l, rw (normal, fresh, again))

  names_parts :
      (c c' : Config)
      → validate_names to_ascii parse_v6 c ≡ ok c'
      → (ds : List Bytes) × ((c.version == pos 1) ≡ true)
        × (not (length c.listen == 0 || ltb 16 (length c.listen)) ≡ true)
        × (check_listen parse_v6 [] c.listen ≡ ok tt)
        × (not (length c.domains == 0 || ltb 4096 (length c.domains)) ≡ true)
        × (check_domains parse_v6 to_ascii [] c.domains ≡ ok ds)
        × (record c { domains = ds } ≡ c')
  unfolding validate_names
  names_parts c c' h =
      let (version, h1) = ensure-ok (c.version == pos 1) _ _ h in
      let (listens, h2) =
        ensure-ok (not (length c.listen == 0 || ltb 16 (length c.listen))) _ _ h1 in
      let (listen, h3) = then-ok (check_listen parse_v6 [] c.listen) _ h2 in
      let (names, h4) =
        ensure-ok (not (length c.domains == 0 || ltb 4096 (length c.domains))) _ _ h3 in
      let (ds, hd, h5) = bind-eq-ok (check_domains parse_v6 to_ascii [] c.domains) _ h4 in
      (ds, version, listens, listen, names, hd, config_ok (record c { domains = ds }) c' h5)

  validate_names-Valid :
      ((s a : Bytes) → to_ascii s ≡ some a → to_ascii a ≡ some a)
      → (c c' : Config) → validate_names to_ascii parse_v6 c ≡ ok c'
      → ValidNames parse_v6 c'
        × (c' ≡ record c { domains = c'.domains })
        × (validate_names to_ascii parse_v6 c' ≡ ok c')
  validate_names-Valid stable c c' h =
      let (ds, version, listens, listen, names, hd, same) = names_parts c c' h in
      let (a, b, d) = check_listen-Distinct parse_v6 [] c.listen listen in
      let (e, f, g, l, again) = check_domains-Distinct stable [] c.domains ds hd in
      let names' = subst (λ n. not (n == 0 || ltb 4096 n) ≡ true) (sym l) names in
      subst
        (λ d'.
          ValidNames parse_v6 d'
          × (d' ≡ record c { domains = d'.domains })
          × (validate_names to_ascii parse_v6 d' ≡ ok d'))
        same
        (
          record {
            version = (int_beq_iff c.version (pos 1)).0 version;
            listen_count = count_range 16 (length c.listen) listens;
            listen = (b, d);
            domain_count = count_range 4096 (length ds) names';
            domains = (f, g);
          },
          refl,
          unfold validate_names in rw (version, listens, listen, names', again),
        )

  -- An accepted configuration is within every documented range: the counts, the endpoints, the names,
  -- the modes, the networks, the paths and the times. Validation changes only the domains, and
  -- accepts its own result without a change, if the conversion to ASCII leaves its own results
  -- unchanged.
  pub validate-Valid :
      ((s a : Bytes) → to_ascii s ≡ some a → to_ascii a ≡ some a)
      → (c c' : Config) → validate to_ascii parse_v6 c ≡ ok c'
      → ValidNames parse_v6 c'
        × ValidUpstream parse_v6 c'
        × ValidRuntime parse_v6 c'
        × (c' ≡ record c { domains = c'.domains })
        × (validate to_ascii parse_v6 c' ≡ ok c')
  unfolding validate
  validate-Valid stable c c' h =
      let (c1, hn, h1) = bind-eq-ok (validate_names to_ascii parse_v6 c) _ h in
      let (up, h2) = then-ok _ _ h1 in
      let (run, h3) = then-ok _ _ h2 in
      let same = config_ok c1 c' h3 in
      let (names, frame, again) = validate_names-Valid stable c c1 hn in
      subst
        (λ d.
          ValidNames parse_v6 d
          × ValidUpstream parse_v6 d
          × ValidRuntime parse_v6 d
          × (d ≡ record c { domains = d.domains })
          × (validate to_ascii parse_v6 d ≡ ok d))
        same
        (
          names,
          validate_upstream-Valid c1 up,
          validate_runtime-Valid c1 run,
          frame,
          unfold validate in rw (again, up, run),
        )
