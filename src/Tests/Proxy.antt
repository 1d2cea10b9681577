-- ===== src/Tests/Proxy.antt =====
-- The server of internal/proxy at a small run: one client is admitted, sends and leaves.
use utlsproxy.Common.{list_beq}
use utlsproxy.Common.Map.{insert}
use utlsproxy.Common.Text.{trim_suffix}
use utlsproxy.Common.Int.{ltb_ℤ}
use utlsproxy.Dns.Resolver.{configure}
use utlsproxy.Common.Map.{erase, insert}
use utlsproxy.Common.{ℕ, true, false, [], Option, some, none, ◌≡◌, refl, arith, length, ◌+◌, nat_eq}
use utlsproxy.Common.Int.{pos}
use utlsproxy.Common.Map.{lookup}
use utlsproxy.Common.Text.{Bytes, codes, contains_text}
use utlsproxy.Common.Outcome.{Result, ok}
use utlsproxy.Config.{Config, defaults, restart_required}
use utlsproxy.Config.Access.{allows_client, covers}
use utlsproxy.Dns.Resolver.{Found, unrefreshed}
use utlsproxy.Netip.{Addr, parse_addr_port, parse_prefix, prefix_contains, unmap}
use utlsproxy.Proxy.Category.{Error, category}
use utlsproxy.Proxy.Server.{
  Server, Snapshot, new, accept, admitted, denied, finish, status, update, count_sent, stop, reload,
  ReloadError, is_denied, is_full, fresh_connection, add64,
}
use utlsproxy.Proxy.Server.Steps.{
  IsConsistent, here, next, accepts, forgets, counts_error, forgets, counts_error,
}
use utlsproxy.Proxy.Server.Invariant.{Reach-IsConsistent}
use utlsproxy.Proxy.Server.Admit.{accept_admitted, stopping-NoneNew, NoneNew, reload-ok}
use utlsproxy.Proxy.Server.Traffic.{finish-traffic, update-traffic}

abbrev no_v6 : Bytes → Option ℕ
no_v6 s = none

abbrev idle : Server
idle = new defaults 7 (unrefreshed defaults.dns) "info"

abbrev snap : Snapshot
snap = record { config = defaults; authority = 7; generation = 1 }

abbrev local_client : Bytes
local_client = codes "127.0.0.1:50000"

abbrev busy : Server
busy = (accept no_v6 snap local_client 5 idle).0

idle_accepts : (accept no_v6 snap local_client 5 idle).1 ≡ admitted 1
unfolding accept is_denied is_full new allows_client covers parse_addr_port parse_prefix
    prefix_contains unmap
idle_accepts = refl

accept_stranger : (accept no_v6 snap (codes "192.0.2.7:50000") 5 idle).1 ≡ denied
unfolding accept is_denied is_full new allows_client covers parse_addr_port parse_prefix
    prefix_contains unmap
accept_stranger = refl

abbrev timed_out : Error
timed_out = record {
  text = codes "dns_query 9.9.9.9:53: i/o timeout";
  is_timeout = true;
  is_closed = false;
  is_canceled = false;
}

category_dns : category timed_out ≡ codes "dns"
unfolding category contains_text trim_suffix
category_dns = refl

Reach-IsConsistent_example : IsConsistent (finish 1 (some timed_out) busy)
unfolding new finish
Reach-IsConsistent_example =
    Reach-IsConsistent no_v6 defaults 7 (unrefreshed defaults.dns) "info" (omega arith) _ (
      next
        (next (next here (accepts idle snap local_client 5 (omega arith) (omega arith)))
          (forgets busy 1))
        (counts_error _ busy.stopping (some timed_out)))

idle-IsConsistent : IsConsistent idle
unfolding new
idle-IsConsistent = record {
  distinct = tt;
  numbered = tt;
  counted = refl;
  fits = omega arith;
  limit = omega arith;
  failures = tt;
}

accept_admitted_example :
    ((a : Addr) × (port : ℕ) × (parse_addr_port no_v6 local_client ≡ some (a, port))
      × (allows_client no_v6 defaults a ≡ true))
    × (idle.stopping ≡ false)
    × (ltb_ℤ (pos (length idle.connections)) defaults.runtime.max_connections ≡ true)
    × (lookup 1 idle.connections ≡ none)
    × (length busy.connections ≡ length idle.connections + 1)
unfolding new
accept_admitted_example =
    accept_admitted no_v6 snap local_client 5 1 idle idle-IsConsistent (omega arith) idle_accepts

stopping-NoneNew_example : NoneNew (stop busy) (accept no_v6 snap local_client 9 (stop busy)).0
unfolding stop accept is_denied is_full new allows_client covers parse_addr_port parse_prefix
    prefix_contains unmap
stopping-NoneNew_example =
    stopping-NoneNew no_v6 (stop busy) _
      (next here (accepts (stop busy) snap local_client 9 (omega arith) (omega arith))) refl

abbrev quiet : Found
quiet = record {
  discovery = record { source = []; routing = []; groups = [] };
  error = some (codes "no usable server");
}

abbrev debug_config : Config
debug_config = record defaults { log = record { level = "debug"; format = "json" } }

abbrev loaded : Result ReloadError Config
loaded = ok debug_config

abbrev signed : Config → Result ReloadError ℕ
signed c = ok 8

abbrev reloaded : Server
reloaded = record busy {
  current = record {
    config = debug_config;
    authority = 8;
    generation = add64 busy.current.generation 1;
  };
  resolver = configure debug_config.dns 10 quiet 20 busy.resolver;
  level = "debug";
}

reload_debug : reload loaded signed 10 quiet 20 busy ≡ ok reloaded
unfolding reload restart_required list_beq accept is_denied is_full new allows_client covers
    parse_addr_port parse_prefix prefix_contains unmap
reload_debug = refl

reload-ok_example :
    (loaded ≡ ok reloaded.current.config)
    × (signed debug_config ≡ ok reloaded.current.authority)
    × (reloaded.current.generation ≡ add64 busy.current.generation 1)
    × (reloaded.current.config.listen ≡ busy.current.config.listen)
    × (reloaded.current.config.upstream.port ≡ busy.current.config.upstream.port)
    × (reloaded.current.config.ca.cert ≡ busy.current.config.ca.cert)
    × (reloaded.current.config.ca.key ≡ busy.current.config.ca.key)
    × (reloaded.current.config.runtime.state_dir ≡ busy.current.config.runtime.state_dir)
    × (reloaded.current.config.runtime.control_socket ≡ busy.current.config.runtime.control_socket)
    × (reloaded.current.config.log.format ≡ busy.current.config.log.format)
    × (reloaded.connections ≡ busy.connections)
    × (reloaded.total ≡ busy.total)
    × (reloaded.failures ≡ busy.failures)
    × (reloaded.sent ≡ busy.sent)
    × (reloaded.received ≡ busy.received)
    × (reloaded.stopping ≡ busy.stopping)
reload-ok_example = reload-ok loaded signed 10 quiet 20 busy reloaded reload_debug

abbrev wrote : Server
wrote = update (count_sent 300) 1 (lookup 1 busy.connections) busy

finish-traffic_example :
    ((status (finish 1 none wrote)).bytes_sent ≡ (status wrote).bytes_sent)
    × ((status (finish 1 none wrote)).bytes_received ≡ (status wrote).bytes_received)
unfolding update count_sent accept is_denied is_full new allows_client covers parse_addr_port
    parse_prefix prefix_contains unmap lookup insert erase
finish-traffic_example = finish-traffic 1 none wrote (refl, tt) (omega arith) (omega arith)

update-traffic_example :
    ((status wrote).bytes_sent ≡ add64 (status busy).bytes_sent 300)
    × ((status wrote).bytes_received ≡ (status busy).bytes_received)
unfolding accept is_denied is_full new allows_client covers parse_addr_port parse_prefix
    prefix_contains unmap lookup insert erase
update-traffic_example =
    update-traffic 1 300 (fresh_connection 1 local_client 5 snap) busy (refl, tt) (omega arith)
      (omega arith) refl

-- 300 bytes stay counted when the connection ends
two_counts : (status (finish 1 none wrote)).bytes_sent ≡ 300
unfolding status finish update count_sent accept is_denied is_full new allows_client covers
    parse_addr_port parse_prefix prefix_contains unmap lookup insert erase fresh_connection
two_counts = refl
