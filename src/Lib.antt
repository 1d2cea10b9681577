-- ===== src/Lib.antt =====
-- The TLS proxy utlsproxy: its server, its resolver, its configuration and its upstream profiles.
--
-- The program accepts TLS connections for listed domains, dials the real server with a ClientHello
-- of a browser, and relays the bytes. Its configuration is validated once and then replaced by
-- reloads; its resolver keeps a routing of names to server groups, which a refresh renews; its server
-- keeps the open connections and the counters of its status. Two of its commands change the machine:
-- one puts a block of entries into the hosts file, one the certificate into the trust store.
--
-- Files and code, by the module's path and the path from the repository's root:
--   Proxy/Server, Proxy/Category: internal/proxy/server.go. `Server` is the state that the mutex
--     guards and the snapshot in force. Each critical section is one function: `accept`; the
--     sections of `handle` (`set_cancel`, `set_sni`, `set_upstream`, `set_relaying`); the end of a
--     connection (`finish`, of `forget` and `count_error`); those of `Run` (`stop`, `force_stop`);
--     `failure`; `reload`; `status`; `connections`. `count_sent` and `count_received` are
--     `progressWriter.Write`. Proxy/Server/Steps lets them interleave in any order.
--   Proxy/Upstream: internal/proxy/upstream.go, with `check_destination`, `handshake_upstream` and
--     `dial_upstream`, whose loop is `dial_each`; connections are numbers.
--   Dns/Group, Dns/Select: internal/dns/discovery.go, the groups and `Select`.
--   Dns/Discovery, Dns/Scutil: internal/dns/discovery.go, `LocalAddresses` and `usable`, and
--     `ParseScutil`, whose loop is `read_lines` and its body `read_line`.
--   Dns/Resolved: internal/dns/resolved_properties.go with `managerGroup`, and
--     internal/dns/discovery_linux.go with `linkGroup` and `resolvedDiscovery`, whose loop is
--     `visit_links`.
--   Dns/Resolver: internal/dns/resolver.go. `Refresh` is `is_recent` before the discovery and
--     `apply_discovery` after it, `Configure` starts with `set_config`, `lookup` is `begin_lookup`
--     before the flight and `store_answer` at its end; Dns/Resolver/Fresh lets them interleave.
--   Dns/Query: internal/dns/resolver.go, the loop of a flight over groups and servers.
--   Dns/Resolve: internal/dns/resolver.go, `resolve`. `ask` is the exchange with its checks, `scan` the
--     loop over the records, `walk` the inner loop, and `resolve_from` the outer one.
--   Config, Config/Domain, Config/Validate, Config/Access: internal/config/config.go, with `Defaults`,
--     `RestartRequired`, `Domain`, `Endpoint`, `Validate`, `AllowsDomain` and `AllowsClient`.
--   Profiles: internal/profiles/profiles.go, with `New`, `Get`, `List` and `Compatible`.
--   Disk: what the program uses of the package os, on files whose operations may fail; Disk/Rules and
--     Disk/Frame: postconditions of sequences of them.
--   Files: internal/fsutil/fsutil.go, its functions by their names (`regular_file` is `Regular`).
--   Hosts: internal/hosts/hosts.go, with `block`, `lineDiff`, and `Prepare` from the bytes of the file
--     on, of which `proposed` is the plan.
--   Trust, Trust/World, Trust/Execute: internal/trust/trust.go. `Run` is the report, the files and the
--     trust store; `execute` is `Execute`, of `proceed` behind the load of the certificate, `act` behind
--     the inspection, `install` with `roll_back`, and `uninstall`. Trust/Rules, Trust/Triple: the
--     rules for its steps.
--   Netip: what these use of Go's net/netip. Common: shared helpers (results, maps, texts, integers,
--     the loop that keeps the best elements). Tests: runs at concrete inputs.
-- The proxy uses the configuration to decide who is admitted, and its reload configures the resolver.
--
-- Conventions. A text that the code takes apart is a list of bytes, one that it only compares is a
-- native string; case and space are those of ASCII. An `int` is a signed number with no bound, a
-- counter of 64 bits wraps around. Times are nanoseconds. A nil slice is the empty list, so
-- `reflect.DeepEqual` does not tell the two apart. A cache key "%d:%s" is the pair that it prints.
-- The paths of `Defaults` are those of Linux. An operation of the disk ends as the disk's list of
-- fates says; a failed write leaves the bytes that it wrote. What a function returns beside an error
-- is left out, except the report of `Execute`. `itoa` has fuel for the 20 digits of 64 bits. The outer
-- loop of `resolve` has its nine turns as an argument and the inner one ten as fuel, as a turn that
-- goes on adds a name to at most eight; every other loop is a recursion on a list.
--
-- Parameters. The conversion to ASCII (golang.org/x/net/idna), `dns.Fqdn` (github.com/miekg/dns), the
-- extensions of a uTLS profile and whether a preset is accepted are arguments of the definitions
-- that use them; so are the machine's own addresses, the dialer, the TLS handshake, the exchange with
-- a DNS server, the identifiers of its queries, and the reading of IPv6 addresses, whose value the
-- program does not look into. So are the interface addresses, the decoding of D-Bus variants and the
-- answers of the bus, `filepath.Abs` and `filepath.EvalSymlinks`, the name of a temporary file, the
-- PEM and X.509 codecs, the digest, the JSON codec of receipts, and the tools behind the trust store,
-- whose state is a type of its own. A certificate authority of the server is a number, and the
-- outcomes of `load` and `ca.Load` are arguments.
--
-- Not modelled: sockets and deadlines, the downstream TLS handshake and the copying of bytes
-- (internal/proxy/server.go from `handle` on), the second try of `Lookup`, the choice among the
-- system's sources of resolvers and the calls of D-Bus and scutil (internal/dns/discovery_linux.go,
-- internal/dns/discovery_darwin.go), the decoding of the configuration file, `Apply` of
-- internal/hosts/hosts.go, internal/trust/platform.go, internal/ca, internal/cli, internal/control,
-- internal/logging and internal/service.
pub mod Common
pub mod Disk
pub mod Files
pub mod Hosts
pub mod Trust
pub mod Dns
pub mod Profiles
pub mod Netip
pub mod Config
pub mod Proxy
mod Tests
