-- ===== src/Tests/Upstream.antt =====
-- The dial of internal/proxy/upstream.go at three addresses: a local one, one whose handshake fails
-- and one that is used.
use utlsproxy.Common.{◌%◌}
use utlsproxy.Common.Int.{pos}
use utlsproxy.Profiles.{alpn_restricted}
use utlsproxy.Common.{
  ◌==◌, nat_eq, if◌then◌else◌, true, List, [], ◌∷◌, String, ◌≡◌, refl, some, contains, list_beq,
  Bool, ℕ,
}
use utlsproxy.Common.Outcome.{Result, ok, err}
use utlsproxy.Common.Text.{Bytes, codes}
use utlsproxy.Config.{defaults}
use utlsproxy.Netip.{addr_string, digits}
use utlsproxy.Netip.{Addr, v4}
use utlsproxy.Profiles.{Extension, alpn, ProfileError, UConn, alpn_restricted}
use utlsproxy.Profiles
use utlsproxy.Netip.{is_loopback, is_unspecified, is_multicast}
use utlsproxy.Proxy.Upstream.{
  dial_each, after_check, check_destination, after_dial, after_handshake, handshake_upstream,
  profiled, wrap,
}
use utlsproxy.Proxy.Upstream.{
  Negotiated, Dialed, upstream_tls, dial_upstream, is_refused, is_redirect,
}
use utlsproxy.Proxy.Upstream.Dialled.{IsTidy, dial_upstream-IsTidy}

abbrev hello : String → Result ProfileError (List Extension)
hello id = ok (alpn ("h2" ∷ "http/1.1" ∷ []) ∷ [])

abbrev any_preset : List Extension → Bool
any_preset es = true

abbrev greet : ℕ → UConn → Result Bytes Negotiated
greet raw u =
    if raw == 5 then err (codes "timeout") else ok (record { protocol = "h2"; settings = [] })

abbrev own : Addr → Result Bytes (List Addr)
own ip = ok (v4 3221225986 ∷ [])

-- connections are numbered by the last byte here
abbrev connect : Addr → Result Bytes ℕ
connect (v4 n) = ok (n % 256)
connect _ = err []

abbrev candidates : List Addr
candidates = v4 3221225986 ∷ v4 3221225989 ∷ v4 3221225990 ∷ []

abbrev used : Dialed
used = record {
  raw = 6;
  client = record { server_name = "tls.peet.ws"; extensions = alpn ("h2" ∷ []) ∷ [] };
  modifications = alpn_restricted ∷ [];
  negotiated = record { protocol = "h2"; settings = [] };
  ip = v4 3221225990;
  port = pos 443;
}

third_used :
    dial_upstream hello any_preset greet own connect
      (ok candidates)
      defaults
      "tls.peet.ws"
      ("h2" ∷ [])
    ≡ (
      ok used,
      record { opened = 5 ∷ 6 ∷ []; closed = 5 ∷ []; last = some (upstream_tls (codes "timeout")) },
    )
unfolding dial_upstream dial_each after_check check_destination is_refused is_loopback
    is_unspecified is_multicast contains is_redirect list_beq addr_string digits after_dial
    after_handshake handshake_upstream profiled wrap Profiles.new Profiles.adjust Profiles.allow
    Profiles.compatible Profiles.filter_alps Profiles.filter_extensions Profiles.get
    Profiles.intersection Profiles.no_overlap Profiles.restrict Profiles.restrict_alpn
third_used = refl

dial_upstream-IsTidy_example :
    IsTidy hello any_preset greet own connect candidates defaults "tls.peet.ws" ("h2" ∷ []) (
      dial_upstream hello any_preset greet own connect
        (ok candidates)
        defaults
        "tls.peet.ws"
        ("h2" ∷ []))
dial_upstream-IsTidy_example =
    dial_upstream-IsTidy hello any_preset greet own connect candidates defaults "tls.peet.ws"
      ("h2" ∷ [])
