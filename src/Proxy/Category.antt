-- ===== src/Proxy/Category.antt =====
-- internal/proxy/server.go: `category`, the failure counter that an error belongs to.
use utlsproxy.Common.{Bool, List, [], ◌∷◌, if◌then◌else◌, nat_eq, list_eq}
use utlsproxy.Common.Text.{Bytes, codes, contains_text, trim_suffix}

-- What the code asks of an error: its text, and the kinds that `errors.As` and `errors.Is` look for.
pub record Error : Type 0 where
  pub text : Bytes
  pub is_timeout : Bool
  pub is_closed : Bool
  pub is_canceled : Bool

abbrev pub markers : List Bytes
markers =
    codes "sni_missing"
    ∷ codes "domain_denied"
    ∷ codes "upstream_loop"
    ∷ codes "alpn_mismatch"
    ∷ codes "unsupported_alps"
    ∷ codes "dns_"
    ∷ codes "upstream_connect"
    ∷ codes "upstream_tls"
    ∷ []

unfoldable pub first_marker : Error → List Bytes → Bytes
first_marker e [] = if e.is_timeout then codes "timeout" else codes "connection"
first_marker e (c ∷ cs) =
    if contains_text e.text c then trim_suffix c (codes "_") else first_marker e cs

unfoldable pub category : Error → Bytes
unfolding first_marker
category e = first_marker e markers
