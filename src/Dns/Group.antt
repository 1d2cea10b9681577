-- ===== src/Dns/Group.antt =====
-- internal/dns/discovery.go: the groups of servers that a discovery yields.
use utlsproxy.Common.{
  Bool, true, false, not, List, ◌≡◌, ◌↔◌, arith, ◌&&◌, ◌==◌, Eq, list_eq, nat_eq, list_beq_iff,
}
use utlsproxy.Common.Int.{ℤ, int_eq, int_beq_iff}
use utlsproxy.Common.Text.{Bytes}

pub record Group : Type 0 where
  pub servers : List Bytes
  pub domains : List Bytes
  pub iface : ℤ
  pub priority : ℤ
  pub default : Bool

pub record Discovery : Type 0 where
  pub source : Bytes
  pub routing : Bytes
  pub groups : List Group

abbrev bool_beq : Bool → Bool → Bool
bool_beq true b = b
bool_beq false b = not b

-- `reflect.DeepEqual` on groups and on discoveries; nil and empty lists are one.
unfoldable pub group_beq : Group → Group → Bool
group_beq a b =
    a.servers == b.servers
    && a.domains == b.domains
    && a.iface == b.iface
    && a.priority == b.priority
    && bool_beq a.default b.default

pub group_beq_iff : (a b : Group) → (group_beq a b ≡ true) ↔ (a ≡ b)
unfolding group_beq
group_beq_iff a b = ground (
  arith,
  list_beq_iff a.servers b.servers,
  list_beq_iff a.domains b.domains,
  int_beq_iff a.iface b.iface,
  int_beq_iff a.priority b.priority,
)

instance abbrev pub group_eq : Eq Group
group_eq = record { beq = group_beq; beq_iff = group_beq_iff }

unfoldable pub discovery_beq : Discovery → Discovery → Bool
discovery_beq a b = a.source == b.source && a.routing == b.routing && a.groups == b.groups

pub discovery_beq_iff : (a b : Discovery) → (discovery_beq a b ≡ true) ↔ (a ≡ b)
unfolding discovery_beq
discovery_beq_iff a b = ground (
  arith,
  list_beq_iff a.source b.source,
  list_beq_iff a.routing b.routing,
  list_beq_iff a.groups b.groups,
)
