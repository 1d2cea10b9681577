-- ===== src/Trust/World.antt =====
-- What an operation of the trust manager works on: the report that it fills in, the files, and the
-- system's trust store, whose type is a parameter. The report comes back beside an error too.
use utlsproxy.Common.{Bool, true, false, ◌==◌, nat_eq, list_eq, ◌&&◌}
use utlsproxy.Common.Outcome.{Result, ok, err}
use utlsproxy.Common.Text.{Bytes}
use utlsproxy.Disk.{FilePath, IoError, Disk, Io}

pub data Action : Type 0 where
  trust untrust trust_status : Action
  unknown : Bytes → Action

pub record TrustState : Type 0 where
  pub installed : Bool
  pub trusted : Bool

-- `Store`: where the certificates of the system are
pub record Place : Type 0 where
  pub kind : Bytes
  pub target : Bytes
  pub scope : Bytes

abbrev pub place_beq : Place → Place → Bool
place_beq a b = a.kind == b.kind && a.target == b.target && a.scope == b.scope

pub record Report : Type 0 where
  pub action : Action
  pub certificate : Bytes
  pub subject : Bytes
  pub sha256 : Bytes
  pub place : Place
  pub state : TrustState
  pub managed : Bool
  pub ownership_known : Bool
  pub receipt : FilePath
  pub recovery : FilePath
  pub dry_run : Bool
  pub changed : Bool
  pub message : Bytes

pub record Run (W : Type 0) : Type 0 where
  pub report : Report
  pub disk : Disk
  pub store : W

abbrev pub Act : Type 0 → Type 0 → Type 0
Act W A = Run W → Result IoError A × Run W

-- a call of the system's tools, which sees no report
abbrev pub Call : Type 0 → Type 0 → Type 0
Call W A = Disk × W → Result IoError A × (Disk × W)

-- an inspection, which has a state beside its error too
abbrev pub Look : Type 0 → Type 0
Look W = Disk × W → (TrustState × Result IoError (Unit {0})) × (Disk × W)

module _ {W : Type 0} where
  unfoldable pub pure : {A : Type 0} → A → Act W A
  pure a r = (ok a, r)

  unfoldable pub raise : {A : Type 0} → IoError → Act W A
  raise e r = (err e, r)

  abbrev pub after :
      {A B : Type 0} → Result IoError A × Run W → (A → Act W B) → Result IoError B × Run W
  after (ok a, r) f = f a r
  after (err e, r) f = (err e, r)

  infixl 5 ◌>>=◌ ◌>>◌
  unfoldable pub ◌>>=◌ : {A B : Type 0} → Act W A → (A → Act W B) → Act W B
  ◌>>=◌ m f r = after (m r) f

  unfoldable pub ◌>>◌ : {A B : Type 0} → Act W A → Act W B → Act W B
  unfolding ◌>>=◌
  m >> k = m >>= λ _. k

  unfoldable pub require : Bool → IoError → Act W (Unit {0})
  unfolding pure raise
  require true e = pure tt
  require false e = raise e

  unfoldable pub attempt : {A : Type 0} → Act W A → Act W (Result IoError A)
  attempt m r = let (a, r') = m r in (ok a, r')

  unfoldable pub on_disk : {A : Type 0} → Io A → Act W A
  on_disk m r = let (a, d) = m r.disk in (a, record r { disk = d })

  unfoldable pub on_system : {A : Type 0} → Call W A → Act W A
  on_system m r = let (a, (d, s)) = m (r.disk, r.store) in (a, record r { disk = d; store = s })

  unfoldable pub observe : Look W → Act W (TrustState × Result IoError (Unit {0}))
  observe m r = let (a, (d, s)) = m (r.disk, r.store) in (ok a, record r { disk = d; store = s })

  unfoldable pub fill : (Report → Report) → Act W (Unit {0})
  fill f r = (ok tt, record r { report = f r.report })

  unfoldable pub get : Act W (Run W)
  get r = (ok r, r)

  unfoldable pub given : {A : Type 0} → Result IoError A → Act W A
  given a r = (a, r)
