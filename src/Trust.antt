-- ===== src/Trust.antt =====
-- internal/trust/trust.go: the certificate, the receipt, and the manager that installs and removes a
-- certificate authority. The cryptography, the JSON codec of receipts, `filepath.Abs` and the
-- system's trust store are parameters.
pub mod World
pub mod Execute
pub mod Rules
pub mod Reads
pub mod Dry
pub mod Triple
pub mod Recorded
pub mod Undo
pub mod Removal
pub mod Rollback
pub mod Start
pub mod Unmanaged
use utlsproxy.Common.{
  ℕ, Bool, true, false, ◌&&◌, ◌||◌, not, List, [], ◌∷◌, ◌++◌, Option, none, some, if◌then◌else◌,
  ◌==◌, nat_eq, list_eq, length, ltb, leb,
}
use utlsproxy.Common.Outcome.{Result, ok, err}
use utlsproxy.Common.Text.{Bytes, codes, has_prefix, trim_space}
use utlsproxy.Disk
use utlsproxy.Disk.{
  FilePath, IoError, not_exist, permission, system, message, wrapping, joined, Io, read_file,
  remove,
}
use utlsproxy.Files.{regular_file, exclusive, atomic, lock}
use utlsproxy.Trust.World.{
  Action, trust, untrust, trust_status, unknown, TrustState, Place, place_beq, Report, Run, Act,
  Call, Look, pure, raise, ◌>>=◌, ◌>>◌, require, attempt, on_disk, on_system, fill, get, given,
}

-- What `x509.ParseCertificate` finds.
pub record X509 : Type 0 where
  pub raw : Bytes
  pub subject : Bytes
  pub not_before : ℕ
  pub not_after : ℕ
  pub is_ca : Bool
  pub basic_constraints_valid : Bool
  pub may_sign_certificates : Bool
  pub is_self_signed : Bool

pub record Certificate : Type 0 where
  pub x509 : X509
  pub pem : Bytes
  pub sha256 : Bytes

-- A block of PEM: its type and its bytes.
pub record Block : Type 0 where
  pub kind : Bytes
  pub bytes : Bytes

-- encoding/pem, crypto/x509 and crypto/sha256, the sum in hexadecimal
pub record Crypto : Type 0 where
  pub decode_pem : Bytes → Option (Block × Bytes)
  pub encode_pem : Block → Bytes
  pub parse_certificate : Bytes → Result IoError X509
  pub sha256_hex : Bytes → Bytes

-- `validNow`; the clock does not pass between its two readings
unfoldable pub valid_now : ℕ → Certificate → Bool
valid_now now c = leb c.x509.not_before now && ltb now c.x509.not_after

abbrev pub certificate_type : Bytes
certificate_type = codes "CERTIFICATE"

module _ (C : Crypto) where
  abbrev is_signing_ca : X509 → Bool
  is_signing_ca x =
      x.is_ca && x.basic_constraints_valid && x.may_sign_certificates && x.is_self_signed

  abbrev certified : Result IoError X509 → Result IoError Certificate
  certified (err e) = err e
  certified (ok x) =
      if is_signing_ca x
      then ok (record {
        x509 = x;
        pem = C.encode_pem (record { kind = certificate_type; bytes = x.raw });
        sha256 = C.sha256_hex x.raw;
      })
      else err (message (codes "trust operations require a self-signed signing CA"))

  abbrev decoded : Option (Block × Bytes) → Result IoError Certificate
  decoded none = err (message (codes "expected exactly one PEM certificate"))
  decoded (some (p, rest)) =
      if p.kind == certificate_type && trim_space rest == []
      then certified (C.parse_certificate p.bytes)
      else err (message (codes "expected exactly one PEM certificate"))

  -- `Parse`
  unfoldable pub parse : Bytes → Result IoError Certificate
  parse b =
      let t = trim_space b in
      if has_prefix t (codes "-----BEGIN CERTIFICATE-----")
      then decoded (C.decode_pem t)
      else err
          (message (codes "expected one public PEM CA certificate, not a private key or bundle"))

  abbrev pub loaded : Bytes → Io Certificate
  loaded b =
      if ltb 1048576 (length b)
      then Disk.raise (message (codes "CA certificate exceeds 1 MiB"))
      else λ d. (parse b, d)

  -- `Load`
  unfoldable pub load : FilePath → Io Certificate
  load path = Disk.◌>>=◌ (read_file path) loaded

pub data Phase : Type 0 where
  pending installed : Phase
  other_phase : Bytes → Phase

pub record Receipt : Type 0 where
  pub version : ℕ
  pub sha256 : Bytes
  pub place : Place
  pub phase : Phase

abbrev pub known_phase : Phase → Bool
known_phase pending = true
known_phase installed = true
known_phase (other_phase b) = false

-- The interface `backend`.
pub record Backend (W : Type 0) : Type 0 where
  pub place_of : Certificate → Place
  pub inspect : Certificate → Look W
  pub add : Certificate → FilePath → Call W (Unit {0})
  pub withdraw : Certificate → FilePath → Call W (Unit {0})

-- `Manager`, whose user is the disk's, with what it calls of encoding/json, of path/filepath and of
-- the clock, and the temporary name that a replacement of the receipt uses
pub record Manager (W : Type 0) : Type 0 where
  pub crypto : Crypto
  pub backend : Backend W
  pub dir : FilePath
  pub protect : FilePath → Io (Unit {0})
  pub encode : Receipt → Bytes
  pub decode : Bytes → Result IoError Receipt
  pub abs : FilePath → Result IoError FilePath
  pub now : ℕ
  pub tmp : FilePath
