-- ===== src/Tests/Trust.antt =====
-- The trust manager of internal/trust, with a trust store that is a list of fingerprints.
use utlsproxy.Files.{lock, atomic, exclusive, regular_file}
use utlsproxy.Common.{
  ◌||◌, List, [], contains, false, if◌then◌else◌, list_beq, list_eq, nat_eq, none, refl, some, true,
  ◌==◌, ◌∷◌, ◌≡◌, inr,
}
use utlsproxy.Common.Outcome.{ok}
use utlsproxy.Common.Text.{Bytes, codes, has_prefix, is_space, trim_space}
use utlsproxy.Disk.{
  open_file, FilePath, chmod, close, flock, lstat, open_exclusive, read_file, regular, remove,
  rename, sync, write, Node,
}
use utlsproxy.Trust.{Backend, Certificate, Crypto, Manager, X509, load, parse, valid_now, installed}
use utlsproxy.Trust.Dry.{execute-OnlyLooks}
use utlsproxy.Trust.Execute.{
  act, add_trust, check_recovery, do_status, do_trust, do_untrust, enter, execute, inspect, install,
  join, probe, proceed, read_receipt, receipt_of, record_pending, remove_receipt, roll_back,
  uninstall,
}
use utlsproxy.Trust.Recorded.{IsLawful}
use utlsproxy.Trust.Rollback.{execute-Safe, IsClean}
use utlsproxy.Trust.Unmanaged.{untrust-unmanaged}
use utlsproxy.Trust.Triple.{Safe}
use utlsproxy.Trust.World.{
  Place, Report, Run, TrustState, attempt, fill, get, given, observe, on_disk, on_system, pure,
  raise, require, trust, untrust, ◌>>=◌, ◌>>◌,
}

abbrev authority : X509
authority = record {
  raw = codes "A";
  subject = codes "CN=a";
  not_before = 0;
  not_after = 9;
  is_ca = true;
  basic_constraints_valid = true;
  may_sign_certificates = true;
  is_self_signed = true;
}

abbrev pem_text : Bytes
pem_text = codes "-----BEGIN CERTIFICATE-----A"

abbrev crypto : Crypto
crypto = record {
  decode_pem = λ b. some (record { kind = codes "CERTIFICATE"; bytes = codes "A" }, []);
  encode_pem = λ b. pem_text;
  parse_certificate = λ b. ok authority;
  sha256_hex = λ b. codes "f0";
}

abbrev certificate : Certificate
certificate = record { x509 = authority; pem = pem_text; sha256 = codes "f0" }

-- the fingerprints that the system trusts
abbrev Store : Type 0
Store = List Bytes

abbrev place : Place
place = record { kind = codes "list"; target = []; scope = [] }

abbrev state_of : Store → TrustState
state_of s = record { installed = contains s (codes "f0"); trusted = contains s (codes "f0") }

abbrev backend : Backend Store
backend = record {
  place_of = λ c. place;
  inspect = λ c (d, s). ((state_of s, ok tt), (d, s));
  add = λ c p (d, s). (ok tt, (d, c.sha256 ∷ s));
  withdraw = λ c p (d, s). (ok tt, (d, []));
}

abbrev manager : Manager Store
manager = record {
  crypto = crypto;
  backend = backend;
  dir = codes "/t";
  protect = λ p d. (ok tt, d);
  encode = λ r. codes "receipt";
  decode = λ b. ok (record { version = 1; sha256 = codes "f0"; place = place; phase = installed });
  abs = ok;
  now = 5;
  tmp = codes "/t/tmp";
}

abbrev blank : Report
blank = record {
  action = trust;
  certificate = [];
  subject = [];
  sha256 = [];
  place = place;
  state = record { installed = false; trusted = false };
  managed = false;
  ownership_known = true;
  receipt = [];
  recovery = [];
  dry_run = false;
  changed = false;
  message = [];
}

abbrev start : Run Store
start = record {
  report = blank;
  disk = record {
    fates = [];
    nodes = λ p.
        if p == codes "/ca"
        then some (record { kind = regular; uid = 0; mode = 420; content = pem_text })
        else none;
    held = [];
    euid = 0;
  };
  store = [];
}

start_loads : (load crypto (codes "/ca") start.disk).0 ≡ ok certificate
unfolding load read_file list_beq parse has_prefix trim_space
start_loads = refl

trusted_after : (execute manager trust (codes "/ca") false start).1.store ≡ codes "f0" ∷ []
unfolding ◌>>◌ ◌>>=◌ require on_disk given fill get attempt observe on_system pure raise valid_now
    parse load execute proceed enter act add_trust check_recovery do_status do_trust do_untrust
    inspect install join probe read_receipt record_pending remove_receipt roll_back uninstall lock
    atomic exclusive regular_file read_file chmod close flock lstat open_exclusive open_file remove
    rename sync write list_beq contains has_prefix trim_space is_space
trusted_after = refl

-- the fingerprint is not among those
abbrev Lacks : Store → Type 0
Lacks s = contains s (codes "f0") ≡ false

lawful : IsLawful manager certificate (receipt_of manager certificate)
lawful = record {
  inspects = λ d s. (refl, refl);
  adds = λ p d s. refl;
  withdraws = λ p d s. refl;
  protects = λ d. refl;
}

abbrev file : Bytes → Node
file b = record { kind = regular; uid = 0; mode = 384; content = b }

-- an installation with its receipt and its recovery certificate
abbrev managed : Run Store
managed = record {
  report = blank;
  disk = record {
    fates = [];
    nodes = λ p.
        if p == codes "/t/f0.json"
        then some (file (codes "receipt"))
        else if p == codes "/ca" || p == codes "/t/f0.crt"
        then some (file pem_text)
        else none;
    held = [];
    euid = 0;
  };
  store = codes "f0" ∷ [];
}

managed_loads : (load crypto (codes "/ca") managed.disk).0 ≡ ok certificate
unfolding load read_file list_beq parse has_prefix trim_space
managed_loads = refl

managed_receipt :
    managed.disk.nodes (receipt_of manager certificate) ≡ some (file (codes "receipt"))
unfolding join list_beq
managed_receipt = refl

untrusted_after : (execute manager untrust (codes "/ca") false managed).1.store ≡ []
unfolding ◌>>◌ ◌>>=◌ require on_disk given fill get attempt observe on_system pure raise valid_now
    parse load execute proceed enter act check_recovery do_untrust inspect join read_receipt
    remove_receipt uninstall lock regular_file read_file flock lstat open_file remove list_beq
    contains has_prefix trim_space is_space
untrusted_after = refl

tmp_apart : (manager.tmp == receipt_of manager certificate) ≡ false
unfolding list_beq join
tmp_apart = refl

no_receipt : start.disk.nodes (receipt_of manager certificate) ≡ none
unfolding join list_beq
no_receipt = refl

execute-Safe_example :
    Safe
      (receipt_of manager certificate)
      (IsClean manager certificate Lacks untrust)
      (execute manager untrust (codes "/ca") false managed).1
execute-Safe_example =
    execute-Safe manager Lacks untrust (codes "/ca") false certificate managed managed_loads lawful
      (λ d s o i. i) tmp_apart (inr (file (codes "receipt"), managed_receipt))

execute-OnlyLooks_example :
    ((q : FilePath)
      → (execute manager untrust (codes "/ca") true start).1.disk.nodes q ≡ start.disk.nodes q)
    × ((execute manager untrust (codes "/ca") true start).1.store ≡ start.store)
execute-OnlyLooks_example =
    execute-OnlyLooks manager untrust (codes "/ca") true refl (λ c q d s. (refl, refl)) start

untrust-unmanaged_example :
    (execute manager untrust (codes "/ca") false start).1.store ≡ start.store
untrust-unmanaged_example =
    untrust-unmanaged manager (codes "/ca") false certificate start start_loads
      (λ d s. (refl, refl)) (λ d. refl) no_receipt
