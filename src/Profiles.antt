-- ===== src/Profiles.antt =====
-- internal/profiles/profiles.go: the registry of upstream ClientHellos and their adjustment to the
-- protocols that the client offers. The uTLS library is a parameter: the extensions of an identifier
-- (`UTLSIdToSpec`) and whether a preset is accepted (`ApplyPreset`).
pub mod Laws
use utlsproxy.Common.{
  ℕ, Bool, true, false, ◌&&◌, ◌||◌, not, List, [], ◌∷◌, ◌++◌, String, if◌then◌else◌, ◌==◌,
  string_eq, list_eq, contains, length, ltb, nat_eq,
}
use utlsproxy.Common.Outcome.{Result, ok, err, ◌>>=◌, ◌>>◌}

pub record Profile : Type 0 where
  pub name : String
  pub id : String
  pub alpn : List String
  pub notes : String

abbrev pub chrome_notes : String
chrome_notes =
    "TLS 1.3, ML-KEM, shuffled extensions and GREASE; nonempty upstream ALPS settings are rejected (use firefox-120); HTTP behavior remains the original client's"

abbrev pub firefox_notes : String
firefox_notes = "Versioned Firefox ClientHello; HTTP behavior remains the original client's"

-- `List`
abbrev pub profile_list : List Profile
profile_list =
    record {
      name = "chrome-133";
      id = "HelloChrome_133";
      alpn = "h2" ∷ "http/1.1" ∷ [];
      notes = chrome_notes;
    }
    ∷ record {
      name = "firefox-120";
      id = "HelloFirefox_120";
      alpn = "h2" ∷ "http/1.1" ∷ [];
      notes = firefox_notes;
    }
    ∷ []

pub data ProfileError : Type 0 where
  unsupported_profile no_common_protocol : ProfileError
  -- an error of the uTLS library
  utls_error : ProfileError

find_profile : String → List Profile → Result ProfileError Profile
find_profile name [] = err unsupported_profile
find_profile name (p ∷ ps) = if p.name == name then ok p else find_profile name ps

unfoldable pub get : String → Result ProfileError Profile
unfolding find_profile
get name = find_profile name profile_list

-- The extensions that `New` looks into; the others are carried along by a number.
pub data Extension : Type 0 where
  alpn : List String → Extension
  application_settings : List String → Extension
  application_settings_new : List String → Extension
  other : ℕ → Extension

unfoldable pub intersection : List String → List String → List String
intersection [] b = []
intersection (v ∷ a) b = let rest = intersection a b in if contains b v then v ∷ rest else rest

pub data Modification : Type 0 where
  alpn_restricted alps_removed : Modification

-- The variables of the first loop over `spec.Extensions`.
pub record Restriction : Type 0 where
  pub allowed : List String
  pub modifications : List Modification

-- `slices.Contains(offered, p)` for each protocol of one extension, onto `allowed`
unfoldable pub allow : List String → List String → List String → List String
allow offered [] allowed = allowed
allow offered (p ∷ ps) allowed =
    allow offered ps (if contains offered p then allowed ++ p ∷ [] else allowed)

unfoldable pub restrict_alpn : List String → List String → Restriction → Restriction
unfolding allow
restrict_alpn offered protocols r =
    let allowed = allow offered protocols r.allowed in
    record {
      allowed = allowed;
      modifications =
          if not (allowed == protocols)
          then r.modifications ++ alpn_restricted ∷ []
          else r.modifications;
    }

unfoldable pub restrict : List String → List Extension → Restriction → List Extension × Restriction
restrict offered [] r = ([], r)
restrict offered (alpn ps ∷ es) r =
    let r' = restrict_alpn offered ps r in
    let (es', r'') = restrict offered es r' in (alpn r'.allowed ∷ es', r'')
restrict offered (e ∷ es) r = let (es', r') = restrict offered es r in (e ∷ es', r')

-- what the second loop does with one ALPS extension
unfoldable pub filter_alps :
    (List String → Extension)
    → List String
    → List Extension × List Modification
    → List Extension × List Modification
filter_alps make supported (es, mods) =
    if supported == [] then (es, alps_removed ∷ mods) else (make supported ∷ es, mods)

-- The second loop: the extensions that stay, and the modifications that it adds.
unfoldable pub filter_extensions : List String → List Extension → List Extension × List Modification
unfolding intersection filter_alps
filter_extensions allowed [] = ([], [])
filter_extensions allowed (alpn ps ∷ es) =
    let (es', mods) = filter_extensions allowed es in
    if allowed == [] then (es', mods) else (alpn ps ∷ es', mods)
filter_extensions allowed (application_settings ps ∷ es) =
    filter_alps application_settings (intersection ps allowed) (filter_extensions allowed es)
filter_extensions allowed (application_settings_new ps ∷ es) =
    filter_alps application_settings_new (intersection ps allowed) (filter_extensions allowed es)
filter_extensions allowed (other n ∷ es) =
    let (es', mods) = filter_extensions allowed es in (other n ∷ es', mods)

abbrev unrestricted : Restriction
unrestricted = record { allowed = []; modifications = [] }

unfoldable pub no_overlap : List String → List String → Bool
no_overlap offered allowed = ltb 0 (length offered) && length allowed == 0

-- `mode == "compatible"`: the extensions to offer, and the modifications
unfoldable pub adjust :
    List String → List Extension → Result ProfileError (List Extension × List Modification)
adjust offered extensions =
    let (es, r) = restrict offered extensions unrestricted in
    if no_overlap offered r.allowed
    then err no_common_protocol
    else (let (es', mods) = filter_extensions r.allowed es in ok (es', r.modifications ++ mods))

-- The client that `New` returns: its server name and the extensions of its ClientHello.
pub record UConn : Type 0 where
  pub server_name : String
  pub extensions : List Extension

module _ (utls_id_to_spec : String → Result ProfileError (List Extension))
    (apply_preset : List Extension → Bool) where
  unfoldable pub new :
      String → String → String → List String → Result ProfileError (UConn × List Modification)
  unfolding get
  new name host mode offered = do
    p ← get name
    extensions ←
        utls_id_to_spec (if name == "firefox-120" then "HelloFirefox_120" else "HelloChrome_133")
    (es, mods) ← (if mode == "compatible" then adjust offered extensions else ok (extensions, []))
    if apply_preset es
        then ok (record { server_name = host; extensions = es }, mods)
        else err utls_error

-- `Compatible`
unfoldable pub compatible : String → List String → Bool
compatible negotiated offered =
    if negotiated == ""
    then length offered == 0 || contains offered "http/1.1"
    else contains offered negotiated && (negotiated == "h2" || negotiated == "http/1.1")
