-- ===== src/Tests/Profiles.antt =====
-- The profiles of internal/profiles: a client that speaks HTTP/1.1 only.
use utlsproxy.Common.{string_eq}
use utlsproxy.Common.{
  Bool, true, List, [], ◌∷◌, String, ◌≡◌, ◌≢◌, ◌⊎◌, ◌↔◌, refl, All, contains, filter, list_beq,
}
use utlsproxy.Common.Outcome.{Result, ok, err}
use utlsproxy.Profiles.{
  Extension, alpn, application_settings, other, Modification, alpn_restricted, alps_removed,
  ProfileError, UConn, new, get, adjust, no_common_protocol, restrict, restrict_alpn,
  filter_extensions, no_overlap,
}
use utlsproxy.Profiles.Laws.{Within, new-ok, adjust_refused_iff, alpn_protocols}

abbrev hello : List Extension
hello = other 0 ∷ alpn ("h2" ∷ "http/1.1" ∷ []) ∷ application_settings ("h2" ∷ []) ∷ []

abbrev spec : String → Result ProfileError (List Extension)
spec id = ok hello

abbrev accepts : List Extension → Bool
accepts es = true

abbrev plain : UConn
plain = record { server_name = "tls.peet.ws"; extensions = other 0 ∷ alpn ("http/1.1" ∷ []) ∷ [] }

plain_client :
    new spec accepts "chrome-133" "tls.peet.ws" "compatible" ("http/1.1" ∷ [])
    ≡ ok (plain, alpn_restricted ∷ alps_removed ∷ [])
unfolding new get adjust restrict filter_extensions no_overlap contains list_beq restrict_alpn
plain_client = refl

abbrev mods : List Modification
mods = alpn_restricted ∷ alps_removed ∷ []

new-ok_example :
    ((◌≡◌ {A = String} "chrome-133" "chrome-133") ⊎ (◌≡◌ {A = String} "chrome-133" "firefox-120"))
    × (plain.server_name ≡ "tls.peet.ws")
    × (accepts plain.extensions ≡ true)
    × (◌≡◌ {A = String} "compatible" "compatible" → All (Within ("http/1.1" ∷ [])) plain.extensions)
    × (◌≢◌ {A = String} "compatible" "compatible"
        → (mods ≡ []) × (spec "HelloChrome_133" ≡ ok plain.extensions))
new-ok_example =
    new-ok spec accepts "chrome-133" "tls.peet.ws" "compatible" ("http/1.1" ∷ []) plain mods
      plain_client

adjust_refused_iff_example : (adjust ("spdy/3" ∷ []) hello ≡ err no_common_protocol) ↔ (
    (◌≢◌ {A = List String} ("spdy/3" ∷ []) [])
    × (filter (contains ("spdy/3" ∷ [])) (alpn_protocols hello) ≡ []))
adjust_refused_iff_example = adjust_refused_iff ("spdy/3" ∷ []) hello
