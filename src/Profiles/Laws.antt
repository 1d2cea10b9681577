-- ===== src/Profiles/Laws.antt =====
-- What a ClientHello offers after the adjustment to the client's protocols.
use utlsproxy.Common.{
  subst, Bool, true, false, List, [], ◌∷◌, ◌++◌, String, if◌then◌else◌, ◌==◌, string_eq, list_eq,
  list_beq_iff, contains, nat_eq, ◌≡◌, ◌≢◌, ◌⊎◌, inl, inr, ◌↔◌, refl, sym, ◌∙◌, ap, arith, filter,
  All, All-append, Bool-cases, append_assoc, append-nil, eq_iff,
}
use utlsproxy.Common.Outcome.{Result, ok, err, bind-eq-ok}
use utlsproxy.Profiles.{
  Extension, alpn, application_settings, application_settings_new, other, Restriction, Modification,
  allow, restrict_alpn, restrict, intersection, filter_alps, filter_extensions, unrestricted,
  adjust, no_common_protocol, ProfileError, utls_error, Profile, UConn, new, get, no_overlap,
}

abbrev Offered : List String → String → Type 0
Offered offered p = contains offered p ≡ true

-- Every protocol that an extension names is one of a list; an ALPS extension names at least one.
abbrev pub Within : List String → Extension → Type 0
Within offered (alpn ps) = All (Offered offered) ps
Within offered (application_settings ps) = (ps ≢ []) × All (Offered offered) ps
Within offered (application_settings_new ps) = (ps ≢ []) × All (Offered offered) ps
Within offered (other n) = Unit

-- the same for the ALPN extensions alone
abbrev WithinAlpn : List String → Extension → Type 0
WithinAlpn offered (alpn ps) = All (Offered offered) ps
WithinAlpn offered _ = Unit

module _ (offered : List String) where
  allow-Offered :
      (ps allowed : List String)
      → All (Offered offered) allowed
      → All (Offered offered) (allow offered ps allowed)
  unfolding allow
  allow-Offered [] allowed h = h
  allow-Offered (p ∷ ps) allowed h = elim (Bool-cases (contains offered p)) [
    | inl y ↦ rw y (allow-Offered ps _ (All-append _ allowed (p ∷ []) h (y, tt)))
    | inr n ↦ rw n (allow-Offered ps allowed h)
  ]

  restrict-WithinAlpn :
      (es : List Extension) (r : Restriction)
      → All (Offered offered) r.allowed
      → All (WithinAlpn offered) (restrict offered es r).0
        × All (Offered offered) (restrict offered es r).1.allowed
  unfolding restrict restrict_alpn
  restrict-WithinAlpn [] r h = (tt, h)
  restrict-WithinAlpn (alpn ps ∷ es) r h =
      let a = allow-Offered ps r.allowed h in
      let (t, u) = restrict-WithinAlpn es (restrict_alpn offered ps r) a in ((a, t), u)
  restrict-WithinAlpn (e ∷ es) r h = let (t, u) = restrict-WithinAlpn es r h in ((tt, t), u)

  contains-Offered :
      (allowed : List String) (v : String)
      → All (Offered offered) allowed
      → contains allowed v ≡ true
      → contains offered v ≡ true
  unfolding contains
  contains-Offered [] v h c = cc
  contains-Offered (x ∷ xs) v h c = elim (Bool-cases (x == v)) [
    | inl e ↦ rw (← (eq_iff x v).0 e) h.0
    | inr n ↦ contains-Offered xs v h.1 (rw n at c)
  ]

  intersection-Offered :
      (ps allowed : List String)
      → All (Offered offered) allowed
      → All (Offered offered) (intersection ps allowed)
  unfolding intersection
  intersection-Offered [] allowed h = tt
  intersection-Offered (p ∷ ps) allowed h = elim (Bool-cases (contains allowed p)) [
    | inl y ↦ rw y (contains-Offered allowed p h y, intersection-Offered ps allowed h)
    | inr n ↦ rw n (intersection-Offered ps allowed h)
  ]

  filter_extensions-Within :
      (allowed : List String) (es : List Extension)
      → All (Offered offered) allowed
      → All (WithinAlpn offered) es
      → All (Within offered) (filter_extensions allowed es).0
  unfolding filter_extensions filter_alps
  filter_extensions-Within allowed [] h k = tt
  filter_extensions-Within allowed (alpn ps ∷ es) h (p, k) =
      let rest = filter_extensions-Within allowed es h k in
      elim (Bool-cases (allowed == [])) [ inl y ↦ rw y rest | inr n ↦ rw n (p, rest) ]
  filter_extensions-Within allowed (application_settings ps ∷ es) h (p, k) =
      let rest = filter_extensions-Within allowed es h k in
      elim (Bool-cases (intersection ps allowed == [])) [
        | inl y ↦ rw y rest
        | inr n ↦ rw n (
          (
            (λ e. cc (n, (list_beq_iff (intersection ps allowed) []).1 e)),
            intersection-Offered ps allowed h,
          ),
          rest,
        )
      ]
  filter_extensions-Within allowed (application_settings_new ps ∷ es) h (p, k) =
      let rest = filter_extensions-Within allowed es h k in
      elim (Bool-cases (intersection ps allowed == [])) [
        | inl y ↦ rw y rest
        | inr n ↦ rw n (
          (
            (λ e. cc (n, (list_beq_iff (intersection ps allowed) []).1 e)),
            intersection-Offered ps allowed h,
          ),
          rest,
        )
      ]
  filter_extensions-Within allowed (other n ∷ es) h (p, k) =
      (tt, filter_extensions-Within allowed es h k)

-- The protocols of the ALPN extensions, in order.
abbrev pub alpn_protocols : List Extension → List String
alpn_protocols [] = []
alpn_protocols (alpn ps ∷ es) = ps ++ alpn_protocols es
alpn_protocols (_ ∷ es) = alpn_protocols es

module _ (offered : List String) where
  filter-append :
      (ps qs : List String)
      → filter (contains offered) (ps ++ qs)
        ≡ filter (contains offered) ps ++ filter (contains offered) qs
  unfolding filter
  filter-append [] qs = refl
  filter-append (p ∷ ps) qs = ground (arith, filter-append ps qs)

  allow-filter :
      (ps allowed : List String)
      → allow offered ps allowed ≡ allowed ++ filter (contains offered) ps
  unfolding allow filter
  allow-filter [] allowed = sym (append-nil allowed)
  allow-filter (p ∷ ps) allowed = elim (Bool-cases (contains offered p)) [
    | inl y ↦ rw y (allow-filter ps _ ∙ append_assoc allowed (p ∷ []) _)
    | inr n ↦ rw n (allow-filter ps allowed)
  ]

  restrict-allowed :
      (es : List Extension) (r : Restriction)
      → (restrict offered es r).1.allowed
        ≡ r.allowed ++ filter (contains offered) (alpn_protocols es)
  unfolding restrict restrict_alpn filter
  restrict-allowed [] r = sym (append-nil r.allowed)
  restrict-allowed (alpn ps ∷ es) r =
      restrict-allowed es (restrict_alpn offered ps r)
      ∙ rw (allow-filter, filter-append) (append_assoc r.allowed _ _)
  restrict-allowed (application_settings ps ∷ es) r = restrict-allowed es r
  restrict-allowed (application_settings_new ps ∷ es) r = restrict-allowed es r
  restrict-allowed (other n ∷ es) r = restrict-allowed es r

adjust_at :
    (offered : List String) (es es' : List Extension) (mods : List Modification)
    → no_overlap offered (restrict offered es unrestricted).1.allowed ≡ false
    → adjust offered es ≡ ok (es', mods)
    → (filter_extensions
        (restrict offered es unrestricted).1.allowed
        (restrict offered es unrestricted).0).0
      ≡ es'
unfolding adjust
adjust_at offered es es' mods n h = ground arith

-- In compatible mode a ClientHello names protocols of the client only: in ALPN, and in ALPS, whose
-- extensions are dropped when they name none.
pub adjust-Within :
    (offered : List String) (es es' : List Extension) (mods : List Modification)
    → adjust offered es ≡ ok (es', mods)
    → All (Within offered) es'
unfolding adjust
adjust-Within offered es es' mods h =
    elim (Bool-cases (no_overlap offered (restrict offered es unrestricted).1.allowed)) [
      | inl y ↦ cc (rw y at h)
      | inr n ↦
          let (a, b) = restrict-WithinAlpn offered es unrestricted tt in
          let w = filter_extensions-Within offered _ (restrict offered es unrestricted).0 b a in
          subst (λ x. All (Within offered) x) (adjust_at offered es es' mods n h) w
    ]

no_overlap_iff :
    (offered allowed : List String)
    → (no_overlap offered allowed ≡ true) ↔ ((offered ≢ []) × (allowed ≡ []))
unfolding no_overlap
no_overlap_iff [] [] = ground arith
no_overlap_iff [] (y ∷ ys) = ground arith
no_overlap_iff (x ∷ xs) [] = ground arith
no_overlap_iff (x ∷ xs) (y ∷ ys) = ground arith

adjust-no_overlap :
    (offered : List String) (es : List Extension)
    → (adjust offered es ≡ err no_common_protocol)
      ↔ (no_overlap offered (restrict offered es unrestricted).1.allowed ≡ true)
unfolding adjust
adjust-no_overlap offered es = ground arith

-- The adjustment is refused exactly when the client offers protocols and the ALPN extensions name
-- none of them.
pub adjust_refused_iff :
    (offered : List String) (es : List Extension)
    → (adjust offered es ≡ err no_common_protocol)
      ↔ ((offered ≢ []) × (filter (contains offered) (alpn_protocols es) ≡ []))
adjust_refused_iff offered es =
    let e = restrict-allowed offered es unrestricted in
    let (f, g) = no_overlap_iff offered (restrict offered es unrestricted).1.allowed in
    let (j, k) = adjust-no_overlap offered es in
    (λ h. (let (a, b) = f (j h) in (a, sym e ∙ b)), λ (a, b). k (g (a, e ∙ b)))

get_known :
    (name : String) (p : Profile) → get name ≡ ok p → (name ≡ "chrome-133") ⊎ (name ≡ "firefox-120")
unfolding get
get_known name p h = ground (arith, eq_iff "chrome-133" name, eq_iff "firefox-120" name)

new_parts :
    (accepts : List Extension → Bool) (es : List Extension) (host : String) (m : List Modification)
    (u : UConn) (mods : List Modification)
    → ◌≡◌ {A = Result ProfileError (UConn × List Modification)}
        (if◌then◌else◌ {A = Result ProfileError (UConn × List Modification)}
          (accepts es)
          (ok (record { server_name = host; extensions = es }, m))
          (err utls_error))
        (ok (u, mods))
    → (es ≡ u.extensions) × (u.server_name ≡ host) × (accepts es ≡ true) × (m ≡ mods)
new_parts accepts es host m u mods h = ground arith

passed_on :
    (mode : String)
    → mode ≢ "compatible"
    → (adjusted : Result ProfileError (List Extension × List Modification))
    → (ext es : List Extension) (m : List Modification)
    → ◌≡◌ {A = Result ProfileError (List Extension × List Modification)}
        (if◌then◌else◌ {A = Result ProfileError (List Extension × List Modification)}
          (mode == "compatible")
          adjusted
          (ok (ext, [])))
        (ok (es, m))
    → (ext ≡ es) × ([] ≡ m)
passed_on mode n adjusted ext es m h = ground (arith, eq_iff mode "compatible")

-- `New` refuses a name that the registry lacks. Otherwise the client asks for the given host, and in
-- compatible mode it names protocols of the client only; in any other mode the extensions are those
-- of the library, unmodified.
pub new-ok :
    (spec : String → Result ProfileError (List Extension)) (accepts : List Extension → Bool)
    (name host mode : String) (offered : List String) (u : UConn) (mods : List Modification)
    → new spec accepts name host mode offered ≡ ok (u, mods)
    → ((name ≡ "chrome-133") ⊎ (name ≡ "firefox-120"))
      × (u.server_name ≡ host)
      × (accepts u.extensions ≡ true)
      × (mode ≡ "compatible" → All (Within offered) u.extensions)
      × (mode ≢ "compatible"
          → (mods ≡ [])
            × (spec (if name == "firefox-120" then "HelloFirefox_120" else "HelloChrome_133")
                ≡ ok u.extensions))
unfolding new
new-ok spec accepts name host mode offered u mods h =
    let (p, hp, h1) = bind-eq-ok (get name) _ h in
    let (ext, hs, h2) = bind-eq-ok (spec _) _ h1 in
    let ((es, m), ha, h3) =
      bind-eq-ok (if mode == "compatible" then adjust offered ext else ok (ext, [])) _ h2 in
    let (same, named, accepted, m') = new_parts accepts es host m u mods h3 in
    (
      get_known name p hp,
      named,
      rw (← same) accepted,
      λ c.
          rw (← same)
            (adjust-Within offered ext es m ((rw ((eq_iff mode "compatible").1 c) at ha))),
      λ n.
          let (ext_es, none_added) = passed_on mode n (adjust offered ext) ext es m ha in
          (sym m' ∙ sym none_added, hs ∙ ap ok (ext_es ∙ same)),
    )
