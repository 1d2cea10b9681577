-- ===== src/Dns/Select.antt =====
-- internal/dns/discovery.go: `Select`, the choice of resolver groups for a name.
pub mod Laws
pub mod Matching
use utlsproxy.Common.{
  ℕ, ◌+◌, Bool, true, false, ◌&&◌, ◌||◌, not, List, [], ◌∷◌, ◌++◌, if◌then◌else◌, ◌==◌, list_eq,
  nat_eq, length,
}
use utlsproxy.Common.Int.{ℤ, pos, negsuc, ltb_ℤ, max_ℤ, max_int, int_eq}
use utlsproxy.Common.Text.{Bytes, has_suffix, trim_prefix, trim_suffix, to_lower, split}
use utlsproxy.Dns.Group.{Group}

-- the three statements that normalise `domain`
unfoldable pub routing_domain : Bytes → Bytes
unfolding trim_prefix trim_suffix to_lower
routing_domain domain = trim_suffix (trim_prefix (to_lower domain) (b'~' ∷ [])) (b'.' ∷ [])

-- `name == domain || strings.HasSuffix(name, "."+domain)`
unfoldable pub matches : Bytes → Bytes → Bool
matches name domain = name == domain || has_suffix name (b'.' ∷ domain)

-- the body of the loop over `g.Domains`
unfoldable pub score_domain : Bytes → ℤ → Bytes → ℤ
unfolding routing_domain matches split
score_domain name score domain =
    let d = routing_domain domain in
    if d == []
    then max_ℤ score (pos 0)
    else if matches name d
    then max_ℤ score (pos (length (split d b'.')))
    else score

score_from : Bytes → ℤ → List Bytes → ℤ
score_from name score [] = score
score_from name score (d ∷ ds) = score_from name (score_domain name score d) ds

unfoldable pub score_of : Bytes → Group → ℤ
unfolding score_from
score_of name g = score_from name (negsuc 0) g.domains

-- The variables that the loops of `Select` change.
pub record Choice : Type 0 where
  pub best : ℤ
  pub priority : ℤ
  pub matched : List Group

-- the first loop's body, from the score of its group on
unfoldable pub route : ℤ → Group → Choice → Choice
route score g c =
    if ltb_ℤ score (pos 0)
    then c
    else (let c' =
          if ltb_ℤ c.best score || (score == c.best && ltb_ℤ g.priority c.priority)
          then record c { best = score; priority = g.priority; matched = [] }
          else c in
        if score == c'.best && g.priority == c'.priority
        then record c' { matched = c'.matched ++ g ∷ [] }
        else c')

route_all : Bytes → List Group → Choice → Choice
route_all name [] c = c
route_all name (g ∷ gs) c = route_all name gs (route (score_of name g) g c)

-- the second loop's body
unfoldable pub fall_back : Group → Choice → Choice
fall_back g c =
    if g.default
    then (let c' =
          if ltb_ℤ g.priority c.priority
          then record c { priority = g.priority; matched = [] }
          else c in
        if g.priority == c'.priority then record c' { matched = c'.matched ++ g ∷ [] } else c')
    else c

fall_back_all : List Group → Choice → Choice
fall_back_all [] c = c
fall_back_all (g ∷ gs) c = fall_back_all gs (fall_back g c)

abbrev start : Choice
start = record { best = negsuc 0; priority = max_int; matched = [] }

unfoldable pub query_name : Bytes → Bytes
unfolding to_lower trim_suffix
query_name name = trim_suffix (to_lower name) (b'.' ∷ [])

unfoldable pub select : List Group → Bytes → List Group
unfolding route_all fall_back_all query_name
select groups name =
    let c = route_all (query_name name) groups start in
    if ltb_ℤ c.best (pos 0) then (fall_back_all groups c).matched else c.matched
