-- ===== src/Api/Table.antt =====
-- The table of routes of pkg/api/gen.go, by segments.
use db2rest_bridge.Base.{
  String, Bool, true, false, List, [], ◌∷◌, ◌++◌, Option, none, some, ◌<>◌, ◌≡◌, refl, ap, ◌∙◌,
  str_eq, split_on, join, Lacks, All,
}
use text.Mathlib.TextEquality.{eq_iff}
use db2rest_bridge.Base.Split.{split_on-at, split_on-join}
use db2rest_bridge.Base.Dict.{Dict}
use db2rest_bridge.Base.Search.{cut_prefix}
use db2rest_bridge.Api.Routes.{Route, routed}
use db2rest_bridge.Api.Mux.{
  match_cut, match_segments, match_template, chosen, first_match, has_method,
}

-- No segment of the path is a variable.
abbrev pub IsPlain : String → Type 0
IsPlain base = All (λ s. cut_prefix s "{" ≡ none) (split_on b'/' base)

same_text : (s : String) → str_eq s s ≡ true
same_text s = (eq_iff s s).1 refl

match_cut-same : (b : String) (rest : Option (Dict String)) → match_cut none b b rest ≡ rest
match_cut-same b none = refl
match_cut-same b (some vars) = rw (same_text b) refl

match_segments-append :
    (bs ts ps : List String)
    → All (λ s. cut_prefix s "{" ≡ none) bs
    → match_segments (bs ++ ts) (bs ++ ps) ≡ match_segments ts ps
match_segments-append [] ts ps h = refl
match_segments-append (b ∷ bs) ts ps h =
    ap (λ cut. match_cut cut b b (match_segments (bs ++ ts) (bs ++ ps))) h.0
    ∙ match_cut-same b (match_segments (bs ++ ts) (bs ++ ps))
    ∙ match_segments-append bs ts ps h.1

-- Below the base, a template and a path match by their segments.
match_template-below :
    (base t p : String) (ts ps : List String)
    → IsPlain base
    → All (Lacks b'/') (t ∷ ts)
    → All (Lacks b'/') (p ∷ ps)
    → match_template (base <> "/" <> join "/" (t ∷ ts)) (base <> "/" <> join "/" (p ∷ ps))
      ≡ match_segments (t ∷ ts) (p ∷ ps)
unfolding match_template
match_template-below base t p ts ps plain ht hp = rw (split_on-at base (join "/" (t ∷ ts))) (
    rw (split_on-at base (join "/" (p ∷ ps))) (
      rw (split_on-join t ts ht) (
        rw (split_on-join p ps hp)
          (match_segments-append (split_on b'/' base) (t ∷ ts) (p ∷ ps) plain))))

-- A route by the segments of its template
pub record Entry (H : Type 0) : Type 0 where
  pub first : String
  pub more : List String
  pub method : String
  pub handler : H

abbrev pub routes_below : {H : Type 0} → String → List (Entry H) → List (Route H)
routes_below base [] = []
routes_below base (e ∷ es) =
    routed (base <> "/" <> join "/" (e.first ∷ e.more)) e.method e.handler ∷ routes_below base es

abbrev pub pick : {H : Type 0} → List (Entry H) → String → List String → Option (H × Dict String)
pick [] m ps = none
pick (e ∷ es) m ps =
    chosen (str_eq e.method m) e.handler (match_segments (e.first ∷ e.more) ps) (pick es m ps)

abbrev pub HasSegments : {H : Type 0} → Entry H → Type 0
HasSegments e = All (Lacks b'/') (e.first ∷ e.more)

-- Among routes below a base, the router looks at the segments.
pub first_match-below :
    {H : Type 0} (base m p : String) (ps : List String) (es : List (Entry H))
    → IsPlain base
    → All (Lacks b'/') (p ∷ ps)
    → All HasSegments es
    → first_match (routes_below base es) m (base <> "/" <> join "/" (p ∷ ps)) ≡ pick es m (p ∷ ps)
unfolding first_match
first_match-below base m p ps [] plain hp hs = refl
first_match-below base m p ps (e ∷ es) plain hp hs =
    ap
      (λ o.
        chosen (str_eq e.method m) e.handler o
          (first_match (routes_below base es) m (base <> "/" <> join "/" (p ∷ ps))))
      (match_template-below base e.first p e.more ps plain hs.0 hp)
    ∙ ap (chosen (str_eq e.method m) e.handler (match_segments (e.first ∷ e.more) (p ∷ ps)))
        (first_match-below base m p ps es plain hp hs.1)

chosen-none :
    {H : Type 0} (b : Bool) (h : H) (o : Option (Dict String))
    (rest other : Option (H × Dict String))
    → chosen b h o rest ≡ none
    → (rest ≡ none) × (chosen b h o other ≡ other)
chosen-none true h none rest other e = (e, refl)
chosen-none true h (some vars) rest other e = absurd (cc)
chosen-none false h o rest other e = (e, refl)

-- Routes that do not match are passed over.
pub first_match-append :
    {H : Type 0} (m path : String) (rs others : List (Route H))
    → first_match rs m path ≡ none
    → first_match (rs ++ others) m path ≡ first_match others m path
unfolding first_match
first_match-append m path [] others h = refl
first_match-append m path (r ∷ rs) others h =
    let (tail, passed) =
      chosen-none (has_method r.methods m) r.handler (match_template r.template path)
        (first_match rs m path) (first_match (rs ++ others) m path) h in
    passed ∙ first_match-append m path rs others tail
