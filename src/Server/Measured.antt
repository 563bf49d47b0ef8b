-- ===== src/Server/Measured.antt =====
-- What the interceptor measures of a request (pkg/server/server.go).
use db2rest_bridge.Base.{
  ℕ, ◌≤◌, ◌<>◌, String, List, ◌∷◌, Option, none, some, ok, ◌≡◌, refl, ap, ◌∙◌, All, Lacks, join,
  arith, ==_iff,
}
use text.Mathlib.TextLemmas.{cons-append, nil-append}
use Prim.Native.Char.{code}
use db2rest_bridge.Base.Int.{ℤ, pos, negsuc}
use db2rest_bridge.Base.Search.{cut_prefix, trim_prefix}
use db2rest_bridge.Base.Split.{split_on-join}
use db2rest_bridge.Types.Errors.{Go}
use db2rest_bridge.Crud.Driver.{pure, go_on, ◌>>◌}
use db2rest_bridge.Server.Metrics.{
  InterceptedResponse, Meters, time_sub, path_labels, if_positive, labels_of, measured, intercepted,
}

cut_prefix-append : (p s : String) → cut_prefix (p <> s) p ≡ some s
unfolding cut_prefix
cut_prefix-append String.[] s = rw nil-append refl
cut_prefix-append (String.◌∷◌ c p) s =
    rw cons-append (rw ((==_iff (code c) (code c)).1 refl, cut_prefix) (cut_prefix-append p s))

trim_prefix-append : (p s : String) → trim_prefix (p <> s) p ≡ s
unfolding trim_prefix
trim_prefix-append p s = rw (cut_prefix-append p s, trim_prefix) refl

-- Below the prefix, the first two segments are the labels.
path_labels-below :
    (api_prefix be ent : String) (rest : List String)
    → All (Lacks b'/') (be ∷ ent ∷ rest)
    → path_labels api_prefix (api_prefix <> "/" <> join "/" (be ∷ ent ∷ rest)) ≡ some (be, ent)
unfolding path_labels
path_labels-below api_prefix be ent rest h =
    rw (trim_prefix-append api_prefix ("/" <> join "/" (be ∷ ent ∷ rest))) (
      rw (trim_prefix-append "/" (join "/" (be ∷ ent ∷ rest)))
        (rw (split_on-join be (ent ∷ rest) h) refl))

abbrev pub IsNotPositive : ℤ → Type 0
IsNotPositive (pos n) = n ≡ 0
IsNotPositive (negsuc n) = Unit

time_sub-IsNotPositive : (t u : ℕ) → t ≤ u → IsNotPositive (time_sub t u)
time_sub-IsNotPositive t u h = ground arith

module _ {S : Type 0} (meters : Meters S) (api_prefix : String) where
  -- For a request whose path is the API prefix followed by at least two segments that lack
  -- slashes, with a clock that does not go back between its two readings, the interceptor observes
  -- under the first two segments, the method and the status a duration that is not positive, and
  -- then adds the length of the request, if it is positive, and that of the response.
  pub intercepted-below :
      (resp : InterceptedResponse) (be ent : String) (rest : List String) (start now : ℕ)
      (s s' s'' : S)
      → resp.path ≡ api_prefix <> "/" <> join "/" (be ∷ ent ∷ rest)
      → All (Lacks b'/') (be ∷ ent ∷ rest)
      → meters.now s ≡ (ok start, s')
      → meters.now s' ≡ (ok now, s'')
      → start ≤ now
      → (d : ℤ) × IsNotPositive d
        × (intercepted meters api_prefix resp s
            ≡ (meters.observe_duration (labels_of meters api_prefix be ent resp) d
                  >> (if_positive resp.content_length (
                        meters.add_request_bytes
                          (labels_of meters api_prefix be ent resp)
                          resp.content_length)
                      >> meters.add_response_bytes
                          (labels_of meters api_prefix be ent resp)
                          resp.written))
                s'')
  unfolding intercepted
  intercepted-below resp be ent rest start now s s' s'' at clear first second later =
      let recorded : ℕ → S → Go (Unit {0}) × S = λ t.
        meters.observe_duration (labels_of meters api_prefix be ent resp) (time_sub start t)
        >> (if_positive resp.content_length (
              meters.add_request_bytes (labels_of meters api_prefix be ent resp)
                resp.content_length)
            >> meters.add_response_bytes (labels_of meters api_prefix be ent resp) resp.written) in
      let of_labels : ℕ → Option (String × String) → S → Go (Unit {0}) × S =
        λ t o. elim o [ some (b, e) ↦ measured meters api_prefix resp t b e | none ↦ pure tt ] in
      (
        time_sub start now,
        time_sub-IsNotPositive start now later,
        ap (λ r. go_on r.0 (λ t. of_labels t (path_labels api_prefix resp.path)) r.1) first
            ∙ ap (λ o. of_labels start o s')
                (ap (path_labels api_prefix) at ∙ path_labels-below api_prefix be ent rest clear)
            ∙ ap (λ r. go_on r.0 recorded r.1) second,
      )
