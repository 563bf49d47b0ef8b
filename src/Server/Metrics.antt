-- ===== src/Server/Metrics.antt =====
-- The callback of the interceptor in `Run` (pkg/server/server.go): what is measured of a request. The
-- clock and the meters are parameters.
use db2rest_bridge.Base.{
  ℕ, suc, ◌-◌, String, List, [], ◌∷◌, Option, none, some, split_on, show_nat, leb, if◌then◌else◌,
}
use db2rest_bridge.Base.Int.{ℤ, pos, negsuc}
use db2rest_bridge.Base.Search.{trim_prefix}
use db2rest_bridge.Crud.Driver.{Db, pure, ◌>>=◌, ◌>>◌}

-- `middlewares.InterceptedResponse`, with what is read of its request
pub record InterceptedResponse : Type 0 where
  pub method : String
  pub path : String
  pub content_length : ℤ
  pub status : ℕ
  pub written : ℕ

-- `time.Now` in nanoseconds, and the three meters with their labels
pub record Meters (S : Type 0) : Type 0 where
  pub now : Db S ℕ
  pub observe_duration : List String → ℤ → Db S (Unit {0})
  pub add_request_bytes : List String → ℤ → Db S (Unit {0})
  pub add_response_bytes : List String → ℕ → Db S (Unit {0})

-- `t.Sub(u)`
abbrev pub time_sub : ℕ → ℕ → ℤ
time_sub t u = if leb u t then pos (t - u) else negsuc (u - t - 1)

abbrev first_two : List String → Option (String × String)
first_two (a ∷ b ∷ rest) = some (a, b)
first_two _ = none

-- The first two parts of the path below the prefix. That the path is cut into three parts at most
-- changes neither of them.
unfoldable pub path_labels : String → String → Option (String × String)
unfolding split_on trim_prefix
path_labels api_prefix path =
    first_two (split_on b'/' (trim_prefix (trim_prefix path api_prefix) "/"))

abbrev pub if_positive : {S : Type 0} → ℤ → Db S (Unit {0}) → Db S (Unit {0})
if_positive (pos (suc n)) m = m
if_positive _ m = pure tt

module _ {S : Type 0} (meters : Meters S) (api_prefix : String) where
  abbrev pub labels_of : String → String → InterceptedResponse → List String
  labels_of be ent resp = be ∷ ent ∷ resp.method ∷ show_nat resp.status ∷ []

  abbrev pub measured : InterceptedResponse → ℕ → String → String → Db S (Unit {0})
  measured resp start be ent =
      let labels = labels_of be ent resp in
      meters.now >>= λ now.
      meters.observe_duration labels (time_sub start now)
      >> (if_positive resp.content_length (meters.add_request_bytes labels resp.content_length)
          >> meters.add_response_bytes labels resp.written)

  unfoldable pub intercepted : InterceptedResponse → Db S (Unit {0})
  unfolding path_labels show_nat
  intercepted resp = meters.now >>= λ start. elim (path_labels api_prefix resp.path) [
    | some (be, ent) ↦ measured resp start be ent
    | none ↦ pure tt
  ]
