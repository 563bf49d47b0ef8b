-- ===== src/Client/Setup.antt =====
-- The client over HTTP (pkg/client/impl.go): its fields, its options, and `New`.
use db2rest_bridge.Base.{String, List, [], ◌∷◌, ◌++◌, Option, none, some, ok, ◌>>=◌}
use db2rest_bridge.Base.Dict.{Dict}
use db2rest_bridge.Types.Errors.{Go}
use db2rest_bridge.Api.Calls.{Doer, ClientOption, new_client}
use db2rest_bridge.Api.Calls

-- `generic[T]`. `T` stands for `*T`. The client `c` is nil until `New` sets it. The logger is left out.
pub record Generic (T U V B S : Type 0) : Type 0 where
  pub be : String
  pub ent : String
  pub c : Option (Calls.Client U B S)
  pub dec_fn : Dict V → Go T
  pub enc_fn : T → Go (Dict V)
  pub ro_props : List String
  pub id_prop : String
  pub copts : List (ClientOption U B S)

abbrev Opt : Type 0 → Type 0 → Type 0 → Type 0 → Type 0 → Type 0
Opt T U V B S = Generic T U V B S → Generic T U V B S

module _ {T U V B S : Type 0} where
  unfoldable read_only_properties : List String → Opt T U V B S
  read_only_properties props g = record g { ro_props = props }

  unfoldable skip_properties : List String → Opt T U V B S
  unfolding read_only_properties
  skip_properties props = read_only_properties props

  unfoldable id_property : String → Opt T U V B S
  id_property prop g = record g { id_prop = prop }

  unfoldable with_payload_encoder : (T → Go (Dict V)) → Opt T U V B S
  with_payload_encoder enc_fn g = record g { enc_fn = enc_fn }

  unfoldable with_payload_decoder : (Dict V → Go T) → Opt T U V B S
  with_payload_decoder dec_fn g = record g { dec_fn = dec_fn }

  unfoldable with_client_options : List (ClientOption U B S) → Opt T U V B S
  with_client_options copts g = record g { copts = copts }

  abbrev apply_opts : List (Opt T U V B S) → Opt T U V B S
  apply_opts [] g = g
  apply_opts (opt ∷ opts) g = apply_opts opts (opt g)

  -- `New`, with what the codec of another package does for the defaults. The defaults are the first
  -- options.
  unfoldable pub new :
      (Dict V → Go T)
      → (T → Go (Dict V))
      → Doer U B S
      → String
      → String
      → String
      → List (Opt T U V B S)
      → Go (Generic T U V B S)
  unfolding new_client with_payload_decoder with_payload_encoder read_only_properties id_property
  new default_decoder_fn default_encoder_fn http_client endpoint backend entity opts = do
    let defaults : List (Opt T U V B S) =
        with_payload_decoder default_decoder_fn
        ∷ with_payload_encoder default_encoder_fn
        ∷ read_only_properties []
        ∷ id_property "id"
        ∷ []
    let g = apply_opts (defaults ++ opts) (record {
      be = backend;
      ent = entity;
      c = none;
      dec_fn = default_decoder_fn;
      enc_fn = default_encoder_fn;
      ro_props = [];
      id_prop = "";
      copts = [];
    })
    c ← new_client http_client endpoint g.copts
    ok (record g { c = some c })
