-- ===== src/Server/Permitted.antt =====
-- The requests (pkg/server/ops.go) whose operation the configuration does not allow.
use db2rest_bridge.Base.{
  String, false, [], ◌∷◌, Option, none, some, ◌≡◌, refl, ap, ◌∙◌, map, All, if◌then◌else◌,
  Bool-cases, inl, inr, str_eq, ◌<>◌,
}
use db2rest_bridge.Base.Dict.{Dict, lookup}
use db2rest_bridge.Types.Config.{BackendConfig}
use db2rest_bridge.Query.Value.{Floats}
use db2rest_bridge.Crud.Driver.{Cells, Db, Driver, pure}
use db2rest_bridge.Crud.Quiet.{Reads, Keeps}
use db2rest_bridge.Api.Types.{VersionInfo}
use db2rest_bridge.Api.Wrapper.{Incoming}
use db2rest_bridge.Api.Operation.{
  Operation, backends, version, named, entities, items, creation, bulk, deletion, reading,
  existence, replacement, call_of, named_args, list_args,
}
use db2rest_bridge.Server.Reply.{Reply, http_error}
use db2rest_bridge.Server.Interface.{Interface, impl}
use db2rest_bridge.Server.Handlers.{handle_backend}
use db2rest_bridge.Server.Backends.{Impl}
use db2rest_bridge.Server.Rest.{Decoders, rest_server}
use db2rest_bridge.Server.Run.{server_over}
use db2rest_bridge.Server.Quiet.{
  update_item_by_id-Keeps, create_item-Keeps, delete_item_by_id-Keeps, bulk_update-Keeps,
  page_named-Keeps, page_items-Keeps, names-Keeps, get_item_by_id-Keeps, exists_item_by_id-Keeps,
}

-- The backend does not allow what the operation may write. Of a bulk update this depends on its body.
abbrev Forbids : {F B : Type 0} → Operation F B → BackendConfig → Type 0
Forbids (creation be ent ct b) c = c.create ≡ some false
Forbids (replacement be ent id ct b) c = c.update ≡ some false
Forbids (deletion be ent id) c = c.delete ≡ some false
Forbids (bulk be ent ct b) c =
    (c.create ≡ some false) × (c.update ≡ some false) × (c.delete ≡ some false)
Forbids backends c = Unit
Forbids version c = Unit
Forbids (named be name p) c = Unit
Forbids (entities be) c = Unit
Forbids (items be ent p) c = Unit
Forbids (reading be ent id) c = Unit
Forbids (existence be ent id) c = Unit

module _ {V D S C F : Type 0} ⦃fl : Floats F⦄ (seen : S → C) (cells : Cells V)
    (driver_of : Option D → Driver V S) (reads : (o : Option D) → Reads seen (driver_of o)) where
  abbrev impl_of : Impl D S → Interface V F S
  impl_of i = impl cells (driver_of i.config.db) i.config.config

  abbrev handled :
      String → (Interface V F S → Db S (Reply V)) → Option (Interface V F S) → Db S (Reply V)
  handled backend h o = elim o [
    | some c ↦ h c
    | none ↦ pure (http_error ("no such backend: " <> backend) 400)
  ]

  -- Whichever backend is asked, and if there is none
  handled-Keeps :
      (P : BackendConfig → Type 0) (backend : String) (h : Interface V F S → Db S (Reply V))
      (m : Dict (Impl D S))
      → ((i : Impl D S) → P i.config.config → Keeps seen (h (impl_of i)))
      → All (λ e. P e.1.config.config) m
      → Keeps seen (handled backend h (lookup backend (map (λ e. (e.0, impl_of e.1)) m)))
  unfolding lookup
  handled-Keeps P backend h [] kept all s = refl
  handled-Keeps P backend h ((k, i) ∷ m) kept (p, all) s =
      let rest = lookup backend (map (λ e. (e.0, impl_of e.1)) m) in
      elim (Bool-cases (str_eq k backend)) [
        | inl e ↦
            ap (λ b. seen (handled backend h (if b then some (impl_of i) else rest) s).1) e
            ∙ kept i p s
        | inr e ↦
            ap (λ b. seen (handled backend h (if b then some (impl_of i) else rest) s).1) e
            ∙ handled-Keeps P backend h m kept all s
      ]

  module _ {U B : Type 0} (decoders : Decoders V B) (show : Dict V → String)
      (version_info : VersionInfo) (m : Dict (Impl D S)) where
    -- Let queries, counts and lookups in the cache leave what is seen of the environment as it
    -- was. Then so does every request to a method of the server, whatever its parameters, its body
    -- and the backend it asks, if each backend forbids what the operation may write: creating for
    -- the creation of an item, updating for an update, deleting for a deletion, and all three for
    -- a bulk update. The operations that read need no such condition.
    pub call_of-Keeps :
        (op : Operation F B) (r : Incoming U B) (s : S)
        → All (λ e. Forbids op e.1.config.config) m
        → seen
            (call_of
              (rest_server cells decoders show version_info (server_over cells driver_of m))
              op
              r
              s).1
          ≡ seen s
    unfolding call_of rest_server server_over handle_backend
    call_of-Keeps backends r s all = refl
    call_of-Keeps version r s all = refl
    call_of-Keeps (named be name p) r s all =
        handled-Keeps (Forbids {F = F} {B = B} (named be name p)) be _ m
          (λ i free.
            page_named-Keeps F seen cells (driver_of i.config.db) i.config.config
              (reads i.config.db) name (named_args p).page_offset (named_args p).page_size
              (named_args p).arg)
          all s
    call_of-Keeps (entities be) r s all =
        handled-Keeps (Forbids {F = F} {B = B} (entities be)) be _ m
          (λ i free.
            names-Keeps F seen cells (driver_of i.config.db) i.config.config (reads i.config.db))
          all s
    call_of-Keeps (items be ent p) r s all =
        handled-Keeps (Forbids {F = F} {B = B} (items be ent p)) be _ m
          (λ i free.
            page_items-Keeps F seen cells (driver_of i.config.db) i.config.config
              (reads i.config.db) ent (list_args p))
          all s
    call_of-Keeps (creation be ent ct b) r s all =
        handled-Keeps (Forbids {F = F} {B = B} (creation be ent ct b)) be _ m
          (λ i off.
            create_item-Keeps F seen cells (driver_of i.config.db) i.config.config
              (reads i.config.db) ent (decoders.decode_dto r.body) off)
          all s
    call_of-Keeps (bulk be ent ct b) r s all =
        handled-Keeps (Forbids {F = F} {B = B} (bulk be ent ct b)) be _ m
          (λ i off.
            bulk_update-Keeps F seen cells (driver_of i.config.db) i.config.config
              (reads i.config.db) show _ be ent (decoders.decode_bulk r.body) off.0 off.1 off.2)
          all s
    call_of-Keeps (deletion be ent id) r s all =
        handled-Keeps (Forbids {F = F} {B = B} (deletion be ent id)) be _ m
          (λ i off.
            delete_item_by_id-Keeps F seen cells (driver_of i.config.db) i.config.config
              (reads i.config.db) ent id off)
          all s
    call_of-Keeps (reading be ent id) r s all =
        handled-Keeps (Forbids {F = F} {B = B} (reading be ent id)) be _ m
          (λ i free.
            get_item_by_id-Keeps F seen cells (driver_of i.config.db) i.config.config
              (reads i.config.db) ent id)
          all s
    call_of-Keeps (existence be ent id) r s all =
        handled-Keeps (Forbids {F = F} {B = B} (existence be ent id)) be _ m
          (λ i free.
            exists_item_by_id-Keeps F seen cells (driver_of i.config.db) i.config.config
              (reads i.config.db) ent id)
          all s
    call_of-Keeps (replacement be ent id ct b) r s all =
        handled-Keeps (Forbids {F = F} {B = B} (replacement be ent id ct b)) be _ m
          (λ i off.
            update_item_by_id-Keeps F seen cells (driver_of i.config.db) i.config.config
              (reads i.config.db) ent id (decoders.decode_dto r.body) off)
          all s
