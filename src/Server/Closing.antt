-- ===== src/Server/Closing.antt =====
-- Closing a server that has opened its backends (pkg/server/server.go, pkg/crud/types.go).
use db2rest_bridge.Base.{String, [], ◌∷◌, ok, err, panic, out_of_fuel, ◌≡◌, ◌≢◌, refl, ap, subst}
use db2rest_bridge.Base.Dict.{Dict}
use db2rest_bridge.Types.Errors.{Go}
use db2rest_bridge.Crud.Driver.{Db, go_on}
use db2rest_bridge.Server.Backends.{
  Pools, Backend, Impl, new_impl, open_backend, open_all, close_each, close_all,
}

-- A chain that ends with a value has begun with one.
go_on-value :
    {S A B : Type 0} (r : Go A) (f : A → Db S B) (s t : S) (b : B)
    → go_on r f s ≡ (ok b, t)
    → (a : A) × (f a s ≡ (ok b, t))
go_on-value (ok a) f s t b h = (a, h)
go_on-value (err e) f s t b h = absurd (cc)
go_on-value panic f s t b h = absurd (cc)
go_on-value out_of_fuel f s t b h = absurd (cc)

abbrev opened_map : {D S : Type 0} → Go (Dict (Impl D S)) → Dict (Impl D S)
opened_map (ok m) = m
opened_map _ = []

module _ {D S : Type 0} (pools : Pools D S) where
  pub close_first :
      (n : String) (be : Backend D) (m : Dict (Impl D S)) (s : S)
      → close_all ((n, new_impl be) ∷ m) s ≡ (panic, s)
  unfolding close_all close_each new_impl
  close_first n be m s = refl

  -- Once at least one backend has been opened and all of them are open, closing the server panics,
  -- in the state in which it is called.
  close_all-open_all :
      (bes : Dict (Backend D)) (m : Dict (Impl D S)) (s t : S)
      → bes ≢ []
      → open_all pools bes s ≡ (ok m, t)
      → close_all m t ≡ (panic, t)
  unfolding open_all
  close_all-open_all [] m s t some_there h = absurd (some_there refl)
  close_all-open_all ((n, be) ∷ bes) m s t some_there h =
      let (opened, rest) = go_on-value (open_backend pools be s).0 _ _ t m h in
      let (crud_map, last) =
        go_on-value (open_all pools bes (open_backend pools be s).1).0 _ _ t m rest in
      subst (λ m'. close_all m' t ≡ (panic, t)) (ap (λ r. opened_map r.0) last)
        (close_first n opened crud_map t)
