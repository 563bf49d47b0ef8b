-- ===== src/Program/Opened.antt =====
-- The state of the server (pkg/server/server.go) after a backend has been opened.
use db2rest_bridge.Base.{
  String, Bool, [], ◌∷◌, ◌++◌, Option, none, some, ok, err, panic, out_of_fuel, ◌≡◌, ap, ◌∙◌,
}
use db2rest_bridge.Base.Dict.{Dict}
use db2rest_bridge.Types.Errors.{Error, Go}
use db2rest_bridge.Types.Config.{BackendConfig}
use db2rest_bridge.Crud.Driver.{Db, go_on, ◌>>◌}
use db2rest_bridge.Server.Backends.{Pools, Backend, Impl, new_impl, open_backend, close_all}
use db2rest_bridge.Server.Closing.{close_first}
use db2rest_bridge.Server.Run.{Serving, put, open_loop, close}
use db2rest_bridge.Program.Over.{IsOver}
use db2rest_bridge.Program.{finish, verdict, after_deferred}

-- A backend has been opened.
abbrev pub HasOpen : {D S : Type 0} → Serving D S → Type 0
HasOpen {D} {S} st =
    (n : String) × (be : Backend D) × (m : Dict (Impl D S)) × (st.crud_map ≡ (n, new_impl be) ∷ m)

module _ {D S : Type 0} (pools : Pools D S) where
  close-HasOpen : (st : Serving D S) → HasOpen st → (close st).0 ≡ panic
  unfolding close
  close-HasOpen st (n, be, m, e) =
      ap (λ m'. (close_all m' st.world).0) e ∙ ap (λ r. r.0) (close_first pools n be m st.world)

  pub finish-HasOpen :
      (is_closed : Error → Bool) (r : Go (Unit {0})) (st : Serving D S)
      → IsOver r
      → HasOpen st
      → (finish is_closed (r, st)).0 ≡ panic
  unfolding finish
  finish-HasOpen is_closed (ok a) st ends h =
      ap (λ c. after_deferred c (ok tt)) (close-HasOpen st h)
  finish-HasOpen is_closed (err e) st ends h =
      ap (λ c. after_deferred c (verdict is_closed (err e))) (close-HasOpen st h)
  finish-HasOpen is_closed panic st ends h = ap (λ c. after_deferred c panic) (close-HasOpen st h)
  finish-HasOpen is_closed out_of_fuel st ends h = absurd ends

  pub go_on-HasOpen :
      {A B : Type 0} (r : Go A) (f : A → Db (Serving D S) B) (st : Serving D S)
      → HasOpen st
      → ((a : A) → HasOpen (f a st).1)
      → HasOpen (go_on r f st).1
  go_on-HasOpen (ok a) f st h step = step a
  go_on-HasOpen (err e) f st h step = h
  go_on-HasOpen panic f st h step = h
  go_on-HasOpen out_of_fuel f st h step = h

  put-HasOpen : (n : String) (i : Impl D S) (st : Serving D S) → HasOpen st → HasOpen (put n i st).1
  put-HasOpen n i st (k, be, m, e) = (k, be, m ++ (n, i) ∷ [], ap (λ m'. m' ++ (n, i) ∷ []) e)

  pub open_loop-HasOpen :
      (bes : Dict (Option BackendConfig)) (st : Serving D S)
      → HasOpen st
      → HasOpen (open_loop pools bes st).1
  unfolding open_loop
  open_loop-HasOpen [] st h = h
  open_loop-HasOpen ((n, none) ∷ bes) st h = h
  open_loop-HasOpen ((n, some c) ∷ bes) st h =
      let opened = open_backend pools (record { config = c; db = none }) st.world in
      go_on-HasOpen opened.0 (λ be. put n (new_impl be) >> open_loop pools bes)
        (record st { world = opened.1 }) h
        (λ be.
          open_loop-HasOpen bes (put n (new_impl be) (record st { world = opened.1 })).1
            (put-HasOpen n (new_impl be) (record st { world = opened.1 }) h))
