-- ===== src/Crud/Written.antt =====
-- The statement of one object in a bulk operation of pkg/crud/impl.go.
use db2rest_bridge.Base.{
  String, Bool, List, [], ◌∷◌, ◌++◌, Option, none, some, ◌≡◌, refl, ◌∙◌, ◌≢◌, ◌⊎◌, inl, inr, ok,
  err, sym, subst, panic, out_of_fuel, if◌then◌else◌,
}
use db2rest_bridge.Base.Dict.{Dict}
use db2rest_bridge.Types.Errors.{Error, Go}
use db2rest_bridge.Types.Config.{BackendConfig, id_column}
use db2rest_bridge.Crud.Driver.{Cells, Metadata, Db, Driver, go_on, ◌>>=◌}
use db2rest_bridge.Crud.Rows.{remap_body}
use db2rest_bridge.Crud.Sql.{
  value_of, create_update_query, create_insert_query, create_replace_query,
}
use db2rest_bridge.Crud.Ops.{load, must_string}
use db2rest_bridge.Crud.Writes.{remapped}
use db2rest_bridge.Crud.Batch.{update_tx, create_tx, update_one, create_one}
use db2rest_bridge.Crud.Transactions.{
  Statement, Transactional, Ends, Ends-map, lift-Ends, tx_step-Ends,
}

-- One statement for each object, in their order
abbrev pub Each :
    {V : Type 0} → (Dict V → Statement V → Type 0) → List (Dict V) → List (Statement V) → Type 0
Each P [] [] = Unit {0}
Each P [] (st ∷ sts) = ⊥
Each P (obj ∷ objs) [] = ⊥
Each P (obj ∷ objs) (st ∷ sts) = P obj st × Each P objs sts

module _ {V : Type 0} (cells : Cells V) (be : BackendConfig) where
  -- The body is the object, or what some metadata converts it to.
  abbrev Converted : Dict V → Dict V → Type 0
  Converted obj body = (body ≡ obj) ⊎ ((m : Metadata) × (body ≡ remap_body cells m obj))

  -- The UPDATE of an object: its ID is a text, and the last argument.
  abbrev pub IsUpdateOf : String → Dict V → Statement V → Type 0
  IsUpdateOf entity obj st =
      (col : String) × (id : String) × (body : Dict V) × (id_column be entity ≡ ok col)
      × (cells.as_text (value_of cells.nil_value obj col) ≡ some id)
      × Converted obj body
      × (st ≡ (
        (create_update_query cells.nil_value body entity col).0,
        (create_update_query cells.nil_value body entity col).1 ++ cells.text id ∷ [],
      ))

  -- The REPLACE or INSERT of an object
  abbrev pub IsCreateOf : String → Bool → Dict V → Statement V → Type 0
  IsCreateOf entity replace obj st =
      (body : Dict V) × Converted obj body
      × (st ≡ (
          if replace
          then create_replace_query cells.nil_value body entity
          else create_insert_query cells.nil_value body entity))

id_column-ne-err : (be : BackendConfig) (entity : String) (e : Error) → id_column be entity ≢ err e
unfolding id_column
id_column-ne-err be entity e =
    elim be.id_map as (λ o. id_column (record be { id_map = o }) entity ≢ err e) [
      | none ↦ λ h. cc
      | some m ↦ λ h. cc
    ]

must_string-ne-err : (o : Option String) (e : Error) → must_string o ≢ err e
must_string-ne-err none e h = cc
must_string-ne-err (some s) e h = cc

must_string-eq : (o : Option String) (s : String) → must_string o ≡ ok s → o ≡ some s
must_string-eq none s h = absurd (cc)
must_string-eq (some s') s h = cc

module _ {V S : Type 0} (cells : Cells V) (db : Driver V S) (be : BackendConfig)
    (tx : Transactional db) where
  open tx use {Data, seen, query_keeps, cached_keeps}

  go_on-seen :
      {A B : Type 0} (r : Go A) (f : A → Db S B) (s : S)
      → ((a : A) → seen (f a s).1 ≡ seen s)
      → seen (go_on r f s).1 ≡ seen s
  go_on-seen (ok a) f s h = h a
  go_on-seen (err e) f s h = refl
  go_on-seen panic f s h = refl
  go_on-seen out_of_fuel f s h = refl

  load-seen : (key : String) (s : S) → seen (load cells db be key s).1 ≡ seen s
  unfolding load
  load-seen key s = go_on-seen (id_column be key) _ s (λ col. query_keeps _ _ s)

  body-Converted :
      (obj : Dict V) (md : Option Metadata)
      → Converted cells be obj (elim md [ none ↦ obj | some m ↦ remap_body cells m obj ])
  body-Converted obj none = inl refl
  body-Converted obj (some m) = inr (m, refl)

  -- An object is converted, and a step of the transaction follows.
  remapped-Ends :
      (P : List (Statement V) → Type 0) (d : Data) (sts : List (Statement V)) (entity : String)
      (obj : Dict V) (f : Dict V → Db S (Unit {0})) (s : S)
      → seen s ≡ (d, some sts)
      → ((body : Dict V) (t : S)
          → Converted cells be obj body
          → seen t ≡ (d, some sts)
          → Ends db tx P d sts (f body t))
      → Ends db tx P d sts ((remapped cells db be entity obj >>= f) s)
  unfolding remapped
  remapped-Ends P d sts entity obj f s h step =
      let (md, t) = db.cached (load cells db be) entity s in
      step _ _ (body-Converted obj (db.cached (load cells db be) entity s).0)
        (cached_keeps (load cells db be) load-seen entity s ∙ h)

  pub update_one-Ends :
      (d : Data) (sts : List (Statement V)) (entity : String) (obj : Dict V) (s : S)
      → seen s ≡ (d, some sts)
      → Ends db tx
          (Each (IsUpdateOf cells be entity) (obj ∷ []))
          d
          sts
          (update_one cells db be entity obj s)
  unfolding update_one update_tx
  update_one-Ends d sts entity obj s h =
      let P : List (Statement V) → Type 0 = Each (IsUpdateOf cells be entity) (obj ∷ []) in
      lift-Ends db tx P d sts (id_column be entity) _ s h (id_column-ne-err be entity) λ col is_col.
        lift-Ends db tx P d sts (must_string (cells.as_text (value_of cells.nil_value obj col))) _ s
          h (must_string-ne-err _)
          λ id is_text.
            remapped-Ends P d sts entity obj (update_tx cells db be entity col id) s h
              λ body t conv e.
                Ends-map db tx _ P d sts (update_tx cells db be entity col id body t)
                  (λ new same.
                    subst P (sym same)
                      ((col, id, body, is_col, must_string-eq _ _ is_text, conv, refl), tt))
                  (tx_step-Ends db tx d sts _ _ _ t e)

  pub create_one-Ends :
      (d : Data) (sts : List (Statement V)) (entity : String) (replace : Bool) (obj : Dict V)
      (s : S)
      → seen s ≡ (d, some sts)
      → Ends db tx
          (Each (IsCreateOf cells be entity replace) (obj ∷ []))
          d
          sts
          (create_one cells db be entity replace obj s)
  unfolding create_one create_tx
  create_one-Ends d sts entity replace obj s h =
      let P : List (Statement V) → Type 0 = Each (IsCreateOf cells be entity replace) (obj ∷ []) in
      remapped-Ends P d sts entity obj (create_tx cells db be entity replace) s h λ body t conv e.
        Ends-map db tx _ P d sts (create_tx cells db be entity replace body t)
          (λ new same. subst P (sym same) ((body, conv, refl), tt))
          (tx_step-Ends db tx d sts _ _ _ t e)
