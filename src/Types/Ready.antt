-- ===== src/Types/Ready.antt =====
-- The backends and the settings that `CheckAndNormalize` (pkg/types/types.go) leaves.
use db2rest_bridge.Base.{
  String, Bool, true, false, [], ◌∷◌, Option, none, some, ◌≡◌, ◌≢◌, refl, sym, ap, ◌∙◌, subst, ok,
  err, >>=-eq-ok, Bool-cases, inl, inr, All, if◌then◌else◌, str_eq,
}
use db2rest_bridge.Base.Dict.{Dict}
use db2rest_bridge.Types.Errors.{Error, Go}
use db2rest_bridge.Types.Config.{BackendConfig}
use db2rest_bridge.Types.Normalize.{
  LoggingConfig, is_backend_name, set_or, or_text, normalize_backend, normalize_backends,
  normalize_logging, not_empty,
}

abbrev IsGiven {ℓ} : {A : Type ℓ} → Option A → Type ℓ
IsGiven {A = A} o = (a : A) × (o ≡ some a)

-- Every pointer that the operations read through is set.
pub record IsReady (be : BackendConfig) : Type 0 where
  pub driver_set : IsGiven be.driver
  pub id_map_set : IsGiven be.id_map
  pub create_set : IsGiven be.create
  pub read_set : IsGiven be.read
  pub update_set : IsGiven be.update
  pub delete_set : IsGiven be.delete

-- The backend has a valid name, is not nil, and is ready.
abbrev pub IsValidEntry : String × Option BackendConfig → Type 0
IsValidEntry (k, none) = ⊥
IsValidEntry (k, some be) = (is_backend_name k ≡ true) × IsReady be

set_or-IsGiven : {A : Type 0} (o : Option A) (d : A) → IsGiven (set_or o d)
set_or-IsGiven none d = (d, refl)
set_or-IsGiven (some a) d = (a, refl)

normalize_backend-IsReady : (be : BackendConfig) → IsReady (normalize_backend be)
unfolding normalize_backend
normalize_backend-IsReady be = record {
  driver_set = set_or-IsGiven be.driver "mysql";
  id_map_set = set_or-IsGiven be.id_map [];
  create_set = set_or-IsGiven be.create false;
  read_set = set_or-IsGiven be.read true;
  update_set = set_or-IsGiven be.update false;
  delete_set = set_or-IsGiven be.delete false;
}

if-eq-ok :
    {A : Type 0} (b : Bool) (m : Go A) (e : Error) {a : A}
    → (if b then m else err e) ≡ ok a
    → (b ≡ true) × (m ≡ ok a)
if-eq-ok true m e h = (refl, h)
if-eq-ok false m e h = cc

-- What the loop yields if it finds no error.
pub named_entry :
    (k : String) (v : BackendConfig) (bs ds : Dict (Option BackendConfig))
    → normalize_backends ((k, some v) ∷ bs) ≡ ok ds
    → (rest : Dict (Option BackendConfig)) × (is_backend_name k ≡ true)
      × (normalize_backends bs ≡ ok rest)
      × ((k, some (normalize_backend v)) ∷ rest ≡ ds)
unfolding normalize_backends
named_entry k v bs ds h =
    let (named, h') = if-eq-ok (is_backend_name k) _ _ h in
    let (rest, others, same) = >>=-eq-ok (normalize_backends bs) _ h' in (rest, named, others, cc)

pub no_nil_entry :
    (k : String) (bs ds : Dict (Option BackendConfig)) → normalize_backends ((k, none) ∷ bs) ≢ ok ds
unfolding normalize_backends
no_nil_entry k bs ds h = let (named, h') = if-eq-ok (is_backend_name k) _ _ h in cc

pub no_entry : (ds : Dict (Option BackendConfig)) → normalize_backends [] ≡ ok ds → [] ≡ ds
unfolding normalize_backends
no_entry ds h = cc

pub normalize_backends-valid :
    (bs ds : Dict (Option BackendConfig)) → normalize_backends bs ≡ ok ds → All IsValidEntry ds
normalize_backends-valid [] ds h = subst (All IsValidEntry) (no_entry ds h) tt
normalize_backends-valid ((k, none) ∷ bs) ds h = absurd (no_nil_entry k bs ds h)
normalize_backends-valid ((k, some v) ∷ bs) ds h =
    let (rest, named, others, same) = named_entry k v bs ds h in
    subst (All IsValidEntry) same
      ((named, normalize_backend-IsReady v), normalize_backends-valid bs rest others)

pub set_or_twice : {A : Type 0} (o : Option A) (d : A) → set_or (set_or o d) d ≡ set_or o d
set_or_twice none d = refl
set_or_twice (some a) d = refl

pub same_if : {A : Type 0} (b : Bool) (a : A) → (if b then a else a) ≡ a
same_if true a = refl
same_if false a = refl

pub or_text_twice : (s d : String) → or_text (or_text s d) d ≡ or_text s d
or_text_twice s d = elim (Bool-cases (str_eq s "")) [
  | inl empty ↦
      ap (λ b. or_text (if b then d else s) d) empty
      ∙ same_if (str_eq d "") d
      ∙ sym (ap (λ b. if b then d else s) empty)
  | inr given ↦ ap (λ b. or_text (if b then d else s) d) given
]

normalize_backend_twice :
    (be : BackendConfig) → normalize_backend (normalize_backend be) ≡ normalize_backend be
unfolding normalize_backend
normalize_backend_twice be = rw (
  set_or_twice be.driver "mysql",
  set_or_twice be.id_map [],
  set_or_twice be.create false,
  set_or_twice be.read true,
  set_or_twice be.update false,
  set_or_twice be.delete false,
)

pub normalize_backends_twice :
    (bs ds : Dict (Option BackendConfig))
    → normalize_backends bs ≡ ok ds
    → normalize_backends ds ≡ ok ds
unfolding normalize_backends
normalize_backends_twice [] ds h = subst (λ es. normalize_backends es ≡ ok es) (no_entry ds h) refl
normalize_backends_twice ((k, none) ∷ bs) ds h = absurd (no_nil_entry k bs ds h)
normalize_backends_twice ((k, some v) ∷ bs) ds h =
    let (rest, named, others, same) = named_entry k v bs ds h in
    subst (λ es. normalize_backends es ≡ ok es) same
      (rw (named) (rw (normalize_backends_twice bs rest others, normalize_backend_twice v)))

pub normalize_logging_twice :
    (l : Option LoggingConfig) → normalize_logging (normalize_logging l) ≡ normalize_logging l
unfolding normalize_logging
normalize_logging_twice none = refl
normalize_logging_twice (some l) = rw (set_or_twice l.level "info", set_or_twice l.format "json")

pub still_filled :
    {u : Unit {0}} (bs ds : Dict (Option BackendConfig))
    → normalize_backends bs ≡ ok ds
    → not_empty bs ≡ ok u
    → not_empty ds ≡ ok tt
still_filled [] ds h filled = cc
still_filled ((k, none) ∷ bs) ds h filled = absurd (no_nil_entry k bs ds h)
still_filled ((k, some v) ∷ bs) ds h filled =
    let (rest, named, others, same) = named_entry k v bs ds h in
    subst (λ es. not_empty es ≡ ok tt) same refl
