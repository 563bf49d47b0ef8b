-- ===== src/Crud/Transactions.antt =====
-- What the bulk operations of pkg/crud/impl.go rely on of a transaction of database/sql, and how such
-- an operation may end.
use db2rest_bridge.Base.{
  String, List, [], ◌∷◌, ◌++◌, Option, none, some, ◌≡◌, refl, ◌∙◌, ◌≢◌, ap, ok, err, panic,
  out_of_fuel, append_assoc,
}
use db2rest_bridge.Base.Int.{ℤ}
use db2rest_bridge.Types.Errors.{Error, Go}
use db2rest_bridge.Crud.Driver.{Metadata, Db, Driver, go_on, ◌>>◌}
use db2rest_bridge.Crud.Writes.{join_rollback, after_exec, tx_step}

-- A statement with its arguments
abbrev pub Statement : Type 0 → Type 0
Statement V = String × List V

-- The committed data, and the statements that have succeeded in the open transaction, if one is open
abbrev Seen : Type 0 → Type 0 → Type 0
Seen V D = D × Option (List (Statement V))

abbrev pub seen_begun : {V D : Type 0} → Go (Unit {0}) → D → Seen V D
seen_begun (ok done) d = (d, some [])
seen_begun r d = (d, none)

abbrev seen_executed : {V D : Type 0} → Go (Go ℤ) → Statement V → D → List (Statement V) → Seen V D
seen_executed (ok res) st d sts = (d, some (sts ++ st ∷ []))
seen_executed r st d sts = (d, some sts)

abbrev seen_committed :
    {V D : Type 0}
    → (List (Statement V) → D → D)
    → Go (Unit {0})
    → D
    → List (Statement V)
    → Seen V D
seen_committed apply (ok done) d sts = (apply sts d, none)
seen_committed apply r d sts = (d, none)

-- What is relied on: queries change nothing of this, a lookup in the cache no more than its loader, a
-- transaction begins with no statement, a statement that fails changes nothing, a rollback ends the
-- transaction, and so does a commit, which applies the statements only if it succeeds.
pub record Transactional {V S : Type 0} (db : Driver V S) : Type 1 where
  pub Data : Type 0
  pub seen : S → Seen V Data
  pub apply_all : List (Statement V) → Data → Data
  pub query_keeps : (qry : String) (args : List V) (s : S) → seen (db.query qry args s).1 ≡ seen s
  pub cached_keeps :
      (loader : String → S → Option Metadata × S)
      → ((key : String) (s : S) → seen (loader key s).1 ≡ seen s)
      → (key : String) (s : S) → seen (db.cached loader key s).1 ≡ seen s
  pub begin_lem :
      (d : Data) (s : S)
      → seen s ≡ (d, none)
      → seen (db.begin_tx s).1 ≡ seen_begun (db.begin_tx s).0 d
  pub tx_exec_lem :
      (d : Data) (sts : List (Statement V)) (qry : String) (args : List V) (s : S)
      → seen s ≡ (d, some sts)
      → seen (db.tx_exec qry args s).1 ≡ seen_executed (db.tx_exec qry args s).0 (qry, args) d sts
  pub rollback_lem :
      (d : Data) (sts : List (Statement V)) (s : S)
      → seen s ≡ (d, some sts)
      → seen (db.rollback s).1 ≡ (d, none)
  pub commit_lem :
      (d : Data) (sts : List (Statement V)) (s : S)
      → seen s ≡ (d, some sts)
      → seen (db.commit s).1 ≡ seen_committed apply_all (db.commit s).0 d sts

module _ {V S : Type 0} (db : Driver V S) (tx : Transactional db) where
  open tx use {Data, seen, apply_all, begin_lem, tx_exec_lem, rollback_lem, commit_lem}

  -- How a part of a transaction ends that began with `sts`: it has added statements as `P` says, or
  -- has rolled back. A panic leaves the committed data alone.
  abbrev pub Ends :
      (List (Statement V) → Type 0) → Data → List (Statement V) → Go (Unit {0}) × S → Type 0
  Ends P d sts (ok done, t) = (new : List (Statement V)) × P new × (seen t ≡ (d, some (sts ++ new)))
  Ends P d sts (err e, t) = seen t ≡ (d, none)
  Ends P d sts (panic, t) = (p : Option (List (Statement V))) × (seen t ≡ (d, p))
  Ends P d sts (out_of_fuel, t) = (p : Option (List (Statement V))) × (seen t ≡ (d, p))

  -- How an operation ends that is one transaction. If it succeeds, statements as `P` says have been
  -- applied, and nothing else. With an error nothing has. No transaction is left open by either. A
  -- panic applies nothing.
  abbrev pub Commits : (List (Statement V) → Type 0) → Data → Go (Unit {0}) × S → Type 0
  Commits P d (ok done, t) = (sts : List (Statement V)) × P sts × (seen t ≡ (apply_all sts d, none))
  Commits P d (err e, t) = seen t ≡ (d, none)
  Commits P d (panic, t) = (p : Option (List (Statement V))) × (seen t ≡ (d, p))
  Commits P d (out_of_fuel, t) = (p : Option (List (Statement V))) × (seen t ≡ (d, p))

  pub Ends-map :
      (P Q : List (Statement V) → Type 0) (d : Data) (sts : List (Statement V))
      (r : Go (Unit {0}) × S)
      → ((new : List (Statement V)) → P new → Q new)
      → Ends P d sts r
      → Ends Q d sts r
  Ends-map P Q d sts (ok done, t) f (new, p, e) = (new, f new p, e)
  Ends-map P Q d sts (err e, t) f h = h
  Ends-map P Q d sts (panic, t) f h = h
  Ends-map P Q d sts (out_of_fuel, t) f h = h

  -- A result that is no error, and what follows it
  pub lift-Ends :
      {A : Type 0} (P : List (Statement V) → Type 0) (d : Data) (sts : List (Statement V))
      (r : Go A) (f : A → Db S (Unit {0})) (s : S)
      → seen s ≡ (d, some sts)
      → ((e : Error) → r ≢ err e)
      → ((a : A) → r ≡ ok a → Ends P d sts (f a s))
      → Ends P d sts (go_on r f s)
  lift-Ends P d sts (ok a) f s h never step = step a refl
  lift-Ends P d sts (err e) f s h never step = absurd (never e refl)
  lift-Ends P d sts panic f s h never step = (some sts, h)
  lift-Ends P d sts out_of_fuel f s h never step = (some sts, h)

  rolled-Ends :
      (P : List (Statement V) → Type 0) (d : Data) (sts : List (Statement V)) (e : Error)
      (rolled : Go (Unit {0})) (t : S)
      → seen t ≡ (d, none)
      → Ends P d sts (join_rollback e rolled, t)
  rolled-Ends P d sts e (ok done) t h = h
  rolled-Ends P d sts e (err f) t h = h
  rolled-Ends P d sts e panic t h = (none, h)
  rolled-Ends P d sts e out_of_fuel t h = (none, h)

  after_exec-Ends :
      (d : Data) (sts : List (Statement V)) (wrap : Error → Error) (st : Statement V)
      (r : Go (Go ℤ)) (t : S)
      → seen t ≡ seen_executed r st d sts
      → Ends (λ new. new ≡ st ∷ []) d sts (after_exec db wrap r t)
  after_exec-Ends d sts wrap st (ok res) t h = (st ∷ [], refl, h)
  after_exec-Ends d sts wrap st (err e) t h =
      rolled-Ends (λ new. new ≡ st ∷ []) d sts (wrap e) (db.rollback t).0 (db.rollback t).1
        (rollback_lem d sts t h)
  after_exec-Ends d sts wrap st panic t h = (some sts, h)
  after_exec-Ends d sts wrap st out_of_fuel t h = (some sts, h)

  pub tx_step-Ends :
      (d : Data) (sts : List (Statement V)) (wrap : Error → Error) (qry : String) (args : List V)
      (s : S)
      → seen s ≡ (d, some sts)
      → Ends (λ new. new ≡ (qry, args) ∷ []) d sts (tx_step db wrap qry args s)
  unfolding tx_step
  tx_step-Ends d sts wrap qry args s h =
      after_exec-Ends d sts wrap (qry, args) (db.tx_exec qry args s).0 (db.tx_exec qry args s).1
        (tx_exec_lem d sts qry args s h)

  -- A statement of one object, and then those of the other objects
  pub after_one-Ends :
      (P Q : List (Statement V) → Type 0) (d : Data) (sts : List (Statement V)) (r : Go (Unit {0}))
      (t : S) (rest : Db S (Unit {0}))
      → Ends P d sts (r, t)
      → ((new : List (Statement V))
          → P new
          → seen t ≡ (d, some (sts ++ new))
          → Ends (λ more. Q (new ++ more)) d (sts ++ new) (rest t))
      → Ends Q d sts (go_on r (λ done. rest) t)
  after_one-Ends P Q d sts (ok done) t rest (new, p, e) step =
      moved Q d sts new (rest t) (step new p e)
    where
      moved :
          (Q : List (Statement V) → Type 0) (d : Data) (sts new : List (Statement V))
          (r : Go (Unit {0}) × S)
          → Ends (λ more. Q (new ++ more)) d (sts ++ new) r
          → Ends Q d sts r
      moved Q d sts new (ok done, t) (more, q, e) =
          (new ++ more, q, e ∙ ap (λ l. (d, some l)) (append_assoc sts new more))
      moved Q d sts new (err f, t) h = h
      moved Q d sts new (panic, t) h = h
      moved Q d sts new (out_of_fuel, t) h = h
  after_one-Ends P Q d sts (err f) t rest h step = h
  after_one-Ends P Q d sts panic t rest h step = h
  after_one-Ends P Q d sts out_of_fuel t rest h step = h

  commit-Commits :
      (P : List (Statement V) → Type 0) (d : Data) (sts : List (Statement V)) (r : Go (Unit {0}))
      (t : S)
      → P sts
      → seen t ≡ seen_committed apply_all r d sts
      → Commits P d (r, t)
  commit-Commits P d sts (ok done) t p h = (sts, p, h)
  commit-Commits P d sts (err e) t p h = h
  commit-Commits P d sts panic t p h = (none, h)
  commit-Commits P d sts out_of_fuel t p h = (none, h)

  each-Commits :
      (P : List (Statement V) → Type 0) (d : Data) (r : Go (Unit {0})) (t : S)
      → Ends P d [] (r, t)
      → Commits P d (go_on r (λ done. db.commit) t)
  each-Commits P d (ok done) t (new, p, e) =
      commit-Commits P d new (db.commit t).0 (db.commit t).1 p (commit_lem d new t e)
  each-Commits P d (err e) t h = h
  each-Commits P d panic t h = h
  each-Commits P d out_of_fuel t h = h

  begun-Commits :
      (P : List (Statement V) → Type 0) (d : Data) (r : Go (Unit {0})) (t : S)
      (each : Db S (Unit {0}))
      → seen t ≡ seen_begun r d
      → ((s : S) → seen s ≡ (d, some []) → Ends P d [] (each s))
      → Commits P d (go_on r (λ done. each >> db.commit) t)
  begun-Commits P d (ok done) t each h step = each-Commits P d (each t).0 (each t).1 (step t h)
  begun-Commits P d (err e) t each h step = h
  begun-Commits P d panic t each h step = (none, h)
  begun-Commits P d out_of_fuel t each h step = (none, h)

  -- From the begin to the commit
  pub transaction-Commits :
      (P : List (Statement V) → Type 0) (d : Data) (s : S) (each : Db S (Unit {0}))
      → seen s ≡ (d, none)
      → ((t : S) → seen t ≡ (d, some []) → Ends P d [] (each t))
      → Commits P d ((db.begin_tx >> (each >> db.commit)) s)
  transaction-Commits P d s each h step =
      begun-Commits P d (db.begin_tx s).0 (db.begin_tx s).1 each (begin_lem d s h) step
