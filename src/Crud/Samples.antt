-- ===== src/Crud/Samples.antt =====
-- A concrete environment: cells, and a database that logs its statements.
use db2rest_bridge.Base.{
  ℕ, String, Bool, List, [], ◌∷◌, ◌++◌, Option, none, some, refl, ap, ok, err,
}
use db2rest_bridge.Base.Int.{ℤ, pos}
use db2rest_bridge.Base.Dict.{Dict}
use db2rest_bridge.Types.Errors.{Go, mysql}
use db2rest_bridge.Types.Config.{BackendConfig}
use db2rest_bridge.Crud.Driver.{Cells, Rows, Driver}
use db2rest_bridge.Crud.Transactions.{Statement, Transactional}

pub data Cell : Type 0 where
  nothing : Cell
  word : String → Cell
  number : ℕ → Cell

abbrev word_of : Cell → Option String
word_of (word s) = some s
word_of c = none

abbrev pub cells : Cells Cell
cells = record {
  nil_value = nothing;
  text = word;
  as_text = word_of;
  show = λ c. "cell";
  parse_time = λ layout s. none;
  decode_base64 = λ s. none;
  scan_time = λ c. some c;
  scan_float = λ c. some c;
  scan_string = λ c. some c;
  as_text-text = λ s. refl;
}

-- The statements that are committed, and those of the open transaction.
pub record World : Type 0 where
  pub committed : List (Statement Cell)
  pub pending : Option (List (Statement Cell))

abbrev pub start : World
start = record { committed = []; pending = none }

abbrev with_next : Option (List (Statement Cell)) → Statement Cell → Option (List (Statement Cell))
with_next none st = none
with_next (some sts) st = some (sts ++ st ∷ [])

abbrev statements_of : Option (List (Statement Cell)) → List (Statement Cell)
statements_of none = []
statements_of (some sts) = sts

abbrev ann : Rows Cell
ann = record {
  columns = ok ("id" ∷ "name" ∷ []);
  column_types = ok (
      record { name = "id"; database_type_name = "INT" }
      ∷ record { name = "name"; database_type_name = "VARCHAR" }
      ∷ []);
  rows = ok (word "1" ∷ word "Ann" ∷ []) ∷ [];
  failure = none;
}

abbrev log_exec : Go (Go ℤ) → Statement Cell → World → World
log_exec (ok res) st w = record w { committed = w.committed ++ st ∷ [] }
log_exec r st w = w

-- `outcome` is what statements outside a transaction come to.
abbrev database : Go (Go ℤ) → Driver Cell World
database outcome = record {
  query = λ qry args w. (ok ann, w);
  scan_count = λ qry args w. (ok (pos 1), w);
  scan_name = λ row. ok "people";
  exec = λ qry args w. (outcome, log_exec outcome (qry, args) w);
  begin_tx = λ w. (ok tt, record w { pending = some [] });
  tx_exec = λ qry args w. (ok (ok (pos 1)), record w { pending = with_next w.pending (qry, args) });
  commit =
      λ w. (ok tt, record { committed = w.committed ++ statements_of w.pending; pending = none });
  rollback = λ w. (ok tt, record w { pending = none });
  cached = λ loader key w. loader key w;
}

abbrev pub running : Driver Cell World
running = database (ok (ok (pos 1)))

abbrev pub duplicate : Driver Cell World
duplicate = database (err (mysql 1062 "Duplicate entry"))

abbrev pub transactional : Transactional running
transactional = record {
  Data = List (Statement Cell);
  seen = λ w. (w.committed, w.pending);
  apply_all = λ sts d. d ++ sts;
  query_keeps = λ qry args w. refl;
  cached_keeps = λ loader keeps key w. keeps key w;
  begin_lem = λ d w h. ap (λ p. (p.0, some [])) h;
  tx_exec_lem = λ d sts qry args w h. ap (λ p. (p.0, with_next p.1 (qry, args))) h;
  rollback_lem = λ d sts w h. ap (λ p. (p.0, none)) h;
  commit_lem = λ d sts w h. ap (λ p. (p.0 ++ statements_of p.1, none)) h;
}

-- Whether to allow the operations
abbrev pub backend : Bool → BackendConfig
backend allowed = record {
  driver = some "mysql";
  dsn = "";
  create = some allowed;
  read = some allowed;
  update = some allowed;
  delete = some allowed;
  id_map = some [];
  queries = [];
  init_ddls = [];
  max_open_connections = none;
  max_idle_connections = none;
  conn_max_lifetime = none;
  conn_max_idle_time = none;
}

abbrev pub person : Dict Cell
person = ("name", word "Ann") ∷ ("id", word "1") ∷ []

abbrev pub numbered : Dict Cell
numbered = ("id", number 1) ∷ ("name", word "Ann") ∷ []
