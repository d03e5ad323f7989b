-- ===== src/Client/State.antt =====
-- The state of AgentDBClient, its constructor, and its calls of the in-memory database and of the
-- sessions. A method's calls of the network take what the network does as an argument.
use dbagent_tree.Prelude.{
  String, ◌++◌, Bool, ◌||◌, Option, none, some, [], ℤ, string_eq, ◌==◌, if◌then◌else◌,
}
use dbagent_tree.Dict.{Dict, lookup, insert, erase}
use dbagent_tree.Exec.{Result, ok, err, Exec, gets, or_raise, modify, ◌>>=◌}
use dbagent_tree.Mini.{MiniDb}
use dbagent_tree.Text.Words.{strip, lower, parse_int}
use dbagent_tree.Client.Session.{Session, request}

pub record Client : Type 0 where
  pub backend : String
  pub host : String
  pub port : ℤ
  pub allow_fallback : Bool
  pub mini : MiniDb
  pub sessions : Dict String Session
  pub tree_sessions : Dict String Session

abbrev or_default : String → Option String → String
or_default d none = d
or_default d (some v) = v

-- `AgentDBClient.__init__`, over the environment and the module's `mini_db`.
unfoldable pub new_client : (String → Option String) → MiniDb → Result Client
unfolding strip lower parse_int
new_client getenv mini_db =
    let flag = lower (strip (or_default "0" (getenv "TREE_DB_FALLBACK_TO_MINI"))) in
    elim (parse_int (or_default "19091" (getenv "TREE_DB_PORT"))) [
      | none ↦ err "invalid literal for int()"
      | some port ↦ ok (record {
        backend = lower (strip (or_default "socket" (getenv "TREE_DB_BACKEND")));
        host = or_default "127.0.0.1" (getenv "TREE_DB_HOST");
        port = port;
        allow_fallback = flag == "1" || flag == "true" || flag == "yes";
        mini = mini_db;
        sessions = [];
        tree_sessions = [];
      })
    ]

unfoldable pub using_mini : Client → Bool
using_mini c = c.backend == "mini"

-- A call of the in-memory database that the client holds.
abbrev pub on_mini : {A : Type 0} → Exec MiniDb A → Exec Client A
on_mini m c = let (r, db) = m c.mini in (r, record c { mini = db })

-- `if self._using_mini(): return …`
abbrev pub by_backend : {A : Type 0} → Exec MiniDb A → Exec Client A → Exec Client A
by_backend m socket c = if using_mini c then on_mini m c else socket c

abbrev pub set_session : String → Session → Client → Client
set_session tx_id s c = record c { sessions = insert tx_id s c.sessions }

abbrev pub set_tree_session : String → Session → Client → Client
set_tree_session tx_id s c = record c { tree_sessions = insert tx_id s c.tree_sessions }

abbrev pub bad_tx : String → String
bad_tx tx_id = "invalid or inactive tx_id: " ++ tx_id

abbrev pub bad_tree : String → String
bad_tree tx_id = "invalid or inactive tree tx_id: " ++ tx_id

unfoldable pub require_session : String → Exec Client Session
require_session tx_id = do or_raise (← gets (λ c. lookup tx_id c.sessions)) (bad_tx tx_id)

unfoldable pub require_tree_session : String → Exec Client Session
require_tree_session tx_id = do
  or_raise (← gets (λ c. lookup tx_id c.tree_sessions)) (bad_tree tx_id)

-- `session.request(cmd)` on the session that stands under the id; the object in the map changes.
abbrev pub ask : String → Session → String → Exec Client String
ask tx_id session cmd c = let (r, s) = request cmd session in (r, set_session tx_id s c)

abbrev pub ask_tree : String → Session → String → Exec Client String
ask_tree tx_id session cmd c = let (r, s) = request cmd session in (r, set_tree_session tx_id s c)

-- `session.close(); self._sessions.pop(tx_id, None)`: the object is closed and out of reach.
abbrev pub end_session : String → Exec Client (Unit {0})
end_session tx_id = modify (λ c. record c { sessions = erase tx_id c.sessions })

abbrev pub end_tree_session : String → Exec Client (Unit {0})
end_tree_session tx_id = modify (λ c. record c { tree_sessions = erase tx_id c.tree_sessions })
