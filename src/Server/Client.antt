-- ===== src/Server/Client.antt =====
-- src/cache.h: the flags of a client, each a bit of its own in the source; the members of a client
-- that call and processCommand read.
use jmeter_on_k8s.Prelude.{ℕ, Bool, List, Option}

pub record ClientFlags : Type 0 where
  pub slave : Bool
  pub master : Bool
  pub monitor : Bool
  pub multi : Bool
  pub blocked : Bool
  pub dirty_cas : Bool
  pub close_after_reply : Bool
  pub unblocked : Bool
  pub lua_client : Bool
  pub asking : Bool
  pub close_asap : Bool
  pub unix_socket : Bool
  pub dirty_exec : Bool
  pub master_force_reply : Bool
  pub force_aof : Bool
  pub force_repl : Bool
  pub pre_psync : Bool
  pub readonly : Bool
  pub pubsub : Bool

-- `cmd` is the row of the command table that c->cmd points to, `argv` the arguments' bytes, `db` the
-- number of the database.
pub record CacheClient : Type 0 where
  pub flags : ClientFlags
  pub authenticated : Bool
  pub cmd : Option ℕ
  pub lastcmd : Option ℕ
  pub argv : List (List ℕ)
  pub argc : ℕ
  pub db : ℕ
