-- ===== src/Redis/Execute/Returns.antt =====
-- A command whose arguments have been validated raises nothing of its own.
use sql_gatekeeper.Prelude.{ℕ, String, ◌≡◌, none, List, [], ◌∷◌, ok}
use sql_gatekeeper.Prelude.Text.Number.{pos}
use sql_gatekeeper.Prelude.Dict.{Dict}
use sql_gatekeeper.Meta.{Value}
use sql_gatekeeper.Redis.Types.{Settings}
use sql_gatekeeper.Redis.Arguments.{validate_args}
use sql_gatekeeper.Redis.Execute.{RedisClient, Reply, run_command}

-- The client's call for the command returns, where the command has the arguments that the call takes.
-- Nothing is asked of calls without a key or a field, nor of calls for other commands.
pub record Answers (client : RedisClient) (command : String) (args : List String) : Type 0 where
  pub get :
      (key : String) → command ≡ "GET" → args ≡ key ∷ [] → (v : Value) × (client.get key ≡ ok v)
  pub ttl :
      (key : String) → command ≡ "TTL" → args ≡ key ∷ [] → (v : Value) × (client.ttl key ≡ ok v)
  pub pttl :
      (key : String) → command ≡ "PTTL" → args ≡ key ∷ [] → (v : Value) × (client.pttl key ≡ ok v)
  pub type_of :
      (key : String)
      → command ≡ "TYPE"
      → args ≡ key ∷ []
      → (v : Value) × (client.type_of key ≡ ok v)
  pub llen :
      (key : String) → command ≡ "LLEN" → args ≡ key ∷ [] → (v : Value) × (client.llen key ≡ ok v)
  pub scard :
      (key : String) → command ≡ "SCARD" → args ≡ key ∷ [] → (n : ℕ) × (client.scard key ≡ ok n)
  pub zcard :
      (key : String) → command ≡ "ZCARD" → args ≡ key ∷ [] → (v : Value) × (client.zcard key ≡ ok v)
  pub hgetall :
      (key : String)
      → command ≡ "HGETALL"
      → args ≡ key ∷ []
      → (d : Dict Value) × (client.hgetall key ≡ ok d)
  pub smembers :
      (key : String)
      → command ≡ "SMEMBERS"
      → args ≡ key ∷ []
      → (ss : List String) × (client.smembers key ≡ ok ss)
  pub exists :
      (key : String) (keys : List String)
      → command ≡ "EXISTS"
      → args ≡ key ∷ keys
      → (v : Value) × (client.exists args ≡ ok v)
  pub mget :
      (key : String) (keys : List String)
      → command ≡ "MGET"
      → args ≡ key ∷ keys
      → (vs : List Value) × (client.mget args ≡ ok vs)
  pub hget :
      (key field : String)
      → command ≡ "HGET"
      → args ≡ key ∷ field ∷ []
      → (v : Value) × (client.hget key field ≡ ok v)
  pub hmget :
      (key field : String) (names : List String)
      → command ≡ "HMGET"
      → args ≡ key ∷ field ∷ names
      → (vs : List Value) × (client.hmget key (field ∷ names) ≡ ok vs)
  pub lrange :
      (key start stop : String) (i j : ℕ)
      → command ≡ "LRANGE"
      → args ≡ key ∷ start ∷ stop ∷ []
      → (vs : List Value) × (client.lrange key (pos i) (pos j) ≡ ok vs)
  pub zrange :
      (key start stop : String) (i j : ℕ)
      → command ≡ "ZRANGE"
      → args ≡ key ∷ start ∷ stop ∷ []
      → (vs : List Value) × (client.zrange key (pos i) (pos j) ≡ ok vs)

module _ (settings : Settings) (code : String) where
  module _ (client : RedisClient) where
    Runs : String → Type 0
    Runs command =
        (args : List String)
        → Answers client command args
        → validate_args settings command args code ≡ none
        → (reply : Reply) × (run_command client command args ≡ ok reply)
