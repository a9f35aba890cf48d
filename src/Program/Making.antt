-- ===== src/Program/Making.antt =====
-- When make_server of server/core/server.cpp makes a server, and which.
use Prim.Native.String.{String}
use beast_lounge.Base.{
  ℕ, ◌≡◌, refl, ◌⊎◌, inl, inr, true, false, Bool-cases, Option, none, some, ◌∷◌,
}
use beast_lounge.Boost.{Boost}
use beast_lounge.Server.{new_server, insert}
use beast_lounge.Program.{
  Throws, returns, throws_system, throws_other, ServerConfig, Made, makes, null, escapes, undefined,
  Accessors, Outside, is_object, is_array, logger_config, server_config, member, with_listeners,
  with_server, with_config, with_member, with_log, with_path, make_server, open_log,
}
use beast_lounge.Program.Listeners.{
  listeners_from, with_services, AllOpen, Fails, Escapes, FirstIs, Added, all_open, one_fails,
  one_escapes, add_listeners-Added,
}

module _ ⦃B : Boost⦄ (json : Accessors) (out : Outside) where
  open B use {Value}

  -- The steps of make_server() that have succeeded: the log is open; the server is configured; it is
  -- constructed.
  pub record LogOpens (jv : Value) : Type 0 where
    path : String
    log_path : logger_config json out jv ≡ returns path
    log_file_opens : out.log_file path ≡ none

  pub record Configured (jv : Value) (cfg : ServerConfig) : Type 0 where
    log : LogOpens jv
    server : Value
    has_server : member json out "server" jv ≡ some server
    server_object : is_object server ≡ true
    server_cfg : server_config json out server ≡ returns cfg

  pub record Built (jv : Value) (cfg : ServerConfig) : Type 0 where
    configured : Configured jv cfg
    constructs : out.construct cfg ≡ returns tt

  pub record Listed (jv : Value) (cfg : ServerConfig) (listeners : Value) : Type 0 where
    built : Built jv cfg
    has_listeners : member json out "listeners" jv ≡ some listeners
    listeners_array : is_array listeners ≡ true

  -- The first thing in the value that makes make_server() return null: what comes before has succeeded.
  pub data Rejected (jv : Value) : Type 0 where
    bad_log : (message : String) → logger_config json out jv ≡ throws_system message → Rejected jv
    log_shut :
        (path message : String)
        → logger_config json out jv ≡ returns path
        → out.log_file path ≡ some message
        → Rejected jv
    no_server : LogOpens jv → member json out "server" jv ≡ none → Rejected jv
    server_no_object :
        (server : Value)
        → LogOpens jv
        → member json out "server" jv ≡ some server
        → is_object server ≡ false
        → Rejected jv
    bad_server :
        (server : Value) (message : String)
        → LogOpens jv
        → member json out "server" jv ≡ some server
        → is_object server ≡ true
        → server_config json out server ≡ throws_system message
        → Rejected jv
    no_listeners :
        (cfg : ServerConfig) → Built jv cfg → member json out "listeners" jv ≡ none → Rejected jv
    listeners_no_array :
        (cfg : ServerConfig) (listeners : Value)
        → Built jv cfg
        → member json out "listeners" jv ≡ some listeners
        → is_array listeners ≡ false
        → Rejected jv
    listener_fails :
        (cfg : ServerConfig) (listeners : Value)
        → Listed jv cfg listeners
        → FirstIs json out (Fails json out) (json.get_array listeners)
        → Rejected jv

  -- Where another exception comes from, when what comes before has succeeded.
  pub data Thrown (jv : Value) : Type 0 where
    by_log : logger_config json out jv ≡ throws_other → Thrown jv
    by_server :
        (server : Value)
        → LogOpens jv
        → member json out "server" jv ≡ some server
        → is_object server ≡ true
        → server_config json out server ≡ throws_other
        → Thrown jv
    by_constructor :
        (cfg : ServerConfig) → Configured jv cfg → out.construct cfg ≡ throws_other → Thrown jv
    by_listeners :
        (cfg : ServerConfig) (listeners : Value)
        → Listed jv cfg listeners
        → FirstIs json out (Escapes json out) (json.get_array listeners)
        → Thrown jv

  module _ (ticks never : ℕ) where
    pub data Outcome (f : Value ⊎ String) : Made → Type 0 where
      no_json : (message : String) → f ≡ inr message → Outcome f null
      rejects : (jv : Value) → f ≡ inl jv → Rejected jv → Outcome f null
      leaves : (jv : Value) → f ≡ inl jv → Thrown jv → Outcome f escapes
      crashes :
          (jv : Value) (cfg : ServerConfig) (message : String)
          → f ≡ inl jv
          → Configured jv cfg
          → out.construct cfg ≡ throws_system message
          → Outcome f undefined
      made :
          (jv listeners : Value) (cfg : ServerConfig)
          → f ≡ inl jv
          → Listed jv cfg listeners
          → AllOpen json out (json.get_array listeners)
          → Outcome f (
              makes cfg (
                with_services
                  (0 ∷ listeners_from 1 (json.get_array listeners))
                  (new_server ticks never)))

    module _ (jv : Value) where
      with_listeners-Outcome :
          (cfg : ServerConfig)
          → Built jv cfg
          → (m : Option Value) → member json out "listeners" jv ≡ m
          → Outcome (inl jv) (with_listeners json out ticks never jv cfg m).0
      unfolding with_listeners insert
      with_listeners-Outcome cfg b none e = rejects jv refl (no_listeners cfg b e)
      with_listeners-Outcome cfg b (some listeners) e = elim (Bool-cases (is_array listeners)) [
        | inr other ↦ rw other (rejects jv refl (listeners_no_array cfg listeners b e other))
        | inl array ↦ rw array (
            ended array _ (
              add_listeners-Added json out cfg (json.get_array listeners) 1
                (insert 0 (new_server ticks never)).0 refl))
      ]
        where
          listed : is_array listeners ≡ true → Listed jv cfg listeners
          listed array = record { built = b; has_listeners = e; listeners_array = array }

          ended :
              is_array listeners ≡ true
              → (made : Made)
              → Added json out cfg
                  (json.get_array listeners)
                  1
                  (insert 0 (new_server ticks never)).0
                  made
              → Outcome (inl jv) made
          ended array _ (all_open h) = made jv listeners cfg refl (listed array) h
          ended array _ (one_fails h) =
              rejects jv refl (listener_fails cfg listeners (listed array) h)
          ended array _ (one_escapes h) =
              leaves jv refl (by_listeners cfg listeners (listed array) h)

      with_server-Outcome :
          (cfg : ServerConfig)
          → Configured jv cfg
          → (t : Throws (Unit {0})) → out.construct cfg ≡ t
          → Outcome (inl jv) (with_server json out ticks never jv cfg t).0
      unfolding with_server
      with_server-Outcome cfg c (returns tt) e =
          with_listeners-Outcome cfg (record { configured = c; constructs = e }) _ refl
      with_server-Outcome cfg c (throws_system message) e = crashes jv cfg message refl c e
      with_server-Outcome cfg c throws_other e = leaves jv refl (by_constructor cfg c e)

      with_config-Outcome :
          (server : Value)
          → LogOpens jv
          → member json out "server" jv ≡ some server
          → is_object server ≡ true
          → (t : Throws ServerConfig) → server_config json out server ≡ t
          → Outcome (inl jv) (with_config json out ticks never jv t).0
      unfolding with_config
      with_config-Outcome server l hs so (returns cfg) e =
          with_server-Outcome cfg
            (record {
              log = l;
              server = server;
              has_server = hs;
              server_object = so;
              server_cfg = e;
            })
            _ refl
      with_config-Outcome server l hs so (throws_system message) e =
          rejects jv refl (bad_server server message l hs so e)
      with_config-Outcome server l hs so throws_other e =
          leaves jv refl (by_server server l hs so e)

      with_member-Outcome :
          LogOpens jv
          → (m : Option Value) → member json out "server" jv ≡ m
          → Outcome (inl jv) (with_member json out ticks never jv m).0
      unfolding with_member
      with_member-Outcome l none e = rejects jv refl (no_server l e)
      with_member-Outcome l (some server) e = elim (Bool-cases (is_object server)) [
        | inr other ↦ rw other (rejects jv refl (server_no_object server l e other))
        | inl object ↦ rw object (with_config-Outcome server l e object _ refl)
      ]

      with_log-Outcome :
          (path : String)
          → logger_config json out jv ≡ returns path
          → (o : Option String) → out.log_file path ≡ o
          → Outcome (inl jv) (with_log json out ticks never jv (open_log o path)).0
      unfolding with_log open_log
      with_log-Outcome path lp none e =
          with_member-Outcome (record { path = path; log_path = lp; log_file_opens = e }) _ refl
      with_log-Outcome path lp (some message) e = rejects jv refl (log_shut path message lp e)

      with_path-Outcome :
          (t : Throws String)
          → logger_config json out jv ≡ t
          → Outcome (inl jv) (with_path json out ticks never jv t).0
      unfolding with_path
      with_path-Outcome (returns path) e = with_log-Outcome path e _ refl
      with_path-Outcome (throws_system message) e = rejects jv refl (bad_log message e)
      with_path-Outcome throws_other e = leaves jv refl (by_log e)

    -- make_server() makes a server if the file is JSON, the log opens, the configuration of the server and
    -- those of all listeners are right, and every listener opens; the server is idle then, with a service
    -- for the table and one for each listener, in their order. Else the file is no JSON, or the first step
    -- that does not succeed, all before it having succeeded, is: the path of the log, its file, the
    -- configuration of the server, its construction, the array of the listeners, or a listener, all before
    -- which open. Then it returns null, but an exception other than system_error leaves it; and if it is
    -- the constructor of the server that throws a system_error, its behaviour is undefined.
    pub make_server-Outcome :
        (f : Value ⊎ String) → Outcome f (make_server json out ticks never f).0
    unfolding make_server
    make_server-Outcome (inl jv) = with_path-Outcome jv _ refl
    make_server-Outcome (inr message) = no_json message refl
