-- ===== src/Program.antt =====
-- The start of the program: main() of server/core/main.cpp; parse_file, make_server and the configurations
-- of server/core/server.cpp; logger_config and open() of server/core/logger.cpp; and run_listener with
-- open() of server/core/listener.cpp. What is written to cerr() is a list of lines.
pub mod Files
pub mod Listeners
pub mod Making
use Prim.Native.String.{String, ◌++◌}
use beast_lounge.Base.{
  ℕ, suc, ◌⊎◌, inl, inr, Bool, true, false, not, ◌||◌, Option, none, some, List, [], ◌∷◌, ltb, ◌==◌,
  if◌then◌else◌,
}
use mathlib.Core.List
use beast_lounge.Boost.{Boost, Kind, object_kind, array_kind}
use beast_lounge.Server.{Server, new_server, insert, begin_run}

-- How a call ends: it returns, throws a beast::system_error, of this message, or another exception.
pub data Throws {ℓ} (A : Type ℓ) : Type ℓ where
  returns : A → Throws A
  throws_system : String → Throws A
  throws_other : Throws A

infixl 5 ◌>>=◌
abbrev pub ◌>>=◌ {ℓ κ} : {A : Type ℓ} {B : Type κ} → Throws A → (A → Throws B) → Throws B
returns a >>= f = f a
throws_system message >>= f = throws_system message
throws_other >>= f = throws_other

-- What the C library answers in parse_file(): whether each call succeeds, the position that ftell() gives,
-- and the bytes that fread() read.
pub record CFile : Type 0 where
  pub opened : Bool
  pub seeks_end : Bool
  pub position : Option ℕ
  pub seeks_start : Bool
  pub bytes : String
  pub read_error : Bool
  pub errno : String

-- What parse_file() does with the file and with memory, in order.
pub data FileAct : Type 0 where
  fopen fclose : FileAct
  allocates : ℕ → FileAct
  frees : FileAct

-- parse_file(path, ec), where new[] succeeds: what it does, and the value or the error code. `parse` is
-- json::parse().
unfoldable pub parse_file {ℓ} :
    {V : Type ℓ} → (String → V ⊎ String) → CFile → List FileAct × (V ⊎ String)
parse_file parse f =
    if not f.opened
    then ([], inr f.errno)
    else if not f.seeks_end
    then (fopen ∷ fclose ∷ [], inr f.errno)
    else elim f.position [
      | none ↦ (fopen ∷ fclose ∷ [], inr f.errno)
      | some size ↦
          if not f.seeks_start
          then (fopen ∷ fclose ∷ [], inr f.errno)
          else if f.read_error
          then (fopen ∷ allocates size ∷ fclose ∷ [], inr f.errno)
          else (fopen ∷ allocates size ∷ frees ∷ fclose ∷ [], parse f.bytes)
    ]

-- logger_impl::open(cfg): whether it succeeds, and what it prints; `none` is a file that opens.
unfoldable pub open_log : Option String → String → Bool × List String
open_log none path = (true, [])
open_log (some message) path = (false, ("logger::open \"" ++ path ++ "\": " ++ message) ∷ [])

-- The results of the calls of the acceptor; that of set_option() is the error that it throws.
pub record Acceptor : Type 0 where
  pub open_ec : Option String
  pub set_option_ec : Option String
  pub bind_ec : Option String
  pub listen_ec : Option String

-- listener_impl::open()
unfoldable pub open_acceptor : Acceptor → Throws Bool × List String
open_acceptor a = elim a.open_ec [
  | some message ↦ (returns false, ("acceptor_.open: " ++ message) ∷ [])
  | none ↦ elim a.set_option_ec [
    | some message ↦ (throws_system message, [])
    | none ↦ elim a.bind_ec [
      | some message ↦ (returns false, ("acceptor_.bind: " ++ message) ∷ [])
      | none ↦ elim a.listen_ec [
        | some message ↦ (returns false, ("acceptor_.listen: " ++ message) ∷ [])
        | none ↦ (returns true, [])
      ]
    ]
  ]
]

pub record ServerConfig : Type 0 where
  pub num_threads : ℕ
  pub doc_root : String

pub record ListenerConfig : Type 0 where
  pub name : String
  pub address : String
  pub port_num : ℕ

-- What make_server() returns: a server, or null; or an exception leaves it, or its behaviour is undefined.
pub data Made : Type 0 where
  makes : ServerConfig → Server → Made
  null escapes undefined : Made

-- A call that ends early, with what it printed.
abbrev pub printing : List String → Made × List String → Made × List String
printing lines (made, more) = (made, List.◌++◌ lines more)

module _ ⦃B : Boost⦄ where
  open B use {Value, kind, find}

  -- The functions of json::value that throw: at(), as_string(), number_cast to unsigned and to
  -- unsigned short, and value_cast to an address; and get_array().
  pub record Accessors : Type 0 where
    pub at : String → Value → Throws Value
    pub as_string : Value → Throws String
    pub to_unsigned : Value → Throws ℕ
    pub to_port : Value → Throws ℕ
    pub to_address : Value → Throws String
    pub get_array : Value → List Value
    -- The message of json::error::not_object
    pub not_object : String

  -- What the outside does: the log file, the constructors of server_impl and of listener_impl, which loads
  -- the certificate, and the acceptor of a listener.
  pub record Outside : Type 0 where
    pub log_file : String → Option String
    pub construct : ServerConfig → Throws (Unit {0})
    pub construct_listener : ListenerConfig → Throws (Unit {0})
    pub acceptor : ListenerConfig → Acceptor

  abbrev pub is_object : Value → Bool
  is_object jv = elim (kind jv) [ object_kind ↦ true | _ ↦ false ]

  abbrev pub is_array : Value → Bool
  is_array jv = elim (kind jv) [ array_kind ↦ true | _ ↦ false ]

  module _ (json : Accessors) (out : Outside) where
    unfoldable pub logger_config : Value → Throws String
    logger_config jv = do log ← json.at "log" jv; path ← json.at "path" log; json.as_string path

    unfoldable pub server_config : Value → Throws ServerConfig
    server_config jv = do
      threads ← json.at "threads" jv
      num_threads ← json.to_unsigned threads
      root ← json.at "doc-root" jv
      doc_root ← json.as_string root
      returns (record {
        num_threads = if ltb num_threads 1 then 1 else num_threads;
        doc_root = doc_root;
      })

    unfoldable pub listener_config : Value → Throws ListenerConfig
    listener_config jv = do
      n ← json.at "name" jv
      name ← json.as_string n
      a ← json.at "address" jv
      address ← json.to_address a
      p ← json.at "port_num" jv
      port_num ← json.to_port p
      returns (record { name = name; address = address; port_num = port_num })

    -- The member of that key, if jv is an object that contains it.
    abbrev pub member : String → Value → Option Value
    member key jv = if is_object jv then find key jv else none

    -- The constructor of listener_impl, and open()
    unfoldable pub try_open : ListenerConfig → Throws Bool × List String
    unfolding open_acceptor
    try_open cfg = elim (out.construct_listener cfg) [
      | returns _ ↦ open_acceptor (out.acceptor cfg)
      | throws_system message ↦ (throws_system message, [])
      | throws_other ↦ (throws_other, [])
    ]

    -- run_listener(srv, cfg): how it ends, the server, to which the listener is added at `p` whether it
    -- opens or not, and what is printed
    unfoldable pub run_listener : ListenerConfig → ℕ → Server → Throws Bool × Server × List String
    unfolding try_open insert
    run_listener cfg p srv =
        let (ended, lines) = try_open cfg in
        elim ended [
          | returns opens ↦ (returns opens, (insert p srv).0, lines)
          | throws_system message ↦ (throws_system message, srv, lines)
          | throws_other ↦ (throws_other, srv, lines)
        ]

    -- The loop over the listeners, of which the next is at `p`.
    unfoldable pub add_listeners : ServerConfig → List Value → ℕ → Server → Made × List String
    unfolding listener_config run_listener
    add_listeners cfg List.[] p srv = (makes cfg srv, [])
    add_listeners cfg (List.◌∷◌ jv jvs) p srv = elim (listener_config jv) [
      | throws_system message ↦ (null, ("listener_config: " ++ message) ∷ [])
      | throws_other ↦ (escapes, [])
      | returns lc ↦
          let (ended, srv', lines) = run_listener lc p srv in
          elim ended [
            | returns true ↦ printing lines (add_listeners cfg jvs (suc p) srv')
            | returns false ↦ (null, lines)
            | throws_system message ↦ printing lines (null, ("listener_config: " ++ message) ∷ [])
            | throws_other ↦ (escapes, lines)
          ]
    ]

    -- The rest of make_server(), from the listeners backwards. `never` is time_point::max().
    module _ (ticks never : ℕ) where
      unfoldable pub with_listeners : Value → ServerConfig → Option Value → Made × List String
      unfolding add_listeners insert
      with_listeners jv cfg none = (null, [])
      with_listeners jv cfg (some listeners) =
          if is_array listeners
          then add_listeners cfg (json.get_array listeners) 1 (insert 0 (new_server ticks never)).0
          else (null, [])

      unfoldable pub with_server : Value → ServerConfig → Throws (Unit {0}) → Made × List String
      unfolding with_listeners
      with_server jv cfg (returns _) = with_listeners jv cfg (member "listeners" jv)
      with_server jv cfg (throws_system message) = (undefined, [])
      with_server jv cfg throws_other = (escapes, [])

      unfoldable pub with_config : Value → Throws ServerConfig → Made × List String
      unfolding with_server
      with_config jv (returns cfg) = with_server jv cfg (out.construct cfg)
      with_config jv (throws_system message) = (null, ("server_config: " ++ message) ∷ [])
      with_config jv throws_other = (escapes, [])

      unfoldable pub with_member : Value → Option Value → Made × List String
      unfolding with_config server_config
      with_member jv none = (null, ("server_config: " ++ json.not_object) ∷ [])
      with_member jv (some server) =
          if is_object server
          then with_config jv (server_config server)
          else (null, ("server_config: " ++ json.not_object) ∷ [])

      unfoldable pub with_log : Value → Bool × List String → Made × List String
      unfolding with_member
      with_log jv (true, lines) = printing lines (with_member jv (member "server" jv))
      with_log jv (false, lines) = (null, lines)

      unfoldable pub with_path : Value → Throws String → Made × List String
      unfolding with_log open_log
      with_path jv (returns path) = with_log jv (open_log (out.log_file path) path)
      with_path jv (throws_system message) = (null, ("logger_config: " ++ message) ∷ [])
      with_path jv throws_other = (escapes, [])

      -- make_server(config_path, log), of a file that gave this value or error
      unfoldable pub make_server : Value ⊎ String → Made × List String
      unfolding with_path logger_config
      make_server (inl jv) = with_path jv (logger_config jv)
      make_server (inr message) = (null, ("json::parse_file: " ++ message) ∷ [])

      -- main(argc, argv): the server that runs, or none and EXIT_FAILURE; an exception that leaves it is
      -- `escapes`.
      unfoldable pub main : ℕ → (String → Value ⊎ String) → CFile → Made × List String
      unfolding make_server parse_file begin_run
      main argc parse f =
          if not (argc == 2)
          then (null, "Usage: lounge-server <config-path>" ∷ [])
          else let (made, lines) = make_server (parse_file parse f).1 in
            (
              elim made [
                | makes cfg srv ↦ makes cfg (begin_run srv).0
                | null ↦ null
                | escapes ↦ escapes
                | undefined ↦ undefined
              ],
              lines,
            )
