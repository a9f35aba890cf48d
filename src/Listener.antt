-- ===== src/Listener.antt =====
-- The listener of server/core/listener.cpp, the detector of TLS, and the set of the sessions, in which
-- the constructors and destructors of all classes of sessions register them, in
-- server/core/http_session.cpp and server/core/ws_user.cpp too.
pub mod Tracked
pub mod Stops
use beast_lounge.Base.{
  ℕ, suc, ◌+◌, Bool, true, false, Option, none, some, List, [], ◌∷◌, ◌++◌, ◌==◌, if◌then◌else◌,
}
use beast_lounge.Boost.{Boost}
use beast_lounge.Http.Session.{
  IoError, Level, trace, info, end_of_stream, operation_aborted, stream_truncated, other_error,
}

-- listener_config::kind
pub data ConfigKind : Type 0 where
  no_tls allow_tls require_tls : ConfigKind

-- The classes of sessions.
pub data SessionKind : Type 0 where
  detector http https ws : SessionKind

-- fail(ec, what) of the listener and of the detector
unfoldable pub fail_level : IoError → Level
fail_level operation_aborted = trace
fail_level end_of_stream = info
fail_level stream_truncated = info
fail_level (other_error message) = info

-- The addresses of those that weak_ptr::lock() finds alive.
unfoldable pub locked : (ℕ → Bool) → List ℕ → List ℕ
locked alive [] = []
locked alive (p ∷ ps) = let rest = locked alive ps in if alive p then p ∷ rest else rest

module _ ⦃B : Boost⦄ where
  -- `sessions` is sessions_; `is_open` is that of the acceptor and `accepting` says whether an accept
  -- is outstanding. A session is known by its address, and `next` is the next one: `alive` says
  -- which were constructed and not destroyed, `launched` of which classes they were, and `stops` are
  -- the calls of on_stop(). `logged` are the levels of what fail() logs.
  pub record Listener : Type 0 where
    pub kind : ConfigKind
    pub is_open : Bool
    pub accepting : Bool
    pub sessions : B.FlatSet
    pub next : ℕ
    pub alive : ℕ → Bool
    pub launched : List SessionKind
    pub stops : List ℕ
    pub logged : List Level

  -- listener_impl(srv, cfg), and open() without an error
  abbrev pub new_listener : Listener
  new_listener = record {
    kind = allow_tls;
    is_open = true;
    accepting = false;
    sessions = B.empty;
    next = 0;
    alive = λ p. false;
    launched = [];
    stops = [];
    logged = [];
  }

  -- insert(p) and erase(p)
  abbrev pub register : ℕ → Listener → Listener
  register p s = record s { sessions = B.insert p s.sessions }

  abbrev pub unregister : ℕ → Listener → Listener
  unregister p s = record s { sessions = B.erase p s.sessions }

  -- The construction of a session, and its destruction
  unfoldable pub launch : SessionKind → Listener → Listener
  launch k s = register s.next (record s {
    next = suc s.next;
    alive = λ p. if p == s.next then true else s.alive p;
    launched = s.launched ++ k ∷ [];
  })

  unfoldable pub release_session : ℕ → Listener → Listener
  release_session p s = unregister p (record s { alive = λ q. if q == p then false else s.alive q })

  -- do_stop()
  unfoldable pub do_stop : Listener → Listener
  unfolding locked
  do_stop s = record s {
    is_open = false;
    sessions = B.empty;
    stops = s.stops ++ locked s.alive (B.elements s.sessions);
  }

  -- operator()(ec, sock), which is called with the result of an accept
  unfoldable pub on_accept : Option IoError → Listener → Listener
  unfolding launch fail_level
  on_accept (some e) s = record s { logged = s.logged ++ fail_level e ∷ [] }
  on_accept none s =
      if s.is_open
      then record (launch
          (elim s.kind [ no_tls ↦ http | allow_tls ↦ detector | require_tls ↦ https ]) s) {
            accepting = true;
          }
      else s

  -- operator()(ec, is_tls) of the detector `p`, which is destroyed then
  unfoldable pub on_detect : ℕ → Option IoError → Bool → Listener → Listener
  unfolding launch release_session fail_level
  on_detect p (some e) is_tls s =
      release_session p (record s { logged = s.logged ++ fail_level e ∷ [] })
  on_detect p none is_tls s = release_session p (launch (if is_tls then https else http) s)

  -- on_start()
  unfoldable pub on_start : Listener → Listener
  on_start s = record s { accepting = true }

  pub data ListenerEvent : Type 0 where
    starts stops_all : ListenerEvent
    accepts : Option IoError → ListenerEvent
    detects : ℕ → Option IoError → Bool → ListenerEvent
    upgrades ends : ℕ → ListenerEvent

  -- A session that upgrades has constructed a WebSocket session when it is destroyed.
  unfoldable pub step : Listener → ListenerEvent → Listener
  unfolding on_start do_stop on_accept on_detect launch release_session
  step s starts = on_start s
  step s stops_all = do_stop s
  step s (accepts ec) = if s.accepting then on_accept ec (record s { accepting = false }) else s
  step s (detects p ec is_tls) = if s.alive p then on_detect p ec is_tls s else s
  step s (upgrades p) = if s.alive p then release_session p (launch ws s) else s
  step s (ends p) = release_session p s

  unfoldable pub steps : List ListenerEvent → Listener → Listener
  unfolding step
  steps [] s = s
  steps (e ∷ es) s = steps es (step s e)
