-- ===== src/Program/Listeners.antt =====
-- The loop of make_server of server/core/server.cpp over the listeners of the configuration.
use Prim.Native.String.{String}
use mathlib.Core.List.{append-nil, append_assoc}
use beast_lounge.Base.{
  ℕ, subst, suc, ◌≡◌, refl, sym, ap, ◌⊎◌, inl, inr, Bool, true, false, none, some, Option-cases,
  List, [], ◌∷◌, ◌++◌, if◌then◌else◌,
}
use beast_lounge.Boost.{Boost}
use beast_lounge.Server.{Server, insert}
use beast_lounge.Program.{
  Throws, returns, throws_system, throws_other, Acceptor, open_acceptor, ServerConfig,
  ListenerConfig, Made, makes, null, escapes, Accessors, Outside, listener_config, try_open,
  run_listener, add_listeners,
}

-- An acceptor of which no call fails.
pub record Opens (a : Acceptor) : Type 0 where
  no_open : a.open_ec ≡ none
  no_option : a.set_option_ec ≡ none
  no_bind : a.bind_ec ≡ none
  no_listen : a.listen_ec ≡ none

-- An acceptor of which open(), bind() or listen() is the first call to fail.
pub data Shuts (a : Acceptor) : Type 0 where
  shut_open : (message : String) → a.open_ec ≡ some message → Shuts a
  shut_bind :
      (message : String)
      → a.open_ec ≡ none
      → a.set_option_ec ≡ none
      → a.bind_ec ≡ some message
      → Shuts a
  shut_listen :
      (message : String)
      → a.open_ec ≡ none
      → a.set_option_ec ≡ none
      → a.bind_ec ≡ none
      → a.listen_ec ≡ some message
      → Shuts a

open_acceptor-cases :
    (a : Acceptor)
    → ((open_acceptor a ≡ (returns true, [])) × Opens a)
      ⊎ (((lines : List String) × (open_acceptor a ≡ (returns false, lines)) × Shuts a)
          ⊎ ((message : String) × (open_acceptor a ≡ (throws_system message, []))
              × (a.open_ec ≡ none)
              × (a.set_option_ec ≡ some message)))
unfolding open_acceptor
open_acceptor-cases a = elim (Option-cases a.open_ec) [
  | inr (m, e) ↦ rw e (inr (inl (_, refl, shut_open m refl)))
  | inl e ↦ elim (Option-cases a.set_option_ec) [
    | inr (m, o) ↦ rw (e, o) (inr (inr (m, refl, refl, refl)))
    | inl o ↦ elim (Option-cases a.bind_ec) [
      | inr (m, b) ↦ rw (e, o, b) (inr (inl (_, refl, shut_bind m refl refl refl)))
      | inl b ↦ elim (Option-cases a.listen_ec) [
        | inr (m, l) ↦ rw (e, o, b, l) (inr (inl (_, refl, shut_listen m refl refl refl refl)))
        | inl l ↦ inl (
          rw (e, o, b, l) refl,
          record { no_open = e; no_option = o; no_bind = b; no_listen = l },
        )
      ]
    ]
  ]
]

-- The services of a server with so many listeners, from the address `p` on.
abbrev pub listeners_from {ℓ} : {V : Type ℓ} → ℕ → List V → List ℕ
listeners_from p [] = []
listeners_from p (jv ∷ jvs) = p ∷ listeners_from (suc p) jvs

abbrev pub with_services : List ℕ → Server → Server
with_services ps srv = record srv { services = srv.services ++ ps }

pub Throws-cases :
    {A : Type 0} (t : Throws A)
    → ((a : A) × (t ≡ returns a)) ⊎ (((m : String) × (t ≡ throws_system m)) ⊎ (t ≡ throws_other))
Throws-cases (returns a) = inl (a, refl)
Throws-cases (throws_system m) = inr (inl (m, refl))
Throws-cases throws_other = inr (inr refl)

module _ ⦃B : Boost⦄ (json : Accessors) (out : Outside) where
  open B use {Value}

  -- A listener that is constructed and whose acceptor opens
  pub record Listens (lc : ListenerConfig) : Type 0 where
    constructed : out.construct_listener lc ≡ returns tt
    opened : Opens (out.acceptor lc)

  -- A listener whose constructor throws, whose acceptor does not open, or whose set_option() throws
  pub data Deaf (lc : ListenerConfig) : Type 0 where
    not_made : (message : String) → out.construct_listener lc ≡ throws_system message → Deaf lc
    shuts : out.construct_listener lc ≡ returns tt → Shuts (out.acceptor lc) → Deaf lc
    no_option :
        (message : String)
        → out.construct_listener lc ≡ returns tt
        → (out.acceptor lc).open_ec ≡ none
        → (out.acceptor lc).set_option_ec ≡ some message
        → Deaf lc

  -- Every element of the array is a configuration whose acceptor opens.
  pub data AllOpen : List Value → Type 0 where
    no_more : AllOpen []
    one_more :
        (jv : Value) (jvs : List Value) (lc : ListenerConfig)
        → listener_config json out jv ≡ returns lc
        → Listens lc
        → AllOpen jvs
        → AllOpen (jv ∷ jvs)

  -- A configuration that throws, or of a listener that does not open
  pub data Fails (jv : Value) : Type 0 where
    bad_listener :
        (message : String) → listener_config json out jv ≡ throws_system message → Fails jv
    deaf : (lc : ListenerConfig) → listener_config json out jv ≡ returns lc → Deaf lc → Fails jv

  -- A listener of which another exception comes.
  pub data Escapes (jv : Value) : Type 0 where
    by_config : listener_config json out jv ≡ throws_other → Escapes jv
    by_listener :
        (lc : ListenerConfig)
        → listener_config json out jv ≡ returns lc
        → out.construct_listener lc ≡ throws_other
        → Escapes jv

  -- The first element that is so, where all before it open.
  pub data FirstIs (P : Value → Type 0) : List Value → Type 0 where
    first_is : (jv : Value) (jvs : List Value) → P jv → FirstIs P (jv ∷ jvs)
    later_is :
        (jv : Value) (jvs : List Value) (lc : ListenerConfig)
        → listener_config json out jv ≡ returns lc
        → Listens lc
        → FirstIs P jvs
        → FirstIs P (jv ∷ jvs)

  -- How the loop over the listeners ends.
  pub data Added (cfg : ServerConfig) (jvs : List Value) (p : ℕ) (srv : Server)
      : Made → Type 0 where
    all_open :
        AllOpen jvs → Added cfg jvs p srv (makes cfg (with_services (listeners_from p jvs) srv))
    one_fails : FirstIs Fails jvs → Added cfg jvs p srv null
    one_escapes : FirstIs Escapes jvs → Added cfg jvs p srv escapes

  try_open-cases :
      (lc : ListenerConfig)
      → ((try_open json out lc ≡ (returns true, [])) × Listens lc)
        ⊎ (((lines : List String) × (try_open json out lc ≡ (returns false, lines)) × Deaf lc)
            ⊎ (((message : String) × (try_open json out lc ≡ (throws_system message, [])) × Deaf lc)
                ⊎ ((try_open json out lc ≡ (throws_other, []))
                    × (out.construct_listener lc ≡ throws_other))))
  unfolding try_open
  try_open-cases lc = elim (Throws-cases (out.construct_listener lc)) [
    | inr (inl (m, c)) ↦ inr (inr (inl (m, rw (c, try_open) refl, not_made m c)))
    | inr (inr c) ↦ inr (inr (inr (rw (c, try_open) refl, c)))
    | inl (_, c) ↦ elim (open_acceptor-cases (out.acceptor lc)) [
      | inl (o, h) ↦ inl (rw (c, try_open) o, record { constructed = c; opened = h })
      | inr (inl (lines, o, h)) ↦ inr (inl (lines, rw (c, try_open) o, shuts c h))
      | inr (inr (m, o, e, h)) ↦ inr (inr (inl (m, rw (c, try_open) o, no_option m c e h)))
    ]
  ]

  after :
      (cfg : ServerConfig) (jv : Value) (jvs : List Value) (lc : ListenerConfig) (p : ℕ)
      (srv : Server) (made : Made)
      → listener_config json out jv ≡ returns lc
      → Listens lc
      → Added cfg jvs (suc p) (with_services (p ∷ []) srv) made
      → Added cfg (jv ∷ jvs) p srv made
  after cfg jv jvs lc p srv made e o (all_open h) =
      subst (λ ps. Added cfg (jv ∷ jvs) p srv (makes cfg (record srv { services = ps })))
        (sym (append_assoc srv.services (p ∷ []) (listeners_from (suc p) jvs)))
        (all_open (one_more jv jvs lc e o h))
  after cfg jv jvs lc p srv made e o (one_fails h) = one_fails (later_is jv jvs lc e o h)
  after cfg jv jvs lc p srv made e o (one_escapes h) = one_escapes (later_is jv jvs lc e o h)

  listener_added :
      (lc : ListenerConfig) (p : ℕ) (srv : Server)
      → try_open json out lc ≡ (returns true, [])
      → srv.running ≡ false
      → (run_listener json out lc p srv).1 ≡ with_services (p ∷ []) srv
  unfolding run_listener insert
  listener_added lc p srv o idle =
      rw (o, run_listener)
        (ap (λ (r : Server × Bool). r.0) {x = insert p srv}
          (ap (λ b. if b then (srv, true) else (with_services (p ∷ []) srv, false)) idle))

  pub add_listeners-Added :
      (cfg : ServerConfig) (jvs : List Value) (p : ℕ) (srv : Server)
      → srv.running ≡ false
      → Added cfg jvs p srv (add_listeners json out cfg jvs p srv).0
  unfolding add_listeners run_listener insert
  add_listeners-Added cfg [] p srv idle =
      subst (λ ps. Added cfg [] p srv (makes cfg (record srv { services = ps })))
        (append-nil srv.services) (all_open no_more)
  add_listeners-Added cfg (jv ∷ jvs) p srv idle =
      elim (Throws-cases (listener_config json out jv)) [
        | inr (inl (m, e)) ↦ rw (e, add_listeners) (one_fails (first_is jv jvs (bad_listener m e)))
        | inr (inr e) ↦ rw (e, add_listeners) (one_escapes (first_is jv jvs (by_config e)))
        | inl (lc, e) ↦ elim (try_open-cases lc) [
          | inl (o, opens) ↦
              rw (e, o, add_listeners, run_listener)
                (after cfg jv jvs lc p srv _ e opens (
                  subst
                    (λ s.
                      Added cfg jvs (suc p) (with_services (p ∷ []) srv)
                        (add_listeners json out cfg jvs (suc p) s).0)
                    (sym (listener_added lc p srv o idle))
                    (add_listeners-Added cfg jvs (suc p) (with_services (p ∷ []) srv) idle)))
          | inr (inl (lines, o, h)) ↦
              rw (e, o, add_listeners, run_listener) (one_fails (first_is jv jvs (deaf lc e h)))
          | inr (inr (inl (m, o, h))) ↦
              rw (e, o, add_listeners, run_listener) (one_fails (first_is jv jvs (deaf lc e h)))
          | inr (inr (inr (o, h))) ↦
              rw (e, o, add_listeners, run_listener)
                (one_escapes (first_is jv jvs (by_listener lc e h)))
        ]
      ]
