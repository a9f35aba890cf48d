-- ===== src/Lounge/Sessions/Order.antt =====
-- The sessions of server/core/ws_user.cpp in any order of their calls.
use Prim.Native.String.{String}
use beast_lounge.Base.{
  ℕ, ◌≡◌, ◌⊎◌, inl, inr, refl, sym, ap, subst, ◌∙◌, Bool, true, false, Option, none, some, List, [],
  ◌∷◌, ◌==◌, if◌then◌else◌,
}
use beast_lounge.Boost.{Boost}
use beast_lounge.Http.Session.{IoError}
use beast_lounge.Lounge.{Lounge}
use beast_lounge.Lounge.Dispatch.{on_message}
use beast_lounge.Lounge.Links.{Linked}
use beast_lounge.Lounge.Serving.{on_message-Linked}
use beast_lounge.Lounge.Farewell.{destroy_user_lem}
use beast_lounge.Lounge.Sessions.{
  Stage, accepting, reading, complete, WsSession, new_ws_session, ws_fail, on_parsed, go_on, World,
  WorldEvent, calls, dies, with_session, take_turn, take_turns,
}

-- A session is over, or nothing of an earlier message is in its buffer.
pub data Clean (w : WsSession) : Type 0 where
  over : w.stage ≡ complete → Clean w
  cleared : w.buffer ≡ "" → Clean w

if-Clean : (b : Bool) {v w : WsSession} → Clean v → Clean w → Clean (if b then v else w)
if-Clean true hv hw = hv
if-Clean false hv hw = hw

module _ ⦃B : Boost⦄ (parse : String → B.Value ⊎ IoError) where
  -- What one call keeps.
  Kept : WsSession × Lounge → Type 0
  Kept r = Clean (r.0) × Linked (r.1)

  on_parsed-Kept :
      (u : ℕ) (p : B.Value ⊎ IoError) (w : WsSession) (s : Lounge)
      → Linked s
      → Kept (on_parsed parse u p w s)
  unfolding on_parsed ws_fail Kept
  on_parsed-Kept u (inr e) w s l = (over refl, l)
  on_parsed-Kept u (inl jv) w s l =
      (if-Clean (on_message u jv s).0 (cleared refl) (over refl), on_message-Linked u jv s l)

  go_on-Kept :
      (t : Stage) (u : ℕ) (ec : Option IoError) (bytes : String) (w : WsSession) (s : Lounge)
      → w.stage ≡ t
      → Clean w
      → Linked s
      → Kept (go_on parse t u ec bytes w s)
  unfolding go_on Kept ws_fail
  go_on-Kept accepting u (some e) bytes w s at_stage h l = (over refl, l)
  go_on-Kept accepting u none bytes w s at_stage (over c) l =
      let e : accepting ≡ complete = sym at_stage ∙ c in absurd cc
  go_on-Kept accepting u none bytes w s at_stage (cleared b) l = (cleared b, l)
  go_on-Kept reading u (some e) bytes w s at_stage h l = (over refl, l)
  go_on-Kept reading u none bytes w s at_stage h l = on_parsed-Kept u _ _ s l
  go_on-Kept complete u ec bytes w s at_stage h l = (h, l)

  -- The channels and the users of the server are linked, and every session is clean.
  pub record Orderly (world : World parse) : Type 0 where
    pub linked : Linked world.lounge
    pub clean : (v : ℕ) → Clean (world.sessions v)

  with_session-Clean :
      (u : ℕ) (w : WsSession) (sessions : ℕ → WsSession)
      → Clean w
      → ((v : ℕ) → Clean (sessions v))
      → (v : ℕ) → Clean (with_session parse u w sessions v)
  with_session-Clean u w sessions h hs v = if-Clean (v == u) h (hs v)

  take_turn-Orderly :
      (world : World parse) (e : WorldEvent parse)
      → Orderly world
      → Orderly (take_turn parse world e)
  unfolding take_turn Kept
  take_turn-Orderly world (calls u ec bytes) h =
      let (c, l) =
        go_on-Kept (world.sessions u).stage u ec bytes (world.sessions u) world.lounge refl
          (h.clean u) h.linked in
      record { linked = l; clean = with_session-Clean u _ world.sessions c h.clean }
  take_turn-Orderly world (dies u) h =
      let (s', e, left) = destroy_user_lem u world.lounge h.linked in
      subst Orderly (sym (ap after e)) record {
        linked = left.still_linked;
        clean = with_session-Clean u new_ws_session world.sessions (cleared refl) h.clean;
      }
    where
      after : Option Lounge → World parse
      after o = elim o [
        | none ↦ world
        | some s ↦ record {
          sessions = with_session parse u new_ws_session world.sessions;
          lounge = s;
        }
      ]

  -- Whatever the sessions of all users read, in any order of their calls, and whenever users go away:
  -- the channels and the users stay linked, and no session that reads on has anything of an earlier
  -- message in its buffer.
  pub take_turns-Orderly :
      (es : List (WorldEvent parse)) (world : World parse)
      → Orderly world
      → Orderly (take_turns parse es world)
  unfolding take_turns
  take_turns-Orderly [] world h = h
  take_turns-Orderly (e ∷ es) world h =
      take_turns-Orderly es (take_turn parse world e) (take_turn-Orderly world e h)
