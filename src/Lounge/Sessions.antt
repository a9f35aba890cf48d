-- ===== src/Lounge/Sessions.antt =====
-- The coroutine operator() of ws_session_base, server/core/ws_user.cpp, for all the sessions of a server,
-- whose calls come in any order: each reads, parses and serves the messages of its user.
pub mod Order
use Prim.Native.String.{String, ◌++◌}
use beast_lounge.Base.{
  ℕ, Bool, true, false, Option, none, some, List, [], ◌∷◌, ◌⊎◌, inl, inr, ◌==◌, if◌then◌else◌,
}
use beast_lounge.Boost.{Boost}
use beast_lounge.Http.Session.{
  IoError, end_of_stream, operation_aborted, stream_truncated, other_error, Level, trace, info,
}
use beast_lounge.Lounge.{Lounge}
use beast_lounge.Lounge.Dispatch.{on_message}
use beast_lounge.Lounge.Farewell.{destroy_user}

-- Where the coroutine of a session goes on.
pub data Stage : Type 0 where
  accepting reading complete : Stage

-- `buffer` is msg_, and `logged` what fail() logs.
pub record WsSession : Type 0 where
  pub stage : Stage
  pub buffer : String
  pub logged : List (Level × String)

abbrev pub new_ws_session : WsSession
new_ws_session = record { stage = accepting; buffer = ""; logged = [] }

-- fail(ec, what) of ws_session_base, which operator() calls for either class
unfoldable pub ws_fail_level : IoError → Level
ws_fail_level operation_aborted = trace
ws_fail_level end_of_stream = info
ws_fail_level stream_truncated = info
ws_fail_level (other_error message) = info

unfoldable pub ws_fail : IoError → String → WsSession → WsSession
unfolding ws_fail_level
ws_fail e what w = record w { stage = complete; logged = (ws_fail_level e, what) ∷ w.logged }

module _ ⦃B : Boost⦄ where
  open B use {Value}

  -- `parse` is json::parse(), or its error.
  module _ (parse : String → Value ⊎ IoError) where
    -- operator() from the parser on, of the user `u`: a message whose exception leaves operator() ends the
    -- coroutine; else the buffer is cleared and the next message is read.
    unfoldable pub on_parsed : ℕ → Value ⊎ IoError → WsSession → Lounge → WsSession × Lounge
    unfolding ws_fail on_message
    on_parsed u (inr e) w s = (ws_fail e "parse-json" w, s)
    on_parsed u (inl jv) w s =
        let (caught, s') = on_message u jv s in
        (if caught then record w { buffer = "" } else record w { stage = complete }, s')

    -- operator() where it goes on, when a read has put `bytes` behind the buffer
    unfoldable pub go_on :
        Stage → ℕ → Option IoError → String → WsSession → Lounge → WsSession × Lounge
    unfolding on_parsed
    go_on accepting u (some e) bytes w s = (ws_fail e "async_accept" w, s)
    go_on accepting u none bytes w s = (record w { stage = reading }, s)
    go_on reading u (some e) bytes w s =
        (ws_fail e "async_read" (record w { buffer = w.buffer ++ bytes }), s)
    go_on reading u none bytes w s =
        on_parsed u (parse (w.buffer ++ bytes)) (record w { buffer = w.buffer ++ bytes }) s
    go_on complete u ec bytes w s = (w, s)

    -- operator()(ec, bytes_transferred)
    abbrev pub on_call : ℕ → Option IoError → String → WsSession → Lounge → WsSession × Lounge
    on_call u ec bytes w s = go_on w.stage u ec bytes w s

    -- All the sessions, by their users, and what they share.
    pub record World : Type 0 where
      pub sessions : ℕ → WsSession
      pub lounge : Lounge

    -- A call of operator() of a user's session, or the end of a user, with whose address another session
    -- may begin.
    pub data WorldEvent : Type 0 where
      calls : ℕ → Option IoError → String → WorldEvent
      dies : ℕ → WorldEvent

    abbrev pub with_session : ℕ → WsSession → (ℕ → WsSession) → ℕ → WsSession
    with_session u w sessions v = if v == u then w else sessions v

    unfoldable pub take_turn : World → WorldEvent → World
    unfolding go_on destroy_user
    take_turn world (calls u ec bytes) =
        let (w, s) = on_call u ec bytes (world.sessions u) world.lounge in
        record { sessions = with_session u w world.sessions; lounge = s }
    take_turn world (dies u) = elim (destroy_user u world.lounge) [
      | none ↦ world
      | some s ↦ record { sessions = with_session u new_ws_session world.sessions; lounge = s }
    ]

    unfoldable pub take_turns : List WorldEvent → World → World
    unfolding take_turn
    take_turns [] world = world
    take_turns (e ∷ es) world = take_turns es (take_turn world e)
