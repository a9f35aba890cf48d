-- ===== src/Http/Session.antt =====
-- The classes http_session_base, plain_http_session_impl and ssl_http_session_impl of
-- server/core/http_session.cpp: the coroutine operator(), and what it asks of the stream and the log.
pub mod Served
use Prim.Native.String.{String}
use beast_lounge.Base.{ℕ, Bool, true, false, Option, none, some, List, [], ◌∷◌, ◌++◌, if◌then◌else◌}
use beast_lounge.Http.{Request, Response, Opened, Beast, handle_request}

-- The error codes that the session tells apart.
pub data IoError : Type 0 where
  end_of_stream operation_aborted stream_truncated : IoError
  other_error : String → IoError

pub data Level : Type 0 where
  trace info : Level

-- Which of the two classes the session is.
pub data Layer : Type 0 where
  plain ssl : Layer

-- What the session asks of its stream, its timer, the log and the server, in order.
pub data Act : Type 0 where
  expires_after : ℕ → Act
  expires_never async_read async_handshake shutdown_send async_shutdown close_socket : Act
  async_write : Response → Act
  run_ws_session : Request → Act
  logs : Level → String → Act

-- fail(ec, what) of the two classes
unfoldable pub plain_fail : IoError → String → List Act
plain_fail operation_aborted what = logs trace what ∷ []
plain_fail end_of_stream what = logs info what ∷ []
plain_fail stream_truncated what = logs info what ∷ []
plain_fail (other_error message) what = logs info what ∷ []

unfoldable pub ssl_fail : IoError → String → List Act
ssl_fail stream_truncated what = []
ssl_fail operation_aborted what = logs trace what ∷ []
ssl_fail end_of_stream what = logs info what ∷ []
ssl_fail (other_error message) what = logs info what ∷ []

abbrev pub fail : Layer → IoError → String → List Act
fail plain e what = plain_fail e what
fail ssl e what = ssl_fail e what

-- do_close() of the two classes
abbrev pub plain_close : List Act
plain_close = shutdown_send ∷ []

abbrev pub ssl_close : List Act
ssl_close = expires_after 30 ∷ async_shutdown ∷ []

abbrev pub do_close : Layer → List Act
do_close plain = plain_close
do_close ssl = ssl_close

-- Where the coroutine goes on.
pub data Resume : Type 0 where
  start reading writing complete : Resume

pub record Session : Type 0 where
  pub resume : Resume
  pub acts : List Act

abbrev pub new_session : Session
new_session = record { resume = start; acts = [] }

-- The arguments of a call of operator(), and what the parser holds then: the request, and whether
-- websocket::is_upgrade() is true of it.
pub record Completion : Type 0 where
  pub ec : Option IoError
  pub need_eof : Bool
  pub parsed : Request
  pub is_upgrade : Bool

abbrev pub asks : Session → Resume → List Act → Session
asks s resume more = record { resume = resume; acts = s.acts ++ more }

module _ (beast : Beast) (opens : String → Opened) (doc_root : String) (layer : Layer) where
  abbrev pub response_to : Request → Response
  response_to req = (handle_request beast opens doc_root req).1

  -- operator() from the read on, without an error
  unfoldable pub on_request : Completion → Session → Session
  on_request c s =
      if c.is_upgrade
      then asks s complete (expires_never ∷ run_ws_session c.parsed ∷ [])
      else asks s writing (async_write (response_to c.parsed) ∷ [])

  unfoldable pub on_read : Option IoError → Completion → Session → Session
  unfolding on_request plain_fail ssl_fail
  on_read none c s = on_request c s
  on_read (some end_of_stream) c s = asks s complete (do_close layer)
  on_read (some operation_aborted) c s =
      asks s complete (fail layer operation_aborted "http::async_read")
  on_read (some stream_truncated) c s =
      asks s complete (fail layer stream_truncated "http::async_read")
  on_read (some (other_error message)) c s =
      asks s complete (fail layer (other_error message) "http::async_read")

  -- operator() from the write on
  unfoldable pub on_write : Option IoError → Bool → Session → Session
  unfolding plain_fail ssl_fail
  on_write (some e) need_eof s = asks s complete (fail layer e "http::async_write")
  on_write none need_eof s = asks s complete (if need_eof then do_close layer else [])

  -- operator()(ec, bytes_transferred, need_eof)
  unfoldable pub operator : Completion → Session → Session
  unfolding on_read on_write
  operator c s = elim s.resume [
    | start ↦ asks s reading (expires_after 30 ∷ async_read ∷ [])
    | reading ↦ on_read c.ec c s
    | writing ↦ on_write c.ec c.need_eof s
    | complete ↦ s
  ]

  -- on_handshake(ec, bytes_transferred) and on_shutdown(ec) of a session over TLS, and do_run()
  unfoldable pub do_run : Session → Session
  do_run s = asks s s.resume (expires_after 30 ∷ async_handshake ∷ [])

  unfoldable pub on_handshake : Option IoError → Completion → Session → Session
  unfolding plain_fail ssl_fail operator
  on_handshake (some e) c s = asks s s.resume (fail layer e "async_handshake")
  on_handshake none c s = operator c s

  unfoldable pub on_shutdown : Option IoError → Session → Session
  unfolding plain_fail ssl_fail
  on_shutdown (some e) s = asks s s.resume (fail layer e "async_shutdown")
  on_shutdown none s = s

  -- do_stop()
  unfoldable pub do_stop : Session → Session
  do_stop s = asks s s.resume (close_socket ∷ [])

  -- The calls of operator(), one after the other.
  unfoldable pub calls : List Completion → Session → Session
  unfolding operator
  calls [] s = s
  calls (c ∷ cs) s = calls cs (operator c s)
