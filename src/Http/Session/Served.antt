-- ===== src/Http/Session/Served.antt =====
-- What an HTTP session of server/core/http_session.cpp does in its life.
use Prim.Native.String.{String}
use beast_lounge.Base.{List, [], ◌∷◌}
use beast_lounge.Http.{Request, Opened, Beast}
use beast_lounge.Http.Session.{
  IoError, Layer, Act, expires_after, expires_never, async_read, async_write, run_ws_session, fail,
  do_close, reading, writing, complete, Session, new_session, response_to,
}

module _ (beast : Beast) (opens : String → Opened) (doc_root : String) (layer : Layer) where
  abbrev written : Request → Act
  written req = async_write (response_to beast opens doc_root layer req)

  -- How a session ends, after its only read.
  pub data Ends : List Act → Type 0 where
    closed : Ends (do_close layer)
    read_fails : (e : IoError) → Ends (fail layer e "http::async_read")
    upgrades : (req : Request) → Ends (expires_never ∷ run_ws_session req ∷ [])
    write_fails :
        (req : Request) (e : IoError) → Ends (written req ∷ fail layer e "http::async_write")
    answers_closes : (req : Request) → Ends (written req ∷ do_close layer)
    answers_only : (req : Request) → Ends (written req ∷ [])

  pub data Served : Session → Type 0 where
    fresh : Served new_session
    asked : Served (record { resume = reading; acts = expires_after 30 ∷ async_read ∷ [] })
    answering :
        (req : Request)
        → Served
            (record { resume = writing; acts = expires_after 30 ∷ async_read ∷ written req ∷ [] })
    ended :
        (acts : List Act)
        → Ends acts
        → Served (record { resume = complete; acts = expires_after 30 ∷ async_read ∷ acts })
