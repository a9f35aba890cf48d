-- ===== src/Server.antt =====
-- The class `server_impl` of server/core/server.cpp, and `ceil` of server/core/utility.hpp. Time is
-- counted in ticks of the clock since its epoch. What happens on the strand is an event, with the
-- time that the clock shows; the main thread enters run() and leaves it after stop().
pub mod Countdown
pub mod Keeps
pub mod Life
use beast_lounge.Base.{
  ℕ, suc, ◌+◌, ◌-◌, ◌*◌, Bool, true, false, ◌&&◌, List, [], ◌∷◌, ◌++◌, map, ltb, ◌==◌,
  if◌then◌else◌,
}
use Prim.Native.Nat.{◌/◌}

-- The calls of the services, which are known by their address.
pub data ServiceCall : Type 0 where
  started ended : ℕ → ServiceCall

-- `services` is services_ and `stopped` is stop_; `in_run` says whether the main thread is in run().
-- `armed` and `capturing` say whether a wait for the timer or for a signal is outstanding, and
-- `announced` are the seconds of the messages that on_timer() sent to the system channel.
pub record Server : Type 0 where
  pub services : List ℕ
  pub running : Bool
  pub in_run : Bool
  pub stopped : Bool
  pub shutdown_time : ℕ
  pub expiry : ℕ
  pub armed : Bool
  pub capturing : Bool
  pub calls : List ServiceCall
  pub announced : List ℕ

-- insert(sp), and whether it throws std::logic_error
unfoldable pub insert : ℕ → Server → Server × Bool
insert sp s =
    if s.running then (s, true) else (record s { services = s.services ++ sp ∷ [] }, false)

-- run() up to the wait for stop(), and whether it throws std::logic_error
unfoldable pub begin_run : Server → Server × Bool
begin_run s = if s.running then (s, true) else (
  record s {
    running = true;
    in_run = true;
    calls = s.calls ++ map started s.services;
    capturing = true;
  },
  false,
)

-- run() from where cv_ is notified: it goes on if stop_ is set.
unfoldable pub end_run : Server → Server
end_run s =
    if s.in_run && s.stopped
    then record s { in_run = false; services = []; calls = s.calls ++ map ended s.services }
    else s

-- stop(), on the strand
unfoldable pub stop : Server → Server
stop s = if s.stopped then s else record s { stopped = true }

-- What the timer waits for, of so many seconds that remain: at most 10.
abbrev pub pause : ℕ → ℕ
pause remain = if ltb 10 remain then 10 else remain

-- The calls of the server, and the handlers of the timer and the signals, with the time and whether
-- they were aborted.
pub data ServerEvent : Type 0 where
  inserts : ℕ → ServerEvent
  runs stops resumes : ServerEvent
  shuts_down : ℕ → ℕ → ServerEvent
  timer signal : ℕ → Bool → ServerEvent

-- ceil<seconds>(d), where `ticks` is the number of ticks of a second
unfoldable pub ceil : ℕ → ℕ → ℕ
ceil ticks d = let t = d / ticks in if ltb (t * ticks) d then t + 1 else t

-- `ticks` is the number of ticks of a second, and `never` is time_point::max().
module _ (ticks never : ℕ) where
  -- never() for both times
  abbrev pub new_server : Server
  new_server = record {
    services = [];
    running = false;
    in_run = false;
    stopped = false;
    shutdown_time = never;
    expiry = never;
    armed = false;
    capturing = false;
    calls = [];
    announced = [];
  }

  -- on_timer(ec) without an error. A difference below 0 counts as 0: on_timer() treats them alike.
  unfoldable pub on_timer : ℕ → Server → Server
  unfolding stop
  on_timer now s =
      let remain = ceil ticks (s.shutdown_time - now) in
      if remain == 0 then stop s else record s {
        announced = s.announced ++ remain ∷ [];
        expiry = now + pause remain * ticks;
        armed = true;
      }

  -- shutdown(cooldown), on the strand
  unfoldable pub shutdown : ℕ → ℕ → Server → Server
  unfolding on_timer
  shutdown now cooldown s =
      if s.expiry == never
      then on_timer now (record s { shutdown_time = now + cooldown * ticks })
      else s

  -- on_signal(ec, signum) without operation_aborted
  unfoldable pub on_signal : ℕ → Server → Server
  unfolding shutdown stop
  on_signal now s =
      if s.expiry == never then shutdown now 30 (record s { capturing = true }) else stop s

  unfoldable pub happen : Server → ServerEvent → Server
  unfolding insert begin_run end_run stop on_timer shutdown on_signal
  happen s (inserts sp) = (insert sp s).0
  happen s runs = (begin_run s).0
  happen s stops = stop s
  happen s resumes = end_run s
  happen s (shuts_down now cooldown) = shutdown now cooldown s
  happen s (timer now aborted) =
      let s' = record s { armed = false } in if aborted then s' else on_timer now s'
  happen s (signal now aborted) =
      let s' = record s { capturing = false } in if aborted then s' else on_signal now s'

  unfoldable pub history : List ServerEvent → Server → Server
  unfolding happen
  history [] s = s
  history (e ∷ es) s = history es (happen s e)
