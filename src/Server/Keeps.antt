-- ===== src/Server/Keeps.antt =====
-- What the handlers of the timer and the signals of server/core/server.cpp leave alone.
use beast_lounge.Base.{ℕ, ◌-◌, ◌+◌, ◌*◌, ◌≡◌, refl, Bool, true, false, if◌then◌else◌, ◌==◌}
use beast_lounge.Server.{Server, stop, ceil, timer, signal, on_timer, shutdown, on_signal, happen}

-- The handlers of the timer and the signals leave the services alone, and never undo a stop().
pub record Keeps (s s' : Server) : Type 0 where
  pub same_services : s'.services ≡ s.services
  pub same_running : s'.running ≡ s.running
  pub same_in_run : s'.in_run ≡ s.in_run
  pub same_calls : s'.calls ≡ s.calls
  pub still : s.stopped ≡ true → s'.stopped ≡ true

pub Keeps-refl : (s : Server) → Keeps s s
Keeps-refl s = record {
  same_services = refl;
  same_running = refl;
  same_in_run = refl;
  same_calls = refl;
  still = λ e. e;
}

pub Keeps-if :
    {s : Server} (b : Bool) {x y : Server} → Keeps s x → Keeps s y → Keeps s (if b then x else y)
Keeps-if true hx hy = hx
Keeps-if false hx hy = hy

module _ (ticks never : ℕ) where
  pub stop-Keeps : (s : Server) → Keeps s (stop s)
  unfolding stop
  stop-Keeps s = Keeps-if s.stopped (Keeps-refl s) record {
    same_services = refl;
    same_running = refl;
    same_in_run = refl;
    same_calls = refl;
    still = λ e. refl;
  }

  pub on_timer-Keeps : (now : ℕ) (s : Server) → Keeps s (on_timer ticks never now s)
  unfolding on_timer
  on_timer-Keeps now s = Keeps-if (ceil ticks (s.shutdown_time - now) == 0) (stop-Keeps s) record {
    same_services = refl;
    same_running = refl;
    same_in_run = refl;
    same_calls = refl;
    still = λ e. e;
  }

  pub shutdown-Keeps :
      (now cooldown : ℕ) (s : Server) → Keeps s (shutdown ticks never now cooldown s)
  unfolding shutdown
  shutdown-Keeps now cooldown s =
      Keeps-if (s.expiry == never)
        (let k = on_timer-Keeps now (record s { shutdown_time = now + cooldown * ticks }) in
          record {
            same_services = k.same_services;
            same_running = k.same_running;
            same_in_run = k.same_in_run;
            same_calls = k.same_calls;
            still = k.still;
          })
        (Keeps-refl s)

  pub on_signal-Keeps : (now : ℕ) (s : Server) → Keeps s (on_signal ticks never now s)
  unfolding on_signal
  on_signal-Keeps now s =
      Keeps-if (s.expiry == never)
        (let k = shutdown-Keeps now 30 (record s { capturing = true }) in
          record {
            same_services = k.same_services;
            same_running = k.same_running;
            same_in_run = k.same_in_run;
            same_calls = k.same_calls;
            still = k.still;
          })
        (stop-Keeps s)

  -- The handlers other than insert() and those of run().
  pub timer-Keeps :
      (now : ℕ) (aborted : Bool) (s : Server) → Keeps s (happen ticks never s (timer now aborted))
  unfolding happen
  timer-Keeps now aborted s =
      Keeps-if aborted (unarmed (Keeps-refl _)) (unarmed (on_timer-Keeps now _))
    where
      unarmed : {s' : Server} → Keeps (record s { armed = false }) s' → Keeps s s'
      unarmed k = record {
        same_services = k.same_services;
        same_running = k.same_running;
        same_in_run = k.same_in_run;
        same_calls = k.same_calls;
        still = k.still;
      }

  pub signal-Keeps :
      (now : ℕ) (aborted : Bool) (s : Server) → Keeps s (happen ticks never s (signal now aborted))
  unfolding happen
  signal-Keeps now aborted s =
      Keeps-if aborted (uncaught (Keeps-refl _)) (uncaught (on_signal-Keeps now _))
    where
      uncaught : {s' : Server} → Keeps (record s { capturing = false }) s' → Keeps s s'
      uncaught k = record {
        same_services = k.same_services;
        same_running = k.same_running;
        same_in_run = k.same_in_run;
        same_calls = k.same_calls;
        still = k.still;
      }
