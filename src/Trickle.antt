-- ===== src/Trickle.antt =====
-- model/rpl-trickle-timer.cc: the Trickle algorithm. Times are nanoseconds. A pending timer is
-- `some` of the delay it was scheduled with; both timers of an interval are scheduled at its start.
-- The random variable is the function `draw`, from the bounds of GetValue() to the value picked.
pub mod Validity
pub mod Doubling
pub mod Suppression
mod Runs
use rpl.Base.{
  ℕ, zero, suc, ◌+◌, ◌*◌, ◌/◌, ◌%◌, ◌^◌, min, Bool, true, false, not, ◌||◌, ◌&&◌, Option, none,
  some, ◌≡◌, ◌<◌, ltb, ◌==◌, if◌then◌else◌,
}

pub record TrickleTimer : Type 0 where
  pub interval_min : ℕ
  pub interval_max : ℕ
  pub interval : ℕ
  pub redundancy : ℕ
  pub counter : ℕ
  pub running : Bool
  pub transmit_timer : Option ℕ
  pub interval_timer : Option ℕ
  pub has_callback : Bool

abbrev second : ℕ
second = 1_000_000_000

-- The constructor.
unfoldable pub init : TrickleTimer
init = record {
  interval_min = second;
  interval_max = second;
  interval = second;
  redundancy = 0;
  counter = 0;
  running = false;
  transmit_timer = none;
  interval_timer = none;
  has_callback = false;
}

unfoldable pub set_parameters : TrickleTimer → ℕ → ℕ → ℕ → TrickleTimer
set_parameters t interval_min doublings redundancy = record t {
  interval_min = interval_min;
  interval_max = interval_min * 2 ^ doublings;
  redundancy = redundancy;
}

unfoldable pub set_function : TrickleTimer → TrickleTimer
set_function t = record t { has_callback = true }

module _ (draw : ℕ → ℕ → ℕ) where
  -- Cancels and schedules both timers anew.
  unfoldable pub new_interval : TrickleTimer → TrickleTimer
  new_interval t = record t {
    counter = 0;
    transmit_timer = some (draw (t.interval / 2) t.interval);
    interval_timer = some t.interval;
  }

  unfoldable pub start : TrickleTimer → TrickleTimer
  unfolding new_interval
  start t = new_interval (record t { running = true; interval = t.interval_min })

  unfoldable pub reset : TrickleTimer → TrickleTimer
  unfolding new_interval
  reset t =
      if not t.running || t.interval == t.interval_min
      then t
      else new_interval (record t { interval = t.interval_min })

  -- The interval timer has fired: it is no longer pending.
  unfoldable pub interval_event : TrickleTimer → TrickleTimer
  unfolding new_interval
  interval_event t =
      new_interval (record t {
        interval = min (t.interval + t.interval) t.interval_max;
        interval_timer = none;
      })

unfoldable pub stop : TrickleTimer → TrickleTimer
stop t = record t { running = false; transmit_timer = none; interval_timer = none }

-- `m_counter` is a uint16_t.
unfoldable pub consistency_hit : TrickleTimer → TrickleTimer
consistency_hit t = record t { counter = (t.counter + 1) % 65536 }

-- The transmit timer has fired; the result says whether the callback is called.
unfoldable pub transmit_event : TrickleTimer → TrickleTimer × Bool
transmit_event t = (
  record t { transmit_timer = none },
  (t.redundancy == 0 || ltb t.counter t.redundancy) && t.has_callback,
)

unfoldable pub is_running : TrickleTimer → Bool
is_running t = t.running

unfoldable pub get_interval : TrickleTimer → ℕ
get_interval t = t.interval

-- What callers and the simulator's clock can do. A timer fires only while it is pending; the callers
-- in the routing protocol set the parameters, with an Imin above 0, only of a timer that they have just
-- made, which is not running.
pub data Step (draw : ℕ → ℕ → ℕ) : TrickleTimer → TrickleTimer → Type 0 where
  configures :
      (t : TrickleTimer) (m k r : ℕ)
      → t.running ≡ false
      → 0 < m
      → Step draw t (set_parameters t m k r)
  calls : (t : TrickleTimer) → Step draw t (set_function t)
  starts : (t : TrickleTimer) → Step draw t (start draw t)
  stops : (t : TrickleTimer) → Step draw t (stop t)
  resets : (t : TrickleTimer) → Step draw t (reset draw t)
  hears : (t : TrickleTimer) → Step draw t (consistency_hit t)
  transmits :
      (t : TrickleTimer) (d : ℕ) → t.transmit_timer ≡ some d → Step draw t (transmit_event t).0
  ends :
      (t : TrickleTimer) (d : ℕ) → t.interval_timer ≡ some d → Step draw t (interval_event draw t)

pub data Reach (draw : ℕ → ℕ → ℕ) (s : TrickleTimer) : TrickleTimer → Type 0 where
  here : Reach draw s s
  next : {t u : TrickleTimer} → Reach draw s t → Step draw t u → Reach draw s u
