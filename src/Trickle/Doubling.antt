-- ===== src/Trickle/Doubling.antt =====
-- How the interval grows from Imin to Imax, and what Reset() does to it.
use rpl.Base.{ℕ, zero, suc, ◌/◌, ◌<◌, ◌≡◌, true, some, arith}
use rpl.Trickle.{TrickleTimer, reset, interval_event, get_interval}

module _ (draw : ℕ → ℕ → ℕ) where
  -- The timer after `n` more ends of an interval, with nothing else in between.
  unfoldable pub intervals : ℕ → TrickleTimer → TrickleTimer
  unfolding interval_event
  intervals zero t = t
  intervals (suc n) t = interval_event draw (intervals n t)

  -- Reset() on a running timer above Imin starts an interval of length Imin with no message heard
  -- and both timers scheduled anew.
  pub reset_restarts :
      (t : TrickleTimer)
      → t.running ≡ true
      → t.interval_min < t.interval
      → (get_interval (reset draw t) ≡ t.interval_min)
        × ((reset draw t).counter ≡ 0)
        × ((reset draw t).interval_timer ≡ some t.interval_min)
        × ((reset draw t).transmit_timer ≡ some (draw (t.interval_min / 2) t.interval_min))
  unfolding reset get_interval
  reset_restarts t e h = ground arith

  -- A second Reset() in a row changes nothing, whatever the timer and the random source: a burst
  -- of inconsistencies restarts the interval once.
  pub reset-reset : (t : TrickleTimer) → reset draw (reset draw t) ≡ reset draw t
  unfolding reset
  reset-reset t = ground arith
