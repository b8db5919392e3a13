-- ===== src/ScrollEvents/Throttle.antt =====
-- `throttle` of the directive that reports scrolls, shared/scroll.directive.ts, on the times of its calls.
use blockcore_gateway.Common.{
  ℕ, ◌+◌, ◌<◌, List, [], ◌∷◌, ◌++◌, ltb, arith, if◌then◌else◌, Bool-cases, inl, inr,
}

-- `time` of the closure, and when the function was run, oldest first. The function takes no time.
pub record Throttled : Type 0 where
  pub time : ℕ
  pub runs : List ℕ

module _ (wait : ℕ) where
  -- `throttle(fn, wait)` at `now`.
  unfoldable pub throttle : ℕ → Throttled
  throttle now = record { time = now; runs = [] }

  -- The closure that it returns, called at `now`: `time + wait - now < 0` is `time + wait < now`.
  unfoldable pub call_throttled : ℕ → Throttled → Throttled
  call_throttled now s =
      if ltb (s.time + wait) now then record s { time = now; runs = s.runs ++ now ∷ [] } else s

  unfoldable pub calls_throttled : List ℕ → Throttled → Throttled
  calls_throttled [] s = s
  calls_throttled (now ∷ later) s = calls_throttled later (call_throttled now s)

  -- Each time is more than `wait` after the one before it, and the last one is the given one.
  pub data Spaced (start : ℕ) : List ℕ → ℕ → Type 0 where
    never : Spaced start [] start
    again :
        {runs : List ℕ} {last : ℕ} (now : ℕ)
        → Spaced start runs last
        → last + wait < now
        → Spaced start (runs ++ now ∷ []) now

  call_throttled-Spaced :
      (start now : ℕ) (s : Throttled)
      → Spaced start s.runs s.time
      → Spaced start (call_throttled now s).runs (call_throttled now s).time
  unfolding call_throttled
  call_throttled-Spaced start now s h = elim (Bool-cases (ltb (s.time + wait) now)) [
    | inl e ↦ rw (e, call_throttled) (again now h (ground arith))
    | inr e ↦ rw (e, call_throttled) h
  ]

  calls_throttled-Spaced :
      (start : ℕ) (calls : List ℕ) (s : Throttled)
      → Spaced start s.runs s.time
      → Spaced start (calls_throttled calls s).runs (calls_throttled calls s).time
  unfolding calls_throttled
  calls_throttled-Spaced start [] s h = h
  calls_throttled-Spaced start (now ∷ later) s h =
      calls_throttled-Spaced start later _ (call_throttled-Spaced start now s h)

  -- Whenever a throttled function is called, its runs are more than `wait` apart, and as far from its start.
  pub throttle-Spaced :
      (start : ℕ) (calls : List ℕ)
      → let s = calls_throttled calls (throttle start) in Spaced start s.runs s.time
  unfolding throttle
  throttle-Spaced start calls = calls_throttled-Spaced start calls (throttle start) never
