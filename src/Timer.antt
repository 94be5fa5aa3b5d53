-- ===== src/Timer.antt =====
-- core/timer.h: the class `Timer`, and `WallTimer` of core/client.h. The clocks are parameters.
use ycsb_lsm.Base.{ℕ, ◌+◌, ◌*◌, ◌%◌, ◌^◌, ◌≤◌, ◌<◌, ◌≡◌, arith}

-- `std::chrono::high_resolution_clock`, with `duration_cast` of a difference and its `count`
pub record ChronoClock (World : Type 0) : Type 1 where
  pub TimePoint : Type 0
  pub now : World → TimePoint × World
  pub Count : Type 0
  pub count_between : TimePoint → TimePoint → Count

module _ {World : Type 0} (K : ChronoClock World) where
  -- `Timer`
  pub record Timer : Type 0 where
    pub time_ : K.TimePoint

  -- `Timer::Start`
  unfoldable pub timer_start : World → Timer × World
  timer_start w = let (t, w') = K.now w in (record { time_ = t }, w')

  -- `Timer::End`
  unfoldable pub timer_end : Timer → World → K.Count × World
  timer_end timer w = let (t, w') = K.now w in (K.count_between timer.time_ t, w')

-- `struct timeval`
pub record TimeVal : Type 0 where
  pub tv_sec : ℕ
  pub tv_usec : ℕ

-- `gettimeofday` and `timersub`
pub record WallClock (World : Type 0) : Type 0 where
  pub gettimeofday : World → TimeVal × World
  pub timersub : TimeVal → TimeVal → TimeVal

-- `S2US`
abbrev pub s2us : ℕ
s2us = 1000000

-- The time in microseconds, before the wrap.
abbrev pub microseconds : TimeVal → ℕ
microseconds t = t.tv_sec * 1000000 + t.tv_usec

-- What the manual says of `timersub`: it takes the second time from the first.
pub record IsWallClock {World : Type 0} (K : WallClock World) : Type 0 where
  pub timersub_lem :
      (a b : TimeVal)
      → microseconds b ≤ microseconds a
      → microseconds (K.timersub a b) + microseconds b ≡ microseconds a

-- `WallTimer::timevalTous`, in `unsigned long long`
unfoldable pub timeval_to_us : TimeVal → ℕ
timeval_to_us res = (res.tv_sec * s2us + res.tv_usec) % 2 ^ 64

module _ {World : Type 0} (K : WallClock World) where
  -- `WallTimer`
  pub record WallTimer : Type 0 where
    pub start_time_ : TimeVal

  -- `WallTimer::Start`
  unfoldable pub wall_start : World → WallTimer × World
  wall_start w = let (t, w') = K.gettimeofday w in (record { start_time_ = t }, w')

  -- `WallTimer::elapsed`
  unfoldable pub elapsed : WallTimer → World → ℕ × World
  unfolding timeval_to_us
  elapsed timer w =
      let (end_time, w') = K.gettimeofday w in
      (timeval_to_us (K.timersub end_time timer.start_time_), w')

  -- Where the clock does not go back and the difference fits in 64 bits, the time that a timer shows is the
  -- difference in microseconds of the two readings of the clock.
  pub elapsed-wall_start :
      IsWallClock K
      → (w w' : World) → microseconds (K.gettimeofday w).0 ≤ microseconds (K.gettimeofday w').0
      → microseconds (K.gettimeofday w').0 < microseconds (K.gettimeofday w).0 + 2 ^ 64
      → (elapsed (wall_start w).0 w').0 + microseconds (K.gettimeofday w).0
        ≡ microseconds (K.gettimeofday w').0
  unfolding elapsed wall_start timeval_to_us
  elapsed-wall_start laws w w' ordered fits =
      omega (arith, laws.timersub_lem (K.gettimeofday w').0 (K.gettimeofday w).0 ordered)
