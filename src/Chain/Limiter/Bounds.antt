-- ===== src/Chain/Limiter/Bounds.antt =====
-- What stays true of a limiter: its rate, its burst, its backoff and its count of failures.
use polkadot_indexer_framerw.Common.{
  ℕ, ◌+◌, ◌*◌, min, ◌≡◌, inl, inr, true, arith, leb, if◌then◌else◌, Bool-cases,
}
use polkadot_indexer_framerw.Chain.Limiter.Outage.{Breaker-cases}
use polkadot_indexer_framerw.Chain.Limiter.{
  Breaker, open_breaker, additive_step, failures_to_open, max_backoff, succeeded, floor_rps,
  Limiter, Float64, failed, closed,
}
use polkadot_indexer_framerw.Chain.Limiter.Keeps.{
  started, called, polls, succeeds, fails, FloatLaws, WellFormed, LimiterRun, WellFormed-Same,
  poll-Same, new-WellFormed,
}

module _ (fl : Float64) (laws : FloatLaws fl) where
  succeeded-WellFormed : (l : Limiter fl) → WellFormed fl l → WellFormed fl (succeeded fl l)
  unfolding succeeded
  succeeded-WellFormed l w =
      let up : WellFormed fl (record l {
        consecutive_failures = 0;
        breaker = closed;
        rate = fl.least (fl.plus l.rate (additive_step fl)) l.max_rate;
      }) =
        record {
          ceiling = w.ceiling;
          rate_low =
              laws.least_glb _ _ _ (laws.at_most_trans _ _ _ w.rate_low (laws.step_above l.rate))
                (laws.least_right _ _);
          rate_high = laws.least_right _ _;
          backoff_low = w.backoff_low;
          backoff_high = w.backoff_high;
          few = omega arith;
        } in
      elim (Breaker-cases l.breaker) [
        | inl is_closed ↦ rw (is_closed, succeeded) up
        | inr (inl (t, is_opened)) ↦ rw (is_opened, succeeded) up
        | inr (inr is_half) ↦
            rw (is_half, succeeded)
              (record {
                ceiling = w.ceiling;
                rate_low = laws.at_most_refl _;
                rate_high = laws.least_right _ _;
                backoff_low = omega arith;
                backoff_high = omega arith;
                few = omega arith;
              })
      ]

  slower_low_high :
      (l : Limiter fl)
      → WellFormed fl l
      → (fl.at_most
            (fl.least (floor_rps fl) l.max_rate)
            (fl.greatest (fl.over l.rate (fl.of_u32 2)) (fl.least (floor_rps fl) l.max_rate))
          ≡ true)
        × (fl.at_most
              (fl.greatest (fl.over l.rate (fl.of_u32 2)) (fl.least (floor_rps fl) l.max_rate))
              l.max_rate
            ≡ true)
  slower_low_high l w =
      let nonneg : fl.at_most (fl.of_u32 0) l.rate ≡ true =
        laws.at_most_trans _ _ _ (laws.least_glb _ _ _ (laws.u32_nonneg 2) w.ceiling) w.rate_low in
      (
        laws.greatest_right _ _,
        laws.greatest_lub _ _ _
            (laws.at_most_trans _ _ _ (laws.half_below l.rate nonneg) w.rate_high)
            (laws.least_right _ _),
      )

  opened-WellFormed :
      (now : ℕ) (l : Limiter fl) → WellFormed fl l → WellFormed fl (open_breaker fl now l)
  unfolding open_breaker
  opened-WellFormed now l w = record {
    ceiling = w.ceiling;
    rate_low = w.rate_low;
    rate_high = w.rate_high;
    backoff_low = w.backoff_low;
    backoff_high = w.backoff_high;
    few = omega arith;
  }

  counted-WellFormed :
      (now : ℕ) (l : Limiter fl) (b : Breaker)
      → WellFormed fl l
      → WellFormed fl (
          if leb failures_to_open (l.consecutive_failures + 1)
          then open_breaker fl now (record l {
            rate = fl.greatest (fl.over l.rate (fl.of_u32 2)) (fl.least (floor_rps fl) l.max_rate);
            consecutive_failures = l.consecutive_failures + 1;
            breaker = b;
          })
          else record l {
            rate = fl.greatest (fl.over l.rate (fl.of_u32 2)) (fl.least (floor_rps fl) l.max_rate);
            consecutive_failures = l.consecutive_failures + 1;
            breaker = b;
          })
  unfolding open_breaker
  counted-WellFormed now l b w =
      let bounds = slower_low_high l w in
      elim (Bool-cases (leb failures_to_open (l.consecutive_failures + 1))) [
        | inl many ↦ rw many (record {
          ceiling = w.ceiling;
          rate_low = bounds.0;
          rate_high = bounds.1;
          backoff_low = w.backoff_low;
          backoff_high = w.backoff_high;
          few = omega arith;
        })
        | inr not_many ↦ rw not_many (record {
          ceiling = w.ceiling;
          rate_low = bounds.0;
          rate_high = bounds.1;
          backoff_low = w.backoff_low;
          backoff_high = w.backoff_high;
          few = ground arith;
        })
      ]

  failed-WellFormed : (now : ℕ) (l : Limiter fl) → WellFormed fl l → WellFormed fl (failed fl now l)
  unfolding failed
  failed-WellFormed now l w =
      let slow : fl.F =
        fl.greatest (fl.over l.rate (fl.of_u32 2)) (fl.least (floor_rps fl) l.max_rate) in
      let slower : Limiter fl = record l { rate = slow } in
      let bounds = slower_low_high l w in
      elim (Breaker-cases l.breaker) [
        | inl is_closed ↦ rw (is_closed, failed) (counted-WellFormed now l l.breaker w)
        | inr (inl (t, is_opened)) ↦ rw (is_opened, failed) (counted-WellFormed now l l.breaker w)
        | inr (inr is_half) ↦
            rw (is_half, failed)
              (opened-WellFormed now (record slower { backoff = min (l.backoff * 2) max_backoff })
                (record {
                  ceiling = w.ceiling;
                  rate_low = bounds.0;
                  rate_high = bounds.1;
                  backoff_low = omega (arith, w.backoff_low);
                  backoff_high = omega arith;
                  few = w.few;
                }))
      ]

  -- Whatever calls are made, at whatever times, the rate stays between the floor of two a second and the
  -- configured ceiling (at the ceiling where that is lower), the backoff between one second and sixty,
  -- and the count of failures below the five that open the breaker.
  pub LimiterRun-WellFormed : {l : Limiter fl} → LimiterRun fl l → WellFormed fl l
  LimiterRun-WellFormed (started max_rps url now) = new-WellFormed fl laws max_rps url now
  LimiterRun-WellFormed (called run (polls now l l' d e)) =
      WellFormed-Same fl laws l l' (poll-Same fl laws now l l' d e) (LimiterRun-WellFormed run)
  LimiterRun-WellFormed (called run (succeeds l)) =
      succeeded-WellFormed l (LimiterRun-WellFormed run)
  LimiterRun-WellFormed (called run (fails now l)) =
      failed-WellFormed now l (LimiterRun-WellFormed run)
