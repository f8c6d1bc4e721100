-- ===== src/Chain/Limiter/Outage.antt =====
-- The circuit breaker of the limiter: when it opens, how long it stays open, and what a probe does.
use polkadot_indexer_framerw.Common.{
  ℕ, ◌+◌, ◌-◌, ◌*◌, ◌%◌, ◌≤◌, ◌<◌, min, ◌≡◌, refl, ◌⊎◌, inl, inr, true, false, some, List, [], ◌∷◌,
  arith, ltb, leb, Bool-cases, length,
}
use polkadot_indexer_framerw.Chain.Limiter.{
  refill, one, half_open, floor_rps, spend, Breaker, ready, open_for, next_jitter, max_backoff,
  initial_backoff, second, open_breaker, failures_to_open, Limiter, Float64, failed, poll, closed,
  open_until, is_open,
}

pub Breaker-cases : (b : Breaker) → (b ≡ closed) ⊎ ((t : ℕ) × (b ≡ open_until t)) ⊎ (b ≡ half_open)
Breaker-cases closed = inl refl
Breaker-cases (open_until t) = inr (inl (t, refl))
Breaker-cases half_open = inr (inr refl)

module _ (fl : Float64) where
  spend-full :
      (l : Limiter fl)
      → fl.at_most (one fl) l.tokens ≡ true
      → (l' : Limiter fl) × (spend fl l ≡ some (ready, l'))
  unfolding spend
  spend-full l full = (record l { tokens = fl.minus l.tokens (one fl) }, rw (full, spend) refl)

  unfoldable pub fail_all : List ℕ → Limiter fl → Limiter fl
  fail_all [] l = l
  fail_all (now ∷ nows) l = fail_all nows (failed fl now l)

  failed-few :
      (now : ℕ) (l : Limiter fl)
      → l.breaker ≡ closed
      → l.consecutive_failures + 1 < failures_to_open
      → ((failed fl now l).breaker ≡ closed)
        × ((failed fl now l).consecutive_failures ≡ l.consecutive_failures + 1)
  unfolding failed
  failed-few now l shut few =
      let more : leb failures_to_open (l.consecutive_failures + 1) ≡ false = ground arith in
      rw (shut, more, failed) (shut, refl)

  failed-many :
      (now : ℕ) (l : Limiter fl)
      → l.breaker ≡ closed
      → failures_to_open ≤ l.consecutive_failures + 1
      → is_open fl (failed fl now l) ≡ true
  unfolding failed is_open open_breaker
  failed-many now l shut many =
      let more : leb failures_to_open (l.consecutive_failures + 1) ≡ true = ground arith in
      rw (shut, more, failed) refl

  -- A closed breaker opens at the fifth failure in a row, whenever the failures come, and not before.
  pub fail_all-opens :
      (nows : List ℕ) (l : Limiter fl)
      → l.breaker ≡ closed
      → (l.consecutive_failures + length nows ≡ failures_to_open
          → 0 < length nows
          → is_open fl (fail_all nows l) ≡ true)
        × (l.consecutive_failures + length nows < failures_to_open
            → (fail_all nows l).breaker ≡ closed)
  unfolding fail_all
  fail_all-opens [] l shut = (λ all some_left. absurd (omega arith), λ few. shut)
  fail_all-opens (now ∷ []) l shut = (
    λ all some_left. failed-many now l shut (omega arith),
    λ few. (failed-few now l shut (omega arith)).0,
  )
  fail_all-opens (now ∷ now' ∷ nows) l shut =
      let step : l.consecutive_failures + 1 < failures_to_open
          → ((failed fl now l).breaker ≡ closed)
            × ((failed fl now l).consecutive_failures ≡ l.consecutive_failures + 1) =
        failed-few now l shut in
      (
        λ all some_left.
            let (shut', count) = step (omega arith) in
            (fail_all-opens (now' ∷ nows) (failed fl now l) shut').0 (omega (arith, count))
              (omega arith),
        λ few.
            let (shut', count) = step (omega arith) in
            (fail_all-opens (now' ∷ nows) (failed fl now l) shut').1 (omega (arith, count)),
      )

  jitter_small : (j : ℕ) → j % 1000 * 1000000 < second
  jitter_small j = omega arith

  until_of-open :
      (now : ℕ) (l : Limiter fl)
      → initial_backoff ≤ l.backoff
      → l.backoff ≤ max_backoff
      → (t : ℕ) × ((open_breaker fl now l).breaker ≡ open_until t)
        × (now + second ≤ t)
        × (t < now + 61 * second)
  unfolding open_breaker
  until_of-open now l low high = (
    now + (l.backoff + next_jitter l.jitter % 1000 * 1000000),
    refl,
    omega arith,
    omega (arith, jitter_small (next_jitter l.jitter)),
  )

  is_open-closed : (l : Limiter fl) → l.breaker ≡ closed → is_open fl l ≡ false
  unfolding is_open
  is_open-closed l e = rw (e, is_open) refl

  until_of-failed :
      (now : ℕ) (l : Limiter fl)
      → initial_backoff ≤ l.backoff
      → l.backoff ≤ max_backoff
      → is_open fl l ≡ false
      → is_open fl (failed fl now l) ≡ true
      → (t : ℕ) × ((failed fl now l).breaker ≡ open_until t)
        × (now + second ≤ t)
        × (t < now + 61 * second)
  unfolding failed is_open
  until_of-failed now l low high shut opens = elim (Breaker-cases l.breaker) [
    | inl is_closed ↦ elim (Bool-cases (leb failures_to_open (l.consecutive_failures + 1))) [
      | inl many ↦
          rw (is_closed, many, failed)
            (until_of-open now
              (record l {
                rate =
                    fl.greatest (fl.over l.rate (fl.of_u32 2)) (fl.least (floor_rps fl) l.max_rate);
                consecutive_failures = l.consecutive_failures + 1;
              })
              low high)
      | inr few ↦
          cc (is_open-closed (failed fl now l) (failed-few now l is_closed (ground arith)).0, opens)
    ]
    | inr (inl (t, is_opened)) ↦ absurd (cc (rw (is_opened, is_open) at shut))
    | inr (inr is_half) ↦
        rw (is_half, failed)
          (until_of-open now
            (record l {
              rate =
                  fl.greatest (fl.over l.rate (fl.of_u32 2)) (fl.least (floor_rps fl) l.max_rate);
              backoff = min (l.backoff * 2) max_backoff;
            })
            (omega arith) (omega arith))
  ]

  pub poll-open :
      (t until : ℕ) (l : Limiter fl)
      → l.breaker ≡ open_until until
      → (t < until → poll fl t l ≡ some (open_for (until - t), l))
        × (until ≤ t → poll fl t l ≡ some (ready, record l { breaker = half_open }))
  unfolding poll
  poll-open t until l b = (
    λ early.
        let e : ltb t until ≡ true = ground arith in
        rw (b, e, poll) (λ i. some (open_for (until - t), record l { breaker = b i })),
    λ late. let e : ltb t until ≡ false = ground arith in rw (b, e, poll) refl,
  )

  -- A breaker that a failure opens, when it was not open and the backoff lies between one second
  -- and sixty, sends nothing for a second at least, and lets a probe through at the latest 61
  -- seconds on, when nothing else is called between.
  pub poll-outage :
      (now t : ℕ) (l : Limiter fl)
      → initial_backoff ≤ l.backoff
      → l.backoff ≤ max_backoff
      → is_open fl l ≡ false
      → is_open fl (failed fl now l) ≡ true
      → (t < now + second
          → (w : ℕ) × (poll fl t (failed fl now l) ≡ some (open_for w, failed fl now l)))
        × (now + 61 * second ≤ t
            → poll fl t (failed fl now l)
              ≡ some (ready, record (failed fl now l) { breaker = half_open }))
  poll-outage now t l low high shut opens =
      let (until, is_opened, early, late) = until_of-failed now l low high shut opens in
      let polled = poll-open t until (failed fl now l) is_opened in
      (λ before. (until - t, polled.0 (omega arith)), λ after. polled.1 (omega arith))

  -- While a probe is in flight, the limiter does not hold back the next call: at a time when an
  -- open breaker is due and the refilled bucket has a token, the poll after the one that let the
  -- probe through is ready too.
  pub poll_beside_probe :
      (now until : ℕ) (l : Limiter fl)
      → l.breaker ≡ open_until until
      → until ≤ now
      → fl.at_most (one fl) (refill fl now (record l { breaker = half_open })).tokens ≡ true
      → (poll fl now l ≡ some (ready, record l { breaker = half_open }))
        × ((l' : Limiter fl) × (poll fl now (record l { breaker = half_open }) ≡ some (ready, l')))
  unfolding poll
  poll_beside_probe now until l b due full = (
    (poll-open now until l b).1 due,
    spend-full (refill fl now (record l { breaker = half_open })) full,
  )
