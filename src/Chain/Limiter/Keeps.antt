-- ===== src/Chain/Limiter/Keeps.antt =====
-- What a run of the limiter keeps, and that a poll touches none of it.
use polkadot_indexer_framerw.Common.{
  ℕ, ◌-◌, ◌≤◌, ◌<◌, ◌≡◌, refl, sym, ap, ap₂, subst, ◌∙◌, ◌⊎◌, inl, inr, true, Option, none, some,
  List, arith, ltb, ltb→lt, Bool-cases, Option-cases, some_inj,
}
use polkadot_indexer_framerw.Chain.Limiter.Outage.{Breaker-cases, poll-open}
use polkadot_indexer_framerw.Chain.Limiter.{
  one, half_open, spend, refill, failures_to_open, max_backoff, initial_backoff, succeeded,
  floor_rps, new, Decision, Limiter, Float64, failed, poll, closed,
}

-- What the rate relies on: the order of the numbers that an `f64` takes without NaN, and that adding
-- a half and halving go the right way.
pub record FloatLaws (fl : Float64) : Type 0 where
  pub at_most_refl : (a : fl.F) → fl.at_most a a ≡ true
  pub at_most_trans :
      (a b c : fl.F) → fl.at_most a b ≡ true → fl.at_most b c ≡ true → fl.at_most a c ≡ true
  pub least_left : (a b : fl.F) → fl.at_most (fl.least a b) a ≡ true
  pub least_right : (a b : fl.F) → fl.at_most (fl.least a b) b ≡ true
  pub least_glb :
      (c a b : fl.F)
      → fl.at_most c a ≡ true
      → fl.at_most c b ≡ true
      → fl.at_most c (fl.least a b) ≡ true
  pub greatest_left : (a b : fl.F) → fl.at_most a (fl.greatest a b) ≡ true
  pub greatest_right : (a b : fl.F) → fl.at_most b (fl.greatest a b) ≡ true
  pub greatest_lub :
      (a b c : fl.F)
      → fl.at_most a c ≡ true
      → fl.at_most b c ≡ true
      → fl.at_most (fl.greatest a b) c ≡ true
  pub u32_nonneg : (n : ℕ) → fl.at_most (fl.of_u32 0) (fl.of_u32 n) ≡ true
  pub half_below :
      (a : fl.F) → fl.at_most (fl.of_u32 0) a ≡ true → fl.at_most (fl.over a (fl.of_u32 2)) a ≡ true
  pub step_above :
      (a : fl.F) → fl.at_most a (fl.plus a (fl.over (fl.of_u32 1) (fl.of_u32 2))) ≡ true

-- One call of the limiter that returns.
pub data LimiterStep (fl : Float64) : Limiter fl → Limiter fl → Type 0 where
  polls :
      (now : ℕ) (l l' : Limiter fl) (d : Decision)
      → poll fl now l ≡ some (d, l')
      → LimiterStep fl l l'
  succeeds : (l : Limiter fl) → LimiterStep fl l (succeeded fl l)
  fails : (now : ℕ) (l : Limiter fl) → LimiterStep fl l (failed fl now l)

-- A new limiter, and any number of calls.
pub data LimiterRun (fl : Float64) : Limiter fl → Type 0 where
  started : (max_rps : Option ℕ) (url : List ℕ) (now : ℕ) → LimiterRun fl (new fl max_rps url now)
  called : {l l' : Limiter fl} → LimiterRun fl l → LimiterStep fl l l' → LimiterRun fl l'

-- The rate lies between the floor, or the ceiling where that is lower, and the ceiling; the backoff
-- between one second and sixty; and fewer failures are counted than open the breaker.
pub record WellFormed (fl : Float64) (l : Limiter fl) : Type 0 where
  pub ceiling : fl.at_most (fl.of_u32 0) l.max_rate ≡ true
  pub rate_low : fl.at_most (fl.least (floor_rps fl) l.max_rate) l.rate ≡ true
  pub rate_high : fl.at_most l.rate l.max_rate ≡ true
  pub backoff_low : initial_backoff ≤ l.backoff
  pub backoff_high : l.backoff ≤ max_backoff
  pub few : l.consecutive_failures < failures_to_open

-- The fields that `WellFormed` looks at.
pub record Same (fl : Float64) (l l' : Limiter fl) : Type 0 where
  pub max_rate : l'.max_rate ≡ l.max_rate
  pub rate : l'.rate ≡ l.rate
  pub backoff : l'.backoff ≡ l.backoff
  pub failures : l'.consecutive_failures ≡ l.consecutive_failures

module _ (fl : Float64) (laws : FloatLaws fl) where
  pub WellFormed-Same : (l l' : Limiter fl) → Same fl l l' → WellFormed fl l → WellFormed fl l'
  WellFormed-Same l l' same w = record {
    ceiling = ap (λ m. fl.at_most (fl.of_u32 0) m) same.max_rate ∙ w.ceiling;
    rate_low =
        ap₂ (λ m r. fl.at_most (fl.least (floor_rps fl) m) r) same.max_rate same.rate ∙ w.rate_low;
    rate_high = ap₂ (λ m r. fl.at_most r m) same.max_rate same.rate ∙ w.rate_high;
    backoff_low = omega (arith, same.backoff, w.backoff_low);
    backoff_high = omega (arith, same.backoff, w.backoff_high);
    few = omega (arith, same.failures, w.few);
  }

  pub new-WellFormed :
      (max_rps : Option ℕ) (url : List ℕ) (now : ℕ) → WellFormed fl (new fl max_rps url now)
  unfolding new
  new-WellFormed none url now = record {
    ceiling = laws.u32_nonneg 20;
    rate_low = laws.at_most_refl _;
    rate_high = laws.least_right _ _;
    backoff_low = omega arith;
    backoff_high = omega arith;
    few = omega arith;
  }
  new-WellFormed (some n) url now = record {
    ceiling = laws.u32_nonneg n;
    rate_low = laws.at_most_refl _;
    rate_high = laws.least_right _ _;
    backoff_low = omega arith;
    backoff_high = omega arith;
    few = omega arith;
  }

  Same-path : (k l l' : Limiter fl) → Same fl k l → l ≡ l' → Same fl k l'
  Same-path k l l' same e = subst (Same fl k) e same

  Same-trans : (k l m : Limiter fl) → Same fl k l → Same fl l m → Same fl k m
  Same-trans k l m a b = record {
    max_rate = b.max_rate ∙ a.max_rate;
    rate = b.rate ∙ a.rate;
    backoff = b.backoff ∙ a.backoff;
    failures = b.failures ∙ a.failures;
  }

  refill-Same : (now : ℕ) (l : Limiter fl) → Same fl l (refill fl now l)
  unfolding refill
  refill-Same now l =
      elim (Bool-cases (fl.at_most (fl.as_secs_f64 (now - l.last_refill)) (fl.of_u32 0))) [
        | inl early ↦
            Same-path l l _
              (record { max_rate = refl; rate = refl; backoff = refl; failures = refl })
              (rw (early, refill) refl)
        | inr late ↦
            rw (late, refill)
              (record { max_rate = refl; rate = refl; backoff = refl; failures = refl })
      ]

  spend-Same : (l l' : Limiter fl) (d : Decision) → spend fl l ≡ some (d, l') → Same fl l l'
  unfolding spend
  spend-Same l l' d e = elim (Bool-cases (fl.at_most (one fl) l.tokens)) [
    | inl full ↦
        Same-path l (record l { tokens = fl.minus l.tokens (one fl) }) l'
          (record { max_rate = refl; rate = refl; backoff = refl; failures = refl })
          (ap (λ p. p.1) (some_inj (rw full at e)))
    | inr empty ↦
        elim (Option-cases (fl.from_secs_f64 (fl.over (fl.minus (one fl) l.tokens) l.rate))) [
          | inl panics ↦ cc (rw (empty, panics) at e)
          | inr (t, waits) ↦
              Same-path l l l'
                (record { max_rate = refl; rate = refl; backoff = refl; failures = refl })
                (ap (λ p. p.1) (some_inj (rw (empty, waits) at e)))
        ]
  ]

  poll-past :
      (now : ℕ) (l : Limiter fl)
      → (l.breaker ≡ closed) ⊎ (l.breaker ≡ half_open)
      → spend fl (refill fl now l) ≡ poll fl now l
  unfolding poll
  poll-past now l (inl e) =
      rw (e, poll) (λ i. spend fl (refill fl now (record l { breaker = sym e i })))
  poll-past now l (inr e) =
      rw (e, poll) (λ i. spend fl (refill fl now (record l { breaker = sym e i })))

  pub poll-Same :
      (now : ℕ) (l l' : Limiter fl) (d : Decision) → poll fl now l ≡ some (d, l') → Same fl l l'
  unfolding poll
  poll-Same now l l' d e = elim (Breaker-cases l.breaker) [
    | inl is_closed ↦
        Same-trans l (refill fl now l) l' (refill-Same now l)
          (spend-Same (refill fl now l) l' d (poll-past now l (inl is_closed) ∙ e))
    | inr (inl (t, is_opened)) ↦ elim (Bool-cases (ltb now t)) [
      | inl early ↦
          Same-path l l l'
            (record { max_rate = refl; rate = refl; backoff = refl; failures = refl })
            (ap (λ p. p.1)
              (some_inj (sym ((poll-open fl now t l is_opened).0 (ltb→lt now t early)) ∙ e)))
      | inr late ↦
          Same-path l (record l { breaker = half_open }) l'
            (record { max_rate = refl; rate = refl; backoff = refl; failures = refl })
            (ap (λ p. p.1) (some_inj (sym ((poll-open fl now t l is_opened).1 (ground arith)) ∙ e)))
    ]
    | inr (inr is_half) ↦
        Same-trans l (refill fl now l) l' (refill-Same now l)
          (spend-Same (refill fl now l) l' d (poll-past now l (inr is_half) ∙ e))
  ]
