-- ===== src/Chain/Limiter.antt =====
-- The rate limiter of one endpoint, crates/pif-chain/src/limiter.rs. A time is in nanoseconds, and a
-- `Duration` too. The `f64` that the rate and the tokens are kept in is a parameter.
pub mod Keeps
pub mod Bounds
pub mod Outage
use polkadot_indexer_framerw.Common.{
  ℕ, ◌+◌, ◌-◌, ◌*◌, ◌/◌, ◌%◌, ◌^◌, min, Bool, true, false, Option, none, some, List, [], ◌∷◌, ltb,
  leb, ◌==◌, if◌then◌else◌,
}
use Prim.Native.Nat.{bit_xor}

-- The numbers an `f64` takes, without NaN, and the operations on them. `from_secs_f64` panics on what is
-- no duration: `none`.
pub record Float64 : Type 1 where
  pub F : Type 0
  pub of_u32 : ℕ → F
  pub plus : F → F → F
  pub minus : F → F → F
  pub times : F → F → F
  pub over : F → F → F
  pub least : F → F → F
  pub greatest : F → F → F
  pub at_most : F → F → Bool
  pub as_secs_f64 : ℕ → F
  pub from_secs_f64 : F → Option ℕ

abbrev pub second : ℕ
second = 1000000000

abbrev pub initial_backoff : ℕ
initial_backoff = second

abbrev pub max_backoff : ℕ
max_backoff = 60 * second

abbrev pub failures_to_open : ℕ
failures_to_open = 5

pub data Decision : Type 0 where
  ready : Decision
  wait : ℕ → Decision
  open_for : ℕ → Decision

pub data Breaker : Type 0 where
  closed : Breaker
  open_until : ℕ → Breaker
  half_open : Breaker

abbrev wrap : ℕ → ℕ
wrap n = n % 18446744073709551616

-- `hash | 1`
abbrev odd : ℕ → ℕ
odd n = if n % 2 == 0 then n + 1 else n

-- FNV-1a over the bytes of the URL.
unfoldable pub fnv : ℕ → List ℕ → ℕ
fnv hash [] = hash
fnv hash (byte ∷ url) = fnv (wrap (bit_xor hash byte * 1099511628211)) url

unfoldable pub seed_from : List ℕ → ℕ
seed_from url = odd (fnv 14695981039346656037 url)

-- The state after `next_jitter_ms`, a xorshift; the result is its remainder by 1000.
unfoldable pub next_jitter : ℕ → ℕ
next_jitter j =
    let a = bit_xor j (wrap (j * 2 ^ 13)) in
    let b = bit_xor a (a / 2 ^ 7) in bit_xor b (wrap (b * 2 ^ 17))

module _ (fl : Float64) where
  pub record Limiter : Type 0 where
    pub rate : fl.F
    pub max_rate : fl.F
    pub tokens : fl.F
    pub last_refill : ℕ
    pub consecutive_failures : ℕ
    pub breaker : Breaker
    pub backoff : ℕ
    pub jitter : ℕ

  abbrev pub one : fl.F
  one = fl.of_u32 1

  abbrev pub floor_rps : fl.F
  floor_rps = fl.of_u32 2

  abbrev pub default_max_rps : fl.F
  default_max_rps = fl.of_u32 20

  abbrev pub additive_step : fl.F
  additive_step = fl.over (fl.of_u32 1) (fl.of_u32 2)

  unfoldable pub new : Option ℕ → List ℕ → ℕ → Limiter
  new max_rps url now =
      let max_rate : fl.F = elim max_rps [ none ↦ default_max_rps | some n ↦ fl.of_u32 n ] in
      record {
        rate = fl.least floor_rps max_rate;
        max_rate = max_rate;
        tokens = one;
        last_refill = now;
        consecutive_failures = 0;
        breaker = closed;
        backoff = initial_backoff;
        jitter = seed_from url;
      }

  unfoldable pub is_open : Limiter → Bool
  is_open l = elim l.breaker [ closed ↦ false | open_until t ↦ true | half_open ↦ false ]

  unfoldable pub refill : ℕ → Limiter → Limiter
  refill now l =
      let elapsed = fl.as_secs_f64 (now - l.last_refill) in
      if fl.at_most elapsed (fl.of_u32 0) then l else record l {
        last_refill = now;
        tokens = fl.least (fl.plus l.tokens (fl.times elapsed l.rate)) (fl.greatest l.rate one);
      }

  -- The part of `poll` past the breaker.
  unfoldable pub spend : Limiter → Option (Decision × Limiter)
  spend l =
      if fl.at_most one l.tokens
      then some (ready, record l { tokens = fl.minus l.tokens one })
      else elim (fl.from_secs_f64 (fl.over (fl.minus one l.tokens) l.rate)) [
        | none ↦ none
        | some t ↦ some (wait t, l)
      ]

  -- `none` is a panic.
  unfoldable pub poll : ℕ → Limiter → Option (Decision × Limiter)
  poll now l = elim l.breaker [
    | closed ↦ spend (refill now l)
    | open_until t ↦
        if ltb now t
        then some (open_for (t - now), l)
        else some (ready, record l { breaker = half_open })
    | half_open ↦ spend (refill now l)
  ]

  unfoldable pub succeeded : Limiter → Limiter
  succeeded l = elim l.breaker [
    | closed ↦ record l {
      consecutive_failures = 0;
      breaker = closed;
      rate = fl.least (fl.plus l.rate additive_step) l.max_rate;
    }
    | open_until t ↦ record l {
      consecutive_failures = 0;
      breaker = closed;
      rate = fl.least (fl.plus l.rate additive_step) l.max_rate;
    }
    | half_open ↦ record l {
      consecutive_failures = 0;
      breaker = closed;
      rate = fl.least floor_rps l.max_rate;
      backoff = initial_backoff;
    }
  ]

  unfoldable pub open_breaker : ℕ → Limiter → Limiter
  open_breaker now l =
      let jitter = next_jitter l.jitter in
      record l {
        jitter = jitter;
        breaker = open_until (now + (l.backoff + jitter % 1000 * 1000000));
        consecutive_failures = 0;
      }

  unfoldable pub failed : ℕ → Limiter → Limiter
  failed now l =
      let slower : Limiter = record l {
        rate = fl.greatest (fl.over l.rate (fl.of_u32 2)) (fl.least floor_rps l.max_rate);
      } in
      let more : Limiter = record slower { consecutive_failures = l.consecutive_failures + 1 } in
      let counted =
        if leb failures_to_open more.consecutive_failures then open_breaker now more else more in
      elim l.breaker [
        | closed ↦ counted
        | open_until t ↦ counted
        | half_open ↦ open_breaker now (record slower { backoff = min (l.backoff * 2) max_backoff })
      ]
