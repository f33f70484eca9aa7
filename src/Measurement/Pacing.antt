-- ===== src/Measurement/Pacing.antt =====
-- The retransmission timeout, the backoff and the pacing interval.
use qotp.Base.{
  Bool-cases, inl, inr, ltb, ◌==◌, if◌then◌else◌, ℕ, zero, suc, ◌+◌, ◌-◌, ◌*◌, ◌/◌, ◌^◌, ◌≤◌, ◌<◌,
  ◌≡◌, sym, ◌∙◌, inl, inr, ok, err, Error, if◌then◌else◌, ltb, ◌==◌, u64, arith, min, max,
}
use native.Mathlib.Nat.{pow-suc, pow-le-pow_right}
use qotp.Measurement.{
  Measurements, rto_nano, backoff, backoff_loop, calc_pacing, min_rto, max_rto, default_rto,
  fallback_interval,
}
use qotp.Measurement.Bounds.{IsValid, div64_pos}

-- The timeout is srtt + 4 * rttvar held between 100 ms and 2 s, or 200 ms before the first sample:
-- in a valid state neither the product nor the sum wraps.
pub rto_nano_lem :
    (c : Measurements)
    → IsValid c
    → let rto = c.srtt + 4 * c.rttvar in
      rto_nano c ≡ (if rto == 0 then default_rto else max min_rto (min max_rto rto))
unfolding rto_nano
rto_nano_lem c v = ground arith

double : (rto : ℕ) → rto ≤ 2 ^ 50 → u64 (rto * 200) / 100 ≡ rto * 2
double rto h = omega arith

regroup : (b p q : ℕ) → q ≡ p * 2 → b * q ≡ b * 2 * p
regroup b p q e = rw e (omega arith)

grows : (b p : ℕ) → 0 < p → b ≤ b * p
grows b p h = grind arith

-- Each round doubles, as long as the product with 200 does not wrap.
backoff_loop-pow :
    (rounds rto bound : ℕ)
    → rto ≤ bound
    → bound * 2 ^ rounds ≤ 2 ^ 50
    → backoff_loop rounds rto ≡ rto * 2 ^ rounds
unfolding backoff_loop
backoff_loop-pow zero rto bound le h = omega arith
backoff_loop-pow (suc rounds) rto bound le h =
    let p = 2 ^ rounds in
    let positive : 0 < p =
      pow-le-pow_right {n = 2} (omega arith) {i = 0} {j = rounds} (omega arith) in
    let fits = regroup bound p (2 ^ suc rounds) (pow-suc 2 rounds) in
    let out = regroup rto p (2 ^ suc rounds) (pow-suc 2 rounds) in
    let below = grows (bound * 2) p positive in
    rw (double rto (omega arith))
      (backoff_loop-pow rounds (rto * 2) (bound * 2) (omega arith) (omega arith) ∙ sym out)

-- For a timeout of at most 2 s, the n-th timeout of a packet is 2 ^ (n - 1) times as long, for n
-- from 1 to 5; the counts 0 and 6 upward are the two errors.
pub backoff_lem :
    (rto n : ℕ)
    → rto ≤ max_rto
    → backoff rto n ≡ (
        if n == 0
        then err Error.rto_number_not_positive
        else if ltb 5 n
        then err Error.max_retry_exceeded
        else ok (rto * 2 ^ (n - 1)))
unfolding backoff
backoff_lem rto n h = elim (Bool-cases (ltb 5 n)) [
  | inl many ↦ ground arith
  | inr few ↦
      let pow : 2 ^ (n - 1) ≤ 2 ^ 4 =
        pow-le-pow_right {n = 2} (omega arith) {j = 4} (ground arith) in
      rw (few, backoff_loop-pow (n - 1) rto max_rto h (omega (arith, pow)))
]

-- In a valid state and for a packet of less than 2 ^ 34 bytes, `calcPacing` never divides by 0 and no
-- product in it wraps: without a bandwidth it gives a tenth of the smoothed RTT, or 10 ms before the
-- first sample; with one, the time that the packet takes at the bandwidth times the gain, or 10 ms
-- if that rate is 0.
pub calc_pacing_lem :
    (c : Measurements) (packet_size : ℕ)
    → IsValid c
    → packet_size < 2 ^ 34
    → calc_pacing c packet_size
      ≡ ok (
          if c.bw_max == 0
          then if ltb 0 c.srtt then c.srtt / 10 else fallback_interval
          else if (c.bw_max * c.pacing_gain_pct / 100) == 0
          then fallback_interval
          else packet_size * 1_000_000_000 / (c.bw_max * c.pacing_gain_pct / 100))
unfolding calc_pacing
calc_pacing_lem c packet_size v h =
    let product : c.bw_max * c.pacing_gain_pct ≤ 65_535 * 1_000_000_000 * 277 = grind arith in
    let small : u64 (c.bw_max * c.pacing_gain_pct) ≡ c.bw_max * c.pacing_gain_pct = omega arith in
    let size : u64 (packet_size * 1_000_000_000) ≡ packet_size * 1_000_000_000 = omega arith in
    rw (small, size)
      (ground (arith, div64_pos (packet_size * 1_000_000_000) (c.bw_max * c.pacing_gain_pct / 100)))
