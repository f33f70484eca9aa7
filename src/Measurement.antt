-- ===== src/Measurement.antt =====
-- RTT and bandwidth estimation of measurement.go. Times are nanoseconds in uint64, whose wrap is
-- written out; a division by zero panics.
pub mod Bounds
pub mod Pacing
mod Tests
use qotp.Base.{
  ℕ, zero, suc, ◌+◌, ◌-◌, ◌*◌, ◌/◌, ◌%◌, ◌^◌, ◌<◌, Bool, true, false, not, ◌&&◌, ◌||◌, Run, ok, err,
  panic, ◌>>=◌, Error, if◌then◌else◌, ltb, leb, ◌==◌, u64, sub64,
}

-- `msNano` and `secondNano`.
abbrev pub ms_nano : ℕ
ms_nano = 1_000_000

abbrev pub second_nano : ℕ
second_nano = 1_000_000_000

abbrev pub default_rto : ℕ
default_rto = 200 * ms_nano

abbrev pub min_rto : ℕ
min_rto = 100 * ms_nano

abbrev pub max_rto : ℕ
max_rto = 2000 * ms_nano

abbrev pub rtt_expiry : ℕ
rtt_expiry = 10 * second_nano

abbrev pub probe_multiplier : ℕ
probe_multiplier = 8

abbrev pub startup_gain : ℕ
startup_gain = 277

abbrev pub normal_gain : ℕ
normal_gain = 100

abbrev pub drain_gain : ℕ
drain_gain = 75

abbrev pub probe_gain : ℕ
probe_gain = 125

abbrev pub bw_dec_threshold : ℕ
bw_dec_threshold = 3

abbrev pub dup_ack_bw_reduction : ℕ
dup_ack_bw_reduction = 98

abbrev pub dup_ack_gain : ℕ
dup_ack_gain = 90

abbrev pub loss_bw_reduction : ℕ
loss_bw_reduction = 95

abbrev pub fallback_interval : ℕ
fallback_interval = 10 * ms_nano

abbrev pub rtt_divisor : ℕ
rtt_divisor = 10

abbrev pub rtt_inflation_high : ℕ
rtt_inflation_high = 150

abbrev pub rtt_inflation_moderate : ℕ
rtt_inflation_moderate = 125

abbrev pub min_deadline : ℕ
min_deadline = 100 * ms_nano

abbrev pub read_deadline : ℕ
read_deadline = 30 * second_nano

abbrev pub max_retry : ℕ
max_retry = 5

abbrev pub rto_backoff_pct : ℕ
rto_backoff_pct = 200

abbrev pub max_uint64 : ℕ
max_uint64 = 2 ^ 64 - 1

pub record Measurements : Type 0 where
  pub srtt : ℕ
  pub rttvar : ℕ
  pub is_startup : Bool
  pub rtt_min_nano : ℕ
  pub rtt_min_time_nano : ℕ
  pub bw_max : ℕ
  pub bw_dec : ℕ
  pub last_probe_time_nano : ℕ
  pub pacing_gain_pct : ℕ
  pub last_read_time_nano : ℕ

abbrev pub new_measurements : Measurements
new_measurements = record {
  srtt = 0;
  rttvar = 0;
  is_startup = true;
  rtt_min_nano = max_uint64;
  rtt_min_time_nano = max_uint64;
  bw_max = 0;
  bw_dec = 0;
  last_probe_time_nano = 0;
  pacing_gain_pct = startup_gain;
  last_read_time_nano = 0;
}

-- `a / b` on uint64.
unfoldable pub div64 : ℕ → ℕ → Run ℕ
div64 a zero = panic
div64 a (suc b) = ok (a / suc b)

-- The four parts of `updateMeasurements`, in their order: the smoothed RTT, the least RTT, the
-- bandwidth with the start of probing, and the gain.
unfoldable pub update_rtt : Measurements → ℕ → Measurements
update_rtt c rtt =
    if c.srtt == 0
    then record c { srtt = rtt; rttvar = rtt / 2 }
    else let delta = if ltb c.srtt rtt then sub64 rtt c.srtt else sub64 c.srtt rtt in
      record c {
        rttvar = u64 (u64 (c.rttvar * 3) / 4 + u64 (delta * 1) / 4);
        srtt = u64 (u64 (c.srtt * 7) / 8 + u64 (rtt * 1) / 8);
      }

unfoldable pub update_rtt_min : Measurements → ℕ → ℕ → Measurements
update_rtt_min c rtt now =
    if (ltb c.rtt_min_time_nano now && leb rtt_expiry (sub64 now c.rtt_min_time_nano))
      || ltb rtt c.rtt_min_nano
    then record c { rtt_min_nano = rtt; rtt_min_time_nano = now }
    else c

unfoldable pub update_bandwidth : Measurements → ℕ → ℕ → Measurements
update_bandwidth c bytes_acked now =
    let bw_current =
      if ltb 0 c.rtt_min_nano then u64 (bytes_acked * 1_000_000_000) / c.rtt_min_nano else 0 in
    let c' =
      if ltb c.bw_max bw_current
      then record c { bw_max = bw_current; bw_dec = 0 }
      else record c { bw_dec = u64 (c.bw_dec + 1) } in
    if c'.last_probe_time_nano == 0 then record c' { last_probe_time_nano = now } else c'

unfoldable pub update_gain : Measurements → ℕ → Run Measurements
update_gain c now =
    if c.is_startup
    then ok (
        if leb bw_dec_threshold c.bw_dec
        then record c { is_startup = false; pacing_gain_pct = normal_gain }
        else c)
    else (do
      rtt_ratio_pct ← div64 (u64 (c.srtt * 100)) c.rtt_min_nano
      ok (
          if ltb rtt_inflation_high rtt_ratio_pct
          then record c { pacing_gain_pct = drain_gain }
          else if ltb rtt_inflation_moderate rtt_ratio_pct
          then record c { pacing_gain_pct = dup_ack_gain }
          else if ltb (u64 (c.rtt_min_nano * probe_multiplier)) (sub64 now c.last_probe_time_nano)
          then record c { pacing_gain_pct = probe_gain; last_probe_time_nano = now }
          else record c { pacing_gain_pct = normal_gain }))

unfoldable pub update_measurements : Measurements → ℕ → ℕ → ℕ → Run Measurements
update_measurements c rtt bytes_acked now =
    if rtt == 0
    then ok c
    else if bytes_acked == 0
    then ok c
    else if ltb read_deadline rtt
    then ok c
    else if now == 0
    then ok c
    else update_gain (update_bandwidth (update_rtt_min (update_rtt c rtt) rtt now) bytes_acked now)
        now

unfoldable pub rto_nano : Measurements → ℕ
rto_nano c =
    let rto = u64 (c.srtt + u64 (4 * c.rttvar)) in
    if rto == 0
    then default_rto
    else if ltb rto min_rto
    then min_rto
    else if ltb max_rto rto
    then max_rto
    else rto

unfoldable pub on_duplicate_ack : Measurements → Measurements
on_duplicate_ack c = record c {
  bw_max = u64 (c.bw_max * dup_ack_bw_reduction) / 100;
  pacing_gain_pct = dup_ack_gain;
  is_startup = if c.is_startup then false else c.is_startup;
}

unfoldable pub on_packet_loss : Measurements → Measurements
on_packet_loss c = record c {
  bw_max = u64 (c.bw_max * loss_bw_reduction) / 100;
  pacing_gain_pct = normal_gain;
  is_startup = false;
}

unfoldable pub calc_pacing : Measurements → ℕ → Run ℕ
calc_pacing c packet_size =
    if c.bw_max == 0
    then ok (if ltb 0 c.srtt then c.srtt / rtt_divisor else fallback_interval)
    else let adjusted_bandwidth = u64 (c.bw_max * c.pacing_gain_pct) / 100 in
      if adjusted_bandwidth == 0
      then ok fallback_interval
      else div64 (u64 (packet_size * 1_000_000_000)) adjusted_bandwidth

-- The rounds that are left of the loop of `backoff`.
unfoldable pub backoff_loop : ℕ → ℕ → ℕ
backoff_loop zero rto = rto
backoff_loop (suc rounds) rto = backoff_loop rounds (u64 (rto * rto_backoff_pct) / 100)

-- `rtoNr` is never negative where the program calls it: a count that starts at 1.
unfoldable pub backoff : ℕ → ℕ → Run ℕ
backoff rto rto_nr =
    if rto_nr == 0
    then err Error.rto_number_not_positive
    else if ltb max_retry rto_nr
    then err Error.max_retry_exceeded
    else ok (backoff_loop (rto_nr - 1) rto)
