-- ===== src/Measurement/Bounds.antt =====
-- The invariant of the estimator.
use qotp.Base.{
  ℕ, zero, suc, ◌+◌, ◌*◌, ◌/◌, ◌^◌, ◌≤◌, ◌<◌, ◌≡◌, ◌≢◌, refl, Returns, false, ok, u64, arith, min,
  max,
}
use qotp.Measurement.{
  Measurements, new_measurements, div64, update_rtt, update_rtt_min, update_bandwidth, update_gain,
  update_measurements, on_duplicate_ack, on_packet_loss, read_deadline, max_uint64,
}

-- What every connection keeps: the RTT figures stay within the 30 seconds that a sample may take,
-- the least RTT is never 0, the bandwidth is at most what 65,535 bytes in a nanosecond give, and
-- the gain is one of the five of the program.
pub record IsValid (c : Measurements) : Type 0 where
  pub srtt : c.srtt ≤ read_deadline
  pub rttvar : c.rttvar ≤ read_deadline
  pub rtt_min : 0 < c.rtt_min_nano
  pub rtt_min_max : c.rtt_min_nano ≤ max_uint64
  pub bw_max : c.bw_max ≤ 65_535 * 1_000_000_000
  pub gain_low : 75 ≤ c.pacing_gain_pct
  pub gain_high : c.pacing_gain_pct ≤ 277

pub new_measurements-IsValid : IsValid new_measurements
new_measurements-IsValid = omega arith

update_rtt-IsValid :
    (c : Measurements) (rtt : ℕ) → IsValid c → rtt ≤ read_deadline → IsValid (update_rtt c rtt)
unfolding update_rtt
update_rtt-IsValid c rtt v h = ground arith

update_rtt_min-IsValid :
    (c : Measurements) (rtt now : ℕ)
    → IsValid c
    → 0 < rtt
    → rtt ≤ read_deadline
    → IsValid (update_rtt_min c rtt now)
unfolding update_rtt_min
update_rtt_min-IsValid c rtt now v pos h = ground arith

quotient_le : (n d : ℕ) → n / d ≤ n
quotient_le n d = grind arith

update_bandwidth-IsValid :
    (c : Measurements) (bytes_acked now : ℕ)
    → IsValid c
    → bytes_acked < 2 ^ 16
    → IsValid (update_bandwidth c bytes_acked now)
unfolding update_bandwidth
update_bandwidth-IsValid c bytes_acked now v h =
    ground (arith, quotient_le (u64 (bytes_acked * 1_000_000_000)) c.rtt_min_nano)

pub div64_pos : (a b : ℕ) → 0 < b → div64 a b ≡ ok (a / b)
unfolding div64
div64_pos a zero h = elim h [ ]
div64_pos a (suc b) h = refl

-- A valid state has no division by 0.
update_gain-IsValid : (c : Measurements) (now : ℕ) → IsValid c → Returns IsValid (update_gain c now)
unfolding update_gain
update_gain-IsValid c now v =
    rw (div64_pos (u64 (c.srtt * 100)) c.rtt_min_nano v.rtt_min) (ground arith)

-- A sample of an acknowledged packet (at most 65,535 bytes) never makes `updateMeasurements` divide
-- by 0, on any branch and at any time, and what it leaves is valid again.
pub update_measurements-IsValid :
    (c : Measurements) (rtt bytes_acked now : ℕ)
    → IsValid c
    → bytes_acked < 2 ^ 16
    → Returns IsValid (update_measurements c rtt bytes_acked now)
unfolding update_measurements
update_measurements-IsValid c rtt bytes_acked now v h = ground (
  arith,
  update_rtt-IsValid c rtt v,
  update_rtt_min-IsValid (update_rtt c rtt) rtt now,
  update_bandwidth-IsValid (update_rtt_min (update_rtt c rtt) rtt now) bytes_acked now,
  update_gain-IsValid (update_bandwidth (update_rtt_min (update_rtt c rtt) rtt now) bytes_acked now)
      now,
)

-- A duplicate ACK and a loss keep the estimator valid, never raise the bandwidth, and end startup.
pub congestion_signals :
    (c : Measurements)
    → IsValid c
    → IsValid (on_duplicate_ack c)
      × IsValid (on_packet_loss c)
      × ((on_packet_loss c).bw_max ≤ (on_duplicate_ack c).bw_max)
      × ((on_duplicate_ack c).bw_max ≤ c.bw_max)
      × ((on_duplicate_ack c).is_startup ≡ false)
      × ((on_packet_loss c).is_startup ≡ false)
unfolding on_duplicate_ack on_packet_loss
congestion_signals c v =
    (ground arith, ground arith, ground arith, ground arith, ground arith, refl)

-- The smoothed RTT of a second or later sample lies between the old value and the sample, up to the
-- 2 ns that the two divisions drop.
pub srtt-update_rtt_between :
    (c : Measurements) (rtt : ℕ)
    → IsValid c
    → c.srtt ≢ 0
    → rtt ≤ read_deadline
    → ((update_rtt c rtt).srtt ≤ max c.srtt rtt) × (min c.srtt rtt ≤ (update_rtt c rtt).srtt + 2)
unfolding update_rtt
srtt-update_rtt_between c rtt v started h = ground arith
