-- ===== src/Measurement/Tests.antt =====
-- The theorems on measurement.go at one state: a connection after a first sample.
use qotp.Base.{
  ◌+◌, ◌*◌, ◌-◌, ◌/◌, ◌^◌, ◌≤◌, ◌≡◌, false, min, max, ok, err, Returns, arith, if◌then◌else◌, ltb,
  ◌==◌, Error,
}
use qotp.Measurement.{
  Measurements, new_measurements, update_measurements, update_rtt, on_duplicate_ack, on_packet_loss,
  rto_nano, backoff, calc_pacing, default_rto, min_rto, max_rto, fallback_interval,
}
use qotp.Measurement.Bounds.{
  IsValid, update_measurements-IsValid, congestion_signals, srtt-update_rtt_between,
}
use qotp.Measurement.Pacing.{rto_nano_lem, backoff_lem, calc_pacing_lem}

abbrev sampled : Measurements
sampled = record new_measurements {
  srtt = 40_000_000;
  rttvar = 20_000_000;
  rtt_min_nano = 40_000_000;
  bw_max = 30_000;
}

sampled-IsValid : IsValid sampled
sampled-IsValid = omega arith

update_measurements-IsValid_example :
    Returns IsValid (update_measurements sampled 50_000_000 1200 7_000_000_000)
update_measurements-IsValid_example =
    update_measurements-IsValid sampled 50_000_000 1200 7_000_000_000 sampled-IsValid (omega arith)

congestion_signals_example :
    IsValid (on_duplicate_ack sampled)
    × IsValid (on_packet_loss sampled)
    × ((on_packet_loss sampled).bw_max ≤ (on_duplicate_ack sampled).bw_max)
    × ((on_duplicate_ack sampled).bw_max ≤ sampled.bw_max)
    × ((on_duplicate_ack sampled).is_startup ≡ false)
    × ((on_packet_loss sampled).is_startup ≡ false)
congestion_signals_example = congestion_signals sampled sampled-IsValid

srtt-update_rtt_between_example :
    ((update_rtt sampled 90_000_000).srtt ≤ max 40_000_000 90_000_000)
    × (min 40_000_000 90_000_000 ≤ (update_rtt sampled 90_000_000).srtt + 2)
srtt-update_rtt_between_example =
    srtt-update_rtt_between sampled 90_000_000 sampled-IsValid (omega arith) (omega arith)

rto_nano_lem_example :
    rto_nano sampled
    ≡ (if 120_000_000 == 0 then default_rto else max min_rto (min max_rto 120_000_000))
rto_nano_lem_example = rto_nano_lem sampled sampled-IsValid

backoff_lem_example : backoff 200_000_000 3 ≡ (
    if 3 == 0
    then err Error.rto_number_not_positive
    else if ltb 5 3
    then err Error.max_retry_exceeded
    else ok (200_000_000 * 2 ^ (3 - 1)))
backoff_lem_example = backoff_lem 200_000_000 3 (omega arith)

calc_pacing_lem_example :
    calc_pacing sampled 1200
    ≡ ok (
        if 30_000 == 0
        then if ltb 0 40_000_000 then 40_000_000 / 10 else fallback_interval
        else if (30_000 * sampled.pacing_gain_pct / 100) == 0
        then fallback_interval
        else 1200 * 1_000_000_000 / (30_000 * sampled.pacing_gain_pct / 100))
calc_pacing_lem_example = calc_pacing_lem sampled 1200 sampled-IsValid (omega arith)
