-- ===== src/LoadClient/Pacing.antt =====
-- `PacingMode`, `DeterminePacingMode`, `ComputePacingIntervalNs`, `InitialPerClientSendTimeNs`, and
-- the gate on a time to send that `PumpSends` has once for a connection and once for a stream.
use proto_test_msquic.Prelude.{ℕ, ◌%◌, Bool, true, false, ◌||◌, ltb, leb, ◌==◌, not, if◌then◌else◌}
use proto_test_msquic.Prelude.Float.{Float64}
use proto_test_msquic.Config.Load.{AppConfig}
use proto_test_msquic.Config.Load.Active.{
  active_send_connection_count, should_send_on_connection, count_below,
}
use proto_test_msquic.LoadClient.Profile.{has_stream_profile_pacing}

pub data PacingMode : Type 0 where
  unlimited total_pps per_client_pps : PacingMode

unfoldable pub determine_pacing_mode : AppConfig → PacingMode
determine_pacing_mode config =
    if ltb 0 config.send_pps_per_client
    then per_client_pps
    else if ltb 0 config.send_pps
    then total_pps
    else unlimited

abbrev pub is_unlimited : PacingMode → Bool
is_unlimited unlimited = true
is_unlimited total_pps = false
is_unlimited per_client_pps = false

abbrev pub is_per_client : PacingMode → Bool
is_per_client unlimited = false
is_per_client total_pps = false
is_per_client per_client_pps = true

abbrev pub is_total : PacingMode → Bool
is_total unlimited = false
is_total total_pps = true
is_total per_client_pps = false

-- The member `paced_`
unfoldable pub is_paced : AppConfig → Bool
is_paced config =
    not (is_unlimited (determine_pacing_mode config)) || has_stream_profile_pacing config

module _ (F : Float64) where
  abbrev pub zero_ns : F.Double
  zero_ns = F.literal 0 1

  abbrev pub second_ns : F.Double
  second_ns = F.literal 1000000000 1

  unfoldable pub interval_of_mode : AppConfig → ℕ → PacingMode → F.Double
  interval_of_mode config active unlimited = zero_ns
  interval_of_mode config active total_pps =
      if config.send_pps == 0 then zero_ns else F.div second_ns (F.of_uint config.send_pps)
  interval_of_mode config active per_client_pps =
      if config.send_pps_per_client == 0 || active == 0
      then zero_ns
      else F.div second_ns (F.of_uint config.send_pps_per_client)

  -- The member `pacing_interval_ns_`
  unfoldable pub pacing_interval_ns : AppConfig → F.Double
  unfolding interval_of_mode
  pacing_interval_ns config =
      interval_of_mode config (active_send_connection_count config) (determine_pacing_mode config)

  -- The loop over the identifiers below `connection_id` counts those that are sent on.
  unfoldable pub initial_per_client_send_time_ns : AppConfig → ℕ → F.Double → F.Double
  initial_per_client_send_time_ns config connection_id now_ns =
      let active = active_send_connection_count config in
      let interval = pacing_interval_ns config in
      let ordinal = count_below connection_id (should_send_on_connection config) in
      if not (is_per_client (determine_pacing_mode config))
        || (leb active 1 || F.less_eq interval zero_ns)
      then now_ns
      else F.add now_ns (F.mul (F.div interval (F.of_uint active)) (F.of_uint (ordinal % active)))

  -- Whether it is time to send, and the time to send next.
  unfoldable pub pace : F.Double → F.Double → F.Double → Bool × F.Double
  pace next interval now =
      let start = if F.equal next zero_ns then now else next in
      let later = F.add start interval in
      if F.less now start
      then (false, start)
      else (true, if F.less (F.add later (F.mul interval (F.literal 4 1))) now then now else later)
