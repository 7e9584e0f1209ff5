-- ===== src/Witnesses/Runs.antt =====
-- Instances of the theorems on the SCTP client.
use proto_test_msquic.Prelude.{
  ◌⊎◌, ℕ, ◌+◌, ◌≤◌, ◌≡◌, ◌≢◌, refl, sym, ap, ◌∙◌, Bool, true, false, [], ◌∷◌, ◌++◌, Option, none,
  some, find, find_or, length, arith,
}
use proto_test_msquic.Prelude.Float.{milli}
use proto_test_msquic.Config.Profiles.{StreamProfile}
use proto_test_msquic.Config.Load.{default_config, is_empty}
use proto_test_msquic.Frame.{Bytes}
use proto_test_msquic.Stats.{Stats, add64}
use proto_test_msquic.LoadClient.{ClientConnection, Client, close_send}
use proto_test_msquic.LoadClient.Profile.{stream_profile_for_ordinal, default_stream_profile}
use proto_test_msquic.LoadClient.Pump.{Pump, out_of_fuel, new_stream, inflight, pump_loop}
use proto_test_msquic.LoadClient.Sending.{pump_sends}
use proto_test_msquic.LoadClient.Pump.Bounds.{pump_loop-bounds}
use proto_test_msquic.LoadClient.Pump.Inflight.{AreWindowed, pump_loop-AreWindowed}
use proto_test_msquic.LoadClient.Pump.Drained.{AreEchoed}
use proto_test_msquic.LoadClient.Pump.Stopping.{pump_sends-stopped}
use proto_test_msquic.Config.Text.{codes}
use proto_test_msquic.LoadClient.{ClientStream}
use proto_test_msquic.LoadClient.Receive.{receive_on}
use proto_test_msquic.LoadClient.Receive.Counters.{echoed_of, receive_on-counts}

abbrev ticks : ℕ → ℕ
ticks k = k + 100

abbrev sends_all : ℕ → ℕ → Bytes → Bool
sends_all c stream bytes = true

abbrev shuts_all : ℕ → Bool
shuts_all c = true

abbrev no_stats : Stats
no_stats = record {
  sent_bytes = 0;
  recv_bytes = 0;
  sent_messages = 0;
  recv_messages = 0;
  latency_samples = [];
}

abbrev connection : ClientConnection ℕ
connection = record {
  has_connection = true;
  streams = [];
  next_send_time_ns = 0;
  next_send_stream_ordinal = 0;
  connected = true;
  send_closed = false;
}

abbrev pump : Pump milli
pump = record { connection = connection; clock_reads = 0; sends = [] }

abbrev client : Client ℕ
client = record {
  states = (0, connection) ∷ [];
  closed_connections = [];
  stats = no_stats;
  stream_metrics = [];
  stop_sending = true;
  global_next_send_time_ns = 0;
  next_paced_connection_index = 0;
  clock_reads = 0;
  actions = [];
  undefined = false;
}

pump_loop-bounds_example :
    let r = pump_loop milli ticks default_config 0 3 false 4 pump in
    (r.1 ≢ out_of_fuel) × (length r.0.sends ≤ 3)
pump_loop-bounds_example =
    pump_loop-bounds milli ticks default_config 0 3 false 4 pump (omega arith) (omega arith)

named :
    (i : ℕ) (p : StreamProfile)
    → stream_profile_for_ordinal default_config i ≡ some p
    → is_empty p.name ≡ false
unfolding stream_profile_for_ordinal default_stream_profile
named i p e = go (default_stream_profile default_config) refl e
  where
    go :
        (q : StreamProfile)
        → q ≡ default_stream_profile default_config
        → ◌≡◌ {A = Option StreamProfile} (some q) (some p)
        → is_empty p.name ≡ false
    go q h e =
        let same : q ≡ p = cc in ap (λ x. is_empty x.name) (sym same) ∙ ap (λ x. is_empty x.name) h

fresh : AreWindowed milli []
unfolding AreWindowed find_or find new_stream inflight
fresh = λ j. record {
  within = omega arith;
  idle = λ h. refl;
  sequence_fits = omega arith;
  echoed_fits = omega arith;
}

pump_loop-AreWindowed_example :
    AreWindowed milli (pump_loop milli ticks default_config 0 3 false 4 pump).0.connection.streams
pump_loop-AreWindowed_example =
    pump_loop-AreWindowed milli ticks default_config named 0 3 false 4 pump fresh

present : find 0 client.states ≡ some connection
unfolding find
present = refl

abbrev idle_stream : ClientStream ℕ
idle_stream = record {
  profile = record { name = codes "video"; message_size = 64; max_inflight = 4; send_pps = 0 };
  receive_buffer = [];
  next_sequence = 5;
  echoed_messages = 3;
  next_send_time_ns = 0;
}

-- A connection one of whose streams has two messages in flight.
abbrev unechoed : ClientConnection ℕ
unechoed = record connection { streams = (0, idle_stream) ∷ [] }

abbrev stopping : Client ℕ
stopping = record client { states = (0, unechoed) ∷ [] }

unechoed_found : find 0 stopping.states ≡ some unechoed
unfolding find
unechoed_found = refl

pump_sends-stopped_example :
    let r = pump_sends milli ticks default_config sends_all shuts_all 0 3 stopping in
    (r.1 ≡ (0, none))
    × ((AreEchoed milli default_config unechoed
          × (r.0.actions ≡ [] ++ close_send 0 ∷ [])
          × (find 0 r.0.states ≡ some (record unechoed { send_closed = true })))
        ⊎ (¬ AreEchoed milli default_config unechoed
            × (r.0.actions ≡ [])
            × (find 0 r.0.states ≡ some (record unechoed { send_closed = false }))))
pump_sends-stopped_example =
    pump_sends-stopped milli ticks default_config sends_all shuts_all 0 3 unechoed stopping refl
      unechoed_found refl refl refl refl

receive_on-counts_example :
    let t = (receive_on milli ticks default_config 0 0 (1 ∷ 2 ∷ []) idle_stream client).0 in
    (add64 (echoed_of milli 0 0 t) 0 ≡ add64 3 t.stats.recv_messages)
    × (add64 (length t.stats.latency_samples) 0 ≡ add64 0 t.stats.recv_messages)
receive_on-counts_example =
    receive_on-counts milli ticks default_config 0 0 (1 ∷ 2 ∷ []) idle_stream client
