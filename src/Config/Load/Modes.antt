-- ===== src/Config/Load/Modes.antt =====
-- The two modes of `LoadConfig`, and what holds of every configuration that it returns.
use proto_test_msquic.Prelude.{
  ℕ, ◌≤◌, ◌<◌, ◌^◌, ◌≡◌, inl, inr, Bool, ◌||◌, not, ok, Yields, Yields-value, Yields-error,
  Yields-if, Yields-bind, arith,
}
use proto_test_msquic.Config.Text.{Text, codes, text_eq, text_eq_eq}
use proto_test_msquic.Config.Number.{ℤ, u32, u64, max_u32}
use proto_test_msquic.Config.Args.{Args, get_bool, get_required, get_number, get_int}
use proto_test_msquic.Config.Load.{
  AppConfig, is_sctp, load_common, check_common, load_server, check_client, checked_client,
  load_client, load_mode, load_config,
}
use proto_test_msquic.Config.Load.Checked.{
  IsParsed, IsCommon, IsMode, IsLoaded, get_number-le-max, get_number-lt, load_common-IsParsed,
  check_common-IsCommon, check_client-IsClient,
}

checked_client-IsLoaded :
    (d : AppConfig)
    → IsParsed d
    → IsCommon d
    → d.mode ≡ codes "client"
    → d.client_count ≤ max_u32
    → d.max_inflight ≤ max_u32
    → Yields IsLoaded (checked_client d)
unfolding checked_client
checked_client-IsLoaded d parsed common m b1 b2 = Yields-bind (check_client d) λ u e.
    Yields-value (record {
      parsed = parsed;
      common = common;
      for_mode = inr (m, check_client-IsClient d b1 b2 parsed.servers_fit e);
    })

-- What a mode leaves alone: the fields that the common part has set.
module _ (c : AppConfig) (parsed : IsParsed c) (common : IsCommon c) where
  server_kept :
      (bind cert_file key_file password : Text)
      → let d = record c {
        bind = bind;
        cert_file = cert_file;
        key_file = key_file;
        password = password;
      } in
        IsMode d → IsLoaded d
  server_kept bind cert_file key_file password m = record {
    parsed = record {
      port_fits = parsed.port_fits;
      servers_fit = parsed.servers_fit;
      streams_fit = parsed.streams_fit;
      size_fits = parsed.size_fits;
      stream_id_fits = parsed.stream_id_fits;
      idle_fits = parsed.idle_fits;
      stats_fits = parsed.stats_fits;
      rate_fits = parsed.rate_fits;
      client_rate_fits = parsed.client_rate_fits;
      duration_fits = parsed.duration_fits;
      drain_fits = parsed.drain_fits;
      profiles_checked = parsed.profiles_checked;
      profiles_counted = parsed.profiles_counted;
    };
    common = record {
      holds_header = common.holds_header;
      some_server = common.some_server;
      some_stream = common.some_stream;
      tls_single = common.tls_single;
    };
    for_mode = m;
  }

  load_server-IsLoaded :
      (args : Args) → c.mode ≡ codes "server" → Yields IsLoaded (load_server args c)
  unfolding load_server
  load_server-IsLoaded args m =
      Yields-if (not (is_sctp c.protocol) || c.sctp_tls)
        (λ t. Yields-bind (get_required args (codes "cert")) λ cert _.
          Yields-bind (get_required args (codes "key"))
            λ key _. Yields-value (server_kept _ _ _ _ (inl m)))
        (λ t. Yields-value (server_kept _ _ _ _ (inl m)))

  client_kept :
      c.mode ≡ codes "client"
      → (target : Text) (client_count max_inflight : ℕ) (index : ℤ)
        (send_pps send_pps_per_client duration_sec drain_timeout_ms : ℕ) (verify_peer : Bool)
      → client_count ≤ max_u32
      → max_inflight ≤ max_u32
      → send_pps < 2 ^ 64
      → send_pps_per_client < 2 ^ 64
      → duration_sec < 2 ^ 64
      → drain_timeout_ms < 2 ^ 64
      → let d = record c {
        target = target;
        client_count = client_count;
        max_inflight = max_inflight;
        send_server_index = index;
        send_pps = send_pps;
        send_pps_per_client = send_pps_per_client;
        duration_sec = duration_sec;
        drain_timeout_ms = drain_timeout_ms;
        verify_peer = verify_peer;
      } in
        Yields IsLoaded (checked_client d)
  client_kept m target clients inflight index pps per duration drain verify b1 b2 f1 f2 f3 f4 =
      checked_client-IsLoaded _
        (record {
          port_fits = parsed.port_fits;
          servers_fit = parsed.servers_fit;
          streams_fit = parsed.streams_fit;
          size_fits = parsed.size_fits;
          stream_id_fits = parsed.stream_id_fits;
          idle_fits = parsed.idle_fits;
          stats_fits = parsed.stats_fits;
          rate_fits = f1;
          client_rate_fits = f2;
          duration_fits = f3;
          drain_fits = f4;
          profiles_checked = parsed.profiles_checked;
          profiles_counted = parsed.profiles_counted;
        })
        (record {
          holds_header = common.holds_header;
          some_server = common.some_server;
          some_stream = common.some_stream;
          tls_single = common.tls_single;
        })
        m b1 b2

  load_client-IsLoaded :
      (args : Args) → c.mode ≡ codes "client" → Yields IsLoaded (load_client args c)
  unfolding load_client
  load_client-IsLoaded args m = Yields-bind (get_required args (codes "target")) λ target _.
      Yields-bind (get_number u32 args (codes "clients") _) λ clients e1.
        Yields-bind (get_number u32 args (codes "max-inflight") _) λ inflight e2.
          Yields-bind (get_int args (codes "send-server-index") _) λ index _.
            Yields-bind (get_number u64 args (codes "send-pps") _) λ pps e3.
              Yields-bind (get_number u64 args (codes "send-pps-per-client") _) λ per e4.
                Yields-bind (get_number u64 args (codes "duration-sec") _) λ duration e5.
                  Yields-bind (get_number u64 args (codes "drain-timeout-ms") _) λ drain e6.
                    Yields-bind (get_bool args (codes "verify-peer") _) λ verify _.
                      client_kept m target clients inflight index pps per duration drain verify
                        (get_number-le-max u32 args _ _ (omega arith) e1)
                        (get_number-le-max u32 args _ _ (omega arith) e2)
                        (get_number-lt args _ _ (omega arith) e3)
                        (get_number-lt args _ _ (omega arith) e4)
                        (get_number-lt args _ _ (omega arith) e5)
                        (get_number-lt args _ _ (omega arith) e6)

  load_mode-IsLoaded : (args : Args) → Yields IsLoaded (load_mode args c)
  unfolding load_mode
  load_mode-IsLoaded args =
      Yields-if (text_eq c.mode (codes "server"))
        (λ t. load_server-IsLoaded args (text_eq_eq c.mode _ t))
        λ f.
          Yields-if (text_eq c.mode (codes "client"))
            (λ t. load_client-IsLoaded args (text_eq_eq c.mode _ t)) (λ g. Yields-error _)

-- A configuration that LoadConfig accepts passes all its checks: frames hold a header, there are
-- servers, streams and, for a client, connections and a window; the server index is -1 or names a
-- server; one send rate at most is given, and none beside profiles; every profile is checked; the
-- numbers fit their types.
pub load_config-IsLoaded : (args : Args) (c : AppConfig) → load_config args ≡ ok c → IsLoaded c
unfolding load_config
load_config-IsLoaded args c = (yields args).at c
  where
    yields : (args : Args) → Yields IsLoaded (load_config args)
    yields args = Yields-bind (load_common args) λ d e. Yields-bind (check_common d) λ u k.
        load_mode-IsLoaded d ((load_common-IsParsed args).at d e) (check_common-IsCommon d k) args
