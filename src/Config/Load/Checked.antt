-- ===== src/Config/Load/Checked.antt =====
-- What holds of every configuration that `LoadConfig` returns.
use proto_test_msquic.Prelude.{
  ℕ, ◌%◌, ◌^◌, ◌≤◌, ◌<◌, ◌≡◌, refl, ◌⊎◌, inl, inr, true, false, ◌&&◌, ◌||◌, not, List, [], ◌∷◌,
  Option, none, some, ok, Yields, Yields-value, Yields-bind, ok-injective, throw_if-eq-ok, All,
  length, ltb, ◌==◌, arith,
}
use proto_test_msquic.Config.Text.{Text, codes}
use proto_test_msquic.Config.Number.{
  ℤ, pos, negsuc, Width, u16, u32, u64, max_of, max_u16, max_u32, parse_number-le-max,
}
use proto_test_msquic.Config.Args.{Args, parse_protocol, find_arg, number_or, get_bool, get_number}
use proto_test_msquic.Config.Profiles.{
  StreamProfile, IsProfile, parse_stream_profiles, parse_stream_profiles-All,
}
use proto_test_msquic.Config.Load.{
  AppConfig, is_sctp, is_empty, to_int, ltb_ℤ, with_profiles, load_profiles, load_common,
  check_common, check_client,
}

-- The numbers fit their types, and a list of profiles comes with its length.
pub record IsParsed (c : AppConfig) : Type 0 where
  pub port_fits : c.base_port ≤ max_u16
  pub servers_fit : c.server_count ≤ max_u32
  pub streams_fit : c.stream_count ≤ max_u32
  pub size_fits : c.message_size ≤ max_u32
  pub stream_id_fits : c.sctp_stream_id ≤ max_u16
  pub idle_fits : c.idle_timeout_ms < 2 ^ 64
  pub stats_fits : c.stats_interval_ms < 2 ^ 64
  pub rate_fits : c.send_pps < 2 ^ 64
  pub client_rate_fits : c.send_pps_per_client < 2 ^ 64
  pub duration_fits : c.duration_sec < 2 ^ 64
  pub drain_fits : c.drain_timeout_ms < 2 ^ 64
  pub profiles_checked : All IsProfile c.stream_profiles
  pub profiles_counted :
      (c.stream_profiles ≡ []) ⊎ (c.stream_count ≡ length c.stream_profiles % 2 ^ 32)

pub record IsCommon (c : AppConfig) : Type 0 where
  pub holds_header : 24 ≤ c.message_size
  pub some_server : 0 < c.server_count
  pub some_stream : 0 < c.stream_count
  pub tls_single : (is_sctp c.protocol && c.sctp_tls) ≡ true → c.stream_count ≤ 1

-- -1 for every server, or the index of one of them
abbrev pub IsServerIndex : ℤ → ℕ → Type 0
IsServerIndex (pos i) servers = i < servers
IsServerIndex (negsuc i) servers = i ≡ 0

pub record IsClient (c : AppConfig) : Type 0 where
  pub some_client : 0 < c.client_count
  pub clients_fit : c.client_count ≤ max_u32
  pub sends_some : 0 < c.max_inflight
  pub inflight_fits : c.max_inflight ≤ max_u32
  pub index_valid : IsServerIndex c.send_server_index c.server_count
  pub servers_signed : c.server_count < 2 ^ 31
  pub one_rate : (c.send_pps ≡ 0) ⊎ (c.send_pps_per_client ≡ 0)
  pub profile_rates : (c.stream_profiles ≡ []) ⊎ ((c.send_pps ≡ 0) × (c.send_pps_per_client ≡ 0))

abbrev pub IsMode : AppConfig → Type 0
IsMode c = (c.mode ≡ codes "server") ⊎ ((c.mode ≡ codes "client") × IsClient c)

pub record IsLoaded (c : AppConfig) : Type 0 where
  pub parsed : IsParsed c
  pub common : IsCommon c
  pub for_mode : IsMode c

number_or-le-max :
    (w : Width) (key : Text) (d : ℕ) (o : Option Text) {n : ℕ}
    → d ≤ max_of w
    → number_or w key d o ≡ ok n
    → n ≤ max_of w
unfolding number_or
number_or-le-max w key d none h e = rw (ok-injective e) at h
number_or-le-max w key d (some v) h e = parse_number-le-max w v key e

pub get_number-le-max :
    (w : Width) (args : Args) (key : Text) (d : ℕ) {n : ℕ}
    → d ≤ max_of w
    → get_number w args key d ≡ ok n
    → n ≤ max_of w
unfolding get_number
get_number-le-max w args key d h e = number_or-le-max w key d (find_arg args key) h e

pub get_number-lt :
    (args : Args) (key : Text) (d : ℕ) {n : ℕ}
    → d < 2 ^ 64
    → get_number u64 args key d ≡ ok n
    → n < 2 ^ 64
get_number-lt args key d h e = omega (arith, get_number-le-max u64 args key d (omega arith) e)

with_profiles-IsParsed :
    (c : AppConfig) (o : Option Text) → IsParsed c → Yields IsParsed (with_profiles c o)
unfolding with_profiles
with_profiles-IsParsed c none v = Yields-value v
with_profiles-IsParsed c (some value) v = Yields-bind (parse_stream_profiles value) λ ps e.
    Yields-value (record {
      port_fits = v.port_fits;
      servers_fit = v.servers_fit;
      streams_fit = omega arith;
      size_fits = v.size_fits;
      stream_id_fits = v.stream_id_fits;
      idle_fits = v.idle_fits;
      stats_fits = v.stats_fits;
      rate_fits = v.rate_fits;
      client_rate_fits = v.client_rate_fits;
      duration_fits = v.duration_fits;
      drain_fits = v.drain_fits;
      profiles_checked = parse_stream_profiles-All value ps e;
      profiles_counted = inr refl;
    })

load_profiles-IsParsed :
    (args : Args) (c : AppConfig) → IsParsed c → Yields IsParsed (load_profiles args c)
unfolding load_profiles
load_profiles-IsParsed args c v = with_profiles-IsParsed c _ v

pub load_common-IsParsed : (args : Args) → Yields IsParsed (load_common args)
unfolding load_common
load_common-IsParsed args = Yields-bind (parse_protocol _) λ protocol _.
    Yields-bind (get_number u16 args _ _) λ base_port e1.
      Yields-bind (get_number u32 args _ _) λ server_count e2.
        Yields-bind (get_number u32 args _ _) λ stream_count e3.
          Yields-bind (get_number u32 args _ _) λ message_size e4.
            Yields-bind (get_number u64 args _ _) λ idle e5.
              Yields-bind (get_number u64 args _ _) λ stats e6.
                Yields-bind (get_bool args _ _) λ nodelay _.
                  Yields-bind (get_number u16 args _ _) λ stream_id e7.
                    Yields-bind (get_bool args _ _) λ tls _. load_profiles-IsParsed args _ (record {
                      port_fits = get_number-le-max u16 args _ _ (omega arith) e1;
                      servers_fit = get_number-le-max u32 args _ _ (omega arith) e2;
                      streams_fit = get_number-le-max u32 args _ _ (omega arith) e3;
                      size_fits = get_number-le-max u32 args _ _ (omega arith) e4;
                      stream_id_fits = get_number-le-max u16 args _ _ (omega arith) e7;
                      idle_fits = get_number-lt args _ _ (omega arith) e5;
                      stats_fits = get_number-lt args _ _ (omega arith) e6;
                      rate_fits = omega arith;
                      client_rate_fits = omega arith;
                      duration_fits = omega arith;
                      drain_fits = omega arith;
                      profiles_checked = tt;
                      profiles_counted = inl refl;
                    })

pub check_common-IsCommon : (c : AppConfig) {u : Unit {0}} → check_common c ≡ ok u → IsCommon c
unfolding check_common
check_common-IsCommon c h = record {
  holds_header = ground arith;
  some_server = ground arith;
  some_stream = ground arith;
  tls_single = λ t. ground arith;
}

index_checked :
    (i : ℤ) (servers : ℕ)
    → servers ≤ max_u32
    → ltb_ℤ i (negsuc 0) ≡ false
    → not (ltb_ℤ i (to_int servers)) ≡ false
    → IsServerIndex i servers × (servers < 2 ^ 31)
index_checked (pos i) servers fits low high = ground arith
index_checked (negsuc i) servers fits low high = ground arith

rates_checked :
    (pps per_client : ℕ) → (ltb 0 pps && ltb 0 per_client) ≡ false → (pps ≡ 0) ⊎ (per_client ≡ 0)
rates_checked pps per_client h = ground arith

profiles_checked_rates :
    (ps : List StreamProfile) (pps per_client : ℕ)
    → (not (is_empty ps) && (ltb 0 pps || ltb 0 per_client)) ≡ false
    → (ps ≡ []) ⊎ ((pps ≡ 0) × (per_client ≡ 0))
profiles_checked_rates [] pps per_client h = inl refl
profiles_checked_rates (p ∷ ps) pps per_client h = inr (ground arith)

pub check_client-IsClient :
    (c : AppConfig) {u : Unit {0}}
    → c.client_count ≤ max_u32
    → c.max_inflight ≤ max_u32
    → c.server_count ≤ max_u32
    → check_client c ≡ ok u
    → IsClient c
unfolding check_client
check_client-IsClient c clients inflight servers h =
    let (g1, h1) = throw_if-eq-ok (c.client_count == 0) _ _ h in
    let (g2, h2) = throw_if-eq-ok (c.max_inflight == 0) _ _ h1 in
    let (g3, h3) = throw_if-eq-ok (ltb_ℤ c.send_server_index (negsuc 0)) _ _ h2 in
    let (g4, h4) =
      throw_if-eq-ok (not (ltb_ℤ c.send_server_index (to_int c.server_count))) _ _ h3 in
    let (g5, h5) = throw_if-eq-ok (ltb 0 c.send_pps && ltb 0 c.send_pps_per_client) _ _ h4 in
    let (g6, h6) =
      throw_if-eq-ok
        (not (is_empty c.stream_profiles) && (ltb 0 c.send_pps || ltb 0 c.send_pps_per_client)) _ _
        h5 in
    let i = index_checked c.send_server_index c.server_count servers g3 g4 in
    record {
      some_client = ground arith;
      clients_fit = clients;
      sends_some = ground arith;
      inflight_fits = inflight;
      index_valid = i.0;
      servers_signed = i.1;
      one_rate = rates_checked c.send_pps c.send_pps_per_client g5;
      profile_rates = profiles_checked_rates c.stream_profiles c.send_pps c.send_pps_per_client g6;
    }
