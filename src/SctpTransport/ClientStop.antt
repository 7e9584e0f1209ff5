-- ===== src/SctpTransport/ClientStop.antt =====
-- The client's descriptors between `Start` and `Stop`.
use proto_test_msquic.Prelude.{
  tally, tally-append, ℕ, zero, suc, ◌+◌, ◌<◌, ◌≡◌, refl, ◌&&◌, ◌||◌, not, Bool, List, [], ◌∷◌,
  ◌++◌, put, Option, none, some, if_preserves, arith,
}
use proto_test_msquic.Config.Load.{AppConfig}
use proto_test_msquic.SctpTransport.{TransportCall, on_connected, close_entries, new_connection}
use proto_test_msquic.SctpTransport.Descriptors.{
  same, opens, closes, abandons, entry_held, entry_closes, IsSettled, IsTable, closing_calls,
  end_connection-held, end_connection-IsTable, put-entry_held, All-imp, All-put,
  close_entries-closes,
}
use proto_test_msquic.SctpTransport.Client.{
  ClientTransport, new_client, ConnectTurn, prepares, register, open_connection, open_connections,
  start, stop, end_connections,
}

-- The descriptors that are closed, lost or in someone's hands are those that were opened. `out` of
-- them are in the hands of the step that runs; the table's keys are less than `next`.
record IsBalanced (f out next : ℕ) (s : ClientTransport) : Type 0 where
  balance :
      tally (closes f) s.calls
        + tally (abandons f) s.calls
        + tally (entry_held f) s.connections
        + tally (entry_closes f) s.closed_connections
        + out
      ≡ tally (opens f) s.calls
  table : IsTable next s.connections

module _ (f : ℕ) where
  -- `cs` are the calls of a step that does not change the table.
  calls-IsBalanced :
      (out left next : ℕ) (s : ClientTransport) (cs : List TransportCall)
      → tally (closes f) cs + tally (abandons f) cs + left ≡ tally (opens f) cs + out
      → IsBalanced f out next s
      → IsBalanced f left next (record s { calls = s.calls ++ cs })
  calls-IsBalanced out left next s cs h b = record {
    balance = omega (
      arith,
      b.balance,
      h,
      tally-append (closes f) s.calls cs,
      tally-append (opens f) s.calls cs,
      tally-append (abandons f) s.calls cs,
    );
    table = b.table;
  }

  later-IsBalanced :
      (out next : ℕ) (s : ClientTransport) → IsBalanced f out next s → IsBalanced f out (next + 1) s
  later-IsBalanced out next s b = record {
    balance = b.balance;
    table = record {
      fresh = All-imp (λ p. p.0 < next) _ s.connections (λ p h. omega arith) b.table.fresh;
      settled = b.table.settled;
    };
  }

  insert-IsBalanced :
      (id : ℕ) (tls : Bool) (fd : ℕ) (s : ClientTransport)
      → IsBalanced f (same f fd) id s
      → IsBalanced f 0 (id + 1) (record s {
        connections = put id (new_connection tls fd) s.connections;
        calls = s.calls ++ on_connected id ∷ [];
      })
  unfolding new_connection closing_calls opens closes abandons
  insert-IsBalanced id tls fd s b =
      let later = later-IsBalanced (same f fd) id s b in
      record {
        balance = ground (
          arith,
          b.balance,
          put-entry_held f id (new_connection tls fd) s.connections b.table.fresh,
          tally-append (closes f) s.calls (on_connected id ∷ []),
          tally-append (opens f) s.calls (on_connected id ∷ []),
          tally-append (abandons f) s.calls (on_connected id ∷ []),
        );
        table = record {
          fresh = All-put (λ p. p.0 < id + 1) id _ s.connections (omega arith) later.table.fresh;
          settled =
              All-put (λ p. IsSettled p.1.connection) id _ s.connections (λ e. absurd (cc))
                b.table.settled;
        };
      }

  register-IsBalanced :
      (config : AppConfig) (id : ℕ) (turn : ConnectTurn) (fd : ℕ) (s : ClientTransport)
      → IsBalanced f (same f fd) id s
      → IsBalanced f 0 (id + 1) (register config id turn fd s).0
  unfolding register opens closes abandons
  register-IsBalanced config id turn fd s b =
      let t = record s {
        connections = put id (new_connection config.sctp_tls fd) s.connections;
        calls = s.calls ++ on_connected id ∷ [];
      } in
      let bt = insert-IsBalanced id config.sctp_tls fd s b in
      if_preserves (λ (x : ClientTransport × Bool). IsBalanced f 0 (id + 1) x.0)
        ((not config.sctp_tls || turn.shakes) && turn.constructs) _ _
        (if_preserves (IsBalanced f 0 (id + 1)) (config.sctp_tls || not turn.takes) _ _ bt
          (calls-IsBalanced 0 0 (id + 1) t _ refl bt))
        (calls-IsBalanced (same f fd) 0 (id + 1) s _ (omega arith) (later-IsBalanced _ id s b))

  open_connection-IsBalanced :
      (config : AppConfig) (i : ℕ) (turn : ConnectTurn) (o : Option ℕ) (s : ClientTransport)
      → IsBalanced f 0 i s
      → IsBalanced f 0 (i + 1) (open_connection config i turn o s).0
  unfolding open_connection opens closes abandons
  open_connection-IsBalanced config i turn none s b = later-IsBalanced 0 i s b
  open_connection-IsBalanced config i turn (some fd) s b =
      if_preserves (λ (x : ClientTransport × Bool). IsBalanced f 0 (i + 1) x.0)
        (prepares config turn) _ _
        (register-IsBalanced config i turn fd _
          (calls-IsBalanced 0 (same f fd) i s _ (omega arith) b))
        (calls-IsBalanced 0 0 (i + 1) s _ (omega arith) (later-IsBalanced 0 i s b))

  open_connections-IsBalanced :
      (config : AppConfig) (turn : ℕ → ConnectTurn) (count i : ℕ) (s : ClientTransport)
      → IsBalanced f 0 i s
      → (n : ℕ) × IsBalanced f 0 n (open_connections config turn count i s).0
  unfolding open_connections
  open_connections-IsBalanced config turn zero i s b = (i, b)
  open_connections-IsBalanced config turn (suc count) i s b =
      let r = open_connection config i (turn i) (turn i).socket s in
      let one = open_connection-IsBalanced config i (turn i) (turn i).socket s b in
      if_preserves (λ (x : ClientTransport × Bool). (n : ℕ) × IsBalanced f 0 n x.0) r.1 _ _
        (open_connections-IsBalanced config turn count (i + 1) r.0 one) (i + 1, one)

  start-IsBalanced :
      (config : AppConfig) (turn : ℕ → ConnectTurn)
      → (n : ℕ) × IsBalanced f 0 n (start config turn new_client).0
  unfolding start opens closes abandons
  start-IsBalanced config turn =
      let r = open_connections config turn config.client_count 0 new_client in
      let (n, b) =
        open_connections-IsBalanced config turn config.client_count 0 new_client
          (record { balance = refl; table = record { fresh = tt; settled = tt } }) in
      if_preserves (λ (x : ClientTransport × Bool). (n : ℕ) × IsBalanced f 0 n x.0)
        (r.1 && config.sctp_tls) _ _ (n, calls-IsBalanced 0 0 n r.0 _ refl b) (n, b)

  end_connections-IsBalanced :
      (ids : List ℕ) (n : ℕ) (s : ClientTransport)
      → IsBalanced f 0 n s
      → IsBalanced f 0 n (end_connections ids s)
  unfolding end_connections
  end_connections-IsBalanced [] n s b = b
  end_connections-IsBalanced (id ∷ ids) n s b = end_connections-IsBalanced ids n _ (record {
    balance = omega (arith, b.balance, end_connection-held f id s.connections);
    table = end_connection-IsTable id n s.connections b.table;
  })

-- From Start to Stop of the SCTP client, each descriptor that was opened is closed once, by the
-- transport or by its connection, but for one that Start loses when the handshake or the making of
-- the connection throws.
pub client_stop-descriptors :
    (config : AppConfig) (turn : ℕ → ConnectTurn) (ids : List ℕ) (f : ℕ)
    → let s = stop (end_connections ids (start config turn new_client).0) in
      tally (closes f) s.calls
        + tally (abandons f) s.calls
        + tally (entry_closes f) s.closed_connections
      ≡ tally (opens f) s.calls
unfolding stop
client_stop-descriptors config turn ids f =
    let (n, b) = start-IsBalanced f config turn in
    let s = end_connections ids (start config turn new_client).0 in
    let bs = end_connections-IsBalanced f ids n _ b in
    omega (
      arith,
      bs.balance,
      tally-append (entry_closes f) s.closed_connections (close_entries s.connections),
      close_entries-closes f n s.connections bs.table,
    )
