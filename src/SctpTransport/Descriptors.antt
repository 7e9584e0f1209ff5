-- ===== src/SctpTransport/Descriptors.antt =====
-- How often a descriptor is opened and closed: by a transport itself, and by its connections.
use proto_test_msquic.Prelude.{
  ℕ, ◌+◌, ◌<◌, ◌≡◌, refl, ◌∙◌, true, false, Bool-cases, inl, inr, List, [], ◌∷◌, ◌++◌, tally,
  tally-append, Map, put, map, ltb, ◌==◌, if◌then◌else◌, if_preserves, All, arith,
}
use proto_test_msquic.SctpConnection.{
  Call, shutdown_both, close_fd, on_closed, Connection, close, close_socket, finish,
}
use proto_test_msquic.SctpTransport.{
  Entry, TransportCall, socket_opened, socket_closed, on_connected_threw, handshake_threw,
  close_entries, end_connection,
}

-- 1 if the descriptor is `f`.
abbrev pub same : ℕ → ℕ → ℕ
same f g = if f == g then 1 else 0

-- What a call of the transport counts as: a descriptor opened, closed, or closed by the `catch`
-- although the table has it.
unfoldable pub opens : ℕ → TransportCall → ℕ
opens f (socket_opened g) = same f g
opens f c = 0

unfoldable pub closes : ℕ → TransportCall → ℕ
closes f (socket_closed g) = same f g
closes f c = 0

unfoldable pub throws : ℕ → TransportCall → ℕ
throws f (on_connected_threw g) = same f g
throws f c = 0

pub closes-map : (f : ℕ) (gs : List ℕ) → tally (closes f) (map socket_closed gs) ≡ tally (same f) gs
unfolding closes
closes-map f [] = refl
closes-map f (g ∷ gs) = omega (arith, closes-map f gs)

pub opens-map : (f : ℕ) (gs : List ℕ) → tally (opens f) (map socket_closed gs) ≡ 0
unfolding opens
opens-map f [] = refl
opens-map f (g ∷ gs) = omega (arith, opens-map f gs)

pub throws-map : (f : ℕ) (gs : List ℕ) → tally (throws f) (map socket_closed gs) ≡ 0
unfolding throws
throws-map f [] = refl
throws-map f (g ∷ gs) = omega (arith, throws-map f gs)

-- The calls of `CloseFd` that close, and those still to come.
unfoldable pub closing_calls : Call → ℕ
closing_calls close_fd = 1
closing_calls c = 0

abbrev pub held : Connection → ℕ
held c = tally closing_calls c.calls + (if c.fd_open then 1 else 0)

abbrev pub entry_held : ℕ → ℕ × Entry → ℕ
entry_held f p = if f == p.1.fd then held p.1.connection else 0

unfoldable pub entry_closes : ℕ → ℕ × Entry → ℕ
unfolding closing_calls
entry_closes f p = if f == p.1.fd then tally closing_calls p.1.connection.calls else 0

abbrev pub IsSettled : Connection → Type 0
IsSettled c = c.closed ≡ true → c.fd_open ≡ false

close_socket-held : (c : Connection) → held (close_socket c) ≡ held c
unfolding close_socket closing_calls
close_socket-held c = elim (Bool-cases c.fd_open) [
  | inl e ↦ ground (arith, tally-append closing_calls c.calls (close_fd ∷ []))
  | inr e ↦ ground arith
]

close_socket-shut : (c : Connection) → (close_socket c).fd_open ≡ false
unfolding close_socket
close_socket-shut c = ground arith

pub close-held : (c : Connection) → held (close c) ≡ held c
unfolding close closing_calls
close-held c = elim (Bool-cases c.closed) [
  | inl e ↦ rw (e, close) refl
  | inr e ↦
      let t = record c { closed = true; calls = c.calls ++ shutdown_both ∷ [] } in
      rw (e, close)
        (close_socket-held t
          ∙ omega (arith, tally-append closing_calls c.calls (shutdown_both ∷ [])))
]

pub close-shut : (c : Connection) → IsSettled c → (close c).fd_open ≡ false
unfolding close
close-shut c h = elim (Bool-cases c.closed) [
  | inl e ↦ rw (e, close) (h e)
  | inr e ↦
      rw (e, close)
        (close_socket-shut (record c { closed = true; calls = c.calls ++ shutdown_both ∷ [] }))
]

pub finish-held : (c : Connection) → held (finish c) ≡ held c
unfolding finish closing_calls
finish-held c =
    omega (arith, close-held c, tally-append closing_calls (close c).calls (on_closed ∷ []))

pub finish-IsSettled : (c : Connection) → IsSettled c → IsSettled (finish c)
unfolding finish
finish-IsSettled c h e = close-shut c h

-- A table's connections, with keys that are less than the next.
pub record IsTable (next : ℕ) (m : Map Entry) : Type 0 where
  pub fresh : All (λ p. p.0 < next) m
  pub settled : All (λ p. IsSettled p.1.connection) m

pub put-entry_held :
    (f k : ℕ) (e : Entry) (m : Map Entry)
    → All (λ p. p.0 < k) m
    → tally (entry_held f) (put k e m) ≡ tally (entry_held f) m + entry_held f (k, e)
unfolding put
put-entry_held f k e [] h = omega arith
put-entry_held f k e ((j, d) ∷ m) h = ground (arith, h.0, put-entry_held f k e m h.1)

pub All-imp :
    (P Q : ℕ × Entry → Type 0) (m : Map Entry) → ((p : ℕ × Entry) → P p → Q p) → All P m → All Q m
All-imp P Q [] h hs = tt
All-imp P Q (p ∷ m) h hs = (h p hs.0, All-imp P Q m h hs.1)

pub All-put :
    (P : ℕ × Entry → Type 0) (k : ℕ) (e : Entry) (m : Map Entry)
    → P (k, e)
    → All P m
    → All P (put k e m)
unfolding put
All-put P k e [] h hs = (h, tt)
All-put P k e ((j, d) ∷ m) h hs =
    if_preserves (All P) (j == k) _ _ (h, hs.1)
      (if_preserves (All P) (ltb k j) _ _ (h, hs) (hs.0, All-put P k e m h hs.1))

pub close_entries-closes :
    (f next : ℕ) (m : Map Entry)
    → IsTable next m
    → tally (entry_closes f) (close_entries m) ≡ tally (entry_held f) m
unfolding close_entries entry_closes
close_entries-closes f next [] t = refl
close_entries-closes f next ((id, e) ∷ m) t = ground (
  arith,
  close-held e.connection,
  close-shut e.connection t.settled.0,
  close_entries-closes f next m (record { fresh = t.fresh.1; settled = t.settled.1 }),
)

pub end_connection-held :
    (f id : ℕ) (m : Map Entry) → tally (entry_held f) (end_connection id m) ≡ tally (entry_held f) m
unfolding end_connection
end_connection-held f id [] = refl
end_connection-held f id ((j, e) ∷ m) = elim (Bool-cases (j == id)) [
  | inl h ↦ rw (h, finish-held e.connection, end_connection-held f id m) refl
  | inr h ↦ rw (h, end_connection-held f id m) refl
]

pub end_connection-IsTable :
    (id next : ℕ) (m : Map Entry) → IsTable next m → IsTable next (end_connection id m)
unfolding end_connection
end_connection-IsTable id next [] t = t
end_connection-IsTable id next ((j, e) ∷ m) t =
    let rest =
      end_connection-IsTable id next m (record { fresh = t.fresh.1; settled = t.settled.1 }) in
    record {
      fresh = (t.fresh.0, rest.fresh);
      settled = (
        if_preserves (λ (d : Entry). IsSettled d.connection) (j == id) _ _
            (finish-IsSettled e.connection t.settled.0) t.settled.0,
        rest.settled,
      );
    }

-- A call of the client's: a descriptor that nobody has any more.
unfoldable pub abandons : ℕ → TransportCall → ℕ
abandons f (handshake_threw g) = same f g
abandons f c = 0
