-- ===== src/QuicClient/Counted.antt =====
-- The count of the QUIC client's open connections, over the handlers of one connection.
use proto_test_msquic.Prelude.{
  ℕ, zero, suc, ◌+◌, ◌^◌, ◌<◌, ◌≤◌, ◌≡◌, refl, ap, List, [], ◌∷◌, Option, none, some, tally,
  get_elem?, set, length, if◌then◌else◌, arith,
}
use proto_test_msquic.QuicClient.{ConnectionContext, QuicClient}
use proto_test_msquic.QuicClient.Active.{close_calls, accounts}
use proto_test_msquic.QuicClient.Run.{QuicClients, on_connection, for_each, for_all}

abbrev pub is_open : {D : Type 0} → ConnectionContext D → ℕ
is_open c = if c.closed then 0 else 1

-- The number of connections that are not closed.
abbrev pub open_count : {D : Type 0} → List (ConnectionContext D) → ℕ
open_count cs = tally is_open cs

tally-set {ℓ} :
    {A : Type ℓ} (n : A → ℕ) (xs : List A) (i : ℕ) (x y : A)
    → get_elem? xs i ≡ some x
    → (tally n (set xs i y) + n x ≡ tally n xs + n y) × (n x ≤ tally n xs)
tally-set n [] i x y e = absurd (cc)
tally-set n (z ∷ xs) zero x y e = let same : z ≡ x = cc in rw same (omega arith, omega arith)
tally-set n (z ∷ xs) (suc i) x y e =
    let ih = tally-set n xs i x y e in (omega (arith, ih.0), omega (arith, ih.1))

-- A handler counts the connection off when it closes it, and calls `ConnectionClose` then.
abbrev pub IsKept : {D : Type 0} → QuicClient D → QuicClient D → Type 0
IsKept v w =
    (w.active_connections + is_open v.connection ≡ v.active_connections + is_open w.connection)
    × (tally close_calls w.calls + w.active_connections
        ≡ tally close_calls v.calls + v.active_connections)

pub accounts-IsKept : {D : Type 0} (v w : QuicClient D) → accounts w ≡ accounts v → IsKept v w
accounts-IsKept v w e =
    let a : w.active_connections ≡ v.active_connections = ap (λ p. p.0) e in
    let b : w.connection.closed ≡ v.connection.closed = ap (λ p. p.1.0) e in
    let c : tally close_calls w.calls ≡ tally close_calls v.calls = ap (λ p. p.1.1) e in
    (ground (arith, a, b), omega (arith, a, c))

-- The state between two handlers, of a client that has had `n` connections.
pub record IsCounted {D : Type 0} (n : ℕ) (s : QuicClients D) : Type 0 where
  pub counted : s.shared.active_connections ≡ open_count s.connections
  pub closed_once : tally close_calls s.shared.calls + s.shared.active_connections ≡ n

-- A handler that may be called for an open or a closed connection.
abbrev pub IsHandler : {D : Type 0} → (QuicClient D → QuicClient D) → Type 0
IsHandler handler =
    (v : _)
    → is_open v.connection ≤ v.active_connections
    → v.active_connections < 2 ^ 32
    → IsKept v (handler v)

pub accounts-IsHandler :
    {D : Type 0} (handler : QuicClient D → QuicClient D)
    → ((v : QuicClient D) → accounts (handler v) ≡ accounts v)
    → IsHandler handler
accounts-IsHandler handler same v h fits = accounts-IsKept v (handler v) (same v)

pub on_connection-IsCounted :
    {D : Type 0} (n i : ℕ) (handler : QuicClient D → QuicClient D) (s : QuicClients D)
    → n < 2 ^ 32
    → IsHandler handler
    → IsCounted n s
    → IsCounted n (on_connection i handler s)
unfolding on_connection
on_connection-IsCounted n i handler s fits h k = go (get_elem? s.connections i) refl
  where
    go :
        (o : Option (ConnectionContext _))
        → get_elem? s.connections i ≡ o
        → IsCounted n (elim o [
          | none ↦ s
          | some c ↦
              let r = handler (record (s.shared) { connection = c }) in
              record s { connections = set s.connections i r.connection; shared = r }
        ])
    go none e = k
    go (some c) e =
        let v = record (s.shared) { connection = c } in
        let l = tally-set is_open s.connections i c (handler v).connection e in
        let kept = h v (omega (arith, k.counted, l.1)) (omega (arith, k.closed_once)) in
        record {
          counted = omega (arith, kept.0, l.0, k.counted);
          closed_once = omega (arith, kept.1, k.closed_once);
        }

for_each-IsCounted :
    {D : Type 0} (n : ℕ) (handler : QuicClient D → QuicClient D)
    → n < 2 ^ 32
    → IsHandler handler
    → (left i : ℕ) (s : QuicClients D) → IsCounted n s
    → IsCounted n (for_each handler left i s)
unfolding for_each
for_each-IsCounted n handler fits h zero i s k = k
for_each-IsCounted n handler fits h (suc left) i s k =
    for_each-IsCounted n handler fits h left (i + 1) (on_connection i handler s)
      (on_connection-IsCounted n i handler s fits h k)

pub for_all-IsCounted :
    {D : Type 0} (n : ℕ) (handler : QuicClient D → QuicClient D) (s : QuicClients D)
    → n < 2 ^ 32
    → IsHandler handler
    → IsCounted n s
    → IsCounted n (for_all handler s)
unfolding for_all
for_all-IsCounted n handler s fits h k =
    for_each-IsCounted n handler fits h (length s.connections) 0 s k
