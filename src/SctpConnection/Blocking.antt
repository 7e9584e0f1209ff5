-- ===== src/SctpConnection/Blocking.antt =====
-- The loops that write: `SctpConnection::SendBlocking`, and the one of `SendCopy` with TLS.
-- What the system calls return, in order, is an argument; a loop whose list runs out has not ended.
use proto_test_msquic.Prelude.{
  ℕ, ◌+◌, ◌≤◌, ◌≡◌, refl, ap, sym, ◌∙◌, Bool, true, false, not, ◌||◌, List, [], ◌∷◌, ◌++◌, length,
  take, drop, length-drop, take-append-drop, append_assoc, append-nil, ◌≢◌, arith, if◌then◌else◌,
}
use proto_test_msquic.Frame.{Bytes}

-- `sendmsg`: the bytes it took, EINTR, or another error.
pub data SendResult : Type 0 where
  took : ℕ → SendResult
  interrupted send_error : SendResult

pub data WriteEnd : Type 0 where
  written dropped thrown blocked : WriteEnd

unfoldable pub send_blocking : List SendResult → Bytes → Bytes × WriteEnd
send_blocking results [] = ([], written)
send_blocking [] (b ∷ bs) = ([], blocked)
send_blocking (took n ∷ results) (b ∷ bs) =
    let r = send_blocking results (drop n (b ∷ bs)) in (take n (b ∷ bs) ++ r.0, r.1)
send_blocking (interrupted ∷ results) (b ∷ bs) = send_blocking results (b ∷ bs)
send_blocking (send_error ∷ results) (b ∷ bs) = ([], thrown)

-- `SSL_write_ex`: the bytes it wrote, what it waits for, or an error; and `closed_` as it is seen
-- when the call did not succeed.
pub data SslResult : Type 0 where
  wrote : ℕ → SslResult
  want_read want_write ssl_error : SslResult

unfoldable pub send_tls : List (SslResult × Bool) → Bytes → Bytes × WriteEnd
send_tls results [] = ([], written)
send_tls [] (b ∷ bs) = ([], blocked)
send_tls ((wrote n, closed) ∷ results) (b ∷ bs) =
    let r = send_tls results (drop n (b ∷ bs)) in (take n (b ∷ bs) ++ r.0, r.1)
send_tls ((want_read, closed) ∷ results) (b ∷ bs) =
    let r = send_tls results (b ∷ bs) in if closed then ([], dropped) else r
send_tls ((want_write, closed) ∷ results) (b ∷ bs) =
    let r = send_tls results (b ∷ bs) in if closed then ([], dropped) else r
send_tls ((ssl_error, closed) ∷ results) (b ∷ bs) = ([], if closed then dropped else thrown)

-- `poll` without a timeout, in `WaitForSocketReady`.
pub data PollAnswer : Type 0 where
  ready no_event poll_interrupted poll_error : PollAnswer

-- The loop's rounds: whether its test ends it, and what `poll` answers. The result says whether it
-- has returned.
unfoldable pub wait_rounds : List (Bool × PollAnswer) → Bool
wait_rounds [] = false
wait_rounds ((true, answer) ∷ rounds) = true
wait_rounds ((false, ready) ∷ rounds) = true
wait_rounds ((false, no_event) ∷ rounds) = wait_rounds rounds
wait_rounds ((false, poll_interrupted) ∷ rounds) = wait_rounds rounds
wait_rounds ((false, poll_error) ∷ rounds) = true

unfoldable pub wait_for_socket_ready : Bool → Bool → List (Bool × PollAnswer) → Bool
unfolding wait_rounds
wait_for_socket_ready fd_open closed rounds =
    if not fd_open || closed then true else wait_rounds rounds

-- What a loop left of its bytes: none if it says that it wrote them.
pub record IsPartial (bytes : Bytes) (r : Bytes × WriteEnd) : Type 0 where
  pub left : Bytes
  pub split : r.0 ++ left ≡ bytes
  pub none_left : r.1 ≡ written → left ≡ []

IsPartial-take :
    (n : ℕ) (bytes : Bytes) (r : Bytes × WriteEnd)
    → IsPartial (drop n bytes) r
    → IsPartial bytes (take n bytes ++ r.0, r.1)
IsPartial-take n bytes r v = record {
  left = v.left;
  split =
      append_assoc (take n bytes) r.0 v.left
      ∙ ap (◌++◌ (take n bytes)) v.split
      ∙ take-append-drop n bytes;
  none_left = v.none_left;
}

IsPartial-none : (bytes : Bytes) (end : WriteEnd) → end ≢ written → IsPartial bytes ([], end)
IsPartial-none bytes end n = record { left = bytes; split = refl; none_left = λ h. absurd (n h) }

send_blocking-IsPartial :
    (results : List SendResult) (bytes : Bytes) → IsPartial bytes (send_blocking results bytes)
unfolding send_blocking
send_blocking-IsPartial results [] = record { left = []; split = refl; none_left = λ h. refl }
send_blocking-IsPartial [] (b ∷ bs) = IsPartial-none (b ∷ bs) blocked (λ h. cc)
send_blocking-IsPartial (took n ∷ results) (b ∷ bs) =
    IsPartial-take n (b ∷ bs) _ (send_blocking-IsPartial results (drop n (b ∷ bs)))
send_blocking-IsPartial (interrupted ∷ results) (b ∷ bs) = send_blocking-IsPartial results (b ∷ bs)
send_blocking-IsPartial (send_error ∷ results) (b ∷ bs) = IsPartial-none (b ∷ bs) thrown (λ h. cc)

waits-IsPartial :
    (closed : Bool) (bytes : Bytes) (r : Bytes × WriteEnd)
    → IsPartial bytes r
    → IsPartial bytes (if closed then ([], dropped) else r)
waits-IsPartial true bytes r v = IsPartial-none bytes dropped (λ h. cc)
waits-IsPartial false bytes r v = v

fails-IsPartial :
    (closed : Bool) (bytes : Bytes) → IsPartial bytes ([], if closed then dropped else thrown)
fails-IsPartial true bytes = IsPartial-none bytes dropped (λ h. cc)
fails-IsPartial false bytes = IsPartial-none bytes thrown (λ h. cc)

pub send_tls-IsPartial :
    (results : List (SslResult × Bool)) (bytes : Bytes) → IsPartial bytes (send_tls results bytes)
unfolding send_tls
send_tls-IsPartial results [] = record { left = []; split = refl; none_left = λ h. refl }
send_tls-IsPartial [] (b ∷ bs) = IsPartial-none (b ∷ bs) blocked (λ h. cc)
send_tls-IsPartial ((wrote n, closed) ∷ results) (b ∷ bs) =
    IsPartial-take n (b ∷ bs) _ (send_tls-IsPartial results (drop n (b ∷ bs)))
send_tls-IsPartial ((want_read, closed) ∷ results) (b ∷ bs) =
    waits-IsPartial closed (b ∷ bs) _ (send_tls-IsPartial results (b ∷ bs))
send_tls-IsPartial ((want_write, closed) ∷ results) (b ∷ bs) =
    waits-IsPartial closed (b ∷ bs) _ (send_tls-IsPartial results (b ∷ bs))
send_tls-IsPartial ((ssl_error, closed) ∷ results) (b ∷ bs) = fails-IsPartial closed (b ∷ bs)

-- The bytes that the calls would take together, and whether none of them fails.
abbrev pub capacity : List SendResult → ℕ
capacity [] = 0
capacity (took n ∷ results) = n + capacity results
capacity (interrupted ∷ results) = capacity results
capacity (send_error ∷ results) = capacity results

abbrev pub fault_free : List SendResult → Bool
fault_free [] = true
fault_free (took n ∷ results) = fault_free results
fault_free (interrupted ∷ results) = fault_free results
fault_free (send_error ∷ results) = false

ends-written :
    (results : List SendResult) (bytes : Bytes)
    → fault_free results ≡ true
    → length bytes ≤ capacity results
    → (send_blocking results bytes).1 ≡ written
unfolding send_blocking
ends-written results [] f h = refl
ends-written [] (b ∷ bs) f h = absurd (omega arith)
ends-written (took n ∷ results) (b ∷ bs) f h =
    ends-written results (drop n (b ∷ bs)) f (omega (arith, length-drop n (b ∷ bs)))
ends-written (interrupted ∷ results) (b ∷ bs) f h = ends-written results (b ∷ bs) f h
ends-written (send_error ∷ results) (b ∷ bs) f h = cc

-- SendBlocking returns, with all its bytes taken in order, when no sendmsg fails with an error
-- other than EINTR and the calls would take at least as many bytes.
pub send_blocking-written :
    (results : List SendResult) (bytes : Bytes)
    → fault_free results ≡ true
    → length bytes ≤ capacity results
    → send_blocking results bytes ≡ (bytes, written)
send_blocking-written results bytes f h =
    let v = send_blocking-IsPartial results bytes in
    let e = ends-written results bytes f h in
    let whole : (send_blocking results bytes).0 ≡ bytes =
      sym (append-nil (send_blocking results bytes).0)
      ∙ ap (◌++◌ (send_blocking results bytes).0) (sym (v.none_left e))
      ∙ v.split in
    cc
