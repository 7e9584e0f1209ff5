-- ===== src/Config/Load/Active.antt =====
-- `ActiveSendConnectionCount` and `ShouldSendOnConnection`: the connections that a client sends on.
use mathlib.Core.Path.{fun_ext}
use native.Mathlib.Numerals.{add-one}
use proto_test_msquic.Prelude.{
  inl, inr, Bool-cases, ℕ, zero, suc, ◌+◌, ◌-◌, ◌%◌, ◌^◌, ◌≡◌, refl, Bool, true, ◌||◌, arith, ◌==◌,
  if◌then◌else◌,
}
use proto_test_msquic.Config.Number.{ℤ, pos, negsuc}
use proto_test_msquic.Config.Load.{AppConfig, ltb_ℤ}

-- `static_cast<uint32_t>` of an int
abbrev pub to_uint32 : ℤ → ℕ
to_uint32 (pos n) = n % 2 ^ 32
to_uint32 (negsuc n) = (2 ^ 32 - n - 1) % 2 ^ 32

unfoldable pub should_send_on_connection : AppConfig → ℕ → Bool
should_send_on_connection config connection_id =
    ltb_ℤ config.send_server_index (pos 0)
    || connection_id % config.server_count == to_uint32 config.send_server_index

-- `for (i = 0; i < client_count; ++i)`: `left` rounds from `i` on, with `count` so far.
unfoldable pub count_mapped : AppConfig → ℕ → ℕ → ℕ → ℕ
count_mapped config zero i count = count
count_mapped config (suc left) i count =
    count_mapped config left (i + 1)
      (if i % config.server_count == to_uint32 config.send_server_index then count + 1 else count)

unfoldable pub active_send_connection_count : AppConfig → ℕ
unfolding count_mapped
active_send_connection_count config =
    if config.client_count == 0
    then 0
    else if ltb_ℤ config.send_server_index (pos 0)
    then config.client_count
    else count_mapped config config.client_count 0 0

-- The specification: how many of the numbers below `n` satisfy a test.
abbrev pub count_below : ℕ → (ℕ → Bool) → ℕ
count_below zero p = 0
count_below (suc n) p = count_below n p + (if p n then 1 else 0)

count_mapped_lem :
    (config : AppConfig) (left i j count : ℕ)
    → i + left ≡ j
    → count ≡ count_below i (λ k. k % config.server_count == to_uint32 config.send_server_index)
    → count_mapped config left i count
      ≡ count_below j (λ k. k % config.server_count == to_uint32 config.send_server_index)
unfolding count_mapped
count_mapped_lem config zero i j count e h = let e' : i ≡ j = omega arith in rw (← e') h
count_mapped_lem config (suc left) i j count e h =
    count_mapped_lem config left (i + 1) j _ (omega arith) (rw (add-one i) (ground arith))

count_below-true : (n : ℕ) → count_below n (λ k. true) ≡ n
count_below-true zero = refl
count_below-true (suc n) = omega (arith, count_below-true n)

count_below_same :
    (n : ℕ) (p q : ℕ → Bool) → ((k : ℕ) → p k ≡ q k) → count_below n p ≡ count_below n q
count_below_same n p q h = rw (fun_ext h)

-- ActiveSendConnectionCount is the number of the identifiers below client_count on which
-- ShouldSendOnConnection holds.
pub active_send_connection_count-eq :
    (config : AppConfig)
    → active_send_connection_count config
      ≡ count_below config.client_count (should_send_on_connection config)
unfolding active_send_connection_count should_send_on_connection
active_send_connection_count-eq config =
    elim (Bool-cases (ltb_ℤ config.send_server_index (pos 0))) [
      | inl all ↦ rw all (ground (arith, count_below-true config.client_count))
      | inr one ↦
          rw one
            (ground (arith, count_mapped_lem config config.client_count 0 config.client_count 0))
    ]
