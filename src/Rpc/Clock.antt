-- ===== src/Rpc/Clock.antt =====
-- The deadline of `rpc_waiter_wait` and the clock `rpc_now_ms` of ccrpc/source/rpc_port.c. The time
-- that `clock_gettime` gives is an argument: seconds, and nanoseconds below 10^9.
use cc_rpc.Base.{ℕ, ◌+◌, ◌-◌, ◌*◌, ◌/◌, ◌%◌, ◌^◌, ◌<◌, ◌≡◌, arith, leb, if◌then◌else◌}

-- `ts` after the additions and the carry.
unfoldable pub deadline : ℕ × ℕ → ℕ → ℕ × ℕ
deadline ts timeout_ms =
    let sec = ts.0 + timeout_ms / 1000 in
    let nsec = ts.1 + timeout_ms % 1000 * 1000000 in
    if leb 1000000000 nsec then (sec + 1, nsec - 1000000000) else (sec, nsec)

unfoldable pub rpc_now_ms : ℕ × ℕ → ℕ
rpc_now_ms ts = (ts.0 * 1000 + ts.1 / 1000000) % 2 ^ 32

-- From a time with nanoseconds below 10^9, the deadline of a wait is a time of the same form,
-- exactly the timeout later.
pub deadline_lem :
    (sec nsec timeout_ms : ℕ)
    → nsec < 1000000000
    → ((deadline (sec, nsec) timeout_ms).1 < 1000000000)
      × ((deadline (sec, nsec) timeout_ms).0 * 1000000000 + (deadline (sec, nsec) timeout_ms).1
          ≡ (sec * 1000000000 + nsec) + timeout_ms * 1000000)
unfolding deadline
deadline_lem sec nsec timeout_ms h = ground arith
