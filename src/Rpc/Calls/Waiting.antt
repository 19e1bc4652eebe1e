-- ===== src/Rpc/Calls/Waiting.antt =====
-- rpc/rpc.go, `Shutdown`: whether it waits for the calls that run.
use anycable.Prelude.{ℕ, suc, ◌<◌, ◌≡◌, Bool, true, some, arith}
use anycable.Rpc.Retry.{failed, no_status, retry, retry_loop, retry_round, called, handle_error}
use anycable.Rpc.Calls.{Controller, shutdown}

-- When the connection is ready and a call runs, Shutdown fails in its first round, whatever later
-- rounds would meet: it does not wait for the calls that run.
pub shutdown-no_status :
    (huge fuel : ℕ) (ready : ℕ → Bool) (busy : ℕ → ℕ) (c : Controller)
    → ready 0 ≡ true
    → 0 < busy 0
    → shutdown huge (suc fuel) ready busy c ≡ some (some (failed no_status), c.metrics)
unfolding shutdown retry retry_loop retry_round called handle_error
shutdown-no_status huge fuel ready busy c on running = ground (arith, on, running)
