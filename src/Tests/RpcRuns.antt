-- ===== src/Tests/RpcRuns.antt =====
-- Calls to an application that has no capacity left at first.
use anycable.Prelude.{
  ℕ, zero, suc, ◌≤◌, ◌<◌, ◌≡◌, ◌≢◌, ◌↔◌, refl, true, false, none, some, [], ◌∷◌, String, arith,
}
use anycable.Node.Replies.{CommandResult, success}
use anycable.Rpc.Barrier.{FixedSizeBarrier, new_fixed_size_barrier, acquire, release, busy_count}
use anycable.Rpc.Barrier.Tickets.{Reach, opened, starts, Reach-busy_count}
use anycable.Rpc.Retry.{
  resource_exhausted, unavailable, status, failed, no_status, answered, erred, Metrics, Round,
  Retried, retry,
}
use anycable.Rpc.Retry.Ends.{retry-ends}
use anycable.Rpc.Protocol.{CommandMessage, CommandResponse}
use anycable.Rpc.Calls.{Controller, Reported, returned, command, shutdown}
use anycable.Rpc.Calls.Accounts.{IsSettled, command-IsSettled}
use anycable.Rpc.Calls.Waiting.{shutdown-no_status}

abbrev two_tickets : FixedSizeBarrier
two_tickets = record { capacity = 2; sem = 2 }

abbrev one_left : FixedSizeBarrier
one_left = record { capacity = 2; sem = 1 }

one_call : Reach 2 one_left 1
unfolding new_fixed_size_barrier acquire
one_call = starts {b = two_tickets} (opened refl) refl

Reach-busy_count_example :
    (busy_count one_left ≡ 1)
    × (1 ≤ 2)
    × ((acquire one_left ≡ none) ↔ ◌≡◌ {A = ℕ} 1 2)
    × (0 < 1 → release one_left ≢ none)
Reach-busy_count_example = Reach-busy_count 2 1 one_left one_call

abbrev accepted : CommandResponse
accepted = record {
  status = success;
  disconnect = false;
  stop_streams = false;
  streams = "chat" ∷ [];
  stopped_streams = [];
  transmissions = [];
  error_msg = "";
  env = none;
  presence = none;
}

-- Two rounds without capacity, one without an application, and an answer.
abbrev busy_application : ℕ → Round CommandResponse
busy_application zero = record {
  ready = true;
  answer = erred (status resource_exhausted);
  duration = 5;
  interrupted = false;
}
busy_application (suc zero) = record {
  ready = true;
  answer = erred (status unavailable);
  duration = 5;
  interrupted = false;
}
busy_application (suc (suc i)) = record {
  ready = true;
  answer = answered accepted;
  duration = 5;
  interrupted = false;
}

abbrev no_counts : Metrics
no_counts = record { pending = 0; calls = 0; retries = 0; failures = 0; timeouts = 0; canceled = 0 }

retry-ends_example :
    (answer : Retried CommandResponse × Metrics) × (retry 0 1000000000 101 busy_application
        no_counts
      ≡ some answer)
retry-ends_example =
    retry-ends 0 1000000000 101 busy_application no_counts (omega arith) (omega arith) (omega arith)

abbrev controller : Controller
controller = record { barrier = one_left; command_timeout = 1000000000; metrics = no_counts }

abbrev message : CommandMessage
message = record {
  command = "subscribe";
  env = record { url = "/cable"; cstate = []; istate = [] };
  identifier = "chat";
  connection_identifiers = "user";
  message_data = "";
}

command-IsSettled_example :
    (c' : Controller) × (r : Reported (CommandResult String)) × (command
        (λ e. false)
        0
        101
        (λ s. some s)
        (λ s. s)
        (λ msg. busy_application)
        controller
        false
        message
      ≡ returned c' r)
    × IsSettled controller c' r
command-IsSettled_example =
    command-IsSettled (λ e. false) 0 101 (λ s. some s) (λ s. s) (λ msg. busy_application) controller
      false message (omega arith) (omega arith) (omega arith) (omega arith) (omega arith)

-- The one call that runs ends right after the first round.
abbrev one_ending : ℕ → ℕ
one_ending zero = 1
one_ending (suc i) = 0

shutdown-no_status_example :
    shutdown 0 5 (λ i. true) one_ending controller ≡ some (some (failed no_status), no_counts)
shutdown-no_status_example =
    shutdown-no_status 0 4 (λ i. true) one_ending controller refl (omega arith)
