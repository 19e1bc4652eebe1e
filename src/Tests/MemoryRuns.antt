-- ===== src/Tests/MemoryRuns.antt =====
-- An in-memory broker with a history of three messages, one of them already there.
use anycable.Prelude.{
  Bool-cases, inl, inr, ◌==◌, ◌≡◌, ◌≢◌, refl, ◌++◌, false, none, some, List, [], ◌∷◌, String,
  string_eq, map, arith,
}
use anycable.Prelude.Dict.{lookup}
use anycable.Common.{StreamMessage}
use anycable.Broker.Outcome.{ok}
use anycable.Broker.Memstream.{Memstream}
use anycable.Broker.Memstream.Invariant.{IsLog}
use anycable.Broker.Memory.{Memory, open_stream, handle_broadcast, history_from, expire}
use anycable.Broker.Memory.Publication.{HoldsLogs, IsPublished, handle_broadcast-IsPublished}
use anycable.Broker.Memory.Resumption.{
  Publication, published, broadcast_all, without_meta, broadcast_all-history_from,
}
use anycable.Broker.Memory.Expiration.{KeptTime, Left, expire-Left}

abbrev log : Memstream
log = record {
  offset = 4;
  deadline = 100;
  low = 4;
  entries = record { timestamp = 10; offset = 4; payload = "four" } ∷ [];
  ttl = 10;
  limit = 3;
}

log-IsLog : IsLog log
log-IsLog = record {
  limit_pos = omega arith;
  in_range = omega arith;
  run = (refl, tt);
  spans = (omega arith, omega arith);
  bounded = omega arith;
}

abbrev broker : Memory
broker = record {
  epoch = "e";
  streams = ("s", log) ∷ [];
  history_ttl = 10;
  history_limit = 3;
  broadcasts = [];
}

broker-HoldsLogs : HoldsLogs broker
unfolding lookup
broker-HoldsLogs = record {
  some_limit = omega arith;
  logs = λ name. ground (arith, log-IsLog, string_eq.beq_iff "s" name);
}

abbrev message : StreamMessage
message = published "s" "five" none 0 ""

handle_broadcast-IsPublished_example :
    (b' : Memory) × (handle_broadcast 20 broker message ≡ ok b') × IsPublished 20 broker message b'
unfolding open_stream lookup
handle_broadcast-IsPublished_example =
    handle_broadcast-IsPublished 20 broker message broker-HoldsLogs refl (omega arith)

abbrev missed : List Publication
missed =
    (20, "five", none)
    ∷ (21, "six", some (record { exclude_socket = "b"; broadcast_type = ""; transient = false }))
    ∷ []

log_some : log.entries ≢ []
log_some h = cc

broadcast_all-history_from_example :
    (b' : Memory) × (sent : List StreamMessage) × (broadcast_all "s" missed broker ≡ ok b')
    × (b'.broadcasts ≡ broker.broadcasts ++ sent)
    × (history_from b' "s" "e" 4 ≡ ok (map without_meta sent))
unfolding lookup
broadcast_all-history_from_example =
    broadcast_all-history_from "s" missed broker log (refl, (refl, tt)) refl log-IsLog log_some
      (omega arith) (omega arith)

-- The one entry of "s" came at a time after zero.
broker-KeptTime : (name : String) → KeptTime (lookup name broker.streams)
unfolding lookup
broker-KeptTime name = elim (Bool-cases (◌==◌ {A = String} "s" name)) [
  | inl e ↦ rw e (0, (omega arith, tt))
  | inr e ↦ rw e tt
]

expire-Left_example :
    ((name : String)
      → Left 19 (lookup name broker.streams) (lookup name (expire 19 broker).streams))
    × HoldsLogs (expire 19 broker)
    × ((expire 19 broker).epoch ≡ "e")
    × ((expire 19 broker).history_ttl ≡ 10)
    × ((expire 19 broker).history_limit ≡ 3)
    × ((expire 19 broker).broadcasts ≡ [])
unfolding lookup
expire-Left_example = expire-Left 19 broker (refl, tt) broker-HoldsLogs broker-KeptTime
