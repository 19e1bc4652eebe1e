-- ===== src/Broker/Memory/Publication.antt =====
-- `HandleBroadcast` and `HistoryFrom` of `Memory` (broker/memory.go): what is sent is what history
-- answers with.
use anycable.Prelude.{
  ℕ, uint64, ◌+◌, ◌<◌, ◌≡◌, refl, ap, ◌∙◌, false, Option, none, some, List, [], ◌∷◌, ◌++◌, String,
  string_eq, ◌==◌, arith,
}
use anycable.Prelude.Dict.{lookup, insert, lookup-insert}
use anycable.Common.{StreamMessage}
use anycable.Broker.Outcome.{ok}
use anycable.Broker.Memstream.{Memstream}
use anycable.Broker.Memstream.Invariant.{IsLog, newest, add-IsAdded, new_memstream-IsLog}
use anycable.Broker.Memory.{Memory, open_stream, is_transient, handle_broadcast}

abbrev pub WhenLog : Option Memstream → Type 0
WhenLog none = Unit {0}
WhenLog (some ms) = IsLog ms

-- The history limit is positive, and every stream is a log.
pub record HoldsLogs (b : Memory) : Type 0 where
  pub some_limit : 0 < b.history_limit
  pub logs : (name : String) → WhenLog (lookup name b.streams)

pub open_stream-IsLog : (b : Memory) (name : String) → HoldsLogs b → IsLog (open_stream b name)
unfolding open_stream
open_stream-IsLog b name v =
    ground (arith, v.logs name, v.some_limit, new_memstream-IsLog b.history_ttl b.history_limit)

open_stream-insert :
    (b : Memory) (name : String) (ms : Memstream) (log : List StreamMessage)
    → open_stream (record b { streams = insert name ms b.streams; broadcasts = log }) name ≡ ms
unfolding open_stream
open_stream-insert b name ms log =
    ground (arith, lookup-insert name name ms b.streams, string_eq.beq_iff name name)

-- A log in the place of one of the streams.
put-HoldsLogs :
    (b : Memory) (name : String) (ms : Memstream) (j : String)
    → HoldsLogs b
    → IsLog ms
    → WhenLog (lookup j (insert name ms b.streams))
put-HoldsLogs b name ms j v l = ground (arith, lookup-insert name j ms b.streams, v.logs j, l)

-- What a publication does to the broker.
pub record IsPublished (now : ℕ) (b : Memory) (msg : StreamMessage) (b' : Memory) : Type 0 where
  pub holds : HoldsLogs b'
  pub epoch : b'.epoch ≡ b.epoch
  pub history_ttl : b'.history_ttl ≡ b.history_ttl
  pub history_limit : b'.history_limit ≡ b.history_limit
  -- The message is the newest entry; past the limit the oldest goes.
  pub stored :
      (open_stream b' msg.stream).entries
      ≡ newest (open_stream b msg.stream).limit (
          (open_stream b msg.stream).entries
          ++ record {
            timestamp = now;
            offset = (open_stream b msg.stream).offset + 1;
            payload = msg.payload;
          }
            ∷ [])
  pub broadcasts :
      b'.broadcasts
      ≡ b.broadcasts
        ++ record msg { epoch = b.epoch; offset = (open_stream b msg.stream).offset + 1 } ∷ []
  pub others :
      (name : String)
      → (msg.stream == name ≡ false)
      → lookup name b'.streams ≡ lookup name b.streams
  pub offset : (open_stream b' msg.stream).offset ≡ (open_stream b msg.stream).offset + 1

-- When every stream is a log and the next offset is below 2^64, a message that is not transient is
-- stored, with its payload and the time, as the newest entry of its stream under the next offset,
-- where past the limit the oldest entry goes, and sent on under that offset and the epoch of the
-- broker; the other streams stay as they are and every stream is still a log.
pub handle_broadcast-IsPublished :
    (now : ℕ) (b : Memory) (msg : StreamMessage)
    → HoldsLogs b
    → is_transient msg.meta ≡ false
    → (open_stream b msg.stream).offset + 1 < uint64
    → (b' : Memory) × (handle_broadcast now b msg ≡ ok b') × IsPublished now b msg b'
unfolding handle_broadcast
handle_broadcast-IsPublished now b msg v h room =
    let (ms, e, a) =
      add-IsAdded now msg.payload (open_stream b msg.stream) (open_stream-IsLog b msg.stream v)
        room in
    let sent : StreamMessage = record msg {
      epoch = b.epoch;
      offset = (open_stream b msg.stream).offset + 1;
    } in
    let stored : Memory = record b { streams = insert msg.stream ms b.streams } in
    (
      record stored { broadcasts = b.broadcasts ++ sent ∷ [] },
      rw (h, e) refl,
      record {
        holds = record {
          some_limit = v.some_limit;
          logs = λ j. put-HoldsLogs b msg.stream ms j v a.log;
        };
        epoch = refl;
        history_ttl = refl;
        history_limit = refl;
        stored =
            ap (λ m. m.entries) (open_stream-insert b msg.stream ms (b.broadcasts ++ sent ∷ []))
            ∙ a.entries;
        broadcasts = refl;
        others = λ j ne. ground (arith, lookup-insert msg.stream j ms b.streams, ne);
        offset =
            ap (λ m. m.offset) (open_stream-insert b msg.stream ms (b.broadcasts ++ sent ∷ []))
            ∙ a.offset;
      },
    )
