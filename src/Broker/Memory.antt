-- ===== src/Broker/Memory.antt =====
-- broker/memory.go, the history part of `Memory`: the streams by name, publications, and requests
-- for history. `broadcasts` is what the broadcaster was given, in order. A transient message is
-- broadcast and not stored. The clock is an argument, in Unix seconds. `expireLoop` is `expire` once
-- a second.
pub mod Publication
pub mod Expiration
pub mod Resumption
use anycable.Prelude.{
  ℕ, Bool, true, false, Option, none, some, List, [], ◌∷◌, ◌++◌, String, string_eq, ◌==◌,
  if◌then◌else◌, map, ltb, nat_beq,
}
use anycable.Prelude.Dict.{Dict, lookup, insert, delete}
use anycable.Common.{StreamMessage, StreamMessageMetadata}
use anycable.Broker.Outcome.{Outcome, ok, err, panic, ◌>>=◌, unknown_epoch, stream_not_found}
use anycable.Broker.Memstream
use anycable.Broker.Memstream.{Memstream, Entry, new_memstream, filter_by_offset, filter_by_time}

pub record Memory : Type 0 where
  pub epoch : String
  pub streams : Dict String Memstream
  pub history_ttl : ℕ
  pub history_limit : ℕ
  pub broadcasts : List StreamMessage

unfoldable pub new_memory_broker : String → ℕ → ℕ → Memory
new_memory_broker epoch ttl limit = record {
  epoch = epoch;
  streams = [];
  history_ttl = ttl;
  history_limit = limit;
  broadcasts = [];
}

unfoldable pub set_epoch : Memory → String → Memory
set_epoch b v = record b { epoch = v }

-- The stream, which is made if it is missing.
unfoldable pub open_stream : Memory → String → Memstream
open_stream b name = elim (lookup name b.streams) [
  | none ↦ new_memstream b.history_ttl b.history_limit
  | some ms ↦ ms
]

unfoldable pub add : ℕ → Memory → String → String → Outcome (Memory × ℕ)
unfolding open_stream
add now b name payload = do
  (ms, offset) ← Memstream.add now payload (open_stream b name)
  ok (record b { streams = insert name ms b.streams }, offset)

abbrev pub is_transient : Option StreamMessageMetadata → Bool
is_transient none = false
is_transient (some meta) = meta.transient

unfoldable pub handle_broadcast : ℕ → Memory → StreamMessage → Outcome Memory
unfolding add
handle_broadcast now b msg =
    if is_transient msg.meta then ok (record b { broadcasts = b.broadcasts ++ msg ∷ [] }) else (do
      (b', offset) ← add now b msg.stream msg.payload
      let sent = record msg { epoch = b.epoch; offset = offset }
      ok (record b' { broadcasts = b'.broadcasts ++ sent ∷ [] }))

-- What both history methods make of an entry.
abbrev pub to_message : String → String → Entry → StreamMessage
to_message name epoch e = record {
  stream = name;
  payload = e.payload;
  meta = none;
  offset = e.offset;
  epoch = epoch;
}

pub history_from : Memory → String → String → ℕ → Outcome (List StreamMessage)
history_from b name epoch offset =
    if b.epoch == epoch
    then (elim (lookup name b.streams) [
      | none ↦ err stream_not_found
      | some ms ↦ (do es ← filter_by_offset offset ms; ok (map (to_message name b.epoch) es))
    ])
    else err unknown_epoch

unfoldable pub history_since : Memory → String → ℕ → List StreamMessage
history_since b name ts = elim (lookup name b.streams) [
  | none ↦ []
  | some ms ↦ map (to_message name b.epoch) (filter_by_time ts ms.entries)
]

-- A stored entry that is refused still leaves the stream behind.
unfoldable pub store : ℕ → Memory → String → String → ℕ → Option ℕ → Memory × Outcome ℕ
unfolding open_stream
store now b name payload offset ts =
    let opened = open_stream b name in
    elim (Memstream.insert now payload offset ts opened) [
      | ok (ms, o) ↦ (record b { streams = insert name ms b.streams }, ok o)
      | err e ↦ (record b { streams = insert name opened b.streams }, err e)
      | panic ↦ (b, panic)
    ]

unfoldable pub peak : Memory → String → Option StreamMessage
peak b name = elim (lookup name b.streams) [
  | none ↦ none
  | some ms ↦
      let offset = Memstream.peak ms in
      if nat_beq offset 0
      then none
      else some
          (record { stream = ""; payload = ""; meta = none; offset = offset; epoch = b.epoch })
]

-- The loop over the streams, and the deletion of those past their deadline. The sessions' cache and
-- presence, which the code expires next, are elsewhere.
unfoldable pub expire_streams : ℕ → Dict String Memstream → Dict String Memstream
expire_streams now [] = []
expire_streams now ((name, ms) ∷ streams) =
    let ms' = Memstream.expire now ms in
    let rest = expire_streams now streams in
    if ltb ms'.deadline now then rest else (name, ms') ∷ rest

unfoldable pub expire : ℕ → Memory → Memory
unfolding expire_streams
expire now b = record b { streams = expire_streams now b.streams }
