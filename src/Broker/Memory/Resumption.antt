-- ===== src/Broker/Memory/Resumption.antt =====
-- A client that comes back to a stream (broker/memory.go, `HandleBroadcast`, then `HistoryFrom`):
-- what it is answered with is what was broadcast while it was away.
use anycable.Prelude.{
  ℕ, suc, uint64, ◌+◌, ◌<◌, ◌≡◌, ◌≢◌, refl, ap, ◌∙◌, sym, true, false, Option, none, some, List, [],
  ◌∷◌, ◌++◌, String, string_eq, ◌==◌, arith, map, length, append_assoc, append-nil,
}
use anycable.Prelude.Dict.{lookup, insert, lookup-insert}
use anycable.Common.{StreamMessage, StreamMessageMetadata}
use anycable.Broker.Outcome.{Outcome, ok, ◌>>=◌}
use anycable.Broker.Memstream
use anycable.Broker.Memstream.{Memstream, Entry, filter_by_offset}
use anycable.Broker.Memstream.Invariant.{IsLog, add-IsAdded}
use anycable.Broker.Memstream.History.{add_all, add_all-filter_by_offset, stamped}
use anycable.Broker.Memory.{
  Memory, open_stream, add, is_transient, handle_broadcast, to_message, history_from,
}

-- A publication: when, what, and the metadata.
abbrev pub Publication : Type 0
Publication = ℕ × String × Option StreamMessageMetadata

abbrev pub AllStored : List Publication → Type 0
AllStored [] = Unit {0}
AllStored ((now, payload, meta) ∷ ps) = (is_transient meta ≡ false) × AllStored ps

abbrev pub published : String → String → Option StreamMessageMetadata → ℕ → String → StreamMessage
published name payload meta offset epoch = record {
  stream = name;
  payload = payload;
  meta = meta;
  offset = offset;
  epoch = epoch;
}

-- Publications to one stream, in order.
unfoldable pub broadcast_all : String → List Publication → Memory → Outcome Memory
broadcast_all name [] b = ok b
broadcast_all name ((now, payload, meta) ∷ ps) b = do
  b' ← handle_broadcast now b (published name payload meta 0 "")
  broadcast_all name ps b'

-- The messages that the publications become, from an offset on.
pub live : String → String → ℕ → List Publication → List StreamMessage
live name epoch k [] = []
live name epoch k ((now, payload, meta) ∷ ps) =
    published name payload meta k epoch ∷ live name epoch (k + 1) ps

abbrev pub without_meta : StreamMessage → StreamMessage
without_meta m = record m { meta = none }

abbrev payloads : List Publication → List (ℕ × String)
payloads [] = []
payloads ((now, payload, meta) ∷ ps) = (now, payload) ∷ payloads ps

length-payloads : (ps : List Publication) → length (payloads ps) ≡ length ps
length-payloads [] = refl
length-payloads ((now, payload, meta) ∷ ps) = ap suc (length-payloads ps)

live-stamped :
    (name epoch : String) (k : ℕ) (ps : List Publication)
    → map (to_message name epoch) (stamped k (payloads ps))
      ≡ map without_meta (live name epoch k ps)
unfolding live stamped
live-stamped name epoch k [] = refl
live-stamped name epoch k ((now, payload, meta) ∷ ps) =
    ap (λ ms. published name payload none k epoch ∷ ms) (live-stamped name epoch (k + 1) ps)

open_known :
    (b : Memory) (name : String) (ms : Memstream)
    → lookup name b.streams ≡ some ms
    → open_stream b name ≡ ms
unfolding open_stream
open_known b name ms l = rw (l, open_stream) refl

add_known :
    (now : ℕ) (b : Memory) (name payload : String) (ms ms1 : Memstream) (o : ℕ)
    → lookup name b.streams ≡ some ms
    → Memstream.add now payload ms ≡ ok (ms1, o)
    → add now b name payload ≡ ok (record b { streams = insert name ms1 b.streams }, o)
unfolding add
add_known now b name payload ms ms1 o l e = rw (open_known b name ms l, e, add) refl

handle_stored :
    (now : ℕ) (b : Memory) (name payload : String) (meta : Option StreamMessageMetadata)
    (ms ms1 : Memstream) (o : ℕ)
    → is_transient meta ≡ false
    → lookup name b.streams ≡ some ms
    → Memstream.add now payload ms ≡ ok (ms1, o)
    → handle_broadcast now b (published name payload meta 0 "")
      ≡ ok (record b {
        streams = insert name ms1 b.streams;
        broadcasts = b.broadcasts ++ published name payload meta o b.epoch ∷ [];
      })
unfolding handle_broadcast
handle_stored now b name payload meta ms ms1 o h l e =
    rw (h, add_known now b name payload ms ms1 o l e) refl

-- The stream grows as it does alone, and what is broadcast is stamped with its offsets.
broadcast_all-add_all :
    (name : String) (ps : List Publication) (b : Memory) (ms ms' : Memstream)
    → AllStored ps
    → lookup name b.streams ≡ some ms
    → IsLog ms
    → ms.offset + length ps < uint64
    → add_all (payloads ps) ms ≡ ok ms'
    → (b' : Memory) × (broadcast_all name ps b ≡ ok b')
      × (lookup name b'.streams ≡ some ms')
      × (b'.epoch ≡ b.epoch)
      × (b'.broadcasts ≡ b.broadcasts ++ live name b.epoch (ms.offset + 1) ps)
unfolding broadcast_all live add_all
broadcast_all-add_all name [] b ms ms' s l v room e =
    (b, refl, l ∙ cc e, refl, sym (append-nil b.broadcasts))
broadcast_all-add_all name ((now, payload, meta) ∷ ps) b ms ms' s l v room e =
    let (ms1, f, a) = add-IsAdded now payload ms v (omega arith) in
    let sent = published name payload meta (ms.offset + 1) b.epoch in
    let b1 : Memory = record b {
      streams = insert name ms1 b.streams;
      broadcasts = b.broadcasts ++ sent ∷ [];
    } in
    let l1 : lookup name b1.streams ≡ some ms1 =
      ground (arith, lookup-insert name name ms1 b.streams, string_eq.beq_iff name name) in
    let e1 : add_all (payloads ps) ms1 ≡ ok ms' = rw f at e in
    let (b', g, l', ep, bs) =
      broadcast_all-add_all name ps b1 ms1 ms' s.1 l1 a.log (omega (arith, a.offset)) e1 in
    (
      b',
      rw (handle_stored now b name payload meta ms ms1 (ms.offset + 1) s.0 l f) g,
      l',
      ep,
      bs
          ∙ (append_assoc b.broadcasts (sent ∷ []) (live name b.epoch (ms1.offset + 1) ps)
              ∙ ap (λ k. b.broadcasts ++ sent ∷ live name b.epoch (k + 1) ps) a.offset),
    )

history_known :
    (b : Memory) (name epoch : String) (ms : Memstream) (offset : ℕ) (es : List Entry)
    → b.epoch ≡ epoch
    → lookup name b.streams ≡ some ms
    → filter_by_offset offset ms ≡ ok es
    → history_from b name epoch offset ≡ ok (map (to_message name epoch) es)
unfolding history_from
history_known b name epoch ms offset es e l f =
    let same : (b.epoch == epoch) ≡ true = (string_eq.beq_iff b.epoch epoch).1 e in
    rw (same, l, f) (ap (λ x. ok (map (to_message name x) es)) e)

-- A client that has seen everything up to the current offset of a stream with history, and comes
-- back after fewer than limit publications that are not transient, is answered by HistoryFrom with
-- exactly what HandleBroadcast sent meanwhile, in order, without the metadata; nothing panics. The
-- offsets stay below 2^64.
pub broadcast_all-history_from :
    (name : String) (ps : List Publication) (b : Memory) (ms : Memstream)
    → AllStored ps
    → lookup name b.streams ≡ some ms
    → IsLog ms
    → ms.entries ≢ []
    → ms.offset + length ps < uint64
    → length ps < ms.limit
    → (b' : Memory) × (sent : List StreamMessage) × (broadcast_all name ps b ≡ ok b')
      × (b'.broadcasts ≡ b.broadcasts ++ sent)
      × (history_from b' name b.epoch ms.offset ≡ ok (map without_meta sent))
broadcast_all-history_from name ps b ms s l v some_history room fits =
    let n = length-payloads ps in
    let (ms', e, f) =
      add_all-filter_by_offset (payloads ps) ms v some_history (omega (arith, n))
        (omega (arith, n)) in
    let (b', g, l', ep, bs) = broadcast_all-add_all name ps b ms ms' s l v room e in
    (
      b',
      live name b.epoch (ms.offset + 1) ps,
      g,
      bs,
      history_known b' name b.epoch ms' ms.offset (stamped (ms.offset + 1) (payloads ps)) ep l' f
          ∙ ap ok (live-stamped name b.epoch (ms.offset + 1) ps),
    )
