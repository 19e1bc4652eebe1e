-- ===== src/Broker/Memory/Expiration.antt =====
-- `expire` of `Memory` (broker/memory.go), once a second: which streams stay, and with what.
use anycable.Prelude.{
  ℕ, ◌≡◌, ◌<◌, ◌≤◌, ◌⊎◌, inl, inr, Bool-cases, sym, subst, refl, Option, none, some, [], ◌∷◌,
  String, string_eq, if◌then◌else◌, arith, ltb,
}
use anycable.Prelude.Dict.{Dict, lookup, Distinct}
use anycable.Broker.Memstream
use anycable.Broker.Memstream.{Memstream}
use anycable.Broker.Memstream.Expiry.{IsChronological, unexpired, expire-unexpired}
use anycable.Broker.Memstream.Invariant.{expire-IsLog}
use anycable.Broker.Memory.{Memory, expire_streams, expire}
use anycable.Broker.Memory.Publication.{HoldsLogs, WhenLog}

-- What is left of a stream.
abbrev kept : ℕ → Option Memstream → Option Memstream
kept now none = none
kept now (some ms) = if ltb ms.deadline now then none else some (Memstream.expire now ms)

lookup-expire_streams :
    (now : ℕ) (name : String) (streams : Dict String Memstream)
    → Distinct streams
    → lookup name (expire_streams now streams) ≡ kept now (lookup name streams)
unfolding expire_streams lookup Memstream.expire
lookup-expire_streams now name [] d = refl
lookup-expire_streams now name ((j, ms) ∷ streams) d =
    ground (arith, lookup-expire_streams now name streams d.1, string_eq.beq_iff j name)

kept-log : (now : ℕ) (o : Option Memstream) → WhenLog o → WhenLog (kept now o)
kept-log now none v = tt
kept-log now (some ms) v = ground (arith, expire-IsLog now ms v)

-- The clock did not go back while a stream got its entries.
abbrev pub KeptTime : Option Memstream → Type 0
KeptTime none = Unit {0}
KeptTime (some ms) = (t : ℕ) × IsChronological t ms.entries

-- What is to be left of a stream: nothing past its deadline, and else the entries that are not older
-- than its time to live, found by looking at each.
abbrev pub Left : ℕ → Option Memstream → Option Memstream → Type 0
Left now none after = after ≡ none
Left now (some ms) after =
    ((ms.deadline < now) × (after ≡ none))
    ⊎ ((now ≤ ms.deadline)
        × ((ms' : Memstream) × (after ≡ some ms')
            × (ms'.entries ≡ unexpired now ms.ttl ms.entries)
            × (ms'.offset ≡ ms.offset)
            × (ms'.deadline ≡ ms.deadline)
            × (ms'.ttl ≡ ms.ttl)
            × (ms'.limit ≡ ms.limit)))

kept-Left : (now : ℕ) (o : Option Memstream) → KeptTime o → Left now o (kept now o)
unfolding Memstream.expire
kept-Left now none c = refl
kept-Left now (some ms) (t, c) = elim (Bool-cases (ltb ms.deadline now)) [
  | inl e ↦ inl (ground (arith, e), ground (arith, e))
  | inr e ↦
      let (entries, offset, deadline) = expire-unexpired now t ms c in
      inr (
        ground (arith, e),
        (Memstream.expire now ms, ground (arith, e), entries, offset, deadline, refl, refl),
      )
]

-- When the names of the streams differ, every stream is a log and the clock did not go back while
-- they got their entries, Memory.expire forgets the streams whose deadline has passed and leaves
-- every other one with exactly the entries that are not older than its time to live, found by
-- looking at each; offsets, deadlines, limits, the epoch and the broadcasts stay, and every stream
-- is still a log.
pub expire-Left :
    (now : ℕ) (b : Memory)
    → Distinct b.streams
    → HoldsLogs b
    → ((name : String) → KeptTime (lookup name b.streams))
    → ((name : String) → Left now (lookup name b.streams) (lookup name (expire now b).streams))
      × HoldsLogs (expire now b)
      × ((expire now b).epoch ≡ b.epoch)
      × ((expire now b).history_ttl ≡ b.history_ttl)
      × ((expire now b).history_limit ≡ b.history_limit)
      × ((expire now b).broadcasts ≡ b.broadcasts)
unfolding expire
expire-Left now b d v c = (
  λ name.
      subst (Left now (lookup name b.streams)) (sym (lookup-expire_streams now name b.streams d))
        (kept-Left now (lookup name b.streams) (c name)),
  record {
    some_limit = v.some_limit;
    logs = λ name.
        rw (lookup-expire_streams now name b.streams d)
          (kept-log now (lookup name b.streams) (v.logs name));
  },
  refl,
  refl,
  refl,
  refl,
)
