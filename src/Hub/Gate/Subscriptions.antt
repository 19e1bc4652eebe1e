-- ===== src/Hub/Gate/Subscriptions.antt =====
-- hub/gate.go: `Subscribe` and `Unsubscribe` against the relation that the maps stand for, and the
-- shape of the maps.
use anycable.Prelude.{Bool, true, ◌&&◌, ◌||◌, not, String, string_eq, ◌==◌, Eq, ◌≡◌, arith}
use anycable.Prelude.Dict.{lookup, insert, delete, has, lookup-insert, lookup-delete}
use anycable.Hub.Gate.{Gate, or_empty, subscribe, unsubscribe, without}

module _ {S : Type 0} ⦃e : Eq S⦄ where
  -- The session listens to the stream under the identifier.
  abbrev pub subscribed : Gate S → String → S → String → Bool
  subscribed g stream session identifier =
      has identifier (or_empty (lookup session (or_empty (lookup stream g.streams))))

  -- Gate.Subscribe adds one triple of stream, session and identifier, and no other changes.
  pub subscribed-subscribe :
      (g : Gate S) (s t : S) (stream stream' id id' : String)
      → subscribed (subscribe g s stream id) stream' t id'
        ≡ (stream == stream' && (s == t && id == id')) || subscribed g stream' t id'
  unfolding subscribe
  subscribed-subscribe g s t stream stream' id id' =
      let sessions = or_empty (lookup stream g.streams) in
      let ids = or_empty (lookup s sessions) in
      ground (
        arith,
        string_eq.beq_iff stream stream',
        string_eq.beq_iff id id',
        e.beq_iff s t,
        lookup-insert stream stream' (insert s (insert id true ids) sessions) g.streams,
        lookup-insert s t (insert id true ids) sessions,
        lookup-insert id id' true ids,
      )

  -- Gate.Unsubscribe removes one triple of stream, session and identifier, and no other changes.
  pub subscribed-unsubscribe :
      (g : Gate S) (s t : S) (stream stream' id id' : String)
      → subscribed (unsubscribe g s stream id) stream' t id'
        ≡ not (stream == stream' && (s == t && id == id')) && subscribed g stream' t id'
  unfolding unsubscribe without lookup
  subscribed-unsubscribe g s t stream stream' id id' =
      let sessions = or_empty (lookup stream g.streams) in
      let ids = or_empty (lookup s sessions) in
      let ids' = delete id ids in
      ground (
        arith,
        string_eq.beq_iff stream stream',
        string_eq.beq_iff id id',
        e.beq_iff s t,
        lookup-insert stream stream' (insert s ids' sessions) g.streams,
        lookup-insert stream stream' (delete s sessions) g.streams,
        lookup-delete stream stream' g.streams,
        lookup-insert s t ids' sessions,
        lookup-delete s t sessions,
        lookup-delete id id' ids,
      )
