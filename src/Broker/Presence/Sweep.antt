-- ===== src/Broker/Presence/Sweep.antt =====
-- broker/memory.go, `expirePresence`: sessions past their deadline leave the streams they are in. The
-- state comes with the events for the presenter, in order.
use anycable.Prelude.{
  ℕ, none, some, List, [], ◌∷◌, ◌++◌, ◌&&◌, ltb, if◌then◌else◌, String, string_eq,
}
use anycable.Prelude.Dict.{Dict, lookup, insert, delete, is_empty}
use anycable.Broker.Presence.{
  PresenceSessionEntry, PresenceState, PresenceEvent, streams_of, remove,
}

-- The sessions past their deadline; a deadline of zero is none.
unfoldable pub to_delete : ℕ → Dict String PresenceSessionEntry → List String
to_delete now [] = []
to_delete now ((sid, sp) ∷ sessions) =
    let rest = to_delete now sessions in
    if ltb 0 sp.deadline && ltb sp.deadline now then sid ∷ rest else rest

module _ {Info : Type 0} where
  -- One stream of a session that expires: the state, and the event when nobody is left.
  unfoldable pub expire_stream :
      PresenceState Info
      → String
      → String
      → String
      → PresenceState Info × List (String × PresenceEvent Info)
  unfolding remove
  expire_stream st sid stream pid = elim (lookup stream st.streams) [
    | none ↦ (st, [])
    | some records ↦ elim (lookup pid records) [
      | none ↦ (st, [])
      | some found ↦
          let (pe, empty) = remove found sid in
          let left = delete pid records in
          if empty
          then (
            record st {
              streams =
                  if is_empty left then delete stream st.streams else insert stream left st.streams;
            },
            (stream, record { event_type = "leave"; id = pid; info = none }) ∷ [],
          )
          else (record st { streams = insert stream (insert pid pe records) st.streams }, [])
    ]
  ]

  unfoldable pub expire_streams :
      PresenceState Info
      → String
      → Dict String String
      → PresenceState Info × List (String × PresenceEvent Info)
  unfolding expire_stream
  expire_streams st sid [] = (st, [])
  expire_streams st sid ((stream, pid) ∷ streams) =
      let (st', events) = expire_stream st sid stream pid in
      let (st'', later) = expire_streams st' sid streams in (st'', events ++ later)

  unfoldable pub expire_sessions :
      PresenceState Info → List String → PresenceState Info × List (String × PresenceEvent Info)
  unfolding expire_streams streams_of
  expire_sessions st [] = (st, [])
  expire_sessions st (sid ∷ sids) =
      let (cut, events) = expire_streams st sid (streams_of (lookup sid st.sessions)) in
      let (st', later) = expire_sessions (record cut { sessions = delete sid cut.sessions }) sids in
      (st', events ++ later)

  unfoldable pub expire_presence :
      ℕ → PresenceState Info → PresenceState Info × List (String × PresenceEvent Info)
  unfolding to_delete expire_sessions
  expire_presence now st = expire_sessions st (to_delete now st.sessions)
