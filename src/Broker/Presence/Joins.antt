-- ===== src/Broker/Presence/Joins.antt =====
-- `PresenceAdd` (broker/memory.go): what it makes of the two maps, and its event.
use anycable.Prelude.{
  ℕ, ◌≡◌, refl, ◌⊎◌, subst, Bool, true, false, not, ◌&&◌, ◌||◌, none, some, String, string_eq, ◌==◌,
  contains, if◌then◌else◌, arith, inl, inr, Bool-cases, Option-cases, is_some,
}
use anycable.Prelude.Dict.{lookup, insert, lookup-insert}
use anycable.Broker.Outcome.{ok, err, presence_id_mismatch}
use anycable.Broker.Presence.{
  PresenceState, or_empty, streams_of, presence_add, add, mismatch, join_event, presence_entry,
  session_entry,
}
use anycable.Broker.Presence.Entries.{someone, contains-add, add-IsEntry}
use anycable.Broker.Presence.Presents.{
  registered, names, entry, present, WhenEntry, IsConsistent, entry-insert, entry-add,
  registered-insert,
}

module _ {Info : Type 0} (now ttl : ℕ) (st : PresenceState Info) (stream sid pid : String)
    (info : Info) where
  abbrev refused : Bool
  refused = mismatch (registered st.sessions sid stream) pid

  abbrev after : PresenceState Info
  after = (presence_add now ttl st stream sid pid info).0

  session_streams :
      (t : String) → lookup t (session_entry now ttl st sid).streams ≡ registered st.sessions sid t
  unfolding registered streams_of lookup
  session_streams t = ground arith

  entry-after :
      (t q : String)
      → entry after.streams t q ≡ (
          if not refused && ((stream == t) && (pid == q))
          then some (add (presence_entry (entry st.streams stream pid) pid info) sid info)
          else entry st.streams t q)
  unfolding presence_add entry
  entry-after t q = ground (
    arith,
    session_streams stream,
    entry-insert st.streams (or_empty (lookup stream st.streams)) stream t q,
    entry-add st.streams
        (add (presence_entry (lookup pid (or_empty (lookup stream st.streams))) pid info) sid info)
        stream pid t q,
    string_eq.beq_iff stream t,
  )

  registered-after :
      (u t : String)
      → registered after.sessions u t ≡ (
          if not refused && ((sid == u) && (stream == t))
          then some pid
          else registered st.sessions u t)
  unfolding presence_add
  registered-after u t = ground (
    arith,
    session_streams stream,
    session_streams t,
    registered-insert st.sessions (session_entry now ttl st sid) sid u t,
    registered-insert st.sessions
        (record (session_entry now ttl st sid) {
          streams = insert stream pid (session_entry now ttl st sid).streams;
        })
        sid u t,
    lookup-insert stream t pid (session_entry now ttl st sid).streams,
    string_eq.beq_iff sid u,
  )

  -- PresenceAdd makes the session present under its id and nobody else; a session registered under
  -- another id is refused and nothing about who is present changes.
  pub present-presence_add :
      (t q u : String)
      → present (presence_add now ttl st stream sid pid info).0 t q u
        ≡ (not (mismatch (registered st.sessions sid stream) pid)
            && ((stream == t) && ((pid == q) && (sid == u))))
          || present st t q u
  unfolding present contains
  present-presence_add t q u = ground (
    arith,
    entry-after t q,
    contains-add u sid info (presence_entry (entry st.streams stream pid) pid info),
    string_eq.beq_iff stream t,
    string_eq.beq_iff pid q,
  )

  entries-after : (t q : String) → IsConsistent st → WhenEntry (entry after.streams t q)
  entries-after t q c =
      let w = c.entries stream pid in
      let v = c.entries t q in
      ground (
        arith,
        entry-after t q,
        add-IsEntry sid info (presence_entry (entry st.streams stream pid) pid info),
      )

  agrees-after :
      (t q u : String)
      → present st t q u ≡ names (registered st.sessions u t) q
      → present after t q u ≡ names (registered after.sessions u t) q
  agrees-after t q u h = elim (Option-cases (registered st.sessions u t)) [
    | inl e ↦ ground (
      arith,
      present-presence_add t q u,
      registered-after u t,
      string_eq.beq_iff stream t,
      string_eq.beq_iff pid q,
      string_eq.beq_iff sid u,
    )
    | inr (x, e) ↦ ground (
      arith,
      present-presence_add t q u,
      registered-after u t,
      string_eq.beq_iff stream t,
      string_eq.beq_iff pid q,
      string_eq.beq_iff sid u,
      string_eq.beq_iff x pid,
      string_eq.beq_iff x q,
    )
  ]

  -- If the two maps of the presence state agree and every entry has sessions, each once, this is so
  -- after PresenceAdd, refused or not.
  pub presence_add-IsConsistent :
      IsConsistent st → IsConsistent (presence_add now ttl st stream sid pid info).0
  presence_add-IsConsistent c = record {
    agrees = λ t q u. agrees-after t q u (c.agrees t q u);
    entries = λ t q. entries-after t q c;
  }

  answer-after : (presence_add now ttl st stream sid pid info).1 ≡ (
      if refused
      then err presence_id_mismatch
      else ok (join_event (is_some (entry st.streams stream pid)) pid info))
  unfolding presence_add entry
  answer-after = ground (arith, session_streams stream)

  -- The answer: an error for a session that has registered another id, and else a join event when
  -- nobody had the id, and nothing when somebody had.
  abbrev pub Answered : Type 0
  Answered =
      (((presence_add now ttl st stream sid pid info).1 ≡ err presence_id_mismatch)
        × (mismatch (registered st.sessions sid stream) pid ≡ true))
      ⊎ ((((presence_add now ttl st stream sid pid info).1
              ≡ ok (some (record { event_type = "join"; id = pid; info = some info })))
            × (mismatch (registered st.sessions sid stream) pid ≡ false)
            × ((u : String) → present st stream pid u ≡ false))
          ⊎ (((presence_add now ttl st stream sid pid info).1 ≡ ok none)
              × (mismatch (registered st.sessions sid stream) pid ≡ false)
              × ((u : String) × (present st stream pid u ≡ true))))

  answers : IsConsistent st → Answered
  unfolding present
  answers c = elim (Bool-cases refused) [
    | inl r ↦ inl (ground (arith, answer-after), r)
    | inr r ↦ elim (Option-cases (entry st.streams stream pid)) [
      | inl e ↦ inr (inl (ground (arith, answer-after), r, λ u. rw e refl))
      | inr (pe, e) ↦
          let (u, h) = someone pe.sessions (subst WhenEntry e (c.entries stream pid)).1 in
          inr (inr (ground (arith, answer-after), r, (u, rw e h)))
    ]
  ]

  -- On a consistent state PresenceAdd fails when the session has registered another id in the
  -- stream; then nothing about who is present or what is registered changes. Else it answers with a
  -- join event exactly when nobody had the id there, and with nothing otherwise; the session is
  -- present and registered under its id, and nothing changes for anybody else or elsewhere.
  pub presence_add_lem :
      IsConsistent st
      → Answered
        × ((t q u : String)
            → present (presence_add now ttl st stream sid pid info).0 t q u
              ≡ (not (mismatch (registered st.sessions sid stream) pid)
                  && ((stream == t) && ((pid == q) && (sid == u))))
                || present st t q u)
        × ((u t : String)
            → registered (presence_add now ttl st stream sid pid info).0.sessions u t ≡ (
                if not (mismatch (registered st.sessions sid stream) pid)
                  && ((sid == u) && (stream == t))
                then some pid
                else registered st.sessions u t))
  presence_add_lem c = (answers c, present-presence_add, registered-after)
