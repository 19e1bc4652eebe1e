-- ===== src/Broker/Presence/Leaves.antt =====
-- `PresenceRemove` (broker/memory.go): what it makes of the two maps, and its event.
use anycable.Prelude.{
  ◌≡◌, subst, false, not, ◌&&◌, Option, none, some, String, string_eq, ◌==◌, if◌then◌else◌, arith,
  inl, inr, Option-cases,
}
use anycable.Prelude.Dict.{Dict, lookup}
use anycable.Broker.Outcome.{Outcome, err, stream_not_found, presence_info_not_found}
use anycable.Broker.Presence.{
  PresenceState, PresenceEntry, PresenceEvent, PresenceSessionEntry, or_empty, streams_of,
  presence_remove, remove_record, remove, forget,
}
use anycable.Broker.Presence.Entries.{IsEntry, remove-IsEntry}
use anycable.Broker.Presence.Presents.{
  registered, names, entry, present, WhenEntry, IsConsistent, registered-forget, registered_known,
  entry-remove_record, entry-take, entry_known,
}

module _ {Info : Type 0} where
  pub sessions-remove_record :
      (st : PresenceState Info) (records : Dict String (PresenceEntry Info))
      (stream sid pid : String)
      → (remove_record st records stream sid pid).0.sessions ≡ st.sessions
  unfolding remove_record
  sessions-remove_record st records stream sid pid = ground arith

  pub entries-remove_record :
      (st : PresenceState Info) (records : Dict String (PresenceEntry Info))
      (stream sid pid t q : String)
      → lookup stream st.streams ≡ some records
      → WhenEntry (lookup pid records)
      → WhenEntry (entry st.streams t q)
      → WhenEntry (entry (remove_record st records stream sid pid).0.streams t q)
  unfolding remove_record
  entries-remove_record st records stream sid pid t q h w v =
      elim (Option-cases (lookup pid records)) [
        | inl e ↦ rw (e, remove_record) v
        | inr (found, e) ↦
            let k : IsEntry found = subst WhenEntry e w in
            let r = remove-IsEntry sid found k in
            rw (e, remove_record) rw
              (entry-take st.streams records (remove found sid).0 (remove found sid).1 stream pid t
                q h)
              ground (arith, r)
      ]

-- The ways through `PresenceRemove`.
pub data Removal {Info : Type 0} (st : PresenceState Info) (stream sid : String)
    : PresenceState Info × Outcome (Option (PresenceEvent Info)) → Type 0 where
  no_stream : lookup stream st.streams ≡ none → Removal st stream sid (st, err stream_not_found)
  no_session :
      (records : Dict String (PresenceEntry Info))
      → lookup stream st.streams ≡ some records
      → lookup sid st.sessions ≡ none
      → Removal st stream sid (remove_record st records stream sid "")
  no_info :
      (ses : PresenceSessionEntry)
      → lookup sid st.sessions ≡ some ses
      → lookup stream ses.streams ≡ none
      → Removal st stream sid (st, err presence_info_not_found)
  goes :
      (records : Dict String (PresenceEntry Info)) (ses : PresenceSessionEntry) (pid : String)
      → lookup stream st.streams ≡ some records
      → lookup sid st.sessions ≡ some ses
      → lookup stream ses.streams ≡ some pid
      → Removal st stream sid (
          remove_record
            (record st { sessions = forget st.sessions sid ses stream })
            records
            stream
            sid
            pid)

pub removal :
    {Info : Type 0} (st : PresenceState Info) (stream sid : String)
    → Removal st stream sid (presence_remove st stream sid)
unfolding presence_remove
removal st stream sid = elim (Option-cases (lookup stream st.streams)) [
  | inl e ↦ rw (e, presence_remove) (no_stream e)
  | inr (records, e) ↦ elim (Option-cases (lookup sid st.sessions)) [
    | inl f ↦ rw (e, presence_remove) rw f (no_session records e f)
    | inr (ses, f) ↦ elim (Option-cases (lookup stream ses.streams)) [
      | inl g ↦ rw (e, presence_remove) rw f rw g (no_info ses f g)
      | inr (pid, g) ↦ rw (e, presence_remove) rw f rw g (goes records ses pid e f g)
    ]
  ]
]

pub registered_unknown :
    (sessions : Dict String PresenceSessionEntry) (sid t : String)
    → lookup sid sessions ≡ none
    → registered sessions sid t ≡ none
unfolding registered streams_of lookup
registered_unknown sessions sid t h = ground arith

module _ {Info : Type 0} (st : PresenceState Info) (stream sid : String) (c : IsConsistent st) where
  pub absent_stream : (t q u : String) → lookup t st.streams ≡ none → present st t q u ≡ false
  unfolding present entry or_empty lookup
  absent_stream t q u h = ground arith

  pub has_entry :
      (records : Dict String (PresenceEntry Info)) (q : String)
      → lookup stream st.streams ≡ some records
      → WhenEntry (lookup q records)
  has_entry records q h =
      subst WhenEntry (entry_known st.streams records stream q h) (c.entries stream q)

  present-Removal :
      (t q u : String) {r : PresenceState Info × Outcome (Option (PresenceEvent Info))}
      → Removal st stream sid r
      → present r.0 t q u ≡ not ((stream == t) && (sid == u)) && present st t q u
  unfolding present
  present-Removal t q u (no_stream e) =
      ground (arith, absent_stream t q u, string_eq.beq_iff stream t, e)
  present-Removal t q u (no_session records e f) = ground (
    arith,
    entry-remove_record st records stream sid "" t q u e (has_entry records "" e),
    registered_unknown st.sessions u t,
    c.agrees t q u,
    string_eq.beq_iff sid u,
  )
  present-Removal t q u (no_info ses f g) = ground (
    arith,
    registered_known st.sessions ses u t,
    c.agrees t q u,
    string_eq.beq_iff stream t,
    string_eq.beq_iff sid u,
  )
  present-Removal t q u (goes records ses pid e f g) = ground (
    arith,
    entry-remove_record (record st { sessions = forget st.sessions sid ses stream }) records stream
        sid pid t q u e (has_entry records pid e),
    registered_known st.sessions ses u t,
    c.agrees t q u,
    string_eq.beq_iff stream t,
    string_eq.beq_iff sid u,
  )

  registered-Removal :
      (u t : String) {r : PresenceState Info × Outcome (Option (PresenceEvent Info))}
      → Removal st stream sid r
      → registered r.0.sessions u t
        ≡ (if (stream == t) && (sid == u) then none else registered st.sessions u t)
  registered-Removal u t (no_stream e) = elim (Option-cases (registered st.sessions u t)) [
    | inl f ↦ ground arith
    | inr (q, f) ↦ ground (
      arith,
      c.agrees t q u,
      absent_stream t q u,
      string_eq.beq_iff q q,
      string_eq.beq_iff stream t,
      e,
    )
  ]
  registered-Removal u t (no_session records e f) = ground (
    arith,
    sessions-remove_record st records stream sid "",
    registered_unknown st.sessions u t,
    string_eq.beq_iff sid u,
  )
  registered-Removal u t (no_info ses f g) = ground (
    arith,
    registered_known st.sessions ses u t,
    string_eq.beq_iff stream t,
    string_eq.beq_iff sid u,
  )
  registered-Removal u t (goes records ses pid e f g) = ground (
    arith,
    sessions-remove_record (record st { sessions = forget st.sessions sid ses stream }) records
        stream sid pid,
    registered-forget st.sessions ses sid stream u t f,
    string_eq.beq_iff stream t,
  )

  entries-Removal :
      (t q : String) {r : PresenceState Info × Outcome (Option (PresenceEvent Info))}
      → Removal st stream sid r
      → WhenEntry (entry r.0.streams t q)
  entries-Removal t q (no_stream e) = c.entries t q
  entries-Removal t q (no_session records e f) =
      entries-remove_record st records stream sid "" t q e (has_entry records "" e) (c.entries t q)
  entries-Removal t q (no_info ses f g) = c.entries t q
  entries-Removal t q (goes records ses pid e f g) =
      entries-remove_record (record st { sessions = forget st.sessions sid ses stream }) records
        stream sid pid t q e (has_entry records pid e) (c.entries t q)

  -- On a consistent state PresenceRemove takes the session out of the stream, under whatever id it
  -- was present, and changes nothing for anybody else or in any other stream, also when it answers
  -- with an error.
  pub present-presence_remove :
      (t q u : String)
      → present (presence_remove st stream sid).0 t q u
        ≡ not ((stream == t) && (sid == u)) && present st t q u
  present-presence_remove t q u = present-Removal t q u (removal st stream sid)

  agrees-left :
      (t q u : String)
      → present (presence_remove st stream sid).0 t q u
        ≡ names (registered (presence_remove st stream sid).0.sessions u t) q
  agrees-left t q u = ground (
    arith,
    c.agrees t q u,
    present-Removal t q u (removal st stream sid),
    registered-Removal u t (removal st stream sid),
  )

  -- If the two maps of the presence state agree and every entry has sessions, each once, this is so
  -- after PresenceRemove, whatever it answers.
  pub presence_remove-IsConsistent : IsConsistent (presence_remove st stream sid).0
  presence_remove-IsConsistent = record {
    agrees = agrees-left;
    entries = λ t q. entries-Removal t q (removal st stream sid);
  }

  -- On a consistent state PresenceRemove takes the session out of the stream, under whatever id it
  -- was present, and drops what it had registered there, and changes nothing of both for anybody
  -- else or in any other stream, also when it answers with an error.
  pub presence_remove_lem :
      (t q u : String)
      → (present (presence_remove st stream sid).0 t q u
          ≡ not ((stream == t) && (sid == u)) && present st t q u)
        × (registered (presence_remove st stream sid).0.sessions u t
            ≡ (if (stream == t) && (sid == u) then none else registered st.sessions u t))
  presence_remove_lem t q u =
      (present-presence_remove t q u, registered-Removal u t (removal st stream sid))
