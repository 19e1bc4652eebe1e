-- ===== src/Broker/Presence/Expiry.antt =====
-- `expirePresence` (broker/memory.go): a session past its deadline leaves every stream that it
-- registered, as if it had been removed from each.
use anycable.Prelude.{
  ℕ, ◌≡◌, refl, ap, sym, ◌∙◌, subst, Bool, true, false, not, ◌&&◌, ◌||◌, Option, none, some, List,
  [], ◌∷◌, String, string_eq, ◌==◌, contains, arith, Option-cases, Bool-cases, ltb, inl, inr,
}
use anycable.Prelude.Dict.{Dict, lookup, insert, delete, is_empty, Distinct}
use anycable.Broker.Presence.{
  PresenceState, PresenceEntry, PresenceSessionEntry, streams_of, or_empty, remove_record, remove,
}
use anycable.Broker.Presence.Sweep.{
  expire_stream, expire_streams, expire_sessions, to_delete, expire_presence,
}
use anycable.Broker.Presence.Presents.{
  registered, entry, present, WhenEntry, IsConsistent, registered-delete, entry_known,
  entry-remove_record,
}
use anycable.Broker.Presence.Leaves.{sessions-remove_record, entries-remove_record}

-- Whether the pair is among the streams of the session.
pub paired : String → String → Dict String String → Bool
paired t q [] = false
paired t q ((stream, pid) ∷ streams) = ((stream == t) && (pid == q)) || paired t q streams

lookup-paired :
    (t q : String) (streams : Dict String String)
    → lookup t streams ≡ some q
    → paired t q streams ≡ true
unfolding lookup paired
lookup-paired t q [] h = cc
lookup-paired t q ((stream, pid) ∷ streams) h =
    ground (arith, lookup-paired t q streams, string_eq.beq_iff stream t, string_eq.beq_iff pid q)

-- Past a deadline; zero is none.
abbrev pub overdue : ℕ → Option PresenceSessionEntry → Bool
overdue now none = false
overdue now (some sp) = ltb 0 sp.deadline && ltb sp.deadline now

to_delete-overdue :
    (now : ℕ) (u : String) (sessions : Dict String PresenceSessionEntry)
    → Distinct sessions
    → contains u (to_delete now sessions) ≡ overdue now (lookup u sessions)
unfolding to_delete contains lookup
to_delete-overdue now u [] d = refl
to_delete-overdue now u ((sid, sp) ∷ sessions) d =
    ground (arith, to_delete-overdue now u sessions d.1, string_eq.beq_iff sid u)

is_empty-insert :
    {V : Type 0} (k : String) (v : V) (m : Dict String V) → is_empty (insert k v m) ≡ false
unfolding insert
is_empty-insert k v [] = refl
is_empty-insert k v ((j, w) ∷ m) = ground arith

module _ {Info : Type 0} where
  -- One stream of the session: the state is that of a removal, where there is something to remove.
  expire_stream-remove_record :
      (st : PresenceState Info) (records : Dict String (PresenceEntry Info))
      (sid stream pid : String)
      → lookup stream st.streams ≡ some records
      → (expire_stream st sid stream pid).0 ≡ (remove_record st records stream sid pid).0
  unfolding expire_stream remove_record
  expire_stream-remove_record st records sid stream pid h =
      elim (Option-cases (lookup pid records)) [
        | inl e ↦ rw (h, expire_stream, remove_record) rw (e, remove_record) refl
        | inr (found, e) ↦ elim (Bool-cases (remove found sid).1) [
          | inl gone ↦ rw (h, expire_stream, remove_record) rw (e, remove_record) rw gone refl
          | inr left ↦
              let more = is_empty-insert pid (remove found sid).0 records in
              rw (h, expire_stream, remove_record) rw (e, remove_record) rw left rw more refl
        ]
      ]

  no_stream-expire_stream :
      (st : PresenceState Info) (sid stream pid : String)
      → lookup stream st.streams ≡ none
      → (expire_stream st sid stream pid).0 ≡ st
  unfolding expire_stream
  no_stream-expire_stream st sid stream pid h = rw (h, expire_stream) refl

  absent :
      (st : PresenceState Info) (t q u : String)
      → lookup t st.streams ≡ none
      → present st t q u ≡ false
  unfolding present entry or_empty lookup
  absent st t q u h = ground arith

  abbrev AllEntries : PresenceState Info → Type 0
  AllEntries st = (stream pid : String) → WhenEntry (entry st.streams stream pid)

  -- What taking a session out under some pairs of a stream and an id leaves of the state.
  record Cut (st st' : PresenceState Info) (sid : String) (pairs : Dict String String)
      : Type 0 where
    entries : AllEntries st'
    sessions : st'.sessions ≡ st.sessions
    members :
        (t q u : String)
        → present st' t q u ≡ not ((sid == u) && paired t q pairs) && present st t q u

  expire_stream-Cut :
      (st : PresenceState Info) (sid stream pid : String)
      → AllEntries st
      → Cut st (expire_stream st sid stream pid).0 sid ((stream, pid) ∷ [])
  unfolding present paired
  expire_stream-Cut st sid stream pid v = elim (Option-cases (lookup stream st.streams)) [
    | inl e ↦
        subst (λ st'. Cut st st' sid ((stream, pid) ∷ []))
          (sym (no_stream-expire_stream st sid stream pid e))
          (record {
            entries = v;
            sessions = refl;
            members = λ t q u. ground (arith, absent st t q u, e, string_eq.beq_iff stream t);
          })
    | inr (records, e) ↦
        let w = subst WhenEntry (entry_known st.streams records stream pid e) (v stream pid) in
        subst (λ st'. Cut st st' sid ((stream, pid) ∷ []))
          (sym (expire_stream-remove_record st records sid stream pid e))
          (record {
            entries = λ t q. entries-remove_record st records stream sid pid t q e w (v t q);
            sessions = sessions-remove_record st records stream sid pid;
            members =
                λ t q u. ground (arith, entry-remove_record st records stream sid pid t q u e w);
          })
  ]

  expire_streams-Cut :
      (sid : String) (pairs : Dict String String) (st : PresenceState Info)
      → AllEntries st
      → Cut st (expire_streams st sid pairs).0 sid pairs
  unfolding expire_streams paired
  expire_streams-Cut sid [] st v = record {
    entries = v;
    sessions = refl;
    members = λ t q u. ground arith;
  }
  expire_streams-Cut sid ((stream, pid) ∷ pairs) st v =
      let first = expire_stream-Cut st sid stream pid v in
      let rest = expire_streams-Cut sid pairs (expire_stream st sid stream pid).0 first.entries in
      record {
        entries = rest.entries;
        sessions = rest.sessions ∙ first.sessions;
        members = λ t q u. rest.members t q u ∙ ground (arith, first.members t q u);
      }

  -- One session that expires.
  abbrev without_session : PresenceState Info → String → PresenceState Info
  without_session st sid =
      let left = (expire_streams st sid (streams_of (lookup sid st.sessions))).0 in
      record left { sessions = delete sid left.sessions }

  registered_pairs :
      (st : PresenceState Info) (sid t : String)
      → registered st.sessions sid t ≡ lookup t (streams_of (lookup sid st.sessions))
  unfolding registered
  registered_pairs st sid t = refl

  -- Wherever a session is present, its own entry has the pair.
  covered :
      (st : PresenceState Info) (sid t q : String)
      → IsConsistent st
      → not (present st t q sid) || paired t q (streams_of (lookup sid st.sessions)) ≡ true
  covered st sid t q c =
      let pairs = streams_of (lookup sid st.sessions) in
      elim (Option-cases (registered st.sessions sid t)) [
        | inl e ↦ ground (arith, c.agrees t q sid, e)
        | inr (x, e) ↦ ground (
          arith,
          c.agrees t q sid,
          e,
          registered_pairs st sid t,
          lookup-paired t q pairs,
          string_eq.beq_iff x q,
        )
      ]

  present-without_session :
      (st : PresenceState Info) (sid t q u : String)
      → IsConsistent st
      → present (without_session st sid) t q u ≡ not (sid == u) && present st t q u
  unfolding present
  present-without_session st sid t q u c =
      let pairs = streams_of (lookup sid st.sessions) in
      let cut = expire_streams-Cut sid pairs st c.entries in
      ground (arith, cut.members t q u, covered st sid t q c, string_eq.beq_iff sid u)

  without_session-IsConsistent :
      (st : PresenceState Info) (sid : String)
      → IsConsistent st
      → IsConsistent (without_session st sid)
  without_session-IsConsistent st sid c =
      let cut = expire_streams-Cut sid (streams_of (lookup sid st.sessions)) st c.entries in
      let left = (expire_streams st sid (streams_of (lookup sid st.sessions))).0 in
      record {
        agrees = λ t q u. ground (
          arith,
          present-without_session st sid t q u c,
          c.agrees t q u,
          cut.sessions,
          registered-delete left.sessions sid u t,
        );
        entries = cut.entries;
      }

  expired_all :
      (sids : List String) (st : PresenceState Info)
      → IsConsistent st
      → IsConsistent (expire_sessions st sids).0
        × ((t q u : String)
            → present (expire_sessions st sids).0 t q u ≡ not (contains u sids) && present st t q u)
  unfolding expire_sessions contains
  expired_all [] st c = (c, λ t q u. refl)
  expired_all (sid ∷ sids) st c =
      let (c', p) =
        expired_all sids (without_session st sid) (without_session-IsConsistent st sid c) in
      (c', λ t q u. p t q u ∙ ground (arith, present-without_session st sid t q u c))

  -- On a consistent state whose sessions have different keys, expirePresence takes exactly the
  -- sessions past their deadline out of every stream, whatever their ids, and nobody else, and the
  -- two maps agree after it.
  pub expire_presence-present :
      (now : ℕ) (st : PresenceState Info)
      → IsConsistent st
      → Distinct st.sessions
      → IsConsistent (expire_presence now st).0
        × ((t q u : String)
            → present (expire_presence now st).0 t q u
              ≡ not (overdue now (lookup u st.sessions)) && present st t q u)
  unfolding expire_presence
  expire_presence-present now st c d =
      let (c', p) = expired_all (to_delete now st.sessions) st c in
      (
        c',
        λ t q u.
            p t q u ∙ ap (λ b. not b && present st t q u) (to_delete-overdue now u st.sessions d),
      )
