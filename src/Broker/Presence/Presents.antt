-- ===== src/Broker/Presence/Presents.antt =====
-- Who is present (broker/memory.go, `presenceState`): the two maps of the state read as relations,
-- and that they agree: a session is in the entry of a presence id exactly when its own entry
-- registers that id for the stream.
use anycable.Prelude.{
  ◌≡◌, refl, Bool, true, false, not, ◌&&◌, Option, none, some, List, [], ◌∷◌, String, string_eq,
  ◌==◌, contains, if◌then◌else◌, arith, subst, ◌∙◌, inl, inr, Option-cases,
}
use anycable.Prelude.Dict.{Dict, lookup, insert, delete, is_empty, lookup-insert, lookup-delete}
use anycable.Broker.Presence.{
  PresenceState, PresenceEntry, PresenceSessionEntry, new_presence_state, or_empty, streams_of,
  remove_record, forget, remove,
}
use anycable.Broker.Presence.Entries.{IsEntry, contains-remove, remove-IsEntry}

-- The stream's pid that the session registered.
unfoldable pub registered : Dict String PresenceSessionEntry → String → String → Option String
unfolding streams_of
registered sessions sid stream = lookup stream (streams_of (lookup sid sessions))

abbrev pub names : Option String → String → Bool
names none pid = false
names (some p) pid = p == pid

module _ {Info : Type 0} where
  unfoldable pub entry :
      Dict String (Dict String (PresenceEntry Info)) → String → String → Option (PresenceEntry Info)
  unfolding or_empty
  entry streams stream pid = lookup pid (or_empty (lookup stream streams))

  abbrev pub member : Option (PresenceEntry Info) → String → Bool
  member none sid = false
  member (some pe) sid = contains sid pe.sessions

  -- Whether the session is in the entry of that presence id.
  unfoldable pub present : PresenceState Info → String → String → String → Bool
  present st stream pid sid = member (entry st.streams stream pid) sid

  abbrev pub WhenEntry : Option (PresenceEntry Info) → Type 0
  WhenEntry none = Unit {0}
  WhenEntry (some pe) = IsEntry pe

  -- The two maps agree, and every entry has sessions, each once.
  pub record IsConsistent (st : PresenceState Info) : Type 0 where
    pub agrees :
        (stream pid sid : String)
        → present st stream pid sid ≡ names (registered st.sessions sid stream) pid
    pub entries : (stream pid : String) → WhenEntry (entry st.streams stream pid)

  pub entry-insert :
      (streams : Dict String (Dict String (PresenceEntry Info)))
      (records : Dict String (PresenceEntry Info)) (stream t q : String)
      → entry (insert stream records streams) t q
        ≡ (if stream == t then lookup q records else entry streams t q)
  unfolding entry or_empty
  entry-insert streams records stream t q = ground (arith, lookup-insert stream t records streams)

  -- What `PresenceAdd` makes of the streams' map, read at any place.
  pub entry-add :
      (streams : Dict String (Dict String (PresenceEntry Info))) (pe : PresenceEntry Info)
      (stream pid t q : String)
      → entry (insert stream (insert pid pe (or_empty (lookup stream streams))) streams) t q
        ≡ (if (stream == t) && (pid == q) then some pe else entry streams t q)
  unfolding entry
  entry-add streams pe stream pid t q = ground (
    arith,
    entry-insert streams (insert pid pe (or_empty (lookup stream streams))) stream t q,
    lookup-insert pid q pe (or_empty (lookup stream streams)),
    string_eq.beq_iff stream t,
  )

pub registered-insert :
    (sessions : Dict String PresenceSessionEntry) (ses : PresenceSessionEntry) (sid u t : String)
    → registered (insert sid ses sessions) u t
      ≡ (if sid == u then lookup t ses.streams else registered sessions u t)
unfolding registered streams_of
registered-insert sessions ses sid u t = ground (arith, lookup-insert sid u ses sessions)

pub registered-delete :
    (sessions : Dict String PresenceSessionEntry) (sid u t : String)
    → registered (delete sid sessions) u t ≡ (if sid == u then none else registered sessions u t)
unfolding registered streams_of lookup
registered-delete sessions sid u t = ground (arith, lookup-delete sid u sessions)

pub no_one : (u : String) (ss : List String) → is_empty ss ≡ true → contains u ss ≡ false
unfolding contains
no_one u [] h = refl
no_one u (s ∷ ss) h = cc

is_empty-lookup :
    {V : Type 0} (t : String) (m : Dict String V) → is_empty m ≡ true → lookup t m ≡ none
unfolding lookup
is_empty-lookup t [] h = refl
is_empty-lookup t (x ∷ m) h = cc

pub registered_known :
    (sessions : Dict String PresenceSessionEntry) (ses : PresenceSessionEntry) (sid t : String)
    → lookup sid sessions ≡ some ses
    → registered sessions sid t ≡ lookup t ses.streams
unfolding registered streams_of
registered_known sessions ses sid t h = ground arith

pub registered-forget :
    (sessions : Dict String PresenceSessionEntry) (ses : PresenceSessionEntry)
    (sid stream u t : String)
    → lookup sid sessions ≡ some ses
    → registered (forget sessions sid ses stream) u t
      ≡ (if (sid == u) && (stream == t) then none else registered sessions u t)
unfolding forget
registered-forget sessions ses sid stream u t h = ground (
  arith,
  registered-delete sessions sid u t,
  registered-insert sessions (record ses { streams = delete stream ses.streams }) sid u t,
  lookup-delete stream t ses.streams,
  is_empty-lookup t (delete stream ses.streams),
  registered_known sessions ses sid t h,
  string_eq.beq_iff sid u,
)

module _ {Info : Type 0} where
  pub entry-keep :
      (streams : Dict String (Dict String (PresenceEntry Info)))
      (left : Dict String (PresenceEntry Info)) (stream t q : String)
      → entry (if is_empty left then delete stream streams else insert stream left streams) t q
        ≡ (if stream == t then lookup q left else entry streams t q)
  unfolding entry or_empty lookup
  entry-keep streams [] stream t q = ground (arith, lookup-delete stream t streams)
  entry-keep streams (x ∷ left) stream t q =
      ground (arith, lookup-insert stream t (x ∷ left) streams)

  pub entry_known :
      (streams : Dict String (Dict String (PresenceEntry Info)))
      (records : Dict String (PresenceEntry Info)) (stream q : String)
      → lookup stream streams ≡ some records
      → entry streams stream q ≡ lookup q records
  unfolding entry or_empty
  entry_known streams records stream q h = ground arith

  pub entry-take :
      (streams : Dict String (Dict String (PresenceEntry Info)))
      (records : Dict String (PresenceEntry Info)) (pe : PresenceEntry Info) (empty : Bool)
      (stream pid t q : String)
      → lookup stream streams ≡ some records
      → (let left = if empty then delete pid records else insert pid pe records in
          entry (if is_empty left then delete stream streams else insert stream left streams) t q)
        ≡ (if (stream == t) && (pid == q)
            then if empty then none else some pe
            else entry streams t q)
  entry-take streams records pe true stream pid t q h = ground (
    arith,
    entry-keep streams (delete pid records) stream t q,
    lookup-delete pid q records,
    entry_known streams records stream q h,
    string_eq.beq_iff stream t,
  )
  entry-take streams records pe false stream pid t q h = ground (
    arith,
    entry-keep streams (insert pid pe records) stream t q,
    lookup-insert pid q pe records,
    entry_known streams records stream q h,
    string_eq.beq_iff stream t,
  )

  -- Nobody is in an entry that is left empty.
  pub remove_empty :
      (pe : PresenceEntry Info) (sid u : String)
      → IsEntry pe
      → (remove pe sid).1 ≡ true
      → contains u (remove pe sid).0.sessions ≡ false
  remove_empty pe sid u w h = no_one u (remove pe sid).0.sessions ((remove-IsEntry sid pe w).1 ∙ h)

  -- After a leave, an entry is what it was without the session, and is gone when nobody is left.
  pub entry-remove_record :
      (st : PresenceState Info) (records : Dict String (PresenceEntry Info))
      (stream sid pid t q u : String)
      → lookup stream st.streams ≡ some records
      → WhenEntry (lookup pid records)
      → member (entry (remove_record st records stream sid pid).0.streams t q) u
        ≡ not ((stream == t) && ((pid == q) && (sid == u))) && member (entry st.streams t q) u
  unfolding remove_record
  entry-remove_record st records stream sid pid t q u h w =
      elim (Option-cases (lookup pid records)) [
        | inl e ↦
            rw (e, remove_record) ground
              (
                arith,
                entry_known st.streams records stream q h,
                string_eq.beq_iff stream t,
                string_eq.beq_iff pid q,
              )
        | inr (found, e) ↦
            rw (e, remove_record)
              let k : IsEntry found = subst WhenEntry e w in
                ground (
                  arith,
                  entry-take st.streams records (remove found sid).0 (remove found sid).1 stream pid
                      t q h,
                  entry_known st.streams records stream q h,
                  contains-remove u sid found k.0,
                  remove_empty found sid u k,
                  string_eq.beq_iff stream t,
                  string_eq.beq_iff pid q,
                )
      ]

pub new_presence_state-IsConsistent :
    {Info : Type 0} → IsConsistent {Info = Info} new_presence_state
unfolding present entry registered or_empty streams_of lookup
new_presence_state-IsConsistent = record {
  agrees = λ stream pid sid. refl;
  entries = λ stream pid. tt;
}
