-- ===== src/Broker/Presence.antt =====
-- broker/memory.go, the presence part of `Memory`: who is present in which stream. `Info` is what a
-- client says of itself (any value). Times are Unix milliseconds, given to each method as `now`; a
-- session's deadline is set to `now + ttl * 1000`. The lock makes each method one step, and a method
-- that fails keeps what it wrote before. What the presenter hears is the event that a method answers.
pub mod Entries
pub mod Presents
pub mod Joins
pub mod Leaves
pub mod Events
pub mod Sweep
pub mod Expiry
use anycable.Prelude.{
  ℕ, ◌+◌, ◌*◌, Bool, true, false, Option, none, some, List, [], ◌∷◌, ◌++◌, ◌&&◌, not, length, ltb,
  if◌then◌else◌, String, string_eq, ◌==◌, contains, is_some, map,
}
use anycable.Prelude.Dict.{Dict, lookup, insert, delete, has, is_empty}
use anycable.Broker.Outcome.{
  Outcome, ok, err, panic, stream_not_found, presence_id_mismatch, presence_info_not_found,
  presence_record_not_found,
}

pub record PresenceSessionEntry : Type 0 where
  -- stream -> pid
  pub streams : Dict String String
  pub deadline : ℕ

pub record PresenceEntry (Info : Type 0) : Type 0 where
  pub info : Info
  pub id : String
  pub sessions : List String

-- `info` is `none` for Go's nil.
pub record PresenceEvent (Info : Type 0) : Type 0 where
  pub event_type : String
  pub id : String
  pub info : Option Info

pub record PresenceInfo (Info : Type 0) : Type 0 where
  pub info_type : String
  pub total : ℕ
  pub records : List (PresenceEvent Info)

pub record PresenceState (Info : Type 0) : Type 0 where
  pub streams : Dict String (Dict String (PresenceEntry Info))
  pub sessions : Dict String PresenceSessionEntry

-- The slice without the first occurrence.
pub remove_first : String → List String → List String
remove_first sid [] = []
remove_first sid (s ∷ ss) = let rest = remove_first sid ss in if s == sid then ss else s ∷ rest

pub or_empty : {V : Type 0} → Option (Dict String V) → Dict String V
or_empty none = []
or_empty (some m) = m

-- The streams of a session that may be unknown.
pub streams_of : Option PresenceSessionEntry → Dict String String
streams_of none = []
streams_of (some ses) = ses.streams

abbrev pub mismatch : Option String → String → Bool
mismatch none pid = false
mismatch (some old) pid = not (old == pid)

-- The sessions after `delete(ses.streams, stream)`, without an empty entry.
pub forget :
    Dict String PresenceSessionEntry
    → String
    → PresenceSessionEntry
    → String
    → Dict String PresenceSessionEntry
forget sessions sid ses stream =
    let streams = delete stream ses.streams in
    if is_empty streams
    then delete sid sessions
    else insert sid (record ses { streams = streams }) sessions

module _ {Info : Type 0} where
  abbrev pub new_presence_state : PresenceState Info
  new_presence_state = record { streams = []; sessions = [] }

  -- The entry, and whether it is left empty.
  unfoldable pub remove : PresenceEntry Info → String → PresenceEntry Info × Bool
  unfolding remove_first
  remove pe sid =
      let rest = remove_first sid pe.sessions in
      if contains sid pe.sessions
      then (record pe { sessions = rest }, is_empty rest)
      else (pe, false)

  unfoldable pub add : PresenceEntry Info → String → Info → PresenceEntry Info
  add pe sid info = record pe {
    info = info;
    sessions = if contains sid pe.sessions then pe.sessions else pe.sessions ++ sid ∷ [];
  }

  unfoldable pub touch_presence : ℕ → ℕ → PresenceState Info → String → PresenceState Info
  touch_presence now ttl st sid = elim (lookup sid st.sessions) [
    | none ↦ st
    | some sp ↦ record st {
      sessions = insert sid (record sp { deadline = now + ttl * 1000 }) st.sessions;
    }
  ]

  -- The first two steps of `PresenceAdd`, which make what is missing: the session's entry.
  abbrev pub session_entry : ℕ → ℕ → PresenceState Info → String → PresenceSessionEntry
  session_entry now ttl st sid = elim (lookup sid st.sessions) [
    | none ↦ record { streams = []; deadline = now + ttl * 1000 }
    | some ses ↦ ses
  ]

  -- The presence entry that the stream's map holds, or a new one.
  abbrev pub presence_entry : Option (PresenceEntry Info) → String → Info → PresenceEntry Info
  presence_entry none pid info = record { info = info; id = pid; sessions = [] }
  presence_entry (some pe) pid info = pe

  abbrev pub join_event : Bool → String → Info → Option (PresenceEvent Info)
  join_event known pid info =
      if known then none else some (record { event_type = "join"; id = pid; info = some info })

  unfoldable pub presence_add :
      ℕ
      → ℕ
      → PresenceState Info
      → String
      → String
      → String
      → Info
      → PresenceState Info × Outcome (Option (PresenceEvent Info))
  unfolding or_empty add
  presence_add now ttl st stream sid pid info =
      let records = or_empty (lookup stream st.streams) in
      let ses = session_entry now ttl st sid in
      let pe = add (presence_entry (lookup pid records) pid info) sid info in
      if mismatch (lookup stream ses.streams) pid
      then (
        record {
          streams = insert stream records st.streams;
          sessions = insert sid ses st.sessions;
        },
        err presence_id_mismatch,
      )
      else (
        record {
          streams = insert stream (insert pid pe records) st.streams;
          sessions =
              insert sid (record ses { streams = insert stream pid ses.streams }) st.sessions;
        },
        ok (join_event (has pid records) pid info),
      )

  abbrev pub leave_event : Bool → String → Option (PresenceEvent Info)
  leave_event empty pid =
      if empty then some (record { event_type = "leave"; id = pid; info = none }) else none

  -- The rest of `PresenceRemove`, once the session's entry is dealt with.
  pub remove_record :
      PresenceState Info
      → Dict String (PresenceEntry Info)
      → String
      → String
      → String
      → PresenceState Info × Outcome (Option (PresenceEvent Info))
  unfolding remove
  remove_record st records stream sid pid = elim (lookup pid records) [
    | none ↦ (st, err presence_record_not_found)
    | some found ↦
        let (pe, empty) = remove found sid in
        let left = if empty then delete pid records else insert pid pe records in
        (
          record st {
            streams =
                if is_empty left then delete stream st.streams else insert stream left st.streams;
          },
          ok (leave_event empty pid),
        )
  ]

  pub presence_remove :
      PresenceState Info
      → String
      → String
      → PresenceState Info × Outcome (Option (PresenceEvent Info))
  unfolding remove_record forget
  presence_remove st stream sid = elim (lookup stream st.streams) [
    | none ↦ (st, err stream_not_found)
    | some records ↦ elim (lookup sid st.sessions) [
      | none ↦ remove_record st records stream sid ""
      | some ses ↦ elim (lookup stream ses.streams) [
        | none ↦ (st, err presence_info_not_found)
        | some pid ↦
            remove_record (record st { sessions = forget st.sessions sid ses stream }) records
              stream sid pid
      ]
    ]
  ]

  abbrev pub to_record : String × PresenceEntry Info → PresenceEvent Info
  to_record (pid, pe) = record { event_type = ""; id = pe.id; info = some pe.info }

  unfoldable pub presence_info : Bool → PresenceState Info → String → PresenceInfo Info
  unfolding or_empty
  presence_info return_records st stream =
      let records = or_empty (lookup stream st.streams) in
      record {
        info_type = "info";
        total = length records;
        records = if return_records then map to_record records else [];
      }
