-- ===== src/Tests/RestoreRuns.antt =====
-- A session that is cached, and one that comes back for it.
use anycable.Prelude.{
  ◌≡◌, ◌≢◌, refl, true, false, Option, none, some, [], ◌∷◌, String, string_eq, ◌==◌, arith, Bool,
  if◌then◌else◌,
}
use anycable.Prelude.Dict.{Dict, lookup}
use anycable.Common.Env.{new_session_env}
use anycable.Broker.Outcome.{ok}
use anycable.Hub.Reach.{new_hub-IsRecorded}
use anycable.Hub.{new_hub}
use anycable.Node.CacheEntry.{unmarshal-marshal}
use anycable.Node.State.{Node, Session, to_cache_entry, cached, is_resumeable}
use anycable.Node.Replies.{failure}
use anycable.Node.Commands.{auto}
use anycable.Node.Agreement.{NodeInStep}
use anycable.Node.Restore.{restore_from_cache, try_restore_session}
use anycable.Node.Restore.RoundTrip.{
  IsKept, IsMerged, IsFresh, IsRestored, restore_from_cache-cached,
}
use anycable.Node.Restore.Resubscribed.{try_restore_session-InStep}
use anycable.Node.Auth.{ConnectResult, authenticate, restored, answered}
use anycable.Node.Auth.Rejected.{rejected-restored}
use anycable.Tests.NodeRuns.{named, chatting, node_of}

-- An identity that keeps its name.
abbrev identify : String → String → String
identify s ids = s

abbrev chatting_session : Session String String
chatting_session = record (node_of chatting).session {
  env = record {
    url = "/cable";
    identifiers = "user";
    connection_state = ("room", "7") ∷ [];
    channel_states = ("chat", ("color", "red") ∷ []) ∷ [];
  };
}

abbrev fresh : Session String String
fresh = record (node_of []).session { disconnect_interest = false }

fresh-IsFresh : IsFresh fresh
unfolding new_session_env
fresh-IsFresh = record { subscriptions = refl; connection = refl; channels = refl; interest = refl }

one-IsMerged : (k v : String) → v ≢ "" → IsMerged ((k, v) ∷ [])
unfolding lookup
one-IsMerged k v full = ((refl, tt), λ j e. ground arith)

red : ◌≢◌ {A = String} "red" ""
red e = cc ((string_eq.beq_iff "red" "").1 e)

old : ◌≢◌ {A = String} "old" ""
old e = cc ((string_eq.beq_iff "old" "").1 e)

a : ◌≢◌ {A = String} "a" ""
a e = cc ((string_eq.beq_iff "a" "").1 e)

seven : ◌≢◌ {A = String} "7" ""
seven e = cc ((string_eq.beq_iff "7" "").1 e)

chat_state-IsMerged :
    (b : Bool)
    → IsMerged
        (elim (if◌then◌else◌ {A = Option (Dict String String)} b
          (some (("color", "red") ∷ []))
          none) [ none ↦ [] | some st ↦ st ])
unfolding lookup
chat_state-IsMerged true = one-IsMerged "color" "red" red
chat_state-IsMerged false = (tt, λ k e. cc e)

chatting-IsKept : IsKept chatting_session
unfolding lookup
chatting-IsKept = record {
  subscriptions = (refl, tt);
  connection = one-IsMerged "room" "7" seven;
  channels = (refl, tt);
  states = λ id. chat_state-IsMerged ("chat" == id);
}

-- The session's id with its identifiers.
abbrev rename : String × String → String → String × String
rename (sid, old_ids) ids = (sid, ids)

abbrev known_as : String × String → Session String String → Session (String × String) String
known_as handle s = record {
  handle = handle;
  connected = s.connected;
  closed = s.closed;
  inactive = s.inactive;
  resume_interval = s.resume_interval;
  disconnect_interest = s.disconnect_interest;
  subscriptions = s.subscriptions;
  env = s.env;
  outbox = s.outbox;
}

user-IsKept : IsKept (known_as ("a", "user") chatting_session)
user-IsKept = record {
  subscriptions = chatting-IsKept.subscriptions;
  connection = chatting-IsKept.connection;
  channels = chatting-IsKept.channels;
  states = chatting-IsKept.states;
}

nobody-IsFresh : IsFresh (known_as ("b", "") fresh)
nobody-IsFresh = record {
  subscriptions = fresh-IsFresh.subscriptions;
  connection = fresh-IsFresh.connection;
  channels = fresh-IsFresh.channels;
  interest = fresh-IsFresh.interest;
}

restore_from_cache-cached_example :
    (r : Session (String × String) String) × (restore_from_cache rename
        (known_as ("b", "") fresh)
        (cached (known_as ("a", "user") chatting_session))
      ≡ some r)
    × IsRestored rename (known_as ("a", "user") chatting_session) (known_as ("b", "") fresh) r
restore_from_cache-cached_example =
    restore_from_cache-cached rename (known_as ("a", "user") chatting_session)
      (known_as ("b", "") fresh) user-IsKept nobody-IsFresh

-- "old" is cached; the session "a" comes back for it.
abbrev remembering : Node String String
remembering = record (node_of []) { cache = ("old", cached chatting_session) ∷ [] }

try_restore_session-InStep_example :
    (n' : Node String String) × (try_restore_session identify remembering "old" ≡ (n', true))
    × (n'.session.connected ≡ true)
    × NodeInStep n'
unfolding lookup new_hub cached
try_restore_session-InStep_example =
    try_restore_session-InStep (λ a b e. e) identify remembering "old" (cached chatting_session)
      (to_cache_entry chatting_session) old refl
      (unmarshal-marshal (to_cache_entry chatting_session)) refl refl
      (new_hub-IsRecorded 2 (omega arith)) refl

-- A controller that rejects.
abbrev rejection : ConnectResult
rejection = record {
  identifier = "";
  transmissions = "unauthorized" ∷ [];
  broadcasts = [];
  connection_state = none;
  disconnect_interest = false;
  status = failure;
}

abbrev arriving : Node String String
arriving = record (node_of []) { session = record fresh { connected = false } }

rejected-restored_example :
    (n' back : Node String String) × (authenticate identify auto 1 1000 true arriving ""
        (record { result = some rejection; failed = false; closed_meanwhile = false })
      ≡ ok (n', answered rejection))
    × (n'.session.closed ≡ true)
    × (authenticate identify auto 1 1000 true
          (record n' { session = fresh })
          "a"
          (record { result = some rejection; failed = false; closed_meanwhile = false })
        ≡ ok (back, restored))
    × (back.session.connected ≡ true)
unfolding is_resumeable
rejected-restored_example =
    rejected-restored identify auto 1 1000 arriving fresh rejection
      (record { result = some rejection; failed = false; closed_meanwhile = false }) refl refl refl
      refl refl a refl refl
