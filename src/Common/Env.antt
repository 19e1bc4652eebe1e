-- ===== src/Common/Env.antt =====
-- common/common.go, `SessionEnv`: the connection's and the channels' states, two maps that are
-- made with the environment and never nil. An empty value in an update removes the key.
use anycable.Prelude.{
  Option, none, some, [], ◌∷◌, String, if◌then◌else◌, string_eq, ◌==◌, ◌≡◌, refl, arith,
}
use anycable.Prelude.Dict.{Dict, lookup, insert, delete, lookup-insert, lookup-delete}

pub record SessionEnv : Type 0 where
  pub url : String
  pub identifiers : String
  pub connection_state : Dict String String
  pub channel_states : Dict String (Dict String String)

unfoldable pub new_session_env : String → SessionEnv
new_session_env url = record {
  url = url;
  identifiers = "";
  connection_state = [];
  channel_states = [];
}

-- The loop that both merges share.
pub merge_state : Dict String String → Dict String String → Dict String String
merge_state st [] = st
merge_state st ((k, v) ∷ other) = merge_state (if v == "" then delete k st else insert k v st) other

unfoldable pub merge_connection_state : SessionEnv → Dict String String → SessionEnv
merge_connection_state env other = record env {
  connection_state = merge_state env.connection_state other;
}

abbrev pub state_of : String → SessionEnv → Dict String String
state_of id env = elim (lookup id env.channel_states) [ none ↦ [] | some st ↦ st ]

unfoldable pub merge_channel_state : SessionEnv → String → Dict String String → SessionEnv
merge_channel_state env id other = record env {
  channel_states = insert id (merge_state (state_of id env) other) env.channel_states;
}

unfoldable pub remove_channel_state : SessionEnv → String → SessionEnv
remove_channel_state env id = record env { channel_states = delete id env.channel_states }

-- A missing key reads as the empty text.
unfoldable pub get_channel_state_field : SessionEnv → String → String → String
get_channel_state_field env id field = elim (lookup field (state_of id env)) [
  | none ↦ ""
  | some v ↦ v
]

-- What an update says of a key: the last entry for it.
unfoldable pub verdict : String → Dict String String → Option String
verdict k [] = none
verdict k ((j, v) ∷ other) = elim (verdict k other) [
  | some w ↦ some w
  | none ↦ if j == k then some v else none
]

-- After a merge a key holds the value of the update, is gone when that value is empty, and is as
-- it was when the update does not name it.
pub lookup-merge_state :
    (k : String) (st other : Dict String String)
    → lookup k (merge_state st other)
      ≡ (elim (verdict k other) [ none ↦ lookup k st | some v ↦ if v == "" then none else some v ])
unfolding merge_state verdict
lookup-merge_state k st [] = refl
lookup-merge_state k st ((j, v) ∷ other) = ground (
  arith,
  lookup-merge_state k (if v == "" then delete j st else insert j v st) other,
  lookup-insert j k v st,
  lookup-delete j k st,
  string_eq.beq_iff j k,
  string_eq.beq_iff v "",
)
