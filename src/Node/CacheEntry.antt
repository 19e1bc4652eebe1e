-- ===== src/Node/CacheEntry.antt =====
-- node/session.go, `cacheEntry`: what a session leaves in the broker's cache, as the JSON object that
-- its tags say. The bytes of an object are encoding/json's; no key comes twice in it, and marshalling
-- strings, maps of them and a Boolean does not fail.
use anycable.Prelude.{◌≡◌, refl, Bool, false, Option, none, some, List, [], ◌∷◌, String, string_eq}
use anycable.Prelude.Dict.{Dict, lookup}

pub record CacheEntry : Type 0 where
  pub identifiers : String
  pub subscriptions : Dict String (List String)
  pub connection_state : Dict String String
  pub channel_states : Dict String (Dict String String)
  pub disconnectable : Bool

-- The shapes of a field's value; `other` is one that no field has.
pub data JsonField : Type 0 where
  null : JsonField
  text : String → JsonField
  flag : Bool → JsonField
  texts : Dict String String → JsonField
  lists : Dict String (List String) → JsonField
  nested : Dict String (Dict String String) → JsonField
  other : JsonField

abbrev pub JsonObject : Type 0
JsonObject = Dict String JsonField

unfoldable pub marshal : CacheEntry → JsonObject
marshal entry =
    ("ids", text entry.identifiers)
    ∷ ("subs", lists entry.subscriptions)
    ∷ ("cstate", texts entry.connection_state)
    ∷ ("istate", nested entry.channel_states)
    ∷ ("Disconnectable", flag entry.disconnectable)
    ∷ []

-- What a field reads: nothing where the key is missing or null, and an error on another shape.
abbrev pub text_of : Option JsonField → Option String
text_of none = some ""
text_of (some null) = some ""
text_of (some (text s)) = some s
text_of (some _) = none

abbrev pub flag_of : Option JsonField → Option Bool
flag_of none = some false
flag_of (some null) = some false
flag_of (some (flag b)) = some b
flag_of (some _) = none

-- An empty object is a map of any kind.
abbrev pub texts_of : Option JsonField → Option (Dict String String)
texts_of none = some []
texts_of (some null) = some []
texts_of (some (texts st)) = some st
texts_of (some (lists [])) = some []
texts_of (some (nested [])) = some []
texts_of (some _) = none

abbrev pub lists_of : Option JsonField → Option (Dict String (List String))
lists_of none = some []
lists_of (some null) = some []
lists_of (some (lists m)) = some m
lists_of (some (texts [])) = some []
lists_of (some (nested [])) = some []
lists_of (some _) = none

abbrev pub nested_of : Option JsonField → Option (Dict String (Dict String String))
nested_of none = some []
nested_of (some null) = some []
nested_of (some (nested m)) = some m
nested_of (some (texts [])) = some []
nested_of (some (lists [])) = some []
nested_of (some _) = none

infixl 5 ◌>>=◌
abbrev ◌>>=◌ : {A B : Type 0} → Option A → (A → Option B) → Option B
none >>= f = none
(some a) >>= f = f a

unfoldable pub unmarshal : JsonObject → Option CacheEntry
unmarshal cached = do
  identifiers ← text_of (lookup "ids" cached)
  subscriptions ← lists_of (lookup "subs" cached)
  connection_state ← texts_of (lookup "cstate" cached)
  channel_states ← nested_of (lookup "istate" cached)
  disconnectable ← flag_of (lookup "Disconnectable" cached)
  some (record {
    identifiers = identifiers;
    subscriptions = subscriptions;
    connection_state = connection_state;
    channel_states = channel_states;
    disconnectable = disconnectable;
  })

-- What is written is read back.
pub unmarshal-marshal : (entry : CacheEntry) → unmarshal (marshal entry) ≡ some entry
unfolding unmarshal marshal lookup
unmarshal-marshal entry = refl
