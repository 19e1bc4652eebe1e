-- ===== src/Node/Goodbye.antt =====
-- `Disconnect` of node/node.go: what is left of a client that has gone.
use anycable.Prelude.{
  ℕ, suc, ◌+◌, ◌≡◌, refl, ◌∙◌, Bool, false, none, List, [], ◌∷◌, ◌++◌, ◌==◌, if◌then◌else◌, String,
  string_eq, Eq, arith, ==_refl,
}
use anycable.Prelude.Dict.{Dict, Distinct, has, keys, lookup}
use anycable.Broker.Tracker
use anycable.Broker.Tracker.{Tracked}
use anycable.Hub.{remove_session}
use anycable.Hub.Gate.{HubSession}
use anycable.Hub.Listening.{listens}
use anycable.Hub.Registry.{IsRecorded}
use anycable.Hub.Removal.{remove_session_clean}
use anycable.Node.Subscriptions.{SubscriptionState, to_map}
use anycable.Node.State.{Node, disconnect_now}
use anycable.Node.Replies.{release, release_all}
use anycable.Node.Departure.{all_streams, unsubscribe_session_streams, disconnect}

-- The broker after it has been told that each of the streams is not in use any more.
unfoldable pub unsubscribe_all : Tracked → List String → Tracked
unsubscribe_all b [] = b
unsubscribe_all b (stream ∷ streams) = unsubscribe_all (Tracker.unsubscribe b stream) streams

-- How often a stream is in a list, and how many channels have it.
pub times : String → List String → ℕ
times stream [] = 0
times stream (t ∷ ts) = let rest = times stream ts in if t == stream then suc rest else rest

pub channels_with : String → SubscriptionState → ℕ
channels_with stream [] = 0
channels_with stream ((id, streams) ∷ st) =
    let rest = channels_with stream st in if has stream streams then suc rest else rest

-- Each channel's streams are a set, as the keys of a Go map are.
abbrev pub AreSets : SubscriptionState → Type 0
AreSets [] = Unit {0}
AreSets ((id, streams) ∷ st) = Distinct streams × AreSets st

times-append :
    (stream : String) (xs ys : List String)
    → times stream (xs ++ ys) ≡ times stream xs + times stream ys
unfolding times
times-append stream [] ys = omega arith
times-append stream (x ∷ xs) ys = ground (arith, times-append stream xs ys)

times-keys :
    (stream : String) (streams : Dict String Bool)
    → Distinct streams
    → times stream (keys streams) ≡ (if has stream streams then 1 else 0)
unfolding times lookup
times-keys stream [] d = refl
times-keys stream ((t, b) ∷ streams) d =
    ground (arith, times-keys stream streams d.1, d.0, string_eq.beq_iff t stream)

times-all_streams :
    (stream : String) (st : SubscriptionState)
    → AreSets st
    → times stream (all_streams (to_map st)) ≡ channels_with stream st
unfolding times channels_with all_streams to_map
times-all_streams stream [] d = refl
times-all_streams stream ((id, streams) ∷ st) d = ground (
  arith,
  times-append stream (keys streams) (all_streams (to_map st)),
  times-keys stream streams d.0,
  times-all_streams stream st d.1,
)

module _ {S Info : Type 0} ⦃e : Eq S⦄ ⦃i : HubSession S⦄ where
  release_all-tracked :
      (streams : List String) (n : Node S Info)
      → ((release_all n streams).tracked ≡ unsubscribe_all n.tracked streams)
        × ((release_all n streams).hub ≡ n.hub)
  unfolding release_all release unsubscribe_all
  release_all-tracked [] n = (refl, refl)
  release_all-tracked (t ∷ ts) n = release_all-tracked ts (release n t)

  -- The parts of the node that a departure changes, whether the controller is told at once or later.
  disconnect_parts :
      (now_ms : ℕ) (n : Node S Info)
      → n.session.inactive ≡ false
      → ((disconnect now_ms n).hub
          ≡ remove_session (unsubscribe_session_streams n).hub n.session.handle)
        × ((disconnect now_ms n).tracked ≡ (unsubscribe_session_streams n).tracked)
  unfolding disconnect disconnect_now
  disconnect_parts now_ms n h = ground (arith, h)

  -- On a recorded hub, a client that goes, unless its session is inactive, is gone from the hub,
  -- listens to no stream there, and the streams given back to the broker have each stream as often
  -- as there are channels of the session that have it, when each channel has its streams once.
  pub disconnect_gone :
      (now_ms : ℕ) (n : Node S Info) (stream id : String)
      → IsRecorded n.hub
      → n.session.inactive ≡ false
      → AreSets n.session.subscriptions
      → (listens (disconnect now_ms n).hub stream n.session.handle id ≡ false)
        × (lookup (i.get_id n.session.handle) (disconnect now_ms n).hub.sessions ≡ none)
        × ((given_back : List String) × ((disconnect now_ms n).tracked
              ≡ unsubscribe_all n.tracked given_back)
            × ((t : String) → times t given_back ≡ channels_with t n.session.subscriptions))
  unfolding unsubscribe_session_streams
  disconnect_gone now_ms n stream id v h sets =
      let s = n.session.handle in
      let given_back = all_streams (to_map n.session.subscriptions) in
      let (hub, tracked) = disconnect_parts now_ms n h in
      let (told, same) = release_all-tracked given_back n in
      let (quiet, gone) = remove_session_clean n.hub s s stream id v in
      (
        rw (hub, same) (quiet ∙ ground (arith, ==_refl s)),
        rw (hub, same) (gone ∙ ground (arith, ==_refl (i.get_id s))),
        (given_back, tracked ∙ told, λ t. times-all_streams t n.session.subscriptions sets),
      )
