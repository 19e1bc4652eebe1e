-- ===== src/Hub/Reach.antt =====
-- hub/hub.go: every sequence of the hub's methods, from a hub with no session.
use anycable.Prelude.{
  ℕ, ◌<◌, false, none, String, string_eq, Eq, ◌≡◌, refl, replicate, length-replicate, get_or, zero,
  suc,
}
use anycable.Prelude.Dict.{lookup}
use anycable.Hub.Gate.{HubSession, new_gate}
use anycable.Hub.Gate.Subscriptions.{subscribed}
use anycable.Hub.Index.{index}
use anycable.Hub.{
  Hub, new_hub, add_session, remove_session, subscribe_session, unsubscribe_session,
  unsubscribe_session_from_channel,
}
use anycable.Hub.Listening.{listens}
use anycable.Hub.Registry.{
  IsRecorded, add_session-IsRecorded, subscribe_session-IsRecorded, unsubscribe_session-IsRecorded,
}
use anycable.Hub.Removal.{remove_session-IsRecorded, unsubscribe_session_from_channel-IsRecorded}

module _ {S : Type 0} ⦃e : Eq S⦄ ⦃i : HubSession S⦄ where
  -- One method call. A session is registered once: its id is new.
  pub data Step (h : Hub S) : Hub S → Type 0 where
    adds : (s : S) → lookup (i.get_id s) h.sessions ≡ none → Step h (add_session h s)
    removes : (s : S) → Step h (remove_session h s)
    subscribes : (s : S) (stream id : String) → Step h (subscribe_session h s stream id)
    unsubscribes : (s : S) (stream id : String) → Step h (unsubscribe_session h s stream id)
    leaves : (s : S) (id : String) → Step h (unsubscribe_session_from_channel h s id)

  pub data Reach (h : Hub S) : Hub S → Type 0 where
    here : Reach h h
    next : {k l : Hub S} → Reach h k → Step k l → Reach h l

  get_or-replicate :
      (n k : ℕ) (stream : String) (s : S) (id : String)
      → subscribed (get_or (replicate n new_gate) k new_gate) stream s id ≡ false
  unfolding lookup
  get_or-replicate zero k stream s id = refl
  get_or-replicate (suc n) zero stream s id = refl
  get_or-replicate (suc n) (suc k) stream s id = get_or-replicate n k stream s id

  pub listens-new_hub :
      (pool_size : ℕ) (s : S) (stream id : String)
      → listens (new_hub {S = S} pool_size) stream s id ≡ false
  unfolding new_hub
  listens-new_hub n s stream id = get_or-replicate n (index stream n) stream s id

  pub new_hub-IsRecorded : (pool_size : ℕ) → 0 < pool_size → IsRecorded (new_hub {S = S} pool_size)
  unfolding new_hub
  new_hub-IsRecorded n h = record {
    gates = record { some_gate = h; count = length-replicate n new_gate };
    covered =
        λ s stream id l. let quiet = get_or-replicate n (index stream n) stream s id in cc quiet;
  }

  module _ (unique : (a b : S) → i.get_id a ≡ i.get_id b → a ≡ b) where
    Step-IsRecorded : {h k : Hub S} → Step h k → IsRecorded h → IsRecorded k
    Step-IsRecorded {h} (adds s new) v = add_session-IsRecorded unique h s new v
    Step-IsRecorded {h} (removes s) v = remove_session-IsRecorded unique h s v
    Step-IsRecorded {h} (subscribes s stream id) v =
        subscribe_session-IsRecorded unique h s stream id v
    Step-IsRecorded {h} (unsubscribes s stream id) v =
        unsubscribe_session-IsRecorded unique h s stream id v
    Step-IsRecorded {h} (leaves s id) v =
        unsubscribe_session_from_channel-IsRecorded unique h s id v

    -- Whatever methods have been called on a new hub with at least one gate, where sessions have
    -- ids of their own and are registered once, each subscription that a gate holds is on record
    -- for its session.
    pub Reach-IsRecorded :
        (pool_size : ℕ) {h : Hub S}
        → 0 < pool_size
        → Reach (new_hub {S = S} pool_size) h
        → IsRecorded h
    Reach-IsRecorded n p here = new_hub-IsRecorded n p
    Reach-IsRecorded n p (next r st) = Step-IsRecorded st (Reach-IsRecorded n p r)
