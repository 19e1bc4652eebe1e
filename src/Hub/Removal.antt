-- ===== src/Hub/Removal.antt =====
-- hub/hub.go, `RemoveSession` and `UnsubscribeSessionFromChannel`: nothing is left behind.
use anycable.Prelude.{
  Bool, true, false, ◌&&◌, not, none, List, [], ◌∷◌, String, if◌then◌else◌, string_eq, ◌==◌, Eq,
  ◌≡◌, refl, ap, ◌∙◌, sym, arith, subst, length, Bool-cases, inl, inr,
}
use anycable.Prelude.Dict.{lookup, delete, has, lookup-delete}
use anycable.Hub.Gate
use anycable.Hub.Gate.{HubSession}
use anycable.Hub.{
  Hub, with_gate, unsubscribe_all, remove_session, unsubscribe_session_from_all_channels,
  unsubscribe_session, unsubscribe_each, unsubscribe_session_from_channel, streams_to_remove,
}
use anycable.Hub.Listening.{
  listens_by_gates, HasGates, listens, same, holds, unsubscribe_all-HasGates, unsubscribe_all-After,
  unsubscribe_each-After,
}
use anycable.Hub.Registry.{
  IsRecorded, listed, holds-streams_to_remove, unsubscribe_session-IsRecorded,
}

decide_covered :
    (same held on : Bool) → (on ≡ true → held ≡ true) → not (same && held) && on ≡ not same && on
decide_covered same held on c = ground (arith, c)

module _ {S : Type 0} ⦃e : Eq S⦄ ⦃i : HubSession S⦄ where
  unsubscribe_all-sessions :
      (h : Hub S) (s : S) (ps : List (String × String))
      → (unsubscribe_all h s ps).sessions ≡ h.sessions
  unfolding unsubscribe_all
  unsubscribe_all-sessions h s [] = refl
  unsubscribe_all-sessions h s ((stream, id) ∷ ps) =
      unsubscribe_all-sessions (with_gate h stream (λ g. Gate.unsubscribe g s stream id)) s ps

  cleared-unsubscribe_all :
      (h : Hub S) (s : S)
      → unsubscribe_session_from_all_channels h s ≡ unsubscribe_all h s (listed h s)
  unfolding unsubscribe_session_from_all_channels unsubscribe_all
  cleared-unsubscribe_all h s = ground arith

  -- Removing a registered session leaves the hub with its gates as the loop leaves them.
  remove_session_parts :
      (h : Hub S) (s : S)
      → has (i.get_id s) h.sessions ≡ true
      → ((remove_session h s).gates ≡ (unsubscribe_all h s (listed h s)).gates)
        × ((remove_session h s).gates_num ≡ (unsubscribe_all h s (listed h s)).gates_num)
        × ((remove_session h s).sessions ≡ delete (i.get_id s) h.sessions)
  unfolding remove_session
  remove_session_parts h s reg =
      let c = cleared-unsubscribe_all h s in
      let d = unsubscribe_all-sessions h s (listed h s) in ground (arith, reg, c, d)

  remove_session_unregistered :
      (h : Hub S) (s : S) → has (i.get_id s) h.sessions ≡ false → remove_session h s ≡ h
  unfolding remove_session
  remove_session_unregistered h s no_entry = rw no_entry

  covered_or_not :
      (h : Hub S) (s t : S) (stream id : String)
      → IsRecorded h
      → not (s == t && holds stream id (listed h s)) && listens h stream t id
        ≡ not (s == t) && listens h stream t id
  covered_or_not h s t stream id v = elim (Bool-cases (s == t)) [
    | inl hit ↦
        let eq = (e.beq_iff s t).0 hit in
        let c : listens h stream t id ≡ true → holds stream id (listed h s) ≡ true = λ l.
          subst (λ x. holds stream id (listed h x) ≡ true) (sym eq) (v.covered t stream id l) in
        decide_covered (s == t) (holds stream id (listed h s)) (listens h stream t id) c
    | inr miss ↦ rw miss
  ]

  listens-remove_session :
      (h : Hub S) (s t : S) (stream id : String)
      → IsRecorded h
      → listens (remove_session h s) stream t id ≡ not (s == t) && listens h stream t id
  unfolding holds
  listens-remove_session h s t stream id v = elim (Bool-cases (has (i.get_id s) h.sessions)) [
    | inl reg ↦
        let (gates, num, rest) = remove_session_parts h s reg in
        listens_by_gates (remove_session h s) (unsubscribe_all h s (listed h s)) t stream id gates
          num
        ∙ (unsubscribe_all-After h s (listed h s) v.gates t stream id
            ∙ covered_or_not h s t stream id v)
    | inr unreg ↦
        ap (λ g. listens g stream t id) (remove_session_unregistered h s unreg)
        ∙ ground (arith, unreg, v.covered t stream id, e.beq_iff s t)
  ]

  sessions-remove_session :
      (h : Hub S) (s t : S)
      → lookup (i.get_id t) (remove_session h s).sessions
        ≡ (if i.get_id s == i.get_id t then none else lookup (i.get_id t) h.sessions)
  sessions-remove_session h s t = elim (Bool-cases (has (i.get_id s) h.sessions)) [
    | inl reg ↦
        ap (lookup (i.get_id t)) (remove_session_parts h s reg).2
        ∙ lookup-delete (i.get_id s) (i.get_id t) h.sessions
    | inr unreg ↦
        ap (λ g. lookup (i.get_id t) g.sessions) (remove_session_unregistered h s unreg)
        ∙ ground (arith, unreg, string_eq.beq_iff (i.get_id s) (i.get_id t))
  ]

  -- On a recorded hub, removing a session drops its subscriptions on every gate and its entry, and
  -- leaves those of every other session.
  pub remove_session_clean :
      (h : Hub S) (s t : S) (stream id : String)
      → IsRecorded h
      → (listens (remove_session h s) stream t id ≡ not (s == t) && listens h stream t id)
        × (lookup (i.get_id t) (remove_session h s).sessions
            ≡ (if i.get_id s == i.get_id t then none else lookup (i.get_id t) h.sessions))
  remove_session_clean h s t stream id v =
      (listens-remove_session h s t stream id v, sessions-remove_session h s t)

  removal-HasGates : (h : Hub S) (s : S) → IsRecorded h → HasGates (remove_session h s)
  removal-HasGates h s v = elim (Bool-cases (has (i.get_id s) h.sessions)) [
    | inl reg ↦
        let (gates, num, rest) = remove_session_parts h s reg in
        let g = unsubscribe_all-HasGates h s (listed h s) v.gates in
        record {
          some_gate = omega (arith, g.some_gate);
          count = ap length gates ∙ (g.count ∙ sym num);
        }
    | inr unreg ↦ subst HasGates (sym (remove_session_unregistered h s unreg)) v.gates
  ]

  module _ (unique : (a b : S) → i.get_id a ≡ i.get_id b → a ≡ b) where
    pub remove_session-IsRecorded :
        (h : Hub S) (s : S) → IsRecorded h → IsRecorded (remove_session h s)
    remove_session-IsRecorded h s v = record {
      gates = removal-HasGates h s v;
      covered = λ t stream id l. ground (
        arith,
        l,
        listens-remove_session h s t stream id v,
        sessions-remove_session h s t,
        v.covered t stream id,
        unique s t,
        e.beq_iff s t,
        string_eq.beq_iff (i.get_id s) (i.get_id t),
      );
    }

  channel_covered :
      (h : Hub S) (s t : S) (target stream id : String)
      → IsRecorded h
      → not (s == t && (target == id && holds stream id (listed h s))) && listens h stream t id
        ≡ not (s == t && target == id) && listens h stream t id
  channel_covered h s t target stream id v = elim (Bool-cases (target == id)) [
    | inl hit ↦ rw hit (covered_or_not h s t stream id v ∙ ground arith)
    | inr miss ↦ rw miss
  ]

  each-IsRecorded :
      (unique : (a b : S) → i.get_id a ≡ i.get_id b → a ≡ b) (h : Hub S) (s : S)
      (ps : List (String × String))
      → IsRecorded h
      → IsRecorded (unsubscribe_each h s ps)
  unfolding unsubscribe_each
  each-IsRecorded unique h s [] v = v
  each-IsRecorded unique h s ((stream, id) ∷ ps) v =
      each-IsRecorded unique (unsubscribe_session h s stream id) s ps
        (unsubscribe_session-IsRecorded unique h s stream id v)

  channel-unsubscribe_each :
      (h : Hub S) (s : S) (target : String)
      → unsubscribe_session_from_channel h s target
        ≡ unsubscribe_each h s (streams_to_remove target (listed h s))
  unfolding unsubscribe_session_from_channel unsubscribe_each streams_to_remove
  channel-unsubscribe_each h s target = ground arith

  pub unsubscribe_session_from_channel-IsRecorded :
      (unique : (a b : S) → i.get_id a ≡ i.get_id b → a ≡ b) (h : Hub S) (s : S) (target : String)
      → IsRecorded h
      → IsRecorded (unsubscribe_session_from_channel h s target)
  unsubscribe_session_from_channel-IsRecorded unique h s target v =
      subst IsRecorded (sym (channel-unsubscribe_each h s target))
        (each-IsRecorded unique h s (streams_to_remove target (listed h s)) v)

  -- On a recorded hub, unsubscribing a session from a channel drops its subscriptions under that
  -- identifier on every stream, and no other subscription of anyone.
  pub unsubscribe_session_from_channel_clean :
      (h : Hub S) (s t : S) (target stream id : String)
      → IsRecorded h
      → listens (unsubscribe_session_from_channel h s target) stream t id
        ≡ not (s == t && target == id) && listens h stream t id
  unsubscribe_session_from_channel_clean h s t target stream id v =
      let ps = streams_to_remove target (listed h s) in
      ap (λ g. listens g stream t id) (channel-unsubscribe_each h s target)
      ∙ (unsubscribe_each-After h s ps v.gates t stream id
          ∙ (ap (λ b. not (s == t && b) && listens h stream t id)
                (holds-streams_to_remove target stream id (listed h s))
              ∙ channel_covered h s t target stream id v))
