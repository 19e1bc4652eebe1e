-- ===== src/Hub/Registry.antt =====
-- hub/hub.go: the list of a session's streams covers what its gates hold, so that removing a
-- session, or one channel of it, leaves nothing behind.
use anycable.Prelude.{
  true, false, ◌&&◌, ◌||◌, none, some, List, [], ◌∷◌, ◌++◌, String, if◌then◌else◌, string_eq, ◌==◌,
  Eq, ◌≡◌, refl, ap, arith, inl, inr, Option-cases,
}
use anycable.Prelude.Dict.{lookup, lookup-insert}
use anycable.Hub.Gate
use anycable.Hub.Gate.{HubSession}
use anycable.Hub.{
  Hub, add_session, remove_pair, subscribe_session, unsubscribe_session, streams_to_remove,
  remove_stream,
}
use anycable.Hub.Listening.{
  HasGates, listens, holds, with_gate-HasGates, listens-subscribe, listens-unsubscribe_session,
  unsubscribe_session-HasGates,
}

holds-append :
    (stream id : String) (xs ys : List (String × String))
    → holds stream id (xs ++ ys) ≡ holds stream id xs || holds stream id ys
unfolding holds
holds-append stream id [] ys = refl
holds-append stream id ((s, i) ∷ xs) ys = ground (arith, holds-append stream id xs ys)

-- Removing one pair keeps every other.
holds-remove_pair :
    (stream id stream' id' : String) (ps : List (String × String))
    → (stream == stream' && id == id') ≡ false
    → holds stream' id' (remove_pair stream id ps) ≡ holds stream' id' ps
unfolding holds remove_pair
holds-remove_pair stream id stream' id' [] h = refl
holds-remove_pair stream id stream' id' ((s, i) ∷ ps) h = ground (
  arith,
  holds-remove_pair stream id stream' id' ps h,
  string_eq.beq_iff s stream,
  string_eq.beq_iff i id,
  string_eq.beq_iff s stream',
  string_eq.beq_iff i id',
  string_eq.beq_iff stream stream',
  string_eq.beq_iff id id',
)

pub holds-streams_to_remove :
    (target stream id : String) (ps : List (String × String))
    → holds stream id (streams_to_remove target ps) ≡ (target == id && holds stream id ps)
unfolding holds streams_to_remove
holds-streams_to_remove target stream id [] = ground arith
holds-streams_to_remove target stream id ((s, i) ∷ ps) = ground (
  arith,
  holds-streams_to_remove target stream id ps,
  string_eq.beq_iff target i,
  string_eq.beq_iff i id,
  string_eq.beq_iff target id,
)

module _ {S : Type 0} ⦃e : Eq S⦄ ⦃i : HubSession S⦄ where
  -- The streams that the hub has on record for a session.
  abbrev pub listed : Hub S → S → List (String × String)
  listed h s = elim (lookup (i.get_id s) h.sessions) [ none ↦ [] | some info ↦ info.streams ]

  -- What a gate holds for a session is on record for it.
  pub record IsRecorded (h : Hub S) : Type 0 where
    pub gates : HasGates h
    pub covered :
        (s : S) (stream id : String)
        → listens h stream s id ≡ true
        → holds stream id (listed h s) ≡ true

  -- A session that is not registered listens to nothing.
  pub listens_unregistered :
      (h : Hub S) (s : S) (stream id : String)
      → lookup (i.get_id s) h.sessions ≡ none
      → IsRecorded h
      → listens h stream s id ≡ false
  unfolding holds
  listens_unregistered h s stream id new v = ground (arith, v.covered s stream id, new)

  pub listed_same :
      (h : Hub S) (s t : S) → (i.get_id s == i.get_id t) ≡ true → listed h s ≡ listed h t
  listed_same h s t eq =
      ap (λ u. elim (lookup u h.sessions) [ none ↦ [] | some info ↦ info.streams ])
        ((string_eq.beq_iff (i.get_id s) (i.get_id t)).0 eq)

  listed-add_session :
      (h : Hub S) (s t : S)
      → listed (add_session h s) t ≡ (if i.get_id s == i.get_id t then [] else listed h t)
  unfolding add_session
  listed-add_session h s t = ground (
    arith,
    lookup-insert (i.get_id s) (i.get_id t) (record { session = s; streams = [] }) h.sessions,
  )

  listed-subscribe_session :
      (h : Hub S) (s t : S) (stream id : String)
      → listed (subscribe_session h s stream id) t
        ≡ (if i.get_id s == i.get_id t then listed h s ++ (stream, id) ∷ [] else listed h t)
  unfolding subscribe_session
  listed-subscribe_session h s t stream id = elim (Option-cases (lookup (i.get_id s) h.sessions)) [
    | inl eq ↦ ground (
      arith,
      eq,
      lookup-insert (i.get_id s) (i.get_id t) (record { session = s; streams = (stream, id) ∷ [] })
          h.sessions,
    )
    | inr (info, eq) ↦ ground (
      arith,
      eq,
      lookup-insert (i.get_id s) (i.get_id t)
          (record info { streams = info.streams ++ (stream, id) ∷ [] }) h.sessions,
    )
  ]

  listed-unsubscribe_session :
      (h : Hub S) (s t : S) (stream id : String)
      → listed (unsubscribe_session h s stream id) t
        ≡ (if i.get_id s == i.get_id t then remove_pair stream id (listed h s) else listed h t)
  unfolding unsubscribe_session remove_stream remove_pair
  listed-unsubscribe_session h s t stream id =
      elim (Option-cases (lookup (i.get_id s) h.sessions)) [
        | inl eq ↦ ground (arith, eq, listed_same h s t)
        | inr (info, eq) ↦ ground (
          arith,
          eq,
          lookup-insert (i.get_id s) (i.get_id t)
              (record info { streams = remove_pair stream id info.streams }) h.sessions,
        )
      ]

  module _ (unique : (a b : S) → i.get_id a ≡ i.get_id b → a ≡ b) where
    -- A new session has no subscriptions, so registering it loses none.
    pub add_session-IsRecorded :
        (h : Hub S) (s : S)
        → lookup (i.get_id s) h.sessions ≡ none
        → IsRecorded h
        → IsRecorded (add_session h s)
    unfolding add_session holds
    add_session-IsRecorded h s new v = record {
      gates = record { some_gate = v.gates.some_gate; count = v.gates.count };
      covered = λ t stream id l.
          ground (arith, v.covered t stream id l, listed-add_session h s t, listed_same h s t, new);
    }

    pub subscribe_session-IsRecorded :
        (h : Hub S) (s : S) (stream id : String)
        → IsRecorded h
        → IsRecorded (subscribe_session h s stream id)
    unfolding subscribe_session holds
    subscribe_session-IsRecorded h s stream id v = record {
      gates =
          let g = with_gate-HasGates h stream (λ g. Gate.subscribe g s stream id) v.gates in
          record { some_gate = g.some_gate; count = g.count };
      covered = λ t stream' id' l. ground (
        arith,
        l,
        listens-subscribe h s t stream stream' id id' v.gates,
        v.covered t stream' id',
        listed-subscribe_session h s t stream id,
        listed_same h s t,
        holds-append stream' id' (listed h s) ((stream, id) ∷ []),
        e.beq_iff s t,
        string_eq.beq_iff (i.get_id s) (i.get_id t),
      );
    }

    pub unsubscribe_session-IsRecorded :
        (h : Hub S) (s : S) (stream id : String)
        → IsRecorded h
        → IsRecorded (unsubscribe_session h s stream id)
    unsubscribe_session-IsRecorded h s stream id v = record {
      gates = unsubscribe_session-HasGates h s stream id v.gates;
      covered = λ t stream' id' l. ground (
        arith,
        l,
        listens-unsubscribe_session h s t stream stream' id id' v.gates,
        v.covered t stream' id',
        listed-unsubscribe_session h s t stream id,
        listed_same h s t,
        holds-remove_pair stream id stream' id' (listed h s),
        e.beq_iff s t,
        unique s t,
        string_eq.beq_iff (i.get_id s) (i.get_id t),
      );
    }
