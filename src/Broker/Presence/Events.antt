-- ===== src/Broker/Presence/Events.antt =====
-- The event of `PresenceRemove` (broker/memory.go): who is still there when it is sent.
use anycable.Prelude.{
  ◌≡◌, refl, ◌⊎◌, subst, sym, ◌∙◌, true, false, Option, none, some, String, string_eq,
  if◌then◌else◌, arith, inl, inr, Bool-cases, Option-cases,
}
use anycable.Prelude.Dict.{Dict, lookup}
use anycable.Broker.Outcome.{Outcome, ok}
use anycable.Broker.Presence.{
  PresenceState, PresenceEntry, PresenceEvent, presence_remove, remove_record, remove, forget,
  leave_event,
}
use anycable.Broker.Presence.Entries.{IsEntry, someone, remove-IsEntry}
use anycable.Broker.Presence.Presents.{
  registered, entry, present, WhenEntry, IsConsistent, entry_known, registered_known, entry-take,
}
use anycable.Broker.Presence.Leaves.{
  Removal, no_stream, no_session, no_info, goes, removal, has_entry, registered_unknown,
  absent_stream,
}

module _ {Info : Type 0} where
  abbrev Tells :
      PresenceState Info × Outcome (Option (PresenceEvent Info)) → String → String → Type 0
  Tells (st, answer) stream pid =
      ((answer ≡ ok (some (record { event_type = "leave"; id = pid; info = none })))
        × ((u : String) → present st stream pid u ≡ false))
      ⊎ ((answer ≡ ok none) × ((u : String) × (present st stream pid u ≡ true)))

  module _ (st : PresenceState Info) (records : Dict String (PresenceEntry Info))
      (stream sid pid : String) (found : PresenceEntry Info)
      (h : lookup stream st.streams ≡ some records) (e : lookup pid records ≡ some found)
      (k : IsEntry found) where
    answer : (remove_record st records stream sid pid).1 ≡ ok (leave_event (remove found sid).1 pid)
    unfolding remove_record
    answer = rw (e, remove_record) refl

    entry-left :
        entry (remove_record st records stream sid pid).0.streams stream pid
        ≡ (if (remove found sid).1 then none else some (remove found sid).0)
    unfolding remove_record
    entry-left =
        rw (e, remove_record) ground
          (
            arith,
            entry-take st.streams records (remove found sid).0 (remove found sid).1 stream pid
                stream pid h,
            string_eq.beq_iff stream stream,
            string_eq.beq_iff pid pid,
          )

    -- The record is there, since the session is in it.
    remove_record-Tells : Tells (remove_record st records stream sid pid) stream pid
    unfolding present
    remove_record-Tells = elim (Bool-cases (remove found sid).1) [
      | inl gone ↦ inl (ground (arith, answer), λ u. ground (arith, entry-left))
      | inr left ↦
          let r = remove-IsEntry sid found k in
          let (u, m) = someone (remove found sid).0.sessions (r.1 ∙ left) in
          inr (ground (arith, answer), (u, ground (arith, entry-left)))
    ]

module _ {Info : Type 0} (st : PresenceState Info) (stream sid pid : String) where
  Removal-Tells :
      {r : PresenceState Info × Outcome (Option (PresenceEvent Info))}
      → IsConsistent st
      → registered st.sessions sid stream ≡ some pid
      → Removal st stream sid r
      → Tells r stream pid
  unfolding present
  Removal-Tells c h (no_stream e) =
      let p = c.agrees stream pid sid in
      ground (arith, absent_stream st stream sid c stream pid sid e, string_eq.beq_iff pid pid, p)
  Removal-Tells c h (no_session records e f) =
      ground (arith, registered_unknown st.sessions sid stream f)
  Removal-Tells c h (no_info ses f g) =
      ground (arith, registered_known st.sessions ses sid stream f)
  Removal-Tells c h (goes records ses q e f g) =
      let same : some q ≡ some pid =
        sym g ∙ sym (registered_known st.sessions ses sid stream f) ∙ h in
      let there = c.agrees stream pid sid in
      let q_pid : q ≡ pid = cc same in
      rw q_pid elim (Option-cases (lookup pid records)) [
        | inl n ↦ ground (
          arith,
          there,
          h,
          entry_known st.streams records stream pid e,
          n,
          string_eq.beq_iff pid pid,
        )
        | inr (found, b) ↦
            remove_record-Tells (record st { sessions = forget st.sessions sid ses stream }) records
              stream sid pid found e b (subst WhenEntry b (has_entry st stream sid c records pid e))
      ]

  -- On a consistent state, when a registered session leaves, PresenceRemove answers with a leave
  -- event if nobody has the id in the stream any more, and with nothing if somebody still has.
  pub presence_remove-event :
      IsConsistent st
      → registered st.sessions sid stream ≡ some pid
      → (((presence_remove st stream sid).1
            ≡ ok (some (record { event_type = "leave"; id = pid; info = none })))
          × ((u : String) → present (presence_remove st stream sid).0 stream pid u ≡ false))
        ⊎ (((presence_remove st stream sid).1 ≡ ok none)
            × ((u : String) × (present (presence_remove st stream sid).0 stream pid u ≡ true)))
  presence_remove-event c h = Removal-Tells c h (removal st stream sid)
