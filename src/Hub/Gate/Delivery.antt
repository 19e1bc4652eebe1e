-- ===== src/Hub/Gate/Delivery.antt =====
-- hub/gate.go, `performBroadcast`: who is sent what, and that the buffer of built messages only
-- saves work.
use anycable.Prelude.{
  ℕ, suc, ◌+◌, Bool, ◌&&◌, not, Option, none, some, ◌≢◌, ◌⊎◌, sym, subst, List, [], ◌∷◌, ◌++◌,
  String, if◌then◌else◌, string_eq, ◌==◌, Eq, ◌≡◌, refl, ap, ◌∙◌, arith, Option-cases, Bool-cases,
  inl, inr,
}
use anycable.Prelude.Dict.{Dict, lookup, insert, has, lookup-insert, Distinct}
use anycable.Common.{
  StreamMessage, StreamMessageMetadata, Reply, content, text, decoded, to_reply_for,
}
use anycable.Hub.Gate.{
  Gate, HubSession, SessionStreamRow, or_empty, rows_of, create_stream_sessions_snapshot,
  build_message, exclude_of, deliver, perform_broadcast,
}
use anycable.Hub.Gate.Subscriptions.{subscribed}
use anycable.Hub.Gate.Shape.{IsProper, IsProperIds, or_empty_sessions}

module _ {Json : Type 0} (unmarshal : String → Option Json) (msg : StreamMessage) where
  abbrev IsBuffer : Dict String (Reply Json) → Type 0
  IsBuffer buf =
      (id : String) (m : Reply Json) → lookup id buf ≡ some m → m ≡ build_message unmarshal msg id

  insert-IsBuffer :
      (buf : Dict String (Reply Json)) (id : String)
      → IsBuffer buf
      → IsBuffer (insert id (build_message unmarshal msg id) buf)
  insert-IsBuffer buf id v other m found = ground (
    arith,
    lookup-insert id other (build_message unmarshal msg id) buf,
    v other m,
    string_eq.beq_iff id other,
  )

  built_for : (id : String) → (build_message unmarshal msg id).identifier ≡ id
  unfolding build_message to_reply_for
  built_for id = ground arith

  -- The reply that a session is to get under an identifier: the payload, decoded where it can be, the
  -- type of the broadcast, and the place in the stream's history where there is one.
  pub record IsReplyTo (id : String) (m : Reply Json) : Type 0 where
    pub identifier : m.identifier ≡ id
    pub message :
        ((unmarshal msg.payload ≡ none) × (m.message ≡ text msg.payload))
        ⊎ ((v : Json) × (unmarshal msg.payload ≡ some v) × (m.message ≡ decoded v))
    pub reply_type :
        ((msg.meta ≡ none) × (m.reply_type ≡ ""))
        ⊎ ((meta : StreamMessageMetadata) × (msg.meta ≡ some meta)
            × (m.reply_type ≡ meta.broadcast_type))
    pub offset : m.offset ≡ msg.offset
    pub epoch : m.epoch ≡ msg.epoch
    pub stream :
        ((msg.epoch ≡ "") × (m.stream_id ≡ "")) ⊎ ((msg.epoch ≢ "") × (m.stream_id ≡ msg.stream))

  build_message-IsReplyTo : (id : String) → IsReplyTo id (build_message unmarshal msg id)
  unfolding build_message to_reply_for content
  build_message-IsReplyTo id = record {
    identifier = built_for id;
    message = elim (Option-cases (unmarshal msg.payload)) [
      | inl e ↦ inl (e, ground (arith, e))
      | inr (v, e) ↦ inr (v, e, ground (arith, e))
    ];
    reply_type = elim (Option-cases msg.meta) [
      | inl e ↦ inl (e, ground (arith, e))
      | inr (meta, e) ↦ inr (meta, e, ground (arith, e))
    ];
    offset = ground arith;
    epoch = ground arith;
    stream = elim (Bool-cases (msg.epoch == "")) [
      | inl e ↦ inl (ground (arith, e, string_eq.beq_iff msg.epoch ""), ground (arith, e))
      | inr e ↦
          inr (λ same. ground (arith, e, same, string_eq.beq_iff msg.epoch ""), ground (arith, e))
    ];
  }

module _ {S Json : Type 0} ⦃e : Eq S⦄ ⦃h : HubSession S⦄ (unmarshal : String → Option Json)
    (msg : StreamMessage) where
  -- The session's own socket is the one to leave out.
  pub excluded : S → Bool
  excluded s = not (exclude_of msg == "") && h.get_id s == exclude_of msg

  -- Every row but the excluded ones, with the message built anew for each.
  pub plain : List (SessionStreamRow S) → List (S × Reply Json)
  plain [] = []
  plain (row ∷ rows) =
      let rest = plain rows in
      if excluded row.session
      then rest
      else (row.session, build_message unmarshal msg row.id) ∷ rest

  deliver-plain :
      (buf : Dict String (Reply Json)) (rows : List (SessionStreamRow S))
      → IsBuffer unmarshal msg buf
      → deliver unmarshal msg buf rows ≡ plain rows
  unfolding deliver plain excluded
  deliver-plain buf [] v = refl
  deliver-plain buf (row ∷ rows) v = elim (Bool-cases (excluded row.session)) [
    | inl skip ↦ rw (skip, deliver-plain buf rows v)
    | inr keep ↦
        let next = insert row.id (build_message unmarshal msg row.id) buf in
        elim (Option-cases (lookup row.id buf)) [
          | inl new ↦ ground (
            arith,
            keep,
            new,
            deliver-plain next rows (insert-IsBuffer unmarshal msg buf row.id v),
          )
          | inr (m, old) ↦ ground (arith, keep, old, v row.id m old, deliver-plain buf rows v)
        ]
  ]

  -- How often a session is sent a message under an identifier.
  pub sends : S → String → List (S × Reply Json) → ℕ
  sends s id [] = 0
  sends s id ((t, m) ∷ out) =
      let rest = sends s id out in if t == s && m.identifier == id then suc rest else rest

  rows : S → String → List (SessionStreamRow S) → ℕ
  rows s id [] = 0
  rows s id (row ∷ rs) =
      let rest = rows s id rs in if row.session == s && row.id == id then suc rest else rest

  rows-append :
      (s : S) (id : String) (xs ys : List (SessionStreamRow S))
      → rows s id (xs ++ ys) ≡ rows s id xs + rows s id ys
  unfolding rows
  rows-append s id [] ys = omega arith
  rows-append s id (row ∷ xs) ys = ground (arith, rows-append s id xs ys)

  rows-rows_of :
      (s t : S) (id : String) (ids : Dict String Bool)
      → Distinct ids
      → rows s id (rows_of t ids) ≡ (if t == s && has id ids then 1 else 0)
  unfolding rows rows_of lookup
  rows-rows_of s t id [] d = ground arith
  rows-rows_of s t id ((j, b) ∷ ids) d =
      ground (arith, rows-rows_of s t id ids d.1, string_eq.beq_iff j id, d.0)

  rows-snapshot :
      (s : S) (id : String) (sessions : Dict S (Dict String Bool))
      → Distinct sessions
      → ((t : S) (ids : Dict String Bool) → lookup t sessions ≡ some ids → IsProperIds ids)
      → rows s id (create_stream_sessions_snapshot sessions)
        ≡ (if has id (or_empty (lookup s sessions)) then 1 else 0)
  unfolding rows create_stream_sessions_snapshot lookup
  rows-snapshot s id [] d p = refl
  rows-snapshot s id ((t, ids) ∷ sessions) d p =
      let here : IsProperIds ids = p t ids (ground (arith, e.beq_iff t t)) in
      ground (
        arith,
        rows-append s id (rows_of t ids) (create_stream_sessions_snapshot sessions),
        rows-rows_of s t id ids here.1,
        rows-snapshot s id sessions d.1
            (λ t' ids' found. p t' ids' (ground (arith, d.0, e.beq_iff t t'))),
        e.beq_iff t s,
        d.0,
      )

  sends-plain :
      (s : S) (id : String) (rs : List (SessionStreamRow S))
      → sends s id (plain rs) ≡ (if excluded s then 0 else rows s id rs)
  unfolding sends rows plain
  sends-plain s id [] = elim (Bool-cases (excluded s)) [ inl x ↦ rw x | inr x ↦ rw x ]
  sends-plain s id (row ∷ rs) =
      let ih = sends-plain s id rs in
      elim (Bool-cases (row.session == s)) [
        | inl same ↦
            let t : excluded row.session ≡ excluded s =
              ap excluded ((e.beq_iff row.session s).0 same) in
            elim (Bool-cases (excluded s)) [
              | inl skip ↦ rw (t, skip) (ih ∙ rw skip)
              | inr keep ↦ rw (t, keep, same, built_for unmarshal msg row.id) (rw (ih, keep))
            ]
        | inr other ↦ elim (Bool-cases (excluded row.session)) [
          | inl skip ↦ rw (skip, other) ih
          | inr keep ↦ rw (keep, other) ih
        ]
      ]

  -- The buffer of built messages only saves work: the sends of a broadcast are those of building
  -- each message anew.
  pub perform_broadcast-plain :
      (g : Gate S)
      → perform_broadcast unmarshal g msg
        ≡ plain (create_stream_sessions_snapshot (or_empty (lookup msg.stream g.streams)))
  unfolding perform_broadcast
  perform_broadcast-plain g =
      deliver-plain [] (create_stream_sessions_snapshot (or_empty (lookup msg.stream g.streams)))
        (λ id m found. unfold lookup in cc)

  -- Every send is of such a reply.
  pub AllReplies : List (S × Reply Json) → Type 0
  AllReplies [] = Unit {0}
  AllReplies ((t, m) ∷ out) = IsReplyTo unmarshal msg m.identifier m × AllReplies out

  plain-AllReplies : (rs : List (SessionStreamRow S)) → AllReplies (plain rs)
  unfolding plain AllReplies
  plain-AllReplies [] = tt
  plain-AllReplies (row ∷ rs) =
      let here = build_message-IsReplyTo unmarshal msg row.id in
      let rest = plain-AllReplies rs in
      elim (Bool-cases (excluded row.session)) [
        | inl skip ↦ rw skip rest
        | inr keep ↦ rw keep (
          subst (λ id. IsReplyTo unmarshal msg id (build_message unmarshal msg row.id))
              (sym (built_for unmarshal msg row.id)) here,
          rest,
        )
      ]

  -- On a gate without empty maps and with no key twice, a broadcast sends each session exactly one
  -- reply under each identifier that it subscribed to the stream with, never otherwise, and sends
  -- the excluded socket nothing; and each reply that is sent has the payload, decoded where it can
  -- be, the type of the broadcast, the offset and epoch of the message, and the stream when there
  -- is an epoch.
  pub perform_broadcast_once :
      (g : Gate S) (s : S) (id : String)
      → IsProper g
      → (sends s id (perform_broadcast unmarshal g msg)
          ≡ (if excluded s then 0 else if subscribed g msg.stream s id then 1 else 0))
        × AllReplies (perform_broadcast unmarshal g msg)
  perform_broadcast_once g s id v =
      let (d, p) = or_empty_sessions g msg.stream v in
      let sessions = or_empty (lookup msg.stream g.streams) in
      (
        rw (
          perform_broadcast-plain g,
          sends-plain s id (create_stream_sessions_snapshot sessions),
          rows-snapshot s id sessions d p,
        ),
        rw (perform_broadcast-plain g)
            (plain-AllReplies (create_stream_sessions_snapshot sessions)),
      )
