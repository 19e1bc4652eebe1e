-- ===== src/Hub/Gate/Shape.antt =====
-- hub/gate.go: the shape of the nested maps, which `Subscribe` and `Unsubscribe` keep.
use anycable.Prelude.{
  Bool, true, false, some, List, [], ◌∷◌, ◌++◌, String, string_eq, ◌==◌, Eq, ◌≡◌, ◌≢◌, refl, arith,
  Option-cases, Bool-cases, inl, inr, subst, ap, ◌∙◌, ◌⊎◌,
}
use anycable.Prelude.Dict.{
  Dict, lookup, insert, delete, has, is_empty, lookup-insert, lookup-delete, Distinct,
  insert-Distinct, delete-Distinct, insert-ne-nil,
}
use anycable.Common.{StreamMessage}
use anycable.Hub.Gate.Subscriptions.{subscribed}
use anycable.Hub.Gate.{Gate, new_gate, or_empty, subscribe, unsubscribe, broadcast, without}

-- A session that a stream holds has an identifier there, and no identifier twice.
abbrev pub IsProperIds : Dict String Bool → Type 0
IsProperIds ids = (ids ≢ []) × Distinct ids

ne_nil : {A : Type 0} (m : List A) → is_empty m ≡ false → m ≢ []
ne_nil [] h e = cc
ne_nil (x ∷ m) h e = cc

first_id : (ids : Dict String Bool) → ids ≢ [] → (id : String) × (has id ids ≡ true)
unfolding lookup
first_id [] h = absurd (h refl)
first_id ((id, b) ∷ ids) h = (id, ground (arith, string_eq.beq_iff id id))

module _ {S : Type 0} ⦃e : Eq S⦄ where
  -- A stream that the gate holds has a session, and no session twice.
  pub record IsProperSessions (sessions : Dict S (Dict String Bool)) : Type 0 where
    pub some_session : sessions ≢ []
    pub distinct : Distinct sessions
    pub proper : (s : S) (ids : Dict String Bool) → lookup s sessions ≡ some ids → IsProperIds ids

  -- No empty map is left behind, and no key stands twice.
  pub record IsProper (g : Gate S) : Type 0 where
    pub distinct : Distinct g.streams
    pub proper :
        (stream : String) (sessions : Dict S (Dict String Bool))
        → lookup stream g.streams ≡ some sessions
        → IsProperSessions sessions

  pub new_gate-IsProper : IsProper (new_gate {S = S})
  unfolding lookup
  new_gate-IsProper = record { distinct = tt; proper = λ stream sessions h. cc }

  proper_ids :
      (sessions : Dict S (Dict String Bool)) (s t : S) (ids ids' : Dict String Bool)
      → ((s : S) (ids : Dict String Bool) → lookup s sessions ≡ some ids → IsProperIds ids)
      → IsProperIds ids
      → lookup t (insert s ids sessions) ≡ some ids'
      → IsProperIds ids'
  proper_ids sessions s t ids ids' v p h = elim (Bool-cases (s == t)) [
    | inl same ↦ subst IsProperIds (ground (arith, lookup-insert s t ids sessions)) p
    | inr other ↦ v t ids' (ground (arith, lookup-insert s t ids sessions))
  ]

  insert-IsProperSessions :
      (sessions : Dict S (Dict String Bool)) (s : S) (ids : Dict String Bool)
      → Distinct sessions
      → ((s : S) (ids : Dict String Bool) → lookup s sessions ≡ some ids → IsProperIds ids)
      → IsProperIds ids
      → IsProperSessions (insert s ids sessions)
  insert-IsProperSessions sessions s ids d v p = record {
    some_session = insert-ne-nil s ids sessions;
    distinct = insert-Distinct s ids sessions d;
    proper = λ t ids' h. proper_ids sessions s t ids ids' v p h;
  }

  insert-IsProper :
      (g : Gate S) (stream : String) (sessions : Dict S (Dict String Bool))
      → IsProper g
      → IsProperSessions sessions
      → IsProper (record g { streams = insert stream sessions g.streams })
  insert-IsProper g stream sessions v p = record {
    distinct = insert-Distinct stream sessions g.streams v.distinct;
    proper = λ other sessions' h. elim (Bool-cases (stream == other)) [
      | inl same ↦
          subst IsProperSessions (ground (arith, lookup-insert stream other sessions g.streams)) p
      | inr apart ↦
          v.proper other sessions' (ground (arith, lookup-insert stream other sessions g.streams))
    ];
  }

  pub or_empty_sessions :
      (g : Gate S) (stream : String)
      → IsProper g
      → Distinct (or_empty (lookup stream g.streams))
        × ((s : S) (ids : Dict String Bool)
            → lookup s (or_empty (lookup stream g.streams)) ≡ some ids
            → IsProperIds ids)
  or_empty_sessions g stream v = elim (Option-cases (lookup stream g.streams)) [
    | inl e ↦ rw e (tt, λ s ids h. unfold lookup in cc)
    | inr (sessions, e) ↦ let p = v.proper stream sessions e in rw e (p.distinct, p.proper)
  ]

  or_empty-Distinct :
      (sessions : Dict S (Dict String Bool)) (s : S)
      → ((s : S) (ids : Dict String Bool) → lookup s sessions ≡ some ids → IsProperIds ids)
      → Distinct (or_empty (lookup s sessions))
  or_empty-Distinct sessions s v = elim (Option-cases (lookup s sessions)) [
    | inl e ↦ rw e tt
    | inr (ids, e) ↦ rw e (v s ids e).1
  ]

  -- `Subscribe` keeps the shape.
  pub subscribe-IsProper :
      (g : Gate S) (s : S) (stream id : String) → IsProper g → IsProper (subscribe g s stream id)
  unfolding subscribe
  subscribe-IsProper g s stream id v =
      let sessions = or_empty (lookup stream g.streams) in
      let ids = or_empty (lookup s sessions) in
      let (d, p) = or_empty_sessions g stream v in
      insert-IsProper g stream (insert s (insert id true ids) sessions) v (
        insert-IsProperSessions sessions s (insert id true ids) d p
          (insert-ne-nil id true ids, insert-Distinct id true ids (or_empty-Distinct sessions s p)))

  delete-IsProper :
      (g : Gate S) (stream : String)
      → IsProper g
      → IsProper (record g { streams = delete stream g.streams })
  delete-IsProper g stream v = record {
    distinct = delete-Distinct stream g.streams v.distinct;
    proper = λ other sessions h.
        v.proper other sessions (ground (arith, lookup-delete stream other g.streams));
  }

  without-IsProper :
      (g : Gate S) (sessions : Dict S (Dict String Bool)) (ids : Dict String Bool) (s : S)
      (stream id : String)
      → IsProper g
      → IsProperSessions sessions
      → Distinct ids
      → IsProper (without g sessions ids s stream id)
  unfolding without
  without-IsProper g sessions ids s stream id v p d =
      let ids' = delete id ids in
      let sessions' = delete s sessions in
      elim (Bool-cases (is_empty ids')) [
        | inl gone ↦ elim (Bool-cases (is_empty sessions')) [
          | inl last ↦ rw (gone, last) (delete-IsProper g stream v)
          | inr left ↦
              rw (gone, left)
                (insert-IsProper g stream sessions' v (record {
                  some_session = ne_nil sessions' left;
                  distinct = delete-Distinct s sessions p.distinct;
                  proper =
                      λ t ids'' h. p.proper t ids'' (ground (arith, lookup-delete s t sessions));
                }))
        ]
        | inr left ↦ rw left (
            insert-IsProper g stream (insert s ids' sessions) v (
              insert-IsProperSessions sessions s ids' p.distinct p.proper
                (ne_nil ids' left, delete-Distinct id ids d)))
      ]

  -- On a gate without empty maps Gate.Unsubscribe leaves none behind.
  pub unsubscribe-IsProper :
      (g : Gate S) (s : S) (stream id : String) → IsProper g → IsProper (unsubscribe g s stream id)
  unfolding unsubscribe
  unsubscribe-IsProper g s stream id v = elim (Option-cases (lookup stream g.streams)) [
    | inl e ↦ rw (e, unsubscribe) v
    | inr (sessions, e) ↦ elim (Option-cases (lookup s sessions)) [
      | inl e' ↦ rw (e, unsubscribe) (rw (e', unsubscribe) v)
      | inr (ids, e') ↦
          let p = v.proper stream sessions e in
          elim (Bool-cases (has id ids)) [
            | inl held ↦
                rw (e, unsubscribe)
                  (rw (e', unsubscribe)
                    (rw held
                      (without-IsProper g sessions ids s stream id v p (p.proper s ids e').1)))
            | inr missing ↦ rw (e, unsubscribe) (rw (e', unsubscribe) (rw missing v))
          ]
    ]
  ]

  first_listener :
      (sessions : Dict S (Dict String Bool))
      → IsProperSessions sessions
      → (s : S) × (id : String) × (has id (or_empty (lookup s sessions)) ≡ true)
  unfolding lookup
  first_listener [] p = absurd (p.some_session refl)
  first_listener ((s, ids) ∷ sessions) p =
      let found : lookup s ((s, ids) ∷ sessions) ≡ some ids = ground (arith, e.beq_iff s s) in
      let (id, held) = first_id ids (p.proper s ids found).0 in
      (s, id, ap (λ m. has id (or_empty m)) found ∙ held)

  -- On a gate without empty maps a message is queued when some session listens to its stream, and
  -- otherwise the gate is left as it is.
  pub broadcast-listeners :
      (g : Gate S) (msg : StreamMessage)
      → IsProper g
      → ((s : S) × (id : String) × (subscribed g msg.stream s id ≡ true)
          × (broadcast g msg ≡ record g { sender = g.sender ++ msg ∷ [] }))
        ⊎ (((s : S) (id : String) → subscribed g msg.stream s id ≡ false) × (broadcast g msg ≡ g))
  unfolding broadcast lookup
  broadcast-listeners g msg v = elim (Option-cases (lookup msg.stream g.streams)) [
    | inl e ↦ inr (λ s id. rw e, rw e)
    | inr (sessions, e) ↦
        let (s, id, held) = first_listener sessions (v.proper msg.stream sessions e) in
        inl (s, id, ap (λ m. has id (or_empty (lookup s (or_empty m)))) e ∙ held, rw e)
  ]
