-- ===== src/Hub/Listening.antt =====
-- hub/hub.go: subscriptions through the shards, as one relation, and what each method does to it.
use anycable.Prelude.{
  ◌<◌, Bool, false, ◌&&◌, ◌||◌, not, List, [], ◌∷◌, String, if◌then◌else◌, string_eq, ◌==◌, Eq, ◌≡◌,
  ap, ◌∙◌, sym, arith, length, get_or, set, length-set, subst, get_or-set_self, get_or-set_ne,
  nat_beq, nat_beq_iff, Bool-cases, inl, inr,
}
use anycable.Hub.Gate
use anycable.Hub.Gate.{Gate, HubSession, new_gate}
use anycable.Hub.Gate.Subscriptions.{subscribed, subscribed-subscribe, subscribed-unsubscribe}
use anycable.Hub.Index.{index, index-lt}
use anycable.Hub.{Hub, gate_of, with_gate, unsubscribe_all, unsubscribe_session, unsubscribe_each}

module _ {S : Type 0} ⦃e : Eq S⦄ where
  -- As many gates as `gates_num` says, and at least one.
  pub record HasGates (h : Hub S) : Type 0 where
    pub some_gate : 0 < h.gates_num
    pub count : length h.gates ≡ h.gates_num

  -- The session listens to the stream under the identifier.
  abbrev pub listens : Hub S → String → S → String → Bool
  listens h stream s id = subscribed (gate_of h stream) stream s id

  -- The triples at which two calls are about the same subscription.
  abbrev pub same : String → S → String → String → S → String → Bool
  same stream s id stream' t id' = stream == stream' && (s == t && id == id')

  pub with_gate-HasGates :
      (h : Hub S) (stream : String) (f : Gate.Gate S → Gate.Gate S)
      → HasGates h
      → HasGates (with_gate h stream f)
  with_gate-HasGates h stream f v = record {
    some_gate = v.some_gate;
    count = length-set h.gates (index stream h.gates_num) (f (gate_of h stream)) ∙ v.count;
  }

  -- A change of one gate is seen by the streams of that gate only.
  gate_of-with_gate :
      (h : Hub S) (stream stream' : String) (f : Gate.Gate S → Gate.Gate S)
      → HasGates h
      → gate_of (with_gate h stream f) stream' ≡ (
          if nat_beq (index stream h.gates_num) (index stream' h.gates_num)
          then f (gate_of h stream')
          else gate_of h stream')
  gate_of-with_gate h stream stream' f v =
      let i = index stream h.gates_num in
      let j = index stream' h.gates_num in
      let inside : i < length h.gates =
        subst (λ n. i < n) (sym v.count) (index-lt stream h.gates_num v.some_gate) in
      elim (Bool-cases (nat_beq i j)) [
        | inl hit ↦
            let eq : i ≡ j = (nat_beq_iff i j).0 hit in
            rw hit (
              ap (λ k. get_or (set h.gates i (f (get_or h.gates i new_gate))) k new_gate) (sym eq)
              ∙ (get_or-set_self h.gates i (f (get_or h.gates i new_gate)) new_gate inside
                  ∙ ap (λ k. f (get_or h.gates k new_gate)) eq))
        | inr miss ↦
            rw miss
              (get_or-set_ne h.gates i j (f (get_or h.gates i new_gate)) new_gate (ground arith))
      ]

  -- Streams of different gates are different.
  apart :
      (h : Hub S) (stream stream' : String)
      → nat_beq (index stream h.gates_num) (index stream' h.gates_num) ≡ false
      → (stream == stream') ≡ false
  apart h stream stream' miss = elim (Bool-cases (stream == stream')) [
    | inl hit ↦
        let eq = ap (λ x. index x h.gates_num) ((string_eq.beq_iff stream stream').0 hit) in
        absurd (ground (arith, eq))
    | inr other ↦ other
  ]

  pub listens-subscribe :
      (h : Hub S) (s t : S) (stream stream' id id' : String)
      → HasGates h
      → listens (with_gate h stream (λ g. Gate.subscribe g s stream id)) stream' t id'
        ≡ same stream s id stream' t id' || listens h stream' t id'
  listens-subscribe h s t stream stream' id id' v =
      let i = index stream h.gates_num in
      let j = index stream' h.gates_num in
      let f : Gate.Gate S → Gate.Gate S = λ g. Gate.subscribe g s stream id in
      let moved = gate_of-with_gate h stream stream' f v in
      elim (Bool-cases (nat_beq i j)) [
        | inl hit ↦
            let there : gate_of (with_gate h stream f) stream' ≡ f (gate_of h stream') =
              moved ∙ rw hit in
            ap (λ g. subscribed g stream' t id') there
            ∙ subscribed-subscribe (gate_of h stream') s t stream stream' id id'
        | inr miss ↦
            let there : gate_of (with_gate h stream f) stream' ≡ gate_of h stream' =
              moved ∙ rw miss in
            ap (λ g. subscribed g stream' t id') there ∙ rw (apart h stream stream' miss)
      ]

  pub listens-unsubscribe :
      (h : Hub S) (s t : S) (stream stream' id id' : String)
      → HasGates h
      → listens (with_gate h stream (λ g. Gate.unsubscribe g s stream id)) stream' t id'
        ≡ not (same stream s id stream' t id') && listens h stream' t id'
  listens-unsubscribe h s t stream stream' id id' v =
      let i = index stream h.gates_num in
      let j = index stream' h.gates_num in
      let f : Gate.Gate S → Gate.Gate S = λ g. Gate.unsubscribe g s stream id in
      let moved = gate_of-with_gate h stream stream' f v in
      elim (Bool-cases (nat_beq i j)) [
        | inl hit ↦
            let there : gate_of (with_gate h stream f) stream' ≡ f (gate_of h stream') =
              moved ∙ rw hit in
            ap (λ g. subscribed g stream' t id') there
            ∙ subscribed-unsubscribe (gate_of h stream') s t stream stream' id id'
        | inr miss ↦
            let there : gate_of (with_gate h stream f) stream' ≡ gate_of h stream' =
              moved ∙ rw miss in
            ap (λ g. subscribed g stream' t id') there ∙ rw (apart h stream stream' miss)
      ]

-- The pair is among the session's.
unfoldable pub holds : String → String → List (String × String) → Bool
holds stream id [] = false
holds stream id ((s, i) ∷ rest) = s == stream && i == id || holds stream id rest

module _ {S : Type 0} ⦃e : Eq S⦄ ⦃i : HubSession S⦄ where
  -- What both loops over a session's pairs leave: other sessions and other pairs as they were.
  abbrev pub After : Hub S → Hub S → S → List (String × String) → Type 0
  After h h' s ps =
      (t : S) (stream id : String)
      → listens h' stream t id ≡ not (s == t && holds stream id ps) && listens h stream t id

  one_more :
      (s t : S) (stream id stream' id' : String) (ps : List (String × String)) (b : Bool)
      → not (s == t && holds stream' id' ps) && (not (same stream s id stream' t id') && b)
        ≡ not (s == t && holds stream' id' ((stream, id) ∷ ps)) && b
  unfolding holds
  one_more s t stream id stream' id' ps b = ground arith

  pub unsubscribe_all-HasGates :
      (h : Hub S) (s : S) (ps : List (String × String))
      → HasGates h
      → HasGates (unsubscribe_all h s ps)
  unfolding unsubscribe_all
  unsubscribe_all-HasGates h s [] v = v
  unsubscribe_all-HasGates h s ((stream, id) ∷ ps) v =
      let f : Gate.Gate S → Gate.Gate S = λ g. Gate.unsubscribe g s stream id in
      unsubscribe_all-HasGates (with_gate h stream f) s ps (with_gate-HasGates h stream f v)

  pub unsubscribe_all-After :
      (h : Hub S) (s : S) (ps : List (String × String))
      → HasGates h
      → After h (unsubscribe_all h s ps) s ps
  unfolding unsubscribe_all holds
  unsubscribe_all-After h s [] v t stream id = ground arith
  unsubscribe_all-After h s ((stream, id) ∷ ps) v t stream' id' =
      let f : Gate.Gate S → Gate.Gate S = λ g. Gate.unsubscribe g s stream id in
      unsubscribe_all-After (with_gate h stream f) s ps (with_gate-HasGates h stream f v) t stream'
        id'
      ∙ (ap (λ b. not (s == t && holds stream' id' ps) && b)
            (listens-unsubscribe h s t stream stream' id id' v)
          ∙ one_more s t stream id stream' id' ps (listens h stream' t id'))

  pub unsubscribe_session_gates :
      (h : Hub S) (s : S) (stream id : String)
      → (unsubscribe_session h s stream id).gates
        ≡ (with_gate h stream (λ g. Gate.unsubscribe g s stream id)).gates
  unfolding unsubscribe_session
  unsubscribe_session_gates h s stream id = ground arith

  pub unsubscribe_session_count :
      (h : Hub S) (s : S) (stream id : String)
      → (unsubscribe_session h s stream id).gates_num ≡ h.gates_num
  unfolding unsubscribe_session
  unsubscribe_session_count h s stream id = ground arith

  pub listens_by_gates :
      (h h' : Hub S) (t : S) (stream id : String)
      → h.gates ≡ h'.gates
      → h.gates_num ≡ h'.gates_num
      → listens h stream t id ≡ listens h' stream t id
  listens_by_gates h h' t stream id p q =
      λ k. subscribed (get_or (p k) (index stream (q k)) new_gate) stream t id

  pub listens-unsubscribe_session :
      (h : Hub S) (s t : S) (stream stream' id id' : String)
      → HasGates h
      → listens (unsubscribe_session h s stream id) stream' t id'
        ≡ not (same stream s id stream' t id') && listens h stream' t id'
  listens-unsubscribe_session h s t stream stream' id id' v =
      listens_by_gates (unsubscribe_session h s stream id)
        (with_gate h stream (λ g. Gate.unsubscribe g s stream id)) t stream' id'
        (unsubscribe_session_gates h s stream id) (unsubscribe_session_count h s stream id)
      ∙ listens-unsubscribe h s t stream stream' id id' v

  pub unsubscribe_session-HasGates :
      (h : Hub S) (s : S) (stream id : String)
      → HasGates h
      → HasGates (unsubscribe_session h s stream id)
  unsubscribe_session-HasGates h s stream id v = record {
    some_gate = omega (arith, v.some_gate, unsubscribe_session_count h s stream id);
    count =
        ap length (unsubscribe_session_gates h s stream id)
        ∙ ((with_gate-HasGates h stream (λ g. Gate.unsubscribe g s stream id) v).count
            ∙ sym (unsubscribe_session_count h s stream id));
  }

  pub unsubscribe_each-After :
      (h : Hub S) (s : S) (ps : List (String × String))
      → HasGates h
      → After h (unsubscribe_each h s ps) s ps
  unfolding unsubscribe_each holds
  unsubscribe_each-After h s [] v t stream id = ground arith
  unsubscribe_each-After h s ((stream, id) ∷ ps) v t stream' id' =
      unsubscribe_each-After (unsubscribe_session h s stream id) s ps
        (unsubscribe_session-HasGates h s stream id v) t stream' id'
      ∙ (ap (λ b. not (s == t && holds stream' id' ps) && b)
            (listens-unsubscribe_session h s t stream stream' id id' v)
          ∙ one_more s t stream id stream' id' ps (listens h stream' t id'))
