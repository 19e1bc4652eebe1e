-- ===== src/Router/Routing.antt =====
-- Which controller answers a command (router/router.go), after any calls of `Route`.
use anycable.Prelude.{
  ◌≡◌, refl, ap, ◌∙◌, false, Option, none, some, List, [], ◌∷◌, String, string_eq, ◌==◌,
  if◌then◌else◌, arith,
}
use anycable.Prelude.Dict.{lookup, lookup-insert}
use anycable.Node.Commands.{Answer}
use anycable.Router.{
  Controller, RouterController, new_router_controller, route, answers, dispatch, subscribe,
}

module _ {Info : Type 0} where
  unfoldable pub route_all :
      RouterController Info → List (String × Controller Info) → RouterController Info
  route_all c [] = c
  route_all c ((channel, handler) ∷ calls) = route_all (route c channel handler).0 calls

  -- The handler of the first call that names the channel.
  unfoldable pub first_for : String → List (String × Controller Info) → Option (Controller Info)
  first_for name [] = none
  first_for name ((channel, handler) ∷ calls) =
      if channel == name then some handler else first_for name calls

  abbrev pub or_else :
      Option (Controller Info) → Option (Controller Info) → Option (Controller Info)
  or_else (some a) b = some a
  or_else none b = b

  lookup-route_all :
      (name : String) (calls : List (String × Controller Info)) (c : RouterController Info)
      → (lookup name (route_all c calls).routes
          ≡ or_else (lookup name c.routes) (first_for name calls))
        × ((route_all c calls).controller ≡ c.controller)
  unfolding route_all route first_for
  lookup-route_all name [] c = (ground arith, refl)
  lookup-route_all name ((channel, handler) ∷ calls) c =
      let (a, b) = lookup-route_all name calls (route c channel handler).0 in
      (
        a
            ∙ ground (
              arith,
              lookup-insert channel name handler c.routes,
              string_eq.beq_iff channel name,
            ),
        b ∙ ground arith,
      )

  -- The answer by what the routes hold for the name.
  abbrev pub answer_of :
      Option (Controller Info) → Controller Info → (Controller Info → Answer Info) → Answer Info
  answer_of none c call = call c
  answer_of (some handler) c call = if answers (call handler) then call handler else call c

  dispatch_known :
      (r : RouterController Info) (name : String) (call : Controller Info → Answer Info)
      (o : Option (Controller Info)) (c : Controller Info)
      → (name == "") ≡ false
      → lookup name r.routes ≡ o
      → r.controller ≡ c
      → dispatch r name call ≡ answer_of o c call
  unfolding dispatch
  dispatch_known r name call none c h l e = rw (h, dispatch) rw l (ap call e)
  dispatch_known r name call (some handler) c h l e =
      rw (h, dispatch) rw l (ap (λ x. if answers (call handler) then call handler else call x) e)

  -- However routes are added, a subscription to a channel that has a name goes to the handler of
  -- the first call of Route for the name, and to the default controller when there is none or it
  -- has neither a result nor an error.
  pub subscribe-first_for :
      (extract_channel : String → String) (c : Controller Info)
      (calls : List (String × Controller Info)) (channel : String)
      → (extract_channel channel == "") ≡ false
      → subscribe extract_channel (route_all (new_router_controller c) calls) channel
        ≡ answer_of (first_for (extract_channel channel) calls) c (λ k. k.subscribe channel)
  unfolding subscribe lookup
  subscribe-first_for extract_channel c calls channel h =
      let (a, b) = lookup-route_all (extract_channel channel) calls (new_router_controller c) in
      dispatch_known (route_all (new_router_controller c) calls) (extract_channel channel)
        (λ k. k.subscribe channel) (first_for (extract_channel channel) calls) c h a b
