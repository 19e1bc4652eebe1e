-- ===== src/Router.antt =====
-- router/router.go: the controller that hands a command to the controller of its channel.
-- `extract_channel` is the channel's name in an identifier, empty when there is none: what the JSON
-- decoder finds. The client's session is left out of a controller's arguments, as the router only
-- passes it on; so are `Authenticate` and `Disconnect`, which go to the default controller.
pub mod Routing
use anycable.Prelude.{
  Bool, true, false, ◌||◌, Option, none, some, List, [], ◌∷◌, String, string_eq, ◌==◌,
  if◌then◌else◌, is_some,
}
use anycable.Prelude.Dict.{Dict, lookup, insert, has, is_empty, keys}
use anycable.Node.Commands.{Answer}

pub record Controller (Info : Type 0) : Type 0 where
  pub subscribe : String → Answer Info
  pub unsubscribe : String → Answer Info
  pub perform : String → String → Answer Info

pub record RouterController (Info : Type 0) : Type 0 where
  pub controller : Controller Info
  pub routes : Dict String (Controller Info)

module _ {Info : Type 0} where
  abbrev pub new_router_controller : Controller Info → RouterController Info
  new_router_controller c = record { controller = c; routes = [] }

  -- The router, and whether the route is new; an error otherwise.
  unfoldable pub route :
      RouterController Info → String → Controller Info → RouterController Info × Bool
  route c channel handler =
      if has channel c.routes
      then (c, false)
      else (record c { routes = insert channel handler c.routes }, true)

  abbrev pub answers : Answer Info → Bool
  answers a = is_some a.result || a.failed

  -- What the three commands share: the handler's answer, or the default controller's.
  unfoldable pub dispatch :
      RouterController Info → String → (Controller Info → Answer Info) → Answer Info
  dispatch c name call = if name == "" then call c.controller else (elim (lookup name c.routes) [
    | none ↦ call c.controller
    | some handler ↦ if answers (call handler) then call handler else call c.controller
  ])

module _ {Info : Type 0} (extract_channel : String → String) where
  unfoldable pub subscribe : RouterController Info → String → Answer Info
  unfolding dispatch
  subscribe c channel = dispatch c (extract_channel channel) (λ h. h.subscribe channel)

  unfoldable pub unsubscribe : RouterController Info → String → Answer Info
  unfolding dispatch
  unsubscribe c channel = dispatch c (extract_channel channel) (λ h. h.unsubscribe channel)

  unfoldable pub perform : RouterController Info → String → String → Answer Info
  unfolding dispatch
  perform c channel payload = dispatch c (extract_channel channel) (λ h. h.perform channel payload)
