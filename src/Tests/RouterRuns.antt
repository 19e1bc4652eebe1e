-- ===== src/Tests/RouterRuns.antt =====
-- Two routes for one channel: the second is refused, and the first answers.
use anycable.Prelude.{◌≡◌, refl, false, none, List, [], ◌∷◌, String, string_eq, ◌==◌, if◌then◌else◌}
use anycable.Node.Commands.{Answer}
use anycable.Node.Leak.{consent}
use anycable.Router.{Controller, new_router_controller, subscribe}
use anycable.Router.Routing.{route_all, first_for, answer_of, subscribe-first_for}

abbrev silent : Answer String
silent = record { result = none; failed = false; closed_meanwhile = false }

abbrev mute : Controller String
mute = record {
  subscribe = λ id. silent;
  unsubscribe = λ id. silent;
  perform = λ id payload. silent;
}

abbrev willing : Controller String
willing = record {
  subscribe = λ id. consent;
  unsubscribe = λ id. consent;
  perform = λ id payload. consent;
}

abbrev routes : List (String × Controller String)
routes = ("chat", willing) ∷ ("chat", mute) ∷ []

abbrev name_of : String → String
name_of id = if id == "id" then "chat" else ""

subscribe-first_for_example :
    subscribe name_of (route_all (new_router_controller mute) routes) "id"
    ≡ answer_of (first_for "chat" routes) mute (λ k. k.subscribe "id")
subscribe-first_for_example = subscribe-first_for name_of mute routes "id" refl
