-- ===== src/Execution/BusService/Tests.antt =====
-- A decision that came without its intent, and one with it.
use kometa.Prelude.{◌≡◌, none, refl, List, [], ◌∷◌}
use kometa.Core.Models.{h1}
use kometa.Core.Events.{order_intent_created, risk_decided, heartbeat}
use kometa.Risk.Gate.Tests.{intent}
use kometa.Execution.BusService.{BusService, heartbeats, intents, decisions, handle, handle_all}
use kometa.Execution.BusService.Outbox.{IsPublished, IsFlushed, handle_all-IsPublished}
use kometa.Execution.BusService.Covered.{handle_all-Step}
use kometa.Execution.BusService.Came.{Inbound, IsPermitted}
use kometa.Execution.Calls.Tests.{env, world, decision, state_Keyed}
use kometa.Execution.Steps.{Step}
use kometa.Execution.Watchdog.{new_watchdog}

abbrev service : BusService
service = record { watchdog = new_watchdog 0; intents = []; flushed = 0; published = [] }

abbrev messages : List Inbound
messages =
    (heartbeats, heartbeat 3 "risk-gate")
    ∷ (decisions, risk_decided 4 decision)
    ∷ (intents, order_intent_created 5 intent h1)
    ∷ (decisions, risk_decided 6 decision)
    ∷ []

handle_all-Step_example :
    Step (IsPermitted env messages) world (handle_all env (λ s. s) messages (service, world)).1
handle_all-Step_example = handle_all-Step env (λ s. s) messages (service, world) refl state_Keyed

handle_all-IsPublished_example :
    let y = handle_all env (λ s. s) messages (service, world) in
    let next = handle env (λ s. s) heartbeats (heartbeat 9 "risk-gate") y in
    IsPublished (service, world) y × (next.0 ≡ none → IsFlushed next.1)
handle_all-IsPublished_example =
    handle_all-IsPublished env (λ s. s) messages (service, world) refl state_Keyed refl heartbeats
      (heartbeat 9 "risk-gate")
