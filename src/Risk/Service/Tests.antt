-- ===== src/Risk/Service/Tests.antt =====
-- An intent before the first account update.
use kometa.Prelude.{refl, ok, String, none, [], true}
use kometa.Prelude.Dict.{Dict}
use kometa.Core.Time.{days}
use kometa.Core.Models.{h1}
use kometa.Core.Events.{order_intent_created}
use kometa.Risk.Gate.{Token}
use kometa.Risk.Gate.Tests.{gate, env, intent}
use kometa.Risk.Service.{Service, ServiceEnv, on_intent}
use kometa.Risk.Service.Answers.{IsRefusal, on_intent_fails_closed}

abbrev service : Service
service = record {
  gate = gate;
  instruments = [];
  max_account_age = 10000000;
  account = none;
  stages = [];
  published = [];
}

abbrev token_of : Dict String String → String → Token
token_of token signature = record { action = none; expires_at = ok 0; nonce = none; genuine = true }

abbrev service_env : ServiceEnv
service_env = record { gate_env = env; token_of = token_of }

on_intent_fails_closed_example :
    IsRefusal intent (days 20000) service (
      on_intent service_env (order_intent_created (days 20000) intent h1) none (days 20000) service)
on_intent_fails_closed_example =
    on_intent_fails_closed service_env (days 20000) intent h1 none (days 20000) service refl
