-- ===== src/Tests/Client.antt =====
-- Requests to Metering at a sample server.
use dappnode_nexus_gateway.Common.{
  ◌∷◌, List, ℕ, zero, suc, true, ◌≤◌, ◌≡◌, refl, String, [], length, none, some, ◌⊎◌, inr, ◌↔◌,
  arith,
}
use dappnode_nexus_gateway.Common.Int.{pos}
use dappnode_nexus_gateway.Domain.Error.{Error, gateway, ok, err}
use dappnode_nexus_gateway.Metering.Client.{
  ErrorResponse, Exchange, unreachable, answered, request_json, request_json_once,
  user_facing_metering_error, before_query, wanted_error, has_prefix,
}
use dappnode_nexus_gateway.Metering.Client.Payload.{ReserveResponse, Payload}
use dappnode_nexus_gateway.Metering.Client.Reservations.{Lease}
use dappnode_nexus_gateway.Metering.Client.{metering_response_error}
use dappnode_nexus_gateway.Metering.Keeper.{Round, IsKept, keep, keep-IsKept}
use dappnode_nexus_gateway.Metering.Client.Laws.{AnsweredBy, request_json_iff}
use dappnode_nexus_gateway.Metering.Client.Errors.{IsShown, request_json_once-IsShown}
use dappnode_nexus_gateway.Metering.Client.Reservations.{
  IsReserved, reserve_answer, reserve, reserve-IsReserved,
}
use dappnode_nexus_gateway.Tests.Samples.{model, request, guest}

abbrev no_error : ErrorResponse
no_error = record { type = ""; code = ""; message = "" }

-- Metering does not answer at first, and then it does.
abbrev exchange : ℕ → Exchange String
exchange zero = unreachable none "connection refused"
exchange (suc n) = answered 200 no_error "body"

abbrev text : String → String ⊎ String
text body = inr body

request_json_iff_example :
    (length (request_json exchange (λ n. none) "GET" "/internal/gateway/models" (some text) 2).0
      ≤ 3)
    × (((request_json exchange (λ n. none) "GET" "/internal/gateway/models" (some text) 2).1
          ≡ ok (some "body"))
        ↔ ((n : ℕ) × (n ≤ 2)
            × AnsweredBy
                (λ i. request_json_once "GET" "/internal/gateway/models" (some text) (exchange i))
                (λ n. none)
                0
                (some "body")
                n))
request_json_iff_example =
    request_json_iff exchange (λ n. none) "GET" "/internal/gateway/models" (some text) 2
      (some "body")

abbrev poor : ErrorResponse
poor = record {
  type = "permission_error";
  code = "insufficient_balance";
  message = "Account has no spendable balance";
}

abbrev balance_error : Error
balance_error = gateway (record {
  http_status = 402;
  type = "permission_error";
  code = "insufficient_balance";
  message = "Account has no spendable balance";
  retry_after = "";
  metadata = [];
})

abbrev reservations : String
reservations = "/internal/metering/reservations"

refused :
    request_json_once "POST" reservations (some text) (answered 402 poor "") ≡ err balance_error
unfolding request_json_once user_facing_metering_error before_query wanted_error has_prefix
refused = refl

request_json_once-IsShown_example : IsShown "POST" reservations 402 balance_error
request_json_once-IsShown_example =
    request_json_once-IsShown "POST" reservations (some text) 402 poor "" balance_error
      (omega arith) refused

abbrev held : String → String ⊎ ReserveResponse
held body = inr (record { reservation_id = body; lease_ms = pos 60_000 })

abbrev server : String → String → Payload → ℕ → Exchange String
server method path payload attempt = exchange attempt

reserve-IsReserved_example :
    IsReserved 7 []
      (reserve_answer server
        (λ n. none)
        held
        guest
        "chat_completions"
        (request "small")
        model
        "uuid")
      (reserve server (λ n. none) held [] 7 guest "chat_completions" (request "small") model "uuid")
reserve-IsReserved_example =
    reserve-IsReserved server (λ n. none) held [] 7 guest "chat_completions" (request "small") model
      "uuid"

abbrev short : Lease
short = record { expires = 60_000_000_000; length = pos 60_000_000_000 }

-- A renewal that succeeds, and one that Metering rejects.
abbrev rounds : List Round
rounds =
    record {
      started = 1;
      woken = some 20_000_000_000;
      sent = 20_000_000_000;
      answer = ok (record { reservation_id = "hold"; lease_ms = pos 60_000 });
      live = true;
    }
    ∷ record {
      started = 20_000_000_001;
      woken = some 40_000_000_000;
      sent = 40_000_000_000;
      answer = err (gateway (metering_response_error 409 "reservation_completed"));
      live = true;
    }
    ∷ []

keep-IsKept_example : IsKept "hold" short rounds (keep "hold" short rounds)
keep-IsKept_example = keep-IsKept "hold" short rounds
