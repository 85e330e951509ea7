-- ===== src/Tests/Mapper.antt =====
-- A chat request with a question, an answer of a tool and a tool.
use dappnode_nexus_gateway.Common.{
  Any, ◌≡◌, refl, String, List, true, [], ◌∷◌, none, some, inr, All, string_eq,
}
use dappnode_nexus_gateway.Common.Int.{pos}
use dappnode_nexus_gateway.Domain.Error.{ok}
use dappnode_nexus_gateway.Domain.Generation.{GenerateRequest}
use dappnode_nexus_gateway.Mapper.{
  ChatRequest, Decoding, summary, unsupported, decoded_text, text_content, read_plain, read_message,
  read_messages, read_tools, check_tool_choice, read_request, check_request,
  chat_completion_request_to_domain,
}
use dappnode_nexus_gateway.Mapper.Accepted.{
  IsAccepted, chat_completion_request_to_domain-IsAccepted,
}

abbrev request : ChatRequest
request = record {
  model = "small";
  messages =
      record { role = "user"; content = some "hello"; tool_calls = none; tool_call_id = none }
      ∷ record { role = "tool"; content = some "42"; tool_calls = none; tool_call_id = some "c-1" }
      ∷ [];
  stream = some true;
  max_tokens = none;
  max_completion_tokens = some (pos 100);
  service_tier = none;
  n = some (pos 1);
  tools = record { type = "function"; function_name = "add" } ∷ [];
  tool_choice = some "auto";
  parallel_tool_calls = none;
  response_format = some "json_object";
}

abbrev decoding : Decoding
decoding = record {
  fields = λ raw. some ("model" ∷ "messages" ∷ []);
  request = λ raw. inr request;
  text = λ raw. some raw;
  parts = λ raw. none;
  named = λ raw. none;
  itoa = λ n. "0";
}

abbrev gen : GenerateRequest
gen =
    summary decoding request
      (record { role = some "user"; content = some "hello" }
        ∷ record { role = some "tool"; content = some "42" }
        ∷ [])
      (record { name = "add" } ∷ [])

accepted : chat_completion_request_to_domain decoding "{}" ≡ ok gen
unfolding chat_completion_request_to_domain unsupported check_request read_request read_messages
    read_message read_plain text_content decoded_text read_tools check_tool_choice
accepted = refl

chat_completion_request_to_domain-IsAccepted_example :
    (present : List String) × ((decoding.fields "{}" ≡ some present)
      × (All
            (λ (key : String). ¬ Any (λ j. j ≡ key) present)
            ("best_of" ∷ "function_call" ∷ "functions" ∷ [])
          × ((req : ChatRequest) × ((decoding.request "{}" ≡ inr req)
                × IsAccepted decoding req gen))))
chat_completion_request_to_domain-IsAccepted_example =
    chat_completion_request_to_domain-IsAccepted decoding "{}" gen accepted
