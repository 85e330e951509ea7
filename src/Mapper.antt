-- ===== src/Mapper.antt =====
-- From a chat request to its summary: apps/gateway/internal/adapters/http/mapper/chat_to_domain.go.
-- encoding/json and the text of a number are arguments; a JSON value that is left as it is (`RawMessage`)
-- is its text, none if it is missing.
pub mod Conditions
pub mod Accepted
use Prim.Native.String.{◌++◌}
use dappnode_nexus_gateway.Common.{
  ℕ, suc, String, Bool, true, false, not, ◌&&◌, ◌||◌, List, [], ◌∷◌, Option, none, some, ◌⊎◌, inl,
  inr, if◌then◌else◌, ◌==◌, ◌!=◌, string_eq, any, is_some,
}
use dappnode_nexus_gateway.Common.Int.{ℤ, pos, int_eq}
use dappnode_nexus_gateway.Domain.Error.{
  Error, GatewayError, gateway, Result, ok, err, err_invalid_field, err_tool_message_invalid,
}
use dappnode_nexus_gateway.Domain.Generation.{InputItem, ToolDefinition, GenerateRequest}

pub record ChatMessage : Type 0 where
  pub role : String
  pub content : Option String
  pub tool_calls : Option String
  pub tool_call_id : Option String

pub record ChatTool : Type 0 where
  pub type : String
  pub function_name : String

pub record ChatRequest : Type 0 where
  pub model : String
  pub messages : List ChatMessage
  pub stream : Option Bool
  pub max_tokens : Option ℤ
  pub max_completion_tokens : Option ℤ
  pub service_tier : Option String
  pub n : Option ℤ
  pub tools : List ChatTool
  pub tool_choice : Option String
  pub parallel_tool_calls : Option Bool
  pub response_format : Option String

-- What a text decodes to: the names of an object's fields, a request or why it is none, a string, the
-- types and texts of an array of parts, and the type and name of a choice of tool.
pub record Decoding : Type 0 where
  pub fields : String → Option (List String)
  pub request : String → String ⊎ ChatRequest
  pub text : String → Option String
  pub parts : String → Option (List (String × String))
  pub named : String → Option (String × String)
  pub itoa : ℕ → String

abbrev pub invalid : String → Error
invalid msg = gateway (err_invalid_field msg)

abbrev pub unsupported_chat_fields : List String
unsupported_chat_fields = "best_of" ∷ "function_call" ∷ "functions" ∷ []

-- The first field of a list that the request has.
unfoldable pub unsupported : List String → List String → Option String
unsupported present [] = none
unsupported present (key ∷ keys) =
    let rest = unsupported present keys in if any (λ j. j == key) present then some key else rest

-- A value that is there and not null.
abbrev pub has_value : Option String → Bool
has_value none = false
has_value (some raw) = raw != "" && raw != "null"

unfoldable pub text_of_parts : List (String × String) → String
text_of_parts [] = ""
text_of_parts ((type, text) ∷ parts) =
    let rest = text_of_parts parts in
    if type == "text" || type == "input_text" || type == "output_text" then text ++ rest else rest

abbrev pub given : Option String → Bool
given none = false
given (some s) = s != ""

module _ (decoding : Decoding) where
  unfoldable pub decoded_text : String → String ⊎ String
  unfolding text_of_parts
  decoded_text raw = elim (decoding.text raw) [
    | some s ↦ inr s
    | none ↦ elim (decoding.parts raw) [
      | none ↦ inl "content must be a string or array of content parts"
      | some parts ↦ inr (text_of_parts parts)
    ]
  ]

  unfoldable pub text_content : Option String → String ⊎ String
  unfolding decoded_text
  text_content none = inl "content is required"
  text_content (some raw) =
      if has_value (some raw) then decoded_text raw else inl "content is required"

  abbrev pub in_message : ℕ → String → String
  in_message i text = "message[" ++ decoding.itoa i ++ "]: " ++ text

  unfoldable pub read_plain : ℕ → ChatMessage → Result InputItem
  unfolding text_content
  read_plain i msg =
      if has_value msg.tool_calls
      then err (invalid (in_message i (msg.role ++ " message must not contain tool_calls")))
      else if msg.role == "tool" && not (given msg.tool_call_id)
      then err
          (gateway (err_tool_message_invalid (in_message i "tool message requires tool_call_id")))
      else if msg.role != "tool" && is_some msg.tool_call_id
      then err (invalid (in_message i (msg.role ++ " message must not contain tool_call_id")))
      else elim (text_content msg.content) [
        | inl e ↦ err (invalid (in_message i e))
        | inr text ↦ ok (record { role = some msg.role; content = some text })
      ]

  unfoldable pub read_assistant : ℕ → ChatMessage → Result InputItem
  unfolding text_content
  read_assistant i msg =
      if is_some msg.tool_call_id
      then err (invalid (in_message i "assistant message must not contain tool_call_id"))
      else ok (record {
        role = some msg.role;
        content = elim (text_content msg.content) [ inl e ↦ none | inr text ↦ some text ];
      })

  unfoldable pub read_message : ℕ → ChatMessage → Result InputItem
  unfolding read_plain read_assistant
  read_message i msg =
      if msg.role == "system" || msg.role == "developer" || msg.role == "user" || msg.role == "tool"
      then read_plain i msg
      else if msg.role == "assistant"
      then read_assistant i msg
      else err (invalid (in_message i ("unsupported role '" ++ msg.role ++ "'")))

  unfoldable pub read_messages : ℕ → List ChatMessage → Result (List InputItem)
  unfolding read_message
  read_messages i [] = ok []
  read_messages i (msg ∷ messages) =
      let rest = read_messages (suc i) messages in
      elim (read_message i msg) [
        | err e ↦ err e
        | ok item ↦ elim rest [ err e ↦ err e | ok items ↦ ok (item ∷ items) ]
      ]

  unfoldable pub read_tools : List ChatTool → Result (List ToolDefinition)
  read_tools [] = ok []
  read_tools (t ∷ tools) =
      let rest = read_tools tools in
      if t.type != "" && t.type != "function"
      then err (invalid ("unsupported tool type: " ++ t.type))
      else if t.function_name == ""
      then err (invalid "tool function name is required")
      else elim rest [ err e ↦ err e | ok names ↦ ok (record { name = t.function_name } ∷ names) ]

  unfoldable pub check_tool_choice : String → Option Error
  check_tool_choice raw = elim (decoding.text raw) [
    | some mode ↦
        if mode == "none" || mode == "auto" || mode == "required"
        then none
        else some (invalid ("invalid tool_choice value: " ++ mode))
    | none ↦ elim (decoding.named raw) [
      | none ↦ some (invalid "tool_choice must be a string or object")
      | some (type, name) ↦
          if type != "function"
          then some (invalid ("unsupported tool_choice type: " ++ type))
          else if name == ""
          then some (invalid "tool_choice function name is required")
          else none
    ]
  ]

  abbrev pub structured : Option String → Bool
  structured none = false
  structured (some type) = type == "json_object" || type == "json_schema"

  abbrev pub is_true : Option Bool → Bool
  is_true none = false
  is_true (some b) = b

  abbrev pub or_other : Option ℤ → Option ℤ → Option ℤ
  or_other none other = other
  or_other (some n) other = some n

  -- The summary, with the messages and tools read.
  abbrev pub summary : ChatRequest → List InputItem → List ToolDefinition → GenerateRequest
  summary req items tools = record {
    public_model_id = req.model;
    requested_model_id = "";
    router_id = none;
    routed_public_model_id = none;
    matched_category = none;
    routing_score = none;
    routing_category_scores = [];
    decision_reason = none;
    fallback_used = none;
    input = items;
    tools = tools;
    stream = is_true req.stream;
    max_output_tokens = or_other req.max_tokens req.max_completion_tokens;
    estimated_input_tokens = none;
    service_tier = req.service_tier;
    parallel_tool_calls = req.parallel_tool_calls;
    structured_output = structured req.response_format;
  }

  abbrev pub choice_error : Option String → Option Error
  unfolding check_tool_choice
  choice_error none = none
  choice_error (some raw) = if raw == "" then none else check_tool_choice raw

  abbrev pub is_other_than_one : Option ℤ → Bool
  is_other_than_one none = false
  is_other_than_one (some n) = n != pos 1

  abbrev pub no_messages : List ChatMessage → Bool
  no_messages [] = true
  no_messages (msg ∷ messages) = false

  -- The messages, the tools and the choice of one.
  unfoldable pub read_request : ChatRequest → Result GenerateRequest
  unfolding read_messages read_tools
  read_request req = elim (read_messages 0 req.messages) [
    | err e ↦ err e
    | ok items ↦ elim (read_tools req.tools) [
      | err e ↦ err e
      | ok tools ↦ elim (choice_error req.tool_choice) [
        | some e ↦ err e
        | none ↦ ok (summary req items tools)
      ]
    ]
  ]

  unfoldable pub check_request : ChatRequest → Result GenerateRequest
  unfolding read_request
  check_request req =
      if req.model == ""
      then err (invalid "model is required")
      else if no_messages req.messages
      then err (invalid "messages is required and cannot be empty")
      else if is_some req.max_tokens && is_some req.max_completion_tokens
      then err (invalid "cannot provide both max_tokens and max_completion_tokens")
      else if is_other_than_one req.n
      then err (invalid "field 'n' only supports value 1 on /v1/chat/completions in this version")
      else read_request req

  -- `ChatCompletionRequestToDomain`.
  unfoldable pub chat_completion_request_to_domain : String → Result GenerateRequest
  unfolding check_request unsupported
  chat_completion_request_to_domain raw = elim (decoding.fields raw) [
    | none ↦ err (invalid "invalid JSON body")
    | some present ↦ elim (unsupported present unsupported_chat_fields) [
      | some key ↦ err (
          invalid
            ("field '" ++ key ++ "' is not supported on /v1/chat/completions in this version"))
      | none ↦ elim (decoding.request raw) [
        | inl e ↦ err (invalid ("invalid request body: " ++ e))
        | inr req ↦ check_request req
      ]
    ]
  ]
