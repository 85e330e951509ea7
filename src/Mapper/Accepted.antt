-- ===== src/Mapper/Accepted.antt =====
-- Which chat requests are accepted, and what their summary says:
-- apps/gateway/internal/adapters/http/mapper/chat_to_domain.go.
use dappnode_nexus_gateway.Common.{
  ℕ, suc, ◌≡◌, ◌≢◌, ◌↔◌, eq_iff, Any, refl, sym, subst, ap, ◌∙◌, String, Bool, true, false, not,
  ◌&&◌, ◌||◌, List, [], ◌∷◌, Option, none, some, ◌⊎◌, inl, inr, ◌==◌, string_eq, map, is_some, All,
  arith, Bool-cases, Option-cases,
}
use dappnode_nexus_gateway.Common.Int.{pos, int_eq}
use dappnode_nexus_gateway.Domain.Error.{Result, ok, err, Result-cases}
use dappnode_nexus_gateway.Domain.Generation.{InputItem, ToolDefinition, GenerateRequest}
use dappnode_nexus_gateway.Mapper.Conditions.{
  IsPlainRole, IsNoValue, IsAnswer, IsNamedFunction, IsChoice, plain_role, no_value, no_id,
  tool-IsAnswer, named_function, IsChoice-passes, one_answer, one_limit, is_true_iff, structured_of,
  of_structured, absent, other_text,
}
use dappnode_nexus_gateway.Mapper.{
  ChatMessage, ChatTool, ChatRequest, Decoding, has_value, given, text_content, read_plain,
  read_assistant, read_message, read_messages, read_tools, choice_error, no_messages, read_request,
  check_request, summary, unsupported, unsupported_chat_fields, chat_completion_request_to_domain,
}

abbrev pub is_plain_role : String → Bool
is_plain_role role = role == "system" || role == "developer" || role == "user" || role == "tool"

-- The checks of a message that pass, with what is read of it.
record IsReadBy (decoding : Decoding) (msg : ChatMessage) (item : InputItem) : Type 0 where
  pub role : item.role ≡ some msg.role
  pub known : (is_plain_role msg.role || msg.role == "assistant") ≡ true
  pub calls : (is_plain_role msg.role && has_value msg.tool_calls) ≡ false
  pub answered : (msg.role == "tool") ≡ given msg.tool_call_id
  pub alone : (msg.role == "tool" || not (is_some msg.tool_call_id)) ≡ true
  pub spoken : (is_plain_role msg.role && not (is_some item.content)) ≡ false

-- A message that is accepted, with what is read of it: an assistant's answers no call, and all others
-- have a text, and no calls.
pub record IsRead (msg : ChatMessage) (item : InputItem) : Type 0 where
  pub role : item.role ≡ some msg.role
  pub kind :
      ((msg.role ≡ "assistant") × (msg.tool_call_id ≡ none))
      ⊎ (IsPlainRole msg.role
          × (IsNoValue msg.tool_calls
              × (IsAnswer msg.role msg.tool_call_id
                  × ((text : String) × (item.content ≡ some text)))))

content_of : (o : Option String) → not (is_some o) ≡ false → (text : String) × (o ≡ some text)
content_of none h = absurd (ground (arith, h))
content_of (some text) h = (text, refl)

IsReadBy-IsRead :
    {decoding : Decoding} (msg : ChatMessage) (item : InputItem)
    → IsReadBy decoding msg item
    → IsRead msg item
IsReadBy-IsRead msg item h =
    let answer = tool-IsAnswer msg.role msg.tool_call_id h.answered h.alone in
    record {
      role = h.role;
      kind = elim (Bool-cases (is_plain_role msg.role)) [
        | inl plain ↦
            let calls : has_value msg.tool_calls ≡ false = ground (arith, plain, h.calls) in
            let spoken : not (is_some item.content) ≡ false = ground (arith, plain, h.spoken) in
            inr (
              plain_role msg.role plain,
              (no_value msg.tool_calls calls, (answer, content_of item.content spoken)),
            )
        | inr not_plain ↦
            let assistant : (msg.role == "assistant") ≡ true = ground (arith, h.known, not_plain) in
            let alone : is_some msg.tool_call_id ≡ false = ground (arith, not_plain, h.alone) in
            inl ((eq_iff msg.role "assistant").0 assistant, no_id msg.tool_call_id alone)
      ];
    }

ok_of : {A : Type 0} → Result A → A → A
ok_of (ok a) other = a
ok_of (err e) other = other

ok-injective : {A : Type 0} (a b : A) → ok a ≡ ok b → a ≡ b
unfolding ok_of
ok-injective a b h = ap (λ r. ok_of r a) h

text_cases :
    (r : String ⊎ String) → ((e : String) × (r ≡ inl e)) ⊎ ((text : String) × (r ≡ inr text))
text_cases (inl e) = inl (e, refl)
text_cases (inr text) = inr (text, refl)

decoded_cases :
    (r : String ⊎ ChatRequest)
    → ((e : String) × (r ≡ inl e)) ⊎ ((req : ChatRequest) × (r ≡ inr req))
decoded_cases (inl e) = inl (e, refl)
decoded_cases (inr req) = inr (req, refl)

not_given : (id : Option String) → is_some id ≡ false → given id ≡ false
not_given none h = refl
not_given (some s) h = absurd (ground (arith, h))

module _ (decoding : Decoding) where
  read_plain-IsRead :
      (i : ℕ) (msg : ChatMessage) (item : InputItem)
      → is_plain_role msg.role ≡ true
      → read_plain decoding i msg ≡ ok item
      → IsReadBy decoding msg item
  unfolding read_plain
  read_plain-IsRead i msg item plain h = elim (text_cases (text_content decoding msg.content)) [
    | inl (e, f) ↦ absurd (ground (arith, h, f))
    | inr (text, f) ↦
        let made : ok (record { role = some msg.role; content = some text }) ≡ ok item =
          ground (arith, h, f) in
        let same : record { role = some msg.role; content = some text } ≡ item =
          ok-injective _ item made in
        record {
          role = sym (ap (λ (j : InputItem). j.role) same);
          known = ground (arith, plain);
          calls = ground (arith, plain, h);
          answered = ground (arith, h, f);
          alone = ground (arith, h, f);
          spoken = let c = ap (λ (j : InputItem). j.content) same in ground (arith, c);
        }
  ]

  read_message-IsRead :
      (i : ℕ) (msg : ChatMessage) (item : InputItem)
      → read_message decoding i msg ≡ ok item
      → IsReadBy decoding msg item
  unfolding read_message read_assistant
  read_message-IsRead i msg item h = elim (Bool-cases (is_plain_role msg.role)) [
    | inl plain ↦
        let read : read_plain decoding i msg ≡ ok item = ground (arith, h, plain) in
        read_plain-IsRead i msg item plain read
    | inr other ↦
        let assistant : (msg.role == "assistant") ≡ true = ground (arith, h, other) in
        let alone : is_some msg.tool_call_id ≡ false = ground (arith, h, other) in
        let none_given : given msg.tool_call_id ≡ false = not_given msg.tool_call_id alone in
        record {
          role = elim (text_cases (text_content decoding msg.content)) [
            | inl (e, f) ↦
                let made : ok (record { role = some msg.role; content = none }) ≡ ok item =
                  ground (arith, h, other, assistant, alone, f) in
                sym (ap (λ (j : InputItem). j.role) (ok-injective _ item made))
            | inr (text, f) ↦
                let made : ok (record { role = some msg.role; content = some text }) ≡ ok item =
                  ground (arith, h, other, assistant, alone, f) in
                sym (ap (λ (j : InputItem). j.role) (ok-injective _ item made))
          ];
          known = ground (arith, assistant);
          calls = ground (arith, other);
          answered = ground (arith, other, none_given);
          alone = ground (arith, alone);
          spoken = ground (arith, other);
        }
  ]

  -- Messages in order, with what is read of each.
  unfoldable pub AreRead : List ChatMessage → List InputItem → Type 0
  AreRead [] [] = Unit
  AreRead [] (item ∷ items) = ⊥
  AreRead (msg ∷ messages) [] = ⊥
  AreRead (msg ∷ messages) (item ∷ items) = IsRead msg item × AreRead messages items

  read_messages-AreRead :
      (messages : List ChatMessage) (i : ℕ) (items : List InputItem)
      → read_messages decoding i messages ≡ ok items
      → AreRead messages items
  unfolding read_messages AreRead
  read_messages-AreRead [] i [] h = tt
  read_messages-AreRead [] i (item ∷ items) h = absurd (ground (arith, h))
  read_messages-AreRead (msg ∷ messages) i items h =
      elim (Result-cases (read_message decoding i msg)) [
        | inl (e, f) ↦ absurd (ground (arith, h, f))
        | inr (item, f) ↦ elim (Result-cases (read_messages decoding (suc i) messages)) [
          | inl (e, g) ↦ absurd (ground (arith, h, f, g))
          | inr (rest, g) ↦
              let made : ok (item ∷ rest) ≡ ok items = ground (arith, h, f, g) in
              subst (AreRead (msg ∷ messages)) (ok-injective _ items made) (
                IsReadBy-IsRead msg item (read_message-IsRead i msg item f),
                read_messages-AreRead messages (suc i) rest g,
              )
        ]
      ]

  read_tools-names :
      (tools : List ChatTool) (read : List ToolDefinition)
      → read_tools decoding tools ≡ ok read
      → All IsNamedFunction tools
        × (read ≡ map (λ (t : ChatTool). record { name = t.function_name }) tools)
  unfolding read_tools
  read_tools-names [] read h = (tt, sym (ok-injective _ read h))
  read_tools-names (t ∷ tools) read h = elim (Result-cases (read_tools decoding tools)) [
    | inl (e, f) ↦ absurd (ground (arith, h, f))
    | inr (rest, f) ↦
        let made : ok (record { name = t.function_name } ∷ rest) ≡ ok read = ground (arith, h, f) in
        let (pass, names) = read_tools-names tools rest f in
        (
          (named_function t (ground (arith, h)) (ground (arith, h)), pass),
          sym (ok-injective _ read made) ∙ ap (λ ns. record { name = t.function_name } ∷ ns) names,
        )
  ]

  -- A request that is accepted, with its summary.
  pub record IsAccepted (req : ChatRequest) (gen : GenerateRequest) : Type 0 where
    pub model : req.model ≢ ""
    pub messages : req.messages ≢ []
    pub one_answer : (req.n ≡ none) ⊎ (req.n ≡ some (pos 1))
    pub read : AreRead req.messages gen.input
    pub tools : All IsNamedFunction req.tools
    pub names : gen.tools ≡ map (λ (t : ChatTool). record { name = t.function_name }) req.tools
    pub choice : IsChoice decoding req.tool_choice
    pub asked : gen.public_model_id ≡ req.model
    pub streamed : (gen.stream ≡ true) ↔ (req.stream ≡ some true)
    pub limit :
        ((req.max_tokens ≡ none) × (gen.max_output_tokens ≡ req.max_completion_tokens))
        ⊎ ((req.max_completion_tokens ≡ none) × (gen.max_output_tokens ≡ req.max_tokens))
    pub tier : gen.service_tier ≡ req.service_tier
    pub parallel : gen.parallel_tool_calls ≡ req.parallel_tool_calls
    pub structured_as :
        (gen.structured_output ≡ true)
        ↔ ((req.response_format ≡ some "json_object") ⊎ (req.response_format ≡ some "json_schema"))

  some_messages :
      (messages : List ChatMessage) → no_messages decoding messages ≡ false → messages ≢ []
  some_messages messages h e = absurd (ground (arith, h, ap (λ ms. no_messages decoding ms) e))

  check_request-IsAccepted :
      (req : ChatRequest) (gen : GenerateRequest)
      → check_request decoding req ≡ ok gen
      → IsAccepted req gen
  unfolding check_request read_request
  check_request-IsAccepted req gen h = elim (Result-cases (read_messages decoding 0 req.messages)) [
    | inl (e, f) ↦ absurd (ground (arith, h, f))
    | inr (items, f) ↦ elim (Result-cases (read_tools decoding req.tools)) [
      | inl (e, g) ↦ absurd (ground (arith, h, f, g))
      | inr (tools, g) ↦
          let choice : choice_error decoding req.tool_choice ≡ none = ground (arith, h, f, g) in
          let made : ok (summary decoding req items tools) ≡ ok gen =
            ground (arith, h, f, g, choice) in
          let (pass, names) = read_tools-names req.tools tools g in
          subst (IsAccepted req) (ok-injective _ gen made) (record {
            model = other_text req.model "" (ground (arith, h));
            messages = some_messages req.messages (ground (arith, h));
            one_answer = one_answer decoding req.n (ground (arith, h));
            read = read_messages-AreRead req.messages 0 items f;
            tools = pass;
            names = names;
            choice = IsChoice-passes decoding req.tool_choice choice;
            asked = refl;
            streamed = is_true_iff decoding req.stream;
            limit = one_limit decoding req.max_tokens req.max_completion_tokens (ground (arith, h));
            tier = refl;
            parallel = refl;
            structured_as = (
              structured_of decoding req.response_format,
              of_structured decoding req.response_format,
            );
          })
    ]
  ]

  -- A chat request is accepted only if it is an object without best_of, function_call and functions
  -- that decodes to a request with a model, a message, at most one output limit, no `n` but 1, tools
  -- that are named functions, and no choice of tool but none, auto, required or a named function. The
  -- summary then has its model, stream flag, output limit, service tier, parallel tool calls, whether
  -- the answer is JSON, its tools' names, and in order its messages' roles, each known: only tool
  -- messages answer a call, and all of them, only assistants' have calls, and all but assistants' have
  -- a text.
  pub chat_completion_request_to_domain-IsAccepted :
      (raw : String) (gen : GenerateRequest)
      → chat_completion_request_to_domain decoding raw ≡ ok gen
      → (present : List String) × ((decoding.fields raw ≡ some present)
          × (All
                (λ (key : String). ¬ Any (λ j. j ≡ key) present)
                ("best_of" ∷ "function_call" ∷ "functions" ∷ [])
              × ((req : ChatRequest) × ((decoding.request raw ≡ inr req) × IsAccepted req gen))))
  unfolding chat_completion_request_to_domain unsupported
  chat_completion_request_to_domain-IsAccepted raw gen h =
      elim (Option-cases (decoding.fields raw)) [
        | inl f ↦ absurd (ground (arith, h, f))
        | inr (present, f) ↦ elim (Option-cases (unsupported present unsupported_chat_fields)) [
          | inr (key, g) ↦ absurd (ground (arith, h, f, g))
          | inl none_found ↦ elim (decoded_cases (decoding.request raw)) [
            | inl (e, g) ↦ absurd (ground (arith, h, f, g, none_found))
            | inr (req, g) ↦
                let checked : check_request decoding req ≡ ok gen =
                  ground (arith, h, f, g, none_found) in
                (
                  present,
                  (
                    f,
                    (
                      (
                        absent present _ (ground (arith, none_found)),
                        (
                          absent present _ (ground (arith, none_found)),
                          (absent present _ (ground (arith, none_found)), tt),
                        ),
                      ),
                      (req, (g, check_request-IsAccepted req gen checked)),
                    ),
                  ),
                )
          ]
        ]
      ]
