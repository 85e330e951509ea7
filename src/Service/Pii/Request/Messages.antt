-- ===== src/Service/Pii/Request/Messages.antt =====
-- Masking the messages of a request, and its other fields: `maskBody` of `requestPIIMasker`.
use dappnode_nexus_gateway.Common.{
  String, Bool, refl, true, false, List, [], ◌∷◌, if◌then◌else◌, ◌==◌, Bool-cases, inl, inr, nat_eq,
  string_eq, Option-cases,
}
use dappnode_nexus_gateway.Common.Bytes.{Bytes, bytes_eq}
use dappnode_nexus_gateway.Common.Json.{Json, null, Fields, get, as_text}
use dappnode_nexus_gateway.Domain.Pii.{PiiMapping}
use dappnode_nexus_gateway.Service.Pii.Masker.{Masker, Analyzer, mask_text, mask_json_aware_string}
use dappnode_nexus_gateway.Service.Pii.Request.Shape.{
  HaveShape, AllTexts, AllFields, AllFields-get, AllFields-set,
}
use dappnode_nexus_gateway.Service.Pii.Request.Steps.{IsMasker, Yields, Masks, Works}
use dappnode_nexus_gateway.Service.Pii.Request.Combine.{
  at_text-Works, at_object-Works, at_array-Works, each-Works, each_value-Works, AreSteps,
  at_fields-Works, mask_content-Works,
}
use dappnode_nexus_gateway.Service.Pii.Request.Texts.{IsMaskableJson, IsRestored, IsRestored-grows}
use dappnode_nexus_gateway.Service.Pii.Request.{
  Step, at_text, at_object, at_array, each, each_value, at_fields, mask_content, tool_role,
  with_state, mask_call, mask_message, mask_whole, mask_question, mask_fields_of,
}
use dappnode_nexus_gateway.Service.Pii.Request.Values.{
  Shaped, text-Works, json_text-Works, whole-Works,
}

-- What a request is compared with: a SystemOne body gets a `state`.
abbrev pub compared : String → Fields → Fields
compared endpoint body = if endpoint == "systemone" then with_state body else body

module _ (analyzer : Analyzer) where
  abbrev T : Bytes → Type 0
  T = IsMaskableJson analyzer

  abbrev FieldsShaped : PiiMapping → Fields → Fields → Type 0
  FieldsShaped m = HaveShape (IsRestored analyzer m)

  fields_work :
      (steps : List (String × Step Json))
      → AreSteps (IsRestored analyzer) (IsRestored-grows analyzer) (λ m t. inl refl) T steps
      → Works (AllFields T) FieldsShaped (at_fields steps)
  fields_work =
      at_fields-Works (IsRestored analyzer) (IsRestored-grows analyzer) (λ m t. inl refl) T

  object-Works :
      (f : Step Fields)
      → Works (AllFields T) FieldsShaped f
      → Works (AllTexts T) (Shaped analyzer) (at_object f)
  object-Works =
      at_object-Works (IsRestored analyzer) (IsRestored-grows analyzer) (λ m t. inl refl) T

  leaf-Works :
      (f : Step Bytes)
      → Works T (IsRestored analyzer) f
      → Works (AllTexts T) (Shaped analyzer) (at_text f)
  leaf-Works = at_text-Works (IsRestored analyzer) (IsRestored-grows analyzer) (λ m t. inl refl) T

  all_work :
      (f : Step Json)
      → Works (AllTexts T) (Shaped analyzer) f
      → Works (AllTexts T) (Shaped analyzer) (at_array (each f))
  all_work f works =
      at_array-Works (IsRestored analyzer) (IsRestored-grows analyzer) (λ m t. inl refl) T (each f)
        (each-Works (IsRestored analyzer) (IsRestored-grows analyzer) (λ m t. inl refl) T f works)

  call-Works : Works (AllTexts T) (Shaped analyzer) (mask_call analyzer)
  unfolding AreSteps
  call-Works =
      let function = ("arguments", at_text (mask_json_aware_string analyzer)) ∷ [] in
      object-Works (at_fields (("function", at_object (at_fields function)) ∷ [])) (
        fields_work (("function", at_object (at_fields function)) ∷ []) (
          object-Works (at_fields function) (
              fields_work function (
                leaf-Works (mask_json_aware_string analyzer) (json_text-Works analyzer),
                (tt, tt),
              )),
          (tt, tt),
        ))

  mask_by_role : Bool → Step Bytes
  mask_by_role tool = if tool then mask_json_aware_string analyzer else mask_text analyzer

  by_role-Works : (tool : Bool) → Works T (IsRestored analyzer) (mask_by_role tool)
  unfolding mask_by_role
  by_role-Works true = json_text-Works analyzer
  by_role-Works false = text-Works analyzer

  message-Works : Works (AllFields T) FieldsShaped (mask_message analyzer)
  unfolding mask_message AreSteps mask_by_role
  message-Works s msg =
      let role = tool_role (as_text (get "role" msg)) in
      let content = mask_by_role role in
      let reasoning = leaf-Works (mask_text analyzer) (text-Works analyzer) in
      fields_work
        (("content", mask_content content)
          ∷ ("reasoning_content", at_text (mask_text analyzer))
          ∷ ("reasoning", at_text (mask_text analyzer))
          ∷ ("tool_calls", at_array (each (mask_call analyzer)))
          ∷ [])
        (
          mask_content-Works (IsRestored analyzer) (IsRestored-grows analyzer) (λ m t. inl refl) T
              content (by_role-Works role),
          (
            (refl, (refl, (refl, tt))),
            (
              reasoning,
              (
                (refl, (refl, tt)),
                (reasoning, ((refl, tt), (all_work (mask_call analyzer) call-Works, (tt, tt)))),
              ),
            ),
          ),
        )
        s msg

  question-Works : Works (AllFields T) FieldsShaped (mask_question analyzer)
  unfolding AreSteps
  question-Works =
      fields_work (("instructions", mask_whole analyzer) ∷ ("criteria", mask_whole analyzer) ∷ [])
        (whole-Works analyzer, ((refl, tt), (whole-Works analyzer, (tt, tt))))

  with_state-texts : (body : Fields) → AllFields T body → AllFields T (with_state body)
  unfolding with_state AllTexts
  with_state-texts body h = elim (Option-cases (get "state" body)) [
    | inl e ↦ rw (e, with_state) (AllFields-set T "state" null body tt h)
    | inr (v, e) ↦
        rw (e, with_state) (AllFields-set T "state" v body (AllFields-get T "state" v body h e) h)
  ]

  pub mask_fields_of-Works :
      (endpoint : String) (s : Masker) (body : Fields)
      → IsMasker s
      → AllFields T body
      → Yields
          (Masks FieldsShaped s (compared endpoint body))
          (mask_fields_of analyzer endpoint s body)
  unfolding AreSteps mask_fields_of
  mask_fields_of-Works endpoint s body sound h = elim (Bool-cases (endpoint == "systemone")) [
    | inl e ↦
        let question = at_object (mask_question analyzer) in
        rw (e, mask_fields_of)
          (fields_work
            (("state", mask_whole analyzer) ∷ ("questions", at_object (each_value question)) ∷ [])
            (
              whole-Works analyzer,
              (
                (refl, tt),
                (
                  object-Works (each_value question) (
                      each_value-Works (IsRestored analyzer) (IsRestored-grows analyzer)
                        (λ m t. inl refl) T question
                        (object-Works (mask_question analyzer) question-Works)),
                  (tt, tt),
                ),
              ),
            )
            s (with_state body) sound (with_state-texts body h))
    | inr e ↦
        let message = at_object (mask_message analyzer) in
        rw (e, mask_fields_of)
          (fields_work
            (("user", at_text (mask_text analyzer)) ∷ ("messages", at_array (each message)) ∷ [])
            (
              leaf-Works (mask_text analyzer) (text-Works analyzer),
              (
                (refl, tt),
                (all_work message (object-Works (mask_message analyzer) message-Works), (tt, tt)),
              ),
            )
            s body sound h)
  ]
