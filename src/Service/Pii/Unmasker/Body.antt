-- ===== src/Service/Pii/Unmasker/Body.antt =====
-- Restoring a whole answer: `body` of `unmasker`, services/pii.go.
use dappnode_nexus_gateway.Common.{String, List, [], ◌∷◌, none, some}
use dappnode_nexus_gateway.Common.Json.{
  Json, Fields, object, map_items, map_fields, on_object, on_array, on_text, on_field,
}
use dappnode_nexus_gateway.Domain.Pii.{PiiMapping}
use dappnode_nexus_gateway.Domain.Pii.Mask.{unmask}
use dappnode_nexus_gateway.Service.Chunk.{Codec}
use dappnode_nexus_gateway.Service.Pii.Unmasker.{Unmasker, generated}

-- A text; an empty one stays as it is.
abbrev pub restore_text : PiiMapping → Json → Json
restore_text m v = on_text (λ s. unmask s m) v

unfoldable pub restore_generated : PiiMapping → List String → Fields → Fields
restore_generated m [] msg = msg
restore_generated m (name ∷ names) msg =
    restore_generated m names (on_field name (restore_text m) msg)

unfoldable pub restore_message : PiiMapping → Fields → Fields
unfolding restore_generated
restore_message m msg =
    on_field "tool_calls"
      (on_array (
        map_items
          (on_object (on_field "function" (on_object (on_field "arguments" (restore_text m)))))))
      (restore_generated m generated msg)

-- `legend[key] = Unmask(text)` of every answer.
unfoldable pub restore_answers : PiiMapping → Fields → Fields
restore_answers m obj =
    on_field "answers"
      (on_object
        (map_fields (on_object (on_field "legend" (on_object (map_fields (restore_text m)))))))
      obj

unfoldable pub restore_body : Codec → Unmasker → String → String
unfolding restore_answers restore_message
restore_body codec u body = elim (codec.decode_object body) [
  | none ↦ body
  | some obj ↦
      elim (codec.encode (
        object (
          on_field "choices"
            (on_array
              (map_items (on_object (on_field "message" (on_object (restore_message u.mapping))))))
            (restore_answers u.mapping obj)))) [ none ↦ body | some out ↦ out ]
]
