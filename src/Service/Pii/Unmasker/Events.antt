-- ===== src/Service/Pii/Unmasker/Events.antt =====
-- The events of a stream, and a whole answer: `event`, `tail` and `body` of `unmasker`,
-- services/pii.go.
use dappnode_nexus_gateway.Common.{
  ℕ, suc, String, Bool, true, false, ◌||◌, List, [], ◌∷◌, Option, none, some, if◌then◌else◌,
  string_eq, map,
}
use dappnode_nexus_gateway.Common.Bytes.{find, put, utf8}
use dappnode_nexus_gateway.Common.Json.{
  Json, null, boolean, number, text, array, object, Items, no_items, item, Fields, no_fields, field,
  get, set, as_array, as_object,
}
use dappnode_nexus_gateway.Service.Chunk.{Codec, choice_index}
use dappnode_nexus_gateway.Service.Stream.{Restorer}
use dappnode_nexus_gateway.Service.Pii.Unmasker.{
  HeldChoice, Unmasker, nothing_held, feed_delta, release, sort_strings,
}

-- `choice["finish_reason"] != nil`.
abbrev pub is_finished : Option Json → Bool
is_finished none = false
is_finished (some null) = false
is_finished (some (boolean b)) = true
is_finished (some (number n)) = true
is_finished (some (text s)) = true
is_finished (some (array xs)) = true
is_finished (some (object fs)) = true

-- The held texts of a choice, which is there from its first event on.
abbrev pub held_of : String → Unmasker → HeldChoice
held_of index u = elim (find index u.held) [ none ↦ nothing_held | some h ↦ h ]

-- A choice at the end of its event.
unfoldable pub finish_choice :
    Codec → Unmasker → String → Fields → Bool → Unmasker × (Fields × Bool)
finish_choice codec u index choice changed =
    let (v, (out, released)) = release codec u index choice in
    if is_finished (get "finish_reason" choice)
    then (v, (out, changed || released))
    else (u, (choice, changed))

unfoldable pub restore_choice : Codec → Unmasker → ℕ → Fields → Unmasker × (Fields × Bool)
unfolding finish_choice
restore_choice codec u position choice =
    let index = choice_index codec (get "index" choice) position in
    let held = held_of index u in
    elim (as_object (get "delta" choice)) [
      | none ↦ finish_choice codec (record u { held = put index held u.held }) index choice false
      | some delta ↦
          let (w, out) =
            feed_delta codec u.mapping (record { held = held; changed = false }) delta in
          finish_choice codec (record u { held = put index w.held u.held }) index
            (if w.changed then set "delta" (object out) choice else choice) w.changed
    ]

unfoldable pub restore_choices : Codec → Unmasker → ℕ → Items → Unmasker × (Items × Bool)
unfolding restore_choice
restore_choices codec u position no_items = (u, (no_items, false))
restore_choices codec u position (item choice choices) = elim (as_object (some choice)) [
  | none ↦
      let (last, (rest, changed)) = restore_choices codec u (suc position) choices in
      (last, (item choice rest, changed))
  | some c ↦
      let (v, (out, changed)) = restore_choice codec u position c in
      let (last, (rest, more)) = restore_choices codec v (suc position) choices in
      (last, (item (object out) rest, changed || more))
]

-- `event`.
unfoldable pub restore_event : Codec → Unmasker → String → Unmasker × String
unfolding restore_choices
restore_event codec u payload = elim (codec.decode_object payload) [
  | none ↦ (u, payload)
  | some obj ↦ elim (as_array (get "choices" obj)) [
    | none ↦ (u, payload)
    | some choices ↦
        let (v, (out, changed)) = restore_choices codec u 0 choices in
        (
          v,
          if changed
              then elim (codec.encode (object (set "choices" (array out) obj))) [
                | none ↦ payload
                | some s ↦ s
              ]
              else payload,
        )
  ]
]

-- The choice to which `tail` adds what is held.
abbrev pub tail_choice : String → Fields
tail_choice index =
    field "index" (number index)
      (field "delta" (object no_fields) (field "finish_reason" null no_fields))

-- The choices with a text that is still held.
unfoldable pub release_all : Codec → Unmasker → List String → Unmasker × Items
release_all codec u [] = (u, no_items)
release_all codec u (index ∷ indexes) =
    let (v, (out, released)) = release codec u index (tail_choice index) in
    let (last, rest) = release_all codec v indexes in
    (last, if released then item (object out) rest else rest)

-- `tail`.
unfoldable pub held_event : Codec → Unmasker → String → String → Unmasker × Option String
unfolding release_all
held_event codec u id model =
    let (v, choices) =
      release_all codec u (sort_strings (map (λ (e : String × HeldChoice). e.0) u.held)) in
    (
      v,
      elim choices [
        | no_items ↦ none
        | item x xs ↦ codec.encode (
            object (
              field "id" (text (utf8 id)) (
                field "object" (text (utf8 "chat.completion.chunk")) (
                  field "model" (text (utf8 model))
                    (field "choices" (array (item x xs)) no_fields)))))
      ],
    )

unfoldable pub unmasker : Codec → Restorer Unmasker
unfolding restore_event held_event
unmasker codec = record { event = restore_event codec; tail = held_event codec }
