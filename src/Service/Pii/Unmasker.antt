-- ===== src/Service/Pii/Unmasker.antt =====
-- Restoring personal data in responses: `unmasker` of services/pii.go. Logs of what could not be
-- restored (`report`) are left out.
pub mod Events
pub mod Silent
pub mod Body
use dappnode_nexus_gateway.Common.{
  ℕ, zero, suc, String, Bool, true, false, ◌&&◌, ◌||◌, List, [], ◌∷◌, ◌++◌, Option, none, some,
  if◌then◌else◌, ◌==◌, string_eq, any, is_some, codes, map,
}
use dappnode_nexus_gateway.Common.Bytes.{Bytes, bytes_eq, byte_less, find, put, erase, utf8}
use dappnode_nexus_gateway.Common.Json.{
  Json, null, boolean, number, text, array, object, Items, no_items, item, Fields, no_fields, field,
  get, set, as_text, as_array, as_object,
}
use dappnode_nexus_gateway.Domain.Pii.{PiiMapping}
use dappnode_nexus_gateway.Domain.Pii.Mask.{unmask, sort_stable}
use dappnode_nexus_gateway.Service.Chunk.{Codec, choice_index}
use dappnode_nexus_gateway.Service.Stream.{Restorer}
use dappnode_nexus_gateway.Service.Pii.{feed_pii_stream_buffer, flush_pii_stream_buffer}

-- What a choice holds back: texts by field, arguments by the index of their call.
pub record HeldChoice : Type 0 where
  pub text : List (String × Bytes)
  pub tools : List (String × Bytes)

pub record Unmasker : Type 0 where
  pub mapping : PiiMapping
  pub held : List (String × HeldChoice)

abbrev pub generated : List String
generated = "content" ∷ "reasoning_content" ∷ "reasoning" ∷ []

abbrev pub nothing_held : HeldChoice
nothing_held = record { text = []; tools = [] }

-- `buffer`: a missing one is empty.
abbrev pub buffer_of : String → List (String × Bytes) → Bytes
buffer_of key buffers = elim (find key buffers) [ none ↦ [] | some b ↦ b ]

-- A text that is there and not empty.
abbrev pub written : Option Bytes → Option Bytes
written none = none
written (some []) = none
written (some (c ∷ s)) = some (c ∷ s)

-- What the walk over a choice changes.
pub record Walk : Type 0 where
  pub held : HeldChoice
  pub changed : Bool

unfoldable pub feed_fields : PiiMapping → List String → Walk → Fields → Walk × Fields
feed_fields m [] w delta = (w, delta)
feed_fields m (name ∷ names) w delta =
    let skipped = feed_fields m names w delta in
    elim (written (as_text (get name delta))) [
      | none ↦ skipped
      | some t ↦
          let (kept, out) = feed_pii_stream_buffer m (buffer_of name w.held.text) t in
          feed_fields m names
            (record { held = record w.held { text = put name kept w.held.text }; changed = true })
            (set name (text out) delta)
    ]

-- One call of a tool.
unfoldable pub feed_call : Codec → PiiMapping → Walk → Json → Walk × Json
feed_call codec m w (object call) = elim (as_object (get "function" call)) [
  | none ↦ (w, object call)
  | some fn ↦ elim (written (as_text (get "arguments" fn))) [
    | none ↦ (w, object call)
    | some args ↦
        let key = choice_index codec (get "index" call) 0 in
        let (kept, out) = feed_pii_stream_buffer m (buffer_of key w.held.tools) args in
        (
          record { held = record w.held { tools = put key kept w.held.tools }; changed = true },
          object (set "function" (object (set "arguments" (text out) fn)) call),
        )
  ]
]
feed_call codec m w null = (w, null)
feed_call codec m w (boolean b) = (w, boolean b)
feed_call codec m w (number n) = (w, number n)
feed_call codec m w (text s) = (w, text s)
feed_call codec m w (array xs) = (w, array xs)

unfoldable pub feed_calls : Codec → PiiMapping → Walk → Items → Walk × Items
unfolding feed_call
feed_calls codec m w no_items = (w, no_items)
feed_calls codec m w (item call calls) =
    let (v, out) = feed_call codec m w call in
    let (last, rest) = feed_calls codec m v calls in (last, item out rest)

unfoldable pub feed_delta : Codec → PiiMapping → Walk → Fields → Walk × Fields
unfolding feed_fields feed_calls
feed_delta codec m w delta =
    let (v, out) = feed_fields m generated w delta in
    elim (as_array (get "tool_calls" out)) [
      | none ↦ (v, out)
      | some calls ↦
          let (last, restored) = feed_calls codec m v calls in
          (last, set "tool_calls" (array restored) out)
    ]

-- `release`: the texts that a choice holds are added to its delta; whether any was.
unfoldable pub release_fields : PiiMapping → HeldChoice → List String → Fields → Fields × Bool
release_fields m held [] delta = (delta, false)
release_fields m held (name ∷ names) delta =
    let skipped = release_fields m held names delta in
    elim (written (some (flush_pii_stream_buffer m (buffer_of name held.text)))) [
      | none ↦ skipped
      | some tail ↦
          let existing : Bytes = elim (as_text (get name delta)) [ none ↦ [] | some s ↦ s ] in
          ((release_fields m held names (set name (text (existing ++ tail)) delta)).0, true)
    ]

-- A call whose arguments end with the tail.
abbrev pub with_tail : Bytes → Fields → Json
with_tail tail call =
    let fn : Fields = elim (as_object (get "function" call)) [ none ↦ no_fields | some fs ↦ fs ] in
    let existing : Bytes = elim (as_text (get "arguments" fn)) [ none ↦ [] | some s ↦ s ] in
    object (set "function" (object (set "arguments" (text (existing ++ tail)) fn)) call)

abbrev pub has_index : Codec → String → Json → Bool
has_index codec key call = elim (as_object (some call)) [
  | none ↦ false
  | some c ↦ choice_index codec (get "index" c) 0 == key
]

-- The calls with an index get the tail; whether there is one.
unfoldable pub append_tail : Codec → String → Bytes → Items → Items × Bool
append_tail codec key tail no_items = (no_items, false)
append_tail codec key tail (item call calls) =
    let (rest, appended) = append_tail codec key tail calls in
    if has_index codec key call
    then (
      item (elim (as_object (some call)) [ none ↦ call | some c ↦ with_tail tail c ]) rest,
      true,
    )
    else (item call rest, appended)

unfoldable pub snoc : Items → Json → Items
snoc no_items x = item x no_items
snoc (item y ys) x = item y (snoc ys x)

unfoldable pub release_tool : Codec → String → Bytes → Fields → Fields
unfolding append_tail snoc
release_tool codec key tail delta =
    let calls : Items = elim (as_array (get "tool_calls" delta)) [
      | none ↦ no_items
      | some xs ↦ xs
    ] in
    let (out, appended) = append_tail codec key tail calls in
    if appended
    then set "tool_calls" (array out) delta
    else set "tool_calls"
        (array (
          snoc calls (
            object (
              field "index" (number key)
                (field "function" (object (field "arguments" (text tail) no_fields)) no_fields)))))
        delta

unfoldable pub release_tools :
    Codec → PiiMapping → HeldChoice → List String → Fields → Fields × Bool
release_tools codec m held [] delta = (delta, false)
release_tools codec m held (key ∷ keys) delta =
    let skipped = release_tools codec m held keys delta in
    elim (written (some (flush_pii_stream_buffer m (buffer_of key held.tools)))) [
      | none ↦ skipped
      | some tail ↦ ((release_tools codec m held keys (release_tool codec key tail delta)).0, true)
    ]

unfoldable pub sort_strings : List String → List String
sort_strings names = sort_stable (λ (a b : String). byte_less (codes a) (codes b)) names

unfoldable pub release : Codec → Unmasker → String → Fields → Unmasker × (Fields × Bool)
unfolding release_fields release_tools
release codec u index choice = elim (find index u.held) [
  | none ↦ (u, (choice, false))
  | some held ↦
      let delta : Fields = elim (as_object (get "delta" choice)) [
        | none ↦ no_fields
        | some fs ↦ fs
      ] in
      let (texts, some_text) = release_fields u.mapping held generated delta in
      let keys = sort_strings (map (λ (e : String × Bytes). e.0) held.tools) in
      let (out, some_call) = release_tools codec u.mapping held keys texts in
      (
        record u { held = erase index u.held },
        if some_text || some_call then (set "delta" (object out) choice, true) else (choice, false),
      )
]
