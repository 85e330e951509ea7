-- ===== src/Service/Chunk.antt =====
-- What the gateway reads of a provider's JSON: `chunk`, `usageJSON` and the reading of a whole answer
-- (`observeJSON`) of services/proxy.go. encoding/json is an argument: `Codec`.
use Prim.Native.String.{◌++◌}
use dappnode_nexus_gateway.Common.{
  ℕ, suc, String, Bool, true, false, not, ◌&&◌, ◌||◌, List, [], ◌∷◌, Option, none, some,
  if◌then◌else◌, ◌==◌, ◌!=◌, string_eq, any, map,
}
use dappnode_nexus_gateway.Common.Int.{ℤ, pos, ltb_ℤ, int_eq}
use dappnode_nexus_gateway.Common.Json.{
  Json, null, boolean, number, text, array, object, Items, no_items, item, Fields, get, set, remove,
  as_array, as_object,
}
use dappnode_nexus_gateway.Domain.Error.{
  GatewayError, gateway, Result, ok, err, err_provider_error, with_meta, int,
}
use dappnode_nexus_gateway.Domain.Generation.{Usage, TinfoilProof}

pub record UsageJson : Type 0 where
  pub prompt_tokens : ℤ
  pub completion_tokens : ℤ
  pub total_tokens : ℤ
  pub prompt_cache_hit_tokens : ℤ
  -- `prompt_tokens_details`, of which only the cached tokens are read.
  pub cached_tokens : Option ℤ

pub record Delta : Type 0 where
  pub role : Option String
  pub content : Option String
  pub reasoning_content : Option String
  pub reasoning : Option String
  pub tool_calls : List String

pub record Choice : Type 0 where
  pub index : Option ℤ
  pub delta : Option Delta
  pub finish_reason : Option String

pub record BaseResp : Type 0 where
  pub status_code : ℤ
  pub status_msg : String

-- `error` is its raw JSON, "" where it is missing.
pub record Chunk : Type 0 where
  pub id : String
  pub model : Option String
  pub choices : List Choice
  pub usage : Option UsageJson
  pub error : String
  pub base_resp : Option BaseResp

unfoldable pub usage_domain : Option UsageJson → Option Usage
usage_domain none = none
usage_domain (some u) =
    let cached : ℤ = elim u.cached_tokens [
      | none ↦ u.prompt_cache_hit_tokens
      | some n ↦ if ltb_ℤ (pos 0) n then n else u.prompt_cache_hit_tokens
    ] in
    some (record {
      prompt_tokens = u.prompt_tokens;
      completion_tokens = u.completion_tokens;
      total_tokens = u.total_tokens;
      cache_creation_tokens = pos 0;
      cache_read_tokens = cached;
    })

unfoldable pub stream_failure : Chunk → Option GatewayError
stream_failure c =
    if c.error != "" && c.error != "null"
    then some (err_provider_error 502 "provider stream failed")
    else none

unfoldable pub failure : Chunk → Option GatewayError
unfolding stream_failure
failure c = elim c.base_resp [
  | none ↦ stream_failure c
  | some b ↦
      if not (b.status_code == pos 0)
      then some (
          with_meta (err_provider_error 502 "provider returned an unsuccessful response")
            (("upstream_code", int b.status_code) ∷ []))
      else stream_failure c
]

abbrev is_written : Option String → Bool
is_written none = false
is_written (some s) = s != ""

abbrev has_calls : List String → Bool
has_calls [] = false
has_calls (c ∷ cs) = true

abbrev has_output : Option Delta → Bool
has_output none = false
has_output (some d) =
    has_calls d.tool_calls
    || is_written d.content
    || is_written d.reasoning_content
    || is_written d.reasoning

abbrev pub commits_choice : Choice → Bool
commits_choice choice = elim choice.finish_reason [ some r ↦ true | none ↦ has_output choice.delta ]

unfoldable pub commits : Chunk → Bool
commits c = any commits_choice c.choices

unfoldable pub first_reason : List Choice → Option String
first_reason [] = none
first_reason (choice ∷ choices) =
    let later = first_reason choices in
    elim choice.finish_reason [ none ↦ later | some r ↦ if r != "" then some r else later ]

unfoldable pub finish_reason : Chunk → Option String
unfolding first_reason
finish_reason c = first_reason c.choices

pub record Outcome : Type 0 where
  pub provider_id : String
  pub finish : Option String
  pub usage : Option Usage
  pub proof : Option TinfoilProof
  pub error : Option GatewayError
  pub end : String
  pub chunks : ℕ
  pub malformed : ℕ

-- encoding/json and strconv: the chunk that a text decodes to, the object that it is (numbers kept as sent), the
-- text of a value without HTML escapes, a quoted string, and what stands before and after the value
-- of an object's first top-level "model" field, and the decimal text of a number.
pub record Codec : Type 0 where
  pub parse_chunk : String → Option Chunk
  pub decode_object : String → Option Fields
  pub encode : Json → Option String
  pub quote : String → String
  pub around_model : String → Option (String × String)
  pub itoa : ℤ → String

unfoldable pub rewrite_model : Codec → String → Chunk → String → String
rewrite_model codec raw c public_name = elim c.model [
  | none ↦ raw
  | some name ↦ if name == public_name then raw else elim (codec.around_model raw) [
    | none ↦ raw
    | some (before, after) ↦ before ++ codec.quote public_name ++ after
  ]
]

-- `unmask` restores a whole body; `none` for a key that does not mask.
unfoldable pub observe_json :
    Codec → String → String → Option (String → String) → Result (String × Outcome)
unfolding failure finish_reason usage_domain rewrite_model
observe_json codec body public_name unmask = elim (codec.parse_chunk body) [
  | none ↦ err (gateway (err_provider_error 502 "provider returned an invalid response"))
  | some c ↦ elim (failure c) [
    | some e ↦ err (gateway e)
    | none ↦
        let restored : String = elim unmask [ none ↦ body | some f ↦ f body ] in
        ok (
          rewrite_model codec restored c public_name,
          record {
            provider_id = c.id;
            finish = finish_reason c;
            usage = usage_domain c.usage;
            proof = none;
            error = none;
            end = "complete";
            chunks = 0;
            malformed = 0;
          },
        )
  ]
]

-- `choiceIndex` of services/pii.go.
abbrev pub choice_index : Codec → Option Json → ℕ → String
choice_index codec (some (number n)) position = n
choice_index codec (some null) position = codec.itoa (pos position)
choice_index codec (some (boolean b)) position = codec.itoa (pos position)
choice_index codec (some (text s)) position = codec.itoa (pos position)
choice_index codec (some (array xs)) position = codec.itoa (pos position)
choice_index codec (some (object fs)) position = codec.itoa (pos position)
choice_index codec none position = codec.itoa (pos position)

-- A choice without the role of its delta, if its index is to be dropped.
unfoldable pub drop_role : Codec → List String → ℕ → Json → Json
drop_role codec drop position (object choice) = elim (as_object (get "delta" choice)) [
  | none ↦ object choice
  | some delta ↦
      if any (λ i. i == choice_index codec (get "index" choice) position) drop
      then object (set "delta" (object (remove "role" delta)) choice)
      else object choice
]
drop_role codec drop position null = null
drop_role codec drop position (boolean b) = boolean b
drop_role codec drop position (number n) = number n
drop_role codec drop position (text s) = text s
drop_role codec drop position (array xs) = array xs

unfoldable pub drop_role_items : Codec → List String → ℕ → Items → Items
drop_role_items codec drop position no_items = no_items
drop_role_items codec drop position (item choice choices) =
    item (drop_role codec drop position choice) (drop_role_items codec drop (suc position) choices)

-- `choices, _ := obj["choices"].([]any)`: with no such list the object stays.
abbrev drop_role_choices : Codec → List String → Fields → Fields
drop_role_choices codec drop obj = elim (as_array (get "choices" obj)) [
  | none ↦ obj
  | some choices ↦ set "choices" (array (drop_role_items codec drop 0 choices)) obj
]

-- An event without the roles of these choices; as sent if it cannot be rewritten.
unfoldable pub drop_roles : Codec → List ℤ → String → String
drop_roles codec drop payload = elim (codec.decode_object payload) [
  | none ↦ payload
  | some obj ↦ elim (codec.encode (object (drop_role_choices codec (map codec.itoa drop) obj))) [
    | none ↦ payload
    | some out ↦ out
  ]
]
