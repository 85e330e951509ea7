-- ===== src/Service/Pii/Request.antt =====
-- Masking a whole request: `maskBody` of GenerateService and of `requestPIIMasker`, and
-- `piiFailureCause`, services/pii.go. Whether an error of the analyzer is a timeout, encoding/json and the
-- state of the request's context are arguments.
pub mod Shape
pub mod Steps
pub mod Combine
pub mod Texts
pub mod Values
pub mod Messages
pub mod Restored
use dappnode_nexus_gateway.Common.{
  ℕ, String, Bool, true, false, not, ◌&&◌, ◌||◌, List, [], ◌∷◌, Option, none, some, if◌then◌else◌,
  ◌==◌, ◌!=◌, string_eq, length, codes, nat_eq,
}
use dappnode_nexus_gateway.Common.Bytes.{Bytes, bytes_eq}
use dappnode_nexus_gateway.Common.Json.{
  Json, null, boolean, number, text, array, object, Items, no_items, item, Fields, no_fields, field,
  get, set, as_text,
}
use dappnode_nexus_gateway.Domain.Account.{normalize_pii_mode}
use dappnode_nexus_gateway.Domain.Error.{
  Error, gateway, Result, ok, err, err_client_canceled, err_internal, with_meta, str,
}
use dappnode_nexus_gateway.Domain.Pii.{PiiMapping}
use dappnode_nexus_gateway.Service.Pii.Masker.{
  Masker, new_masker, Analyzer, Masking, and_then, mask_any, mask_text, mask_json_aware_string,
}

-- A part of a request, masked.
abbrev pub Step : Type 0 → Type 0
Step A = Masker → A → Masking A

abbrev pub at_text : Step Bytes → Step Json
at_text f s (text t) = and_then (f s t) (λ q masked. ok (q, text masked))
at_text f s null = ok (s, null)
at_text f s (boolean b) = ok (s, boolean b)
at_text f s (number n) = ok (s, number n)
at_text f s (array xs) = ok (s, array xs)
at_text f s (object fs) = ok (s, object fs)

abbrev pub at_object : Step Fields → Step Json
at_object f s (object fs) = and_then (f s fs) (λ q masked. ok (q, object masked))
at_object f s null = ok (s, null)
at_object f s (boolean b) = ok (s, boolean b)
at_object f s (number n) = ok (s, number n)
at_object f s (text t) = ok (s, text t)
at_object f s (array xs) = ok (s, array xs)

abbrev pub at_array : Step Items → Step Json
at_array f s (array xs) = and_then (f s xs) (λ q masked. ok (q, array masked))
at_array f s null = ok (s, null)
at_array f s (boolean b) = ok (s, boolean b)
at_array f s (number n) = ok (s, number n)
at_array f s (text t) = ok (s, text t)
at_array f s (object fs) = ok (s, object fs)

unfoldable pub each : Step Json → Step Items
each f s no_items = ok (s, no_items)
each f s (item x xs) = and_then (f s x) (λ q y. and_then (each f q xs) (λ p ys. ok (p, item y ys)))

unfoldable pub each_value : Step Json → Step Fields
each_value f s no_fields = ok (s, no_fields)
each_value f s (field k x fs) =
    and_then (f s x) (λ q y. and_then (each_value f q fs) (λ p ys. ok (p, field k y ys)))

-- The fields named that are there, one after the other.
unfoldable pub at_fields : List (String × Step Json) → Step Fields
at_fields [] s fs = ok (s, fs)
at_fields ((k, f) ∷ steps) s fs = elim (get k fs) [
  | none ↦ at_fields steps s fs
  | some v ↦ and_then (f s v) (λ q w. at_fields steps q (set k w fs))
]

-- A text, or the texts of the parts of an array.
unfoldable pub mask_content : Step Bytes → Step Json
unfolding each at_fields
mask_content mask s (text t) = at_text mask s (text t)
mask_content mask s (array xs) =
    at_array (each (at_object (at_fields (("text", at_text mask) ∷ [])))) s (array xs)
mask_content mask s null = ok (s, null)
mask_content mask s (boolean b) = ok (s, boolean b)
mask_content mask s (number n) = ok (s, number n)
mask_content mask s (object fs) = ok (s, object fs)

-- `body["state"]`: nil, when it is missing, is written too.
abbrev pub state_of : Option Json → Json
state_of none = null
state_of (some v) = v

unfoldable pub with_state : Fields → Fields
with_state body = set "state" (state_of (get "state" body)) body

abbrev pub tool_role : Option Bytes → Bool
tool_role none = false
tool_role (some role) = role == codes "tool"

module _ (analyzer : Analyzer) where
  abbrev pub mask_call : Step Json
  mask_call = at_object (
      at_fields (
        (
          "function",
          at_object (at_fields (("arguments", at_text (mask_json_aware_string analyzer)) ∷ [])),
        )
        ∷ []))

  unfoldable pub mask_message : Step Fields
  mask_message s msg =
      at_fields
        ((
          "content",
          mask_content (
              if tool_role (as_text (get "role" msg))
              then mask_json_aware_string analyzer
              else mask_text analyzer),
        )
          ∷ ("reasoning_content", at_text (mask_text analyzer))
          ∷ ("reasoning", at_text (mask_text analyzer))
          ∷ ("tool_calls", at_array (each mask_call))
          ∷ [])
        s msg

  abbrev pub mask_whole : Step Json
  mask_whole s v = and_then (mask_any analyzer s v) (λ q r. ok (q, r.0))

  abbrev pub mask_question : Step Fields
  mask_question = at_fields (("instructions", mask_whole) ∷ ("criteria", mask_whole) ∷ [])

  unfoldable pub mask_fields_of : String → Step Fields
  unfolding mask_message with_state each_value
  mask_fields_of endpoint s body =
      if endpoint == "systemone"
      then at_fields
          (("state", mask_whole)
            ∷ ("questions", at_object (each_value (at_object mask_question)))
            ∷ [])
          s (with_state body)
      else at_fields
          (("user", at_text (mask_text analyzer))
            ∷ ("messages", at_array (each (at_object (mask_message))))
            ∷ [])
          s body

-- What the gateway's filter consists of, and what else `maskBody` calls.
pub record Filter : Type 0 where
  pub analyzer : Analyzer
  pub enabled : Bool
  pub fail_open : Bool
  pub gone : Bool
  pub decode_object : Bytes → Option Fields
  pub encode : Fields → Option Bytes
  pub is_timeout : Error → Bool

abbrev pub filter_failed : String → Error
filter_failed cause = gateway (
    with_meta (err_internal "an internal error occurred")
      (("dependency", str "pii") ∷ ("cause", str cause) ∷ []))

module _ (filter : Filter) where
  abbrev pub pii_failure_cause : Error → String
  pii_failure_cause e = if filter.is_timeout e then "pii_filter_timeout" else "pii_filter_failed"

  unfoldable pub masking_failed : Bytes → Error → Result (Bytes × Option PiiMapping)
  masking_failed raw e =
      if filter.gone
      then err (gateway err_client_canceled)
      else if filter.fail_open
      then ok (raw, none)
      else err (filter_failed (pii_failure_cause e))

  unfoldable pub masked_body : Bytes → Masker → Fields → Result (Bytes × Option PiiMapping)
  masked_body raw q body =
      if length q.mapping.token_to_original == 0
      then ok (raw, none)
      else elim (filter.encode body) [
        | none ↦ err (filter_failed "pii_filter_failed")
        | some out ↦ ok (out, some q.mapping)
      ]

  unfoldable pub mask_object : String → Bytes → Fields → Result (Bytes × Option PiiMapping)
  unfolding masked_body masking_failed mask_fields_of
  mask_object endpoint raw body = elim (mask_fields_of filter.analyzer endpoint new_masker body) [
    | err e ↦ masking_failed raw e
    | ok (q, masked) ↦ masked_body raw q masked
  ]

  -- Whether requests of a key are masked.
  unfoldable pub is_filtered : String → Bool
  unfolding normalize_pii_mode
  is_filtered pii_mode = elim (normalize_pii_mode pii_mode) [
    | none ↦ false
    | some mode ↦ mode != "off" && filter.enabled
  ]

  unfoldable pub mask_body : Bytes → String → String → Result (Bytes × Option PiiMapping)
  unfolding is_filtered mask_object
  mask_body raw pii_mode endpoint =
      if is_filtered pii_mode
      then elim (filter.decode_object raw) [
        | none ↦ ok (raw, none)
        | some body ↦ mask_object endpoint raw body
      ]
      else ok (raw, none)
