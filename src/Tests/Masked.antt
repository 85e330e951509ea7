-- ===== src/Tests/Masked.antt =====
-- The masking of a sample request.
use dappnode_nexus_gateway.Common.{
  List, true, false, [], ◌∷◌, none, some, codes, if◌then◌else◌, ◌==◌, nat_eq,
}
use dappnode_nexus_gateway.Common.Bytes.{Bytes, bytes_eq}
use dappnode_nexus_gateway.Common.Json.{
  Json, text, array, object, no_items, item, Fields, no_fields, field,
}
use dappnode_nexus_gateway.Domain.Error.{ok}
use dappnode_nexus_gateway.Domain.Pii.Mask.{PiiEntity}
use dappnode_nexus_gateway.Service.Pii.Masker.{Analyzer}
use dappnode_nexus_gateway.Service.Pii.Request.{Filter}

abbrev letter : Bytes
letter = codes "mail ann@dappnode.io now"

-- A result of a tool, and the JSON in it.
abbrev answer : Bytes
answer = codes "{\"from\":\"ann\"}"

abbrev found : Bytes → List PiiEntity
found t =
    if t == letter
    then record { type = codes "EMAIL_ADDRESS"; start = 5; end = 20 } ∷ []
    else if t == codes "ann"
    then record { type = codes "PERSON"; start = 0; end = 3 } ∷ []
    else []

abbrev analyzer : Analyzer
analyzer = record {
  analyze = λ t. ok (found t);
  decode_value = λ t.
      if t == answer then some (object (field "from" (text (codes "ann")) no_fields)) else none;
  encode_value = λ v. ok answer;
}

abbrev body : Fields
body =
    field "messages"
      (array (
        item (object (field "content" (text letter) no_fields)) (
          item
            (object (field "role" (text (codes "tool")) (field "content" (text answer) no_fields)))
            no_items)))
      no_fields

abbrev raw : Bytes
raw = codes "{...}"

abbrev filter : Filter
filter = record {
  analyzer = analyzer;
  enabled = true;
  fail_open = false;
  gone = false;
  decode_object = λ t. some body;
  encode = λ fs. some (codes "{}");
  is_timeout = λ e. false;
}
