-- ===== src/Tests/Restored.antt =====
-- A stream whose placeholders are restored.
use dappnode_nexus_gateway.Common.{◌≡◌, [], ◌∷◌, none, some, false, codes, length, Any, arith}
use dappnode_nexus_gateway.Domain.Pii.{new_pii_mapping, token}
use dappnode_nexus_gateway.Service.Pii.Unmasker.{Unmasker}
use dappnode_nexus_gateway.Service.Pii.Unmasker.Events.{unmasker}
use dappnode_nexus_gateway.Service.Pii.Unmasker.Silent.{unmasker-ends}
use dappnode_nexus_gateway.Service.Stream.{new_proxy_stream, prime, run_ops}
use dappnode_nexus_gateway.Service.Stream.Progress.{steps, EndGiven, asks}
use dappnode_nexus_gateway.Tests.Stream.{codec, lines}

abbrev restored : Unmasker
unfolding token
restored = record {
  mapping = (token (codes "PERSON") (codes "ann") new_pii_mapping).0;
  held = ("0", record { text = ("content", codes "PERS") ∷ []; tools = [] }) ∷ [];
}

unmasker-ends_example :
    let ready =
      (prime codec
        (unmasker codec)
        (new_proxy_stream lines none "small" none false (some restored))).0 in
    Any EndGiven (steps codec (unmasker codec) ready 15)
    × (length (run_ops codec (unmasker codec) ready (asks 15)).reported ≡ 1)
unmasker-ends_example =
    unmasker-ends codec lines none "small" none false (some restored) 15 (omega arith)
