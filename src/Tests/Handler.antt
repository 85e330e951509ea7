-- ===== src/Tests/Handler.antt =====
-- The confidential handler at a sample envelope that is sent twice.
use dappnode_nexus_gateway.Common.{
  ℕ, ◌≡◌, ◌+◌, ◌*◌, refl, true, [], ◌∷◌, none, some, if◌then◌else◌, ◌==◌, string_eq, arith,
  trim_space, cut_prefix,
}
use dappnode_nexus_gateway.Common.Int.{pos, int_eq}
use dappnode_nexus_gateway.Domain.Error.{gateway, ok, err_conflict}
use dappnode_nexus_gateway.Domain.Fault.{width}
use dappnode_nexus_gateway.Handlers.{extract_bearer_token}
use dappnode_nexus_gateway.Confidential.Replay.{
  new_cache, replay_ttl, second, check_and_store, purge, purge_from, store, set_account,
  account_count, admit,
}
use dappnode_nexus_gateway.Confidential.Handler.{
  Env, Request, ConfidentialEnvelope, rejected, forwarded, handle_decrypted, handle_all, look_up,
  prepare, answer, authorize, read_envelope, check_envelope, decode_confidential_envelope,
  is_braced, starts_with,
}
use dappnode_nexus_gateway.Confidential.Handler.Replays.{handle_decrypted_once}
use dappnode_nexus_gateway.Tests.Samples.{guest}

abbrev envelope : ConfidentialEnvelope
envelope = record {
  schema_version = pos 1;
  request_id = "0b9e";
  issued_at = "noon";
  request = "{}";
}

abbrev env : Env
env = record {
  authenticate = λ token. ok guest;
  decode = λ body. if body == "sealed" then some envelope else none;
  valid_json = λ text. true;
  parse_time = λ time. some (1000 * second);
  parse_uuid = λ id. some id;
}

-- A request whose age is checked, and that is looked up, a number of seconds after the envelope was
-- issued.
abbrev arriving : ℕ → Request
arriving n = record {
  authorization = "Bearer key";
  body = some "sealed";
  now = 1000 * second + n * second;
  locked = 1000 * second + n * second;
}

arriving_prepared : prepare env (arriving 1) ≡ ok (guest, envelope)
unfolding prepare authorize read_envelope check_envelope decode_confidential_envelope is_braced
    starts_with trim_space extract_bearer_token cut_prefix width
arriving_prepared = refl

later_prepared : prepare env (arriving 100) ≡ ok (guest, envelope)
unfolding prepare authorize read_envelope check_envelope decode_confidential_envelope is_braced
    starts_with trim_space extract_bearer_token cut_prefix width
later_prepared = refl

first_forwarded :
    (handle_decrypted env (handle_all env (new_cache replay_ttl 10) []) (arriving 1)).1
    ≡ forwarded "{}"
unfolding handle_decrypted handle_all look_up prepare answer authorize read_envelope check_envelope
    decode_confidential_envelope is_braced starts_with width trim_space extract_bearer_token
    cut_prefix check_and_store new_cache purge purge_from admit store set_account account_count
first_forwarded = refl

handle_decrypted_once_example :
    (handle_decrypted env
      (handle_all env
        (handle_decrypted env (handle_all env (new_cache replay_ttl 10) []) (arriving 1)).0
        (arriving 7 ∷ []))
      (arriving 100)).1
    ≡ rejected (gateway (err_conflict "confidential request was already processed"))
handle_decrypted_once_example =
    handle_decrypted_once env 10 [] (arriving 7 ∷ []) (arriving 1) (arriving 100) guest guest
      envelope envelope "{}" arriving_prepared later_prepared refl refl refl (omega arith)
      (omega arith) (omega arith, tt) first_forwarded
