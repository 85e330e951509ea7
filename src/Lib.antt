-- ===== src/Lib.antt =====
-- Verification of the Nexus gateway: an HTTP gateway that takes inference requests, authenticates
-- them and holds credit with Metering, and passes them to model providers.
--
-- Parts, and how they meet:
-- * Domain models pkg/domain. Domain/Error.antt and Domain/Fault.antt are error.go and
--   error_class.go (`GatewayError`, `WithMeta`, `FaultOf`, `DiagnosticFields`, `Annotate`);
--   Domain/Account.antt, Domain/Model.antt and Domain/Generation.antt are the data.
--   Domain/Pii.antt and Domain/Pii/Mask.antt are pii.go: the placeholders of personal data
--   (`PIIMapping`), `ApplyMask` and `Unmask`, on lists of bytes.
--   Names, Places and Texts there are lemmas on what these write.
-- * Metering models apps/gateway/internal/adapters/metering: Metering/Wire.antt is the JSON that
--   Metering answers with, Metering/Contract.antt the `validate…` functions of runtime_client.go,
--   and Metering/Catalog.antt the operations (`ListPublicModels`, `GetPublicModel`, `ListRouters`,
--   `GetRouter`, `AuthenticateAPIKey`) from the decoded answer on. Metering/Client.antt is client.go's
--   requests with their retries and errors; Metering/Client/Payload.antt the bodies it sends, and
--   Metering/Client/Reservations.antt `Reserve`, `RecordSuccess` and `RecordFailure`.
--   Metering/Keeper.antt is the loop of `KeepReservation` in reservation_lease.go.
-- * Service models apps/gateway/internal/application/services: Service/Checks.antt the checks
--   before a provider call (generate_service.go, guest_models.go, output_limit.go),
--   Service/Resolve.antt `resolveModel`, and Service/Proxy.antt `Proxy` (proxy.go), which calls them
--   all. Its state is the list of events that other parties see: the hold, provider calls,
--   accounting and the end of the lease.
--   Service/Chunk.antt is what proxy.go reads of a provider's JSON, and Service/Stream.antt the relay
--   of a stream (`ProxyStream`: `prime`, `observe`, `Next`, `Close`, `end`), whose state also records
--   the outcomes that were reported. Service/Proxy/Streams.antt is what `Proxy` does with
--   such an outcome (`finish`, `finishProxy`). Service/Pii.antt is the buffer of pii.go that holds text
--   back; Service/Pii/Masker.antt and Service/Pii/Request.antt are `requestPIIMasker` and `maskBody`,
--   with a child per part of their argument, and Service/Pii/Unmasker.antt is `unmasker`: what the relay
--   calls of it (`event`, `tail`) in Events.antt, `body` in Body.antt.
--   Service/Models.antt is the cached list of models, list_models_service.go.
-- * Handlers models apps/gateway/internal/adapters/http/handlers: Handlers.antt is common.go.
-- * Mapper models apps/gateway/internal/adapters/http/mapper: Mapper.antt is chat_to_domain.go.
-- * Confidential models confidential_chat_completions_handler.go there:
--   Confidential/Replay.antt has `confidentialReplayCache` and `checkAndStore`, and
--   Confidential/Handler.antt `handleDecrypted`, which calls it; Confidential/Frames.antt is the check
--   of the encrypted body's frames, `validatedEHBPBody`.
-- * Enclave models internal/enclavebundle: Enclave/Bundle.antt the checks of bundle.go, and
--   Enclave/Bundle/Sealing.antt `Encrypt` and `Decrypt`.
-- * Common has the shared names, tests, lists, texts and signed integers; Tests has sample data and
--   each theorem at a concrete input.
--
-- Conventions: a Go pointer is an Option, a pair of a value and an error is a Result, a map is an
-- association list or, used as a set, a list of keys. Loops recurse on the list they walk, or on the
-- number of retries that are left; only the digits of a number have fuel, one more than the number,
-- which is enough, since each round divides it by ten. A nil pointer that the code would read gives
-- `none`.
--
-- What stands outside: what other services answer (Metering's HTTP answers, the router, providers),
-- the analyzer of personal data, encoding/json, and a context's state where the code reads it, are arguments. So are, in Service,
-- the masking and restoring of personal data and the input estimate. Not modelled: the rest of
-- the HTTP layer, the providers' own code, the enclave's bootstrap and
-- network, metrics and logs.
pub mod Common
pub mod Domain
pub mod Enclave
pub mod Confidential
pub mod Mapper
pub mod Metering
pub mod Handlers
pub mod Service
pub mod Tests
