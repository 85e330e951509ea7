-- ===== src/Service/Proxy/Streams.antt =====
-- The end of a streamed request: `finish` and `finishProxy` of services/proxy.go, which a stream calls
-- with its outcome (`onEnd`).
use dappnode_nexus_gateway.Common.{
  ◌≡◌, refl, sym, All, All-append, ◌∙◌, subst, String, Bool, List, [], ◌∷◌, ◌++◌, Option, none,
  some, arith, count, count-append, length,
}
use dappnode_nexus_gateway.Domain.Error.{GatewayError, Error, gateway, ok}
use dappnode_nexus_gateway.Domain.Model.{PublicModel}
use dappnode_nexus_gateway.Domain.Generation.{GenerateRequest, TinfoilProof}
use dappnode_nexus_gateway.Service.Chunk.{Outcome, Codec}
use dappnode_nexus_gateway.Service.Stream.{
  ProxyStream, Restorer, new_proxy_stream, prime, close, run_ops, Op,
}
use dappnode_nexus_gateway.Service.Stream.Ends.{run_ops-reports}
use dappnode_nexus_gateway.Service.Proxy.{
  Env, Event, succeeded, failed, lease_stopped, streaming, proxy,
}
use dappnode_nexus_gateway.Service.Proxy.Events.{
  opened, IsUnder, is_reservation, is_settlement, is_stop,
}
use dappnode_nexus_gateway.Service.Proxy.Accounting.{IsAccounted, proxy-IsBalanced}

module _ {Body Answer Stream Mapping : Type 0} (env : Env Body Answer Stream Mapping) where
  -- The error that is recorded: the cause with which the lease canceled the inference, if it did,
  -- comes before the stream's.
  unfoldable pub recorded_error :
      Option GatewayError → Option Mapping → Option GatewayError → Option Error
  recorded_error lost mapping none = none
  recorded_error none mapping (some e) = some (env.sanitize (gateway e) mapping)
  recorded_error (some cause) mapping (some e) = some (env.sanitize (gateway cause) mapping)

  unfoldable pub finish_proxy : String → PublicModel → Option Error → List (Event Body)
  finish_proxy rid target none = succeeded rid target ∷ []
  finish_proxy rid target (some e) = failed (some rid) target e ∷ []

  unfoldable pub finish :
      String → PublicModel → Option GatewayError → Option Mapping → Outcome → List (Event Body)
  unfolding recorded_error finish_proxy
  finish rid target lost mapping o =
      finish_proxy rid target (recorded_error lost mapping o.error) ++ lease_stopped rid ∷ []

  -- What the calls of `onEnd` do; `lost` is the lease's cause when they come.
  unfoldable pub finish_all :
      String → PublicModel → Option GatewayError → Option Mapping → List Outcome → List (Event Body)
  unfolding finish
  finish_all rid target lost mapping [] = []
  finish_all rid target lost mapping (o ∷ os) =
      finish rid target lost mapping o ++ finish_all rid target lost mapping os

  -- One outcome settles once, and makes no hold.
  record SettlesOnce (events : List (Event Body)) : Type 0 where
    settlements : count is_settlement events ≡ 1
    stops : count is_stop events ≡ 1
    reservations : count is_reservation events ≡ 0

  finish_all-IsUnder :
      (rid : String) (target : PublicModel) (lost : Option GatewayError) (mapping : Option Mapping)
      (reports : List Outcome)
      → All (IsUnder (some rid)) (finish_all rid target lost mapping reports)
  unfolding finish_all finish finish_proxy
  finish_all-IsUnder rid target lost mapping [] = tt
  finish_all-IsUnder rid target lost mapping (o ∷ os) =
      All-append (IsUnder (some rid)) (finish rid target lost mapping o)
        (finish_all rid target lost mapping os) (one_IsUnder (recorded_error lost mapping o.error))
        (finish_all-IsUnder rid target lost mapping os)
    where
      one_IsUnder :
          (e : Option Error)
          → All (IsUnder (some rid)) (finish_proxy rid target e ++ lease_stopped rid ∷ [])
      one_IsUnder none = (refl, (refl, tt))
      one_IsUnder (some e) = (refl, (refl, tt))

  finish_proxy-SettlesOnce :
      (rid : String) (target : PublicModel) (e : Option Error)
      → SettlesOnce (finish_proxy rid target e ++ lease_stopped rid ∷ [])
  unfolding finish_proxy
  finish_proxy-SettlesOnce rid target none = record {
    settlements = refl;
    stops = refl;
    reservations = refl;
  }
  finish_proxy-SettlesOnce rid target (some e) = record {
    settlements = refl;
    stops = refl;
    reservations = refl;
  }

  finish_all-SettlesOnce :
      (rid : String) (target : PublicModel) (lost : Option GatewayError) (mapping : Option Mapping)
      (reports : List Outcome)
      → length reports ≡ 1
      → SettlesOnce (finish_all rid target lost mapping reports)
  unfolding finish_all finish
  finish_all-SettlesOnce rid target lost mapping [] h = absurd (omega (arith, h))
  finish_all-SettlesOnce rid target lost mapping (o ∷ []) h =
      let once = finish_proxy-SettlesOnce rid target (recorded_error lost mapping o.error) in
      let events =
        finish_proxy rid target (recorded_error lost mapping o.error) ++ lease_stopped rid ∷ [] in
      record {
        settlements = count-append is_settlement events [] ∙ omega (arith, once);
        stops = count-append is_stop events [] ∙ omega (arith, once);
        reservations = count-append is_reservation events [] ∙ omega (arith, once);
      }
  finish_all-SettlesOnce rid target lost mapping (o ∷ p ∷ os) h = absurd (omega (arith, h))

module _ {Body Answer Mapping U : Type 0} (env : Env Body Answer (ProxyStream U) Mapping)
    (codec : Codec) (restorer : Restorer U) where
  -- A request that is given a primed stream, and whose client closes it after any calls of `Next` and
  -- `Close`, makes one credit hold in all, which is settled once and whose lease is stopped once: every
  -- settlement and end of a lease, during the request and after it, carries the ID of that hold.
  pub streamed-settled :
      (endpoint : String) (raw : Body) (req : GenerateRequest) (token rid : String)
      (target : PublicModel) (events : List (Event Body)) (lost : Option GatewayError)
      (mapping : Option Mapping) (lines : List String) (scan_error : Option String)
      (public_name : String) (proof : Option TinfoilProof) (hide_usage : Bool) (unmask : Option U)
      (ops : List Op)
      → proxy env endpoint raw req token ≡ (
        events,
        ok (
            streaming target
              (prime codec restorer
                (new_proxy_stream lines scan_error public_name proof hide_usage unmask)).0
              rid
              mapping),
      )
      → let after =
          finish_all env rid target lost mapping
            (close codec restorer (
              run_ops codec restorer
                (prime codec restorer
                  (new_proxy_stream lines scan_error public_name proof hide_usage unmask)).0
                ops)).reported in
        (count is_reservation (events ++ after) ≡ 1)
        × (count is_settlement (events ++ after) ≡ 1)
        × (count is_stop (events ++ after) ≡ 1)
        × (opened events ≡ some rid)
        × All (IsUnder (opened events)) (events ++ after)
  streamed-settled endpoint raw req token rid target events lost mapping lines scan_error
        public_name proof hide_usage unmask ops h =
      let s =
        (prime codec restorer
          (new_proxy_stream lines scan_error public_name proof hide_usage unmask)).0 in
      let reports = (close codec restorer (run_ops codec restorer s ops)).reported in
      let after = finish_all env rid target lost mapping reports in
      let accounted : IsAccounted env (events, ok (streaming target s rid mapping)) =
        subst (IsAccounted env) h (proxy-IsBalanced env endpoint raw req token) in
      let balanced = accounted.balanced in
      let held : opened events ≡ some rid = accounted.own.ends in
      let once =
        finish_all-SettlesOnce env rid target lost mapping reports
          (run_ops-reports codec restorer lines scan_error public_name proof hide_usage unmask ops
            []).0 in
      (
        count-append is_reservation events after ∙ omega (arith, balanced, once),
        count-append is_settlement events after ∙ omega (arith, balanced, once),
        count-append is_stop events after ∙ omega (arith, balanced, once),
        held,
        All-append (IsUnder (opened events)) events after accounted.own.events (
            subst (λ id. All (IsUnder id) after) (sym held)
              (finish_all-IsUnder env rid target lost mapping reports)),
      )
