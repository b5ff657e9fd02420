-- ===== src/Nokia/Release.antt =====
-- What a release rests on where the carrier is the live gateway of integrations/nokia/live.py.
use zonegate_backend.Evidence.PlanValidator.{validate}
use zonegate_backend.Authorization.Service.{authorize_transaction}
use zonegate_backend.Nokia.Live.{
  LiveGateway, live_carrier, to_answer, validated, attestable_kinds, live_verify_location, Called,
  call_tool, returned, capability_unavailable, live_error, tool_location_verification, other_error,
  area_arguments,
}
use zonegate_backend.Prelude.{
  ℕ, ◌≡◌, Result, List, String, some, ok, suc, Result-cases, ◌≢◌, Option, refl, inl, arith, inr,
  false, Bool-cases,
}
use zonegate_backend.Nokia.Json.{Json, Members, object}
use zonegate_backend.Domain.{
  EvidenceKind, Actor, TransactionRequest, DeviceBinding, location_verification, DecisionOutcome,
  EvidencePlan, ValidatedEvidencePlan, mem_kind, number_verification,
}
use zonegate_backend.Authorization.Service.Deployment.{Deployment, Listener, Outcome}
use zonegate_backend.Evidence.Gateway.{
  Geofence, answered, LocationVerdict, resolve_zone, collect_evidence,
}
use zonegate_backend.Nokia.Models.{CamaraLocationVerificationResponse}
use zonegate_backend.Runtime.{World}
use zonegate_backend.Nokia.Payloads.{IsUsable, payload_iff}
use zonegate_backend.Evidence.WorkflowPolicy.{WorkflowEvidencePolicy, get_workflow_policy}
use zonegate_backend.Authorization.Service.Safety.{authorize_backed}
use zonegate_backend.Evidence.PlanValidator.Plans.{validate_members}
use zonegate_backend.Evidence.Gateway.Checks.{asks_only_planned}

-- The wiring of app.py: the gateway asks the live client, and the validator gets what it attests.
unfoldable pub live_deployment : LiveGateway → (EvidenceKind → ℕ) → Deployment → Deployment
live_deployment g ids s = record s {
  attestable = some attestable_kinds;
  carrier = live_carrier g ids;
}

answered_from :
    {A B : Type 0} (read : A → B) (c : Called A) (b : B)
    → to_answer read c ≡ answered b
    → (a : A) × (c ≡ returned a) × (read a ≡ b)
unfolding to_answer
answered_from read (returned a) b h = (a, refl, cc h)
answered_from read (capability_unavailable e) b h = absurd (cc h)
answered_from read (live_error e) b h = absurd (cc h)
answered_from read (other_error e) b h = absurd (cc h)

validated_from :
    {A : Type 0} (validate : Json → Result String A) (c : Called Members) (a : A)
    → validated validate c ≡ returned a
    → (payload : Members) × (c ≡ returned payload) × (validate (object payload) ≡ ok a)
unfolding validated
validated_from validate (returned payload) a h = elim (Result-cases (validate (object payload))) [
  | inl (found, e) ↦ (payload, refl, ground (arith, e, h))
  | inr (t, e) ↦ absurd (ground (arith, e, h))
]
validated_from validate (capability_unavailable e) a h = absurd (cc h)
validated_from validate (live_error e) a h = absurd (cc h)
validated_from validate (other_error e) a h = absurd (cc h)

-- The live gateway placed the phone inside the area.
pub record IsPlaced (g : LiveGateway) (id : ℕ) (phone : String) (fence : Geofence) : Type 0 where
  pub payload : Members
  pub response : CamaraLocationVerificationResponse
  pub usable :
      IsUsable g (g.post (suc id) tool_location_verification (area_arguments phone fence)) payload
  pub valid : g.validators.location (object payload) ≡ ok response
  pub verdict : response.verification_result ≡ LocationVerdict.inside

placed :
    (g : LiveGateway) (ids : EvidenceKind → ℕ) (phone : String) (fence : Geofence)
    → (live_carrier g ids).verify_location phone fence ≡ answered LocationVerdict.inside
    → IsPlaced g (ids location_verification) phone fence
unfolding live_carrier live_verify_location call_tool
placed g ids phone fence h =
    let (response, called, verdict) = answered_from _ _ _ h in
    let (payload, replied, valid) = validated_from g.validators.location _ response called in
    record {
      payload = payload;
      response = response;
      usable = (payload_iff g tool_location_verification _ payload).0 replied;
      valid = valid;
      verdict = verdict;
    }

-- With the live carrier, and actors on record under their own identifiers: if
-- `authorize_transaction` returns anything but a denial, then the actor was enrolled and bound to a
-- device, and the gateway's reply to the location check of that device's number against the zone of
-- the request was usable and valid with the verdict TRUE. A transport failure, an error, a declined call or a
-- reply of another shape never lets a release through or puts it on hold.
pub live_backed :
    (g : LiveGateway) (ids : EvidenceKind → ℕ) (s : Deployment) (listener : Listener)
    (tx : TransactionRequest) (w : World)
    → ((k : String) (a : Actor) → w.tables.actors k ≡ some a → a.actor_id ≡ k)
    → (out : Outcome) → (authorize_transaction (live_deployment g ids s) tx listener w).0 ≡ ok out
    → out.0.decision ≢ DecisionOutcome.deny
    → (actor : Actor) × (binding : DeviceBinding) × (fence : Geofence) × (w.tables.actors
          tx.actor_id
        ≡ some actor)
      × (w.tables.bindings tx.actor_id ≡ some binding)
      × (resolve_zone s.registry tx.zone ≡ some fence)
      × IsPlaced g (ids location_verification) binding.phone_number fence
unfolding live_deployment attestable_kinds
live_backed g ids s listener tx w keyed out h passed =
    let (actor, binding, enrolled, bound, earned) =
      authorize_backed (live_deployment g ids s) listener tx w keyed out h passed in
    let (fence, zone, inside) = earned.confirmed location_verification refl refl in
    (actor, binding, fence, enrolled, bound, zone, placed g ids binding.phone_number fence inside)

-- With the live carrier the number is never asked for, whatever an agent proposes: neither a
-- validated plan nor a collection of it contains the number verification.
pub live_never_asks :
    (g : LiveGateway) (ids : EvidenceKind → ℕ) (registry : List (String × Geofence)) (now : ℕ)
    (actor : Actor) (binding : DeviceBinding) (tx : TransactionRequest) (workflow_name : String)
    (policy : WorkflowEvidencePolicy) (proposed : Option EvidencePlan)
    (plan : ValidatedEvidencePlan)
    → get_workflow_policy workflow_name ≡ some policy
    → validate (some attestable_kinds) workflow_name proposed ≡ ok plan
    → (mem_kind number_verification plan.combined ≡ false)
      × (mem_kind number_verification
            (collect_evidence registry (live_carrier g ids) now actor binding tx plan).0
          ≡ false)
unfolding attestable_kinds
live_never_asks g ids registry now actor binding tx workflow_name policy proposed plan known h =
    let (_, _, members) =
      validate_members (some attestable_kinds) workflow_name policy proposed known plan
        number_verification h in
    let unplanned : mem_kind number_verification plan.combined ≡ false = ground (arith, members) in
    (
      unplanned,
      elim (Bool-cases (
          mem_kind number_verification
            (collect_evidence registry (live_carrier g ids) now actor binding tx plan).0)) [
              | inr never ↦ never
              | inl asked ↦ absurd (
                  cc (
                    (asks_only_planned registry (live_carrier g ids) now actor binding tx plan
                        number_verification asked).0,
                    unplanned,
                  ))
            ],
    )
