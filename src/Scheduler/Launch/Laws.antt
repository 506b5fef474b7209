-- ===== src/Scheduler/Launch/Laws.antt =====
-- Lemmas on launchDependencyReason of internal/application/initiative_scheduler.go.
use comis_dev_crew.Base.{
  ◌≡◌, refl, sym, ◌∙◌, Bool, true, false, not, ◌||◌, List, [], ◌∷◌, Option, none, some, inl, inr,
  arith, In, In-cons, Bool-cases, ap,
}
use comis_dev_crew.Text.{Text, text_eq}
use comis_dev_crew.Text.Laws.{text_eq_sound, text_eq_iff, member-In}
use comis_dev_crew.Contract.{
  ComponentContractArtifact, ContractArtifactKind, PinnedContract, same_kind,
}
use comis_dev_crew.Task.{Task}
use comis_dev_crew.Initiative.{
  DevelopmentInitiative, InitiativeEdge, is_blocks_validation, is_consumes_artifact,
}
use comis_dev_crew.Scheduler.{InitiativeScheduleReason}
use comis_dev_crew.Scheduler.Launch.{
  artifact_of, is_current_pin, pins_current, task_pins_current_contract, task_of, is_satisfied,
  reason_of_pins, unless_reason, artifact_reason, order_reason, launch_dependency_reason,
}

-- A pin of the task names a recorded, current artifact of the producer with the pinned content.
pub record PinsCurrent (producer : Text) (kind : ContractArtifactKind)
    (artifacts : List ComponentContractArtifact) (current_handles : List Text)
    (pins : List PinnedContract) : Type 0 where
  pub pin : PinnedContract
  pub pinned : In pin pins
  pub same_pin_kind : same_kind pin.kind kind ≡ true
  pub artifact : ComponentContractArtifact
  pub recorded : artifact_of pin.artifact_handle artifacts ≡ some artifact
  pub current : In pin.artifact_handle current_handles
  pub same_producer : artifact.producer_task_handle ≡ producer
  pub same_content : artifact.content_hash ≡ pin.content_hash

module _ (producer : Text) (kind : ContractArtifactKind)
    (artifacts : List ComponentContractArtifact) (current_handles : List Text) where
  current_pin-Pins :
      (pin : PinnedContract) (pins : List PinnedContract) (found : Option ComponentContractArtifact)
      → artifact_of pin.artifact_handle artifacts ≡ found
      → same_kind pin.kind kind ≡ true
      → is_current_pin producer current_handles pin found ≡ true
      → PinsCurrent producer kind artifacts current_handles (pin ∷ pins)
  unfolding is_current_pin
  current_pin-Pins pin pins none e k h = cc
  current_pin-Pins pin pins (some artifact) e k h = record {
    pin = pin;
    pinned = In.here;
    same_pin_kind = k;
    artifact = artifact;
    recorded = e;
    current = member-In pin.artifact_handle current_handles (ground arith);
    same_producer = text_eq_sound artifact.producer_task_handle producer (ground arith);
    same_content = text_eq_sound artifact.content_hash pin.content_hash (ground arith);
  }

  PinsCurrent-there :
      (pin : PinnedContract) (pins : List PinnedContract)
      → PinsCurrent producer kind artifacts current_handles pins
      → PinsCurrent producer kind artifacts current_handles (pin ∷ pins)
  PinsCurrent-there pin pins p = record {
    pin = p.pin;
    pinned = In.there p.pinned;
    same_pin_kind = p.same_pin_kind;
    artifact = p.artifact;
    recorded = p.recorded;
    current = p.current;
    same_producer = p.same_producer;
    same_content = p.same_content;
  }

  pins_current-PinsCurrent :
      (pinned : Bool) (pins : List PinnedContract)
      → (pins_current producer kind artifacts current_handles pinned pins).1 ≡ true
      → PinsCurrent producer kind artifacts current_handles pins
  unfolding pins_current
  pins_current-PinsCurrent pinned [] h = cc
  pins_current-PinsCurrent pinned (pin ∷ pins) h =
      let found = artifact_of pin.artifact_handle artifacts in
      elim (Bool-cases (same_kind pin.kind kind)) [
        | inr other ↦
            PinsCurrent-there pin pins
              (pins_current-PinsCurrent pinned pins (rw (other, pins_current) at h))
        | inl same ↦ elim (Bool-cases (is_current_pin producer current_handles pin found)) [
          | inl current ↦ current_pin-Pins pin pins found refl same current
          | inr stale ↦
              PinsCurrent-there pin pins
                (pins_current-PinsCurrent true pins (rw (same, stale, pins_current) at h))
        ]
      ]

no_reason_of_pins :
    (p : Bool × Bool) → reason_of_pins p ≡ InitiativeScheduleReason.no_reason → p.1 ≡ true
no_reason_of_pins (true, true) h = refl
no_reason_of_pins (true, false) h = cc
no_reason_of_pins (false, current) h = cc

unless_reason-eq-no :
    (a b : InitiativeScheduleReason)
    → unless_reason a b ≡ InitiativeScheduleReason.no_reason
    → (a ≡ InitiativeScheduleReason.no_reason) × (b ≡ InitiativeScheduleReason.no_reason)
unless_reason-eq-no InitiativeScheduleReason.no_reason b h = (refl, h)
unless_reason-eq-no InitiativeScheduleReason.dependency_blocked b h = cc
unless_reason-eq-no InitiativeScheduleReason.resource_queued b h = cc
unless_reason-eq-no InitiativeScheduleReason.contract_stale b h = cc
unless_reason-eq-no InitiativeScheduleReason.integration_held b h = cc

module _ (task : Task) where
  artifact_reason-Pins :
      (artifacts : List ComponentContractArtifact) (current_handles : List Text)
      (edges : List InitiativeEdge)
      → artifact_reason task artifacts current_handles edges ≡ InitiativeScheduleReason.no_reason
      → (edge : InitiativeEdge) → In edge edges
      → edge.to_task_handle ≡ task.handle
      → is_consumes_artifact edge.kind ≡ true
      → PinsCurrent edge.from_task_handle edge.required_artifact_kind artifacts current_handles
          task.consumed_contracts
  unfolding artifact_reason task_pins_current_contract
  artifact_reason-Pins artifacts handles [] h edge m to c = elim m [ ]
  artifact_reason-Pins artifacts handles (e ∷ es) h edge m to c =
      let pins =
        task_pins_current_contract task e.from_task_handle e.required_artifact_kind artifacts
          handles in
      elim (Bool-cases
        (not (text_eq e.to_task_handle task.handle) || not (is_consumes_artifact e.kind))) [
          | inl skipped ↦ elim (In-cons m) [
            | inl same ↦
                let to_e =
                  (text_eq_iff e.to_task_handle task.handle).1
                    (ap (λ (x : InitiativeEdge). x.to_task_handle) (sym same) ∙ to) in
                let c_e = ap (λ (x : InitiativeEdge). is_consumes_artifact x.kind) (sym same) ∙ c in
                absurd (ground (arith, skipped, to_e, c_e))
            | inr k ↦
                artifact_reason-Pins artifacts handles es (rw (skipped, artifact_reason) at h) edge
                  k to c
          ]
          | inr taken ↦
              let (now, later) =
                unless_reason-eq-no (reason_of_pins pins)
                  (artifact_reason task artifacts handles es) (rw (taken, artifact_reason) at h) in
              elim (In-cons m) [
                | inl same ↦ rw same (
                    pins_current-PinsCurrent e.from_task_handle e.required_artifact_kind artifacts
                      handles false task.consumed_contracts (no_reason_of_pins pins now))
                | inr k ↦ artifact_reason-Pins artifacts handles es later edge k to c
              ]
        ]

  order_reason-satisfied :
      (owner : Text) (tasks : List Task) (edges : List InitiativeEdge)
      → order_reason owner task tasks edges ≡ InitiativeScheduleReason.no_reason
      → (edge : InitiativeEdge) → In edge edges
      → edge.to_task_handle ≡ task.handle
      → is_consumes_artifact edge.kind ≡ false
      → is_blocks_validation edge.kind ≡ false
      → is_satisfied (task_of edge.from_task_handle tasks) ≡ true
  unfolding order_reason
  order_reason-satisfied owner tasks [] h edge m to c b = elim m [ ]
  order_reason-satisfied owner tasks (e ∷ es) h edge m to c b = elim (In-cons m) [
    | inr k ↦ order_reason-satisfied owner tasks es (ground arith) edge k to c b
    | inl same ↦
        let to_e =
          (text_eq_iff e.to_task_handle task.handle).1
            (ap (λ (x : InitiativeEdge). x.to_task_handle) (sym same) ∙ to) in
        let c_e = ap (λ (x : InitiativeEdge). is_consumes_artifact x.kind) (sym same) ∙ c in
        let b_e = ap (λ (x : InitiativeEdge). is_blocks_validation x.kind) (sym same) ∙ b in
        ap (λ (x : InitiativeEdge). is_satisfied (task_of x.from_task_handle tasks)) same
        ∙ ground (arith, h, to_e, c_e, b_e)
  ]

-- Where no reason is given, every artifact that an edge hands to the task is pinned by it, recorded,
-- current and with the pinned content, and the task before it on every other edge that does not only
-- block validation is known and satisfied.
pub launchable_task_dependencies :
    (initiative : DevelopmentInitiative) (task : Task) (tasks : List Task)
    (artifacts : List ComponentContractArtifact) (current_handles : List Text)
    → launch_dependency_reason initiative task tasks artifacts current_handles
      ≡ InitiativeScheduleReason.no_reason
    → (edge : InitiativeEdge) → In edge initiative.edges
    → edge.to_task_handle ≡ task.handle
    → (is_consumes_artifact edge.kind ≡ true
        → PinsCurrent edge.from_task_handle edge.required_artifact_kind artifacts current_handles
            task.consumed_contracts)
      × (is_consumes_artifact edge.kind ≡ false
          → is_blocks_validation edge.kind ≡ false
          → is_satisfied (task_of edge.from_task_handle tasks) ≡ true)
unfolding launch_dependency_reason
launchable_task_dependencies initiative task tasks artifacts handles h edge m to =
    let (first, second) =
      unless_reason-eq-no (artifact_reason task artifacts handles initiative.edges)
        (order_reason initiative.integration_owner_task task tasks initiative.edges) h in
    (
      artifact_reason-Pins task artifacts handles initiative.edges first edge m to,
      order_reason-satisfied task initiative.integration_owner_task tasks initiative.edges second
          edge m to,
    )
