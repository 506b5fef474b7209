-- ===== src/Task/Validate/Laws.antt =====
-- Lemmas on Task.Validate of internal/domain/task.go.
use comis_dev_crew.Base.{◌≡◌, ◌∙◌, true, false, arith, ok, >>-eq-ok}
use comis_dev_crew.Text.{Text, text_eq}
use comis_dev_crew.Text.Laws.{text_eq_sound}
use comis_dev_crew.Platform.{Platform}
use comis_dev_crew.Field.{authority_pattern, validate_authority_reference}
use comis_dev_crew.Lifecycle.{allows_unbound_preparation}
use comis_dev_crew.Task.{Task}
use comis_dev_crew.Task.Brief.{brief_text, validate_brief_inputs, brief_revision_digest}
use comis_dev_crew.Task.Validate.{
  validate_task, validate_identity, validate_host_binding, validate_lifecycle,
  validate_pinned_brief, validate_delivery, validate_counters, has_run,
}

-- The six groups of checks.
pub record Groups (platform : Platform) (task : Task) : Type 0 where
  pub identity : validate_identity task ≡ ok tt
  pub host_binding : validate_host_binding task ≡ ok tt
  pub lifecycle : validate_lifecycle task ≡ ok tt
  pub pinned_brief : validate_pinned_brief platform task ≡ ok tt
  pub delivery : validate_delivery task ≡ ok tt
  pub counters : validate_counters task ≡ ok tt

module _ (platform : Platform) (task : Task) where
  pub validate_task-Groups : validate_task platform task ≡ ok tt → Groups platform task
  unfolding validate_task
  validate_task-Groups h =
      let (a, h1) = >>-eq-ok (validate_identity task) _ h in
      let (b, h2) = >>-eq-ok (validate_host_binding task) _ h1 in
      let (c, h3) = >>-eq-ok (validate_lifecycle task) _ h2 in
      let (d, h4) = >>-eq-ok (validate_pinned_brief platform task) _ h3 in
      let (e, f) = >>-eq-ok (validate_delivery task) _ h4 in
      record {
        identity = a;
        host_binding = b;
        lifecycle = c;
        pinned_brief = d;
        delivery = e;
        counters = f;
      }

  pub Groups-validate_task : Groups platform task → validate_task platform task ≡ ok tt
  unfolding validate_task
  Groups-validate_task g =
      rw (g.identity, g.host_binding, g.lifecycle, g.pinned_brief, g.delivery, g.counters)

  has_run_binding :
      validate_host_binding task ≡ ok tt
      → has_run task ≡ true
      → (authority_pattern task.managed_run_id ≡ true)
        × (authority_pattern task.workspace_lease_id ≡ true)
  unfolding validate_host_binding validate_authority_reference
  has_run_binding h r = ground arith

  lifecycle_has_run :
      validate_lifecycle task ≡ ok tt
      → allows_unbound_preparation task.state ≡ false
      → has_run task ≡ true
  unfolding validate_lifecycle
  lifecycle_has_run h u = ground arith

  -- A valid task in a state that may not be unbound carries a well-formed run and a well-formed
  -- workspace lease.
  pub active_task_is_bound :
      validate_task platform task ≡ ok tt
      → allows_unbound_preparation task.state ≡ false
      → (authority_pattern task.managed_run_id ≡ true)
        × (authority_pattern task.workspace_lease_id ≡ true)
  active_task_is_bound h u =
      let g = validate_task-Groups h in
      has_run_binding g.host_binding (lifecycle_has_run g.lifecycle u)

  pinned_digest :
      validate_pinned_brief platform task ≡ ok tt
      → (want : Text) × (brief_revision_digest platform task ≡ ok want)
        × (text_eq task.brief_revision_hash want ≡ true)
  unfolding validate_pinned_brief
  pinned_digest h = ground arith

  digest_of_text :
      (want : Text)
      → brief_revision_digest platform task ≡ ok want
      → (validate_brief_inputs task ≡ ok tt)
        × (want ≡ platform.sha256_hex (brief_text platform task))
  unfolding brief_revision_digest
  digest_of_text want h = ground arith

  -- The hash of a valid task is the digest of the brief that its own fields render.
  pub valid_task_pins_brief :
      validate_task platform task ≡ ok tt
      → task.brief_revision_hash ≡ platform.sha256_hex (brief_text platform task)
  valid_task_pins_brief h =
      let (want, digest, same) = pinned_digest (validate_task-Groups h).pinned_brief in
      text_eq_sound task.brief_revision_hash want same ∙ (digest_of_text want digest).1
