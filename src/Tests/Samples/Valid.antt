-- ===== src/Tests/Samples/Valid.antt =====
-- The sample task and report pass their validators.
use mathlib.Core.Bool.{xor}
use comis_dev_crew.Base.{◌≡◌, refl, ok, none, [], sort_by, pos}
use comis_dev_crew.Text.{
  text_eq, ascii, has_shape, is_lower, is_upper, is_digit, has_class, is_lower_hex, member,
  text_less,
}
use comis_dev_crew.Text.Utf8.{is_blank, is_control, is_space, runes, valid_utf8}
use comis_dev_crew.Platform.{format_int, quote}
use comis_dev_crew.Field.{
  validate_opaque_id, opaque_id_pattern, validate_authority_reference, authority_pattern,
  validate_revision, revision_pattern, sha256_hex_pattern, validate_bounded_safe_text,
  validate_safe_text, validate_sha256, validate_times,
}
use comis_dev_crew.Lifecycle.{
  TaskState, valid_state, allows_unbound_preparation, valid_shape, mode_text, shape_text,
  valid_for_shape, valid_mode,
}
use comis_dev_crew.Task.Brief.{
  validate_contract_text_list, brief_contracts, brief_field, brief_items, brief_list, brief_pins,
  brief_protocol, brief_revision_digest, brief_text, pins_loop, render_brief_content, sorted_pins,
  text_list_loop, validate_brief_inputs, validate_consumed_contracts,
}
use comis_dev_crew.Task.Validate.{
  validate_task, validate_identity, validate_host_binding, validate_lifecycle,
  validate_pinned_brief, validate_delivery, validate_counters,
}
use comis_dev_crew.Task.Apply.{moved}
use comis_dev_crew.Task.Report.{
  WorkerReport, WorkerReportKind, touched, counted, validate_report, valid_report_kind,
}
use comis_dev_crew.Tests.Samples.{
  sample_platform, prepared_task, bound_task, at_time, sample_digest,
}

-- The samples pass Task.Validate.
pub prepared_valid : validate_task sample_platform prepared_task ≡ ok tt
unfolding validate_task validate_identity validate_host_binding validate_lifecycle
    validate_pinned_brief validate_delivery validate_counters validate_opaque_id opaque_id_pattern
    has_shape is_lower is_digit validate_authority_reference authority_pattern is_upper xor
    valid_state allows_unbound_preparation valid_shape validate_revision revision_pattern has_class
    is_lower_hex validate_contract_text_list sort_by sha256_hex_pattern validate_bounded_safe_text
    validate_safe_text validate_sha256 validate_times mode_text shape_text valid_for_shape
    valid_mode format_int quote brief_contracts brief_field brief_items brief_list brief_pins
    brief_protocol brief_revision_digest brief_text pins_loop render_brief_content sorted_pins
    text_list_loop validate_brief_inputs validate_consumed_contracts member text_eq text_less
    is_blank is_control is_space runes valid_utf8
prepared_valid = refl

pub bound_valid : validate_task sample_platform (bound_task TaskState.prepared) ≡ ok tt
unfolding validate_task validate_identity validate_host_binding validate_lifecycle
    validate_pinned_brief validate_delivery validate_counters validate_opaque_id opaque_id_pattern
    has_shape is_lower is_digit validate_authority_reference authority_pattern is_upper xor
    valid_state allows_unbound_preparation valid_shape validate_revision revision_pattern has_class
    is_lower_hex validate_contract_text_list sort_by sha256_hex_pattern validate_bounded_safe_text
    validate_safe_text validate_sha256 validate_times mode_text shape_text valid_for_shape
    valid_mode format_int quote brief_contracts brief_field brief_items brief_list brief_pins
    brief_protocol brief_revision_digest brief_text pins_loop render_brief_content sorted_pins
    text_list_loop validate_brief_inputs validate_consumed_contracts member text_eq text_less
    is_blank is_control is_space runes valid_utf8
bound_valid = refl

pub ready_valid :
    validate_task sample_platform
      (moved (bound_task TaskState.prepared) TaskState.ready (at_time 6))
    ≡ ok tt
unfolding validate_task validate_identity validate_host_binding validate_lifecycle
    validate_pinned_brief validate_delivery validate_counters validate_opaque_id opaque_id_pattern
    has_shape is_lower is_digit validate_authority_reference authority_pattern is_upper xor
    valid_state allows_unbound_preparation valid_shape validate_revision revision_pattern has_class
    is_lower_hex validate_contract_text_list sort_by sha256_hex_pattern validate_bounded_safe_text
    validate_safe_text validate_sha256 validate_times mode_text shape_text valid_for_shape
    valid_mode format_int quote brief_contracts brief_field brief_items brief_list brief_pins
    brief_protocol brief_revision_digest brief_text pins_loop render_brief_content sorted_pins
    text_list_loop validate_brief_inputs validate_consumed_contracts member text_eq text_less
    is_blank is_control is_space runes valid_utf8
ready_valid = refl

pub working_valid : validate_task sample_platform (bound_task TaskState.working) ≡ ok tt
unfolding validate_task validate_identity validate_host_binding validate_lifecycle
    validate_pinned_brief validate_delivery validate_counters validate_opaque_id opaque_id_pattern
    has_shape is_lower is_digit validate_authority_reference authority_pattern is_upper xor
    valid_state allows_unbound_preparation valid_shape validate_revision revision_pattern has_class
    is_lower_hex validate_contract_text_list sort_by sha256_hex_pattern validate_bounded_safe_text
    validate_safe_text validate_sha256 validate_times mode_text shape_text valid_for_shape
    valid_mode format_int quote brief_contracts brief_field brief_items brief_list brief_pins
    brief_protocol brief_revision_digest brief_text pins_loop render_brief_content sorted_pins
    text_list_loop validate_brief_inputs validate_consumed_contracts member text_eq text_less
    is_blank is_control is_space runes valid_utf8
working_valid = refl

abbrev pub sample_report : WorkerReport
sample_report = record {
  schema_version = pos 1;
  local_report_id = ascii "report-one";
  brief_revision = pos 1;
  brief_revision_hash = sample_digest;
  kind = WorkerReportKind.progress;
  external_key = [];
  summary = ascii "half done";
  details = [];
  worker_observed_at = none;
}

pub report_valid : validate_report sample_report ≡ ok tt
unfolding validate_report valid_report_kind validate_task validate_identity validate_host_binding
    validate_lifecycle validate_pinned_brief validate_delivery validate_counters validate_opaque_id
    opaque_id_pattern has_shape is_lower is_digit validate_authority_reference authority_pattern
    is_upper xor valid_state allows_unbound_preparation valid_shape validate_revision
    revision_pattern has_class is_lower_hex validate_contract_text_list sort_by sha256_hex_pattern
    validate_bounded_safe_text validate_safe_text validate_sha256 validate_times mode_text
    shape_text valid_for_shape valid_mode format_int quote brief_contracts brief_field brief_items
    brief_list brief_pins brief_protocol brief_revision_digest brief_text pins_loop
    render_brief_content sorted_pins text_list_loop validate_brief_inputs
    validate_consumed_contracts member text_eq text_less is_blank is_control is_space runes
    valid_utf8
report_valid = refl

pub reported_valid :
    validate_task sample_platform (counted (touched (bound_task TaskState.working) (at_time 6)))
    ≡ ok tt
unfolding validate_task validate_identity validate_host_binding validate_lifecycle
    validate_pinned_brief validate_delivery validate_counters validate_opaque_id opaque_id_pattern
    has_shape is_lower is_digit validate_authority_reference authority_pattern is_upper xor
    valid_state allows_unbound_preparation valid_shape validate_revision revision_pattern has_class
    is_lower_hex validate_contract_text_list sort_by sha256_hex_pattern validate_bounded_safe_text
    validate_safe_text validate_sha256 validate_times mode_text shape_text valid_for_shape
    valid_mode format_int quote brief_contracts brief_field brief_items brief_list brief_pins
    brief_protocol brief_revision_digest brief_text pins_loop render_brief_content sorted_pins
    text_list_loop validate_brief_inputs validate_consumed_contracts member text_eq text_less
    is_blank is_control is_space runes valid_utf8
reported_valid = refl
