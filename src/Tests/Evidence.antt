-- ===== src/Tests/Evidence.antt =====
-- Sealed evidence and its judge.
use comis_dev_crew.Base.{◌≡◌, refl, ok, none, some, [], ◌∷◌, true, pos, arith, is_ok}
use comis_dev_crew.Text.{
  text_eq, ascii, has_shape, is_lower, is_upper, is_digit, has_class, is_lower_hex, member,
  contains_any,
}
use comis_dev_crew.Text.Utf8.{is_space, runes, is_trimmed}
use comis_dev_crew.Field.{
  validate_opaque_id, opaque_id_pattern, validate_authority_reference, authority_pattern,
  revision_pattern, validate_sha256, sha256_hex_pattern,
}
use comis_dev_crew.Task.Validate.{validate_task}
use comis_dev_crew.Evidence.{
  WorktreeCleanliness, CandidateUnverifiedReason, CheckConclusion, ValidationEvidenceReceipt,
  ForgeEvidence, DeliveryEvidenceBundle, valid_conclusion,
}
use comis_dev_crew.Evidence.Validate.{
  validate_evidence, valid_head, receipts_loop, validate_validation_receipt, validate_forge,
  validate_forge_evidence, forge_checks_loop, validate_report_artifact,
}
use comis_dev_crew.Evidence.Seal.{
  EvidenceCodec, SealedDeliveryEvidence, IsSealed, seal_delivery_evidence, parse_delivery_evidence,
  parsed_evidence-IsSealed, seal-parse,
}
use comis_dev_crew.Judge.{
  CandidateJudgeInput, CandidateOutcome, judge_candidate, judge_evidence, judge_bundle, judge_shape,
  judge_ship_candidate, judge_forge, forge_loop, judge_forge_check, conclusion_of,
  required_validation_judgment, local_loop, judge_receipt, judge_local, receipt_of,
  has_duplicate_names, duplicates_loop,
}
use comis_dev_crew.Judge.Laws.{IsConclusive, accepted_candidate-IsConclusive}
use comis_dev_crew.Tests.Samples.{
  sample_base, sample_head, sample_digest, at_time, sample_platform, prepared_task,
}
use comis_dev_crew.Tests.Samples.Valid.{prepared_valid}

abbrev pub sample_receipt : ValidationEvidenceReceipt
sample_receipt = record {
  check_id = ascii "unit-tests";
  program_id = ascii "go-test";
  head_revision = sample_head;
  conclusion = CheckConclusion.passed;
  required = true;
  output_hash = sample_digest;
  started_at = at_time 10;
  completed_at = at_time 20;
}

abbrev pub sample_forge : ForgeEvidence
sample_forge = record {
  repository = ascii "repo-one";
  pull_request_id = ascii "pull-7";
  branch = ascii "work";
  head_revision = sample_head;
  check_conclusions = record { name = ascii "ci"; conclusion = CheckConclusion.passed } ∷ [];
}

abbrev pub sample_bundle : DeliveryEvidenceBundle
sample_bundle = record {
  schema_version = pos 1;
  task_handle = ascii "task-one";
  repository_identity = ascii "repo-one";
  base_revision = sample_base;
  head_revision = sample_head;
  worktree_cleanliness = WorktreeCleanliness.clean;
  unverified_reason = CandidateUnverifiedReason.no_reason;
  validation_receipts = sample_receipt ∷ [];
  forge_evidence = some sample_forge;
  report_artifact = none;
  unresolved_decision_count = pos 0;
  produced_at = at_time 30;
  expires_at = at_time 90;
}

-- A codec that knows one bundle.
abbrev pub sample_codec : EvidenceCodec
sample_codec = record {
  encode = λ bundle. some (ascii "{}");
  decode = λ text. some sample_bundle;
  at_end = λ text. true;
}

abbrev pub sample_sealed : SealedDeliveryEvidence
sample_sealed = record { bundle = sample_bundle; canonical = ascii "{}"; digest = sample_digest }

bundle_valid : validate_evidence sample_bundle ≡ ok tt
unfolding validate_evidence valid_head receipts_loop validate_validation_receipt validate_forge
    validate_forge_evidence forge_checks_loop validate_report_artifact valid_conclusion
    validate_opaque_id opaque_id_pattern validate_authority_reference authority_pattern
    revision_pattern validate_sha256 sha256_hex_pattern has_shape has_class is_lower is_upper
    is_digit is_lower_hex member text_eq contains_any is_trimmed runes is_space
bundle_valid = refl

sample_seals : seal_delivery_evidence sample_platform sample_codec sample_bundle ≡ ok sample_sealed
unfolding seal_delivery_evidence
sample_seals = rw bundle_valid

digest_formed : is_ok (validate_sha256 "evidenceDigest" sample_digest) ≡ true
unfolding validate_sha256 sha256_hex_pattern has_class is_lower_hex
digest_formed = refl

seal-parse_example :
    parse_delivery_evidence sample_platform sample_codec (ascii "{}") sample_digest
    ≡ ok sample_sealed
seal-parse_example =
    seal-parse sample_platform sample_codec sample_bundle sample_sealed sample_seals refl refl
      digest_formed refl (omega arith)

pub sample_parses :
    parse_delivery_evidence sample_platform sample_codec (ascii "{}") sample_digest
    ≡ ok sample_sealed
unfolding parse_delivery_evidence text_eq
sample_parses = rw (digest_formed, sample_seals)

parsed_evidence-IsSealed_example :
    IsSealed sample_platform sample_codec sample_sealed
    × (ascii "{}" ≡ ascii "{}")
    × (sample_digest ≡ sample_digest)
parsed_evidence-IsSealed_example =
    parsed_evidence-IsSealed sample_platform sample_codec (ascii "{}") sample_digest sample_sealed
      sample_parses

abbrev sample_input : CandidateJudgeInput
sample_input = record {
  task = prepared_task;
  evidence = some sample_sealed;
  required_local_checks = ascii "unit-tests" ∷ [];
  required_forge_checks = ascii "ci" ∷ [];
  now = at_time 40;
}

sample_accepted : (judge_candidate sample_platform sample_input).outcome ≡ CandidateOutcome.accepted
unfolding judge_candidate judge_evidence judge_bundle judge_shape judge_ship_candidate judge_forge
    forge_loop judge_forge_check conclusion_of required_validation_judgment local_loop judge_receipt
    judge_local receipt_of has_duplicate_names duplicates_loop text_eq member
sample_accepted = rw prepared_valid

accepted_candidate-IsConclusive_example :
    (validate_task sample_platform prepared_task ≡ ok tt)
    × (sealed : SealedDeliveryEvidence) × (some sample_sealed ≡ some sealed)
    × IsConclusive sample_input sealed.bundle
accepted_candidate-IsConclusive_example =
    accepted_candidate-IsConclusive sample_platform sample_input sample_accepted
