-- ===== src/Judge/Checks.antt =====
-- Lemmas on the loops over required checks of internal/domain/candidate_judge.go.
use mathlib.Core.Path.{subst}
use comis_dev_crew.Base.{
  some-injective, ◌≡◌, refl, ◌∙◌, inl, inr, Bool, false, List, [], ◌∷◌, Option, none, some, arith,
  In, In-cons, Bool-cases, Option-cases,
}
use comis_dev_crew.Text.{Text, text_eq}
use comis_dev_crew.Text.Laws.{text_eq_sound}
use comis_dev_crew.Evidence.{
  CheckConclusion, DeliveryEvidenceBundle, ForgeCheckEvidence, ForgeEvidence,
  ValidationEvidenceReceipt,
}
use comis_dev_crew.Judge.{
  is_accepted, CandidateJudgment, receipt_of, conclusion_of, judge_local, judge_receipt, or_else,
  local_loop, judge_forge_check, forge_loop,
}

abbrev pub HasReceipt : DeliveryEvidenceBundle → Text → CheckConclusion → Type 0
HasReceipt bundle check_id conclusion =
    (receipt : ValidationEvidenceReceipt) × In receipt bundle.validation_receipts
    × (receipt.check_id ≡ check_id)
    × (receipt.head_revision ≡ bundle.head_revision)
    × (receipt.conclusion ≡ conclusion)

abbrev pub HasForgeCheck : ForgeEvidence → Text → CheckConclusion → Type 0
HasForgeCheck forge name conclusion =
    (check : ForgeCheckEvidence) × In check forge.check_conclusions
    × (check.name ≡ name)
    × (check.conclusion ≡ conclusion)

In-receipt_of :
    (check_id : Text) (receipts : List ValidationEvidenceReceipt)
    (receipt : ValidationEvidenceReceipt)
    → receipt_of check_id receipts ≡ some receipt
    → In receipt receipts × (receipt.check_id ≡ check_id)
unfolding receipt_of
In-receipt_of check_id [] receipt h = cc
In-receipt_of check_id (r ∷ rs) receipt h = elim (Option-cases (receipt_of check_id rs)) [
  | inr (later, found) ↦
      let (m, e) = In-receipt_of check_id rs receipt (found ∙ rw (found, receipt_of) at h) in
      (In.there m, e)
  | inl missing ↦ elim (Bool-cases (text_eq r.check_id check_id)) [
    | inl same ↦
        subst (λ x. In x (r ∷ rs) × (x.check_id ≡ check_id))
          (some-injective (rw (missing, same, receipt_of) at h))
          (In.here, text_eq_sound r.check_id check_id same)
    | inr other ↦ absurd (cc (rw (missing, other, receipt_of) at h))
  ]
]

In-conclusion_of :
    (name : Text) (checks : List ForgeCheckEvidence) (conclusion : CheckConclusion)
    → conclusion_of name checks ≡ some conclusion
    → (check : ForgeCheckEvidence) × In check checks
      × (check.name ≡ name)
      × (check.conclusion ≡ conclusion)
unfolding conclusion_of
In-conclusion_of name [] conclusion h = cc
In-conclusion_of name (c ∷ cs) conclusion h = elim (Option-cases (conclusion_of name cs)) [
  | inr (later, found) ↦
      let (check, m, e, f) =
        In-conclusion_of name cs conclusion (found ∙ rw (found, conclusion_of) at h) in
      (check, In.there m, e, f)
  | inl missing ↦ elim (Bool-cases (text_eq c.name name)) [
    | inl same ↦ (
      c,
      In.here,
      text_eq_sound c.name name same,
      some-injective (rw (missing, same, conclusion_of) at h),
    )
    | inr other ↦ absurd (cc (rw (missing, other, conclusion_of) at h))
  ]
]

passed_local :
    (conclusion : CheckConclusion)
    → judge_local conclusion ≡ none
    → conclusion ≡ CheckConclusion.passed
unfolding judge_local
passed_local CheckConclusion.passed h = refl
passed_local _ h = cc

passed_receipt :
    (bundle : DeliveryEvidenceBundle) (check_id : Text) (found : Option ValidationEvidenceReceipt)
    → receipt_of check_id bundle.validation_receipts ≡ found
    → judge_receipt bundle.head_revision found ≡ none
    → HasReceipt bundle check_id CheckConclusion.passed
unfolding judge_receipt
passed_receipt bundle check_id none e h = cc
passed_receipt bundle check_id (some receipt) e h =
    let (m, same) = In-receipt_of check_id bundle.validation_receipts receipt e in
    (
      receipt,
      m,
      same,
      text_eq_sound receipt.head_revision bundle.head_revision (ground arith),
      passed_local receipt.conclusion (ground arith),
    )

or_else-eq-none : (a b : Option CandidateJudgment) → or_else a b ≡ none → (a ≡ none) × (b ≡ none)
or_else-eq-none none b h = (refl, h)
or_else-eq-none (some j) b h = cc

-- Without a judgment, every required local check has a receipt that it passed at the head.
pub local_loop_passed :
    (bundle : DeliveryEvidenceBundle) (required : List Text)
    → local_loop bundle required ≡ none
    → (check_id : Text) → In check_id required
    → HasReceipt bundle check_id CheckConclusion.passed
unfolding local_loop
local_loop_passed bundle [] h check_id m = elim m [ ]
local_loop_passed bundle (r ∷ rs) h check_id m =
    let found = receipt_of r bundle.validation_receipts in
    let (now, later) =
      or_else-eq-none (judge_receipt bundle.head_revision found) (local_loop bundle rs) h in
    elim (In-cons m) [
      | inl e ↦ rw e (passed_receipt bundle r found refl now)
      | inr k ↦ local_loop_passed bundle rs later check_id k
    ]

passed_forge :
    (found : Option CheckConclusion)
    → judge_forge_check found ≡ none
    → found ≡ some CheckConclusion.passed
unfolding judge_forge_check
passed_forge none h = cc
passed_forge (some CheckConclusion.passed) h = refl
passed_forge (some _) h = cc

-- Without a judgment, every required forge check is recorded as passed.
pub forge_loop_passed :
    (forge : ForgeEvidence) (required : List Text)
    → forge_loop forge required ≡ none
    → (name : Text) → In name required
    → HasForgeCheck forge name CheckConclusion.passed
unfolding forge_loop
forge_loop_passed forge [] h name m = elim m [ ]
forge_loop_passed forge (r ∷ rs) h name m =
    let found = conclusion_of r forge.check_conclusions in
    let (now, later) = or_else-eq-none (judge_forge_check found) (forge_loop forge rs) h in
    elim (In-cons m) [
      | inl e ↦ rw e (
          In-conclusion_of r forge.check_conclusions CheckConclusion.passed
            (passed_forge found now))
      | inr k ↦ forge_loop_passed forge rs later name k
    ]

-- Whether a judgment that ends the loop accepts.
abbrev pub accepts : Option CandidateJudgment → Bool
accepts none = false
accepts (some judgment) = is_accepted judgment.outcome

receipt_never_accepts :
    (head : Text) (found : Option ValidationEvidenceReceipt)
    → accepts (judge_receipt head found) ≡ false
unfolding judge_receipt judge_local
receipt_never_accepts head none = refl
receipt_never_accepts head (some receipt) = ground arith

or_else_never_accepts :
    (a b : Option CandidateJudgment)
    → accepts a ≡ false
    → accepts b ≡ false
    → accepts (or_else a b) ≡ false
or_else_never_accepts none b ha hb = hb
or_else_never_accepts (some j) b ha hb = ha

pub local_loop_never_accepts :
    (bundle : DeliveryEvidenceBundle) (required : List Text)
    → accepts (local_loop bundle required) ≡ false
unfolding local_loop
local_loop_never_accepts bundle [] = refl
local_loop_never_accepts bundle (r ∷ rs) =
    let found = receipt_of r bundle.validation_receipts in
    or_else_never_accepts (judge_receipt bundle.head_revision found) (local_loop bundle rs)
      (receipt_never_accepts bundle.head_revision found) (local_loop_never_accepts bundle rs)

forge_check_never_accepts :
    (found : Option CheckConclusion) → accepts (judge_forge_check found) ≡ false
unfolding judge_forge_check
forge_check_never_accepts none = refl
forge_check_never_accepts (some CheckConclusion.passed) = refl
forge_check_never_accepts (some CheckConclusion.failed) = refl
forge_check_never_accepts (some _) = refl

pub forge_loop_never_accepts :
    (forge : ForgeEvidence) (required : List Text) → accepts (forge_loop forge required) ≡ false
unfolding forge_loop
forge_loop_never_accepts forge [] = refl
forge_loop_never_accepts forge (r ∷ rs) =
    let found = conclusion_of r forge.check_conclusions in
    or_else_never_accepts (judge_forge_check found) (forge_loop forge rs)
      (forge_check_never_accepts found) (forge_loop_never_accepts forge rs)
