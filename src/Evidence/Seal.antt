-- ===== src/Evidence/Seal.antt =====
-- Sealing and parsing delivery evidence: SealDeliveryEvidence and ParseDeliveryEvidence of
-- internal/domain/evidence.go. encoding/json is a parameter; copying a bundle keeps its value.
use mathlib.Core.Path.{subst}
use comis_dev_crew.Base.{
  ℕ, ◌≤◌, ◌≡◌, refl, sym, ap, Bool, true, false, not, ◌||◌, Option, none, some, Result, ok, err,
  ◌>>◌, ◌>>=◌, refuse, require, is_ok, is_empty, length, ltb, String, arith, >>-eq-ok, >>=-eq-ok,
  refuse-eq-ok, ok-injective,
}
use comis_dev_crew.Text.{Text, text_eq}
use comis_dev_crew.Text.Laws.{text_eq_sound, text_eq_refl}
use comis_dev_crew.Platform.{Platform}
use comis_dev_crew.Field.{validate_sha256}
use comis_dev_crew.Evidence.{DeliveryEvidenceBundle}
use comis_dev_crew.Evidence.Validate.{validate_evidence}

-- What the source takes from encoding/json for a bundle: Marshal, a strict Decode of the first
-- value, and whether a second Decode reports the end.
pub record EvidenceCodec : Type 0 where
  pub encode : DeliveryEvidenceBundle → Option Text
  pub decode : Text → Option DeliveryEvidenceBundle
  pub at_end : Text → Bool

pub record SealedDeliveryEvidence : Type 0 where
  pub bundle : DeliveryEvidenceBundle
  pub canonical : Text
  pub digest : Text

-- `1 << 20`
abbrev max_evidence_bytes : ℕ
max_evidence_bytes = 1048576

abbrev or_error : {A : Type 0} → Option A → String → Result String A
or_error none e = err e
or_error (some a) e = ok a

module _ (platform : Platform) (codec : EvidenceCodec) where
  unfoldable pub seal_delivery_evidence :
      DeliveryEvidenceBundle → Result String SealedDeliveryEvidence
  seal_delivery_evidence bundle = do
    validate_evidence bundle
    canonical ← or_error (codec.encode bundle) "seal delivery evidence: canonical encoding failed"
    ok (record { bundle = bundle; canonical = canonical; digest = platform.sha256_hex canonical })

  unfoldable pub parse_delivery_evidence : Text → Text → Result String SealedDeliveryEvidence
  unfolding seal_delivery_evidence
  parse_delivery_evidence canonical expected_digest = do
    refuse
        (not (is_ok (validate_sha256 "evidenceDigest" expected_digest))
          || is_empty canonical
          || ltb max_evidence_bytes (length canonical))
        "parse delivery evidence: bytes or digest are invalid"
    require (text_eq (platform.sha256_hex canonical) expected_digest)
        "parse delivery evidence: content digest differs"
    bundle ← or_error (codec.decode canonical) "parse delivery evidence: content is invalid"
    require (codec.at_end canonical) "parse delivery evidence: trailing content is invalid"
    sealed ← seal_delivery_evidence bundle
    refuse (not (text_eq sealed.canonical canonical) || not (text_eq sealed.digest expected_digest))
        "parse delivery evidence: content is not canonical"
    ok sealed

-- SealDeliveryEvidence seals only a valid bundle, under the digest of its encoding.
pub record IsSealed (platform : Platform) (codec : EvidenceCodec) (sealed : SealedDeliveryEvidence)
    : Type 0 where
  pub valid : validate_evidence sealed.bundle ≡ ok tt
  pub encoded : codec.encode sealed.bundle ≡ some sealed.canonical
  pub digested : sealed.digest ≡ platform.sha256_hex sealed.canonical

module _ (platform : Platform) (codec : EvidenceCodec) where
  or_error-eq-ok :
      {A : Type 0} (found : Option A) (e : String) (a : A)
      → or_error found e ≡ ok a
      → found ≡ some a
  or_error-eq-ok none e a h = cc
  or_error-eq-ok (some b) e a h = cc

  seal-IsSealed :
      (bundle : DeliveryEvidenceBundle) (sealed : SealedDeliveryEvidence)
      → seal_delivery_evidence platform codec bundle ≡ ok sealed
      → IsSealed platform codec sealed × (sealed.bundle ≡ bundle)
  unfolding seal_delivery_evidence
  seal-IsSealed bundle sealed h =
      let (valid, h1) = >>-eq-ok (validate_evidence bundle) _ h in
      let (canonical, found, h2) = >>=-eq-ok (or_error (codec.encode bundle) _) _ h1 in
      subst (λ s. IsSealed platform codec s × (s.bundle ≡ bundle)) (ok-injective h2)
        (
          record {
            valid = valid;
            encoded = or_error-eq-ok (codec.encode bundle) _ canonical found;
            digested = refl;
          },
          refl,
        )

  IsSealed-seal :
      (sealed : SealedDeliveryEvidence)
      → IsSealed platform codec sealed
      → seal_delivery_evidence platform codec sealed.bundle ≡ ok sealed
  unfolding seal_delivery_evidence
  IsSealed-seal sealed s =
      rw (s.valid, s.encoded, seal_delivery_evidence)
        (ap (λ d. ok (record sealed { digest = d })) (sym s.digested))

  -- What ParseDeliveryEvidence accepts is sealed evidence with the bytes and the digest given.
  pub parsed_evidence-IsSealed :
      (canonical digest : Text) (sealed : SealedDeliveryEvidence)
      → parse_delivery_evidence platform codec canonical digest ≡ ok sealed
      → IsSealed platform codec sealed × (sealed.canonical ≡ canonical) × (sealed.digest ≡ digest)
  unfolding parse_delivery_evidence
  parsed_evidence-IsSealed canonical digest sealed h =
      let (a, h1) =
        >>-eq-ok
          (refuse
            (not (is_ok (validate_sha256 "evidenceDigest" digest))
              || is_empty canonical
              || ltb max_evidence_bytes (length canonical))
            "parse delivery evidence: bytes or digest are invalid")
          _ h in
      let (b, h2) = >>-eq-ok (require (text_eq (platform.sha256_hex canonical) digest) _) _ h1 in
      let (bundle, c, h3) = >>=-eq-ok (or_error (codec.decode canonical) _) _ h2 in
      let (d, h4) = >>-eq-ok (require (codec.at_end canonical) _) _ h3 in
      let (found, e, h5) = >>=-eq-ok (seal_delivery_evidence platform codec bundle) _ h4 in
      let (f, h6) =
        >>-eq-ok
          (refuse (not (text_eq found.canonical canonical) || not (text_eq found.digest digest)) _)
          _ h5 in
      let unrefused =
        refuse-eq-ok (not (text_eq found.canonical canonical) || not (text_eq found.digest digest))
          _ f in
      subst (λ s. IsSealed platform codec s × (s.canonical ≡ canonical) × (s.digest ≡ digest))
        (ok-injective h6)
        (
          (seal-IsSealed bundle found e).0,
          text_eq_sound found.canonical canonical (ground arith),
          text_eq_sound found.digest digest (ground arith),
        )

  -- Sealed evidence parses back, where decoding reads what encoding wrote, the digest has its form
  -- and the bytes are within the bound.
  pub seal-parse :
      (bundle : DeliveryEvidenceBundle) (sealed : SealedDeliveryEvidence)
      → seal_delivery_evidence platform codec bundle ≡ ok sealed
      → codec.decode sealed.canonical ≡ some bundle
      → codec.at_end sealed.canonical ≡ true
      → is_ok (validate_sha256 "evidenceDigest" sealed.digest) ≡ true
      → is_empty sealed.canonical ≡ false
      → length sealed.canonical ≤ max_evidence_bytes
      → parse_delivery_evidence platform codec sealed.canonical sealed.digest ≡ ok sealed
  unfolding parse_delivery_evidence
  seal-parse bundle sealed h decodes ends form full bound =
      let digested = (seal-IsSealed bundle sealed h).0.digested in
      let same : text_eq (platform.sha256_hex sealed.canonical) sealed.digest ≡ true =
        subst (λ d. text_eq d sealed.digest ≡ true) digested (text_eq_refl sealed.digest) in
      ground (
        arith,
        h,
        decodes,
        ends,
        form,
        full,
        bound,
        same,
        text_eq_refl sealed.canonical,
        text_eq_refl sealed.digest,
      )
