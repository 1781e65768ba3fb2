-- ===== src/Agent/Evidence.antt =====
-- What the errors of `_validate_diagnosis` say of a diagnosis.
use Prim.Native.String.{compare}
use Prim.Native.Nat.{Ordering}
use e_commerce_agent.Base.{
  ◌≡◌, ◌≢◌, ◌↔◌, refl, String, true, false, some, List, [], ◌∷◌, ◌++◌, any, ◌==◌, eq_iff, arith,
  All, Any, append-nil→left, any→Any, Any→any, Bool-cases, Option-cases, inl, inr,
}
use e_commerce_agent.Domain.{Finding, Diagnosis, ProductPatch}
use e_commerce_agent.Agent.Diagnosis.{
  is_fact, is_empty, unsupported_error, unknown_error, add, unknown, finding_errors, supports_patch,
  patch_errors, diagnosis_errors,
}

-- Every citation names evidence that was seen, and a fact cites some.
pub record IsGrounded (known : List String) (f : Finding) : Type 0 where
  pub cites : f.kind ≡ "fact" → f.evidence_ids ≢ []
  pub seen : All (λ e. Any (λ k. k ≡ e) known) f.evidence_ids

-- A fact about the content that cites evidence.
pub record IsContentFact (f : Finding) : Type 0 where
  pub content : f.category ≡ "content"
  pub fact : f.kind ≡ "fact"
  pub cites : f.evidence_ids ≢ []

pub record IsSupported (known : List String) (d : Diagnosis) : Type 0 where
  pub grounded : All (IsGrounded known) d.findings
  pub patched :
      (patch : ProductPatch) → d.proposed_patch ≡ some patch → Any IsContentFact d.findings

add-not_nil : (e : String) (l : List String) → add e l ≢ []
unfolding add
add-not_nil e [] h = ground arith
add-not_nil e (x ∷ xs) h = elim (compare e x) [
  | Ordering.lt ↦ ground arith
  | Ordering.eq ↦ ground arith
  | Ordering.gt ↦ ground arith
]

module _ (known : List String) where
  abbrev IsSeen : String → Type 0
  IsSeen e = Any (λ k. k ≡ e) known

  unknown-nil→All : (ids : List String) → unknown known ids ≡ [] → All IsSeen ids
  unfolding unknown
  unknown-nil→All [] h = tt
  unknown-nil→All (e ∷ ids) h = elim (Bool-cases (any (λ k. k == e) known)) [
    | inl seen ↦ (
      any→Any (λ k. k == e) (λ k. k ≡ e) (λ k same. (eq_iff k e).0 same) known seen,
      unknown-nil→All ids (ground arith),
    )
    | inr unseen ↦ absurd (ground (arith, add-not_nil e (unknown known ids)))
  ]

  All→unknown-nil : (ids : List String) → All IsSeen ids → unknown known ids ≡ []
  unfolding unknown
  All→unknown-nil [] h = refl
  All→unknown-nil (e ∷ ids) h =
      rw (Any→any (λ k. k == e) (λ k. k ≡ e) (λ k same. (eq_iff k e).1 same) known h.0)
        (All→unknown-nil ids h.1)

  is_empty→eq : (l : List String) → is_empty l ≡ false → l ≢ []
  is_empty→eq [] h = λ e. ground arith
  is_empty→eq (x ∷ xs) h = λ e. ground arith

  eq→is_empty : (l : List String) → l ≢ [] → is_empty l ≡ false
  eq→is_empty [] h = absurd (h refl)
  eq→is_empty (x ∷ xs) h = refl

  unknown_error-nil : (l : List String) → unknown_error l ≡ [] → l ≡ []
  unknown_error-nil [] h = refl
  unknown_error-nil (x ∷ l) h = absurd (ground arith)

  cited-nil : (f : Finding) → unsupported_error f ≡ [] → f.kind ≡ "fact" → f.evidence_ids ≢ []
  cited-nil f h fact none_ = ground (arith, (eq_iff f.kind "fact").1 fact)

  finding_errors-head :
      (f : Finding) (fs : List Finding)
      → finding_errors known (f ∷ fs) ≡ []
      → IsGrounded known f × (finding_errors known fs ≡ [])
  unfolding finding_errors
  finding_errors-head f fs h =
      let cited = unsupported_error f in
      let seen = unknown_error (unknown known f.evidence_ids) in
      let parts = append-nil→left (cited ++ seen) (finding_errors known fs) h in
      let here = append-nil→left cited seen parts.0 in
      (
        record {
          cites = cited-nil f here.0;
          seen =
              unknown-nil→All f.evidence_ids
                (unknown_error-nil (unknown known f.evidence_ids) here.1);
        },
        parts.1,
      )

  finding_errors→All :
      (fs : List Finding) → finding_errors known fs ≡ [] → All (IsGrounded known) fs
  finding_errors→All [] h = tt
  finding_errors→All (f ∷ fs) h =
      let (here, later) = finding_errors-head f fs h in (here, finding_errors→All fs later)

  All→finding_errors :
      (fs : List Finding) → All (IsGrounded known) fs → finding_errors known fs ≡ []
  unfolding finding_errors
  All→finding_errors [] h = refl
  All→finding_errors (f ∷ fs) (here, later) = elim (Bool-cases (is_fact f)) [
    | inl fact ↦ rw fact (
        rw (eq→is_empty f.evidence_ids (here.cites ((eq_iff f.kind "fact").0 fact)))
          (rw (All→unknown-nil f.evidence_ids here.seen) (All→finding_errors fs later)))
    | inr other ↦
        rw other (rw (All→unknown-nil f.evidence_ids here.seen) (All→finding_errors fs later))
  ]

supports_patch→IsContentFact : (f : Finding) → supports_patch f ≡ true → IsContentFact f
supports_patch→IsContentFact f h = record {
  content = ground (arith, (eq_iff f.category "content"));
  fact = ground (arith, (eq_iff f.kind "fact"));
  cites = is_empty→eq [] f.evidence_ids (ground arith);
}

IsContentFact→supports_patch : (f : Finding) → IsContentFact f → supports_patch f ≡ true
IsContentFact→supports_patch f h = ground (
  arith,
  (eq_iff f.category "content").1 h.content,
  (eq_iff f.kind "fact").1 h.fact,
  eq→is_empty [] f.evidence_ids h.cites,
)

module _ (known : List String) (d : Diagnosis) where
  patched_by :
      (patch : ProductPatch)
      → d.proposed_patch ≡ some patch
      → patch_errors d ≡ []
      → any supports_patch d.findings ≡ true
  unfolding patch_errors
  patched_by patch is_patch h = ground arith

  supported : diagnosis_errors known d ≡ [] → IsSupported known d
  unfolding diagnosis_errors patch_errors
  supported h =
      let parts = append-nil→left (finding_errors known d.findings) (patch_errors d) h in
      record {
        grounded = finding_errors→All known d.findings parts.0;
        patched = λ patch is_patch.
            any→Any supports_patch IsContentFact supports_patch→IsContentFact d.findings
              (patched_by patch is_patch parts.1);
      }

  without_errors : IsSupported known d → diagnosis_errors known d ≡ []
  unfolding diagnosis_errors patch_errors
  without_errors h =
      rw (All→finding_errors known d.findings h.grounded) (elim (Option-cases d.proposed_patch) [
        | inl no_patch ↦ rw no_patch refl
        | inr (patch, is_patch) ↦ rw is_patch (
            rw
              (Any→any supports_patch IsContentFact IsContentFact→supports_patch d.findings
                (h.patched patch is_patch))
              refl)
      ])

-- A diagnosis passes the validation exactly if each of its findings cites only evidence that was
-- seen, each fact cites some, and a proposed patch comes with a fact about the content that cites
-- some.
pub diagnosis_errors_iff :
    (known : List String) (d : Diagnosis) → (diagnosis_errors known d ≡ []) ↔ IsSupported known d
diagnosis_errors_iff known d = (supported known d, without_errors known d)
