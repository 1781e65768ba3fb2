-- ===== src/Agent/Diagnosis.antt =====
-- `_validate_diagnosis` of agent/graph.py: a diagnosis rests on evidence.
use Prim.Native.String.{compare}
use Prim.Native.Nat.{Ordering}
use e_commerce_agent.Base.{
  String, ◌<>◌, Bool, true, false, not, ◌&&◌, none, some, List, [], ◌∷◌, ◌++◌, any, ◌==◌,
  if◌then◌else◌,
}
use e_commerce_agent.Domain.{Finding, Diagnosis}

abbrev pub is_fact : Finding → Bool
is_fact f = f.kind == "fact"

abbrev pub is_empty : List String → Bool
is_empty [] = true
is_empty (x ∷ xs) = false

-- A sorted list without repetitions, and one text more: `sorted` of a set.
unfoldable pub add : String → List String → List String
add e [] = e ∷ []
add e (x ∷ xs) = elim (compare e x) [
  | Ordering.lt ↦ e ∷ x ∷ xs
  | Ordering.eq ↦ x ∷ xs
  | Ordering.gt ↦ x ∷ add e xs
]

-- `sorted(set(ids) - known)`
unfoldable pub unknown : List String → List String → List String
unfolding add
unknown known [] = []
unknown known (e ∷ ids) =
    let rest = unknown known ids in if any (λ k. k == e) known then rest else add e rest

-- `separator.join(texts)`
unfoldable pub join : String → List String → String
join separator [] = ""
join separator (x ∷ []) = x
join separator (x ∷ y ∷ ys) = x <> (separator <> join separator (y ∷ ys))

abbrev pub unknown_error : List String → List String
unknown_error [] = []
unknown_error (e ∷ es) = ("引用了不存在的证据：" <> join ", " (e ∷ es)) ∷ []

abbrev pub unsupported_error : Finding → List String
unsupported_error f =
    if is_fact f && is_empty f.evidence_ids then ("事实结论缺少证据：" <> f.statement) ∷ [] else []

unfoldable pub finding_errors : List String → List Finding → List String
finding_errors known [] = []
finding_errors known (f ∷ fs) =
    (unsupported_error f ++ unknown_error (unknown known f.evidence_ids)) ++ finding_errors known fs

-- A finding that supports a patch of the description.
abbrev pub supports_patch : Finding → Bool
supports_patch f = (f.category == "content" && is_fact f) && not (is_empty f.evidence_ids)

unfoldable pub patch_errors : Diagnosis → List String
patch_errors d = elim d.proposed_patch [
  | none ↦ []
  | some patch ↦ if any supports_patch d.findings then [] else "商品详情修改缺少有证据支持的内容事实" ∷ []
]

unfoldable pub diagnosis_errors : List String → Diagnosis → List String
diagnosis_errors known d = finding_errors known d.findings ++ patch_errors d
