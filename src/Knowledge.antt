-- ===== src/Knowledge.antt =====
-- The knowledge base of rag/knowledge_base.py: the table documents, and excerpts of what is found.
pub mod Excerpt
pub mod Search
use e_commerce_agent.Base.{
  ◌≡◌, refl, sym, ap, subst, ◌∙◌, ℕ, String, Bool, true, false, not, Option, none, some, List, [],
  ◌∷◌, ◌==◌, eq_iff, eq_refl, select, arith, Bool-cases, inl, inr, if◌then◌else◌,
}
use e_commerce_agent.Base.Json.{Json, str, obj, Fields, end, field}

pub record Document : Type 0 where
  pub document_id : String
  pub title : String
  pub content : String
  pub metadata : List (String × String)
  pub updated_at : ℕ

abbrev pub has_id : String → Document → Bool
has_id document_id d = d.document_id == document_id

-- `metadata.get(key)`
unfoldable pub metadata_get : String → List (String × String) → Option String
metadata_get key [] = none
metadata_get key ((k, v) ∷ rest) = if k == key then some v else metadata_get key rest

abbrev metadata_fields : List (String × String) → Fields
metadata_fields [] = end
metadata_fields ((k, v) ∷ rest) = field k (str v) (metadata_fields rest)

-- What the digest is taken of: the source, where there is one.
abbrev all_of : String → String → List (String × String) → Json
all_of title content metadata = obj (
    field "title" (str title)
      (field "content" (str content) (field "metadata" (obj (metadata_fields metadata)) end)))

abbrev identity_by : Option String → Json → Json
identity_by none whole = whole
identity_by (some source) whole =
    if source == "" then whole else obj (field "source" (str source) end)

unfoldable pub identity : String → String → List (String × String) → Json
unfolding metadata_get
identity title content metadata =
    identity_by (metadata_get "source" metadata) (all_of title content metadata)

-- `INSERT INTO documents … ON CONFLICT(document_id) DO UPDATE`
unfoldable pub upsert : Document → List Document → List Document
upsert d [] = d ∷ []
upsert d (x ∷ xs) = if x.document_id == d.document_id then d ∷ xs else x ∷ upsert d xs

-- No two rows have one id.
abbrev pub IsKeyed : List Document → Type 0
IsKeyed [] = Unit
IsKeyed (x ∷ xs) = (select (has_id x.document_id) xs ≡ none) × IsKeyed xs

eq_symm : (a b : String) → (a == b) ≡ false → (b == a) ≡ false
eq_symm a b apart = elim (Bool-cases (b == a)) [
  | inl same ↦ absurd (
      let clash : true ≡ false = sym (rw ((eq_iff b a).0 same) (eq_refl a)) ∙ apart in ground arith)
  | inr other ↦ other
]

select-upsert :
    (d : Document) (rows : List Document) → select (has_id d.document_id) (upsert d rows) ≡ some d
unfolding upsert select
select-upsert d [] = rw (eq_refl d.document_id) refl
select-upsert d (x ∷ xs) = ground (arith, eq_refl d.document_id, select-upsert d xs)

select-upsert_other :
    (id : String) (d : Document) (rows : List Document)
    → (d.document_id == id) ≡ false
    → select (has_id id) (upsert d rows) ≡ select (has_id id) rows
unfolding upsert select
select-upsert_other id d [] other = rw other refl
select-upsert_other id d (x ∷ xs) other = elim (Bool-cases (x.document_id == d.document_id)) [
  | inl same ↦
      let apart : (x.document_id == id) ≡ false =
        rw ((eq_iff x.document_id d.document_id).0 same) other in
      rw (same, other, apart) refl
  | inr apart ↦ rw (apart, select-upsert_other id d xs other) refl
]

upsert-IsKeyed : (d : Document) (rows : List Document) → IsKeyed rows → IsKeyed (upsert d rows)
unfolding upsert select
upsert-IsKeyed d [] h = (refl, tt)
upsert-IsKeyed d (x ∷ xs) h = elim (Bool-cases (x.document_id == d.document_id)) [
  | inl same ↦ rw same (
    subst (λ i. select (has_id i) xs ≡ none) ((eq_iff x.document_id d.document_id).0 same) h.0,
    h.1,
  )
  | inr apart ↦
      let other : (d.document_id == x.document_id) ≡ false =
        eq_symm x.document_id d.document_id apart in
      rw apart (select-upsert_other x.document_id d xs other ∙ h.0, upsert-IsKeyed d xs h.1)
]

module _ (sha256 : String → String) (dumps_sorted : Json → String) where
  -- `_add_document_sync`, at the time `now`
  unfoldable pub add_document :
      ℕ → String → String → List (String × String) → List Document → String × List Document
  unfolding identity upsert
  add_document now title content metadata rows =
      let digest = sha256 (dumps_sorted (identity title content metadata)) in
      (
        digest,
        upsert
            (record {
              document_id = digest;
              title = title;
              content = content;
              metadata = metadata;
              updated_at = now;
            })
            rows,
      )

  -- What is added is found by the digest that is returned, as it was given and in place of any earlier
  -- row with that digest; no other row changes; and the ids of the rows stay distinct.
  pub add_document-found :
      (now : ℕ) (title content : String) (metadata : List (String × String)) (rows : List Document)
      → IsKeyed rows
      → (let (digest, rows') = add_document now title content metadata rows in
          (select (has_id digest) rows'
            ≡ some (record {
              document_id = digest;
              title = title;
              content = content;
              metadata = metadata;
              updated_at = now;
            }))
          × ((id : String)
              → (digest == id) ≡ false
              → select (has_id id) rows' ≡ select (has_id id) rows)
          × IsKeyed rows')
  unfolding add_document
  add_document-found now title content metadata rows keyed = (
    select-upsert _ rows,
    λ id other. select-upsert_other id _ rows other,
    upsert-IsKeyed _ rows keyed,
  )
