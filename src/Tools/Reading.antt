-- ===== src/Tools/Reading.antt =====
-- The tools of tools/builtin.py that read: `RagSearchTool` and `MetricsTool`.
use e_commerce_agent.Base.{
  ℕ, ◌≤◌, min, max, String, none, some, List, [], ◌∷◌, ◌==◌, length, arith, if◌then◌else◌,
}
use e_commerce_agent.Base.Int.{ℤ, pos, negsuc}
use e_commerce_agent.Base.Json.{
  Json, num, str, arr, obj, Items, nil, cons, Fields, end, field, get_field, text_of,
}
use e_commerce_agent.Commerce.{Database}
use e_commerce_agent.Commerce.Funnel.{Arithmetic}
use e_commerce_agent.Commerce.Metrics.{get_metrics}
use e_commerce_agent.Errors.{Result, ok, err, value_error}
use e_commerce_agent.Knowledge.{Document}
use e_commerce_agent.Knowledge.Search.{Scores, RetrievedDocument, search}
use e_commerce_agent.Knowledge.Search.Rank.{search-Ranked}

-- `arguments.get(key, default)`
abbrev argument : Json → String → Fields → Json
argument default_ key arguments = elim (get_field key arguments) [ none ↦ default_ | some v ↦ v ]

-- `min(max(int(limit_value), 1), 8)`
unfoldable pub clamp_limit : ℤ → ℕ
clamp_limit (pos n) = min (max n 1) 8
clamp_limit (negsuc n) = 1

clamp_limit-bounds : (n : ℤ) → (1 ≤ clamp_limit n) × (clamp_limit n ≤ 8)
unfolding clamp_limit
clamp_limit-bounds (pos n) = (omega arith, omega arith)
clamp_limit-bounds (negsuc n) = (omega arith, omega arith)

module _ (s : Scores) (tokenize : String → List String) (excerpt : String → String → String)
    (shown : s.Float → Json) (repr : Json → String) (strip : String → String)
    (int : Json → Result ℤ) where
  abbrev Hit : Type 0
  Hit = RetrievedDocument s tokenize excerpt

  abbrev metadata_fields : List (String × String) → Fields
  metadata_fields [] = end
  metadata_fields ((k, v) ∷ rest) = field k (str v) (metadata_fields rest)

  -- `document.model_dump(mode="json")`
  abbrev document_items : List Hit → Items
  document_items [] = nil
  document_items (d ∷ ds) =
      cons
        (obj (
          field "document_id" (str d.document_id) (
            field "title" (str d.title) (
              field "content" (str d.content) (
                field "score" (shown d.score)
                  (field "metadata" (obj (metadata_fields d.metadata)) end))))))
        (document_items ds)

  abbrev id_items : List Hit → Items
  id_items [] = nil
  id_items (d ∷ ds) = cons (str d.document_id) (id_items ds)

  abbrev found : String → List Hit → Fields
  found query documents = field "query" (str query) (
      field "documents" (arr (document_items documents))
        (field "evidence_ids" (arr (id_items documents)) end))

  abbrev limited : List Document → String → Result ℤ → Result Fields
  limited table query (err e) = err e
  limited table query (ok n) =
      ok (found query (search s tokenize excerpt (clamp_limit n) query table))

  -- `RagSearchTool.execute`
  unfoldable pub search_knowledge : Fields → List Document → Result Fields
  unfolding clamp_limit search get_field text_of
  search_knowledge arguments table =
      let query = strip (text_of repr (argument (str "") "query" arguments)) in
      if query == ""
      then err (value_error "query 不能为空")
      else limited table query (int (argument (num 4) "limit" arguments))

  -- The tool reports eight documents at most, whatever limit it is asked for.
  pub search_knowledge-bounds :
      (n : ℤ) (query : String) (table : List Document)
      → length (search s tokenize excerpt (clamp_limit n) query table) ≤ 8
  search_knowledge-bounds n query table =
      let (rest, ranked, same, short, full) =
        search-Ranked s tokenize excerpt (clamp_limit n) query table in
      omega (arith, short, clamp_limit-bounds n)

-- `MetricsTool.execute`
module _ (a : Arithmetic) (sha256 : String → String) (dumps_sorted : Json → String)
    (repr : Json → String) where
  unfoldable pub read_metrics : Fields → Database → Result Fields
  unfolding get_metrics get_field text_of
  read_metrics arguments db =
      get_metrics a sha256 dumps_sorted (text_of repr (argument (str "") "merchant_id" arguments))
        (text_of repr (argument (str "") "product_id" arguments)) db
