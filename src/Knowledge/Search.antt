-- ===== src/Knowledge/Search.antt =====
-- `search` of rag/knowledge_base.py. Python's floats are an argument.
pub mod Rank
use e_commerce_agent.Base.{
  ℕ, zero, suc, ◌+◌, max, ◌≡◌, String, Bool, true, false, Option, none, some, List, [], ◌∷◌, ◌==◌,
  eqb, any, take, filter, length, if◌then◌else◌,
}
use package.e_commerce_agent.Knowledge.{Document}

-- Floats: 0.0, sums, products, one more, the quotient of two numbers, the logarithm, whether a score is
-- above 0, `round(score, 4)`, and `>=`, a total order where there is no NaN.
pub record Scores : Type 1 where
  pub Float : Type 0
  pub nothing : Float
  pub plus : Float → Float → Float
  pub times : Float → Float → Float
  pub one_more : Float → Float
  pub quotient : ℕ → ℕ → Float
  pub log : Float → Float
  pub is_positive : Float → Bool
  pub round4 : Float → Float
  pub at_least : Float → Float → Bool
  pub nothing-is_positive : is_positive nothing ≡ false
  pub at_least-total : (x y : Float) → at_least x y ≡ false → at_least y x ≡ true
  pub at_least-trans :
      (x y z : Float) → at_least x y ≡ true → at_least y z ≡ true → at_least x z ≡ true

-- `counts[token]`
unfoldable pub count : String → List String → ℕ
unfolding filter
count token tokens = length (filter (λ t. t == token) tokens)

module _ (s : Scores) (tokenize : String → List String) (excerpt : String → String → String) where
  open s use {Float, nothing, plus, times, one_more, quotient, log, is_positive, round4, at_least}

  pub record RetrievedDocument : Type 0 where
    pub document_id : String
    pub title : String
    pub content : String
    pub score : Float
    pub metadata : List (String × String)

  -- `document_frequency[token]`
  unfoldable pub document_frequency : String → List Document → ℕ
  unfolding filter any
  document_frequency token rows =
      length (filter (λ d. any (λ t. t == token) (tokenize d.content)) rows)

  module _ (rows : List Document) where
    abbrev inverse_frequency : String → Float
    inverse_frequency token =
        one_more (log (quotient (max (length rows) 1 + 1) (document_frequency token rows + 1)))

    -- The loop over the tokens of the query, on the score so far.
    unfoldable pub score_from : Float → List String → List String → Float
    unfolding count document_frequency
    score_from score [] tokens = score
    score_from score (t ∷ ts) tokens =
        let more =
          plus score (times (one_more (log (quotient (count t tokens) 1))) (inverse_frequency t)) in
        let with_ = score_from more ts tokens in
        let without = score_from score ts tokens in
        if eqb (count t tokens) 0 then without else with_

    abbrev retrieved : String → Float → Document → RetrievedDocument
    retrieved query score d = record {
      document_id = d.document_id;
      title = d.title;
      content = excerpt d.content query;
      score = round4 score;
      metadata = d.metadata;
    }

    -- The loop over the rows.
    unfoldable pub scored : String → List Document → List RetrievedDocument
    unfolding score_from
    scored query [] = []
    scored query (d ∷ ds) =
        let rest = scored query ds in
        let score = score_from nothing (tokenize query) (tokenize d.content) in
        if is_positive score then retrieved query score d ∷ rest else rest

  -- `scored.sort(key=…, reverse=True)`: a stable sort by falling score.
  unfoldable pub place : RetrievedDocument → List RetrievedDocument → List RetrievedDocument
  place x [] = x ∷ []
  place x (y ∷ ys) = if at_least x.score y.score then x ∷ y ∷ ys else y ∷ place x ys

  unfoldable pub sort_by_score : List RetrievedDocument → List RetrievedDocument
  unfolding place
  sort_by_score [] = []
  sort_by_score (x ∷ xs) = place x (sort_by_score xs)

  -- `_load_documents_sync`
  abbrev pub load_documents : List Document → List Document
  load_documents table = take 5000 table

  abbrev pub found_by : List String → ℕ → List RetrievedDocument → List RetrievedDocument
  found_by [] limit hits = []
  found_by (t ∷ ts) limit hits = take limit (sort_by_score hits)

  unfoldable pub search : ℕ → String → List Document → List RetrievedDocument
  unfolding scored sort_by_score take
  search limit query table =
      let rows = load_documents table in found_by (tokenize query) limit (scored rows query rows)
