-- ===== src/Knowledge/Excerpt.antt =====
-- `_best_excerpt` of rag/knowledge_base.py.
use Prim.Native.Nat.{◌/◌}
use e_commerce_agent.Base.Text.{
  text_length, take_text, drop_text, text_length-append, text_length-take,
}
use e_commerce_agent.Base.{
  ℕ, ◌+◌, ◌-◌, ◌≤◌, min, String, ◌<>◌, Bool, true, false, Option, none, some, List, [], ◌∷◌, leb,
  ltb, if◌then◌else◌, arith, Bool-cases, inl, inr,
}

-- `min(positions) if positions else 0`
unfoldable pub center_of : List ℕ → ℕ
center_of [] = 0
center_of (x ∷ []) = x
center_of (x ∷ y ∷ ys) = min x (center_of (y ∷ ys))

ellipsis-length : (b : Bool) → text_length (if b then "…" else "") ≤ 1
ellipsis-length true = omega arith
ellipsis-length false = omega arith

-- `str.lower`, `text.find(token)` where it is found, and `_tokenize`.
module _ (lower : String → String) (find : String → String → Option ℕ)
    (tokenize : String → List String) where
  abbrev found_at : Option ℕ → List ℕ → List ℕ
  found_at none rest = rest
  found_at (some n) rest = n ∷ rest

  unfoldable pub positions_of : String → List String → List ℕ
  positions_of text [] = []
  positions_of text (t ∷ ts) =
      let rest = positions_of text ts in
      if leb 2 (text_length t) then found_at (find text t) rest else rest

  unfoldable pub excerpt_from : ℕ → ℕ → String → String
  unfolding take_text drop_text
  excerpt_from max_chars start content =
      let end_ = min (start + max_chars) (text_length content) in
      (if ltb 0 start then "…" else "")
      <> (take_text (end_ - start) (drop_text start content)
          <> (if ltb end_ (text_length content) then "…" else ""))

  unfoldable pub best_excerpt : ℕ → String → String → String
  unfolding positions_of center_of excerpt_from
  best_excerpt max_chars content query =
      let center = center_of (positions_of (lower content) (tokenize query)) in
      if leb (text_length content) max_chars
      then content
      else excerpt_from max_chars (center - max_chars / 4) content

  excerpt_from-length :
      (max_chars start : ℕ) (content : String)
      → text_length (excerpt_from max_chars start content) ≤ max_chars + 2
  unfolding excerpt_from
  excerpt_from-length max_chars start content =
      let end_ = min (start + max_chars) (text_length content) in
      let before : String = if ltb 0 start then "…" else "" in
      let middle = take_text (end_ - start) (drop_text start content) in
      let after : String = if ltb end_ (text_length content) then "…" else "" in
      omega (
        arith,
        text_length-append before (middle <> after),
        text_length-append middle after,
        text_length-take (end_ - start) (drop_text start content),
        ellipsis-length (ltb 0 start),
        ellipsis-length (ltb end_ (text_length content)),
      )

  -- An excerpt has at most two characters more than the bound: the ellipses.
  pub best_excerpt-length :
      (max_chars : ℕ) (content query : String)
      → text_length (best_excerpt max_chars content query) ≤ max_chars + 2
  unfolding best_excerpt
  best_excerpt-length max_chars content query =
      elim (Bool-cases (leb (text_length content) max_chars)) [
        | inl short ↦ rw short (ground arith)
        | inr long ↦ rw long (
            excerpt_from-length max_chars
              (center_of (positions_of (lower content) (tokenize query)) - max_chars / 4) content)
      ]
