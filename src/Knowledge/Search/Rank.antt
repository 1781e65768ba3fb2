-- ===== src/Knowledge/Search/Rank.antt =====
-- What `search` of rag/knowledge_base.py returns of what scores.
use mathlib.Core.List.{Permᴰ}
use mathlib.Core.List.Permᴰ
use e_commerce_agent.Base.{
  ℕ, zero, suc, ◌≤◌, ◌≡◌, ◌⊎◌, ap, map, filter, refl, sym, subst, String, true, List, [], ◌∷◌, ◌++◌,
  All, take, drop, take-drop, length, arith, Bool-cases, inl, inr,
}
use package.e_commerce_agent.Knowledge.{Document}
use package.e_commerce_agent.Knowledge.Search.{
  Scores, RetrievedDocument, place, sort_by_score, scored, score_from, search, found_by,
  load_documents,
}

-- A prefix is as long as was asked for, or leaves nothing out.
length-take : {A : Type 0} (n : ℕ) (xs : List A) → (length (take n xs) ≡ n) ⊎ (drop n xs ≡ [])
unfolding take drop
length-take zero xs = inl refl
length-take (suc n) [] = inr refl
length-take (suc n) (x ∷ xs) = elim (length-take n xs) [
  | inl full ↦ inl (ap suc full)
  | inr whole ↦ inr whole
]

length-take_le : {A : Type 0} (n : ℕ) (xs : List A) → length (take n xs) ≤ n
unfolding take
length-take_le zero xs = omega arith
length-take_le (suc n) [] = omega arith
length-take_le (suc n) (x ∷ xs) = omega (arith, length-take_le n xs)

module _ (s : Scores) (tokenize : String → List String) (excerpt : String → String → String) where
  abbrev Hit : Type 0
  Hit = RetrievedDocument s tokenize excerpt

  abbrev pub Tops : Hit → List Hit → Type 0
  Tops x ys = All (λ y. s.at_least x.score y.score ≡ true) ys

  -- Every document scores at least as much as those after it.
  abbrev pub IsRanked : List Hit → Type 0
  IsRanked [] = Unit
  IsRanked (x ∷ xs) = Tops x xs × IsRanked xs

  place-Perm : (x : Hit) (ys : List Hit) → Permᴰ (place s tokenize excerpt x ys) (x ∷ ys)
  unfolding place
  place-Perm x [] = Permᴰ.refl (x ∷ [])
  place-Perm x (y ∷ ys) = elim (Bool-cases (s.at_least x.score y.score)) [
    | inl above ↦ rw above (Permᴰ.refl (x ∷ y ∷ ys))
    | inr below ↦ rw below (Permᴰ.trans (Permᴰ.cons refl (place-Perm x ys)) (Permᴰ.swap refl refl))
  ]

  sort-Perm : (xs : List Hit) → Permᴰ (sort_by_score s tokenize excerpt xs) xs
  unfolding sort_by_score
  sort-Perm [] = Permᴰ.nil
  sort-Perm (x ∷ xs) =
      Permᴰ.trans (place-Perm x (sort_by_score s tokenize excerpt xs))
        (Permᴰ.cons refl (sort-Perm xs))

  Tops-place :
      (x y : Hit) (ys : List Hit)
      → s.at_least x.score y.score ≡ true
      → Tops x ys
      → Tops x (place s tokenize excerpt y ys)
  unfolding place
  Tops-place x y [] h hs = (h, tt)
  Tops-place x y (z ∷ zs) h hs = elim (Bool-cases (s.at_least y.score z.score)) [
    | inl above ↦ rw above (h, hs)
    | inr below ↦ rw below (hs.0, Tops-place x y zs h hs.1)
  ]

  Tops-trans :
      (x y : Hit) (ys : List Hit) → s.at_least x.score y.score ≡ true → Tops y ys → Tops x ys
  Tops-trans x y [] h hs = tt
  Tops-trans x y (z ∷ zs) h hs =
      (s.at_least-trans x.score y.score z.score h hs.0, Tops-trans x y zs h hs.1)

  place-IsRanked :
      (x : Hit) (ys : List Hit) → IsRanked ys → IsRanked (place s tokenize excerpt x ys)
  unfolding place
  place-IsRanked x [] h = (tt, tt)
  place-IsRanked x (y ∷ ys) h = elim (Bool-cases (s.at_least x.score y.score)) [
    | inl above ↦ rw above ((above, Tops-trans x y ys above h.0), h)
    | inr below ↦
        rw below
          (Tops-place y x ys (s.at_least-total x.score y.score below) h.0, place-IsRanked x ys h.1)
  ]

  sort-IsRanked : (xs : List Hit) → IsRanked (sort_by_score s tokenize excerpt xs)
  unfolding sort_by_score
  sort-IsRanked [] = tt
  sort-IsRanked (x ∷ xs) = place-IsRanked x (sort_by_score s tokenize excerpt xs) (sort-IsRanked xs)

  scored-no_tokens :
      (rows : List Document) (query : String) (ds : List Document)
      → tokenize query ≡ []
      → scored s tokenize excerpt rows query ds ≡ []
  unfolding scored score_from
  scored-no_tokens rows query [] h = refl
  scored-no_tokens rows query (d ∷ ds) h =
      rw h (rw s.nothing-is_positive (scored-no_tokens rows query ds h))

  abbrev pub Ranked : ℕ → List Hit → List Hit → Type 0
  Ranked limit found hits =
      (rest : List Hit) × IsRanked (found ++ rest)
      × Permᴰ (found ++ rest) hits
      × (length found ≤ limit)
      × ((length found ≡ limit) ⊎ (rest ≡ []))

  found_by-Ranked :
      (tokens : List String) (limit : ℕ) (hits : List Hit)
      → (tokens ≡ [] → hits ≡ [])
      → Ranked limit (found_by s tokenize excerpt tokens limit hits) hits
  found_by-Ranked [] limit hits none =
      ([], tt, subst (Permᴰ []) (sym (none refl)) Permᴰ.nil, omega arith, inr refl)
  found_by-Ranked (t ∷ ts) limit hits none =
      let sorted = sort_by_score s tokenize excerpt hits in
      (
        drop limit sorted,
        subst IsRanked (take-drop limit sorted) (sort-IsRanked hits),
        subst (λ l. Permᴰ l hits) (take-drop limit sorted) (sort-Perm hits),
        length-take_le limit sorted,
        length-take limit sorted,
      )

  -- The score of a document among these rows, and the documents with a positive one, as they are
  -- reported.
  abbrev score_of : List Document → String → Document → s.Float
  score_of rows query d =
      score_from s tokenize excerpt rows s.nothing (tokenize query) (tokenize d.content)

  abbrev report : List Document → String → Document → Hit
  report rows query d = record {
    document_id = d.document_id;
    title = d.title;
    content = excerpt d.content query;
    score = s.round4 (score_of rows query d);
    metadata = d.metadata;
  }

  abbrev pub hits_of : List Document → String → List Document → List Hit
  hits_of rows query ds =
      map (report rows query) (filter (λ d. s.is_positive (score_of rows query d)) ds)

  scored-hits_of :
      (rows : List Document) (query : String) (ds : List Document)
      → scored s tokenize excerpt rows query ds ≡ hits_of rows query ds
  unfolding scored filter
  scored-hits_of rows query [] = refl
  scored-hits_of rows query (d ∷ ds) = elim (Bool-cases (s.is_positive (score_of rows query d))) [
    | inl some_score ↦
        rw some_score (ap (λ l. report rows query d ∷ l) (scored-hits_of rows query ds))
    | inr none ↦ rw none (scored-hits_of rows query ds)
  ]

  pub search-Ranked :
      (limit : ℕ) (query : String) (table : List Document)
      → Ranked limit (search s tokenize excerpt limit query table) (
          hits_of
            (load_documents s tokenize excerpt table)
            query
            (load_documents s tokenize excerpt table))
  unfolding search
  search-Ranked limit query table =
      let rows = load_documents s tokenize excerpt table in
      subst (Ranked limit (search s tokenize excerpt limit query table))
        (scored-hits_of rows query rows)
        (found_by-Ranked (tokenize query) limit (scored s tokenize excerpt rows query rows)
          (scored-no_tokens rows query rows))
