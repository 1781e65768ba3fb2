-- ===== src/Commerce/Isolation.antt =====
-- What the reading methods of commerce.py see: the rows of one merchant.
use e_commerce_agent.Base.{
  ◌≡◌, refl, String, Bool, false, Option, List, [], ◌∷◌, ◌==◌, filter, select, arith, Bool-cases,
  Option-cases, inl, inr,
}
use e_commerce_agent.Base.Json.{Json}
use e_commerce_agent.Platform.{Platform}
use e_commerce_agent.Commerce.{MetricWindow, Database, is_product}
use e_commerce_agent.Commerce.Catalog.{owned_by, resolve_product}
use e_commerce_agent.Commerce.Context.{is_context, get_product_context}
use e_commerce_agent.Commerce.Funnel.{Arithmetic}
use e_commerce_agent.Commerce.Metrics.{last_window, get_metrics}

-- The database without the rows of other merchants.
abbrev pub own_rows : String → Database → Database
own_rows m db = record db {
  products = filter (owned_by m) db.products;
  windows = filter (λ x. x.merchant_id == m) db.windows;
  contexts = filter (λ c. c.merchant_id == m) db.contexts;
}

module _ {A : Type 0} where
  filter_twice : (p : A → Bool) (xs : List A) → filter p (filter p xs) ≡ filter p xs
  unfolding filter
  filter_twice p [] = refl
  filter_twice p (x ∷ xs) = ground (arith, filter_twice p xs)

  -- A search finds the same row among the rows that it can take.
  select-filter :
      (p q : A → Bool) (xs : List A)
      → ((x : A) → q x ≡ false → p x ≡ false)
      → select p (filter q xs) ≡ select p xs
  unfolding select filter
  select-filter p q [] narrow = refl
  select-filter p q (x ∷ xs) narrow = elim (Bool-cases (q x)) [
    | inl kept ↦ rw (kept, select-filter p q xs narrow) refl
    | inr left ↦ rw (left, narrow x left, select-filter p q xs narrow) refl
  ]

last_window-filter :
    (m p name : String) (xs : List MetricWindow)
    → last_window m p name (filter (λ x. x.merchant_id == m) xs) ≡ last_window m p name xs
unfolding last_window filter
last_window-filter m p name [] = refl
last_window-filter m p name (x ∷ xs) = elim (Bool-cases (x.merchant_id == m)) [
  | inl kept ↦ rw (kept, last_window-filter m p name xs) refl
  | inr left ↦ elim (Option-cases (last_window m p name xs)) [
    | inl absent ↦ rw (left, last_window-filter m p name xs) (rw absent (rw left refl))
    | inr (y, found) ↦ rw (left, last_window-filter m p name xs) (rw found refl)
  ]
]

module _ (a : Arithmetic) (sha256 : String → String) (dumps_sorted : Json → String)
    (p : Platform) where
  -- A merchant's search for products, metrics of a product and context of a product depend on the rows
  -- of that merchant alone: without the rows of the others they give the same.
  pub own_rows_suffice :
      (m product_id query : String) (sections : Option (List String)) (db : Database)
      → (resolve_product p m query (own_rows m db) ≡ resolve_product p m query db)
        × (get_metrics a sha256 dumps_sorted m product_id (own_rows m db)
            ≡ get_metrics a sha256 dumps_sorted m product_id db)
        × (get_product_context m product_id sections (own_rows m db)
            ≡ get_product_context m product_id sections db)
  unfolding resolve_product get_metrics get_product_context
  own_rows_suffice m product_id query sections db = (
    rw (filter_twice (owned_by m) db.products) refl,
    rw
        (
          select-filter (is_product m product_id) (owned_by m) db.products (λ x h. rw h refl),
          last_window-filter m product_id "comparison" db.windows,
          last_window-filter m product_id "current" db.windows,
        )
        refl,
    rw
        (
          select-filter (is_product m product_id) (owned_by m) db.products (λ x h. rw h refl),
          select-filter (is_context m product_id) (λ c. c.merchant_id == m) db.contexts
              (λ c h. rw h refl),
        )
        refl,
  )
