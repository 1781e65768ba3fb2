-- ===== src/Commerce/Catalog.antt =====
-- `_resolve_product_sync` of commerce.py.
use Prim.Native.String.{compare}
use Prim.Native.Nat.{Ordering}
use text.Mathlib.Text.{find?}
use e_commerce_agent.Base.{
  filter, refl, ◌⊎◌, All, String, Bool, true, false, ◌≡◌, inl, inr, Bool-cases, subst, not, ◌&&◌,
  ◌||◌, List, [], ◌∷◌, ◌==◌, is_none, if◌then◌else◌,
}
use e_commerce_agent.Errors.{Error, Result, ok, err, app_error}
use e_commerce_agent.Commerce.{Product, Database}
use e_commerce_agent.Platform.{Platform}

-- `ORDER BY product_id`
abbrev before : Product → Product → Bool
before a b = elim (compare a.product_id b.product_id) [ Ordering.gt ↦ false | _ ↦ true ]

unfoldable pub place : Product → List Product → List Product
place a [] = a ∷ []
place a (b ∷ bs) = if before a b then a ∷ b ∷ bs else b ∷ place a bs

unfoldable pub order_by_id : List Product → List Product
unfolding place
order_by_id [] = []
order_by_id (a ∷ l) = place a (order_by_id l)

-- `needle in text`
abbrev contains : String → String → Bool
contains needle text = not (is_none (find? text needle))

abbrev or_all : List Product → List Product → List Product
or_all [] all = all
or_all (a ∷ l) all = a ∷ l

abbrev pub owned_by : String → Product → Bool
owned_by merchant_id a = a.merchant_id == merchant_id

module _ (p : Platform) where
  abbrev matches : String → Product → Bool
  matches normalized a =
      not (normalized == "")
      && (contains normalized (p.lower a.product_id) || contains normalized (p.lower a.name))

  unfoldable pub found_or_error : String → List Product → Result (List Product)
  found_or_error query [] = err (app_error "MERCHANT_NOT_FOUND" "商家不存在或无可访问商品" 404)
  found_or_error query (a ∷ l) =
      ok (or_all (filter (matches (p.lower (p.strip query))) (a ∷ l)) (a ∷ l))

  unfoldable pub resolve_product : String → String → Database → Result (List Product)
  unfolding found_or_error filter order_by_id
  resolve_product merchant_id query db =
      found_or_error query (order_by_id (filter (owned_by merchant_id) db.products))

-- Membership of a product among the candidates, by its id.
unfoldable pub offers : String → List Product → Bool
offers product_id [] = false
offers product_id (a ∷ l) = a.product_id == product_id || offers product_id l

module _ (P : Product → Type 0) where
  All-place : (a : Product) (bs : List Product) → P a → All P bs → All P (place a bs)
  unfolding place
  All-place a [] h hs = (h, tt)
  All-place a (b ∷ bs) h hs = elim (Bool-cases (before a b)) [
    | inl first ↦ rw first (h, hs)
    | inr later ↦ rw later (hs.0, All-place a bs h hs.1)
  ]

  All-order_by_id : (l : List Product) → All P l → All P (order_by_id l)
  unfolding order_by_id
  All-order_by_id [] hs = tt
  All-order_by_id (a ∷ l) hs = All-place a (order_by_id l) hs.0 (All-order_by_id l hs.1)

  All-filter : (c : Product → Bool) (l : List Product) → All P l → All P (filter c l)
  unfolding filter
  All-filter c [] hs = tt
  All-filter c (a ∷ l) hs = elim (Bool-cases (c a)) [
    | inl in_ ↦ rw in_ (hs.0, All-filter c l hs.1)
    | inr out ↦ rw out (All-filter c l hs.1)
  ]

  All-or_all : (l all : List Product) → All P l → All P all → All P (or_all l all)
  All-or_all [] all hs h = h
  All-or_all (a ∷ l) all hs h = hs

filter-All : (c : Product → Bool) (l : List Product) → All (λ a. c a ≡ true) (filter c l)
unfolding filter
filter-All c [] = tt
filter-All c (a ∷ l) = elim (Bool-cases (c a)) [
  | inl in_ ↦ rw in_ (in_, filter-All c l)
  | inr out ↦ rw out (filter-All c l)
]

abbrev pub IsEmpty : List Product → Type 0
IsEmpty [] = Unit
IsEmpty (a ∷ l) = ⊥

or_all-not-IsEmpty :
    (found : List Product) (a : Product) (l : List Product) → ¬ IsEmpty (or_all found (a ∷ l))
or_all-not-IsEmpty [] a l h = h
or_all-not-IsEmpty (x ∷ found) a l h = h

found_or_error_owned :
    (p : Platform) (merchant_id query : String) (found matched : List Product)
    → All (λ a. owned_by merchant_id a ≡ true) found
    → found_or_error p query found ≡ ok matched
    → All (λ a. owned_by merchant_id a ≡ true) matched × ¬ IsEmpty matched
unfolding found_or_error
found_or_error_owned p m q [] matched hs h = cc
found_or_error_owned p m q (a ∷ l) matched hs h =
    let answer = or_all (filter (matches p (p.lower (p.strip q))) (a ∷ l)) (a ∷ l) in
    let e : answer ≡ matched = cc in
    subst (λ found. All (λ x. owned_by m x ≡ true) found × ¬ IsEmpty found) e
      (
        All-or_all (λ x. owned_by m x ≡ true) (filter (matches p (p.lower (p.strip q))) (a ∷ l))
            (a ∷ l)
            (All-filter (λ x. owned_by m x ≡ true) (matches p (p.lower (p.strip q))) (a ∷ l) hs) hs,
        or_all-not-IsEmpty (filter (matches p (p.lower (p.strip q))) (a ∷ l)) a l,
      )

abbrev pub merchant_not_found : Error
merchant_not_found = app_error "MERCHANT_NOT_FOUND" "商家不存在或无可访问商品" 404

found_or_error-cases :
    (p : Platform) (query : String) (found : List Product)
    → ((l : List Product) × (found_or_error p query found ≡ ok l))
      ⊎ (found_or_error p query found ≡ err merchant_not_found)
unfolding found_or_error
found_or_error-cases p query [] = inr refl
found_or_error-cases p query (a ∷ l) = inl (_, refl)

pub resolve_product-cases :
    (p : Platform) (merchant_id query : String) (db : Database)
    → ((l : List Product) × (resolve_product p merchant_id query db ≡ ok l))
      ⊎ (resolve_product p merchant_id query db ≡ err merchant_not_found)
resolve_product-cases p m q db =
    unfold resolve_product in
    found_or_error-cases p q (order_by_id (filter (owned_by m) db.products))

-- A query is answered with at least one product, and with products of the asking merchant only.
pub resolve_product_owned :
    (p : Platform) (merchant_id query : String) (db : Database) (matched : List Product)
    → resolve_product p merchant_id query db ≡ ok matched
    → All (λ a. owned_by merchant_id a ≡ true) matched × ¬ IsEmpty matched
resolve_product_owned p m q db matched h =
    found_or_error_owned p m q (order_by_id (filter (owned_by m) db.products)) matched
      (All-order_by_id (λ a. owned_by m a ≡ true) (filter (owned_by m) db.products)
        (filter-All (owned_by m) db.products))
      (unfold resolve_product in h)
