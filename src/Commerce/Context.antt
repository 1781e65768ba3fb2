-- ===== src/Commerce/Context.antt =====
-- `_get_product_context_sync` of commerce.py.
use e_commerce_agent.Base.{
  ◌≡◌, refl, String, ◌<>◌, Bool, true, false, ◌&&◌, ◌||◌, Option, some, none, List, [], ◌∷◌, ◌++◌,
  ◌==◌, select, any, arith, append-nil, ◌∙◌, ◌↔◌, subst,
}
use e_commerce_agent.Base.Decimal.{decimal}
use e_commerce_agent.Base.Json.{
  Json, str, num, arr, obj, Items, nil, cons, Fields, end, field, get_field,
}
use e_commerce_agent.Errors.{Result, ok, err}
use e_commerce_agent.Commerce.{Product, ContextRow, Database, is_product, product_not_found}
use e_commerce_agent.Commerce.Evidence.{
  extract_evidence_ids, extract_fields, extract_evidence_ids_iff, IsCited, Inside, Carries,
}

abbrev pub is_context : String → String → ContextRow → Bool
is_context merchant_id product_id c = c.merchant_id == merchant_id && c.product_id == product_id

-- `sections or ["product", …]`
abbrev is_default : Option (List String) → Bool
is_default none = true
is_default (some []) = true
is_default (some (s ∷ ss)) = false

abbrev names_of : Option (List String) → List String
names_of none = []
names_of (some ss) = ss

unfoldable pub requested : Option (List String) → String → Bool
unfolding any
requested sections name = is_default sections || any (λ s. s == name) (names_of sections)

-- `if name in requested: data[name] = value`
abbrev with_section : Bool → String → Json → Fields → Fields
with_section true name v rest = field name v rest
with_section false name v rest = rest

abbrev ids_if : Bool → Json → List String
ids_if true v = extract_evidence_ids v
ids_if false v = []

abbrev product_section : Product → Json
product_section a = obj (
    field "name" (str a.name)
      (field "description" (str a.description) (field "version" (num a.version) end)))

module _ (wanted : String → Bool) (a : Product) (c : ContextRow) where
  unfoldable pub context_data : Fields
  context_data = with_section (wanted "product") "product" (product_section a) (
      with_section (wanted "inventory") "inventory" c.inventory (
        with_section (wanted "price") "price" c.price (
          with_section (wanted "reviews") "reviews" c.reviews
            (with_section (wanted "competitors") "competitors" c.competitors end))))

  unfoldable pub context_evidence : List String
  context_evidence =
      ids_if (wanted "inventory") c.inventory
      ++ (ids_if (wanted "price") c.price
          ++ (ids_if (wanted "reviews") c.reviews ++ ids_if (wanted "competitors") c.competitors))

abbrev pub texts : List String → Items
texts [] = nil
texts (x ∷ xs) = cons (str x) (texts xs)

abbrev pub context_result : String → String → (String → Bool) → Product → ContextRow → Fields
context_result merchant_id product_id wanted a c = field "merchant_id" (str merchant_id) (
    field "product_id" (str product_id) (
      field "snapshot_id" (str ("context-" <> (product_id <> ("-v" <> decimal a.version)))) (
        field "as_of" (str "2026-09-14T00:00:00Z") (
          field "source" (str "demo_commerce_db") (
            field "data" (obj (context_data wanted a c)) (
              field "evidence_ids" (arr (texts (context_evidence wanted a c)))
                (field "missing_fields" (arr nil) end)))))))

-- The join: the product, and its row of the table product_context.
abbrev joined :
    String → String → (String → Bool) → Option Product → Option ContextRow → Result Fields
joined merchant_id product_id wanted none c = err product_not_found
joined merchant_id product_id wanted (some a) none = err product_not_found
joined merchant_id product_id wanted (some a) (some c) =
    ok (context_result merchant_id product_id wanted a c)

unfoldable pub get_product_context :
    String → String → Option (List String) → Database → Result Fields
unfolding requested context_data context_evidence select
get_product_context merchant_id product_id sections db =
    joined merchant_id product_id (requested sections)
      (select (is_product merchant_id product_id) db.products)
      (select (is_context merchant_id product_id) db.contexts)

extract_fields-with_section :
    (b : Bool) (name : String) (v : Json) (rest : Fields)
    → extract_fields (with_section b name v rest) ≡ ids_if b v ++ extract_fields rest
unfolding extract_evidence_ids
extract_fields-with_section true name v rest = refl
extract_fields-with_section false name v rest = refl

get_field-with_section :
    (b : Bool) (key name : String) (v : Json) (rest : Fields)
    → (name == key) ≡ false
    → get_field key (with_section b name v rest) ≡ get_field key rest
unfolding get_field
get_field-with_section true key name v rest other = rw other refl
get_field-with_section false key name v rest other = refl

ids_if-product_section : (b : Bool) (a : Product) → ids_if b (product_section a) ≡ []
unfolding extract_evidence_ids get_field
ids_if-product_section true a = refl
ids_if-product_section false a = refl

-- The product's own section holds no evidence, and no section is called `evidence_id`.
context_data-unnamed :
    (wanted : String → Bool) (a : Product) (c : ContextRow)
    → get_field "evidence_id" (context_data wanted a c) ≡ none
unfolding context_data get_field
context_data-unnamed wanted a c =
    get_field-with_section (wanted "product") "evidence_id" "product" _ _ refl
    ∙ get_field-with_section (wanted "inventory") "evidence_id" "inventory" _ _ refl
    ∙ get_field-with_section (wanted "price") "evidence_id" "price" _ _ refl
    ∙ get_field-with_section (wanted "reviews") "evidence_id" "reviews" _ _ refl
    ∙ get_field-with_section (wanted "competitors") "evidence_id" "competitors" _ _ refl

context_evidence-extract :
    (wanted : String → Bool) (a : Product) (c : ContextRow)
    → extract_evidence_ids (obj (context_data wanted a c)) ≡ context_evidence wanted a c
unfolding context_evidence extract_evidence_ids
context_evidence-extract wanted a c = rw (context_data-unnamed wanted a c) (
    unfold context_data in
    rw (extract_fields-with_section (wanted "product") "product" (product_section a)) (
      rw (ids_if-product_section (wanted "product") a)
        (simp (extract_fields-with_section, append-nil))))

joined-eq-ok :
    (m p : String) (wanted : String → Bool) (product : Option Product) (row : Option ContextRow)
    (result : Fields)
    → joined m p wanted product row ≡ ok result
    → (a : Product) × (c : ContextRow) × (product ≡ some a)
      × (context_result m p wanted a c ≡ result)
joined-eq-ok m p wanted none row result h = absurd (ground arith)
joined-eq-ok m p wanted (some a) none result h = absurd (ground arith)
joined-eq-ok m p wanted (some a) (some c) result h = (a, c, refl, cc)

-- The context of a product is given only where the table of products has that product for that
-- merchant, and the evidence that it lists is what its data holds: an id is listed exactly if some
-- object in the data, at any depth, has it as its `evidence_id`, as a text that is not empty.
pub get_product_context_evidence :
    (merchant_id product_id id : String) (sections : Option (List String)) (db : Database)
    (result : Fields)
    → get_product_context merchant_id product_id sections db ≡ ok result
    → (a : Product) × (found : Fields) × (ids : List String) × (select
          (is_product merchant_id product_id)
          db.products
        ≡ some a)
      × (get_field "data" result ≡ some (obj found))
      × (get_field "evidence_ids" result ≡ some (arr (texts ids)))
      × (IsCited id ids ↔ ((fs : Fields) × Inside (obj fs) (obj found) × Carries id fs))
unfolding get_product_context get_field
get_product_context_evidence m p id sections db result h =
    let (a, c, present, same) =
      joined-eq-ok m p (requested sections) (select (is_product m p) db.products)
        (select (is_context m p) db.contexts) result h in
    (
      a,
      context_data (requested sections) a c,
      context_evidence (requested sections) a c,
      present,
      subst (λ r. get_field "data" r ≡ some (obj (context_data (requested sections) a c))) same
          refl,
      subst
          (λ r.
            get_field "evidence_ids" r
            ≡ some (arr (texts (context_evidence (requested sections) a c))))
          same refl,
      subst
          (λ ids. IsCited id ids ↔ (
            (fs : Fields) × Inside (obj fs) (obj (context_data (requested sections) a c))
            × Carries id fs))
          (context_evidence-extract (requested sections) a c)
          (extract_evidence_ids_iff id (obj (context_data (requested sections) a c))),
    )
