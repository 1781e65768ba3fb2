-- ===== src/Examples/Rows.antt =====
-- What is read of a shop, what the knowledge base keeps, and what the calculator computes.
use Prim.Native.Nat.{◌/◌}
use e_commerce_agent.Base.{
  ◌≡◌, ◌↔◌, refl, ℕ, ◌+◌, String, Bool, Option, some, List, [], ◌∷◌, ◌==◌, select, ltb, leb, arith,
  All,
}
use e_commerce_agent.Base.Int.{pos_part}
use e_commerce_agent.Base.Json.{null, num, str, arr, obj, Fields, end, field, get_field, nil, cons}
use e_commerce_agent.Errors.{ok}
use e_commerce_agent.Platform.{confirmed}
use e_commerce_agent.Commerce.{Database, Product, ContextRow, is_product}
use e_commerce_agent.Commerce.Evidence.{extract_evidence_ids, Inside, Carries, IsCited}
use e_commerce_agent.Commerce.Context.{
  requested, context_evidence, context_result, texts, get_product_context,
  get_product_context_evidence,
}
use e_commerce_agent.Commerce.Funnel.{Arithmetic, FunnelComparison, compare_funnel}
use e_commerce_agent.Commerce.Catalog.{resolve_product}
use e_commerce_agent.Commerce.Metrics.{get_metrics}
use e_commerce_agent.Commerce.Isolation.{own_rows, own_rows_suffice}
use e_commerce_agent.Knowledge.{Document, has_id, add_document, add_document-found, IsKeyed}
use e_commerce_agent.Knowledge.Search.{Scores}
use e_commerce_agent.Tools.Registry.{registry, IsFresh, get, registry_iff}
use e_commerce_agent.Tools.Calculator.{
  Sign, Floats, pow, binary, constant, evaluate, Value, evaluate_iff,
}
use e_commerce_agent.Examples.Setting.{platform, shop, lamp}

-- Whole numbers in place of floats.
abbrev whole : Arithmetic
whole = record {
  Float = ℕ;
  ratio = λ n d. pos_part n / pos_part d;
  scale = λ n x. pos_part n + x;
  plus = λ x y. x + y;
  minus = λ x y. x;
  half = λ x. x / 2;
  shown = λ x. num x;
}

abbrev row : ContextRow
row = record {
  merchant_id = "m1";
  product_id = "p1";
  inventory = obj (field "evidence_id" (str "stock") end);
  price = null;
  reviews = arr (cons (obj (field "evidence_id" (str "r1") end)) nil);
  competitors = null;
}

abbrev stocked_shop : Database
stocked_shop = record shop { contexts = row ∷ [] }

abbrev sections : Option (List String)
sections = some ("reviews" ∷ [])

abbrev lamp_context : Fields
lamp_context = context_result "m1" "p1" (requested sections) lamp row

get_product_context_test : get_product_context "m1" "p1" sections stocked_shop ≡ ok lamp_context
unfolding get_product_context select
get_product_context_test = refl

context_evidence_test : context_evidence (requested sections) lamp row ≡ "r1" ∷ []
unfolding context_evidence requested extract_evidence_ids
context_evidence_test = refl

get_product_context_evidence_example :
    (a : Product) × (found : Fields) × (ids : List String) × (select
        (is_product "m1" "p1")
        stocked_shop.products
      ≡ some a)
    × (get_field "data" lamp_context ≡ some (obj found))
    × (get_field "evidence_ids" lamp_context ≡ some (arr (texts ids)))
    × (IsCited "r1" ids ↔ ((fs : Fields) × Inside (obj fs) (obj found) × Carries "r1" fs))
get_product_context_evidence_example =
    get_product_context_evidence "m1" "p1" "r1" sections stocked_shop lamp_context
      get_product_context_test

-- Before, there were orders and no clicks.
abbrev clicks_before : ℕ
clicks_before = 0

abbrev clicks_after : ℕ
clicks_after = 10

abbrev orders_before : ℕ
orders_before = 9

abbrev impressions_before : ℕ
impressions_before = 100

abbrev impressions_after : ℕ
impressions_after = 80

abbrev compared : FunnelComparison whole
compared =
    compare_funnel whole impressions_before clicks_before orders_before impressions_after
      clicks_after 7

own_rows_suffice_example :
    (resolve_product (platform confirmed) "m1" "lamp" (own_rows "m1" stocked_shop)
      ≡ resolve_product (platform confirmed) "m1" "lamp" stocked_shop)
    × (get_metrics whole (λ s. s) (λ v. "") "m1" "p1" (own_rows "m1" stocked_shop)
        ≡ get_metrics whole (λ s. s) (λ v. "") "m1" "p1" stocked_shop)
    × (get_product_context "m1" "p1" sections (own_rows "m1" stocked_shop)
        ≡ get_product_context "m1" "p1" sections stocked_shop)
own_rows_suffice_example =
    own_rows_suffice whole (λ s. s) (λ v. "") (platform confirmed) "m1" "p1" "lamp" sections
      stocked_shop

abbrev old_rule : Document
old_rule = record {
  document_id = "d1";
  title = "rule";
  content = "old";
  metadata = [];
  updated_at = 1;
}

abbrev added : String × List Document
added = add_document (λ s. s) (λ v. "d1") 2 "rule" "new" [] (old_rule ∷ [])

old_rule-IsKeyed : IsKeyed (old_rule ∷ [])
unfolding select
old_rule-IsKeyed = (refl, tt)

add_document-found_example :
    (select (has_id added.0) added.1
      ≡ some (record {
        document_id = added.0;
        title = "rule";
        content = "new";
        metadata = [];
        updated_at = 2;
      }))
    × ((id : String)
        → (added.0 == id) ≡ Bool.false
        → select (has_id id) added.1 ≡ select (has_id id) (old_rule ∷ []))
    × IsKeyed added.1
add_document-found_example =
    add_document-found (λ s. s) (λ v. "d1") 2 "rule" "new" [] (old_rule ∷ []) old_rule-IsKeyed

abbrev wholes : Floats
wholes = record {
  Float = ℕ;
  apply = λ op x y. ok (x + y);
  apply_sign = λ s x. elim s [ Sign.plus ↦ x | Sign.minus ↦ 0 ];
  absolute = λ x. x;
  less = λ x y. ltb x y;
  of_nat = λ n. n;
  shown = λ x. num x;
}

evaluate_iff_example :
    (evaluate wholes (binary pow (constant 2) (constant 12)) ≡ ok 14)
    ↔ Value wholes (binary pow (constant 2) (constant 12)) 14
evaluate_iff_example = evaluate_iff wholes (binary pow (constant 2) (constant 12)) 14

-- Scores by whole numbers: how often the tokens of the query stand in the text.
abbrev tallies : Scores
tallies = record {
  Float = ℕ;
  nothing = 0;
  plus = λ x y. x + y;
  times = λ x y. x;
  one_more = λ x. x;
  quotient = λ n d. n;
  log = λ x. x;
  is_positive = λ x. ltb 0 x;
  round4 = λ x. x;
  at_least = λ x y. leb y x;
  nothing-is_positive = refl;
  at_least-total = λ x y h. ground arith;
  at_least-trans = λ x y z h k. ground arith;
}

abbrev one_word : String → List String
one_word text = text ∷ []

abbrev whole_text : String → String → String
whole_text content query = content

-- Tools by their names alone.
abbrev names : List String
names = "calculator" ∷ "get_metrics" ∷ []

abbrev itself : String → String
itself name = name

registry_iff_example :
    ((registry itself names ≡ ok names) ↔ ((names ≡ names) × IsFresh itself [] names))
    × (IsFresh itself [] names → All (λ t. get itself t names ≡ some t) names)
registry_iff_example = registry_iff itself names names
