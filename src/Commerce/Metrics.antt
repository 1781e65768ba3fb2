-- ===== src/Commerce/Metrics.antt =====
-- `_get_metrics_sync` of commerce.py.
use e_commerce_agent.Base.{
  suc, String, ◌<>◌, Bool, ◌&&◌, Option, some, none, List, [], ◌∷◌, ◌==◌, select, if◌then◌else◌,
}
use e_commerce_agent.Base.Decimal.{decimal}
use e_commerce_agent.Base.Text.{take_text}
use e_commerce_agent.Base.Int.{ℤ, pos, negsuc}
use e_commerce_agent.Base.Json.{
  Json, null, str, num, float, arr, obj, nil, cons, Fields, end, field,
}
use e_commerce_agent.Errors.{Error, Result, ok, err, app_error}
use e_commerce_agent.Commerce.{Product, MetricWindow, Database, is_product, product_not_found}
use e_commerce_agent.Commerce.Funnel.{Arithmetic, FunnelWindow, FunnelComparison, compare_funnel}

abbrev pub is_window : String → String → MetricWindow → Bool
is_window merchant_id product_id x = x.merchant_id == merchant_id && x.product_id == product_id

-- `{str(row["window_name"]): row for row in rows}[name]`: of equal names the last row counts.
unfoldable pub last_window : String → String → String → List MetricWindow → Option MetricWindow
last_window m p name [] = none
last_window m p name (x ∷ xs) = elim (last_window m p name xs) [
  | some y ↦ some y
  | none ↦ if is_window m p x && x.window_name == name then some x else none
]

abbrev integer : ℤ → Json
integer (pos n) = num n
integer (negsuc n) = float ("-" <> decimal (suc n))

abbrev pub metrics_incomplete : Error
metrics_incomplete = app_error "METRICS_INCOMPLETE" "商品对比窗口数据不完整" 422

module _ (a : Arithmetic) where
  abbrev optional_float : Option a.Float → Json
  optional_float none = null
  optional_float (some x) = a.shown x

  -- `model_dump`
  abbrev window_json : FunnelWindow a → Json
  window_json x = obj (
      field "impressions" (num x.impressions) (
        field "clicks" (num x.clicks) (
          field "paid_orders" (num x.paid_orders) (
            field "click_through_rate" (optional_float x.click_through_rate)
              (field "conversion_rate" (optional_float x.conversion_rate) end)))))

  abbrev pub comparison_json : FunnelComparison a → Json
  comparison_json x = obj (
      field "comparison" (window_json x.comparison) (
        field "current" (window_json x.current) (
          field "order_change" (integer x.order_change) (
            field "order_change_rate" (optional_float x.order_change_rate) (
              field "traffic_contribution" (optional_float x.traffic_contribution) (
                field "conversion_contribution" (optional_float x.conversion_contribution) end))))))

  abbrev pub compared : MetricWindow → MetricWindow → FunnelComparison a
  compared before after =
      compare_funnel a before.impressions before.clicks before.paid_orders after.impressions
        after.clicks after.paid_orders

  abbrev channels_json : MetricWindow → MetricWindow → Json
  channels_json before after =
      obj (field "comparison" before.channels (field "current" after.channels end))

  -- The digest, and `json.dumps` with sorted keys.
  module _ (sha256 : String → String) (dumps_sorted : Json → String) where
    abbrev snapshot_id : String → MetricWindow → MetricWindow → String
    snapshot_id product_id before after = take_text 16 (
        sha256 (
          dumps_sorted (
            obj (
              field "product_id" (str product_id) (
                field "comparison" (comparison_json (compared before after))
                  (field "channels" (channels_json before after) end))))))

    abbrev pub metrics_result : String → String → Product → MetricWindow → MetricWindow → Fields
    metrics_result merchant_id product_id product before after =
        field "merchant_id" (str merchant_id) (
          field "product_id" (str product_id) (
            field "product_name" (str product.name) (
              field "snapshot_id" (str (snapshot_id product_id before after)) (
                field "as_of" (str "2026-09-14T00:00:00Z") (
                  field "metric_version" (str "paid_orders_funnel_v1") (
                    field "timezone" (str "America/Los_Angeles") (
                      field "comparison" (comparison_json (compared before after)) (
                        field "channels" (channels_json before after) (
                          field "evidence_ids"
                            (arr (
                              cons (str "metric_paid_orders")
                                (cons (str "metric_search_impressions") nil)))
                            (field "missing_fields" (arr nil) end))))))))))

    abbrev measured :
        String → String → Option Product → Option MetricWindow → Option MetricWindow → Result Fields
    measured m p none before after = err product_not_found
    measured m p (some product) none after = err metrics_incomplete
    measured m p (some product) (some before) none = err metrics_incomplete
    measured m p (some product) (some before) (some after) =
        ok (metrics_result m p product before after)

    unfoldable pub get_metrics : String → String → Database → Result Fields
    unfolding select last_window take_text
    get_metrics merchant_id product_id db =
        measured merchant_id product_id (select (is_product merchant_id product_id) db.products)
          (last_window merchant_id product_id "comparison" db.windows)
          (last_window merchant_id product_id "current" db.windows)
