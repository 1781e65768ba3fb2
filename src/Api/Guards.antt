-- ===== src/Api/Guards.antt =====
-- What requests through main.py and api/router.py come to: who is let in, and that all are answered.
use e_commerce_agent.Base.{
  ◌≡◌, ◌⊎◌, inl, inr, refl, arith, ℕ, suc, String, Bool, true, false, Option, none, some,
  Bool-cases,
}
use e_commerce_agent.Errors.{Error, ok, err}
use e_commerce_agent.Exec.{pure, handle}
use e_commerce_agent.Platform.{Platform}
use e_commerce_agent.World.{World, new_token, bind_trace}
use package.e_commerce_agent.Api.{Web}
use package.e_commerce_agent.Api.Auth.{
  or_blank, authenticated_merchant, authenticated_merchant_cases, demo_merchant_id, IsAuthorized,
  IsRefusal, without_setting, without_token, beyond_ascii,
}
use package.e_commerce_agent.Api.Schemas.{Response}
use package.e_commerce_agent.Api.Routes.{
  Request, get_health, post_task, get_task, get_trace, post_input, post_approval, post_resume,
  get_events, dispatch, endpoint,
}
use package.e_commerce_agent.Api.Serve.{answer_error, trace_id_of, trace_id_pattern, serve}

-- Every endpoint but the health check.
abbrev pub needs_merchant : Request → Bool
needs_merchant get_health = false
needs_merchant request = true

-- The task that a request is about.
abbrev pub task_of : Request → Option String
task_of get_health = none
task_of (post_task q key) = none
task_of (get_task task_id) = some task_id
task_of (get_trace task_id) = some task_id
task_of (post_input task_id product_id) = some task_id
task_of (post_approval task_id q) = some task_id
task_of (post_resume task_id) = some task_id
task_of (get_events task_id after last_event_id) = some task_id

module _ (p : Platform) where
  -- The stores and the broker are as they were.
  pub record IsUntouched (w w' : World p) : Type 0 where
    pub redis : w'.redis ≡ w.redis
    pub commerce : w'.commerce ≡ w.commerce
    pub published : w'.published ≡ w.published

  module _ (web : Web) where
    trace_id_of-drawn :
        (provided : Option String) (w : World p)
        → (id : String) × (n : ℕ) × (trace_id_of p web provided w ≡ (ok id, record w { drawn = n }))
    unfolding trace_id_of new_token
    trace_id_of-drawn provided w =
        elim (Bool-cases (web.matches trace_id_pattern (or_blank provided))) [
          | inl fits ↦ (or_blank provided, w.drawn, rw fits refl)
          | inr odd ↦ (w.tokens w.drawn, suc w.drawn, rw odd refl)
        ]

    -- The request as its endpoint gets it: in this world, with this trace id.
    abbrev pub Entered : Option String → Option String → Request → World p → Type 0
    Entered provided authorization request w =
        (id : String) × (w' : World p) × IsUntouched w w'
        × (serve p web provided authorization request w
            ≡ handle (λ e. pure (answer_error id e)) (endpoint p web id authorization request w'))

    pub serve-Entered :
        (provided authorization : Option String) (request : Request) (w : World p)
        → Entered provided authorization request w
    unfolding serve bind_trace
    serve-Entered provided authorization request w =
        let (id, n, drawn) = trace_id_of-drawn provided w in
        (
          id,
          record w { drawn = n; trace = record { trace_id = id; task_id = ""; session_id = "" } },
          record { redis = refl; commerce = refl; published = refl },
          rw drawn refl,
        )

    endpoint-denied :
        (id : String) (authorization : Option String) (request : Request) (e : Error) (w : World p)
        → needs_merchant request ≡ true
        → authenticated_merchant p.lower web authorization w ≡ (err e, w)
        → endpoint p web id authorization request w ≡ (err e, w)
    unfolding endpoint
    endpoint-denied id a get_health e w needs h = absurd (ground arith)
    endpoint-denied id a (post_task q key) e w needs h = rw h refl
    endpoint-denied id a (get_task task_id) e w needs h = rw h refl
    endpoint-denied id a (get_trace task_id) e w needs h = rw h refl
    endpoint-denied id a (post_input task_id product_id) e w needs h = rw h refl
    endpoint-denied id a (post_approval task_id q) e w needs h = rw h refl
    endpoint-denied id a (post_resume task_id) e w needs h = rw h refl
    endpoint-denied id a (get_events task_id after last) e w needs h = rw h refl

    pub endpoint-allowed :
        (id : String) (authorization : Option String) (request : Request) (w : World p)
        → authenticated_merchant p.lower web authorization w ≡ (ok demo_merchant_id, w)
        → needs_merchant request ≡ true
        → endpoint p web id authorization request w ≡ dispatch p web id demo_merchant_id request w
    unfolding endpoint
    endpoint-allowed id a get_health w h needs = absurd (ground arith)
    endpoint-allowed id a (post_task q key) w h needs = rw h refl
    endpoint-allowed id a (get_task task_id) w h needs = rw h refl
    endpoint-allowed id a (get_trace task_id) w h needs = rw h refl
    endpoint-allowed id a (post_input task_id product_id) w h needs = rw h refl
    endpoint-allowed id a (post_approval task_id q) w h needs = rw h refl
    endpoint-allowed id a (post_resume task_id) w h needs = rw h refl
    endpoint-allowed id a (get_events task_id after last) w h needs = rw h refl

    -- What the request of a caller who is not let in is answered with.
    abbrev pub IsDenial : Response → Type 0
    IsDenial response =
        ((response.http_status ≡ 401) × (response.code ≡ "UNAUTHORIZED"))
        ⊎ (((response.http_status ≡ 503) × (response.code ≡ "AUTH_NOT_CONFIGURED"))
            ⊎ ((response.http_status ≡ 500) × (response.code ≡ "INTERNAL_ERROR")))

    IsRefusal-IsDenial : (id : String) (e : Error) → IsRefusal e → IsDenial (answer_error id e)
    unfolding answer_error
    IsRefusal-IsDenial id e without_token = inl (refl, refl)
    IsRefusal-IsDenial id e without_setting = inr (inl (refl, refl))
    IsRefusal-IsDenial id e beyond_ascii = inr (inr (refl, refl))

    -- Without the configured bearer token every request but the health check is answered with 401, with
    -- 503 where no token is configured, or with 500, and neither stores nor broker change.
    pub serve-IsDenial :
        (provided authorization : Option String) (request : Request) (w : World p)
        → needs_merchant request ≡ true
        → (IsAuthorized p.lower web authorization → ⊥)
        → (response : Response) × (w' : World p) × (serve p web provided authorization request w
            ≡ (ok response, w'))
          × IsDenial response
          × IsUntouched w w'
    serve-IsDenial provided authorization request w needs stranger =
        let (id, w', same, served) = serve-Entered provided authorization request w in
        elim (authenticated_merchant_cases p.lower web authorization w') [
          | inl (a, allowed) ↦ absurd (stranger a)
          | inr (e, why, refused) ↦ (
            answer_error id e,
            w',
            rw served (rw (endpoint-denied id authorization request e w' needs refused) refl),
            IsRefusal-IsDenial id e why,
            same,
          )
        ]
