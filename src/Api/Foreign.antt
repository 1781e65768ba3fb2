-- ===== src/Api/Foreign.antt =====
-- Requests of api/router.py for a task of another merchant.
use e_commerce_agent.Base.{
  ◌≡◌, ◌⊎◌, inl, inr, refl, String, true, false, Option, some, ◌==◌, Bool-cases,
}
use e_commerce_agent.Domain.{TaskRecord}
use e_commerce_agent.Errors.{Error, ok, err, merchant_forbidden}
use e_commerce_agent.Platform.{Platform}
use e_commerce_agent.World.{World}
use e_commerce_agent.Tasks.Approval.{ApprovalRequest}
use e_commerce_agent.Tasks.Owner
use package.e_commerce_agent.Api.{Web}
use package.e_commerce_agent.Api.Auth.{demo_merchant_id, IsAuthorized, IsAuthorized-allows}
use package.e_commerce_agent.Api.Schemas.{valid_input, valid_approval, Response}
use package.e_commerce_agent.Api.Trace.{get_task_trace}
use package.e_commerce_agent.Api.Routes.{
  Request, get_task, get_trace, post_input, post_approval, post_resume, get_events, invalid,
  dispatch,
}
use package.e_commerce_agent.Api.Serve.{answer_error, serve}
use package.e_commerce_agent.Api.Guards.{
  needs_merchant, IsUntouched, serve-Entered, endpoint-allowed,
}

-- The request is forbidden, or what it carries is refused first.
abbrev IsRejected : Error → Type 0
IsRejected e = (e ≡ merchant_forbidden) ⊎ (e ≡ invalid)

module _ (p : Platform) (web : Web) (task : TaskRecord) (w : World p) (task_id : String)
    (stored : p.get task_id w.redis.tasks ≡ some task)
    (foreign : (task.merchant_id == demo_merchant_id) ≡ false) where
  abbrev Rejected : Request → Type 0
  Rejected request =
      (id : String)
      → (e : Error) × IsRejected e × (dispatch p web id demo_merchant_id request w ≡ (err e, w))

  get_trace-Rejected : Rejected (get_trace task_id)
  unfolding dispatch get_task_trace
  get_trace-Rejected id = (
    merchant_forbidden,
    inl refl,
    rw (Owner.get_trace-foreign p task_id demo_merchant_id task w stored foreign) refl,
  )

  get_task-Rejected : Rejected (get_task task_id)
  unfolding dispatch
  get_task-Rejected id = (
    merchant_forbidden,
    inl refl,
    rw (Owner.get_task_for_merchant-foreign p task_id demo_merchant_id task w stored foreign) refl,
  )

  get_events-Rejected : (after last : Option String) → Rejected (get_events task_id after last)
  unfolding dispatch
  get_events-Rejected after last id = (
    merchant_forbidden,
    inl refl,
    rw (Owner.get_task_for_merchant-foreign p task_id demo_merchant_id task w stored foreign) refl,
  )

  post_resume-Rejected : Rejected (post_resume task_id)
  unfolding dispatch
  post_resume-Rejected id = (
    merchant_forbidden,
    inl refl,
    rw (Owner.resume_task-foreign p task_id demo_merchant_id task w stored foreign) refl,
  )

  post_input-Rejected : (product_id : String) → Rejected (post_input task_id product_id)
  unfolding dispatch
  post_input-Rejected product_id id = elim (Bool-cases (valid_input product_id)) [
    | inr odd ↦ (invalid, inr refl, rw odd refl)
    | inl fits ↦ (
      merchant_forbidden,
      inl refl,
      rw
          (
            fits,
            Owner.submit_input-foreign p task_id demo_merchant_id task w stored foreign product_id,
          )
          refl,
    )
  ]

  post_approval-Rejected : (q : ApprovalRequest) → Rejected (post_approval task_id q)
  unfolding dispatch
  post_approval-Rejected q id = elim (Bool-cases (valid_approval q)) [
    | inr odd ↦ (invalid, inr refl, rw odd refl)
    | inl fits ↦ (
      merchant_forbidden,
      inl refl,
      rw (fits, Owner.submit_approval-foreign p task_id demo_merchant_id task w stored foreign q)
          refl,
    )
  ]

-- That a request is about a task, as a relation.
pub data IsAbout (task_id : String) : Request → Type 0 where
  asks_task : IsAbout task_id (get_task task_id)
  asks_trace : IsAbout task_id (get_trace task_id)
  gives_input : (product_id : String) → IsAbout task_id (post_input task_id product_id)
  decides : (q : ApprovalRequest) → IsAbout task_id (post_approval task_id q)
  resumes : IsAbout task_id (post_resume task_id)
  listens : (after last : Option String) → IsAbout task_id (get_events task_id after last)

IsAbout-Rejected :
    (p : Platform) (web : Web) (task : TaskRecord) (w : World p) (task_id : String)
    (stored : p.get task_id w.redis.tasks ≡ some task)
    (foreign : (task.merchant_id == demo_merchant_id) ≡ false) (request : Request)
    → IsAbout task_id request
    → (needs_merchant request ≡ true) × Rejected p web task w task_id stored foreign request
IsAbout-Rejected p web task w t stored foreign request asks_task =
    (refl, get_task-Rejected p web task w t stored foreign)
IsAbout-Rejected p web task w t stored foreign request asks_trace =
    (refl, get_trace-Rejected p web task w t stored foreign)
IsAbout-Rejected p web task w t stored foreign request (gives_input product_id) =
    (refl, post_input-Rejected p web task w t stored foreign product_id)
IsAbout-Rejected p web task w t stored foreign request (decides q) =
    (refl, post_approval-Rejected p web task w t stored foreign q)
IsAbout-Rejected p web task w t stored foreign request resumes =
    (refl, post_resume-Rejected p web task w t stored foreign)
IsAbout-Rejected p web task w t stored foreign request (listens after last) =
    (refl, get_events-Rejected p web task w t stored foreign after last)

abbrev pub IsForbidden : Response → Type 0
IsForbidden response =
    ((response.http_status ≡ 403) × (response.code ≡ "MERCHANT_FORBIDDEN"))
    ⊎ ((response.http_status ≡ 422) × (response.code ≡ "VALIDATION_ERROR"))

IsRejected-IsForbidden : (id : String) (e : Error) → IsRejected e → IsForbidden (answer_error id e)
unfolding answer_error
IsRejected-IsForbidden id e (inl h) = inl (rw h (refl, refl))
IsRejected-IsForbidden id e (inr h) = inr (rw h (refl, refl))

-- A request with the right token for a stored task of another merchant, be it to read it, its trace or
-- its events, to answer it or to resume it, is answered with 403, or with 422 where what it carries is
-- invalid, and neither stores nor broker change.
pub serve-IsForbidden :
    (p : Platform) (web : Web) (provided authorization : Option String) (request : Request)
    (task : TaskRecord) (task_id : String) (w : World p)
    → IsAuthorized p.lower web authorization
    → IsAbout task_id request
    → p.get task_id w.redis.tasks ≡ some task
    → (task.merchant_id == demo_merchant_id) ≡ false
    → (response : Response) × (w' : World p) × (serve p web provided authorization request w
        ≡ (ok response, w'))
      × IsForbidden response
      × IsUntouched p w w'
serve-IsForbidden p web provided authorization request task task_id w right about stored foreign =
    let (id, w', same, served) = serve-Entered p web provided authorization request w in
    let stored' : p.get task_id w'.redis.tasks ≡ some task = rw same.redis stored in
    let (needs, reject) = IsAbout-Rejected p web task w' task_id stored' foreign request about in
    let (e, why, refused) = reject id in
    let allowed = IsAuthorized-allows p.lower web authorization w' right in
    (
      answer_error id e,
      w',
      rw served
          (rw (endpoint-allowed p web id authorization request w' allowed needs) (rw refused refl)),
      IsRejected-IsForbidden id e why,
      same,
    )
