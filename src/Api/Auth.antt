-- ===== src/Api/Auth.antt =====
-- `authenticated_merchant` of api/router.py.
use Prim.Native.String.{[] as empty, ◌∷◌ as ◌∷ˢ◌}
use e_commerce_agent.Base.{
  ◌≡◌, ◌↔◌, eq_iff, eq_refl, ◌⊎◌, inl, inr, refl, arith, String, Bool, true, false, not, ◌&&◌, ◌||◌,
  Option, none, some, ◌==◌, if◌then◌else◌, Bool-cases,
}
use e_commerce_agent.Errors.{Error, ok, err, app_error, unexpected}
use e_commerce_agent.Exec.{Exec, pure, raise, ensure, ◌>>=◌, ◌>>◌}
use package.e_commerce_agent.Api.{Web}

abbrev pub demo_merchant_id : String
demo_merchant_id = "demo-merchant"

-- `text.partition(" ")`: what stands before the first space, and what stands after it.
unfoldable pub partition : String → String × String
partition empty = ("", "")
partition (c ∷ˢ s) =
    let (before, after) = partition s in if (c ∷ˢ "") == " " then ("", s) else (c ∷ˢ before, after)

-- `secrets.compare_digest` takes texts of ASCII only.
unfoldable pub compare_digest : {S : Type 0} → Web → String → String → Exec S Bool
compare_digest web a b =
    if web.is_ascii a && web.is_ascii b then pure (a == b) else raise (unexpected "TypeError")

abbrev pub or_blank : Option String → String
or_blank none = ""
or_blank (some s) = s

abbrev pub not_configured : Error
not_configured = app_error "AUTH_NOT_CONFIGURED" "演示 API Token 尚未配置" 503

abbrev pub unauthorized : Error
unauthorized = app_error "UNAUTHORIZED" "认证失败" 401

module _ {S : Type 0} (lower : String → String) (web : Web) where
  -- `scheme.lower() != "bearer" or not compare_digest(…)`
  abbrev pub check_token : String × String → Exec S Unit
  check_token (scheme, provided) =
      if lower scheme == "bearer"
      then (compare_digest web provided web.demo_api_token >>= λ same. ensure same unauthorized)
      else raise unauthorized

  unfoldable pub authenticated_merchant : Option String → Exec S String
  unfolding partition compare_digest
  authenticated_merchant authorization = do
    ensure (not (web.demo_api_token == "" || web.demo_api_token == "<SET_ME>")) not_configured
    check_token (partition (or_blank authorization))
    pure demo_merchant_id

-- Whether the header is a bearer token that is the configured one, and one is configured.
pub record IsAuthorized (lower : String → String) (web : Web) (authorization : Option String)
    : Type 0 where
  pub set : (web.demo_api_token == "" || web.demo_api_token == "<SET_ME>") ≡ false
  pub scheme : (lower (partition (or_blank authorization)).0 == "bearer") ≡ true
  pub token : (partition (or_blank authorization)).1 ≡ web.demo_api_token
  pub ascii : web.is_ascii web.demo_api_token ≡ true

-- The exceptions that the check raises.
pub data IsRefusal : Error → Type 0 where
  without_setting : IsRefusal not_configured
  without_token : IsRefusal unauthorized
  beyond_ascii : IsRefusal (unexpected "TypeError")

module _ {S : Type 0} (lower : String → String) (web : Web) (authorization : Option String)
    (s : S) where
  abbrev Allowed : Type 0
  Allowed =
      IsAuthorized lower web authorization
      × (authenticated_merchant lower web authorization s ≡ (ok demo_merchant_id, s))

  abbrev Refused : Type 0
  Refused =
      (e : Error) × IsRefusal e × (authenticated_merchant lower web authorization s ≡ (err e, s))

  -- A request is authenticated, or refused by one of three exceptions; its state stays as it is.
  pub authenticated_merchant_cases : Allowed ⊎ Refused
  unfolding authenticated_merchant compare_digest
  authenticated_merchant_cases =
      let parts = partition (or_blank authorization) in
      elim (Bool-cases (web.demo_api_token == "" || web.demo_api_token == "<SET_ME>")) [
        | inl unset ↦ inr (not_configured, without_setting, rw unset refl)
        | inr set ↦ elim (Bool-cases (lower parts.0 == "bearer")) [
          | inr other ↦ inr (unauthorized, without_token, rw (set, other) refl)
          | inl scheme ↦
              elim (Bool-cases (web.is_ascii parts.1 && web.is_ascii web.demo_api_token)) [
                | inr beyond ↦
                    inr (unexpected "TypeError", beyond_ascii, rw (set, scheme) (rw beyond refl))
                | inl ascii ↦ elim (Bool-cases (parts.1 == web.demo_api_token)) [
                  | inr wrong ↦
                      inr (unauthorized, without_token, rw (set, scheme) (rw (ascii, wrong) refl))
                  | inl same ↦ inl (
                    record {
                      set = set;
                      scheme = scheme;
                      token = (eq_iff parts.1 web.demo_api_token).0 same;
                      ascii = ground arith;
                    },
                    rw (set, scheme) (rw (ascii, same) refl),
                  )
                ]
              ]
        ]
      ]

  pub IsAuthorized-allows :
      IsAuthorized lower web authorization
      → authenticated_merchant lower web authorization s ≡ (ok demo_merchant_id, s)
  unfolding authenticated_merchant compare_digest
  IsAuthorized-allows a =
      rw (a.set, a.scheme) (rw a.token (rw (a.ascii, eq_refl web.demo_api_token) refl))

  -- A request is taken as the demonstration merchant's exactly if a token is configured, is of ASCII
  -- and not the placeholder, and the header is that token after the scheme `bearer`, in any case.
  pub authenticated_merchant_iff :
      (authenticated_merchant lower web authorization s ≡ (ok demo_merchant_id, s))
      ↔ IsAuthorized lower web authorization
  authenticated_merchant_iff = (
    λ accepted. elim authenticated_merchant_cases [
      | inl (a, same) ↦ a
      | inr (e, why, refused) ↦ absurd (ground arith)
    ],
    IsAuthorized-allows,
  )
