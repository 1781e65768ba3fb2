-- ===== src/Api/Serve.antt =====
-- The middleware and the exception handlers of main.py.
use e_commerce_agent.Base.{ℕ, String, Bool, false, Option, ◌==◌, if◌then◌else◌}
use e_commerce_agent.Errors.{Error, unexpected, is_app_error, code, message, http_status}
use e_commerce_agent.Exec.{Exec, pure, catch, ◌>>=◌, ◌>>◌}
use e_commerce_agent.Platform.{Platform}
use e_commerce_agent.World.{World, new_token, bind_trace}
use package.e_commerce_agent.Api.{Web}
use package.e_commerce_agent.Api.Auth.{or_blank}
use package.e_commerce_agent.Api.Schemas.{Response, failure}
use package.e_commerce_agent.Api.Routes.{Request, endpoint}

abbrev pub refusal : ℕ → String → String → String → Response
refusal s c m trace_id = record {
  http_status = s;
  code = c;
  message = m;
  payload = failure (record { code = c; message = m; trace_id = trace_id });
}

abbrev pub app_error_handler : String → Error → Response
app_error_handler trace_id e = refusal (http_status e) (code e) (message e) trace_id

abbrev pub validation_error_handler : String → Response
validation_error_handler = refusal 422 "VALIDATION_ERROR" "请求参数校验失败"

abbrev pub unhandled_error_handler : String → Response
unhandled_error_handler = refusal 500 "INTERNAL_ERROR" "服务内部错误"

abbrev pub is_validation_error : Error → Bool
is_validation_error (unexpected name) = name == "RequestValidationError"
is_validation_error e = false

-- The handler of the class that is nearest to the exception's own.
unfoldable pub answer_error : String → Error → Response
unfolding is_app_error http_status code message
answer_error trace_id e =
    if is_app_error e
    then app_error_handler trace_id e
    else if is_validation_error e
    then validation_error_handler trace_id
    else unhandled_error_handler trace_id

abbrev pub trace_id_pattern : String
trace_id_pattern = "^[A-Za-z0-9._-]{1,128}$"

module _ (p : Platform) (web : Web) where
  unfoldable pub trace_id_of : Option String → Exec (World p) String
  trace_id_of provided =
      if web.matches trace_id_pattern (or_blank provided)
      then pure (or_blank provided)
      else new_token p

  -- A request with its headers `X-Trace-ID` and `Authorization`, from the middleware to the answer.
  unfoldable pub serve : Option String → Option String → Request → Exec (World p) Response
  unfolding trace_id_of
  serve provided authorization request = do
    trace_id ← trace_id_of provided
    bind_trace p trace_id "" ""
    catch (endpoint p web trace_id authorization request) (λ e. pure (answer_error trace_id e))
