-- ===== src/Api/Routes/ErrorPages.antt =====
-- src/api/main.py: what the exception handlers answer with.
use eu_ai_act_compliance.Prelude.{ℕ, String, Option, none, some, ◌==◌, if◌then◌else◌, ◌+s◌}
use eu_ai_act_compliance.Result.{
  Exception, tenant_context_error, cross_tenant_write_error, not_authenticated, not_authorised,
  http_exception,
}

pub data ErrorPage : Type 0 where
  redirect_response : (location : String) (status_code : ℕ) → ErrorPage
  html_response : (content : String) (status_code : ℕ) → ErrorPage

-- `_http_error_as_html`; `str` prints the status code
unfoldable pub http_error_as_html :
    (str : ℕ → String) (status_code : ℕ) (detail : String) → ErrorPage
http_error_as_html str status_code detail =
    if status_code == 404
    then html_response
        "<h1>404 Not Found</h1><p>No such record. <a href=\"/history\">Back to my AI systems</a></p>"
        404
    else html_response ("<h1>" +s str status_code +s "</h1><p>" +s detail +s "</p>") status_code

-- The handler that is registered for the exception; the server answers any other one with its own
-- status 500. `forbidden` is the text of a NotAuthorised.
unfoldable pub handled : (str : ℕ → String) (forbidden : String) → Exception → Option ErrorPage
unfolding http_error_as_html
handled str forbidden not_authenticated = some (redirect_response "/login" 303)
handled str forbidden not_authorised =
    some (html_response ("<h1>403 Forbidden</h1><p>" +s forbidden +s "</p>") 403)
handled str forbidden tenant_context_error =
    some (html_response "<h1>500 Internal Server Error</h1>" 500)
handled str forbidden cross_tenant_write_error =
    some (html_response "<h1>500 Internal Server Error</h1>" 500)
handled str forbidden (http_exception status_code detail) =
    some (http_error_as_html str status_code detail)
handled str forbidden e = none
