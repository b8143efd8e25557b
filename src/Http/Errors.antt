-- ===== src/Http/Errors.antt =====
-- errorHandler and NotFound of src/infra/middleware/error-handler.ts.
use Prim.Native.String.{◌++◌}
use hyperscale_job_scheduler.Base.{
  ℕ, String, Bool, false, ◌&&◌, ◌||◌, Option, none, some, str_eq, if◌then◌else◌, ◌≡◌, refl,
}
use hyperscale_job_scheduler.Http.Messages.{Response, Thrown, Code, text, number, failure}

unfoldable pub failed_with : ℕ → String → Response
failed_with status error = record { status = status; body = failure error }

-- `code === "11000"`
abbrev is_duplicate : Option Code → Bool
is_duplicate none = false
is_duplicate (some (number n)) = false
is_duplicate (some (text t)) = str_eq t "11000"

unfoldable pub other_error : Thrown → Response
unfolding failed_with
other_error t =
    if str_eq t.name "ValidationError"
    then failed_with 400 t.message
    else if str_eq t.name "MongoServerError" && is_duplicate t.code
    then failed_with 409 "Duplicate key: resource already exists"
    else if str_eq t.name "JsonWebTokenError" || str_eq t.name "TokenExpiredError"
    then failed_with 401 "Invalid or expired token"
    else failed_with 500 "Internal server error"

abbrev handled : Thrown → Option ℕ → Response
unfolding other_error failed_with
handled t none = other_error t
handled t (some status) = failed_with status t.message

unfoldable pub error_handler : Thrown → Response
unfolding handled
error_handler t = handled t t.app_status

unfoldable pub not_found : String → String → Response
unfolding failed_with
not_found method url = failed_with 404 ("Route " ++ (method ++ (" " ++ (url ++ " not found"))))

-- The message of an error is shown only for an AppError and a ValidationError: of any other error the
-- response is the same whatever its message says.
error_handler_hides :
    (t : Thrown) (message : String)
    → t.app_status ≡ none
    → str_eq t.name "ValidationError" ≡ false
    → error_handler t ≡ error_handler (record t { message = message })
unfolding error_handler
error_handler_hides t message plain other = rw (plain, other) refl
