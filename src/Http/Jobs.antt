-- ===== src/Http/Jobs.antt =====
-- The job routes: src/domains/job/job.routes.ts with the handlers of job.controller.ts, under the path
-- that src/app.ts gives them, with its last two middlewares. The handlers take the job service as an
-- interface.
use Prim.Native.String.{◌++◌}
use hyperscale_job_scheduler.Base.{
  ℕ, String, Option, none, some, List, [], ◌∷◌, str_eq, if◌then◌else◌,
}
use hyperscale_job_scheduler.Exec.{Exec, Result, ok, err}
use hyperscale_job_scheduler.Types.{Job, JobType, JobStatus}
use hyperscale_job_scheduler.Pages.{PaginatedResult}
use hyperscale_job_scheduler.Jobs.Queries.{JobDocument, StatusCounts}
use hyperscale_job_scheduler.JobService.{CreateJobRequest}
use hyperscale_job_scheduler.Http.Schemas.{create_job_schema, cancel_job_schema, list_jobs_schema}
use hyperscale_job_scheduler.Http.Messages.{
  Server, Request, Response, User, Step, done, next, Outcome, gives, throws, app_not_found, one_job,
  listing, counts,
}
use hyperscale_job_scheduler.Http.Middleware.{authenticate, validate_body, validate_query, or_else}
use hyperscale_job_scheduler.Http.Errors.{error_handler, not_found}

pub data Method : Type 0 where
  get post delete put patch : Method

abbrev pub method_name : Method → String
method_name get = "GET"
method_name post = "POST"
method_name delete = "DELETE"
method_name put = "PUT"
method_name patch = "PATCH"

pub data Endpoint : Type 0 where
  create_job list_jobs job_stats : Endpoint
  get_job cancel_job : String → Endpoint

-- The routes in their order, by the parts of the path behind /api/v1/jobs.
unfoldable pub route : Method → List String → Option Endpoint
route post [] = some create_job
route get [] = some list_jobs
route get (part ∷ []) = if str_eq part "stats" then some job_stats else some (get_job part)
route delete (part ∷ []) = some (cancel_job part)
route _ _ = none

-- What the handlers call of the job service.
pub record JobApi : Type 1 where
  pub State : Type 0
  pub enqueue : CreateJobRequest → Exec State Job
  pub find_by_job_id : String → Exec State (Option Job)
  pub find_by_tenant : String → Option JobStatus → ℕ → ℕ → Exec State (PaginatedResult JobDocument)
  pub cancel : String → String → Exec State (Option Job)
  pub count_by_status : Option JobType → Exec State StatusCounts

module _ (v : Server) (api : JobApi) where
  open v use {Json, create_request_of, status_of, job_type_of, number_of, thrown_of, type_error}
  open api use {State, enqueue, find_by_job_id, find_by_tenant, cancel, count_by_status}

  -- What a handler makes of the result of the service. asyncHandler hands a throw to errorHandler.
  abbrev pub replies :
      {A : Type 0} → (A → Outcome Response) → Result A × State → Outcome Response × State
  replies f (ok a, s) = (f a, s)
  replies f (err e, s) = (throws (thrown_of e), s)

  abbrev job_or : String → Option Job → Outcome Response
  job_or missing none = throws (app_not_found missing)
  job_or missing (some job) = gives (record { status = 200; body = one_job job })

  unfoldable pub create_job_handler : Request Json → State → Outcome Response × State
  create_job_handler req s =
      replies (λ job. gives (record { status = 201; body = one_job job }))
        (enqueue (create_request_of req.body) s)

  unfoldable pub get_job_handler : String → Request Json → State → Outcome Response × State
  get_job_handler job_id req s =
      replies (job_or ("Job " ++ (job_id ++ " not found"))) (find_by_job_id job_id s)

  -- `user.userId` of no user throws.
  abbrev listed_for : Option User → Request Json → State → Outcome Response × State
  listed_for none req s = (throws type_error, s)
  listed_for (some user) req s =
      replies (λ result. gives (record { status = 200; body = listing result }))
        (find_by_tenant user.user_id (status_of req.query) (or_else (number_of "page" req.query) 1)
          (or_else (number_of "limit" req.query) 20) s)

  unfoldable pub list_jobs_handler : Request Json → State → Outcome Response × State
  list_jobs_handler req = listed_for req.user req

  abbrev cancelled_by : Option User → String → State → Outcome Response × State
  cancelled_by none job_id s = (throws type_error, s)
  cancelled_by (some user) job_id s =
      replies (job_or ("Job " ++ (job_id ++ " not found or already running")))
        (cancel job_id user.user_id s)

  unfoldable pub cancel_job_handler : String → Request Json → State → Outcome Response × State
  cancel_job_handler job_id req = cancelled_by req.user job_id

  unfoldable pub job_stats_handler : Request Json → State → Outcome Response × State
  job_stats_handler req s =
      replies (λ c. gives (record { status = 200; body = counts c }))
        (count_by_status (job_type_of req.query) s)

  -- The middleware between authentication and the handler.
  unfoldable pub checked : Endpoint → Request Json → Step Json
  checked create_job req = validate_body v create_job_schema req
  checked list_jobs req = validate_query v list_jobs_schema req
  checked job_stats req = next req
  checked (get_job job_id) req = next req
  checked (cancel_job job_id) req = validate_body v cancel_job_schema req

  unfoldable pub handler : Endpoint → Request Json → State → Outcome Response × State
  unfolding create_job_handler list_jobs_handler job_stats_handler get_job_handler
      cancel_job_handler
  handler create_job = create_job_handler
  handler list_jobs = list_jobs_handler
  handler job_stats = job_stats_handler
  handler (get_job job_id) = get_job_handler job_id
  handler (cancel_job job_id) = cancel_job_handler job_id

  abbrev pub answered : Outcome Response × State → Response × State
  answered (gives response, s) = (response, s)
  answered (throws t, s) = (error_handler t, s)

  abbrev pub after_check : Endpoint → Step Json → State → Response × State
  after_check e (done response) s = (response, s)
  after_check e (next req) s = answered (handler e req s)

  abbrev pub after_authentication : Endpoint → Step Json → State → Response × State
  after_authentication e (done response) s = (response, s)
  after_authentication e (next req) s = after_check e (checked e req) s

  abbrev pub dispatch : Option Endpoint → Method → Request Json → State → Response × State
  dispatch none method req s = (not_found (method_name method) req.original_url, s)
  dispatch (some e) method req s = after_authentication e (authenticate v req) s

  unfoldable pub serve : Method → List String → Request Json → State → Response × State
  unfolding route checked handler
  serve method path req s = dispatch (route method path) method req s
