-- ===== src/Http/Listing.antt =====
-- What a request that lists jobs asks of the job service: its schema with the handler behind it.
use hyperscale_job_scheduler.Base.{
  ℕ, String, Option, none, some, [], ◌≤◌, ◌≡◌, refl, subst, ◌⊎◌, inl, inr, arith,
}
use hyperscale_job_scheduler.Exec.{Result, ok, err}
use hyperscale_job_scheduler.Types.{JobStatus}
use hyperscale_job_scheduler.Pages.{PaginatedResult}
use hyperscale_job_scheduler.Jobs.Queries.{JobDocument}
use hyperscale_job_scheduler.Http.Schemas.{
  Field, whole_number, by_default, Asks, first, later, IsWithin, list_jobs_schema, page_field,
  limit_field,
}
use hyperscale_job_scheduler.Http.Messages.{Server, Request, Response, Claims, listing, gives}
use hyperscale_job_scheduler.Http.Middleware.{truthy, token_of, authenticate, validate_query}
use hyperscale_job_scheduler.Http.Errors.{error_handler}
use hyperscale_job_scheduler.Http.Jobs.{
  Method, Endpoint, list_jobs, route, JobApi, checked, serve, answered, replies,
}
use hyperscale_job_scheduler.Http.Guard.{Fits, Admitted, serve-Admitted}

-- What Joi gives for a number of the schema with a default: where there are no messages, the value has the field,
-- and it is the default or within the bounds.
pub record Joi (v : Server) : Type 0 where
  pub validated_number :
      (f : Field) (least : ℕ) (most : Option ℕ) (default : ℕ) (json : v.Json)
      → Asks f list_jobs_schema.fields
      → f.rule ≡ whole_number least most
      → f.presence ≡ by_default default
      → v.messages_of list_jobs_schema json ≡ none
      → (n : ℕ) × (v.number_of f.name (v.value_of list_jobs_schema json) ≡ some n)
        × ((n ≡ default) ⊎ IsWithin least most n)

module _ (v : Server) (api : JobApi) where
  open v use {messages_of, value_of, status_of, number_of, thrown_of}
  open api use {State, find_by_tenant}

  -- The answer to what the service gave.
  abbrev pub page_answer : Result (PaginatedResult JobDocument) × State → Response × State
  page_answer (ok result, s) = (record { status = 200; body = listing result }, s)
  page_answer (err e, s) = (error_handler (thrown_of e), s)

  -- The request carries a token that JWT_SECRET verifies, its query fits the schema, and the service was
  -- asked for the jobs of the token's user, with the status, page and limit that the query gives.
  pub record Listed (req : Request v.Json) (s : State) : Type 0 where
    pub claims : Claims
    pub secret : String
    pub token : String
    pub configured : truthy v.jwt_secret ≡ some secret
    pub carried : truthy (token_of req) ≡ some token
    pub verified : v.verify token secret ≡ ok (some claims)
    pub status : Option JobStatus
    pub page : ℕ
    pub limit : ℕ
    pub fits : messages_of list_jobs_schema req.query ≡ none
    pub status_asked : status_of (value_of list_jobs_schema req.query) ≡ status
    pub page_asked : number_of "page" (value_of list_jobs_schema req.query) ≡ some page
    pub limit_asked : number_of "limit" (value_of list_jobs_schema req.query) ≡ some limit
    pub page_least : 1 ≤ page
    pub limit_least : 1 ≤ limit
    pub limit_most : limit ≤ 100
    pub answered :
        serve v api Method.get [] req s
        ≡ page_answer (find_by_tenant claims.user_id status page limit s)

  endpoint_of : (e : Endpoint) → route Method.get [] ≡ some e → e ≡ list_jobs
  unfolding route
  endpoint_of e h = ground arith

  page_answered :
      (given : Result (PaginatedResult JobDocument) × State)
      → answered v api
          (replies v api (λ result. gives (record { status = 200; body = listing result })) given)
        ≡ page_answer given
  page_answered (ok result, s) = refl
  page_answered (err e, s) = refl

  module _ (joi : Joi v) where
    page_of :
        (json : v.Json)
        → messages_of list_jobs_schema json ≡ none
        → (n : ℕ) × (number_of "page" (value_of list_jobs_schema json) ≡ some n) × (1 ≤ n)
    page_of json h =
        let (n, given, fits) =
          joi.validated_number page_field 1 none 1 json (later (later first)) refl refl h in
        (n, given, ground arith)

    limit_of :
        (json : v.Json)
        → messages_of list_jobs_schema json ≡ none
        → (n : ℕ) × (number_of "limit" (value_of list_jobs_schema json) ≡ some n)
          × (1 ≤ n)
          × (n ≤ 100)
    limit_of json h =
        let (n, given, fits) =
          joi.validated_number limit_field 1 (some 100) 20 json (later (later (later first))) refl
            refl h in
        (n, given, ground arith, ground arith)

    listed : (req : Request v.Json) (s : State) → Admitted v Method.get [] req → Listed req s
    unfolding serve route checked authenticate validate_query
    listed req s a =
        let fits : messages_of list_jobs_schema req.query ≡ none =
          subst (λ e. Fits v e req) (endpoint_of a.endpoint a.routed) a.fits in
        let (page, page_given, page_least) = page_of req.query fits in
        let (limit, limit_given, limit_least, limit_most) = limit_of req.query fits in
        record {
          claims = a.claims;
          secret = a.secret;
          token = a.token;
          configured = a.configured;
          carried = a.carried;
          verified = a.verified;
          fits = fits;
          status_asked = refl;
          page_asked = page_given;
          limit_asked = limit_given;
          status = status_of (value_of list_jobs_schema req.query);
          page = page;
          limit = limit;
          page_least = page_least;
          limit_least = limit_least;
          limit_most = limit_most;
          answered =
              rw (a.carried, a.configured, a.verified, fits, page_given, limit_given)
                (page_answered (
                  find_by_tenant a.claims.user_id (status_of (value_of list_jobs_schema req.query))
                    page limit s));
        }

    -- A request that lists jobs is either answered with a status of 400 or above, and the job service's
    -- state stays as it is; or it carries a token that JWT_SECRET verifies and a query that fits the
    -- schema, the service is asked once, for the jobs of the token's user, with the status, the page and
    -- the limit that the query gives, where the page is 1 at least and the limit from 1 to 100, and the
    -- answer is this page, or what the error handler makes of the error.
    pub serve-Listed :
        (req : Request v.Json) (s : State)
        → Listed req s
          ⊎ ((r : Response) × (serve v api Method.get [] req s ≡ (r, s)) × (400 ≤ r.status))
    serve-Listed req s = elim (serve-Admitted v api Method.get [] req s) [
      | inl a ↦ inl (listed req s a)
      | inr refused ↦ inr (refused.0, refused.1.0, refused.1.1)
    ]
