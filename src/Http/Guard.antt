-- ===== src/Http/Guard.antt =====
-- Who reaches the job service, and with what.
use hyperscale_job_scheduler.Base.{
  String, none, some, List, ◌≤◌, ◌≡◌, refl, ◌⊎◌, inl, inr, arith, Option-cases,
}
use hyperscale_job_scheduler.Exec.{ok, Result-cases}
use hyperscale_job_scheduler.Http.Schemas.{create_job_schema, cancel_job_schema, list_jobs_schema}
use hyperscale_job_scheduler.Http.Messages.{
  Server, Request, Response, Claims, Step, done, next, rejected, invalid,
}
use hyperscale_job_scheduler.Http.Middleware.{
  truthy, token_of, user_of, authenticate, validate_body, validate_query,
}
use hyperscale_job_scheduler.Http.Errors.{not_found, failed_with}
use hyperscale_job_scheduler.Http.Jobs.{
  Method, method_name, Endpoint, create_job, list_jobs, job_stats, get_job, cancel_job, route,
  JobApi, checked, serve,
}

-- The input of a route fits its schema, where it has one.
abbrev pub Fits : (v : Server) → Endpoint → Request v.Json → Type 0
Fits v create_job req = v.messages_of create_job_schema req.body ≡ none
Fits v list_jobs req = v.messages_of list_jobs_schema req.query ≡ none
Fits v job_stats req = Unit {0}
Fits v (get_job job_id) req = Unit {0}
Fits v (cancel_job job_id) req = v.messages_of cancel_job_schema req.body ≡ none

-- The request names a route, carries a token that the secret verifies and that has a user, and its
-- input fits.
pub record Admitted (v : Server) (method : Method) (path : List String) (req : Request v.Json)
    : Type 0 where
  pub endpoint : Endpoint
  pub secret : String
  pub token : String
  pub claims : Claims
  pub routed : route method path ≡ some endpoint
  pub configured : truthy v.jwt_secret ≡ some secret
  pub carried : truthy (token_of req) ≡ some token
  pub verified : v.verify token secret ≡ ok (some claims)
  pub fits : Fits v endpoint req

module _ (v : Server) where
  -- Who a request is from.
  record Signed (req : Request v.Json) : Type 0 where
    secret : String
    token : String
    claims : Claims
    configured : truthy v.jwt_secret ≡ some secret
    carried : truthy (token_of req) ≡ some token
    verified : v.verify token secret ≡ ok (some claims)
    signed : authenticate v req ≡ next (record req { user = some (user_of claims) })

  Refused : Step v.Json → Type 0
  Refused st = (r : Response) × ((st ≡ done r) × (400 ≤ r.status))

  authenticated : (req : Request v.Json) → Signed req ⊎ Refused (authenticate v req)
  unfolding authenticate Refused
  authenticated req = elim (Option-cases (truthy (token_of req))) [
    | inl no_token ↦ inr (
      record { status = 401; body = rejected "Authentication required" },
      (rw no_token refl, omega arith),
    )
    | inr (token, carried) ↦ elim (Option-cases (truthy v.jwt_secret)) [
      | inl no_secret ↦ inr (
        record { status = 500; body = rejected "Server configuration error" },
        (rw (carried, no_secret) refl, omega arith),
      )
      | inr (secret, configured) ↦ elim (Result-cases (v.verify token secret)) [
        | inl (e, p) ↦ inr (
          record { status = 401; body = rejected "Invalid token" },
          (rw (carried, configured, p) refl, omega arith),
        )
        | inr (none, p) ↦ inr (
          record { status = 401; body = rejected "Invalid token" },
          (rw (carried, configured, p) refl, omega arith),
        )
        | inr (some claims, p) ↦ inl (record {
          secret = secret;
          token = token;
          claims = claims;
          configured = configured;
          carried = carried;
          verified = p;
          signed = rw (carried, configured, p) refl;
        })
      ]
    ]
  ]

module _ (v : Server) (api : JobApi) where
  open api use {State}

  checks : (e : Endpoint) (req : Request v.Json) → Fits v e req ⊎ Refused v (checked v api e req)
  unfolding checked Refused validate_body validate_query
  checks create_job req = elim (Option-cases (v.messages_of create_job_schema req.body)) [
    | inl fits ↦ inl fits
    | inr (messages, p) ↦
        inr (record { status = 400; body = invalid messages }, (rw p refl, omega arith))
  ]
  checks list_jobs req = elim (Option-cases (v.messages_of list_jobs_schema req.query)) [
    | inl fits ↦ inl fits
    | inr (messages, p) ↦
        inr (record { status = 400; body = invalid messages }, (rw p refl, omega arith))
  ]
  checks job_stats req = inl tt
  checks (get_job job_id) req = inl tt
  checks (cancel_job job_id) req = elim (Option-cases (v.messages_of cancel_job_schema req.body)) [
    | inl fits ↦ inl fits
    | inr (messages, p) ↦
        inr (record { status = 400; body = invalid messages }, (rw p refl, omega arith))
  ]

  unsigned :
      (e : Endpoint) (req : Request v.Json) (claims : Claims)
      → Fits v e (record req { user = some (user_of claims) })
      → Fits v e req
  unsigned create_job req claims h = h
  unsigned list_jobs req claims h = h
  unsigned job_stats req claims h = tt
  unsigned (get_job job_id) req claims h = tt
  unsigned (cancel_job job_id) req claims h = h

  -- Every request either is admitted: it names a route, carries a token that JWT_SECRET verifies and
  -- that has a user, and its input fits the route's schema; or the job service is not called, so that
  -- its state stays, and the answer's status is 400 or above.
  pub serve-Admitted :
      (method : Method) (path : List String) (req : Request v.Json) (s : State)
      → Admitted v method path req
        ⊎ ((r : Response) × ((serve v api method path req s ≡ (r, s)) × (400 ≤ r.status)))
  unfolding serve Refused not_found failed_with
  serve-Admitted method path req s = elim (Option-cases (route method path)) [
    | inl no_route ↦
        inr (not_found (method_name method) req.original_url, (rw no_route refl, omega arith))
    | inr (e, routed) ↦ elim (authenticated v req) [
      | inr (r, (p, h)) ↦ inr (r, (rw (routed, p) refl, h))
      | inl a ↦
          let req' = record req { user = some (user_of a.claims) } in
          elim (checks e req') [
            | inr (r, (p, h)) ↦ inr (r, (rw (routed, a.signed, p) refl, h))
            | inl fits ↦ inl (record {
              endpoint = e;
              secret = a.secret;
              token = a.token;
              claims = a.claims;
              routed = routed;
              configured = a.configured;
              carried = a.carried;
              verified = a.verified;
              fits = unsigned e req a.claims fits;
            })
          ]
    ]
  ]
