-- ===== src/Http/App.antt =====
-- The application of src/app.ts: the request id of src/infra/middleware/requestid.middleware.ts, the
-- health check, the job routes under their prefix, and NotFound for the rest. cors, helmet and the
-- parsers of bodies and cookies are left out: they come before, and the request is what they make. Express also compares without regard to case,
-- and takes HEAD for GET, which the parts of a path here do not.
use hyperscale_job_scheduler.Base.{
  ◌≤◌, ap, ◌⊎◌, inl, inr, ap, ◌≡◌, refl, true, false, String, Bool, Option, none, some, List, [],
  ◌∷◌, str_eq, if◌then◌else◌, ◌&&◌, ◌≡◌, refl, ◌⊎◌, inl, inr,
}
use hyperscale_job_scheduler.Http.Messages.{Server, Request, Response}
use hyperscale_job_scheduler.Http.Middleware.{or_else}
use hyperscale_job_scheduler.Http.Errors.{not_found}
use hyperscale_job_scheduler.Http.Jobs.{Method, method_name, JobApi, serve}

-- A request to the application, by the parts of its path, with the x-request-id header.
pub record Call (Json : Type 0) : Type 0 where
  pub method : Method
  pub path : List String
  pub request_id : Option String
  pub request : Request Json

pub data Answer : Type 0 where
  healthy : Answer
  answer : Response → Answer

-- The answer with its x-request-id header.
pub record Reply : Type 0 where
  pub request_id : String
  pub answer : Answer

-- Where a path leads: app.get("/health"), app.use("/api/v1/jobs") and NotFound.
pub data Place : Type 0 where
  health : Place
  jobs : List String → Place
  nowhere : Place

abbrev under : List String → List String → Option (List String)
under [] path = some path
under (p ∷ ps) [] = none
under (p ∷ ps) (q ∷ qs) = if str_eq p q then under ps qs else none

abbrev is_get : Method → Bool
is_get Method.get = true
is_get _ = false

abbrev jobs_or : Option (List String) → Place
jobs_or none = nowhere
jobs_or (some rest) = jobs rest

abbrev exactly : List String → List String → Bool
exactly [] [] = true
exactly (p ∷ ps) (q ∷ qs) = str_eq p q && exactly ps qs
exactly _ _ = false

unfoldable pub place : Method → List String → Place
place method path =
    if is_get method && exactly ("health" ∷ []) path
    then health
    else jobs_or (under ("api" ∷ "v1" ∷ "jobs" ∷ []) path)

-- Where a path leads, told by the path itself.
data Leads (method : Method) (path : List String) : Place → Type 0 where
  to_health : method ≡ Method.get → path ≡ "health" ∷ [] → Leads method path health
  to_jobs :
      (rest : List String) → path ≡ "api" ∷ "v1" ∷ "jobs" ∷ rest → Leads method path (jobs rest)
  elsewhere : Leads method path Place.nowhere

-- `req.headers["x-request-id"] ?? uuidv4()`
unfoldable pub request_id_of : Option String → String → String
request_id_of given uuid = or_else given uuid

module _ (v : Server) (api : JobApi) where
  open v use {Json}
  open api use {State}

  abbrev at_place : Place → Call Json → State → Answer × State
  at_place health c s = (healthy, s)
  at_place (jobs rest) c s = let (r, s') = serve v api c.method rest c.request s in (answer r, s')
  at_place nowhere c s = (answer (not_found (method_name c.method) c.request.original_url), s)

  -- With the uuid that it draws.
  unfoldable pub app : String → Call Json → State → Reply × State
  unfolding request_id_of place
  app uuid c s =
      let (a, s') = at_place (place c.method c.path) c s in
      (record { request_id = request_id_of c.request_id uuid; answer = a }, s')

  -- The job service is not called: the request is GET /health, or its answer has a status of 400 or above.
  abbrev pub TurnedAway : Call Json → Answer → Type 0
  TurnedAway c a =
      ((c.method ≡ Method.get) × (c.path ≡ "health" ∷ []) × (a ≡ healthy))
      ⊎ ((r : Response) × (a ≡ answer r) × (400 ≤ r.status))
