-- ===== src/Examples/Requests.antt =====
-- A request that cancels a job, over an in-memory job service.
use hyperscale_job_scheduler.Base.{
  Option-cases, All, inr, List, ℕ, Option, refl, inl, arith, ◌≤◌, none, some, [], ◌∷◌, str_eq,
  if◌then◌else◌, ◌≡◌, ◌⊎◌,
}
use hyperscale_job_scheduler.Exec.{ok, err}
use hyperscale_job_scheduler.Types.{payout_batch}
use hyperscale_job_scheduler.Http.Messages.{Server, Request, Response, Thrown, Claims, number}
use hyperscale_job_scheduler.Http.Jobs.{JobApi, Method, serve}
use hyperscale_job_scheduler.Http.Schemas.{
  Field, by_default, Asks, first, later, IsWithin, list_jobs_schema,
}
use hyperscale_job_scheduler.Http.Listing.{Joi, Listed, serve-Listed}
use hyperscale_job_scheduler.Http.Guard.{Admitted, serve-Admitted}
use hyperscale_job_scheduler.Http.App.{Call}
use hyperscale_job_scheduler.Http.Service.{JobView, job_api}
use hyperscale_job_scheduler.Examples.MemoryServices.{memory_services, world}
use hyperscale_job_scheduler.Examples.Listings.{memory_reads}
use hyperscale_job_scheduler.Examples.MemoryJobs.{memory_jobs}
use hyperscale_job_scheduler.Jobs.Queries.{JobDocument}
use hyperscale_job_scheduler.Types.{Job}

abbrev claims : Claims
claims = record { user_id = "u"; role = "ops"; name = "Ada"; permissions = none; role_level = 1 }

abbrev lost_connection : Thrown
lost_connection = record {
  app_status = none;
  name = "MongoServerError";
  code = some (number 11000);
  message = "E11000 duplicate key";
}

abbrev server : Server
server = record {
  Json = Unit {0};
  jwt_secret = some "key";
  verify = λ token secret. if str_eq token "good" then ok (some claims) else err [];
  messages_of = λ schema json. none;
  value_of = λ schema json. json;
  create_request_of = λ json. record {
    job_type = payout_batch;
    tenant_id = "t";
    scheduled_at = 5;
    payload = [];
    cron_expression = none;
  };
  status_of = λ json. none;
  job_type_of = λ json. none;
  number_of = λ name json. some (if str_eq name "page" then 1 else 20);
  thrown_of = λ e. lost_connection;
  type_error = lost_connection;
}

-- The queries see the job "a".
abbrev listed_job : Option Job → List JobDocument
listed_job none = []
listed_job (some j) = record { job = j; created_at = 10 } ∷ []

listed-stored :
    (d : memory_jobs.Db)
    → All (λ x. memory_jobs.doc d x.job.job_id ≡ some x.job) (listed_job (memory_jobs.doc d "a"))
listed-stored d = elim (Option-cases (d "a")) [
  | inl missing ↦ rw missing tt
  | inr (j, there) ↦ rw (there, there) (refl, tt)
]

abbrev memory_view : JobView memory_services memory_reads
memory_view = record { view = λ d. listed_job (memory_jobs.doc d "a"); stored = listed-stored }

abbrev api : JobApi
api = job_api memory_services memory_reads memory_view "uuid" (λ t. []) 100

-- A request with a token, for any of the routes.
abbrev with_token : Request (Unit {0})
with_token = record {
  original_url = "/api/v1/jobs/a";
  cookie_jwt = none;
  authorization = some ("Bearer" ∷ "good" ∷ []);
  user = none;
  body = tt;
  query = tt;
}

serve-Admitted_example :
    Admitted server Method.delete ("a" ∷ []) with_token
    ⊎ ((r : Response) × ((serve server api Method.delete ("a" ∷ []) with_token world ≡ (r, world))
          × (400 ≤ r.status)))
serve-Admitted_example = serve-Admitted server api Method.delete ("a" ∷ []) with_token world

default_number :
    (f : Field) (least : ℕ) (most : Option ℕ) (default : ℕ)
    → Asks f list_jobs_schema.fields
    → f.presence ≡ by_default default
    → (n : ℕ) × (some (if str_eq f.name "page" then 1 else 20) ≡ some n)
      × ((n ≡ default) ⊎ IsWithin least most n)
default_number _ least most default first e = absurd (ground arith)
default_number _ least most default (later first) e = absurd (ground arith)
default_number _ least most default (later (later first)) e = (1, refl, inl (ground arith))
default_number _ least most default (later (later (later first))) e = (20, refl, inl (ground arith))
default_number _ least most default (later (later (later (later rest)))) e = elim rest [ ]

abbrev joi : Joi server
joi = record {
  validated_number =
      λ f least most default json asks r p h. default_number f least most default asks p;
}

serve-Listed_example :
    Listed server api with_token world
    ⊎ ((r : Response) × (serve server api Method.get [] with_token world ≡ (r, world))
        × (400 ≤ r.status))
serve-Listed_example = serve-Listed server api joi with_token world

abbrev cancel_call : Call (Unit {0})
cancel_call = record {
  method = Method.delete;
  path = "api" ∷ "v1" ∷ "jobs" ∷ "a" ∷ [];
  request_id = some "r-1";
  request = with_token;
}
