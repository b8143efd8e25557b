-- ===== src/Http/Messages.antt =====
-- What goes in and out: User and AuthenticatedRequest of src/shared/types/index.ts, the bodies of the
-- responses, and what a handler may throw (AppError of src/shared/utils/AppError.ts, or another error).
use hyperscale_job_scheduler.Base.{ℕ, String, Option, none, some, List}
use hyperscale_job_scheduler.Exec.{Message, Result}
use hyperscale_job_scheduler.Types.{Job, JobType, JobStatus}
use hyperscale_job_scheduler.Services.Letters.{DeadLetter}
use hyperscale_job_scheduler.Pages.{PaginatedResult}
use hyperscale_job_scheduler.Jobs.Queries.{JobDocument, StatusCounts}
use hyperscale_job_scheduler.JobService.{CreateJobRequest}
use hyperscale_job_scheduler.Http.Schemas.{Schema}

pub record User : Type 0 where
  pub user_id : String
  pub role : String
  pub name : String
  pub permissions : List String
  pub role_level : ℕ

-- The `user` of a token's payload.
pub record Claims : Type 0 where
  pub user_id : String
  pub role : String
  pub name : String
  pub permissions : Option (List String)
  pub role_level : ℕ

-- The authorization header is its parts between blanks.
pub record Request (Json : Type 0) : Type 0 where
  pub original_url : String
  pub cookie_jwt : Option String
  pub authorization : Option (List String)
  pub user : Option User
  pub body : Json
  pub query : Json

pub data Body : Type 0 where
  rejected : String → Body
  lacking : List String → List String → Body
  failure : String → Body
  invalid : List String → Body
  one_job : Job → Body
  listing : PaginatedResult JobDocument → Body
  counts : StatusCounts → Body
  one_letter : DeadLetter → Body
  letters : PaginatedResult DeadLetter → Body

pub record Response : Type 0 where
  pub status : ℕ
  pub body : Body

-- The `code` of an error: Node's are texts, the database's are numbers.
pub data Code : Type 0 where
  text : String → Code
  number : ℕ → Code

-- What was thrown. An AppError has a status of its own.
pub record Thrown : Type 0 where
  pub app_status : Option ℕ
  pub name : String
  pub code : Option Code
  pub message : String

-- AppError.notFound
unfoldable pub app_not_found : String → Thrown
app_not_found message = record {
  app_status = some 404;
  name = "Error";
  code = none;
  message = message;
}

pub data Outcome (A : Type 0) : Type 0 where
  gives : A → Outcome A
  throws : Thrown → Outcome A

-- Whether a middleware answers or hands the request on.
pub data Step (Json : Type 0) : Type 0 where
  done : Response → Step Json
  next : Request Json → Step Json

-- The runtime and the libraries behind the handlers.
pub record Server : Type 1 where
  pub Json : Type 0
  -- process.env.JWT_SECRET
  pub jwt_secret : Option String
  -- jwt.verify(token, secret).user; a payload may have none.
  pub verify : String → String → Result (Option Claims)
  -- schema.validate: the messages of its error, or the value.
  pub messages_of : Schema → Json → Option (List String)
  pub value_of : Schema → Json → Json
  -- The fields of an object that a handler reads.
  pub create_request_of : Json → CreateJobRequest
  pub status_of : Json → Option JobStatus
  pub job_type_of : Json → Option JobType
  -- A field of this name, as a number.
  pub number_of : String → Json → Option ℕ
  -- The error that a call of a service threw, and the one for a field of nothing.
  pub thrown_of : Message → Thrown
  pub type_error : Thrown
