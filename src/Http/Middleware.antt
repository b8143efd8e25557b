-- ===== src/Http/Middleware.antt =====
-- authenticate and requirePermissions of src/infra/middleware/auth.middleware.ts, and validateRequest of
-- src/infra/middleware/validate.middleware.ts.
use hyperscale_job_scheduler.Base.{
  ℕ, String, Bool, true, ◌&&◌, Option, none, some, List, [], ◌∷◌, includes, str_eq, if◌then◌else◌,
}
use hyperscale_job_scheduler.Exec.{Result, ok, err}
use hyperscale_job_scheduler.Http.Schemas.{Schema}
use hyperscale_job_scheduler.Http.Messages.{
  Server, Request, User, Claims, Step, done, next, rejected, lacking, invalid,
}

-- An empty text is as none to `!value`.
abbrev pub truthy : Option String → Option String
truthy none = none
truthy (some value) = if str_eq value "" then none else some value

abbrev second : List String → Option String
second (x ∷ y ∷ rest) = some y
second _ = none

abbrev bearer : Option (List String) → Option String
bearer none = none
bearer (some parts) = second parts

-- `a ?? b`
abbrev pub or_else {ℓ} : {A : Type ℓ} → Option A → A → A
or_else none b = b
or_else (some a) b = a

-- `req.cookies?.jwt ?? req.headers.authorization?.split(" ")[1]`
abbrev pub token_of : {Json : Type 0} → Request Json → Option String
token_of req = elim req.cookie_jwt [ none ↦ bearer req.authorization | some value ↦ some value ]

unfoldable pub user_of : Claims → User
user_of c = record {
  user_id = c.user_id;
  role = c.role;
  name = c.name;
  permissions = or_else c.permissions [];
  role_level = c.role_level;
}

module _ (v : Server) where
  open v use {Json, jwt_secret, verify, messages_of, value_of}

  abbrev answer_with : ℕ → String → Step Json
  answer_with status error = done (record { status = status; body = rejected error })

  unfoldable pub with_claims : Request Json → Result (Option Claims) → Step Json
  unfolding user_of
  with_claims req (err e) = answer_with 401 "Invalid token"
  with_claims req (ok none) = answer_with 401 "Invalid token"
  with_claims req (ok (some claims)) = next (record req { user = some (user_of claims) })

  unfoldable pub with_secret : Request Json → String → Option String → Step Json
  unfolding with_claims
  with_secret req token none = answer_with 500 "Server configuration error"
  with_secret req token (some secret) = with_claims req (verify token secret)

  unfoldable pub with_token : Request Json → Option String → Step Json
  unfolding with_secret
  with_token req none = answer_with 401 "Authentication required"
  with_token req (some token) = with_secret req token (truthy jwt_secret)

  unfoldable pub authenticate : Request Json → Step Json
  unfolding with_token
  authenticate req = with_token req (truthy (token_of req))

  abbrev every_in : List String → List String → Bool
  every_in [] granted = true
  every_in (p ∷ ps) granted = includes granted p && every_in ps granted

  abbrev permitted : List String → Request Json → Option User → Step Json
  permitted required req none = answer_with 401 "No permissions"
  permitted required req (some user) =
      if every_in required user.permissions
      then next req
      else done (record { status = 401; body = lacking required user.permissions })

  unfoldable pub require_permissions : List String → Request Json → Step Json
  require_permissions required req = permitted required req req.user

  abbrev refused_or : Option (List String) → Request Json → Step Json
  refused_or none req = next req
  refused_or (some messages) req = done (record { status = 400; body = invalid messages })

  -- validateRequest(schema) and validateRequest(schema, "query")
  unfoldable pub validate_body : Schema → Request Json → Step Json
  validate_body schema req =
      refused_or (messages_of schema req.body) (record req { body = value_of schema req.body })

  unfoldable pub validate_query : Schema → Request Json → Step Json
  validate_query schema req =
      refused_or (messages_of schema req.query) (record req { query = value_of schema req.query })
