-- ===== src/Http/Letters.antt =====
-- The handlers of src/domains/dead-letter/dead-letter-controller.ts, which no route uses, over the
-- queries of DeadLetters.
use hyperscale_job_scheduler.Base.{ℕ, String, Option, none, some, min, max, ◌≤◌, ◌≡◌, refl, arith}
use hyperscale_job_scheduler.Exec.{Exec, Message, Result, ok, err}
use hyperscale_job_scheduler.Types.{JobType}
use hyperscale_job_scheduler.Services.Documents.{Documents, ℤ, pos, negsuc}
use hyperscale_job_scheduler.Services.Letters.{DeadLetter}
use hyperscale_job_scheduler.Pages.{PaginatedResult}
use hyperscale_job_scheduler.DeadLetters.Queries.{find_by_job_id, find_unresolved, resolve}
use hyperscale_job_scheduler.Http.Messages.{
  Server, Request, Response, User, Outcome, gives, throws, rejected, one_letter, letters,
}
use hyperscale_job_scheduler.Http.Middleware.{or_else}

-- What the handlers take from a query or a body, parseInt(text, 10), where nothing stands for NaN, and
-- the listing where a number is NaN, which the driver gets.
pub record LetterInput (Json Db : Type 0) : Type 0 where
  pub tenant_of : Json → Option String
  pub job_type_of : Json → Option JobType
  pub page_of : Json → Option String
  pub limit_of : Json → Option String
  pub resolution_of : Json → Option Message
  pub parse_int : String → Option ℤ
  pub listed_nan :
      Option String → Option JobType → Option ℕ → Option ℕ → Exec Db (PaginatedResult DeadLetter)

-- `Math.max(1, x)`
unfoldable pub at_least_one : Option ℤ → Option ℕ
at_least_one none = none
at_least_one (some (pos n)) = some (max 1 n)
at_least_one (some (negsuc n)) = some 1

-- `Math.min(100, x)`
unfoldable pub at_most_hundred : Option ℕ → Option ℕ
at_most_hundred none = none
at_most_hundred (some n) = some (min 100 n)

module _ (v : Server) (c : Documents DeadLetter) (i : LetterInput v.Json c.Db) where
  open v use {Json, thrown_of, type_error}
  open c use {Db}
  open i use {tenant_of, job_type_of, page_of, limit_of, resolution_of, parse_int, listed_nan}

  abbrev replies : {A : Type 0} → (A → Outcome Response) → Result A × Db → Outcome Response × Db
  replies f (ok a, s) = (f a, s)
  replies f (err e, s) = (throws (thrown_of e), s)

  abbrev letter_or : String → Option DeadLetter → Outcome Response
  letter_or missing none = gives (record { status = 404; body = rejected missing })
  letter_or missing (some d) = gives (record { status = 200; body = one_letter d })

  abbrev list_with : Option ℕ → Option ℕ → Json → Exec Db (PaginatedResult DeadLetter)
  list_with (some page) (some limit) query =
      find_unresolved c (tenant_of query) (job_type_of query) page limit
  list_with page limit query = listed_nan (tenant_of query) (job_type_of query) page limit

  unfoldable pub list_dead_letters_handler : Request Json → Db → Outcome Response × Db
  unfolding at_least_one at_most_hundred
  list_dead_letters_handler req s =
      replies (λ result. gives (record { status = 200; body = letters result }))
        (list_with (at_least_one (parse_int (or_else (page_of req.query) "1")))
          (at_most_hundred (at_least_one (parse_int (or_else (limit_of req.query) "20")))) req.query
          s)

  unfoldable pub get_dead_letter_handler : String → Request Json → Db → Outcome Response × Db
  get_dead_letter_handler job_id req s =
      replies (letter_or "Dead letter not found") (find_by_job_id c job_id s)

  -- `resolution.slice` of no text throws before the database is asked.
  abbrev resolved_with : Option User → Option Message → String → ℕ → Db → Outcome Response × Db
  resolved_with none resolution job_id now s = (throws type_error, s)
  resolved_with (some user) none job_id now s = (throws type_error, s)
  resolved_with (some user) (some resolution) job_id now s =
      replies (letter_or "Dead letter not found or already resolved")
        (resolve c job_id user.user_id resolution now s)

  -- With the time at which it runs.
  unfoldable pub resolve_dead_letter_handler :
      String → ℕ → Request Json → Db → Outcome Response × Db
  resolve_dead_letter_handler job_id now req s =
      resolved_with req.user (resolution_of req.body) job_id now s

  -- Where the page and the limit of a request are whole numbers, negative or however large, the
  -- handler lists a page from 1 on with a limit from 1 to 100.
  list_dead_letters_bounds :
      (req : Request Json) (s : Db) (x y : ℤ)
      → parse_int (or_else (page_of req.query) "1") ≡ some x
      → parse_int (or_else (limit_of req.query) "20") ≡ some y
      → (page : ℕ) × (limit : ℕ) × (1 ≤ page)
        × (1 ≤ limit)
        × (limit ≤ 100)
        × (list_dead_letters_handler req s
            ≡ replies
                (λ result. gives (record { status = 200; body = letters result }))
                (find_unresolved c (tenant_of req.query) (job_type_of req.query) page limit s))
  unfolding list_dead_letters_handler
  list_dead_letters_bounds req s (pos m) (pos n) p q =
      (max 1 m, min 100 (max 1 n), omega arith, omega arith, omega arith, rw (p, q) refl)
  list_dead_letters_bounds req s (pos m) (negsuc n) p q =
      (max 1 m, 1, omega arith, omega arith, omega arith, rw (p, q) refl)
  list_dead_letters_bounds req s (negsuc m) (pos n) p q =
      (1, min 100 (max 1 n), omega arith, omega arith, omega arith, rw (p, q) refl)
  list_dead_letters_bounds req s (negsuc m) (negsuc n) p q =
      (1, 1, omega arith, omega arith, omega arith, rw (p, q) refl)
