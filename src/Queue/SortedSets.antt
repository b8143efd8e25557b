-- ===== src/Queue/SortedSets.antt =====
-- Redis sorted sets, as src/domains/scheduler/redis-job-queue.ts calls them. Redis and its client
-- are not code of the repository: the commands are parameters, and the laws state what the commands
-- are documented to do. A command that throws may or may not have taken effect.
use hyperscale_job_scheduler.Base.{
  ℕ, String, Bool, true, false, not, ◌&&◌, Option, some, List, [], ◌∷◌, ◌++◌, map, filter, take,
  drop, includes, length, leb, str_eq, ◌≡◌, ◌⊎◌,
}
use hyperscale_job_scheduler.Exec.{Exec, ok}

pub record Entry : Type 0 where
  pub member : String
  pub score : ℕ

pub data AddMode : Type 0 where
  nx xx : AddMode

abbrev pub in_range : ℕ → ℕ → Entry → Bool
in_range lo hi e = leb lo e.score && leb e.score hi

-- ZRANGEBYSCORE key lo hi LIMIT offset count, over the entries in the order of their scores.
abbrev pub range : ℕ → ℕ → ℕ → ℕ → List Entry → List Entry
range lo hi offset count es = take count (drop offset (filter (in_range lo hi) es))

abbrev pub members_of : List Entry → List String
members_of = map (λ e. e.member)

-- What is left after ZREM.
abbrev pub without : List String → List Entry → List Entry
without ids = filter (λ e. not (includes ids e.member))

abbrev pub has : String → List Entry → Bool
has m es = includes (members_of es) m

-- `e` stands somewhere among `old`, in place of nothing.
pub record Inserted (e : Entry) (old new : List Entry) : Type 0 where
  pub before : List Entry
  pub after : List Entry
  pub split : old ≡ before ++ after
  pub joined : new ≡ before ++ (e ∷ after)

-- What ZADD NX and ZADD XX do to a set.
abbrev pub Added : AddMode → Entry → List Entry → List Entry → Type 0
Added nx e old new =
    ((has e.member old ≡ true) × (new ≡ old)) ⊎ ((has e.member old ≡ false) × Inserted e old new)
Added xx e old new =
    ((has e.member old ≡ false) × (new ≡ old))
    ⊎ ((has e.member old ≡ true) × Inserted e (without (e.member ∷ []) old) new)

-- ZADD without CH returns the number of members that are new.
abbrev pub added_count : AddMode → Entry → List Entry → ℕ
added_count nx e old = elim (has e.member old) [ true ↦ 0 | false ↦ 1 ]
added_count xx e old = 0

pub record SortedSets : Type 1 where
  pub Sets : Type 0
  -- The entries of a set, in the order of their scores.
  pub entries : Sets → String → List Entry
  pub zadd : String → AddMode → ℕ → String → Exec Sets ℕ
  -- A pipeline of one command: its reply, or nothing.
  pub zrangebyscore : String → ℕ → ℕ → ℕ → ℕ → Exec Sets (Option (List String))
  pub zrem : String → List String → Exec Sets ℕ
  pub zcard : String → Exec Sets ℕ
  pub zcount : String → ℕ → ℕ → Exec Sets ℕ
  pub zadd-result :
      (k : String) (m : AddMode) (s : ℕ) (i : String) (z : Sets) (n : ℕ)
      → (zadd k m s i z).0 ≡ ok n
      → (n ≡ added_count m (record { member = i; score = s }) (entries z k))
        × Added m (record { member = i; score = s }) (entries z k) (entries (zadd k m s i z).1 k)
  pub zrange-result :
      (k : String) (lo hi offset count : ℕ) (z : Sets) (ids : List String)
      → (zrangebyscore k lo hi offset count z).0 ≡ ok (some ids)
      → ids ≡ members_of (range lo hi offset count (entries z k))
  pub zrange-entries :
      (k : String) (lo hi offset count : ℕ) (j : String) (z : Sets)
      → entries (zrangebyscore k lo hi offset count z).1 j ≡ entries z j
  pub zrem-result :
      (k : String) (ids : List String) (z : Sets) (n : ℕ)
      → (zrem k ids z).0 ≡ ok n
      → entries (zrem k ids z).1 k ≡ without ids (entries z k)
  pub zrem-entries :
      (k : String) (ids : List String) (z : Sets)
      → (entries (zrem k ids z).1 k ≡ entries z k)
        ⊎ (entries (zrem k ids z).1 k ≡ without ids (entries z k))
  pub zrem-entries_ne :
      (k : String) (ids : List String) (j : String) (z : Sets)
      → str_eq k j ≡ false
      → entries (zrem k ids z).1 j ≡ entries z j
  pub zcard-result :
      (k : String) (z : Sets) (n : ℕ) → (zcard k z).0 ≡ ok n → n ≡ length (entries z k)
  pub zcount-result :
      (k : String) (lo hi : ℕ) (z : Sets) (n : ℕ)
      → (zcount k lo hi z).0 ≡ ok n
      → n ≡ length (filter (in_range lo hi) (entries z k))
