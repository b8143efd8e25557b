-- ===== src/Examples/MemorySets.antt =====
-- Sorted sets in memory: a list of entries by key, in the order of their scores.
use hyperscale_job_scheduler.Base.{
  String, false, some, List, [], ◌∷◌, length, filter, includes, leb, str_eq, if◌then◌else◌, ◌≡◌,
  refl, ap, inl, inr, eq_refl, Bool-cases,
}
use hyperscale_job_scheduler.Exec.{ok, ok-eq, ok_some-eq}
use hyperscale_job_scheduler.Queue.SortedSets.{
  SortedSets, Entry, AddMode, nx, xx, in_range, range, members_of, without, has, Inserted, Added,
  added_count,
}

abbrev pub Memory : Type 0
Memory = String → List Entry

abbrev insert : Entry → List Entry → List Entry
insert e [] = e ∷ []
insert e (x ∷ xs) = if leb x.score e.score then x ∷ insert e xs else e ∷ x ∷ xs

insert-Inserted : (e : Entry) (xs : List Entry) → Inserted e xs (insert e xs)
insert-Inserted e [] = record { before = []; after = []; split = refl; joined = refl }
insert-Inserted e (x ∷ xs) = elim (Bool-cases (leb x.score e.score)) [
  | inl later ↦
      let i = insert-Inserted e xs in
      rw later (record {
        before = x ∷ i.before;
        after = i.after;
        split = ap (◌∷◌ x) i.split;
        joined = ap (◌∷◌ x) i.joined;
      })
  | inr here ↦ rw here (record { before = []; after = x ∷ xs; split = refl; joined = refl })
]

abbrev add : AddMode → Entry → List Entry → List Entry
add nx e old = if has e.member old then old else insert e old
add xx e old = if has e.member old then insert e (without (e.member ∷ []) old) else old

pub add-Added : (m : AddMode) (e : Entry) (old : List Entry) → Added m e old (add m e old)
add-Added nx e old = elim (Bool-cases (has e.member old)) [
  | inl h ↦ inl (h, rw h)
  | inr h ↦ inr (h, rw h (insert-Inserted e old))
]
add-Added xx e old = elim (Bool-cases (has e.member old)) [
  | inl h ↦ inr (h, rw h (insert-Inserted e (without (e.member ∷ []) old)))
  | inr h ↦ inl (h, rw h)
]

abbrev write : String → List Entry → Memory → Memory
write k es z j = if str_eq k j then es else z j

pub write_self : (k : String) (es : List Entry) (z : Memory) → write k es z k ≡ es
write_self k es z = rw (eq_refl k)

pub write_ne :
    (k : String) (es : List Entry) (j : String) (z : Memory)
    → str_eq k j ≡ false
    → write k es z j ≡ z j
write_ne k es j z h = rw h

abbrev pub memory_sets : SortedSets
memory_sets = record {
  Sets = Memory;
  entries = λ z. z;
  zadd = λ k m s i z.
      let e : Entry = record { member = i; score = s } in
      (ok (added_count m e (z k)), write k (add m e (z k)) z);
  zrangebyscore =
      λ k lo hi offset count z. (ok (some (members_of (range lo hi offset count (z k)))), z);
  zrem = λ k ids z.
      (ok (length (filter (λ x. includes ids x.member) (z k))), write k (without ids (z k)) z);
  zcard = λ k z. (ok (length (z k)), z);
  zcount = λ k lo hi z. (ok (length (filter (in_range lo hi) (z k))), z);
  zadd-result = λ k m s i z n p. (
    ok-eq _ _ p,
    rw (write_self k (add m (record { member = i; score = s }) (z k)) z)
        (add-Added m (record { member = i; score = s }) (z k)),
  );
  zrange-result = λ k lo hi offset count z ids p. ok_some-eq _ _ p;
  zrange-entries = λ k lo hi offset count j z. refl;
  zrem-result = λ k ids z n p. write_self k (without ids (z k)) z;
  zrem-entries = λ k ids z. inr (write_self k (without ids (z k)) z);
  zrem-entries_ne = λ k ids j z h. write_ne k (without ids (z k)) j z h;
  zcard-result = λ k z n p. ok-eq _ _ p;
  zcount-result = λ k lo hi z n p. ok-eq _ _ p;
}
