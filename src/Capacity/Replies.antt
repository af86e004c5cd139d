-- ===== src/Capacity/Replies.antt =====
-- The parts of `CapacityPolicy` that judge what the ranks have published: the replies to an operation,
-- and new demands.
use cross_pool.Prelude.{
  ℕ, Bool, true, false, not, ◌&&◌, ◌||◌, Option, none, some, List, [], ◌∷◌, ltb, leb, if◌then◌else◌,
  ◌==◌, nat_eq, length,
}
use cross_pool.Prelude.Result.{Result, ok, err, runtime_error, value_error, ◌>>=◌, ◌>>◌, require}
use cross_pool.Capacity.State.{
  World, PartitionProfile, Location, QuotaCommand, QuotaCompletion, QuotaDemand, Group, at,
  group_profiles, group_partition_indices,
}

-- `all(reply is not None and reply.sequence == sequence ...)`.
abbrev pub answered : ℕ → List (Option QuotaCompletion) → Bool
answered sequence [] = true
answered sequence (none ∷ replies) = false
answered sequence (some reply ∷ replies) =
    let rest = answered sequence replies in reply.sequence == sequence && rest

-- Every reply lies within its floor and the adopted grant.
abbrev check_replies :
    List (Option QuotaCompletion) → List (ℕ × PartitionProfile) → List ℕ → Result (Unit {0})
check_replies [] [] [] = ok tt
check_replies (none ∷ replies) (m ∷ ms) (quota ∷ quotas) = err runtime_error
check_replies (some reply ∷ replies) ((_, profile) ∷ ms) (quota ∷ quotas) =
    let rest = check_replies replies ms quotas in
    if leb profile.floor_bytes reply.backed_bytes && leb reply.backed_bytes quota
    then rest
    else err runtime_error
check_replies _ _ _ = err value_error

-- `any(new > old ...)`, which stops at the first that holds.
abbrev grows : List ℕ → List ℕ → Result Bool
grows [] [] = ok false
grows (old ∷ olds) (new ∷ news) =
    let rest = grows olds news in if ltb old new then ok true else rest
grows _ _ = err value_error

abbrev pub grant_grows : ℕ → Option (List ℕ) → List ℕ → Result Bool
grant_grows sequence none target = if sequence == 1 then ok false else err runtime_error
grant_grows sequence (some old) target = if sequence == 1 then ok false else grows old target

abbrev pub replies_at :
    List (Option QuotaCompletion) → List ℕ → Result (List (Option QuotaCompletion))
replies_at completions [] = ok []
replies_at completions (i ∷ is) = do
  c ← at completions i
  rest ← replies_at completions is
  ok (c ∷ rest)

-- Whether all ranks have adopted the operation; an answer outside its bounds is an error.
unfoldable pub adopted :
    World → List (Option QuotaCompletion) → Location → QuotaCommand → Result Bool
adopted w completions location operation = do
  indices ← group_partition_indices w location
  replies ← replies_at completions indices
  if answered operation.sequence replies
      then (do
        ms ← group_profiles w location
        check_replies replies ms operation.quota_bytes
        ok true)
      else ok false

-- The last sequence that was issued to a group.
abbrev pub last_issued : Group → ℕ
last_issued group = elim group.operation [
  | none ↦ group.applied_sequence
  | some operation ↦ operation.sequence
]

abbrev shrinks : List ℕ → List ℕ → Bool
shrinks [] _ = false
shrinks (old ∷ olds) [] = false
shrinks (old ∷ olds) (new ∷ news) = let rest = shrinks olds news in ltb new old || rest

abbrev check_vector : Group → QuotaDemand → Option (List ℕ) → Option (List ℕ) → Result (Unit {0})
check_vector group demand none active = ok tt
check_vector group demand (some required) none = ok tt
check_vector group demand (some required) (some active) = do
  require (length required == length active) runtime_error
  require (not (demand.evaluated_sequence == group.applied_sequence && shrinks active required))
      runtime_error

-- The checks of `consume_demands` on one group's publication.
unfoldable pub check_demand : Group → QuotaDemand → Result (Unit {0})
check_demand group demand = do
  require (leb demand.evaluated_sequence (last_issued group)) runtime_error
  check_vector group demand demand.required_bytes group.active_quota
