-- ===== src/Capacity/Accounting.antt =====
-- Permission accounting of `CapacityPolicy`: what is free on each device, what a growth asks of it,
-- and the publication of a command. The list `free` of the source is kept as its two sides, the
-- budgets and what has been subtracted from them, since it may be negative on the way.
use cross_pool.Prelude.{
  ℕ, zero, suc, ◌+◌, ◌-◌, max, Bool, true, false, not, ◌&&◌, Option, none, some, List, [], ◌∷◌,
  ◌++◌, leb, ltb, set, is_some, if◌then◌else◌, nat_eq,
}
use cross_pool.Prelude.Result.{
  Result, ok, err, runtime_error, value_error, index_error, ◌>>=◌, ◌>>◌, require,
}
use cross_pool.Capacity.State.{
  World, PartitionProfile, Location, Group, CapacityPolicy, QuotaCommand, command, at,
  capacity_groups, group_profiles, enumerate,
}

-- `xs[i] += n`.
abbrev pub add_at : List ℕ → ℕ → ℕ → Result (List ℕ)
add_at [] i n = err index_error
add_at (x ∷ xs) zero n = ok ((x + n) ∷ xs)
add_at (x ∷ xs) (suc i) n = do rest ← add_at xs i n; ok (x ∷ rest)

-- The loop over a group's partitions, with the strict `zip`.
unfoldable pub spend : List ℕ → List (ℕ × PartitionProfile) → List ℕ → List ℕ → Result (List ℕ)
spend spent [] [] [] = ok spent
spend spent ((device, _) ∷ ms) (old ∷ olds) (new ∷ news) = do
  next ← add_at spent device (max old new)
  spend next ms olds news
spend spent _ _ _ = err value_error

-- `operation.quota_bytes if operation is not None else active`.
abbrev pub target_of : Option QuotaCommand → List ℕ → List ℕ
target_of none active = active
target_of (some operation) active = operation.quota_bytes

abbrev pub spend_active :
    World → List ℕ → Location → Option (List ℕ) → Option QuotaCommand → Result (List ℕ)
spend_active w spent location none operation = ok spent
spend_active w spent location (some active) operation = do
  ms ← group_profiles w location
  spend spent ms active (target_of operation active)

unfoldable pub spend_groups : World → List Group → List ℕ → List (ℕ × Location) → Result (List ℕ)
unfolding spend
spend_groups w groups spent [] = ok spent
spend_groups w groups spent ((g, location) ∷ rest) = do
  group ← at groups g
  next ← spend_active w spent location group.active_quota group.operation
  spend_groups w groups next rest

abbrev pub zeros : List ℕ → List ℕ
zeros [] = []
zeros (x ∷ xs) = 0 ∷ zeros xs

-- `free`, unless a device is overdrawn.
unfoldable pub remaining : List ℕ → List ℕ → Result (List ℕ)
remaining [] _ = ok []
remaining (c ∷ cs) [] = ok (c ∷ cs)
remaining (c ∷ cs) (s ∷ ss) = do
  require (leb s c) runtime_error
  rest ← remaining cs ss
  ok ((c - s) ∷ rest)

abbrev pub free_of : World → List Group → Option (List ℕ) → Result (List ℕ)
free_of w groups none = err runtime_error
free_of w groups (some capacity) = do
  spent ← spend_groups w groups (zeros capacity) (enumerate 0 (capacity_groups w))
  remaining capacity spent

unfoldable pub pool_free_bytes : World → CapacityPolicy → Result (List ℕ)
unfolding spend_groups remaining
pool_free_bytes w p = free_of w p.groups p.pool_capacity_bytes

-- One entry of `growth_bytes`: a device, and the two ends of the increment `new - old`.
pub record Growth : Type 0 where
  pub device : ℕ
  pub old : ℕ
  pub new : ℕ

abbrev pub zip_growth : List (ℕ × PartitionProfile) → List ℕ → List ℕ → Result (List Growth)
zip_growth [] [] [] = ok []
zip_growth ((d, _) ∷ ms) (o ∷ os) (n ∷ ns) = do
  rest ← zip_growth ms os ns
  ok (record { device = d; old = o; new = n } ∷ rest)
zip_growth _ _ _ = err value_error

unfoldable pub growth_bytes : World → Location → List ℕ → List ℕ → Result (List Growth)
growth_bytes w location start target = do ms ← group_profiles w location; zip_growth ms start target

-- `all(free[device] >= count ...)`, which stops at the first that fails.
unfoldable pub covers : List ℕ → List Growth → Result Bool
covers free [] = ok true
covers free (r ∷ rs) =
    let rest = covers free rs in
    at free r.device >>= λ f. if leb r.new (f + r.old) then rest else ok false

-- The devices whose growth exceeds what is free there, with the missing bytes.
unfoldable pub shortages : List ℕ → List Growth → Result (List (ℕ × ℕ))
shortages free [] = ok []
shortages free (r ∷ rs) = do
  f ← at free r.device
  rest ← shortages free rs
  ok (if ltb (f + r.old) r.new then (r.device, r.new - (r.old + f)) ∷ rest else rest)

-- Writes one group's row; a missing row would be an `IndexError`, which `at` has raised before.
abbrev pub put_group : ℕ → Group → CapacityPolicy → CapacityPolicy
put_group g group p = record p { groups = set p.groups g group }

-- `publish_operation`.
unfoldable pub publish_operation : ℕ → List ℕ → CapacityPolicy → Result CapacityPolicy
publish_operation g quota_bytes p = do
  group ← at p.groups g
  require (is_some group.active_quota && not (is_some group.operation)) runtime_error
  let issued : QuotaCommand = record {
    sequence = group.applied_sequence + 1;
    quota_bytes = quota_bytes;
  }
  ok (record p {
    groups = set p.groups g (record group { operation = some issued });
    published = p.published ++ command g issued ∷ [];
  })
