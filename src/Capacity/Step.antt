-- ===== src/Capacity/Step.antt =====
-- Funding a borrower, and one step of the policy: `advance_attempt`, `note_retired_donor` and `step`.
use cross_pool.Prelude.{
  ℕ, Bool, true, false, not, ◌&&◌, ◌||◌, ◌++◌, Option, none, some, List, [], ◌∷◌, any, map, is_some,
  if◌then◌else◌, ◌==◌, nat_eq,
}
use cross_pool.Prelude.Result.{Result, ok, err, runtime_error}
use cross_pool.Prelude.Action.{pure, reads, modify, ◌>>=◌, ◌>>◌}
use cross_pool.Capacity.State.{
  World, Location, Group, CapacityPolicy, QuotaCompletion, QuotaDemand, DeviceMemoryReport,
  FundingAttempt, at, capacity_groups, group_profiles, enumerate,
}
use cross_pool.Capacity.Accounting.{pool_free_bytes, growth_bytes, covers, shortages}
use cross_pool.Capacity.Retire.{
  Method, group_at, freeze_pools, publish, retire_operations, publish_next_initial_operation,
  consume_demands,
}
use cross_pool.Capacity.Borrowers.{Eligible, eligible_demand, ordered_borrowers, list_beq, mem}
use cross_pool.Capacity.Donors.{Donor, donors, best}

abbrev pub directory : World → List (ℕ × Location)
directory w = enumerate 0 (capacity_groups w)

abbrev pub set_attempt : Option FundingAttempt → Method (Unit {0})
set_attempt a = modify (λ p. record p { funding_attempt = a })

-- `attempt_is_current`, on what `eligible_demand` returned.
abbrev pub is_current : FundingAttempt → Option Eligible → Bool
is_current attempt none = false
is_current attempt (some demand) =
    demand.evaluated_sequence == attempt.evaluated_sequence
    && list_beq demand.required attempt.target_quota_bytes
    && demand.deadline == attempt.deadline_monotonic_ns

-- The best donor shrinks, and the attempt waits for it.
abbrev pub borrow_from : FundingAttempt → List Donor → Method Bool
borrow_from attempt [] = set_attempt none >> pure false
borrow_from attempt (d ∷ ds) = do
  let chosen = best d ds
  publish chosen.group_index chosen.target
  set_attempt (some (record attempt { donor_index = some chosen.group_index }))
  pure true

-- The borrower's quota; a borrower that has none is an error.
abbrev pub active_of : Group → Method (List ℕ)
active_of group = reads (λ _. elim group.active_quota [ none ↦ err runtime_error | some a ↦ ok a ])

-- `advance_attempt` from where the attempt is known to be current.
unfoldable pub fund : World → FundingAttempt → Method Bool
unfolding publish
fund w attempt = do
  free ← reads (pool_free_bytes w)
  location ← reads (λ _. at (capacity_groups w) attempt.borrower_index)
  group ← group_at attempt.borrower_index
  active ← active_of group
  required ← reads (λ _. growth_bytes w location active attempt.target_quota_bytes)
  fits ← reads (λ _. covers free required)
  if fits
      then (do
        publish attempt.borrower_index attempt.target_quota_bytes
        set_attempt none
        pure true)
      else do
        missing ← reads (λ _. shortages free required)
        ds ← reads (λ p. donors w p.groups attempt missing (directory w))
        borrow_from attempt ds

unfoldable pub advance_attempt : World → FundingAttempt → Method Bool
unfolding fund
advance_attempt w attempt = if is_some attempt.donor_index then pure false else do
  group ← group_at attempt.borrower_index
  demand ← reads (λ _. eligible_demand group)
  if is_current attempt demand then fund w attempt else set_attempt none >> pure false

abbrev pub note_donor : ℕ → FundingAttempt → FundingAttempt
note_donor g attempt =
    if elim attempt.donor_index [ none ↦ false | some d ↦ d == g ]
    then record attempt { donor_index = none; attempted_donors = g ∷ attempt.attempted_donors }
    else attempt

-- `note_retired_donor`; the set of attempted donors is a list.
unfoldable pub note_retired_donor : ℕ → CapacityPolicy → CapacityPolicy
note_retired_donor g p = elim p.funding_attempt [
  | none ↦ p
  | some attempt ↦ record p { funding_attempt = some (note_donor g attempt) }
]

unfoldable pub note_retired : List ℕ → CapacityPolicy → CapacityPolicy
unfolding note_retired_donor
note_retired [] p = p
note_retired (g ∷ gs) p = note_retired gs (note_retired_donor g p)

-- `eligible_demand` of a group that is looked up.
abbrev pub eligible_at : ℕ → Method (Option Eligible)
eligible_at g = do group ← group_at g; reads (λ _. eligible_demand group)

abbrev pub devices_of : World → ℕ → Result (List ℕ)
devices_of w g = elim (at (capacity_groups w) g) [
  | err e ↦ err e
  | ok location ↦ elim (group_profiles w location) [
    | err e ↦ err e
    | ok ms ↦ ok (map (λ m. m.0) ms)
  ]
]

-- A growth that fits what is free is published, and ends the loop.
abbrev pub grant_if_free :
    World → List ℕ → ℕ → Option Eligible → Method (Unit {0}) → Method (Unit {0})
grant_if_free w free g none rest = rest
grant_if_free w free g (some demand) rest = do
  location ← reads (λ _. at (capacity_groups w) g)
  required ← reads (λ _. growth_bytes w location demand.active demand.required)
  fits ← reads (λ _. covers free required)
  if fits then publish g demand.required else rest

-- While a donor is shrinking, a borrower on other devices may still grow into what is free.
unfoldable pub grant_elsewhere : World → List ℕ → List ℕ → List ℕ → Method (Unit {0})
unfolding publish
grant_elsewhere w free reserved [] = pure tt
grant_elsewhere w free reserved (g ∷ gs) = do
  devices ← reads (λ _. devices_of w g)
  if any (λ d. mem d reserved) devices then grant_elsewhere w free reserved gs else do
    demand ← eligible_at g
    grant_if_free w free g demand (grant_elsewhere w free reserved gs)

abbrev pub attempt_for : ℕ → Eligible → FundingAttempt
attempt_for g demand = record {
  borrower_index = g;
  evaluated_sequence = demand.evaluated_sequence;
  target_quota_bytes = demand.required;
  deadline_monotonic_ns = demand.deadline;
  attempted_donors = [];
  donor_index = none;
}

-- An attempt for an eligible borrower; it ends the loop if it publishes.
abbrev pub try_borrower : World → ℕ → Option Eligible → Method (Unit {0}) → Method (Unit {0})
try_borrower w g none rest = rest
try_borrower w g (some demand) rest = do
  let attempt = attempt_for g demand
  set_attempt (some attempt)
  done ← advance_attempt w attempt
  if done then pure tt else rest

-- The last loop of `step`.
unfoldable pub try_borrowers : World → List ℕ → Method (Unit {0})
unfolding advance_attempt
try_borrowers w [] = pure tt
try_borrowers w (g ∷ gs) = do demand ← eligible_at g; try_borrower w g demand (try_borrowers w gs)

abbrev pub borrowers : World → ℕ → Method (List ℕ)
borrowers w now = reads (λ p. ordered_borrowers w p.groups (directory w) now)

-- The groups on other devices, while the donor of an attempt shrinks.
unfoldable pub serve_others : World → ℕ → FundingAttempt → ℕ → Method (Unit {0})
unfolding grant_elsewhere
serve_others w now attempt donor = do
  lent ← reads (λ _. devices_of w attempt.borrower_index)
  lending ← reads (λ _. devices_of w donor)
  free ← reads (pool_free_bytes w)
  order ← borrowers w now
  grant_elsewhere w free (lent ++ lending) order

unfoldable pub start_attempts : World → ℕ → Method (Unit {0})
unfolding try_borrowers
start_attempts w now = do order ← borrowers w now; try_borrowers w order

-- After an attempt that did not publish: it still waits for its donor, or is over. The donor is the
-- one that the attempt had when `advance_attempt` returned, which then has left it alone.
abbrev pub continue_with : World → ℕ → FundingAttempt → Option ℕ → Method (Unit {0})
continue_with w now attempt none = start_attempts w now
continue_with w now attempt (some donor) = serve_others w now attempt donor

abbrev pub fund_next : World → ℕ → Option FundingAttempt → Method (Unit {0})
fund_next w now none = start_attempts w now
fund_next w now (some attempt) = do
  done ← advance_attempt w attempt
  if done then pure tt else continue_with w now attempt attempt.donor_index

-- What the channel and the clock show to one step.
pub record Snapshot : Type 0 where
  pub initial_backing : List (Option ℕ)
  pub device_memory : List (Option DeviceMemoryReport)
  pub completions : List (Option QuotaCompletion)
  pub demands : List (Option QuotaDemand)
  pub now_ns : ℕ

abbrev pub awaits_startup : List Group → List (ℕ × Location) → Result Bool
awaits_startup groups [] = ok false
awaits_startup groups ((g, _) ∷ rest) =
    let others = awaits_startup groups rest in
    elim (at groups g) [
      | err e ↦ err e
      | ok group ↦ if group.applied_sequence == 0 then ok true else others
    ]

abbrev pub freeze_once : World → Snapshot → Option (List ℕ) → Method (Unit {0})
freeze_once w snapshot none = freeze_pools w snapshot.initial_backing snapshot.device_memory
freeze_once w snapshot (some _) = pure tt

-- The step after the budgets are fixed.
unfoldable pub step_frozen : World → Snapshot → Method (Unit {0})
unfolding retire_operations note_retired publish_next_initial_operation consume_demands
    start_attempts serve_others advance_attempt
step_frozen w snapshot = do
  retired ← retire_operations w snapshot.completions (directory w)
  modify (note_retired retired)
  starting ← reads (λ p. awaits_startup p.groups (directory w))
  if starting then publish_next_initial_operation w >>= (λ _. pure tt) else do
    consume_demands snapshot.demands (directory w)
    attempt ← reads (λ p. ok p.funding_attempt)
    fund_next w snapshot.now_ns attempt

unfoldable pub step : World → Snapshot → Method (Unit {0})
unfolding freeze_pools step_frozen
step w snapshot p =
    if any (λ b. not (is_some b)) snapshot.initial_backing
      || any (λ r. not (is_some r)) snapshot.device_memory
    then pure tt p
    else (freeze_once w snapshot p.pool_capacity_bytes >> step_frozen w snapshot) p
