-- ===== src/Capacity/Donors.antt =====
-- The choice of a donor in `advance_attempt`.
use cross_pool.Prelude.{
  ℕ, suc, ◌-◌, max, Bool, not, ◌&&◌, ◌||◌, Option, none, some, List, [], ◌∷◌, ltb, is_some,
  if◌then◌else◌, ◌==◌, nat_eq,
}
use cross_pool.Prelude.Result.{Result, ok, err, value_error, ◌>>=◌}
use cross_pool.Prelude.Dict.{lookup}
use cross_pool.Capacity.State.{
  World, PartitionProfile, Location, Group, QuotaDemand, FundingAttempt, at, group_profiles,
}
use cross_pool.Capacity.Borrowers.{list_beq, mem}

abbrev short_on : List (ℕ × ℕ) → ℕ → ℕ
short_on missing device = elim (lookup device missing) [ none ↦ 0 | some n ↦ n ]

-- The donor's quota after it lends what is missing, but no floor: `max(floor, current - missing)`.
-- A floor is not negative, so the subtraction may stop at zero.
unfoldable pub lend : List (ℕ × ℕ) → List (ℕ × PartitionProfile) → List ℕ → Result (List ℕ)
lend missing [] [] = ok []
lend missing ((device, profile) ∷ ms) (current ∷ active) = do
  rest ← lend missing ms active
  ok (max profile.floor_bytes (current - short_on missing device) ∷ rest)
lend missing _ _ = err value_error

-- One entry of `candidates`, with its priority. `recency` is 0 for a group that was never granted, and
-- above the order of the last grant of any other.
pub record Donor : Type 0 where
  pub has_demand : Bool
  pub deadline : ℕ
  pub recency : ℕ
  pub group_index : ℕ
  pub target : List ℕ

abbrev deadline_key : QuotaDemand → ℕ
deadline_key demand =
    if is_some demand.required_bytes
    then elim demand.deadline_monotonic_ns [ none ↦ 0 | some n ↦ n ]
    else 0

abbrev recency_key : Option ℕ → ℕ
recency_key none = 0
recency_key (some order) = suc order

abbrev pub donor_of :
    World
    → List (ℕ × ℕ)
    → ℕ
    → Location
    → Group
    → Option (List ℕ)
    → Option QuotaDemand
    → Result (Option Donor)
donor_of w missing g location group (some active) (some demand) =
    if is_some group.operation || not (demand.evaluated_sequence == group.applied_sequence)
    then ok none
    else do
      ms ← group_profiles w location
      target ← lend missing ms active
      ok (
          if list_beq target active
          then none
          else some (record {
            has_demand = is_some demand.required_bytes;
            deadline = deadline_key demand;
            recency = recency_key group.completed_grant_order;
            group_index = g;
            target = target;
          }))
donor_of w missing g location group _ _ = ok none

abbrev pub add_donor : Option Donor → List Donor → List Donor
add_donor none donors = donors
add_donor (some d) donors = d ∷ donors

unfoldable pub donors :
    World → List Group → FundingAttempt → List (ℕ × ℕ) → List (ℕ × Location) → Result (List Donor)
unfolding lend
donors w groups attempt missing [] = ok []
donors w groups attempt missing ((g, location) ∷ rest) =
    let others = donors w groups attempt missing rest in
    if g == attempt.borrower_index || mem g attempt.attempted_donors then others else do
      group ← at groups g
      found ← donor_of w missing g location group group.active_quota group.demand
      ds ← others
      ok (add_donor found ds)

-- Lexicographic: no demand first, then the latest deadline, the latest grant (a group that was never
-- granted last) and the lowest index.
unfoldable pub precedes : Donor → Donor → Bool
precedes a b =
    (not a.has_demand && b.has_demand)
    || ((not (a.has_demand && not b.has_demand))
        && (ltb b.deadline a.deadline
            || (a.deadline == b.deadline
                && (ltb b.recency a.recency
                    || (a.recency == b.recency && ltb a.group_index b.group_index)))))

-- `min` of a list that is not empty.
unfoldable pub best : Donor → List Donor → Donor
unfolding precedes
best d [] = d
best d (e ∷ es) = best (if precedes e d then e else d) es
