-- ===== src/Capacity/Attempts.antt =====
-- An attempt to fund a borrower, and the grants to borrowers on other devices, keep the policy sound.
use cross_pool.Prelude.{
  ℕ, ◌≡◌, refl, ap, ◌∙◌, Bool, true, false, Option, none, some, List, [], ◌∷◌, get_elem?,
  if◌then◌else◌, is_some, ◌==◌, nat_eq, and_true, any,
}
use cross_pool.Prelude.Result.{Result, ok, err}
use cross_pool.Prelude.Action.{reads, reads_ind, and_then, ◌>>=◌, ◌>>◌, pure}
use cross_pool.Capacity.State.{
  World, Location, Group, FundingAttempt, CapacityPolicy, at, at-eq-ok, capacity_groups,
}
use cross_pool.Capacity.Accounting.{Growth, growth_bytes, covers, pool_free_bytes}
use cross_pool.Capacity.Retire.{Method, publish, group_at}
use cross_pool.Capacity.Borrowers.{Eligible, eligible_demand, list_beq, mem}
use cross_pool.Capacity.Charge.{nth}
use cross_pool.Capacity.Sound.{IsSound, publish-IsSound}
use cross_pool.Capacity.Growing.{eligible_demand-IsBorrower, growth-IsFundable}
use cross_pool.Capacity.Funding.{fund-IsSound, set_attempt-IsSound, list_beq→≡}
use cross_pool.Capacity.Step.{
  set_attempt, is_current, fund, advance_attempt, eligible_at, devices_of, grant_if_free,
  grant_elsewhere,
}

module _ (w : World) (capacity : List ℕ) where
  abbrev pub I : {A : Type 0} → Result A × CapacityPolicy → Type 0
  I out = IsSound w capacity out.1

  current-target :
      (attempt : FundingAttempt) (found : Option Eligible)
      → is_current attempt found ≡ true
      → (demand : Eligible) × (found ≡ some demand) × (demand.required ≡ attempt.target_quota_bytes)
  current-target attempt none e = cc
  current-target attempt (some demand) e =
      let (both, _) = and_true _ (demand.deadline == attempt.deadline_monotonic_ns) e in
      let (_, same) = and_true _ (list_beq demand.required attempt.target_quota_bytes) both in
      (demand, refl, list_beq→≡ demand.required attempt.target_quota_bytes same)

  fund_if_current-IsSound :
      (attempt : FundingAttempt) (p : CapacityPolicy) (group : Group) (found : Option Eligible)
      (current : Bool)
      → IsSound w capacity p
      → get_elem? p.groups attempt.borrower_index ≡ some group
      → eligible_demand group ≡ ok found
      → is_current attempt found ≡ current
      → IsSound w capacity
          ((if current then fund w attempt else set_attempt none >> pure false) p).1
  fund_if_current-IsSound attempt p group found true sound here eligible e =
      let (demand, is, target) = current-target attempt found e in
      fund-IsSound w capacity attempt p group demand sound here
        (eligible_demand-IsBorrower group demand (eligible ∙ ap ok is)) target
  fund_if_current-IsSound attempt p group found false sound here eligible e =
      set_attempt-IsSound w capacity none p sound

  pub advance_attempt-IsSound :
      (attempt : FundingAttempt) (p : CapacityPolicy)
      → IsSound w capacity p
      → IsSound w capacity (advance_attempt w attempt p).1
  unfolding advance_attempt
  advance_attempt-IsSound attempt p sound = by_donor (is_some attempt.donor_index)
    where
      by_donor :
          (b : Bool)
          → IsSound w capacity
              ((if b then pure false else do
                group ← group_at attempt.borrower_index
                demand ← reads (λ _. eligible_demand group)
                if is_current attempt demand
                    then fund w attempt
                    else set_attempt none >> pure false)
                p).1
      by_donor true = sound
      by_donor false =
          reads_ind I (λ q. at q.groups attempt.borrower_index) _ p
            (λ group here.
              reads_ind I (λ _. eligible_demand group) _ p
                (λ found eligible.
                  fund_if_current-IsSound attempt p group found (is_current attempt found) sound
                    (at-eq-ok p.groups attempt.borrower_index here) eligible refl)
                (λ _. sound))
            (λ _. sound)

  pub eligible_at-IsSound :
      (g : ℕ) (k : Option Eligible → Method (Unit {0})) (p : CapacityPolicy)
      → IsSound w capacity p
      → ((group : Group) (found : Option Eligible)
          → get_elem? p.groups g ≡ some group
          → eligible_demand group ≡ ok found
          → IsSound w capacity (k found p).1)
      → IsSound w capacity ((eligible_at g >>= k) p).1
  eligible_at-IsSound g k p sound next = by_group (at p.groups g) refl
    where
      by_demand :
          (group : Group) (r : Result (Option Eligible))
          → get_elem? p.groups g ≡ some group
          → eligible_demand group ≡ r
          → IsSound w capacity (and_then r k p).1
      by_demand group (ok found) here e = next group found here e
      by_demand group (err x) here e = sound

      by_group :
          (r : Result Group)
          → at p.groups g ≡ r
          → IsSound w capacity
              (and_then
                (and_then r (λ group s. (eligible_demand group, s)) p).0
                k
                (and_then r (λ group s. (eligible_demand group, s)) p).1).1
      by_group (ok group) e = by_demand group (eligible_demand group) (at-eq-ok p.groups g e) refl
      by_group (err x) e = sound

  grant_if_free-IsSound :
      (free : List ℕ) (g : ℕ) (group : Group) (found : Option Eligible) (rest : Method (Unit {0}))
      (p : CapacityPolicy)
      → IsSound w capacity p
      → pool_free_bytes w p ≡ ok free
      → get_elem? p.groups g ≡ some group
      → eligible_demand group ≡ ok found
      → IsSound w capacity (rest p).1
      → IsSound w capacity (grant_if_free w free g found rest p).1
  grant_if_free-IsSound free g group none rest p sound freed here eligible later = later
  grant_if_free-IsSound free g group (some demand) rest p sound freed here eligible later =
      reads_ind I (λ _. at (capacity_groups w) g) _ p
        (λ location place.
          reads_ind I (λ _. growth_bytes w location demand.active demand.required) _ p
            (λ required grows.
              reads_ind I (λ _. covers free required) _ p
                (λ fits fit. by_fit location required fits place grows fit) (λ _. sound))
            (λ _. sound))
        (λ _. sound)
    where
      by_fit :
          (location : Location) (required : List Growth) (fits : Bool)
          → at (capacity_groups w) g ≡ ok location
          → growth_bytes w location demand.active demand.required ≡ ok required
          → covers free required ≡ ok fits
          → IsSound w capacity ((if fits then publish g demand.required else rest) p).1
      by_fit location required true place grows fit =
          publish-IsSound w capacity p g demand.required (nth free) sound (
            growth-IsFundable w capacity p sound free g location group demand required freed
              (at-eq-ok (capacity_groups w) g place) here
              (eligible_demand-IsBorrower group demand eligible) grows fit)
      by_fit location required false place grows fit = later

  pub grant_elsewhere-IsSound :
      (free reserved gs : List ℕ) (p : CapacityPolicy)
      → IsSound w capacity p
      → pool_free_bytes w p ≡ ok free
      → IsSound w capacity (grant_elsewhere w free reserved gs p).1
  unfolding grant_elsewhere
  grant_elsewhere-IsSound free reserved [] p sound freed = sound
  grant_elsewhere-IsSound free reserved (g ∷ gs) p sound freed =
      reads_ind I (λ _. devices_of w g) _ p
        (λ devices _.
          by_devices (grant_elsewhere-IsSound free reserved gs p sound freed)
            (any (λ d. mem d reserved) devices))
        (λ _. sound)
    where
      by_devices :
          IsSound w capacity (grant_elsewhere w free reserved gs p).1
          → (b : Bool)
          → IsSound w capacity
              ((if b then grant_elsewhere w free reserved gs else do
                demand ← eligible_at g
                grant_if_free w free g demand (grant_elsewhere w free reserved gs))
                p).1
      by_devices later true = later
      by_devices later false =
          eligible_at-IsSound g
            (λ demand. grant_if_free w free g demand (grant_elsewhere w free reserved gs)) p sound
            (λ group found here eligible.
              grant_if_free-IsSound free g group found (grant_elsewhere w free reserved gs) p sound
                freed here eligible later)
