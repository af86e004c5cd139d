-- ===== src/Rank/Reconciler.antt =====
-- The adoption of quotas by `CapacityReconciler` of src/xpool/integrations/sglang/ecs/capacity.py. What
-- the ranks agree on is a parameter: the answer of each vote, as a function of the rank's own ballot. The
-- rank's storage enters by its ledger and by whether a retirement is pending.

use cross_pool.Prelude.{
  ℕ, ◌-◌, Bool, true, false, not, ◌&&◌, Option, none, some, List, [], ◌∷◌, get_elem?, leb, ltb,
  ◌==◌, nat_eq, if◌then◌else◌,
}
use cross_pool.Prelude.Result.{Result, ok, err, value_error, runtime_error, index_error}
use cross_pool.Prelude.Action.{Action, pure, raise, modify, require, ◌>>◌}
use cross_pool.Capacity.State.{QuotaCommand, QuotaCompletion}
use cross_pool.Quota.Ledger
use cross_pool.Quota.Ledger.{MemoryQuota}

pub record CapacityReconciler : Type 0 where
  pub command : Option QuotaCommand
  pub active_quota_bytes : List ℕ
  pub completed_sequence : ℕ
  pub pending_retirement : Bool
  pub quota : MemoryQuota
  -- what has been published on the channel, the last first
  pub completions : List QuotaCompletion

abbrev pub Method : Type 0 → Type 0
Method A = Action CapacityReconciler A

-- `any(new < old for old, new in zip(..., strict=True))`: it ends at the first smaller one, and raises
-- when one list ends before.
abbrev pub shrinks : List ℕ → List ℕ → Result Bool
shrinks [] [] = ok false
shrinks (old ∷ olds) (new ∷ news) =
    let rest = shrinks olds news in if ltb new old then ok true else rest
shrinks _ _ = err value_error

abbrev is_nonempty : List ℕ → Bool
is_nonempty [] = false
is_nonempty (b ∷ bs) = true

abbrev drains : Option QuotaCommand → CapacityReconciler → Result Bool
drains none r = ok false
drains (some c) r =
    if ltb r.completed_sequence c.sequence && is_nonempty r.active_quota_bytes
    then shrinks r.active_quota_bytes c.quota_bytes
    else ok false

-- A shrinking command that is not completed keeps new prefills out.
abbrev pub draining : CapacityReconciler → Result Bool
draining r = drains r.command r

abbrev pub same_bytes : List ℕ → List ℕ → Bool
same_bytes [] [] = true
same_bytes (a ∷ rest) (b ∷ others) = a == b && same_bytes rest others
same_bytes _ _ = false

-- `accept_command` of a command that is not yet completed, beside the one that is held.
abbrev pub accept_beside : Option QuotaCommand → QuotaCommand → Method (Unit {0})
accept_beside none new r = modify (λ r. record r { command = some new }) r
accept_beside (some held) new r =
    if ltb new.sequence held.sequence
    then pure tt r
    else if new.sequence == held.sequence
    then require (same_bytes new.quota_bytes held.quota_bytes) runtime_error r
    else (require (not (ltb r.completed_sequence held.sequence)) runtime_error
          >> modify (λ r. record r { command = some new }))
        r

unfoldable pub accept_command : Option QuotaCommand → Method (Unit {0})
accept_command none r = pure tt r
accept_command (some new) r =
    if leb new.sequence r.completed_sequence then pure tt r else accept_beside r.command new r

-- What a step sees beside the reconciler.
pub record Surroundings : Type 0 where
  pub tp_rank : ℕ
  pub has_chunk_owner : Bool
  pub vote : Bool → Bool

abbrev pub ballot : Surroundings → CapacityReconciler → ℕ → Bool → Bool
ballot w r target drains_now =
    not (drains_now && w.has_chunk_owner)
    && not r.pending_retirement
    && leb r.quota.charged_bytes target

abbrev on_quota : Action MemoryQuota (Unit {0}) → Method (Unit {0})
on_quota m r = let (a, q) = m r.quota in (a, record r { quota = q })

-- Adopting a command, once the ranks have agreed.
abbrev pub adopt : QuotaCommand → ℕ → Method (Unit {0})
adopt c target = do
  on_quota (Ledger.set_limit target)
  modify (λ r. record r { active_quota_bytes = c.quota_bytes })
  modify (λ r. record r {
    completions =
        record { sequence = c.sequence; backed_bytes = r.quota.charged_bytes } ∷ r.completions;
  })
  modify (λ r. record r { completed_sequence = c.sequence })

-- A test of the drain that raises ends the step before the vote.
abbrev pub adopt_voted : Surroundings → QuotaCommand → ℕ → Result Bool → Method (Unit {0})
adopt_voted w c target (err e) r = raise e r
adopt_voted w c target (ok drains_now) r =
    if w.vote (ballot w r target drains_now) then adopt c target r else pure tt r

abbrev pub adopt_target : Surroundings → QuotaCommand → Option ℕ → Method (Unit {0})
adopt_target w c none r = raise index_error r
adopt_target w c (some target) r = adopt_voted w c target (draining r) r

abbrev pub adopt_command : Surroundings → Option QuotaCommand → Method (Unit {0})
adopt_command w none r = pure tt r
adopt_command w (some c) r =
    if ltb r.completed_sequence c.sequence
    then adopt_target w c (get_elem? c.quota_bytes w.tp_rank) r
    else pure tt r

-- The part of `begin_scheduling` that adopts a command. What it does instead is to reclaim storage.
unfoldable pub begin_adoption : Surroundings → Method (Unit {0})
begin_adoption w r = adopt_command w r.command r

-- The bytes that a rank has to release before it can adopt: the argument of `reclaim`.
abbrev pub excess : CapacityReconciler → ℕ → ℕ
excess r target = r.quota.charged_bytes - target
