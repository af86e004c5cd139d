-- ===== src/Capacity/Stepping.antt =====
-- A step of the policy keeps it sound.
use cross_pool.Prelude.{
  ℕ, ◌≡◌, ◌≢◌, refl, sym, Bool, true, false, not, ◌||◌, Option, none, some, List, [], ◌∷◌, ◌++◌,
  if◌then◌else◌, is_some, ◌==◌, nat_eq, any, Bool-cases, inl, inr, nat_beq_iff,
}
use cross_pool.Prelude.Result.{Result, ok, err, ok-injective}
use cross_pool.Prelude.Action.{reads, reads_ind, bind_keeps, ◌>>=◌, ◌>>◌, pure}
use cross_pool.Capacity.State.{World, Location, Group, FundingAttempt, CapacityPolicy, at, at-eq-ok}
use cross_pool.Capacity.Accounting.{pool_free_bytes}
use cross_pool.Capacity.Retire.{
  Method, retire_operations, consume_demands, publish_next_initial_operation,
}
use cross_pool.Capacity.Borrowers.{Eligible, ordered_borrowers}
use cross_pool.Capacity.Sound.{IsSound}
use cross_pool.Capacity.Retiring.{
  directory-Fits, retire_operations-IsSound, consume_demands-IsSound, note_retired-IsSound,
}
use cross_pool.Capacity.Funding.{set_attempt-IsSound}
use cross_pool.Capacity.Step.{
  Snapshot, directory, advance_attempt, devices_of, grant_elsewhere, attempt_for, try_borrower,
  try_borrowers, serve_others, start_attempts, continue_with, fund_next, note_retired,
  awaits_startup, freeze_once, step_frozen, step,
}
use cross_pool.Capacity.Attempts.{
  I, advance_attempt-IsSound, eligible_at-IsSound, grant_elsewhere-IsSound,
}

module _ (w : World) (capacity : List ℕ) where
  try_borrower-IsSound :
      (g : ℕ) (found : Option Eligible) (rest : Method (Unit {0})) (p : CapacityPolicy)
      → IsSound w capacity p
      → ((q : CapacityPolicy) → IsSound w capacity q → IsSound w capacity (rest q).1)
      → IsSound w capacity (try_borrower w g found rest p).1
  try_borrower-IsSound g none rest p sound later = later p sound
  try_borrower-IsSound g (some demand) rest p sound later =
      let attempt = attempt_for g demand in
      let tried = set_attempt-IsSound w capacity (some attempt) p sound in
      bind_keeps (IsSound w capacity) (advance_attempt w attempt) _
        (record p { funding_attempt = some attempt })
        (advance_attempt-IsSound w capacity attempt (record p { funding_attempt = some attempt })
          tried)
        by_done
    where
      by_done :
          (done : Bool) (q : CapacityPolicy)
          → IsSound w capacity q
          → IsSound w capacity ((if done then pure tt else rest) q).1
      by_done true q s = s
      by_done false q s = later q s

  try_borrowers-IsSound :
      (gs : List ℕ) (p : CapacityPolicy)
      → IsSound w capacity p
      → IsSound w capacity (try_borrowers w gs p).1
  unfolding try_borrowers
  try_borrowers-IsSound [] p sound = sound
  try_borrowers-IsSound (g ∷ gs) p sound =
      eligible_at-IsSound w capacity g (λ demand. try_borrower w g demand (try_borrowers w gs)) p
        sound
        (λ group found here eligible.
          try_borrower-IsSound g found (try_borrowers w gs) p sound
            (λ q s. try_borrowers-IsSound gs q s))

  start_attempts-IsSound :
      (now : ℕ) (p : CapacityPolicy)
      → IsSound w capacity p
      → IsSound w capacity (start_attempts w now p).1
  unfolding start_attempts
  start_attempts-IsSound now p sound =
      reads_ind (I w capacity) (λ q. ordered_borrowers w q.groups (directory w) now)
        (try_borrowers w) p (λ order _. try_borrowers-IsSound order p sound) (λ _. sound)

  serve_others-IsSound :
      (now : ℕ) (attempt : FundingAttempt) (donor : ℕ) (p : CapacityPolicy)
      → IsSound w capacity p
      → IsSound w capacity (serve_others w now attempt donor p).1
  unfolding serve_others
  serve_others-IsSound now attempt donor p sound =
      reads_ind (I w capacity) (λ _. devices_of w attempt.borrower_index) _ p
        (λ lent _.
          reads_ind (I w capacity) (λ _. devices_of w donor) _ p
            (λ lending _.
              reads_ind (I w capacity) (pool_free_bytes w) _ p
                (λ free freed.
                  reads_ind (I w capacity) (λ q. ordered_borrowers w q.groups (directory w) now)
                    (grant_elsewhere w free (lent ++ lending)) p
                    (λ order _.
                      grant_elsewhere-IsSound w capacity free (lent ++ lending) order p sound freed)
                    (λ _. sound))
                (λ _. sound))
            (λ _. sound))
        (λ _. sound)

  continue_with-IsSound :
      (now : ℕ) (attempt : FundingAttempt) (donor : Option ℕ) (p : CapacityPolicy)
      → IsSound w capacity p
      → IsSound w capacity (continue_with w now attempt donor p).1
  continue_with-IsSound now attempt none p sound = start_attempts-IsSound now p sound
  continue_with-IsSound now attempt (some donor) p sound =
      serve_others-IsSound now attempt donor p sound

  fund_next-IsSound :
      (now : ℕ) (attempt : Option FundingAttempt) (p : CapacityPolicy)
      → IsSound w capacity p
      → IsSound w capacity (fund_next w now attempt p).1
  fund_next-IsSound now none p sound = start_attempts-IsSound now p sound
  fund_next-IsSound now (some attempt) p sound =
      bind_keeps (IsSound w capacity) (advance_attempt w attempt) _ p
        (advance_attempt-IsSound w capacity attempt p sound) by_done
    where
      by_done :
          (done : Bool) (q : CapacityPolicy)
          → IsSound w capacity q
          → IsSound w capacity
              ((if done then pure tt else continue_with w now attempt attempt.donor_index) q).1
      by_done true q s = s
      by_done false q s = continue_with-IsSound now attempt attempt.donor_index q s

  -- No group of a sound policy awaits its startup grant.
  awaits_startup-false :
      (p : CapacityPolicy)
      → IsSound w capacity p
      → (entries : List (ℕ × Location)) (b : Bool) → awaits_startup p.groups entries ≡ ok b
      → b ≡ false
  awaits_startup-false p sound [] b e = sym (ok-injective e)
  awaits_startup-false p sound ((g, location) ∷ entries) b e =
      by_group (λ h. awaits_startup-false p sound entries b h) (at p.groups g) refl e
    where
      by_test :
          (awaits_startup p.groups entries ≡ ok b → b ≡ false)
          → (group : Group) → group.applied_sequence ≢ 0
          → (if group.applied_sequence == 0 then ok true else awaits_startup p.groups entries)
            ≡ ok b
          → b ≡ false
      by_test later group started h = elim (Bool-cases (group.applied_sequence == 0)) [
        | inl is_zero ↦ absurd (started ((nat_beq_iff group.applied_sequence 0).0 is_zero))
        | inr other ↦ later (rw other at h)
      ]

      by_group :
          (awaits_startup p.groups entries ≡ ok b → b ≡ false)
          → (r : Result Group) → at p.groups g ≡ r
          → elim r as (λ _. Result Bool) [
            | err x ↦ err x
            | ok group ↦
                if group.applied_sequence == 0 then ok true else awaits_startup p.groups entries
          ]
            ≡ ok b
          → b ≡ false
      by_group later (ok group) here h =
          by_test later group ((sound.rows g group (at-eq-ok p.groups g here)).0.0) h
      by_group later (err x) here h = cc

  step_frozen-IsSound :
      (snapshot : Snapshot) (p : CapacityPolicy)
      → IsSound w capacity p
      → IsSound w capacity (step_frozen w snapshot p).1
  unfolding step_frozen
  step_frozen-IsSound snapshot p sound =
      bind_keeps (IsSound w capacity) (retire_operations w snapshot.completions (directory w)) _ p
        (retire_operations-IsSound w capacity snapshot.completions (directory w) p
          (directory-Fits w) sound)
        (λ retired q s.
          after_retired (note_retired retired q) (note_retired-IsSound w capacity retired q s))
    where
      serve : Method (Unit {0})
      serve = do
        consume_demands snapshot.demands (directory w)
        attempt ← reads (λ p. ok p.funding_attempt)
        fund_next w snapshot.now_ns attempt

      serve-IsSound : (q : CapacityPolicy) → IsSound w capacity q → IsSound w capacity (serve q).1
      serve-IsSound q s =
          bind_keeps (IsSound w capacity) (consume_demands snapshot.demands (directory w)) _ q
            (consume_demands-IsSound w capacity snapshot.demands (directory w) q s)
            (λ _ r t. fund_next-IsSound snapshot.now_ns r.funding_attempt r t)

      by_starting :
          (q : CapacityPolicy) (starting : Bool)
          → IsSound w capacity q
          → starting ≡ false
          → IsSound w capacity
              ((if starting then publish_next_initial_operation w >>= (λ _. pure tt) else serve)
                q).1
      by_starting q true s e = cc
      by_starting q false s e = serve-IsSound q s

      after_retired :
          (q : CapacityPolicy)
          → IsSound w capacity q
          → IsSound w capacity
              ((reads (λ p. awaits_startup p.groups (directory w)) >>= λ starting.
                  if starting then publish_next_initial_operation w >>= (λ _. pure tt) else serve)
                q).1
      after_retired q s =
          reads_ind (I w capacity) (λ p. awaits_startup p.groups (directory w)) _ q
            (λ starting e.
              by_starting q starting s (awaits_startup-false q s (directory w) starting e))
            (λ _. s)

  frozen_step-IsSound :
      (snapshot : Snapshot) (frozen : Option (List ℕ)) (p : CapacityPolicy)
      → p.pool_capacity_bytes ≡ frozen
      → IsSound w capacity p
      → IsSound w capacity ((freeze_once w snapshot frozen >> step_frozen w snapshot) p).1
  frozen_step-IsSound snapshot none p e sound = cc (e, sound.frozen)
  frozen_step-IsSound snapshot (some budgets) p e sound = step_frozen-IsSound snapshot p sound

  -- One step, whatever it is shown, keeps the policy sound.
  pub step-IsSound :
      (snapshot : Snapshot) (p : CapacityPolicy)
      → IsSound w capacity p
      → IsSound w capacity (step w snapshot p).1
  unfolding step
  step-IsSound snapshot p sound = by_witness (
      any (λ b. not (is_some b)) snapshot.initial_backing
      || any (λ r. not (is_some r)) snapshot.device_memory)
    where
      by_witness :
          (missing : Bool)
          → IsSound w capacity
              (if missing
                then pure tt p
                else (freeze_once w snapshot p.pool_capacity_bytes >> step_frozen w snapshot) p).1
      by_witness true = sound
      by_witness false = frozen_step-IsSound snapshot p.pool_capacity_bytes p refl sound

-- The policy after a sequence of steps.
abbrev pub run : World → List Snapshot → CapacityPolicy → CapacityPolicy
run w [] p = p
run w (s ∷ ss) p = run w ss (step w s p).1

-- However many steps the daemon takes from a sound policy, whatever the ranks publish and the clock
-- shows, also in steps that raise, the policy stays sound: on every device that has a budget, what all
-- groups are charged, each the larger of its quota and of the target on its way, is within the budget,
-- every quota and every target of a group keeps the floors of its partitions, and an operation on its
-- way has the sequence after the applied one.
pub run-IsSound :
    (w : World) (capacity : List ℕ) (snapshots : List Snapshot) (p : CapacityPolicy)
    → IsSound w capacity p
    → IsSound w capacity (run w snapshots p)
run-IsSound w capacity [] p sound = sound
run-IsSound w capacity (s ∷ ss) p sound =
    run-IsSound w capacity ss (step w s p).1 (step-IsSound w capacity s p sound)
