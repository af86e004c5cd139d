-- ===== src/Capacity/Funding.antt =====
-- Granting what is free, and borrowing from a donor, keep the policy sound.
use cross_pool.Prelude.{
  ℕ, ◌+◌, ◌≤◌, ◌≡◌, refl, sym, ap, ◌∙◌, subst, Bool, true, false, Option, none, some, List, [], ◌∷◌,
  arith, get_elem?, if◌then◌else◌, ◌==◌, nat_eq, and_true, All,
}
use cross_pool.Prelude.Result.{Result, ok, err, runtime_error}
use cross_pool.Prelude.Action.{reads, reads_ind, bind_keeps, ◌>>=◌, ◌>>◌, pure}
use cross_pool.Capacity.State.{
  World, Location, Group, FundingAttempt, CapacityPolicy, at, at-eq-ok, capacity_groups,
}
use cross_pool.Capacity.Accounting.{Growth, growth_bytes, covers, pool_free_bytes, shortages}
use cross_pool.Capacity.Retire.{publish}
use cross_pool.Capacity.Borrowers.{Eligible, list_beq}
use cross_pool.Capacity.Donors.{Donor, donors, best, lend}
use cross_pool.Capacity.Charge.{nth, devices, charge, group_profiles-devices}
use cross_pool.Capacity.Bounds.{HoldsFloors, lend-HoldsFloors, charge-lend}
use cross_pool.Capacity.Sound.{IsSound, IsFundable, HoldsQuota, publish-IsSound}
use cross_pool.Capacity.Retiring.{directory-Fits}
use cross_pool.Capacity.Lenders.{IsLender, donors-IsLender, best-IsLender}
use cross_pool.Capacity.Growing.{IsBorrower, growth-IsFundable}
use cross_pool.Capacity.Step.{directory, set_attempt, borrow_from, fund}

pub list_beq→≡ : (xs ys : List ℕ) → list_beq xs ys ≡ true → xs ≡ ys
list_beq→≡ [] [] e = refl
list_beq→≡ [] (y ∷ ys) e = cc
list_beq→≡ (x ∷ xs) [] e = cc
list_beq→≡ (x ∷ xs) (y ∷ ys) e =
    let (head, tail) = and_true (x == y) (list_beq xs ys) e in
    let same : x ≡ y = ground arith in cc (same, list_beq→≡ xs ys tail)

module _ (w : World) (capacity : List ℕ) where
  pub set_attempt-IsSound :
      (attempt : Option FundingAttempt) (p : CapacityPolicy)
      → IsSound w capacity p
      → IsSound w capacity (record p { funding_attempt = attempt })
  set_attempt-IsSound attempt p sound = record {
    frozen = sound.frozen;
    rows = sound.rows;
    funded = sound.funded;
  }

  lender-IsFundable :
      (missing : List (ℕ × ℕ)) (donor : Donor) (p : CapacityPolicy)
      → IsSound w capacity p
      → IsLender w p.groups missing donor
      → IsFundable w capacity p donor.group_index donor.target (λ d. 0)
  lender-IsFundable missing donor p sound lender group active here quota =
      let same : lender.active ≡ active = cc (here, quota, lender.found, lender.quota) in
      let lent = subst (λ a. lend missing lender.profiles a ≡ ok donor.target) same lender.lent in
      let devs = group_profiles-devices w lender.location lender.profiles lender.bounds in
      let bounds =
        ((sound.rows donor.group_index group here).1 lender.location lender.profiles lender.place
          lender.bounds).0 in
      let floors = subst (HoldsQuota lender.profiles) quota bounds in
      (
        (λ l ms at' found.
            let there : lender.location ≡ l = cc (at', lender.place) in
            let profiles : lender.profiles ≡ ms = cc (found, lender.bounds, there) in
            subst (λ x. HoldsFloors x donor.target) profiles
              (lend-HoldsFloors missing lender.profiles active donor.target lent)),
        (λ d l at'.
            let there : lender.location ≡ l = cc (at', lender.place) in
            let cost = charge-lend missing d lender.profiles active donor.target floors lent in
            subst (λ xs. charge d xs active donor.target ≤ charge d xs active active + 0)
              (devs ∙ ap (devices w) there) (omega (arith, cost))),
        (λ d h. omega (arith, sound.funded d h)),
      )

  borrow_from-IsSound :
      (missing : List (ℕ × ℕ)) (attempt : FundingAttempt) (ds : List Donor) (p : CapacityPolicy)
      → IsSound w capacity p
      → All (IsLender w p.groups missing) ds
      → IsSound w capacity (borrow_from attempt ds p).1
  borrow_from-IsSound missing attempt [] p sound lenders = set_attempt-IsSound none p sound
  borrow_from-IsSound missing attempt (d ∷ ds) p sound lenders =
      let lender = best-IsLender w p.groups missing d ds lenders.0 lenders.1 in
      let chosen = best d ds in
      bind_keeps (IsSound w capacity) (publish chosen.group_index chosen.target) _ p
        (publish-IsSound w capacity p chosen.group_index chosen.target (λ d. 0) sound
          (lender-IsFundable missing chosen p sound lender))
        (λ _ q s.
          set_attempt-IsSound (some (record attempt { donor_index = some chosen.group_index })) q s)

  grow-IsSound :
      (free : List ℕ) (location : Location) (attempt : FundingAttempt) (p : CapacityPolicy)
      (group : Group) (demand : Eligible) (required : List Growth) (fits : Bool)
      → IsSound w capacity p
      → get_elem? p.groups attempt.borrower_index ≡ some group
      → IsBorrower group demand
      → demand.required ≡ attempt.target_quota_bytes
      → pool_free_bytes w p ≡ ok free
      → get_elem? (capacity_groups w) attempt.borrower_index ≡ some location
      → growth_bytes w location demand.active attempt.target_quota_bytes ≡ ok required
      → covers free required ≡ ok fits
      → IsSound w capacity
          ((if fits
              then (do
                publish attempt.borrower_index attempt.target_quota_bytes
                set_attempt none
                pure true)
              else do
                missing ← reads (λ _. shortages free required)
                ds ← reads (λ p. donors w p.groups attempt missing (directory w))
                borrow_from attempt ds)
            p).1
  grow-IsSound free location attempt p group demand required true sound here borrower target freed
        place grows fit =
      let fundable =
        growth-IsFundable w capacity p sound free attempt.borrower_index location group demand
          required freed place here borrower
          (subst (λ t. growth_bytes w location demand.active t ≡ ok required) (sym target) grows)
          fit in
      bind_keeps (IsSound w capacity) (publish attempt.borrower_index attempt.target_quota_bytes) _
        p
        (publish-IsSound w capacity p attempt.borrower_index attempt.target_quota_bytes (nth free)
          sound
          (subst (λ t. IsFundable w capacity p attempt.borrower_index t (nth free)) target
            fundable))
        (λ _ q s. set_attempt-IsSound none q s)
  grow-IsSound free location attempt p group demand required false sound here borrower target freed
        place grows fit =
      reads_ind (λ out. IsSound w capacity out.1) (λ _. shortages free required) _ p
        (λ missing _.
          reads_ind (λ out. IsSound w capacity out.1)
            (λ q. donors w q.groups attempt missing (directory w)) (borrow_from attempt) p
            (λ ds found. borrow_from-IsSound missing attempt ds p sound (
              donors-IsLender w p.groups missing attempt (directory w) ds (directory-Fits w) found))
            (λ _. sound))
        (λ _. sound)

  pub fund-IsSound :
      (attempt : FundingAttempt) (p : CapacityPolicy) (group : Group) (demand : Eligible)
      → IsSound w capacity p
      → get_elem? p.groups attempt.borrower_index ≡ some group
      → IsBorrower group demand
      → demand.required ≡ attempt.target_quota_bytes
      → IsSound w capacity (fund w attempt p).1
  unfolding fund
  fund-IsSound attempt p group demand sound here borrower target =
      reads_ind I (pool_free_bytes w) _ p
        (λ free freed.
          reads_ind I (λ _. at (capacity_groups w) attempt.borrower_index) _ p
            (λ location place.
              reads_ind I (λ q. at q.groups attempt.borrower_index) _ p
                (λ group' here'.
                  reads_ind I
                    (λ _. elim group'.active_quota [ none ↦ err runtime_error | some a ↦ ok a ]) _ p
                    (λ active quota'.
                      let found = at-eq-ok p.groups attempt.borrower_index here' in
                      let quota = present group'.active_quota active quota' in
                      let same : active ≡ demand.active = cc (here, found, quota, borrower.quota) in
                      reads_ind I (λ _. growth_bytes w location active attempt.target_quota_bytes) _
                        p
                        (λ required grows.
                          reads_ind I (λ _. covers free required) _ p
                            (λ fits fit.
                              grow-IsSound free location attempt p group demand required fits sound
                                here borrower target freed
                                (at-eq-ok (capacity_groups w) attempt.borrower_index place)
                                (subst
                                  (λ a.
                                    growth_bytes w location a attempt.target_quota_bytes
                                    ≡ ok required)
                                  same grows)
                                fit)
                            (λ _. sound))
                        (λ _. sound))
                    (λ _. sound))
                (λ _. sound))
            (λ _. sound))
        (λ _. sound)
    where
      I : Result Bool × CapacityPolicy → Type 0
      I out = IsSound w capacity out.1

      present :
          (o : Option (List ℕ)) (a : List ℕ)
          → elim o as (λ _. Result (List ℕ)) [ none ↦ err runtime_error | some b ↦ ok b ] ≡ ok a
          → o ≡ some a
      present none a e = cc
      present (some b) a e = cc
