-- ===== src/Capacity/Sound.antt =====
-- The states of the policy in which every group has been granted its startup quota and no device is
-- promised more than its budget, and the two writes that keep them so.
use cross_pool.Prelude.{
  ℕ, ◌+◌, ◌≤◌, ◌<◌, ◌≡◌, refl, sym, ap, subst, ◌∙◌, ◌≢◌, not, ◌&&◌, Option, none, some, List, [],
  ◌∷◌, ◌++◌, arith, nat_beq, nat_beq_iff, length, get_elem?, set, Bool-cases, inl, inr,
  get_elem?-set_self, get_elem?-set_other, is_some, is_some-true, is_some-false, and_true, not-true,
}
use cross_pool.Prelude.Result.{ok, >>=-eq-ok, ok-injective, require-eq-ok, runtime_error}
use cross_pool.Prelude.Action.{update_ind}
use cross_pool.Capacity.State.{
  World, PartitionProfile, Location, Group, CapacityPolicy, at, at-eq-ok, capacity_groups,
  group_profiles, command,
}
use cross_pool.Capacity.Accounting.{publish_operation}
use cross_pool.Capacity.Retire.{publish}
use cross_pool.Capacity.Charge.{nth, devices, charge, row_charge, total}
use cross_pool.Capacity.Growth.{total-set}
use cross_pool.Capacity.Bounds.{HoldsFloors}

abbrev pub issued : Group → List ℕ → Group
issued group target = record group {
  operation = some (record { sequence = group.applied_sequence + 1; quota_bytes = target });
}

-- What a publication that succeeds has found, and what it leaves.
pub record Issue (g : ℕ) (target : List ℕ) (p q : CapacityPolicy) : Type 0 where
  pub group : Group
  pub active : List ℕ
  pub found : get_elem? p.groups g ≡ some group
  pub quota : group.active_quota ≡ some active
  pub idle : group.operation ≡ none
  pub result : q ≡ record p {
    groups = set p.groups g (issued group target);
    published =
        p.published
        ++ command g (record { sequence = group.applied_sequence + 1; quota_bytes = target }) ∷ [];
  }

pub publish_operation-eq-ok :
    (g : ℕ) (target : List ℕ) (p q : CapacityPolicy)
    → publish_operation g target p ≡ ok q
    → Issue g target p q
unfolding publish_operation
publish_operation-eq-ok g target p q e =
    let (group, found, e1) = >>=-eq-ok (at p.groups g) _ e in
    let (idle, e2) =
      require-eq-ok (is_some group.active_quota && not (is_some group.operation)) runtime_error _
        e1 in
    let (present, free) = and_true _ _ idle in
    let (active, quota) = is_some-true group.active_quota present in
    record {
      group = group;
      active = active;
      found = at-eq-ok p.groups g found;
      quota = quota;
      idle = is_some-false group.operation (not-true _ free);
      result = sym (ok-injective e2);
    }

-- A group whose startup grant is applied, with at most the next operation on its way.
abbrev pub IsIssued : Group → Type 0
IsIssued group =
    (group.applied_sequence ≢ 0)
    × elim group.operation [ none ↦ Unit | some o ↦ o.sequence ≡ group.applied_sequence + 1 ]

abbrev pub HoldsQuota : List (ℕ × PartitionProfile) → Option (List ℕ) → Type 0
HoldsQuota ms none = ⊥
HoldsQuota ms (some active) = HoldsFloors ms active

abbrev pub HoldsBounds : List (ℕ × PartitionProfile) → Group → Type 0
HoldsBounds ms group =
    HoldsQuota ms group.active_quota
    × elim group.operation [ none ↦ Unit | some o ↦ HoldsFloors ms o.quota_bytes ]

abbrev pub IsSoundRow : World → ℕ → Group → Type 0
IsSoundRow w g group =
    IsIssued group
    × ((location : Location) (ms : List (ℕ × PartitionProfile))
        → get_elem? (capacity_groups w) g ≡ some location
        → group_profiles w location ≡ ok ms
        → HoldsBounds ms group)

-- Every row is sound, and on no device are the groups promised more than its budget.
pub record IsSound (w : World) (capacity : List ℕ) (p : CapacityPolicy) : Type 0 where
  pub frozen : p.pool_capacity_bytes ≡ some capacity
  pub rows : (g : ℕ) (group : Group) → get_elem? p.groups g ≡ some group → IsSoundRow w g group
  pub funded : (d : ℕ) → d < length capacity → total w p.groups d ≤ nth capacity d

module _ (w : World) (capacity : List ℕ) where
  set-rows :
      (groups : List Group) (g : ℕ) (old new : Group)
      → get_elem? groups g ≡ some old
      → ((i : ℕ) (group : Group) → get_elem? groups i ≡ some group → IsSoundRow w i group)
      → IsSoundRow w g new
      → (i : ℕ) (group : Group) → get_elem? (set groups g new) i ≡ some group
      → IsSoundRow w i group
  set-rows groups g old new here rows sound i group found = elim (Bool-cases (nat_beq g i)) [
    | inl same ↦
        let eq = (nat_beq_iff g i).0 same in
        let e =
          sym (get_elem?-set_self groups g new here)
          ∙ (ap (get_elem? (set groups g new)) eq ∙ found) in
        let written : new ≡ group = cc in
        subst (λ j. IsSoundRow w j group) eq (subst (IsSoundRow w g) written sound)
    | inr other ↦
        rows i group (
          sym (get_elem?-set_other groups g i new (λ e. cc ((nat_beq_iff g i).1 e, other))) ∙ found)
  ]

  -- A row may be replaced by one that costs no more than what its device has left.
  pub write-IsSound :
      (p q : CapacityPolicy) (g : ℕ) (old new : Group) (slack : ℕ → ℕ)
      → IsSound w capacity p
      → get_elem? p.groups g ≡ some old
      → q.pool_capacity_bytes ≡ p.pool_capacity_bytes
      → q.groups ≡ set p.groups g new
      → IsSoundRow w g new
      → ((d : ℕ) → d < length capacity → total w p.groups d + slack d ≤ nth capacity d)
      → ((d : ℕ) (location : Location)
          → get_elem? (capacity_groups w) g ≡ some location
          → row_charge w d location (some new) ≤ row_charge w d location (some old) + slack d)
      → IsSound w capacity q
  write-IsSound p q g old new slack sound here same written row room cheaper = record {
    frozen = same ∙ sound.frozen;
    rows =
        subst
          (λ groups.
            (i : ℕ) (group : Group) → get_elem? groups i ≡ some group → IsSoundRow w i group)
          (sym written) (set-rows p.groups g old new here sound.rows row);
    funded = λ d h.
        rw written
          (omega (arith, total-set w p.groups g old new d (slack d) here (cheaper d), room d h));
  }

  -- One that costs no more than before always may.
  pub put-IsSound :
      (p q : CapacityPolicy) (g : ℕ) (old new : Group)
      → IsSound w capacity p
      → get_elem? p.groups g ≡ some old
      → q.pool_capacity_bytes ≡ p.pool_capacity_bytes
      → q.groups ≡ set p.groups g new
      → IsSoundRow w g new
      → ((d : ℕ) (location : Location)
          → get_elem? (capacity_groups w) g ≡ some location
          → row_charge w d location (some new) ≤ row_charge w d location (some old))
      → IsSound w capacity q
  put-IsSound p q g old new sound here same written row cheaper =
      write-IsSound p q g old new (λ d. 0) sound here same written row
        (λ d h. omega (arith, sound.funded d h))
        (λ d location e. omega (arith, cheaper d location e))

  -- What a publication must show: it keeps the floors, and fits what the devices have left.
  abbrev pub IsFundable : CapacityPolicy → ℕ → List ℕ → (ℕ → ℕ) → Type 0
  IsFundable p g target slack =
      (group : Group) (active : List ℕ)
      → get_elem? p.groups g ≡ some group
      → group.active_quota ≡ some active
      → ((location : Location) (ms : List (ℕ × PartitionProfile))
          → get_elem? (capacity_groups w) g ≡ some location
          → group_profiles w location ≡ ok ms
          → HoldsFloors ms target)
        × ((d : ℕ) (location : Location)
            → get_elem? (capacity_groups w) g ≡ some location
            → charge d (devices w location) active target
              ≤ charge d (devices w location) active active + slack d)
        × ((d : ℕ) → d < length capacity → total w p.groups d + slack d ≤ nth capacity d)

  pub publish-IsSound :
      (p : CapacityPolicy) (g : ℕ) (target : List ℕ) (slack : ℕ → ℕ)
      → IsSound w capacity p
      → IsFundable p g target slack
      → IsSound w capacity (publish g target p).1
  unfolding publish
  publish-IsSound p g target slack sound fundable =
      update_ind (λ out. IsSound w capacity out.1) (publish_operation g target) p
        (λ q e.
          let issue = publish_operation-eq-ok g target p q e in
          let old = sound.rows g issue.group issue.found in
          let (holds, cheaper, room) = fundable issue.group issue.active issue.found issue.quota in
          write-IsSound p q g issue.group (issued issue.group target) slack sound issue.found
            (ap (λ r. r.pool_capacity_bytes) issue.result) (ap (λ r. r.groups) issue.result)
            ((old.0.0, refl), λ l ms at' e'. ((old.1 l ms at' e').0, holds l ms at' e')) room
            (λ d l at'.
              cost issue.group issue.active d (slack d) l issue.quota issue.idle (cheaper d l at')))
        (λ e. sound)
    where
      cost :
          (group : Group) (active : List ℕ) (d k : ℕ) (l : Location)
          → group.active_quota ≡ some active
          → group.operation ≡ none
          → charge d (devices w l) active target ≤ charge d (devices w l) active active + k
          → row_charge w d l (some (issued group target)) ≤ row_charge w d l (some group) + k
      cost group active d k l quota idle h = rw (quota, idle) h
