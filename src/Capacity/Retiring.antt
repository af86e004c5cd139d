-- ===== src/Capacity/Retiring.antt =====
-- Retiring an operation, consuming a demand and noting a donor keep the policy sound.
use cross_pool.Prelude.{
  ℕ, suc, ◌+◌, ◌≤◌, ◌≡◌, refl, subst, Bool, true, false, Option, none, some, List, [], ◌∷◌, map,
  arith, get_elem?, All, if◌then◌else◌, get_elem?-set_self,
}
use cross_pool.Prelude.Result.{Result, ok, >>=-eq-ok}
use cross_pool.Prelude.Action.{reads, reads_ind, bind_keeps, ◌>>=◌, ◌>>◌, modify, pure}
use cross_pool.Capacity.State.{
  World, PartitionProfile, Location, Group, QuotaCommand, QuotaCompletion, QuotaDemand,
  FundingAttempt, CapacityPolicy, at, at-eq-ok, capacity_groups, group_profiles,
  group_partition_indices, enumerate,
}
use cross_pool.Capacity.Accounting.{put_group}
use cross_pool.Capacity.Replies.{adopted, grant_grows, replies_at, answered, check_demand}
use cross_pool.Capacity.Retire.{
  retire_group, retire_operations, record_grant, consume_demands, consume_demand,
}
use cross_pool.Capacity.Charge.{charge, charge_of, row_charge, group_profiles-devices}
use cross_pool.Capacity.Bounds.{HoldsFloors, charge-arrived}
use cross_pool.Capacity.Sound.{IsSound, IsSoundRow, HoldsQuota, put-IsSound}
use cross_pool.Capacity.Step.{directory, note_retired, note_retired_donor, note_donor}

-- The entries of the directory lead to their places in it.
abbrev pub Fits : World → List (ℕ × Location) → Type 0
Fits w entries = All (λ x. get_elem? (capacity_groups w) x.0 ≡ some x.1) entries

enumerate-fits :
    (all xs : List Location) (k : ℕ)
    → ((i : ℕ) (l : Location) → get_elem? xs i ≡ some l → get_elem? all (k + i) ≡ some l)
    → All (λ x. get_elem? all x.0 ≡ some x.1) (enumerate k xs)
enumerate-fits all [] k h = tt
enumerate-fits all (x ∷ xs) k h = (
  subst (λ j. get_elem? all j ≡ some x) (plus_zero k) (h 0 x refl),
  enumerate-fits all xs (suc k)
      (λ i l e. subst (λ j. get_elem? all j ≡ some l) (plus_suc k i) (h (suc i) l e)),
)
  where
    plus_zero : (k : ℕ) → k + 0 ≡ k
    plus_zero k = omega arith

    plus_suc : (k i : ℕ) → k + suc i ≡ suc k + i
    plus_suc k i = omega arith

pub directory-Fits : (w : World) → Fits w (directory w)
directory-Fits w =
    enumerate-fits (capacity_groups w) (capacity_groups w) 0
      (λ i l e. subst (λ j. get_elem? (capacity_groups w) j ≡ some l) (zero_plus i) e)
  where
    zero_plus : (i : ℕ) → i ≡ 0 + i
    zero_plus i = omega arith

-- An adoption has looked up the group's partitions.
adopted-eq-ok :
    (w : World) (completions : List (Option QuotaCompletion)) (location : Location)
    (o : QuotaCommand)
    → adopted w completions location o ≡ ok true
    → (ms : List (ℕ × PartitionProfile)) × (group_profiles w location ≡ ok ms)
unfolding adopted
adopted-eq-ok w completions location o e =
    let (indices, _, e1) = >>=-eq-ok (group_partition_indices w location) _ e in
    let (replies, _, e2) = >>=-eq-ok (replies_at completions indices) _ e1 in
    let all_in = if_true (answered o.sequence replies) _ e2 in
    let (ms, found, _) = >>=-eq-ok (group_profiles w location) _ all_in in (ms, found)
  where
    if_true : (b : Bool) (m : Result Bool) → (if b then m else ok false) ≡ ok true → m ≡ ok true
    if_true true m h = h
    if_true false m h = cc

-- The quota of a group that takes its target costs no more than the way to it.
arrived-le :
    (d : ℕ) (ms : List (ℕ × PartitionProfile)) (active : Option (List ℕ)) (o : QuotaCommand)
    → HoldsQuota ms active
    → HoldsFloors ms o.quota_bytes
    → charge d (map (λ m. m.0) ms) o.quota_bytes o.quota_bytes
      ≤ charge_of d (map (λ m. m.0) ms) active (some o)
arrived-le d ms none o h k = absurd h
arrived-le d ms (some a) o h k = charge-arrived d ms a o.quota_bytes h k

module _ (w : World) (capacity : List ℕ) where
  record_grant-IsSound :
      (g : ℕ) (group : Group) (grew : Bool) (p : CapacityPolicy)
      → IsSound w capacity p
      → get_elem? p.groups g ≡ some group
      → IsSound w capacity (record_grant g group grew p).1
  record_grant-IsSound g group false p sound here = sound
  record_grant-IsSound g group true p sound here =
      put-IsSound w capacity p (record_grant g group true p).1 g group
        (record group { completed_grant_order = some p.next_grant_order }) sound here refl refl
        (sound.rows g group here) (λ d l e. omega arith)

  module _ (completions : List (Option QuotaCompletion)) where
    abbrev retired : Group → QuotaCommand → Group
    retired group o = record group {
      active_quota = some o.quota_bytes;
      applied_sequence = o.sequence;
      operation = none;
    }

    module _ (g : ℕ) (location : Location) (group : Group) (o : QuotaCommand) (p : CapacityPolicy)
        (sound : IsSound w capacity p) (here : get_elem? p.groups g ≡ some group)
        (place : get_elem? (capacity_groups w) g ≡ some location)
        (e : group.operation ≡ some o) where
      retired-IsSoundRow : IsSoundRow w g (retired group o)
      retired-IsSoundRow =
          let (issued, bounds) = rw e at (sound.rows g group here) in
          (
            (λ z. absurd (omega (arith, issued.1)), tt),
            λ l ms at' found. ((bounds l ms at' found).1, tt),
          )

      retired-cheaper :
          (ms : List (ℕ × PartitionProfile))
          → group_profiles w location ≡ ok ms
          → (d : ℕ) (l : Location) → get_elem? (capacity_groups w) g ≡ some l
          → row_charge w d l (some (retired group o)) ≤ row_charge w d l (some group)
      retired-cheaper ms found d l at' =
          let same : location ≡ l = cc in
          let profiles = subst (λ x. group_profiles w x ≡ ok ms) same found in
          let (_, bounds) = rw e at (sound.rows g group here) in
          let (active, target) = bounds l ms at' profiles in
          rw (← group_profiles-devices w l ms profiles, e)
            (arrived-le d ms group.active_quota o active target)

      put_retired-IsSound :
          (ms : List (ℕ × PartitionProfile))
          → group_profiles w location ≡ ok ms
          → IsSound w capacity (put_group g (retired group o) p)
      put_retired-IsSound ms found =
          put-IsSound w capacity p (put_group g (retired group o) p) g group (retired group o) sound
            here refl refl retired-IsSoundRow (retired-cheaper ms found)

    retire_group-IsSound :
        (g : ℕ) (location : Location) (group : Group) (p : CapacityPolicy)
        → IsSound w capacity p
        → get_elem? p.groups g ≡ some group
        → get_elem? (capacity_groups w) g ≡ some location
        → (operation : Option QuotaCommand) → group.operation ≡ operation
        → IsSound w capacity (retire_group w completions g location group operation p).1
    unfolding retire_group
    retire_group-IsSound g location group p sound here place none e = sound
    retire_group-IsSound g location group p sound here place (some o) e =
        reads_ind (λ out. IsSound w capacity out.1) (λ _. adopted w completions location o) _ p
          (λ done found. by_answer done found) (λ x. sound)
      where
        finish :
            (ms : List (ℕ × PartitionProfile))
            → group_profiles w location ≡ ok ms
            → IsSound w capacity
                ((reads (λ _. grant_grows o.sequence group.active_quota o.quota_bytes) >>= λ grew.
                    record_grant g (retired group o) grew >> pure true)
                  (put_group g (retired group o) p)).1
        finish ms profiles =
            let put = put_retired-IsSound g location group o p sound here place e ms profiles in
            reads_ind (λ out. IsSound w capacity out.1)
              (λ _. grant_grows o.sequence group.active_quota o.quota_bytes) _
              (put_group g (retired group o) p)
              (λ grew _.
                bind_keeps (IsSound w capacity) (record_grant g (retired group o) grew)
                  (λ _. pure true) (put_group g (retired group o) p)
                  (record_grant-IsSound g (retired group o) grew (put_group g (retired group o) p)
                    put (get_elem?-set_self p.groups g (retired group o) here))
                  (λ _ t s. s))
              (λ _. put)

        by_answer :
            (done : Bool)
            → adopted w completions location o ≡ ok done
            → IsSound w capacity
                ((if done
                    then modify (put_group g (retired group o))
                      >> (reads (λ _. grant_grows o.sequence group.active_quota o.quota_bytes)
                          >>= λ grew. record_grant g (retired group o) grew >> pure true)
                    else pure false)
                  p).1
        by_answer true found =
            let (ms, profiles) = adopted-eq-ok w completions location o found in finish ms profiles
        by_answer false found = sound

    pub retire_operations-IsSound :
        (entries : List (ℕ × Location)) (p : CapacityPolicy)
        → Fits w entries
        → IsSound w capacity p
        → IsSound w capacity (retire_operations w completions entries p).1
    unfolding retire_operations
    retire_operations-IsSound [] p fits sound = sound
    retire_operations-IsSound ((g, location) ∷ entries) p fits sound =
        reads_ind (λ out. IsSound w capacity out.1) (λ q. at q.groups g) _ p
          (λ group found.
            bind_keeps (IsSound w capacity)
              (retire_group w completions g location group group.operation) _ p
              (retire_group-IsSound g location group p sound (at-eq-ok p.groups g found) fits.0
                group.operation refl)
              (λ done q s.
                bind_keeps (IsSound w capacity) (retire_operations w completions entries) _ q
                  (retire_operations-IsSound entries q fits.1 s) (λ _ _ t. t)))
          (λ _. sound)

  put_demand-IsSound :
      (g : ℕ) (demand : QuotaDemand) (group : Group) (p : CapacityPolicy)
      → IsSound w capacity p
      → get_elem? p.groups g ≡ some group
      → IsSound w capacity (put_group g (record group { demand = some demand }) p)
  put_demand-IsSound g demand group p sound here =
      put-IsSound w capacity p (put_group g (record group { demand = some demand }) p) g group
        (record group { demand = some demand }) sound here refl refl (sound.rows g group here)
        (λ d l e. omega arith)

  consume_demand-IsSound :
      (g : ℕ) (demand : Option QuotaDemand) (p : CapacityPolicy)
      → IsSound w capacity p
      → IsSound w capacity (consume_demand g demand p).1
  consume_demand-IsSound g none p sound = sound
  consume_demand-IsSound g (some demand) p sound =
      reads_ind (λ out. IsSound w capacity out.1) (λ q. at q.groups g) _ p
        (λ group found.
          reads_ind (λ out. IsSound w capacity out.1) (λ _. check_demand group demand) _ p
            (λ _ _. put_demand-IsSound g demand group p sound (at-eq-ok p.groups g found))
            (λ _. sound))
        (λ _. sound)

  pub consume_demands-IsSound :
      (publications : List (Option QuotaDemand)) (entries : List (ℕ × Location))
      (p : CapacityPolicy)
      → IsSound w capacity p
      → IsSound w capacity (consume_demands publications entries p).1
  unfolding consume_demands
  consume_demands-IsSound publications [] p sound = sound
  consume_demands-IsSound publications ((g, location) ∷ entries) p sound =
      reads_ind (λ out. IsSound w capacity out.1) (λ _. at publications g) _ p
        (λ demand _.
          bind_keeps (IsSound w capacity) (consume_demand g demand)
            (λ _. consume_demands publications entries) p (consume_demand-IsSound g demand p sound)
            (λ _ q s. consume_demands-IsSound publications entries q s))
        (λ _. sound)

pub note_retired-IsSound :
    (w : World) (capacity : List ℕ) (gs : List ℕ) (p : CapacityPolicy)
    → IsSound w capacity p
    → IsSound w capacity (note_retired gs p)
unfolding note_retired note_retired_donor
note_retired-IsSound w capacity [] p sound = sound
note_retired-IsSound w capacity (g ∷ gs) p sound =
    note_retired-IsSound w capacity gs (note_retired_donor g p) (noted p.funding_attempt)
  where
    noted :
        (o : Option FundingAttempt)
        → IsSound w capacity (elim o [
          | none ↦ p
          | some attempt ↦ record p { funding_attempt = some (note_donor g attempt) }
        ])
    noted none = sound
    noted (some attempt) = record {
      frozen = sound.frozen;
      rows = sound.rows;
      funded = sound.funded;
    }
