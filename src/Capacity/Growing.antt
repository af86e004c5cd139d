-- ===== src/Capacity/Growing.antt =====
-- What an eligible demand and a covered growth show of a publication: it may be funded.
use cross_pool.Prelude.{
  ℕ, ◌+◌, ◌≤◌, ◌≡◌, refl, sym, ap, ◌∙◌, subst, Bool, true, false, not, ◌||◌, Option, none, some,
  List, arith, get_elem?, if◌then◌else◌, is_some, ◌==◌, nat_eq,
}
use cross_pool.Prelude.Result.{Result, ok, >>=-eq-ok, ok-injective}
use cross_pool.Capacity.State.{
  World, Location, Group, QuotaDemand, CapacityPolicy, capacity_groups, group_profiles,
}
use cross_pool.Capacity.Accounting.{Growth, growth_bytes, covers, pool_free_bytes}
use cross_pool.Capacity.Borrowers.{Eligible, eligible_demand, eligible_vector, bounded, list_beq}
use cross_pool.Capacity.Charge.{nth, devices, charge, group_profiles-devices, pool_free_bytes-total}
use cross_pool.Capacity.Growth.{Ascending, devices-Ascending, covers-charge}
use cross_pool.Capacity.Bounds.{bounded-HoldsFloors}
use cross_pool.Capacity.Sound.{IsSound, IsFundable, HoldsQuota}

-- A group that may borrow: idle, and asking for more than it has within its ceiling.
pub record IsBorrower (group : Group) (demand : Eligible) : Type 0 where
  pub quota : group.active_quota ≡ some demand.active
  pub caps : List ℕ
  pub within : bounded demand.active demand.required caps ≡ ok true

eligible_vector-IsBorrower :
    (group : Group) (sequence : ℕ) (required : Option (List ℕ)) (deadline : Option ℕ)
    (active caps : Option (List ℕ)) (demand : Eligible)
    → group.active_quota ≡ active
    → eligible_vector group sequence required deadline active caps ≡ ok (some demand)
    → IsBorrower group demand
eligible_vector-IsBorrower group sequence (some required) (some deadline) (some active) (some caps)
      demand quota e =
    let e1 = unless (is_some group.operation || not (sequence == group.applied_sequence)) _ e in
    let (fits, within, e2) = >>=-eq-ok (bounded active required caps) _ e1 in
    let (fit, same) = present fits (list_beq required active) _ (ok-injective e2) in
    subst (IsBorrower group) same
      (record { quota = quota; caps = caps; within = within ∙ ap ok fit })
  where
    unless :
        (b : Bool) (m : Result (Option Eligible))
        → (if b then ok none else m) ≡ ok (some demand)
        → m ≡ ok (some demand)
    unless true m h = cc
    unless false m h = h

    present :
        (f b : Bool) (d : Eligible)
        → (if not f || b then none else some d) ≡ some demand
        → (f ≡ true) × (d ≡ demand)
    present true true d h = cc
    present true false d h = (refl, cc)
    present false b d h = cc
eligible_vector-IsBorrower group sequence (some required) (some deadline) (some active) none demand
      quota e =
    cc
eligible_vector-IsBorrower group sequence (some required) (some deadline) none caps demand quota e =
    cc
eligible_vector-IsBorrower group sequence (some required) none active caps demand quota e = cc
eligible_vector-IsBorrower group sequence none deadline active caps demand quota e = cc

pub eligible_demand-IsBorrower :
    (group : Group) (demand : Eligible)
    → eligible_demand group ≡ ok (some demand)
    → IsBorrower group demand
unfolding eligible_demand
eligible_demand-IsBorrower group demand e = by_demand group.demand e
  where
    by_demand :
        (o : Option QuotaDemand)
        → elim o as (λ _. Result (Option Eligible)) [
          | none ↦ ok none
          | some d ↦
              eligible_vector group d.evaluated_sequence d.required_bytes d.deadline_monotonic_ns
                group.active_quota group.service_ceiling
        ]
          ≡ ok (some demand)
        → IsBorrower group demand
    by_demand none h = cc
    by_demand (some d) h =
        eligible_vector-IsBorrower group d.evaluated_sequence d.required_bytes
          d.deadline_monotonic_ns group.active_quota group.service_ceiling demand refl h

module _ (w : World) (capacity : List ℕ) (p : CapacityPolicy) (sound : IsSound w capacity p) where
  pub growth-IsFundable :
      (free : List ℕ) (g : ℕ) (location : Location) (group : Group) (demand : Eligible)
      (gs : List Growth)
      → pool_free_bytes w p ≡ ok free
      → get_elem? (capacity_groups w) g ≡ some location
      → get_elem? p.groups g ≡ some group
      → IsBorrower group demand
      → growth_bytes w location demand.active demand.required ≡ ok gs
      → covers free gs ≡ ok true
      → IsFundable w capacity p g demand.required (nth free)
  unfolding growth_bytes
  growth-IsFundable free g location group demand gs freed place here borrower grows fits group'
        active' here' quota' =
      let same : active' ≡ demand.active = cc (here, here', quota', borrower.quota) in
      let (ms, profiles, zipped) = >>=-eq-ok (group_profiles w location) _ grows in
      (
        (λ l ms' at' found.
            let holds = ((sound.rows g group' here').1 l ms' at' found).0 in
            bounded-HoldsFloors ms' demand.active demand.required borrower.caps
              (subst (HoldsQuota ms') (quota' ∙ ap some same) holds) borrower.within),
        (λ d l at'.
            let there : location ≡ l = cc (place, at') in
            let devs = group_profiles-devices w location ms profiles in
            let (k, rising) = devices-Ascending w location in
            let cost =
              covers-charge free d k ms demand.active demand.required gs
                (subst (Ascending k) (sym devs) rising) zipped fits in
            subst
              (λ a.
                charge d (devices w l) a demand.required ≤ charge d (devices w l) a a + nth free d)
              (sym same)
              (subst
                (λ xs.
                  charge d xs demand.active demand.required
                  ≤ charge d xs demand.active demand.active + nth free d)
                (devs ∙ ap (devices w) there) cost)),
        (λ d h. omega (arith, pool_free_bytes-total w p capacity free d sound.frozen freed h)),
      )
