-- ===== src/Capacity/Lenders.antt =====
-- The donors that an attempt considers are idle groups that lend what is above their floors.
use cross_pool.Prelude.{
  ℕ, ◌≡◌, refl, ap, ◌∙◌, subst, Bool, true, false, not, ◌||◌, Option, none, some, List, [], ◌∷◌,
  get_elem?, All, if◌then◌else◌, is_some, ◌==◌, nat_eq,
}
use cross_pool.Prelude.Result.{Result, ok, ◌>>=◌, >>=-eq-ok, ok-injective}
use cross_pool.Capacity.State.{
  World, PartitionProfile, Location, Group, QuotaDemand, FundingAttempt, at, at-eq-ok,
  capacity_groups, group_profiles,
}
use cross_pool.Capacity.Borrowers.{mem, list_beq}
use cross_pool.Capacity.Donors.{Donor, donors, donor_of, add_donor, lend, best, precedes}
use cross_pool.Capacity.Retiring.{Fits}

pub record IsLender (w : World) (groups : List Group) (missing : List (ℕ × ℕ)) (donor : Donor)
    : Type 0 where
  pub group : Group
  pub location : Location
  pub profiles : List (ℕ × PartitionProfile)
  pub active : List ℕ
  pub found : get_elem? groups donor.group_index ≡ some group
  pub place : get_elem? (capacity_groups w) donor.group_index ≡ some location
  pub bounds : group_profiles w location ≡ ok profiles
  pub quota : group.active_quota ≡ some active
  pub lent : lend missing profiles active ≡ ok donor.target

module _ (w : World) (groups : List Group) (missing : List (ℕ × ℕ)) where
  donor_of-IsLender :
      (g : ℕ) (location : Location) (group : Group) (active : Option (List ℕ))
      (demand : Option QuotaDemand) (donor : Donor)
      → get_elem? groups g ≡ some group
      → get_elem? (capacity_groups w) g ≡ some location
      → group.active_quota ≡ active
      → donor_of w missing g location group active demand ≡ ok (some donor)
      → IsLender w groups missing donor
  donor_of-IsLender g location group none demand donor here place quota e = cc
  donor_of-IsLender g location group (some active) none donor here place quota e = cc
  donor_of-IsLender g location group (some active) (some demand) donor here place quota e =
      let e1 =
        unless
          (is_some group.operation || not (demand.evaluated_sequence == group.applied_sequence)) _
          e in
      let (ms, profiles, e2) = >>=-eq-ok (group_profiles w location) _ e1 in
      let (target, lent, e3) = >>=-eq-ok (lend missing ms active) _ e2 in
      subst (IsLender w groups missing) (present (list_beq target active) _ (ok-injective e3))
        (record {
          group = group;
          location = location;
          profiles = ms;
          active = active;
          found = here;
          place = place;
          bounds = profiles;
          quota = quota;
          lent = lent;
        })
    where
      unless :
          (b : Bool) (m : Result (Option Donor))
          → (if b then ok none else m) ≡ ok (some donor)
          → m ≡ ok (some donor)
      unless true m h = cc
      unless false m h = h

      present : (b : Bool) (d : Donor) → (if b then none else some d) ≡ some donor → d ≡ donor
      present true d h = cc
      present false d h = cc

  pub donors-IsLender :
      (attempt : FundingAttempt) (entries : List (ℕ × Location)) (ds : List Donor)
      → Fits w entries
      → donors w groups attempt missing entries ≡ ok ds
      → All (IsLender w groups missing) ds
  unfolding donors
  donors-IsLender attempt [] ds fits e = subst (All (IsLender w groups missing)) (ok-injective e) tt
  donors-IsLender attempt ((g, location) ∷ entries) ds fits e =
      by_test (λ rest more. donors-IsLender attempt entries rest fits.1 more)
        (g == attempt.borrower_index || mem g attempt.attempted_donors) e
    where
      others : Result (List Donor)
      others = donors w groups attempt missing entries

      Later : Type 0
      Later = (rest : List Donor) → others ≡ ok rest → All (IsLender w groups missing) rest

      chain : Result (List Donor)
      chain = do
        group ← at groups g
        found ← donor_of w missing g location group group.active_quota group.demand
        ds ← others
        ok (add_donor found ds)

      added :
          (found : Option Donor) (rest : List Donor)
          → ((d : Donor) → found ≡ some d → IsLender w groups missing d)
          → All (IsLender w groups missing) rest
          → All (IsLender w groups missing) (add_donor found rest)
      added none rest h hs = hs
      added (some d) rest h hs = (h d refl, hs)

      by_chain : Later → chain ≡ ok ds → All (IsLender w groups missing) ds
      by_chain later c =
          let (group, here, c1) = >>=-eq-ok (at groups g) _ c in
          let (found, lender, c2) =
            >>=-eq-ok (donor_of w missing g location group group.active_quota group.demand) _ c1 in
          let (rest, more, c3) = >>=-eq-ok others _ c2 in
          subst (All (IsLender w groups missing)) (ok-injective c3) (
            added found rest
              (λ d is.
                donor_of-IsLender g location group group.active_quota group.demand d
                  (at-eq-ok groups g here) fits.0 refl (lender ∙ ap ok is))
              (later rest more))

      by_test :
          Later
          → (b : Bool) → (if b then others else chain) ≡ ok ds
          → All (IsLender w groups missing) ds
      by_test later true c = later ds c
      by_test later false c = by_chain later c

  pub best-IsLender :
      (d : Donor) (ds : List Donor)
      → IsLender w groups missing d
      → All (IsLender w groups missing) ds
      → IsLender w groups missing (best d ds)
  unfolding best
  best-IsLender d [] h hs = h
  best-IsLender d (e ∷ es) h hs =
      best-IsLender (if precedes e d then e else d) es (either (precedes e d)) hs.1
    where
      either : (b : Bool) → IsLender w groups missing (if b then e else d)
      either true = hs.0
      either false = h
