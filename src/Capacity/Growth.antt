-- ===== src/Capacity/Growth.antt =====
-- How a change of one group's row changes what all groups are charged.
use cross_pool.Prelude.{
  ℕ, zero, suc, ◌+◌, ◌-◌, ◌*◌, ◌≤◌, ◌<◌, max, ◌≡◌, refl, sym, ap, subst, ◌≢◌, Bool, true, false,
  Option, none, some, List, [], ◌∷◌, map, arith, leb, nat_beq, if◌then◌else◌, get_elem?, set,
  range_from, nat_beq_iff, leb→le, Bool-cases, Option-cases, inl, inr, get_elem?-set_self,
  get_elem?-set_other,
}
use cross_pool.Prelude.Result.{Result, ok, >>=-eq-ok, ok-injective}
use cross_pool.Capacity.State.{
  World, InstancePlan, PartitionProfile, Location, Group, at, capacity_groups,
}
use cross_pool.Capacity.Accounting.{Growth, zip_growth, covers}
use cross_pool.Capacity.Charge.{nth, devices, charge, row_charge, total, total_from}

module _ (w : World) (groups : List Group) (g : ℕ) (old new : Group) (d : ℕ) where
  -- A row that has been passed does not count any more.
  total_from-set_below :
      (k : ℕ) (locations : List Location)
      → g < k
      → total_from w (set groups g new) d k locations ≡ total_from w groups d k locations
  unfolding total_from
  total_from-set_below k [] h = refl
  total_from-set_below k (location ∷ locations) h =
      rw (get_elem?-set_other groups g k new (λ e. absurd (omega arith))) (
        ap (λ (t : ℕ). row_charge w d location (get_elem? groups k) + t)
          (total_from-set_below (suc k) locations (omega arith)))

  module _ (slack : ℕ) (here : get_elem? groups g ≡ some old) where
    total_from-set :
        (k : ℕ) (locations : List Location)
        → k ≤ g
        → ((location : Location)
            → get_elem? locations (g - k) ≡ some location
            → row_charge w d location (some new) ≤ row_charge w d location (some old) + slack)
        → total_from w (set groups g new) d k locations ≤ total_from w groups d k locations + slack
    unfolding total_from
    total_from-set k [] h row = omega arith
    total_from-set k (location ∷ locations) h row = elim (Bool-cases (nat_beq g k)) [
      | inl same ↦
          let eq = (nat_beq_iff g k).0 same in
          let written = get_elem?-set_self groups g new here in
          let first : g - k ≡ 0 = omega arith in
          rw (subst (λ j. get_elem? (set groups g new) j ≡ some new) eq written) (
            rw (subst (λ j. get_elem? groups j ≡ some old) eq here) (
              omega (
                arith,
                total_from-set_below (suc k) locations (omega arith),
                row location (rw first),
              )))
      | inr other ↦
          let ne : g ≢ k = λ e. cc ((nat_beq_iff g k).1 e, other) in
          let later : g - k ≡ suc (g - suc k) = omega arith in
          rw (get_elem?-set_other groups g k new ne) (
            omega
              (arith, total_from-set (suc k) locations (omega arith) (λ l e. row l (rw later e))))
    ]

    -- One row may cost at most `slack` more; then so do all of them.
    pub total-set :
        ((location : Location)
          → get_elem? (capacity_groups w) g ≡ some location
          → row_charge w d location (some new) ≤ row_charge w d location (some old) + slack)
        → total w (set groups g new) d ≤ total w groups d + slack
    total-set row =
        total_from-set 0 (capacity_groups w) (omega arith)
          (λ l e. row l (subst (λ j. get_elem? (capacity_groups w) j ≡ some l) (the_same g) e))
      where
        the_same : (j : ℕ) → j - 0 ≡ j
        the_same j = omega arith

-- The devices of a group rise.
abbrev pub Ascending : ℕ → List ℕ → Type 0
Ascending k [] = Unit
Ascending k (x ∷ xs) = (k ≤ x) × Ascending (suc x) xs

range_from-Ascending : (k n : ℕ) → Ascending k (range_from k n)
range_from-Ascending k zero = tt
range_from-Ascending k (suc n) = (omega arith, range_from-Ascending (suc k) n)

pub devices-Ascending :
    (w : World) (location : Location) → (k : ℕ) × Ascending k (devices w location)
unfolding devices
devices-Ascending w (i, dp) = elim (Option-cases (get_elem? w.instance_plans i)) [
  | inl missing ↦ (0, subst (Ascending 0) (sym (ap ranks_of missing)) tt)
  | inr (plan, found) ↦ (
    dp * plan.atn_tp_size,
    subst (Ascending (dp * plan.atn_tp_size)) (sym (ap ranks_of found))
        (range_from-Ascending (dp * plan.atn_tp_size) plan.atn_tp_size),
  )
]
  where
    ranks_of : Option InstancePlan → List ℕ
    ranks_of none = []
    ranks_of (some plan) = range_from (dp * plan.atn_tp_size) plan.atn_tp_size

charge_below : (d k : ℕ) (xs os ns : List ℕ) → Ascending k xs → d < k → charge d xs os ns ≡ 0
unfolding charge
charge_below d k [] os ns a h = refl
charge_below d k (x ∷ xs) [] ns a h = refl
charge_below d k (x ∷ xs) (o ∷ os) [] a h = refl
charge_below d k (x ∷ xs) (o ∷ os) (n ∷ ns) a h =
    ground (arith, charge_below d (suc x) xs os ns a.1)

at-nth : (xs : List ℕ) (i : ℕ) {a : ℕ} → at xs i ≡ ok a → nth xs i ≡ a
at-nth [] i e = cc
at-nth (x ∷ xs) zero e = ground arith
at-nth (x ∷ xs) (suc i) e = at-nth xs i e

if_ok :
    (b : Bool) (r : Result Bool)
    → (if b then r else ok false) ≡ ok true
    → (b ≡ true) × (r ≡ ok true)
if_ok true r e = (refl, e)
if_ok false r e = cc

-- A growth that is covered costs no more on any device than what is free there.
pub covers-charge :
    (free : List ℕ) (d k : ℕ) (ms : List (ℕ × PartitionProfile)) (os ns : List ℕ) (gs : List Growth)
    → Ascending k (map (λ m. m.0) ms)
    → zip_growth ms os ns ≡ ok gs
    → covers free gs ≡ ok true
    → charge d (map (λ m. m.0) ms) os ns ≤ charge d (map (λ m. m.0) ms) os os + nth free d
unfolding charge covers
covers-charge free d k [] os ns gs a z c = omega arith
covers-charge free d k ((x, pr) ∷ ms) (o ∷ os) (n ∷ ns) gs a z c =
    let (rest, zipped, e1) = >>=-eq-ok (zip_growth ms os ns) _ z in
    let c' = subst (λ l. covers free l ≡ ok true) (sym (ok-injective e1)) c in
    let (f, found, c1) = >>=-eq-ok (at free x) _ c' in
    let (fits, more) = if_ok (leb n (f + o)) (covers free rest) c1 in
    let ih = covers-charge free d (suc x) ms os ns rest a.1 zipped more in
    elim (Bool-cases (nat_beq x d)) [
      | inl here ↦
          let same = (nat_beq_iff x d).0 here in
          let gone = charge_below d (suc x) (map (λ m. m.0) ms) os ns a.1 (omega arith) in
          let room : nth free d ≡ f = subst (λ j. nth free j ≡ f) same (at-nth free x found) in
          let bound = leb→le _ _ fits in
          let le : max o n ≤ o + nth free d = omega arith in rw here (omega arith)
      | inr other ↦ rw other (omega (arith, ih))
    ]
covers-charge free d k ((x, pr) ∷ ms) _ _ gs a z c = cc
