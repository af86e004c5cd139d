-- ===== src/Capacity/Charge.antt =====
-- What the groups are charged on a device: the larger of the quota in force and the one on its way.
use cross_pool.Prelude.{
  ℕ, zero, suc, ◌+◌, ◌-◌, ◌*◌, ◌<◌, max, ◌≡◌, refl, subst, true, Option, none, some, List, [], ◌∷◌,
  map, arith, leb, nat_beq, if◌then◌else◌, length, get_elem?, range_from, String,
}
use cross_pool.Prelude.Result.{Result, ok, >>=-eq-ok, ok-injective, require-eq-ok}
use cross_pool.Capacity.State.{
  World, PartitionProfile, Location, Group, CapacityPolicy, QuotaCommand, at, at-eq-ok, partition,
  capacity_groups, group_profiles, rank_profiles, enumerate,
}
use cross_pool.Capacity.Accounting.{
  add_at, spend, spend_active, spend_groups, target_of, zeros, remaining, pool_free_bytes, free_of,
}

-- The entry of a list, or 0 past its end.
abbrev pub nth : List ℕ → ℕ → ℕ
nth [] d = 0
nth (x ∷ xs) zero = x
nth (x ∷ xs) (suc d) = nth xs d

-- The devices of a group.
unfoldable pub devices : World → Location → List ℕ
devices w (i, dp) = elim (get_elem? w.instance_plans i) [
  | none ↦ []
  | some plan ↦ range_from (dp * plan.atn_tp_size) plan.atn_tp_size
]

unfoldable pub charge : ℕ → List ℕ → List ℕ → List ℕ → ℕ
charge d (x ∷ xs) (o ∷ os) (n ∷ ns) = (if nat_beq x d then max o n else 0) + charge d xs os ns
charge d _ _ _ = 0

abbrev pub charge_of : ℕ → List ℕ → Option (List ℕ) → Option QuotaCommand → ℕ
charge_of d devices none operation = 0
charge_of d devices (some active) operation = charge d devices active (target_of operation active)

-- The charge of one row of the policy.
abbrev pub row_charge : World → ℕ → Location → Option Group → ℕ
row_charge w d location none = 0
row_charge w d location (some group) =
    charge_of d (devices w location) group.active_quota group.operation

unfoldable pub total_from : World → List Group → ℕ → ℕ → List Location → ℕ
total_from w groups d k [] = 0
total_from w groups d k (location ∷ locations) =
    row_charge w d location (get_elem? groups k) + total_from w groups d (suc k) locations

-- What all groups together are charged on a device.
abbrev pub total : World → List Group → ℕ → ℕ
total w groups d = total_from w groups d 0 (capacity_groups w)

rank_profiles-devices :
    (w : World) (model_id : String) (ranks : List ℕ) (ms : List (ℕ × PartitionProfile))
    → rank_profiles w model_id ranks ≡ ok ms
    → map (λ m. m.0) ms ≡ ranks
rank_profiles-devices w model_id [] ms e = ground arith
rank_profiles-devices w model_id (r ∷ ranks) ms e =
    let (p, _, e1) = >>=-eq-ok (partition w model_id r) _ e in
    let (rest, found, e2) = >>=-eq-ok (rank_profiles w model_id ranks) _ e1 in
    ground (arith, rank_profiles-devices w model_id ranks rest found)

pub group_profiles-devices :
    (w : World) (location : Location) (ms : List (ℕ × PartitionProfile))
    → group_profiles w location ≡ ok ms
    → map (λ m. m.0) ms ≡ devices w location
unfolding group_profiles devices
group_profiles-devices w (i, dp) ms e =
    let (plan, found, e1) = >>=-eq-ok (at w.instance_plans i) _ e in
    rw (at-eq-ok w.instance_plans i found, devices) (rank_profiles-devices w plan.model_id _ ms e1)

add_at-nth :
    (xs ys : List ℕ) (i n d : ℕ)
    → add_at xs i n ≡ ok ys
    → nth ys d ≡ (if nat_beq i d then n else 0) + nth xs d
add_at-nth [] ys i n d e = cc
add_at-nth (x ∷ xs) [] zero n d e = cc
add_at-nth (x ∷ xs) (y ∷ ys) zero n zero e = ground arith
add_at-nth (x ∷ xs) (y ∷ ys) zero n (suc d) e = ground arith
add_at-nth (x ∷ xs) ys (suc i) n d e =
    let (rest, found, e1) = >>=-eq-ok (add_at xs i n) _ e in
    later rest (λ k. add_at-nth xs rest i n k found) ys e1 d
  where
    later :
        (rest : List ℕ)
        → ((k : ℕ) → nth rest k ≡ (if nat_beq i k then n else 0) + nth xs k)
        → (ys : List ℕ) → ◌≡◌ {A = Result (List ℕ)} (ok (x ∷ rest)) (ok ys)
        → (d : ℕ) → nth ys d ≡ (if nat_beq (suc i) d then n else 0) + nth (x ∷ xs) d
    later rest ih [] e1 d = cc
    later rest ih (y ∷ ys) e1 zero = ground arith
    later rest ih (y ∷ ys) e1 (suc d) = ground (arith, ih d)

spend-nth :
    (d : ℕ) (spent after : List ℕ) (ms : List (ℕ × PartitionProfile)) (os ns : List ℕ)
    → spend spent ms os ns ≡ ok after
    → nth after d ≡ nth spent d + charge d (map (λ m. m.0) ms) os ns
unfolding spend charge
spend-nth d spent after [] [] [] e = ground arith
spend-nth d spent after ((x, _) ∷ ms) (o ∷ os) (n ∷ ns) e =
    let (next, added, e1) = >>=-eq-ok (add_at spent x (max o n)) _ e in
    omega (arith, spend-nth d next after ms os ns e1, add_at-nth spent next x (max o n) d added)
spend-nth d spent after _ _ _ e = cc

spend_active-nth :
    (w : World) (d : ℕ) (spent after : List ℕ) (location : Location) (active : Option (List ℕ))
    (operation : Option QuotaCommand)
    → spend_active w spent location active operation ≡ ok after
    → nth after d ≡ nth spent d + charge_of d (devices w location) active operation
spend_active-nth w d spent after location none operation e = ground arith
spend_active-nth w d spent after location (some a) operation e =
    let (ms, profiles, e1) = >>=-eq-ok (group_profiles w location) _ e in
    rw (← group_profiles-devices w location ms profiles)
      (spend-nth d spent after ms a (target_of operation a) e1)

spend_groups-nth :
    (w : World) (groups : List Group) (d k : ℕ) (spent after : List ℕ) (locations : List Location)
    → spend_groups w groups spent (enumerate k locations) ≡ ok after
    → nth after d ≡ nth spent d + total_from w groups d k locations
unfolding spend_groups total_from
spend_groups-nth w groups d k spent after [] e = ground arith
spend_groups-nth w groups d k spent after (location ∷ locations) e =
    let (group, found, e1) = >>=-eq-ok (at groups k) _ e in
    let (next, spends, e2) =
      >>=-eq-ok (spend_active w spent location group.active_quota group.operation) _ e1 in
    rw (at-eq-ok groups k found) (
      omega (
        arith,
        spend_active-nth w d spent next location group.active_quota group.operation spends,
        spend_groups-nth w groups d (suc k) next after locations e2,
      ))

remaining-nth :
    (capacity spent free : List ℕ) (d : ℕ)
    → remaining capacity spent ≡ ok free
    → d < length capacity
    → nth free d + nth spent d ≡ nth capacity d
unfolding remaining
remaining-nth [] spent free d e h = absurd (omega arith)
remaining-nth (c ∷ cs) [] free d e h = ground arith
remaining-nth (c ∷ cs) (s ∷ ss) free d e h =
    let (fits, e1) = require-eq-ok (leb s c) _ _ e in
    let (rest, found, e2) = >>=-eq-ok (remaining cs ss) _ e1 in
    subst (λ l. nth l d + nth (s ∷ ss) d ≡ nth (c ∷ cs) d) (ok-injective e2)
      (at_place rest (λ k. remaining-nth cs ss rest k found) fits d h)
  where
    at_place :
        (rest : List ℕ)
        → ((k : ℕ) → k < length cs → nth rest k + nth ss k ≡ nth cs k)
        → leb s c ≡ true
        → (d : ℕ) → d < suc (length cs)
        → nth ((c - s) ∷ rest) d + nth (s ∷ ss) d ≡ nth (c ∷ cs) d
    at_place rest ih fits zero h = ground arith
    at_place rest ih fits (suc d) h = ih d (omega arith)

nth-zeros : (xs : List ℕ) (d : ℕ) → nth (zeros xs) d ≡ 0
nth-zeros [] d = refl
nth-zeros (x ∷ xs) zero = refl
nth-zeros (x ∷ xs) (suc d) = nth-zeros xs d

-- What is free on a device and what the groups are charged there make up its budget.
pub pool_free_bytes-total :
    (w : World) (p : CapacityPolicy) (capacity free : List ℕ) (d : ℕ)
    → p.pool_capacity_bytes ≡ some capacity
    → pool_free_bytes w p ≡ ok free
    → d < length capacity
    → nth free d + total w p.groups d ≡ nth capacity d
unfolding pool_free_bytes
pool_free_bytes-total w p capacity free d frozen e h =
    let (spent, spends, e1) =
      >>=-eq-ok (spend_groups w p.groups (zeros capacity) (enumerate 0 (capacity_groups w))) _
        (subst (λ o. free_of w p.groups o ≡ ok free) frozen e) in
    omega (
      arith,
      spend_groups-nth w p.groups d 0 (zeros capacity) spent (capacity_groups w) spends,
      nth-zeros capacity d,
      remaining-nth capacity spent free d e1 h,
    )
