-- ===== src/Capacity/Bounds.antt =====
-- Vectors of quotas that keep the floors of their partitions, and the vectors that grow from them or
-- shrink to them.
use cross_pool.Prelude.{
  ℕ, ◌≤◌, ◌≡◌, subst, Bool, true, false, ◌&&◌, List, [], ◌∷◌, map, arith, if◌then◌else◌, leb,
  Bool-cases, inl, inr,
}
use cross_pool.Prelude.Result.{Result, ok, >>=-eq-ok, ok-injective}
use cross_pool.Capacity.State.{PartitionProfile}
use cross_pool.Capacity.Borrowers.{bounded}
use cross_pool.Capacity.Donors.{lend}
use cross_pool.Capacity.Charge.{charge}

-- One quota for each partition, none below its floor.
unfoldable pub HoldsFloors : List (ℕ × PartitionProfile) → List ℕ → Type 0
HoldsFloors [] [] = Unit
HoldsFloors [] (quota ∷ quotas) = ⊥
HoldsFloors ((_, profile) ∷ ms) [] = ⊥
HoldsFloors ((_, profile) ∷ ms) (quota ∷ quotas) =
    (profile.floor_bytes ≤ quota) × HoldsFloors ms quotas

-- A vector that is in force and not on its way is charged no more than with the way to it.
pub charge-arrived :
    (d : ℕ) (ms : List (ℕ × PartitionProfile)) (old new : List ℕ)
    → HoldsFloors ms old
    → HoldsFloors ms new
    → charge d (map (λ m. m.0) ms) new new ≤ charge d (map (λ m. m.0) ms) old new
unfolding HoldsFloors charge
charge-arrived d [] [] [] h k = omega arith
charge-arrived d [] [] (n ∷ new) h k = absurd k
charge-arrived d [] (o ∷ old) new h k = absurd h
charge-arrived d ((x, m) ∷ ms) [] new h k = absurd h
charge-arrived d ((x, m) ∷ ms) (o ∷ old) [] h k = absurd k
charge-arrived d ((x, m) ∷ ms) (o ∷ old) (n ∷ new) h k =
    ground (arith, charge-arrived d ms old new h.1 k.1)

bounded-step :
    (o n c : ℕ) (rest : Result Bool)
    → (if leb o n && leb n c then rest else ok false) ≡ ok true
    → (o ≤ n) × (rest ≡ ok true)
bounded-step o n c rest e = elim (Bool-cases (leb o n && leb n c)) [
  | inl yes' ↦ (ground arith, ground arith)
  | inr no' ↦ ground arith
]

-- Growth keeps the floors.
pub bounded-HoldsFloors :
    (ms : List (ℕ × PartitionProfile)) (active required caps : List ℕ)
    → HoldsFloors ms active
    → bounded active required caps ≡ ok true
    → HoldsFloors ms required
unfolding HoldsFloors
bounded-HoldsFloors [] [] [] caps h e = tt
bounded-HoldsFloors [] [] (n ∷ required) caps h e = cc
bounded-HoldsFloors [] (o ∷ active) required caps h e = absurd h
bounded-HoldsFloors ((x, m) ∷ ms) [] required caps h e = absurd h
bounded-HoldsFloors ((x, m) ∷ ms) (o ∷ active) [] caps h e = cc
bounded-HoldsFloors ((x, m) ∷ ms) (o ∷ active) (n ∷ required) [] h e = cc
bounded-HoldsFloors ((x, m) ∷ ms) (o ∷ active) (n ∷ required) (c ∷ caps) h e =
    let (le, rest) = bounded-step o n c (bounded active required caps) e in
    (omega (arith, h.0), bounded-HoldsFloors ms active required caps h.1 rest)

-- A donor keeps its floors.
pub lend-HoldsFloors :
    (missing : List (ℕ × ℕ)) (ms : List (ℕ × PartitionProfile)) (active target : List ℕ)
    → lend missing ms active ≡ ok target
    → HoldsFloors ms target
unfolding HoldsFloors lend
lend-HoldsFloors missing [] [] target e = subst (HoldsFloors []) (ok-injective e) tt
lend-HoldsFloors missing [] (o ∷ active) target e = cc
lend-HoldsFloors missing ((x, m) ∷ ms) [] target e = cc
lend-HoldsFloors missing ((x, m) ∷ ms) (o ∷ active) target e =
    let (rest, lent, e1) = >>=-eq-ok (lend missing ms active) _ e in
    subst (HoldsFloors ((x, m) ∷ ms)) (ok-injective e1)
      (omega arith, lend-HoldsFloors missing ms active rest lent)

-- A donor does not grow.
pub charge-lend :
    (missing : List (ℕ × ℕ)) (d : ℕ) (ms : List (ℕ × PartitionProfile)) (active target : List ℕ)
    → HoldsFloors ms active
    → lend missing ms active ≡ ok target
    → charge d (map (λ m. m.0) ms) active target ≤ charge d (map (λ m. m.0) ms) active active
unfolding HoldsFloors lend charge
charge-lend missing d [] active target h e = omega arith
charge-lend missing d ((x, m) ∷ ms) [] target h e = absurd h
charge-lend missing d ((x, m) ∷ ms) (o ∷ active) target h e =
    let (rest, lent, e1) = >>=-eq-ok (lend missing ms active) _ e in
    let ih = charge-lend missing d ms active rest h.1 lent in
    let floor = h.0 in
    subst
      (λ t.
        charge d (x ∷ map (λ m. m.0) ms) (o ∷ active) t
        ≤ charge d (x ∷ map (λ m. m.0) ms) (o ∷ active) (o ∷ active))
      (ok-injective e1) (ground (arith, ih, floor))
