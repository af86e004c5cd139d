-- ===== src/Fabric/Layout.antt =====
-- The order of the PEs in a plan: `FabricPePlacement.validate_order` of src/xpool/fabric.py.
use cross_pool.Prelude.{
  ℕ, zero, suc, ◌+◌, ◌-◌, ◌<◌, ◌≤◌, ◌≡◌, refl, ap, ◌∙◌, Bool, true, false, not, ◌&&◌, ◌||◌, some,
  List, [], ◌∷◌, ◌++◌, map, arith, ◌==◌, nat_eq, length, get_elem?,
}
use cross_pool.Prelude.Result.{Result, ok, value_error, ◌>>◌, require, require-eq-ok, ok-injective}
use cross_pool.Fabric.State.{FabricRole, FabricPePlacement, atnagent, ffnagent}

abbrev role_beq : FabricRole → FabricRole → Bool
role_beq atnagent atnagent = true
role_beq ffnagent ffnagent = true
role_beq _ _ = false

abbrev roles_beq : List FabricRole → List FabricRole → Bool
roles_beq [] [] = true
roles_beq (x ∷ xs) (y ∷ ys) = let rest = roles_beq xs ys in role_beq x y && rest
roles_beq _ _ = false

abbrev count_atnagents : List FabricRole → ℕ
count_atnagents [] = 0
count_atnagents (atnagent ∷ rs) = suc (count_atnagents rs)
count_atnagents (ffnagent ∷ rs) = count_atnagents rs

abbrev repeat : FabricRole → ℕ → List FabricRole
repeat r zero = []
repeat r (suc n) = r ∷ repeat r n

abbrev pub role_of : FabricPePlacement → FabricRole
role_of p = p.role

-- The AtnAgents and the FfnAgents, which stand in this order.
unfoldable pub validate_order : List FabricPePlacement → Result (ℕ × ℕ)
validate_order placements = do
  let roles = map role_of placements
  let atnagent_count = count_atnagents roles
  let ffnagent_count = length placements - atnagent_count
  require (not (atnagent_count == 0 || ffnagent_count == 0)) value_error
  require (roles_beq roles (repeat atnagent atnagent_count ++ repeat ffnagent ffnagent_count))
      value_error
  ok (atnagent_count, ffnagent_count)

roles_beq→≡ : (xs ys : List FabricRole) → roles_beq xs ys ≡ true → xs ≡ ys
roles_beq→≡ [] [] h = refl
roles_beq→≡ [] (y ∷ ys) h = cc
roles_beq→≡ (x ∷ xs) [] h = cc
roles_beq→≡ (atnagent ∷ xs) (atnagent ∷ ys) h = ap (λ l. atnagent ∷ l) (roles_beq→≡ xs ys h)
roles_beq→≡ (ffnagent ∷ xs) (ffnagent ∷ ys) h = ap (λ l. ffnagent ∷ l) (roles_beq→≡ xs ys h)
roles_beq→≡ (atnagent ∷ xs) (ffnagent ∷ ys) h = cc
roles_beq→≡ (ffnagent ∷ xs) (atnagent ∷ ys) h = cc

expected_first :
    (a f pe : ℕ) → pe < a → get_elem? (repeat atnagent a ++ repeat ffnagent f) pe ≡ some atnagent
expected_first zero f pe h = absurd (omega arith)
expected_first (suc a) f zero h = refl
expected_first (suc a) f (suc pe) h = expected_first a f pe (omega arith)

expected_last :
    (a f pe : ℕ)
    → a ≤ pe
    → pe < a + f
    → get_elem? (repeat atnagent a ++ repeat ffnagent f) pe ≡ some ffnagent
expected_last zero zero pe h k = absurd (omega arith)
expected_last zero (suc f) zero h k = refl
expected_last zero (suc f) (suc pe) h k = expected_last zero f pe (omega arith) (omega arith)
expected_last (suc a) f zero h k = absurd (omega arith)
expected_last (suc a) f (suc pe) h k = expected_last a f pe (omega arith) (omega arith)

-- Placements that pass have an AtnAgent on every PE below the first count and an FfnAgent on the
-- others, as many as the second count; there are some of both, and together as many as there are
-- placements.
pub validate_order-eq-ok :
    (placements : List FabricPePlacement) (a f : ℕ)
    → validate_order placements ≡ ok (a, f)
    → (0 < a)
      × (0 < f)
      × (a + f ≡ length placements)
      × ((pe : ℕ) → pe < a → get_elem? (map role_of placements) pe ≡ some atnagent)
      × ((pe : ℕ) → a ≤ pe → pe < a + f → get_elem? (map role_of placements) pe ≡ some ffnagent)
unfolding validate_order
validate_order-eq-ok placements a f e =
    let n = count_atnagents (map role_of placements) in
    let m = length placements - n in
    let (both, e1) = require-eq-ok (not (n == 0 || m == 0)) value_error _ e in
    let (same, e2) =
      require-eq-ok (roles_beq (map role_of placements) (repeat atnagent n ++ repeat ffnagent m))
        value_error _ e1 in
    let counts = ok-injective e2 in
    let a_eq : n ≡ a = ap (λ (x : ℕ × ℕ). x.0) counts in
    let f_eq : m ≡ f = ap (λ (x : ℕ × ℕ). x.1) counts in
    let some_both = present n m both in
    let roles =
      roles_beq→≡ (map role_of placements) (repeat atnagent n ++ repeat ffnagent m) same in
    (
      omega (arith, some_both, a_eq),
      omega (arith, some_both, f_eq),
      omega (arith, some_both, a_eq, f_eq),
      (λ pe h.
          ap (λ (l : List FabricRole). get_elem? l pe) roles
          ∙ expected_first n m pe (omega (arith, a_eq))),
      (λ pe h k.
          ap (λ (l : List FabricRole). get_elem? l pe) roles
          ∙ expected_last n m pe (omega (arith, a_eq)) (omega (arith, a_eq, f_eq))),
    )
  where
    present : (n m : ℕ) → not (n == 0 || m == 0) ≡ true → (0 < n) × (0 < m)
    present n m h = ground arith
