-- ===== src/Capacity/Borrowers.antt =====
-- Which groups may borrow, in which order, and which groups may lend: `eligible_demand`,
-- `ordered_borrowers` and the choice of a donor in `advance_attempt`.
use cross_pool.Prelude.{
  ℕ, Bool, true, false, not, ◌&&◌, ◌||◌, Option, none, some, List, [], ◌∷◌, ◌++◌, ltb, leb, any,
  map, is_some, if◌then◌else◌, ◌==◌, nat_eq,
}
use cross_pool.Prelude.Result.{Result, ok, err, value_error, ◌>>=◌}
use cross_pool.Capacity.State.{World, Location, Group, at, group_profiles}

-- Python's `==` on tuples of integers.
abbrev pub list_beq : List ℕ → List ℕ → Bool
list_beq [] [] = true
list_beq (x ∷ xs) (y ∷ ys) = let rest = list_beq xs ys in x == y && rest
list_beq _ _ = false

-- `all(old <= new <= cap ...)` with the strict `zip`.
abbrev pub bounded : List ℕ → List ℕ → List ℕ → Result Bool
bounded [] [] [] = ok true
bounded (old ∷ olds) (new ∷ news) (cap ∷ caps) =
    let rest = bounded olds news caps in if leb old new && leb new cap then rest else ok false
bounded _ _ _ = err value_error

-- A demand that `eligible_demand` returns, with the fields that it has shown to be there.
pub record Eligible : Type 0 where
  pub evaluated_sequence : ℕ
  pub required : List ℕ
  pub deadline : ℕ
  pub active : List ℕ

abbrev pub eligible_vector :
    Group
    → ℕ
    → Option (List ℕ)
    → Option ℕ
    → Option (List ℕ)
    → Option (List ℕ)
    → Result (Option Eligible)
eligible_vector group sequence (some required) (some deadline) (some active) (some cap) =
    if is_some group.operation || not (sequence == group.applied_sequence) then ok none else do
      fits ← bounded active required cap
      ok (
          if not fits || list_beq required active
          then none
          else some (record {
            evaluated_sequence = sequence;
            required = required;
            deadline = deadline;
            active = active;
          }))
eligible_vector _ _ _ _ _ _ = ok none

unfoldable pub eligible_demand : Group → Result (Option Eligible)
eligible_demand group = elim group.demand [
  | none ↦ ok none
  | some demand ↦
      eligible_vector group demand.evaluated_sequence demand.required_bytes
        demand.deadline_monotonic_ns group.active_quota group.service_ceiling
]

-- One entry of `candidates`: a group, its deadline and its devices, with the order of its last grant.
pub record Borrower : Type 0 where
  pub group_index : ℕ
  pub deadline : ℕ
  pub devices : List ℕ
  pub grant_order : Option ℕ

abbrev candidate :
    World → ℕ → Location → Group → Option Eligible → Result (List Borrower) → Result (List Borrower)
candidate w g location group none rest = rest
candidate w g location group (some demand) rest = do
  ms ← group_profiles w location
  others ← rest
  ok (
      record {
        group_index = g;
        deadline = demand.deadline;
        devices = map (λ m. m.0) ms;
        grant_order = group.completed_grant_order;
      }
      ∷ others)

unfoldable pub candidates : World → List Group → List (ℕ × Location) → Result (List Borrower)
unfolding eligible_demand
candidates w groups [] = ok []
candidates w groups ((g, location) ∷ rest) = do
  group ← at groups g
  demand ← eligible_demand group
  candidate w g location group demand (candidates w groups rest)

-- `completed_grant_orders[g] or 0`.
abbrev or_zero : Option ℕ → ℕ
or_zero none = 0
or_zero (some n) = n

-- Lexicographic order of two keys.
abbrev then_by : (a b : ℕ) → Bool → Bool
then_by a b rest = ltb a b || (a == b && rest)

abbrev flag : Bool → ℕ
flag false = 0
flag true = 1

-- The sort keys: groups that were never granted come first, then the oldest grant, the earliest
-- deadline and the group index.
unfoldable pub overdue_before : Borrower → Borrower → Bool
overdue_before a b = then_by (flag (is_some a.grant_order)) (flag (is_some b.grant_order)) (
    then_by (or_zero a.grant_order) (or_zero b.grant_order)
      (then_by a.deadline b.deadline (ltb a.group_index b.group_index)))

unfoldable pub predeadline_before : Borrower → Borrower → Bool
predeadline_before a b = then_by a.deadline b.deadline (ltb a.group_index b.group_index)

-- `sorted` by a strict order of keys; stable, as Python's is.
unfoldable pub insert_by : (Borrower → Borrower → Bool) → Borrower → List Borrower → List Borrower
insert_by before b [] = b ∷ []
insert_by before b (c ∷ cs) =
    let rest = insert_by before b cs in if before c b then c ∷ rest else b ∷ c ∷ cs

unfoldable pub sort_by : (Borrower → Borrower → Bool) → List Borrower → List Borrower
unfolding insert_by
sort_by before [] = []
sort_by before (b ∷ bs) = insert_by before b (sort_by before bs)

abbrev pub select : (Borrower → Bool) → List Borrower → List Borrower
select p [] = []
select p (b ∷ bs) = let rest = select p bs in if p b then b ∷ rest else rest

abbrev pub mem : ℕ → List ℕ → Bool
mem d = any (λ x. x == d)

abbrev pub is_overdue : ℕ → Borrower → Bool
is_overdue now b = leb b.deadline now

-- Whether a device of the borrower is one of an overdue borrower's.
abbrev pub meets : List Borrower → Borrower → Bool
meets overdue b = any (λ d. any (λ o. mem d o.devices) overdue) b.devices

-- `ordered_borrowers` on the candidates.
unfoldable pub order_borrowers : ℕ → List Borrower → List Borrower
unfolding sort_by overdue_before predeadline_before
order_borrowers now bs =
    let overdue = select (is_overdue now) bs in
    sort_by overdue_before overdue
    ++ sort_by predeadline_before (select (λ b. not (is_overdue now b) && not (meets overdue b)) bs)

unfoldable pub ordered_borrowers : World → List Group → List (ℕ × Location) → ℕ → Result (List ℕ)
unfolding candidates order_borrowers
ordered_borrowers w groups directory now = do
  bs ← candidates w groups directory
  ok (map (λ b. b.group_index) (order_borrowers now bs))
