-- ===== src/Rank/Demand.antt =====
-- What a rank asks for: `record_requirement` and `finish_scheduling` of `CapacityReconciler` in
-- src/xpool/integrations/sglang/ecs/capacity.py. A request is a number, and the values that the ranks
-- gather are an argument. `none` stands for the `-1` of a requirement that has no price.
use cross_pool.Prelude.{
  ℕ, suc, ◌≤◌, ◌≡◌, ◌∙◌, sym, ◌↔◌, refl, inl, inr, Bool, true, false, not, ◌&&◌, ◌||◌, Option, none,
  some, List, [], ◌∷◌, All, any, all, max, Eq, option_eq, option_beq_iff, and_true, ap, subst,
  get_elem?, arith, leb, ltb, ◌==◌, nat_eq, if◌then◌else◌, Bool-cases, sym, leb→le, ◌<◌,
}
use cross_pool.Prelude.Result.{Result, ok, err, value_error}
use cross_pool.Prelude.Action.{Action, pure}
use cross_pool.Prelude.Dict.{insert, delete, values}
use cross_pool.Prelude.Sets.{elem, select}
use cross_pool.Capacity.State.{QuotaDemand}

pub record DemandWitness : Type 0 where
  pub evaluated_sequence : ℕ
  pub required_bytes : List ℕ
  pub deadline_monotonic_ns : ℕ

abbrev bytes_beq : List ℕ → List ℕ → Bool
bytes_beq [] [] = true
bytes_beq (a ∷ rest) (b ∷ others) = a == b && bytes_beq rest others
bytes_beq _ _ = false

pub bytes_beq_iff : (xs ys : List ℕ) → (bytes_beq xs ys ≡ true) ↔ (xs ≡ ys)
bytes_beq_iff [] [] = ground arith
bytes_beq_iff [] (b ∷ others) = ground arith
bytes_beq_iff (a ∷ rest) [] = ground arith
bytes_beq_iff (a ∷ rest) (b ∷ others) = ground (arith, bytes_beq_iff rest others)

instance abbrev requests_eq : Eq (List ℕ)
requests_eq = record { beq_iff = bytes_beq_iff; beq = bytes_beq }

-- The part of the reconciler that demands use.
pub record Demands : Type 0 where
  pub tp_rank : ℕ
  pub completed_sequence : ℕ
  pub active_quota_bytes : List ℕ
  pub service_ceiling_bytes : Option (List ℕ)
  pub unresolved_demands : List (List ℕ × DemandWitness)
  pub published_demand : Option QuotaDemand
  -- what has been published on the channel, the last first
  pub publications : List QuotaDemand

-- What this rank contributes: its requirement, and at least its limit.
abbrev own_value : ℕ → Option ℕ → Option ℕ
own_value limit none = none
own_value limit (some required) = some (max required limit)

-- The values, unless one of the ranks has none.
abbrev gathered : List (Option ℕ) → Option (List ℕ)
gathered [] = some []
gathered (none ∷ vs) = none
gathered (some v ∷ vs) = elim (gathered vs) [ none ↦ none | some rest ↦ some (v ∷ rest) ]

abbrev any_over : List ℕ → List ℕ → Result Bool
any_over [] [] = ok false
any_over (v ∷ vs) (cap ∷ caps) = let rest = any_over vs caps in if ltb cap v then ok true else rest
any_over _ _ = err value_error

abbrev drop_witness : List ℕ → Demands → Demands
drop_witness requests d = record d { unresolved_demands = delete requests d.unresolved_demands }

abbrev put_witness : List ℕ → List ℕ → ℕ → Demands → Demands
put_witness requests required deadline d = record d {
  unresolved_demands =
      insert requests
        (record {
          evaluated_sequence = d.completed_sequence;
          required_bytes = required;
          deadline_monotonic_ns = deadline;
        })
        d.unresolved_demands;
}

-- A requirement that is over the ceiling, or is what the rank has, is dropped.
abbrev weigh : List ℕ → List ℕ → ℕ → Result Bool → Action Demands (Unit {0})
weigh requests required deadline (err e) d = (err e, d)
weigh requests required deadline (ok over) d =
    if over || bytes_beq required d.active_quota_bytes
    then (ok tt, drop_witness requests d)
    else (ok tt, put_witness requests required deadline d)

abbrev judge : List ℕ → Option (List ℕ) → Option (List ℕ) → ℕ → Action Demands (Unit {0})
judge requests (some required) (some ceiling) deadline d =
    weigh requests required deadline (any_over required ceiling) d
judge requests _ _ deadline d = (ok tt, drop_witness requests d)

-- `None` for the memory drops whatever the requests are part of.
abbrev shares : List ℕ → List ℕ × DemandWitness → Bool
shares requests (key, witness) = any (λ r. elem r key) requests

unfoldable pub record_requirement :
    List ℕ → Option (List (Option ℕ)) → ℕ → Action Demands (Unit {0})
unfolding elem select insert delete
record_requirement requests none deadline d = (
  ok tt,
  record d { unresolved_demands = select (λ e. not (shares requests e)) d.unresolved_demands },
)
record_requirement requests (some vs) deadline d =
    if not (d.tp_rank == 0)
    then pure tt d
    else judge requests (gathered vs) d.service_ceiling_bytes deadline d

-- A witness counts while it was evaluated under the quota in force and its requests are all active and
-- unfinished.
abbrev pub is_current : (ℕ → Bool) → (ℕ → Bool) → ℕ → List ℕ × DemandWitness → Bool
is_current active finished completed (requests, witness) =
    witness.evaluated_sequence == completed && all (λ r. active r && not (finished r)) requests

-- `min` by the deadline: the first of the smallest.
abbrev sooner : DemandWitness → Option DemandWitness → DemandWitness
sooner w none = w
sooner w (some best) = if leb w.deadline_monotonic_ns best.deadline_monotonic_ns then w else best

unfoldable pub most_urgent : List DemandWitness → Option DemandWitness
most_urgent [] = none
most_urgent (w ∷ ws) = some (sooner w (most_urgent ws))

abbrev pub demand_of : ℕ → Option DemandWitness → QuotaDemand
demand_of completed none = record {
  evaluated_sequence = completed;
  required_bytes = none;
  deadline_monotonic_ns = none;
}
demand_of completed (some w) = record {
  evaluated_sequence = completed;
  required_bytes = some w.required_bytes;
  deadline_monotonic_ns = some w.deadline_monotonic_ns;
}

abbrev option_bytes_beq : Option (List ℕ) → Option (List ℕ) → Bool
option_bytes_beq none none = true
option_bytes_beq (some a) (some b) = bytes_beq a b
option_bytes_beq _ _ = false

abbrev is_published : QuotaDemand → Option QuotaDemand → Bool
is_published new none = false
is_published new (some old) =
    new.evaluated_sequence == old.evaluated_sequence
    && option_bytes_beq new.required_bytes old.required_bytes
    && new.deadline_monotonic_ns == old.deadline_monotonic_ns

abbrev publish : QuotaDemand → Demands → Demands
publish new d =
    if is_published new d.published_demand
    then d
    else record d { published_demand = some new; publications = new ∷ d.publications }

abbrev pub current : (ℕ → Bool) → (ℕ → Bool) → Demands → List (List ℕ × DemandWitness)
current active finished d =
    select (is_current active finished d.completed_sequence) d.unresolved_demands

unfoldable pub finish_scheduling : (ℕ → Bool) → (ℕ → Bool) → Demands → Demands
unfolding select most_urgent
finish_scheduling active finished d =
    if not (d.tp_rank == 0) || d.completed_sequence == 0
    then d
    else publish (demand_of d.completed_sequence (most_urgent (values (current active finished d))))
        (record d { unresolved_demands = current active finished d })

-- The most urgent of some witnesses is one of them, and no other has an earlier deadline.
abbrev pub IsUrgent : Option DemandWitness → List DemandWitness → Type 0
IsUrgent none ws = ws ≡ []
IsUrgent (some w) ws =
    ((i : ℕ) × (get_elem? ws i ≡ some w))
    × All (λ (v : DemandWitness). w.deadline_monotonic_ns ≤ v.deadline_monotonic_ns) ws

All-le :
    (low high : ℕ) (ws : List DemandWitness)
    → low ≤ high
    → All (λ (v : DemandWitness). high ≤ v.deadline_monotonic_ns) ws
    → All (λ (v : DemandWitness). low ≤ v.deadline_monotonic_ns) ws
All-le low high [] le h = tt
All-le low high (w ∷ ws) le (first, rest) = (omega arith, All-le low high ws le rest)

most_urgent-IsUrgent : (ws : List DemandWitness) → IsUrgent (most_urgent ws) ws
unfolding most_urgent
most_urgent-IsUrgent [] = refl
most_urgent-IsUrgent (w ∷ ws) = cases (most_urgent ws) (most_urgent-IsUrgent ws)
  where
    cases : (o : Option DemandWitness) → IsUrgent o ws → IsUrgent (some (sooner w o)) (w ∷ ws)
    cases none h = ((0, refl), (omega arith, rw h tt))
    cases (some best) ((i, at_i), rest) =
        elim (Bool-cases (leb w.deadline_monotonic_ns best.deadline_monotonic_ns)) [
          | inl first ↦
              subst (λ x. IsUrgent (some x) (w ∷ ws)) (sym (soonest first))
                (
                  (0, refl),
                  (
                    omega arith,
                    All-le w.deadline_monotonic_ns best.deadline_monotonic_ns ws
                        (leb→le w.deadline_monotonic_ns best.deadline_monotonic_ns first) rest,
                  ),
                )
          | inr later ↦
              subst (λ x. IsUrgent (some x) (w ∷ ws)) (sym (latest later))
                ((suc i, at_i), (ground arith, rest))
        ]
      where
        soonest :
            leb w.deadline_monotonic_ns best.deadline_monotonic_ns ≡ true → sooner w (some best) ≡ w
        soonest e = rw e refl

        latest :
            leb w.deadline_monotonic_ns best.deadline_monotonic_ns ≡ false
            → sooner w (some best) ≡ best
        latest e = rw e refl

option_bytes-eq : (a b : Option (List ℕ)) → option_bytes_beq a b ≡ true → a ≡ b
option_bytes-eq none none e = refl
option_bytes-eq none (some b) e = cc
option_bytes-eq (some a) none e = cc
option_bytes-eq (some a) (some b) e = ap some ((bytes_beq_iff a b).0 e)

is_published-eq :
    (new : QuotaDemand) (o : Option QuotaDemand) → is_published new o ≡ true → o ≡ some new
is_published-eq new none e = cc
is_published-eq new (some old) e =
    let (bytes, later) =
      and_true
        (new.evaluated_sequence == old.evaluated_sequence
          && option_bytes_beq new.required_bytes old.required_bytes)
        (new.deadline_monotonic_ns == old.deadline_monotonic_ns) e in
    let (sequence, required) =
      and_true (new.evaluated_sequence == old.evaluated_sequence)
        (option_bytes_beq new.required_bytes old.required_bytes) bytes in
    let a = (nat_eq.beq_iff new.evaluated_sequence old.evaluated_sequence).0 sequence in
    let b = option_bytes-eq new.required_bytes old.required_bytes required in
    let c = (option_beq_iff new.deadline_monotonic_ns old.deadline_monotonic_ns).0 later in cc

-- The last demand on the channel.
abbrev pub last_of : List QuotaDemand → Option QuotaDemand
last_of [] = none
last_of (new ∷ older) = some new

-- The demand that the rank remembers is the last one on the channel.
abbrev pub IsRemembered : Demands → Type 0
IsRemembered d = d.published_demand ≡ last_of d.publications

publish-published :
    (new : QuotaDemand) (d : Demands)
    → IsRemembered d
    → (last_of (publish new d).publications ≡ some new) × IsRemembered (publish new d)
publish-published new d h = elim (Bool-cases (is_published new d.published_demand)) [
  | inl known ↦ rw known (sym h ∙ is_published-eq new d.published_demand known, h)
  | inr fresh ↦ rw fresh (refl, refl)
]

pub finish_scheduling-IsUrgent :
    (active finished : ℕ → Bool) (d : Demands)
    → d.tp_rank ≡ 0
    → 0 < d.completed_sequence
    → IsRemembered d
    → IsRemembered (finish_scheduling active finished d)
      × ((urgent : Option DemandWitness) × (last_of
              (finish_scheduling active finished d).publications
            ≡ some (demand_of d.completed_sequence urgent))
          × IsUrgent urgent (values (current active finished d)))
unfolding finish_scheduling
finish_scheduling-IsUrgent active finished d lead done h =
    let (last, remembered) =
      publish-published
        (demand_of d.completed_sequence (most_urgent (values (current active finished d))))
        (record d { unresolved_demands = current active finished d }) h in
    (
      rw ((nat_eq.beq_iff d.tp_rank 0).1 lead, positive) remembered,
      (
        most_urgent (values (current active finished d)),
        rw ((nat_eq.beq_iff d.tp_rank 0).1 lead, positive) last,
        most_urgent-IsUrgent (values (current active finished d)),
      ),
    )
  where
    positive : (d.completed_sequence == 0) ≡ false
    positive = ground arith
