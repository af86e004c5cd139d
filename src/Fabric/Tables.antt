-- ===== src/Fabric/Tables.antt =====
-- The table of reports that the barrier of src/xpool/service/daemon/fabric.py reads, against its lookups.
use cross_pool.Prelude.{
  ℕ, zero, suc, ◌<◌, ◌≡◌, refl, sym, subst, inl, inr, true, some, is_some, List, [], ◌∷◌, all, ltb,
  ◌==◌, nat_eq, option_eq, arith, Bool-cases, lt→ltb,
}
use cross_pool.Prelude.Dict.{lookup, keys, values}
use cross_pool.Prelude.Keys.{HasDistinctKeys}
use cross_pool.Identity.{generation_id_eq}
use cross_pool.Fabric.Phase.{
  FabricParticipantPhase, generation_phase_eq, participant_phase_eq, participant_is_iff,
}
use cross_pool.Fabric.State.{FabricParticipantReport, failure_eq, report_eq}
use cross_pool.Fabric.Report.{all_reported, phases_are}

module _ (p : FabricParticipantPhase) (n : ℕ) where
  abbrev pub IsAt : List (ℕ × FabricParticipantReport) → Type 0
  IsAt ps =
      (pe : ℕ) (r : FabricParticipantReport) → lookup pe ps ≡ some r → (pe < n) × (r.phase ≡ p)

  rest-IsAt :
      (k : ℕ) (v : FabricParticipantReport) (ps : List (ℕ × FabricParticipantReport))
      → HasDistinctKeys ((k, v) ∷ ps)
      → IsAt ((k, v) ∷ ps)
      → IsAt ps
  unfolding HasDistinctKeys lookup
  rest-IsAt k v ps distinct h pe r e = h pe r (elim (Bool-cases (k == pe)) [
    | inl same ↦ absurd (
        let at : k ≡ pe = (nat_eq.beq_iff k pe).0 same in
        let found : lookup k ps ≡ some r = subst (λ i. lookup i ps ≡ some r) (sym at) e in
        let absent = distinct.0 in cc)
    | inr other ↦ rw other e
  ])

  pub all-keys :
      (ps : List (ℕ × FabricParticipantReport))
      → HasDistinctKeys ps
      → IsAt ps
      → all (λ pe. ltb pe n) (keys ps) ≡ true
  unfolding HasDistinctKeys lookup
  all-keys [] distinct h = refl
  all-keys ((k, v) ∷ ps) distinct h =
      let (below, _) = h k v (rw (nat_eq.beq_iff k k).1 refl) in
      rw (lt→ltb k n below) (all-keys ps distinct.1 (rest-IsAt k v ps distinct h))

  pub all-values :
      (ps : List (ℕ × FabricParticipantReport))
      → HasDistinctKeys ps
      → IsAt ps
      → all (λ report. report.phase == p) (values ps) ≡ true
  unfolding HasDistinctKeys lookup
  all-values [] distinct h = refl
  all-values ((k, v) ∷ ps) distinct h =
      let (_, same) = h k v (rw (nat_eq.beq_iff k k).1 refl) in
      rw ((participant_is_iff v.phase p).1 same)
        (all-values ps distinct.1 (rest-IsAt k v ps distinct h))

pub all_reported-true :
    (ps : List (ℕ × FabricParticipantReport)) (n : ℕ)
    → ((pe : ℕ) → pe < n → is_some (lookup pe ps) ≡ true)
    → all_reported ps n ≡ true
unfolding all_reported
all_reported-true ps zero there = refl
all_reported-true ps (suc n) there =
    rw (there n (omega arith)) (all_reported-true ps n (λ pe l. there pe (omega arith)))

pub phases-eq-true :
    (p : FabricParticipantPhase) (ps : List (ℕ × FabricParticipantReport)) (pe : ℕ)
    → is_some (lookup pe ps) ≡ true
    → all (λ report. report.phase == p) (values ps) ≡ true
    → phases_are p (values ps) ≡ true
unfolding lookup
phases-eq-true p [] pe there same = cc
phases-eq-true p ((k, v) ∷ ps) pe there same = same
