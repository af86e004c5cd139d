-- ===== src/Fabric/Frame.antt =====
-- How a report's checks end: with the report accepted and nothing written, with a rejection, or with
-- the plain error of a stopped generation.
use cross_pool.Prelude.{
  ℕ, ◌<◌, ◌≡◌, refl, ◌≢◌, ◌⊎◌, inl, inr, Bool, true, false, Option, none, some, arith, ◌==◌, nat_eq,
  option_eq, string_eq, length, any, ltb→lt, if◌then◌else◌, or_true, implies, is_some, not, ◌||◌,
  Eq, option_beq_iff,
}
use cross_pool.Prelude.Result.{ok, err, Result, Error, daemon, conflict, value_error}
use cross_pool.Prelude.Action.{pure, raise, ◌>>=◌, ◌>>◌}
use cross_pool.Identity.{generation_id_eq, generation_id_beq_iff}
use cross_pool.Fabric.Phase.{
  join_ready, stopped, aborting, generation_phase_eq, generation_is_iff, participant_phase_eq,
  participant_is_iff, participant_allows,
}
use cross_pool.Fabric.State.{
  FabricGenerationState, FabricParticipantReport, Diagnostic, is_empty, failure_eq,
}
use cross_pool.Fabric.Report.{
  Change, accept_if, reject_report, check_report, check_edge, validate_enrichment, check_phase,
  allowed_phases, phase_changed,
}

abbrev rejection : Diagnostic → Error
rejection d = if is_empty d then value_error else daemon conflict

pub reject_raises :
    (d : Diagnostic) (now : ℕ) (s : FabricGenerationState)
    → reject_report d now s ≡ (err (rejection d), (reject_report d now s).1)
unfolding reject_report
reject_raises d now s = ground arith

module _ {ℓ} (P : Result (Unit {0}) × FabricGenerationState → Type ℓ) (now : ℕ)
    (s : FabricGenerationState) where
  accept_ind :
      (b : Bool) (d : Diagnostic) (k : Unit {0} → Change)
      → (b ≡ true → P (k tt s))
      → P (reject_report d now s)
      → P ((accept_if b d now >>= k) s)
  accept_ind true d k yes' no' = yes' refl
  accept_ind false d k yes' no' = rw (reject_raises d now s) (rw (reject_raises d now s) at no')

  accept_two_ind :
      (b c : Bool) (d f : Diagnostic) (k : Unit {0} → Change)
      → (b ≡ true → c ≡ true → P (k tt s))
      → P (reject_report d now s)
      → P (reject_report f now s)
      → P (((accept_if b d now >> accept_if c f now) >>= k) s)
  accept_two_ind true c d f k yes' first second = accept_ind c f k (λ e. yes' refl e) second
  accept_two_ind false c d f k yes' first second =
      rw (reject_raises d now s) (rw (reject_raises d now s) at first)

  last_ind :
      (b : Bool) (d : Diagnostic)
      → (b ≡ true → P (ok tt, s))
      → P (reject_report d now s)
      → P (accept_if b d now s)
  last_ind true d yes' no' = yes' refl
  last_ind false d yes' no' = no'

-- A participant's report may repeat its phase or take one edge, and starts at `join_ready`.
abbrev pub Edge :
    Option FabricParticipantReport → FabricParticipantReport → FabricGenerationState → Type 0
Edge none report s = report.phase ≡ join_ready
Edge (some previous) report s =
    (report.phase ≡ previous.phase)
    ⊎ (participant_allows previous.phase report.phase (s.phase == aborting) ≡ true)

kept :
    {A : Type 0} ⦃e : Eq A⦄ (old new : Option A)
    → not (is_some old) || new == old ≡ true
    → is_some old ≡ true
    → new ≡ old
kept none new h there = cc
kept (some a) new h there = (option_beq_iff new (some a)).0 h

-- A report keeps the failures that the one before it has.
abbrev pub Enriches : Option FabricParticipantReport → FabricParticipantReport → Type 0
Enriches none report = Unit
Enriches (some previous) report =
    (is_some previous.invocation_failure ≡ true
      → report.invocation_failure ≡ previous.invocation_failure)
    × (is_some previous.control_failure ≡ true → report.control_failure ≡ previous.control_failure)

-- What the checks have established when they accept a report.
pub record IsAccepted (previous : Option FabricParticipantReport) (report : FabricParticipantReport)
    (s : FabricGenerationState) : Type 0 where
  pub same_generation : report.generation ≡ s.plan.generation
  pub known_pe : report.pe < length s.plan.pe_placements
  pub live : s.phase ≢ stopped
  pub edge : Edge previous report s
  pub enriched : Enriches previous report
  pub allowed :
      phase_changed previous report ≡ true
      → any (λ p. p == report.phase) (allowed_phases s.phase) ≡ true

module _ {ℓ} (P : Result (Unit {0}) × FabricGenerationState → Type ℓ) (now : ℕ)
    (s : FabricGenerationState) (report : FabricParticipantReport)
    (rejected : (d : Diagnostic) → is_empty d ≡ false → P (reject_report d now s)) where
  edge_ind :
      (previous : Option FabricParticipantReport) (k : Unit {0} → Change)
      → (Edge previous report s → P (k tt s))
      → P ((check_edge previous report now >>= k) s)
  unfolding check_edge
  edge_ind none k h =
      accept_ind P now s _ _ k (λ e. h ((participant_is_iff _ _).0 e)) (rejected _ refl)
  edge_ind (some p) k h =
      accept_ind P now s _ _ k
        (λ e. elim (or_true _ _ e) [
          | inl same ↦ h (inl ((participant_is_iff _ _).0 same))
          | inr next ↦ h (inr next)
        ])
        (rejected _ refl)

  enrichment_ind :
      (previous : Option FabricParticipantReport) (k : Unit {0} → Change)
      → (Enriches previous report → P (k tt s))
      → P ((validate_enrichment previous report now >>= k) s)
  unfolding validate_enrichment
  enrichment_ind none k h = h tt
  enrichment_ind (some p) k h =
      accept_two_ind P now s _ _ _ _ k
        (λ e f. h (
          kept p.invocation_failure report.invocation_failure e,
          kept p.control_failure report.control_failure f,
        ))
        (rejected _ refl) (rejected _ refl)

  phase_ind :
      (previous : Option FabricParticipantReport)
      → ((phase_changed previous report ≡ true
            → any (λ p. p == report.phase) (allowed_phases s.phase) ≡ true)
          → P (ok tt, s))
      → P (check_phase previous report now s)
  unfolding check_phase
  phase_ind previous h = last_ind P now s _ _ (λ e. h (implies _ _ e)) (rejected _ refl)

  live_ind :
      (b : Bool) (k : Unit {0} → Change)
      → (b ≡ false → P (k tt s))
      → (b ≡ true → P (err (daemon conflict), s))
      → P (((if b then raise (daemon conflict) else pure tt) >>= k) s)
  live_ind true k go stop = stop refl
  live_ind false k go stop = go refl

  pub check_ind :
      (previous : Option FabricParticipantReport)
      → (IsAccepted previous report s → P (ok tt, s))
      → (s.phase ≡ stopped → P (err (daemon conflict), s))
      → P (check_report previous report now s)
  unfolding check_report
  check_ind previous accepted terminal =
      accept_ind P now s _ _ _
        (λ same.
          accept_ind P now s _ _ _
            (λ known.
              live_ind (s.phase == stopped) _
                (λ live. edge_ind previous _ λ edge. enrichment_ind previous _ λ enriched.
                  (phase_ind previous λ allowed. accepted (record {
                    same_generation = (generation_id_beq_iff _ _).0 same;
                    known_pe = ltb→lt _ _ known;
                    live = λ e. cc ((generation_is_iff s.phase stopped).1 e, live);
                    edge = edge;
                    enriched = enriched;
                    allowed = allowed;
                  })))
                (λ e. terminal ((generation_is_iff s.phase stopped).0 e)))
            (rejected _ refl))
        (rejected _ refl)
