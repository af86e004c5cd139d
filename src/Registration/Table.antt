-- ===== src/Registration/Table.antt =====
-- `CommonRegistration` and `RegistrationTable` of src/xpool/service/daemon/registration.py. The three
-- kinds of registrations differ in their keys and in what they declare, which is compared as a whole.
-- `object` is the identity that `is` compares. A table holds the objects themselves: a method that
-- writes to one has checked before that it is the one that the table holds.
use cross_pool.Prelude.{
  ℕ, ◌-◌, ◌≡◌, refl, sym, ◌∙◌, ap, Bool, true, false, not, ◌||◌, Option, none, some, List, Eq, ◌==◌,
  nat_eq, option_eq, ltb, if◌then◌else◌, beq_refl, option_beq_iff,
}
use cross_pool.Prelude.Result.{Result, ok, err, daemon, conflict, not_ready}
use cross_pool.Prelude.Action.{Action}
use cross_pool.Prelude.Dict.{lookup, insert, delete, lookup-insert, lookup-delete}
use cross_pool.Identity.{ProcUniqId, proc_eq}

pub data ReadinessStatus : Type 0 where
  online stale offline : ReadinessStatus

pub record Registration (Key Contract : Type 0) : Type 0 where
  pub object : ℕ
  pub proc : ProcUniqId
  pub alive : Bool
  pub last_seen_at : ℕ
  pub abi_version : ℕ
  pub key : Key
  pub contract : Contract

abbrev pub Table : Type 0 → Type 0 → Type 0
Table Key Contract = List (Key × Registration Key Contract)

-- Seconds.
abbrev pub heartbeat_warning_watermark : ℕ
heartbeat_warning_watermark = 15

module _ {Key Contract : Type 0} ⦃k : Eq Key⦄ ⦃c : Eq Contract⦄ where
  unfoldable pub readiness_status : ℕ → Registration Key Contract → ReadinessStatus
  readiness_status now r =
      if not r.alive
      then offline
      else if ltb heartbeat_warning_watermark (now - r.last_seen_at)
      then stale
      else online

  unfoldable pub require_online : ℕ → Registration Key Contract → Result (Unit {0})
  unfolding readiness_status
  require_online now r = elim (readiness_status now r) [
    | online ↦ ok tt
    | offline ↦ err (daemon not_ready)
    | stale ↦ err (daemon not_ready)
  ]

  -- `alive` is what a probe of the process returns.
  unfoldable pub validate_process_ref :
      (pid abi_version : ℕ) (is_alive : Bool) → Registration Key Contract → Result (Unit {0})
  validate_process_ref pid abi_version is_alive r =
      if not (abi_version == r.abi_version)
      then err (daemon conflict)
      else if not (pid == r.proc.pid)
      then err (daemon conflict)
      else if is_alive
      then ok tt
      else err (daemon conflict)

  unfoldable pub conflicts_with : Registration Key Contract → Registration Key Contract → Bool
  conflicts_with r candidate =
      not (r.proc == candidate.proc)
      || not (r.key == candidate.key)
      || not (r.abi_version == candidate.abi_version)
      || not (r.contract == candidate.contract)

  unfoldable pub query : Key → Table Key Contract → Option (Registration Key Contract)
  query key t = lookup key t

  abbrev pub identity : Option (Registration Key Contract) → Option ℕ
  identity none = none
  identity (some r) = some r.object

  -- What `install_snapshot` does once the table has shown to hold the object that was probed.
  abbrev install_over :
      Option (Registration Key Contract)
      → Registration Key Contract
      → Bool
      → Action (Table Key Contract) Bool
  install_over none r existing_alive t = (ok true, insert r.key r t)
  install_over (some existing) r false t = (ok (not (existing.proc == r.proc)), insert r.key r t)
  install_over (some existing) r true t =
      if conflicts_with existing r
      then (err (daemon conflict), t)
      else (ok false, insert r.key (record existing { last_seen_at = r.last_seen_at }) t)

  unfoldable pub install_snapshot :
      Registration Key Contract → Option ℕ → Bool → Action (Table Key Contract) Bool
  unfolding conflicts_with
  install_snapshot r existing existing_alive t =
      if identity (lookup r.key t) == existing
      then install_over (lookup r.key t) r existing_alive t
      else (err (daemon not_ready), t)

  abbrev touch :
      Option (Registration Key Contract) → Key → ℕ → Table Key Contract → Table Key Contract
  touch none key now t = t
  touch (some r) key now t = insert key (record r { last_seen_at = now }) t

  unfoldable pub commit_heartbeat : Key → ℕ → ℕ → Action (Table Key Contract) (Unit {0})
  commit_heartbeat key object now t =
      if identity (lookup key t) == some object
      then (ok tt, touch (lookup key t) key now t)
      else (err (daemon not_ready), t)

  unfoldable pub remove_snapshot : Key → ℕ → Action (Table Key Contract) (Unit {0})
  remove_snapshot key object t =
      if identity (lookup key t) == some object
      then (ok tt, delete key t)
      else (err (daemon not_ready), t)

  install_over-kept :
      (r e : Registration Key Contract) (t : Table Key Contract)
      → lookup r.key t ≡ some e
      → identity (lookup r.key (install_over (some e) r true t).1) ≡ some e.object
  install_over-kept r e t h = by_conflict (conflicts_with e r)
    where
      by_conflict :
          (b : Bool)
          → identity (
              lookup r.key
                (if◌then◌else◌ {A = Result Bool × Table Key Contract} b
                  (err (daemon conflict), t)
                  (ok false, insert r.key (record e { last_seen_at = r.last_seen_at }) t)).1)
            ≡ some e.object
      by_conflict true = ap identity h
      by_conflict false = rw (lookup-insert, beq_refl r.key) refl

  -- While the process that registered a key is found alive, the key stays with its registration,
  -- whatever candidate comes with whatever snapshot.
  pub install_snapshot-kept :
      (r e : Registration Key Contract) (existing : Option ℕ) (t : Table Key Contract)
      → lookup r.key t ≡ some e
      → identity (lookup r.key (install_snapshot r existing true t).1) ≡ some e.object
  unfolding install_snapshot
  install_snapshot-kept r e existing t h = by_identity (identity (lookup r.key t) == existing)
    where
      by_identity :
          (b : Bool)
          → identity (
              lookup r.key
                (if b
                  then install_over (lookup r.key t) r true t
                  else (err (daemon not_ready), t)).1)
            ≡ some e.object
      by_identity true = rw h (install_over-kept r e t h)
      by_identity false = ap identity h

  -- A removal that succeeds was made for the object that the table held under the key, and leaves the
  -- key without a registration.
  pub remove_snapshot-eq-ok :
      (key : Key) (object : ℕ) (t u : Table Key Contract)
      → remove_snapshot key object t ≡ (ok tt, u)
      → (identity (lookup key t) ≡ some object) × (lookup key u ≡ none)
  unfolding remove_snapshot
  remove_snapshot-eq-ok key object t u e =
      by_identity (identity (lookup key t) == some object) refl e
    where
      by_identity :
          (b : Bool)
          → (identity (lookup key t) == some object) ≡ b
          → ◌≡◌ {A = Result (Unit {0}) × Table Key Contract}
              (if b then (ok tt, delete key t) else (err (daemon not_ready), t))
              (ok tt, u)
          → (identity (lookup key t) ≡ some object) × (lookup key u ≡ none)
      by_identity true same h = (
        (option_beq_iff (identity (lookup key t)) (some object)).0 same,
        ap (λ (x : Result (Unit {0}) × Table Key Contract). lookup key x.1) (sym h)
            ∙ rw (lookup-delete, beq_refl key) refl,
      )
      by_identity false same h = cc
