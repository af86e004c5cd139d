-- ===== src/Rank/Adoption.antt =====
-- What a rank has adopted, through any sequence of commands, schedulings and uses of its storage.
use cross_pool.Prelude.{
  ℕ, suc, ◌≤◌, ◌<◌, ◌≡◌, ◌∙◌, refl, inl, inr, Bool, true, false, not, ◌&&◌, Option, none, some,
  List, [], ◌∷◌, get_elem?, arith, leb, ltb, Bool-cases, and_true, leb→le, ltb→lt, ap, sym, All,
  ◌==◌, nat_eq,
}
use cross_pool.Prelude.Result.{Result, ok, err, runtime_error, value_error}
use cross_pool.Prelude.Action.{modify, require, ◌>>◌}
use cross_pool.Quota.Profile.{uint64_max}
use cross_pool.Quota.Ledger.{MemoryQuota, IsWithin, set_limit, try_reserve, release}
use cross_pool.Capacity.State.{QuotaCommand, QuotaCompletion}
use cross_pool.Rank.Reconciler.{
  CapacityReconciler, draining, same_bytes, accept_beside, accept_command, Surroundings, ballot,
  adopt, adopt_voted, adopt_target, adopt_command, begin_adoption,
}

-- An event of a rank. Its storage reserves and releases bytes of the ledger, and `finish_retirement` and
-- `reclaim` end and start a retirement.
pub data Event : Type 0 where
  reads : Option QuotaCommand → Event
  schedules : Surroundings → Event
  reserves releases : ℕ → Event
  retires : (pending : Bool) → Event

unfoldable pub event : Event → CapacityReconciler → CapacityReconciler
unfolding accept_command begin_adoption try_reserve release
event (reads c) r = (accept_command c r).1
event (schedules w) r = (begin_adoption w r).1
event (reserves bytes) r = record r { quota = (try_reserve bytes r.quota).1 }
event (releases bytes) r = record r { quota = (release bytes r.quota).1 }
event (retires pending) r = record r { pending_retirement = pending }

unfoldable pub events : List Event → CapacityReconciler → CapacityReconciler
unfolding event
events [] r = r
events (e ∷ es) r = events es (event e r)

-- The sequences of the completions decrease, the newest first, from below a bound.
abbrev pub IsDescending : ℕ → List QuotaCompletion → Type 0
IsDescending bound [] = Unit
IsDescending bound (c ∷ cs) = (c.sequence < bound) × IsDescending c.sequence cs

IsDescending-mono :
    (low high : ℕ) (cs : List QuotaCompletion)
    → low ≤ high
    → IsDescending low cs
    → IsDescending high cs
IsDescending-mono low high [] le h = tt
IsDescending-mono low high (c ∷ cs) le h = (omega (arith, h.0), h.1)

-- The completions are in order up to the sequence completed last, the ledger has the quota that the
-- rank then adopted, and its charges are within it.
pub record IsAdopted (rank : ℕ) (r : CapacityReconciler) : Type 0 where
  pub order : IsDescending (suc r.completed_sequence) r.completions
  pub granted :
      0 < r.completed_sequence → get_elem? r.active_quota_bytes rank ≡ some r.quota.limit_bytes
  pub within : IsWithin r.quota

-- The events of one rank. A vote is the minimum of the ballots, so it is no more than the rank's own.
abbrev pub IsOf : ℕ → Event → Type 0
IsOf rank (reads c) = Unit
IsOf rank (schedules w) = (w.tp_rank ≡ rank) × ((b : Bool) → w.vote b ≡ true → b ≡ true)
IsOf rank _ = Unit

-- A quota that is at least the charge and fits 64 bits is set.
set_limit-fits :
    (n : ℕ) (q : MemoryQuota)
    → q.charged_bytes ≤ n
    → n ≤ uint64_max
    → set_limit n q ≡ (ok tt, record q { limit_bytes = n })
unfolding set_limit
set_limit-fits n q le small = ground arith

set_limit-large : (n : ℕ) (q : MemoryQuota) → uint64_max < n → set_limit n q ≡ (err value_error, q)
unfolding set_limit
set_limit-large n q big = ground arith

try_reserve-IsWithin : (n : ℕ) (q : MemoryQuota) → IsWithin q → IsWithin (try_reserve n q).1
unfolding try_reserve
try_reserve-IsWithin n q h = ground arith

release-IsWithin : (n : ℕ) (q : MemoryQuota) → IsWithin q → IsWithin (release n q).1
unfolding release
release-IsWithin n q h = ground arith

try_reserve-limit : (n : ℕ) (q : MemoryQuota) → (try_reserve n q).1.limit_bytes ≡ q.limit_bytes
unfolding try_reserve
try_reserve-limit n q = ground arith

release-limit : (n : ℕ) (q : MemoryQuota) → (release n q).1.limit_bytes ≡ q.limit_bytes
unfolding release
release-limit n q = ground arith

module _ (rank : ℕ) where
  accept_command-IsAdopted :
      (c : Option QuotaCommand) (r : CapacityReconciler)
      → IsAdopted rank r
      → IsAdopted rank (accept_command c r).1
  unfolding accept_command
  accept_command-IsAdopted none r h = h
  accept_command-IsAdopted (some new) r h =
      elim (Bool-cases (leb new.sequence r.completed_sequence)) [
        | inl old ↦ rw old h
        | inr fresh ↦ rw fresh (beside r.command)
      ]
    where
      changed : IsAdopted rank (record r { command = some new })
      changed = record { order = h.order; granted = h.granted; within = h.within }

      beside : (held : Option QuotaCommand) → IsAdopted rank (accept_beside held new r).1
      beside none = changed
      beside (some held) = elim (Bool-cases (ltb new.sequence held.sequence)) [
        | inl stale ↦ rw stale h
        | inr later ↦ elim (Bool-cases (new.sequence == held.sequence)) [
          | inl same ↦ rw (later, same) (checked (same_bytes new.quota_bytes held.quota_bytes))
          | inr newer ↦ rw (later, newer) (replaced (not (ltb r.completed_sequence held.sequence)))
        ]
      ]
        where
          checked : (b : Bool) → IsAdopted rank (require b runtime_error r).1
          checked true = h
          checked false = h

          replaced :
              (b : Bool)
              → IsAdopted rank
                  ((require b runtime_error >> modify (λ r. record r { command = some new })) r).1
          replaced true = changed
          replaced false = h

  adopt-IsAdopted :
      (c : QuotaCommand) (target : ℕ) (r : CapacityReconciler)
      → get_elem? c.quota_bytes rank ≡ some target
      → r.completed_sequence < c.sequence
      → r.quota.charged_bytes ≤ target
      → IsAdopted rank r
      → IsAdopted rank (adopt c target r).1
  adopt-IsAdopted c target r at_rank next le h = elim (Bool-cases (leb target uint64_max)) [
    | inr big ↦
        rw (set_limit-large target r.quota (ground arith))
          (record { order = h.order; granted = h.granted; within = h.within })
    | inl small ↦ rw (set_limit-fits target r.quota le (leb→le target uint64_max small)) (record {
      order = (omega arith, IsDescending-mono _ c.sequence r.completions next h.order);
      granted = λ _. at_rank;
      within = (le, leb→le target uint64_max small);
    })
  ]

  begin_adoption-IsAdopted :
      (w : Surroundings) (r : CapacityReconciler)
      → IsOf rank (schedules w)
      → IsAdopted rank r
      → IsAdopted rank (begin_adoption w r).1
  unfolding begin_adoption
  begin_adoption-IsAdopted w r (of_rank, agreed) h = cases r.command
    where
      target_cases :
          (c : QuotaCommand) (o : Option ℕ)
          → get_elem? c.quota_bytes w.tp_rank ≡ o
          → r.completed_sequence < c.sequence
          → IsAdopted rank (adopt_target w c o r).1
      target_cases c none e next = h
      target_cases c (some target) e next = voted (draining r)
        where
          voted : (d : Result Bool) → IsAdopted rank (adopt_voted w c target d r).1
          voted (err x) = h
          voted (ok d) = elim (Bool-cases (w.vote (ballot w r target d))) [
            | inr no_ ↦ rw no_ h
            | inl yes_ ↦
                let (_, fits) =
                  and_true (not (d && w.has_chunk_owner) && not r.pending_retirement)
                    (leb r.quota.charged_bytes target) (agreed (ballot w r target d) yes_) in
                rw yes_ (
                  adopt-IsAdopted c target r (rw (← of_rank) e) next
                    (leb→le r.quota.charged_bytes target fits) h)
          ]

      cases : (o : Option QuotaCommand) → IsAdopted rank (adopt_command w o r).1
      cases none = h
      cases (some c) = elim (Bool-cases (ltb r.completed_sequence c.sequence)) [
        | inl next ↦ rw next (
            target_cases c (get_elem? c.quota_bytes w.tp_rank) refl
              (ltb→lt r.completed_sequence c.sequence next))
        | inr done ↦ rw done h
      ]

  quota-IsAdopted :
      (q : MemoryQuota) (r : CapacityReconciler)
      → q.limit_bytes ≡ r.quota.limit_bytes
      → IsWithin q
      → IsAdopted rank r
      → IsAdopted rank (record r { quota = q })
  quota-IsAdopted q r same fits h = record {
    order = h.order;
    granted = λ positive. h.granted positive ∙ ap some (sym same);
    within = fits;
  }

  event-IsAdopted :
      (e : Event) (r : CapacityReconciler)
      → IsOf rank e
      → IsAdopted rank r
      → IsAdopted rank (event e r)
  unfolding event
  event-IsAdopted (reads c) r of_rank h = accept_command-IsAdopted c r h
  event-IsAdopted (schedules w) r of_rank h = begin_adoption-IsAdopted w r of_rank h
  event-IsAdopted (reserves n) r of_rank h =
      quota-IsAdopted (try_reserve n r.quota).1 r (try_reserve-limit n r.quota)
        (try_reserve-IsWithin n r.quota h.within) h
  event-IsAdopted (releases n) r of_rank h =
      quota-IsAdopted (release n r.quota).1 r (release-limit n r.quota)
        (release-IsWithin n r.quota h.within) h
  event-IsAdopted (retires pending) r of_rank h = record {
    order = h.order;
    granted = h.granted;
    within = h.within;
  }

  -- A rank whose completions have increasing sequences up to the one completed last, whose limit is the
  -- quota that it adopted, and that has charged no more, stays so, whatever commands it reads, whenever
  -- it is scheduled, and whatever its storage reserves, releases and retires, where each vote is no
  -- more than its own ballot.
  pub events-IsAdopted :
      (es : List Event) (r : CapacityReconciler)
      → All (IsOf rank) es
      → IsAdopted rank r
      → IsAdopted rank (events es r)
  unfolding events
  events-IsAdopted [] r of_rank h = h
  events-IsAdopted (e ∷ es) r (first, rest) h =
      events-IsAdopted es (event e r) rest (event-IsAdopted e r first h)
