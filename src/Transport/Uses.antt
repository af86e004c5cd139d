-- ===== src/Transport/Uses.antt =====
-- Histories of a transport broker: what its owner, the control plane, may do with it in any order.
use cross_pool.Prelude.{
  ℕ, ◌≡◌, refl, sym, ◌∙◌, ◌⊎◌, inl, inr, Bool, true, false, Option, none, some, List, [], ◌∷◌,
  arith, ◌==◌, nat_eq, string_eq, Bool-cases, if◌then◌else◌, beq_refl, ap,
}
use cross_pool.Prelude.Result.{Result, ok, err, daemon, not_ready, conflict}
use cross_pool.Prelude.Action.{and_then, pure, raise}
use cross_pool.Prelude.Dict.{lookup, insert, lookup-insert, lookup-delete}
use cross_pool.Identity.{ProcUniqId, InstanceRankId, rank_eq, rank_beq_iff, proc_eq}
use cross_pool.Transport.Broker.{
  TransportBroker, TransportArenaLease, TransportArenaPublication, AtnAgentTransportState,
  install_atnagent, publish, quiesce, acquire, remove_instance, require_owner, publication,
  lease_beq_iff, lease_beq, is_quiescing, put_state, owned_by, acquire_from,
}

pub data Use : Type 0 where
  installs : ℕ → ProcUniqId → Use
  publishes : ℕ → ProcUniqId → List TransportArenaPublication → Use
  quiesces : ℕ → ProcUniqId → Use
  acquires : InstanceRankId → TransportArenaLease → Use
  removes : InstanceRankId → Use

unfoldable pub use_broker : Use → TransportBroker → TransportBroker
unfolding install_atnagent publish quiesce acquire remove_instance
use_broker (installs device owner) b = (install_atnagent device owner b).1
use_broker (publishes device owner ps) b = (publish device owner ps b).1
use_broker (quiesces device owner) b = (quiesce device owner b).1
use_broker (acquires instance_rank lease) b = (acquire instance_rank lease b).1
use_broker (removes instance_rank) b = (remove_instance instance_rank b).1

install-leases :
    (device : ℕ) (owner : ProcUniqId) (b : TransportBroker)
    → (install_atnagent device owner b).1.leases ≡ b.leases
unfolding install_atnagent
install-leases device owner b = ground arith

publish-leases :
    (device : ℕ) (owner : ProcUniqId) (ps : List TransportArenaPublication) (b : TransportBroker)
    → (publish device owner ps b).1.leases ≡ b.leases
unfolding publish require_owner
publish-leases device owner [] b = refl
publish-leases device owner (p ∷ ps) b = ground arith

quiesce-leases :
    (device : ℕ) (owner : ProcUniqId) (b : TransportBroker)
    → (quiesce device owner b).1.leases ≡ b.leases
unfolding quiesce require_owner
quiesce-leases device owner b = ground arith

acquire-kept :
    (i j : InstanceRankId) (lease held : TransportArenaLease) (b : TransportBroker)
    → lookup i b.leases ≡ some held
    → lookup i (acquire j lease b).1.leases ≡ some held
unfolding acquire
acquire-kept i j lease held b h = ground (arith, rank_beq_iff j i, lookup-insert j i lease b.leases)

-- A lease that an Instance rank holds stays until the rank is removed, whatever the agents publish,
-- whether they quiesce or are replaced, and whatever leases are asked for.
pub use_broker-kept :
    (u : Use) (b : TransportBroker) (i : InstanceRankId) (held : TransportArenaLease)
    → lookup i b.leases ≡ some held
    → (lookup i (use_broker u b).leases ≡ some held) ⊎ (u ≡ removes i)
unfolding use_broker
use_broker-kept (installs device owner) b i held h =
    inl (ap (lookup i) (install-leases device owner b) ∙ h)
use_broker-kept (publishes device owner ps) b i held h =
    inl (ap (lookup i) (publish-leases device owner ps b) ∙ h)
use_broker-kept (quiesces device owner) b i held h =
    inl (ap (lookup i) (quiesce-leases device owner b) ∙ h)
use_broker-kept (acquires j lease) b i held h = inl (acquire-kept i j lease held b h)
use_broker-kept (removes j) b i held h = elim (Bool-cases (j == i)) [
  | inl same ↦ inr (ap removes ((rank_beq_iff j i).0 same))
  | inr other ↦ inl (rw (lookup-delete, other) h)
]

-- An acquisition that succeeds was made while the rank held no lease or the same one, and leaves it
-- with the lease.
pub acquire-eq-ok :
    (i : InstanceRankId) (lease : TransportArenaLease) (b c : TransportBroker)
    → acquire i lease b ≡ (ok (tt {0}), c)
    → ((lookup i b.leases ≡ none) ⊎ (lookup i b.leases ≡ some lease))
      × (lookup i c.leases ≡ some lease)
unfolding acquire
acquire-eq-ok i lease b c e = by_lease (lookup i b.leases) refl e
  where
    taken : lookup i (insert i lease b.leases) ≡ some lease
    taken = rw (lookup-insert, beq_refl i)

    same_lease :
        (existing : TransportArenaLease) (same : Bool)
        → lease_beq existing lease ≡ same
        → lookup i b.leases ≡ some existing
        → (if same then pure tt else raise (daemon conflict)) b ≡ (ok (tt {0}), c)
        → ((lookup i b.leases ≡ none) ⊎ (lookup i b.leases ≡ some lease))
          × (lookup i c.leases ≡ some lease)
    same_lease existing true same h r =
        let is = h ∙ ap some ((lease_beq_iff existing lease).0 same) in
        (inr is, ap (λ (x : Result (Unit {0}) × TransportBroker). lookup i x.1.leases) (sym r) ∙ is)
    same_lease existing false same h r = cc

    by_lease :
        (o : Option TransportArenaLease)
        → lookup i b.leases ≡ o
        → acquire_from o i lease b ≡ (ok (tt {0}), c)
        → ((lookup i b.leases ≡ none) ⊎ (lookup i b.leases ≡ some lease))
          × (lookup i c.leases ≡ some lease)
    by_lease none h r = (
      inl h,
      ap (λ (x : Result (Unit {0}) × TransportBroker). lookup i x.1.leases) (sym r) ∙ taken,
    )
    by_lease (some existing) h r = same_lease existing (lease_beq existing lease) refl h r

-- The state of a device that its owner has quiesced.
quiesced-state :
    (device : ℕ) (owner : ProcUniqId) (b c : TransportBroker)
    → quiesce device owner b ≡ (ok (tt {0}), c)
    → (state : AtnAgentTransportState) × (lookup device c.atnagents ≡ some state)
      × ((state.owner == owner) ≡ true)
      × (state.accepting_leases ≡ false)
unfolding quiesce require_owner
quiesced-state device owner b c e = by_state (lookup device b.atnagents) e
  where
    with_owner :
        (state : AtnAgentTransportState) (mine : Bool)
        → (state.owner == owner) ≡ mine
        → and_then
            (if mine then ok state else err (daemon not_ready))
            (λ s. put_state device (record s { accepting_leases = false }))
            b
          ≡ (ok (tt {0}), c)
        → (s : AtnAgentTransportState) × (lookup device c.atnagents ≡ some s)
          × ((s.owner == owner) ≡ true)
          × (s.accepting_leases ≡ false)
    with_owner state true mine r = (
      record state { accepting_leases = false },
      ap (λ (x : Result (Unit {0}) × TransportBroker). lookup device x.1.atnagents) (sym r)
          ∙ rw (lookup-insert, beq_refl device),
      mine,
      refl,
    )
    with_owner state false mine r = cc

    by_state :
        (o : Option AtnAgentTransportState)
        → and_then
            (owned_by owner o)
            (λ s. put_state device (record s { accepting_leases = false }))
            b
          ≡ (ok (tt {0}), c)
        → (s : AtnAgentTransportState) × (lookup device c.atnagents ≡ some s)
          × ((s.owner == owner) ≡ true)
          × (s.accepting_leases ≡ false)
    by_state none r = cc
    by_state (some state) r = with_owner state (state.owner == owner) refl r

-- Once the owner of a device has quiesced it, the broker says so, takes no publications of the owner,
-- and hands none of its publications out.
pub quiesce-closes :
    (device : ℕ) (owner : ProcUniqId) (b c : TransportBroker) (p : TransportArenaPublication)
    (ps : List TransportArenaPublication) (i : InstanceRankId)
    → quiesce device owner b ≡ (ok (tt {0}), c)
    → (is_quiescing device c ≡ true)
      × (publish device owner (p ∷ ps) c ≡ (err (daemon not_ready), c))
      × (publication device i owner c ≡ (err (daemon not_ready), c))
unfolding require_owner publish publication is_quiescing
quiesce-closes device owner b c p ps i e =
    let (state, found, mine, closed) = quiesced-state device owner b c e in
    (
      rw (is_quiescing, found, closed) refl,
      rw (publish, require_owner, found, mine, closed) refl,
      rw (publication, require_owner, found, mine, closed) refl,
    )
