-- ===== src/Transport/Broker.antt =====
-- `TransportBroker` of src/xpool/service/daemon/transport.py, with the two values that it stores:
-- `TransportArenaHandle` of src/xpool/transport.py and `InstanceRankTransportProfile` of
-- src/xpool/runtime/transport.py.
use cross_pool.Prelude.{
  ℕ, ◌≡◌, ◌↔◌, Bool, true, false, not, ◌&&◌, ◌||◌, String, Option, none, some, List, [], ◌∷◌, arith,
  ◌==◌, nat_eq, string_eq, if◌then◌else◌,
}
use cross_pool.Prelude.Result.{Result, ok, err, daemon, conflict, not_ready}
use cross_pool.Prelude.Action.{Action, pure, raise, reads, modify, require, ◌>>=◌, ◌>>◌}
use cross_pool.Prelude.Dict.{lookup, insert, delete}
use cross_pool.Identity.{ProcUniqId, InstanceRankId, rank_eq, proc_eq}

pub record TransportProfile : Type 0 where
  pub hidden_size : ℕ
  pub payload_row_capacity : ℕ
  pub atn_tp_rank : ℕ
  pub atn_tp_size : ℕ
  pub atn_dp_rank : ℕ
  pub atn_dp_size : ℕ

pub record TransportArenaLease : Type 0 where
  pub device : ℕ
  pub handle : String
  pub publisher : ProcUniqId

pub record TransportArenaPublication : Type 0 where
  pub instance_rank : InstanceRankId
  pub handle : String
  pub transport : TransportProfile

pub record AtnAgentTransportState : Type 0 where
  pub owner : ProcUniqId
  pub publications : List (InstanceRankId × TransportArenaPublication)
  pub accepting_leases : Bool

pub record TransportBroker : Type 0 where
  pub atnagents : List (ℕ × AtnAgentTransportState)
  pub leases : List (InstanceRankId × TransportArenaLease)

abbrev pub Method : Type 0 → Type 0
Method A = Action TransportBroker A

abbrev pub new_broker : TransportBroker
new_broker = record { atnagents = []; leases = [] }

abbrev profile_beq : TransportProfile → TransportProfile → Bool
profile_beq a b =
    a.hidden_size == b.hidden_size
    && a.payload_row_capacity == b.payload_row_capacity
    && a.atn_tp_rank == b.atn_tp_rank
    && a.atn_tp_size == b.atn_tp_size
    && a.atn_dp_rank == b.atn_dp_rank
    && a.atn_dp_size == b.atn_dp_size

abbrev publication_beq : TransportArenaPublication → TransportArenaPublication → Bool
publication_beq a b =
    a.instance_rank == b.instance_rank
    && a.handle == b.handle
    && profile_beq a.transport b.transport

abbrev pub lease_beq : TransportArenaLease → TransportArenaLease → Bool
lease_beq a b = a.device == b.device && a.handle == b.handle && a.publisher == b.publisher

pub lease_beq_iff : (a b : TransportArenaLease) → (lease_beq a b ≡ true) ↔ (a ≡ b)
lease_beq_iff a b =
    ground (arith, string_eq.beq_iff a.handle b.handle, proc_eq.beq_iff a.publisher b.publisher)

-- The state of a device, if it belongs to `owner`.
abbrev pub owned_by : ProcUniqId → Option AtnAgentTransportState → Result AtnAgentTransportState
owned_by owner none = err (daemon not_ready)
owned_by owner (some state) = if state.owner == owner then ok state else err (daemon not_ready)

unfoldable pub require_owner : ℕ → ProcUniqId → Method AtnAgentTransportState
require_owner device owner = reads (λ b. owned_by owner (lookup device b.atnagents))

abbrev pub put_state : ℕ → AtnAgentTransportState → Method (Unit {0})
put_state device state = modify (λ b. record b { atnagents = insert device state b.atnagents })

abbrev new_state : ProcUniqId → AtnAgentTransportState
new_state owner = record { owner = owner; publications = []; accepting_leases = true }

abbrev belongs : ProcUniqId → Option AtnAgentTransportState → Bool
belongs owner none = false
belongs owner (some state) = state.owner == owner

unfoldable pub install_atnagent : ℕ → ProcUniqId → Method (Unit {0})
install_atnagent device owner b =
    if belongs owner (lookup device b.atnagents)
    then pure tt b
    else put_state device (new_state owner) b

abbrev clashes : Option InstanceRankId → InstanceRankId → Bool
clashes none instance_rank = false
clashes (some holder) instance_rank = not (holder == instance_rank)

abbrev replaces : Option TransportArenaPublication → TransportArenaPublication → Bool
replaces none publication = false
replaces (some existing) publication = not (publication_beq existing publication)

-- `by_handle`: the last publication with a handle wins.
abbrev handles :
    List (InstanceRankId × TransportArenaPublication)
    → List (String × InstanceRankId)
    → List (String × InstanceRankId)
handles [] found = found
handles ((instance_rank, publication) ∷ rest) found =
    handles rest (insert publication.handle instance_rank found)

-- The checks of `publish`, which compare with what was published before.
unfoldable pub check_publications :
    List (InstanceRankId × TransportArenaPublication)
    → List (String × InstanceRankId)
    → List TransportArenaPublication
    → Result (Unit {0})
check_publications held by_handle [] = ok tt
check_publications held by_handle (p ∷ ps) =
    let rest = check_publications held by_handle ps in
    if replaces (lookup p.instance_rank held) p
      || clashes (lookup p.handle by_handle) p.instance_rank
    then err (daemon conflict)
    else rest

abbrev pub add_publications :
    List TransportArenaPublication
    → List (InstanceRankId × TransportArenaPublication)
    → List (InstanceRankId × TransportArenaPublication)
add_publications [] held = held
add_publications (p ∷ ps) held = add_publications ps (insert p.instance_rank p held)

abbrev publish_to : ℕ → ProcUniqId → List TransportArenaPublication → Method (Unit {0})
publish_to device owner publications = do
  state ← require_owner device owner
  require state.accepting_leases (daemon not_ready)
  reads (λ _. check_publications state.publications (handles state.publications []) publications)
  put_state device
      (record state { publications = add_publications publications state.publications })

unfoldable pub publish : ℕ → ProcUniqId → List TransportArenaPublication → Method (Unit {0})
unfolding require_owner check_publications
publish device owner [] = raise (daemon conflict)
publish device owner (p ∷ ps) = publish_to device owner (p ∷ ps)

unfoldable pub quiesce : ℕ → ProcUniqId → Method (Unit {0})
unfolding require_owner
quiesce device owner = do
  state ← require_owner device owner
  put_state device (record state { accepting_leases = false })

abbrev published : Option TransportArenaPublication → Result TransportArenaPublication
published none = err (daemon not_ready)
published (some p) = ok p

unfoldable pub publication : ℕ → InstanceRankId → ProcUniqId → Method TransportArenaPublication
unfolding require_owner
publication device instance_rank owner = do
  state ← require_owner device owner
  require state.accepting_leases (daemon not_ready)
  reads (λ _. published (lookup instance_rank state.publications))

abbrev pub acquire_from :
    Option TransportArenaLease → InstanceRankId → TransportArenaLease → Method (Unit {0})
acquire_from none instance_rank lease =
    modify (λ b. record b { leases = insert instance_rank lease b.leases })
acquire_from (some existing) instance_rank lease =
    if lease_beq existing lease then pure tt else raise (daemon conflict)

unfoldable pub acquire : InstanceRankId → TransportArenaLease → Method (Unit {0})
acquire instance_rank lease b = acquire_from (lookup instance_rank b.leases) instance_rank lease b

unfoldable pub remove_instance : InstanceRankId → Method (Option TransportArenaLease)
remove_instance instance_rank b =
    (ok (lookup instance_rank b.leases), record b { leases = delete instance_rank b.leases })

abbrev matches : ℕ → Option ProcUniqId → TransportArenaLease → Bool
matches device none lease = lease.device == device
matches device (some publisher) lease = lease.device == device && lease.publisher == publisher

abbrev leasing :
    ℕ → Option ProcUniqId → List (InstanceRankId × TransportArenaLease) → List InstanceRankId
leasing device publisher [] = []
leasing device publisher ((instance_rank, lease) ∷ rest) =
    let others = leasing device publisher rest in
    if matches device publisher lease then instance_rank ∷ others else others

unfoldable pub leased_instances : ℕ → Option ProcUniqId → TransportBroker → List InstanceRankId
leased_instances device publisher b = leasing device publisher b.leases

unfoldable pub is_quiescing : ℕ → TransportBroker → Bool
is_quiescing device b = elim (lookup device b.atnagents) [
  | none ↦ false
  | some state ↦ not state.accepting_leases
]

unfoldable pub published_for :
    ℕ → InstanceRankId → TransportBroker → Option TransportArenaPublication
published_for device instance_rank b = elim (lookup device b.atnagents) [
  | none ↦ none
  | some state ↦ lookup instance_rank state.publications
]
