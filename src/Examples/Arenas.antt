-- ===== src/Examples/Arenas.antt =====
-- Runs of the transport broker and of the registrations.
use cross_pool.Prelude.{ℕ, ◌≡◌, ◌⊎◌, refl, true, false, none, some, [], ◌∷◌, nat_eq}
use cross_pool.Prelude.Result.{ok, err, daemon, not_ready}
use cross_pool.Prelude.Dict.{lookup, insert, delete}
use cross_pool.Identity.{rank_eq}
use cross_pool.Transport.Broker.{
  TransportBroker, TransportArenaLease, TransportArenaPublication, acquire, quiesce, publish,
  publication, is_quiescing, require_owner,
}
use cross_pool.Transport.Uses.{
  quiesces, removes, use_broker, use_broker-kept, acquire-eq-ok, quiesce-closes,
}
use cross_pool.Registration.Table.{
  Registration, Table, identity, install_snapshot, install_snapshot-kept, remove_snapshot,
  remove_snapshot-eq-ok,
}
use cross_pool.Examples.Samples.{owner, instance_rank}

abbrev lease : TransportArenaLease
lease = record { device = 0; handle = "ab"; publisher = owner }

abbrev arena : TransportArenaPublication
arena = record {
  instance_rank = instance_rank;
  handle = "ab";
  transport = record {
    hidden_size = 8;
    payload_row_capacity = 4;
    atn_tp_rank = 0;
    atn_tp_size = 1;
    atn_dp_rank = 0;
    atn_dp_size = 1;
  };
}

abbrev served : TransportBroker
served = record {
  atnagents =
      (
        0,
        record {
          owner = owner;
          publications = (instance_rank, arena) ∷ [];
          accepting_leases = true;
        },
      )
      ∷ [];
  leases = (instance_rank, lease) ∷ [];
}

abbrev closed : TransportBroker
closed = record served {
  atnagents =
      (
        0,
        record {
          owner = owner;
          publications = (instance_rank, arena) ∷ [];
          accepting_leases = false;
        },
      )
      ∷ [];
}

held : lookup instance_rank served.leases ≡ some lease
unfolding lookup
held = refl

use_broker-kept_example :
    (lookup instance_rank (use_broker (quiesces 0 owner) served).leases ≡ some lease)
    ⊎ (quiesces 0 owner ≡ removes instance_rank)
use_broker-kept_example = use_broker-kept (quiesces 0 owner) served instance_rank lease held

again : acquire instance_rank lease served ≡ (ok tt, served)
unfolding acquire lookup
again = refl

acquire-eq-ok_example :
    ((lookup instance_rank served.leases ≡ none)
      ⊎ (lookup instance_rank served.leases ≡ some lease))
    × (lookup instance_rank served.leases ≡ some lease)
acquire-eq-ok_example = acquire-eq-ok instance_rank lease served served again

closes : quiesce 0 owner served ≡ (ok tt, closed)
unfolding quiesce require_owner lookup insert
closes = refl

quiesce-closes_example :
    (is_quiescing 0 closed ≡ true)
    × (publish 0 owner (arena ∷ []) closed ≡ (err (daemon not_ready), closed))
    × (publication 0 instance_rank owner closed ≡ (err (daemon not_ready), closed))
quiesce-closes_example = quiesce-closes 0 owner served closed arena [] instance_rank closes

-- An AtnAgent on device 0 that declares nothing.
abbrev registered : Registration ℕ ℕ
registered = record {
  object = 5;
  proc = owner;
  alive = true;
  last_seen_at = 10;
  abi_version = 1;
  key = 0;
  contract = 0;
}

abbrev rival : Registration ℕ ℕ
rival = record registered { object = 6; proc = record { pid = 77; create_time = 9 } }

abbrev table : Table ℕ ℕ
table = (0, registered) ∷ []

stored : lookup 0 table ≡ some registered
unfolding lookup
stored = refl

install_snapshot-kept_example :
    identity (lookup 0 (install_snapshot rival (some 5) true table).1) ≡ some 5
install_snapshot-kept_example = install_snapshot-kept rival registered (some 5) table stored

removed : remove_snapshot 0 5 table ≡ (ok tt, [])
unfolding remove_snapshot lookup delete
removed = refl

remove_snapshot-eq-ok_example :
    (identity (lookup 0 table) ≡ some 5) × (lookup {K = ℕ} {V = Registration ℕ ℕ} 0 [] ≡ none)
remove_snapshot-eq-ok_example = remove_snapshot-eq-ok 0 5 table [] removed
