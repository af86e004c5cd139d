-- ===== src/Storage/Reclaim.antt =====
-- How `SglangElasticContextState` of src/xpool/integrations/sglang/ecs/state.py gives storage back:
-- `prepare_reclaim`, `apply_reclaim` and `finish_retirement`.
use cross_pool.Prelude.{
  ℕ, ◌+◌, Bool, true, false, not, ◌||◌, Option, none, some, List, [], ◌∷◌, map, any, leb,
  if◌then◌else◌,
}
use cross_pool.Prelude.Result.{Result, ok, err, value_error, runtime_error}
use cross_pool.Prelude.Action.{Action, pure, raise, modify, ◌>>=◌, ◌>>◌}
use cross_pool.Quota.Profile.{uint64_max}
use cross_pool.Storage.Backing.{Driver, unmap}
use cross_pool.Storage.Allocator.{Upstream, begin_retirement, finish_retirement}
use cross_pool.Storage.Pool.{
  KvComponent, Method, Focus, on_backing, on_allocator, for_each, empty_bundle_ids,
}

-- What an eviction that the ranks agreed on is here: whether its node is still found, and what its frees
-- do to the allocators.
pub record Eviction : Type 0 where
  pub is_found : Bool
  pub frees : List KvComponent → List KvComponent

-- `event` says that the users of the retired bundles are recorded.
pub record SglangReclaimPlan : Type 0 where
  pub release_bytes : ℕ
  pub cache_eviction : Option Eviction
  pub bundle_ids : List (List ℕ)
  pub event : Bool
  pub applied : Bool
  pub completed : Bool

abbrev is_none_empty : List ℕ → Bool
is_none_empty [] = false
is_none_empty (b ∷ bs) = true

module _ (u : Upstream) where
  abbrev new_plan : ℕ → Option Eviction → List (List ℕ) → SglangReclaimPlan
  new_plan release_bytes eviction bundle_ids = record {
    release_bytes = release_bytes;
    cache_eviction = eviction;
    bundle_ids = bundle_ids;
    event = false;
    applied = false;
    completed = false;
  }

  abbrev plan_empty : ℕ → List (List ℕ) → Option SglangReclaimPlan
  plan_empty release_bytes bundles =
      if any is_none_empty bundles then some (new_plan release_bytes none bundles) else none

  abbrev plan_eviction : ℕ → Eviction → List KvComponent → Option SglangReclaimPlan
  plan_eviction release_bytes e cs =
      if e.is_found then some (new_plan release_bytes (some e) (map (λ c. []) cs)) else none

  unfoldable pub prepare_reclaim :
      ℕ → Option Eviction → List KvComponent → Result (Option SglangReclaimPlan)
  unfolding empty_bundle_ids
  prepare_reclaim release_bytes eviction cs =
      if not (leb release_bytes uint64_max) then err value_error else elim eviction [
        | none ↦ ok (plan_empty release_bytes (empty_bundle_ids u release_bytes cs))
        | some e ↦ ok (plan_eviction release_bytes e cs)
      ]

  abbrev pub retire : List ℕ → Unit {0} → Action Focus (Option (Unit {0}))
  retire [] _ f = pure (some tt) f
  retire (b ∷ bs) _ f =
      let c = f.component in
      (on_allocator (begin_retirement u c.kind c.layout.geometry (b ∷ bs)) >> pure (some tt)) f

  unfoldable pub retire_all : List (List ℕ) → Method (Option (Unit {0}))
  unfolding for_each begin_retirement
  retire_all bundle_ids s = for_each retire bundle_ids tt s.components s.quota

  -- The cache effect of a plan, and the bundles to retire after it.
  abbrev evicted : Option Eviction → List KvComponent → List KvComponent
  evicted none cs = cs
  evicted (some e) cs = e.frees cs

  abbrev retired_ids : SglangReclaimPlan → List KvComponent → List (List ℕ)
  retired_ids plan cs = elim plan.cache_eviction [
    | none ↦ plan.bundle_ids
    | some e ↦ empty_bundle_ids u plan.release_bytes cs
  ]

  abbrev applied_plan : SglangReclaimPlan → List (List ℕ) → SglangReclaimPlan
  applied_plan plan bundle_ids = record plan {
    bundle_ids = bundle_ids;
    applied = true;
    event = any is_none_empty bundle_ids;
    completed = plan.completed || not (any is_none_empty bundle_ids);
  }

  unfoldable pub apply_reclaim : SglangReclaimPlan → Method SglangReclaimPlan
  unfolding empty_bundle_ids retire_all
  apply_reclaim plan s =
      if plan.applied
      then raise runtime_error s
      else let cs = evicted plan.cache_eviction s.components in
        let ids = retired_ids plan cs in
        (retire_all ids >>= λ _. pure (applied_plan plan ids)) (record s { components = cs })

abbrev pub release_retired : Driver × List ℕ → ℕ → Action Focus (Option ℕ)
release_retired (driver, []) released f = pure (some released) f
release_retired (driver, b ∷ bs) released f =
    (on_backing (unmap f.component.layout.profile driver (b ∷ bs)) >>= λ n.
    on_allocator (modify finish_retirement) >> pure (some (released + n)))
      f

unfoldable pub release_all : List (Driver × List ℕ) → Method (Option ℕ)
unfolding for_each unmap finish_retirement
release_all retired s = for_each release_retired retired 0 s.components s.quota

abbrev pair_drivers : List Driver → List (List ℕ) → List (Driver × List ℕ)
pair_drivers (d ∷ ds) (b ∷ bs) = (d, b) ∷ pair_drivers ds bs
pair_drivers _ _ = []

-- `ready` is the answer of the event's query.
unfoldable pub finish_reclaim :
    Bool → List Driver → SglangReclaimPlan → Method (SglangReclaimPlan × ℕ)
unfolding release_all
finish_reclaim ready drivers plan =
    if not plan.applied
    then raise runtime_error
    else if plan.completed || not plan.event || not ready
    then pure (plan, 0)
    else (release_all (pair_drivers drivers plan.bundle_ids) >>= λ released.
        pure (record plan { completed = true }, total released))
  where
    total : Option ℕ → ℕ
    total none = 0
    total (some n) = n
