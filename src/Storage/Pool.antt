-- ===== src/Storage/Pool.antt =====
-- `SglangElasticContextState` of src/xpool/integrations/sglang/ecs/state.py: components of a backing and
-- an allocator that share one ledger. The assembly of the components, the sizes of a batch, the layouts
-- of a model and the closing of the engine's pools are left out. SGLang's cache is a parameter: what it
-- could evict, and what an eviction does to the allocators.
use cross_pool.Prelude.{
  ℕ, ◌+◌, ◌-◌, ◌*◌, ◌/◌, Bool, true, false, not, ◌&&◌, Option, none, some, List, [], ◌∷◌, ◌++◌, map,
  all, length, leb, ltb, ◌==◌, nat_eq, if◌then◌else◌,
}
use cross_pool.Prelude.Result.{Result, ok, err, value_error}
use cross_pool.Prelude.Action.{Action, pure, reads, ◌>>=◌, ◌>>◌}
use cross_pool.Prelude.Sets.{elem, select, take}
use cross_pool.Quota.Profile.{uint64_max}
use cross_pool.Quota.Ledger.{MemoryQuota}
use cross_pool.Storage.Division.{up_div}
use cross_pool.Storage.Geometry.{KvVmmLayout}
use cross_pool.Storage.Backing.{Driver, Store, try_map}
use cross_pool.Storage.Pages.{Bundles, empty_bundles}
use cross_pool.Storage.Allocator.{
  ElasticPageAllocator, AllocatorKind, Upstream, SglangPagePlan, is_backed, candidates, sort_pages,
  plan_pages, publish_pages,
}

pub record KvComponent : Type 0 where
  pub layout : KvVmmLayout
  pub kind : AllocatorKind
  pub allocator : ElasticPageAllocator
  pub base : ℕ
  pub bundles : Bundles

pub record SglangElasticContextState : Type 0 where
  pub components : List KvComponent
  pub quota : MemoryQuota

abbrev pub Method : Type 0 → Type 0
Method A = Action SglangElasticContextState A

-- What one component and the ledger are for a method of its backing or of its allocator.
pub record Focus : Type 0 where
  pub component : KvComponent
  pub quota : MemoryQuota

abbrev pub store_of : Focus → Store
store_of f = record { base = f.component.base; bundles = f.component.bundles; quota = f.quota }

abbrev pub on_backing {ℓ} : {A : Type ℓ} → Action Store A → Action Focus A
on_backing m f =
    let (r, s) = m (store_of f) in
    (
      r,
      record {
        component = record f.component { base = s.base; bundles = s.bundles };
        quota = s.quota;
      },
    )

abbrev pub on_allocator {ℓ} : {A : Type ℓ} → Action ElasticPageAllocator A → Action Focus A
on_allocator m f =
    let (r, a) = m f.component.allocator in
    (r, record f { component = record f.component { allocator = a } })

abbrev whole : KvComponent → SglangElasticContextState → SglangElasticContextState
whole c s = record s { components = c ∷ s.components }

-- The rest of a loop, once its body has run on a component: it ends on an error or on `none`.
abbrev pub proceed :
    {B : Type 0}
    → Result (Option B) × Focus
    → List KvComponent
    → (B → MemoryQuota → Result (Option B) × SglangElasticContextState)
    → Result (Option B) × SglangElasticContextState
proceed (err e, f) cs rest = (err e, record { components = f.component ∷ cs; quota = f.quota })
proceed (ok none, f) cs rest = (ok none, record { components = f.component ∷ cs; quota = f.quota })
proceed (ok (some b), f) cs rest = let (r, s) = rest b f.quota in (r, whole f.component s)

-- A loop over the components beside a list of as many values, which may end early.
module _ {A : Type 0} {B : Type 0} (body : A → B → Action Focus (Option B)) where
  unfoldable pub for_each :
      List A → B → List KvComponent → MemoryQuota → Result (Option B) × SglangElasticContextState
  for_each [] b cs q = (ok (some b), record { components = cs; quota = q })
  for_each (x ∷ xs) b [] q = (err value_error, record { components = []; quota = q })
  for_each (x ∷ xs) b (c ∷ cs) q =
      proceed (body x b (record { component = c; quota = q })) cs (λ b r. for_each xs b cs r)

abbrev pub going_on : Bool → Option (Unit {0})
going_on true = some tt
going_on false = none

module _ (u : Upstream) where
  abbrev pub free_of : KvComponent → List ℕ
  free_of c =
      select (λ p. not (elem p c.allocator.retiring_pages))
        (u.get_all_free_pages c.allocator ++ c.allocator.unavailable_pages)

  abbrev pub logical_free_pages : List KvComponent → List ℕ
  logical_free_pages = map (λ c.
      length (u.get_all_free_pages c.allocator)
      + length c.allocator.unavailable_pages
      - length c.allocator.retiring_pages)

  abbrev pub resident_free_pages : List KvComponent → List ℕ
  resident_free_pages = map (λ c. u.available_size c.allocator / c.layout.geometry.token_page_size)

  -- `empty_bundle_ids`, from the component where `remaining` bytes are left to release.
  abbrev pub select_empty : KvComponent → ℕ → List ℕ
  select_empty c remaining =
      take (up_div remaining c.layout.profile.bundle_bytes)
        (sort_pages (empty_bundles c.layout c.bundles (free_of c)))

  unfoldable pub empty_from : ℕ → List KvComponent → List (List ℕ)
  unfolding empty_bundles sort_pages take select
  empty_from remaining [] = []
  empty_from remaining (c ∷ cs) =
      let chosen = select_empty c remaining in
      chosen ∷ empty_from (remaining - length chosen * c.layout.profile.bundle_bytes) cs

  unfoldable pub empty_bundle_ids : ℕ → List KvComponent → List (List ℕ)
  unfolding empty_from
  empty_bundle_ids release_bytes cs =
      if release_bytes == 0 then map (λ c. []) cs else empty_from release_bytes cs

  -- The pages planned for each component; `none` when one of them cannot hold its pages.
  unfoldable pub plan_all : List KvComponent → List ℕ → Option (List SglangPagePlan)
  unfolding plan_pages
  plan_all (c ∷ cs) (n ∷ ns) = join (plan_pages u c.layout c.bundles c.allocator n) (plan_all cs ns)
    where
      join : Option SglangPagePlan → Option (List SglangPagePlan) → Option (List SglangPagePlan)
      join (some p) (some ps) = some (p ∷ ps)
      join _ _ = none
  plan_all _ _ = some []

  unfoldable pub plan_allocation : List ℕ → List KvComponent → Result (Option (List SglangPagePlan))
  unfolding plan_all
  plan_allocation page_counts cs =
      if not (all (λ n. leb n uint64_max) page_counts)
      then err value_error
      else if not (length page_counts == length cs)
      then err value_error
      else ok (plan_all cs page_counts)

  abbrev pub plan_bytes : List KvComponent → List SglangPagePlan → ℕ
  plan_bytes (c ∷ cs) (p ∷ ps) =
      length p.missing_bundle_ids * c.layout.profile.bundle_bytes + plan_bytes cs ps
  plan_bytes _ _ = 0

  abbrev price : SglangElasticContextState → Option (List SglangPagePlan) → Option ℕ
  price s none = none
  price s (some plans) = some (s.quota.charged_bytes + plan_bytes s.components plans)

  abbrev price_result :
      SglangElasticContextState → Result (Option (List SglangPagePlan)) → Result (Option ℕ)
  price_result s (err e) = err e
  price_result s (ok plans) = ok (price s plans)

  unfoldable pub allocation_bytes : List ℕ → SglangElasticContextState → Result (Option ℕ)
  unfolding plan_allocation
  allocation_bytes page_counts s = price_result s (plan_allocation page_counts s.components)

  -- The bodies of the loops of `prepare_allocation`. The driver answers for each component.
  abbrev map_plan : Driver × SglangPagePlan → Unit {0} → Action Focus (Option (Unit {0}))
  map_plan (driver, plan) _ f =
      (on_backing (try_map f.component.layout.profile driver plan.missing_bundle_ids) >>= λ mapped.
      pure (going_on mapped))
        f

  abbrev publish_backed : Unit {0} → Unit {0} → Action Focus (Option (Unit {0}))
  publish_backed _ _ f =
      let c = f.component in
      (on_allocator (
            publish_pages u c.layout.geometry c.bundles
              (select (is_backed c.layout.geometry c.bundles) (candidates u c.allocator)))
          >> pure (some tt))
        f

  abbrev prices_over : SglangElasticContextState → List SglangPagePlan → Bool
  prices_over s plans =
      ltb (s.quota.limit_bytes - s.quota.charged_bytes) (plan_bytes s.components plans)

  abbrev delivers : List KvComponent → List ℕ → Bool
  delivers cs page_counts = all_reach (resident_free_pages cs) page_counts
    where
      all_reach : List ℕ → List ℕ → Bool
      all_reach (a ∷ rest) (n ∷ ns) = leb n a && all_reach rest ns
      all_reach _ _ = true

  -- The two loops of `prepare_allocation`: to map what is missing, and to publish what is backed.
  unfoldable pub map_plans : List (Driver × SglangPagePlan) → Method (Option (Unit {0}))
  unfolding for_each try_map
  map_plans plans s = for_each map_plan plans tt s.components s.quota

  unfoldable pub publish_all : Method (Option (Unit {0}))
  unfolding for_each publish_pages
  publish_all s = for_each publish_backed (map (λ c. tt) s.components) tt s.components s.quota

  abbrev pair_up : List Driver → List SglangPagePlan → List (Driver × SglangPagePlan)
  pair_up (d ∷ ds) (p ∷ ps) = (d, p) ∷ pair_up ds ps
  pair_up _ _ = []

  abbrev publish_mapped : List ℕ → Option (Unit {0}) → Method Bool
  publish_mapped page_counts none = pure false
  publish_mapped page_counts (some _) =
      publish_all >>= λ _. reads (λ s. ok (delivers s.components page_counts))

  abbrev back_plans : List Driver → List ℕ → Option (List SglangPagePlan) → Method Bool
  back_plans drivers page_counts none s = pure false s
  back_plans drivers page_counts (some plans) s =
      if prices_over s plans
      then pure false s
      else (map_plans (pair_up drivers plans) >>= publish_mapped page_counts) s

  unfoldable pub prepare_allocation : List Driver → List ℕ → Method Bool
  unfolding plan_allocation map_plans publish_all
  prepare_allocation drivers page_counts =
      reads (λ s. plan_allocation page_counts s.components) >>= back_plans drivers page_counts
