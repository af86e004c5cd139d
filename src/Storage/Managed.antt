-- ===== src/Storage/Managed.antt =====
-- What may happen to a component: the calls of `KvVmmBacking`, `ElasticPageAllocator` and
-- `SglangElasticContextState` in src/xpool/integrations/sglang/ecs as changes of one component.
use cross_pool.Prelude.{ℕ, ◌+◌, ◌≡◌, refl, Bool, Option, some, List, [], ◌∷◌, nat_eq}
use cross_pool.Prelude.Result.{Result, ok, err}
use cross_pool.Prelude.Action.{modify, pure, bind_keeps, ◌>>◌}
use cross_pool.Prelude.Sets.{take, select}
use cross_pool.Storage.Backing.{Driver, try_map, unmap}
use cross_pool.Storage.Pages.{empty_bundles}
use cross_pool.Storage.Pages.Empty.{IsFreeSet}
use cross_pool.Storage.Allocator.{
  ElasticPageAllocator, Upstream, publish_pages, begin_retirement, finish_retirement, sort_pages,
}
use cross_pool.Storage.Pool.{KvComponent, Focus, store_of, on_backing, on_allocator, select_empty}
use cross_pool.Storage.Reclaim.{retire, release_retired}
use cross_pool.Storage.Served.{unowned}

-- A component with its ledger, and the bundles of the retirement that is pending.
pub record Managed : Type 0 where
  pub focus : Focus
  pub pending : List ℕ

abbrev pub component : Managed → KvComponent
component m = m.focus.component

abbrev pub mapped : Driver → List ℕ → Managed → Managed
mapped driver ids m = record m {
  focus = (on_backing (try_map (component m).layout.profile driver ids) m.focus).1;
}

module _ (u : Upstream) where
  abbrev pub published : List ℕ → Managed → Managed
  published ids m =
      let c = component m in
      record m {
        focus = (on_allocator (publish_pages u c.layout.geometry c.bundles ids) m.focus).1;
      }

  -- The bundles that a retirement takes are pending once it has begun.
  abbrev pub begun : List ℕ → Managed → Result (Option (Unit {0})) × Focus → Managed
  begun ids m (err e, f) = record m { focus = f }
  begun ids m (ok _, f) = record { focus = f; pending = ids }

  unfoldable pub retired : ℕ → Managed → Managed
  unfolding begin_retirement empty_bundles sort_pages select take
  retired remaining m =
      let ids = select_empty u (component m) remaining in begun ids m (retire u ids tt m.focus)

  -- Nothing is pending once a retirement has ended.
  abbrev pub ended : Managed → Result (Option ℕ) × Focus → Managed
  ended m (err e, f) = record m { focus = f }
  ended m (ok _, f) = record { focus = f; pending = [] }

  unfoldable pub released : Driver → Managed → Managed
  unfolding unmap finish_retirement
  released driver m = ended m (release_retired (driver, m.pending) 0 m.focus)

  -- What may happen to a component. A mapping that raises ends the engine.
  pub data Change (m n : Managed) : Type 0 where
    maps :
        (ids : List ℕ) (driver : Driver) (answer : Bool)
        → (try_map (component m).layout.profile driver ids (store_of m.focus)).0 ≡ ok answer
        → n ≡ mapped driver ids m
        → Change m n
    publishes : (ids : List ℕ) → n ≡ published ids m → Change m n
    retires : (remaining : ℕ) → m.pending ≡ [] → n ≡ retired remaining m → Change m n
    releases : (driver : Driver) → n ≡ released driver m → Change m n
    uses :
        (a : ElasticPageAllocator)
        → a.unavailable_pages ≡ (component m).allocator.unavailable_pages
        → a.retiring_pages ≡ (component m).allocator.retiring_pages
        → IsFreeSet (component m).layout.geometry (unowned u a)
        → n ≡ record m {
          focus = record m.focus { component = record (component m) { allocator = a } };
        }
        → Change m n

  pub data Changes (m : Managed) : Managed → Type 0 where
    start : Changes m m
    then_ : {n o : Managed} → Changes m n → Change n o → Changes m o

  begun-kind :
      (ids : List ℕ) (m : Managed) (r : Result (Option (Unit {0})) × Focus)
      → r.1.component.kind ≡ (component m).kind
      → (component (begun ids m r)).kind ≡ (component m).kind
  begun-kind ids m (err e, f) same = same
  begun-kind ids m (ok o, f) same = same

  ended-kind :
      (m : Managed) (r : Result (Option ℕ) × Focus)
      → r.1.component.kind ≡ (component m).kind
      → (component (ended m r)).kind ≡ (component m).kind
  ended-kind m (err e, f) same = same
  ended-kind m (ok o, f) same = same

  retire-kind : (ids : List ℕ) (f : Focus) → (retire u ids tt f).1.component.kind ≡ f.component.kind
  retire-kind [] f = refl
  retire-kind (b ∷ bs) f =
      bind_keeps (λ (g : Focus). g.component.kind ≡ f.component.kind)
        (on_allocator (begin_retirement u f.component.kind f.component.layout.geometry (b ∷ bs)))
        (λ _. pure (some tt)) f refl (λ _ t same. same)

  release-kind :
      (driver : Driver) (ids : List ℕ) (f : Focus)
      → (release_retired (driver, ids) 0 f).1.component.kind ≡ f.component.kind
  release-kind driver [] f = refl
  release-kind driver (b ∷ bs) f =
      bind_keeps (λ (g : Focus). g.component.kind ≡ f.component.kind)
        (on_backing (unmap f.component.layout.profile driver (b ∷ bs)))
        (λ n. on_allocator (modify finish_retirement) >> pure (some (0 + n))) f refl
        (λ _ t same. same)

  pub Change-kind : {m n : Managed} → Change m n → (component n).kind ≡ (component m).kind
  unfolding retired released
  Change-kind {m = m} (maps ids driver answer returned e) = rw e refl
  Change-kind {m = m} (publishes ids e) = rw e refl
  Change-kind {m = m} (retires remaining none_ e) =
      let ids = select_empty u (component m) remaining in
      rw e (begun-kind ids m (retire u ids tt m.focus) (retire-kind ids m.focus))
  Change-kind {m = m} (releases driver e) = rw e (
      ended-kind m (release_retired (driver, m.pending) 0 m.focus)
        (release-kind driver m.pending m.focus))
  Change-kind {m = m} (uses a same retiring free e) = rw e refl
