-- ===== src/Storage/Lifecycle.antt =====
-- A component through mappings that return, publications, retirements and the engine's own use of its
-- pages, in any order and whatever the driver answers to a release.
use cross_pool.Prelude.{
  ℕ, ◌+◌, ◌≡◌, ◌∙◌, refl, inl, inr, Bool-cases, true, false, some, List, [], ◌∷◌, nat_eq, sym, ap,
  subst, arith,
}
use cross_pool.Prelude.Result.{Result, ok, err}
use cross_pool.Prelude.Action.{modify, pure, ◌>>=◌, ◌>>◌}
use cross_pool.Prelude.Sets.{elem, elem-take, elem-append, elem-count}
use cross_pool.Storage.Division.{up_div}
use cross_pool.Storage.Geometry.Span.{Touches, IsUsable}
use cross_pool.Storage.Backing.{Driver, Store, unmap}
use mathlib.Core.Bool.{true≢false}
use cross_pool.Storage.Backing.Books.{IsBooked}
use cross_pool.Storage.Backing.Uses.{try_map-IsBooked, unmap-IsBooked}
use cross_pool.Storage.Backing.Outcome.{IsMapped}
use cross_pool.Storage.Backing.Mapped.{AllMapped, try_map-AllMapped, unmap-AllMapped, unmap-eq-ok}
use cross_pool.Storage.Pages.{empty_bundles}
use cross_pool.Storage.Allocator.{
  ElasticPageAllocator, Upstream, begin_retirement, finish_retirement, sort_pages,
}
use cross_pool.Storage.Plans.{elem-sort_pages}
use cross_pool.Storage.Pool.{KvComponent, store_of, on_backing, on_allocator, select_empty, free_of}
use cross_pool.Storage.Reclaim.{retire, release_retired}
use cross_pool.Storage.Served.{
  IsUpstream, IsServed, unowned-occurs, with_store, try_map-IsServed, unmap-IsServed, uses-IsServed,
  finish_retirement-IsServed,
}
use cross_pool.Storage.Turnover.{publish_pages-IsServed}
use cross_pool.Storage.Withdraw.{begin_retirement-IsServed, begin_retirement-cases}
use cross_pool.Storage.Managed.{
  Managed, component, begun, retired, ended, released, Change, maps, publishes, retires, releases,
  uses, Changes, start, then_, Change-kind,
}

select_empty-elem :
    (u : Upstream) (c : KvComponent) (remaining x : ℕ)
    → elem x (select_empty u c remaining) ≡ true
    → elem x (empty_bundles c.layout c.bundles (free_of u c)) ≡ true
select_empty-elem u c remaining x e =
    sym (elem-sort_pages x (empty_bundles c.layout c.bundles (free_of u c)))
    ∙ elem-take x (up_div remaining c.layout.profile.bundle_bytes)
        (sort_pages (empty_bundles c.layout c.bundles (free_of u c))) e

module _ (u : Upstream) where
  abbrev IsKept : Managed → Type 0
  IsKept m = IsServed u (component m) m.pending

  retired-IsKept :
      (remaining : ℕ) (m : Managed)
      → IsUpstream (component m).kind u
      → m.pending ≡ []
      → IsKept m
      → IsKept (retired u remaining m)
  unfolding retired
  retired-IsKept remaining m up none_ h =
      cases (select_empty u (component m) remaining) (select_empty-elem u (component m) remaining)
    where
      cases :
          (ids : List ℕ)
          → ((x : ℕ)
              → elem x ids ≡ true
              → elem x (
                  empty_bundles
                    (component m).layout
                    (component m).bundles
                    (free_of u (component m)))
                ≡ true)
          → IsKept (begun u ids m (retire u ids tt m.focus))
      cases [] chosen = rw none_ at h
      cases (b ∷ bs) chosen = elim (begin_retirement-cases u (component m) up (b ∷ bs)) [
        | inl refused ↦ rw refused h
        | inr begun_ ↦ rw begun_ (
            subst (λ r. IsServed u (record (component m) { allocator = r.1 }) (b ∷ bs)) begun_
              (begin_retirement-IsServed u (component m) up (b ∷ bs) m.pending h chosen
                (ap (λ r. r.0) begun_)))
      ]

  released-IsKept :
      (driver : Driver) (m : Managed)
      → IsUpstream (component m).kind u
      → IsKept m
      → IsKept (released u driver m)
  unfolding released
  released-IsKept driver m up h = cases m.pending h
    where
      finished :
          (ids : List ℕ) (r : Result ℕ × Store)
          → IsServed u (with_store (component m) r.1) ids
          → IsKept (
              ended u
                (record m { pending = ids })
                ((on_backing (λ _. r) >>= λ n.
                    on_allocator (modify finish_retirement) >> pure (some (0 + n)))
                  m.focus))
      finished ids (err e, t) served = served
      finished ids (ok n, t) served =
          finish_retirement-IsServed u (with_store (component m) t) ids served up

      cases :
          (ids : List ℕ)
          → IsServed u (component m) ids
          → IsKept (ended u (record m { pending = ids }) (release_retired (driver, ids) 0 m.focus))
      cases [] served = served
      cases (b ∷ bs) served =
          finished (b ∷ bs) (unmap (component m).layout.profile driver (b ∷ bs) (store_of m.focus))
            (unmap-IsServed u (component m) (b ∷ bs) served driver (store_of m.focus) refl)

  -- What a component keeps: its pages are served, its ledger is charged for its bundles, and the bundles
  -- that are not about to be retired are mapped.
  pub record IsManaged (other : ℕ) (m : Managed) : Type 0 where
    pub served : IsServed u (component m) m.pending
    pub booked : IsBooked (component m).layout.profile.bundle_bytes other (store_of m.focus)
    pub sound : AllMapped m.pending (store_of m.focus)

  module _ (other : ℕ) where
    abbrev IsBacked : Managed → Type 0
    IsBacked m =
        IsBooked (component m).layout.profile.bundle_bytes other (store_of m.focus)
        × AllMapped m.pending (store_of m.focus)

    retired-IsBacked :
        (remaining : ℕ) (m : Managed)
        → m.pending ≡ []
        → IsBacked m
        → IsBacked (retired u remaining m)
    unfolding retired elem
    retired-IsBacked remaining m none_ (booked, sound) =
        cases (select_empty u (component m) remaining)
      where
        anew : (ids : List ℕ) → AllMapped ids (store_of m.focus)
        anew ids = λ b held apart. sound b held (rw none_ refl)

        cases : (ids : List ℕ) → IsBacked (begun u ids m (retire u ids tt m.focus))
        cases [] = (booked, anew [])
        cases (b ∷ bs) = answered (
            begin_retirement u (component m).kind (component m).layout.geometry (b ∷ bs)
              (component m).allocator)
          where
            answered :
                (r : Result (Unit {0}) × ElasticPageAllocator)
                → IsBacked (begun u (b ∷ bs) m ((on_allocator (λ _. r) >> pure (some tt)) m.focus))
            answered (err e, a) = (booked, sound)
            answered (ok done, a) = (booked, anew (b ∷ bs))

    released-IsBacked :
        (driver : Driver) (m : Managed) → IsBacked m → IsBacked (released u driver m)
    unfolding released
    released-IsBacked driver m (booked, sound) = cases m.pending sound
      where
        finished :
            (ids : List ℕ) (r : Result ℕ × Store)
            → IsBooked (component m).layout.profile.bundle_bytes other r.1
            → AllMapped ids r.1
            → ((n : ℕ) → r.0 ≡ ok n → AllMapped [] r.1)
            → IsBacked (
                ended u
                  (record m { pending = ids })
                  ((on_backing (λ _. r) >>= λ n.
                      on_allocator (modify finish_retirement) >> pure (some (0 + n)))
                    m.focus))
        finished ids (err e, t) after kept freed = (after, kept)
        finished ids (ok n, t) after kept freed = (after, freed n refl)

        cases :
            (ids : List ℕ)
            → AllMapped ids (store_of m.focus)
            → IsBacked
                (ended u (record m { pending = ids }) (release_retired (driver, ids) 0 m.focus))
        cases [] kept = (booked, kept)
        cases (b ∷ bs) kept =
            let pool = (component m).layout.profile in
            finished (b ∷ bs) (unmap pool driver (b ∷ bs) (store_of m.focus))
              (unmap-IsBooked pool driver other (b ∷ bs) (store_of m.focus) booked)
              (unmap-AllMapped pool driver (b ∷ bs) (store_of m.focus) kept)
              (λ n. unmap-eq-ok pool driver (b ∷ bs) (store_of m.focus) n kept)

    Change-IsManaged :
        {m n : Managed}
        → Change u m n
        → IsUpstream (component m).kind u
        → IsManaged other m
        → IsManaged other n
    Change-IsManaged {m = m} (maps ids driver answer returned e) up h =
        let pool = (component m).layout.profile in
        rw e (record {
          served =
              try_map-IsServed u (component m) m.pending h.served driver ids (store_of m.focus)
                refl;
          booked = try_map-IsBooked pool driver other ids (store_of m.focus) h.booked;
          sound =
              try_map-AllMapped pool driver other ids m.pending (store_of m.focus) answer h.booked
                h.sound returned;
        })
    Change-IsManaged {m = m} (publishes ids e) up h = rw e (record {
      served = publish_pages-IsServed u (component m) up ids m.pending h.served;
      booked = h.booked;
      sound = h.sound;
    })
    Change-IsManaged {m = m} (retires remaining none_ e) up h =
        let backed = retired-IsBacked remaining m none_ (h.booked, h.sound) in
        rw e (record {
          served = retired-IsKept remaining m up none_ h.served;
          booked = backed.0;
          sound = backed.1;
        })
    Change-IsManaged {m = m} (releases driver e) up h =
        let backed = released-IsBacked driver m (h.booked, h.sound) in
        rw e (record {
          served = released-IsKept driver m up h.served;
          booked = backed.0;
          sound = backed.1;
        })
    Change-IsManaged {m = m} (uses a same retiring free e) up h = rw e (record {
      served = uses-IsServed u (component m) m.pending h.served a same retiring free;
      booked = h.booked;
      sound = h.sound;
    })

  Changes-IsManaged :
      (other : ℕ) {m n : Managed}
      → Changes u m n
      → IsUpstream (component m).kind u
      → IsManaged other m
      → IsUpstream (component n).kind u × IsManaged other n
  Changes-IsManaged other start up h = (up, h)
  Changes-IsManaged other (then_ before last) up h =
      let (middle, kept) = Changes-IsManaged other before up h in
      (
        subst (λ k. IsUpstream k u) (sym (Change-kind u last)) middle,
        Change-IsManaged other last middle kept,
      )

  -- A page that is not withheld has all of its bundles mapped.
  served-IsMapped :
      (other : ℕ) (m : Managed) (page b : ℕ)
      → IsManaged other m
      → IsUsable (component m).layout.geometry page
      → elem page (component m).allocator.unavailable_pages ≡ false
      → Touches (component m).layout.geometry page b
      → IsMapped b (store_of m.focus)
  served-IsMapped other m page b h usable open_ touch =
      h.sound b (h.served.resident page usable open_ b touch)
        (elim (Bool-cases (elem b m.pending)) [
          | inr apart ↦ apart
          | inl leaving ↦ absurd (
              true≢false (
                sym (h.served.withheld page (h.served.withdrawn page b usable touch leaving))
                ∙ open_))
        ])

  -- Over allocators that keep SGLang's promises, a component that starts well, with its ledger charged
  -- for its bundles and its bundles mapped, stays so: after any mappings that return, publications,
  -- retirements, releases that return or raise, and uses, every usable page that is not withheld has
  -- all of its bundles retained and mapped, and the pages that the engine can take are usable and not
  -- withheld.
  pub Changes-served :
      (other : ℕ) {m n : Managed}
      → Changes u m n
      → IsUpstream (component m).kind u
      → IsManaged other m
      → ((page b : ℕ)
          → IsUsable (component n).layout.geometry page
          → elem page (component n).allocator.unavailable_pages ≡ false
          → Touches (component n).layout.geometry page b
          → IsMapped b (store_of n.focus))
        × ((page : ℕ)
            → elem page (u.get_all_free_pages (component n).allocator) ≡ true
            → IsUsable (component n).layout.geometry page
              × (elem page (component n).allocator.unavailable_pages ≡ false))
  Changes-served other {n = n} done up h =
      let (_, kept) = Changes-IsManaged other done up h in
      (
        λ page b usable open_ touch. served-IsMapped other n page b kept usable open_ touch,
        λ page free. (
          kept.served.free_set.usable page
              (elem-append page (u.get_all_free_pages (component n).allocator) _ ∙ rw free refl),
          ground (
            arith,
            free,
            kept.served.free_set.unique page,
            unowned-occurs u (component n).allocator page,
            elem-count page (u.get_all_free_pages (component n).allocator),
            elem-count page (component n).allocator.unavailable_pages,
          ),
        ),
      )
