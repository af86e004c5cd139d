-- ===== src/Storage/Served.antt =====
-- The safety of a component: a page that the allocator does not withhold is backed completely, however
-- its storage is mapped and retired.
use cross_pool.Prelude.{
  ℕ, ◌+◌, ◌<◌, ◌≡◌, ◌∙◌, refl, inl, inr, true, false, is_some, List, [], ◌∷◌, ◌++◌, arith, ltb,
  ◌==◌, nat_eq, Bool-cases, ltb→lt, sym, ap,
}
use mathlib.Core.Bool.{true≢false}
use cross_pool.Prelude.Dict.{lookup, keys}
use cross_pool.Prelude.Keys.{elem-keys}
use cross_pool.Prelude.Sets.{elem, occurs, count-append}
use cross_pool.Storage.Geometry.{Geometry}
use cross_pool.Storage.Geometry.Span.{Touches, IsUsable}
use cross_pool.Storage.Geometry.Checked.{IsLayout}
use cross_pool.Storage.Backing.{Driver, Store, try_map, unmap}
use cross_pool.Storage.Backing.Frame.{
  Keeps, try_map-Keeps, try_map-beyond, unmap-Keeps, unmap-absent,
}
use cross_pool.Storage.Pages.Cover.{IsResident}
use cross_pool.Storage.Pages.Empty.{IsFreeSet, IsFreeSet-same}
use cross_pool.Storage.Allocator.{
  ElasticPageAllocator, AllocatorKind, token_pages, paged_pages, Upstream, finish_retirement,
}
use cross_pool.Storage.Pool.{KvComponent}

-- How often a page is in the free containers of an allocator.
abbrev pub occurs_staged : ℕ → List (List ℕ) → ℕ
occurs_staged p [] = 0
occurs_staged p (pages ∷ staged) = occurs p pages + occurs_staged p staged

abbrev pub contained : AllocatorKind → ElasticPageAllocator → ℕ → ℕ
contained token_pages a p = occurs p a.free_pages + occurs p a.release_pages
contained paged_pages a p = occurs p a.free_pages + occurs_staged p a.staged_pages

-- What SGLang's allocators promise: all free pages are those of the containers, and pages given back
-- are added to them and change nothing else.
pub record IsUpstream (kind : AllocatorKind) (u : Upstream) : Type 0 where
  pub all_of :
      (a : ElasticPageAllocator) (p : ℕ) → occurs p (u.get_all_free_pages a) ≡ contained kind a p
  pub frees :
      (ps : List ℕ) (a : ElasticPageAllocator) (p : ℕ)
      → occurs p (u.get_all_free_pages (u.free_page_ids ps a))
        ≡ occurs p ps + occurs p (u.get_all_free_pages a)
  pub keeps_unavailable :
      (ps : List ℕ) (a : ElasticPageAllocator)
      → (u.free_page_ids ps a).unavailable_pages ≡ a.unavailable_pages
  pub keeps_retiring :
      (ps : List ℕ) (a : ElasticPageAllocator)
      → (u.free_page_ids ps a).retiring_pages ≡ a.retiring_pages

-- The pages that no one owns: those that the engine can take, and those that are withheld.
abbrev pub unowned : Upstream → ElasticPageAllocator → List ℕ
unowned u a = u.get_all_free_pages a ++ a.unavailable_pages

pub unowned-occurs :
    (u : Upstream) (a : ElasticPageAllocator) (p : ℕ)
    → occurs p (unowned u a) ≡ occurs p (u.get_all_free_pages a) + occurs p a.unavailable_pages
unowned-occurs u a p = count-append (λ y. y == p) (u.get_all_free_pages a) a.unavailable_pages

-- A component with the bundles of its pending retirement.
pub record IsServed (u : Upstream) (c : KvComponent) (pending : List ℕ) : Type 0 where
  pub layout : IsLayout c.layout
  pub fits : (b : ℕ) → elem b (keys c.bundles) ≡ true → b < c.layout.profile.bundle_capacity
  pub free_set : IsFreeSet c.layout.geometry (unowned u c.allocator)
  pub resident :
      (page : ℕ)
      → IsUsable c.layout.geometry page
      → elem page c.allocator.unavailable_pages ≡ false
      → IsResident c.layout.geometry c.bundles page
  pub withheld :
      (page : ℕ)
      → elem page c.allocator.retiring_pages ≡ true
      → elem page c.allocator.unavailable_pages ≡ true
  pub withdrawn :
      (page b : ℕ)
      → IsUsable c.layout.geometry page
      → Touches c.layout.geometry page b
      → elem b pending ≡ true
      → elem page c.allocator.retiring_pages ≡ true

-- The component with other bundles.
abbrev pub with_store : KvComponent → Store → KvComponent
with_store c s = record c { base = s.base; bundles = s.bundles }

held-lookup :
    (b : ℕ) (s t : Store) → Keeps b s t → elem b (keys t.bundles) ≡ elem b (keys s.bundles)
held-lookup b s t same = elem-keys b t.bundles ∙ ap is_some same ∙ sym (elem-keys b s.bundles)

module _ (u : Upstream) (c : KvComponent) (pending : List ℕ) (h : IsServed u c pending) where
  abbrev g : Geometry
  g = c.layout.geometry

  -- More bundles, all below the capacity, serve the same pages.
  store-IsServed :
      (s : Store)
      → ((page b : ℕ)
          → IsUsable g page
          → elem page c.allocator.unavailable_pages ≡ false
          → Touches g page b
          → elem b (keys c.bundles) ≡ true
          → elem b (keys s.bundles) ≡ true)
      → ((b : ℕ) → elem b (keys s.bundles) ≡ true → b < c.layout.profile.bundle_capacity)
      → IsServed u (with_store c s) pending
  store-IsServed s kept fits = record {
    layout = h.layout;
    fits = fits;
    free_set = h.free_set;
    resident = λ page usable open_ b touch.
        kept page b usable open_ touch (h.resident page usable open_ b touch);
    withheld = h.withheld;
    withdrawn = h.withdrawn;
  }

  pub try_map-IsServed :
      (driver : Driver) (ids : List ℕ) (s : Store)
      → s.bundles ≡ c.bundles
      → IsServed u (with_store c (try_map c.layout.profile driver ids s).1) pending
  try_map-IsServed driver ids s same =
      store-IsServed after
        (λ page b usable open_ touch held.
          held-lookup b s after (
            try_map-Keeps b c.layout.profile driver ids s
              (sym (elem-keys b s.bundles) ∙ of_s b ∙ held))
          ∙ of_s b
          ∙ held)
        fits
    where
      after : Store
      after = (try_map c.layout.profile driver ids s).1

      of_s : (b : ℕ) → elem b (keys s.bundles) ≡ elem b (keys c.bundles)
      of_s b = ap (λ x. elem b (keys x)) same

      fits : (b : ℕ) → elem b (keys after.bundles) ≡ true → b < c.layout.profile.bundle_capacity
      fits b held = elim (Bool-cases (ltb b c.layout.profile.bundle_capacity)) [
        | inl below ↦ ltb→lt b c.layout.profile.bundle_capacity below
        | inr beyond ↦ h.fits b (
            sym (of_s b)
            ∙ sym (
                held-lookup b s after
                  (try_map-beyond b c.layout.profile driver ids s (ground arith)))
            ∙ held)
      ]

  pub unmap-IsServed :
      (driver : Driver) (s : Store)
      → s.bundles ≡ c.bundles
      → IsServed u (with_store c (unmap c.layout.profile driver pending s).1) pending
  unmap-IsServed driver s same = store-IsServed after kept fits
    where
      after : Store
      after = (unmap c.layout.profile driver pending s).1

      of_s : (b : ℕ) → elem b (keys s.bundles) ≡ elem b (keys c.bundles)
      of_s b = ap (λ x. elem b (keys x)) same

      kept :
          (page b : ℕ)
          → IsUsable g page
          → elem page c.allocator.unavailable_pages ≡ false
          → Touches g page b
          → elem b (keys c.bundles) ≡ true
          → elem b (keys after.bundles) ≡ true
      kept page b usable open_ touch held = elim (Bool-cases (elem b pending)) [
        | inl retired ↦ absurd (
            let e = h.withheld page (h.withdrawn page b usable touch retired) in
            true≢false (sym e ∙ open_))
        | inr apart ↦
            held-lookup b s after (unmap-Keeps b c.layout.profile driver pending s apart)
            ∙ of_s b
            ∙ held
      ]

      fits : (b : ℕ) → elem b (keys after.bundles) ≡ true → b < c.layout.profile.bundle_capacity
      fits b held = elim (Bool-cases (is_some (lookup b s.bundles))) [
        | inl there ↦ h.fits b (sym (of_s b) ∙ elem-keys b s.bundles ∙ there)
        | inr absent ↦ absurd (
            true≢false (
              sym held
              ∙ held-lookup b s after (unmap-absent b c.layout.profile driver pending s absent)
              ∙ elem-keys b s.bundles
              ∙ absent))
      ]

  -- SGLang may change the allocator as long as it takes and gives back only pages that are not
  -- withheld, none of them twice.
  pub uses-IsServed :
      (a : ElasticPageAllocator)
      → a.unavailable_pages ≡ c.allocator.unavailable_pages
      → a.retiring_pages ≡ c.allocator.retiring_pages
      → IsFreeSet g (unowned u a)
      → IsServed u (record c { allocator = a }) pending
  uses-IsServed a same retiring free = record {
    layout = h.layout;
    fits = h.fits;
    free_set = free;
    resident = λ page usable open_. h.resident page usable (ap (elem page) (sym same) ∙ open_);
    withheld = λ page e. ap (elem page) same ∙ h.withheld page (ap (elem page) (sym retiring) ∙ e);
    withdrawn =
        λ page b usable touch e. ap (elem page) retiring ∙ h.withdrawn page b usable touch e;
  }

  -- The end of a retirement, after its bundles are unmapped.
  pub finish_retirement-IsServed :
      IsUpstream c.kind u → IsServed u (record c { allocator = finish_retirement c.allocator }) []
  unfolding finish_retirement elem
  finish_retirement-IsServed up = record {
    layout = h.layout;
    fits = h.fits;
    free_set =
        IsFreeSet-same g (unowned u c.allocator) (unowned u (finish_retirement c.allocator))
          (λ p.
            count-append (λ y. y == p) (u.get_all_free_pages (finish_retirement c.allocator)) _
            ∙ ap (λ n. n + occurs p c.allocator.unavailable_pages)
                (up.all_of (finish_retirement c.allocator) p
                  ∙ contained-finish c.kind p
                  ∙ sym (up.all_of c.allocator p))
            ∙ sym (count-append (λ y. y == p) (u.get_all_free_pages c.allocator) _))
          h.free_set;
    resident = h.resident;
    withheld = λ page e. cc;
    withdrawn = λ page b usable touch e. cc;
  }
    where
      contained-finish :
          (kind : AllocatorKind) (p : ℕ)
          → contained kind (finish_retirement c.allocator) p ≡ contained kind c.allocator p
      contained-finish token_pages p = refl
      contained-finish paged_pages p = refl
