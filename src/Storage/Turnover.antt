-- ===== src/Storage/Turnover.antt =====
-- Pages that are published and pages that are withdrawn keep a component served.
use cross_pool.Prelude.{
  ℕ, ◌≡◌, ◌∙◌, refl, inl, inr, Bool, true, false, not, ◌&&◌, ◌||◌, List, [], ◌∷◌, any, all, arith,
  ◌==◌, nat_eq, Bool-cases, sym, subst, ap,
}
use mathlib.Core.Bool.{true≢false}
use cross_pool.Prelude.Sets.{elem, select, occurs, elem-select, occurs-select}
use cross_pool.Storage.Geometry.{Geometry}
use cross_pool.Storage.Geometry.Span.{IsUsable}
use cross_pool.Storage.Backing.Frame.{all-elem}
use cross_pool.Storage.Pages.{missing_bundle_count}
use cross_pool.Storage.Pages.Cover.{IsResident, missing_bundle_count_iff}
use cross_pool.Storage.Pages.Empty.{IsFreeSet-same}
use cross_pool.Storage.Allocator.{
  ElasticPageAllocator, AllocatorKind, token_pages, paged_pages, Upstream, is_backed, publish_pages,
  publish_selected,
}
use cross_pool.Storage.Pool.{KvComponent}
use cross_pool.Storage.Served.{IsUpstream, IsServed, unowned, unowned-occurs, contained}

or-false-both : (a b : Bool) → a || b ≡ false → (a ≡ false) × (b ≡ false)
or-false-both true b h = cc
or-false-both false b h = (refl, h)

any-false : (p : ℕ → Bool) (xs : List ℕ) (x : ℕ) → any p xs ≡ false → elem x xs ≡ true → p x ≡ false
unfolding elem
any-false p [] x h e = cc
any-false p (y ∷ ys) x h e = elim (Bool-cases (y == x)) [
  | inl same ↦ let it : y ≡ x = ground arith in rw it at (or-false-both (p y) (any p ys) h).0
  | inr other ↦ any-false p ys x (or-false-both (p y) (any p ys) h).1 (ground arith)
]

module _ (u : Upstream) (c : KvComponent) (up : IsUpstream c.kind u) where
  abbrev g : Geometry
  g = c.layout.geometry

  abbrev pub with_allocator : ElasticPageAllocator → KvComponent
  with_allocator a = record c { allocator = a }

  -- The allocator after `publish_pages` has given `ps` back.
  unfoldable pub published : List ℕ → List ℕ → ElasticPageAllocator
  published page_ids ps = u.free_page_ids ps (record c.allocator {
    unavailable_pages = select (λ q. not (elem q page_ids)) c.allocator.unavailable_pages;
  })

  module _ (page_ids : List ℕ) where
    abbrev pub chosen : List ℕ
    chosen = select (λ q. elem q page_ids) c.allocator.unavailable_pages

    published-unavailable :
        (page : ℕ)
        → elem page (published page_ids chosen).unavailable_pages
          ≡ (elem page c.allocator.unavailable_pages && not (elem page page_ids))
    unfolding published
    published-unavailable page =
        ap (elem page) (up.keeps_unavailable chosen _)
        ∙ elem-select (λ q. not (elem q page_ids)) page c.allocator.unavailable_pages

    published-retiring :
        (page : ℕ)
        → elem page (published page_ids chosen).retiring_pages
          ≡ elem page c.allocator.retiring_pages
    unfolding published
    published-retiring page = ap (elem page) (up.keeps_retiring chosen _)

    published-occurs :
        (page : ℕ)
        → occurs page (unowned u (published page_ids chosen)) ≡ occurs page (unowned u c.allocator)
    unfolding published
    published-occurs page = ground (
      arith,
      unowned-occurs u (published page_ids chosen) page,
      unowned-occurs u c.allocator page,
      up.frees chosen rest page,
      ap (occurs page) (up.keeps_unavailable chosen rest),
      occurs-select (λ q. elem q page_ids) page c.allocator.unavailable_pages,
      occurs-select (λ q. not (elem q page_ids)) page c.allocator.unavailable_pages,
      up.all_of rest page,
      up.all_of c.allocator page,
      contained-rest c.kind,
    )
      where
        rest : ElasticPageAllocator
        rest = record c.allocator {
          unavailable_pages = select (λ q. not (elem q page_ids)) c.allocator.unavailable_pages;
        }

        contained-rest :
            (kind : AllocatorKind) → contained kind rest page ≡ contained kind c.allocator page
        contained-rest token_pages = refl
        contained-rest paged_pages = refl

    pub published-IsServed :
        (pending : List ℕ)
        → IsServed u c pending
        → any (λ q. elem q c.allocator.retiring_pages) chosen ≡ false
        → all (is_backed g c.bundles) chosen ≡ true
        → IsServed u (with_allocator (published page_ids chosen)) pending
    published-IsServed pending h quiet backed = record {
      layout = h.layout;
      fits = h.fits;
      free_set =
          IsFreeSet-same g (unowned u c.allocator) (unowned u (published page_ids chosen))
            published-occurs h.free_set;
      resident =
          λ page usable open_. resident page usable (sym (published-unavailable page) ∙ open_);
      withheld = λ page e. withheld page (sym (published-retiring page) ∙ e);
      withdrawn =
          λ page b usable touch e. published-retiring page ∙ h.withdrawn page b usable touch e;
    }
      where
        in_chosen :
            (page : ℕ)
            → elem page c.allocator.unavailable_pages ≡ true
            → elem page page_ids ≡ true
            → elem page chosen ≡ true
        in_chosen page a b =
            elem-select (λ q. elem q page_ids) page c.allocator.unavailable_pages ∙ rw (a, b) refl

        resident :
            (page : ℕ)
            → IsUsable g page
            → (elem page c.allocator.unavailable_pages && not (elem page page_ids)) ≡ false
            → IsResident g c.bundles page
        resident page usable open_ = elim (Bool-cases (elem page c.allocator.unavailable_pages)) [
          | inr out ↦ h.resident page usable out
          | inl held ↦ elim (Bool-cases (elem page page_ids)) [
            | inr apart ↦ absurd (ground arith)
            | inl asked ↦ (missing_bundle_count_iff g h.layout.sized c.bundles page).0 (
                (nat_eq.beq_iff (missing_bundle_count g c.bundles page) 0).0
                  (all-elem (is_backed g c.bundles) chosen page backed (in_chosen page held asked)))
          ]
        ]

        withheld :
            (page : ℕ)
            → elem page c.allocator.retiring_pages ≡ true
            → elem page (published page_ids chosen).unavailable_pages ≡ true
        withheld page retiring = elim (Bool-cases (elem page page_ids)) [
          | inr apart ↦ published-unavailable page ∙ rw (h.withheld page retiring, apart) refl
          | inl asked ↦ absurd (
              true≢false (
                sym retiring
                ∙ any-false (λ q. elem q c.allocator.retiring_pages) chosen page quiet
                    (in_chosen page (h.withheld page retiring) asked)))
        ]

  -- However a publication ends, the component stays served.
  pub publish_pages-IsServed :
      (page_ids pending : List ℕ)
      → IsServed u c pending
      → IsServed u (with_allocator (publish_pages u g c.bundles page_ids c.allocator).1) pending
  unfolding publish_pages published
  publish_pages-IsServed page_ids pending h = cases (chosen page_ids) refl
    where
      cases :
          (ps : List ℕ)
          → chosen page_ids ≡ ps
          → IsServed u
              (with_allocator (publish_selected u g c.bundles page_ids ps c.allocator).1)
              pending
      cases [] e = h
      cases (p ∷ ps) e = elim (Bool-cases (any (λ q. elem q c.allocator.retiring_pages) (p ∷ ps))) [
        | inl busy ↦ rw busy h
        | inr quiet ↦ elim (Bool-cases (all (is_backed g c.bundles) (p ∷ ps))) [
          | inr bare ↦ rw (quiet, bare) h
          | inl backed ↦
              rw (quiet, backed)
                (subst (λ qs. IsServed u (with_allocator (published page_ids qs)) pending) e
                  (published-IsServed page_ids pending h (rw e quiet) (rw e backed)))
        ]
      ]
