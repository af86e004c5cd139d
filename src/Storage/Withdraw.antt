-- ===== src/Storage/Withdraw.antt =====
-- A retirement withdraws every page that touches its bundles, and keeps a component served.
use cross_pool.Prelude.{
  ℕ, ◌+◌, ◌≡◌, ◌∙◌, refl, inl, inr, ◌⊎◌, Bool, true, false, not, ◌&&◌, List, [], ◌∷◌, map, arith,
  ◌==◌, nat_eq, if◌then◌else◌, Bool-cases, ap,
}
use cross_pool.Prelude.Result.{ok, err, runtime_error}
use cross_pool.Prelude.Sets.{
  elem, select, occurs, elem-select, occurs-select, count-append, elem-count,
}
use cross_pool.Storage.Geometry.{Geometry}
use cross_pool.Storage.Pages.{intersects, empty_bundles}
use cross_pool.Storage.Pages.Cover.{Touches-intersects}
use cross_pool.Storage.Pages.Empty.{
  IsFreeSet-same, IsUnowned, empty_bundles_iff, empty_bundles-held,
}
use cross_pool.Storage.Allocator.{
  ElasticPageAllocator, AllocatorKind, token_pages, paged_pages, Upstream, is_empty, withdraw,
  exclude, begin_retirement,
}
use cross_pool.Storage.Pool.{KvComponent, free_of}
use cross_pool.Storage.Served.{
  IsUpstream, IsServed, unowned, unowned-occurs, contained, occurs_staged,
}

is_empty-elem : (p : ℕ) (ps : List ℕ) → is_empty ps ≡ true → elem p ps ≡ false
unfolding elem
is_empty-elem p [] h = refl
is_empty-elem p (q ∷ qs) h = cc

occurs_staged-select :
    (p : ℕ → Bool) (x : ℕ) (staged : List (List ℕ))
    → occurs_staged x (map (select p) staged) ≡ (if p x then occurs_staged x staged else 0)
occurs_staged-select p x [] = ground arith
occurs_staged-select p x (pages ∷ staged) =
    ground (arith, occurs-select p x pages, occurs_staged-select p x staged)

module _ (g : Geometry) (ids : List ℕ) (a : ElasticPageAllocator) where
  contained-exclude :
      (kind : AllocatorKind) (p : ℕ)
      → contained kind (exclude kind g ids a) p
        ≡ (if intersects g ids p then 0 else contained kind a p)
  contained-exclude token_pages p = ground (
    arith,
    occurs-select (λ q. not (intersects g ids q)) p a.free_pages,
    occurs-select (λ q. not (intersects g ids q)) p a.release_pages,
  )
  contained-exclude paged_pages p = ground (
    arith,
    occurs-select (λ q. not (intersects g ids q)) p a.free_pages,
    occurs_staged-select (λ q. not (intersects g ids q)) p a.staged_pages,
  )

  exclude-unavailable :
      (kind : AllocatorKind) → (exclude kind g ids a).unavailable_pages ≡ a.unavailable_pages
  exclude-unavailable token_pages = refl
  exclude-unavailable paged_pages = refl

  exclude-retiring :
      (kind : AllocatorKind) → (exclude kind g ids a).retiring_pages ≡ a.retiring_pages
  exclude-retiring token_pages = refl
  exclude-retiring paged_pages = refl

contained-withdraw :
    (u : Upstream) (g : Geometry) (ids : List ℕ) (a : ElasticPageAllocator) (kind : AllocatorKind)
    (p : ℕ)
    → contained kind (withdraw u g ids a) p ≡ contained kind a p
contained-withdraw u g ids a token_pages p = refl
contained-withdraw u g ids a paged_pages p = refl

module _ (u : Upstream) (c : KvComponent) (up : IsUpstream c.kind u) (ids : List ℕ) where
  abbrev g : Geometry
  g = c.layout.geometry

  abbrev a : ElasticPageAllocator
  a = c.allocator

  -- The allocator once the retirement has begun.
  abbrev pub b : ElasticPageAllocator
  b = exclude c.kind g ids (withdraw u g ids a)

  b-unavailable :
      (p : ℕ)
      → occurs p b.unavailable_pages
        ≡ occurs p a.unavailable_pages
          + (if intersects g ids p then occurs p (u.get_all_free_pages a) else 0)
  b-unavailable p =
      ap (occurs p) (exclude-unavailable g ids (withdraw u g ids a) c.kind)
      ∙ count-append (λ y. y == p) a.unavailable_pages
          (select (intersects g ids) (u.get_all_free_pages a))
      ∙ ap (λ n. occurs p a.unavailable_pages + n)
          (occurs-select (intersects g ids) p (u.get_all_free_pages a))

  b-occurs : (p : ℕ) → occurs p (unowned u b) ≡ occurs p (unowned u a)
  b-occurs p = ground (
    arith,
    unowned-occurs u b p,
    unowned-occurs u a p,
    b-unavailable p,
    up.all_of b p,
    up.all_of a p,
    contained-exclude g ids (withdraw u g ids a) c.kind p,
    contained-withdraw u g ids a c.kind p,
  )

  b-retiring : (p : ℕ) → elem p b.retiring_pages ≡ (elem p (unowned u a) && intersects g ids p)
  b-retiring p =
      ap (elem p) (exclude-retiring g ids (withdraw u g ids a) c.kind)
      ∙ elem-select (intersects g ids) p (unowned u a)

  b-withheld : (p : ℕ) → elem p b.retiring_pages ≡ true → elem p b.unavailable_pages ≡ true
  b-withheld p e = ground (
    arith,
    b-retiring p,
    b-unavailable p,
    unowned-occurs u a p,
    elem-count p (unowned u a),
    elem-count p b.unavailable_pages,
  )

  begun-IsServed :
      (pending : List ℕ)
      → IsServed u c pending
      → ((x : ℕ) → elem x ids ≡ true → IsUnowned g (unowned u a) x)
      → IsServed u (record c { allocator = b }) ids
  begun-IsServed pending h empty = record {
    layout = h.layout;
    fits = h.fits;
    free_set = IsFreeSet-same g (unowned u a) (unowned u b) b-occurs h.free_set;
    resident = λ page usable open_. h.resident page usable (still page open_);
    withheld = b-withheld;
    withdrawn = λ page x usable touch asked.
        b-retiring page
        ∙ both (empty x asked page usable touch)
            (Touches-intersects g h.layout.sized ids page x touch asked);
  }
    where
      still :
          (page : ℕ) → elem page b.unavailable_pages ≡ false → elem page a.unavailable_pages ≡ false
      still page e = ground (
        arith,
        b-unavailable page,
        elem-count page b.unavailable_pages,
        elem-count page a.unavailable_pages,
      )

      both : {x y : Bool} → x ≡ true → y ≡ true → x && y ≡ true
      both x y = rw (x, y) refl

  pub begin_retirement-cases :
      (begin_retirement u c.kind g ids a ≡ (err runtime_error, a))
      ⊎ (begin_retirement u c.kind g ids a ≡ (ok tt, b))
  unfolding begin_retirement
  begin_retirement-cases = elim (Bool-cases (is_empty a.retiring_pages)) [
    | inr busy ↦ inl (rw busy refl)
    | inl idle ↦ inr (rw idle refl)
  ]

  -- A retirement of bundles that were found empty succeeds or changes nothing, and keeps the component
  -- served: the pages that it retires are then those of its bundles.
  pub begin_retirement-IsServed :
      (pending : List ℕ)
      → IsServed u c pending
      → ((x : ℕ)
          → elem x ids ≡ true
          → elem x (empty_bundles c.layout c.bundles (free_of u c)) ≡ true)
      → (begin_retirement u c.kind g ids a).0 ≡ ok tt
      → IsServed u (record c { allocator = (begin_retirement u c.kind g ids a).1 }) ids
  unfolding begin_retirement
  begin_retirement-IsServed pending h chosen = elim (Bool-cases (is_empty a.retiring_pages)) [
    | inr busy ↦ rw busy (λ e. cc)
    | inl idle ↦ rw idle (λ _. begun-IsServed pending h (empty idle))
  ]
    where
      same :
          is_empty a.retiring_pages ≡ true
          → (p : ℕ) → occurs p (free_of u c) ≡ occurs p (unowned u a)
      same idle p =
          occurs-select (λ q. not (elem q a.retiring_pages)) p (unowned u a)
          ∙ rw (is_empty-elem p a.retiring_pages idle) refl

      empty :
          is_empty a.retiring_pages ≡ true
          → (x : ℕ) → elem x ids ≡ true
          → IsUnowned g (unowned u a) x
      empty idle x asked page usable touch =
          let found = chosen x asked in
          let fits = h.fits x (empty_bundles-held c.layout c.bundles (free_of u c) x found) in
          let free = IsFreeSet-same g (unowned u a) (free_of u c) (same idle) h.free_set in
          let (_, _, held) =
            (empty_bundles_iff c.layout h.layout c.bundles (free_of u c) x free fits).0 found in
          ground (
            arith,
            held page usable touch,
            elem-select (λ q. not (elem q a.retiring_pages)) page (unowned u a),
          )
