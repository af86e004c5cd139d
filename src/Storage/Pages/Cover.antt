-- ===== src/Storage/Pages/Cover.antt =====
-- The page computations against their meaning: which bundles a page needs, and which pages a bundle
-- holds.
use cross_pool.Prelude.{
  ℕ, zero, suc, ◌+◌, ◌≤◌, ◌<◌, ◌≡◌, ◌↔◌, refl, inl, inr, Bool, true, false, not, ◌&&◌, List, [],
  ◌∷◌, arith, leb, ltb, ◌==◌, nat_eq, Bool-cases,
}
use cross_pool.Prelude.Dict.{keys}
use cross_pool.Prelude.Sets.{elem, count}
use cross_pool.Storage.Geometry.{Geometry, span_start, span_end}
use cross_pool.Storage.Geometry.Span.{IsSized, Touches, span_start-lt-span_end}
use cross_pool.Storage.Pages.{Bundles, prefix, missing_bundle_count, intersects}

-- Every bundle that the page touches is backed.
abbrev pub IsResident : Geometry → Bundles → ℕ → Type 0
IsResident g bundles page = (b : ℕ) → Touches g page b → elem b (keys bundles) ≡ true

module _ (p : ℕ → Bool) where
  prefix_mono : (low high : ℕ) → low ≤ high → prefix p low ≤ prefix p high
  unfolding prefix
  prefix_mono low zero h = let e : low ≡ 0 = omega arith in rw e (omega arith)
  prefix_mono low (suc high) h = elim (Bool-cases (leb low high)) [
    | inl below ↦ ground (arith, prefix_mono low high)
    | inr top ↦ let e : low ≡ suc high = ground arith in rw e (omega arith)
  ]

  -- Two sums are equal when nothing between their ends passes the test.
  prefix-none :
      (low high : ℕ)
      → low ≤ high
      → ((b : ℕ) → low ≤ b → b < high → p b ≡ false)
      → prefix p high ≡ prefix p low
  unfolding prefix
  prefix-none low zero le h = let e : low ≡ 0 = omega arith in rw e refl
  prefix-none low (suc high) le h = elim (Bool-cases (leb low high)) [
    | inl below ↦
        rw (h high (ground arith) (omega arith))
          (prefix-none low high (ground arith) (λ b x y. h b x (omega (arith, y))))
    | inr top ↦ let e : low ≡ suc high = ground arith in rw e refl
  ]

  none-prefix :
      (low high : ℕ) → prefix p high ≡ prefix p low → (b : ℕ) → low ≤ b → b < high → p b ≡ false
  unfolding prefix
  none-prefix low zero h b x y = absurd (omega arith)
  none-prefix low (suc high) h b x y = elim (Bool-cases (p high)) [
    | inl hit ↦ absurd (let m = prefix_mono low high (omega arith) in ground arith)
    | inr miss ↦ elim (Bool-cases (b == high)) [
      | inl last ↦ let e : b ≡ high = ground arith in rw e miss
      | inr earlier ↦ none-prefix low high (ground arith) b x (ground arith)
    ]
  ]

module _ (g : Geometry) (s : IsSized g) where
  -- For a geometry of positive sizes with a usable page, a page misses no bundle exactly when every
  -- bundle that it touches is backed.
  pub missing_bundle_count_iff :
      (bundles : Bundles) (page : ℕ)
      → (missing_bundle_count g bundles page ≡ 0) ↔ IsResident g bundles page
  unfolding missing_bundle_count
  missing_bundle_count_iff bundles page = (
    λ e b h.
        let q =
          none-prefix missing (span_start g page) (span_end g page) (omega (arith, e, mono)) b h.0
            h.1 in
        ground arith,
    λ h. omega (
      arith,
      prefix-none missing (span_start g page) (span_end g page) le
          (λ b x y. let q = h b (x, y) in ground arith),
    ),
  )
    where
      missing : ℕ → Bool
      missing b = not (elem b (keys bundles))

      le : span_start g page ≤ span_end g page
      le = omega (arith, span_start-lt-span_end g s page)

      mono : prefix missing (span_start g page) ≤ prefix missing (span_end g page)
      mono = prefix_mono missing (span_start g page) (span_end g page) le

  -- A page that intersects none of the given bundles touches none.
  pub not-intersects :
      (bundles : List ℕ) (page b : ℕ)
      → intersects g bundles page ≡ false
      → Touches g page b
      → elem b bundles ≡ false
  unfolding intersects
  not-intersects bundles page b e h =
      none-prefix (λ b. elem b bundles) (span_start g page) (span_end g page) (ground arith) b h.0
        h.1

  pub Touches-intersects :
      (bundles : List ℕ) (page b : ℕ)
      → Touches g page b
      → elem b bundles ≡ true
      → intersects g bundles page ≡ true
  Touches-intersects bundles page b h held = elim (Bool-cases (intersects g bundles page)) [
    | inl yes_ ↦ yes_
    | inr no_ ↦ let e = not-intersects bundles page b no_ h in cc
  ]

  -- The pages that start up to a bundle, less those that end up to it, are those that touch it.
  unfoldable pub touches : ℕ → ℕ → Bool
  touches b page = leb (span_start g page) b && ltb b (span_end g page)

  pub free_count-eq :
      (pages : List ℕ) (b : ℕ)
      → count (λ p. leb (span_start g p) b) pages
        ≡ count (touches b) pages + count (λ p. leb (span_end g p) b) pages
  unfolding count touches
  free_count-eq [] b = omega arith
  free_count-eq (p ∷ ps) b = ground (arith, span_start-lt-span_end g s p, free_count-eq ps b)
