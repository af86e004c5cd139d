-- ===== src/Storage/Plans.antt =====
-- The plans of `ElasticPageAllocator.plan_pages` in src/xpool/integrations/sglang/ecs/allocator.py.
use cross_pool.Prelude.{
  ℕ, zero, suc, ◌+◌, ◌-◌, ◌≤◌, ◌<◌, ◌≡◌, ◌∙◌, refl, inl, inr, Bool, true, false, not, ◌&&◌, ◌||◌,
  none, some, List, [], ◌∷◌, ◌++◌, length, range_from, arith, leb, ltb, ◌==◌, nat_eq, Bool-cases,
  sym, ap, subst, leb→le, lt→ltb,
}
use cross_pool.Prelude.Dict.{keys}
use cross_pool.Prelude.Sets.{elem, select, take, count, elem-append, elem-select, elem-take}
use cross_pool.Storage.Geometry.{KvVmmLayout}
use cross_pool.Storage.Geometry.Span.{Touches, IsUsable}
use cross_pool.Storage.Geometry.Checked.{IsLayout, span_end-le}
use cross_pool.Storage.Pages.{Bundles, free_count}
use cross_pool.Storage.Pages.Cover.{IsResident, touches, free_count-eq}
use cross_pool.Storage.Allocator.{
  ElasticPageAllocator, Upstream, SglangPagePlan, insert_page, sort_pages, is_partial, by_partial,
  missing_ids, candidates, plan_missing, plan_pages,
}

some-injective {ℓ} : {A : Type ℓ} {x y : A} → some x ≡ some y → x ≡ y
some-injective e = cc

elem-insert_page : (x p : ℕ) (ps : List ℕ) → elem x (insert_page p ps) ≡ (p == x || elem x ps)
unfolding elem
elem-insert_page x p [] = refl
elem-insert_page x p (q ∷ qs) = ground (arith, elem-insert_page x p qs)

pub elem-sort_pages : (x : ℕ) (ps : List ℕ) → elem x (sort_pages ps) ≡ elem x ps
unfolding sort_pages elem
elem-sort_pages x [] = refl
elem-sort_pages x (p ∷ ps) =
    ground (arith, elem-insert_page x p (sort_pages ps), elem-sort_pages x ps)

length-insert_page : (p : ℕ) (ps : List ℕ) → length (insert_page p ps) ≡ suc (length ps)
length-insert_page p [] = refl
length-insert_page p (q ∷ qs) = ground (arith, length-insert_page p qs)

length-sort_pages : (ps : List ℕ) → length (sort_pages ps) ≡ length ps
unfolding sort_pages
length-sort_pages [] = refl
length-sort_pages (p ∷ ps) = length-insert_page p (sort_pages ps) ∙ ap suc (length-sort_pages ps)

length-append : (xs ys : List ℕ) → length (xs ++ ys) ≡ length xs + length ys
length-append [] ys = omega arith
length-append (x ∷ xs) ys = ground (arith, length-append xs ys)

length-take : (n : ℕ) (xs : List ℕ) → n ≤ length xs → length (take n xs) ≡ n
unfolding take
length-take zero xs le = refl
length-take (suc n) [] le = ground arith
length-take (suc n) (x ∷ xs) le = ap suc (length-take n xs (omega arith))

elem-range_from : (x low n : ℕ) → low ≤ x → x < low + n → elem x (range_from low n) ≡ true
unfolding elem
elem-range_from x low zero le lt = ground arith
elem-range_from x low (suc n) le lt = elim (Bool-cases (low == x)) [
  | inl at ↦ ground arith
  | inr past ↦ ground (arith, elem-range_from x (suc low) n (ground arith) (omega arith))
]

count_pos : (p : ℕ → Bool) (x : ℕ) (xs : List ℕ) → elem x xs ≡ true → p x ≡ true → 0 < count p xs
unfolding elem count
count_pos p x [] e fit = ground arith
count_pos p x (y ∷ ys) e fit = elim (Bool-cases (y == x)) [
  | inl same ↦ let at : y ≡ x = (nat_eq.beq_iff y x).0 same in rw (at, fit) (omega arith)
  | inr other ↦ let rest = count_pos p x ys (ground arith) fit in ground arith
]

length_split :
    (p : ℕ → Bool) (xs : List ℕ)
    → length (select p xs) + length (select (λ x. not (p x)) xs) ≡ length xs
unfolding select
length_split p [] = refl
length_split p (x ∷ xs) = ground (arith, length_split p xs)

elem_split :
    (p : ℕ → Bool) (x : ℕ) (xs : List ℕ)
    → elem x (select p xs ++ select (λ x. not (p x)) xs) ≡ true
    → elem x xs ≡ true
elem_split p x xs e = ground (
  arith,
  elem-append x (select p xs) (select (λ x. not (p x)) xs),
  elem-select p x xs,
  elem-select (λ x. not (p x)) x xs,
)

module _ (l : KvVmmLayout) (h : IsLayout l) (bundles : Bundles) where
  -- A bundle that a selected page touches is backed or missing.
  elem-missing_ids :
      (selected : List ℕ) (page b : ℕ)
      → elem page selected ≡ true
      → IsUsable l.geometry page
      → Touches l.geometry page b
      → elem b (keys bundles)
          || elem b (missing_ids l.geometry bundles l.profile.bundle_capacity selected)
        ≡ true
  unfolding touches free_count
  elem-missing_ids selected page b chosen usable touch =
      let within = (span_end-le l page h usable.1).0 in
      let pos =
        count_pos (touches l.geometry h.sized b) page selected chosen (ground (arith, touch)) in
      let parts = free_count-eq l.geometry h.sized selected b in
      let there =
        elem-range_from b 0 l.profile.bundle_capacity (omega arith)
          (omega (arith, touch, within)) in
      let counted : ltb 0 (free_count l.geometry selected b) ≡ true =
        lt→ltb 0 (free_count l.geometry selected b) (omega arith) in
      ground (
        arith,
        counted,
        there,
        elem-select (λ b. ltb 0 (free_count l.geometry selected b) && not (elem b (keys bundles))) b
            (range_from 0 l.profile.bundle_capacity),
      )

module _ (u : Upstream) (l : KvVmmLayout) (h : IsLayout l) (bundles : Bundles)
    (a : ElasticPageAllocator) where
  -- The pages that are taken beside all `resident` ones.
  abbrev chosen : List ℕ → ℕ → List ℕ
  chosen resident page_count =
      take (page_count - length resident)
        (by_partial l.geometry bundles (sort_pages (candidates u a)))

  chosen-candidates :
      (resident : List ℕ) (page_count page : ℕ)
      → elem page (chosen resident page_count) ≡ true
      → elem page a.unavailable_pages ≡ true
  chosen-candidates resident page_count page e =
      let listed = elem-take page (page_count - length resident) _ e in
      let sorted =
        elem_split (is_partial l.geometry bundles) page (sort_pages (candidates u a)) listed in
      ground (
        arith,
        sorted,
        elem-sort_pages page (candidates u a),
        elem-select (λ p. not (elem p a.retiring_pages)) page a.unavailable_pages,
      )

  chosen-length :
      (resident : List ℕ) (page_count : ℕ)
      → length resident ≤ page_count
      → page_count ≤ length resident + length (candidates u a)
      → length (resident ++ chosen resident page_count) ≡ page_count
  chosen-length resident page_count more enough =
      let listed =
        length-append (select (is_partial l.geometry bundles) (sort_pages (candidates u a)))
          (select (λ p. not (is_partial l.geometry bundles p)) (sort_pages (candidates u a))) in
      let split = length_split (is_partial l.geometry bundles) (sort_pages (candidates u a)) in
      let sorted = length-sort_pages (candidates u a) in
      let taken =
        length-take (page_count - length resident)
          (by_partial l.geometry bundles (sort_pages (candidates u a)))
          (omega (arith, listed, split, sorted, enough)) in
      omega (arith, length-append resident (chosen resident page_count), taken, more)

  -- A plan has the pages that it was asked for, and a bundle that one of them touches is backed.
  abbrev pub IsPlan : ℕ → SglangPagePlan → Type 0
  IsPlan page_count plan =
      (length plan.page_ids ≡ page_count)
      × ((page b : ℕ)
          → elem page plan.page_ids ≡ true
          → Touches l.geometry page b
          → elem b (keys bundles) || elem b plan.missing_bundle_ids ≡ true)

  -- On a layout that has passed its checks, where the pages that the engine can take are backed and the
  -- withheld ones are usable, a plan has exactly as many pages as it was asked for, and every bundle
  -- that one of them touches is backed or among those that the plan asks to map.
  pub plan_pages-eq-some :
      (page_count : ℕ) (plan : SglangPagePlan)
      → ((p : ℕ) → elem p (u.get_all_free_pages a) ≡ true → IsResident l.geometry bundles p)
      → ((p : ℕ) → elem p a.unavailable_pages ≡ true → IsUsable l.geometry p)
      → plan_pages u l bundles a page_count ≡ some plan
      → IsPlan page_count plan
  unfolding plan_pages
  plan_pages-eq-some page_count plan backed usable e =
      elim (Bool-cases (leb page_count (length resident))) [
        | inl few ↦ subst (IsPlan page_count) (some-injective (sym (few_plan few) ∙ e)) (
          length-take page_count resident (leb→le page_count (length resident) few),
          λ page b there touch.
              ap (λ x. x || elem b [])
                (backed page (elem-take page page_count resident there) b touch),
        )
        | inr more ↦
            elim (Bool-cases (ltb (length resident + length (candidates u a)) page_count)) [
              | inl scarce ↦ absurd (let none_ = no_plan more scarce in cc)
              | inr enough ↦
                  subst (IsPlan page_count) (some-injective (sym (missing_plan more enough) ∙ e)) (
                    chosen-length resident page_count (ground (arith, more))
                        (ground (arith, enough)),
                    covered,
                  )
            ]
      ]
    where
      resident : List ℕ
      resident = u.get_all_free_pages a

      few_plan :
          leb page_count (length resident) ≡ true
          → plan_pages u l bundles a page_count
            ≡ some (record { page_ids = take page_count resident; missing_bundle_ids = [] })
      few_plan few = rw few refl

      no_plan :
          leb page_count (length resident) ≡ false
          → ltb (length resident + length (candidates u a)) page_count ≡ true
          → plan_pages u l bundles a page_count ≡ none
      no_plan more scarce = rw (more, scarce) refl

      missing_plan :
          leb page_count (length resident) ≡ false
          → ltb (length resident + length (candidates u a)) page_count ≡ false
          → plan_pages u l bundles a page_count
            ≡ some (plan_missing u l bundles resident (chosen resident page_count))
      missing_plan more enough = rw (more, enough) refl

      covered :
          (page b : ℕ)
          → elem page (resident ++ chosen resident page_count) ≡ true
          → Touches l.geometry page b
          → elem b (keys bundles)
              || elem b (
                  missing_ids l.geometry bundles l.profile.bundle_capacity
                    (chosen resident page_count))
            ≡ true
      covered page b there touch = elim (Bool-cases (elem page resident)) [
        | inl held ↦ rw (backed page held b touch) refl
        | inr other ↦
            let picked : elem page (chosen resident page_count) ≡ true =
              ground
                (arith, there, other, elem-append page resident (chosen resident page_count)) in
            elem-missing_ids l h bundles (chosen resident page_count) page b picked
              (usable page (chosen-candidates resident page_count page picked)) touch
      ]
