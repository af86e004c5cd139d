-- ===== src/Storage/Pages/Empty.antt =====
-- The bundles that may be retired: `KvVmmBacking.empty_bundles` against its meaning.
use cross_pool.Prelude.{
  ℕ, ◌+◌, ◌-◌, ◌*◌, ◌/◌, ◌≤◌, ◌<◌, ◌≡◌, ◌↔◌, refl, Bool, true, ◌&&◌, List, arith, min, leb, ◌==◌,
  nat_eq, sym, ap, ◌∙◌, and_true, leb→le, le→leb,
}
use cross_pool.Prelude.Dict.{keys}
use native.Mathlib.Nat.{add-mul, mul-le-mul_right}
use cross_pool.Prelude.Sets.{
  elem, elem-count, occurs, select, count, elem-select, IsUnique, within, full-elem,
  count_within-full, count-ext_elem,
}
use cross_pool.Storage.Division.{up_div, lt-up_div, div-lt, le-div, div-le-up_div}
use cross_pool.Storage.Geometry.{
  Geometry, KvVmmLayout, rows, row_bytes, first_page, end_page, past_page,
}
use cross_pool.Storage.Geometry.Span.{Touches, IsUsable, pages_iff}
use cross_pool.Storage.Geometry.Checked.{IsLayout}
use cross_pool.Storage.Pages.{Bundles, free_count, empty_bundles}
use cross_pool.Storage.Pages.Cover.{touches, free_count-eq}

-- The free pages that the allocator may hand out: each once.
pub record IsFreeSet (g : Geometry) (free : List ℕ) : Type 0 where
  pub unique : IsUnique free
  pub usable : (page : ℕ) → elem page free ≡ true → IsUsable g page

-- Lists with the same numbers as often are free sets alike.
pub IsFreeSet-same :
    (g : Geometry) (xs ys : List ℕ)
    → ((x : ℕ) → occurs x ys ≡ occurs x xs)
    → IsFreeSet g xs
    → IsFreeSet g ys
IsFreeSet-same g xs ys same h = record {
  unique = λ x. rw (same x) (h.unique x);
  usable = λ x e. h.usable x ((elem-count x xs).1 (rw (same x) at ((elem-count x ys).0 e)));
}

-- A bundle that nothing but free pages touches.
abbrev pub IsUnowned : Geometry → List ℕ → ℕ → Type 0
IsUnowned g free b = (page : ℕ) → IsUsable g page → Touches g page b → elem page free ≡ true

module _ (l : KvVmmLayout) (h : IsLayout l) where
  abbrev g : Geometry
  g = l.geometry

  count_touching :
      (free : List ℕ) (b : ℕ)
      → IsFreeSet g free
      → free_count g free b ≡ count (within (first_page g b) (end_page g b)) free
  unfolding free_count touches
  count_touching free b f =
      omega (arith, free_count-eq g h.sized free b)
      ∙ count-ext_elem (touches g h.sized b) (within (first_page g b) (end_page g b)) free
          (λ p e. let (there, back) = pages_iff g h.sized p b (f.usable p e) in ground arith)

  first_page-le-end_page : (b : ℕ) → b < l.profile.bundle_capacity → first_page g b ≤ end_page g b
  unfolding first_page end_page
  first_page-le-end_page b fits = omega (
    arith,
    div-le-up_div (start_row * g.tokens_per_row) (end_row * g.tokens_per_row) g.token_page_size
        h.sized.page_pos (mul-le-mul_right g.tokens_per_row rows_le),
  )
    where
      start_row : ℕ
      start_row = b * g.mapping_granularity_bytes / row_bytes g

      end_row : ℕ
      end_row = min (up_div ((b + 1) * g.mapping_granularity_bytes) (row_bytes g)) (rows g)

      low : start_row * row_bytes g ≤ b * g.mapping_granularity_bytes
      low =
          (le-div start_row (b * g.mapping_granularity_bytes) (row_bytes g) h.sized.bytes_pos).0
            (omega arith)

      within_rows : start_row < rows g
      within_rows =
          (div-lt (b * g.mapping_granularity_bytes) (rows g) (row_bytes g) h.sized.bytes_pos).1 (
            (lt-up_div b (rows g * row_bytes g) g.mapping_granularity_bytes
                h.sized.granularity_pos).0
              (omega (arith, fits, h.capacity)))

      within_bundle : start_row < up_div ((b + 1) * g.mapping_granularity_bytes) (row_bytes g)
      within_bundle =
          (lt-up_div start_row ((b + 1) * g.mapping_granularity_bytes) (row_bytes g)
              h.sized.bytes_pos).1
            (omega (arith, low, add-mul b 1 g.mapping_granularity_bytes, h.sized.granularity_pos))

      rows_le : start_row ≤ end_row
      rows_le = omega (arith, within_rows, within_bundle)

  interval-IsUsable : (page b : ℕ) → first_page g b ≤ page → page < end_page g b → IsUsable g page
  unfolding first_page end_page past_page
  interval-IsUsable page b low high = (omega arith, omega arith)

  -- On a layout that has passed its checks, with free pages that are usable and each listed once, a
  -- bundle within the capacity is found empty exactly when it is backed, above the floor, and every
  -- usable page that touches it is among the free ones.
  pub empty_bundles_iff :
      (bundles : Bundles) (free : List ℕ) (b : ℕ)
      → IsFreeSet g free
      → b < l.profile.bundle_capacity
      → (elem b (empty_bundles l bundles free) ≡ true)
        ↔ ((elem b (keys bundles) ≡ true) × (l.profile.floor_bundles ≤ b) × IsUnowned g free b)
  unfolding empty_bundles
  empty_bundles_iff bundles free b f fits = (there, back)
    where
      full : Bool
      full = free_count g free b + first_page g b == end_page g b

      found :
          elem b (empty_bundles l bundles free)
          ≡ (elem b (keys bundles) && leb l.profile.floor_bundles b) && full
      found =
          elem-select (λ b. free_count g free b + first_page g b == end_page g b) b
            (select (leb l.profile.floor_bundles) (keys bundles))
          ∙ ap (λ x. x && full) (elem-select (leb l.profile.floor_bundles) b (keys bundles))

      le : first_page g b ≤ end_page g b
      le = first_page-le-end_page b fits

      range : first_page g b + (end_page g b - first_page g b) ≡ end_page g b
      range = omega (arith, le)

      n : ℕ
      n = end_page g b - first_page g b

      counted : count (within (first_page g b) (first_page g b + n)) free ≡ free_count g free b
      counted =
          ap (λ x. count (within (first_page g b) x) free) range ∙ sym (count_touching free b f)

      there :
          elem b (empty_bundles l bundles free) ≡ true
          → (elem b (keys bundles) ≡ true) × (l.profile.floor_bundles ≤ b) × IsUnowned g free b
      there e =
          let (chosen, exact) =
            and_true (elem b (keys bundles) && leb l.profile.floor_bundles b) full
              (sym found ∙ e) in
          let (held, above) =
            and_true (elem b (keys bundles)) (leb l.profile.floor_bundles b) chosen in
          let same =
            (nat_eq.beq_iff (free_count g free b + first_page g b) (end_page g b)).0 exact in
          (
            held,
            leb→le l.profile.floor_bundles b above,
            λ page usable touch.
                let (low, high) = (pages_iff g h.sized page b usable).1 touch in
                full-elem free f.unique (first_page g b) n (omega (arith, counted, same)) page low
                  (omega (arith, high, range)),
          )

      back :
          (elem b (keys bundles) ≡ true) × (l.profile.floor_bundles ≤ b) × IsUnowned g free b
          → elem b (empty_bundles l bundles free) ≡ true
      back (held, above, unowned) =
          let filled = count_within-full free f.unique (first_page g b) n covered_by_length in
          let exact =
            (nat_eq.beq_iff (free_count g free b + first_page g b) (end_page g b)).1
              (omega (arith, counted, filled, range)) in
          found ∙ both held (le→leb l.profile.floor_bundles b above) exact
        where
          covered : (page : ℕ) → first_page g b ≤ page → page < end_page g b → elem page free ≡ true
          covered page low high =
              let usable = interval-IsUsable page b low high in
              unowned page usable ((pages_iff g h.sized page b usable).0 (low, high))

          covered_by_length :
              (page : ℕ) → first_page g b ≤ page → page < first_page g b + n → elem page free ≡ true
          covered_by_length page low high = covered page low (omega (arith, high, range))

          both : {x y z : Bool} → x ≡ true → y ≡ true → z ≡ true → (x && y) && z ≡ true
          both a b c = rw (a, b, c) refl

pub empty_bundles-held :
    (l : KvVmmLayout) (bundles : Bundles) (free : List ℕ) (b : ℕ)
    → elem b (empty_bundles l bundles free) ≡ true
    → elem b (keys bundles) ≡ true
unfolding empty_bundles
empty_bundles-held l bundles free b e = ground (
  arith,
  elem-select (λ b. free_count l.geometry free b + first_page l.geometry b == end_page l.geometry b)
      b (select (leb l.profile.floor_bundles) (keys bundles)),
  elem-select (leb l.profile.floor_bundles) b (keys bundles),
)
