-- ===== src/Pages/Find.antt =====
-- mm/mm.c: `find_continous_pages`.
use mirros.Base.{
  ℕ, zero, suc, ◌+◌, ◌-◌, ◌^◌, ◌≤◌, ◌<◌, ◌≡◌, ◌⊎◌, inl, inr, refl, ◌∙◌, ap, true, false, Option,
  some, arith, ◌==◌, leb, Bool-cases,
}
use mirros.Base.Int.{pos}
use mirros.Base.Words.{u32, sub32}
use mirros.Bitops.{Bitmap, read_bit}
use mirros.Bitops.Laws.{read_bit_cases}
use mirros.Pages.{Zone}
use mirros.Pages.Alloc.{find_loop, find_continous_pages}

-- The bit map range of a zone, and a position in it that is not its end.
pub record IsBounded (zone : Zone) : Type 0 where
  pub above : zone.bm_start ≤ zone.bm_current
  pub below : zone.bm_current < zone.bm_end
  pub fits : zone.bm_end < 2 ^ 32 - 1

-- The search for one page from `first` to `last`: a page of that range that is free, or 0 and no
-- page of it is free.
abbrev pub OneOf : Bitmap → ℕ → ℕ → Option ℕ → Type 0
OneOf map first last r =
    ((j : ℕ) × (r ≡ some j) × (first ≤ j) × (j ≤ last) × (read_bit map j ≡ pos 0))
    ⊎ ((r ≡ some 0) × ((j : ℕ) → first ≤ j → j ≤ last → read_bit map j ≡ pos 1))

module _ (map : Bitmap) (zone : Zone) (b : IsBounded zone) where
  -- After the wrap-around.
  second_part :
      (k i : ℕ)
      → i ≤ zone.bm_current
      → zone.bm_current < i + k
      → OneOf map i zone.bm_current (find_loop k map zone 1 i true 0)
  unfolding find_loop
  second_part zero i h f = absurd (omega arith)
  second_part (suc k) i h f =
      let inside : (i == zone.bm_end) ≡ false = ground (arith, b.below) in
      elim (read_bit_cases map i) [
        | inl e ↦ inl (i, rw e (ap some (omega (arith, b.below, b.fits))), omega arith, h, e)
        | inr e ↦ elim (Bool-cases (i == zone.bm_current)) [
          | inl last ↦
              inr (rw (e, inside, last) refl, λ j p q. ap (read_bit map) (ground arith) ∙ e)
          | inr more ↦
              let next : u32 (i + 1) ≡ i + 1 = omega (arith, h, b.below, b.fits) in
              elim (second_part k (i + 1) (ground arith) (omega arith)) [
                | inl (j, found, p, q, free) ↦
                    inl (j, rw (e, inside, more, next) found, omega arith, q, free)
                | inr (found, used) ↦ inr (
                  rw (e, inside, more, next) found,
                  λ j p q. elim (Bool-cases (i == j)) [
                    | inl same ↦ ap (read_bit map) (ground arith) ∙ e
                    | inr other ↦ used j (ground arith) q
                  ],
                )
              ]
        ]
      ]

  -- Before the wrap-around: what is used is the range from `i` on and the second part.
  first_part :
      (k i : ℕ)
      → zone.bm_current ≤ i
      → i ≤ zone.bm_end
      → zone.bm_end + zone.bm_current + 1 < i + zone.bm_start + k
      → ((j : ℕ) × (find_loop k map zone 1 i false 0 ≡ some j)
          × (zone.bm_start ≤ j)
          × (j ≤ zone.bm_end)
          × (read_bit map j ≡ pos 0))
        ⊎ ((find_loop k map zone 1 i false 0 ≡ some 0)
            × ((j : ℕ) → i ≤ j → j ≤ zone.bm_end → read_bit map j ≡ pos 1)
            × ((j : ℕ) → zone.bm_start ≤ j → j ≤ zone.bm_current → read_bit map j ≡ pos 1))
  unfolding find_loop
  first_part zero i g h f = absurd (omega (arith, b.above, b.below))
  first_part (suc k) i g h f = elim (read_bit_cases map i) [
    | inl e ↦ inl (i, rw e (ap some (omega (arith, h, b.fits))), omega (arith, b.above, g), h, e)
    | inr e ↦ elim (Bool-cases (i == zone.bm_end)) [
      | inl last ↦
          let turn : (sub32 zone.bm_start 1 == zone.bm_current) ≡ false =
            ground (arith, b.above, b.below, b.fits) in
          let next : u32 (sub32 zone.bm_start 1 + 1) ≡ zone.bm_start =
            omega (arith, b.above, b.below, b.fits) in
          elim (second_part k zone.bm_start b.above (ground (arith, b.below))) [
            | inl (j, found, p, q, free) ↦
                inl (j, rw (e, last, turn, next) found, p, omega (arith, q, b.below), free)
            | inr (found, used) ↦ inr (
              rw (e, last, turn, next) found,
              λ j p q. ap (read_bit map) (ground arith) ∙ e,
              used,
            )
          ]
      | inr more ↦
          let next : u32 (i + 1) ≡ i + 1 = omega (arith, h, b.fits) in
          elim (first_part k (i + 1) (omega arith) (ground arith) (omega arith)) [
            | inl (j, found, p, q, free) ↦ inl (j, rw (e, more, next) found, p, q, free)
            | inr (found, used, used') ↦ inr (
              rw (e, more, next) found,
              λ j p q. elim (Bool-cases (i == j)) [
                | inl same ↦ ap (read_bit map) (ground arith) ∙ e
                | inr other ↦ used j (ground arith) q
              ],
              used',
            )
          ]
    ]
  ]

  -- The search for one page ends, with two rounds more than the zone has pages, when its position
  -- is in the zone and not at its last page: it finds a page of the zone that is free, or gives 0
  -- when none is.
  pub find_continous_pages_one :
      (fuel : ℕ)
      → zone.bm_end - zone.bm_start + 2 ≤ fuel
      → OneOf map zone.bm_start zone.bm_end (find_continous_pages fuel map zone 1)
  unfolding find_continous_pages
  find_continous_pages_one fuel f =
      elim (first_part fuel zone.bm_current (omega arith) (omega (arith, b.below))
        (omega (arith, b.above, b.below))) [
          | inl (j, found, p, q, free) ↦ inl (j, found, p, q, free)
          | inr (found, used, used') ↦ inr (
            found,
            λ j p q. elim (Bool-cases (leb j zone.bm_current)) [
              | inl low ↦ used' j p (ground arith)
              | inr high ↦ used j (ground arith) q
            ],
          )
        ]

-- A page that is used does not start the count anew: with a free page, a used one and a free one
-- from the position on, the search for two pages gives the used page and the one behind it.
pub find_continous_pages-used :
    (map : Bitmap) (zone : Zone) (fuel : ℕ)
    → zone.bm_current + 1 < zone.bm_end
    → zone.bm_end < 2 ^ 32 - 1
    → read_bit map zone.bm_current ≡ pos 0
    → read_bit map (zone.bm_current + 1) ≡ pos 1
    → read_bit map (zone.bm_current + 2) ≡ pos 0
    → find_continous_pages (suc (suc (suc fuel))) map zone 2 ≡ some (zone.bm_current + 1)
unfolding find_continous_pages
find_continous_pages-used map zone fuel inside fits first second third =
    let c = zone.bm_current in
    let within : (c == zone.bm_end) ≡ false = ground arith in
    let within' : (c + 1 == zone.bm_end) ≡ false = ground arith in
    let next : u32 (c + 1) ≡ c + 1 = omega arith in
    let next' : u32 (c + 1 + 1) ≡ c + 2 = omega arith in
    rw (first, within, next, second, within', next', third) (ap some (omega arith))
