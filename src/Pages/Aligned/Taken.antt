-- ===== src/Pages/Aligned/Taken.antt =====
-- mm/mm.c: the page that `get_free_page_aligin` gives.
use Prim.Native.Nat.{bit_and}
use mirros.Base.{
  ℕ, zero, suc, ◌+◌, ◌-◌, ◌*◌, ◌%◌, ◌^◌, ◌≤◌, ◌<◌, ◌≡◌, ◌⊎◌, inl, inr, refl, ◌∙◌, ap, true, false,
  none, some, List, [], ◌∷◌, arith, ◌==◌, ltb, leb, if◌then◌else◌, Bool-cases, eq→==,
}
use mirros.Base.Int.{pos}
use mirros.Base.Masks.{bit_and-ones}
use mirros.Base.Words.{size_1m, u32, sub32, ◌>>◌}
use mirros.Bitops.{read_bit}
use mirros.Bitops.Laws.{read_bit_cases}
use mirros.Pages.{Section, Mm, va_to_page_id, page_id_to_va}
use mirros.Pages.Alloc.{zone_id, init_pages, init_from, init_page}
use mirros.Pages.Bits.{update_memory_bitmap_lem}
use mirros.Pages.Aligned.{find_in_section, find_aligned, take_aligned, get_free_page_aligin}

-- A section starts at a megabyte, not below the kernel, and ends below the end of the addresses.
pub record IsSection (mm : Mm) (s : Section) : Type 0 where
  pub start : s.vir_start % 2 ^ 20 ≡ 0
  pub above : mm.kernel_start ≤ s.vir_start
  pub fits : s.vir_start + s.size + 2 ^ 20 ≤ 2 ^ 32

abbrev pub AllSections : Mm → List Section → Type 0
AllSections mm [] = Unit
AllSections mm (s ∷ sections) = IsSection mm s × AllSections mm sections

further : (j t : ℕ) → j % 2 ^ 20 ≡ 0 → j ≤ t → t % 2 ^ 20 ≡ 0 → (j == t) ≡ false → j + size_1m ≤ t
further j t m lo z other = let ne : j < t = ground arith in omega arith

module _ (mm : Mm) (offset : ℕ) where
  -- The page at the offset in the megabyte of an address.
  abbrev pub slot : ℕ → ℕ
  unfolding va_to_page_id
  slot j = u32 (va_to_page_id mm j + offset)

  -- The page at the offset in one of the megabytes from `start` to `end`, with its address.
  abbrev pub Between : ℕ → ℕ → ℕ → Type 0
  Between start end id =
      (t : ℕ) × (start ≤ t)
      × (t < end)
      × (t % 2 ^ 20 ≡ 0)
      × (id ≡ slot t)
      × (page_id_to_va mm id ≡ t + offset * 2 ^ 12)

  -- The same of one of the sections.
  abbrev pub InSections : List Section → ℕ → Type 0
  InSections [] id = ⊥
  InSections (s ∷ sections) id =
      Between s.vir_start (s.vir_start + s.size) id ⊎ InSections sections id

  -- Every page at the offset from `j` to `end` is used.
  abbrev pub AllUsed : ℕ → ℕ → Type 0
  AllUsed j end = (t : ℕ) → j ≤ t → t < end → t % 2 ^ 20 ≡ 0 → read_bit mm.page_map (slot t) ≡ pos 1

  -- Every page at the offset in the sections is used.
  abbrev pub NoneFree : List Section → Type 0
  NoneFree [] = Unit
  NoneFree (s ∷ sections) = AllUsed s.vir_start (s.vir_start + s.size) × NoneFree sections

module _ (mm : Mm) (k : mm.kernel_start % 2 ^ 20 ≡ 0) (offset : ℕ) (small : offset < 256) where
  address :
      (j : ℕ)
      → j % 2 ^ 20 ≡ 0
      → mm.kernel_start ≤ j
      → j + 2 ^ 20 ≤ 2 ^ 32
      → page_id_to_va mm (u32 (va_to_page_id mm j + offset)) ≡ j + offset * 2 ^ 12
  unfolding page_id_to_va va_to_page_id
  address j m a f = omega arith

  find_in_section-Aligned :
      (fuel end j : ℕ)
      → j % 2 ^ 20 ≡ 0
      → mm.kernel_start ≤ j
      → end + 2 ^ 20 ≤ 2 ^ 32
      → j < end + 2 ^ 20
      → end + 2 ^ 20 ≤ j + fuel * 2 ^ 20
      → ((find_in_section fuel mm offset end j ≡ some none) × AllUsed mm offset j end)
        ⊎ ((id : ℕ) × (find_in_section fuel mm offset end j ≡ some (some id))
            × (read_bit mm.page_map id ≡ pos 0)
            × Between mm offset j end id)
  unfolding find_in_section slot
  find_in_section-Aligned zero end j m a f near enough = absurd (omega arith)
  find_in_section-Aligned (suc n) end j m a f near enough = elim (Bool-cases (ltb j end)) [
    | inr e ↦ inl (rw e, λ t lo hi z. absurd (ground arith))
    | inl e ↦ elim (read_bit_cases mm.page_map (slot mm offset j)) [
      | inl free ↦ inr (
        slot mm offset j,
        rw (e, free),
        free,
        (j, omega arith, ground arith, m, refl, address j m a (ground arith)),
      )
      | inr used ↦
          let lt : j < end = ground arith in
          let next : u32 (j + size_1m) ≡ j + size_1m = omega arith in
          elim (find_in_section-Aligned n end (j + size_1m) (omega arith) (omega arith) f
            (omega arith) (omega arith)) [
              | inl (found, rest) ↦ inl (
                rw (e, used, next) found,
                λ t lo hi z. elim (Bool-cases (j == t)) [
                  | inl same ↦
                      ap (λ q. read_bit mm.page_map (slot mm offset q)) (ground arith) ∙ used
                  | inr other ↦ rest t (further j t m lo z other) hi z
                ],
              )
              | inr (id, found, free, (t, lo, hi, z, is, at)) ↦
                  inr (id, rw (e, used, next) found, free, (t, omega (arith, lo), hi, z, is, at))
            ]
    ]
  ]

  find_aligned-Aligned :
      (fuel : ℕ) (sections : List Section)
      → 4096 ≤ fuel
      → AllSections mm sections
      → ((find_aligned fuel mm offset sections ≡ some 0) × NoneFree mm offset sections)
        ⊎ ((id : ℕ) × (find_aligned fuel mm offset sections ≡ some id)
            × (read_bit mm.page_map id ≡ pos 0)
            × InSections mm offset sections id)
  unfolding find_aligned
  find_aligned-Aligned fuel [] enough all = inl (refl, tt)
  find_aligned-Aligned fuel (s ∷ sections) enough all =
      let end : u32 (s.vir_start + s.size) ≡ s.vir_start + s.size = omega (arith, all.0.fits) in
      elim (find_in_section-Aligned fuel (s.vir_start + s.size) s.vir_start all.0.start all.0.above
        all.0.fits (omega arith) (omega (arith, all.0.fits, enough))) [
          | inr (id, found, free, here) ↦ inr (id, rw (find_aligned, end, found), free, inl here)
          | inl (found, used) ↦ elim (find_aligned-Aligned fuel sections enough all.1) [
            | inl (none_found, rest) ↦ inl (rw (find_aligned, end, found, none_found), (used, rest))
            | inr (id, found', free, there) ↦
                inr (id, rw (find_aligned, end, found, found'), free, inr there)
          ]
        ]

-- The state after page `id` was given out.
pub record Taken (mm : Mm) (flag id : ℕ) (mm' : Mm) : Type 0 where
  pub map : (n : ℕ) → read_bit mm'.page_map n ≡ (if id == n then pos 1 else read_bit mm.page_map n)
  pub count : (mm'.zone (zone_id flag)).free_pages ≡ sub32 (mm.zone (zone_id flag)).free_pages 1
  pub size : (mm'.zone (zone_id flag)).free_size ≡ sub32 (mm.zone (zone_id flag)).free_size 4096

take_aligned-Taken :
    (mm : Mm) (id flag : ℕ) → Taken mm flag id (take_aligned mm id flag (zone_id flag)).0
unfolding take_aligned init_pages init_from init_page
take_aligned-Taken mm id flag =
    let same : (zone_id flag == zone_id flag) ≡ true = eq→== (zone_id flag) (zone_id flag) refl in
    record {
      map = λ n. ground (arith, update_memory_bitmap_lem mm.page_map id 1 true n);
      count = rw same;
      size = rw same;
    }

take_aligned-address :
    (mm : Mm) (id flag : ℕ) → (take_aligned mm id flag (zone_id flag)).1 ≡ page_id_to_va mm id
unfolding take_aligned page_id_to_va
take_aligned-address mm id flag = refl

-- The offset that the mask and the shift take from an address.
abbrev pub offset_of : ℕ → ℕ
offset_of aligin = bit_and aligin 1048575 >> 12

offset_of_lem :
    (aligin : ℕ)
    → (offset_of aligin < 256) × (offset_of aligin * 2 ^ 12 ≡ aligin % 2 ^ 20 - aligin % 2 ^ 12)
offset_of_lem aligin = let m = bit_and-ones 20 aligin in (omega (arith, m), omega (arith, m))

-- `get_free_page_aligin` ends, with 4096 rounds for a section. It gives NULL and changes nothing,
-- and then every page at the offset in the megabytes of the zone is used, or page 0 is
-- free; or it gives the address of a page that was free, which is the start of a megabyte within a
-- section of the zone plus the bits 12 to 19 of `aligin`: that page is then used, as every other
-- page is as before, and the zone counts one page less. The kernel and the sections of the zone start at a megabyte.
pub get_free_page_aligin-Taken :
    (fuel : ℕ) (mm : Mm) (aligin flag : ℕ)
    → mm.kernel_start % 2 ^ 20 ≡ 0
    → zone_id flag < 4
    → 4096 ≤ fuel
    → AllSections mm (mm.zone (zone_id flag)).sections
    → ((get_free_page_aligin fuel mm aligin flag ≡ some (mm, 0))
        × (NoneFree mm (offset_of aligin) (mm.zone (zone_id flag)).sections
            ⊎ (read_bit mm.page_map 0 ≡ pos 0)))
      ⊎ ((id : ℕ) × (mm' : Mm) × (get_free_page_aligin fuel mm aligin flag
            ≡ some (mm', page_id_to_va mm id))
          × (offset_of aligin * 2 ^ 12 ≡ aligin % 2 ^ 20 - aligin % 2 ^ 12)
          × InSections mm (offset_of aligin) (mm.zone (zone_id flag)).sections id
          × (read_bit mm.page_map id ≡ pos 0)
          × Taken mm flag id mm')
unfolding get_free_page_aligin
get_free_page_aligin-Taken fuel mm aligin flag k z enough all =
    let in_bank : leb 4 (zone_id flag) ≡ false = ground arith in
    let (small, bits) = offset_of_lem aligin in
    elim (find_aligned-Aligned mm k (offset_of aligin) small fuel (mm.zone (zone_id flag)).sections
      enough all) [
        | inl (found, used) ↦ inl (rw (in_bank, found), inl used)
        | inr (id, found, free, place) ↦ elim (Bool-cases (id == 0)) [
          | inl e ↦
              inl (rw (in_bank, found, e), inr (ap (read_bit mm.page_map) (ground arith) ∙ free))
          | inr e ↦ inr (
            id,
            (take_aligned mm id flag (zone_id flag)).0,
            rw (in_bank, found, e)
                (ap some (
                  ap (λ va. ((take_aligned mm id flag (zone_id flag)).0, va))
                    (take_aligned-address mm id flag))),
            bits,
            place,
            free,
            take_aligned-Taken mm id flag,
          )
        ]
      ]
