-- ===== src/Pages/Words.antt =====
-- mm/mm.c: page ids and addresses, and the masks of flags and addresses.
use Prim.Native.Nat.{bit_and, bit_or}
use mirros.Base.{ℕ, ◌+◌, ◌/◌, ◌%◌, ◌^◌, ◌<◌, ◌≡◌, ◌∙◌, true, false, arith, ◌==◌}
use mirros.Base.Bits.{bit_or-halves, bit_and-two_pow, digit-bit_or, digit-le-one}
use mirros.Base.Masks.{bit_and-ones}
use mirros.Base.Words.{u32, ◌<<◌}
use mirros.Pages.{Mm, va_to_page_id, page_id_to_va}
use mirros.Pages.Alloc.{is_aligin, zone_id, gfp_page_header}

pub bit_and-15 : (a : ℕ) → bit_and a 15 ≡ a % 16
bit_and-15 a = bit_and-ones 4 a ∙ omega arith

pub bit_and-4095 : (a : ℕ) → bit_and a 4095 ≡ a % 4096
bit_and-4095 a = bit_and-ones 12 a ∙ omega arith

-- The flag of a page header is above the bits of the zone, and is set.
pub zone_id-header : (flag : ℕ) → zone_id (bit_or flag gfp_page_header) ≡ zone_id flag
zone_id-header flag =
    let low : bit_or flag 32 % 16 ≡ flag % 16 = omega (
      arith,
      bit_or-halves flag 32,
      bit_or-halves (flag / 2) 16,
      bit_or-halves (flag / 2 / 2) 8,
      bit_or-halves (flag / 2 / 2 / 2) 4,
    ) in
    omega (arith, bit_and-15 flag, bit_and-15 (bit_or flag 32), low)

pub header_set : (flag : ℕ) → (bit_and (bit_or flag gfp_page_header) gfp_page_header == 0) ≡ false
header_set flag =
    ground (arith, bit_and-two_pow (bit_or flag 32) 5, digit-bit_or flag 32 5, digit-le-one flag 5)

-- The kernel starts at a page.
abbrev pub IsPageStart : ℕ → Type 0
IsPageStart a = (a % 4096 ≡ 0) × (a < 2 ^ 32)

-- The address of a page is at the start of a page, and leads back to the page.
pub page_id_to_va_lem :
    (mm : Mm) (index : ℕ)
    → IsPageStart mm.kernel_start
    → index < 2 ^ 20
    → (va_to_page_id mm (page_id_to_va mm index) ≡ index)
      × (is_aligin (page_id_to_va mm index) 4096 ≡ true)
unfolding va_to_page_id page_id_to_va is_aligin
page_id_to_va_lem mm index s h = (
  omega (arith, s.0, s.1, h),
  ground (arith, bit_and-4095 (u32 (mm.kernel_start + (index << 12))), s.0, s.1, h),
)
