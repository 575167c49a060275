-- ===== src/Pages/Bits.antt =====
-- mm/mm.c: `update_memory_bitmap`.
use mirros.Base.{ℕ, zero, suc, ◌+◌, ◌≡◌, Bool, true, false, ◌&&◌, arith, ltb, leb, if◌then◌else◌}
use mirros.Base.Int.{pos}
use mirros.Bitops.{Bitmap, read_bit, set_bit, clear_bit}
use mirros.Bitops.Laws.{read_bit-set_bit, read_bit-clear_bit}
use mirros.Pages.Alloc.{update_from, update_memory_bitmap}

update_from_lem :
    (k i : ℕ) (u : Bool) (map : Bitmap) (n : ℕ)
    → read_bit (update_from k i u map) n
      ≡ (if leb i n && ltb n (i + k) then if u then pos 1 else pos 0 else read_bit map n)
unfolding update_from
update_from_lem zero i u map n = ground arith
update_from_lem (suc k) i true map n =
    ground (arith, update_from_lem k (i + 1) true (set_bit map i) n, read_bit-set_bit map i n)
update_from_lem (suc k) i false map n =
    ground (arith, update_from_lem k (i + 1) false (clear_bit map i) n, read_bit-clear_bit map i n)

-- `update_memory_bitmap` marks the `count` pages from `index` on as used or as free, and no other.
pub update_memory_bitmap_lem :
    (map : Bitmap) (index count : ℕ) (u : Bool) (n : ℕ)
    → read_bit (update_memory_bitmap map index count u) n ≡ (
        if leb index n && ltb n (index + count) then if u then pos 1 else pos 0 else read_bit map n)
unfolding update_memory_bitmap
update_memory_bitmap_lem map index count u n = update_from_lem count index u map n
