-- ===== src/Mmu/Fill.antt =====
-- kernel/mmu.c: the loops that write a table entry by entry, as one loop over the entries' values.
use mirros.Base.{ℕ, zero, suc, ◌+◌, ◌*◌, ◌^◌, ◌≤◌, ◌<◌, ◌≡◌, ◌⊎◌, inl, refl, ◌∙◌, arith, update}
use mirros.Base.Words.{u32}
use mirros.Mmu.{
  Words, clear_entries, build_entries, build_page_entries, arch_build_tlb_des,
  arch_build_page_table_des,
}

-- The address that round `i` of a loop maps.
abbrev pub advance : ℕ → ℕ → ℕ → ℕ
advance zero ps step = ps
advance (suc i) ps step = advance i (u32 (ps + step)) step

-- `count` entries from `base` on, entry `i` with the value `f i`.
abbrev pub fill_table : ℕ → Words → ℕ → (ℕ → ℕ) → Words
fill_table zero words base f = words
fill_table (suc k) words base f =
    fill_table k (update words base (f 0)) (u32 (base + 4)) (λ i. f (suc i))

-- An address in front of a table or behind it.
abbrev pub Outside : ℕ → ℕ → ℕ → Type 0
Outside base count a = (a < base) ⊎ (base + 4 * count ≤ a)

pub fill_table-Outside :
    (k : ℕ) (words : Words) (base : ℕ) (f : ℕ → ℕ) (a : ℕ)
    → base + 4 * k < 2 ^ 32
    → Outside base k a
    → fill_table k words base f a ≡ words a
fill_table-Outside zero words base f a fits o = refl
fill_table-Outside (suc k) words base f a fits o =
    let next : u32 (base + 4) ≡ base + 4 = omega arith in
    rw next (
      fill_table-Outside k (update words base (f 0)) (base + 4) (λ i. f (suc i)) a (omega arith)
        (ground arith)
      ∙ ground arith)

pub fill_table-at :
    (k : ℕ) (words : Words) (base : ℕ) (f : ℕ → ℕ) (i : ℕ)
    → base + 4 * k < 2 ^ 32
    → i < k
    → fill_table k words base f (base + 4 * i) ≡ f i
fill_table-at zero words base f i fits h = absurd (omega arith)
fill_table-at (suc k) words base f zero fits h =
    let next : u32 (base + 4) ≡ base + 4 = omega arith in
    rw next (
      fill_table-Outside k (update words base (f 0)) (base + 4) (λ i. f (suc i)) (base + 4 * 0)
        (omega arith) (inl (omega arith))
      ∙ ground arith)
fill_table-at (suc k) words base f (suc i) fits h =
    let next : u32 (base + 4) ≡ base + 4 = omega arith in
    let entry : base + 4 * suc i ≡ base + 4 + 4 * i = omega arith in
    rw (next, entry)
      (fill_table-at k (update words base (f 0)) (base + 4) (λ i. f (suc i)) i (omega arith)
        (omega arith))

pub clear_entries-fill_table :
    (k : ℕ) (words : Words) (base : ℕ)
    → clear_entries k words base ≡ fill_table k words base (λ i. 0)
unfolding clear_entries
clear_entries-fill_table zero words base = refl
clear_entries-fill_table (suc k) words base =
    clear_entries-fill_table k (update words base 0) (u32 (base + 4))

pub build_entries-fill_table :
    (k : ℕ) (words : Words) (base ps attr step : ℕ)
    → build_entries k words base ps attr step
      ≡ fill_table k words base (λ i. arch_build_tlb_des (advance i ps step) attr)
unfolding build_entries
build_entries-fill_table zero words base ps attr step = refl
build_entries-fill_table (suc k) words base ps attr step =
    build_entries-fill_table k (update words base (arch_build_tlb_des ps attr)) (u32 (base + 4))
      (u32 (ps + step)) attr step

pub build_page_entries-fill_table :
    (k : ℕ) (words : Words) (base pa attr : ℕ)
    → build_page_entries k words base pa attr
      ≡ fill_table k words base (λ i. arch_build_page_table_des (advance i pa 4096) attr)
unfolding build_page_entries
build_page_entries-fill_table zero words base pa attr = refl
build_page_entries-fill_table (suc k) words base pa attr =
    build_page_entries-fill_table k (update words base (arch_build_page_table_des pa attr))
      (u32 (base + 4)) (u32 (pa + 4096)) attr
