-- ===== src/Paging/Walk.antt =====
-- What the entry page tables of kern/entrypgdir.c map, by the walk that the MMU makes.
use sisop_tps.Prelude.{
  ℕ, zero, suc, ◌+◌, ◌-◌, ◌*◌, ◌/◌, ◌%◌, ◌≤◌, ◌<◌, ◌≡◌, refl, ◌∙◌, Option, none, some, ◌==◌,
  if◌then◌else◌, bit_and, bit_or, word, get_or, length, List, [], ◌∷◌, Bool, get_or-map, arith,
  shifted, bit_or-shifted, bit_and-one, bit_and-ones, bit_and-ones_above, ltb, leb, ◌&&◌, true,
  all_below, all_below_sound, ==_iff,
}
use sisop_tps.Paging.Table.{page_addresses}
use sisop_tps.Paging.{
  kernbase, pte_p, pte_w, pdx, ptx, pgoff, pgaddr, pte_addr, entry_pgtable, entry_pgdir,
}

-- the 80386 walk: the entry of the directory, the entry of the table that it names, the byte in the page.
-- The directory's entry names the table by its physical address, and the kernel's one table stands at
-- `table - KERNBASE`; a directory entry for any other table is outside this model.
pub walk : ℕ → ℕ → Option ℕ
walk table la =
    let pde = entry_pgdir table (pdx la) in
    let pte = get_or entry_pgtable (ptx la) 0 in
    if bit_and pde pte_p == 0
    then none
    else if pte_addr pde == table - kernbase
    then if bit_and pte pte_p == 0 then none else some (pte_addr pte + pgoff la)
    else none

-- The masks of the macros, as arithmetic.
mask10 : (x : ℕ) → bit_and x 0x3ff ≡ x % 1024
mask10 x = bit_and-ones 10 x ∙ omega arith

mask12 : (x : ℕ) → bit_and x 0xfff ≡ x % 4096
mask12 x = bit_and-ones 12 x ∙ omega arith

mask20 : (x : ℕ) → bit_and x 0xf_ffff ≡ x % 0x10_0000
mask20 x = bit_and-ones 20 x ∙ omega arith

mask_page : (x : ℕ) → x < word → bit_and x 0xffff_f000 ≡ x - x % 4096
mask_page x h = bit_and-ones_above 20 12 x ∙ omega arith

-- Flags below a page's address are added to it.
flags_table :
    all_below 1024 (λ i. bit_or (bit_or (i * 0x1000) pte_p) pte_w == i * 0x1000 + 3) ≡ true
unfolding all_below
flags_table = refl

flags_lem : (i : ℕ) → i < 1024 → bit_or (bit_or (i * 0x1000) pte_p) pte_w ≡ i * 0x1000 + 3
flags_lem i l = (==_iff _ _).0 (
    all_below_sound 1024 (λ i. bit_or (bit_or (i * 0x1000) pte_p) pte_w == i * 0x1000 + 3) i
      flags_table l)

-- The list goes through the pages from `i` on, each one's address in turn.
in_turn : ℕ → List ℕ → Bool
in_turn i [] = true
in_turn i (page ∷ pages) = page == i * 0x1000 && in_turn (i + 1) pages

in_turn_lem :
    (i j : ℕ) (pages : List ℕ)
    → in_turn i pages ≡ true
    → j < length pages
    → get_or pages j 0 ≡ (i + j) * 0x1000
unfolding in_turn
in_turn_lem i j [] h l = absurd (omega arith)
in_turn_lem i zero (page ∷ pages) h l = ground (arith, h)
in_turn_lem i (suc j) (page ∷ pages) h l =
    let later : in_turn (i + 1) pages ≡ true = ground (arith, h) in
    in_turn_lem (i + 1) j pages later (omega arith) ∙ omega arith

-- The table misses no page and has none out of turn.
table_in_turn : in_turn 0 page_addresses ≡ true
unfolding in_turn page_addresses
table_in_turn = refl

table_length : length page_addresses ≡ 1024
unfolding page_addresses
table_length = refl

entry_pgtable_lem : (i : ℕ) → i < 1024 → get_or entry_pgtable i 0 ≡ i * 0x1000 + 3
unfolding entry_pgtable
entry_pgtable_lem i l =
    let inside : i < length page_addresses = omega (arith, table_length) in
    let at : get_or page_addresses i 0 ≡ i * 0x1000 =
      in_turn_lem 0 i page_addresses table_in_turn inside ∙ omega arith in
    get_or-map (λ page. bit_or (bit_or page pte_p) pte_w) page_addresses i 0 0 inside
    ∙ rw at (flags_lem i l)

-- what the comments of entrypgdir.c and entry.S promise of an address
abbrev pub mapped : ℕ → Option ℕ
mapped la =
    if ltb la 0x40_0000
    then some la
    else if leb kernbase la && ltb la (kernbase + 0x40_0000)
    then some (la - kernbase)
    else none

pdx_lem : (la : ℕ) → pdx la ≡ la / 0x40_0000 % 1024
unfolding pdx
pdx_lem la = mask10 (la / 0x40_0000)

ptx_lem : (la : ℕ) → ptx la ≡ la / 0x1000 % 1024
unfolding ptx
ptx_lem la = mask10 (la / 0x1000)

pgoff_lem : (la : ℕ) → pgoff la ≡ la % 0x1000
unfolding pgoff
pgoff_lem la = mask12 la

pte_addr_lem : (pte : ℕ) → pte < word → pte_addr pte ≡ pte - pte % 4096
unfolding pte_addr
pte_addr_lem pte h = mask_page pte h

module _ (table : ℕ) (k : kernbase ≤ table) (t : table < word) (a : table % 4096 ≡ 0) where
  entry_pgdir_lem :
      (i : ℕ)
      → entry_pgdir table i
        ≡ (if i == 0 then table - kernbase + 1 else if i == 960 then table - kernbase + 3 else 0)
  unfolding entry_pgdir
  entry_pgdir_lem i = ground arith

  -- under a present entry for the kernel's table
  walk_hit :
      (la flags : ℕ)
      → flags % 2 ≡ 1
      → flags < 4
      → entry_pgdir table (pdx la) ≡ table - kernbase + flags
      → walk table la ≡ some (la % 0x40_0000)
  unfolding walk
  walk_hit la flags odd small e =
      let j = la / 0x1000 % 1024 in
      let pde = table - kernbase + flags in
      rw (e, ptx_lem la, entry_pgtable_lem j (omega arith))
        (ground (
          arith,
          bit_and-one pde,
          pte_addr_lem pde (omega arith),
          bit_and-one (j * 0x1000 + 3),
          pte_addr_lem (j * 0x1000 + 3) (omega arith),
          pgoff_lem la,
        ))

  walk_miss : (la : ℕ) → entry_pgdir table (pdx la) ≡ 0 → walk table la ≡ none
  unfolding walk
  walk_miss la e = rw e

-- For a page-aligned table in the kernel's half, the walk maps [0, 4MB) and [KERNBASE, KERNBASE + 4MB) to
-- the first 4MB of physical memory, and maps no other 32-bit address.
pub walk-mapped :
    (table la : ℕ)
    → kernbase ≤ table
    → table < word
    → table % 4096 ≡ 0
    → la < word
    → walk table la ≡ mapped la
walk-mapped table la k t a l = ground (
  arith,
  pdx_lem la,
  entry_pgdir_lem table k t a (pdx la),
  walk_hit table k t a la 1,
  walk_hit table k t a la 3,
  walk_miss table k t a la,
)

-- The three parts of a 32-bit linear address put it together again.
pub pgaddr-parts : (la : ℕ) → la < word → pgaddr (pdx la) (ptx la) (pgoff la) ≡ la
unfolding pgaddr
pgaddr-parts la l =
    let d = la / 0x40_0000 in
    let t = la / 0x1000 % 1024 in
    let o = la % 0x1000 in
    let top : d % 1024 * 4194304 % word ≡ shifted 22 d = omega arith in
    let mid : t * 4096 % word ≡ t * 4096 = omega arith in
    let both : shifted 22 d + t * 4096 ≡ shifted 12 (d * 1024 + t) = omega arith in
    rw
      (
        pdx_lem la,
        ptx_lem la,
        pgoff_lem la,
        top,
        mid,
        bit_or-shifted 22 d (t * 4096) (omega arith),
        both,
      )
      (bit_or-shifted 12 (d * 1024 + t) o (omega arith) ∙ omega arith)
