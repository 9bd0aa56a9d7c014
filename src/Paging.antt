-- ===== src/Paging.antt =====
-- kern/entrypgdir.c and the paging part of inc/mmu.h: the page directory and page table that entry.S
-- turns paging on with, and the macros that take addresses and entries apart.
pub mod Table
pub mod Walk
mod Tests
use sisop_tps.Prelude.{
  ℕ, zero, suc, ◌+◌, ◌-◌, ◌*◌, ◌/◌, ◌%◌, ◌^◌, List, [], ◌∷◌, ◌==◌, if◌then◌else◌, bit_and, bit_or,
  word, map,
}
use sisop_tps.Paging.Table.{page_addresses}

abbrev pub kernbase : ℕ
kernbase = 0xf000_0000

abbrev pub ptxshift : ℕ
ptxshift = 12

abbrev pub pdxshift : ℕ
pdxshift = 22

abbrev pub npdentries : ℕ
npdentries = 1024

abbrev pub nptentries : ℕ
nptentries = 1024

abbrev pub pte_p : ℕ
pte_p = 0x001

abbrev pub pte_w : ℕ
pte_w = 0x002

pub pgnum : ℕ → ℕ
pgnum la = la / 2 ^ ptxshift

pub pdx : ℕ → ℕ
pdx la = bit_and (la / 2 ^ pdxshift) 0x3ff

pub ptx : ℕ → ℕ
ptx la = bit_and (la / 2 ^ ptxshift) 0x3ff

pub pgoff : ℕ → ℕ
pgoff la = bit_and la 0xfff

-- shifts of an `unsigned` drop what leaves the 32 bits
pub pgaddr : ℕ → ℕ → ℕ → ℕ
pgaddr d t o = bit_or (bit_or (d * 2 ^ pdxshift % word) (t * 2 ^ ptxshift % word)) o

pub pte_addr : ℕ → ℕ
pte_addr pte = bit_and pte 0xffff_f000

-- The source writes `| PTE_P | PTE_W` behind each of the addresses.
unfoldable pub entry_pgtable : List ℕ
entry_pgtable = map (λ page. bit_or (bit_or page pte_p) pte_w) page_addresses

-- `entry_pgdir[i]`; `table` is the virtual address that the linker gave `entry_pgtable`
pub entry_pgdir : ℕ → ℕ → ℕ
entry_pgdir table i =
    if i == 0
    then (table + word - kernbase + pte_p) % word
    else if i == kernbase / 2 ^ pdxshift
    then (table + word - kernbase + pte_p + pte_w) % word
    else 0
