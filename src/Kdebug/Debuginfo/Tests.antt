-- ===== src/Kdebug/Debuginfo/Tests.antt =====
-- A lookup in a file with two functions, the first of them with one argument.
use sisop_tps.Prelude.{
  ℕ, zero, suc, ◌-◌, ◌<◌, ◌≡◌, ◌⊎◌, refl, inl, inr, List, [], ◌∷◌, get_or, arith,
}
use sisop_tps.Prelude.Run.{Returns}
use sisop_tps.Memory.{Memory}
use sisop_tps.Kdebug.{Stab}
use sisop_tps.Kdebug.Scan.{HasType}
use sisop_tps.Kdebug.Step.{Searched, value}
use sisop_tps.Kdebug.Debuginfo.{n_fun, n_so, Tables, debuginfo_eip}
use sisop_tps.Kdebug.Debuginfo.Entries.{Lookup}
use sisop_tps.Kdebug.Debuginfo.Outcome.{Told, debuginfo_eip-Told}

abbrev entry : ℕ → ℕ → ℕ → Stab
entry strx type value = record {
  n_strx = strx;
  n_type = type;
  n_other = 0;
  n_desc = 0;
  n_value = value;
}

abbrev listing : List Stab
listing =
    entry 0 0 0
    ∷ entry 1 0x64 0xf010_0000
    ∷ entry 8 0x24 0xf010_0000
    ∷ entry 8 0xa0 8
    ∷ entry 0 0x44 0
    ∷ entry 8 0x24 0xf010_0040
    ∷ []

-- "init.c" and "main:F" behind an empty string, and a NUL
abbrev names : List ℕ
names = 0 ∷ 105 ∷ 110 ∷ 105 ∷ 116 ∷ 46 ∷ 99 ∷ 0 ∷ 109 ∷ 97 ∷ 105 ∷ 110 ∷ 58 ∷ 70 ∷ 0 ∷ []

abbrev strings : Memory
strings q = get_or names (q - 0x1000) 0

abbrev tables : Tables
tables = record { stabs = listing; stabstr = 0x1000; stabstr_end = 0x100f; unknown = 0x2000 }

only_file : (i : ℕ) → i < 6 → HasType listing n_so i → i ≡ 1
only_file zero l y = absurd (omega (arith, y))
only_file (suc zero) l y = refl
only_file (suc (suc zero)) l y = absurd (omega (arith, y))
only_file (suc (suc (suc zero))) l y = absurd (omega (arith, y))
only_file (suc (suc (suc (suc zero)))) l y = absurd (omega (arith, y))
only_file (suc (suc (suc (suc (suc zero))))) l y = absurd (omega (arith, y))
only_file (suc (suc (suc (suc (suc (suc i)))))) l y = absurd (omega arith)

two_functions : (i : ℕ) → i < 6 → HasType listing n_fun i → (i ≡ 2) ⊎ (i ≡ 5)
two_functions zero l y = absurd (omega (arith, y))
two_functions (suc zero) l y = absurd (omega (arith, y))
two_functions (suc (suc zero)) l y = inl refl
two_functions (suc (suc (suc zero))) l y = absurd (omega (arith, y))
two_functions (suc (suc (suc (suc zero)))) l y = absurd (omega (arith, y))
two_functions (suc (suc (suc (suc (suc zero))))) l y = inr refl
two_functions (suc (suc (suc (suc (suc (suc i)))))) l y = absurd (omega arith)

functions_in_order :
    (i j : ℕ) → i < j → (i ≡ 2) ⊎ (i ≡ 5) → (j ≡ 2) ⊎ (j ≡ 5) → value listing i < value listing j
functions_in_order i j l (inl a) (inr b) = rw (a, b) (omega arith)
functions_in_order i j l (inl a) (inl b) = absurd (omega arith)
functions_in_order i j l (inr a) (inl b) = absurd (omega arith)
functions_in_order i j l (inr a) (inr b) = absurd (omega arith)

files-Searched : Searched listing n_so 0 6 0xf010_0010
files-Searched = record {
  small = omega arith;
  ordered = omega arith;
  inside = omega arith;
  address = omega arith;
  increasing =
      λ i j _ p q a b. absurd (omega (arith, only_file i (omega arith) a, only_file j q b));
  no_next = λ i _ q a. let one : i ≡ 1 = only_file i q a in rw one (λ e. omega arith);
}

functions-Searched : Searched listing n_fun 0 6 0xf010_0010
functions-Searched = record {
  small = omega arith;
  ordered = omega arith;
  inside = omega arith;
  address = omega arith;
  increasing = λ i j _ p q a b.
      functions_in_order i j p (two_functions i (omega arith) a) (two_functions j q b);
  no_next = λ i _ q a. elim (two_functions i q a) [
    | inl x ↦ rw x (λ e. omega arith)
    | inr x ↦ rw x (λ e. omega arith)
  ];
}

ready : Lookup tables strings 20 0xf010_0010
ready = record {
  readable = record {
    small = omega arith;
    nonempty = omega arith;
    below = omega arith;
    ends = refl;
    literal = refl;
    literal_low = omega arith;
    table_fuel = omega arith;
    literal_fuel = omega arith;
  };
  kernel = omega arith;
  files = files-Searched;
  functions = functions-Searched;
  some_stab = omega arith;
  header = λ y. omega (arith, y);
}

debuginfo_eip-Told_example :
    Returns (debuginfo_eip tables 20 strings 0xf010_0010) (Told tables strings 0xf010_0010)
debuginfo_eip-Told_example = debuginfo_eip-Told ready
