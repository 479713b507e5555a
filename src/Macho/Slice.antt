-- ===== src/Macho/Slice.antt =====
-- src/macho.c, find_slice: the x86_64 slice of a fat file.
use rashid.Base.{
  ℕ, zero, suc, ◌+◌, ◌≤◌, ◌<◌, ◌≡◌, ◌≢◌, ◌⊎◌, inl, inr, refl, Option, none, some, ◌||◌, ◌==◌, ltb,
  true, false, arith, Bool-cases, ==_iff, clash,
}
use mathlib.Core.Path.{subst}
use rashid.Cpu.Memory.{read}
use rashid.Macho.{Constants, Layout, File, bswap32, arch_field, find_arch, find_slice}

abbrev IsX86 : Constants → Layout → File → ℕ → Type 0
IsX86 k l f i = arch_field l f i l.arch_cputype ≡ k.cpu_type_x86_64

-- The first x86_64 entry from entry `from` on, of those below `to`; or that there is none.
abbrev pub IsFirst : Constants → Layout → File → ℕ → ℕ → Option ℕ → Type 0
IsFirst k l f from to none = (j : ℕ) → from ≤ j → j < to → ¬ IsX86 k l f j
IsFirst k l f from to (some off) =
    (i : ℕ) × (from ≤ i)
    × (i < to)
    × IsX86 k l f i
    × (off ≡ arch_field l f i l.arch_offset)
    × ((j : ℕ) → from ≤ j → j < i → ¬ IsX86 k l f j)

-- There is none from an entry on where there is none behind it, and it is not x86_64 either.
none-skip :
    (k : Constants) (l : Layout) (f : File) (from to : ℕ)
    → ¬ IsX86 k l f from
    → ((j : ℕ) → suc from ≤ j → j < to → ¬ IsX86 k l f j)
    → (j : ℕ) → from ≤ j
    → j < to
    → ¬ IsX86 k l f j
none-skip k l f from to other h j p q x = elim (Bool-cases (j == from)) [
  | inl e ↦ other (rw ((==_iff j from).0 e) at x)
  | inr e ↦ h j (ground arith) q x
]

IsFirst-skip :
    (k : Constants) (l : Layout) (f : File) (from to : ℕ) (r : Option ℕ)
    → ¬ IsX86 k l f from
    → IsFirst k l f (suc from) to r
    → IsFirst k l f from to r
IsFirst-skip k l f from to none other h = none-skip k l f from to other h
IsFirst-skip k l f from to (some off) other (i, p, q, x, e, least) =
    (i, omega arith, q, x, e, none-skip k l f from i other least)

find_arch-IsFirst :
    (k : Constants) (l : Layout) (f : File) (n i : ℕ)
    → IsFirst k l f i (n + i) (find_arch k l f n i)
unfolding find_arch
find_arch-IsFirst k l f zero i = λ j p q x. omega arith
find_arch-IsFirst k l f (suc n) i =
    elim (Bool-cases (arch_field l f i l.arch_cputype == k.cpu_type_x86_64)) [
      | inl e ↦ rw e (
        i,
        omega arith,
        omega arith,
        (==_iff (arch_field l f i l.arch_cputype) k.cpu_type_x86_64).0 e,
        refl,
        λ j p q x. omega arith,
      )
      | inr e ↦
          let rest : IsFirst k l f (suc i) (suc n + i) (find_arch k l f n (suc i)) =
            subst (λ t. IsFirst k l f (suc i) t (find_arch k l f n (suc i))) (omega arith)
              (find_arch-IsFirst k l f n (suc i)) in
          rw e (
            IsFirst-skip k l f i (suc n + i) (find_arch k l f n (suc i))
              (λ x. clash _ ((==_iff _ _).1 x) e) rest)
    ]

-- For a file of at least 4 bytes that starts with one of the two fat magics, `find_slice` answers
-- the offset of the first entry of the table whose type is x86_64, both read as big-endian words,
-- and fails exactly where no entry has that type.
pub find_slice-IsFirst :
    (k : Constants) (l : Layout) (f : File)
    → 4 ≤ f.size
    → (read f.byte 0 4 ≡ k.fat_magic) ⊎ (read f.byte 0 4 ≡ k.fat_cigam)
    → read f.byte 0 4 ≢ k.mh_magic_64
    → read f.byte 0 4 ≢ k.mh_cigam_64
    → IsFirst k l f 0 (bswap32 (read f.byte l.fat_nfat_arch 4)) (find_slice k l f)
unfolding find_slice
find_slice-IsFirst k l f long fat thin swapped =
    let magic = read f.byte 0 4 in
    let is_fat : (magic == k.fat_magic) || (magic == k.fat_cigam) ≡ true = ground arith in
    let is_thin : (magic == k.mh_magic_64) || (magic == k.mh_cigam_64) ≡ false = ground arith in
    let short : ltb f.size 4 ≡ false = ground arith in
    let n = bswap32 (read f.byte l.fat_nfat_arch 4) in
    rw (short, is_thin, is_fat)
      (subst (λ t. IsFirst k l f 0 t (find_arch k l f n 0)) (omega arith)
        (find_arch-IsFirst k l f n 0))
