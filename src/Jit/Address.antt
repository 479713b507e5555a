-- ===== src/Jit/Address.antt =====
-- src/jit.c, modrm_mem: the memory operand as the compiler decodes it, and the address that it
-- denotes, which is the one that the interpreter's modrm computes.
use rashid.Base.{
  ℕ, ◌+◌, ◌*◌, ◌/◌, ◌%◌, ◌^◌, ◌<◌, bit_and, bit_or, Bool, true, false, ◌&&◌, ◌≡◌, refl, Option,
  none, some, ◌==◌, if◌then◌else◌, add64, arith, Bool-cases, inl, inr, ap,
}
use rashid.Cpu.{extend}
use rashid.Cpu.State.{Cpu, rsp}
use rashid.Cpu.Memory.{read}
use rashid.Cpu.Decode.{Operand, Decoder, displace, modrm, fixup_rip, rex_bit, field, dec_rip}

-- The fields of `insn` that a memory operand fills; `disp` is an int64_t by its pattern. A base
-- or an index that is absent is `none`.
pub record Insn : Type 0 where
  pub base : Option ℕ
  pub index : Option ℕ
  pub scale : ℕ
  pub riprel : Bool
  pub disp : ℕ

-- The displacement after the base.
unfoldable pub more_disp : (ℕ → ℕ) → ℕ → ℕ → Insn → ℕ × Insn
more_disp mem n md o =
    if md == 1
    then (n + 1, record o { disp = add64 o.disp (extend 8 (read mem n 1)) })
    else if md == 2
    then (n + 4, record o { disp = add64 o.disp (extend 32 (read mem n 4)) })
    else (n, o)

-- `modrm_mem`: n is the address of the byte behind ModRM, and that of the byte behind the operand.
unfoldable pub modrm_mem : (ℕ → ℕ) → ℕ → ℕ → ℕ → ℕ × Insn
unfolding more_disp
modrm_mem mem n rex m =
    let md = m / 2 ^ 6 in
    let rmb = bit_and m 7 in
    let empty : Insn = record { base = none; index = none; scale = 0; riprel = false; disp = 0 } in
    if rmb == 4
    then (let sib = read mem n 1 in
        let index = field sib 3 (rex_bit rex 2) in
        let base = field sib 0 (rex_bit rex 1) in
        let o : Insn =
          if index == 4 then empty else record empty { index = some index; scale = sib / 2 ^ 6 } in
        if (bit_and sib 7 == 5) && (md == 0)
        then more_disp mem (n + 1 + 4) md (record o { disp = extend 32 (read mem (n + 1) 4) })
        else more_disp mem (n + 1) md (record o { base = some base }))
    else if (rmb == 5) && (md == 0)
    then more_disp mem (n + 4) md (record empty { disp = extend 32 (read mem n 4); riprel = true })
    else more_disp mem n md (record empty { base = some (bit_or rmb (rex_bit rex 1)) })

-- The base, and the index times its scale, where they are present.
abbrev pub base_of : (ℕ → ℕ) → Option ℕ → ℕ
base_of r none = 0
base_of r (some b) = r b

abbrev pub index_of : (ℕ → ℕ) → Option ℕ → ℕ → ℕ
index_of r none scale = 0
index_of r (some i) scale = r i * 2 ^ scale % 2 ^ 64

-- The address that an operand denotes, in the instruction that ends at `next`.
unfoldable pub ea : (ℕ → ℕ) → ℕ → Insn → ℕ
ea r next o =
    if o.riprel
    then add64 next o.disp
    else add64 (add64 (base_of r o.base) (index_of r o.index o.scale)) o.disp

displace-more_disp :
    (c : Cpu) (d : Decoder) (md addr next : ℕ) (o : Insn)
    → o.riprel ≡ false
    → addr < 2 ^ 64
    → addr ≡ add64 (add64 (base_of c.r o.base) (index_of c.r o.index o.scale)) o.disp
    → ((displace c d md addr).0 ≡ ea c.r next (more_disp c.mem d.p md o).1)
      × ((displace c d md addr).1.p ≡ (more_disp c.mem d.p md o).0)
unfolding displace more_disp ea
displace-more_disp c d md addr next o rel h e = elim (Bool-cases (md == 1)) [
  | inl one ↦ rw (one, rel) (omega arith, refl)
  | inr n1 ↦ elim (Bool-cases (md == 2)) [
    | inl two ↦ rw (n1, two, rel) (omega arith, refl)
    | inr n2 ↦ rw (n1, n2, rel) (e, refl)
  ]
]

extend-extend : (v : ℕ) → extend 32 (extend 32 v) ≡ extend 32 v
extend-extend v = ground arith

extend-lt : (v : ℕ) → extend 32 v < 2 ^ 64
extend-lt v = ground arith

-- The address of a memory operand once it is resolved, without its segment base.
abbrev pub operand_address : Operand → ℕ
operand_address (Operand.reg i) = 0
operand_address (Operand.memory a seg) = a
operand_address (Operand.pending a seg) = a

-- What both decoders agree on: the address, given the cursor at the end of the instruction, and
-- how far they read.
abbrev pub Agree : Cpu → Decoder → ℕ × Operand × Decoder → ℕ × Insn → Type 0
Agree c end (field, op, d) (n, o) =
    (operand_address (fixup_rip end op) ≡ ea c.r (dec_rip end) o) × (d.p ≡ n)

module _ (c : Cpu) (d end : Decoder) (words : (i : ℕ) → c.r i < 2 ^ 64) where
  abbrev m : ℕ
  m = read c.mem d.p 1

  abbrev md : ℕ
  md = m / 2 ^ 6

  abbrev d1 : Decoder
  d1 = record d { p = d.p + 1 }

  abbrev sib : ℕ
  sib = read c.mem (d.p + 1) 1

  abbrev d2 : Decoder
  d2 = record d { p = d.p + 1 + 1 }

  abbrev index : ℕ
  index = field sib 3 (rex_bit d.rex 2)

  abbrev base : ℕ
  base = field sib 0 (rex_bit d.rex 1)

  abbrev sib_insn : Insn
  sib_insn =
      let empty : Insn = record {
        base = none;
        index = none;
        scale = 0;
        riprel = false;
        disp = 0;
      } in
      if index == 4 then empty else record empty { index = some index; scale = sib / 2 ^ 6 }

  sib_index :
      index_of c.r sib_insn.index sib_insn.scale
      ≡ (if index == rsp then 0 else c.r index * 2 ^ (sib / 2 ^ 6) % 2 ^ 64)
  sib_index = elim (Bool-cases (index == 4)) [ inl e ↦ rw e refl | inr e ↦ rw e refl ]

  sib_plain : (sib_insn.base ≡ none) × (sib_insn.riprel ≡ false) × (sib_insn.disp ≡ 0)
  sib_plain = elim (Bool-cases (index == 4)) [
    | inl e ↦ rw e (refl, refl, refl)
    | inr e ↦ rw e (refl, refl, refl)
  ]

  abbrev scaled : ℕ
  scaled = if index == rsp then 0 else c.r index * 2 ^ (sib / 2 ^ 6) % 2 ^ 64

  scaled-lt : scaled < 2 ^ 64
  scaled-lt = elim (Bool-cases (index == rsp)) [
    | inl e ↦ rw e (omega arith)
    | inr e ↦ rw e (omega arith)
  ]

  no_base :
      (disp : ℕ)
      → add64 scaled disp
        ≡ add64
            (add64 (base_of c.r sib_insn.base) (index_of c.r sib_insn.index sib_insn.scale))
            disp
  no_base disp = rw (sib_plain.0, sib_index) (omega (arith, scaled-lt))

  with_base :
      add64 scaled (c.r base)
      ≡ add64 (add64 (c.r base) (index_of c.r sib_insn.index sib_insn.scale)) sib_insn.disp
  with_base = rw (sib_plain.2, sib_index) (omega (arith, scaled-lt, words base))

  Agree-sib :
      (bit_and m 7 == 4) ≡ true
      → (md == 3) ≡ false
      → Agree c end (modrm c d) (modrm_mem c.mem (d.p + 1) d.rex m)
  unfolding modrm modrm_mem fixup_rip
  Agree-sib four notreg = elim (Bool-cases ((bit_and sib 7 == 5) && (md == 0))) [
    | inl e ↦
        let ext = extend 32 (read c.mem (d.p + 1 + 1) 4) in
        rw (notreg, four, e)
          (displace-more_disp c (record d { p = d.p + 1 + 1 + 4 }) md (add64 scaled ext)
            (dec_rip end) (record sib_insn { disp = ext }) sib_plain.1 (omega arith) (no_base ext))
    | inr e ↦
        rw (notreg, four, e)
          (displace-more_disp c d2 md (add64 scaled (c.r base)) (dec_rip end)
            (record sib_insn { base = some base }) sib_plain.1 (omega arith) with_base)
  ]

  Agree-riprel :
      (bit_and m 7 == 4) ≡ false
      → (md == 3) ≡ false
      → ((bit_and m 7 == 5) && (md == 0)) ≡ true
      → Agree c end (modrm c d) (modrm_mem c.mem (d.p + 1) d.rex m)
  unfolding modrm modrm_mem fixup_rip ea
  Agree-riprel four notreg e =
      let zero_md : (md == 0) ≡ true = ground arith in
      let not1 : (md == 1) ≡ false = ground arith in
      let not2 : (md == 2) ≡ false = ground arith in
      rw (notreg, four, e, not1, not2)
        (ap (λ t. add64 (dec_rip end) t) (extend-extend (read c.mem (d.p + 1) 4)), refl)

  Agree-base :
      (bit_and m 7 == 4) ≡ false
      → (md == 3) ≡ false
      → ((bit_and m 7 == 5) && (md == 0)) ≡ false
      → Agree c end (modrm c d) (modrm_mem c.mem (d.p + 1) d.rex m)
  unfolding modrm modrm_mem fixup_rip
  Agree-base four notreg e =
      let rm = bit_or (bit_and m 7) (rex_bit d.rex 1) in
      rw (notreg, four, e)
        (displace-more_disp c d1 md (c.r rm) (dec_rip end)
          (record { base = some rm; index = none; scale = 0; riprel = false; disp = 0 }) refl
          (words rm) (omega (arith, words rm)))

-- Both decoders agree on every memory operand: for any register contents, prefixes and instruction
-- bytes, they read the same number of bytes, and the operand that the compiler describes denotes the
-- address that the interpreter resolves, wherever the instruction ends.
pub modrm-modrm_mem :
    (c : Cpu) (d end : Decoder)
    → ((i : ℕ) → c.r i < 2 ^ 64)
    → (read c.mem d.p 1 / 2 ^ 6 == 3) ≡ false
    → Agree c end (modrm c d) (modrm_mem c.mem (d.p + 1) d.rex (read c.mem d.p 1))
modrm-modrm_mem c d end words notreg =
    let byte = read c.mem d.p 1 in
    elim (Bool-cases (bit_and byte 7 == 4)) [
      | inl four ↦ Agree-sib c d end words four notreg
      | inr four ↦ elim (Bool-cases ((bit_and byte 7 == 5) && (byte / 2 ^ 6 == 0))) [
        | inl e ↦ Agree-riprel c d end words four notreg e
        | inr e ↦ Agree-base c d end words four notreg e
      ]
    ]
