-- ===== src/Debugger/Breakpoints.antt =====
-- src/debugger/debugger.c: the breakpoints as a set of at most 64 addresses.
use stm32_emulator.Base.{
  ℕ, ◌+◌, ◌≤◌, ◌≡◌, refl, sym, inl, inr, Bool, true, false, not, ◌&&◌, ◌||◌, Option, none, some,
  List, [], ◌∷◌, ◌++◌, arith, ltb, leb, ◌==◌, if◌then◌else◌, Bool-cases,
}
use stm32_emulator.Debugger.{
  Debugger, debugger_max_breakpoints, num_breakpoints, holds, debugger_add_breakpoint, take_out,
  debugger_remove_breakpoint, debugger_check,
}

-- No address is held twice.
abbrev pub Distinct : List ℕ → Type 0
Distinct [] = Unit {0}
Distinct (b ∷ bs) = (holds bs b ≡ false) × Distinct bs

-- What the operations keep.
pub record IsDebugger (dbg : Debugger) : Type 0 where
  pub bound : num_breakpoints dbg.breakpoints ≤ debugger_max_breakpoints
  pub distinct : Distinct dbg.breakpoints

holds-append : (bs : List ℕ) (a x : ℕ) → holds (bs ++ a ∷ []) x ≡ (holds bs x || (a == x))
unfolding holds
holds-append [] a x = ground arith
holds-append (b ∷ bs) a x = let rest = holds-append bs a x in ground arith

Distinct-append : (bs : List ℕ) (a : ℕ) → Distinct bs → holds bs a ≡ false → Distinct (bs ++ a ∷ [])
unfolding holds
Distinct-append [] a d h = (refl, tt)
Distinct-append (b ∷ bs) a d h =
    let rest = holds-append bs a b in (ground arith, Distinct-append bs a d.1 (ground arith))

count-append : (bs : List ℕ) (a : ℕ) → num_breakpoints (bs ++ a ∷ []) ≡ num_breakpoints bs + 1
count-append [] a = refl
count-append (b ∷ bs) a = let rest = count-append bs a in omega arith

holds-take_out :
    (bs : List ℕ) (a x : ℕ) → Distinct bs → holds (take_out bs a) x ≡ (holds bs x && not (a == x))
unfolding holds take_out
holds-take_out [] a x d = refl
holds-take_out (b ∷ bs) a x d =
    let rest = holds-take_out bs a x d.1 in
    elim (Bool-cases (b == a)) [
      | inl same ↦ elim (Bool-cases (a == x)) [
        | inl e ↦ rw (same, e) (ground arith)
        | inr ne ↦ ground arith
      ]
      | inr other ↦ ground arith
    ]

Distinct-take_out : (bs : List ℕ) (a : ℕ) → Distinct bs → Distinct (take_out bs a)
unfolding holds take_out
Distinct-take_out [] a d = tt
Distinct-take_out (b ∷ bs) a d =
    let rest = holds-take_out bs a b d.1 in
    let smaller = Distinct-take_out bs a d.1 in
    elim (Bool-cases (b == a)) [
      | inl same ↦ rw same d.1
      | inr other ↦ rw other (ground arith, smaller)
    ]

count-take_out :
    (bs : List ℕ) (a : ℕ)
    → holds bs a ≡ true
    → num_breakpoints bs ≡ num_breakpoints (take_out bs a) + 1
unfolding holds take_out
count-take_out [] a h = ground arith
count-take_out (b ∷ bs) a h = let rest = count-take_out bs a in ground arith

-- Adding a breakpoint answers 0 where it is already set or there is room, and fails otherwise; after
-- it the breakpoints are those of before and, unless it failed, the new one. There are still at most
-- 64, none of them twice.
pub debugger_check-add :
    (dbg : Debugger) (addr pc : ℕ)
    → IsDebugger dbg
    → let r : Option ℕ × Debugger = debugger_add_breakpoint dbg addr in
      let accepted : Bool =
        debugger_check dbg addr || ltb (num_breakpoints dbg.breakpoints) debugger_max_breakpoints in
      IsDebugger r.1
      × (r.0 ≡ (if accepted then some 0 else none))
      × (debugger_check r.1 pc ≡ (debugger_check dbg pc || accepted && addr == pc))
unfolding debugger_add_breakpoint debugger_check
debugger_check-add dbg addr pc v = elim (Bool-cases (holds dbg.breakpoints addr)) [
  | inl known ↦ rw known (
    v,
    refl,
    elim (Bool-cases (addr == pc)) [
      | inl same ↦ let e : addr ≡ pc = ground arith in rw (sym e, known) refl
      | inr other ↦ ground arith
    ],
  )
  | inr new ↦ elim (Bool-cases (leb debugger_max_breakpoints (num_breakpoints dbg.breakpoints))) [
    | inl full ↦
        let closed : ltb (num_breakpoints dbg.breakpoints) debugger_max_breakpoints ≡ false =
          ground arith in
        rw (new, full, closed) (v, refl, ground arith)
    | inr room ↦
        let space : ltb (num_breakpoints dbg.breakpoints) debugger_max_breakpoints ≡ true =
          ground arith in
        rw (new, room, space)
          (
            record {
              bound = ground (arith, count-append dbg.breakpoints addr);
              distinct = Distinct-append dbg.breakpoints addr v.distinct new;
            },
            refl,
            holds-append dbg.breakpoints addr pc,
          )
  ]
]

-- Removing a breakpoint answers 0 exactly where it was set; after it the breakpoints are those of
-- before without it. There are still at most 64, none of them twice.
pub debugger_check-remove :
    (dbg : Debugger) (addr pc : ℕ)
    → IsDebugger dbg
    → let r : Option ℕ × Debugger = debugger_remove_breakpoint dbg addr in
      IsDebugger r.1
      × (r.0 ≡ (if debugger_check dbg addr then some 0 else none))
      × (debugger_check r.1 pc ≡ (debugger_check dbg pc && not (addr == pc)))
unfolding debugger_remove_breakpoint debugger_check
debugger_check-remove dbg addr pc v = elim (Bool-cases (holds dbg.breakpoints addr)) [
  | inl known ↦ rw known (
    record {
      bound = omega (arith, count-take_out dbg.breakpoints addr known, v.bound);
      distinct = Distinct-take_out dbg.breakpoints addr v.distinct;
    },
    refl,
    holds-take_out dbg.breakpoints addr pc v.distinct,
  )
  | inr absent ↦ rw absent (
    v,
    refl,
    elim (Bool-cases (addr == pc)) [
      | inl same ↦ let e : addr ≡ pc = ground arith in rw (sym e, absent) refl
      | inr other ↦ ground arith
    ],
  )
]
