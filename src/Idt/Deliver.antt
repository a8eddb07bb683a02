-- ===== src/Idt/Deliver.antt =====
-- What the processor makes of the table that student-distrib/idt.c fills.
use my_linux_os.Common.{
  ℕ, ◌+◌, ◌*◌, ◌/◌, ◌%◌, ◌^◌, ◌<◌, ◌≤◌, ◌≡◌, refl, sym, ap, ◌∙◌, inl, inr, Option, some, none, Bool,
  true, ltb, leb, ◌==◌, ◌&&◌, ◌||◌, not, if◌then◌else◌, arith, Bool-cases,
}
use my_linux_os.Paging.{Array, put, for_entries}
use my_linux_os.Paging.Map.{for_entries_lem}
use my_linux_os.Idt.{IdtDesc, Symbols, Idt, set_idt_entry, init_entry, connect, initialize_idt}

-- How a vector is taken: the code segment, the address, and whether interrupts stay enabled.
pub record Entry : Type 0 where
  pub selector : ℕ
  pub address : ℕ
  pub enabled : Bool

-- The type of a gate, its 5 bits from the highest to the lowest.
abbrev pub gate_type : IdtDesc → ℕ
gate_type e = 16 * e.reserved0 + 8 * e.size + 4 * e.reserved1 + 2 * e.reserved2 + e.reserved3

-- An `int` instruction at privilege level `cpl`: the processor takes a vector of the table through a
-- 32-bit interrupt gate (14) or trap gate (15) that is present and not privileged above `cpl`.
abbrev pub take_gate : IdtDesc → ℕ → Option Entry
take_gate e cpl =
    if e.present == 1 && (leb cpl e.dpl && (gate_type e == 14 || gate_type e == 15))
    then some (record {
      selector = e.seg_selector;
      address = e.offset_31_16 * 65536 + e.offset_15_00;
      enabled = gate_type e == 15;
    })
    else none

abbrev pub take_interrupt : Array IdtDesc → ℕ → ℕ → Option Entry
take_interrupt table cpl i = if ltb i 256 then take_gate (table i) cpl else none

-- The handler of a vector, if the kernel has one.
abbrev pub handler_of : Symbols → ℕ → Option ℕ
handler_of sym i =
    if ltb i 20
    then some (sym.exception i)
    else if i == 0x21
    then some sym.key_interrupt
    else if i == 0x28
    then some sym.rtc_interrupt
    else if i == 0x80
    then some sym.syscall_asm
    else none

abbrev with_handler : Option ℕ → IdtDesc → IdtDesc
with_handler none e = e
with_handler (some h) e = set_idt_entry h e

connect_lem :
    (i h : ℕ) (table : Array IdtDesc) (j : ℕ)
    → connect i h table j ≡ (if i == j then set_idt_entry h (table j) else table j)
unfolding put set_idt_entry
connect_lem i h table j = elim (Bool-cases (i == j)) [
  | inl e ↦ let same : i ≡ j = ground arith in rw same (ground arith)
  | inr e ↦ rw e refl
]

-- The five writes to an entry, one behind the other.
by_vector :
    (i : ℕ) (filled start exceptions key clock : IdtDesc) (sym : Symbols)
    → filled ≡ start
    → exceptions ≡ (if ltb i 20 then set_idt_entry (sym.exception i) filled else filled)
    → key ≡ (if 0x21 == i then set_idt_entry sym.key_interrupt exceptions else exceptions)
    → clock ≡ (if 0x28 == i then set_idt_entry sym.rtc_interrupt key else key)
    → (if 0x80 == i then set_idt_entry sym.syscall_asm clock else clock)
      ≡ with_handler (handler_of sym i) start
by_vector i filled start exceptions key clock sym e0 e1 e2 e3 = elim (Bool-cases (ltb i 20)) [
  | inl low ↦ ground (arith, e0, e1, e2, e3)
  | inr high ↦ ground (arith, e0, e1, e2, e3)
]

-- The table, vector by vector.
initialize_idt-at :
    (sym : Symbols) (t : Idt) (i : ℕ)
    → i < 256
    → (initialize_idt sym t).idt i ≡ with_handler (handler_of sym i) (init_entry i (t.idt i))
unfolding initialize_idt
initialize_idt-at sym t i small =
    let filled = for_entries 256 0 init_entry t.idt in
    let exceptions = for_entries 20 0 (λ i e. set_idt_entry (sym.exception i) e) filled in
    let key = connect 0x21 sym.key_interrupt exceptions in
    let clock = connect 0x28 sym.rtc_interrupt key in
    let at_filled : filled i ≡ init_entry i (t.idt i) =
      for_entries_lem 256 0 init_entry t.idt i ∙ ground (arith, small) in
    let at_exceptions : exceptions i
        ≡ (if ltb i 20 then set_idt_entry (sym.exception i) (filled i) else filled i) =
      for_entries_lem 20 0 (λ i e. set_idt_entry (sym.exception i) e) filled i ∙ ground arith in
    connect_lem 0x80 sym.syscall_asm clock i
    ∙ by_vector i (filled i) (init_entry i (t.idt i)) (exceptions i) (key i) (clock i) sym at_filled
        at_exceptions (connect_lem 0x21 sym.key_interrupt exceptions i)
        (connect_lem 0x28 sym.rtc_interrupt key i)

whole_address : (h : ℕ) → h % 2 ^ 32 / 65536 * 65536 + h % 65536 ≡ h % 2 ^ 32
whole_address h = omega arith

-- Where a vector leads: to its handler, or to the address that the entry had.
abbrev pub address_of : Option ℕ → IdtDesc → ℕ
address_of none e = e.offset_31_16 * 65536 + e.offset_15_00
address_of (some h) e = h % 2 ^ 32

take_gate-init_entry :
    (e : IdtDesc) (h : Option ℕ) (cpl i : ℕ)
    → cpl ≤ 3
    → take_gate (with_handler h (init_entry i e)) cpl ≡ (
        if ltb i 32 && not (cpl == 0)
        then none
        else some (record { selector = 0x10; address = address_of h e; enabled = ltb i 32 }))
unfolding init_entry set_idt_entry
take_gate-init_entry e none cpl i level = elim (Bool-cases (ltb i 32)) [
  | inl low ↦ rw low (ground (arith, level))
  | inr high ↦ rw high (ground (arith, level))
]
take_gate-init_entry e (some h) cpl i level = elim (Bool-cases (ltb i 32)) [
  | inl low ↦ rw (low, whole_address h) (ground (arith, level))
  | inr high ↦ rw (high, whole_address h) (ground (arith, level))
]

-- After `initialize_idt`, an `int` instruction with a vector from 0 to 255: from the vectors below
-- 32 it is taken in the kernel only, with interrupts left enabled; from the others at every
-- privilege level, with interrupts switched off, the vectors of the keyboard and the clock
-- included. The vectors 0 to 19, 0x21, 0x28 and 0x80 lead to their handlers, every other to the
-- address its entry had before.
pub initialize_idt_lem :
    (sym : Symbols) (t : Idt) (cpl i : ℕ)
    → i < 256
    → cpl ≤ 3
    → take_interrupt (initialize_idt sym t).idt cpl i ≡ (
        if ltb i 32 && not (cpl == 0)
        then none
        else some (record {
          selector = 0x10;
          address = address_of (handler_of sym i) (t.idt i);
          enabled = ltb i 32;
        }))
initialize_idt_lem sym t cpl i small level =
    let inside : ltb i 256 ≡ true = ground (arith, small) in
    rw (inside) (
      ap (λ e. take_gate e cpl) (initialize_idt-at sym t i small)
      ∙ take_gate-init_entry (t.idt i) (handler_of sym i) cpl i level)
