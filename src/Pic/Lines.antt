-- ===== src/Pic/Lines.antt =====
-- Which interrupt lines the controllers let through.
use my_linux_os.Common.{
  ℕ, ◌+◌, ◌-◌, ◌/◌, ◌%◌, ◌^◌, ◌<◌, ◌≡◌, refl, ap, ◌∙◌, Bool, true, false, ◌&&◌, List, [], ◌∷◌,
  Option, none, some, arith, bit_or, ltb, leb, ◌==◌, if◌then◌else◌, ==_iff, Bool-cases, inl, inr,
}
use my_linux_os.Common.Table.{holds_below, below_holds}
use my_linux_os.Io.{Io, PortEvent, out, inp}
use my_linux_os.Pic.{
  Pic, clear_bit, set_bit, enable_irq, disable_irq, i8259_init, send_eoi, master_pic_data,
  slave_pic_data,
}

unfoldable pub bit_of : ℕ → ℕ → ℕ
bit_of mask i = mask / 2 ^ i % 2

-- The mask bit of line `i` of the sixteen: the controllers let the line through when it is 0.
unfoldable pub masked : Pic → ℕ → ℕ
masked pic i = if ltb i 8 then bit_of pic.master_mask i else bit_of pic.slave_mask (i - 8)

check_bits : (ℕ → ℕ → ℕ) → ℕ → Bool
check_bits update v = holds_below 256 λ mask. holds_below 8 λ n. holds_below 8 λ i.
    ltb (update mask n) 256 && (bit_of (update mask n) i == (if i == n then v else bit_of mask i))

check_bits_sound :
    (update : ℕ → ℕ → ℕ) (v : ℕ)
    → check_bits update v ≡ true
    → (mask n i : ℕ) → mask < 256
    → n < 8
    → i < 8
    → (update mask n < 256) × (bit_of (update mask n) i ≡ (if i == n then v else bit_of mask i))
unfolding check_bits
check_bits_sound update v h mask n i hm hn hi =
    let at_mask = below_holds 256 _ mask h hm in
    let at_n = below_holds 8 _ n at_mask hn in let at_i = below_holds 8 _ i at_n hi in ground arith

clear_table : check_bits clear_bit 0 ≡ true
unfolding check_bits holds_below bit_of clear_bit
clear_table = refl

set_table : check_bits set_bit 1 ≡ true
unfolding check_bits holds_below bit_of set_bit
set_table = refl

update_clear :
    (mask n i : ℕ)
    → mask < 256
    → n < 8
    → i < 8
    → (clear_bit mask n < 256)
      × (bit_of (clear_bit mask n) i ≡ (if i == n then 0 else bit_of mask i))
update_clear = check_bits_sound clear_bit 0 clear_table

update_set :
    (mask n i : ℕ)
    → mask < 256
    → n < 8
    → i < 8
    → (set_bit mask n < 256) × (bit_of (set_bit mask n) i ≡ (if i == n then 1 else bit_of mask i))
update_set = check_bits_sound set_bit 1 set_table

-- The last byte written to a port.
abbrev pub last_out : ℕ → List PortEvent → Option ℕ
last_out p [] = none
last_out p (out v q ∷ log) = if p == q then some v else last_out p log
last_out p (inp q ∷ log) = last_out p log

-- The masks are bytes, and they are the last bytes written to the two data ports: outside of an
-- initialisation, these are the mask registers.
pub record IsSynced (pic : Pic) : Type 0 where
  pub master_byte : pic.master_mask < 256
  pub slave_byte : pic.slave_mask < 256
  pub master_set : last_out master_pic_data pic.io.log ≡ some pic.master_mask
  pub slave_set : last_out slave_pic_data pic.io.log ≡ some pic.slave_mask

module _ (n : ℕ) {pic : Pic} (s : IsSynced pic) (hn : n < 16) where
  -- Enabling or disabling one of the sixteen lines keeps the registers in step with the masks.
  pub enable_irq-IsSynced : IsSynced (enable_irq n pic)
  unfolding enable_irq
  enable_irq-IsSynced = ground (
    arith,
    update_clear pic.master_mask n 0 s.master_byte,
    update_clear pic.slave_mask (n - 8) 0 s.slave_byte,
  )

  pub disable_irq-IsSynced : IsSynced (disable_irq n pic)
  unfolding disable_irq
  disable_irq-IsSynced = ground (
    arith,
    update_set pic.master_mask n 0 s.master_byte,
    update_set pic.slave_mask (n - 8) 0 s.slave_byte,
  )

  masked-enable_irq :
      (i : ℕ) → i < 16 → masked (enable_irq n pic) i ≡ (if i == n then 0 else masked pic i)
  unfolding enable_irq masked
  masked-enable_irq i hi = ground (
    arith,
    update_clear pic.master_mask n i s.master_byte,
    update_clear pic.slave_mask (n - 8) (i - 8) s.slave_byte,
  )

  masked-disable_irq :
      (i : ℕ) → i < 16 → masked (disable_irq n pic) i ≡ (if i == n then 1 else masked pic i)
  unfolding disable_irq masked
  masked-disable_irq i hi = ground (
    arith,
    update_set pic.master_mask n i s.master_byte,
    update_set pic.slave_mask (n - 8) (i - 8) s.slave_byte,
  )

-- From controllers whose registers hold the masks, enabling one of the sixteen lines clears the mask
-- bit of that line and keeps the other fifteen, and the registers still hold the masks.
pub enable_irq_lem :
    (n : ℕ) {pic : Pic}
    → IsSynced pic
    → n < 16
    → IsSynced (enable_irq n pic)
      × ((i : ℕ) → i < 16 → masked (enable_irq n pic) i ≡ (if i == n then 0 else masked pic i))
enable_irq_lem n s hn = (enable_irq-IsSynced n s hn, masked-enable_irq n s hn)

-- Disabling one of the sixteen lines sets the mask bit of that line and keeps the other fifteen, and
-- the registers still hold the masks.
disable_irq_lem :
    (n : ℕ) {pic : Pic}
    → IsSynced pic
    → n < 16
    → IsSynced (disable_irq n pic)
      × ((i : ℕ) → i < 16 → masked (disable_irq n pic) i ≡ (if i == n then 1 else masked pic i))
disable_irq_lem n s hn = (disable_irq-IsSynced n s hn, masked-disable_irq n s hn)

only_cascade : ℕ → Bool
only_cascade i =
    (if ltb i 8 then bit_of 0xfb i else bit_of 0xff (i - 8)) == (if i == 2 then 0 else 1)

only_cascade_table : holds_below 16 only_cascade ≡ true
unfolding holds_below only_cascade bit_of
only_cascade_table = refl

-- After the initialisation the last bytes are the masks, and of the sixteen lines only line 2,
-- where the second controller is connected, is let through.
pub i8259_init-IsSynced :
    (io : Io) (i : ℕ)
    → i < 16
    → IsSynced (i8259_init io) × (masked (i8259_init io) i ≡ (if i == 2 then 0 else 1))
unfolding i8259_init clear_bit masked
i8259_init-IsSynced io i h = (
  record {
    master_byte = omega arith;
    slave_byte = omega arith;
    master_set = refl;
    slave_set = refl;
  },
  unfold only_cascade in (==_iff _ _).0 (below_holds 16 only_cascade i only_cascade_table h),
)

-- The line that a command byte acknowledges: a specific end of interrupt is 0x60 to 0x67, with the
-- controller's line in the low three bits.
unfoldable pub acknowledged : PortEvent → List ℕ → List ℕ
acknowledged (inp p) ls = ls
acknowledged (out v p) ls =
    if leb 0x60 v && leb v 0x67
    then (if p == 0x20 then (v - 0x60) ∷ ls else if p == 0xa0 then (v - 0x60 + 8) ∷ ls else ls)
    else ls

-- The lines acknowledged in a log, newest first.
unfoldable pub acknowledgements : List PortEvent → List ℕ
unfolding acknowledged
acknowledgements [] = []
acknowledgements (e ∷ log) = acknowledged e (acknowledgements log)

eoi_is : ℕ → Bool
eoi_is l = bit_or 0x60 l % 256 == (0x60 + l)

eoi_table : holds_below 8 eoi_is ≡ true
unfolding holds_below eoi_is
eoi_table = refl

eoi_lem : (l : ℕ) → l < 8 → bit_or 0x60 l % 256 ≡ 0x60 + l
eoi_lem l h = unfold eoi_is in (==_iff _ _).0 (below_holds 8 eoi_is l eoi_table h)

ack_master :
    (l : ℕ) (ls : List ℕ) → l < 8 → acknowledged (out (bit_or 0x60 l % 256) 0x20) ls ≡ l ∷ ls
unfolding acknowledged
ack_master l ls h = rw (eoi_lem l h) (ground arith)

ack_slave :
    (l : ℕ) (ls : List ℕ) → l < 8 → acknowledged (out (bit_or 0x60 l % 256) 0xa0) ls ≡ (l + 8) ∷ ls
unfolding acknowledged
ack_slave l ls h = rw (eoi_lem l h) (ground arith)

-- The end of an interrupt on one of the sixteen lines acknowledges that line, and first line 2 of the
-- first controller if the line is one of the second's; nothing else.
pub send_eoi_lem :
    (n : ℕ) (io : Io)
    → n < 16
    → acknowledgements (send_eoi n io).log
      ≡ (if ltb n 8 then n ∷ acknowledgements io.log else n ∷ 2 ∷ acknowledgements io.log)
unfolding send_eoi
send_eoi_lem n io h = elim (Bool-cases (leb 8 n)) [
  | inl second ↦
      let back : n - 8 + 8 ≡ n = ground arith in
      let test : ltb n 8 ≡ false = ground arith in
      rw (second, test)
        (unfold acknowledgements in
          ack_slave (n - 8) (2 ∷ acknowledgements io.log) (omega arith)
          ∙ ap (λ (t : ℕ). t ∷ 2 ∷ acknowledgements io.log) back)
  | inr first ↦
      let test : ltb n 8 ≡ true = ground arith in
      rw (first, test)
        (unfold acknowledgements in ack_master n (acknowledgements io.log) (ground arith))
]
