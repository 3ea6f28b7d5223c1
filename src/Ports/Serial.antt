-- ===== src/Ports/Serial.antt =====
-- The serial port, src/serial.c. A loop that polls the port takes fuel; `none` means that the fuel
-- ran out.
use si_stultum.Base.{ℕ, zero, suc, ◌<◌, bit_and, true, false, not, ◌≡◌, ◌≢◌, ◌↔◌, refl, arith}
use si_stultum.Base.{Option, none, some, ◌==◌, if◌then◌else◌, u8, ◌∷◌, Bool-cases, inl, inr}
use si_stultum.Ports.Machine.{written, Machine, Device, outb, inb}

≢→== : (a b : ℕ) → a ≢ b → (a == b) ≡ false
≢→== a b h = ground arith

≡→== : (a b : ℕ) → a ≡ b → (a == b) ≡ true
≡→== a b h = ground arith

module _ (device : Device) where
  -- serial_transmit_empty, where the returned int is 0 for a busy port.
  unfoldable pub serial_transmit_empty : Machine → Machine × ℕ
  unfolding inb
  serial_transmit_empty m = let (m', status) = inb device 0x3fd m in (m', bit_and status 0x20)

  unfoldable pub serial_received : Machine → Machine × ℕ
  unfolding inb
  serial_received m = let (m', status) = inb device 0x3fd m in (m', bit_and status 1)

  -- init_serial: 1 if the test byte does not come back.
  unfoldable pub init_serial : Machine → Machine × ℕ
  unfolding inb outb
  init_serial m =
      let m = outb 0x3f9 0x00 m in
      let m = outb 0x3fb 0x80 m in
      let m = outb 0x3f8 0x03 m in
      let m = outb 0x3f9 0x00 m in
      let m = outb 0x3fb 0x03 m in
      let m = outb 0x3fa 0xc7 m in
      let m = outb 0x3fc 0x0b m in
      let m = outb 0x3fc 0x1e m in
      let m = outb 0x3f8 0xae m in
      let (m, answer) = inb device 0x3f8 m in
      if not (answer == 0xae) then (m, 1) else (outb 0x3fc 0x0f m, 0)

  -- while (ready() == 0);
  unfoldable pub poll : (Machine → Machine × ℕ) → ℕ → Machine → Option Machine
  poll ready zero m = none
  poll ready (suc fuel) m =
      let (m', answer) = ready m in
      let rest = poll ready fuel m' in if answer == 0 then rest else some m'

  unfoldable pub kputc : ℕ → ℕ → Machine → Option (Machine × ℕ)
  unfolding poll serial_transmit_empty outb
  kputc fuel c m = elim (poll serial_transmit_empty fuel m) [
    | none ↦ none
    | some m' ↦ some (outb 0x3f8 c m', c)
  ]

  unfoldable pub kgetc : ℕ → Machine → Option (Machine × ℕ)
  unfolding poll serial_received inb
  kgetc fuel m = elim (poll serial_received fuel m) [
    | none ↦ none
    | some m' ↦ some (inb device 0x3f8 m')
  ]

  -- The machine after `n` reads of the line status.
  unfoldable pub polled : ℕ → Machine → Machine
  unfolding inb
  polled zero m = m
  polled (suc n) m = polled n (inb device 0x3fd m).0

  -- The answer of the line status after `n` reads of it.
  abbrev pub status_after : ℕ → Machine → ℕ
  status_after n m = u8 (device (polled n m).history 0x3fd)

  -- The transmitter is busy for n reads of the line status and ready at the next.
  pub record IsReadyAfter (n : ℕ) (m : Machine) : Type 0 where
    pub busy : (k : ℕ) → k < n → bit_and (status_after k m) 0x20 ≡ 0
    pub ready : bit_and (status_after n m) 0x20 ≢ 0

  poll_stuck :
      (fuel : ℕ) (m : Machine)
      → ((k : ℕ) → bit_and (status_after k m) 0x20 ≡ 0)
      → poll serial_transmit_empty fuel m ≡ none
  unfolding poll serial_transmit_empty polled inb
  poll_stuck zero m busy = refl
  poll_stuck (suc fuel) m busy =
      rw (≡→== _ _ (busy 0)) (poll_stuck fuel (inb device 0x3fd m).0 (λ k. busy (suc k)))

  poll-IsReadyAfter :
      (n fuel : ℕ) (m : Machine)
      → IsReadyAfter n m
      → n < fuel
      → poll serial_transmit_empty fuel m ≡ some (polled (suc n) m)
  unfolding poll serial_transmit_empty polled inb
  poll-IsReadyAfter n zero m h l = absurd (omega arith)
  poll-IsReadyAfter zero (suc fuel) m h l = rw (≢→== _ _ h.ready) refl
  poll-IsReadyAfter (suc n) (suc fuel) m h l = rw (≡→== _ _ (h.busy 0 (omega arith))) (
      poll-IsReadyAfter n fuel (inb device 0x3fd m).0
        (record { busy = λ k l. h.busy (suc k) (omega arith); ready = h.ready }) (omega arith))

  -- Where the transmitter becomes ready after n reads of the status, kputc with fuel for more
  -- returns the character, and has read the status n + 1 times and then sent the character's byte.
  pub kputc-IsReadyAfter :
      (n fuel c : ℕ) (m : Machine)
      → IsReadyAfter n m
      → n < fuel
      → kputc fuel c m ≡ some (outb 0x3f8 c (polled (suc n) m), c)
  unfolding kputc
  kputc-IsReadyAfter n fuel c m h l = rw (kputc, poll-IsReadyAfter n fuel m h l) refl

  -- Where the transmitter is never ready, kputc returns with no fuel.
  pub kputc_stuck :
      (fuel c : ℕ) (m : Machine)
      → ((k : ℕ) → bit_and (status_after k m) 0x20 ≡ 0)
      → kputc fuel c m ≡ none
  unfolding kputc
  kputc_stuck fuel c m busy = rw (kputc, poll_stuck fuel m busy) refl

  -- The machine at which init_serial reads the test byte back.
  unfoldable pub in_loopback : Machine → Machine
  unfolding outb
  in_loopback m = record m {
    history =
        written 0x3f8 0xae
        ∷ (written 0x3fc 0x1e
            ∷ (written 0x3fc 0x0b
                ∷ (written 0x3fa 0xc7
                    ∷ (written 0x3fb 0x03
                        ∷ (written 0x3f9 0x00
                            ∷ (written 0x3f8 0x03
                                ∷ (written 0x3fb 0x80 ∷ (written 0x3f9 0x00 ∷ m.history))))))));
  }

  -- init_serial reports success exactly if the test byte comes back over the loopback.
  pub init_serial_iff :
      (m : Machine) → ((init_serial m).1 ≡ 0) ↔ (u8 (device (in_loopback m).history 0x3f8) ≡ 0xae)
  unfolding init_serial in_loopback inb outb
  init_serial_iff m = elim (Bool-cases (u8 (device (in_loopback m).history 0x3f8) == 0xae)) [
    | inl back ↦ rw (init_serial, back) (ground arith)
    | inr lost ↦ rw (init_serial, lost) (ground arith)
  ]
