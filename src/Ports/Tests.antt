-- ===== src/Ports/Tests.antt =====
-- The theorems on the hardware at concrete devices.
use si_stultum.Base.{chars}
use si_stultum.Format.Checked.{is_checked, checked_loop}
use si_stultum.Ports.Print.{serial_printf, IsLogged, serial_printf-IsLogged}
use si_stultum.Base.{ℕ, zero, suc, ◌%◌, ◌^◌, ◌<◌, true, ◌≡◌, refl, arith}
use si_stultum.Base.{[], ◌∷◌, some, bit_and}
use si_stultum.Ports.Machine.{Machine, Device, irq_set_mask, inb}
use si_stultum.Ports.Serial.{IsReadyAfter, polled}
use si_stultum.Ports.Machine.{written, fetched}
use si_stultum.Ports.Print.{kb, keyboard_handler, IsPatient, IsSent, keyboard_handler-IsSent}
use si_stultum.Ports.Mask.{IsMasked, irq_set_mask-IsMasked}

abbrev machine : Machine
machine = record { history = []; interrupts = true; ms_count = 7 }

-- Every port answers the byte 0xae, in which the status digit of the transmitter is set.
abbrev answering : Device
answering history port = 0xae

-- The line status is 0 twice, and then says that the transmitter is ready.
abbrev slow : Device
slow (a ∷ (b ∷ rest)) port = 0x20
slow _ port = 0

irq_set_mask-IsMasked_example :
    IsMasked answering machine 12 true (irq_set_mask answering 12 machine)
irq_set_mask-IsMasked_example = irq_set_mask-IsMasked answering 12 machine (omega arith)

busy_twice : (k : ℕ) → k < 2 → bit_and (slow (polled slow k machine).history 0x3fd % 2 ^ 8) 0x20 ≡ 0
unfolding polled inb
busy_twice zero h = refl
busy_twice (suc zero) h = refl
busy_twice (suc (suc k)) h = absurd (omega arith)

then_ready : bit_and (slow (polled slow 2 machine).history 0x3fd % 2 ^ 8) 0x20 ≡ 0x20
unfolding polled inb
then_ready = refl

slow-IsReadyAfter : IsReadyAfter slow 2 machine
slow-IsReadyAfter = record { busy = busy_twice; ready = λ e. absurd (omega (arith, then_ready)) }

-- The transmitter is always ready.
abbrev prompt : Device
prompt history port = 0x20

prompt-IsPatient : IsPatient prompt 1
prompt-IsPatient m =
    (0, omega arith, record { busy = λ k h. absurd (omega arith); ready = omega arith })

keyboard_handler-IsSent_example :
    (m1 : Machine) × IsSent kb machine m1
    × (keyboard_handler prompt 1 machine
        ≡ some (record m1 { history = written 0x20 0x20 ∷ (fetched 0x60 0x20 ∷ m1.history) }))
keyboard_handler-IsSent_example = keyboard_handler-IsSent prompt 1 machine prompt-IsPatient

hello_checked : is_checked (chars "hello") [] ≡ true
unfolding is_checked checked_loop
hello_checked = refl

serial_printf-IsLogged_example :
    (m' : Machine) × (serial_printf prompt 1 (chars "hello") [] machine ≡ some m')
    × IsLogged (chars "hello") [] machine m'
serial_printf-IsLogged_example =
    serial_printf-IsLogged prompt 1 (chars "hello") [] machine prompt-IsPatient hello_checked
