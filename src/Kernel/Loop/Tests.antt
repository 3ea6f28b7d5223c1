-- ===== src/Kernel/Loop/Tests.antt =====
-- The loops of _start with a serial port that always holds the letter a.
use si_stultum.Base.{ℕ, ◌<◌, true, some, List, [], ◌∷◌, ◌≡◌, refl, arith}
use si_stultum.Ports.Machine.{Machine, Device, written, fetched, timer_handler, send_eoi, outb, inb}
use si_stultum.Ports.Serial.{poll, kgetc, kputc, serial_received, serial_transmit_empty}
use si_stultum.Ports.Print.{sent, IsPatient, IsLogged}
use si_stultum.Kernel.Loop.{
  testing, sleeping, resting, Running, tick, key, main, wake, invitation, send_back, echo,
  main_step, step, run,
}
use si_stultum.Kernel.Loop.Silence.{keys, after_keys}
use si_stultum.Kernel.Loop.Time.{ticks, IsTimed, run-IsTimed, nap, nap-IsLogged}
use si_stultum.Kernel.Loop.Echo.{IsEchoed, run-IsEchoed}
use si_stultum.Kernel.Loop.Alive.{IsSteady, run_defined}

-- Every port answers 0x61: the transmitter is ready, and there is a byte.
abbrev letter_a : Device
letter_a history port = 0x61

letter_a-IsPatient : IsPatient letter_a 4
letter_a-IsPatient m = (
  0,
  omega arith,
  record { busy = λ j h. absurd (omega arith); ready = λ e. absurd (omega (arith, e)) },
)

letter_a-IsSteady : IsSteady letter_a
unfolding serial_received inb
letter_a-IsSteady m there = λ e. absurd (omega (arith, e))

abbrev at_count : ℕ → Machine
at_count n = record { history = []; interrupts = true; ms_count = n }

abbrev early : Running
early = record { phase = testing; machine = at_count 7 }

abbrev later : Running
later = record {
  phase = sleeping;
  machine = record { history = written 0x20 0x20 ∷ []; interrupts = true; ms_count = 8 };
}

early-run : run letter_a 4 (main ∷ (tick ∷ (main ∷ []))) early ≡ some later
unfolding run step main_step wake timer_handler send_eoi outb
early-run = refl

run-IsTimed_example :
    IsTimed 8 later × (8 < 3000 → sent later.machine.history ≡ sent early.machine.history)
unfolding ticks keys after_keys
run-IsTimed_example =
    run-IsTimed letter_a 4 (main ∷ (tick ∷ (main ∷ []))) 7 early later
      (record { count = refl; interrupts = refl; late = λ e. absurd e }) early-run

nap-IsLogged_example :
    (m0 m1 : Machine) × (run letter_a 4
        (nap 2)
        (record { phase = sleeping; machine = at_count 2998 })
      ≡ some (record { phase = resting; machine = m1 }))
    × (m0.ms_count ≡ 3000)
    × IsLogged invitation [] m0 m1
nap-IsLogged_example =
    nap-IsLogged letter_a 4 letter_a-IsPatient 2 (at_count 2998) refl (omega arith) refl

abbrev waiting : Running
waiting = record { phase = resting; machine = at_count 5000 }

abbrev echoed : Running
echoed = record {
  phase = resting;
  machine = record {
    history =
        written 0x3f8 0x61
        ∷ (fetched 0x3fd 0x61
            ∷ (fetched 0x3f8 0x61
                ∷ (fetched 0x3fd 0x61 ∷ (fetched 0x3fd 0x61 ∷ (written 0x20 0x20 ∷ [])))));
    interrupts = true;
    ms_count = 5001;
  };
}

echo-run : run letter_a 4 (tick ∷ (main ∷ [])) waiting ≡ some echoed
unfolding run step main_step wake timer_handler send_eoi outb inb echo send_back kgetc kputc poll
    serial_received serial_transmit_empty
echo-run = refl

run-IsEchoed_example : (bs : List ℕ) × IsEchoed bs waiting echoed
run-IsEchoed_example = run-IsEchoed letter_a 4 (tick ∷ (main ∷ [])) waiting echoed tt tt echo-run

run_defined_example :
    (t : Running) × (run letter_a 4 (tick ∷ (key ∷ (main ∷ (main ∷ [])))) waiting ≡ some t)
run_defined_example =
    run_defined letter_a 4 letter_a-IsPatient letter_a-IsSteady (omega arith)
      (tick ∷ (key ∷ (main ∷ (main ∷ [])))) waiting
