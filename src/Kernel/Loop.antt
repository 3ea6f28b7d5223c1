-- ===== src/Kernel/Loop.antt =====
-- The two endless loops at the end of _start, src/kernel.c, with the interrupts that come between their
-- actions: `while (ms_count < 3000) hlt`, and the loop that sends back what the serial port receives. An
-- interrupt within a message or within a handler is not seen. `none` means that the fuel for the polling ran
-- out.
pub mod Traffic
pub mod Silence
pub mod Time
pub mod Echo
pub mod Alive
mod Tests
use si_stultum.Base.{
  chars, ◌>>=◌, ℕ, suc, ◌+◌, Option, none, some, List, [], ◌∷◌, ltb, ◌==◌, if◌then◌else◌,
}
use si_stultum.Ports.Machine.{Machine, Device, timer_handler}
use si_stultum.Ports.Serial.{serial_received, kgetc, kputc}
use si_stultum.Ports.Print.{serial_printf, keyboard_handler}

-- Where the main program is: before the test of ms_count, in the first hlt, in the second one, and behind it.
pub data Phase : Type 0 where
  testing sleeping resting awake : Phase

pub record Running : Type 0 where
  pub phase : Phase
  pub machine : Machine

-- What happens next: an interrupt of the timer or of the keyboard, or an action of the main program.
pub data Input : Type 0 where
  tick key main : Input

-- hlt ends with an interrupt.
unfoldable pub wake : Phase → Phase
wake testing = testing
wake sleeping = testing
wake resting = awake
wake awake = awake

-- "Now try typing something.\n"
abbrev pub invitation : List ℕ
invitation = chars "Now try typing something.\n"

module _ (device : Device) (fuel : ℕ) where
  -- kputc(kgetc())
  unfoldable pub send_back : Machine → Option Machine
  unfolding kgetc kputc
  send_back m = do (m1, ch) ← kgetc device fuel m; (m2, put) ← kputc device fuel ch m1; some m2

  -- The body of the second loop behind its hlt.
  unfoldable pub echo : Machine → Option Machine
  unfolding serial_received send_back
  echo m =
      let (m0, answer) = serial_received device m in if answer == 0 then some m0 else send_back m0

  -- The message between the loops.
  unfoldable pub invite : Machine → Option Running
  unfolding serial_printf
  invite m = do
    m1 ← serial_printf device fuel invitation [] m
    some (record { phase = resting; machine = m1 })

  -- The main program's next action; in hlt it waits.
  unfoldable pub main_step : Phase → Machine → Option Running
  unfolding invite echo
  main_step testing m =
      if ltb m.ms_count 3000 then some (record { phase = sleeping; machine = m }) else invite m
  main_step sleeping m = some (record { phase = sleeping; machine = m })
  main_step resting m = some (record { phase = resting; machine = m })
  main_step awake m = do m1 ← echo m; some (record { phase = resting; machine = m1 })

  unfoldable pub on_key : Running → Option Running
  unfolding wake keyboard_handler
  on_key s = do
    m1 ← keyboard_handler device fuel s.machine
    some (record { phase = wake s.phase; machine = m1 })

  -- An interrupt waits while the flag is off.
  unfoldable pub step : Input → Running → Option Running
  unfolding wake timer_handler on_key main_step
  step tick s =
      if s.machine.interrupts
      then some (record { phase = wake s.phase; machine = timer_handler s.machine })
      else some s
  step key s = if s.machine.interrupts then on_key s else some s
  step main s = main_step s.phase s.machine

  unfoldable pub run : List Input → Running → Option Running
  unfolding step
  run [] s = some s
  run (e ∷ es) s = step e s >>= run es
