-- ===== src/Kernel/Faults.antt =====
-- The fault handlers of src/interrupts.c: what they print before they loop for ever.
use si_stultum.Base.{chars, ℕ, Option, none, some, ◌≡◌, refl, List, [], ◌∷◌}
use si_stultum.Console.{Console, Renderer, err, puts, set_color, red, white}
use si_stultum.Console.Colours.{joined, putsx_lem}
use si_stultum.Ports.Machine.{Machine, Device}
use si_stultum.Ports.Print.{kputs, IsPatient, IsSent, kputs-IsSent}

abbrev pub page_fault_text : List ℕ
page_fault_text = chars "Page fault detected."

abbrev pub double_fault_text : List ℕ
double_fault_text = chars "Double fault detected."

abbrev pub protection_fault_text : List ℕ
protection_fault_text = chars "General protection fault detected."

abbrev pub line_feed : List ℕ
line_feed = chars "\n"

abbrev pub aborting : List ℕ
aborting = chars "Aborting..."

abbrev pub aborted : List ℕ
aborted = chars "Aborted.\n"

module _ (device : Device) (ssfn_putc : Renderer) where
  -- The body that the three handlers share, up to `for (;;);`, with fuel for the serial port.
  unfoldable pub fault_handler : ℕ → List ℕ → Console × Machine → Option (Console × Machine)
  unfolding err kputs
  fault_handler fuel message (c, m) = elim (kputs device fuel aborted m) [
    | none ↦ none
    | some m' ↦ some (err ssfn_putc (message ∷ (line_feed ∷ (aborting ∷ []))) c, m')
  ]

  unfoldable pub page_fault_handler : ℕ → Console × Machine → Option (Console × Machine)
  unfolding fault_handler
  page_fault_handler fuel s = fault_handler fuel page_fault_text s

  unfoldable pub double_fault_handler : ℕ → Console × Machine → Option (Console × Machine)
  unfolding fault_handler
  double_fault_handler fuel s = fault_handler fuel double_fault_text s

  unfoldable pub general_protection_fault_handler :
      ℕ → Console × Machine → Option (Console × Machine)
  unfolding fault_handler
  general_protection_fault_handler fuel s = fault_handler fuel protection_fault_text s

  -- Where the transmitter always becomes ready within the fuel, a fault handler comes to its endless loop,
  -- with its message on the screen in white on red, the screen's colours as before, and the line on the
  -- serial port.
  pub fault_handler-IsSent :
      (fuel : ℕ) (message : List ℕ) (c : Console) (m : Machine)
      → IsPatient device fuel
      → (m' : Machine) × (fault_handler fuel message (c, m)
          ≡ some (
            set_color c.fg c.bg (
                puts ssfn_putc
                  (joined (message ∷ (line_feed ∷ (aborting ∷ []))))
                  (set_color white red c)),
            m',
          ))
        × IsSent aborted m m'
  unfolding fault_handler err
  fault_handler-IsSent fuel message c m patient =
      let (m', returned, all_sent) = kputs-IsSent device fuel aborted m patient in
      (
        m',
        rw
            (
              fault_handler,
              returned,
              putsx_lem ssfn_putc white red (message ∷ (line_feed ∷ (aborting ∷ []))) c,
            )
            refl,
        all_sent,
      )
