-- ===== src/Ports/Print.antt =====
-- kputs of src/serial.c, serial_printf of src/serial.h and Keyboard_Handler of src/interrupts.c. The time
-- stamp is read once; a timer interrupt between is not seen. `none` means that the fuel for the polling
-- ran out, or that the format is undefined.
use si_stultum.Base.{chars, ℕ, zero, suc, ◌/◌, ◌%◌, ◌<◌, Option, none, some, ◌≡◌, refl, ap, ◌∙◌}
use si_stultum.Base.{true, sym, ◌++◌, List, [], ◌∷◌, ◌==◌, if◌then◌else◌, u8}
use si_stultum.Ports.Machine.{
  Event, written, fetched, written_word, written_long, Machine, Device, outb, inb, send_eoi,
}
use si_stultum.Ports.Serial.{kputc, polled, IsReadyAfter, kputc-IsReadyAfter}
use si_stultum.Format.{Printed}
use si_stultum.Format.Directive.{
  Arg, word, proto_print, read_directive, read_flags, apply_flag, read_width, read_precision,
  read_int, read_length,
}
use si_stultum.Format.Checked.{is_checked, checked_loop, proto_print-is_checked}

abbrev pub stamp : List ℕ
stamp = chars "[%9d.%03d] "

-- The bytes that have been sent to the serial port, the last one first; only single bytes go there.
unfoldable pub sent : List Event → List ℕ
sent [] = []
sent (written port value ∷ before) =
    let rest = sent before in if port == 0x3f8 then value ∷ rest else rest
sent (fetched port value ∷ before) = sent before
sent (written_word port value ∷ before) = sent before
sent (written_long port value ∷ before) = sent before

-- The bytes of a string on top of those sent before.
unfoldable pub pushed : List ℕ → List ℕ → List ℕ
pushed [] before = before
pushed (c ∷ cs) before = pushed cs (u8 c ∷ before)

abbrev pub kb : List ℕ
kb = chars " KB\n"

-- What is sent, and nothing else of the machine but the accesses.
pub record IsSent (cs : List ℕ) (m m' : Machine) : Type 0 where
  pub bytes : sent m'.history ≡ pushed cs (sent m.history)
  pub same_interrupts : m'.interrupts ≡ m.interrupts
  pub same_count : m'.ms_count ≡ m.ms_count

pushed-append : (cs ds before : List ℕ) → pushed (cs ++ ds) before ≡ pushed ds (pushed cs before)
unfolding pushed
pushed-append [] ds before = refl
pushed-append (c ∷ cs) ds before = pushed-append cs ds (u8 c ∷ before)

IsSent-trans :
    (cs ds : List ℕ) (m m1 m2 : Machine) → IsSent cs m m1 → IsSent ds m1 m2 → IsSent (cs ++ ds) m m2
IsSent-trans cs ds m m1 m2 first then_rest = record {
  bytes = then_rest.bytes ∙ ap (pushed ds) first.bytes ∙ sym (pushed-append cs ds (sent m.history));
  same_interrupts = then_rest.same_interrupts ∙ first.same_interrupts;
  same_count = then_rest.same_count ∙ first.same_count;
}

-- The stamp is always defined: both numbers are ints.
stamp_defined :
    (seconds rest : ℕ)
    → (time : Printed) × (proto_print stamp (word seconds ∷ (word rest ∷ [])) ≡ some time)
unfolding is_checked checked_loop read_directive read_flags apply_flag read_width read_precision
    read_int read_length
stamp_defined seconds rest = proto_print-is_checked stamp (word seconds ∷ (word rest ∷ [])) refl

-- What serial_printf sends: the time stamp and the text.
pub record IsLogged (format : List ℕ) (args : List Arg) (m m' : Machine) : Type 0 where
  pub time : Printed
  pub text : Printed
  pub stamped :
      proto_print stamp (word (m.ms_count / 1000) ∷ (word (m.ms_count % 1000) ∷ [])) ≡ some time
  pub printed : proto_print format args ≡ some text
  pub sent_all : IsSent (time.out ++ text.out) m m'

module _ (device : Device) where
  unfoldable pub kputs : ℕ → List ℕ → Machine → Option Machine
  unfolding kputc
  kputs fuel [] m = some m
  kputs fuel (c ∷ cs) m = elim (kputc device fuel c m) [
    | none ↦ none
    | some (m', c') ↦ kputs fuel cs m'
  ]

  -- serial_printf; __proto_print calls kputc for each character that goes out.
  unfoldable pub serial_printf : ℕ → List ℕ → List Arg → Machine → Option Machine
  unfolding kputs proto_print
  serial_printf fuel format args m =
      elim (proto_print stamp (word (m.ms_count / 1000) ∷ (word (m.ms_count % 1000) ∷ []))) [
        | none ↦ none
        | some time ↦ elim (kputs fuel time.out m) [
          | none ↦ none
          | some m1 ↦ elim (proto_print format args) [
            | none ↦ none
            | some text ↦ kputs fuel text.out m1
          ]
        ]
      ]

  unfoldable pub keyboard_handler : ℕ → Machine → Option Machine
  unfolding kputs inb send_eoi
  keyboard_handler fuel m = elim (kputs fuel kb m) [
    | none ↦ none
    | some m1 ↦ some (send_eoi 0 (inb device 0x60 m1).0)
  ]

  -- From every state on, the transmitter becomes ready within the fuel.
  abbrev pub IsPatient : ℕ → Type 0
  IsPatient fuel = (m : Machine) → (n : ℕ) × (n < fuel) × IsReadyAfter device n m

  polled-IsSent : (n : ℕ) (m : Machine) → IsSent [] m (polled device n m)
  unfolding polled sent pushed inb
  polled-IsSent zero m = record { bytes = refl; same_interrupts = refl; same_count = refl }
  polled-IsSent (suc n) m =
      let rest = polled-IsSent n (inb device 0x3fd m).0 in
      record {
        bytes = rest.bytes;
        same_interrupts = rest.same_interrupts;
        same_count = rest.same_count;
      }

  pub kputc-IsSent :
      (fuel c : ℕ) (m : Machine)
      → IsPatient fuel
      → (m' : Machine) × (kputc device fuel c m ≡ some (m', c)) × IsSent (c ∷ []) m m'
  unfolding sent pushed outb
  kputc-IsSent fuel c m patient =
      let (n, within, ready) = patient m in
      let quiet = polled-IsSent (suc n) m in
      (
        outb 0x3f8 c (polled device (suc n) m),
        kputc-IsReadyAfter device n fuel c m ready within,
        record {
          bytes = ap (λ h. u8 c ∷ h) quiet.bytes;
          same_interrupts = quiet.same_interrupts;
          same_count = quiet.same_count;
        },
      )

  -- Where the transmitter always becomes ready within the fuel, kputs returns, and has sent the bytes of
  -- the string in their order and nothing else.
  pub kputs-IsSent :
      (fuel : ℕ) (cs : List ℕ) (m : Machine)
      → IsPatient fuel
      → (m' : Machine) × (kputs fuel cs m ≡ some m') × IsSent cs m m'
  unfolding kputs pushed
  kputs-IsSent fuel [] m patient =
      (m, refl, record { bytes = refl; same_interrupts = refl; same_count = refl })
  kputs-IsSent fuel (c ∷ cs) m patient =
      let (m1, put, first) = kputc-IsSent fuel c m patient in
      let (m2, returned, rest) = kputs-IsSent fuel cs m1 patient in
      (
        m2,
        rw (kputs, put) returned,
        record {
          bytes = rest.bytes ∙ ap (pushed cs) first.bytes;
          same_interrupts = rest.same_interrupts ∙ first.same_interrupts;
          same_count = rest.same_count ∙ first.same_count;
        },
      )

  -- Where the transmitter always becomes ready within the fuel, and the arguments fit the format, which has
  -- only %d and %s and prints at most 2 ^ 31 - 1 characters as `is_checked` counts them, serial_printf returns: nothing
  -- is undefined, and it has sent the time stamp and then the text and nothing else.
  pub serial_printf-IsLogged :
      (fuel : ℕ) (format : List ℕ) (args : List Arg) (m : Machine)
      → IsPatient fuel
      → is_checked format args ≡ true
      → (m' : Machine) × (serial_printf fuel format args m ≡ some m') × IsLogged format args m m'
  unfolding serial_printf
  serial_printf-IsLogged fuel format args m patient checked =
      let (time, stamped) = stamp_defined (m.ms_count / 1000) (m.ms_count % 1000) in
      let (text, printed) = proto_print-is_checked format args checked in
      let (m1, returned1, sent1) = kputs-IsSent fuel time.out m patient in
      let (m2, returned2, sent2) = kputs-IsSent fuel text.out m1 patient in
      (
        m2,
        rw (serial_printf, stamped, returned1, printed, returned2) refl,
        record {
          time = time;
          text = text;
          stamped = stamped;
          printed = printed;
          sent_all = IsSent-trans time.out text.out m m1 m2 sent1 sent2;
        },
      )

  -- Where the transmitter always becomes ready within the fuel, Keyboard_Handler returns, and has sent its
  -- message, then read the byte of the keyboard, and acknowledged the interrupt last.
  pub keyboard_handler-IsSent :
      (fuel : ℕ) (m : Machine)
      → IsPatient fuel
      → (m1 : Machine) × IsSent kb m m1
        × (keyboard_handler fuel m
            ≡ some (record m1 {
              history =
                  written 0x20 0x20 ∷ (fetched 0x60 (u8 (device m1.history 0x60)) ∷ m1.history);
            }))
  unfolding keyboard_handler send_eoi inb outb
  keyboard_handler-IsSent fuel m patient =
      let (m1, returned, sent_all) = kputs-IsSent fuel kb m patient in
      (m1, sent_all, rw (keyboard_handler, returned) refl)
