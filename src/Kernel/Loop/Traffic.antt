-- ===== src/Kernel/Loop/Traffic.antt =====
-- What the functions of src/serial.c that poll the port leave, if they return: the traffic on the serial
-- port, the interrupt flag and the counter.
use si_stultum.Base.{
  ◌>>=◌, ℕ, zero, suc, ◌/◌, ◌%◌, ◌^◌, ◌<◌, Bool, true, false, Option, none, some, List, [], ◌∷◌,
  ◌++◌, u8, ◌≡◌, refl, sym, ap, ◌∙◌, arith, inl, inr, Bool-cases, ◌==◌, if◌then◌else◌,
}
use mathlib.Core.Path.{subst}
use mathlib.Core.List.{append_assoc}
use si_stultum.Format.{Printed}
use si_stultum.Format.Directive.{Arg, word, proto_print}
use si_stultum.Ports.Machine.{
  Event, written, fetched, written_word, written_long, Machine, Device, outb, inb, send_eoi,
}
use si_stultum.Ports.Serial.{poll, kgetc, kputc, serial_received, serial_transmit_empty}
use si_stultum.Ports.Print.{serial_printf, kputs, keyboard_handler, sent, pushed, stamp, kb}

-- The bytes that have been read from the serial port, the last one first.
unfoldable pub received : List Event → List ℕ
received [] = []
received (written port value ∷ before) = received before
received (written_word port value ∷ before) = received before
received (written_long port value ∷ before) = received before
received (fetched port value ∷ before) =
    let rest = received before in if port == 0x3f8 then value ∷ rest else rest

-- Between two machines the bytes of `out` are sent and those of `got` are received, the last one first each, and
-- the interrupt flag and the counter stay.
pub record IsTraffic (out got : List ℕ) (m m' : Machine) : Type 0 where
  pub sent_lem : sent m'.history ≡ out ++ sent m.history
  pub received_lem : received m'.history ≡ got ++ received m.history
  pub same_interrupts : m'.interrupts ≡ m.interrupts
  pub same_count : m'.ms_count ≡ m.ms_count

pub IsTraffic-trans :
    (out out' got got' : List ℕ) (m m1 m2 : Machine)
    → IsTraffic out got m m1
    → IsTraffic out' got' m1 m2
    → IsTraffic (out' ++ out) (got' ++ got) m m2
IsTraffic-trans out out' got got' m m1 m2 first second = record {
  sent_lem =
      second.sent_lem
      ∙ ap (λ x. out' ++ x) first.sent_lem
      ∙ sym (append_assoc out' out (sent m.history));
  received_lem =
      second.received_lem
      ∙ ap (λ x. got' ++ x) first.received_lem
      ∙ sym (append_assoc got' got (received m.history));
  same_interrupts = second.same_interrupts ∙ first.same_interrupts;
  same_count = second.same_count ∙ first.same_count;
}

quiet : (m : Machine) → IsTraffic [] [] m m
quiet m = record { sent_lem = refl; received_lem = refl; same_interrupts = refl; same_count = refl }

-- What a `do` block leaves if it returns.
pub returned :
    {A B : Type 0} (o : Option A) (f : A → Option B) (b : B)
    → (o >>= f) ≡ some b
    → (a : A) × (o ≡ some a) × (f a ≡ some b)
returned none f b is = absurd (ground arith)
returned (some a) f b is = (a, refl, is)

pub if_true : {A : Type 0} (b : Bool) (x y : A) → b ≡ true → (if b then x else y) ≡ x
if_true b x y e = rw e refl

pub if_false : {A : Type 0} (b : Bool) (x y : A) → b ≡ false → (if b then x else y) ≡ y
if_false b x y e = rw e refl

pub some_injective : {A : Type 0} (a b : A) → some a ≡ some b → a ≡ b
some_injective a b is = cc

elim-bind :
    {A B : Type 0} (o : Option A) (f : A → Option B)
    → (elim o [ none ↦ none | some a ↦ f a ]) ≡ (o >>= f)
elim-bind none f = refl
elim-bind (some a) f = refl

module _ (device : Device) where
  inb-IsTraffic : (m : Machine) → IsTraffic [] [] m (inb device 0x3fd m).0
  unfolding inb sent received
  inb-IsTraffic m = record {
    sent_lem = refl;
    received_lem = refl;
    same_interrupts = refl;
    same_count = refl;
  }

  poll-IsTraffic :
      (ready : Machine → Machine × ℕ) (each : (m : Machine) → IsTraffic [] [] m (ready m).0)
      (fuel : ℕ) (m m' : Machine)
      → poll device ready fuel m ≡ some m'
      → IsTraffic [] [] m m'
  unfolding poll
  poll-IsTraffic ready each zero m m' is = absurd (ground arith)
  poll-IsTraffic ready each (suc fuel) m m' is = elim (Bool-cases ((ready m).1 == 0)) [
    | inl busy ↦
        IsTraffic-trans [] [] [] [] m (ready m).0 m' (each m)
          (poll-IsTraffic ready each fuel (ready m).0 m' (rw busy at is))
    | inr done ↦
        let last : some (ready m).0 ≡ some m' = rw done at is in
        subst (IsTraffic [] [] m) (some_injective (ready m).0 m' last) (each m)
  ]

  kputc-bind :
      (fuel c : ℕ) (m : Machine)
      → kputc device fuel c m
        ≡ (poll device (serial_transmit_empty device) fuel m >>= λ m1. some (outb 0x3f8 c m1, c))
  unfolding kputc
  kputc-bind fuel c m =
      elim-bind (poll device (serial_transmit_empty device) fuel m)
        (λ m1. some (outb 0x3f8 c m1, c))

  outb-IsTraffic : (c : ℕ) (m : Machine) → IsTraffic (u8 c ∷ []) [] m (outb 0x3f8 c m)
  unfolding outb sent received
  outb-IsTraffic c m = record {
    sent_lem = refl;
    received_lem = refl;
    same_interrupts = refl;
    same_count = refl;
  }

  status-IsTraffic : (m : Machine) → IsTraffic [] [] m (serial_transmit_empty device m).0
  unfolding serial_transmit_empty
  status-IsTraffic m = inb-IsTraffic m

  pub kputc-IsTraffic :
      (fuel c : ℕ) (m : Machine) (out : Machine × ℕ)
      → kputc device fuel c m ≡ some out
      → IsTraffic (u8 c ∷ []) [] m out.0
  kputc-IsTraffic fuel c m out is =
      let (m1, polled, put) =
        returned (poll device (serial_transmit_empty device) fuel m)
          (λ m1. some (outb 0x3f8 c m1, c)) out (sym (kputc-bind fuel c m) ∙ is) in
      let all =
        IsTraffic-trans [] (u8 c ∷ []) [] [] m m1 (outb 0x3f8 c m1)
          (poll-IsTraffic (serial_transmit_empty device) status-IsTraffic fuel m m1 polled)
          (outb-IsTraffic c m1) in
      subst (λ (o : Machine × ℕ). IsTraffic (u8 c ∷ []) [] m o.0)
        (some_injective (outb 0x3f8 c m1, c) out put) all

  pub kgetc-bind :
      (fuel : ℕ) (m : Machine)
      → kgetc device fuel m
        ≡ (poll device (serial_received device) fuel m >>= λ m1. some (inb device 0x3f8 m1))
  unfolding kgetc
  kgetc-bind fuel m =
      elim-bind (poll device (serial_received device) fuel m) (λ m1. some (inb device 0x3f8 m1))

  fetch-IsTraffic :
      (m : Machine) → IsTraffic [] ((inb device 0x3f8 m).1 ∷ []) m (inb device 0x3f8 m).0
  unfolding inb sent received
  fetch-IsTraffic m = record {
    sent_lem = refl;
    received_lem = refl;
    same_interrupts = refl;
    same_count = refl;
  }

  pub serial_received-IsTraffic : (m : Machine) → IsTraffic [] [] m (serial_received device m).0
  unfolding serial_received
  serial_received-IsTraffic m = inb-IsTraffic m

  inb-lt : (m : Machine) → (inb device 0x3f8 m).1 < 2 ^ 8
  unfolding inb
  inb-lt m = omega arith

  -- kgetc returns the one byte that it has received.
  pub kgetc-IsTraffic :
      (fuel : ℕ) (m : Machine) (out : Machine × ℕ)
      → kgetc device fuel m ≡ some out
      → IsTraffic [] (out.1 ∷ []) m out.0 × (out.1 < 2 ^ 8)
  kgetc-IsTraffic fuel m out is =
      let (m1, polled, got) =
        returned (poll device (serial_received device) fuel m) (λ m1. some (inb device 0x3f8 m1))
          out (sym (kgetc-bind fuel m) ∙ is) in
      let all =
        IsTraffic-trans [] [] [] ((inb device 0x3f8 m1).1 ∷ []) m m1 (inb device 0x3f8 m1).0
          (poll-IsTraffic (serial_received device) serial_received-IsTraffic fuel m m1 polled)
          (fetch-IsTraffic m1) in
      subst (λ (o : Machine × ℕ). IsTraffic [] (o.1 ∷ []) m o.0 × (o.1 < 2 ^ 8))
        (some_injective (inb device 0x3f8 m1) out got) (all, inb-lt m1)

  kputs-bind :
      (fuel c : ℕ) (cs : List ℕ) (m : Machine)
      → kputs device fuel (c ∷ cs) m
        ≡ (kputc device fuel c m >>= λ (o : Machine × ℕ). kputs device fuel cs o.0)
  unfolding kputs
  kputs-bind fuel c cs m =
      elim-bind (kputc device fuel c m) (λ (o : Machine × ℕ). kputs device fuel cs o.0)

  -- The strings of kputs go out, whatever they are.
  pub kputs-IsTraffic :
      (fuel : ℕ) (cs : List ℕ) (m m' : Machine)
      → kputs device fuel cs m ≡ some m'
      → (out : List ℕ) × IsTraffic out [] m m'
  kputs-IsTraffic fuel [] m m' is =
      ([], subst (IsTraffic [] [] m) (some_injective m m' (unfold kputs in is)) (quiet m))
  kputs-IsTraffic fuel (c ∷ cs) m m' is =
      let (o, put, others) =
        returned (kputc device fuel c m) (λ (o : Machine × ℕ). kputs device fuel cs o.0) m'
          (sym (kputs-bind fuel c cs m) ∙ is) in
      let (out, rest) = kputs-IsTraffic fuel cs o.0 m' others in
      (
        out ++ (u8 c ∷ []),
        IsTraffic-trans (u8 c ∷ []) out [] [] m o.0 m' (kputc-IsTraffic fuel c m o put) rest,
      )

  -- kputs sends the bytes of its string in their order, if it returns.
  kputs-pushed :
      (fuel : ℕ) (cs : List ℕ) (m m' : Machine)
      → kputs device fuel cs m ≡ some m'
      → sent m'.history ≡ pushed cs (sent m.history)
  unfolding pushed
  kputs-pushed fuel [] m m' is =
      ap (λ x. sent x.history) (sym (some_injective m m' (unfold kputs in is)))
  kputs-pushed fuel (c ∷ cs) m m' is =
      let (o, put, others) =
        returned (kputc device fuel c m) (λ (o : Machine × ℕ). kputs device fuel cs o.0) m'
          (sym (kputs-bind fuel c cs m) ∙ is) in
      kputs-pushed fuel cs o.0 m' others ∙ ap (pushed cs) (kputc-IsTraffic fuel c m o put).sent_lem

  -- serial_printf behind its stamp, and behind the first string.
  abbrev text_from : ℕ → List ℕ → List Arg → Machine → Option Machine
  text_from fuel format args m1 = elim (proto_print format args) [
    | none ↦ none
    | some text ↦ kputs device fuel text.out m1
  ]

  abbrev stamp_from : ℕ → List ℕ → List Arg → Machine → Printed → Option Machine
  stamp_from fuel format args m time = elim (kputs device fuel time.out m) [
    | none ↦ none
    | some m1 ↦ text_from fuel format args m1
  ]

  text_from-IsTraffic :
      (fuel : ℕ) (format : List ℕ) (args : List Arg) (m m' : Machine)
      → text_from fuel format args m ≡ some m'
      → (out : List ℕ) × IsTraffic out [] m m'
  text_from-IsTraffic fuel format args m m' is =
      let k = λ (text : Printed). kputs device fuel text.out m in
      let (text, printed, put) =
        returned (proto_print format args) k m'
          (sym (elim-bind (proto_print format args) k) ∙ is) in
      kputs-IsTraffic fuel text.out m m' put

  stamp_from-IsTraffic :
      (fuel : ℕ) (format : List ℕ) (args : List Arg) (m m' : Machine) (time : Printed)
      → stamp_from fuel format args m time ≡ some m'
      → (out : List ℕ) × IsTraffic out [] m m'
  stamp_from-IsTraffic fuel format args m m' time is =
      let k = text_from fuel format args in
      let (m1, first, others) =
        returned (kputs device fuel time.out m) k m'
          (sym (elim-bind (kputs device fuel time.out m) k) ∙ is) in
      let (out, one) = kputs-IsTraffic fuel time.out m m1 first in
      let (out', two) = text_from-IsTraffic fuel format args m1 m' others in
      (out' ++ out, IsTraffic-trans out out' [] [] m m1 m' one two)

  pub serial_printf-IsTraffic :
      (fuel : ℕ) (format : List ℕ) (args : List Arg) (m m' : Machine)
      → serial_printf device fuel format args m ≡ some m'
      → (out : List ℕ) × IsTraffic out [] m m'
  unfolding serial_printf
  serial_printf-IsTraffic fuel format args m m' is =
      let o = proto_print stamp (word (m.ms_count / 1000) ∷ (word (m.ms_count % 1000) ∷ [])) in
      let k = stamp_from fuel format args m in
      let (time, stamped, put) = returned o k m' (sym (elim-bind o k) ∙ is) in
      stamp_from-IsTraffic fuel format args m m' time put

  -- The end of Keyboard_Handler.
  abbrev acknowledged : Machine → Machine
  acknowledged m = send_eoi 0 (inb device 0x60 m).0

  acknowledged-IsTraffic : (m : Machine) → IsTraffic [] [] m (acknowledged m)
  unfolding send_eoi inb outb sent received
  acknowledged-IsTraffic m = record {
    sent_lem = refl;
    received_lem = refl;
    same_interrupts = refl;
    same_count = refl;
  }

  pub keyboard_handler-IsTraffic :
      (fuel : ℕ) (m m' : Machine)
      → keyboard_handler device fuel m ≡ some m'
      → (out : List ℕ) × IsTraffic out [] m m'
  unfolding keyboard_handler
  keyboard_handler-IsTraffic fuel m m' is =
      let k = λ (m1 : Machine). some (acknowledged m1) in
      let (m1, put, done) =
        returned (kputs device fuel kb m) k m' (sym (elim-bind (kputs device fuel kb m) k) ∙ is) in
      let (out, one) = kputs-IsTraffic fuel kb m m1 put in
      (
        out,
        subst (IsTraffic out [] m) (some_injective (acknowledged m1) m' done)
            (IsTraffic-trans out [] [] [] m m1 (acknowledged m1) one (acknowledged-IsTraffic m1)),
      )

  -- Keyboard_Handler sends its message and nothing else, if it returns.
  pub keyboard_handler-pushed :
      (fuel : ℕ) (m m' : Machine)
      → keyboard_handler device fuel m ≡ some m'
      → sent m'.history ≡ pushed kb (sent m.history)
  unfolding keyboard_handler
  keyboard_handler-pushed fuel m m' is =
      let k = λ (m1 : Machine). some (acknowledged m1) in
      let (m1, put, done) =
        returned (kputs device fuel kb m) k m' (sym (elim-bind (kputs device fuel kb m) k) ∙ is) in
      ap (λ x. sent x.history) (sym (some_injective (acknowledged m1) m' done))
      ∙ (acknowledged-IsTraffic m1).sent_lem
      ∙ kputs-pushed fuel kb m m1 put
