-- ===== src/Kernel/Loop/Echo.antt =====
-- The last loop of _start, src/kernel.c: what the serial port receives is sent back.
use si_stultum.Base.{
  ◌>>=◌, ℕ, some, List, [], ◌∷◌, ◌++◌, u8, ◌==◌, ◌≡◌, refl, sym, ap, ◌∙◌, arith, inl, inr,
  Bool-cases,
}
use mathlib.Core.Path.{subst}
use mathlib.Core.List.{append_assoc}
use si_stultum.Ports.Machine.{Machine, Device, timer_handler, send_eoi, outb}
use si_stultum.Ports.Serial.{kgetc, kputc, serial_received}
use si_stultum.Ports.Print.{sent}
use si_stultum.Kernel.Loop.{
  Phase, testing, sleeping, resting, awake, Running, Input, tick, key, main, wake, send_back, echo,
  main_step, step, run,
}
use si_stultum.Kernel.Loop.Traffic.{
  IsTraffic, IsTraffic-trans, received, returned, if_true, if_false, some_injective,
  kputc-IsTraffic, kgetc-IsTraffic, serial_received-IsTraffic,
}

module _ (device : Device) (fuel : ℕ) where
  send_back-IsTraffic :
      (m m' : Machine)
      → send_back device fuel m ≡ some m'
      → (ch : ℕ) × IsTraffic (ch ∷ []) (ch ∷ []) m m'
  unfolding send_back
  send_back-IsTraffic m m' is =
      let k = λ (o : Machine × ℕ). kputc device fuel o.1 o.0 >>= λ (q : Machine × ℕ). some q.0 in
      let (o, got, others) = returned (kgetc device fuel m) k m' is in
      let (q, put, done) =
        returned (kputc device fuel o.1 o.0) (λ (q : Machine × ℕ). some q.0) m' others in
      let (first, small) = kgetc-IsTraffic device fuel m o got in
      let byte : u8 o.1 ≡ o.1 = omega (arith, small) in
      let second =
        subst (λ c. IsTraffic (c ∷ []) [] o.0 q.0) byte
          (kputc-IsTraffic device fuel o.1 o.0 q put) in
      (
        o.1,
        subst (IsTraffic (o.1 ∷ []) (o.1 ∷ []) m) (some_injective q.0 m' done)
            (IsTraffic-trans [] (o.1 ∷ []) (o.1 ∷ []) [] m o.0 q.0 first second),
      )

  pub echo-IsTraffic :
      (m m' : Machine) → echo device fuel m ≡ some m' → (bs : List ℕ) × IsTraffic bs bs m m'
  unfolding echo
  echo-IsTraffic m m' is =
      let (m0, answer) = serial_received device m in
      elim (Bool-cases (answer == 0)) [
        | inl nothing_there ↦
            let done : some m0 ≡ some m' =
              sym (if_true (answer == 0) (some m0) (send_back device fuel m0) nothing_there) ∙ is in
            (
              [],
              subst (IsTraffic [] [] m) (some_injective m0 m' done)
                  (serial_received-IsTraffic device m),
            )
        | inr there ↦
            let sent_back =
              sym (if_false (answer == 0) (some m0) (send_back device fuel m0) there) ∙ is in
            let (ch, traffic) = send_back-IsTraffic m0 m' sent_back in
            (
              ch ∷ [],
              IsTraffic-trans [] (ch ∷ []) [] (ch ∷ []) m m0 m' (serial_received-IsTraffic device m)
                  traffic,
            )
      ]

-- No key is pressed in the run.
abbrev pub IsKeyless : List Input → Type 0
IsKeyless [] = Unit
IsKeyless (tick ∷ es) = IsKeyless es
IsKeyless (key ∷ es) = ⊥
IsKeyless (main ∷ es) = IsKeyless es

-- The program is in its last loop.
abbrev pub IsEchoing : Phase → Type 0
IsEchoing testing = ⊥
IsEchoing sleeping = ⊥
IsEchoing resting = Unit
IsEchoing awake = Unit

-- Since s the program is in its last loop, and has sent the bytes bs that it received.
pub record IsEchoed (bs : List ℕ) (s t : Running) : Type 0 where
  pub sent_lem : sent t.machine.history ≡ bs ++ sent s.machine.history
  pub received_lem : received t.machine.history ≡ bs ++ received s.machine.history
  pub still : IsEchoing t.phase

wake-IsEchoing : (p : Phase) → IsEchoing p → IsEchoing (wake p)
unfolding wake
wake-IsEchoing testing is = is
wake-IsEchoing sleeping is = is
wake-IsEchoing resting is = tt
wake-IsEchoing awake is = tt

module _ (device : Device) (fuel : ℕ) where
  same-IsEchoed : (s t : Running) → IsEchoing s.phase → s ≡ t → IsEchoed [] s t
  same-IsEchoed s t echoing e =
      subst (IsEchoed [] s) e (record { sent_lem = refl; received_lem = refl; still = echoing })

  tick-IsEchoed :
      (s t : Running) → IsEchoing s.phase → step device fuel tick s ≡ some t → IsEchoed [] s t
  unfolding step
  tick-IsEchoed s t echoing is =
      let woken : Running = record { phase = wake s.phase; machine = timer_handler s.machine } in
      elim (Bool-cases s.machine.interrupts) [
        | inl on ↦
            let done : some woken ≡ some t =
              sym (if_true s.machine.interrupts (some woken) (some s) on) ∙ is in
            subst (IsEchoed [] s) (some_injective woken t done) (record {
              sent_lem = unfold timer_handler send_eoi outb sent in refl;
              received_lem = unfold timer_handler send_eoi outb received in refl;
              still = wake-IsEchoing s.phase echoing;
            })
        | inr masked ↦ same-IsEchoed s t echoing (
            some_injective s t
              (sym (if_false s.machine.interrupts (some woken) (some s) masked) ∙ is))
      ]

  main_step-IsEchoed :
      (p : Phase) (m : Machine) (t : Running)
      → IsEchoing p
      → main_step device fuel p m ≡ some t
      → (bs : List ℕ) × IsEchoed bs (record { phase = p; machine = m }) t
  unfolding main_step
  main_step-IsEchoed testing m t echoing is = absurd echoing
  main_step-IsEchoed sleeping m t echoing is = absurd echoing
  main_step-IsEchoed resting m t echoing is = (
    [],
    same-IsEchoed (record { phase = resting; machine = m }) t tt
        (some_injective (record { phase = resting; machine = m }) t is),
  )
  main_step-IsEchoed awake m t echoing is =
      let after : Machine → Running = λ m1. record { phase = resting; machine = m1 } in
      let (m1, echoed, done) =
        returned (echo device fuel m) (λ (m1 : Machine). some (after m1)) t is in
      let (bs, traffic) = echo-IsTraffic device fuel m m1 echoed in
      (
        bs,
        subst (IsEchoed bs (record { phase = awake; machine = m }))
            (some_injective (after m1) t done)
            (record {
              sent_lem = traffic.sent_lem;
              received_lem = traffic.received_lem;
              still = tt;
            }),
      )

  step-IsEchoed :
      (e : Input) (s t : Running)
      → IsKeyless (e ∷ [])
      → IsEchoing s.phase
      → step device fuel e s ≡ some t
      → (bs : List ℕ) × IsEchoed bs s t
  unfolding step
  step-IsEchoed tick s t keyless echoing is = ([], tick-IsEchoed s t echoing is)
  step-IsEchoed key s t keyless echoing is = absurd keyless
  step-IsEchoed main s t keyless echoing is = main_step-IsEchoed s.phase s.machine t echoing is

  IsKeyless-cons :
      (e : Input) (es : List Input) → IsKeyless (e ∷ es) → IsKeyless (e ∷ []) × IsKeyless es
  IsKeyless-cons tick es keyless = (tt, keyless)
  IsKeyless-cons key es keyless = absurd keyless
  IsKeyless-cons main es keyless = (tt, keyless)

  IsEchoed-trans :
      (bs cs : List ℕ) (s u t : Running)
      → IsEchoed bs s u
      → IsEchoed cs u t
      → IsEchoed (cs ++ bs) s t
  IsEchoed-trans bs cs s u t first second = record {
    sent_lem =
        second.sent_lem
        ∙ ap (λ x. cs ++ x) first.sent_lem
        ∙ sym (append_assoc cs bs (sent s.machine.history));
    received_lem =
        second.received_lem
        ∙ ap (λ x. cs ++ x) first.received_lem
        ∙ sym (append_assoc cs bs (received s.machine.history));
    still = second.still;
  }

  -- A run from the last loop that comes to a state has sent back the bytes that the serial port received, in
  -- their order and no others, whatever ticks came between, if no key was pressed; it is still in the loop.
  pub run-IsEchoed :
      (es : List Input) (s t : Running)
      → IsKeyless es
      → IsEchoing s.phase
      → run device fuel es s ≡ some t
      → (bs : List ℕ) × IsEchoed bs s t
  unfolding run
  run-IsEchoed [] s t keyless echoing is = ([], same-IsEchoed s t echoing (some_injective s t is))
  run-IsEchoed (e ∷ es) s t keyless echoing is =
      let (u, first, others) = returned (step device fuel e s) (run device fuel es) t is in
      let (here, later) = IsKeyless-cons e es keyless in
      let (bs, one) = step-IsEchoed e s u here echoing first in
      let (cs, rest) = run-IsEchoed es u t later one.still others in
      (cs ++ bs, IsEchoed-trans bs cs s u t one rest)
