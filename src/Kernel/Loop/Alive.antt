-- ===== src/Kernel/Loop/Alive.antt =====
-- The loops at the end of _start, src/kernel.c, never stop for want of the serial port.
use si_stultum.Base.{
  ◌>>=◌, ℕ, zero, suc, ◌<◌, false, some, List, [], ◌∷◌, ltb, ◌==◌, ◌≡◌, ◌≢◌, refl, ap, ◌∙◌, arith,
  inl, inr, Bool-cases,
}
use si_stultum.Ports.Machine.{Machine, Device, timer_handler, inb}
use si_stultum.Ports.Serial.{poll, kgetc, kputc, serial_received}
use si_stultum.Ports.Print.{IsPatient, kputc-IsSent, keyboard_handler-IsSent}
use si_stultum.Kernel.Loop.{
  Phase, testing, sleeping, resting, awake, Running, Input, tick, key, main, wake, send_back, echo,
  invite, main_step, on_key, step, run,
}
use si_stultum.Kernel.Loop.Traffic.{if_true, if_false, kgetc-bind}
use si_stultum.Kernel.Loop.Time.{invite_defined}

-- A byte that the serial port announces stays there until it is read.
abbrev pub IsSteady : Device → Type 0
IsSteady device =
    (m : Machine)
    → (serial_received device m).1 ≢ 0
    → (serial_received device (serial_received device m).0).1 ≢ 0

poll_ready :
    (device : Device) (ready : Machine → Machine × ℕ) (fuel : ℕ) (m : Machine)
    → 0 < fuel
    → (ready m).1 ≢ 0
    → poll device ready fuel m ≡ some (ready m).0
unfolding poll
poll_ready device ready zero m some_fuel there = absurd (omega (arith, some_fuel))
poll_ready device ready (suc fuel) m some_fuel there =
    let no : ((ready m).1 == 0) ≡ false = ground (arith, there) in
    if_false ((ready m).1 == 0) (poll device ready fuel (ready m).0) (some (ready m).0) no

module _ (device : Device) (fuel : ℕ) (patient : IsPatient device fuel) (steady : IsSteady device)
    (some_fuel : 0 < fuel) where
  send_back_defined :
      (m : Machine)
      → (serial_received device m).1 ≢ 0
      → (m' : Machine) × (send_back device fuel m ≡ some m')
  unfolding send_back
  send_back_defined m there =
      let polled = poll_ready device (serial_received device) fuel m some_fuel there in
      let o : Machine × ℕ = inb device 0x3f8 (serial_received device m).0 in
      let got : kgetc device fuel m ≡ some o =
        kgetc-bind device fuel m ∙ ap (λ x. x >>= λ m1. some (inb device 0x3f8 m1)) polled in
      let (m2, put, _) = kputc-IsSent device fuel o.1 o.0 patient in
      (
        m2,
        ap
              (λ x. x >>= λ (q : Machine × ℕ).
                kputc device fuel q.1 q.0 >>= λ (r : Machine × ℕ). some r.0)
              got
            ∙ ap (λ x. x >>= λ (r : Machine × ℕ). some r.0) put,
      )

  echo_defined : (m : Machine) → (m' : Machine) × (echo device fuel m ≡ some m')
  unfolding echo
  echo_defined m =
      let (m0, answer) = serial_received device m in
      elim (Bool-cases (answer == 0)) [
        | inl empty ↦ (m0, if_true (answer == 0) (some m0) (send_back device fuel m0) empty)
        | inr there ↦
            let (m', sent_back) = send_back_defined m0 (steady m (ground (arith, there))) in
            (m', if_false (answer == 0) (some m0) (send_back device fuel m0) there ∙ sent_back)
      ]

  main_step_defined :
      (p : Phase) (m : Machine) → (t : Running) × (main_step device fuel p m ≡ some t)
  unfolding main_step
  main_step_defined testing m =
      let asleep : Running = record { phase = sleeping; machine = m } in
      elim (Bool-cases (ltb m.ms_count 3000)) [
        | inl early ↦
            (asleep, if_true (ltb m.ms_count 3000) (some asleep) (invite device fuel m) early)
        | inr late ↦
            let (m1, invited, _) = invite_defined device fuel patient m in
            (
              record { phase = resting; machine = m1 },
              if_false (ltb m.ms_count 3000) (some asleep) (invite device fuel m) late ∙ invited,
            )
      ]
  main_step_defined sleeping m = (record { phase = sleeping; machine = m }, refl)
  main_step_defined resting m = (record { phase = resting; machine = m }, refl)
  main_step_defined awake m =
      let (m1, echoed) = echo_defined m in
      (
        record { phase = resting; machine = m1 },
        ap (λ x. x >>= λ (m2 : Machine). some (record { phase = resting; machine = m2 })) echoed,
      )

  on_key_defined : (s : Running) → (t : Running) × (on_key device fuel s ≡ some t)
  unfolding on_key
  on_key_defined s =
      let (m1, _, handled) = keyboard_handler-IsSent device fuel s.machine patient in
      (
        _,
        ap (λ x. x >>= λ (m2 : Machine). some (record { phase = wake s.phase; machine = m2 }))
            handled,
      )

  step_defined : (e : Input) (s : Running) → (t : Running) × (step device fuel e s ≡ some t)
  unfolding step
  step_defined tick s =
      let woken : Running = record { phase = wake s.phase; machine = timer_handler s.machine } in
      elim (Bool-cases s.machine.interrupts) [
        | inl on ↦ (woken, if_true s.machine.interrupts (some woken) (some s) on)
        | inr masked ↦ (s, if_false s.machine.interrupts (some woken) (some s) masked)
      ]
  step_defined key s = elim (Bool-cases s.machine.interrupts) [
    | inl on ↦
        let (t, handled) = on_key_defined s in
        (t, if_true s.machine.interrupts (on_key device fuel s) (some s) on ∙ handled)
    | inr masked ↦ (s, if_false s.machine.interrupts (on_key device fuel s) (some s) masked)
  ]
  step_defined main s = main_step_defined s.phase s.machine

  -- Where the transmitter always becomes ready within the fuel, and a byte that is announced stays until it is
  -- read, the loops go on for ever: every sequence of interrupts and actions of the main program leads on, from
  -- every state.
  pub run_defined :
      (es : List Input) (s : Running) → (t : Running) × (run device fuel es s ≡ some t)
  unfolding run
  run_defined [] s = (s, refl)
  run_defined (e ∷ es) s =
      let (u, first) = step_defined e s in
      let (t, rest) = run_defined es u in (t, ap (λ x. x >>= run device fuel es) first ∙ rest)
