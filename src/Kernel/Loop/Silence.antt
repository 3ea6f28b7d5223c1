-- ===== src/Kernel/Loop/Silence.antt =====
-- What goes out to the serial port while _start of src/kernel.c waits for three seconds.
use si_stultum.Base.{
  ◌>>=◌, ℕ, zero, suc, ◌<◌, true, some, List, [], ◌∷◌, ltb, ◌≡◌, refl, sym, ap, ◌∙◌, arith,
}
use si_stultum.Ports.Machine.{Machine, Device, timer_handler, send_eoi, outb}
use si_stultum.Ports.Print.{keyboard_handler, sent, pushed, kb}
use si_stultum.Kernel.Loop.{
  Phase, testing, sleeping, resting, awake, Running, Input, tick, key, main, wake, invite,
  main_step, on_key, step,
}
use si_stultum.Kernel.Loop.Traffic.{returned, if_true, keyboard_handler-pushed, some_injective}

-- The keys among the inputs.
unfoldable pub keys : List Input → ℕ
keys [] = 0
keys (tick ∷ es) = keys es
keys (key ∷ es) = suc (keys es)
keys (main ∷ es) = keys es

-- The keyboard's message, so many times, on top of what was sent before.
unfoldable pub after_keys : ℕ → List ℕ → List ℕ
unfolding pushed
after_keys zero before = before
after_keys (suc k) before = after_keys k (pushed kb before)

-- The program is before its last loop.
abbrev pub IsWaiting : Phase → Type 0
IsWaiting testing = Unit
IsWaiting sleeping = Unit
IsWaiting resting = ⊥
IsWaiting awake = ⊥

module _ (device : Device) (fuel : ℕ) where
  main_step-quiet :
      (p : Phase) (m : Machine) (t : Running)
      → m.ms_count < 3000
      → IsWaiting p
      → main_step device fuel p m ≡ some t
      → sent t.machine.history ≡ sent m.history
  unfolding main_step
  main_step-quiet testing m t early waits is =
      let asleep : Running = record { phase = sleeping; machine = m } in
      let below : ltb m.ms_count 3000 ≡ true = ground (arith, early) in
      let done : some asleep ≡ some t =
        sym (if_true (ltb m.ms_count 3000) (some asleep) (invite device fuel m) below) ∙ is in
      ap (λ x. sent x.machine.history) (sym (some_injective asleep t done))
  main_step-quiet sleeping m t early waits is =
      ap (λ x. sent x.machine.history)
        (sym (some_injective (record { phase = sleeping; machine = m }) t is))
  main_step-quiet resting m t early waits is = absurd waits
  main_step-quiet awake m t early waits is = absurd waits

  -- A step of the wait with the interrupts on and the counter below 3000 sends the keyboard's message for a key, and
  -- nothing else.
  pub step-after_keys :
      (e : Input) (s t : Running)
      → s.machine.interrupts ≡ true
      → s.machine.ms_count < 3000
      → IsWaiting s.phase
      → step device fuel e s ≡ some t
      → sent t.machine.history ≡ after_keys (keys (e ∷ [])) (sent s.machine.history)
  unfolding step keys after_keys on_key
  step-after_keys tick s t on early waits is =
      let woken : Running = record { phase = wake s.phase; machine = timer_handler s.machine } in
      let moved : some woken ≡ some t =
        sym (if_true s.machine.interrupts (some woken) (some s) on) ∙ is in
      let quiet : sent woken.machine.history ≡ sent s.machine.history =
        unfold timer_handler send_eoi outb sent in refl in
      ap (λ x. sent x.machine.history) (sym (some_injective woken t moved)) ∙ quiet
  step-after_keys key s t on early waits is =
      let after : Machine → Running = λ m1. record { phase = wake s.phase; machine = m1 } in
      let k = λ (m1 : Machine). some (after m1) in
      let handled : (keyboard_handler device fuel s.machine >>= k) ≡ some t =
        sym (if_true s.machine.interrupts (on_key device fuel s) (some s) on) ∙ is in
      let (m1, sent_all, woken) = returned (keyboard_handler device fuel s.machine) k t handled in
      ap (λ x. sent x.machine.history) (sym (some_injective (after m1) t woken))
      ∙ keyboard_handler-pushed device fuel s.machine m1 sent_all
  step-after_keys main s t on early waits is = main_step-quiet s.phase s.machine t early waits is
