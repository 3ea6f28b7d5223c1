-- ===== src/Kernel/Loop/Time.antt =====
-- The wait for three seconds in _start, src/kernel.c.
use si_stultum.Base.{
  ◌>>=◌, ℕ, zero, suc, ◌+◌, ◌≤◌, ◌<◌, true, Option, some, List, [], ◌∷◌, ltb, u64, ◌≡◌, refl, sym,
  ap, ◌∙◌, arith, inl, inr, Bool-cases,
}
use mathlib.Core.Path.{subst}
use si_stultum.Format.Checked.{is_checked, checked_loop}
use si_stultum.Ports.Machine.{Machine, Device, timer_handler, send_eoi, outb}
use si_stultum.Ports.Print.{
  sent, serial_printf, keyboard_handler, IsPatient, IsLogged, serial_printf-IsLogged,
}
use si_stultum.Kernel.Loop.{
  Phase, testing, sleeping, resting, awake, Running, Input, tick, key, main, wake, invitation, echo,
  invite, main_step, on_key, step, run,
}
use si_stultum.Kernel.Loop.Traffic.{
  IsTraffic, returned, if_true, if_false, serial_printf-IsTraffic, keyboard_handler-IsTraffic,
  some_injective,
}
use si_stultum.Kernel.Loop.Silence.{keys, after_keys, IsWaiting, step-after_keys}
use si_stultum.Kernel.Loop.Echo.{echo-IsTraffic}

-- The ticks among the inputs.
unfoldable pub ticks : List Input → ℕ
ticks [] = 0
ticks (tick ∷ es) = suc (ticks es)
ticks (key ∷ es) = ticks es
ticks (main ∷ es) = ticks es

-- The program is behind its wait, and so behind the message.
abbrev pub IsInvited : Phase → Type 0
IsInvited testing = ⊥
IsInvited sleeping = ⊥
IsInvited resting = Unit
IsInvited awake = Unit

-- After n ticks in all: the counter has counted them, the interrupts are on, and the wait has not ended before
-- the 3000th.
pub record IsTimed (n : ℕ) (s : Running) : Type 0 where
  pub count : s.machine.ms_count ≡ u64 n
  pub interrupts : s.machine.interrupts ≡ true
  pub late : IsInvited s.phase → 3000 ≤ n

wake-IsInvited : (p : Phase) → IsInvited (wake p) → IsInvited p
unfolding wake
wake-IsInvited testing is = is
wake-IsInvited sleeping is = is
wake-IsInvited resting is = tt
wake-IsInvited awake is = tt

traffic-IsTimed :
    (n : ℕ) (s : Running) (p : Phase) (m' : Machine) (out got : List ℕ)
    → IsTimed n s
    → (IsInvited p → 3000 ≤ n)
    → IsTraffic out got s.machine m'
    → IsTimed n (record { phase = p; machine = m' })
traffic-IsTimed n s p m' out got timed late traffic = record {
  count = traffic.same_count ∙ timed.count;
  interrupts = traffic.same_interrupts ∙ timed.interrupts;
  late = late;
}

not_invited : (p : Phase) → (IsInvited p → ⊥) → IsWaiting p
not_invited testing early = tt
not_invited sleeping early = tt
not_invited resting early = early tt
not_invited awake early = early tt

module _ (device : Device) (fuel : ℕ) where
  tick-IsTimed :
      (n : ℕ) (s t : Running) → IsTimed n s → step device fuel tick s ≡ some t → IsTimed (suc n) t
  unfolding step
  tick-IsTimed n s t timed is =
      let woken : Running = record { phase = wake s.phase; machine = timer_handler s.machine } in
      let moved : some woken ≡ some t =
        sym (if_true s.machine.interrupts (some woken) (some s) timed.interrupts) ∙ is in
      subst (IsTimed (suc n)) (some_injective woken t moved) (record {
        count = unfold timer_handler send_eoi outb in omega (arith, timed.count);
        interrupts = unfold timer_handler send_eoi outb in timed.interrupts;
        late = λ invited. omega (arith, timed.late (wake-IsInvited s.phase invited));
      })

  key-IsTimed :
      (n : ℕ) (s t : Running) → IsTimed n s → step device fuel key s ≡ some t → IsTimed n t
  unfolding step on_key
  key-IsTimed n s t timed is =
      let after : Machine → Running = λ m1. record { phase = wake s.phase; machine = m1 } in
      let k = λ (m1 : Machine). some (after m1) in
      let handled : (keyboard_handler device fuel s.machine >>= k) ≡ some t =
        sym (if_true s.machine.interrupts (on_key device fuel s) (some s) timed.interrupts) ∙ is in
      let (m1, sent_all, woken) = returned (keyboard_handler device fuel s.machine) k t handled in
      let (out, traffic) = keyboard_handler-IsTraffic device fuel s.machine m1 sent_all in
      subst (IsTimed n) (some_injective (after m1) t woken) (
        traffic-IsTimed n s (wake s.phase) m1 out [] timed
          (λ invited. timed.late (wake-IsInvited s.phase invited)) traffic)

  invite-IsTimed :
      (n : ℕ) (s t : Running)
      → IsTimed n s
      → 3000 ≤ n
      → invite device fuel s.machine ≡ some t
      → IsTimed n t
  unfolding invite
  invite-IsTimed n s t timed late is =
      let after : Machine → Running = λ m1. record { phase = resting; machine = m1 } in
      let o = serial_printf device fuel invitation [] s.machine in
      let (m1, put, done) = returned o (λ (m1 : Machine). some (after m1)) t is in
      let (out, traffic) = serial_printf-IsTraffic device fuel invitation [] s.machine m1 put in
      subst (IsTimed n) (some_injective (after m1) t done)
        (traffic-IsTimed n s resting m1 out [] timed (λ invited. late) traffic)

  -- The main program's actions by phase.
  main_step-IsTimed :
      (n : ℕ) (p : Phase) (m : Machine) (t : Running)
      → IsTimed n (record { phase = p; machine = m })
      → main_step device fuel p m ≡ some t
      → IsTimed n t
  unfolding main_step
  main_step-IsTimed n testing m t timed is =
      let here : Running = record { phase = testing; machine = m } in
      let asleep : Running = record { phase = sleeping; machine = m } in
      elim (Bool-cases (ltb m.ms_count 3000)) [
        | inl early ↦
            let done : some asleep ≡ some t =
              sym (if_true (ltb m.ms_count 3000) (some asleep) (invite device fuel m) early) ∙ is in
            subst (IsTimed n) (some_injective asleep t done) (record {
              count = timed.count;
              interrupts = timed.interrupts;
              late = λ e. elim e [ ];
            })
        | inr enough ↦
            invite-IsTimed n here t timed (ground (arith, enough, timed.count)) (
              sym (if_false (ltb m.ms_count 3000) (some asleep) (invite device fuel m) enough) ∙ is)
      ]
  main_step-IsTimed n sleeping m t timed is =
      subst (IsTimed n) (some_injective (record { phase = sleeping; machine = m }) t is) timed
  main_step-IsTimed n resting m t timed is =
      subst (IsTimed n) (some_injective (record { phase = resting; machine = m }) t is) timed
  main_step-IsTimed n awake m t timed is =
      let after : Machine → Running = λ m1. record { phase = resting; machine = m1 } in
      let (m1, echoed, done) =
        returned (echo device fuel m) (λ (m1 : Machine). some (after m1)) t is in
      let (bs, traffic) = echo-IsTraffic device fuel m m1 echoed in
      subst (IsTimed n) (some_injective (after m1) t done) (
        traffic-IsTimed n (record { phase = awake; machine = m }) resting m1 bs bs timed
          (λ invited. timed.late tt) traffic)

  main-IsTimed :
      (n : ℕ) (s t : Running) → IsTimed n s → step device fuel main s ≡ some t → IsTimed n t
  unfolding step
  main-IsTimed n s t timed is = main_step-IsTimed n s.phase s.machine t timed is

  step-IsTimed :
      (e : Input) (n : ℕ) (s t : Running)
      → IsTimed n s
      → step device fuel e s ≡ some t
      → IsTimed (n + ticks (e ∷ [])) t
  unfolding ticks
  step-IsTimed tick n s t timed is =
      subst (λ x. IsTimed x t) (omega arith) (tick-IsTimed n s t timed is)
  step-IsTimed key n s t timed is =
      subst (λ x. IsTimed x t) (omega arith) (key-IsTimed n s t timed is)
  step-IsTimed main n s t timed is =
      subst (λ x. IsTimed x t) (omega arith) (main-IsTimed n s t timed is)

  ticks_cons : (e : Input) (es : List Input) → ticks (e ∷ es) ≡ ticks (e ∷ []) + ticks es
  unfolding ticks
  ticks_cons tick es = omega arith
  ticks_cons key es = omega arith
  ticks_cons main es = omega arith

  waits : (n : ℕ) (s : Running) → IsTimed n s → n < 3000 → IsWaiting s.phase
  waits n s timed early = not_invited s.phase (λ is. absurd (omega (arith, timed.late is, early)))

  keys_cons :
      (e : Input) (es : List Input) (before : List ℕ)
      → after_keys (keys (e ∷ es)) before ≡ after_keys (keys es) (after_keys (keys (e ∷ [])) before)
  unfolding keys after_keys
  keys_cons tick es before = refl
  keys_cons key es before = refl
  keys_cons main es before = refl

  -- Whatever interrupts come between the actions of the main program, its clock stays right: where a state is as
  -- after n ticks, every state that a run from it comes to is as after n ticks and those of the run, which means
  -- that the counter holds their number modulo 2 ^ 64, the interrupts are on, and the program is not behind its
  -- wait before the 3000th tick; and while the ticks are below 3000 the run has sent the keyboard's message for
  -- each key of the run and nothing else.
  pub run-IsTimed :
      (es : List Input) (n : ℕ) (s t : Running)
      → IsTimed n s
      → run device fuel es s ≡ some t
      → IsTimed (n + ticks es) t
        × (n + ticks es < 3000
            → sent t.machine.history ≡ after_keys (keys es) (sent s.machine.history))
  unfolding run
  run-IsTimed [] n s t timed is =
      let sum : n ≡ n + ticks [] = unfold ticks in omega arith in
      let same = some_injective s t is in
      (
        subst (λ x. IsTimed x t) sum (subst (IsTimed n) same timed),
        λ early. unfold keys after_keys in ap (λ x. sent x.machine.history) (sym same),
      )
  run-IsTimed (e ∷ es) n s t timed is =
      let (u, first, others) = returned (step device fuel e s) (run device fuel es) t is in
      let sum : n + ticks (e ∷ []) + ticks es ≡ n + ticks (e ∷ es) =
        omega (arith, ticks_cons e es) in
      let (later, quiet) =
        run-IsTimed es (n + ticks (e ∷ [])) u t (step-IsTimed e n s u timed first) others in
      (
        subst (λ x. IsTimed x t) sum later,
        λ early.
            quiet (omega (arith, sum, early))
            ∙ ap (after_keys (keys es)) (
                step-after_keys device fuel e s u timed.interrupts
                  (omega (arith, timed.count, sum, early))
                  (waits n s timed (omega (arith, sum, early))) first)
            ∙ sym (keys_cons e es (sent s.machine.history)),
      )

plain : is_checked invitation [] ≡ true
unfolding is_checked checked_loop
plain = refl

-- A tick and what the main program does then, k times.
unfoldable pub nap : ℕ → List Input
nap zero = []
nap (suc k) = tick ∷ (main ∷ nap k)

module _ (device : Device) (fuel : ℕ) (patient : IsPatient device fuel) where
  pub invite_defined :
      (m : Machine)
      → (m1 : Machine) × (invite device fuel m ≡ some (record { phase = resting; machine = m1 }))
        × IsLogged invitation [] m m1
  unfolding invite
  invite_defined m =
      let (m1, put, logged) = serial_printf-IsLogged device fuel invitation [] m patient plain in
      (m1, rw put refl, logged)

  -- One tick in the first hlt, and the test of the counter behind it.
  tick_asleep :
      (m : Machine)
      → m.interrupts ≡ true
      → step device fuel tick (record { phase = sleeping; machine = m })
        ≡ some (record { phase = testing; machine = timer_handler m })
  unfolding step wake
  tick_asleep m on = if_true m.interrupts _ _ on

  test_early :
      (m : Machine)
      → m.ms_count < 3000
      → step device fuel main (record { phase = testing; machine = m })
        ≡ some (record { phase = sleeping; machine = m })
  unfolding step main_step
  test_early m early = if_true (ltb m.ms_count 3000) _ _ (ground (arith, early))

  test_late :
      (m : Machine)
      → 3000 ≤ m.ms_count
      → step device fuel main (record { phase = testing; machine = m }) ≡ invite device fuel m
  unfolding step main_step
  test_late m late = if_false (ltb m.ms_count 3000) _ _ (ground (arith, late))

  nap-step :
      (k : ℕ) (m : Machine) (o : Option Running)
      → m.interrupts ≡ true
      → step device fuel main (record { phase = testing; machine = timer_handler m }) ≡ o
      → run device fuel (nap (suc k)) (record { phase = sleeping; machine = m })
        ≡ (o >>= run device fuel (nap k))
  unfolding run nap
  nap-step k m o on next =
      ap (λ x. x >>= run device fuel (main ∷ nap k)) (tick_asleep m on)
      ∙ ap (λ x. x >>= run device fuel (nap k)) next

  after_tick :
      (m : Machine)
      → m.ms_count < 3000
      → ((timer_handler m).ms_count ≡ m.ms_count + 1)
        × ((timer_handler m).interrupts ≡ m.interrupts)
  unfolding timer_handler send_eoi outb
  after_tick m early = (omega (arith, early), refl)

  -- Where the transmitter always becomes ready within the fuel and the interrupts are on, the wait ends: from the
  -- first hlt with the counter k milliseconds below 3000, k ticks, each followed by the main program's action,
  -- lead to the last loop, and the message is sent when the counter is 3000.
  pub nap-IsLogged :
      (k : ℕ) (m : Machine)
      → m.interrupts ≡ true
      → 0 < k
      → m.ms_count + k ≡ 3000
      → (m0 m1 : Machine) × (run device fuel (nap k) (record { phase = sleeping; machine = m })
          ≡ some (record { phase = resting; machine = m1 }))
        × (m0.ms_count ≡ 3000)
        × IsLogged invitation [] m0 m1
  nap-IsLogged zero m on some_left sum = absurd (omega (arith, some_left))
  nap-IsLogged (suc zero) m on some_left sum =
      let ticked = after_tick m (omega (arith, sum)) in
      let m0 = timer_handler m in
      let (m1, invited, logged) = invite_defined m0 in
      (
        m0,
        m1,
        nap-step 0 m (some (record { phase = resting; machine = m1 })) on
              (test_late m0 (omega (arith, ticked.0, sum)) ∙ invited)
            ∙ (unfold run nap in refl),
        omega (arith, ticked.0, sum),
        logged,
      )
  nap-IsLogged (suc (suc k)) m on some_left sum =
      let ticked = after_tick m (omega (arith, sum)) in
      let m' = timer_handler m in
      let (m0, m1, reached, at, logged) =
        nap-IsLogged (suc k) m' (ticked.1 ∙ on) (omega arith) (omega (arith, ticked.0, sum)) in
      (
        m0,
        m1,
        nap-step (suc k) m (some (record { phase = sleeping; machine = m' })) on
              (test_early m' (omega (arith, ticked.0, sum)))
            ∙ reached,
        at,
        logged,
      )
