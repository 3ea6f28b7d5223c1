-- ===== src/Boot/Map.antt =====
-- The retry loop of GetMemoryMap in src/bootloader.c.
use si_stultum.Base.{
  ◌∙◌, ℕ, zero, suc, ◌+◌, ◌≤◌, ◌<◌, some, ◌≡◌, ◌≢◌, refl, arith, inl, inr, lt-or-ge,
}
use si_stultum.Boot.{success, buffer_too_small, MapAnswer, LoadedMap, Firmware, get_memory_map}

-- What the boot loader relies on in the firmware's memory services: in each state the map needs so
-- many bytes, never more than a bound; a call with fewer asks for them, and one with enough succeeds;
-- the pool has memory left.
pub record IsMapService {ℓ} {World : Type ℓ} (fw : Firmware World) (needed : World → ℕ) (bound : ℕ)
    : Type ℓ where
  pub bounded : (w : World) → needed w ≤ bound
  pub refuses :
      (size buffer : ℕ) (w : World)
      → size < needed w
      → ((fw.memory_map size buffer w).1.status ≡ buffer_too_small)
        × ((fw.memory_map size buffer w).1.size ≡ needed w)
  pub answers :
      (size buffer : ℕ) (w : World)
      → needed w ≤ size
      → (fw.memory_map size buffer w).1.status ≡ success
  pub granted : (size : ℕ) (w : World) → (fw.allocate_pool size w).1 ≢ 0

-- The call of the firmware that the loop ends with: in a state where the map fits, into a buffer of the
-- pool that is large enough.
pub record IsLoaded {ℓ} {World : Type ℓ} (fw : Firmware World) (needed : World → ℕ)
    (out : World × LoadedMap) : Type ℓ where
  pub before : World
  pub size : ℕ
  pub large_enough : needed (fw.allocate_pool size before).0 ≤ size
  pub buffer_lem : out.1.buffer ≡ (fw.allocate_pool size before).1
  pub some_buffer : out.1.buffer ≢ 0
  pub answer_lem : fw.memory_map size out.1.buffer (fw.allocate_pool size before).0 ≡ (
    out.0,
    record {
      status = success;
      size = out.1.size;
      key = out.1.key;
      descriptor_size = out.1.descriptor_size;
    },
  )

-- The firmware's answer in one round.
abbrev answer_of {ℓ} : {World : Type ℓ} → Firmware World → ℕ → World → World × MapAnswer
answer_of fw size w = let (w1, buffer) = fw.allocate_pool size w in fw.memory_map size buffer w1

module _ {ℓ} {World : Type ℓ} (fw : Firmware World) (fuel size : ℕ) (w : World) where
  try_again :
      (answer_of fw size w).1.status ≡ buffer_too_small
      → get_memory_map fw (suc fuel) size w
        ≡ get_memory_map fw fuel (answer_of fw size w).1.size (answer_of fw size w).0
  unfolding get_memory_map
  try_again e = rw (get_memory_map, e) refl

  stop_at :
      (answer_of fw size w).1.status ≡ success
      → get_memory_map fw (suc fuel) size w
        ≡ some (
          (answer_of fw size w).0,
          record {
            buffer = (fw.allocate_pool size w).1;
            size = (answer_of fw size w).1.size;
            key = (answer_of fw size w).1.key;
            descriptor_size = (answer_of fw size w).1.descriptor_size;
          },
        )
  unfolding get_memory_map
  stop_at e = rw (get_memory_map, e) refl

module _ {ℓ} {World : Type ℓ} (fw : Firmware World) (needed : World → ℕ) (bound : ℕ)
    (service : IsMapService fw needed bound) where
  fitting :
      (fuel size : ℕ) (w : World)
      → needed (fw.allocate_pool size w).0 ≤ size
      → (out : World × LoadedMap) × (get_memory_map fw (suc fuel) size w ≡ some out)
        × IsLoaded fw needed out
  fitting fuel size w fits =
      let (w1, buffer) = fw.allocate_pool size w in
      let status = service.answers size buffer w1 fits in
      (
        _,
        stop_at fw fuel size w status,
        record {
          before = w;
          size = size;
          large_enough = fits;
          buffer_lem = refl;
          some_buffer = service.granted size w;
          answer_lem = rw (← status) refl;
        },
      )

  -- One more round of fuel than the bound exceeds the first size by is enough for GetMemoryMap to return,
  -- with a buffer that the firmware has filled with a whole map.
  pub get_memory_map-IsLoaded :
      (fuel size : ℕ) (w : World)
      → bound ≤ size + fuel
      → (out : World × LoadedMap) × (get_memory_map fw (suc fuel) size w ≡ some out)
        × IsLoaded fw needed out
  get_memory_map-IsLoaded zero size w enough =
      let w1 = (fw.allocate_pool size w).0 in
      fitting zero size w (omega (arith, service.bounded w1))
  get_memory_map-IsLoaded (suc fuel) size w enough =
      let (w1, buffer) = fw.allocate_pool size w in
      elim (lt-or-ge size (needed w1)) [
        | inl short ↦
            let (status, grown) = service.refuses size buffer w1 short in
            let (out, returned, loaded) =
              get_memory_map-IsLoaded fuel (answer_of fw size w).1.size (answer_of fw size w).0
                (omega (arith, grown)) in
            (out, try_again fw (suc fuel) size w status ∙ returned, loaded)
        | inr fits ↦ fitting (suc fuel) size w fits
      ]
