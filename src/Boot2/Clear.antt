-- ===== src/Boot2/Clear.antt =====
-- `clear_screen`: what it clears where the size fits the 16-bit index, and that it never returns
-- where it does not.
use ganos.Base.{
  ◌⊎◌, ℕ, zero, suc, ◌+◌, ◌*◌, ◌≤◌, ◌<◌, ◌^◌, ◌≡◌, refl, arith, ◌&&◌, ltb, leb, if◌then◌else◌,
  store, u16,
}
use ganos.Base.Run.{done, out_of_fuel}
use ganos.Boot2.{
  State, Display, VideoMode, clear_from, clear_screen, init_screen, buffer_of_mode, size_of_mode,
}

-- The bytes of the buffer from `lo` to `hi` are zero, the rest of the memory is as before.
abbrev pub ZeroedFrom : State → ℕ → ℕ → State → Type 0
ZeroedFrom s lo hi t =
    ((k : ℕ)
      → t.mem k
        ≡ (if leb (s.screen.buffer + lo) k && ltb k (s.screen.buffer + hi) then 0 else s.mem k))
    × (t.screen ≡ record s.screen { index = 0 })

abbrev byte_size : State → ℕ
byte_size s = s.screen.width * s.screen.height * 2

clear_from_lem :
    (n : ℕ) (s : State)
    → s.screen.index + n ≡ byte_size s
    → byte_size s < 2 ^ 16
    → 0 < s.screen.buffer
    → (t : State) × (clear_from (suc n) s ≡ done t) × ZeroedFrom s s.screen.index (byte_size s) t
unfolding clear_from
clear_from_lem zero s e b some_buffer =
    (record s { screen = record s.screen { index = 0 } }, ground arith, (λ k. ground arith, refl))
clear_from_lem (suc n) s e b some_buffer =
    let s' : State = record {
      screen = record s.screen { index = s.screen.index + 1 };
      mem = store s.mem (s.screen.buffer + s.screen.index) 0;
    } in
    let (t, r, (z, d)) = clear_from_lem n s' (omega arith) b some_buffer in
    (t, ground (arith, r), (λ k. ground (arith, z k), d))

clear_from-diverges :
    (fuel : ℕ) (s : State)
    → s.screen.index < 2 ^ 16
    → 2 ^ 16 ≤ byte_size s
    → 0 < s.screen.buffer
    → clear_from fuel s ≡ out_of_fuel
unfolding clear_from
clear_from-diverges zero s h b some_buffer = refl
clear_from-diverges (suc fuel) s h b some_buffer = ground (
  arith,
  clear_from-diverges fuel (record {
    screen = record s.screen { index = u16 (s.screen.index + 1) };
    mem = store s.mem (s.screen.buffer + s.screen.index) 0;
  }),
)

-- With a buffer of at most 65535 bytes that is not a null pointer and fuel for it, `clear_screen` returns: the bytes of the
-- buffer are zero, no other byte has changed, and the index is back at the start.
pub clear_screen_lem :
    (s : State)
    → s.screen.width * s.screen.height * 2 < 2 ^ 16
    → 0 < s.screen.buffer
    → (t : State) × (clear_screen (suc (s.screen.width * s.screen.height * 2)) s ≡ done t)
      × ((k : ℕ)
          → t.mem k ≡ (
              if leb s.screen.buffer k
                && ltb k (s.screen.buffer + s.screen.width * s.screen.height * 2)
              then 0
              else s.mem k))
      × (t.screen ≡ record s.screen { index = 0 })
unfolding clear_screen
clear_screen_lem s b some_buffer =
    let home : State = record s { screen = record s.screen { index = 0 } } in
    let (t, r, (z, d)) = clear_from_lem (byte_size s) home (omega arith) b some_buffer in
    (t, r, λ k. ground (arith, z k), d)

-- With a buffer of 65536 bytes or more that is not a null pointer the 16-bit index never reaches it: however long it runs,
-- `clear_screen` does not return.
pub clear_screen-diverges :
    (fuel : ℕ) (s : State)
    → 2 ^ 16 ≤ s.screen.width * s.screen.height * 2
    → 0 < s.screen.buffer
    → clear_screen fuel s ≡ out_of_fuel
unfolding clear_screen
clear_screen-diverges fuel s b some_buffer =
    clear_from-diverges fuel (record s { screen = record s.screen { index = 0 } }) (omega arith) b
      some_buffer

-- The graphics modes, from 320 x 200 on, so never get past `init_screen`.
pub init_screen-diverges :
    (fuel : ℕ) (v : VideoMode) (s : State)
    → (v.mode ≡ 4)
      ⊎ (v.mode ≡ 5)
      ⊎ (v.mode ≡ 6)
      ⊎ (v.mode ≡ 9)
      ⊎ (v.mode ≡ 0x0A)
      ⊎ (v.mode ≡ 0x0D)
      ⊎ (v.mode ≡ 0x0E)
      ⊎ (v.mode ≡ 0x0F)
      ⊎ (v.mode ≡ 0x10)
    → init_screen fuel v s ≡ out_of_fuel
unfolding init_screen
init_screen-diverges fuel v s h =
    let d : Display = record s.screen { index = 0; buffer = buffer_of_mode v.mode } in
    clear_screen-diverges fuel (record s { screen = size_of_mode v.mode d }) (ground arith)
      (ground arith)
