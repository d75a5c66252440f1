-- ===== src/Audio/Volume.antt =====
-- `map_volume` of audio_utils.c: a shift of a sample to the right, by the steps that the volume is
-- below its highest.
use ptr24_lab.Prelude.{
  ℕ, ◌+◌, ◌-◌, ◌/◌, ◌^◌, ◌<◌, ◌≡◌, refl, Outcome, ok, fault, ltb, if◌then◌else◌, arith, u8,
  ltb-false,
}
use ptr24_lab.Prelude.Int.{ℤ, pos, negsuc}

abbrev pub vol_max : ℕ
vol_max = 10

-- `a >> k`; a negative number keeps its sign and is rounded down.
unfoldable pub shift_right : ℤ → ℕ → ℤ
shift_right (pos n) k = pos (n / 2 ^ k)
shift_right (negsuc n) k = negsuc (n / 2 ^ k)

-- The shift is kept in a `uint8_t`, and one by 32 or more places is undefined.
unfoldable pub map_volume : ℤ → ℕ → Outcome ℤ
map_volume sample volume =
    let shift = u8 (vol_max + 256 - volume) in
    if ltb shift 32 then ok (shift_right sample shift) else fault

-- A volume above the highest and below 235 is not checked for, and the shift is undefined.
map_volume_too_high :
    (sample : ℤ) (volume : ℕ) → vol_max < volume → volume < 235 → map_volume sample volume ≡ fault
unfolding map_volume
map_volume_too_high sample volume h h' =
    rw (ltb-false (u8 (vol_max + 256 - volume)) 32 (omega arith)) refl
