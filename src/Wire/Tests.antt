-- ===== src/Wire/Tests.antt =====
-- Runs of the wire format at fixed inputs.
use accelio.Prelude.{◌≡◌, refl, [], ◌∷◌}
use accelio.Wire.{Buffer, write_uint32}

abbrev packet : Buffer
packet = 7 ∷ 7 ∷ 7 ∷ 7 ∷ 7 ∷ 7 ∷ 7 ∷ 7 ∷ 7 ∷ 7 ∷ []

big_endian :
    (write_uint32 0x5849_4F50 1 packet).1 ≡ 7 ∷ 0x58 ∷ 0x49 ∷ 0x4F ∷ 0x50 ∷ 7 ∷ 7 ∷ 7 ∷ 7 ∷ 7 ∷ []
unfolding write_uint32
big_endian = refl
