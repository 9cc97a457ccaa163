-- ===== src/Text/Tests.antt =====
-- TrimSpace on concrete bytes.
use averlock.Prelude.{◌≡◌, refl, [], ◌∷◌}
use averlock.Text.{trim_space}

-- U+3000, a, U+00A0, b, U+2003 and a space
trims :
    trim_space (0xE3 ∷ 0x80 ∷ 0x80 ∷ b'a' ∷ 0xC2 ∷ 0xA0 ∷ b'b' ∷ 0xE2 ∷ 0x80 ∷ 0x83 ∷ 32 ∷ [])
    ≡ b'a' ∷ 0xC2 ∷ 0xA0 ∷ b'b' ∷ []
unfolding trim_space
trims = refl
