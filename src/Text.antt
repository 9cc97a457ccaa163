-- ===== src/Text.antt =====
-- What the program takes from package strings: TrimSpace, on UTF-8.
mod Tests
use averlock.Prelude.{
  ℕ, zero, suc, ◌-◌, ◌<◌, ◌≡◌, arith, Bool, false, ◌||◌, ◌&&◌, [], ◌∷◌, Bytes, leb, ◌==◌,
  if◌then◌else◌,
}

-- the white space in ASCII
abbrev is_space : ℕ → Bool
is_space c = (leb 9 c && leb c 13) || c == 32

-- U+0085 and U+00A0
abbrev is_space_2 : ℕ → ℕ → Bool
is_space_2 a b = a == 0xC2 && (b == 0x85 || b == 0xA0)

-- U+1680, U+2000 to U+200A, U+2028, U+2029, U+202F, U+205F and U+3000
abbrev is_space_3 : ℕ → ℕ → ℕ → Bool
is_space_3 a b c =
    (a == 0xE1 && (b == 0x9A && c == 0x80))
    || ((a == 0xE2 && b == 0x80)
        && ((leb 0x80 c && leb c 0x8A) || (c == 0xA8 || (c == 0xA9 || c == 0xAF))))
    || (a == 0xE2 && (b == 0x81 && c == 0x9F))
    || (a == 0xE3 && (b == 0x80 && c == 0x80))

-- how many bytes the white space at the front has, 0 if there is none
space_width : Bytes → ℕ
space_width [] = 0
space_width (a ∷ []) = if is_space a then 1 else 0
space_width (a ∷ b ∷ []) = if is_space a then 1 else if is_space_2 a b then 2 else 0
space_width (a ∷ b ∷ c ∷ s) =
    if is_space a then 1 else if is_space_2 a b then 2 else if is_space_3 a b c then 3 else 0

-- without the next bytes, as many as the number says, and then without white space in front
trim_left_from : ℕ → Bytes → Bytes
unfolding space_width
trim_left_from skip [] = []
trim_left_from (suc skip) (c ∷ s) = trim_left_from skip s
trim_left_from zero (c ∷ s) =
    let width = space_width (c ∷ s) in
    let more = trim_left_from (width - 1) s in if width == 0 then c ∷ s else more

-- exactly one character of white space
is_one_space : Bytes → Bool
is_one_space (a ∷ []) = is_space a
is_one_space (a ∷ b ∷ []) = is_space_2 a b
is_one_space (a ∷ b ∷ c ∷ []) = is_space_3 a b c
is_one_space _ = false

trim_right : Bytes → Bytes
unfolding is_one_space
trim_right [] = []
trim_right (c ∷ s) = let more = trim_right s in if is_one_space (c ∷ more) then [] else c ∷ more

-- without white space in front
unfoldable pub trim_left : Bytes → Bytes
unfolding trim_left_from
trim_left s = trim_left_from 0 s

-- `strings.TrimSpace`
unfoldable pub trim_space : Bytes → Bytes
unfolding trim_left trim_right
trim_space s = trim_right (trim_left s)

-- A text that starts with a character that is above the ASCII white space and in ASCII is kept.
pub trim_left-kept : (c : ℕ) (s : Bytes) → 32 < c → c < 128 → trim_left (c ∷ s) ≡ c ∷ s
unfolding trim_left
trim_left-kept c [] above below = ground (arith, above, below)
trim_left-kept c (b ∷ []) above below = ground (arith, above, below)
trim_left-kept c (b ∷ d ∷ s) above below = ground (arith, above, below)
