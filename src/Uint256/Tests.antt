-- ===== src/Uint256/Tests.antt =====
-- parse_uint256 at concrete texts.
use averlock.Prelude.{◌≡◌, refl, true, false, codes, ok, err, arith, ◌↔◌, []}
use averlock.Uint256.{not_decimal, not_uint256, not_positive, to_string, parse_uint256}
use averlock.Uint256.Parse.{Accepts, parse_uint256_iff}
use averlock.Uint256.RoundTrip.{parse_uint256-to_string}

signed_texts :
    (parse_uint256 (codes "+5") false ≡ ok 5)
    × (parse_uint256 (codes "-0") true ≡ ok 0)
    × (parse_uint256 (codes "-1") true ≡ err not_uint256)
    × (parse_uint256 (codes "0") false ≡ err not_positive)
    × (parse_uint256 (codes "1e3") true ≡ err not_uint256)
    × (parse_uint256 [] true ≡ err not_decimal)
unfolding parse_uint256
signed_texts = (refl, refl, refl, refl, refl, refl)

printed : to_string 1400 ≡ codes "1400"
unfolding to_string
printed = refl

parse_uint256_iff_example :
    (parse_uint256 (codes "+07") false ≡ ok 7) ↔ Accepts false (codes "+07") 7
parse_uint256_iff_example = parse_uint256_iff (codes "+07") false 7

parse_uint256-to_string_example : parse_uint256 (to_string 1400) true ≡ ok 1400
parse_uint256-to_string_example = parse_uint256-to_string 1400 (omega arith)
