-- ===== src/Utils/Tests.antt =====
-- utils.h at concrete numbers.
use ig_libs.Base.{◌≡◌, ◌*◌, ◌≤◌, ◌<◌, refl, true, arith}
use ig_libs.Utils.{is_power_of_2, roundup_pow_of_two}
use ig_libs.Utils.PowerOfTwo.{IsPow, roundup_pow_of_two_bounds}
use ig_libs.Base.Words.{sub64}

rounds_down : roundup_pow_of_two 5 ≡ 4
unfolding roundup_pow_of_two
rounds_down = refl

accepts_64 : is_power_of_2 64 ≡ true
unfolding is_power_of_2 sub64
accepts_64 = refl

roundup_pow_of_two_bounds_example :
    IsPow (roundup_pow_of_two 100)
    × (roundup_pow_of_two 100 ≤ 100)
    × (100 < 2 * roundup_pow_of_two 100)
roundup_pow_of_two_bounds_example = roundup_pow_of_two_bounds 100 (omega arith) (omega arith)
