-- ===== src/Words/Tests.antt =====
-- The byte order helpers at concrete words.
use libambix.Base.{◌≡◌, refl}
use libambix.Words.{swap4, swap8}

swapped : swap4 0x01020304 ≡ 0x04030201
unfolding swap4
swapped = refl

swapped8 : swap8 0x0102030405060708 ≡ 0x0807060504030201
unfolding swap8
swapped8 = refl
