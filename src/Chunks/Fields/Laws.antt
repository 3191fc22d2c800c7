-- ===== src/Chunks/Fields/Laws.antt =====
-- A field or struct that is written is read back, in both byte orders, and its size.
use mathlib.Core.List.{append_assoc}
use libambix.Base.{ℕ, ◌^◌, ◌<◌, ◌≡◌, refl, ap, arith, Bool, true, false, List, ◌++◌, length, done}
use libambix.Words.{swap4, swap8}
use libambix.Words.Swap.{swap4-lt, swap4-swap4}
use libambix.Words.Swap8.{swap8-swap8, swap8_sum}
use libambix.Words.Bytes.{store4, load4-store4}
use libambix.Chunks.Fields.{
  store8, load8, put4, put8, get4, get8, CafMarker, put_marker, get_caf_marker, CafRegion,
  put_region, get_caf_region, put_stringid, get_stringid,
}

swap8-lt : (n : ℕ) → swap8 n < 2 ^ 64
swap8-lt n = omega (arith, swap8_sum n)

load8-store8 : (n : ℕ) (rest : List ℕ) → n < 2 ^ 64 → load8 (store8 n ++ rest) ≡ done (n, rest)
unfolding load8 store8
load8-store8 n rest h = ap (λ m. done (m, rest)) (omega arith)

pub get4-put4 :
    (byteswap : Bool) (n : ℕ) (rest : List ℕ)
    → n < 2 ^ 32
    → get4 byteswap (put4 byteswap n ++ rest) ≡ done (n, rest)
unfolding get4 put4
get4-put4 true n rest h =
    rw (load4-store4 (swap4 n) rest (swap4-lt n)) (ap (λ m. done (m, rest)) (swap4-swap4 n h))
get4-put4 false n rest h = rw (load4-store4 n rest h)

pub get8-put8 :
    (byteswap : Bool) (n : ℕ) (rest : List ℕ)
    → n < 2 ^ 64
    → get8 byteswap (put8 byteswap n ++ rest) ≡ done (n, rest)
unfolding get8 put8
get8-put8 true n rest h =
    rw (load8-store8 (swap8 n) rest (swap8-lt n)) (ap (λ m. done (m, rest)) (swap8-swap8 n h))
get8-put8 false n rest h = rw (load8-store8 n rest h)

-- The fields fit their types.
pub record IsCaf (m : CafMarker) : Type 0 where
  pub mtype-lt : m.mtype < 2 ^ 32
  pub frame_position-lt : m.frame_position < 2 ^ 64
  pub marker_id-lt : m.marker_id < 2 ^ 32
  pub channel-lt : m.channel < 2 ^ 32

pub get_caf_marker-put_marker :
    (byteswap : Bool) (m : CafMarker) (rest : List ℕ)
    → IsCaf m
    → get_caf_marker byteswap (put_marker byteswap m ++ rest) ≡ done (m, rest)
unfolding get_caf_marker put_marker
get_caf_marker-put_marker byteswap m rest h =
    rw (append_assoc, append_assoc, append_assoc, append_assoc)
      (rw (
        get4-put4 byteswap m.mtype _ h.mtype-lt,
        get8-put8 byteswap m.frame_position _ h.frame_position-lt,
        get4-put4 byteswap m.marker_id _ h.marker_id-lt,
        load8-store8 0 (put4 byteswap m.channel ++ rest) (omega arith),
        get4-put4 byteswap m.channel rest h.channel-lt,
      ))

pub get_caf_region-put_region :
    (byteswap : Bool) (r : CafRegion) (rest : List ℕ)
    → r.region_id < 2 ^ 32
    → r.flags < 2 ^ 32
    → r.number_markers < 2 ^ 32
    → get_caf_region byteswap (put_region byteswap r ++ rest) ≡ done (r, rest)
unfolding get_caf_region put_region
get_caf_region-put_region byteswap r rest h k l =
    rw (append_assoc, append_assoc)
      (rw (
        get4-put4 byteswap r.region_id _ h,
        get4-put4 byteswap r.flags _ k,
        get4-put4 byteswap r.number_markers rest l,
      ))

pub get_stringid-put_stringid :
    (byteswap : Bool) (id offset : ℕ) (rest : List ℕ)
    → id < 2 ^ 32
    → offset < 2 ^ 64
    → get_stringid byteswap (put_stringid byteswap id offset ++ rest) ≡ done ((id, offset), rest)
unfolding get_stringid put_stringid
get_stringid-put_stringid byteswap id offset rest h k =
    rw append_assoc (rw (get4-put4 byteswap id _ h, get8-put8 byteswap offset rest k))

pub length-put4 : (byteswap : Bool) (n : ℕ) → length (put4 byteswap n) ≡ 4
unfolding put4 store4
length-put4 byteswap n = refl

pub length-put8 : (byteswap : Bool) (n : ℕ) → length (put8 byteswap n) ≡ 8
unfolding put8 store8
length-put8 byteswap n = refl

pub length-put_marker : (byteswap : Bool) (m : CafMarker) → length (put_marker byteswap m) ≡ 28
unfolding put_marker put4 put8 store8 store4
length-put_marker byteswap m = refl

pub length-put_region : (byteswap : Bool) (r : CafRegion) → length (put_region byteswap r) ≡ 12
unfolding put_region put4 store4
length-put_region byteswap r = refl

pub length-put_stringid :
    (byteswap : Bool) (id offset : ℕ) → length (put_stringid byteswap id offset) ≡ 12
unfolding put_stringid put4 put8 store8 store4
length-put_stringid byteswap id offset = refl
