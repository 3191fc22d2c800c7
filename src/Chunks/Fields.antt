-- ===== src/Chunks/Fields.antt =====
-- The structs of libambix/src/marker_region_chunk.c in memory, and the functions that swap them. A
-- write of a struct and the swap of its fields is one list of bytes; so is a swap and a read.
pub mod Laws
use libambix.Base.{
  ℕ, zero, suc, ◌+◌, ◌*◌, ◌/◌, ◌%◌, ◌^◌, Bool, true, false, if◌then◌else◌, List, [], ◌∷◌, ◌++◌,
  Outcome, done, fault, ◌>>=◌,
}
use libambix.Words.{swap4, swap8}
use libambix.Words.Bytes.{store4, load4}

unfoldable pub store8 : ℕ → List ℕ
unfolding store4
store8 n = store4 (n % 2 ^ 32) ++ store4 (n / 2 ^ 32 % 2 ^ 32)

unfoldable pub load8 : List ℕ → Outcome (ℕ × List ℕ)
unfolding load4
load8 bytes = do s ← load4 bytes; t ← load4 s.1; done (s.0 + t.0 * 2 ^ 32, t.1)

-- A field of 4 or 8 bytes in the byte order of the file.
unfoldable pub put4 : Bool → ℕ → List ℕ
put4 byteswap n = store4 (if byteswap then swap4 n else n)

unfoldable pub put8 : Bool → ℕ → List ℕ
put8 byteswap n = store8 (if byteswap then swap8 n else n)

unfoldable pub get4 : Bool → List ℕ → Outcome (ℕ × List ℕ)
get4 byteswap bytes = load4 bytes >>= λ s. done (if byteswap then swap4 s.0 else s.0, s.1)

unfoldable pub get8 : Bool → List ℕ → Outcome (ℕ × List ℕ)
get8 byteswap bytes = load8 bytes >>= λ s. done (if byteswap then swap8 s.0 else s.0, s.1)

-- `CAFMarker`; `mSMPTETime` is 0 where it is written, never swapped, and never read.
pub record CafMarker : Type 0 where
  pub mtype : ℕ
  pub frame_position : ℕ
  pub marker_id : ℕ
  pub channel : ℕ

unfoldable pub put_marker : Bool → CafMarker → List ℕ
put_marker byteswap m =
    put4 byteswap m.mtype
    ++ (put8 byteswap m.frame_position
        ++ (put4 byteswap m.marker_id ++ (store8 0 ++ put4 byteswap m.channel)))

unfoldable pub get_caf_marker : Bool → List ℕ → Outcome (CafMarker × List ℕ)
get_caf_marker byteswap bytes = do
  (mtype, at_position) ← get4 byteswap bytes
  (frame_position, at_id) ← get8 byteswap at_position
  (marker_id, at_time) ← get4 byteswap at_id
  (time, at_channel) ← load8 at_time
  (channel, rest) ← get4 byteswap at_channel
  done (
    record {
      mtype = mtype;
      frame_position = frame_position;
      marker_id = marker_id;
      channel = channel;
    },
    rest,
  )

-- `CAFRegion` without its markers.
pub record CafRegion : Type 0 where
  pub region_id : ℕ
  pub flags : ℕ
  pub number_markers : ℕ

unfoldable pub put_region : Bool → CafRegion → List ℕ
put_region byteswap r =
    put4 byteswap r.region_id ++ (put4 byteswap r.flags ++ put4 byteswap r.number_markers)

unfoldable pub get_caf_region : Bool → List ℕ → Outcome (CafRegion × List ℕ)
get_caf_region byteswap bytes = do
  (region_id, at_flags) ← get4 byteswap bytes
  (flags, at_number) ← get4 byteswap at_flags
  (number_markers, rest) ← get4 byteswap at_number
  done (record { region_id = region_id; flags = flags; number_markers = number_markers }, rest)

-- `CAFStringID`
unfoldable pub put_stringid : Bool → (id offset : ℕ) → List ℕ
put_stringid byteswap id offset = put4 byteswap id ++ put8 byteswap offset

unfoldable pub get_stringid : Bool → List ℕ → Outcome ((ℕ × ℕ) × List ℕ)
get_stringid byteswap bytes = do
  (id, at_offset) ← get4 byteswap bytes
  (offset, rest) ← get8 byteswap at_offset
  done ((id, offset), rest)
