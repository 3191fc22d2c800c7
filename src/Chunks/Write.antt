-- ===== src/Chunks/Write.antt =====
-- Writing: `add_string_to_data` and `_ambix_write_markersregions` of
-- libambix/src/marker_region_chunk.c. A buffer from calloc is the list of what was written to it, and a
-- write behind its end is a fault.
use libambix.Base.{
  ℕ, zero, suc, ◌+◌, ◌-◌, ◌*◌, ◌^◌, Bool, ltb, ◌==◌, if◌then◌else◌, Option, none, some, List, [],
  ◌∷◌, ◌++◌, length, take, replicate, get_elem?, Outcome, done, fault, ◌>>=◌, access,
}
use libambix.Words.{u32}
use libambix.Handle.{Ambix, Err, success, Marker, Region}
use libambix.Handle.Backend.{Backend}
use libambix.Chunks.Fields.{put4, CafMarker, put_marker, put_region, put_stringid}

-- `AMBIX_MAKE_MARKER`, and the marker types that are used.
abbrev pub make_marker : (a b c d : ℕ) → ℕ
make_marker a b c d = a * 2 ^ 24 + b * 2 ^ 16 + c * 2 ^ 8 + d

abbrev pub generic : ℕ
generic = 0

abbrev pub region_start : ℕ
region_start = make_marker b'r' b'b' b'e' b'g'

abbrev pub region_end : ℕ
region_end = make_marker b'r' b'e' b'n' b'd'

-- The ids of the chunks.
abbrev pub mark_id : List ℕ
mark_id = b'm' ∷ b'a' ∷ b'r' ∷ b'k' ∷ []

abbrev pub regn_id : List ℕ
regn_id = b'r' ∷ b'e' ∷ b'g' ∷ b'n' ∷ []

abbrev pub strg_id : List ℕ
strg_id = b's' ∷ b't' ∷ b'r' ∷ b'g' ∷ []

-- What was written to `mStringsIDs` and to `mStrings`, `byteoffset_strings` and `datasize_strings`.
pub record Names : Type 0 where
  pub ids : List ℕ
  pub strings : List ℕ
  pub byteoffset : ℕ
  pub datasize : ℕ

unfoldable pub add_string_to_data : (byteswap : Bool) (id : ℕ) → List ℕ → Names → Names
add_string_to_data byteswap id name s = record {
  ids = s.ids ++ put_stringid byteswap id s.byteoffset;
  strings = s.strings ++ (name ++ 0 ∷ []);
  byteoffset = s.byteoffset + (length name + 1);
  datasize = u32 (s.datasize + (length name + 1));
}

abbrev pub caf_marker : (mtype position id : ℕ) → CafMarker
caf_marker mtype position id = record {
  mtype = mtype;
  frame_position = position;
  marker_id = id;
  channel = 0;
}

-- The loop over the markers from `i` on, with the bytes that are written so far.
unfoldable pub write_markers :
    Bool → List Marker → (left i : ℕ) → List ℕ × Names → Outcome (List ℕ × Names)
write_markers byteswap markers zero i s = done s
write_markers byteswap markers (suc left) i (bytes, names) = do
  m ← access (get_elem? markers i)
  write_markers byteswap markers left (i + 1) (
    bytes ++ put_marker byteswap (caf_marker generic m.position (u32 (i + 1))),
    add_string_to_data byteswap (u32 (i + 1)) m.name names,
  )

-- A region and its two markers, which carry the id of its name.
unfoldable pub put_whole_region : Bool → Region → (region_id name_id : ℕ) → List ℕ
put_whole_region byteswap r region_id name_id =
    put_region byteswap (record { region_id = region_id; flags = 0; number_markers = 2 })
    ++ (put_marker byteswap (caf_marker region_start r.start_position name_id)
        ++ put_marker byteswap (caf_marker region_end r.end_position name_id))

unfoldable pub write_regions :
    Bool
    → (num_markers : ℕ) → List Region
    → (left i : ℕ) → List ℕ × Names
    → Outcome (List ℕ × Names)
write_regions byteswap num_markers regions zero i s = done s
write_regions byteswap num_markers regions (suc left) i (bytes, names) = do
  r ← access (get_elem? regions i)
  write_regions byteswap num_markers regions left (i + 1) (
    bytes ++ put_whole_region byteswap r (u32 (i + 1)) (u32 (num_markers + i + 1)),
    add_string_to_data byteswap (u32 (num_markers + i + 1)) r.name names,
  )

-- `calloc(1, size)` after the writes.
unfoldable pub buffer : (size : ℕ) → List ℕ → Outcome (List ℕ)
buffer size bytes =
    if ltb size (length bytes) then fault else done (bytes ++ replicate (size - length bytes) 0)

-- The array behind a pointer that is read.
abbrev pub array : {A : Type 0} → Option (List A) → List A
array none = []
array (some xs) = xs

-- The first `datasize` bytes of the buffer for the names: 256 bytes behind the ids, whatever the names are.
-- More ids than their area holds, which a sum of counts that wraps gives, are a fault.
unfoldable pub strings_data : Bool → (num_strings : ℕ) → Names → Outcome (List ℕ)
strings_data byteswap num_strings names =
    if ltb (12 * num_strings) (length names.ids)
    then fault
    else (buffer (u32 (u32 (4 + num_strings * 12) + 256))
          (put4 byteswap num_strings ++ (names.ids ++ names.strings))
        >>= λ bytes.
            if ltb (length bytes) names.datasize then fault else done (take names.datasize bytes))

-- The chunk of the markers, or no data, and the names behind them.
unfoldable pub marker_data :
    Bool → (num_markers : ℕ) → Option (List Marker) → Names → Outcome (List ℕ × Names)
marker_data byteswap num_markers markers names =
    if ltb 0 num_markers
    then (do
      (bytes, named) ←
          write_markers byteswap (array markers) num_markers 0
            (put4 byteswap 0 ++ put4 byteswap num_markers, names)
      chunk ← buffer (u32 (8 + num_markers * 28)) bytes
      done (chunk, named))
    else done ([], names)

unfoldable pub region_data :
    Bool → (num_markers num_regions : ℕ) → Option (List Region) → Names → Outcome (List ℕ × Names)
region_data byteswap num_markers num_regions regions names =
    if ltb 0 num_regions
    then (do
      (bytes, named) ←
          write_regions byteswap num_markers (array regions) num_regions 0
            (put4 byteswap 0 ++ put4 byteswap num_regions, names)
      chunk ← buffer (u32 (8 + num_regions * 68)) bytes
      done (chunk, named))
    else done ([], names)

module _ {F B : Type 0} where
  -- The three chunks, `mark`, `regn` and `strg`.
  unfoldable pub chunks_of : Ambix F B → (num_strings : ℕ) → Outcome (List ℕ × List ℕ × List ℕ)
  chunks_of a num_strings = do
    (mark, named) ←
        marker_data a.byteswap a.num_markers a.markers
          (record { ids = []; strings = []; byteoffset = 0; datasize = u32 (4 + num_strings * 12) })
    (regn, all_named) ← region_data a.byteswap a.num_markers a.num_regions a.regions named
    strg ← strings_data a.byteswap num_strings all_named
    done (mark, regn, strg)

module _ {F B : Type 0} (backend : Backend F B) where
  -- What writing a chunk returns is not looked at.
  unfoldable pub write_markersregions : Ambix F B → Outcome (Ambix F B × Err)
  write_markersregions a =
      let num_strings = u32 (a.num_markers + a.num_regions) in
      if num_strings == 0
      then done (a, success)
      else (chunks_of a num_strings >>= λ (mark, regn, strg).
          let b = (backend.write_chunk a.private_data mark_id mark).0 in
          let c = (backend.write_chunk b regn_id regn).0 in
          done (record a { private_data = (backend.write_chunk c strg_id strg).0 }, success))
