-- ===== src/Chunks/Read.antt =====
-- Reading: `get_string_from_buffer` and `_ambix_read_markersregions` of
-- libambix/src/marker_region_chunk.c, on chunks with any content. Reading behind the end of a chunk is a
-- fault. A file has fewer than 2 ^ 32 chunks, and a name fewer than 2 ^ 32 bytes.
use libambix.Base.{
  ℕ, zero, suc, ◌+◌, ◌*◌, ◌^◌, Bool, true, false, ltb, ◌==◌, if◌then◌else◌, Option, none, some,
  List, [], ◌∷◌, ◌++◌, length, take, drop, Outcome, done, fault, ◌>>=◌,
}
use libambix.Handle.{Ambix, Err, unknown, Marker, Region, add_marker, add_region}
use libambix.Handle.Backend.{Backend}
use libambix.Chunks.Fields.{get4, CafMarker, get_caf_marker, get_caf_region, get_stringid}
use libambix.Chunks.Write.{region_start, region_end, mark_id, regn_id, strg_id}

-- The bytes up to the first NUL, as `strlen` and `memcpy` take them.
unfoldable pub c_string : List ℕ → Outcome (List ℕ)
c_string [] = fault
c_string (x ∷ rest) =
    let more = c_string rest in if x == 0 then done [] else (more >>= λ s. done (x ∷ s))

-- `strings_buffer`: each id with its string.
abbrev pub StringsBuffer : Type 0
StringsBuffer = List (ℕ × List ℕ)

unfoldable pub get_string_from_buffer : StringsBuffer → ℕ → Option (List ℕ)
get_string_from_buffer [] id = none
get_string_from_buffer ((string_id, string) ∷ rest) id =
    let later = get_string_from_buffer rest id in if string_id == id then some string else later

-- The loop over the ids, with `mStrings` in front of which an offset below 0 is a fault. An offset
-- behind the strings ends it.
unfoldable pub read_string_ids :
    Bool → (strings : List ℕ) → (left : ℕ) → List ℕ → StringsBuffer → Outcome StringsBuffer
read_string_ids byteswap strings zero bytes table = done table
read_string_ids byteswap strings (suc left) bytes table = do
  ((id, offset), rest) ← get_stringid byteswap bytes
  let more = c_string (drop offset strings) >>= λ string.
      read_string_ids byteswap strings left rest (table ++ (id, string) ∷ [])
  if ltb offset (2 ^ 63) then (if ltb offset (length strings) then more else done table) else fault

-- One round of a `while` over chunks: what it leaves, and whether the loop goes on.
unfoldable pub read_strings_chunk : Bool → List ℕ → StringsBuffer → Outcome (StringsBuffer × Bool)
read_strings_chunk byteswap chunk table =
    if ltb 4 (length chunk)
    then (do
      (num_entries, ids) ← get4 byteswap chunk
      if ltb (length chunk) (4 + num_entries * 12)
          then done (table, false)
          else (read_string_ids byteswap (drop (4 + num_entries * 12) chunk) num_entries ids table
              >>= λ t. done (t, true)))
    else done (table, true)

-- `while (datasize)`, over the chunks with one id.
unfoldable pub read_chunks :
    {S : Type 0} → (List ℕ → S → Outcome (S × Bool)) → List (List ℕ) → S → Outcome S
read_chunks read_one [] s = done s
read_chunks read_one ([] ∷ chunks) s = done s
read_chunks read_one ((x ∷ bytes) ∷ chunks) s = read_one (x ∷ bytes) s >>= λ (t, more).
    let rest = read_chunks read_one chunks t in if more then rest else done t

-- `strncpy(name, string, 255)` into a name, if there is a string.
abbrev pub named : Option (List ℕ) → List ℕ → List ℕ
named none old = old
named (some string) old = take 255 string

abbrev pub marker_of : StringsBuffer → CafMarker → Marker
marker_of table m = record {
  position = m.frame_position;
  name = named (get_string_from_buffer table m.marker_id) [];
}

-- One marker of a region.
abbrev pub place_marker : StringsBuffer → CafMarker → Region → Region
place_marker table m region =
    if m.mtype == region_start
    then record region {
      start_position = m.frame_position;
      name = named (get_string_from_buffer table m.marker_id) region.name;
    }
    else if m.mtype == region_end
    then record region { end_position = m.frame_position }
    else region

unfoldable pub read_region_markers :
    Bool → StringsBuffer → (left : ℕ) → List ℕ → Region → Outcome (Region × List ℕ)
read_region_markers byteswap table zero bytes region = done (region, bytes)
read_region_markers byteswap table (suc left) bytes region =
    let more = get_caf_marker byteswap bytes >>= λ (m, rest).
    read_region_markers byteswap table left rest (place_marker table m region) in
    if ltb (length bytes) 28 then done (region, bytes) else more

module _ {F B : Type 0} where
  unfoldable pub read_markers :
      Bool → StringsBuffer → (left : ℕ) → List ℕ → Ambix F B → Outcome (Ambix F B)
  read_markers byteswap table zero bytes a = done a
  read_markers byteswap table (suc left) bytes a = get_caf_marker byteswap bytes >>= λ (m, rest).
      read_markers byteswap table left rest (add_marker a (some (marker_of table m))).0

  unfoldable pub read_markers_chunk :
      Bool → StringsBuffer → List ℕ → Ambix F B → Outcome (Ambix F B × Bool)
  read_markers_chunk byteswap table chunk a =
      if ltb 8 (length chunk)
      then (do
        (time_type, at_number) ← get4 byteswap chunk
        (number_markers, bytes) ← get4 byteswap at_number
        if ltb (length chunk) (number_markers * 28 + 8)
            then done (a, false)
            else (read_markers byteswap table number_markers bytes a >>= λ b. done (b, true)))
      else done (a, true)

  unfoldable pub read_regions :
      Bool → StringsBuffer → (left : ℕ) → List ℕ → Ambix F B → Outcome (Ambix F B)
  read_regions byteswap table zero bytes a = done a
  read_regions byteswap table (suc left) bytes a =
      let more = get_caf_region byteswap bytes >>= λ (r, markers).
      read_region_markers byteswap table r.number_markers markers
        (record { start_position = 0; end_position = 0; name = [] })
      >>= λ (region, rest). read_regions byteswap table left rest (add_region a (some region)).0 in
      if ltb (length bytes) 12 then done a else more

  unfoldable pub read_regions_chunk :
      Bool → StringsBuffer → List ℕ → Ambix F B → Outcome (Ambix F B × Bool)
  read_regions_chunk byteswap table chunk a =
      if ltb 8 (length chunk)
      then (do
        (time_type, at_number) ← get4 byteswap chunk
        (number_regions, bytes) ← get4 byteswap at_number
        if ltb (length chunk) (number_regions * 40 + 8)
            then done (a, false)
            else (read_regions byteswap table number_regions bytes a >>= λ b. done (b, true)))
      else done (a, true)

  -- The names are read first, then the markers and the regions, which are added to the handle.
  unfoldable pub read_all : (strg mark regn : List (List ℕ)) → Ambix F B → Outcome (Ambix F B × Err)
  read_all strg mark regn a = do
    table ← read_chunks (read_strings_chunk a.byteswap) strg []
    b ← read_chunks (read_markers_chunk a.byteswap table) mark a
    c ← read_chunks (read_regions_chunk a.byteswap table) regn b
    done (c, unknown)

module _ {F B : Type 0} (backend : Backend F B) where
  unfoldable pub read_markersregions : Ambix F B → Outcome (Ambix F B × Err)
  read_markersregions a =
      read_all (backend.chunks a.private_data strg_id) (backend.chunks a.private_data mark_id)
        (backend.chunks a.private_data regn_id) a
