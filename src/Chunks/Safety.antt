-- ===== src/Chunks/Safety.antt =====
-- Reading chunks with any content: what cannot fault, and what can.
use mathlib.Core.List.{append_assoc}
use libambix.Base.{
  ℕ, zero, suc, ◌+◌, ◌*◌, ◌^◌, ◌<◌, ◌≤◌, ◌≡◌, refl, sym, ap, ◌∙◌, arith, Bool, true, false, ltb,
  ltb→lt, ◌==◌, if◌then◌else◌, Option, some, List, [], ◌∷◌, ◌++◌, length, length-append, drop, All,
  Outcome, done, fault, le→ltb, lt→ltb, Bool-cases, inl, inr,
}
use libambix.Words.{swap4, swap8}
use libambix.Words.Bytes.{load4}
use libambix.Handle.{Ambix, Info, unknown, Marker, Region, add_marker, add_region}
use libambix.Chunks.Fields.{
  load8, put4, put_stringid, get4, get8, CafMarker, get_caf_marker, CafRegion, get_caf_region,
}
use libambix.Chunks.Fields.Laws.{
  get4-put4, get_stringid-put_stringid, length-put4, length-put_stringid,
}
use libambix.Chunks.Roundtrip.{drop-front}
use libambix.Chunks.Read.{
  c_string, StringsBuffer, read_string_ids, read_strings_chunk, read_chunks, marker_of,
  place_marker, read_region_markers, read_markers, read_markers_chunk, read_regions,
  read_regions_chunk, read_all,
}

load4-total :
    (bytes : List ℕ)
    → 4 ≤ length bytes
    → (n : ℕ) × (rest : List ℕ) × (load4 bytes ≡ done (n, rest)) × (length bytes ≡ 4 + length rest)
unfolding load4
load4-total [] h = absurd (omega arith)
load4-total (a ∷ []) h = absurd (omega arith)
load4-total (a ∷ b ∷ []) h = absurd (omega arith)
load4-total (a ∷ b ∷ c ∷ []) h = absurd (omega arith)
load4-total (a ∷ b ∷ c ∷ d ∷ rest) h = (_, rest, refl, omega arith)

load8-total :
    (bytes : List ℕ)
    → 8 ≤ length bytes
    → (n : ℕ) × (rest : List ℕ) × (load8 bytes ≡ done (n, rest)) × (length bytes ≡ 8 + length rest)
unfolding load8
load8-total bytes h =
    let (m, more, e, size) = load4-total bytes (omega arith) in
    let (n, rest, f, size') = load4-total more (omega (arith, size)) in
    (m + n * 2 ^ 32, rest, rw (e, f), omega (arith, size, size'))

module _ (byteswap : Bool) where
  get4-total :
      (bytes : List ℕ)
      → 4 ≤ length bytes
      → (n : ℕ) × (rest : List ℕ) × (get4 byteswap bytes ≡ done (n, rest))
        × (length bytes ≡ 4 + length rest)
  unfolding get4
  get4-total bytes h =
      let (n, rest, e, size) = load4-total bytes h in
      (if byteswap then swap4 n else n, rest, rw e, size)

  get8-total :
      (bytes : List ℕ)
      → 8 ≤ length bytes
      → (n : ℕ) × (rest : List ℕ) × (get8 byteswap bytes ≡ done (n, rest))
        × (length bytes ≡ 8 + length rest)
  unfolding get8
  get8-total bytes h =
      let (n, rest, e, size) = load8-total bytes h in
      (if byteswap then swap8 n else n, rest, rw e, size)

  get_caf_marker-total :
      (bytes : List ℕ)
      → 28 ≤ length bytes
      → (m : CafMarker) × (rest : List ℕ) × (get_caf_marker byteswap bytes ≡ done (m, rest))
        × (length bytes ≡ 28 + length rest)
  unfolding get_caf_marker
  get_caf_marker-total bytes h =
      let (a, r1, e1, s1) = get4-total bytes (omega arith) in
      let (b, r2, e2, s2) = get8-total r1 (omega (arith, s1)) in
      let (c, r3, e3, s3) = get4-total r2 (omega (arith, s1, s2)) in
      let (d, r4, e4, s4) = load8-total r3 (omega (arith, s1, s2, s3)) in
      let (f, r5, e5, s5) = get4-total r4 (omega (arith, s1, s2, s3, s4)) in
      (
        record { mtype = a; frame_position = b; marker_id = c; channel = f },
        r5,
        rw (e1, e2, e3, e4, e5),
        omega (arith, s1, s2, s3, s4, s5),
      )

  get_caf_region-total :
      (bytes : List ℕ)
      → 12 ≤ length bytes
      → (r : CafRegion) × (rest : List ℕ) × (get_caf_region byteswap bytes ≡ done (r, rest))
  unfolding get_caf_region
  get_caf_region-total bytes h =
      let (a, r1, e1, s1) = get4-total bytes (omega arith) in
      let (b, r2, e2, s2) = get4-total r1 (omega (arith, s1)) in
      let (c, r3, e3, s3) = get4-total r2 (omega (arith, s1, s2)) in
      (record { region_id = a; flags = b; number_markers = c }, r3, rw (e1, e2, e3))

  read_region_markers-total :
      (table : StringsBuffer) (left : ℕ) (bytes : List ℕ) (region : Region)
      → (r : Region) × (rest : List ℕ) × (read_region_markers byteswap table left bytes region
          ≡ done (r, rest))
  unfolding read_region_markers
  read_region_markers-total table zero bytes region = (region, bytes, refl)
  read_region_markers-total table (suc left) bytes region =
      elim (Bool-cases (ltb (length bytes) 28)) [
        | inl e ↦ (region, bytes, rw e)
        | inr e ↦
            let (m, rest, f, _) = get_caf_marker-total bytes (ground arith) in
            let (r, last, g) =
              read_region_markers-total table left rest (place_marker table m region) in
            (r, last, rw (e, f) g)
      ]

-- One round that returns, whatever the chunk holds.
abbrev Steps : {S : Type 0} → (S → Info) → (List ℕ → S → Outcome (S × Bool)) → Type 0
Steps {S = S} info read_one =
    (chunk : List ℕ) (s : S)
    → (t : S) × (more : Bool) × (read_one chunk s ≡ done (t, more)) × (info t ≡ info s)

module _ {F B : Type 0} where
  add_marker-realinfo :
      (a : Ambix F B) (m : Option Marker) → (add_marker a m).0.realinfo ≡ a.realinfo
  unfolding add_marker
  add_marker-realinfo a m = ground arith

  add_region-realinfo :
      (a : Ambix F B) (r : Option Region) → (add_region a r).0.realinfo ≡ a.realinfo
  unfolding add_region
  add_region-realinfo a r = ground arith

  -- Reading returns, and leaves the format of the handle.
  abbrev Returns : Info → Outcome (Ambix F B) → Type 0
  Returns info o = (b : Ambix F B) × (o ≡ done b) × (b.realinfo ≡ info)

  read_markers-total :
      (byteswap : Bool) (table : StringsBuffer) (left : ℕ) (bytes : List ℕ) (a : Ambix F B)
      → left * 28 ≤ length bytes
      → Returns a.realinfo (read_markers byteswap table left bytes a)
  unfolding read_markers
  read_markers-total byteswap table zero bytes a h = (a, refl, refl)
  read_markers-total byteswap table (suc left) bytes a h =
      let (m, rest, e, size) = get_caf_marker-total byteswap bytes (omega arith) in
      let next = (add_marker a (some (marker_of table m))).0 in
      let (b, f, same) = read_markers-total byteswap table left rest next (omega (arith, size)) in
      (b, rw e f, same ∙ add_marker-realinfo a (some (marker_of table m)))

  read_regions-total :
      (byteswap : Bool) (table : StringsBuffer) (left : ℕ) (bytes : List ℕ) (a : Ambix F B)
      → Returns a.realinfo (read_regions byteswap table left bytes a)
  unfolding read_regions
  read_regions-total byteswap table zero bytes a = (a, refl, refl)
  read_regions-total byteswap table (suc left) bytes a = elim (Bool-cases (ltb (length bytes) 12)) [
    | inl e ↦ (a, rw e, refl)
    | inr e ↦
        let (r, markers, f) = get_caf_region-total byteswap bytes (ground arith) in
        let (region, rest, g) =
          read_region_markers-total byteswap table r.number_markers markers
            (record { start_position = 0; end_position = 0; name = [] }) in
        let (b, h, same) =
          read_regions-total byteswap table left rest (add_region a (some region)).0 in
        (b, rw (e, f, g) h, same ∙ add_region-realinfo a (some region))
  ]

  read_markers_chunk-total :
      (byteswap : Bool) (table : StringsBuffer)
      → Steps (λ (a : Ambix F B). a.realinfo) (read_markers_chunk byteswap table)
  unfolding read_markers_chunk
  read_markers_chunk-total byteswap table chunk a = elim (Bool-cases (ltb 8 (length chunk))) [
    | inr e ↦ (a, true, rw e, refl)
    | inl e ↦
        let long : 8 < length chunk = ltb→lt 8 (length chunk) e in
        let (time_type, at_number, f, s1) = get4-total byteswap chunk (omega (arith, long)) in
        let (n, bytes, g, s2) = get4-total byteswap at_number (omega (arith, s1, long)) in
        elim (Bool-cases (ltb (length chunk) (n * 28 + 8))) [
          | inl over ↦ (a, false, rw (e, f, g, over), refl)
          | inr fits ↦
              let (b, h, same) = read_markers-total byteswap table n bytes a (ground arith) in
              (b, true, rw (e, f, g, fits, h), same)
        ]
  ]

  read_regions_chunk-total :
      (byteswap : Bool) (table : StringsBuffer)
      → Steps (λ (a : Ambix F B). a.realinfo) (read_regions_chunk byteswap table)
  unfolding read_regions_chunk
  read_regions_chunk-total byteswap table chunk a = elim (Bool-cases (ltb 8 (length chunk))) [
    | inr e ↦ (a, true, rw e, refl)
    | inl e ↦
        let long : 8 < length chunk = ltb→lt 8 (length chunk) e in
        let (time_type, at_number, f, s1) = get4-total byteswap chunk (omega (arith, long)) in
        let (n, bytes, g, s2) = get4-total byteswap at_number (omega (arith, s1, long)) in
        elim (Bool-cases (ltb (length chunk) (n * 40 + 8))) [
          | inl over ↦ (a, false, rw (e, f, g, over), refl)
          | inr fits ↦
              let (b, h, same) = read_regions-total byteswap table n bytes a in
              (b, true, rw (e, f, g, fits, h), same)
        ]
  ]

  read_chunks-total :
      (read_one : List ℕ → Ambix F B → Outcome (Ambix F B × Bool))
      → Steps (λ (a : Ambix F B). a.realinfo) read_one
      → (chunks : List (List ℕ)) (a : Ambix F B)
      → Returns a.realinfo (read_chunks read_one chunks a)
  unfolding read_chunks
  read_chunks-total read_one total [] a = (a, refl, refl)
  read_chunks-total read_one total ([] ∷ chunks) a = (a, refl, refl)
  read_chunks-total read_one total ((x ∷ bytes) ∷ chunks) a =
      let (b, more, e, same) = total (x ∷ bytes) a in
      let (c, f, kept) = read_chunks-total read_one total chunks b in
      elim (Bool-cases more) [
        | inl on ↦ (c, rw (e, on, f), kept ∙ same)
        | inr off ↦ (b, rw (e, off), same)
      ]

  -- If the names are read without a fault, then whatever bytes the chunks of markers and of regions hold,
  -- reading returns: no byte behind the end of a chunk is read. It leaves the format of the handle.
  pub read_all-total :
      (strg mark regn : List (List ℕ)) (a : Ambix F B) (table : StringsBuffer)
      → read_chunks (read_strings_chunk a.byteswap) strg [] ≡ done table
      → (c : Ambix F B) × (read_all strg mark regn a ≡ done (c, unknown))
        × (c.realinfo ≡ a.realinfo)
  unfolding read_all
  read_all-total strg mark regn a table names =
      let (b, e, same) =
        read_chunks-total (read_markers_chunk a.byteswap table)
          (read_markers_chunk-total a.byteswap table) mark a in
      let (c, f, kept) =
        read_chunks-total (read_regions_chunk a.byteswap table)
          (read_regions_chunk-total a.byteswap table) regn b in
      (c, rw (names, e, f), kept ∙ same)

c_string-fault : (name : List ℕ) → All (λ x. x == 0 ≡ false) name → c_string name ≡ fault
unfolding c_string
c_string-fault [] h = refl
c_string-fault (x ∷ rest) (h, hs) = rw (h, c_string-fault rest hs)

-- A chunk of one name, without a NUL behind it, is accepted, and the name is read past the end of the
-- chunk.
pub read_strings_chunk-fault :
    (byteswap : Bool) (id : ℕ) (name : List ℕ) (table : StringsBuffer)
    → id < 2 ^ 32
    → 0 < length name
    → All (λ x. x == 0 ≡ false) name
    → read_strings_chunk byteswap (put4 byteswap 1 ++ (put_stringid byteswap id 0 ++ name)) table
      ≡ fault
unfolding read_strings_chunk read_string_ids
read_strings_chunk-fault byteswap id name table small pos h =
    let ids : List ℕ = put_stringid byteswap id 0 in
    let size : length (put4 byteswap 1 ++ (ids ++ name)) ≡ 16 + length name = omega (
      arith,
      length-append (put4 byteswap 1) (ids ++ name),
      length-append ids name,
      length-put4 byteswap 1,
      length-put_stringid byteswap id 0,
    ) in
    let behind : drop 16 (put4 byteswap 1 ++ (ids ++ name)) ≡ name =
      ap (drop 16) (sym (append_assoc (put4 byteswap 1) ids name))
      ∙ drop-front (put4 byteswap 1 ++ ids) name 16 (
          omega (
            arith,
            length-append (put4 byteswap 1) ids,
            length-put4 byteswap 1,
            length-put_stringid byteswap id 0,
          )) in
    rw (
      lt→ltb 4 (length (put4 byteswap 1 ++ (ids ++ name))) (omega (arith, size)),
      get4-put4 byteswap 1 (ids ++ name) (omega arith),
      le→ltb (length (put4 byteswap 1 ++ (ids ++ name))) 16 (omega (arith, size)),
      behind,
      get_stringid-put_stringid byteswap id 0 name small (omega arith),
      lt→ltb 0 (length name) pos,
      c_string-fault name h,
    )
