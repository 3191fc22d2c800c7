-- ===== src/Chunks/Everything.antt =====
-- A handle that reads the chunks of another one gets its markers and regions.
use mathlib.Core.List.{append_assoc, append-nil}
use libambix.Base.{
  ℕ, zero, suc, ◌+◌, ◌*◌, ◌^◌, ◌<◌, ◌≤◌, ◌≡◌, refl, ap, ◌∙◌, arith, Bool, true, some, List, [], ◌∷◌,
  ◌++◌, map, length, length-append, take, All, done, le→ltb, lt→ltb,
}
use libambix.Handle.{Ambix, Marker, Region, add_marker, add_region}
use libambix.Handle.Markers.{marker_added, region_added, perform_all}
use libambix.Chunks.Fields.{put4, put_marker, put_region}
use libambix.Chunks.Fields.Laws.{
  IsCaf, get4-put4, get_caf_marker-put_marker, get_caf_region-put_region, length-put4,
  length-put_marker, length-put_region,
}
use libambix.Chunks.Write.{generic, region_start, region_end, caf_marker, put_whole_region}
use libambix.Chunks.Written.{
  marker_bytes, region_bytes, marker_names, region_names, length-marker_bytes, length-region_bytes,
}
use libambix.Chunks.Whole.{mark_chunk, regn_chunk}
use libambix.Chunks.Read.{
  StringsBuffer, get_string_from_buffer, named, read_region_markers, read_markers,
  read_markers_chunk, read_regions, read_regions_chunk,
}
use libambix.Chunks.Roundtrip.{IsName, Found}

-- The positions are words and the names are names.
pub record IsMarker (m : Marker) : Type 0 where
  pub position-lt : m.position < 2 ^ 64
  pub name : IsName m.name

pub record IsRegion (r : Region) : Type 0 where
  pub start-lt : r.start_position < 2 ^ 64
  pub end-lt : r.end_position < 2 ^ 64
  pub name : IsName r.name

take-short : (n : ℕ) (xs : List ℕ) → length xs ≤ n → take n xs ≡ xs
take-short zero [] h = refl
take-short zero (x ∷ xs) h = absurd (omega arith)
take-short (suc n) [] h = refl
take-short (suc n) (x ∷ xs) h = ap (◌∷◌ x) (take-short n xs (omega arith))

-- The name that a marker's id stands for.
named-name :
    (table : StringsBuffer) (id : ℕ) (n old : List ℕ)
    → IsName n
    → get_string_from_buffer table id ≡ some n
    → named (get_string_from_buffer table id) old ≡ n
named-name table id n old name found = ap (λ o. named o old) found ∙ take-short 255 n name.short

caf_marker-IsCaf :
    (mtype position id : ℕ)
    → mtype < 2 ^ 32
    → position < 2 ^ 64
    → id < 2 ^ 32
    → IsCaf (caf_marker mtype position id)
caf_marker-IsCaf mtype position id h k l = record {
  mtype-lt = h;
  frame_position-lt = k;
  marker_id-lt = l;
  channel-lt = omega arith;
}

module _ (byteswap : Bool) (table : StringsBuffer) where
  -- The two markers of a region fill in its positions and its name.
  read_region_markers-region :
      (k : ℕ) (r : Region) (rest : List ℕ)
      → IsRegion r
      → get_string_from_buffer table k ≡ some r.name
      → k < 2 ^ 32
      → read_region_markers byteswap table 2
          (put_marker byteswap (caf_marker region_start r.start_position k)
            ++ (put_marker byteswap (caf_marker region_end r.end_position k) ++ rest))
          (record { start_position = 0; end_position = 0; name = [] })
        ≡ done (r, rest)
  unfolding read_region_markers
  read_region_markers-region k r rest h f small =
      let first : List ℕ = put_marker byteswap (caf_marker region_start r.start_position k) in
      let second : List ℕ = put_marker byteswap (caf_marker region_end r.end_position k) in
      rw
        (
          le→ltb (length (first ++ (second ++ rest))) 28 (
              omega (
                arith,
                length-append first (second ++ rest),
                length-put_marker byteswap (caf_marker region_start r.start_position k),
              )),
          get_caf_marker-put_marker byteswap (caf_marker region_start r.start_position k)
              (second ++ rest)
              (caf_marker-IsCaf region_start r.start_position k (omega arith) h.start-lt small),
          le→ltb (length (second ++ rest)) 28 (
              omega (
                arith,
                length-append second rest,
                length-put_marker byteswap (caf_marker region_end r.end_position k),
              )),
          get_caf_marker-put_marker byteswap (caf_marker region_end r.end_position k) rest
              (caf_marker-IsCaf region_end r.end_position k (omega arith) h.end-lt small),
        )
        (ap
          (λ n. done (
            record { start_position = r.start_position; end_position = r.end_position; name = n },
            rest,
          ))
          (named-name table k r.name [] h.name f))

module _ {F B : Type 0} (byteswap : Bool) (table : StringsBuffer) where
  read_markers-perform_all :
      (k : ℕ) (ms : List Marker) (rest : List ℕ) (a : Ambix F B)
      → All IsMarker ms
      → Found table k (marker_names ms)
      → k + length ms < 2 ^ 32
      → read_markers byteswap table (length ms) (marker_bytes byteswap k ms ++ rest) a
        ≡ done (perform_all (map marker_added ms) a)
  unfolding read_markers
  read_markers-perform_all k [] rest a h f small = refl
  read_markers-perform_all k (m ∷ ms) rest a (h, hs) (f, fs) small =
      rw
        (
          append_assoc (put_marker byteswap (caf_marker generic m.position k))
              (marker_bytes byteswap (k + 1) ms) rest,
          get_caf_marker-put_marker byteswap (caf_marker generic m.position k)
              (marker_bytes byteswap (k + 1) ms ++ rest)
              (caf_marker-IsCaf generic m.position k (omega arith) h.position-lt
                (omega (arith, small))),
        )
        (ap
            (λ n.
              read_markers byteswap table (length ms) (marker_bytes byteswap (k + 1) ms ++ rest)
                (add_marker a (some (record { position = m.position; name = n }))).0)
            (named-name table k m.name [] h.name f)
          ∙ read_markers-perform_all (k + 1) ms rest (add_marker a (some m)).0 hs fs
              (omega (arith, small)))

  read_regions-perform_all :
      (k id : ℕ) (rs : List Region) (rest : List ℕ) (a : Ambix F B)
      → All IsRegion rs
      → Found table id (region_names rs)
      → k + length rs < 2 ^ 32
      → id + length rs < 2 ^ 32
      → read_regions byteswap table (length rs) (region_bytes byteswap k id rs ++ rest) a
        ≡ done (perform_all (map region_added rs) a)
  unfolding read_regions put_whole_region
  read_regions-perform_all k id [] rest a h f small few = refl
  read_regions-perform_all k id (r ∷ rs) rest a (h, hs) (f, fs) small few =
      let head : List ℕ =
        put_region byteswap (record { region_id = k; flags = 0; number_markers = 2 }) in
      let first : List ℕ = put_marker byteswap (caf_marker region_start r.start_position id) in
      let second : List ℕ = put_marker byteswap (caf_marker region_end r.end_position id) in
      let others : List ℕ = region_bytes byteswap (k + 1) (id + 1) rs in
      let apart : (head ++ (first ++ second)) ++ others ++ rest
          ≡ head ++ (first ++ (second ++ (others ++ rest))) =
        append_assoc (head ++ (first ++ second)) others rest
        ∙ append_assoc head (first ++ second) (others ++ rest)
        ∙ ap (◌++◌ head) (append_assoc first second (others ++ rest)) in
      ap (λ bytes. read_regions byteswap table (suc (length rs)) bytes a) apart
      ∙ rw
          (
            le→ltb (length (head ++ (first ++ (second ++ (others ++ rest))))) 12 (
                omega (
                  arith,
                  length-append head (first ++ (second ++ (others ++ rest))),
                  length-put_region byteswap
                      (record { region_id = k; flags = 0; number_markers = 2 }),
                )),
            get_caf_region-put_region byteswap
                (record { region_id = k; flags = 0; number_markers = 2 })
                (first ++ (second ++ (others ++ rest))) (omega (arith, small)) (omega arith)
                (omega arith),
            read_region_markers-region byteswap table id r (others ++ rest) h f
                (omega (arith, few)),
          )
          (read_regions-perform_all (k + 1) (id + 1) rs rest (add_region a (some r)).0 hs fs
            (omega (arith, small)) (omega (arith, few)))

  pub read_markers_chunk-perform_all :
      (ms : List Marker) (a : Ambix F B)
      → 0 < length ms
      → 1 + length ms < 2 ^ 32
      → All IsMarker ms
      → Found table 1 (marker_names ms)
      → read_markers_chunk byteswap table (mark_chunk byteswap ms) a
        ≡ done (perform_all (map marker_added ms) a, true)
  unfolding read_markers_chunk
  read_markers_chunk-perform_all [] a pos small h f = absurd (omega arith)
  read_markers_chunk-perform_all (m ∷ ms) a pos small h f =
      let start : List ℕ = put4 byteswap (length (m ∷ ms)) in
      let body : List ℕ = marker_bytes byteswap 1 (m ∷ ms) in
      let size : length (put4 byteswap 0 ++ (start ++ body)) ≡ 8 + 28 * length (m ∷ ms) = omega (
        arith,
        length-append (put4 byteswap 0) (start ++ body),
        length-append start body,
        length-put4 byteswap 0,
        length-put4 byteswap (length (m ∷ ms)),
        length-marker_bytes byteswap 1 (m ∷ ms),
      ) in
      ap (λ chunk. read_markers_chunk byteswap table chunk a)
        (append_assoc (put4 byteswap 0) start body)
      ∙ rw (
        lt→ltb 8 (length (put4 byteswap 0 ++ (start ++ body))) (omega (arith, size)),
        get4-put4 byteswap 0 (start ++ body) (omega arith),
        get4-put4 byteswap (length (m ∷ ms)) body (omega (arith, small)),
        le→ltb (length (put4 byteswap 0 ++ (start ++ body))) (length (m ∷ ms) * 28 + 8)
            (omega (arith, size)),
        ← append-nil body,
        read_markers-perform_all 1 (m ∷ ms) [] a h f small,
      )

  pub read_regions_chunk-perform_all :
      (n : ℕ) (rs : List Region) (a : Ambix F B)
      → 0 < length rs
      → n + 1 + length rs < 2 ^ 32
      → All IsRegion rs
      → Found table (n + 1) (region_names rs)
      → read_regions_chunk byteswap table (regn_chunk byteswap n rs) a
        ≡ done (perform_all (map region_added rs) a, true)
  unfolding read_regions_chunk
  read_regions_chunk-perform_all n [] a pos small h f = absurd (omega arith)
  read_regions_chunk-perform_all n (r ∷ rs) a pos small h f =
      let start : List ℕ = put4 byteswap (length (r ∷ rs)) in
      let body : List ℕ = region_bytes byteswap 1 (n + 1) (r ∷ rs) in
      let size : length (put4 byteswap 0 ++ (start ++ body)) ≡ 8 + 68 * length (r ∷ rs) = omega (
        arith,
        length-append (put4 byteswap 0) (start ++ body),
        length-append start body,
        length-put4 byteswap 0,
        length-put4 byteswap (length (r ∷ rs)),
        length-region_bytes byteswap 1 (n + 1) (r ∷ rs),
      ) in
      ap (λ chunk. read_regions_chunk byteswap table chunk a)
        (append_assoc (put4 byteswap 0) start body)
      ∙ rw (
        lt→ltb 8 (length (put4 byteswap 0 ++ (start ++ body))) (omega (arith, size)),
        get4-put4 byteswap 0 (start ++ body) (omega arith),
        get4-put4 byteswap (length (r ∷ rs)) body (omega (arith, small)),
        le→ltb (length (put4 byteswap 0 ++ (start ++ body))) (length (r ∷ rs) * 40 + 8)
            (omega (arith, size)),
        ← append-nil body,
        read_regions-perform_all 1 (n + 1) (r ∷ rs) [] a h f (omega (arith, small)) small,
      )
