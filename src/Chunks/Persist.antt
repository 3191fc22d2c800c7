-- ===== src/Chunks/Persist.antt =====
-- A handle with no markers and regions reads the chunks that were written for another one, and holds what
-- that one holds.
use mathlib.Core.List.{append_assoc, append-nil}
use libambix.Base.{
  ℕ, ◌+◌, ◌^◌, ◌<◌, ◌≤◌, ◌≡◌, refl, sym, subst, ap, ◌∙◌, arith, Bool, List, [], ◌∷◌, ◌++◌, map,
  length, length-append, length-map, All, done,
}
use libambix.Handle.{Ambix, unknown, Marker, Region}
use libambix.Handle.Markers.{
  marker_added, region_added, perform_all, edit_all, Holds, perform_all-Holds,
}
use libambix.Chunks.Fields.{put4}
use libambix.Chunks.Fields.Laws.{length-put4}
use libambix.Chunks.Everything.{
  IsMarker, IsRegion, read_markers_chunk-perform_all, read_regions_chunk-perform_all,
}
use libambix.Handle.Markers.{IsValid, marker_list, region_list}
use libambix.Chunks.Write.{chunks_of}
use libambix.Chunks.Whole.{chunks_of-done}
use libambix.Chunks.Written.{
  id_bytes, marker_bytes, region_bytes, string_bytes, marker_names, region_names,
  length-marker_bytes, length-region_bytes,
}
use libambix.Chunks.Whole.{mark_chunk, regn_chunk, strg_chunk, all_names, length-names}
use libambix.Chunks.Read.{
  StringsBuffer, read_strings_chunk, read_chunks, read_markers_chunk, read_regions_chunk, read_all,
}
use libambix.Chunks.Roundtrip.{
  IsName, numbered, Found, Found-numbered, Found-append, read_chunks-one,
  read_strings_chunk-strg_chunk,
}

module _ {F B : Type 0} (byteswap : Bool) (table : StringsBuffer) where
  read_marker_chunks :
      (ms : List Marker) (a : Ambix F B)
      → 1 + length ms < 2 ^ 32
      → All IsMarker ms
      → Found table 1 (marker_names ms)
      → read_chunks (read_markers_chunk byteswap table) (mark_chunk byteswap ms ∷ []) a
        ≡ done (perform_all (map marker_added ms) a)
  unfolding read_chunks
  read_marker_chunks [] a small h f = refl
  read_marker_chunks (m ∷ ms) a small h f =
      read_chunks-one (read_markers_chunk byteswap table) (mark_chunk byteswap (m ∷ ms)) a _
        (omega (
          arith,
          length-append (put4 byteswap 0 ++ put4 byteswap (length (m ∷ ms)))
              (marker_bytes byteswap 1 (m ∷ ms)),
          length-marker_bytes byteswap 1 (m ∷ ms),
        ))
        (read_markers_chunk-perform_all byteswap table (m ∷ ms) a (omega arith) small h f)

  read_region_chunks :
      (n : ℕ) (rs : List Region) (a : Ambix F B)
      → n + 1 + length rs < 2 ^ 32
      → All IsRegion rs
      → Found table (n + 1) (region_names rs)
      → read_chunks (read_regions_chunk byteswap table) (regn_chunk byteswap n rs ∷ []) a
        ≡ done (perform_all (map region_added rs) a)
  unfolding read_chunks
  read_region_chunks n [] a small h f = refl
  read_region_chunks n (r ∷ rs) a small h f =
      read_chunks-one (read_regions_chunk byteswap table) (regn_chunk byteswap n (r ∷ rs)) a _
        (omega (
          arith,
          length-append (put4 byteswap 0 ++ put4 byteswap (length (r ∷ rs)))
              (region_bytes byteswap 1 (n + 1) (r ∷ rs)),
          length-region_bytes byteswap 1 (n + 1) (r ∷ rs),
        ))
        (read_regions_chunk-perform_all byteswap table n (r ∷ rs) a (omega arith) small h f)

all_names-IsName :
    (ms : List Marker) (rs : List Region)
    → All IsMarker ms
    → All IsRegion rs
    → All IsName (all_names ms rs)
all_names-IsName [] [] h k = tt
all_names-IsName [] (r ∷ rs) h (k, ks) = (k.name, all_names-IsName [] rs h ks)
all_names-IsName (m ∷ ms) rs (h, hs) k = (h.name, all_names-IsName ms rs hs k)

edit_all-markers :
    (ms xs : List Marker) (ys : List Region)
    → edit_all (map marker_added ms) (xs, ys) ≡ (xs ++ ms, ys)
edit_all-markers [] xs ys = λ t. (sym (append-nil xs) t, ys)
edit_all-markers (m ∷ ms) xs ys =
    edit_all-markers ms (xs ++ m ∷ []) ys ∙ (λ t. (append_assoc xs (m ∷ []) ms t, ys))

edit_all-regions :
    (rs : List Region) (xs : List Marker) (ys : List Region)
    → edit_all (map region_added rs) (xs, ys) ≡ (xs, ys ++ rs)
edit_all-regions [] xs ys = λ t. (xs, sym (append-nil ys) t)
edit_all-regions (r ∷ rs) xs ys =
    edit_all-regions rs xs (ys ++ r ∷ []) ∙ (λ t. (xs, append_assoc ys (r ∷ []) rs t))

module _ {F B : Type 0} (b : Ambix F B) (ms : List Marker) (rs : List Region) where
  -- The handle with the markers and regions added.
  abbrev pub filled : Ambix F B
  filled = perform_all (map region_added rs) (perform_all (map marker_added ms) b)

  filled-Holds : Holds b ([], []) → length ms + length rs < 2 ^ 31 → Holds filled (ms, rs)
  filled-Holds empty small =
      let marked : Holds (perform_all (map marker_added ms) b) (ms, []) =
        subst (Holds (perform_all (map marker_added ms) b)) (edit_all-markers ms [] []) (
          perform_all-Holds (map marker_added ms) b ([], []) empty
            (omega (arith, small, length-map ms marker_added))
            (omega (arith, small, length-map ms marker_added))) in
      subst (Holds filled) (edit_all-regions rs ms []) (
        perform_all-Holds (map region_added rs) (perform_all (map marker_added ms) b) (ms, [])
          marked (omega (arith, small, length-map rs region_added))
          (omega (arith, small, length-map rs region_added)))

  pub read_all-filled :
      0 < length (all_names ms rs)
      → length (string_bytes (all_names ms rs)) ≤ 256
      → All IsMarker ms
      → All IsRegion rs
      → read_all
          (strg_chunk b.byteswap (all_names ms rs) ∷ [])
          (mark_chunk b.byteswap ms ∷ [])
          (regn_chunk b.byteswap (length ms) rs ∷ [])
          b
        ≡ done (filled, unknown)
  unfolding read_all
  read_all-filled pos fits hm hr =
      let table : StringsBuffer = numbered 1 (all_names ms rs) in
      let few : length (all_names ms rs) ≤ 256 =
        omega (arith, fits, length-names (all_names ms rs)) in
      let sizes : length (all_names ms rs) ≡ length ms + length rs = omega (
        arith,
        length-append (marker_names ms) (region_names rs),
        length-map ms (λ m. m.name),
        length-map rs (λ r. r.name),
      ) in
      let (of_markers, of_regions) =
        Found-append table 1 (marker_names ms) (region_names rs)
          (Found-numbered 1 (all_names ms rs)) in
      rw (
        read_chunks-one (read_strings_chunk b.byteswap) (strg_chunk b.byteswap (all_names ms rs)) []
            table
            (omega (
              arith,
              length-append (put4 b.byteswap (length (all_names ms rs)))
                  (id_bytes b.byteswap 1 0 (all_names ms rs) ++ string_bytes (all_names ms rs)),
              length-put4 b.byteswap (length (all_names ms rs)),
            ))
            (read_strings_chunk-strg_chunk b.byteswap (all_names ms rs) pos fits
              (all_names-IsName ms rs hm hr)),
        read_marker_chunks b.byteswap table ms b (omega (arith, sizes, few)) hm of_markers,
        read_region_chunks b.byteswap table (length ms) rs (perform_all (map marker_added ms) b)
            (omega (arith, sizes, few)) hr
            (subst (λ j. Found table j (region_names rs)) {x = 1 + length (marker_names ms)}
              {y = length ms + 1} (omega (arith, length-map ms (λ m. m.name))) of_regions),
      )

-- Saving and loading. Take a handle whose counts are its arrays' lengths, with at least one marker or
-- region, positions that are words and names of at most 255 bytes without NUL, all of which with their
-- NULs take at most 256 bytes. Then its three chunks are written, and a handle of the same byte order that
-- has none and has not started to write reads them without a fault and holds the same markers and
-- regions, with the same names.
pub read_all-chunks_of :
    {F B : Type 0} (a b : Ambix F B)
    → IsValid a
    → 0 < length (all_names (marker_list a) (region_list a))
    → length (string_bytes (all_names (marker_list a) (region_list a))) ≤ 256
    → All IsMarker (marker_list a)
    → All IsRegion (region_list a)
    → b.byteswap ≡ a.byteswap
    → Holds b ([], [])
    → (mark regn strg : List ℕ) × (chunks_of a (length (all_names (marker_list a) (region_list a)))
        ≡ done (mark, regn, strg))
      × (c : Ambix F B) × (read_all (strg ∷ []) (mark ∷ []) (regn ∷ []) b ≡ done (c, unknown))
      × Holds c (marker_list a, region_list a)
read_all-chunks_of a b valid pos fits hm hr same empty =
    let ms = marker_list a in
    let rs = region_list a in
    (
      mark_chunk a.byteswap ms,
      regn_chunk a.byteswap (length ms) rs,
      strg_chunk a.byteswap (all_names ms rs),
      chunks_of-done a ms rs valid refl refl fits,
      filled b ms rs,
      ap
            (λ swap.
              read_all (strg_chunk swap (all_names ms rs) ∷ []) (mark_chunk swap ms ∷ [])
                (regn_chunk swap (length ms) rs ∷ []) b)
            (sym same)
          ∙ read_all-filled b ms rs pos fits hm hr,
      filled-Holds b ms rs empty (
          omega (
            arith,
            fits,
            length-names (all_names ms rs),
            length-append (marker_names ms) (region_names rs),
            length-map ms (λ m. m.name),
            length-map rs (λ r. r.name),
          )),
    )
