-- ===== src/Chunks/Whole.antt =====
-- The three chunks that are written for a handle, and the overrun of the buffer for the names.
use libambix.Base.{
  ℕ, zero, suc, ◌+◌, ◌-◌, ◌*◌, ◌^◌, ◌<◌, ◌≤◌, ◌≡◌, refl, sym, ap, ◌∙◌, arith, Bool, Option, none,
  some, List, [], ◌∷◌, ◌++◌, length, length-append, length-map, take, replicate, length-replicate,
  done, fault, ◌>>=◌, le→ltb, lt→ltb,
}
use libambix.Words.{u32}
use libambix.Handle.{Ambix, Marker, Region}
use libambix.Handle.Markers.{contents, IsStored, marker_list, region_list, IsValid}
use libambix.Chunks.Fields.{put4}
use libambix.Chunks.Fields.Laws.{length-put4}
use libambix.Chunks.Write.{Names, buffer, marker_data, region_data, strings_data, chunks_of}
use libambix.Chunks.Written.{
  marker_bytes, region_bytes, id_bytes, string_bytes, marker_names, region_names, add_all,
  extended_names, write_markers-bytes, write_regions-bytes, add_all-append, add_all-extended,
  buffer-full, length-marker_bytes, length-region_bytes, length-id_bytes,
}

module _ (byteswap : Bool) where
  abbrev pub mark_chunk : List Marker → List ℕ
  mark_chunk [] = []
  mark_chunk (m ∷ ms) =
      (put4 byteswap 0 ++ put4 byteswap (length (m ∷ ms))) ++ marker_bytes byteswap 1 (m ∷ ms)

  abbrev pub regn_chunk : (n : ℕ) → List Region → List ℕ
  regn_chunk n [] = []
  regn_chunk n (r ∷ rs) =
      (put4 byteswap 0 ++ put4 byteswap (length (r ∷ rs)))
      ++ region_bytes byteswap 1 (n + 1) (r ∷ rs)

  abbrev pub strg_chunk : List (List ℕ) → List ℕ
  strg_chunk ns = put4 byteswap (length ns) ++ (id_bytes byteswap 1 0 ns ++ string_bytes ns)

-- The names of a handle, those of its markers first.
abbrev pub all_names : List Marker → List Region → List (List ℕ)
all_names ms rs = marker_names ms ++ region_names rs

-- The names before anything is written.
abbrev pub no_names : ℕ → Names
no_names n = record { ids = []; strings = []; byteoffset = 0; datasize = u32 (4 + n * 12) }

start_length : (byteswap : Bool) (a b : ℕ) → length (put4 byteswap a ++ put4 byteswap b) ≡ 8
start_length byteswap a b = omega (
  arith,
  length-append (put4 byteswap a) (put4 byteswap b),
  length-put4 byteswap a,
  length-put4 byteswap b,
)

size_after : (xs ys : List ℕ) → length (xs ++ ys) ≡ length xs + length ys
size_after = length-append

marker_data-mark_chunk :
    (byteswap : Bool) (n : ℕ) (o : Option (List Marker)) (names : Names)
    → IsStored n o
    → 8 + length (contents n o) * 28 < 2 ^ 32
    → marker_data byteswap n o names
      ≡ done (
        mark_chunk byteswap (contents n o),
        add_all byteswap 1 (marker_names (contents n o)) names,
      )
unfolding marker_data
marker_data-mark_chunk byteswap zero o names h small = refl
marker_data-mark_chunk byteswap (suc n) none names h small = absurd (omega (arith, h))
marker_data-mark_chunk byteswap (suc n) (some []) names h small = absurd (omega (arith, h))
marker_data-mark_chunk byteswap (suc n) (some (m ∷ ms)) names h small =
    let start : List ℕ = put4 byteswap 0 ++ put4 byteswap (suc n) in
    rw
      (
        lt→ltb 0 (suc n) (omega arith),
        write_markers-bytes byteswap (m ∷ ms) (suc n) 0 start names (omega (arith, h))
            (omega (arith, small)),
        buffer-full (u32 (8 + suc n * 28)) (start ++ marker_bytes byteswap 1 (m ∷ ms)) (
            omega (
              arith,
              start_length byteswap 0 (suc n),
              size_after start (marker_bytes byteswap 1 (m ∷ ms)),
              length-marker_bytes byteswap 1 (m ∷ ms),
              h,
              small,
            )),
      )
      (ap
        (λ k. done (
          (put4 byteswap 0 ++ put4 byteswap k) ++ marker_bytes byteswap 1 (m ∷ ms),
          add_all byteswap 1 (marker_names (m ∷ ms)) names,
        ))
        h)

region_data-regn_chunk :
    (byteswap : Bool) (k n : ℕ) (o : Option (List Region)) (names : Names)
    → IsStored n o
    → k + 8 + length (contents n o) * 68 < 2 ^ 32
    → region_data byteswap k n o names
      ≡ done (
        regn_chunk byteswap k (contents n o),
        add_all byteswap (k + 1) (region_names (contents n o)) names,
      )
unfolding region_data
region_data-regn_chunk byteswap k zero o names h small = refl
region_data-regn_chunk byteswap k (suc n) none names h small = absurd (omega (arith, h))
region_data-regn_chunk byteswap k (suc n) (some []) names h small = absurd (omega (arith, h))
region_data-regn_chunk byteswap k (suc n) (some (r ∷ rs)) names h small =
    let start : List ℕ = put4 byteswap 0 ++ put4 byteswap (suc n) in
    let body : List ℕ = region_bytes byteswap 1 (k + 1) (r ∷ rs) in
    rw
      (
        lt→ltb 0 (suc n) (omega arith),
        write_regions-bytes byteswap k (r ∷ rs) (suc n) 0 start names (omega (arith, h))
            (omega (arith, small)),
        k_plus,
        buffer-full (u32 (8 + suc n * 68)) (start ++ body) (
            omega (
              arith,
              start_length byteswap 0 (suc n),
              size_after start body,
              length-region_bytes byteswap 1 (k + 1) (r ∷ rs),
              h,
              small,
            )),
      )
      (ap
        (λ j. done (
          (put4 byteswap 0 ++ put4 byteswap j) ++ body,
          add_all byteswap (k + 1) (region_names (r ∷ rs)) names,
        ))
        h)
  where
    k_plus : k + 0 ≡ k
    k_plus = omega arith

-- The names and ids that are written for `ns`.
abbrev pub written_names : Bool → List (List ℕ) → Names
written_names byteswap ns = extended_names byteswap 1 ns (no_names (length ns))

pub length-names : (ns : List (List ℕ)) → length ns ≤ length (string_bytes ns)
length-names [] = omega arith
length-names (n ∷ ns) = omega (
  arith,
  length-names ns,
  length-append (n ++ 0 ∷ []) (string_bytes ns),
  length-append n (0 ∷ []),
)

pub take-front : (xs ys : List ℕ) (n : ℕ) → n ≡ length xs → take n (xs ++ ys) ≡ xs
take-front [] ys zero h = refl
take-front [] ys (suc n) h = absurd (omega arith)
take-front (x ∷ xs) ys zero h = absurd (omega arith)
take-front (x ∷ xs) ys (suc n) h = ap (◌∷◌ x) (take-front xs ys n (omega arith))

module _ (byteswap : Bool) (ns : List (List ℕ)) where
  strg_length : length (strg_chunk byteswap ns) ≡ 4 + 12 * length ns + length (string_bytes ns)
  strg_length = omega (
    arith,
    length-append (put4 byteswap (length ns)) (id_bytes byteswap 1 0 ns ++ string_bytes ns),
    length-append (id_bytes byteswap 1 0 ns) (string_bytes ns),
    length-put4 byteswap (length ns),
    length-id_bytes byteswap 1 0 ns,
  )

  -- The data of the buffer, and its size.
  abbrev padding : List ℕ
  padding = replicate (u32 (u32 (4 + length ns * 12) + 256) - length (strg_chunk byteswap ns)) 0

  strings_data-strg_chunk :
      length (string_bytes ns) ≤ 256
      → strings_data byteswap (length ns) (written_names byteswap ns)
        ≡ done (strg_chunk byteswap ns)
  unfolding strings_data buffer
  strings_data-strg_chunk fits =
      let few : length ns ≤ 256 = omega (arith, length-names ns) in
      let room : length padding
          ≡ u32 (u32 (4 + length ns * 12) + 256) - length (strg_chunk byteswap ns) =
        length-replicate (u32 (u32 (4 + length ns * 12) + 256) - length (strg_chunk byteswap ns))
          0 in
      rw
        (
          le→ltb (12 * length ns) (length (id_bytes byteswap 1 0 ns))
              (omega (arith, length-id_bytes byteswap 1 0 ns)),
          le→ltb (u32 (u32 (4 + length ns * 12) + 256)) (length (strg_chunk byteswap ns))
              (omega (arith, strg_length, few)),
        )
        (rw (
          le→ltb (length (strg_chunk byteswap ns ++ padding))
              (u32 (4 + length ns * 12) + length (string_bytes ns))
              (omega (arith, strg_length, few, length-append (strg_chunk byteswap ns) padding)),
          take-front (strg_chunk byteswap ns) padding
              (u32 (4 + length ns * 12) + length (string_bytes ns))
              (omega (arith, strg_length, few)),
        ))

  strings_data-fault :
      256 < length (string_bytes ns)
      → 4 + length ns * 12 + 256 < 2 ^ 32
      → strings_data byteswap (length ns) (written_names byteswap ns) ≡ fault
  unfolding strings_data buffer
  strings_data-fault over small = rw (
    le→ltb (12 * length ns) (length (id_bytes byteswap 1 0 ns))
        (omega (arith, length-id_bytes byteswap 1 0 ns)),
    lt→ltb (u32 (u32 (4 + length ns * 12) + 256)) (length (strg_chunk byteswap ns))
        (omega (arith, strg_length, over, small)),
  )

module _ {F B : Type 0} (a : Ambix F B) (ms : List Marker) (rs : List Region) (valid : IsValid a)
    (has_markers : marker_list a ≡ ms) (has_regions : region_list a ≡ rs) where
  -- What the names are when both loops are done.
  names_of_both :
      length (all_names ms rs) * 12 + 4 + length (string_bytes (all_names ms rs)) < 2 ^ 32
      → add_all a.byteswap
          (length ms + 1)
          (region_names rs)
          (add_all a.byteswap 1 (marker_names ms) (no_names (length (all_names ms rs))))
        ≡ written_names a.byteswap (all_names ms rs)
  names_of_both small =
      ap
        (λ k.
          add_all a.byteswap k (region_names rs)
            (add_all a.byteswap 1 (marker_names ms) (no_names (length (all_names ms rs)))))
        {x = length ms + 1} {y = 1 + length (marker_names ms)}
        (omega (arith, length-map ms (λ m. m.name)))
      ∙ sym (
          add_all-append a.byteswap 1 (marker_names ms) (region_names rs)
            (no_names (length (all_names ms rs))))
      ∙ add_all-extended a.byteswap 1 (all_names ms rs) (no_names (length (all_names ms rs)))
          (omega (arith, small))

  chunks_of-strings_data :
      length (all_names ms rs) * 68 + length (string_bytes (all_names ms rs)) + 300 < 2 ^ 32
      → chunks_of a (length (all_names ms rs)) ≡ (
          strings_data a.byteswap
            (length (all_names ms rs))
            (written_names a.byteswap (all_names ms rs))
          >>= λ strg. done (mark_chunk a.byteswap ms, regn_chunk a.byteswap (length ms) rs, strg))
  unfolding chunks_of
  chunks_of-strings_data small = rw (
    marker_data-mark_chunk a.byteswap a.num_markers a.markers (no_names (length (all_names ms rs)))
        valid.0 (omega (arith, ap length has_markers, sizes, small)),
    region_data-regn_chunk a.byteswap a.num_markers a.num_regions a.regions
        (add_all a.byteswap 1 (marker_names (marker_list a)) (no_names (length (all_names ms rs))))
        valid.1
        (omega (arith, ap length has_markers, ap length has_regions, valid.0, sizes, small)),
    has_markers,
    has_regions,
    counted,
    names_of_both (omega (arith, small)),
  )
    where
      counted : a.num_markers ≡ length ms
      counted = valid.0 ∙ ap length has_markers

      sizes : length (all_names ms rs) ≡ length ms + length rs
      sizes = omega (
        arith,
        length-append (marker_names ms) (region_names rs),
        length-map ms (λ m. m.name),
        length-map rs (λ r. r.name),
      )

  -- The chunks of a handle whose names, each with its NUL, take at most 256 bytes.
  pub chunks_of-done :
      length (string_bytes (all_names ms rs)) ≤ 256
      → chunks_of a (length (all_names ms rs))
        ≡ done (
          mark_chunk a.byteswap ms,
          regn_chunk a.byteswap (length ms) rs,
          strg_chunk a.byteswap (all_names ms rs),
        )
  chunks_of-done fits = rw (
    chunks_of-strings_data (omega (arith, fits, length-names (all_names ms rs))),
    strings_data-strg_chunk a.byteswap (all_names ms rs) fits,
  )

  -- If the names with their NULs take more than 256 bytes, and all sizes fit 32 bits, then they are
  -- written behind the end of their buffer.
  pub chunks_of-fault :
      256 < length (string_bytes (all_names ms rs))
      → length (all_names ms rs) * 68 + length (string_bytes (all_names ms rs)) + 300 < 2 ^ 32
      → chunks_of a (length (all_names ms rs)) ≡ fault
  chunks_of-fault over small = rw (
    chunks_of-strings_data small,
    strings_data-fault a.byteswap (all_names ms rs) over (omega (arith, small)),
  )
