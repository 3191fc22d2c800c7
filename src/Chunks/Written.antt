-- ===== src/Chunks/Written.antt =====
-- What the loops of `_ambix_write_markersregions` write, in closed form.
use mathlib.Core.List.{append_assoc, append-nil}
use libambix.Base.{
  ℕ, zero, suc, ◌+◌, ◌-◌, ◌*◌, ◌^◌, ◌<◌, ◌≤◌, ◌≡◌, refl, sym, ap, ap₂, ◌∙◌, arith, Bool, List, [],
  ◌∷◌, ◌++◌, map, length, length-append, drop, drop_next, replicate, get_or, get_elem?-eq-get_or,
  done, ◌>>=◌, access, le→ltb,
}
use libambix.Words.{u32}
use libambix.Handle.{Marker, Region}
use libambix.Words.Bytes.{store4}
use libambix.Chunks.Fields.{put4, put8, store8, put_marker, put_region, put_stringid}
use libambix.Chunks.Fields.Laws.{length-put_marker, length-put_stringid}
use libambix.Chunks.Write.{
  generic, Names, add_string_to_data, caf_marker, write_markers, put_whole_region, write_regions,
  buffer,
}

module _ (byteswap : Bool) where
  -- The structs of markers and regions with ids from `k` on.
  abbrev pub marker_bytes : (k : ℕ) → List Marker → List ℕ
  marker_bytes k [] = []
  marker_bytes k (m ∷ ms) =
      put_marker byteswap (caf_marker generic m.position k) ++ marker_bytes (k + 1) ms

  abbrev pub region_bytes : (k name_id : ℕ) → List Region → List ℕ
  region_bytes k name_id [] = []
  region_bytes k name_id (r ∷ rs) =
      put_whole_region byteswap r k name_id ++ region_bytes (k + 1) (name_id + 1) rs

  -- The ids of names from `k` on, the first at an offset, and the names themselves.
  abbrev pub id_bytes : (k offset : ℕ) → List (List ℕ) → List ℕ
  id_bytes k offset [] = []
  id_bytes k offset (n ∷ ns) =
      put_stringid byteswap k offset ++ id_bytes (k + 1) (offset + (length n + 1)) ns

  abbrev pub add_all : (k : ℕ) → List (List ℕ) → Names → Names
  add_all k [] s = s
  add_all k (n ∷ ns) s = add_all (k + 1) ns (add_string_to_data byteswap k n s)

abbrev pub string_bytes : List (List ℕ) → List ℕ
string_bytes [] = []
string_bytes (n ∷ ns) = (n ++ 0 ∷ []) ++ string_bytes ns

-- `s` and what was written for names from `k` on.
abbrev pub extended_names : Bool → (k : ℕ) → List (List ℕ) → Names → Names
extended_names byteswap k ns s = record {
  ids = s.ids ++ id_bytes byteswap k s.byteoffset ns;
  strings = s.strings ++ string_bytes ns;
  byteoffset = s.byteoffset + length (string_bytes ns);
  datasize = s.datasize + length (string_bytes ns);
}

abbrev pub marker_names : List Marker → List (List ℕ)
marker_names = map (λ m. m.name)

abbrev pub region_names : List Region → List (List ℕ)
region_names = map (λ r. r.name)

nobody : Marker
nobody = record { position = 0; name = [] }

nowhere : Region
nowhere = record { start_position = 0; end_position = 0; name = [] }

pub u32_small : (n : ℕ) → n < 2 ^ 32 → u32 n ≡ n
u32_small n h = omega arith

drop-all : {A : Type 0} (xs : List A) (i : ℕ) → length xs ≤ i → drop i xs ≡ []
drop-all [] zero h = refl
drop-all [] (suc i) h = refl
drop-all (x ∷ xs) zero h = absurd (omega arith)
drop-all (x ∷ xs) (suc i) h = drop-all xs i (omega arith)

pub write_markers-bytes :
    (byteswap : Bool) (ms : List Marker) (left i : ℕ) (bytes : List ℕ) (names : Names)
    → i + left ≡ length ms
    → length ms < 2 ^ 32
    → write_markers byteswap ms left i (bytes, names)
      ≡ done (
        bytes ++ marker_bytes byteswap (i + 1) (drop i ms),
        add_all byteswap (i + 1) (marker_names (drop i ms)) names,
      )
unfolding write_markers
write_markers-bytes byteswap ms zero i bytes names e small =
    rw (drop-all ms i (omega arith), append-nil bytes)
write_markers-bytes byteswap ms (suc left) i bytes names e small =
    let m : Marker = get_or ms i nobody in
    let next = add_string_to_data byteswap (i + 1) m.name names in
    ap
      (λ o. access o >>= λ m. write_markers byteswap ms left (i + 1) (
        bytes ++ put_marker byteswap (caf_marker generic m.position (u32 (i + 1))),
        add_string_to_data byteswap (u32 (i + 1)) m.name names,
      ))
      (get_elem?-eq-get_or ms i nobody (omega arith))
    ∙ ap
        (λ k. write_markers byteswap ms left (i + 1) (
          bytes ++ put_marker byteswap (caf_marker generic m.position k),
          add_string_to_data byteswap k m.name names,
        ))
        (u32_small (i + 1) (omega arith))
    ∙ write_markers-bytes byteswap ms left (i + 1) _ next (omega arith) small
    ∙ ap₂ (λ x y. done (x, y)) (append_assoc bytes _ _) refl
    ∙ ap
        (λ l. done (
          bytes ++ marker_bytes byteswap (i + 1) l,
          add_all byteswap (i + 1) (marker_names l) names,
        ))
        (ap (λ j. m ∷ drop j ms) {x = i + 1} {y = suc i} (omega arith)
          ∙ sym (drop_next i ms nobody (omega arith)))

pub add_all-append :
    (byteswap : Bool) (k : ℕ) (xs ys : List (List ℕ)) (s : Names)
    → add_all byteswap k (xs ++ ys) s
      ≡ add_all byteswap (k + length xs) ys (add_all byteswap k xs s)
add_all-append byteswap k [] ys s = ap (λ j. add_all byteswap j ys s) (omega arith)
add_all-append byteswap k (x ∷ xs) ys s =
    add_all-append byteswap (k + 1) xs ys (add_string_to_data byteswap k x s)
    ∙ ap
        (λ j.
          add_all byteswap j ys (add_all byteswap (k + 1) xs (add_string_to_data byteswap k x s)))
        (omega arith)

pub add_all-extended :
    (byteswap : Bool) (k : ℕ) (ns : List (List ℕ)) (s : Names)
    → s.datasize + length (string_bytes ns) < 2 ^ 32
    → add_all byteswap k ns s ≡ extended_names byteswap k ns s
unfolding add_string_to_data
add_all-extended byteswap k [] s h = λ t. record {
  ids = sym (append-nil s.ids) t;
  strings = sym (append-nil s.strings) t;
  byteoffset = plus_nothing s.byteoffset t;
  datasize = plus_nothing s.datasize t;
}
  where
    plus_nothing : (n : ℕ) → n ≡ n + 0
    plus_nothing n = omega arith
add_all-extended byteswap k (n ∷ ns) s h =
    add_all-extended byteswap (k + 1) ns (add_string_to_data byteswap k n s)
      (omega (arith, h, u32_small (s.datasize + (length n + 1)), size))
    ∙ (λ t. record {
      ids =
          append_assoc s.ids (put_stringid byteswap k s.byteoffset)
            (id_bytes byteswap (k + 1) (s.byteoffset + (length n + 1)) ns) t;
      strings = append_assoc s.strings (n ++ 0 ∷ []) (string_bytes ns) t;
      byteoffset = at_offset t;
      datasize = at_size t;
    })
  where
    size : length (string_bytes (n ∷ ns)) ≡ length n + 1 + length (string_bytes ns)
    size = omega (arith, length-append (n ++ 0 ∷ []) (string_bytes ns), length-append n (0 ∷ []))

    at_offset :
        s.byteoffset + (length n + 1) + length (string_bytes ns)
        ≡ s.byteoffset + length (string_bytes (n ∷ ns))
    at_offset = omega (arith, size)

    at_size :
        u32 (s.datasize + (length n + 1)) + length (string_bytes ns)
        ≡ s.datasize + length (string_bytes (n ∷ ns))
    at_size = omega (arith, size, h)

pub write_regions-bytes :
    (byteswap : Bool) (n : ℕ) (rs : List Region) (left i : ℕ) (bytes : List ℕ) (names : Names)
    → i + left ≡ length rs
    → n + length rs < 2 ^ 32
    → write_regions byteswap n rs left i (bytes, names)
      ≡ done (
        bytes ++ region_bytes byteswap (i + 1) (n + i + 1) (drop i rs),
        add_all byteswap (n + i + 1) (region_names (drop i rs)) names,
      )
unfolding write_regions
write_regions-bytes byteswap n rs zero i bytes names e small =
    rw (drop-all rs i (omega arith), append-nil bytes)
write_regions-bytes byteswap n rs (suc left) i bytes names e small =
    let r : Region = get_or rs i nowhere in
    let next = add_string_to_data byteswap (n + i + 1) r.name names in
    let struct = put_whole_region byteswap r (i + 1) (n + i + 1) in
    ap
      (λ o. access o >>= λ r. write_regions byteswap n rs left (i + 1) (
        bytes ++ put_whole_region byteswap r (u32 (i + 1)) (u32 (n + i + 1)),
        add_string_to_data byteswap (u32 (n + i + 1)) r.name names,
      ))
      (get_elem?-eq-get_or rs i nowhere (omega arith))
    ∙ ap₂
        (λ k l.
          write_regions byteswap n rs left (i + 1)
            (bytes ++ put_whole_region byteswap r k l, add_string_to_data byteswap l r.name names))
        (u32_small (i + 1) (omega arith)) (u32_small (n + i + 1) (omega arith))
    ∙ write_regions-bytes byteswap n rs left (i + 1) (bytes ++ struct) next (omega arith) small
    ∙ ap
        (λ l. done (
          bytes ++ struct ++ region_bytes byteswap (i + 1 + 1) l (drop (i + 1) rs),
          add_all byteswap l (region_names (drop (i + 1) rs)) next,
        ))
        {x = n + (i + 1) + 1} {y = n + i + 1 + 1} (omega arith)
    ∙ ap₂ (λ x y. done (x, y)) (append_assoc bytes struct _) refl
    ∙ ap
        (λ l. done (
          bytes ++ region_bytes byteswap (i + 1) (n + i + 1) l,
          add_all byteswap (n + i + 1) (region_names l) names,
        ))
        (ap (λ j. r ∷ drop j rs) {x = i + 1} {y = suc i} (omega arith)
          ∙ sym (drop_next i rs nowhere (omega arith)))

-- A buffer that is written up to its end.
pub buffer-full : (size : ℕ) (bytes : List ℕ) → length bytes ≡ size → buffer size bytes ≡ done bytes
unfolding buffer
buffer-full size bytes e = rw (le→ltb size (length bytes) (omega arith)) (
    ap (λ n. done (bytes ++ replicate n 0)) {x = size - length bytes} {y = 0} (omega arith)
    ∙ ap done (append-nil bytes))

pub length-marker_bytes :
    (byteswap : Bool) (k : ℕ) (ms : List Marker)
    → length (marker_bytes byteswap k ms) ≡ 28 * length ms
length-marker_bytes byteswap k [] = refl
length-marker_bytes byteswap k (m ∷ ms) = omega (
  arith,
  length-append (put_marker byteswap (caf_marker generic m.position k))
      (marker_bytes byteswap (k + 1) ms),
  length-put_marker byteswap (caf_marker generic m.position k),
  length-marker_bytes byteswap (k + 1) ms,
)

pub length-put_whole_region :
    (byteswap : Bool) (r : Region) (k name_id : ℕ)
    → length (put_whole_region byteswap r k name_id) ≡ 68
unfolding put_whole_region put_region put_marker put4 put8 store8 store4
length-put_whole_region byteswap r k name_id = refl

pub length-region_bytes :
    (byteswap : Bool) (k name_id : ℕ) (rs : List Region)
    → length (region_bytes byteswap k name_id rs) ≡ 68 * length rs
length-region_bytes byteswap k name_id [] = refl
length-region_bytes byteswap k name_id (r ∷ rs) = omega (
  arith,
  length-append (put_whole_region byteswap r k name_id)
      (region_bytes byteswap (k + 1) (name_id + 1) rs),
  length-put_whole_region byteswap r k name_id,
  length-region_bytes byteswap (k + 1) (name_id + 1) rs,
)

pub length-id_bytes :
    (byteswap : Bool) (k offset : ℕ) (ns : List (List ℕ))
    → length (id_bytes byteswap k offset ns) ≡ 12 * length ns
length-id_bytes byteswap k offset [] = refl
length-id_bytes byteswap k offset (n ∷ ns) = omega (
  arith,
  length-append (put_stringid byteswap k offset)
      (id_bytes byteswap (k + 1) (offset + (length n + 1)) ns),
  length-put_stringid byteswap k offset,
  length-id_bytes byteswap (k + 1) (offset + (length n + 1)) ns,
)
