-- ===== src/Chunks/Roundtrip.antt =====
-- The markers and regions that were written are read back.
use mathlib.Core.List.{append_assoc, append-nil}
use libambix.Base.{
  ℕ, zero, suc, ◌+◌, ◌*◌, ◌^◌, ◌<◌, ◌≤◌, ◌≡◌, ◌≢◌, refl, sym, subst, ap, ◌∙◌, arith, Bool, true,
  ==_self, some, List, [], ◌∷◌, ◌++◌, length, length-append, drop, All, Outcome, done, le→ltb,
  lt→ltb,
}
use libambix.Chunks.Fields.{put4, put_stringid}
use libambix.Chunks.Fields.Laws.{get4-put4, get_stringid-put_stringid, length-put4}
use libambix.Chunks.Written.{id_bytes, string_bytes, length-id_bytes}
use libambix.Chunks.Whole.{strg_chunk, length-names}
use libambix.Chunks.Read.{
  c_string, StringsBuffer, get_string_from_buffer, read_string_ids, read_strings_chunk, read_chunks,
}

-- A name is at most 255 bytes, none of them NUL.
pub record IsName (n : List ℕ) : Type 0 where
  pub no_nul : All (λ x. x ≢ 0) n
  pub short : length n ≤ 255

c_string-nul : (n rest : List ℕ) → All (λ x. x ≢ 0) n → c_string ((n ++ 0 ∷ []) ++ rest) ≡ done n
unfolding c_string
c_string-nul [] rest h = refl
c_string-nul (x ∷ n) rest (h, hs) = rw (c_string-nul n rest hs) (ground (arith, h))

pub drop-front : (xs ys : List ℕ) (n : ℕ) → n ≡ length xs → drop n (xs ++ ys) ≡ ys
drop-front [] ys zero h = refl
drop-front [] ys (suc n) h = absurd (omega arith)
drop-front (x ∷ xs) ys zero h = absurd (omega arith)
drop-front (x ∷ xs) ys (suc n) h = drop-front xs ys n (omega arith)

drop-nil : (n : ℕ) → drop {A = ℕ} n [] ≡ []
drop-nil zero = refl
drop-nil (suc n) = refl

drop-drop : (xs : List ℕ) (m n : ℕ) → drop n (drop m xs) ≡ drop (m + n) xs
drop-drop xs zero n = ap (λ k. drop k xs) {x = n} {y = 0 + n} (omega arith)
drop-drop [] (suc m) n = drop-nil n ∙ sym (drop-nil (suc m + n))
drop-drop (x ∷ xs) (suc m) n =
    drop-drop xs m n ∙ ap (λ k. drop k (x ∷ xs)) {x = suc (m + n)} {y = suc m + n} (omega arith)

-- The strings buffer that the names give.
abbrev pub numbered : (k : ℕ) → List (List ℕ) → StringsBuffer
numbered k [] = []
numbered k (n ∷ ns) = (k, n) ∷ numbered (k + 1) ns

read_string_ids-numbered :
    (byteswap : Bool) (strings : List ℕ) (k offset : ℕ) (ns : List (List ℕ)) (rest : List ℕ)
    (table : StringsBuffer)
    → drop offset strings ≡ string_bytes ns
    → offset + length (string_bytes ns) ≡ length strings
    → length strings < 2 ^ 63
    → k + length ns < 2 ^ 32
    → All IsName ns
    → read_string_ids byteswap strings (length ns) (id_bytes byteswap k offset ns ++ rest) table
      ≡ done (table ++ numbered k ns)
unfolding read_string_ids
read_string_ids-numbered byteswap strings k offset [] rest table at e small few names =
    ap done (sym (append-nil table))
read_string_ids-numbered byteswap strings k offset (n ∷ ns) rest table at e small few
      (name, names) =
    let size : length (string_bytes (n ∷ ns)) ≡ length n + 1 + length (string_bytes ns) =
      omega (arith, length-append (n ++ 0 ∷ []) (string_bytes ns), length-append n (0 ∷ [])) in
    rw
      (
        append_assoc (put_stringid byteswap k offset)
            (id_bytes byteswap (k + 1) (offset + (length n + 1)) ns) rest,
        get_stringid-put_stringid byteswap k offset
            (id_bytes byteswap (k + 1) (offset + (length n + 1)) ns ++ rest) (omega (arith, few))
            (omega (arith, e, small)),
      )
      (rw
        (
          lt→ltb offset (2 ^ 63) (omega (arith, e, small)),
          lt→ltb offset (length strings) (omega (arith, e, size)),
          at,
          c_string-nul n (string_bytes ns) name.no_nul,
        )
        (read_string_ids-numbered byteswap strings (k + 1) (offset + (length n + 1)) ns rest
            (table ++ (k, n) ∷ [])
            (sym (drop-drop strings offset (length n + 1))
              ∙ ap (drop (length n + 1)) at
              ∙ drop-front (n ++ 0 ∷ []) (string_bytes ns) (length n + 1)
                  (omega (arith, length-append n (0 ∷ []))))
            (omega (arith, e, size)) small (omega (arith, few)) names
          ∙ ap done (append_assoc table ((k, n) ∷ []) (numbered (k + 1) ns))))

pub read_strings_chunk-strg_chunk :
    (byteswap : Bool) (ns : List (List ℕ))
    → 0 < length ns
    → length (string_bytes ns) ≤ 256
    → All IsName ns
    → read_strings_chunk byteswap (strg_chunk byteswap ns) [] ≡ done (numbered 1 ns, true)
unfolding read_strings_chunk
read_strings_chunk-strg_chunk byteswap ns some_names fits names =
    let few : length ns ≤ 256 = omega (arith, fits, length-names ns) in
    let ids : List ℕ = id_bytes byteswap 1 0 ns in
    let head : List ℕ = put4 byteswap (length ns) in
    let ids_length : length ids ≡ 12 * length ns = length-id_bytes byteswap 1 0 ns in
    let size : length (head ++ (ids ++ string_bytes ns))
        ≡ 4 + 12 * length ns + length (string_bytes ns) =
      omega (
        arith,
        length-append head (ids ++ string_bytes ns),
        length-append ids (string_bytes ns),
        length-put4 byteswap (length ns),
        ids_length,
      ) in
    let behind : drop (4 + length ns * 12) (head ++ (ids ++ string_bytes ns)) ≡ string_bytes ns =
      ap (drop (4 + length ns * 12)) (sym (append_assoc head ids (string_bytes ns)))
      ∙ drop-front (head ++ ids) (string_bytes ns) (4 + length ns * 12)
          (omega (arith, length-append head ids, length-put4 byteswap (length ns), ids_length)) in
    rw (
      lt→ltb 4 (length (head ++ (ids ++ string_bytes ns))) (omega (arith, size, some_names)),
      get4-put4 byteswap (length ns) (ids ++ string_bytes ns) (omega (arith, few)),
      le→ltb (length (head ++ (ids ++ string_bytes ns))) (4 + length ns * 12) (omega (arith, size)),
      behind,
      read_string_ids-numbered byteswap (string_bytes ns) 1 0 ns (string_bytes ns) [] refl
          (omega arith) (omega (arith, fits)) (omega (arith, few)) names,
    )

-- A loop over one chunk, and over one with no data.
pub read_chunks-one :
    {S : Type 0} (read_one : List ℕ → S → Outcome (S × Bool)) (chunk : List ℕ) (s t : S)
    → 0 < length chunk
    → read_one chunk s ≡ done (t, true)
    → read_chunks read_one (chunk ∷ []) s ≡ done t
unfolding read_chunks
read_chunks-one read_one [] s t h e = absurd (omega arith)
read_chunks-one read_one (x ∷ chunk) s t h e = rw e

-- The table names the ids from `k` on.
abbrev pub Found : StringsBuffer → (k : ℕ) → List (List ℕ) → Type 0
Found table k [] = Unit
Found table k (n ∷ ns) = (get_string_from_buffer table k ≡ some n) × Found table (k + 1) ns

Found-later :
    (table : StringsBuffer) (id k : ℕ) (name : List ℕ) (ns : List (List ℕ))
    → id < k
    → Found table k ns
    → Found ((id, name) ∷ table) k ns
unfolding get_string_from_buffer
Found-later table id k name [] lt f = tt
Found-later table id k name (n ∷ ns) lt (e, f) =
    (ground (arith, e), Found-later table id (k + 1) name ns (omega arith) f)

pub Found-numbered : (k : ℕ) (ns : List (List ℕ)) → Found (numbered k ns) k ns
unfolding get_string_from_buffer
Found-numbered k [] = tt
Found-numbered k (n ∷ ns) = (
  rw (==_self k),
  Found-later (numbered (k + 1) ns) k (k + 1) n ns (omega arith) (Found-numbered (k + 1) ns),
)

pub Found-append :
    (table : StringsBuffer) (k : ℕ) (xs ys : List (List ℕ))
    → Found table k (xs ++ ys)
    → Found table k xs × Found table (k + length xs) ys
Found-append table k [] ys f =
    (tt, subst (λ j. Found table j ys) {x = k} {y = k + 0} (omega arith) f)
Found-append table k (x ∷ xs) ys (e, f) =
    let (front, back) = Found-append table (k + 1) xs ys f in
    (
      (e, front),
      subst (λ j. Found table j ys) {x = k + 1 + length xs} {y = k + suc (length xs)} (omega arith)
          back,
    )
