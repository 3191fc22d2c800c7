-- ===== src/Session/Header.antt =====
-- The header: `_ambix_write_header` of libambix/src/libambix.c gives the backend the whole UUID chunk.
use libambix.Base.{
  ltb→le, ◌==◌, ◌⊎◌, ℕ, zero, suc, ◌+◌, ◌*◌, ◌/◌, ◌≡◌, refl, sym, subst, ap, arith, Bool, true,
  false, ltb, if◌then◌else◌, List, ◌∷◌, ◌++◌, length, length-append, map, length-map, take, Outcome,
  done, collect, inl, inr,
}
use libambix.Words.{u32, u64, swap4, swap4array}
use libambix.Words.Bytes.{store_words, length-store_words}
use libambix.Matrix.{Float, Matrix}
use libambix.Uuid.{Bits, uuid_v1, get_uuid, row_words, uuid1_size, matrix_to_uuid1}
use libambix.Chunks.Write.{buffer, chunks_of, write_markersregions}
use libambix.Chunks.Whole.{take-front}
use libambix.Handle.{Ambix, Err, unknown, success, is_success, is_extended}
use libambix.Handle.Backend.{Backend}
use libambix.Session.{write_matrix, write_header}
use libambix.Session.Outcomes.{
  OnDone, bind-OnDone, if-OnDone, then-OnDone, done-OnDone, self-OnDone, map-OnDone,
}

collect-length :
    {A : Type 0} (left i : ℕ) (value : ℕ → Outcome A)
    → OnDone (λ xs. length xs ≡ left) (collect left i value)
unfolding collect
collect-length zero i value = refl
collect-length {A = A} (suc left) i value =
    then-OnDone (λ xs. length xs ≡ suc left) _ (value i)
      (λ x.
        bind-OnDone (λ xs. length xs ≡ left) (λ xs. length xs ≡ suc left) _ _
          (collect-length left (i + 1) value) (λ xs e. omega (arith, e)))

module _ {F : Type 0} ⦃fl : Float F⦄ ⦃bits : Bits F⦄ (m : Matrix F) where
  row_words-length : (left r : ℕ) → OnDone (λ ws. length ws ≡ left * m.cols) (row_words m left r)
  unfolding row_words
  row_words-length zero r = omega arith
  row_words-length (suc left) r =
      bind-OnDone (λ ws. length ws ≡ m.cols) (λ ws. length ws ≡ suc left * m.cols) _ _
        (if-OnDone (λ ws. length ws ≡ m.cols) (ltb 0 m.cols) _ _ (λ _. collect-length m.cols 0 _)
          (λ _. tt))
        (λ ws e.
          bind-OnDone (λ rest. length rest ≡ left * m.cols) (λ ws. length ws ≡ suc left * m.cols) _
            _ (row_words-length left (r + 1))
            (λ rest e'. omega (arith, e, e', length-append ws rest)))

  pub matrix_to_uuid1-length :
      (swap : Bool)
      → OnDone (λ chunk. length chunk ≡ 24 + 4 * (m.rows * m.cols)) (matrix_to_uuid1 m swap)
  unfolding matrix_to_uuid1 swap4array get_uuid
  matrix_to_uuid1-length swap =
      bind-OnDone (λ cells. length cells ≡ m.rows * m.cols)
        (λ chunk. length chunk ≡ 24 + 4 * (m.rows * m.cols)) _ _ (row_words-length m.rows 0)
        (λ cells e. size swap cells e)
    where
      size :
          (swap : Bool) (cells : List ℕ)
          → length cells ≡ m.rows * m.cols
          → length (
              uuid_v1
              ++ store_words
                  (if swap then map swap4 (m.rows ∷ m.cols ∷ cells) else m.rows ∷ m.cols ∷ cells))
            ≡ 24 + 4 * (m.rows * m.cols)
      size true cells e = omega (
        arith,
        e,
        length-store_words (map swap4 (m.rows ∷ m.cols ∷ cells)),
        length-map (m.rows ∷ m.cols ∷ cells) swap4,
      )
      size false cells e = omega (arith, e, length-store_words (m.rows ∷ m.cols ∷ cells))

-- A buffer of the words that hold the size, if the data fits it.
buffered :
    (n : ℕ) (chunk : List ℕ)
    → length chunk ≡ 24 + 4 * n
    → OnDone
        (λ bytes. take (u64 (24 + u64 (u64 n * 4))) bytes ≡ chunk)
        (buffer ((1 + u64 (24 + u64 (u64 n * 4)) / 4) * 4) chunk)
unfolding buffer
buffered n chunk e =
    if-OnDone _ (ltb ((1 + u64 (24 + u64 (u64 n * 4)) / 4) * 4) (length chunk)) _ _ (λ _. tt)
      (λ fits. take-front chunk _ _ (omega (arith, e, ltb→le _ (length chunk) fits)))

module _ {F B : Type 0} ⦃fl : Float F⦄ ⦃bits : Bits F⦄ (backend : Backend F B) where
  -- What giving a chunk of the matrix to the backend leaves.
  abbrev pub given : Ambix F B → List ℕ → Ambix F B × Err
  given a chunk =
      let (file, res) = backend.write_uuidchunk a.private_data chunk in
      (
        if is_success res
            then record a { private_data = file; pending_headers = false }
            else record a { private_data = file },
        res,
      )

  abbrev pub IsGiven : Ambix F B → Ambix F B × Err → Type 0
  IsGiven a r =
      (chunk : List ℕ) × (matrix_to_uuid1 a.matrix a.byteswap ≡ done chunk) × (r ≡ given a chunk)

  pub write_matrix-IsGiven :
      (a : Ambix F B) → OnDone (λ r. (r ≡ (a, unknown)) ⊎ IsGiven a r) (write_matrix backend a)
  unfolding write_matrix uuid1_size
  write_matrix-IsGiven a =
      let Q : Ambix F B × Err → Type 0 = λ r. (r ≡ (a, unknown)) ⊎ IsGiven a r in
      if-OnDone Q (ltb (uuid1_size a.matrix) 1) _ _ (λ _. inl refl)
        (λ _.
          bind-OnDone (λ chunk. matrix_to_uuid1 a.matrix a.byteswap ≡ done chunk) Q _ _
            (self-OnDone (matrix_to_uuid1 a.matrix a.byteswap))
            (λ chunk e.
              bind-OnDone (λ bytes. take (uuid1_size a.matrix) bytes ≡ chunk) Q _ _
                (buffered (a.matrix.rows * a.matrix.cols) chunk (
                  done-OnDone (λ chunk. length chunk ≡ 24 + 4 * (a.matrix.rows * a.matrix.cols)) _ e
                    (matrix_to_uuid1-length a.matrix a.byteswap)))
                (λ bytes same. inr (chunk, e, ap (given a) same))))

  pub write_markersregions-kept :
      (a : Ambix F B)
      → OnDone
          (λ r. (file : B) × (r ≡ (record a { private_data = file }, success)))
          (write_markersregions backend a)
  unfolding write_markersregions
  write_markersregions-kept a =
      let Q : Ambix F B × Err → Type 0 =
        λ r. (file : B) × (r ≡ (record a { private_data = file }, success)) in
      if-OnDone Q (u32 (a.num_markers + a.num_regions) == 0) _ _ (λ _. (a.private_data, refl))
        (λ _. then-OnDone Q _ (chunks_of a (u32 (a.num_markers + a.num_regions))) (λ _. (_, refl)))

  -- Writing the header keeps what a caller set. A success means that no headers are pending, and that the
  -- chunk of the matrix of an EXTENDED file is in the file.
  abbrev pub IsHeaded : (HasUuid : B → List ℕ → Type 0) → Ambix F B → Ambix F B × Err → Type 0
  IsHeaded HasUuid a r =
      (r.0.started_writing ≡ a.started_writing)
      × (r.0.matrix ≡ a.matrix)
      × (r.0.realinfo ≡ a.realinfo)
      × (r.0.byteswap ≡ a.byteswap)
      × (is_success r.1 ≡ false → r.0.pending_headers ≡ a.pending_headers)
      × (is_success r.1 ≡ true → r.0.pending_headers ≡ false)
      × (is_success r.1 ≡ true
          → is_extended a.realinfo.fileformat ≡ true
          → (chunk : List ℕ) × (matrix_to_uuid1 a.matrix a.byteswap ≡ done chunk)
            × HasUuid r.0.private_data chunk)

  -- The backend keeps the chunk that it accepts.
  abbrev pub Accepts : (HasUuid : B → List ℕ → Type 0) → Type 0
  Accepts HasUuid =
      (file : B) (chunk : List ℕ)
      → is_success (backend.write_uuidchunk file chunk).1 ≡ true
      → HasUuid (backend.write_uuidchunk file chunk).0 chunk

  module _ (HasUuid : B → List ℕ → Type 0) (accepts : Accepts HasUuid) where
    given-IsHeaded :
        (a : Ambix F B) (chunk : List ℕ)
        → matrix_to_uuid1 a.matrix a.byteswap ≡ done chunk
        → IsHeaded HasUuid a (given a chunk)
    given-IsHeaded a chunk e =
        go (is_success (backend.write_uuidchunk a.private_data chunk).1)
          (accepts a.private_data chunk)
      where
        go :
            (ok : Bool)
            → (ok ≡ true → HasUuid (backend.write_uuidchunk a.private_data chunk).0 chunk)
            → let b =
                if ok
                then record a {
                  private_data = (backend.write_uuidchunk a.private_data chunk).0;
                  pending_headers = false;
                }
                else record a { private_data = (backend.write_uuidchunk a.private_data chunk).0 } in
              (b.started_writing ≡ a.started_writing)
              × (b.matrix ≡ a.matrix)
              × (b.realinfo ≡ a.realinfo)
              × (b.byteswap ≡ a.byteswap)
              × (ok ≡ false → b.pending_headers ≡ a.pending_headers)
              × (ok ≡ true → b.pending_headers ≡ false)
              × (ok ≡ true
                  → is_extended a.realinfo.fileformat ≡ true
                  → (chunk : List ℕ) × (matrix_to_uuid1 a.matrix a.byteswap ≡ done chunk)
                    × HasUuid b.private_data chunk)
        go true has =
            (refl, refl, refl, refl, (λ no. absurd cc), (λ _. refl), (λ ok _. (chunk, e, has ok)))
        go false has = (refl, refl, refl, refl, (λ _. refl), (λ no. absurd cc), (λ no _. absurd cc))

    write_matrix-IsHeaded : (a : Ambix F B) → OnDone (IsHeaded HasUuid a) (write_matrix backend a)
    write_matrix-IsHeaded a =
        map-OnDone (λ r. (r ≡ (a, unknown)) ⊎ IsGiven a r) (IsHeaded HasUuid a) _
          (λ r h. elim h [
            | inl e ↦
                subst (IsHeaded HasUuid a) (sym e)
                  (refl, refl, refl, refl, (λ _. refl), (λ no. absurd cc), (λ no _. absurd cc))
            | inr (chunk, e, f) ↦ subst (IsHeaded HasUuid a) (sym f) (given-IsHeaded a chunk e)
          ])
          (write_matrix-IsGiven a)

    pub write_header-IsHeaded :
        (a : Ambix F B) → OnDone (IsHeaded HasUuid a) (write_header backend a)
    unfolding write_header
    write_header-IsHeaded a =
        if-OnDone (IsHeaded HasUuid a) a.filemode.writes _ _
          (λ _.
            bind-OnDone (λ r. (file : B) × (r ≡ (record a { private_data = file }, success)))
              (IsHeaded HasUuid a) _ _ (write_markersregions-kept a)
              (λ r (file, e).
                subst
                  (λ r. OnDone (IsHeaded HasUuid a) (
                    if is_extended a.realinfo.fileformat
                    then write_matrix backend r.0
                    else done (
                      if is_success r.1 then record r.0 { pending_headers = false } else r.0,
                      r.1,
                    )))
                  (sym e)
                  (if-OnDone (IsHeaded HasUuid a) (is_extended a.realinfo.fileformat) _ _
                    (λ _. write_matrix-IsHeaded (record a { private_data = file }))
                    (λ plain. (
                      refl,
                      refl,
                      refl,
                      refl,
                      (λ no. absurd cc),
                      (λ _. refl),
                      (λ _ ext. absurd cc),
                    )))))
          (λ _. (refl, refl, refl, refl, (λ _. refl), (λ no. absurd cc), (λ no _. absurd cc)))
