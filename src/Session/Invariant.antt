-- ===== src/Session/Invariant.antt =====
-- What holds of a handle in use, whatever calls of libambix/src/libambix.c were made.
use libambix.Base.{
  ◌+◌, ltb, ℕ, ◌≡◌, refl, sym, subst, ap, ap₂, ◌∙◌, Bool, true, false, not, ◌&&◌, ◌==◌, Option,
  none, some, List, ◌⊎◌, inl, inr, ℤ, Outcome, done, null, fault, arith,
}
use libambix.Words.{u32}
use libambix.Channels.{is_fullset}
use libambix.Matrix.{Accumulator, Float, Matrix, copy, multiply}
use libambix.Uuid.{Bits, matrix_to_uuid1}
use libambix.Handle.{
  Ambix, Err, Marker, Region, unknown, success, invalid_matrix, is_basic, is_extended, is_success,
  add_marker, add_region, delete_markers, delete_regions, adaptorbuffer_resize, appended,
}
use libambix.Handle.Backend.{Backend, Stream}
use libambix.Handle.Adaptormatrix.{
  stored, reduced, set_adaptormatrix, set_for_reading, set_for_writing, set_reduction,
}
use libambix.Session.{
  to_u64, rounds, within, split_frames, merge_frames, check_write, check_read, write_header, readf,
  writef, seek,
}
use libambix.Session.Buffer.{resize-record}
use libambix.Session.Outcomes.{
  OnDone, bind-OnDone, if-OnDone, then-OnDone, done-OnDone, if-holds, elim-holds,
}
use libambix.Session.Header.{Accepts, IsHeaded, write_header-IsHeaded}
use libambix.Session.Steps.{SampleType, Samples, Step, Reach}

stored-OnDone :
    {F B : Type 0} (P : Ambix F B × Err → Type 0) (o : Outcome (Matrix F)) (a : Ambix F B)
    (err : Err) (next : Matrix F → Outcome (Ambix F B × Err))
    → P (a, err)
    → ((m : Matrix F) → OnDone P (next m))
    → OnDone P (stored o a err next)
stored-OnDone P (done m) a err next p q = q m
stored-OnDone P null a err next p q = p
stored-OnDone P fault a err next p q = tt

true_false : {A : Type 0} → true ≡ false → A
true_false e = absurd cc

second_of : (x y : Bool) → (x && not y) ≡ false → x ≡ true → y ≡ true
second_of x y e h = ground arith

module _ {F B S : Type 0} ⦃fl : Float F⦄ ⦃bits : Bits F⦄ (acc : Accumulator F F S) (sqrt : ℕ → ℕ)
    (pinv : Matrix F → Outcome (Matrix F)) (backend : Backend F B) (samples : Samples F B)
    (HasUuid : B → List ℕ → Type 0) (opened : Matrix F) where
  -- The file has the chunk of the matrix, or the matrix is the one from opening.
  abbrev pub IsSaved : Ambix F B → Type 0
  IsSaved a =
      (a.matrix ≡ opened)
      ⊎ ((chunk : List ℕ) × (matrix_to_uuid1 a.matrix a.byteswap ≡ done chunk)
          × HasUuid a.private_data chunk)

  -- Once samples are written, no headers are pending, and the matrix of an EXTENDED file has the rows of a full
  -- set. An EXTENDED file without pending headers has its matrix.
  abbrev pub IsSound : Ambix F B → Type 0
  IsSound a =
      (a.started_writing ≡ true → a.pending_headers ≡ false)
      × (a.started_writing ≡ true
          → is_extended a.realinfo.fileformat ≡ true
          → is_fullset sqrt a.matrix.rows ≡ true)
      × (is_extended a.realinfo.fileformat ≡ true → a.pending_headers ≡ false → IsSaved a)

  -- The backend keeps the chunk that it accepts, whatever else is done with the file.
  abbrev pub IsKept : Type 0
  IsKept =
      Accepts backend HasUuid
      × ((file : B) (chunk : List ℕ) (frames : ℤ) (whence : ℕ)
          → HasUuid file chunk
          → HasUuid (backend.seek_file file frames whence).0 chunk)
      × ((t : SampleType) (file : B) (chunk : List ℕ) (frames : ℤ)
          → HasUuid file chunk
          → HasUuid ((samples.stream t).read_frames file frames).0 chunk)
      × ((t : SampleType) (file : B) (chunk : List ℕ) (buffer : List (samples.Sample t))
            (frames : ℤ)
          → HasUuid file chunk
          → HasUuid ((samples.stream t).write_frames file buffer frames).0 chunk)

  moved :
      (a : Ambix F B) (file : B)
      → ((chunk : List ℕ) → HasUuid a.private_data chunk → HasUuid file chunk)
      → IsSound a
      → IsSound (record a { private_data = file })
  moved a file keeps (idle, full, saved) = (
    idle,
    full,
    λ ext clean. elim (saved ext clean) [
      | inl e ↦ inl e
      | inr (chunk, e, has) ↦ inr (chunk, e, keeps chunk has)
    ],
  )

  -- A handle that has not started to write and has pending headers.
  pending-IsSound :
      (a : Ambix F B) → a.started_writing ≡ false → a.pending_headers ≡ true → IsSound a
  pending-IsSound a still waits = ((λ no. absurd cc), (λ no. absurd cc), (λ _ no. absurd cc))

  abbrev Sound : Ambix F B × Err → Type 0
  Sound r = IsSound r.0

  add_marker-IsSound : (a : Ambix F B) (m : Option Marker) → IsSound a → IsSound (add_marker a m).0
  unfolding add_marker
  add_marker-IsSound a none h = h
  add_marker-IsSound a (some m) h =
      if-holds Sound a.started_writing _ _ (λ _. h)
        (λ still.
          elim-holds Sound (appended a.num_markers a.markers m) (a, unknown) _ h
            (λ ms.
              pending-IsSound
                (record a {
                  num_markers = u32 (a.num_markers + 1);
                  markers = some ms;
                  pending_headers = true;
                })
                still refl))

  add_region-IsSound : (a : Ambix F B) (r : Option Region) → IsSound a → IsSound (add_region a r).0
  unfolding add_region
  add_region-IsSound a none h = h
  add_region-IsSound a (some r) h =
      if-holds Sound a.started_writing _ _ (λ _. h)
        (λ still.
          elim-holds Sound (appended a.num_regions a.regions r) (a, unknown) _ h
            (λ rs.
              pending-IsSound
                (record a {
                  num_regions = u32 (a.num_regions + 1);
                  regions = some rs;
                  pending_headers = true;
                })
                still refl))

  delete_markers-IsSound : (a : Ambix F B) → IsSound a → IsSound (delete_markers a).0
  unfolding delete_markers
  delete_markers-IsSound a h =
      if-holds Sound (ltb 0 a.num_markers) _ _
        (λ _.
          elim-holds Sound a.markers (a, unknown) (λ _. (record a { num_markers = 0 }, success)) h
            (λ _. h))
        (λ _. h)

  delete_regions-IsSound : (a : Ambix F B) → IsSound a → IsSound (delete_regions a).0
  unfolding delete_regions
  delete_regions-IsSound a h =
      if-holds Sound (ltb 0 a.num_regions) _ _
        (λ _.
          elim-holds Sound a.regions (a, unknown) (λ _. (record a { num_regions = 0 }, success)) h
            (λ _. h))
        (λ _. h)

  resize-IsSound :
      (a : Ambix F B) (frames itemsize : ℕ)
      → IsSound a
      → IsSound (adaptorbuffer_resize a frames itemsize).0
  resize-IsSound a frames itemsize h =
      let (n, e) = resize-record a frames itemsize in subst IsSound (sym e) h

  set_for_reading-IsSound :
      (a : Ambix F B) (m : Matrix F) → IsSound a → OnDone Sound (set_for_reading acc sqrt pinv a m)
  unfolding set_for_reading
  set_for_reading-IsSound a m h =
      if-OnDone Sound (is_extended a.realinfo.fileformat) _ _
        (λ _.
          stored-OnDone Sound (multiply acc (some m) (some a.matrix) (some a.matrix2)) a unknown _ h
            (λ _. h))
        (λ _.
          if-OnDone Sound (m.cols == a.realinfo.ambichannels) _ _
            (λ _. stored-OnDone Sound (copy (some m) (some a.matrix2)) a unknown _ h (λ _. h))
            (λ _. h))

  set_reduction-IsSound :
      (a : Ambix F B) (m : Matrix F)
      → a.started_writing ≡ false
      → IsSound a
      → OnDone Sound (set_reduction acc sqrt pinv a m)
  unfolding set_reduction
  set_reduction-IsSound a m still h =
      if-OnDone Sound (a.realinfo.ambichannels == m.cols) _ _
        (λ _. stored-OnDone Sound (pinv m) a invalid_matrix _ h (λ p.
          stored-OnDone Sound (copy (some p) (some a.matrix2)) a unknown _ h (λ m2.
            stored-OnDone Sound (copy (some m) (some a.matrix)) (record a { matrix2 = m2 }) unknown
              _ h (λ m1. pending-IsSound (reduced a m.rows m1 m2) still refl))))
        (λ _. h)

  set_for_writing-IsSound :
      (a : Ambix F B) (m : Matrix F) → IsSound a → OnDone Sound (set_for_writing acc sqrt pinv a m)
  unfolding set_for_writing
  set_for_writing-IsSound a m h =
      if-OnDone Sound (not (is_extended a.info.fileformat) && not (is_basic a.info.fileformat)) _ _
        (λ _. h)
        (λ _.
          if-OnDone Sound a.started_writing _ _ (λ _. h)
            (λ still.
              if-OnDone Sound (not (is_fullset sqrt m.rows)) _ _ (λ _. h)
                (λ _.
                  if-OnDone Sound (is_basic a.info.fileformat) _ _
                    (λ _. set_reduction-IsSound a m still h)
                    (λ _. stored-OnDone Sound (copy (some m) (some a.matrix)) a unknown _ h (λ m1.
                      pending-IsSound (record a { matrix = m1; pending_headers = true }) still
                        refl)))))

  set_adaptormatrix-IsSound :
      (a : Ambix F B) (m : Matrix F)
      → IsSound a
      → OnDone Sound (set_adaptormatrix acc sqrt pinv a m)
  unfolding set_adaptormatrix
  set_adaptormatrix-IsSound a m h =
      if-OnDone Sound (a.filemode.reads && is_basic a.info.fileformat) _ _
        (λ _. set_for_reading-IsSound a m h)
        (λ _. if-OnDone Sound a.filemode.writes _ _ (λ _. set_for_writing-IsSound a m h) (λ _. h))

  check_write-IsSound :
      IsKept → (a : Ambix F B) → IsSound a → OnDone Sound (check_write backend sqrt a)
  unfolding check_write
  check_write-IsSound kept a (idle, full, saved) =
      if-OnDone Sound (is_extended a.realinfo.fileformat && not (is_fullset sqrt a.matrix.rows)) _ _
        (λ _. (idle, full, saved))
        (λ rows.
          if-OnDone Sound a.pending_headers _ _
            (λ waits.
              bind-OnDone (IsHeaded backend HasUuid a) Sound (write_header backend a) _
                (write_header-IsHeaded backend HasUuid kept.0 a)
                (λ r (started, same, info, swap, failed, ok, given).
                  let format = ap (λ i. is_extended i.fileformat) (sym info) in
                  let size = ap (λ m. is_fullset sqrt m.rows) same in
                  if-OnDone Sound (is_success r.1) _ _
                    (λ yes. (
                      (λ _. ok yes),
                      (λ _ ext. size ∙ second_of _ _ rows (format ∙ ext)),
                      (λ ext _.
                          let (chunk, e, has) = given yes (format ∙ ext) in
                          inr (chunk, ap₂ matrix_to_uuid1 same swap ∙ e, has)),
                    ))
                    (λ no. (
                      (λ on. failed no ∙ idle (sym started ∙ on)),
                      (λ on ext. size ∙ full (sym started ∙ on) (format ∙ ext)),
                      (λ ext clean. true_false (sym waits ∙ sym (failed no) ∙ clean)),
                    ))))
            (λ clean. ((λ _. clean), (λ _ ext. second_of _ _ rows ext), saved)))

  readf-IsSound :
      IsKept
      → (t : SampleType) (a : Ambix F B) (frames : ℤ) → IsSound a
      → OnDone (λ r. IsSound r.0) (readf (samples.arithmetic t) backend (samples.stream t) a frames)
  unfolding readf check_read
  readf-IsSound kept t a frames h =
      let stream : Stream B (samples.Sample t) = samples.stream t in
      let b : Ambix F B = record a { started_reading = true } in
      let c : Ambix F B = (adaptorbuffer_resize b (to_u64 frames) stream.itemsize).0 in
      let hc : IsSound c = resize-IsSound b (to_u64 frames) stream.itemsize h in
      let Q : Ambix F B × (List (samples.Sample t) × List (samples.Sample t)) × ℤ → Type 0 =
        λ r. IsSound r.0 in
      if-OnDone Q (is_success (adaptorbuffer_resize b (to_u64 frames) stream.itemsize).1) _ _
        (λ _.
          let (file, buffer, realframes) = stream.read_frames c.private_data frames in
          let d : Ambix F B = record c { private_data = file } in
          then-OnDone Q _ (within d stream.itemsize buffer) (λ buf.
            then-OnDone Q _ (split_frames (samples.arithmetic t) d buf (rounds realframes))
              (λ out. moved c file (λ chunk. kept.2 t c.private_data chunk frames) hc)))
        (λ _. hc)

  writef-IsSound :
      IsKept
      → (t : SampleType) (a : Ambix F B) (ambidata otherdata : List (samples.Sample t)) (frames : ℤ)
      → IsSound a
      → OnDone
          (λ r. IsSound r.0)
          (writef
            (samples.arithmetic t)
            backend
            (samples.stream t)
            sqrt
            a
            ambidata
            otherdata
            frames)
  unfolding writef
  writef-IsSound kept t a ambidata otherdata frames h =
      let stream : Stream B (samples.Sample t) = samples.stream t in
      let Q : Ambix F B × ℤ → Type 0 = λ r. IsSound r.0 in
      bind-OnDone Sound Q _ _ (check_write-IsSound kept a h) (λ (b, err) hb.
        let c : Ambix F B = (adaptorbuffer_resize b (to_u64 frames) stream.itemsize).0 in
        let hc : IsSound c = resize-IsSound b (to_u64 frames) stream.itemsize hb in
        if-OnDone Q (is_success err) _ _
          (λ _.
            if-OnDone Q (is_success (adaptorbuffer_resize b (to_u64 frames) stream.itemsize).1) _ _
              (λ _.
                then-OnDone Q _
                  (merge_frames (samples.arithmetic t) c ambidata otherdata (rounds frames))
                  (λ merged. then-OnDone Q _ (within c stream.itemsize merged) (λ buffer.
                    moved c (stream.write_frames c.private_data buffer frames).0
                      (λ chunk. kept.3 t c.private_data chunk buffer frames) hc)))
              (λ _. hc))
          (λ _. hb))

  Step-IsSound :
      IsKept → {a b : Ambix F B} → Step acc sqrt pinv backend samples a b → IsSound a → IsSound b
  unfolding seek
  Step-IsSound kept (Step.marker_added a m) h = add_marker-IsSound a m h
  Step-IsSound kept (Step.region_added a r) h = add_region-IsSound a r h
  Step-IsSound kept (Step.markers_deleted a) h = delete_markers-IsSound a h
  Step-IsSound kept (Step.regions_deleted a) h = delete_regions-IsSound a h
  Step-IsSound kept (Step.matrix_set a b m err e) h =
      done-OnDone Sound _ e (set_adaptormatrix-IsSound a m h)
  Step-IsSound kept (Step.sought a frames whence) h =
      moved a (backend.seek_file a.private_data frames whence).0
        (λ chunk. kept.1 a.private_data chunk frames whence) h
  Step-IsSound kept (Step.frames_read t a b frames realframes out e) h =
      done-OnDone (λ r. IsSound r.0) _ e (readf-IsSound kept t a frames h)
  Step-IsSound kept (Step.frames_written t a b frames realframes ambidata otherdata e) h =
      done-OnDone (λ r. IsSound r.0) _ e (writef-IsSound kept t a ambidata otherdata frames h)

  -- Any number of calls on a handle, with a backend that keeps the UUID chunk that it accepts: if the handle
  -- is sound at the start, it is sound at the end. That is: once samples are written, no headers are
  -- pending and the matrix of an EXTENDED file has as many rows as a full set; and an EXTENDED file
  -- without pending headers has the chunk of its matrix, unless the matrix is still the one it was
  -- opened with.
  pub Reach-IsSound :
      {a b : Ambix F B} → IsKept → Reach acc sqrt pinv backend samples a b → IsSound a → IsSound b
  Reach-IsSound kept Reach.here h = h
  Reach-IsSound kept (Reach.next r s) h = Step-IsSound kept s (Reach-IsSound kept r h)
