-- ===== src/Session/Reduced.antt =====
-- Writing BASIC channels as EXTENDED: `ambix_set_adaptormatrix`, and the frames that `ambix_writef_` merges then, of
-- libambix/src/libambix.c.
use libambix.Base.{
  ℕ, ◌+◌, ◌*◌, ◌≤◌, ◌≡◌, refl, ap, arith, true, false, List, ◌++◌, length, Outcome, done, table,
  frames_from, get_or,
}
use libambix.Channels.{is_fullset}
use libambix.Matrix.{Accumulator, Float, Matrix}
use libambix.Matrix.Writes.{IsFilled}
use libambix.Adaptor.Mixed.{mixed, merge_adaptor_matrix-table}
use libambix.Handle.{Ambix, basic, extended, success}
use libambix.Handle.Adaptormatrix.{set_adaptormatrix, set_adaptormatrix-reduced}
use libambix.Session.{merge_frames}

module _ {F B R T S : Type 0} ⦃fl : Float F⦄ (products : Accumulator F F R)
    (acc : Accumulator F T S) (sqrt : ℕ → ℕ) (pinv : Matrix F → Outcome (Matrix F)) where
  pub set_adaptormatrix-merge_frames :
      (a : Ambix F B) (matrix inverse : Matrix F) (ambi other : List T) (d : T) (frames : ℕ)
      → a.filemode.reads ≡ false
      → a.filemode.writes ≡ true
      → a.info.fileformat ≡ basic
      → a.started_writing ≡ false
      → is_fullset sqrt matrix.rows ≡ true
      → a.realinfo.ambichannels ≡ matrix.cols
      → pinv matrix ≡ done inverse
      → inverse.cols * frames ≤ length ambi
      → a.info.extrachannels * frames ≤ length other
      → (b : Ambix F B) × (set_adaptormatrix products sqrt pinv a matrix ≡ done (b, success))
        × (b.realinfo.fileformat ≡ extended)
        × (b.pending_headers ≡ true)
        × (b.info.ambichannels ≡ matrix.rows)
        × IsFilled matrix.rows matrix.cols matrix.cell b.matrix
        × (used : Matrix F) × IsFilled inverse.rows inverse.cols inverse.cell used
        × (merge_frames acc b ambi other frames
            ≡ done (
                frames_from frames 0 (λ f.
                  mixed acc used d ambi (used.cols * f)
                  ++ table a.info.extrachannels 0
                      (λ c. get_or other (a.info.extrachannels * f + c) d))))
  unfolding merge_frames
  set_adaptormatrix-merge_frames a matrix inverse ambi other d frames reads writes x idle full same
        inverted enough others =
      let (m, m2, e, filled, filled2) =
        set_adaptormatrix-reduced products sqrt pinv a matrix inverse reads writes x idle full same
          inverted in
      (
        _,
        e,
        refl,
        refl,
        refl,
        filled,
        m2,
        filled2,
        merge_adaptor_matrix-table acc m2 d ambi other a.info.extrachannels frames
            (omega (arith, enough, ap (λ c. c * frames) filled2.has_cols)) others,
      )
