-- ===== src/Adaptor.antt =====
-- The adaptors between interleaved samples and separate channel sets: libambix/src/adaptor.c.
-- A sample buffer is a list; `*source++` behind its end is a fault. What is written to a caller's
-- buffer is a list too, whose length says how much room the caller has to give. `frames` is the
-- number of rounds: a negative int64_t makes none.
pub mod Plain
pub mod Tables
pub mod Mixed
pub mod Routing
pub mod Data
pub mod Tests
use libambix.Base.{
  ℕ, zero, suc, ◌+◌, ◌-◌, ◌*◌, List, [], ◌∷◌, ◌++◌, get_elem?, Outcome, done, fault, ◌>>=◌, access,
  collect,
}
use libambix.Matrix.{Accumulator, Matrix, read, sum_loop}

module _ {T : Type 0} where
  -- `for(chan) *dest++=*source++;`, with what is left of the source and what was written.
  unfoldable pub transfer : ℕ → List T → Outcome (List T × List T)
  transfer zero source = done (source, [])
  transfer (suc chans) [] = fault
  transfer (suc chans) (x ∷ source) = transfer chans source >>= λ s. done (s.0, x ∷ s.1)

  -- What is written to `dest_ambi` and to `dest_other`.
  unfoldable pub split_adaptor :
      List T → (sourcechannels ambichannels frames : ℕ) → Outcome (List T × List T)
  split_adaptor source sourcechannels ambichannels zero = done ([], [])
  split_adaptor source sourcechannels ambichannels (suc frames) = do
    s ← transfer ambichannels source
    t ← transfer (sourcechannels - ambichannels) s.0
    rest ← split_adaptor t.0 sourcechannels ambichannels frames
    done (s.1 ++ rest.0, t.1 ++ rest.1)

  unfoldable pub merge_adaptor :
      List T → (source1channels : ℕ) → List T → (source2channels frames : ℕ) → Outcome (List T)
  merge_adaptor source1 source1channels source2 source2channels zero = done []
  merge_adaptor source1 source1channels source2 source2channels (suc frames) = do
    s ← transfer source1channels source1
    t ← transfer source2channels source2
    rest ← merge_adaptor s.0 source1channels t.0 source2channels frames
    done (s.1 ++ (t.1 ++ rest))

module _ {F T S : Type 0} (acc : Accumulator F T S) where
  -- The channels of one frame, at `src`, mixed by the rows of the matrix.
  unfoldable pub mix_frame : Matrix F → List T → ℕ → Outcome (List T)
  mix_frame m source src = collect m.rows 0 (λ outchan.
      sum_loop acc m.cols (read m outchan) (λ inchan. access (get_elem? source (src + inchan))))

  -- The frames from frame `f` on, by the frames left.
  unfoldable pub split_matrix_from :
      List T → (sourcechannels : ℕ) → Matrix F → (left f : ℕ) → Outcome (List T × List T)
  split_matrix_from source sourcechannels m zero f = done ([], [])
  split_matrix_from source sourcechannels m (suc left) f = do
    ambi ← mix_frame m source (sourcechannels * f)
    other ←
        collect (sourcechannels - m.cols) m.cols
          (λ inchan. access (get_elem? source (sourcechannels * f + inchan)))
    rest ← split_matrix_from source sourcechannels m left (f + 1)
    done (ambi ++ rest.0, other ++ rest.1)

  unfoldable pub split_adaptor_matrix :
      List T → (sourcechannels : ℕ) → Matrix F → (frames : ℕ) → Outcome (List T × List T)
  split_adaptor_matrix source sourcechannels m frames =
      split_matrix_from source sourcechannels m frames 0

  unfoldable pub merge_matrix_from :
      List T → Matrix F → List T → (source2channels left f : ℕ) → Outcome (List T)
  merge_matrix_from ambi_data m otherdata source2channels zero f = done []
  merge_matrix_from ambi_data m otherdata source2channels (suc left) f = do
    ambi ← mix_frame m ambi_data (m.cols * f)
    t ← transfer source2channels otherdata
    rest ← merge_matrix_from ambi_data m t.0 source2channels left (f + 1)
    done (ambi ++ (t.1 ++ rest))

  unfoldable pub merge_adaptor_matrix :
      List T → Matrix F → List T → (source2channels frames : ℕ) → Outcome (List T)
  merge_adaptor_matrix ambi_data m otherdata source2channels frames =
      merge_matrix_from ambi_data m otherdata source2channels frames 0
