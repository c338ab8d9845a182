-- ===== src/Compress/V0/Saved.antt =====
-- What Compressor_v0 writes to a file, it reads back.
use ticktock.Prelude.{
  ◌^◌, ◌≤◌, ◌<◌, ◌≡◌, refl, arith, List, [], ◌∷◌, ◌++◌, length, drop, none, some,
}
use native.Mathlib.Nat.{mod-eq_of_lt}
use ticktock.Compress.V0.{
  DataPointPair, Compressor, Restored, save_position, overwrite, entries, append, restore,
  uncompress,
}

module _ (Value : Type 0) where
  overwrite_lem :
      (dps base : List (DataPointPair Value))
      → length dps ≤ length base
      → overwrite Value dps base ≡ some (dps ++ drop (length dps) base)
  unfolding overwrite
  overwrite_lem [] base room = refl
  overwrite_lem (dp ∷ dps) [] room = absurd (omega (arith, room))
  overwrite_lem (dp ∷ dps) (x ∷ base) room = rw (overwrite_lem dps base (omega (arith, room))) refl

  entries-append :
      (dps rest : List (DataPointPair Value)) → entries Value (length dps) (dps ++ rest) ≡ some dps
  unfolding entries
  entries-append [] rest = refl
  entries-append (dp ∷ dps) rest = rw (entries-append dps rest) refl

  entries_all : (dps : List (DataPointPair Value)) → entries Value (length dps) dps ≡ some dps
  unfolding entries
  entries_all [] = refl
  entries_all (dp ∷ dps) = rw (entries_all dps) refl

  -- A compressor of less than 2^16 data points, whose buffer has room for them, is appended to a file: what is written is
  -- its data points and no more, and they stand in front of its buffer. From the position that it saves, a compressor
  -- without data points is restored to them, from the file or from that buffer, and gives them to the caller, behind
  -- what the caller had, without a read behind their end.
  pub restore-append :
      (c c' : Compressor Value) (dpv : List (DataPointPair Value))
      → length c.dps ≤ length c.data_points
      → length c.dps < 2 ^ 16
      → c'.dps ≡ []
      → let base = c.dps ++ drop (length c.dps) c.data_points in
        let r : Restored Value = record {
          dpv = uncompress Value dpv c;
          compressor = record c' { dps = c.dps };
        } in
        (append Value c
          ≡ some (record { compressor = record c { data_points = base }; written = c.dps }))
        × (restore Value dpv (save_position Value c) (some c.dps) c' ≡ some r)
        × (restore Value dpv (save_position Value c) none (record c' { data_points = base })
            ≡ some (record r { compressor = record c' { dps = c.dps; data_points = base } }))
  unfolding append restore save_position uncompress
  restore-append c c' dpv room small empty =
      let position = mod-eq_of_lt small in
      (
        rw
            (
              append,
              overwrite_lem c.dps c.data_points room,
              entries-append c.dps (drop (length c.dps) c.data_points),
            )
            refl,
        rw (position, restore, entries_all c.dps, empty) refl,
        rw (position, restore, entries-append c.dps (drop (length c.dps) c.data_points), empty)
            refl,
      )
