-- ===== src/Factory/Interval.antt =====
-- The option "block_checkpoint_interval" (chain/bsc2/bsc2factory.go) and the snapshots' store that it is
-- for (chain/bsc2/snapshots.go).
use Prim.Native.String.{String}
use btp2_bsc.Base.{
  ℕ, ◌%◌, ◌≡◌, ◌≢◌, ◌↔◌, refl, sym, ap, ◌∙◌, inl, inr, Option, some, ◌==◌, Result, ok, err, panics,
  ok-injective, arith, Bool-cases, ==_iff,
}
use btp2_bsc.Snapshot.State.{Snapshot}
use btp2_bsc.Snapshot.Store.{Backend, Snapshots, store, stored, add_to, add_snapshot}
use btp2_bsc.Factory.{BaseConfig, RecvConfig, option_of, conv_to_uint64, recv_config}
use btp2_bsc.Factory.Options.{recv_config_reads, conv_to_uint64_given}

module _ {Value Float : Type 0} (sprint : Option Value → String) (parse_uint : String → Result ℕ)
    (parse_float : String → Result Float) {Cache Database Blob : Type 0}
    (b : Backend Cache Database Blob) where
  stored_safe :
      (st : Snapshots Cache Database) (r : Result Database)
      → r ≢ panics
      → (stored b st r).1 ≢ panics
  stored_safe st (ok d) n e = cc
  stored_safe st (err x) n e = cc
  stored_safe st panics n e = n refl

  -- For the store of a receiver made from a chain's configuration, with an open database into which
  -- the snapshot can be written without a panic: `add` panics just where the option
  -- "block_checkpoint_interval" is given as 0.
  pub add_panics_iff :
      (chain_id : String → Result ℕ) (src : BaseConfig Value) (dst : String) (cfg : RecvConfig)
      (st : Snapshots Cache Database) (d : Database) (snap : Snapshot)
      → recv_config sprint parse_uint parse_float chain_id src dst ≡ ok cfg
      → b.checkpoint ≡ cfg.block_checkpoint_interval
      → st.database ≡ some d
      → store b d snap ≢ panics
      → ((add_snapshot b st snap).1 ≡ panics) ↔ (
          (v : Value) × (option_of src.options "block_checkpoint_interval" ≡ some v)
          × (parse_uint (sprint (some v)) ≡ ok 0))
  unfolding add_snapshot add_to conv_to_uint64
  add_panics_iff chain_id src dst cfg st d snap read same opened safe =
      let (_, given, _) =
        recv_config_reads sprint parse_uint parse_float chain_id src dst cfg read in
      (
        λ p. elim (Bool-cases (b.checkpoint == 0)) [
          | inl z ↦
              conv_to_uint64_given sprint parse_uint parse_float src.options
                "block_checkpoint_interval" 1024 0
                (given ∙ ap ok (sym same ∙ (==_iff b.checkpoint 0).0 z)) (λ e. omega arith)
          | inr nz ↦ elim (Bool-cases (snap.number % b.checkpoint == 0)) [
            | inl at ↦
                absurd
                  (stored_safe _ (store b d snap) safe (rw (add_snapshot, opened, nz, at) at p))
            | inr off ↦ absurd (ground (arith, rw (add_snapshot, opened, nz, off) at p))
          ]
        ],
        λ w.
            let (v, there, zero_read) = w in
            let read_zero : ok 0 ≡ ok cfg.block_checkpoint_interval =
              sym (rw (conv_to_uint64, there, zero_read)) ∙ given in
            let z : b.checkpoint ≡ 0 = same ∙ sym (ok-injective read_zero) in
            rw (add_snapshot, opened, z),
      )
