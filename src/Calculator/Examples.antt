-- ===== src/Calculator/Examples.antt =====
-- The calculator at a chain in which every block attests its parent, with the grandparent as source.
use btp2_bsc.Base.{
  ℕ, ◌+◌, ◌-◌, ◌≤◌, ◌≡◌, refl, ◌⊎◌, List, [], ◌∷◌, ◌++◌, some, leb, if◌then◌else◌, arith, not_found,
  Result, ok, err, add64,
}
use btp2_bsc.Chain.{VoteData}
use btp2_bsc.Snapshot.State.{Snapshot}
use btp2_bsc.Calculator.{Calculator, split_at, newest, calculate_loop, calculate, feed}
use btp2_bsc.Calculator.Verdict.{Line, ends, goes, Votes, calculate_loop_decides, feed_splits}

abbrev vote : ℕ → VoteData
vote n = record {
  source_number = n - 2;
  source_hash = 8 + n;
  target_number = n - 1;
  target_hash = 9 + n;
}

abbrev block : ℕ → Snapshot
block n = record {
  number = n;
  hash = 10 + n;
  parent_hash = 9 + n;
  sealer = 0;
  validators = [];
  candidates = [];
  recents = [];
  attestation = some (vote n);
  curr_turn_length = 1;
  next_turn_length = 1;
}

abbrev get : ℕ → Result Snapshot
get hash = if leb 10 hash then ok (block (hash - 10)) else err not_found

abbrev before : Calculator
before = record { checkpoint = 12; feeds = 13 ∷ 14 ∷ [] }

abbrev after : Calculator
after = record { checkpoint = 13; feeds = 14 ∷ 15 ∷ [] }

abbrev finals : List ℕ
finals = 13 ∷ []

feed_15 : feed get 9 before 15 ≡ (after, ok finals)
unfolding feed calculate calculate_loop split_at newest add64
feed_15 = refl

feed_splits_example :
    (finals ++ after.feeds ≡ before.feeds ++ 15 ∷ [])
    × (calculate get 9 (record before { feeds = before.feeds ++ 15 ∷ [] }) ≡ ok after.checkpoint)
    × ((finals ≡ []) ⊎ (newest finals ≡ some after.checkpoint))
feed_splits_example = feed_splits get 9 before after 15 finals feed_15

abbrev line : Line get (block 2) 3 (block 5)
line =
    goes (block 5) (vote 5) refl refl
      (goes (block 4) (vote 4) refl refl (goes (block 3) (vote 3) refl refl ends))

calculate_loop_decides_example :
    (final : ℕ) × (calculate_loop get 3 (block 2) (block 5) ≡ ok final)
    × ((final ≡ 12)
        ⊎ ((v : VoteData) × Votes get line v
            × (final ≡ v.source_hash)
            × (2 ≤ v.source_number)
            × (v.target_number ≡ add64 v.source_number 1)))
calculate_loop_decides_example =
    calculate_loop_decides get 3 3 (block 2) (block 5) line (omega arith)
