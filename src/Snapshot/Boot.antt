-- ===== src/Snapshot/Boot.antt =====
-- chain/bsc2/snapshot.go: `BootSnapshot`, the first snapshot at an epoch block, and
-- `FindAncientHeader`. The client is a function from a height to what the node answers.
pub mod Made
pub mod Examples
use btp2_bsc.Base.{
  sym, ◌∙◌, ap, ◌≢◌, >>=-eq-ok, ℕ, zero, suc, ◌+◌, ◌-◌, ◌/◌, ◌≡◌, refl, List, [], ◌∷◌, Option, none,
  some, Bool, false, length, leb, ◌==◌, ◌&&◌, if◌then◌else◌, Result, ok, panics, ◌>>=◌, sub64,
  get_elem?, arith,
}
use btp2_bsc.Chain.{Header, Ethereum, VoteData}
use btp2_bsc.Snapshot.Extra.{parse_validators, parse_turn_length, vote_attestation}
use btp2_bsc.Snapshot.State.{Snapshot, new_snapshot, set_of}

-- `attestation.Data` is read through a nil pointer where there was no attestation.
unfoldable pub attestation_data : Option VoteData → Result (Option VoteData)
attestation_data none = panics
attestation_data (some d) = ok (some d)

module _ (header_by_number : ℕ → Result Header) where
  -- The coinbases of `rounds` headers from a height on.
  unfoldable pub collect_recents : ℕ → ℕ → Result (List ℕ)
  collect_recents zero height = ok []
  collect_recents (suc rounds) height = do
    head ← header_by_number height
    rest ← collect_recents rounds (height + 1)
    ok (head.coinbase ∷ rest)

  module _ (eth : Ethereum) (epoch : ℕ) where
    -- The first recent height is an int64 difference; below 0 it is no height of the chain, and
    -- here 0.
    unfoldable pub boot_later : Header → List ℕ → ℕ → Option VoteData → Result Snapshot
    boot_later head cur_vals cur_turn_length attestation = do
      old_head ← header_by_number (sub64 head.number epoch)
      old_vals ← parse_validators eth old_head
      old_turn_length ← parse_turn_length eth old_head
      recents ← collect_recents (length old_vals / 2 + 1) (head.number - length old_vals / 2)
      d ← attestation_data attestation
      new_snapshot head.number head.hash old_vals cur_vals recents d head.coinbase head.parent_hash
          old_turn_length cur_turn_length

    -- At height 0 there is no older epoch, and the attestation is a literal nil.
    unfoldable pub boot_at : Header → List ℕ → ℕ → Option VoteData → Result Snapshot
    boot_at head cur_vals cur_turn_length attestation =
        if head.number == 0
        then new_snapshot head.number head.hash cur_vals cur_vals [] none head.coinbase
            head.parent_hash cur_turn_length cur_turn_length
        else boot_later head cur_vals cur_turn_length attestation

    unfoldable pub boot_snapshot : Header → Result Snapshot
    boot_snapshot head = do
      cur_vals ← parse_validators eth head
      cur_turn_length ← parse_turn_length eth head
      attestation ← vote_attestation eth head
      boot_at head cur_vals cur_turn_length attestation

-- `sort.Search(n, f)`: the smallest index at which f holds, for f that stays true once it is.
unfoldable pub search : ℕ → ℕ → (ℕ → Bool) → ℕ
search zero i f = i
search (suc left) i f = let rest = search left (i + 1) f in if f i then i else rest

abbrev pub reaches : ℕ → Option Header → Bool
reaches height none = false
reaches height (some h) = leb height h.number

abbrev pub is_parent : ℕ → ℕ → Option Header → Option Header
is_parent height hash none = none
is_parent height hash (some h) = if (h.number == height) && (h.hash == hash) then some h else none

-- The parent among the candidates, by its height and hash.
unfoldable pub find_parent : List Header → Header → Option Header
unfolding search
find_parent candidates ancient =
    let height = sub64 ancient.number 1 in
    is_parent height ancient.parent_hash (
      get_elem? candidates
        (search (length candidates) 0 (λ i. reaches height (get_elem? candidates i))))

unfoldable pub find_ancient_header : ℕ → Header → List Header → Option Header
find_ancient_header zero ancient candidates = some ancient
find_ancient_header (suc ite) ancient candidates = elim (find_parent candidates ancient) [
  | none ↦ none
  | some parent ↦ find_ancient_header ite parent candidates
]

module _ (header_by_number : ℕ → Result Header) (eth : Ethereum) (epoch : ℕ) (head : Header) where
  -- A successful boot above height 0, taken apart.
  pub record Booted (s : Snapshot) : Type 0 where
    pub cur_vals : List ℕ
    pub cur_parsed : parse_validators eth head ≡ ok cur_vals
    pub old_head : Header
    pub old_fetched : header_by_number (sub64 head.number epoch) ≡ ok old_head
    pub old_vals : List ℕ
    pub old_parsed : parse_validators eth old_head ≡ ok old_vals
    pub recents : List ℕ
    pub recents_fetched :
        collect_recents header_by_number
          (length old_vals / 2 + 1)
          (head.number - length old_vals / 2)
        ≡ ok recents
    pub vote : VoteData
    pub voted : vote_attestation eth head ≡ ok (some vote)
    pub made :
        (turn old_turn : ℕ) × (parse_turn_length eth head ≡ ok turn)
        × (parse_turn_length eth old_head ≡ ok old_turn)
        × (new_snapshot head.number head.hash old_vals cur_vals recents
              (some vote)
              head.coinbase
              head.parent_hash
              old_turn
              turn
            ≡ ok s)

  data_inv :
      (att d : Option VoteData)
      → attestation_data att ≡ ok d
      → (v : VoteData) × (att ≡ some v) × (d ≡ some v)
  unfolding attestation_data
  data_inv none d e = cc
  data_inv (some v) d e = (v, refl, ground arith)

  genesis_panics :
      (vals : List ℕ) (turn : ℕ) (att : Option VoteData) (s : Snapshot)
      → head.number ≡ 0
      → boot_at header_by_number eth epoch head vals turn att ≢ ok s
  unfolding boot_at new_snapshot
  genesis_panics vals turn att s z = ground arith

  boot_at_later :
      (vals : List ℕ) (turn : ℕ) (att : Option VoteData)
      → head.number ≢ 0
      → boot_at header_by_number eth epoch head vals turn att
        ≡ boot_later header_by_number eth epoch head vals turn att
  unfolding boot_at
  boot_at_later vals turn att n = ground arith

  -- Whatever the node answers, booting makes a snapshot only above height 0 and only from a header
  -- that carries an attestation; everything that it reads was found.
  pub boot-Booted :
      (s : Snapshot)
      → boot_snapshot header_by_number eth epoch head ≡ ok s
      → (head.number ≢ 0) × Booted s
  unfolding boot_snapshot boot_later
  boot-Booted s e =
      let (vals, p, e1) = >>=-eq-ok (parse_validators eth head) _ e in
      let (turn, q, e2) = >>=-eq-ok (parse_turn_length eth head) _ e1 in
      let (att, v, e3) = >>=-eq-ok (vote_attestation eth head) _ e2 in
      let n = λ (z : head.number ≡ 0). genesis_panics vals turn att s z e3 in
      let e4 = sym (boot_at_later vals turn att n) ∙ e3 in
      let (old, f, e5) = >>=-eq-ok (header_by_number (sub64 head.number epoch)) _ e4 in
      let (old_vals, p', e6) = >>=-eq-ok (parse_validators eth old) _ e5 in
      let (old_turn, q', e7) = >>=-eq-ok (parse_turn_length eth old) _ e6 in
      let (recents, r, e8) = >>=-eq-ok (collect_recents header_by_number _ _) _ e7 in
      let (d, a, e9) = >>=-eq-ok (attestation_data att) _ e8 in
      let (vote, w, w') = data_inv att d a in
      (
        n,
        record {
          cur_vals = vals;
          cur_parsed = p;
          old_head = old;
          old_fetched = f;
          old_vals = old_vals;
          old_parsed = p';
          recents = recents;
          recents_fetched = r;
          vote = vote;
          voted = v ∙ ap ok w;
          made = (turn, old_turn, q, q', rw w' at e9);
        },
      )
