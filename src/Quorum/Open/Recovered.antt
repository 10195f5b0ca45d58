-- ===== src/Quorum/Open/Recovered.antt =====
-- The phases of `Quorum::open` in icegres/src/quorum/proposer.rs that find the donor, recover its records
-- and seed the log with them.
use mathlib.Core.Path.{subst}
use icegres.Prelude.{
  ℕ, ◌+◌, ◌-◌, ◌≤◌, ◌<◌, ◌^◌, ◌≡◌, refl, sym, ap, ◌∙◌, some, List, [], ◌∷◌, ◌++◌, Bool, arith,
  length, map, All,
}
use icegres.Prelude.Bytes.{Bytes, IsByte}
use icegres.Prelude.Results.{ok, ok_injective, >>=-eq-ok}
use icegres.Prelude.Exec.{Exec, lift, >>=-cases}
use icegres.Segment.{Crc}
use icegres.Quorum.TermHistory.{TermHistory}
use icegres.Quorum.Record.{Record, decode_records, map_err}
use icegres.Quorum.Record.Strict.{decode_records_sound}
use icegres.Quorum.Message.{Message}
use icegres.Quorum.Proposer.{Shared, quorum_size, pick_donor}
use icegres.Quorum.Election.{Network, Vote, candidate, donor_of}
use icegres.Quorum.Election.Connect.{download_suffix}
use icegres.Quorum.Open.{
  Greet, OpenError, not_decoded, not_downloaded, some_donor, check_horizon, check_length,
  check_below, last_entry, OpenVote, ballots, max_greeted, max_horizon, seed, seed_loop,
}
use icegres.Quorum.Open.Phases.{read_back, recover}
use icegres.Quorum.Open.Seeded.{
  IsSeeded, seed_loop-IsSeeded, IsBytewise, download-IsByte, map_err-ok,
}

abbrev pub last_term : TermHistory → ℕ
last_term [] = 0
last_term (e ∷ []) = e.term
last_term (e ∷ f ∷ h) = last_term (f ∷ h)

pub All-max_greeted : (greets : List Greet) → All (λ g. g.term ≤ max_greeted greets) greets
unfolding max_greeted
All-max_greeted greets = below greets (max_greeted greets) (omega arith)
  where
    below : (gs : List Greet) (top : ℕ) → max_greeted gs ≤ top → All (λ g. g.term ≤ top) gs
    below [] top h = tt
    below (g ∷ gs) top h = (omega arith, below gs top (omega arith))

All-max_horizon :
    (votes : List OpenVote) (top : ℕ) → max_horizon votes ≤ top → All (λ v. v.horizon ≤ top) votes
unfolding max_horizon
All-max_horizon [] top h = tt
All-max_horizon (v ∷ votes) top h = (omega arith, All-max_horizon votes top (omega arith))

last_term-below :
    (term : ℕ) (h : TermHistory) {u : Unit {0}}
    → 0 < term
    → check_below term (last_entry h) ≡ ok u
    → last_term h < term
last_term-below term [] p e = p
last_term-below term (x ∷ []) p e = ground arith
last_term-below term (x ∷ y ∷ h) p e = last_term-below term (y ∷ h) p e

module _ (c : Crc) (is_utf8 : Bytes → Bool) (net : Network) (chunk : ℕ) where
  -- The range of the donor's log from `truncate` on, as the donor gives it, in full and decoded.
  pub record IsReadBack (donor : Vote) (truncate : ℕ) (recs : List Record) : Type 0 where
    pub before : net.World
    pub bytes : Bytes
    pub downloaded :
        (download_suffix net donor.index chunk donor.flush truncate before).0 ≡ ok bytes
    pub are_bytes : All IsByte bytes
    pub filled : truncate + length bytes ≡ donor.flush
    pub decoded : decode_records c is_utf8 bytes truncate ≡ ok recs

  -- The donor, and the range of its log that follows every voter's horizon.
  pub record IsRecovered (votes : List OpenVote) (donor : Vote) (truncate : ℕ) (recs : List Record)
      : Type 0 where
    pub picked : donor_of (pick_donor (map candidate (ballots votes))) (ballots votes) ≡ some donor
    pub horizons : All (λ v. v.horizon ≤ truncate) votes
    pub inside : truncate ≤ donor.flush
    pub read : IsReadBack donor truncate recs

  -- The state that `seed` builds.
  pub record IsSeed (term : ℕ) (donor : Vote) (truncate : ℕ) (recs : List Record) (s : Shared)
      : Type 0 where
    pub own_term : s.election.term ≡ term
    pub starts : s.election.term_start_lsn ≡ donor.flush
    pub history :
        s.election.history ≡ donor.history ++ (record { term = term; lsn = donor.flush } ∷ [])
    pub newest : last_term donor.history < term
    pub base : s.log.base ≡ truncate
    pub head : s.log.head ≡ donor.flush
    pub long : length s.peers ≡ quorum_size
    pub seeded : IsSeeded c is_utf8 truncate s.log.records recs donor.flush

  pub seed-head :
      (term : ℕ) (donor : Vote) (truncate : ℕ) (recs : List Record) {s : Shared}
      → seed c is_utf8 term donor truncate recs ≡ ok s
      → s.log.head ≡ donor.flush
  unfolding seed
  seed-head term donor truncate recs h =
      let (_, h1, r1) = >>=-eq-ok (check_below term (last_entry donor.history)) _ h in
      let (out, h2, r2) = >>=-eq-ok (seed_loop c is_utf8 truncate [] recs) _ r1 in
      ap (λ (t : Shared). t.log.head) (sym (ok_injective r2))

  pub seed-IsSeed :
      (term : ℕ) (donor : Vote) (truncate : ℕ) (recs : List Record) {s : Shared}
      → seed c is_utf8 term donor truncate recs ≡ ok s
      → 0 < term
      → donor.flush < 2 ^ 64
      → IsReadBack donor truncate recs
      → IsSeed term donor truncate recs s
  unfolding seed
  seed-IsSeed term donor truncate recs h positive below read =
      let (_, h1, r1) = >>=-eq-ok (check_below term (last_entry donor.history)) _ h in
      let (out, h2, r2) = >>=-eq-ok (seed_loop c is_utf8 truncate [] recs) _ r1 in
      let (whole, at) =
        decode_records_sound c is_utf8 read.bytes truncate recs read.are_bytes read.decoded in
      subst (IsSeed term donor truncate recs) (ok_injective r2) (record {
        own_term = refl;
        starts = refl;
        history = refl;
        newest = last_term-below term donor.history positive h1;
        base = refl;
        head = refl;
        long = refl;
        seeded =
            seed_loop-IsSeeded c is_utf8 truncate [] recs donor.flush h2 at
              (ap (λ (bs : Bytes). truncate + length bs) whole ∙ read.filled) below;
      })

  module _
      (bytewise : (w : net.World) (i : ℕ) (m : Message) → IsBytewise (net.exchange w i m).0) where
    read_back-IsReadBack :
        (donor : Vote) (truncate : ℕ) (w : net.World) {recs : List Record}
        → (read_back net c is_utf8 chunk donor truncate w).0 ≡ ok recs
        → IsReadBack donor truncate recs
    unfolding read_back download_suffix
    read_back-IsReadBack donor truncate w {recs} h =
        let read : Exec OpenError net.World Bytes = λ v.
          let (r, w') = download_suffix net donor.index chunk donor.flush truncate v in
          (map_err not_downloaded r, w') in
        >>=-cases read _ w h λ bytes w1 h1 r1.
          >>=-cases (lift (check_length truncate bytes donor.flush)) _ w1 r1 λ _ w2 h2 r2. record {
            before = w;
            bytes = bytes;
            downloaded = map_err-ok not_downloaded _ h1;
            are_bytes =
                download-IsByte net donor.index chunk donor.flush bytewise (donor.flush - truncate)
                  truncate [] w tt (map_err-ok not_downloaded _ h1);
            filled = ground (arith, h2);
            decoded = map_err-ok not_decoded (decode_records c is_utf8 bytes truncate) r2;
          }

    pub recover-IsRecovered :
        (votes : List OpenVote) (w : net.World) {o : Vote × ℕ × List Record}
        → (recover net c is_utf8 chunk votes w).0 ≡ ok o
        → IsRecovered votes o.0 o.1 o.2
    unfolding recover
    recover-IsRecovered votes w {o} h =
        let found = donor_of (pick_donor (map candidate (ballots votes))) (ballots votes) in
        let top = max_horizon votes in
        >>=-cases (lift (some_donor found)) _ w h λ d w1 h1 r1.
          >>=-cases (lift (check_horizon top d.flush)) _ w1 r1 λ _ w2 h2 r2.
            >>=-cases (read_back net c is_utf8 chunk d top) _ w2 r2 λ rs w3 h3 r3.
              subst (λ (o : Vote × ℕ × List Record). IsRecovered votes o.0 o.1 o.2)
                (ok_injective r3)
                (record {
                  picked = ground (arith, h1);
                  horizons = All-max_horizon votes top (omega arith);
                  inside = ground (arith, h2);
                  read = read_back-IsReadBack d top w2 h3;
                })
