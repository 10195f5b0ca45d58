-- ===== src/Quorum/RunPeer/Peers.antt =====
-- The list of peers in icegres/src/quorum/proposer.rs under the writes of one peer's task: `set_flush`
-- and `set_failed` move the entry of the index, and no other.
use icegres.Prelude.{ℕ, zero, suc, ◌<◌, ◌≡◌, ◌≢◌, refl, ap, [], ◌∷◌, List, true, arith, length}
use icegres.Quorum.Proposer.{Peer, set_flush}
use icegres.Quorum.RunPeer.{nth_flush, nth_failed, set_failed}

pub length-set_flush :
    (idx flush : ℕ) (ps : List Peer) → length (set_flush idx flush ps) ≡ length ps
unfolding set_flush
length-set_flush idx flush [] = refl
length-set_flush zero flush (p ∷ ps) = refl
length-set_flush (suc idx) flush (p ∷ ps) = ap suc (length-set_flush idx flush ps)

pub length-set_failed : (idx : ℕ) (ps : List Peer) → length (set_failed idx ps) ≡ length ps
unfolding set_failed
length-set_failed idx [] = refl
length-set_failed zero (p ∷ ps) = refl
length-set_failed (suc idx) (p ∷ ps) = ap suc (length-set_failed idx ps)

pub nth_flush-set_flush :
    (idx flush : ℕ) (ps : List Peer)
    → idx < length ps
    → nth_flush idx (set_flush idx flush ps) ≡ flush
unfolding set_flush
nth_flush-set_flush idx flush [] h = absurd (omega arith)
nth_flush-set_flush zero flush (p ∷ ps) h = refl
nth_flush-set_flush (suc idx) flush (p ∷ ps) h = nth_flush-set_flush idx flush ps (omega arith)

pub nth_failed-set_failed :
    (idx : ℕ) (ps : List Peer) → idx < length ps → nth_failed idx (set_failed idx ps) ≡ true
unfolding set_failed
nth_failed-set_failed idx [] h = absurd (omega arith)
nth_failed-set_failed zero (p ∷ ps) h = refl
nth_failed-set_failed (suc idx) (p ∷ ps) h = nth_failed-set_failed idx ps (omega arith)

-- The entries of the other peers.
pub other-set_flush :
    (idx flush j : ℕ) (ps : List Peer)
    → j ≢ idx
    → (nth_flush j (set_flush idx flush ps) ≡ nth_flush j ps)
      × (nth_failed j (set_flush idx flush ps) ≡ nth_failed j ps)
unfolding set_flush
other-set_flush idx flush j [] h = (refl, refl)
other-set_flush zero flush zero (p ∷ ps) h = absurd (h refl)
other-set_flush zero flush (suc j) (p ∷ ps) h = (refl, refl)
other-set_flush (suc idx) flush zero (p ∷ ps) h = (refl, refl)
other-set_flush (suc idx) flush (suc j) (p ∷ ps) h =
    other-set_flush idx flush j ps (λ e. h (ap suc e))

pub other-set_failed :
    (idx j : ℕ) (ps : List Peer)
    → j ≢ idx
    → (nth_flush j (set_failed idx ps) ≡ nth_flush j ps)
      × (nth_failed j (set_failed idx ps) ≡ nth_failed j ps)
unfolding set_failed
other-set_failed idx j [] h = (refl, refl)
other-set_failed zero zero (p ∷ ps) h = absurd (h refl)
other-set_failed zero (suc j) (p ∷ ps) h = (refl, refl)
other-set_failed (suc idx) zero (p ∷ ps) h = (refl, refl)
other-set_failed (suc idx) (suc j) (p ∷ ps) h = other-set_failed idx j ps (λ e. h (ap suc e))
