-- ===== src/Tail/Replay/Frames.antt =====
-- Reading the frames of icegres/src/tail.rs again, in the part of the data that a first loop took.
use mathlib.Core.Path.{subst}
use icegres.Prelude.{
  ℕ, zero, suc, ◌+◌, ◌-◌, ◌≤◌, ◌≡◌, refl, sym, ap, ◌∙◌, List, [], ◌∷◌, Bool, true, false, length,
  take, drop, arith, length-take, length-drop,
}
use icegres.Prelude.Bytes.{Bytes, from_le}
use icegres.Prelude.Results.{Result, ok, err-ne-ok, ◌>>=◌, >>=-eq-ok, ok_injective}
use icegres.Segment.{Crc}
use icegres.Tail.Replay.{
  Decoded, ReplayError, Read, Front, invalid, incompatible, whole, decode_payload, as_front,
  front_of, front, after_front, decoded, foreign, undecodable, read_frames,
}

module _ {ℓ} {A : Type ℓ} where
  pub take-take : (m n : ℕ) (xs : List A) → m ≤ n → take m (take n xs) ≡ take m xs
  take-take zero n xs h = refl
  take-take (suc m) zero xs h = absurd (omega arith)
  take-take (suc m) (suc n) [] h = refl
  take-take (suc m) (suc n) (x ∷ xs) h = ap (λ t. x ∷ t) (take-take m n xs (omega arith))

  take_nil : (n : ℕ) → ◌≡◌ {A = List A} (take n []) []
  take_nil zero = refl
  take_nil (suc n) = refl

  pub same_take : (j k : ℕ) (xs : List A) → j ≡ k → take j xs ≡ take k xs
  same_take j k xs h = ap (λ i. take i xs) h

  drop-take : (m n : ℕ) (xs : List A) → drop m (take n xs) ≡ take (n - m) (drop m xs)
  drop-take zero n xs = same_take n (n - 0) xs (omega arith)
  drop-take (suc m) zero xs = same_take 0 (0 - suc m) (drop (suc m) xs) (omega arith)
  drop-take (suc m) (suc n) [] = sym (take_nil (suc n - suc m))
  drop-take (suc m) (suc n) (x ∷ xs) =
      drop-take m n xs ∙ same_take (n - m) (suc n - suc m) (drop m xs) (omega arith)

module _ {A : Type 0} (c : Crc) (decode_op : Bytes → Decoded A) where
  as_front-whole :
      (len l : ℕ) (x : Decoded (ℕ × A)) (f : ℕ × A)
      → as_front c decode_op len x ≡ whole f l
      → len ≡ l
  as_front-whole len l (decoded g) f h = ground arith
  as_front-whole len l foreign f h = absurd (ground arith)
  as_front-whole len l undecodable f h = absurd (ground arith)

  -- A whole frame at the front, and the same where as many bytes are left as it has.
  front_of-whole :
      (size size' len crc : ℕ) (p : Bytes) (f : ℕ × A) (l : ℕ)
      → front_of c decode_op size len crc p ≡ whole f l
      → 8 + len ≤ size'
      → (len ≡ l) × (8 + l ≤ size) × (front_of c decode_op size' len crc p ≡ whole f l)
  unfolding front_of
  front_of-whole size size' len crc p f l h room =
      ground (arith, as_front-whole len l (decode_payload c decode_op p) f)

  front-whole :
      (d : Bytes) (f : ℕ × A) (len : ℕ)
      → front c decode_op d ≡ whole f len
      → (from_le (take 4 d) ≡ len) × (8 + len ≤ length d)
  unfolding front
  front-whole d f len h =
      let (same, inside, _) =
        front_of-whole (length d) (8 + from_le (take 4 d)) (from_le (take 4 d)) _ _ f len h
          (omega arith) in
      (same, inside)

  front-take :
      (n : ℕ) (d : Bytes) (f : ℕ × A) (len : ℕ)
      → front c decode_op d ≡ whole f len
      → 8 + len ≤ n
      → front c decode_op (take n d) ≡ whole f len
  unfolding front
  front-take n d f len h room =
      let (is_len, inside) = front-whole d f len h in
      let header = take-take 4 n d (omega arith) in
      let crc = ap (take 4) (drop-take 4 n d) ∙ take-take 4 (n - 4) (drop 4 d) (omega arith) in
      let payload =
        ap (λ w. take (from_le w) (drop 8 (take n d))) header
        ∙ ap (take (from_le (take 4 d))) (drop-take 8 n d)
        ∙ take-take (from_le (take 4 d)) (n - 8) (drop 8 d) (omega (arith, is_len)) in
      let cut : front c decode_op (take n d)
          ≡ front_of c decode_op (length (take n d)) (from_le (take 4 d))
              (from_le (take 4 (drop 4 d))) (take (from_le (take 4 d)) (drop 8 d)) =
        λ i.
          front_of c decode_op (length (take n d)) (from_le (header i)) (from_le (crc i))
            (payload i) in
      cut
      ∙ (front_of-whole (length d) (length (take n d)) (from_le (take 4 d)) _ _ f len h
          (omega (arith, length-take n d, is_len))).2

  abbrev pushed : ℕ × A → Read A → Read A
  pushed f rest = record rest { frames = f ∷ rest.frames }

  read_frames-whole :
      (k off : ℕ) (d : Bytes) (f : ℕ × A) (len : ℕ)
      → front c decode_op d ≡ whole f len
      → read_frames c decode_op (suc k) off d ≡ (
          read_frames c decode_op k (off + (8 + len)) (drop (8 + len) d) >>= λ rest.
          ok (pushed f rest))
  unfolding read_frames
  read_frames-whole k off [] f len h =
      absurd (let (_, inside) = front-whole [] f len h in omega arith)
  read_frames-whole k off (b ∷ bs) f len h =
      ap
        (after_front c decode_op off
          (λ l. read_frames c decode_op k (off + (8 + l)) (drop (8 + l) (b ∷ bs))))
        h

  read_frames-stop :
      (k off : ℕ) (d : Bytes)
      → read_frames c decode_op k off (take (off - off) d)
        ≡ ok (record { frames = []; good_end = off; bad = false })
  unfolding read_frames
  read_frames-stop k off d =
      ap (read_frames c decode_op k off) (same_take (off - off) 0 d (omega arith)) ∙ nothing k
    where
      nothing :
          (k : ℕ)
          → read_frames c decode_op k off []
            ≡ ok (record { frames = []; good_end = off; bad = false })
      nothing zero = refl
      nothing (suc k) = refl

  -- What is said of the end of a loop, in one predicate.
  abbrev pub Again : ℕ → Bytes → Read A → Type 0
  Again off d r =
      (off ≤ r.good_end)
      × (r.good_end ≤ off + length d)
      × ((k : ℕ)
          → r.good_end ≤ off + k
          → read_frames c decode_op k off (take (r.good_end - off) d)
            ≡ ok (record { frames = r.frames; good_end = r.good_end; bad = false }))

  Again-stop :
      (off : ℕ) (d : Bytes) (bad : Bool)
      → Again off d (record { frames = []; good_end = off; bad = bad })
  Again-stop off d bad = (omega arith, omega arith, λ k room. read_frames-stop k off d)

  Again-whole :
      (off : ℕ) (d : Bytes) (f : ℕ × A) (len : ℕ) (rest : Read A)
      → front c decode_op d ≡ whole f len
      → Again (off + (8 + len)) (drop (8 + len) d) rest
      → Again off d (pushed f rest)
  Again-whole off d f len rest h (lo, hi, again) =
      let (_, inside) = front-whole d f len h in
      (omega arith, omega (arith, length-drop (8 + len) d), step)
    where
      step :
          (k : ℕ)
          → rest.good_end ≤ off + k
          → read_frames c decode_op k off (take (rest.good_end - off) d)
            ≡ ok (record { frames = f ∷ rest.frames; good_end = rest.good_end; bad = false })
      step zero room = absurd (omega (arith, lo))
      step (suc k) room =
          let n = rest.good_end - off in
          let left =
            drop-take (8 + len) n d
            ∙ same_take (n - (8 + len)) (rest.good_end - (off + (8 + len))) (drop (8 + len) d)
                (omega arith) in
          read_frames-whole k off (take n d) f len (front-take n d f len h (omega (arith, lo)))
          ∙ ap (λ x. read_frames c decode_op k (off + (8 + len)) x >>= λ rest. ok (pushed f rest))
              left
          ∙ ap (λ o. o >>= λ rest. ok (pushed f rest)) (again k (omega arith))

  -- The loop takes a part of the data, and on that part alone it ends clean with the same frames.
  pub read_frames-Again :
      (fuel off : ℕ) (d : Bytes) (r : Read A)
      → length d ≤ fuel
      → read_frames c decode_op fuel off d ≡ ok r
      → Again off d r
  unfolding read_frames
  read_frames-Again zero off [] r h e =
      subst (Again off []) (ok_injective e) (Again-stop off [] false)
  read_frames-Again (suc fuel) off [] r h e =
      subst (Again off []) (ok_injective e) (Again-stop off [] false)
  read_frames-Again zero off (b ∷ bs) r h e = absurd (omega arith)
  read_frames-Again (suc fuel) off (b ∷ bs) r h e =
      on_front (front c decode_op (b ∷ bs)) refl e (λ len rest.
        read_frames-Again fuel (off + (8 + len)) (drop (8 + len) (b ∷ bs)) rest
          (omega (arith, length-drop (8 + len) (b ∷ bs))))
    where
      next : ℕ → Result ReplayError (Read A)
      next len = read_frames c decode_op fuel (off + (8 + len)) (drop (8 + len) (b ∷ bs))

      on_front :
          (x : Front A)
          → front c decode_op (b ∷ bs) ≡ x
          → after_front c decode_op off next x ≡ ok r
          → ((len : ℕ) (rest : Read A)
              → next len ≡ ok rest
              → Again (off + (8 + len)) (drop (8 + len) (b ∷ bs)) rest)
          → Again off (b ∷ bs) r
      on_front invalid at out ih =
          subst (Again off (b ∷ bs)) (ok_injective out) (Again-stop off (b ∷ bs) true)
      on_front incompatible at out ih = absurd (err-ne-ok out)
      on_front (whole f len) at out ih =
          let (rest, read, same) = >>=-eq-ok (next len) (λ rest. ok (pushed f rest)) out in
          subst (Again off (b ∷ bs)) (ok_injective same)
            (Again-whole off (b ∷ bs) f len rest at (ih len rest read))
