-- ===== src/Lease/Addresses.antt =====
-- icegres/src/lease.rs, `parse_lease_addrs`: the addresses of the lease's acceptors, which must not be
-- those of the data log. A string is the list of its characters. What an address resolves to is a
-- parameter, empty where the resolution fails.
use icegres.Prelude.{
  ℕ, ◌≡◌, ◌≢◌, ◌↔◌, ◌⊎◌, inl, inr, refl, sym, ap, ap₂, ◌∙◌, Option, none, some, List, [], ◌∷◌, Bool,
  true, false, not, ◌&&◌, ◌||◌, length, map, All, arith, leb, ◌==◌, if◌then◌else◌, if_cases, ==_iff,
  heads_eq, tails_eq, subst,
}
use icegres.Prelude.Results.{Result, ok, err, ok_injective, err-ne-ok}
use icegres.Prelude.Maps.{Keys}
use icegres.Quorum.TermHistory.{is_nil}
use icegres.Quorum.Proposer.{quorum_size}

abbrev pub Str : Type 0
Str = List ℕ

-- `char::is_whitespace`.
abbrev pub is_whitespace : ℕ → Bool
is_whitespace c =
    (leb 9 c && leb c 13)
    || (c == 32)
    || (c == 133)
    || (c == 160)
    || (c == 5760)
    || (leb 8192 c && leb c 8202)
    || (c == 8232)
    || (c == 8233)
    || (c == 8239)
    || (c == 8287)
    || (c == 12288)

abbrev pub trim_start : Str → Str
trim_start [] = []
trim_start (c ∷ cs) = let rest = trim_start cs in if is_whitespace c then rest else c ∷ cs

abbrev pub trim_end : Str → Str
trim_end [] = []
trim_end (c ∷ cs) =
    let rest = trim_end cs in if is_nil rest && is_whitespace c then [] else c ∷ rest

abbrev pub cons_front : ℕ → List Str → List Str
cons_front c [] = (c ∷ []) ∷ []
cons_front c (p ∷ ps) = (c ∷ p) ∷ ps

-- `split(',')`.
abbrev pub split_commas : Str → List Str
split_commas [] = [] ∷ []
split_commas (c ∷ cs) =
    let rest = split_commas cs in if c == 44 then [] ∷ rest else cons_front c rest

abbrev pub drop_empty : List Str → List Str
drop_empty [] = []
drop_empty ([] ∷ ss) = drop_empty ss
drop_empty ((c ∷ cs) ∷ ss) = (c ∷ cs) ∷ drop_empty ss

unfoldable pub listed : Str → List Str
listed spec = drop_empty (map (λ s. trim_end (trim_start s)) (split_commas spec))

abbrev pub same_str : Str → Str → Bool
same_str [] [] = true
same_str (x ∷ xs) (y ∷ ys) = let rest = same_str xs ys in (x == y) && rest
same_str _ _ = false

pub data LeaseError : Type 0 where
  wrong_count : ℕ → LeaseError
  shared : Str → Str → LeaseError

module _ (sockets : Keys) (resolve : Str → List sockets.Key) where
  abbrev pub contains : List sockets.Key → sockets.Key → Bool
  contains [] x = false
  contains (y ∷ ys) x = sockets.same y x || contains ys x

  abbrev pub any_in : List sockets.Key → List sockets.Key → Bool
  any_in [] ys = false
  any_in (x ∷ xs) ys = contains ys x || any_in xs ys

  abbrev pub aliased : Str → Str → Bool
  aliased a d = same_str d a || (not (is_nil (resolve a)) && any_in (resolve d) (resolve a))

  -- The first of the data log's addresses that `a` is another name of.
  abbrev pub find_alias : Str → List Str → Option Str
  find_alias a [] = none
  find_alias a (d ∷ ds) = let rest = find_alias a ds in if aliased a d then some d else rest

  abbrev pub check_addr :
      Str → Option Str → Result LeaseError (List Str) → Result LeaseError (List Str)
  check_addr a none rest = rest
  check_addr a (some d) rest = err (shared a d)

  -- The two nested loops.
  abbrev pub check_addrs : List Str → List Str → List Str → Result LeaseError (List Str)
  check_addrs addrs [] data_quorum = ok addrs
  check_addrs addrs (a ∷ left) data_quorum =
      check_addr a (find_alias a data_quorum) (check_addrs addrs left data_quorum)

  abbrev pub check_data : List Str → Option Str → Result LeaseError (List Str)
  check_data addrs none = ok addrs
  check_data addrs (some data_quorum) = check_addrs addrs addrs (listed data_quorum)

  unfoldable pub parse_lease_addrs : Str → Option Str → Result LeaseError (List Str)
  unfolding listed
  parse_lease_addrs spec data_quorum =
      if not (length (listed spec) == quorum_size)
      then err (wrong_count (length (listed spec)))
      else check_data (listed spec) data_quorum

same_str_iff : (a b : Str) → (same_str a b ≡ true) ↔ (a ≡ b)
same_str_iff [] [] = ((λ _. refl), (λ _. refl))
same_str_iff [] (y ∷ ys) = ((λ h. cc), (λ h. cc))
same_str_iff (x ∷ xs) [] = ((λ h. cc), (λ h. cc))
same_str_iff (x ∷ xs) (y ∷ ys) = (
  (λ h.
      let (a, b) = both (x == y) (same_str xs ys) h in
      ap₂ (λ u v. u ∷ v) ((==_iff x y).0 a) ((same_str_iff xs ys).0 b)),
  (λ e. rw ((==_iff x y).1 (heads_eq e)) ((same_str_iff xs ys).1 (tails_eq e))),
)
  where
    both : (a b : Bool) → (a && b) ≡ true → (a ≡ true) × (b ≡ true)
    both true b h = (refl, h)
    both false b h = cc

module _ (sockets : Keys) (resolve : Str → List sockets.Key) where
  abbrev pub Has : List sockets.Key → sockets.Key → Type 0
  Has [] x = ⊥
  Has (y ∷ ys) x = (x ≡ y) ⊎ Has ys x

  -- Two addresses that are spelt differently and resolve to no common socket.
  abbrev pub AreApart : Str → Str → Type 0
  AreApart a d = (d ≢ a) × ((x : sockets.Key) → Has (resolve a) x → Has (resolve d) x → ⊥)

  -- The addresses of the data log.
  abbrev pub data_addrs : Option Str → List Str
  data_addrs none = []
  data_addrs (some d) = listed d

  no_data : (addrs : List Str) → All (λ a. All (AreApart a) []) addrs
  no_data [] = tt
  no_data (a ∷ addrs) = (tt, no_data addrs)

  contains-Has :
      (ys : List sockets.Key) (x : sockets.Key) → Has ys x → contains sockets resolve ys x ≡ true
  contains-Has [] x h = absurd h
  contains-Has (y ∷ ys) x (inl e) = rw ((sockets.same_iff y x).1 (sym e)) refl
  contains-Has (y ∷ ys) x (inr h) = ground (arith, contains-Has ys x h)

  any_in-Has :
      (xs ys : List sockets.Key) (x : sockets.Key)
      → Has xs x
      → Has ys x
      → any_in sockets resolve xs ys ≡ true
  any_in-Has [] ys x h k = absurd h
  any_in-Has (z ∷ xs) ys x (inl e) k =
      ap (λ y. contains sockets resolve ys y || any_in sockets resolve xs ys) (sym e)
      ∙ rw (contains-Has ys x k) refl
  any_in-Has (z ∷ xs) ys x (inr h) k = ground (arith, any_in-Has xs ys x h k)

  not_nil : (ys : List sockets.Key) (x : sockets.Key) → Has ys x → is_nil ys ≡ false
  not_nil [] x h = absurd h
  not_nil (y ∷ ys) x h = refl

  aliased-AreApart : (a d : Str) → aliased sockets resolve a d ≡ false → AreApart a d
  aliased-AreApart a d h = (
    (λ e. true_false (rw ((same_str_iff d a).1 e) at h)),
    (λ x at_a at_d. true_false (
        rw (not_nil (resolve a) x at_a, any_in-Has (resolve d) (resolve a) x at_d at_a) at
          (or_right (same_str d a) h))),
  )
    where
      true_false : true ≡ false → ⊥
      true_false e = cc

      or_right : (b : Bool) {c : Bool} → (b || c) ≡ false → c ≡ false
      or_right true h = cc
      or_right false h = h

  find_alias-none :
      (a : Str) (ds : List Str) → find_alias sockets resolve a ds ≡ none → All (AreApart a) ds
  find_alias-none a [] h = tt
  find_alias-none a (d ∷ ds) h =
      if_cases (λ (o : Option Str). o ≡ none → All (AreApart a) (d ∷ ds))
        (aliased sockets resolve a d) (some d) (find_alias sockets resolve a ds) (λ _ e. cc)
        (λ apart e. (aliased-AreApart a d apart, find_alias-none a ds e)) h

  check_addrs-ok :
      (addrs as_listed ds found : List Str)
      → check_addrs sockets resolve addrs as_listed ds ≡ ok found
      → (found ≡ addrs) × All (λ a. All (AreApart a) ds) as_listed
  check_addrs-ok addrs [] ds found h = (sym (ok_injective h), tt)
  check_addrs-ok addrs (a ∷ rest) ds found h =
      by_alias (find_alias sockets resolve a ds) refl (check_addrs-ok addrs rest ds found) h
    where
      by_alias :
          (o : Option Str)
          → find_alias sockets resolve a ds ≡ o
          → (check_addrs sockets resolve addrs rest ds ≡ ok found
              → (found ≡ addrs) × All (λ a. All (AreApart a) ds) rest)
          → check_addr sockets resolve a o (check_addrs sockets resolve addrs rest ds) ≡ ok found
          → (found ≡ addrs) × All (λ a. All (AreApart a) ds) (a ∷ rest)
      by_alias (some d) at next g = absurd (err-ne-ok g)
      by_alias none at next g =
          let (same, apart) = next g in (same, (find_alias-none a ds at, apart))

  -- Addresses that are accepted are the ones that the option lists, blanks and empty ones left out;
  -- there are three of them; and where the data log has addresses, each of the three differs from each
  -- of those in spelling and resolves to no socket that it resolves to.
  pub parse_lease_addrs-AreApart :
      (spec : Str) (data_quorum : Option Str) (addrs : List Str)
      → parse_lease_addrs sockets resolve spec data_quorum ≡ ok addrs
      → (addrs ≡ listed spec)
        × (length addrs ≡ 3)
        × All (λ a. All (AreApart a) (data_addrs data_quorum)) addrs
  unfolding parse_lease_addrs
  parse_lease_addrs-AreApart spec data_quorum addrs h =
      if_cases (λ (x : Result LeaseError (List Str)). x ≡ ok addrs → Accepted addrs)
        (not (length (listed spec) == quorum_size)) _ _ (λ _ e. absurd (err-ne-ok e))
        (λ three. accepted data_quorum (ground arith)) h
    where
      Accepted : List Str → Type 0
      Accepted addrs =
          (addrs ≡ listed spec)
          × (length addrs ≡ 3)
          × All (λ a. All (AreApart a) (data_addrs data_quorum)) addrs

      accepted :
          (d : Option Str)
          → length (listed spec) ≡ 3
          → check_data sockets resolve (listed spec) d ≡ ok addrs
          → (addrs ≡ listed spec)
            × (length addrs ≡ 3)
            × All (λ a. All (AreApart a) (data_addrs d)) addrs
      accepted none three e =
          let same = sym (ok_injective e) in (same, ap length same ∙ three, no_data addrs)
      accepted (some d) three e =
          let (same, apart) = check_addrs-ok (listed spec) (listed spec) (listed d) addrs e in
          (
            same,
            ap length same ∙ three,
            subst (λ x. All (λ a. All (AreApart a) (listed d)) x) (sym same) apart,
          )
