-- ===== src/Wallet/MinersLaws.antt =====
-- src/Wallet.cpp: what `cache_miners` makes of the map and of the shared rounds.
use cpp_burst_pool_node.Base.{
  ℕ, zero, suc, ◌<◌, ◌≤◌, ◌≡◌, ◌≢◌, refl, sym, ap, ◌∙◌, inl, inr, false, Option, none, some, List,
  [], ◌∷◌, ◌++◌, length, length-append, length-set, get_elem?, get_elem?-set_self, get_elem?-set_ne,
  get_elem?-append_length, set, ◌==◌, if◌then◌else◌, ◌>>=◌, Bool-cases, ==_iff, arith,
}
use cpp_burst_pool_node.Base.Dict.{nat_eq, lookup, insert, lookup-insert}
use cpp_burst_pool_node.Wallet.State.{MinerRound, Wallet}
use cpp_burst_pool_node.Wallet.Miners.{fresh_round, reset_round, cache_rows, cache_miners}

abbrev Miners : Type 0
Miners = List (ℕ × ℕ)

-- Every miner of the map has a round in the store, and no two miners share one.
pub record IsSound (miners : Miners) (rounds : List MinerRound) : Type 0 where
  pub in_range : (a p : ℕ) → lookup a miners ≡ some p → p < length rounds
  pub apart : (a b p : ℕ) → lookup a miners ≡ some p → lookup b miners ≡ some p → a ≡ b

-- The round of an account.
abbrev pub round_of : Miners → List MinerRound → ℕ → Option MinerRound
round_of miners rounds a = lookup a miners >>= get_elem? rounds

-- The round that the rows ask for: that of the last row for the account.
abbrev pub latest : ℕ → List (ℕ × ℕ) → ℕ → Option MinerRound → Option MinerRound
latest height [] a found = found
latest height ((x, r) ∷ rows) a found =
    latest height rows a (if x == a then some (fresh_round height r) else found)

get_elem?-append_left {ℓ} :
    {A : Type ℓ} (xs ys : List A) (i : ℕ) → i < length xs → get_elem? (xs ++ ys) i ≡ get_elem? xs i
get_elem?-append_left [] ys i h = elim h [ ]
get_elem?-append_left (x ∷ xs) ys zero h = refl
get_elem?-append_left (x ∷ xs) ys (suc i) h = get_elem?-append_left xs ys i (omega arith)

-- What resetting one round does to the store.
record Reset (height recip_id : ℕ) (rounds : List MinerRound) (rounds' : List MinerRound) (p : ℕ)
    : Type 0 where
  longer : length rounds ≤ length rounds'
  inside : p < length rounds'
  made : get_elem? rounds' p ≡ some (fresh_round height recip_id)
  others : (q : ℕ) → q ≢ p → q < length rounds → get_elem? rounds' q ≡ get_elem? rounds q

reset_round-Reset :
    (height recip_id : ℕ) (o : Option ℕ) (rounds : List MinerRound)
    → ((p : ℕ) → o ≡ some p → p < length rounds)
    → Reset height recip_id rounds
        (reset_round height recip_id o rounds).0
        (reset_round height recip_id o rounds).1
unfolding reset_round
reset_round-Reset height recip_id none rounds h = record {
  longer = omega (arith, length-append rounds (fresh_round height recip_id ∷ []));
  inside = omega (arith, length-append rounds (fresh_round height recip_id ∷ []));
  made = get_elem?-append_length rounds [] _ (length rounds) refl;
  others = λ q ne lt. get_elem?-append_left rounds _ q lt;
}
reset_round-Reset height recip_id (some p) rounds h = record {
  longer = omega (arith, length-set rounds p (fresh_round height recip_id));
  inside = omega (arith, length-set rounds p (fresh_round height recip_id), h p refl);
  made = get_elem?-set_self rounds p _ (h p refl);
  others = λ q ne lt. get_elem?-set_ne rounds _ (λ e. ne (sym e));
}

-- A fresh place is no place of the map; the miner's own place is nobody else's.
reset_place :
    (height recip_id a b : ℕ) (miners : Miners) (rounds : List MinerRound) (o : Option ℕ)
    → IsSound miners rounds
    → lookup a miners ≡ o
    → lookup b miners ≡ some (reset_round height recip_id o rounds).1
    → a ≡ b
unfolding reset_round
reset_place height recip_id a b miners rounds none v e h =
    absurd (omega (arith, v.in_range b (length rounds) h))
reset_place height recip_id a b miners rounds (some p) v e h = v.apart a b p e h

module _ (height x r : ℕ) (new miners : Miners) (rounds : List MinerRound)
    (v : IsSound miners rounds)
    (known : (a p : ℕ) → lookup a new ≡ some p → lookup a miners ≡ some p) where
  abbrev rounds' : List MinerRound
  rounds' = (reset_round height r (lookup x miners) rounds).0

  abbrev place : ℕ
  place = (reset_round height r (lookup x miners) rounds).1

  reset : Reset height r rounds rounds' place
  reset = reset_round-Reset height r (lookup x miners) rounds (v.in_range x)

  abbrev new' : Miners
  new' = insert x place new

  row_in_range : (a p : ℕ) → lookup a new' ≡ some p → p < length rounds'
  row_in_range a p h = elim (Bool-cases (x == a)) [
    | inl e ↦ ground (arith, lookup-insert x a place new, reset.inside)
    | inr e ↦ ground (arith, lookup-insert x a place new, reset.longer, known a p, v.in_range a p)
  ]

  -- The row's place is nobody else's.
  row_place : (a : ℕ) → lookup a new ≡ some place → x ≡ a
  row_place a h = reset_place height r x a miners rounds (lookup x miners) v refl (known a place h)

  row_apart : (a b p : ℕ) → lookup a new' ≡ some p → lookup b new' ≡ some p → a ≡ b
  row_apart a b p ha hb = ground (
    arith,
    lookup-insert x a place new,
    lookup-insert x b place new,
    row_place a,
    row_place b,
    known a p,
    known b p,
    v.apart a b p,
  )

  -- After a row the map built so far is sound over the new store.
  row-IsSound : IsSound new' rounds'
  row-IsSound = record { in_range = row_in_range; apart = row_apart }

  -- The row sets the round of its account, and leaves all others of the new map as they are.
  row-round_of :
      (a : ℕ)
      → round_of new' rounds' a
        ≡ (if x == a then some (fresh_round height r) else round_of new rounds a)
  row-round_of a = elim (Bool-cases (x == a)) [
    | inl e ↦ rw (lookup-insert x a place new, e) reset.made
    | inr e ↦ rw (lookup-insert x a place new, e) (kept e (lookup a new) refl)
  ]
    where
      kept :
          (x == a) ≡ false
          → (o : Option ℕ) → lookup a new ≡ o
          → (o >>= get_elem? rounds') ≡ (o >>= get_elem? rounds)
      kept e none h = refl
      kept e (some q) h =
          reset.others q (λ same. ground (arith, row_place a (h ∙ ap some same)))
            (v.in_range a q (known a q h))

-- The wallet's map and store after some rows.
pub record Cached (height : ℕ) (rows : List (ℕ × ℕ)) (before : ℕ → Option MinerRound) (w : Wallet)
    : Type 0 where
  pub sound : IsSound w.miners w.rounds
  pub as_asked : (a : ℕ) → round_of w.miners w.rounds a ≡ latest height rows a (before a)

-- One more row in front.
row-Cached :
    (height x r : ℕ) (rows : List (ℕ × ℕ)) (new : Miners) (w : Wallet)
    (v : IsSound w.miners w.rounds)
    (known : (a p : ℕ) → lookup a new ≡ some p → lookup a w.miners ≡ some p)
    (before : ℕ → Option MinerRound) {w' : Wallet}
    → ((a : ℕ) → round_of new w.rounds a ≡ before a)
    → Cached height rows
        (round_of
          (new' height x r new w.miners w.rounds v known)
          (rounds' height x r new w.miners w.rounds v known))
        w'
    → Cached height ((x, r) ∷ rows) before w'
row-Cached height x r rows new w v known before e rest = record {
  sound = rest.sound;
  as_asked = λ a.
      rest.as_asked a
      ∙ ap (latest height rows a) (
          row-round_of height x r new w.miners w.rounds v known a
          ∙ ap (λ (o : Option MinerRound). if x == a then some (fresh_round height r) else o)
              (e a));
}

cache_rows-Cached :
    (height : ℕ) (rows : List (ℕ × ℕ)) (w : Wallet)
    → IsSound w.miners w.rounds
    → Cached height rows (round_of w.miners w.rounds) (cache_rows height w.miners rows w)
unfolding cache_rows
cache_rows-Cached height [] w v = record { sound = v; as_asked = λ a. refl }
cache_rows-Cached height ((x, r) ∷ rows) w v =
    row-Cached height x r rows w.miners w v (λ b p h. h) (round_of w.miners w.rounds) (λ a. refl)
      (cache_rows-Cached height rows _
        (row-IsSound height x r w.miners w.miners w.rounds v (λ b p h. h)))

no_miners : (miners : Miners) (a p : ℕ) → lookup {V = ℕ} a [] ≡ some p → lookup a miners ≡ some p
unfolding lookup
no_miners miners a p h = cc

no_rounds : (rounds : List MinerRound) (a : ℕ) → round_of [] rounds a ≡ none
unfolding lookup
no_rounds rounds a = refl

-- From a sound wallet, for at least one row: the accounts of the map are those of the rows, each
-- with a fresh round at the given height for the recipient of its last row; no two accounts share
-- a round.
pub cache_miners-Cached :
    (height x r : ℕ) (rows : List (ℕ × ℕ)) (w : Wallet)
    → IsSound w.miners w.rounds
    → Cached height ((x, r) ∷ rows) (λ a. none) (cache_miners height ((x, r) ∷ rows) w)
unfolding cache_miners cache_rows
cache_miners-Cached height x r rows w v =
    row-Cached height x r rows [] w v (no_miners w.miners) (λ a. none) (no_rounds w.rounds)
      (cache_rows-Cached height rows _
        (row-IsSound height x r [] w.miners w.rounds v (no_miners w.miners)))

-- A write to the round of one miner is seen by that miner alone.
module _ {miners : Miners} {rounds : List MinerRound} (v : IsSound miners rounds) where
  pub set-IsSound : (p : ℕ) (r : MinerRound) → IsSound miners (set rounds p r)
  set-IsSound p r = record {
    in_range = λ a q h. omega (arith, v.in_range a q h, length-set rounds p r);
    apart = v.apart;
  }

  pub round_of-set :
      (x p : ℕ) (r : MinerRound)
      → lookup x miners ≡ some p
      → (a : ℕ)
      → round_of miners (set rounds p r) a ≡ (if x == a then some r else round_of miners rounds a)
  round_of-set x p r h a = elim (Bool-cases (x == a)) [
    | inl e ↦
        let same : x ≡ a = (==_iff x a).0 e in
        rw (e, ← same, h) (get_elem?-set_self rounds p r (v.in_range x p h))
    | inr e ↦ rw e (kept e (lookup a miners) refl)
  ]
    where
      kept :
          (x == a) ≡ false
          → (o : Option ℕ) → lookup a miners ≡ o
          → (o >>= get_elem? (set rounds p r)) ≡ (o >>= get_elem? rounds)
      kept e none h' = refl
      kept e (some q) h' =
          get_elem?-set_ne rounds r
            (λ same. ground (arith, v.apart x a p h (h' ∙ ap some (sym same))))
