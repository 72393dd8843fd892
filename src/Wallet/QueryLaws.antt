-- ===== src/Wallet/QueryLaws.antt =====
-- src/Wallet.hpp: the query of the constructor, and its tries to connect.
use mathlib.Core.List.{append_assoc}
use cpp_burst_pool_node.Base.{
  ℕ, zero, suc, ◌+◌, ◌≤◌, ◌<◌, ◌≡◌, refl, sym, ap, ◌∙◌, inl, inr, Option, none, some, List, [], ◌∷◌,
  ◌++◌, ◌==◌, codes, length-append, set-append_length, Bool-cases, false, arith,
}
use cpp_burst_pool_node.Base.Decimal.{to_string}
use cpp_burst_pool_node.Wallet.State.{Text}
use cpp_burst_pool_node.Wallet.Construct.{
  select, pool_item, add_pools, close_list, recip_query, after_try, connect_loop,
}

unfoldable item : ℕ → Text
item pool_id = codes "CAST(" ++ to_string pool_id ++ codes " AS SIGNED)"

-- The pools with commas between them.
unfoldable listed : ℕ → List ℕ → Text
listed pool_id [] = item pool_id
listed pool_id (next ∷ rest) = item pool_id ++ 44 ∷ listed next rest

item-comma : (pool_id : ℕ) → pool_item pool_id ≡ item pool_id ++ 44 ∷ []
unfolding item pool_item
item-comma pool_id =
    ap (λ (t : Text). codes "CAST(" ++ t)
      (sym (append_assoc (to_string pool_id) (codes " AS SIGNED)") (44 ∷ [])))

add_pools-listed :
    (query : Text) (pool_id : ℕ) (rest : List ℕ)
    → add_pools query (pool_id ∷ rest) ≡ (query ++ listed pool_id rest) ++ 44 ∷ []
unfolding add_pools listed
add_pools-listed query pool_id [] =
    ap (◌++◌ query) (item-comma pool_id) ∙ sym (append_assoc query (item pool_id) (44 ∷ []))
add_pools-listed query pool_id (next ∷ rest) =
    add_pools-listed (query ++ pool_item pool_id) next rest
    ∙ ap (λ (t : Text). t ++ 44 ∷ [])
        (ap (λ (t : Text). (query ++ t) ++ listed next rest) (item-comma pool_id)
          ∙ append_assoc query (item pool_id ++ 44 ∷ []) (listed next rest)
          ∙ ap (◌++◌ query) (append_assoc (item pool_id) (44 ∷ []) (listed next rest)))

close_list_lem :
    (text : Text) (c : ℕ) → close_list (text ++ c ∷ []) ≡ text ++ codes ") AND latest = 1"
unfolding close_list
close_list_lem text c =
    ap (λ (t : Text). t ++ codes " AND latest = 1")
      (set-append_length text [] c 41 _ (omega (arith, length-append text (c ∷ []))))
    ∙ append_assoc text (41 ∷ []) (codes " AND latest = 1")

-- For at least one pool, the query is that for the list of all the pools' numbers, in order, with
-- commas between them.
recip_query_lem :
    (pool_id : ℕ) (rest : List ℕ)
    → recip_query (pool_id ∷ rest) ≡ (select ++ listed pool_id rest) ++ codes ") AND latest = 1"
unfolding recip_query
recip_query_lem pool_id rest =
    ap close_list (add_pools-listed select pool_id rest)
    ∙ close_list_lem (select ++ listed pool_id rest) 44

connect_loop-first_from {ℓ} :
    {A : Type ℓ} (connect : ℕ → Option A) (fuel tries i : ℕ) (con : A)
    → fuel + tries ≡ 10
    → tries ≤ i
    → i < 10
    → ((k : ℕ) → k < i → connect k ≡ none)
    → connect i ≡ some con
    → connect_loop connect fuel tries ≡ some con
unfolding connect_loop after_try
connect_loop-first_from connect zero tries i con e le lt fails h = absurd (omega arith)
connect_loop-first_from connect (suc fuel) tries i con e le lt fails h =
    elim (Bool-cases (i == tries)) [
      | inl here ↦ let same : i ≡ tries = ground arith in rw (← same, h)
      | inr later ↦
          let failed : connect tries ≡ none = fails tries (ground arith) in
          let more : (tries + 1 == 10) ≡ false = ground arith in
          rw (failed, more)
            (connect_loop-first_from connect fuel (tries + 1) i con (omega arith) (ground arith) lt
              fails h)
    ]

-- The constructor takes the first connection that one of its ten tries gives, whichever of them it
-- is, if those before it have failed.
connect_loop-first {ℓ} :
    {A : Type ℓ} (connect : ℕ → Option A) (i : ℕ) (con : A)
    → i < 10
    → ((k : ℕ) → k < i → connect k ≡ none)
    → connect i ≡ some con
    → connect_loop connect 10 0 ≡ some con
connect_loop-first connect i con lt fails h =
    connect_loop-first_from connect 10 0 i con refl (omega arith) lt fails h
