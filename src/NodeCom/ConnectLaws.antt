-- ===== src/NodeCom/ConnectLaws.antt =====
-- src/NodeComClient.hpp with src/Config.hpp: which server a nonce goes to.
use cpp_burst_pool_node.Base.{
  ℕ, ◌<◌, ◌^◌, ◌≡◌, refl, ◌∙◌, ap, true, Option, none, some, List, [], map, All,
}
use cpp_burst_pool_node.Base.Dict.{nat_eq, lookup, Distinct, lookup-insert_all, last-Distinct}
use cpp_burst_pool_node.NodeCom.{SubmitNonceRequest, started, do_submit_nonce}
use cpp_burst_pool_node.Config.Load.{Values, pool_entries}
use cpp_burst_pool_node.Config.PoolLaws.{entry, last_addr, pool_entries-Distinct}
use cpp_burst_pool_node.NodeCom.Connect.{new_client}

same_option : (o : Option (List ℕ)) → (elim o [ none ↦ none | some v ↦ some v ]) ≡ o
same_option none = refl
same_option (some v) = refl

-- With no pool's number twice among the addresses, a new client that is given a nonce for a
-- recipient starts a call to the address with that number, and none when there is no such address;
-- and no call was started before.
pub do_submit_nonce-new_client :
    (recip : ℕ) (req : SubmitNonceRequest) (addrs : List (ℕ × List ℕ))
    → Distinct addrs
    → (do_submit_nonce recip req (new_client addrs)).calls ≡ started (lookup recip addrs) req
unfolding do_submit_nonce new_client lookup
do_submit_nonce-new_client recip req addrs d =
    ap (λ o. started o req)
      (lookup-insert_all recip addrs []
        ∙ last-Distinct recip addrs none d
        ∙ same_option (lookup recip addrs))

module _ (v : Values) (text : List ℕ → v.Value)
    (is_text : (t : List ℕ) → v.is_string (text t) ≡ true)
    (the_text : (t : List ℕ) → v.get_string (text t) ≡ t) where
  -- For any JSON library that has a string value for each text: when the configuration has, as an
  -- object, pools from their numbers, below 2 ^ 64, in decimal, to their addresses, it is read, and
  -- a client that is made from the map and given a nonce for a recipient starts one call, to the
  -- last address that the configuration has under the recipient's number, and no call when it has
  -- none.
  pub do_submit_nonce-pool_entries :
      (ps : List (ℕ × List ℕ)) (recip : ℕ) (req : SubmitNonceRequest)
      → All (λ p. p.0 < 2 ^ 64) ps
      → (m : List (ℕ × List ℕ)) × (pool_entries v (map (entry v text is_text the_text) ps) []
          ≡ some m)
        × ((do_submit_nonce recip req (new_client m)).calls ≡ started (last_addr recip ps none) req)
  do_submit_nonce-pool_entries ps recip req h =
      let (m, e, found, d) = pool_entries-Distinct v text is_text the_text ps recip h in
      (m, e, do_submit_nonce-new_client recip req m d ∙ ap (λ o. started o req) found)
