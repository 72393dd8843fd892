-- ===== src/Wallet/RefreshLaws.antt =====
-- src/Wallet.cpp: what `refresh_block` changes, branch by branch.
use mathlib.Core.Path.{subst}
use cpp_burst_pool_node.Base.{
  ℕ, ◌<◌, ◌≤◌, ◌≡◌, refl, sym, ap, ◌∙◌, inl, inr, ◌⊎◌, Bool, true, false, Option, none, some, List,
  ltb, ◌>>=◌, >>=-eq-some, some-eq-some, ltb→lt, Bool-cases, arith,
}
use cpp_burst_pool_node.Burstmath.Shabal.{Shabal}
use cpp_burst_pool_node.Burstmath.Scoop.{calculate_scoop, scoop_number, calculate_scoop_lem}
use cpp_burst_pool_node.Wallet.State.{
  Wallet, get_current_block, read_buffer, get_cached_mining_info,
}
use cpp_burst_pool_node.Wallet.Info.{
  Json, MiningInfo, parse_mining_info, scan_gensig, adapted_mining_info,
}
use cpp_burst_pool_node.Wallet.Refresh.{
  Transfer, get_mining_info, publish, block_of, set_block, accept, refresh_block,
}
use cpp_burst_pool_node.Wallet.InfoLaws.{length-scan_gensig}

module _ (s : Shabal) (j : Json) where
  -- What a refresh that returns `true` has done with the info.
  pub record Refreshed (info : MiningInfo) (w w' : Wallet) : Type 0 where
    pub newer : w.current_block.height < info.height
    pub block_height : w'.current_block.height ≡ info.height
    pub block_target : w'.current_block.base_target ≡ info.base_target
    pub block_gensig : scan_gensig 32 info.gensig_str ≡ some w'.current_block.gensig
    pub block_scoop : w'.current_block.scoop ≡ scoop_number s info.height w'.current_block.gensig
    pub scoop_lt : w'.current_block.scoop < 4096
    pub served : get_cached_mining_info w' ≡ adapted_mining_info info w.deadline_limit
    pub old_buffer : read_buffer w.cache_idx w' ≡ get_cached_mining_info w
    pub same_miners : w'.miners ≡ w.miners
    pub same_rounds : w'.rounds ≡ w.rounds

  publish-Refreshed :
      (info : MiningInfo) (w : Wallet) (gensig : List ℕ) (scoop : ℕ)
      → w.current_block.height < info.height
      → scan_gensig 32 info.gensig_str ≡ some gensig
      → calculate_scoop s info.height gensig ≡ some scoop
      → Refreshed info w (
          publish
            (adapted_mining_info info w.deadline_limit)
            (record w { current_block = block_of info gensig scoop }))
  unfolding publish block_of get_cached_mining_info
  publish-Refreshed info w gensig scoop h g c = record {
    newer = h;
    block_height = ground arith;
    block_target = ground arith;
    block_gensig = ground arith;
    block_scoop = ground (arith, number);
    scoop_lt = ground (arith, number, bound);
    served = ground arith;
    old_buffer = ground arith;
    same_miners = ground arith;
    same_rounds = ground arith;
  }
    where
      known :
          (calculate_scoop s info.height gensig ≡ some (scoop_number s info.height gensig))
          × (scoop_number s info.height gensig < 4096)
      known =
          calculate_scoop_lem s info.height gensig (length-scan_gensig 32 info.gensig_str gensig g)

      number : scoop ≡ scoop_number s info.height gensig
      number = some-eq-some (sym c ∙ known.0)

      bound : scoop_number s info.height gensig < 4096
      bound = known.1

  set_block-Refreshed :
      (info : MiningInfo) (w w' : Wallet)
      → w.current_block.height < info.height
      → set_block s info w ≡ some w'
      → Refreshed info w w'
  unfolding set_block
  set_block-Refreshed info w w' h e =
      let (gensig, g, e1) = >>=-eq-some (scan_gensig 32 info.gensig_str) _ e in
      let (scoop, c, e2) = >>=-eq-some (calculate_scoop s info.height gensig) _ e1 in
      subst (Refreshed info w) (some-eq-some e2) (publish-Refreshed info w gensig scoop h g c)

  -- No info, or that of a block no higher than the current one.
  abbrev pub IsOld : Wallet → Option MiningInfo → Type 0
  IsOld w none = Unit
  IsOld w (some info) = info.height ≤ w.current_block.height

  -- What `refresh_block` has done, by what it returns.
  abbrev pub Outcome : Wallet → Option MiningInfo → Wallet → Bool → Type 0
  Outcome w read w' b =
      ((b ≡ false) × (w' ≡ w) × IsOld w read)
      ⊎ ((b ≡ true) × (info : MiningInfo) × (read ≡ some info) × Refreshed info w w')

  abbrev updated : Wallet → Option (Wallet × Bool)
  updated v = some (v, true)

  newer-Outcome :
      (w w' : Wallet) (info : MiningInfo) (b : Bool)
      → w.current_block.height < info.height
      → (set_block s info w >>= updated) ≡ some (w', b)
      → (b ≡ true) × Refreshed info w w'
  newer-Outcome w w' info b h e =
      let (v, eq, last) = >>=-eq-some (set_block s info w) updated e in
      let both = some-eq-some last in
      (
        ap (λ (p : Wallet × Bool). p.1) (sym both),
        set_block-Refreshed info w w' h (eq ∙ ap (λ (p : Wallet × Bool). some p.0) both),
      )

  accept-Outcome :
      (w w' : Wallet) (o : Option MiningInfo) (b : Bool)
      → accept s w o ≡ some (w', b)
      → Outcome w o w' b
  unfolding accept get_current_block
  accept-Outcome w w' none b e = inl (ground arith, ground arith, tt)
  accept-Outcome w w' (some info) b e = elim (Bool-cases (ltb w.current_block.height info.height)) [
    | inr old ↦ inl (ground arith, ground arith, ground arith)
    | inl new ↦
        let r = newer-Outcome w w' info b (ltb→lt _ _ new) (rw new at e) in
        inr (r.0, info, refl, r.1)
  ]

  -- Whenever the model has a result, it is one of the two.
  pub refresh_block-Outcome :
      (t : Transfer) (w w' : Wallet) (b : Bool)
      → refresh_block s j t w ≡ some (w', b)
      → Outcome (get_mining_info t w).0 (parse_mining_info j (get_mining_info t w).1) w' b
  unfolding refresh_block
  refresh_block-Outcome t w w' b e = accept-Outcome (get_mining_info t w).0 w' _ b e

  get_mining_info-miners :
      (t : Transfer) (w : Wallet)
      → ((get_mining_info t w).0.miners ≡ w.miners) × ((get_mining_info t w).0.rounds ≡ w.rounds)
  unfolding get_mining_info
  get_mining_info-miners t w = ground arith

  -- A refresh leaves the map and the rounds of the miners as they are.
  pub refresh_block-miners :
      (t : Transfer) (w w' : Wallet) (b : Bool)
      → refresh_block s j t w ≡ some (w', b)
      → (w'.miners ≡ w.miners) × (w'.rounds ≡ w.rounds)
  refresh_block-miners t w w' b e =
      let (m, r) = get_mining_info-miners t w in
      elim (refresh_block-Outcome t w w' b e) [
        | inl (_, same, _) ↦
            (ap (λ (v : Wallet). v.miners) same ∙ m, ap (λ (v : Wallet). v.rounds) same ∙ r)
        | inr (_, _, _, done) ↦ (done.same_miners ∙ m, done.same_rounds ∙ r)
      ]

  -- The signature of the info, if there is one, is of 32 bytes in hexadecimal digits.
  abbrev pub HasSignature : Option MiningInfo → Type 0
  HasSignature none = Unit
  HasSignature (some info) = (bytes : List ℕ) × (scan_gensig 32 info.gensig_str ≡ some bytes)

  accept-returns :
      (w : Wallet) (o : Option MiningInfo)
      → HasSignature o
      → (w' : Wallet) × (b : Bool) × (accept s w o ≡ some (w', b))
  unfolding accept set_block
  accept-returns w none h = (w, false, refl)
  accept-returns w (some info) (bytes, g) =
      elim (Bool-cases (ltb (get_current_block w).height info.height)) [
        | inr old ↦ (w, false, rw old)
        | inl new ↦
            let (c, _) =
              calculate_scoop_lem s info.height bytes
                (length-scan_gensig 32 info.gensig_str bytes g) in
            let v = publish (adapted_mining_info info w.deadline_limit) (record w {
              current_block = block_of info bytes (scoop_number s info.height bytes);
            }) in
            (v, true, rw (new, g, c))
      ]

  -- Whatever the transfer brings, if the signature of the info in it, should there be an info, is of
  -- 32 bytes in hexadecimal digits: `refresh_block` returns `false`, for no info or one of no higher
  -- block, and has changed nothing but the curl buffer; or it returns `true` and has set the block
  -- of a higher info, with its scoop, and serves its text, the text served before being intact.
  pub refresh_block-returns :
      (t : Transfer) (w : Wallet)
      → HasSignature (parse_mining_info j (get_mining_info t w).1)
      → (w' : Wallet) × (b : Bool) × (refresh_block s j t w ≡ some (w', b))
        × Outcome (get_mining_info t w).0 (parse_mining_info j (get_mining_info t w).1) w' b
  unfolding refresh_block
  refresh_block-returns t w h =
      let (w', b, e) = accept-returns (get_mining_info t w).0 _ h in
      (w', b, e, accept-Outcome (get_mining_info t w).0 w' _ b e)
