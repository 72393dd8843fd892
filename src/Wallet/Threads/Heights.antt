-- ===== src/Wallet/Threads/Heights.antt =====
-- src/Wallet.cpp: refreshes one after the other never go back to a lower block.
use cpp_burst_pool_node.Base.{
  ◌≤◌, ◌≡◌, refl, sym, ap, ◌∙◌, ◌⊎◌, inl, inr, Bool, Option, none, some, List, [], ◌∷◌, ltb,
  >>=-eq-some, some-eq-some, Bool-cases, arith,
}
use mathlib.Core.Path.{subst}
use cpp_burst_pool_node.Burstmath.Shabal.{Shabal}
use cpp_burst_pool_node.Burstmath.Scoop.{calculate_scoop}
use cpp_burst_pool_node.Wallet.State.{
  Text, Block, Wallet, get_current_block, read_buffer, get_cached_mining_info,
}
use cpp_burst_pool_node.Wallet.Info.{Json, MiningInfo, scan_gensig, adapted_mining_info}
use cpp_burst_pool_node.Wallet.Refresh.{
  Transfer, get_mining_info, publish, set_block, accept, refresh_block,
}
use cpp_burst_pool_node.Wallet.RefreshLaws.{refresh_block-Outcome}
use cpp_burst_pool_node.Wallet.Threads.Progress.{received, replay}
use cpp_burst_pool_node.Wallet.Threads.Invariant.{Earlier, same, and_one}

received_lem :
    (t : Transfer) (w : Wallet)
    → ((received t w).current_block ≡ w.current_block)
      × ((received t w).deadline_limit ≡ w.deadline_limit)
      × (get_cached_mining_info (received t w) ≡ get_cached_mining_info w)
unfolding get_mining_info get_cached_mining_info read_buffer
received_lem t w = (ground arith, ground arith, ground arith)

publish-limit : (text : Text) (w : Wallet) → (publish text w).deadline_limit ≡ w.deadline_limit
unfolding publish
publish-limit text w = ground arith

module _ (s : Shabal) (j : Json) where
  set_block-limit :
      (info : MiningInfo) (w w' : Wallet)
      → set_block s info w ≡ some w'
      → w'.deadline_limit ≡ w.deadline_limit
  unfolding set_block
  set_block-limit info w w' e =
      let (gensig, g, e1) = >>=-eq-some (scan_gensig 32 info.gensig_str) _ e in
      let (scoop, c, e2) = >>=-eq-some (calculate_scoop s info.height gensig) _ e1 in
      ap (λ (v : Wallet). v.deadline_limit) (sym (some-eq-some e2)) ∙ publish-limit _ _

  accept-limit :
      (w w' : Wallet) (o : Option MiningInfo) (b : Bool)
      → accept s w o ≡ some (w', b)
      → w'.deadline_limit ≡ w.deadline_limit
  unfolding accept
  accept-limit w w' none b e = ground arith
  accept-limit w w' (some info) b e =
      elim (Bool-cases (ltb (get_current_block w).height info.height)) [
        | inr old ↦ ground arith
        | inl new ↦
            let (v, eq, last) = >>=-eq-some (set_block s info w) _ (rw new at e) in
            ap (λ (p : Wallet × Bool). p.0.deadline_limit) (sym (some-eq-some last))
            ∙ set_block-limit info w v eq
      ]

  last_replayed :
      (t : Transfer) (ts : List Transfer) (w0 w : Wallet)
      → replay s j (t ∷ ts) w0 ≡ some w
      → (v : Wallet) × (b : Bool) × (replay s j ts w0 ≡ some v)
        × (refresh_block s j t v ≡ some (w, b))
  unfolding replay
  last_replayed t ts w0 w e =
      let (v, before, e1) = >>=-eq-some (replay s j ts w0) _ e in
      let ((w', b), last, e2) = >>=-eq-some (refresh_block s j t v) _ e1 in
      (v, b, before, last ∙ ap (λ (u : Wallet). some (u, b)) (some-eq-some e2))

  -- The text that is served is that of the current block, or still the one served in `w0`.
  pub record IsServed (w0 w : Wallet) : Type 0 where
    pub limit : w.deadline_limit ≡ w0.deadline_limit
    pub served :
        ((get_cached_mining_info w ≡ get_cached_mining_info w0)
          × (w.current_block.height ≡ w0.current_block.height))
        ⊎ ((info : MiningInfo) × (get_cached_mining_info w
              ≡ adapted_mining_info info w0.deadline_limit)
            × (w.current_block.height ≡ info.height))

  received-IsServed :
      (t : Transfer) (w0 w : Wallet)
      → IsServed w0 w
      → IsServed w0 (received t w) × (w.current_block.height ≤ (received t w).current_block.height)
  received-IsServed t w0 w h =
      let (block, limit, served) = received_lem t w in
      let height = ap (λ (b : Block). b.height) block in
      (
        record {
          limit = limit ∙ h.limit;
          served = elim h.served [
            | inl (a, b) ↦ inl (served ∙ a, height ∙ b)
            | inr (info, a, b) ↦ inr (info, served ∙ a, height ∙ b)
          ];
        },
        omega arith,
      )

  -- A refresh goes up, or leaves the block and the text as they are.
  refresh-IsServed :
      (t : Transfer) (w0 w w' : Wallet) (b : Bool)
      → refresh_block s j t w ≡ some (w', b)
      → IsServed w0 w
      → IsServed w0 w' × (w.current_block.height ≤ w'.current_block.height)
  unfolding refresh_block
  refresh-IsServed t w0 w w' b e h =
      let (kept, up) = received-IsServed t w0 w h in
      elim (refresh_block-Outcome s j t w w' b e) [
        | inl (_, unchanged, _) ↦
            subst
              (λ (v : Wallet). IsServed w0 v × (w.current_block.height ≤ v.current_block.height))
              (sym unchanged) (kept, up)
        | inr (_, info, _, done) ↦ (
          record {
            limit = accept-limit (received t w) w' _ b e ∙ kept.limit;
            served =
                inr
                  (info, done.served ∙ ap (adapted_mining_info info) kept.limit, done.block_height);
          },
          omega (arith, done.newer, done.block_height),
        )
      ]

  pub replay-IsServed :
      (ts : List Transfer) (w0 w : Wallet) → replay s j ts w0 ≡ some w → IsServed w0 w
  unfolding replay
  replay-IsServed [] w0 w e =
      subst (IsServed w0) (some-eq-some e) (record { limit = refl; served = inl (refl, refl) })
  replay-IsServed (t ∷ ts) w0 w e =
      let (v, b, before, last) = last_replayed t ts w0 w e in
      (refresh-IsServed t w0 v w b last (replay-IsServed ts w0 v before)).0

  pub Earlier-height :
      (w0 : Wallet) {us ts : List Transfer} (v w : Wallet)
      → Earlier us ts
      → replay s j us w0 ≡ some v
      → replay s j ts w0 ≡ some w
      → v.current_block.height ≤ w.current_block.height
  Earlier-height w0 v w same e e' =
      omega (arith, ap (λ (b : Wallet). b.current_block.height) (some-eq-some (sym e ∙ e')))
  Earlier-height w0 v w (and_one {ts = ts} {t = t} earlier) e e' =
      let (u, b, before, last) = last_replayed t ts w0 w e' in
      let (_, up) = refresh-IsServed t w0 u w b last (replay-IsServed ts w0 u before) in
      omega (arith, Earlier-height w0 v u earlier e before)
