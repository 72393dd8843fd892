-- ===== src/Wallet/Threads/Progress.antt =====
-- src/Wallet.cpp: how far the running `refresh_block` is, against the same call made at once.
use cpp_burst_pool_node.Base.{
  ℕ, zero, suc, ◌≡◌, refl, sym, ap, ◌∙◌, true, false, Option, none, some, List, [], ◌∷◌, ◌==◌, ltb,
  ◌>>=◌, Bool-cases, inl, inr, arith,
}
use cpp_burst_pool_node.Burstmath.Shabal.{Shabal}
use cpp_burst_pool_node.Burstmath.Scoop.{calculate_scoop}
use cpp_burst_pool_node.Wallet.State.{Text, Block, Wallet, get_current_block}
use cpp_burst_pool_node.Wallet.Info.{
  Json, MiningInfo, parse_mining_info, scan_gensig, adapted_mining_info,
}
use cpp_burst_pool_node.Wallet.Refresh.{
  Transfer, get_mining_info, publish, block_of, set_block, accept, refresh_block,
}
use cpp_burst_pool_node.Wallet.Threads.Reader.{copy_field}
use cpp_burst_pool_node.Wallet.Threads.Refresher.{
  Refresher, asleep, awake, has_read, is_higher, has_upgrade_lock, has_unique_lock, writing,
  assigning, assigned, published, assign_text, turn_index,
}

-- The first fields of a block copied to another.
abbrev pub copied : ℕ → Block → Block → Block
copied zero from to = to
copied (suc k) from to = copy_field k from (copied k from to)

pub copied_all : (from to : Block) → copied 4 from to ≡ from
unfolding copy_field
copied_all from to = refl

publish_lem : (text : Text) (w : Wallet) → publish text w ≡ turn_index (assign_text text w)
unfolding publish turn_index assign_text
publish_lem text w = elim (Bool-cases (w.cache_idx == 0)) [
  | inl e ↦ rw e (rw e refl)
  | inr e ↦ rw e (rw e refl)
]

-- The wallet once the transfer is in.
abbrev pub received : Transfer → Wallet → Wallet
received t w = (get_mining_info t w).0

abbrev pub with_block : Block → Wallet → Wallet
with_block b w = record w { current_block = b }

abbrev pub text_of : Wallet → MiningInfo → Text
text_of w info = adapted_mining_info info w.deadline_limit

pub received-block : (t : Transfer) (w : Wallet) → (received t w).current_block ≡ w.current_block
unfolding get_mining_info
received-block t w = ground arith

module _ (s : Shabal) (j : Json) where
  -- Whole refreshes one after the other, the last transfer first.
  unfoldable pub replay : List Transfer → Wallet → Option Wallet
  replay [] w = some w
  replay (t ∷ ts) w = do v ← replay ts w; refreshed ← refresh_block s j t v; some refreshed.0

  abbrev pub IsHigher : Wallet → Transfer → MiningInfo → Type 0
  IsHigher w t info =
      (parse_mining_info j (get_mining_info t w).1 ≡ some info)
      × (ltb w.current_block.height info.height ≡ true)

  abbrev pub IsNew : MiningInfo → Block → Type 0
  IsNew info new =
      (gensig : List ℕ) × (scoop : ℕ) × (scan_gensig 32 info.gensig_str ≡ some gensig)
      × (calculate_scoop s info.height gensig ≡ some scoop)
      × (new ≡ block_of info gensig scoop)

  -- `w` is the wallet as the refreshes that are done have left it; `now`, as it stands.
  abbrev pub Progress : Wallet → Wallet → Refresher → Type 0
  Progress w now asleep = now ≡ w
  Progress w now awake = now ≡ w
  Progress w now (has_read t info) =
      (now ≡ received t w) × (parse_mining_info j (get_mining_info t w).1 ≡ some info)
  Progress w now (is_higher t info) = (now ≡ received t w) × IsHigher w t info
  Progress w now (has_upgrade_lock t info) = (now ≡ received t w) × IsHigher w t info
  Progress w now (has_unique_lock t info) = (now ≡ received t w) × IsHigher w t info
  Progress w now (writing t info new k) =
      (now ≡ with_block (copied k new w.current_block) (received t w))
      × IsHigher w t info
      × IsNew info new
  Progress w now (assigning t info new) =
      (now ≡ with_block new (received t w)) × IsHigher w t info × IsNew info new
  Progress w now (assigned t info new) =
      (now ≡ assign_text (text_of (received t w) info) (with_block new (received t w)))
      × IsHigher w t info
      × IsNew info new
  Progress w now published = now ≡ w

  -- What a transfer that is no info, or that is one of no higher block, comes to.
  pub refresh_none :
      (t : Transfer) (w : Wallet)
      → parse_mining_info j (get_mining_info t w).1 ≡ none
      → refresh_block s j t w ≡ some (received t w, false)
  unfolding refresh_block accept
  refresh_none t w e = rw e refl

  pub refresh_old :
      (t : Transfer) (w : Wallet) (info : MiningInfo)
      → parse_mining_info j (get_mining_info t w).1 ≡ some info
      → ltb (received t w).current_block.height info.height ≡ false
      → refresh_block s j t w ≡ some (received t w, false)
  unfolding refresh_block accept get_current_block
  refresh_old t w info e old = rw (e, old) refl

  pub higher_received :
      (t : Transfer) (w : Wallet) (info : MiningInfo)
      → ltb (received t w).current_block.height info.height ≡ true
      → ltb w.current_block.height info.height ≡ true
  higher_received t w info h =
      ap (λ (b : Block). ltb b.height info.height) (sym (received-block t w)) ∙ h

  -- The steps of an info of a higher block are together the whole call.
  pub refresh_new :
      (t : Transfer) (w : Wallet) (info : MiningInfo) (new : Block)
      → IsHigher w t info
      → IsNew info new
      → refresh_block s j t w
        ≡ some (
          turn_index (assign_text (text_of (received t w) info) (with_block new (received t w))),
          true,
        )
  unfolding refresh_block accept get_current_block set_block
  refresh_new t w info new (e, h) (gensig, scoop, g, c, n) =
      let higher : ltb (received t w).current_block.height info.height ≡ true =
        ap (λ (b : Block). ltb b.height info.height) (received-block t w) ∙ h in
      rw (e, higher, g, c, n, publish_lem) refl
