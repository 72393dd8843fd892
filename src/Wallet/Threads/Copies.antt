-- ===== src/Wallet/Threads/Copies.antt =====
-- src/Wallet.cpp: a copy of a buffer that is going on, over each step of the thread of
-- `refresh_blocks`.
use cpp_burst_pool_node.Base.{ℕ, ◌≡◌, refl, true, false, if◌then◌else◌, arith}
use cpp_burst_pool_node.Wallet.State.{Text, Wallet, read_buffer, get_cached_mining_info}
use cpp_burst_pool_node.Wallet.Threads.Reader.{Copy, same_buffer}
use cpp_burst_pool_node.Wallet.Threads.Refresher.{
  Refresher, asleep, published, is_asleep, is_assigning, is_published, assign_text, turn_index,
}
use cpp_burst_pool_node.Wallet.Threads.Invariant.{IsCopy}

-- The index and the two buffers stay.
pub record SameBuffers (w w' : Wallet) : Type 0 where
  pub index : w'.cache_idx ≡ w.cache_idx
  pub first : w'.mining_info_0 ≡ w.mining_info_0
  pub second : w'.mining_info_1 ≡ w.mining_info_1

same_buffer_self : (i : ℕ) → same_buffer i i ≡ true
same_buffer_self i = ground arith

read_same : (w w' : Wallet) (slot : ℕ) → SameBuffers w w' → read_buffer slot w' ≡ read_buffer slot w
unfolding read_buffer
read_same w w' slot same = ground (arith, same.first, same.second)

-- A copy that begins.
pub loads-IsCopy :
    (text : Text) (w : Wallet) (r : Refresher)
    → get_cached_mining_info w ≡ text
    → IsCopy text w r
        (record { slot = w.cache_idx; fell_asleep = false; slept = false; spoiled = false })
unfolding get_cached_mining_info
loads-IsCopy text w r e = record {
  clean = λ _. e;
  safe = λ _. refl;
  on_time = λ _ _. same_buffer_self w.cache_idx;
  dozing = λ k _. cc;
  apart = λ _ _. same_buffer_self w.cache_idx;
}

module _ {text : Text} {w w' : Wallet} {c : Copy} (same : SameBuffers w w') where
  pub keeps-IsCopy :
      (r r' : Refresher)
      → is_asleep r ≡ false
      → is_published r ≡ false
      → is_assigning r' ≡ false
      → IsCopy text w r c
      → IsCopy text w' r' c
  keeps-IsCopy r r' a p g h =
      ground (
        arith,
        read_same w w' c.slot same,
        same.index,
        h.clean,
        h.safe,
        h.on_time,
        h.dozing,
        h.apart,
      )

  pub sleeps-IsCopy :
      (r : Refresher) → IsCopy text w r c → IsCopy text w' asleep (record c { fell_asleep = true })
  sleeps-IsCopy r h =
      ground (
        arith,
        read_same w w' c.slot same,
        same.index,
        h.clean,
        h.safe,
        h.on_time,
        h.dozing,
        h.apart,
      )

module _ {text : Text} {w : Wallet} {c : Copy} where
  pub wakes-IsCopy :
      (r r' : Refresher)
      → is_published r ≡ false
      → is_assigning r' ≡ false
      → IsCopy text w r c
      → IsCopy text w r' (record c { slept = if c.fell_asleep then true else c.slept })
  wakes-IsCopy r r' p g h = ground (arith, h.clean, h.safe, h.on_time, h.dozing, h.apart)

  pub spoils-IsCopy :
      (r r' : Refresher)
      → is_asleep r ≡ false
      → is_published r ≡ false
      → IsCopy text w r c
      → IsCopy text w r'
          (record c { spoiled = if same_buffer c.slot w.cache_idx then c.spoiled else true })
  spoils-IsCopy r r' a p h = ground (arith, h.clean, h.safe, h.on_time, h.dozing, h.apart)

  pub assigns-IsCopy :
      (new : Text) (r r' : Refresher)
      → is_asleep r ≡ false
      → is_published r ≡ false
      → is_assigning r ≡ true
      → is_assigning r' ≡ false
      → IsCopy text w r c
      → IsCopy text (assign_text new w) r' c
  unfolding assign_text read_buffer
  assigns-IsCopy new r r' a p g g' h = ground (arith, h.clean, h.safe, h.on_time, h.dozing, h.apart)

  pub turns-IsCopy :
      (r : Refresher)
      → is_asleep r ≡ false
      → IsCopy text w r c
      → IsCopy text (turn_index w) published c
  unfolding turn_index read_buffer
  turns-IsCopy r a h = ground (arith, h.clean, h.safe, h.on_time, h.dozing, h.apart)
