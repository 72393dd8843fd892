-- ===== src/Wallet/Threads/Readers.antt =====
-- src/Wallet.cpp: the threads that read, over each step of the thread of `refresh_blocks`.
use cpp_burst_pool_node.Base.{
  ◌≡◌, refl, sym, ap, ◌∙◌, ◌⊎◌, inl, inr, List, [], ◌∷◌, map, All, arith,
}
use cpp_burst_pool_node.Base.Takes.{total}
use cpp_burst_pool_node.Burstmath.Shabal.{Shabal}
use cpp_burst_pool_node.Wallet.State.{Text, Block, Wallet}
use cpp_burst_pool_node.Wallet.Info.{Json}
use cpp_burst_pool_node.Wallet.Refresh.{Transfer}
use cpp_burst_pool_node.Wallet.Threads.Reader.{
  Copy, Reader, idle, copying_block, copying_text, searching, Read, Thread, on_copy,
}
use cpp_burst_pool_node.Wallet.Threads.Refresher.{Refresher}
use cpp_burst_pool_node.Wallet.Threads.Progress.{copied}
use cpp_burst_pool_node.Wallet.Threads.Invariant.{
  and_one, IsCopy, holds_upgrade, holds, After, IsLog, IsReader, IsThread,
}

abbrev pub on_thread : (Copy → Copy) → Thread → Thread
on_thread f th = record th { reader = on_copy f th.reader }

on_copy_same : (r : Reader) → on_copy (λ c. c) r ≡ r
on_copy_same idle = refl
on_copy_same (copying_block k b) = refl
on_copy_same (copying_text c) = refl
on_copy_same (searching a) = refl

holds-on_copy : (f : Copy → Copy) (r : Reader) → holds_upgrade (on_copy f r) ≡ holds_upgrade r
holds-on_copy f idle = refl
holds-on_copy f (copying_block k b) = refl
holds-on_copy f (copying_text c) = refl
holds-on_copy f (searching a) = refl

pub total-on_thread :
    (f : Copy → Copy) (ths : List Thread) → total holds (map (on_thread f) ths) ≡ total holds ths
total-on_thread f [] = refl
total-on_thread f (th ∷ ths) = omega (arith, holds-on_copy f th.reader, total-on_thread f ths)

pub map_same : (ths : List Thread) → map (on_thread (λ c. c)) ths ≡ ths
map_same [] = refl
map_same (th ∷ ths) =
    ap (λ (r : Reader). record th { reader = r } ∷ map (on_thread (λ c. c)) ths)
      (on_copy_same th.reader)
    ∙ ap (◌∷◌ th) (map_same ths)

module _ (s : Shabal) (j : Json) (w0 : Wallet) where
  After-one :
      (t : Transfer) {ts us : List Transfer} {w : Wallet}
      → After s j w0 ts us w
      → After s j w0 (t ∷ ts) us w
  After-one t h = record { earlier = and_one h.earlier; replayed = h.replayed }

  IsLog-one :
      (t : Transfer) (ts : List Transfer) (log : List Read)
      → IsLog s j w0 ts log
      → IsLog s j w0 (t ∷ ts) log
  IsLog-one t ts [] h = tt
  IsLog-one t ts (r ∷ log) (us, w, a, h, l) = (us, w, After-one t a, h, l)

  -- What a step of the refresh does to each copy, and to the block for the threads that read it.
  module _ (f : Copy → Copy) (now now' : Wallet) (r r' : Refresher)
      (copies : (text : Text) (c : Copy) → IsCopy text now r c → IsCopy text now' r' (f c)) where
    steps-IsReader :
        (ts : List Transfer) (w : Wallet) (reader : Reader) (log : List Read)
        → IsReader s j w0 ts w now r reader log
        → IsReader s j w0 ts w now' r' (on_copy f reader) log
    steps-IsReader ts w idle log h = h
    steps-IsReader ts w (copying_block k b) log h = h
    steps-IsReader ts w (copying_text c) log (us, v, a, h, l) = (us, v, a, copies _ c h, l)
    steps-IsReader ts w (searching a) log h = h

    ends-IsReader :
        (t : Transfer) (ts : List Transfer) (w w' : Wallet) (reader : Reader) (log : List Read)
        → (holds_upgrade reader ≡ 0) ⊎ (w'.current_block ≡ w.current_block)
        → IsReader s j w0 ts w now r reader log
        → IsReader s j w0 (t ∷ ts) w' now' r' (on_copy f reader) log
    ends-IsReader t ts w w' idle log e h = IsLog-one t ts log h
    ends-IsReader t ts w w' (copying_block k b) log (inl e) h = cc
    ends-IsReader t ts w w' (copying_block k b) log (inr e) ((to, eq), l) =
        ((to, eq ∙ ap (λ (from : Block). copied k from to) (sym e)), IsLog-one t ts log l)
    ends-IsReader t ts w w' (copying_text c) log e (us, v, a, h, l) =
        (us, v, After-one t a, copies _ c h, l)
    ends-IsReader t ts w w' (searching a) log e h = IsLog-one t ts log h

    -- Within a refresh.
    pub steps-threads :
        (ts : List Transfer) (w : Wallet) (ths : List Thread)
        → All (IsThread s j w0 ts w now r) ths
        → All (IsThread s j w0 ts w now' r') (map (on_thread f) ths)
    steps-threads ts w [] h = tt
    steps-threads ts w (th ∷ ths) h =
        (steps-IsReader ts w th.reader th.log h.0, steps-threads ts w ths h.1)

    -- At the end of one, with no reader of the block.
    pub ends-threads :
        (t : Transfer) (ts : List Transfer) (w w' : Wallet) (ths : List Thread)
        → (total holds ths ≡ 0) ⊎ (w'.current_block ≡ w.current_block)
        → All (IsThread s j w0 ts w now r) ths
        → All (IsThread s j w0 (t ∷ ts) w' now' r') (map (on_thread f) ths)
    ends-threads t ts w w' [] e h = tt
    ends-threads t ts w w' (th ∷ ths) (inl e) h = (
      ends-IsReader t ts w w' th.reader th.log (inl (omega arith)) h.0,
      ends-threads t ts w w' ths (inl (omega arith)) h.1,
    )
    ends-threads t ts w w' (th ∷ ths) (inr e) h = (
      ends-IsReader t ts w w' th.reader th.log (inr e) h.0,
      ends-threads t ts w w' ths (inr e) h.1,
    )
