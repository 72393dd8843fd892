-- ===== src/Wallet/Threads/Reader.antt =====
-- src/Wallet.cpp: a thread in one of the functions that read the wallet, step by step.
use cpp_burst_pool_node.Base.{
  ℕ, zero, suc, ◌<◌, ◌≡◌, Bool, true, false, not, some, List, ◌∷◌, ◌==◌, if◌then◌else◌,
}
use cpp_burst_pool_node.Wallet.State.{Text, Block, Wallet, read_buffer, get_reward_recipient}
use cpp_burst_pool_node.Wallet.Threads.Mutex.{SharedMutex}

-- The assignments of `get_current_block`, in their order; `refresh_block` writes in the same one.
unfoldable pub copy_field : ℕ → Block → Block → Block
copy_field zero from to = record to { height = from.height }
copy_field (suc zero) from to = record to { base_target = from.base_target }
copy_field (suc (suc zero)) from to = record to { gensig = from.gensig }
copy_field (suc (suc (suc n))) from to = record to { scoop = from.scoop }

-- A copy of a buffer, of which `slot` is the index loaded. That the thread of `refresh_blocks` has
-- fallen asleep since, that it has woken up from such a sleep, and that the buffer has been
-- assigned to since.
pub record Copy : Type 0 where
  pub slot : ℕ
  pub fell_asleep : Bool
  pub slept : Bool
  pub spoiled : Bool

pub data Reader : Type 0 where
  idle : Reader
  copying_block : (fields : ℕ) → (block : Block) → Reader
  copying_text : Copy → Reader
  searching : (account_id : ℕ) → Reader

-- What a function has returned: to a copy of a buffer that was assigned to, anything.
pub data Read : Type 0 where
  block_read : Block → Read
  text_read : Text → Read
  garbled_read : Text → Read
  recipient_read : (account_id recip_id : ℕ) → Read

-- A thread, with what it has read, the last first.
pub record Thread : Type 0 where
  pub reader : Reader
  pub log : List Read

abbrev pub on_copy : (Copy → Copy) → Reader → Reader
on_copy f idle = idle
on_copy f (copying_block k b) = copying_block k b
on_copy f (copying_text c) = copying_text (f c)
on_copy f (searching a) = searching a

-- The thread of `refresh_blocks` falls asleep.
abbrev pub sleeps : Thread → Thread
sleeps th = record th { reader = on_copy (λ (c : Copy). record c { fell_asleep = true }) th.reader }

abbrev pub wakes : Thread → Thread
wakes th = record th {
  reader =
      on_copy (λ (c : Copy). record c { slept = if c.fell_asleep then true else c.slept })
        th.reader;
}

abbrev pub same_buffer : ℕ → ℕ → Bool
same_buffer a b = if a == 0 then b == 0 else not (b == 0)

-- The buffer that `idx` does not name is assigned to.
abbrev pub spoils : ℕ → Thread → Thread
spoils idx th = record th {
  reader =
      on_copy
        (λ (c : Copy). record c { spoiled = if same_buffer c.slot idx then c.spoiled else true })
        th.reader;
}

module _ (x : SharedMutex) (w : Wallet) where
  -- The steps of a thread that reads.
  pub data Reads : x.Mutex → Thread → x.Mutex → Thread → Type 0 where
    locks :
        (block : Block) {m m' : x.Mutex} {log : List Read}
        → x.lock_upgrade m ≡ some m'
        → Reads m
            (record { reader = idle; log = log })
            m'
            (record { reader = copying_block 0 block; log = log })
    copies :
        {m : x.Mutex} {k : ℕ} {b : Block} {log : List Read}
        → k < 4
        → Reads m
            (record { reader = copying_block k b; log = log })
            m
            (record { reader = copying_block (suc k) (copy_field k w.current_block b); log = log })
    unlocks :
        {m : x.Mutex} {b : Block} {log : List Read}
        → Reads m
            (record { reader = copying_block 4 b; log = log })
            (x.unlock_upgrade m)
            (record { reader = idle; log = block_read b ∷ log })
    loads :
        {m : x.Mutex} {log : List Read}
        → Reads m
            (record { reader = idle; log = log })
            m
            (record {
              reader = copying_text (record {
                slot = w.cache_idx;
                fell_asleep = false;
                slept = false;
                spoiled = false;
              });
              log = log;
            })
    returns :
        {m : x.Mutex} {c : Copy} {log : List Read}
        → c.spoiled ≡ false
        → Reads m
            (record { reader = copying_text c; log = log })
            m
            (record { reader = idle; log = text_read (read_buffer c.slot w) ∷ log })
    returns_garbled :
        (text : Text) {m : x.Mutex} {c : Copy} {log : List Read}
        → c.spoiled ≡ true
        → Reads m
            (record { reader = copying_text c; log = log })
            m
            (record { reader = idle; log = garbled_read text ∷ log })
    locks_shared :
        (account_id : ℕ) {m m' : x.Mutex} {log : List Read}
        → x.lock_shared m ≡ some m'
        → Reads m
            (record { reader = idle; log = log })
            m'
            (record { reader = searching account_id; log = log })
    finds :
        {m : x.Mutex} {account_id : ℕ} {log : List Read}
        → Reads m
            (record { reader = searching account_id; log = log })
            (x.unlock_shared m)
            (record {
              reader = idle;
              log = recipient_read account_id (get_reward_recipient w account_id) ∷ log;
            })
