-- ===== src/Wallet/Threads/Tests.antt =====
-- src/Wallet.cpp: a thread that reads the mining info and then the block, in the midst of a refresh.
use cpp_burst_pool_node.Base.{
  ℕ, ◌+◌, ◌-◌, ◌≡◌, refl, Bool, true, false, Option, none, some, List, [], ◌∷◌, ◌++◌, codes, ◌==◌,
  if◌then◌else◌, All, replicate, arith,
}
use cpp_burst_pool_node.Base.Dict.{text_eq, text_beq}
use cpp_burst_pool_node.Base.Decimal.{stoull}
use cpp_burst_pool_node.Base.Takes.{here}
use cpp_burst_pool_node.Burstmath.Scoop.{calculate_scoop, scoop_number, calculate_scoop_lem}
use cpp_burst_pool_node.Burstmath.Toy.{toy}
use cpp_burst_pool_node.Wallet.State.{Block, get_current_block, read_buffer}
use cpp_burst_pool_node.Wallet.Info.{MiningInfo, parse_mining_info, scan_gensig}
use cpp_burst_pool_node.Wallet.InfoLaws.{hex_text, scan_gensig-hex_text}
use cpp_burst_pool_node.Wallet.Refresh.{get_mining_info, block_of}
use cpp_burst_pool_node.Wallet.Tests.{reader, signature, signature-bytes, good, some_wallet}
use cpp_burst_pool_node.Wallet.Threads.Mutex.{SharedMutex}
use cpp_burst_pool_node.Wallet.Threads.Reader.{
  Copy, Reader, idle, copying_text, Thread, copy_field, locks, copies, unlocks, loads, returns,
  Read, block_read, text_read,
}
use cpp_burst_pool_node.Wallet.Threads.Refresher.{asleep, assigning, assign_text, turn_index}
use cpp_burst_pool_node.Wallet.Threads.Steps.{
  State, reads, wakes_up, reads_info, finds_new, locks_upgrade, locks_unique, scans, writes,
  begins_to_assign, assigns, turns, leaves, Reach, starts, later,
}
use cpp_burst_pool_node.Wallet.Threads.Progress.{with_block, text_of, received, replay}
use cpp_burst_pool_node.Wallet.Threads.Invariant.{IsLog}
use cpp_burst_pool_node.Wallet.Threads.Finishes.{Sleeps, Reach-Sleeps}
use cpp_burst_pool_node.Wallet.Threads.Seen.{
  Reach-replays, Reach-IsLog, IsIntact, Reach-IsIntact, Descends, Reach-Descends,
}

-- A mutex with the number of its shared owners, and whether it has an upgrade and a unique owner.
record Owners : Type 0 where
  sharing : ℕ
  upgrading : Bool
  unique : Bool

abbrev share : Owners → Option Owners
share m = if m.unique then none else some (record m { sharing = m.sharing + 1 })

abbrev upgrade : Owners → Option Owners
upgrade m = if m.upgrading then none else some (record m { upgrading = true })

abbrev be_unique : Owners → Option Owners
be_unique m = if m.sharing == 0 then some (record m { unique = true }) else none

share-upgrading : (m m' : Owners) → share m ≡ some m' → m'.upgrading ≡ m.upgrading
share-upgrading m m' e = ground arith

upgrade-upgrading :
    (m m' : Owners) → upgrade m ≡ some m' → (m.upgrading ≡ false) × (m'.upgrading ≡ true)
upgrade-upgrading m m' e = ground arith

be_unique-upgrading : (m m' : Owners) → be_unique m ≡ some m' → m'.upgrading ≡ m.upgrading
be_unique-upgrading m m' e = ground arith

sharing-share : (m m' : Owners) → share m ≡ some m' → m'.sharing ≡ m.sharing + 1
sharing-share m m' e = ground arith

sharing-upgrade : (m m' : Owners) → upgrade m ≡ some m' → m'.sharing ≡ m.sharing
sharing-upgrade m m' e = ground arith

sharing-be_unique : (m m' : Owners) → be_unique m ≡ some m' → m'.sharing ≡ m.sharing
sharing-be_unique m m' e = ground arith

upgrade-enters : (m : Owners) → m.upgrading ≡ false → (m' : Owners) × (upgrade m ≡ some m')
upgrade-enters m e = (record m { upgrading = true }, rw e refl)

be_unique-enters :
    (m : Owners) → m.upgrading ≡ true → m.sharing ≡ 0 → (m' : Owners) × (be_unique m ≡ some m')
be_unique-enters m e z = (record m { unique = true }, rw z refl)

abbrev mutex : SharedMutex
mutex = record {
  Mutex = Owners;
  free = record { sharing = 0; upgrading = false; unique = false };
  lock_shared = share;
  unlock_shared = λ m. record m { sharing = m.sharing - 1 };
  lock_upgrade = upgrade;
  unlock_upgrade = λ m. record m { upgrading = false };
  upgrade_to_unique = be_unique;
  unlock_unique = λ m. record m { upgrading = false; unique = false };
  upgraded = λ m. m.upgrading;
  upgraded-free = refl;
  upgraded-lock_shared = share-upgrading;
  upgraded-unlock_shared = λ m. refl;
  upgraded-lock_upgrade = upgrade-upgrading;
  upgraded-unlock_upgrade = λ m. refl;
  upgraded-upgrade_to_unique = be_unique-upgrading;
  upgraded-unlock_unique = λ m. refl;
  sharers = λ m. m.sharing;
  sharers-free = refl;
  sharers-lock_shared = sharing-share;
  sharers-unlock_shared = λ m. refl;
  sharers-lock_upgrade = sharing-upgrade;
  sharers-unlock_upgrade = λ m. refl;
  sharers-upgrade_to_unique = sharing-be_unique;
  sharers-unlock_unique = λ m. refl;
  lock_upgrade-enters = upgrade-enters;
  upgrade_to_unique-enters = be_unique-enters;
}

abbrev fresh : List Thread
fresh = record { reader = idle; log = [] } ∷ []

abbrev info : MiningInfo
info = record { height = 500001; base_target = 70312; gensig_str = hex_text signature ++ [] }

info-read : parse_mining_info reader (get_mining_info good some_wallet).1 ≡ some info
unfolding parse_mining_info stoull text_beq
info-read = refl

-- The block that the refresh writes.
abbrev new : Block
new = block_of info signature (scoop_number toy 500001 signature)

new-gensig : scan_gensig 32 info.gensig_str ≡ some signature
unfolding replicate
new-gensig = scan_gensig-hex_text signature [] signature-bytes

new-scoop : calculate_scoop toy 500001 signature ≡ some (scoop_number toy 500001 signature)
unfolding replicate
new-scoop = (calculate_scoop_lem toy 500001 signature refl).0

abbrev the_copy : Copy
the_copy = record { slot = 0; fell_asleep = false; slept = false; spoiled = false }

abbrev thread : Reader → List Read → List Thread
thread r log = record { reader = r; log = log } ∷ []

-- The thread has loaded the index, and the refresh has written the block and is at the text.
abbrev midway : State mutex
midway = record {
  mutex = record { sharing = 0; upgrading = true; unique = true };
  wallet = with_block new (received good some_wallet);
  refresher = assigning good info new;
  threads = thread (copying_text the_copy) [];
  done = [];
}

midway-reached : Reach mutex toy reader some_wallet midway
unfolding get_mining_info get_current_block copy_field
midway-reached =
    later
      (later
        (later
          (later
            (later
              (later
                (later
                  (later
                    (later
                      (later
                        (later (later (starts fresh (refl, tt)) (wakes_up refl)) (reads here loads))
                        (reads_info good refl info-read))
                      (finds_new refl refl refl))
                    (locks_upgrade refl refl))
                  (locks_unique refl refl))
                (scans refl new-gensig new-scoop))
              (writes refl (omega arith)))
            (writes refl (omega arith)))
          (writes refl (omega arith)))
        (writes refl (omega arith)))
      (begins_to_assign refl)

Reach-IsIntact_example : IsIntact mutex toy reader some_wallet midway the_copy
Reach-IsIntact_example =
    Reach-IsIntact mutex toy reader some_wallet midway the_copy midway-reached here refl

-- The thread has the old text, the refresh ends, and the thread reads the new block.
abbrev ended : State mutex
ended = record {
  mutex = record { sharing = 0; upgrading = false; unique = false };
  wallet = turn_index (
      assign_text (text_of (received good some_wallet) info)
        (with_block new (received good some_wallet)));
  refresher = asleep;
  threads = thread idle (block_read new ∷ text_read (codes "old") ∷ []);
  done = good ∷ [];
}

ended-reached : Reach mutex toy reader some_wallet ended
unfolding get_mining_info get_current_block copy_field read_buffer turn_index assign_text
ended-reached =
    later
      (later
        (later
          (later
            (later
              (later
                (later
                  (later (later (later midway-reached (assigns refl)) (reads here (returns refl)))
                    (turns refl))
                  (leaves refl))
                (reads here (locks some_wallet.current_block refl)))
              (reads here (copies (omega arith))))
            (reads here (copies (omega arith))))
          (reads here (copies (omega arith))))
        (reads here (copies (omega arith))))
      (reads here unlocks)

Reach-replays_example : replay toy reader ended.done some_wallet ≡ some ended.wallet
Reach-replays_example = Reach-replays mutex toy reader some_wallet ended ended-reached refl

Reach-IsLog_example :
    All (λ (th : Thread). IsLog toy reader some_wallet ended.done th.log) ended.threads
Reach-IsLog_example = Reach-IsLog mutex toy reader some_wallet ended ended-reached

Reach-Descends_example :
    All (λ (th : Thread). (k : ℕ) × Descends mutex toy reader some_wallet k th.log) ended.threads
Reach-Descends_example = Reach-Descends mutex toy reader some_wallet ended ended-reached

Reach-Sleeps_example : Sleeps mutex toy reader some_wallet midway midway-reached
Reach-Sleeps_example = Reach-Sleeps mutex toy reader some_wallet midway midway-reached tt
