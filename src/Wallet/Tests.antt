-- ===== src/Wallet/Tests.antt =====
-- src/Wallet.cpp: the theorems at concrete inputs.
use mathlib.Core.List.{flatten}
use cpp_burst_pool_node.Base.{
  ℕ, ◌<◌, ◌≡◌, refl, Bool, true, false, none, some, List, [], ◌∷◌, ◌++◌, codes, replicate, All,
  if◌then◌else◌, arith,
}
use cpp_burst_pool_node.Base.Dict.{text_eq, text_beq, nat_eq, lookup}
use cpp_burst_pool_node.Base.Decimal.{stoull, is_digit, starts_digit}
use cpp_burst_pool_node.Burstmath.Toy.{toy}
use cpp_burst_pool_node.Wallet.State.{Text, Wallet}
use cpp_burst_pool_node.Wallet.Info.{Json, height_key, base_target_key, parse_mining_info}
use cpp_burst_pool_node.Wallet.Refresh.{Transfer, get_mining_info, refresh_block}
use cpp_burst_pool_node.Wallet.InfoLaws.{
  hex_text, scan_gensig-hex_text, get_mining_info-after_failure,
}
use cpp_burst_pool_node.Wallet.RefreshLaws.{HasSignature, Outcome, refresh_block-returns}
use cpp_burst_pool_node.Wallet.Miners.{fresh_round, cache_miners}
use cpp_burst_pool_node.Wallet.MinersLaws.{IsSound, Cached, cache_miners-Cached}

abbrev pub signature : List ℕ
signature = replicate 32 171

-- A reader of one document only.
abbrev fields : Text → Text
fields key =
    if text_eq.beq key height_key
    then codes "500001"
    else (if text_eq.beq key base_target_key then codes "70312" else hex_text signature ++ [])

abbrev pub reader : Json
reader = record {
  Document = Text;
  parse = λ text. text;
  is_object = λ d. true;
  has_member = λ d key. true;
  is_string = λ d key. true;
  get_string = λ d key. fields key;
}

abbrev pub some_wallet : Wallet
some_wallet = record {
  current_block = record {
    height = 500000;
    base_target = 70000;
    scoop = 12;
    gensig = replicate 32 7;
  };
  cache_idx = 0;
  mining_info_0 = codes "old";
  mining_info_1 = [];
  mining_info_res = [];
  rounds = fresh_round 499999 9 ∷ [];
  miners = (5, 0) ∷ [];
  deadline_limit = 1000;
}

some_wallet-IsSound : IsSound some_wallet.miners some_wallet.rounds
unfolding lookup
some_wallet-IsSound = record { in_range = λ a p h. ground arith; apart = λ a b p h k. ground arith }

abbrev pub good : Transfer
good = record { chunks = codes "{}" ∷ []; succeeds = true }

abbrev broken : Transfer
broken = record { chunks = codes "{" ∷ []; succeeds = false }

pub signature-bytes : All (λ b. b < 256) signature
unfolding replicate
signature-bytes = ground arith

good-HasSignature :
    HasSignature toy reader (parse_mining_info reader (get_mining_info good some_wallet).1)
unfolding parse_mining_info stoull text_beq replicate
good-HasSignature = (signature, scan_gensig-hex_text signature [] signature-bytes)

refresh_block-returns_example :
    (w' : Wallet) × (b : Bool) × (refresh_block toy reader good some_wallet ≡ some (w', b))
    × Outcome toy reader
        (get_mining_info good some_wallet).0
        (parse_mining_info reader (get_mining_info good some_wallet).1)
        w'
        b
refresh_block-returns_example = refresh_block-returns toy reader good some_wallet good-HasSignature

get_mining_info-after_failure_example :
    (get_mining_info good (get_mining_info broken some_wallet).0).1
    ≡ flatten broken.chunks ++ flatten good.chunks
get_mining_info-after_failure_example =
    get_mining_info-after_failure broken good some_wallet refl refl refl

cache_miners-Cached_example :
    Cached 500000
      ((6, 9) ∷ (5, 8) ∷ [])
      (λ a. none)
      (cache_miners 500000 ((6, 9) ∷ (5, 8) ∷ []) some_wallet)
cache_miners-Cached_example =
    cache_miners-Cached 500000 6 9 ((5, 8) ∷ []) some_wallet some_wallet-IsSound

quoted : starts_digit (codes "\"}") ≡ false
unfolding starts_digit is_digit
quoted = refl
