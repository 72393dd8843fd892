-- ===== src/Burstmath/Toy.antt =====
-- A toy hash in the place of Shabal, the first 32 bytes of the data padded with zeros, and lanes for
-- runs.
use mathlib.Core.List.{append-nil, append_assoc}
use cpp_burst_pool_node.Base.{
  ℕ, zero, suc, ◌%◌, ◌<◌, ◌≡◌, refl, sym, ap, List, [], ◌∷◌, ◌++◌, map, length, replicate,
  length-replicate, All, zip_with, arith,
}
use cpp_burst_pool_node.Burstmath.Bytes.{gendata_size}
use cpp_burst_pool_node.Burstmath.Shabal.{Shabal, MultiShabal}
use cpp_burst_pool_node.Burstmath.Plot.{Lane}
use cpp_burst_pool_node.Burstmath.DeadlineCorrect.{IsLane}

abbrev pub pad : ℕ → List ℕ → List ℕ
pad zero d = []
pad (suc n) [] = 0 ∷ pad n []
pad (suc n) (b ∷ d) = (b % 256) ∷ pad n d

pub length-pad : (n : ℕ) (d : List ℕ) → length (pad n d) ≡ n
length-pad zero d = refl
length-pad (suc n) [] = ap suc (length-pad n [])
length-pad (suc n) (b ∷ d) = ap suc (length-pad n d)

pub pad-bytes : (n : ℕ) (d : List ℕ) → All (λ b. b < 256) (pad n d)
pad-bytes zero d = tt
pad-bytes (suc n) [] = (omega arith, pad-bytes n [])
pad-bytes (suc n) (b ∷ d) = (omega arith, pad-bytes n d)

abbrev pub toy : Shabal
toy = record {
  Context = List ℕ;
  init = [];
  update = λ c d. c ++ d;
  close = pad 32;
  update_nil = append-nil;
  update-append = λ c d e. sym (append_assoc c d e);
  length-close = length-pad 32;
  close-bytes = pad-bytes 32;
}

abbrev pub toys : (lanes : ℕ) → MultiShabal toy lanes
toys lanes = record {
  MultiContext = List (List ℕ);
  init = replicate lanes [];
  update = zip_with toy.update;
  close = map toy.close;
  contexts = λ x. x;
  contexts-init = refl;
  contexts-update = λ x n chunks l h. refl;
  close_contexts = λ x. refl;
}

abbrev pub some_lane : ℕ → Lane
some_lane n = record {
  base_target = 70312;
  scoop_nr = 4000;
  gensig = replicate 32 7;
  addr = 10282355196851764065;
  nonce = n;
  stack = replicate gendata_size 0xAA;
}

some_lane-IsLane : (n : ℕ) → IsLane (some_lane n)
some_lane-IsLane n = record {
  stack_sized = length-replicate gendata_size 0xAA;
  gensig_sized = length-replicate 32 7;
  scoop_lt = omega arith;
  target_pos = omega arith;
}

abbrev pub four_lanes : List Lane
four_lanes = some_lane 1 ∷ some_lane 2 ∷ some_lane 3 ∷ some_lane 4 ∷ []

abbrev pub eight_lanes : List Lane
eight_lanes = some_lane 5 ∷ some_lane 6 ∷ some_lane 7 ∷ some_lane 8 ∷ four_lanes

pub four_lanes-IsLane : All IsLane four_lanes
four_lanes-IsLane =
    (some_lane-IsLane 1, (some_lane-IsLane 2, (some_lane-IsLane 3, (some_lane-IsLane 4, tt))))

pub eight_lanes-IsLane : All IsLane eight_lanes
eight_lanes-IsLane = (
  some_lane-IsLane 5,
  (some_lane-IsLane 6, (some_lane-IsLane 7, (some_lane-IsLane 8, four_lanes-IsLane))),
)
