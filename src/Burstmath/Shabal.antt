-- ===== src/Burstmath/Shabal.antt =====
-- The Shabal-256 library behind src/burstmath.c (shabal64.s, mshabal_sse4.c, mshabal256_avx2.c are
-- copies of the SAPHIR project's): an interface, with what its headers document.
use mathlib.Core.List.{map-map}
use cpp_burst_pool_node.Base.{
  ℕ, ◌<◌, ◌≡◌, ◌∙◌, sym, ap, List, [], ◌++◌, map, length, replicate, All, zip_with, zip_with-map,
  zip_with-replicate, length-map, All-map,
}

-- src/shabal.h at an output size of 256 bits and with no extra bits, as all calls have it: a context
-- (`shabal_context`, opaque) is made by `shabal_init`, takes data by chunks with `shabal`, where an
-- empty chunk changes nothing and how the data is cut does not matter, and gives with `shabal_close`
-- a hash of 32 bytes.
pub record Shabal : Type 1 where
  pub Context : Type 0
  pub init : Context
  pub update : Context → List ℕ → Context
  pub close : Context → List ℕ
  pub update_nil : (c : Context) → update c [] ≡ c
  pub update-append : (c : Context) (d e : List ℕ) → update c (d ++ e) ≡ update (update c d) e
  pub length-close : (c : Context) → length (close c) ≡ 32
  pub close-bytes : (c : Context) → All (λ b. b < 256) (close c)

-- src/mshabal.h, and src/mshabal256.h for eight lanes, likewise: several contexts side by side, which
-- `mshabal_init` makes and `mshabal` feeds with chunks of one common length, none of them NULL. Each
-- lane computes what a context of its own would, and `mshabal_close` writes out all the hashes.
pub record MultiShabal (s : Shabal) (lanes : ℕ) : Type 1 where
  pub MultiContext : Type 0
  pub init : MultiContext
  pub update : MultiContext → List (List ℕ) → MultiContext
  pub close : MultiContext → List (List ℕ)
  pub contexts : MultiContext → List s.Context
  pub contexts-init : contexts init ≡ replicate lanes s.init
  pub contexts-update :
      (x : MultiContext) (n : ℕ) (chunks : List (List ℕ))
      → length chunks ≡ lanes
      → All (λ c. length c ≡ n) chunks
      → contexts (update x chunks) ≡ zip_with s.update (contexts x) chunks
  pub close_contexts : (x : MultiContext) → close x ≡ map s.close (contexts x)

-- The hash of one chunk.
abbrev pub hash : (s : Shabal) → List ℕ → List ℕ
hash s d = s.close (s.update s.init d)

module _ {s : Shabal} {lanes : ℕ} (m : MultiShabal s lanes) {A : Type 0} (xs : List A)
    (full : length xs ≡ lanes) where
  contexts_first :
      (n : ℕ) (d : A → List ℕ)
      → All (λ x. length (d x) ≡ n) xs
      → m.contexts (m.update m.init (map d xs)) ≡ map (λ x. s.update s.init (d x)) xs
  contexts_first n d h =
      let fits : length (map d xs) ≡ lanes = length-map xs d ∙ full in
      m.contexts-update m.init n (map d xs) fits (All-map _ d xs h)
      ∙ ap (λ c. zip_with s.update c (map d xs))
          (m.contexts-init ∙ ap (λ k. replicate k s.init) (sym fits))
      ∙ zip_with-replicate s.update s.init (map d xs)
      ∙ map-map (s.update s.init) d xs

  -- One chunk: each lane has its own hash.
  pub close_first :
      (n : ℕ) (d : A → List ℕ)
      → All (λ x. length (d x) ≡ n) xs
      → m.close (m.update m.init (map d xs)) ≡ map (λ x. hash s (d x)) xs
  close_first n d h =
      m.close_contexts _
      ∙ ap (map s.close) (contexts_first n d h)
      ∙ map-map s.close (λ x. s.update s.init (d x)) xs

  -- Two chunks, one after the other.
  pub close_second :
      (n k : ℕ) (d e : A → List ℕ)
      → All (λ x. length (d x) ≡ n) xs
      → All (λ x. length (e x) ≡ k) xs
      → m.close (m.update (m.update m.init (map d xs)) (map e xs))
        ≡ map (λ x. s.close (s.update (s.update s.init (d x)) (e x))) xs
  close_second n k d e h h' =
      m.close_contexts _
      ∙ ap (map s.close) (
          m.contexts-update _ k (map e xs) (length-map xs e ∙ full) (All-map _ e xs h')
          ∙ ap (λ c. zip_with s.update c (map e xs)) (contexts_first n d h)
          ∙ zip_with-map s.update (λ x. s.update s.init (d x)) e xs)
      ∙ map-map s.close (λ x. s.update (s.update s.init (d x)) (e x)) xs
