-- ===== src/Burstmath/MaskCorrect.antt =====
-- The loop that xors a plot with its final hash computes the mask of the reference.
use mathlib.Core.List.{append_assoc}
use cpp_burst_pool_node.Base.{
  ℕ, zero, suc, ◌+◌, ◌%◌, ◌≤◌, ◌≡◌, refl, ap, ◌∙◌, some, List, [], ◌∷◌, ◌++◌, map, length, get_or,
  get_elem?-append_length, set-append_length, get_elem?-get_or, length-append, take, drop, take_all,
  drop_zero, All, All-imp, read, read_lem, traverse-map, traverse₂_lem, bit_xor, arith,
}
use cpp_burst_pool_node.Burstmath.Bytes.{nonce_size, gendata_size}
use cpp_burst_pool_node.Burstmath.Shabal.{Shabal, MultiShabal, hash, close_first}
use cpp_burst_pool_node.Burstmath.Plot.{Lane, xor_loop, mask_plots}
use cpp_burst_pool_node.Burstmath.Reference.{mask}

pub length-mask : (i n : ℕ) (final xs : List ℕ) → length (mask i n final xs) ≡ length xs
unfolding mask
length-mask i zero final xs = refl
length-mask i (suc n) final [] = refl
length-mask i (suc n) final (x ∷ xs) = ap suc (length-mask (i + 1) n final xs)

xor_loop_lem :
    (n i : ℕ) (final pre xs : List ℕ)
    → length final ≡ 32
    → length pre ≡ i
    → n ≤ length xs
    → xor_loop n i final (pre ++ xs) ≡ some (pre ++ mask i n final xs)
unfolding xor_loop mask
xor_loop_lem zero i final pre xs f p h = refl
xor_loop_lem (suc n) i final pre [] f p h = absurd (omega arith)
xor_loop_lem (suc n) i final pre (x ∷ xs) f p h =
    rw
      (
        get_elem?-append_length pre xs x i p,
        get_elem?-get_or final (i % 32) 0 (omega arith),
        set-append_length pre xs x (bit_xor x (get_or final (i % 32) 0)) i p,
      )
      (rw (← append_assoc pre (v ∷ []) xs) (
        xor_loop_lem n (i + 1) final (pre ++ v ∷ []) xs f
          (omega (arith, length-append pre (v ∷ []))) (omega arith)
        ∙ ap some (append_assoc pre (v ∷ []) (mask (i + 1) n final xs))))
  where
    v : ℕ
    v = bit_xor x (get_or final (i % 32) 0)

module _ {s : Shabal} {lanes : ℕ} (m : MultiShabal s lanes) (ls : List Lane)
    (full : length ls ≡ lanes) where
  pub mask_plots_lem :
      (γ : Lane → List ℕ)
      → All (λ l. length (γ l) ≡ gendata_size) ls
      → mask_plots m (map γ ls) ≡ some (map (λ l. mask 0 nonce_size (hash s (γ l)) (γ l)) ls)
  unfolding mask_plots
  mask_plots_lem γ v =
      rw
        (
          traverse-map (λ g. read g 0 gendata_size) γ γ ls
              (All-imp
                (λ l h. read_lem (γ l) 0 gendata_size (omega arith) ∙ ap some (whole (γ l) h)) ls
                v),
          close_first m ls full gendata_size γ v,
        )
        (traverse₂_lem _ γ (λ l. hash s (γ l)) (λ l. mask 0 nonce_size (hash s (γ l)) (γ l)) ls
          (All-imp
            (λ l h.
              xor_loop_lem nonce_size 0 (hash s (γ l)) [] (γ l) (s.length-close _) refl
                (omega arith))
            ls v))
    where
      whole : (g : List ℕ) → length g ≡ gendata_size → take gendata_size (drop 0 g) ≡ g
      whole g h = ap (take gendata_size) (drop_zero g) ∙ take_all gendata_size g (omega arith)
