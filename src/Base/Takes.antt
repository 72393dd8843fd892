-- ===== src/Base/Takes.antt =====
-- An element taken out of a list, two neighbours swapped, and sums over lists.
use cpp_burst_pool_node.Base.Lists.{All, set}
use Prim.Native.Nat.{ℕ, zero, suc, ◌+◌}
use mathlib.Core.Path.{◌≡◌, refl}
use mathlib.Core.Logic.{◌⊎◌, inl, inr}
use mathlib.Core.List.{List, [], ◌∷◌, ◌++◌}
use native.Mathlib.Omega.{arith}

module _ {ℓ} {A : Type ℓ} where
  -- `Takes x xs ys`: without one `x`, `xs` is `ys`.
  pub data Takes : A → List A → List A → Type ℓ where
    here : {x : A} {xs : List A} → Takes x (x ∷ xs) xs
    later : {x y : A} {xs ys : List A} → Takes x xs ys → Takes x (y ∷ xs) (y ∷ ys)

  pub data Swaps : List A → List A → Type ℓ where
    now : {x y : A} {xs : List A} → Swaps (x ∷ y ∷ xs) (y ∷ x ∷ xs)
    later_on : {x : A} {xs ys : List A} → Swaps xs ys → Swaps (x ∷ xs) (x ∷ ys)

  abbrev pub Any : (A → Type 0) → List A → Type 0
  Any P [] = ⊥
  Any P (x ∷ xs) = P x ⊎ Any P xs

  abbrev pub total : (A → ℕ) → List A → ℕ
  total f [] = 0
  total f (x ∷ xs) = f x + total f xs

module _ {ℓ} {A : Type ℓ} where
  pub All-Takes {κ} :
      (P : A → Type κ) {x : A} {xs ys : List A} → Takes x xs ys → All P xs → P x × All P ys
  All-Takes P here h = h
  All-Takes P (later t) h = let (p, q) = All-Takes P t h.1 in (p, (h.0, q))

  -- What holds of every element that can be taken holds of all.
  pub All-each {κ} :
      (P : A → Type κ) (xs : List A) → ((x : A) (ys : List A) → Takes x xs ys → P x) → All P xs
  All-each P [] f = tt
  All-each P (x ∷ xs) f = (f x xs here, All-each P xs (λ y ys t. f y (x ∷ ys) (later t)))

  pub All-Swaps {κ} : (P : A → Type κ) {xs ys : List A} → Swaps xs ys → All P xs → All P ys
  All-Swaps P now h = (h.1.0, (h.0, h.1.1))
  All-Swaps P (later_on t) h = (h.0, All-Swaps P t h.1)

  pub total-Swaps : (f : A → ℕ) {xs ys : List A} → Swaps xs ys → total f xs ≡ total f ys
  total-Swaps f (now {x} {y} {xs}) = omega arith
  total-Swaps f (later_on {x} t) = omega (arith, total-Swaps f t)

  pub total-Takes :
      (f : A → ℕ) {x : A} {xs ys : List A} → Takes x xs ys → total f xs ≡ f x + total f ys
  total-Takes f here = refl
  total-Takes f (later {y} t) = omega (arith, total-Takes f t)

  pub total-append : (f : A → ℕ) (xs ys : List A) → total f (xs ++ ys) ≡ total f xs + total f ys
  total-append f [] ys = omega arith
  total-append f (x ∷ xs) ys = omega (arith, total-append f xs ys)

  pub All-append_split {κ} :
      (P : A → Type κ) (xs ys : List A) → All P (xs ++ ys) → All P xs × All P ys
  All-append_split P [] ys h = (tt, h)
  All-append_split P (x ∷ xs) ys h = let (p, q) = All-append_split P xs ys h.1 in ((h.0, p), q)

  pub All-set {κ} :
      (P : A → Type κ) (xs : List A) (i : ℕ) (v : A) → All P xs → P v → All P (set xs i v)
  All-set P [] i v h p = tt
  All-set P (x ∷ xs) zero v h p = (p, h.1)
  All-set P (x ∷ xs) (suc i) v h p = (h.0, All-set P xs i v h.1 p)

module _ {ℓ} {A : Type ℓ} where
  pub Any-imp : {P Q : A → Type 0} → ((x : A) → P x → Q x) → (xs : List A) → Any P xs → Any Q xs
  Any-imp f [] h = h
  Any-imp f (x ∷ xs) (inl h) = inl (f x h)
  Any-imp f (x ∷ xs) (inr h) = inr (Any-imp f xs h)
