-- ===== src/Base/Memory.antt =====
-- Memory as a list of bytes: reads and writes that fault (`none`) outside the bounds of the array,
-- and the option monad with its maps over lists.
use Prim.Native.Nat.{ℕ, ◌+◌, ◌≤◌}
use Prim.Native.Nat.{zero, suc}
use Prim.Native.Nat.add
use mathlib.Core.Path.{◌≡◌, refl, ap}
use mathlib.Core.List.{List, [], ◌∷◌, ◌++◌, map}
use mathlib.Core.Option.{Option, none, some}
use native.Mathlib.Omega.{arith}
use cpp_burst_pool_node.Base.Tests.{leb, if◌then◌else◌}
use cpp_burst_pool_node.Base.Lists.{
  length, take, drop, replicate, All, length-append, length-take, length-drop, drop-append,
}

infixl 5 ◌>>=◌
abbrev pub ◌>>=◌ {ℓ κ} : {A : Type ℓ} {B : Type κ} → Option A → (A → Option B) → Option B
none >>= f = none
some a >>= f = f a

-- Inversion of a chain that succeeds.
pub >>=-eq-some {ℓ κ} :
    {A : Type ℓ} {B : Type κ} (m : Option A) (f : A → Option B) {b : B}
    → (m >>= f) ≡ some b
    → (a : A) × (m ≡ some a) × (f a ≡ some b)
>>=-eq-some none f h = cc
>>=-eq-some (some a) f h = (a, refl, h)

pub some-eq-some {ℓ} : {A : Type ℓ} {a b : A} → some a ≡ some b → a ≡ b
some-eq-some h = cc

module _ {ℓ} {A : Type ℓ} where
  -- The `n` entries from `off` on.
  unfoldable pub read : List A → ℕ → ℕ → Option (List A)
  read xs off n = if leb (off + n) (length xs) then some (take n (drop off xs)) else none

  -- `vs` written from `off` on.
  abbrev pub splice : List A → ℕ → List A → List A
  splice xs off vs = take off xs ++ (vs ++ drop (off + length vs) xs)

  unfoldable pub write : List A → ℕ → List A → Option (List A)
  write xs off vs = if leb (off + length vs) (length xs) then some (splice xs off vs) else none

  pub read_lem :
      (xs : List A) (off n : ℕ) → off + n ≤ length xs → read xs off n ≡ some (take n (drop off xs))
  unfolding read
  read_lem xs off n h = ground arith

  pub write_lem :
      (xs vs : List A) (off : ℕ)
      → off + length vs ≤ length xs
      → write xs off vs ≡ some (splice xs off vs)
  unfolding write
  write_lem xs vs off h = ground arith

  pub length-splice :
      (xs vs : List A) (off : ℕ)
      → off + length vs ≤ length xs
      → length (splice xs off vs) ≡ length xs
  length-splice xs vs off h = omega (
    arith,
    length-append (take off xs) (vs ++ drop (off + length vs) xs),
    length-append vs (drop (off + length vs) xs),
    length-take off xs,
    length-drop (off + length vs) xs,
  )

  pub drop-splice :
      (xs vs : List A) (off : ℕ)
      → off + length vs ≤ length xs
      → drop off (splice xs off vs) ≡ vs ++ drop (off + length vs) xs
  drop-splice xs vs off h = drop-append off (take off xs) _ (omega (arith, length-take off xs))

  -- What lies behind position `n` of a splice further on.
  pub drop-splice_add :
      (n off k : ℕ) (xs vs : List A)
      → off ≡ n + k
      → off ≤ length xs
      → drop n (splice xs off vs) ≡ splice (drop n xs) k vs
  unfolding take drop
  drop-splice_add zero off k xs vs e h = let e' : off ≡ k = omega arith in rw e'
  drop-splice_add (suc n) zero k xs vs e h = absurd (omega arith)
  drop-splice_add (suc n) (suc off) k [] vs e h = absurd (omega arith)
  drop-splice_add (suc n) (suc off) k (x ∷ xs) vs e h =
      rw (add.suc off (length vs)) (drop-splice_add n off k xs vs (omega arith) (omega arith))

module _ {ℓ κ} {A : Type ℓ} {B : Type κ} where
  -- One pass over a list with a step that may fault.
  unfoldable pub traverse : (A → Option B) → List A → Option (List B)
  traverse f [] = some []
  traverse f (x ∷ xs) = do y ← f x; ys ← traverse f xs; some (y ∷ ys)

  pub traverse_lem :
      (f : A → Option B) (h : A → B) (xs : List A)
      → All (λ x. f x ≡ some (h x)) xs
      → traverse f xs ≡ some (map h xs)
  unfolding traverse
  traverse_lem f h [] p = refl
  traverse_lem f h (x ∷ xs) p = rw (p.0, traverse_lem f h xs p.1)

  pub traverse-map {μ} :
      {D : Type μ} (f : A → Option B) (g : D → A) (h : D → B) (xs : List D)
      → All (λ x. f (g x) ≡ some (h x)) xs
      → traverse f (map g xs) ≡ some (map h xs)
  unfolding traverse
  traverse-map f g h [] p = refl
  traverse-map f g h (x ∷ xs) p = rw (p.0, traverse-map f g h xs p.1)

  pub map_congr : (f g : A → B) (xs : List A) → All (λ x. f x ≡ g x) xs → map f xs ≡ map g xs
  map_congr f g [] p = refl
  map_congr f g (x ∷ xs) p = rw (p.0, map_congr f g xs p.1)

module _ {ℓ κ μ} {A : Type ℓ} {B : Type κ} {C : Type μ} where
  unfoldable pub zip_with : (A → B → C) → List A → List B → List C
  zip_with f [] ys = []
  zip_with f (x ∷ xs) [] = []
  zip_with f (x ∷ xs) (y ∷ ys) = f x y ∷ zip_with f xs ys

  pub zip_with-map {ν} :
      {D : Type ν} (f : A → B → C) (g : D → A) (h : D → B) (xs : List D)
      → zip_with f (map g xs) (map h xs) ≡ map (λ x. f (g x) (h x)) xs
  unfolding zip_with
  zip_with-map f g h [] = refl
  zip_with-map f g h (x ∷ xs) = ap (◌∷◌ (f (g x) (h x))) (zip_with-map f g h xs)

  pub zip_with-replicate :
      (f : A → B → C) (a : A) (ys : List B) → zip_with f (replicate (length ys) a) ys ≡ map (f a) ys
  unfolding zip_with replicate
  zip_with-replicate f a [] = refl
  zip_with-replicate f a (y ∷ ys) = ap (◌∷◌ (f a y)) (zip_with-replicate f a ys)

-- A pass over two lists together.
unfoldable pub traverse₂ {ℓ κ μ} :
    {A : Type ℓ} {B : Type κ} {C : Type μ} → (A → B → Option C) → List A → List B → Option (List C)
traverse₂ f [] ys = some []
traverse₂ f (x ∷ xs) [] = none
traverse₂ f (x ∷ xs) (y ∷ ys) = do z ← f x y; zs ← traverse₂ f xs ys; some (z ∷ zs)

pub traverse₂_lem {ℓ κ μ ν} :
    {A : Type ℓ} {B : Type κ} {C : Type μ} {D : Type ν} (f : A → B → Option C) (g : D → A)
    (k : D → B) (h : D → C) (xs : List D)
    → All (λ x. f (g x) (k x) ≡ some (h x)) xs
    → traverse₂ f (map g xs) (map k xs) ≡ some (map h xs)
unfolding traverse₂
traverse₂_lem f g k h [] p = refl
traverse₂_lem f g k h (x ∷ xs) p = rw (p.0, traverse₂_lem f g k h xs p.1)

pub traverse₂_left {ℓ κ μ} :
    {A : Type ℓ} {B : Type κ} {C : Type μ} (f : A → B → Option C) (k : A → B) (h : A → C)
    (xs : List A)
    → All (λ x. f x (k x) ≡ some (h x)) xs
    → traverse₂ f xs (map k xs) ≡ some (map h xs)
unfolding traverse₂
traverse₂_left f k h [] p = refl
traverse₂_left f k h (x ∷ xs) p = rw (p.0, traverse₂_left f k h xs p.1)
