-- ===== src/Base/Dict.antt =====
-- Boolean equality as an interface, and maps as association lists over it.
use mathlib.Core.Path.{◌≡◌, refl, ◌∙◌, ap}
use mathlib.Core.Logic.{◌↔◌, inl, inr}
use mathlib.Core.Bool.{Bool, true, false, ◌&&◌}
use mathlib.Core.List.{List, [], ◌∷◌}
use mathlib.Core.Option.{Option, none, some}
use Prim.Native.Nat.{ℕ}
use native.Mathlib.Omega.{arith}
use cpp_burst_pool_node.Base.Tests.{◌==◌, ==_iff, if◌then◌else◌, Bool-cases}

pub record Eq {ℓ} (A : Type ℓ) : Type ℓ where
  pub beq : A → A → Bool
  pub beq_iff : (a b : A) → (beq a b ≡ true) ↔ (a ≡ b)

instance abbrev pub nat_eq : Eq ℕ
nat_eq = record { beq = ◌==◌; beq_iff = ==_iff }

unfoldable pub text_beq : List ℕ → List ℕ → Bool
text_beq [] [] = true
text_beq [] (y ∷ ys) = false
text_beq (x ∷ xs) [] = false
text_beq (x ∷ xs) (y ∷ ys) = (x == y) && text_beq xs ys

text_beq_refl : (xs : List ℕ) → text_beq xs xs ≡ true
unfolding text_beq
text_beq_refl [] = refl
text_beq_refl (x ∷ xs) = ground (arith, text_beq_refl xs)

text_beq_sound : (xs ys : List ℕ) → text_beq xs ys ≡ true → xs ≡ ys
unfolding text_beq
text_beq_sound [] [] h = refl
text_beq_sound [] (y ∷ ys) h = cc
text_beq_sound (x ∷ xs) [] h = cc
text_beq_sound (x ∷ xs) (y ∷ ys) h = ground (arith, text_beq_sound xs ys)

pub text_beq_iff : (xs ys : List ℕ) → (text_beq xs ys ≡ true) ↔ (xs ≡ ys)
text_beq_iff xs ys = (text_beq_sound xs ys, λ e. rw e (text_beq_refl ys))

instance abbrev pub text_eq : Eq (List ℕ)
text_eq = record { beq = text_beq; beq_iff = text_beq_iff }

module _ {ℓ κ} {K : Type κ} {V : Type ℓ} ⦃e : Eq K⦄ where
  unfoldable pub lookup : K → List (K × V) → Option V
  lookup k [] = none
  lookup k ((j, v) ∷ m) = if e.beq j k then some v else lookup k m

  unfoldable pub insert : K → V → List (K × V) → List (K × V)
  insert k v [] = (k, v) ∷ []
  insert k v ((j, w) ∷ m) = if e.beq j k then (k, v) ∷ m else (j, w) ∷ insert k v m

  pub lookup-insert :
      (k j : K) (v : V) (m : List (K × V))
      → lookup j (insert k v m) ≡ (if e.beq k j then some v else lookup j m)
  unfolding lookup insert
  lookup-insert k j v [] = refl
  lookup-insert k j v ((i, w) ∷ m) =
      ground (arith, e.beq_iff k j, e.beq_iff i k, e.beq_iff i j, lookup-insert k j v m)

  -- No key stands twice.
  abbrev pub Distinct : List (K × V) → Type ℓ
  Distinct [] = Unit
  Distinct ((k, v) ∷ m) = (lookup k m ≡ none) × Distinct m

  pub insert-Distinct : (k : K) (v : V) (m : List (K × V)) → Distinct m → Distinct (insert k v m)
  unfolding lookup insert
  insert-Distinct k v [] h = (refl, tt)
  insert-Distinct k v ((j, w) ∷ m) h = elim (Bool-cases (e.beq j k)) [
    | inl same ↦ let eq : j ≡ k = (e.beq_iff j k).0 same in rw (same, ← eq) h
    | inr other ↦
        let other' : e.beq k j ≡ false = ground (arith, e.beq_iff j k, e.beq_iff k j) in
        rw other (rw (lookup-insert k j v m, other') h.0, insert-Distinct k v m h.1)
  ]

  -- The value of the last pair with a key.
  abbrev pub last : K → List (K × V) → Option V → Option V
  last k [] found = found
  last k ((j, v) ∷ m) found = last k m (if e.beq j k then some v else found)

  -- Inserting pairs one after the other, so that a later one replaces an earlier one.
  unfoldable pub insert_all : List (K × V) → List (K × V) → List (K × V)
  insert_all [] m = m
  insert_all ((k, v) ∷ rest) m = insert_all rest (insert k v m)

  pub lookup-insert_all :
      (k : K) (ps m : List (K × V)) → lookup k (insert_all ps m) ≡ last k ps (lookup k m)
  unfolding insert_all
  lookup-insert_all k [] m = refl
  lookup-insert_all k ((j, v) ∷ ps) m =
      lookup-insert_all k ps (insert j v m) ∙ ap (last k ps) (lookup-insert j k v m)

  pub last-Distinct :
      (k : K) (m : List (K × V)) (found : Option V)
      → Distinct m
      → last k m found ≡ (elim (lookup k m) [ none ↦ found | some v ↦ some v ])
  unfolding lookup
  last-Distinct k [] found h = refl
  last-Distinct k ((j, w) ∷ m) found h = elim (Bool-cases (e.beq j k)) [
    | inl same ↦
        let absent : lookup k m ≡ none = rw (← (e.beq_iff j k).0 same) h.0 in
        rw same (last-Distinct k m (some w) h.1 ∙ rw absent refl)
    | inr other ↦ rw other (last-Distinct k m found h.1)
  ]
