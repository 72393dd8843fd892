-- ===== src/RateLimiter/Bound.antt =====
-- src/RateLimiter.hpp: how many calls a bucket lets through at any rate, where the arithmetic is
-- exact.
use Prim.Native.Nat.mul
use cpp_burst_pool_node.Base.{
  ℕ, Bool, ◌*◌, ◌≡◌, true, false, refl, none, ◌∙◌, some, List, [], ◌∷◌, length, if◌then◌else◌,
  Bool-cases, inl, inr, >>=-eq-some, some-eq-some, sym,
}
use cpp_burst_pool_node.Base.Int.{ℤ, pos, ◌+ℤ◌, ◌-ℤ◌, ◌≤ℤ◌, ltb_ℤ, int_laws}
use mathlib.Core.Path.{subst}
use cpp_burst_pool_node.RateLimiter.Bucket.{Double, available, attempt}
use cpp_burst_pool_node.RateLimiter.Contention.{System, Reach, replay, Reach-replay}

-- Arithmetic that is exact at a rate: some doubles stand for whole numbers of a unit of time, some for
-- whole numbers of a unit of tokens, and in one unit of time one unit of tokens comes at the rate.
pub record Exact (d : Double) (rate : d.F) : Type 1 where
  pub IsTime : d.F → ℤ → Type 0
  pub IsTokens : d.F → ℤ → Type 0
  pub sub-IsTime : (x y : d.F) (a b : ℤ) → IsTime x a → IsTime y b → IsTime (d.sub x y) (a -ℤ b)
  pub sub-IsTokens :
      (x y : d.F) (a b : ℤ) → IsTokens x a → IsTokens y b → IsTokens (d.sub x y) (a -ℤ b)
  pub mul-IsTokens : (x : d.F) (a : ℤ) → IsTime x a → IsTokens (d.mul x rate) a
  pub div-IsTime : (x : d.F) (a : ℤ) → IsTokens x a → IsTime (d.div x rate) a
  pub lt-eq : (x y : d.F) (a b : ℤ) → IsTokens x a → IsTokens y b → d.lt x y ≡ ltb_ℤ a b
  pub same-eq : (x y : d.F) → d.same x y ≡ true → x ≡ y

some_else :
    {F : Type 0} (b : Bool) (x y : F)
    → (if b then none else some x) ≡ some y
    → (b ≡ false) × (x ≡ y)
some_else true x y h = absurd (cc h)
some_else false x y h = (refl, some-eq-some h)

abbrev min_ℤ : ℤ → ℤ → ℤ
min_ℤ a b = if ltb_ℤ b a then b else a

module _ {d : Double} {rate : d.F} (e : Exact d rate) (burst_size consume : d.F)
    (burst cost : ℕ) where
  -- Times that do not decrease, from `first` to `last`.
  abbrev pub InOrder : ℤ → ℤ → List d.F → Type 0
  InOrder first last [] = first ≤ℤ last
  InOrder first last (now ∷ log) = (t : ℤ) × e.IsTime now t × (first ≤ℤ t) × InOrder t last log

  -- The tokens of a bucket at a time.
  abbrev tokens : ℤ → ℤ → ℤ
  tokens t z = min_ℤ (t -ℤ z) (pos burst)

  -- The tokens, or none where the bucket is behind.
  abbrev level : ℤ → ℤ → ℤ
  level t z = if ltb_ℤ (tokens t z) (pos 0) then pos 0 else tokens t z

  level_later : (first t a : ℤ) → first ≤ℤ t → tokens t a ≤ℤ level first a +ℤ (t -ℤ first)
  level_later first t a h = grind int_laws

  level_after : (t m : ℤ) → pos cost ≤ℤ m → level t (t -ℤ (m -ℤ pos cost)) ≤ℤ m -ℤ pos cost
  level_after t m h = grind int_laws

  level_le : (t a : ℤ) → level t a ≤ℤ pos burst
  level_le t a = grind int_laws

  level_nonneg : (t a : ℤ) → pos 0 ≤ℤ level t a
  level_nonneg t a = grind int_laws

  InOrder-le : (first last : ℤ) (log : List d.F) → InOrder first last log → first ≤ℤ last
  InOrder-le first last [] h = h
  InOrder-le first last (now ∷ log) (t, ht, le, o) = omega (int_laws, le, InOrder-le t last log o)

  available-IsTokens :
      (now z : d.F) (t a : ℤ)
      → e.IsTokens burst_size (pos burst)
      → e.IsTime now t
      → e.IsTime z a
      → e.IsTokens (available d now rate burst_size z) (tokens t a)
  unfolding available
  available-IsTokens now z t a hb ht ha =
      let elapsed = e.mul-IsTokens _ _ (e.sub-IsTime now z t a ht ha) in
      let test = e.lt-eq _ _ _ _ hb elapsed in
      elim (Bool-cases (ltb_ℤ (pos burst) (t -ℤ a))) [
        | inl full ↦ rw (test, full) hb
        | inr part ↦ rw (test, part) elapsed
      ]

  -- A call that is let through had its tokens, and leaves the rest.
  attempt-tokens :
      (now z new : d.F) (t a : ℤ)
      → e.IsTokens burst_size (pos burst)
      → e.IsTokens consume (pos cost)
      → e.IsTime now t
      → e.IsTime z a
      → attempt d now rate burst_size consume z ≡ some new
      → (pos cost ≤ℤ tokens t a) × e.IsTime new (t -ℤ (tokens t a -ℤ pos cost))
  unfolding attempt
  attempt-tokens now z new t a hb hc ht ha h =
      let had = available-IsTokens now z t a hb ht ha in
      let test = e.lt-eq _ _ _ _ had hc in
      let left = e.sub-IsTime _ _ _ _ ht (e.div-IsTime _ _ (e.sub-IsTokens _ _ _ _ had hc)) in
      let (enough, made) = some_else _ _ new h in
      let let_through : ltb_ℤ (tokens t a) (pos cost) ≡ false = sym test ∙ enough in
      (
        grind (int_laws, let_through),
        subst (λ x. e.IsTime x (t -ℤ (tokens t a -ℤ pos cost))) made left,
      )

  replay-bound :
      (first last a : ℤ) (z z' : d.F) (log : List d.F)
      → e.IsTokens burst_size (pos burst)
      → e.IsTokens consume (pos cost)
      → e.IsTime z a
      → InOrder first last log
      → replay d rate burst_size consume log z ≡ some z'
      → pos (length log * cost) ≤ℤ level first a +ℤ (last -ℤ first)
  unfolding replay
  replay-bound first last a z z' [] hb hc ha o h = omega (int_laws, o, level_nonneg first a)
  replay-bound first last a z z' (now ∷ log) hb hc ha (t, ht, le, o) h =
      let (y, at, after) = >>=-eq-some (attempt d now rate burst_size consume z) _ h in
      let (enough, hy) = attempt-tokens now z y t a hb hc ht ha at in
      let rest = t -ℤ (tokens t a -ℤ pos cost) in
      omega (
        int_laws,
        mul.suc (length log) cost,
        replay-bound t last rest y z' log hb hc hy o after,
        level_later first t a le,
        level_after t (tokens t a) enough,
        enough,
      )

  -- Where the arithmetic is exact at the rate, and the burst, the tokens of a call, the value that
  -- the bucket began with and the times are in its units: however the threads on a bucket
  -- interleave, if the times of the calls that were let through lie between two times and do not
  -- decrease in the order of their exchanges, then those calls have taken no more than the burst
  -- and the tokens that came at the rate between the two times.
  pub Reach-bound :
      (first last a : ℤ) (z : d.F) (s : System d rate burst_size consume)
      → e.IsTokens burst_size (pos burst)
      → e.IsTokens consume (pos cost)
      → e.IsTime z a
      → Reach d rate burst_size consume z s
      → InOrder first last s.log
      → pos (length s.log * cost) ≤ℤ pos burst +ℤ (last -ℤ first)
  Reach-bound first last a z s hb hc ha r o =
      let h =
        replay-bound first last a z s.zero_time s.log hb hc ha o
          (Reach-replay d rate burst_size consume e.same-eq z s r) in
      omega (int_laws, h, level_le first a)
