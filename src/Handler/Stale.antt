-- ===== src/Handler/Stale.antt =====
-- src/Wallet.hpp, src/Wallet.cpp, src/DeadlineRequestHandler.cpp: the rounds are made once, when the
-- wallet is constructed; a refresh of the block leaves them at the height of the first block.
use mathlib.Core.List.{append-nil}
use mathlib.Core.Path.{subst₂, ap₂}
use cpp_burst_pool_node.Base.{
  ℕ, ◌≡◌, ◌≢◌, refl, sym, ap, ◌∙◌, Bool, false, ◌&&◌, Option, none, some, List, [], ◌∷◌, ◌++◌, ◌==◌,
  if◌then◌else◌, arith,
}
use cpp_burst_pool_node.Base.Dict.{nat_eq, lookup}
use cpp_burst_pool_node.Burstmath.Shabal.{Shabal}
use cpp_burst_pool_node.Wallet.State.{MinerRound, Wallet}
use cpp_burst_pool_node.Wallet.Info.{Json}
use cpp_burst_pool_node.Wallet.Refresh.{Transfer, refresh_block}
use cpp_burst_pool_node.Wallet.RefreshLaws.{refresh_block-miners}
use cpp_burst_pool_node.Wallet.Miners.{fresh_round, cache_miners}
use cpp_burst_pool_node.Wallet.MinersLaws.{IsSound, round_of, latest, cache_miners-Cached}
use cpp_burst_pool_node.NodeCom.{started}
use cpp_burst_pool_node.Handler.State.{CalcDeadlineReq, Node}
use cpp_burst_pool_node.Handler.Validate.{validate_deadline}
use cpp_burst_pool_node.Handler.ValidateLaws.{
  call_for, view, IsSoundNode, improves, lowered, validate_deadline-Validated,
}

-- What the threads of the server do to the wallet and the rounds, one at a time.
pub data Step (s : Shabal) (j : Json) (limit : ℕ) (n : Node) : Node → Type 0 where
  refresh :
      (t : Transfer) {w : Wallet} {b : Bool}
      → refresh_block s j t n.wallet ≡ some (w, b)
      → Step s j limit n (record n { wallet = w })
  validate : (creq : CalcDeadlineReq) (d : ℕ) → Step s j limit n (validate_deadline limit creq d n)

pub data Reach (s : Shabal) (j : Json) (limit : ℕ) (n : Node) : Node → Type 0 where
  start : Reach s j limit n n
  later : {m k : Node} → Reach s j limit n m → Step s j limit m k → Reach s j limit n k

-- Sound, and all rounds are of one height.
pub record AtHeight (h : ℕ) (n : Node) : Type 0 where
  pub sound : IsSoundNode n
  pub height : (a : ℕ) (r : MinerRound) → view n a ≡ some r → r.height ≡ h

validate_height :
    (h limit d : ℕ) (c : CalcDeadlineReq) (a : ℕ) (r : MinerRound) (o : Option MinerRound)
    → ((r : MinerRound) → o ≡ some r → r.height ≡ h)
    → (if c.account_id == a && improves limit c d o then lowered d o else o) ≡ some r
    → r.height ≡ h
validate_height h limit d c a r none old e = ground arith
validate_height h limit d c a r (some r') old e = ground (arith, old r' refl)

module _ {s : Shabal} {j : Json} {limit : ℕ} where
  Step-AtHeight : {h : ℕ} {n m : Node} → Step s j limit n m → AtHeight h n → AtHeight h m
  Step-AtHeight {h} {n} (refresh t {w} {b} e) v =
      let (same_miners, same_rounds) = refresh_block-miners s j t n.wallet w b e in
      record {
        sound = subst₂ IsSound (sym same_miners) (sym same_rounds) v.sound;
        height = λ a r found.
            v.height a r (sym (ap₂ (λ ms rs. round_of ms rs a) same_miners same_rounds) ∙ found);
      }
  Step-AtHeight {h} {n} (validate c d) v =
      let w = validate_deadline-Validated limit c d n v.sound in
      record {
        sound = w.sound;
        height = λ a r found.
            validate_height h limit d c a r (view n a) (v.height a) (sym (w.rounds a) ∙ found);
      }

  Reach-AtHeight : {h : ℕ} {n m : Node} → AtHeight h n → Reach s j limit n m → AtHeight h m
  Reach-AtHeight v start = v
  Reach-AtHeight v (later r st) = Step-AtHeight st (Reach-AtHeight v r)

-- A wallet over the rounds of the constructor's one call of `cache_miners`.
latest_height :
    (height : ℕ) (rows : List (ℕ × ℕ)) (a : ℕ) (o : Option MinerRound)
    → ((r : MinerRound) → o ≡ some r → r.height ≡ height)
    → (r : MinerRound) → latest height rows a o ≡ some r
    → r.height ≡ height
latest_height height [] a o h r e = h r e
latest_height height ((x, y) ∷ rows) a o h r e =
    latest_height height rows a (if x == a then some (fresh_round height y) else o)
      (λ r' e'. ground (arith, h r')) r e

cache_miners-AtHeight :
    (height x y : ℕ) (rows : List (ℕ × ℕ)) (n : Node)
    → IsSoundNode n
    → AtHeight height (record n { wallet = cache_miners height ((x, y) ∷ rows) n.wallet })
cache_miners-AtHeight height x y rows n v =
    let c = cache_miners-Cached height x y rows n.wallet v in
    record {
      sound = c.sound;
      height = λ a r found.
          latest_height height ((x, y) ∷ rows) a none (λ r' e. absurd (cc e)) r
            (sym (c.as_asked a) ∙ found);
    }

stale_improves :
    (h limit d : ℕ) (c : CalcDeadlineReq) (o : Option MinerRound)
    → c.height ≢ h
    → ((r : MinerRound) → o ≡ some r → r.height ≡ h)
    → improves limit c d o ≡ false
stale_improves h limit d c none ne v = refl
stale_improves h limit d c (some r) ne v = ground (arith, v r refl)

-- From a sound node, however the server goes on after its one call of `cache_miners` (for at
-- least one row) at a height, by refreshes of the block and validations: a deadline for a request
-- of another height, that of a later block too, starts no call.
pub no_call_at_other_height :
    (s : Shabal) (j : Json) (limit height x y : ℕ) (rows : List (ℕ × ℕ)) (n m : Node)
    (c : CalcDeadlineReq) (d : ℕ)
    → IsSoundNode n
    → Reach s j limit (record n { wallet = cache_miners height ((x, y) ∷ rows) n.wallet }) m
    → c.height ≢ height
    → (validate_deadline limit c d m).client.calls ≡ m.client.calls
no_call_at_other_height s j limit height x y rows n m c d v reach ne =
    let at = Reach-AtHeight (cache_miners-AtHeight height x y rows n v) reach in
    let w = validate_deadline-Validated limit c d m at.sound in
    w.calls
    ∙ ap
        (λ (better : Bool).
          m.client.calls
          ++ (if better
              then started (lookup c.recip_id m.client.pool_id_to_server) (call_for c d)
              else []))
        (stale_improves height limit d c (view m c.account_id) ne (at.height c.account_id))
    ∙ append-nil m.client.calls
