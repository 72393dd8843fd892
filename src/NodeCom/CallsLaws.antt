-- ===== src/NodeCom/CallsLaws.antt =====
-- src/NodeComClient.hpp: the objects of the calls are deleted once each.
use mathlib.Core.Path.{subst}
use cpp_burst_pool_node.Base.{
  ℕ, ◌+◌, ◌≤◌, ◌<◌, ◌≡◌, refl, ◌∙◌, ap, sym, Bool, false, none, some, List, [], ◌∷◌, ◌==◌,
  length-append, if◌then◌else◌, length, Option-cases, inl, inr, arith,
}
use cpp_burst_pool_node.Base.Takes.{Takes, here, later}
use cpp_burst_pool_node.Base.Dict.{nat_eq, lookup}
use cpp_burst_pool_node.NodeCom.{NodeComClient, SubmitNonceRequest, started, do_submit_nonce}
use cpp_burst_pool_node.NodeCom.Calls.{
  AsyncCalls, no_calls, start_call, submit_call, delete_call, complete, async_complete_rpc,
}

-- Falling numbers below a bound.
abbrev pub Falling : ℕ → List ℕ → Type 0
Falling b [] = Unit
Falling b (t ∷ ts) = (t < b) × Falling t ts

Takes-lt : {b t : ℕ} {ts us : List ℕ} → Falling b ts → Takes t ts us → t < b
Takes-lt f here = f.0
Takes-lt f (later d) = omega (arith, f.0, Takes-lt f.1 d)

Falling-weaken : (a b : ℕ) (ts : List ℕ) → a ≤ b → Falling a ts → Falling b ts
Falling-weaken a b [] h f = tt
Falling-weaken a b (t ∷ ts) h f = (omega (arith, h, f.0), f.1)

Takes-Falling : (b : ℕ) {t : ℕ} {ts us : List ℕ} → Falling b ts → Takes t ts us → Falling b us
Takes-Falling b {t = t} {us = us} f here = Falling-weaken t b us (omega (arith, f.0)) f.1
Takes-Falling b {ts = u ∷ ts} f (later d) = (f.0, Takes-Falling u f.1 d)

-- A delivered tag is live when the live objects are the pending ones.
delete_call-Takes :
    (b : ℕ) {t : ℕ} {ts us : List ℕ} → Falling b ts → Takes t ts us → delete_call t ts ≡ some us
unfolding delete_call
delete_call-Takes b {t = t} f here = ground arith
delete_call-Takes b {t = t} {ts = u ∷ ts} f (later d) =
    let other : (u == t) ≡ false = ground (arith, Takes-lt f.1 d) in
    rw (other, delete_call-Takes u f.1 d) refl

-- What holds whenever calls are started and completed in any order.
record IsOwned (s : AsyncCalls) : Type 0 where
  live_pending : s.live ≡ s.pending
  falling : Falling s.next_call s.pending
  counted : s.next_call ≡ length s.client.calls

pub data Reach (c : NodeComClient) : AsyncCalls → Type 0 where
  begins : Reach c (no_calls c)
  submits :
      (recip_id : ℕ) (req : SubmitNonceRequest) {s : AsyncCalls}
      → Reach c s
      → Reach c (submit_call recip_id req s)
  completes :
      (tag : ℕ) (status_ok : Bool) (us : List ℕ) {s t : AsyncCalls}
      → Reach c s
      → Takes tag s.pending us
      → complete tag status_ok (record s { pending = us }) ≡ some t
      → Reach c t

-- The turn, when the tag is live.
abbrev after : Bool → List ℕ → AsyncCalls → AsyncCalls
after status_ok us s = record s {
  live = us;
  pending = us;
  failures = (if status_ok then s.failures else s.failures + 1);
}

complete-Takes :
    (tag : ℕ) (status_ok : Bool) (us : List ℕ) (s : AsyncCalls)
    → IsOwned s
    → Takes tag s.pending us
    → complete tag status_ok (record s { pending = us }) ≡ some (after status_ok us s)
unfolding complete
complete-Takes tag status_ok us s o d =
    let deleted : delete_call tag s.live ≡ some us =
      ap (delete_call tag) o.live_pending ∙ delete_call-Takes s.next_call o.falling d in
    rw (complete, deleted) refl

after-IsOwned :
    (tag : ℕ) (status_ok : Bool) (us : List ℕ) (s : AsyncCalls)
    → IsOwned s
    → Takes tag s.pending us
    → IsOwned (after status_ok us s)
after-IsOwned tag status_ok us s o d = record {
  live_pending = refl;
  falling = Takes-Falling s.next_call o.falling d;
  counted = o.counted;
}

submit_call-IsOwned :
    (recip_id : ℕ) (req : SubmitNonceRequest) (s : AsyncCalls)
    → IsOwned s
    → IsOwned (submit_call recip_id req s)
unfolding submit_call start_call do_submit_nonce started
submit_call-IsOwned recip_id req s o =
    elim (Option-cases (lookup recip_id s.client.pool_id_to_server)) [
      | inl absent ↦ rw (submit_call, absent) o
      | inr (addr, found) ↦
          rw (submit_call, found)
            record {
              live_pending = ap (λ ts. s.next_call ∷ ts) o.live_pending;
              falling = (omega arith, o.falling);
              counted =
                  rw (do_submit_nonce, found)
                    (omega (arith, o.counted, length-append {0} s.client.calls ((addr, req) ∷ [])));
            }
    ]

Reach-IsOwned : (c : NodeComClient) (s : AsyncCalls) → c.calls ≡ [] → Reach c s → IsOwned s
unfolding no_calls
Reach-IsOwned c s e begins = record { live_pending = refl; falling = tt; counted = rw e refl }
Reach-IsOwned c s e (submits recip_id req {s = p} r) =
    submit_call-IsOwned recip_id req p (Reach-IsOwned c p e r)
Reach-IsOwned c s e (completes tag status_ok us {s = p} {t = t} r d made) =
    let o = Reach-IsOwned c p e r in
    let same : after status_ok us p ≡ t =
      ap (λ o. elim o [ none ↦ p | some x ↦ x ])
        (sym (complete-Takes tag status_ok us p o d) ∙ made) in
    subst IsOwned same (after-IsOwned tag status_ok us p o d)

-- The queue gives back tags one after the other.
pub data DeliversAll : List (ℕ × Bool) → List ℕ → List ℕ → Type 0 where
  nothing : {ts : List ℕ} → DeliversAll [] ts ts
  first :
      {t : ℕ} {status_ok : Bool} {rest : List (ℕ × Bool)} {ts us vs : List ℕ}
      → Takes t ts us
      → DeliversAll rest us vs
      → DeliversAll ((t, status_ok) ∷ rest) ts vs

abbrev pub failed : List (ℕ × Bool) → ℕ
failed [] = 0
failed ((t, status_ok) ∷ rest) = (if status_ok then 0 else 1) + failed rest

-- The loop from any state whose live objects are the pending ones.
loop-live :
    (b : ℕ) (evs : List (ℕ × Bool)) (vs : List ℕ) (s : AsyncCalls)
    → Falling b s.live
    → DeliversAll evs s.live vs
    → (t : AsyncCalls) × (async_complete_rpc evs s ≡ some t)
      × (t.live ≡ vs)
      × (t.failures ≡ s.failures + failed evs)
unfolding async_complete_rpc complete
loop-live b [] vs s f nothing = (s, refl, refl, omega arith)
loop-live b ((tag, status_ok) ∷ evs) vs s f (first {us = us} d ds) =
    let turned = record s {
      live = us;
      failures = (if status_ok then s.failures else s.failures + 1);
    } in
    let (t, e, left, count) = loop-live b evs vs turned (Takes-Falling b f d) ds in
    (t, rw (async_complete_rpc, complete, delete_call-Takes b f d) e, left, ground (arith, count))

-- For any client that has started no call, in any state reached by submitting nonces and completing
-- calls in any order, where the completion queue gives back pending tags, each once and in any
-- order: whatever further pending tags it gives back, the loop deletes only objects that are live,
-- the objects that then are live are those whose tags are still pending, so none when all came
-- back, and the failures logged are those of the calls that failed. As many objects were made as
-- calls were started.
pub Reach-async_complete_rpc :
    (c : NodeComClient) (s : AsyncCalls) (evs : List (ℕ × Bool)) (vs : List ℕ)
    → c.calls ≡ []
    → Reach c s
    → DeliversAll evs s.pending vs
    → ((t : AsyncCalls) × (async_complete_rpc evs s ≡ some t)
        × (t.live ≡ vs)
        × (t.failures ≡ s.failures + failed evs))
      × (s.next_call ≡ length s.client.calls)
Reach-async_complete_rpc c s evs vs e r ds =
    let o = Reach-IsOwned c s e r in
    let same = sym o.live_pending in
    (
      loop-live s.next_call evs vs s (subst (Falling s.next_call) same o.falling)
          (subst (λ ts. DeliversAll evs ts vs) same ds),
      o.counted,
    )
