-- ===== src/NodeCom/Calls.antt =====
-- src/NodeComClient.hpp: the objects of the calls, made by `do_submit_nonce` and deleted by the
-- loop of `async_complete_rpc`. An object is known by its number; its tag is its address.
use cpp_burst_pool_node.Base.{ℕ, ◌+◌, Bool, Option, none, some, List, [], ◌∷◌, ◌==◌, if◌then◌else◌}
use cpp_burst_pool_node.Base.Dict.{nat_eq, lookup}
use cpp_burst_pool_node.NodeCom.{NodeComClient, SubmitNonceRequest, do_submit_nonce}

-- `live` has the objects that are not deleted, `pending` the tags that were given to the completion
-- queue with `Finish` and have not come back.
pub record AsyncCalls : Type 0 where
  pub client : NodeComClient
  pub next_call : ℕ
  pub live : List ℕ
  pub pending : List ℕ
  pub failures : ℕ

unfoldable pub no_calls : NodeComClient → AsyncCalls
no_calls c = record { client = c; next_call = 0; live = []; pending = []; failures = 0 }

-- The object is made, and its call started with its address as the tag.
unfoldable pub start_call : AsyncCalls → AsyncCalls
start_call s = record s {
  next_call = 1 + s.next_call;
  live = s.next_call ∷ s.live;
  pending = s.next_call ∷ s.pending;
}

unfoldable pub submit_call : ℕ → SubmitNonceRequest → AsyncCalls → AsyncCalls
submit_call recip_id req s =
    let forwarded = record s { client = do_submit_nonce recip_id req s.client } in
    elim (lookup recip_id s.client.pool_id_to_server) [
      | none ↦ s
      | some addr ↦ start_call forwarded
    ]

-- `none` when no such object is live.
unfoldable pub delete_call : ℕ → List ℕ → Option (List ℕ)
delete_call call [] = none
delete_call call (c ∷ cs) =
    let rest = delete_call call cs in
    if c == call then some cs else elim rest [ none ↦ none | some left ↦ some (c ∷ left) ]

-- One turn: the status of the call is read, an error is logged, the object is deleted. `none` when
-- the tag is the address of no live object.
unfoldable pub complete : ℕ → Bool → AsyncCalls → Option AsyncCalls
complete got_tag status_ok s = elim (delete_call got_tag s.live) [
  | none ↦ none
  | some left ↦
      some (record s { live = left; failures = (if status_ok then s.failures else s.failures + 1) })
]

-- The loop, over what the completion queue brings before it shuts down.
unfoldable pub async_complete_rpc : List (ℕ × Bool) → AsyncCalls → Option AsyncCalls
async_complete_rpc [] s = some s
async_complete_rpc ((tag, status_ok) ∷ rest) s = elim (complete tag status_ok s) [
  | none ↦ none
  | some t ↦ async_complete_rpc rest t
]
