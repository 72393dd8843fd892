-- ===== src/Handler/Construct.antt =====
-- src/DeadlineRequestHandler.hpp: the constructor of the handler. A thread is known by what it runs.
use cpp_burst_pool_node.Base.{ℕ, zero, suc, ◌+◌, ◌^◌, Bool, List, ltb, if◌then◌else◌}
use cpp_burst_pool_node.Config.Load.{Config}
use cpp_burst_pool_node.NodeCom.{NodeComClient}
use cpp_burst_pool_node.NodeCom.Connect.{new_client}
use cpp_burst_pool_node.Handler.State.{CalcDeadlineReq}
use cpp_burst_pool_node.Handler.Batch.{Limits}
use cpp_burst_pool_node.Handler.Distribute.{Loop, init}

-- PARALLEL_VALIDATIONS, by whether USE_AVX2 is defined.
unfoldable pub parallel_validations : Bool → ℕ
parallel_validations use_avx2 = if use_avx2 then 8 else 4

-- `validators` counts the threads that run the posted batches. `loop` is what the thread of
-- `distribute_deadline_reqs` starts with.
pub record DeadlineRequestHandler : Type 0 where
  pub limits : Limits
  pub node_com_client : NodeComClient
  pub validators : ℕ
  pub loop : Loop

-- The turns of `for (int i = 0; i < count; i++)`, for the 32 bits of `count`.
unfoldable pub int_turns : ℕ → ℕ
int_turns count = if ltb count (2 ^ 31) then count else 0

unfoldable pub create_threads : ℕ → ℕ → ℕ
create_threads zero threadpool = threadpool
create_threads (suc turns) threadpool = create_threads turns (threadpool + 1)

-- The padding requests are uninitialised but for their base target.
unfoldable pub new_handler : {N : Type 0} → Config N → List CalcDeadlineReq → DeadlineRequestHandler
new_handler cfg padding = record {
  limits = record {
    deadline_limit = cfg.deadline_limit;
    poc2_start_height = cfg.poc2_start_height;
  };
  node_com_client = new_client cfg.pool_id_to_addr;
  validators = create_threads (int_turns cfg.validator_thread_count) 0;
  loop = init padding;
}
