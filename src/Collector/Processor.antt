-- ===== src/Collector/Processor.antt =====
-- src/collector/event_processor.rs: the loop that drains the channel. What a turn of the loop finds is
-- an argument: the stop flag, or what the channel gives within its time.
use stacks_dex_pool.Prelude.{Bool, List, [], ◌∷◌}
use stacks_dex_pool.Prelude.Text.{Text}
use stacks_dex_pool.Pool.Event.{StacksEvent}
use stacks_dex_pool.Registry.{PoolInterface, PoolRegistry, dispatch}
use stacks_dex_pool.Registry.Reachable.{Reachable, step, dispatched}

-- With an event comes which pools `try_read` finds locked at its dispatch.
pub data Turn : Type 0 where
  stopping closed timed_out : Turn
  taken : (contended : Text → Bool) → StacksEvent → Turn

module _ {P : Type 0} (I : PoolInterface P) where
  -- The registry after the turns so far.
  unfoldable pub event_processor_loop : List Turn → PoolRegistry P → PoolRegistry P
  event_processor_loop [] registry = registry
  event_processor_loop (stopping ∷ turns) registry = registry
  event_processor_loop (closed ∷ turns) registry = registry
  event_processor_loop (timed_out ∷ turns) registry = event_processor_loop turns registry
  event_processor_loop (taken contended event ∷ turns) registry =
      event_processor_loop turns (dispatch I contended event registry)

  -- Whatever the loop finds, the registry stays one that the program can build.
  event_processor_loop-Reachable :
      (turns : List Turn) (registry : PoolRegistry P)
      → Reachable I registry
      → Reachable I (event_processor_loop turns registry)
  unfolding event_processor_loop
  event_processor_loop-Reachable [] registry r = r
  event_processor_loop-Reachable (stopping ∷ turns) registry r = r
  event_processor_loop-Reachable (closed ∷ turns) registry r = r
  event_processor_loop-Reachable (timed_out ∷ turns) registry r =
      event_processor_loop-Reachable turns registry r
  event_processor_loop-Reachable (taken contended event ∷ turns) registry r =
      event_processor_loop-Reachable turns (dispatch I contended event registry)
        (step r (dispatched contended event))
