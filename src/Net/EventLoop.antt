-- ===== src/Net/EventLoop.antt =====
-- The pending functions of shero/net/EventLoop.h and EventLoop.cc, and the eventfd that wakes the
-- loop. `F` stands for a function object; what is run is recorded in order. `wakeups` is the
-- eventfd's counter: a write adds one, a read resets it.
pub mod Threads
pub mod Launch
pub mod Reactor
use shero.Common.{
  ℕ, zero, suc, ◌+◌, Bool, true, false, not, ◌&&◌, ◌||◌, Option, none, some, List, [], ◌∷◌, ◌++◌,
  if◌then◌else◌, ◌==◌,
}

pub record EventLoop {ℓ} (F : Type ℓ) : Type ℓ where
  pub looping : Bool
  pub pending : List F
  pub calling : Bool  -- `m_callingpendingFunctors`
  pub wakeups : ℕ
  pub ran : List F

module _ {ℓ} {F : Type ℓ} where
  -- The constructor.
  unfoldable pub new_loop : EventLoop F
  new_loop = record { looping = false; pending = []; calling = false; wakeups = 0; ran = [] }

  -- `wakeup`: a write to the eventfd.
  unfoldable pub wakeup : EventLoop F → EventLoop F
  wakeup l = record l { wakeups = l.wakeups + 1 }

  -- `handleRead`: a read of the eventfd.
  unfoldable pub handle_read : EventLoop F → EventLoop F
  handle_read l = record l { wakeups = 0 }

  -- The part of `queueInLoop` under the mutex.
  unfoldable pub push : F → EventLoop F → EventLoop F
  push cb l = record l { pending = l.pending ++ (cb ∷ []) }

  -- `queueInLoop`, from the loop's thread or another.
  unfoldable pub queue_in_loop : Bool → F → EventLoop F → EventLoop F
  unfolding push wakeup
  queue_in_loop in_loop cb l =
      let l' = push cb l in if not in_loop || l.calling then wakeup l' else l'

  -- `quit`.
  unfoldable pub quit : Bool → EventLoop F → EventLoop F
  unfolding wakeup
  quit in_loop l = let l' = record l { looping = false } in if in_loop then l' else wakeup l'

  -- `queueInLoop` in the loop's thread, for each of a list.
  unfoldable pub queue_all : List F → EventLoop F → EventLoop F
  queue_all [] l = l
  queue_all (f ∷ fs) l = queue_all fs (queue_in_loop true f l)

-- A function run in the loop's thread may queue others there: `body f` are those that `f` queues.
module _ {ℓ} {F : Type ℓ} (body : F → List F) where
  -- `functor()`.
  unfoldable pub call : F → EventLoop F → EventLoop F
  unfolding queue_all
  call f l = queue_all (body f) (record l { ran = l.ran ++ (f ∷ []) })

  -- `runInLoop`.
  unfoldable pub run_in_loop : Bool → F → EventLoop F → EventLoop F
  unfolding call queue_in_loop
  run_in_loop in_loop cb l = if in_loop then call cb l else queue_in_loop false cb l

  -- The loop over the functions that were swapped out.
  unfoldable pub call_all : List F → EventLoop F → EventLoop F
  unfolding call
  call_all [] l = l
  call_all (f ∷ fs) l = call_all fs (call f l)

  -- `doPendingFunctors`.
  unfoldable pub do_pending_functors : EventLoop F → EventLoop F
  unfolding call_all
  do_pending_functors l =
      let swapped = record l { calling = true; pending = [] } in
      let called = call_all l.pending swapped in record called { calling = false }
