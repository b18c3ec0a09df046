-- ===== src/Net/ThreadPool.antt =====
-- shero/net/EventLoopThreadPool.h and EventLoopThreadPool.cc: which loop takes the next connection.
-- `L` stands for a pointer to an EventLoop; the loop that thread `i` starts is an argument. Every
-- method runs in the thread of the base loop, as it asserts.
pub mod RoundRobin
use shero.Common.{
  ℕ, zero, suc, ◌+◌, Bool, true, false, not, Option, none, some, List, [], ◌∷◌, ltb, ◌==◌,
  if◌then◌else◌, length, get_elem?,
}

pub record ThreadPool {ℓ} (L : Type ℓ) : Type ℓ where
  pub started : Bool
  pub next : ℕ
  pub num_threads : ℕ
  pub loops : List L
  pub base_loop : L

module _ {ℓ} {L : Type ℓ} where
  -- The constructor, and `setThreadNums`.
  unfoldable pub new_pool : L → ThreadPool L
  new_pool base = record {
    started = false;
    next = 0;
    num_threads = 0;
    loops = [];
    base_loop = base;
  }

  unfoldable pub set_thread_nums : ℕ → ThreadPool L → ThreadPool L
  set_thread_nums n p = record p { num_threads = n }

  -- The loop of `start`: the loops of `left` threads, from thread `i` on.
  unfoldable pub start_loops : (ℕ → L) → ℕ → ℕ → List L
  start_loops thread_loop i zero = []
  start_loops thread_loop i (suc left) = thread_loop i ∷ start_loops thread_loop (i + 1) left

  -- `start`; `none` where the assert fails. The second part says whether the callback is called on
  -- the base loop, if there is one.
  unfoldable pub start : (ℕ → L) → ThreadPool L → Option (ThreadPool L × Bool)
  unfolding start_loops
  start thread_loop p =
      if p.started
      then none
      else some (
        record p { started = true; loops = start_loops thread_loop 0 p.num_threads },
        p.num_threads == 0,
      )

  -- The advance of `m_next`, which goes round at the number of loops.
  unfoldable pub advance : ThreadPool L → ThreadPool L
  advance p =
      if ltb (suc p.next) (length p.loops)
      then record p { next = suc p.next }
      else record p { next = 0 }

  -- The choice of `GetNextLoop` among `m_loops`; `none` where `m_next` is out of range.
  unfoldable pub pick_from : List L → ThreadPool L → Option (L × ThreadPool L)
  unfolding advance
  pick_from [] p = some (p.base_loop, p)
  pick_from (l ∷ ls) p = elim (get_elem? (l ∷ ls) p.next) [
    | none ↦ none
    | some loop ↦ some (loop, advance p)
  ]

  -- `GetNextLoop`; `none` where the assert fails, too.
  unfoldable pub get_next_loop : ThreadPool L → Option (L × ThreadPool L)
  get_next_loop p = if not p.started then none else pick_from p.loops p

  -- `getAllLoops`.
  unfoldable pub get_all_loops : ThreadPool L → List L
  get_all_loops p = elim p.loops [ [] ↦ p.base_loop ∷ [] | l ∷ ls ↦ p.loops ]
