-- ===== src/Sched/Tests.antt =====
-- A ring of two threads, the second a child of the first.
use munt3os.Base.{ℕ, ◌*◌, refl, [], ◌∷◌, arith, replicate}
use munt3os.Sched.{
  Thread, Sched, thread_running, thread_zombie, ThreadState, find_thread, tick, waitpid, exit,
  no_descriptor,
}
use munt3os.Sched.Fairness.{InRing, with_address, Chosen, tick-Chosen}
use munt3os.Sched.Ring.{some_running}
use munt3os.Sched.Steps.{Switched, tick-Switched}
use munt3os.Sched.Valid.{
  with_id, IsValid, reach_here, reach_step, step_tick, step_exit, step_waitpid, Reach-IsValid,
}

abbrev worker : ℕ → ℕ → ℕ → ThreadState → Thread
worker a id parent state = record {
  address = a;
  id = id;
  parent_id = parent;
  name = 116 ∷ 0 ∷ [];
  rsp = 1000 * id;
  cr3 = 0x100000;
  start_time = 0;
  stack_bottom = 0x200000;
  stack_size = 0x4000;
  heap_start = 0;
  heap_end = 0;
  mmap_next = 0;
  state = state;
  exit_code = 3;
  cwd = 0;
  fds = replicate 32 no_descriptor;
  cred = record { uid = 0; gid = 0; euid = 0; egid = 0 };
  cap = 0;
}

abbrev parent : Thread
parent = worker 0x1000 1 0 thread_running

abbrev ring : Sched
ring = record {
  queue = parent ∷ worker 0x2000 2 1 thread_zombie ∷ worker 0x3000 3 1 thread_running ∷ [];
  current = 0x1000;
  next_tid = 4;
}

ring-IsValid : IsValid ring
unfolding with_id
ring-IsValid = record { once = λ k. ground arith; fresh = λ k h. ground arith }

tick-Switched_example :
    Switched 77 ring []
      (worker 0x2000 2 1 thread_zombie ∷ worker 0x3000 3 1 thread_running ∷ [])
      parent
unfolding find_thread some_running
tick-Switched_example = tick-Switched 77 ring [] _ parent refl refl refl (omega arith) refl

Reach-IsValid_example : IsValid (waitpid 0x100000 2 (exit 5 (tick 77 ring).1)).1
Reach-IsValid_example =
    Reach-IsValid ring (waitpid 0x100000 2 (exit 5 (tick 77 ring).1)).1
      (reach_step (reach_step (reach_step reach_here (step_tick 77)) (step_exit 5))
        (step_waitpid 0x100000 2))
      ring-IsValid

ring-InRing : InRing ring
unfolding with_address
ring-InRing = record {
  once = λ a. ground arith;
  no_null = refl;
  before = [];
  cur = parent;
  after = worker 0x2000 2 1 thread_zombie ∷ worker 0x3000 3 1 thread_running ∷ [];
  split = refl;
  here = refl;
}

tick-Chosen_example : Chosen 0x3000 (7 ∷ 8 ∷ 9 ∷ []) ring
tick-Chosen_example =
    tick-Chosen (7 ∷ 8 ∷ 9 ∷ []) ring (parent ∷ worker 0x2000 2 1 thread_zombie ∷ []) []
      (worker 0x3000 3 1 thread_running) ring-InRing refl refl (omega arith)
