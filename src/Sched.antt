-- ===== src/Sched.antt =====
-- krnl/task/sched.c and the inline functions of krnl/task/sched.h. The ring of threads is the list
-- that starts at `thread_queue` and goes round by `next`; a pointer to a thread is its address, 0 for
-- NULL. The naked entry points are left out: `sched_tick` and `sched_fork_internal` take the stack
-- pointer that they pass. What an allocation or the clock returns is an argument.
pub mod Fairness
pub mod Ring
pub mod Rotation
pub mod Steps
pub mod Valid
mod Tests
use munt3os.Base.{
  ℕ, zero, suc, ◌+◌, ◌-◌, ◌*◌, ◌/◌, ◌%◌, ◌^◌, ◌≤◌, ◌<◌, min, max, ◌≡◌, refl, sym, ap, ap₂, ◌∙◌, ◌≢◌,
  ◌↔◌, ◌⊎◌, inl, inr, Bool, true, false, not, ◌&&◌, ◌||◌, Option, none, some, List, [], ◌∷◌, ◌++◌,
  map, append-nil, append_assoc, arith, ℕ_discrete, ltb, leb, ◌==◌, if◌then◌else◌, ltb→lt, lt→ltb,
  ltb→le, le→ltb, leb→le, ==_iff, ==_refl, suc-ne-zero, zero-lt-suc, Bool-cases, Option-cases,
  length, get_elem?, get_or, set, take, drop, replicate, length-append, length-set,
  length-replicate, length-take, length-drop, take_last, drop-nil, drop_all, take_all, drop-append,
  drop-drop, take_last-append, take_last-append_long, take_last_all, take-append-drop, get_or-set,
  get_or_ext, get_or-replicate, mod-wrap, u64, u32, u8, add_u64, sub_u64, add_u32, sub_u32, mul_u32,
  mul_u64, page_size, ℤ, pos, negsuc, sub_ℕ, neg,
}
use Prim.Native.Nat.{bit_and, bit_or}
use munt3os.Strings.{strlen, strcpy, strncpy, strncat}

-- `thread_state_t`
pub data ThreadState : Type 0 where
  thread_running : ThreadState
  thread_waiting : ThreadState
  thread_zombie : ThreadState
  thread_dead : ThreadState

-- `file_descriptor_t`
pub record Descriptor : Type 0 where
  pub node : ℕ
  pub offset : ℕ
  pub flags : ℕ

-- `cred_t`
pub record Cred : Type 0 where
  pub uid : ℕ
  pub gid : ℕ
  pub euid : ℕ
  pub egid : ℕ

-- `thread_t`, with its own address in place of `next`.
pub record Thread : Type 0 where
  pub address : ℕ
  pub id : ℕ
  pub parent_id : ℕ
  pub name : List ℕ
  pub rsp : ℕ
  pub cr3 : ℕ
  pub start_time : ℕ
  pub stack_bottom : ℕ
  pub stack_size : ℕ
  pub heap_start : ℕ
  pub heap_end : ℕ
  pub mmap_next : ℕ
  pub state : ThreadState
  pub exit_code : ℕ
  pub cwd : ℕ
  pub fds : List Descriptor
  pub cred : Cred
  pub cap : ℕ

-- `thread_queue`, `current_thread`, `next_tid`
pub record Sched : Type 0 where
  pub queue : List Thread
  pub current : ℕ
  pub next_tid : ℕ

abbrev pub is_running : ThreadState → Bool
is_running thread_running = true
is_running thread_waiting = false
is_running thread_zombie = false
is_running thread_dead = false

-- Neither a zombie nor dead.
abbrev pub is_alive : ThreadState → Bool
is_alive thread_running = true
is_alive thread_waiting = true
is_alive thread_zombie = false
is_alive thread_dead = false

abbrev pub is_zombie : ThreadState → Bool
is_zombie thread_running = false
is_zombie thread_waiting = false
is_zombie thread_zombie = true
is_zombie thread_dead = false

-- The searches: `do { ... } while (t != thread_queue)`.
unfoldable pub find_thread : (Thread → Bool) → List Thread → Option Thread
find_thread p [] = none
find_thread p (t ∷ ts) = if p t then some t else find_thread p ts

-- A write to the thread that the search finds.
unfoldable pub update_thread : (Thread → Bool) → (Thread → Thread) → List Thread → List Thread
update_thread p f [] = []
update_thread p f (t ∷ ts) = if p t then f t ∷ ts else t ∷ update_thread p f ts

-- The ring without that thread; if it is the first, `thread_queue` moves on.
unfoldable pub unqueue : (Thread → Bool) → List Thread → List Thread
unqueue p [] = []
unqueue p (t ∷ ts) = if p t then ts else t ∷ unqueue p ts

abbrev pub at : ℕ → Thread → Bool
at a t = t.address == a

abbrev pub current_thread : Sched → Option Thread
current_thread s = find_thread (at s.current) s.queue

abbrev pub no_descriptor : Descriptor
no_descriptor = record { node = 0; offset = 0; flags = 0 }

-- `MAX_FDS`
abbrev pub max_fds : ℕ
max_fds = 32

-- The words that `sched_add_thread` pushes, from the lowest address on.
abbrev pub first_frame : ℕ → ℕ → ℕ → List ℕ
first_frame entry_point bottom size =
    replicate 15 0 ++ (entry_point ∷ 0x28 ∷ 0x202 ∷ add_u64 bottom size ∷ 0x30 ∷ [])

abbrev pub thread_name : Option (List ℕ) → List ℕ
thread_name none = (strcpy (replicate 256 0) (117 ∷ 110 ∷ 110 ∷ 97 ∷ 109 ∷ 101 ∷ 100 ∷ 0 ∷ [])).1
thread_name (some name) = set (strncpy (replicate 256 0) name 255) 255 0

abbrev pub id_or_zero : Option Thread → ℕ
id_or_zero none = 0
id_or_zero (some t) = t.id

abbrev pub cwd_or_null : Option Thread → ℕ
cwd_or_null none = 0
cwd_or_null (some t) = t.cwd

-- `a` is where `kmalloc` puts the thread; a NULL is not looked at. `time` is the clock's.
unfoldable pub add_thread : ℕ → ℕ → Option (List ℕ) → ℕ → ℕ → ℕ → Sched → Sched
unfolding find_thread
add_thread a time name bottom size cr3 s =
    let t : Thread = record {
      address = a;
      id = s.next_tid;
      parent_id = id_or_zero (current_thread s);
      name = thread_name name;
      rsp = sub_u64 (add_u64 bottom size) 160;
      cr3 = cr3;
      start_time = time;
      stack_bottom = bottom;
      stack_size = size;
      heap_start = 0;
      heap_end = 0;
      mmap_next = 0;
      state = thread_running;
      exit_code = 0;
      cwd = cwd_or_null (current_thread s);
      fds = replicate max_fds no_descriptor;
      cred = record { uid = 0; gid = 0; euid = 0; egid = 0 };
      cap = 0;
    } in
    record s { queue = s.queue ++ (t ∷ []); next_tid = add_u64 s.next_tid 1 }

-- `sched_kthread`, with the stack that it allocates and the `cr3` that it reads; the thread is the one
-- that `sched_add_thread` made.
unfoldable pub kthread : ℕ → ℕ → Option (List ℕ) → ℕ → ℕ → ℕ → ℕ → ℕ → Sched → ℕ × Sched
unfolding add_thread update_thread
kthread a time name stack cr3 cap uid gid s =
    let s1 = add_thread a time name stack (4096 * 4) cr3 s in
    let given : Thread → Thread =
      λ t. record t { cap = cap; cred = record { uid = uid; gid = gid; euid = uid; egid = gid } } in
    (s.next_tid, record s1 { queue = update_thread (λ t. t.id == s.next_tid) given s1.queue })

-- The ring as seen from `current_thread->next`: the current thread is the last. `before` is what the
-- walk has passed.
unfoldable pub ring_after : ℕ → List Thread → List Thread → List Thread
ring_after a before [] = before
ring_after a before (t ∷ ts) =
    if t.address == a then ts ++ (before ++ (t ∷ [])) else ring_after a (before ++ (t ∷ [])) ts

-- The loop of `sched_tick` over that ring: the first thread that runs, or the first of all.
unfoldable pub first_running : List Thread → Option Thread
first_running [] = none
first_running (t ∷ ts) = if is_running t.state then some t else first_running ts

abbrev pub first_thread : List Thread → Option Thread
first_thread [] = none
first_thread (t ∷ ts) = some t

unfoldable pub pick : List Thread → Option Thread
unfolding first_running
pick ts = elim (first_running ts) [ some t ↦ some t | none ↦ first_thread ts ]

-- The tick where there is a current thread. The result is the stack pointer to go on with.
unfoldable pub switch : ℕ → Sched → ℕ × Sched
unfolding update_thread ring_after pick
switch rsp s =
    let q = update_thread (at s.current) (λ t. record t { rsp = rsp }) s.queue in
    elim (pick (ring_after s.current [] q)) [
      | none ↦ (rsp, s)
      | some t ↦ (t.rsp, record s { queue = q; current = t.address })
    ]

unfoldable pub tick : ℕ → Sched → ℕ × Sched
unfolding switch
tick rsp s =
    let started : Thread → ℕ × Sched = λ t.
      if is_running t.state
      then (t.rsp, record s { current = t.address })
      else switch rsp (record s { current = t.address }) in
    if s.current == 0
    then elim (first_thread s.queue) [ none ↦ (rsp, s) | some t ↦ started t ]
    else switch rsp s

-- `sched_exit`, up to the interrupt in its last loop.
unfoldable pub exit : ℕ → Sched → Sched
unfolding update_thread
exit status s =
    let gone : Thread → Thread = λ t. record t {
      state = thread_zombie;
      exit_code = status;
      fds = map (λ (d : Descriptor). record d { node = 0 }) t.fds;
    } in
    record s { queue = update_thread (at s.current) gone s.queue }

unfoldable pub kill_thread : ℕ → Thread → Thread
kill_thread sig t =
    if is_alive t.state then record t { state = thread_zombie; exit_code = add_u32 128 sig } else t

-- `sched_kill`; the Boolean says whether it returns 0, not -1.
unfoldable pub kill : ℕ → ℕ → Sched → Bool × Sched
unfolding find_thread update_thread kill_thread
kill pid sig s = elim (find_thread (λ t. t.id == pid) s.queue) [
  | none ↦ (false, s)
  | some t ↦ (true, record s { queue = update_thread (λ t. t.id == pid) (kill_thread sig) s.queue })
]

-- What is given back of a thread that is reaped: `vmm_free_cr3` and the calls of `kfree`.
pub data Release : Type 0 where
  release_cr3 : ℕ → Release
  release_memory : ℕ → Release

-- The address space, unless it is the kernel's, the stack and the thread itself, in this order.
unfoldable pub releases : ℕ → Thread → List Release
releases kernel_cr3 t =
    let memory = release_memory t.stack_bottom ∷ release_memory t.address ∷ [] in
    if t.cr3 == kernel_cr3 then memory else release_cr3 t.cr3 ∷ memory

-- What one round of the loop of `sched_waitpid` comes to: -1, another round after the interrupt, or
-- `pid`, with the status that it stores and what it gives back.
pub data Waited : Type 0 where
  no_child : Waited
  must_wait : Waited
  reaped : ℕ → List Release → Waited

abbrev pub is_child : ℕ → ℕ → Thread → Bool
is_child pid parent t = (t.id == pid) && (t.parent_id == parent)

unfoldable pub waitpid : ℕ → ℕ → Sched → Waited × Sched
unfolding find_thread unqueue releases
waitpid kernel_cr3 pid s =
    let reap : Thread → Thread → Waited × Sched = λ parent target.
      if is_zombie target.state
      then (
        reaped target.exit_code (releases kernel_cr3 target),
        record s { queue = unqueue (is_child pid parent.id) s.queue },
      )
      else (must_wait, s) in
    elim (current_thread s) [
      | none ↦ (no_child, s)
      | some parent ↦ elim (find_thread (is_child pid parent.id) s.queue) [
        | none ↦ (no_child, s)
        | some target ↦ reap parent target
      ]
    ]

-- A word of the parent's stack that points into that stack is made to point into the child's.
unfoldable pub relocate : ℕ → ℕ → ℕ → ℕ → ℕ
relocate parent size child w =
    if leb parent w && ltb w (add_u64 parent size) then add_u64 (sub_u64 w parent) child else w

-- The child's stack, as words: a copy in which the word at its stack pointer is 0 and the pointers into
-- the stack are moved.
unfoldable pub fork_stack : ℕ → ℕ → ℕ → ℕ → List ℕ → List ℕ
unfolding relocate
fork_stack parent size child rsp words =
    map (relocate parent size child) (set words (sub_u64 rsp parent / 8) 0)

abbrev pub copied_fd : Descriptor → Descriptor
copied_fd d = if d.node == 0 then no_descriptor else d

-- `(uint64_t)-1`
abbrev pub fork_failed : ℕ
fork_failed = 2 ^ 64 - 1

-- The child that `sched_fork_internal` builds from the current thread.
unfoldable pub fork_child : ℕ → ℕ → ℕ → ℕ → ℕ → ℕ → Thread → Thread
fork_child a id cr3 stack time rsp t = record {
  address = a;
  id = id;
  parent_id = t.id;
  name =
      (let name = (strcpy (replicate 256 0) t.name).1 in
        strncat name (95 ∷ 102 ∷ 0 ∷ []) (sub_u64 31 (strlen name)));
  rsp = add_u64 stack (sub_u64 rsp t.stack_bottom);
  cr3 = cr3;
  start_time = time;
  stack_bottom = stack;
  stack_size = t.stack_size;
  heap_start = t.heap_start;
  heap_end = t.heap_end;
  mmap_next = t.mmap_next;
  state = thread_running;
  exit_code = 0;
  cwd = t.cwd;
  fds = map copied_fd t.fds;
  cred = record { uid = 0; gid = 0; euid = 0; egid = 0 };
  cap = 0;
}

-- `sched_fork_internal` without the stack, which is `fork_stack`. The arguments are where the child is
-- put, the `cr3` of the cloned context if it was made, where its stack is put, and the clock.
unfoldable pub fork : ℕ → Option ℕ → ℕ → ℕ → ℕ → Sched → ℕ × Sched
unfolding find_thread fork_child
fork a clone stack time rsp s =
    let counted : Sched = record s { next_tid = add_u64 s.next_tid 1 } in
    let with_clone : Thread → ℕ → ℕ × Sched = λ t cr3.
      if stack == 0 then (fork_failed, counted) else (
        s.next_tid,
        record counted { queue = s.queue ++ (fork_child a s.next_tid cr3 stack time rsp t ∷ []) },
      ) in
    let from : Thread → ℕ × Sched = λ t.
      if (t.stack_bottom == 0) || (t.stack_size == 0)
      then (fork_failed, s)
      else if a == 0
      then (fork_failed, s)
      else elim clone [ none ↦ (fork_failed, counted) | some cr3 ↦ with_clone t cr3 ] in
    elim (current_thread s) [ none ↦ (fork_failed, s) | some t ↦ from t ]

-- `CAP_CHECK`
abbrev pub cap_check : ℕ → ℕ → Bool
cap_check cap flag = bit_and cap flag == flag

-- `set_capabilities`: `cap` is set or cleared in the current thread's word.
unfoldable pub set_capabilities : ℕ → Bool → Sched → Sched
unfolding update_thread
set_capabilities cap on s =
    let word : Thread → ℕ =
      λ t. if on then bit_or t.cap cap else bit_and t.cap (2 ^ 64 - 1 - cap) in
    record s { queue = update_thread (at s.current) (λ t. record t { cap = word t }) s.queue }

-- `setuid`, `setgid`, `seteuid` and `setegid` are this, with the capability each asks for.
unfoldable pub set_cred : ℕ → (Cred → Cred) → Sched → Sched
unfolding update_thread
set_cred flag f s =
    let given : Thread → Thread =
      λ t. if cap_check t.cap flag then record t { cred = f t.cred } else t in
    record s { queue = update_thread (at s.current) given s.queue }

abbrev pub setuid : ℕ → Sched → Sched
unfolding set_cred
setuid uid s = set_cred 0x1 (λ c. record c { uid = uid }) s

abbrev pub setgid : ℕ → Sched → Sched
unfolding set_cred
setgid gid s = set_cred 0x2 (λ c. record c { gid = gid }) s

abbrev pub seteuid : ℕ → Sched → Sched
unfolding set_cred
seteuid euid s = set_cred 0x4 (λ c. record c { euid = euid }) s

abbrev pub setegid : ℕ → Sched → Sched
unfolding set_cred
setegid egid s = set_cred 0x8 (λ c. record c { egid = egid }) s

-- The inline function `kill`.
unfoldable pub kill_checked : ℕ → Sched → Sched
unfolding find_thread kill
kill_checked pid s =
    let allowed : Thread → Bool = λ t.
      (t.cred.uid == 0)
      || (t.cred.euid == 0)
      || cap_check t.cap 0x8000
      || cap_check t.cap 0x8000000000000000 in
    elim (current_thread s) [ none ↦ s | some t ↦ if allowed t then (kill pid 9 s).1 else s ]
