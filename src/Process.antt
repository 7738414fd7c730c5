-- ===== src/Process.antt =====
-- util/oc_process.c: the scheduler of processes: the list of processes, the calls of their threads, the
-- requests for polls and the delivery of events.
-- A process is its address, NULL is 0; a memory holds the fields of the processes. The threads are code of
-- the stack and of the application above: `thread` gives for a call of the thread of a process, with an
-- event and its data, the state after the call and what the call returns, and may use all operations of the
-- scheduler. The loops and the calls that processes make of one another run on fuel, `none` is its end.
pub mod Events
pub mod Delivery
mod Tests
use knx_iot_stack.Prelude.{
  ℕ, zero, suc, ◌+◌, ◌%◌, Option, none, some, Bool, true, false, not, ◌&&◌, ◌||◌, ◌==◌,
  if◌then◌else◌, bit_and,
}
use knx_iot_stack.Process.Events.{Event, Queue, PostResult, post, take_event, empty_queue}

pub record Kernel : Type 0 where
  pub next : ℕ → ℕ
  pub state : ℕ → ℕ
  pub needspoll : ℕ → Bool
  pub list : ℕ
  pub current : ℕ
  pub poll_requested : Bool
  pub lastevent : ℕ
  pub queue : Queue

abbrev pub update : {A : Type 0} → (ℕ → A) → ℕ → A → ℕ → A
update f p a q = if q == p then a else f q

abbrev pub event_init : ℕ
event_init = 0x81

abbrev pub event_poll : ℕ
event_poll = 0x82

abbrev pub event_exit : ℕ
event_exit = 0x83

abbrev pub event_exited : ℕ
event_exited = 0x87

-- The next step of a chain, if the one before has ended.
infixl 5 ◌>>=◌
abbrev pub ◌>>=◌ {ℓ κ} : {A : Type ℓ} {B : Type κ} → Option A → (A → Option B) → Option B
none >>= f = none
some a >>= f = f a

-- `oc_process_alloc_event`; the events are of the type unsigned char.
unfoldable pub alloc_event : Kernel → Kernel × ℕ
alloc_event k = (record k { lastevent = (k.lastevent + 1) % 256 }, k.lastevent)

-- `oc_process_is_running`
unfoldable pub is_running : ℕ → Kernel → Bool
is_running p k = not (k.state p == 0)

-- The loop that looks for a process: whether it ends at the process.
unfoldable pub find : ℕ → (ℕ → ℕ) → ℕ → ℕ → Option ℕ
find zero next p q = none
find (suc n) next p q =
    let rest = find n next p (next q) in if q == p || q == 0 then some q else rest

-- The loop of `exit_process` that takes a process out of the list behind its head.
unfoldable pub unlink : ℕ → ℕ → ℕ → Kernel → Option Kernel
unlink zero p q k = none
unlink (suc n) p q k =
    let rest = unlink n p (k.next q) k in
    if q == 0
    then some k
    else if not (p == 0) && k.next q == p
    then some (record k { next = update k.next q (k.next p) })
    else rest

unfoldable pub remove : ℕ → ℕ → Kernel → Option Kernel
unfolding unlink
remove n p k = if p == k.list then some (record k { list = k.next k.list }) else unlink n p k.list k

-- `oc_process_post`
unfoldable pub process_post :
    Bool → Bool → (ℕ → Event) → Event → Kernel → Option (Kernel × PostResult)
process_post dynamic allocated fresh e k =
    post dynamic allocated fresh e k.queue >>= λ (r : Queue × PostResult).
    some (record k { queue = r.0 }, r.1)

-- `oc_process_poll`
unfoldable pub process_poll : ℕ → Kernel → Kernel
process_poll p k =
    if not (p == 0) && (k.state p == 1 || k.state p == 2)
    then record k { needspoll = update k.needspoll p true; poll_requested = true }
    else k

-- `oc_process_init`; a request for a poll stays.
unfoldable pub process_init : Kernel → Kernel
process_init k = record k { lastevent = 0x8a; queue = empty_queue; current = 0; list = 0 }

-- The end of `call_process`: PT_EXITED and PT_ENDED, and the event OC_PROCESS_EVENT_EXIT, end the process.
unfoldable pub after_call : (Kernel → Option Kernel) → ℕ → ℕ → Kernel × ℕ → Option Kernel
after_call exit p ev (k, ret) =
    if ret == 2 || ret == 3 || ev == event_exit
    then exit k
    else some (record k { state = update k.state p 1 })

module _ (has_thread : ℕ → Bool) (thread : ℕ → ℕ → ℕ → Kernel → Kernel × ℕ) where
  -- The thread of a process that exits is told so, unless the process itself exits.
  unfoldable pub tell : ℕ → ℕ → Kernel → Kernel
  tell p from k =
      if has_thread p && not (p == from)
      then (thread p event_exit 0 (record k { current = p })).0
      else k

  unfoldable mutual
    pub call_process : ℕ → ℕ → ℕ → ℕ → Kernel → Option Kernel
    call_process zero p ev d k = none
    call_process (suc n) p ev d k =
        if not (bit_and (k.state p) 1 == 0) && has_thread p
        then after_call (exit_process n p p) p ev
            (thread p ev d (record k { current = p; state = update k.state p 2 }))
        else some k

    pub exit_process : ℕ → ℕ → ℕ → Kernel → Option Kernel
    exit_process zero p from k = none
    exit_process (suc n) p from k =
        find (suc n) k.next p k.list >>= λ (q : ℕ). if q == 0 then some k else leave n p from k

    -- A process that is on the list exits.
    pub leave : ℕ → ℕ → ℕ → Kernel → Option Kernel
    leave zero p from k = none
    leave (suc n) p from k =
        elim (k.state p == 0) [
          | true ↦ some k
          | false ↦
              notify n p k.list (record k { state = update k.state p 0 })
              >>= (λ (k' : Kernel). some (tell p from k'))
        ]
        >>= (λ (k' : Kernel). remove (suc n) p k')
        >>= (λ (k' : Kernel). some (record k' { current = k.current }))

    -- The other processes are told that a process exits.
    pub notify : ℕ → ℕ → ℕ → Kernel → Option Kernel
    notify zero p q k = none
    notify (suc n) p q k =
        if q == 0
        then some k
        else elim (p == q) [ true ↦ some k | false ↦ call_process n q event_exited p k ]
          >>= λ (k' : Kernel). notify n p (k'.next q) k'

  -- `oc_process_exit`
  unfoldable pub process_exit : ℕ → ℕ → Kernel → Option Kernel
  process_exit n p k = exit_process n p k.current k

  -- `oc_process_post_synch`
  unfoldable pub post_synch : ℕ → ℕ → ℕ → ℕ → Kernel → Option Kernel
  post_synch n p ev d k =
      call_process n p ev d k >>= λ (k' : Kernel). some (record k' { current = k.current })

  -- `oc_process_start`
  unfoldable pub start : ℕ → ℕ → ℕ → Kernel → Option Kernel
  start n p d k = find n k.next p k.list >>= λ (q : ℕ).
      if q == p
      then some k
      else post_synch n p event_init d
          (record k { next = update k.next p k.list; list = p; state = update k.state p 1 })

  -- the loop of `do_poll`
  unfoldable pub poll_loop : ℕ → ℕ → Kernel → Option Kernel
  poll_loop zero p k = none
  poll_loop (suc n) p k =
      if p == 0
      then some k
      else (if k.needspoll p
          then call_process n p event_poll 0
              (record k { state = update k.state p 1; needspoll = update k.needspoll p false })
          else some k)
        >>= λ (k' : Kernel). poll_loop n (k'.next p) k'

  -- `do_poll`
  unfoldable pub do_poll : ℕ → Kernel → Option Kernel
  do_poll n k = poll_loop n k.list (record k { poll_requested = false })

  -- A poll, if one is requested.
  unfoldable pub polled : ℕ → Kernel → Option Kernel
  polled n k = if k.poll_requested then do_poll n k else some k

  -- The loop that delivers an event to all processes, with polls between.
  unfoldable pub broadcast : ℕ → ℕ → ℕ → ℕ → Kernel → Option Kernel
  broadcast zero ev d p k = none
  broadcast (suc n) ev d p k =
      if p == 0
      then some k
      else polled n k >>= (λ (k' : Kernel). call_process n p ev d k') >>= λ (k' : Kernel).
          broadcast n ev d (k'.next p) k'

  -- The delivery of an event in `do_event`.
  unfoldable pub deliver : ℕ → Event → Kernel → Option Kernel
  deliver n e k =
      if e.receiver == 0
      then broadcast n e.ev e.payload k.list k
      else call_process n e.receiver e.ev e.payload
          (if e.ev == event_init then record k { state = update k.state e.receiver 1 } else k)

  -- `do_event`
  unfoldable pub do_event : ℕ → Kernel → Option Kernel
  do_event n k = elim (take_event k.queue) [
    | none ↦ some k
    | some (e, queue) ↦ deliver n e (record k { queue = queue })
  ]

  -- `oc_process_run`; what it returns is `nevents`.
  unfoldable pub run : ℕ → Kernel → Option Kernel
  run n k = polled n k >>= do_event n

  -- `run` as often as the number says.
  unfoldable pub runs : ℕ → ℕ → Kernel → Option Kernel
  runs n zero k = some k
  runs n (suc rounds) k = run n k >>= runs n rounds

-- `oc_process_nevents`, and what `oc_process_run` returns
unfoldable pub nevents : Kernel → ℕ
nevents k = k.queue.nevents + (if k.poll_requested then 1 else 0)
