-- ===== src/Process/Delivery.antt =====
-- The delivery of events, as long as no process exits: each event that waits is delivered, in the order of
-- the queue.
use knx_iot_stack.Prelude.{
  ℕ, zero, suc, ◌+◌, ◌<◌, ◌≡◌, ◌≢◌, refl, sym, ap, subst, ◌∙◌, arith, append_assoc, append-nil,
  Option, none, some, Bool, true, false, not, ◌&&◌, ◌||◌, List, [], ◌∷◌, ◌++◌, ◌==◌, if◌then◌else◌,
  length, Bool-cases, inl, inr, bit_and,
}
use knx_iot_stack.Process.Events.{Event, Queue, take_event, contents, IsValid}
use knx_iot_stack.Process.Events.Refine.{take_event-contents}
use knx_iot_stack.Process.{
  exit_process, ◌>>=◌, Kernel, update, event_init, event_poll, event_exit, call_process, after_call,
  poll_loop, do_poll, polled, broadcast, deliver, do_event, run, runs,
}

-- No event asks a process to exit.
abbrev pub AllQuiet : List Event → Type 0
AllQuiet [] = Unit
AllQuiet (e ∷ es) = ((e.ev == event_exit) ≡ false) × AllQuiet es

AllQuiet-append : (xs ys : List Event) → AllQuiet xs → AllQuiet ys → AllQuiet (xs ++ ys)
AllQuiet-append [] ys h g = g
AllQuiet-append (x ∷ xs) ys h g = (h.0, AllQuiet-append xs ys h.1 g)

-- Between two moments the list of processes stays, and quiet events are put behind those that wait.
pub record Moves (list : ℕ) (next : ℕ → ℕ) (queue : Queue) (list' : ℕ) (next' : ℕ → ℕ)
    (queue' : Queue) : Type 0 where
  pub same_list : list' ≡ list
  pub same_next : next' ≡ next
  pub valid : IsValid queue'
  pub more : List Event
  pub appended : contents queue' ≡ contents queue ++ more
  pub quiet : AllQuiet more

abbrev pub Goes : Kernel → Kernel → Type 0
Goes k k' = Moves k.list k.next k.queue k'.list k'.next k'.queue

pub Goes-refl : (k : Kernel) → IsValid k.queue → Goes k k
Goes-refl k v = record {
  same_list = refl;
  same_next = refl;
  valid = v;
  more = [];
  appended = sym (append-nil (contents k.queue));
  quiet = tt;
}

Goes-trans : (a b c : Kernel) → Goes a b → Goes b c → Goes a c
Goes-trans a b c g h = record {
  same_list = h.same_list ∙ g.same_list;
  same_next = h.same_next ∙ g.same_next;
  valid = h.valid;
  more = g.more ++ h.more;
  appended =
      h.appended ∙ ap (λ l. l ++ h.more) g.appended ∙ append_assoc (contents a.queue) g.more h.more;
  quiet = AllQuiet-append g.more h.more g.quiet h.quiet;
}

-- A chain of links with its length, NULL behind the last.
abbrev pub Ends : (ℕ → ℕ) → ℕ → ℕ → Type 0
Ends next zero p = p ≡ 0
Ends next (suc m) p = (p ≢ 0) × Ends next m (next p)

-- What a call returns, with what it leaves alone.
abbrev pub Returns : Kernel → Option Kernel → Type 0
Returns k none = ⊥
Returns k (some k') = Goes k k'

-- A next step, from a state that was reached.
then-Returns :
    (k : Kernel) (o : Option Kernel) (f : Kernel → Option Kernel)
    → Returns k o
    → ((k' : Kernel) → Goes k k' → Returns k' (f k'))
    → Returns k (o >>= f)
then-Returns k none f h g = h
then-Returns k (some k') f h g = later (f k') (g k' h)
  where
    later : (o : Option Kernel) → Returns k' o → Returns k o
    later none r = r
    later (some k'') r = Goes-trans k k' k'' h r

-- The list of processes is as it was.
Ends-list : (m : ℕ) (k k' : Kernel) → Goes k k' → Ends k.next m k.list → Ends k'.next m k'.list
Ends-list m k k' g h =
    subst (λ p. Ends k'.next m p) (sym g.same_list)
      (subst (λ f. Ends f m k.list) (sym g.same_next) h)

Returns-some :
    (k : Kernel) (o : Option Kernel) → Returns k o → (k' : Kernel) × (o ≡ some k') × Goes k k'
Returns-some k none h = absurd h
Returns-some k (some k') h = (k', refl, h)

after_call-Returns :
    (k : Kernel) (exit : Kernel → Option Kernel) (p ev : ℕ) (r : Kernel × ℕ)
    → (ev == event_exit) ≡ false
    → r.1 < 2
    → Goes k r.0
    → Returns k (after_call exit p ev r)
unfolding after_call
after_call-Returns k exit p ev (k', ret) q y g =
    let stays : (ret == 2 || ret == 3 || ev == event_exit) ≡ false = ground arith in
    rw (stays, after_call) g

module _ (has_thread : ℕ → Bool) (thread : ℕ → ℕ → ℕ → Kernel → Kernel × ℕ) where
  -- A run takes the first of the events that wait, and delivers it, after the polls that were asked for.
  abbrev pub Dispatches : ℕ → Event → Kernel → Type 0
  Dispatches n e k =
      (k' : Kernel) × (queue : Queue) × (polled has_thread thread n k ≡ some k')
      × (take_event k'.queue ≡ some (e, queue))
      × (run has_thread thread n k ≡ deliver has_thread thread n e (record k' { queue = queue }))

module _ (has_thread : ℕ → Bool) (thread : ℕ → ℕ → ℕ → Kernel → Kernel × ℕ)
    (goes : (p ev d : ℕ) (k : Kernel) → IsValid k.queue → Goes k (thread p ev d k).0)
    (yields : (p ev d : ℕ) (k : Kernel) → (thread p ev d k).1 < 2) where
  call_process-Returns :
      (n p ev d : ℕ) (k : Kernel)
      → (ev == event_exit) ≡ false
      → IsValid k.queue
      → Returns k (call_process has_thread thread (suc n) p ev d k)
  unfolding call_process
  call_process-Returns n p ev d k q v =
      let called = record k { current = p; state = update k.state p 2 } in
      elim (Bool-cases (not (bit_and (k.state p) 1 == 0) && has_thread p)) [
        | inl runs ↦
            rw (runs, call_process)
              (after_call-Returns k (λ x. exit_process has_thread thread n p p x) p ev
                (thread p ev d called) q (yields p ev d called) (goes p ev d called v))
        | inr rests ↦ rw (rests, call_process) (Goes-refl k v)
      ]

  poll_loop-Returns :
      (n m p : ℕ) (k : Kernel)
      → Ends k.next m p
      → m < n
      → IsValid k.queue
      → Returns k (poll_loop has_thread thread n p k)
  unfolding poll_loop
  poll_loop-Returns zero m p k c l v = elim l [ ]
  poll_loop-Returns (suc n) zero p k c l v = rw (c, poll_loop) (Goes-refl k v)
  poll_loop-Returns (suc zero) (suc m) p k c l v = absurd (omega arith)
  poll_loop-Returns (suc (suc n)) (suc m) p k c l v =
      let there : (p == 0) ≡ false = ground (arith, c) in
      rw (there, poll_loop)
        (then-Returns k _ _ (one (k.needspoll p)) (λ k' g.
          poll_loop-Returns (suc n) m (k'.next p) k'
            (subst (λ f. Ends f m (f p)) (sym g.same_next) c.1) (omega arith) g.valid))
    where
      one :
          (b : Bool)
          → Returns k (
              if b
              then call_process has_thread thread
                  (suc n)
                  p
                  event_poll
                  0
                  (record k { state = update k.state p 1; needspoll = update k.needspoll p false })
              else some k)
      one true =
          call_process-Returns n p event_poll 0
            (record k { state = update k.state p 1; needspoll = update k.needspoll p false }) refl v
      one false = Goes-refl k v

  polled-Returns :
      (n m : ℕ) (k : Kernel)
      → Ends k.next m k.list
      → m < n
      → IsValid k.queue
      → Returns k (polled has_thread thread n k)
  unfolding polled do_poll
  polled-Returns n m k c l v = elim (Bool-cases k.poll_requested) [
    | inl asked ↦
        rw (asked, polled)
          (poll_loop-Returns n m k.list (record k { poll_requested = false }) c l v)
    | inr idle ↦ rw (idle, polled) (Goes-refl k v)
  ]

  -- `whole` is the length of the list, `m` that of the rest that the loop is at.
  broadcast-Returns :
      (n m whole ev d p : ℕ) (k : Kernel)
      → (ev == event_exit) ≡ false
      → Ends k.next m p
      → Ends k.next whole k.list
      → m + whole < n
      → IsValid k.queue
      → Returns k (broadcast has_thread thread n ev d p k)
  unfolding broadcast
  broadcast-Returns zero m whole ev d p k q c w l v = elim l [ ]
  broadcast-Returns (suc n) zero whole ev d p k q c w l v = rw (c, broadcast) (Goes-refl k v)
  broadcast-Returns (suc zero) (suc m) whole ev d p k q c w l v = absurd (omega arith)
  broadcast-Returns (suc (suc n)) (suc m) whole ev d p k q c w l v =
      let there : (p == 0) ≡ false = ground (arith, c) in
      rw (there, broadcast)
        (then-Returns k _ _
          (then-Returns k _ _ (polled-Returns (suc n) whole k w (omega arith) v)
            (λ k' g. call_process-Returns n p ev d k' q g.valid))
          (λ k' g.
            broadcast-Returns (suc n) m whole ev d (k'.next p) k' q
              (subst (λ f. Ends f m (f p)) (sym g.same_next) c.1) (Ends-list whole k k' g w)
              (omega arith) g.valid))

  deliver-Returns :
      (n m : ℕ) (e : Event) (k : Kernel)
      → (e.ev == event_exit) ≡ false
      → Ends k.next m k.list
      → m + m < n
      → IsValid k.queue
      → Returns k (deliver has_thread thread n e k)
  unfolding deliver
  deliver-Returns zero m e k q c l v = elim l [ ]
  deliver-Returns (suc n) m e k q c l v = elim (Bool-cases (e.receiver == 0)) [
    | inl all ↦ rw (all, deliver) (broadcast-Returns (suc n) m m e.ev e.payload k.list k q c c l v)
    | inr one ↦ rw (one, deliver) (started (e.ev == event_init))
  ]
    where
      started :
          (b : Bool)
          → Returns k (
              call_process has_thread thread
                (suc n)
                e.receiver
                e.ev
                e.payload
                (if b then record k { state = update k.state e.receiver 1 } else k))
      started true =
          call_process-Returns n e.receiver e.ev e.payload
            (record k { state = update k.state e.receiver 1 }) q v
      started false = call_process-Returns n e.receiver e.ev e.payload k q v

  -- What a run of the scheduler does to a queue that is not empty.
  record Ran (n : ℕ) (e : Event) (rest : List Event) (k : Kernel) : Type 0 where
    dispatches : Dispatches has_thread thread n e k
    after : Kernel
    ran : run has_thread thread n k ≡ some after
    same_list : after.list ≡ k.list
    same_next : after.next ≡ k.next
    valid : IsValid after.queue
    more : List Event
    left : contents after.queue ≡ rest ++ more
    quiet : AllQuiet more

  run-delivers :
      (n : ℕ) (e : Event) (k k' : Kernel) (queue : Queue)
      → polled has_thread thread n k ≡ some k'
      → take_event k'.queue ≡ some (e, queue)
      → run has_thread thread n k ≡ deliver has_thread thread n e (record k' { queue = queue })
  unfolding run do_event
  run-delivers n e k k' queue p t = rw (p, run) (rw (t, do_event) refl)

  run-Ran :
      (n m : ℕ) (e : Event) (rest : List Event) (k : Kernel)
      → contents k.queue ≡ e ∷ rest
      → (e.ev == event_exit) ≡ false
      → Ends k.next m k.list
      → m + m < n
      → IsValid k.queue
      → Ran n e rest k
  run-Ran n m e rest k h q c l v =
      let (k1, polls, g1) = Returns-some k _ (polled-Returns n m k c (omega (arith, l)) v) in
      let (queue, takes, v', left) =
        take_event-contents k1.queue e (rest ++ g1.more) g1.valid
          (g1.appended ∙ ap (λ x. x ++ g1.more) h) in
      let k2 : Kernel = record k1 { queue = queue } in
      let (k3, delivers, g2) =
        Returns-some k2 _ (deliver-Returns n m e k2 q (Ends-list m k k1 g1 c) l v') in
      let runs_to : run has_thread thread n k ≡ deliver has_thread thread n e k2 =
        run-delivers n e k k1 queue polls takes in
      record {
        dispatches = (k1, queue, polls, takes, runs_to);
        after = k3;
        ran = runs_to ∙ delivers;
        same_list = g2.same_list ∙ g1.same_list;
        same_next = g2.same_next ∙ g1.same_next;
        valid = g2.valid;
        more = g1.more ++ g2.more;
        left = g2.appended ∙ ap (λ x. x ++ g2.more) left ∙ append_assoc rest g1.more g2.more;
        quiet = AllQuiet-append g1.more g2.more g1.quiet g2.quiet;
      }

  -- An event that waits behind others is dispatched by the run that follows as many runs as there are
  -- others before it; all these runs return, with fuel above twice the length of the list of processes.
  -- The list ends, no event that waits asks a process to exit, and the threads do not exit, leave the
  -- list alone, and put such events behind those that wait.
  pub event-dispatched :
      (n m : ℕ) (e : Event) (before behind : List Event) (k : Kernel)
      → contents k.queue ≡ before ++ e ∷ behind
      → AllQuiet (before ++ e ∷ behind)
      → Ends k.next m k.list
      → m + m < n
      → IsValid k.queue
      → (k' : Kernel) × (runs has_thread thread n (length before) k ≡ some k')
        × Dispatches has_thread thread n e k'
  unfolding runs
  event-dispatched n m e [] behind k h q c l v =
      (k, refl, (run-Ran n m e behind k h q.0 c l v).dispatches)
  event-dispatched n m e (x ∷ before) behind k h q c l v =
      let r = run-Ran n m x (before ++ e ∷ behind) k h q.0 c l v in
      let (k', later, d) =
        event-dispatched n m e before (behind ++ r.more) r.after
          (r.left ∙ append_assoc before (e ∷ behind) r.more)
          (rw (← append_assoc before (e ∷ behind) r.more)
            (AllQuiet-append (before ++ e ∷ behind) r.more q.1 r.quiet))
          (subst (λ p. Ends r.after.next m p) (sym r.same_list)
            (subst (λ f. Ends f m k.list) (sym r.same_next) c))
          l r.valid in
      (k', rw (r.ran, runs) later, d)
