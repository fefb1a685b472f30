-- ===== src/Scheduler/Signals.antt =====
-- src/scheduler.rs: what becomes of a signal, also while the node is executed.
use flowd.Base.{
  ℕ, ◌≤◌, ◌<◌, ◌≡◌, refl, true, false, Option, none, some, List, [], ◌∷◌, arith, length,
  length-append, ◌+◌, if_elim, Str, str_eq_iff, get, get-remove, contains, contains-append,
  index_of_contains, index-lt-length,
}
use flowd.Api.Context.{Flags, NodeContext}
use flowd.Scheduler.State.{
  Scheduler, enqueue, enqueue_counted, count_queue, raise_flag, signal_ready, signal_flagged,
  wake_at, create_waker,
}
use flowd.Scheduler.Timers.{drain_expired_timers}
use flowd.Scheduler.Execute.{Reply}
use flowd.Scheduler.Run.{World, executing, halted, Event, signals, pick, check_out, poll, step}
use flowd.Scheduler.Queue.{IsQueued}
use flowd.Scheduler.Fairness.{turns, Served, queued-Served}

module _ {C : Type 0} where
  enqueue_counted-contains :
      (n : Str) (s : Scheduler C) → IsQueued s → contains (enqueue_counted n s).ready_queue n ≡ true
  unfolding enqueue_counted count_queue enqueue
  enqueue_counted-contains n s v =
      ground (arith, v.paired.in_sync n, contains-append s.ready_queue n n, str_eq_iff n n)

  length-enqueue_counted :
      (n : Str) (s : Scheduler C)
      → length (enqueue_counted n s).ready_queue ≤ length s.ready_queue + 1
  unfolding enqueue_counted count_queue enqueue
  length-enqueue_counted n s = ground (arith, length-append s.ready_queue (n ∷ []))

  flags-enqueue_counted : (n : Str) (s : Scheduler C) → (enqueue_counted n s).flags ≡ s.flags
  unfolding enqueue_counted count_queue enqueue
  flags-enqueue_counted n s = ground arith

  length-signal_ready :
      (n : Str) (s : Scheduler C)
      → length (signal_ready n s).0.ready_queue ≤ length s.ready_queue + 1
  unfolding signal_ready
  length-signal_ready n s = go (get n s.ready_flags)
    where
      go : (o : Option ℕ) → length (signal_flagged n o s).0.ready_queue ≤ length s.ready_queue + 1
      go none = omega arith
      go (some a) = length-enqueue_counted n (raise_flag (some a) s)

  -- A signal to a node that has a flag is accepted: the flag is up, and the node is in the queue.
  signal_ready_accepted :
      (n : Str) (s : Scheduler C) (a : ℕ)
      → IsQueued s
      → get n s.ready_flags ≡ some a
      → ((signal_ready n s).1 ≡ true)
        × ((signal_ready n s).0.flags a ≡ true)
        × (contains (signal_ready n s).0.ready_queue n ≡ true)
  unfolding signal_ready raise_flag
  signal_ready_accepted n s a v e = rw e (
    refl,
    rw (flags-enqueue_counted n (raise_flag (some a) s)) (ground arith),
    enqueue_counted-contains n (raise_flag (some a) s)
        (record { paired = v.paired; depth = v.depth }),
  )

  -- A signal to a node that has no flag is refused and changes nothing.
  pub signal_ready_refused :
      (n : Str) (s : Scheduler C) → get n s.ready_flags ≡ none → signal_ready n s ≡ (s, false)
  unfolding signal_ready
  signal_ready_refused n s e = rw e

  nodes-check_out :
      (m n : Str) (oc : Option C) (octx : Option NodeContext) (s : Scheduler C) (c : C)
      (ctx : NodeContext)
      → (check_out m oc octx s).phase ≡ executing n c ctx
      → get n (check_out m oc octx s).scheduler.nodes ≡ none
  unfolding check_out
  nodes-check_out m n none octx s c ctx h = cc
  nodes-check_out m n (some d) none s c ctx h = cc
  nodes-check_out m n (some d) (some x) s c ctx h =
      ground (arith, get-remove m n s.nodes, str_eq_iff m n)

  nodes-pick :
      (queue : List Str) (n : Str) (s : Scheduler C) (c : C) (ctx : NodeContext)
      → (pick queue s).phase ≡ executing n c ctx
      → get n (pick queue s).scheduler.nodes ≡ none
  unfolding pick
  nodes-pick [] n s c ctx h = absurd (ground arith)
  nodes-pick (m ∷ queue) n s c ctx h =
      nodes-check_out m n (get m s.components) (get m s.nodes) _ c ctx h

  nodes-poll :
      (now : ℕ) (n : Str) (s : Scheduler C) (c : C) (ctx : NodeContext)
      → (poll now s).phase ≡ executing n c ctx
      → get n (poll now s).scheduler.nodes ≡ none
  unfolding poll
  nodes-poll now n s c ctx =
      let d : Scheduler C = drain_expired_timers now s in
      if_elim (λ (w : World C). w.phase ≡ executing n c ctx → get n w.scheduler.nodes ≡ none)
        d.running (pick d.ready_queue d) (record { scheduler = d; phase = halted })
        (nodes-pick d.ready_queue n d c ctx) (λ h. cc)

  unknown_node :
      (n : Str) (when : ℕ) (s : Scheduler C)
      → get n s.nodes ≡ none
      → (wake_at n when s ≡ (s, false)) × (create_waker n s ≡ none)
  unfolding wake_at create_waker
  unknown_node n when s h = (ground arith, ground arith)

  -- While the loop executes a node that it picked, `wake_at` for that very node is refused and sets no
  -- timer, and no waker can be made for it: its context is out of the map.
  pub wake_at_executing :
      (now when : ℕ) (n : Str) (s : Scheduler C) (c : C) (ctx : NodeContext)
      → (poll now s).phase ≡ executing n c ctx
      → (wake_at n when (poll now s).scheduler ≡ ((poll now s).scheduler, false))
        × (create_waker n (poll now s).scheduler ≡ none)
  wake_at_executing now when n s c ctx h =
      unknown_node n when (poll now s).scheduler (nodes-poll now n s c ctx h)

module _ {C : Type 0} (process : C → NodeContext → Flags → Reply C) where
  -- A node that is signalled, be it while it is executed, is taken off the queue again, or retired as
  -- finished, once the loop has taken off as many nodes as were queued, and one more.
  pub signalled-Served :
      (n : Str) (a : ℕ) (w : World C) (es : List (Event C))
      → IsQueued w.scheduler
      → get n w.scheduler.ready_flags ≡ some a
      → length w.scheduler.ready_queue < turns process (step process w (signals n)) es
      → Served process n (step process w (signals n)) es
  unfolding step
  signalled-Served n a w es v known enough =
      let (i, p) =
        index_of_contains n (signal_ready n w.scheduler).0.ready_queue
          (signal_ready_accepted n w.scheduler a v known).2 in
      queued-Served process n i (step process w (signals n)) es p
        (omega (arith, index-lt-length n _ i p, length-signal_ready n w.scheduler))
