-- ===== src/Pbs/Tasks.antt =====
-- The loop of `WaitTask`.
use pbs_k8s_operator.Base.{
  none, List, [], ◌∷◌, ◌++◌, ℕ, zero, suc, ◌<◌, ◌≤◌, String, true, false, ◌≡◌, refl, arith,
  Bool-cases, inl, inr, ◌==◌, if◌then◌else◌, ◌⊎◌, ◌≢◌, leb, eq_iff,
}
use pbs_k8s_operator.Reconcile.{
  M, Outcome, ok, Run, pure, ask, send, ◌>>=◌, Answer, answer, refused,
}
use pbs_k8s_operator.Pbs.{
  Client, Request, Net, TaskStatus, Reply, reply, failed, Waited, finished, task_failed,
  wait_failed, context_done, call, on_status, on_response, unwrapped, Response, response,
  unreachable, unreadable, PbsError, wait_task, request_of, status_path,
}

-- The context bounds the wait: what is left of it shrinks with each interval, and no exchange with
-- the server adds to it.
pub record IsBounded {W F : Type 0} (net : Net W F) (left : W → ℕ) : Type 0 where
  pub exchange : (r : Request) (w : W) → left (net.exchange r w).1 ≤ left w
  pub poll : (w : W) → (net.poll w).0 ≡ false → left (net.poll w).1 < left w

-- A response that tells the status of a task: not an error, with an envelope around the status.
pub record Tells {W F : Type 0} (net : Net W F) (r : Response) (ts : TaskStatus) : Type 0 where
  pub status : ℕ
  pub body : String
  pub enveloped : String
  pub received : r ≡ response status body
  pub fine : leb 400 status ≡ false
  pub opened : net.envelope body ≡ answer enveloped
  pub decoded : net.task_status enveloped ≡ answer ts

-- What a wait for a task that ended may return, `status_at w` being the server's response to the
-- request for the status of the task in the world `w`, and `next w` the world after it.
pub data IsEnd {W F : Type 0} (net : Net W F) (status_at : W → Response) (next : W → W)
    : Outcome Waited → Type 0 where
  finishes :
      (w : W) (ts : TaskStatus)
      → Tells net (status_at w) ts
      → ts.status ≢ "running"
      → ts.exit_status ≡ "OK"
      → IsEnd net status_at next (ok finished)
  fails :
      (w : W) (ts : TaskStatus)
      → Tells net (status_at w) ts
      → ts.status ≢ "running"
      → ts.exit_status ≢ "OK"
      → IsEnd net status_at next (ok (task_failed ts.exit_status))
  is_cut :
      (w : W) (ts : TaskStatus)
      → Tells net (status_at w) ts
      → ts.status ≡ "running"
      → (net.poll (next w)).0 ≡ true
      → IsEnd net status_at next (ok context_done)
  untold :
      (w : W) (e : PbsError)
      → ((ts : TaskStatus) → Tells net (status_at w) ts → ⊥)
      → IsEnd net status_at next (ok (wait_failed e))

-- What is read of a response is the status that it tells, or an error where it tells none.
data Reading {W F : Type 0} (net : Net W F) (r : Response) : Reply TaskStatus → Type 0 where
  told : (ts : TaskStatus) → Tells net r ts → Reading net r (reply ts)
  nothing : (e : PbsError) → ((ts : TaskStatus) → Tells net r ts → ⊥) → Reading net r (failed e)

Answer-cases :
    {A : Type 0} → (x : Answer A) → ((a : A) × (x ≡ answer a)) ⊎ ((e : String) × (x ≡ refused e))
Answer-cases (answer a) = inl (a, refl)
Answer-cases (refused e) = inr (e, refl)

module _ {W F : Type 0} (net : Net W F) (client : Client) where
  abbrev read : String → Response → Reply TaskStatus
  read path r =
      on_response net client "GET" path r
        λ text. unwrapped net client (net.envelope text) net.task_status

  read_body :
      (path : String) (status : ℕ) (body : String)
      → leb 400 status ≡ false
      → Reading net
          (response status body)
          (unwrapped net client (net.envelope body) net.task_status)
  read_body path status body fine = elim (Answer-cases (net.envelope body)) [
    | inr (e, h) ↦ rw h (nothing _ λ ts t. absurd (cc (h, t.received, t.opened)))
    | inl (d, h) ↦ elim (Answer-cases (net.task_status d)) [
      | inr (e, g) ↦
          rw (h, g) (nothing _ λ ts t. absurd (cc (h, g, t.received, t.opened, t.decoded)))
      | inl (ts, g) ↦
          rw (h, g)
            (told ts (record {
              status = status;
              body = body;
              enveloped = d;
              received = refl;
              fine = fine;
              opened = h;
              decoded = g;
            }))
    ]
  ]

  read-Reading : (path : String) (r : Response) → Reading net r (read path r)
  unfolding on_response
  read-Reading path (unreachable e) = nothing _ λ ts t. absurd (cc t.received)
  read-Reading path (unreadable e) = nothing _ λ ts t. absurd (cc t.received)
  read-Reading path (response status body) = elim (Bool-cases (leb 400 status)) [
    | inl bad ↦ rw bad (nothing _ λ ts t. absurd (cc (bad, t.received, t.fine)))
    | inr fine ↦ rw fine (read_body path status body fine)
  ]

  module _ (upid : String) where
    abbrev ask_status : Request
    ask_status = request_of net client "GET" (status_path net client upid) none

    abbrev pub status_at : W → Response
    status_at w = (net.exchange ask_status w).0

    abbrev pub next : W → W
    next w = (net.exchange ask_status w).1

    Ends : Outcome Waited → Type 0
    Ends = IsEnd net status_at next

    ended :
        (w : W) (ts : TaskStatus)
        → Tells net (status_at w) ts
        → ts.status ≢ "running"
        → Ends (ok (if ts.exit_status == "OK" then finished else task_failed ts.exit_status))
    unfolding Ends
    ended w ts t over = elim (Bool-cases (ts.exit_status == "OK")) [
      | inl e ↦ rw e (finishes w ts t over (ground (arith, e, eq_iff ts.exit_status "OK")))
      | inr e ↦ rw e (fails w ts t over (ground (arith, e, eq_iff ts.exit_status "OK")))
    ]

    cut_or :
        (w : W) (ts : TaskStatus) (log : List Request) (again : M W Request Waited)
        → Tells net (status_at w) ts
        → ts.status ≡ "running"
        → ((net.poll (next w)).0 ≡ false
            → Ends (again (record { world = (net.poll (next w)).1; log = log })).0)
        → Ends
            ((ask net.poll >>= λ over. if over then pure context_done else again)
              (record { world = next w; log = log })).0
    unfolding ◌>>=◌ ask pure Ends
    cut_or w ts log again t runs h = elim (Bool-cases (net.poll (next w)).0) [
      | inl over ↦ rw over (is_cut w ts t runs over)
      | inr on ↦ rw on (h on)
    ]

    round-IsEnd :
        (w : W) (log : List Request) (again : M W Request Waited) (r : Reply TaskStatus)
        → Reading net (status_at w) r
        → ((net.poll (next w)).0 ≡ false
            → Ends (again (record { world = (net.poll (next w)).1; log = log })).0)
        → Ends
            (on_status net client r
              (ask net.poll >>= λ over. if over then pure context_done else again)
              (record { world = next w; log = log })).0
    unfolding pure Ends
    round-IsEnd w log again (failed e) (nothing d h) k = untold w e h
    round-IsEnd w log again (reply ts) (told us t) k = elim (Bool-cases (ts.status == "running")) [
      | inl runs ↦
          rw runs (cut_or w ts log again t (ground (arith, runs, eq_iff ts.status "running")) k)
      | inr over ↦ rw over (ended w ts t (ground (arith, over, eq_iff ts.status "running")))
    ]

  -- Where the context bounds the wait, the loop of `WaitTask` ends within one more round than the
  -- time that is left: with success just of a status that is not running and whose exit status is
  -- OK, with the failure of the task just of one that is not running and has another exit status,
  -- which it names, with the error of the context just where the context is done after a status that
  -- is running, and with another error just of a response that tells no status.
  pub wait_task-IsEnd :
      (left : W → ℕ) (upid : String) (fuel : ℕ) (s : Run W Request)
      → IsBounded net left
      → left s.world < fuel
      → IsEnd net (status_at upid) (next upid) (wait_task net client upid fuel s).0
  unfolding wait_task ◌>>=◌ ask call send pure Ends
  wait_task-IsEnd left upid zero s b h = absurd (omega (arith, h))
  wait_task-IsEnd left upid (suc fuel) s b h =
      let path = status_path net client upid in
      round-IsEnd upid s.world (s.log ++ ask_status upid ∷ []) (wait_task net client upid fuel)
        (read path (status_at upid s.world)) (read-Reading path (status_at upid s.world))
        λ on.
          wait_task-IsEnd left upid fuel _ b
            (omega (arith, h, b.poll (next upid s.world) on, b.exchange (ask_status upid) s.world))
