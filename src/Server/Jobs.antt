-- ===== src/Server/Jobs.antt =====
-- The queue of connections in dmmr_server.c: enqueue_job, and a worker's turn. The entries come from
-- a pool of QUEUE_MAX slots (dmmr_heap_pool.c), which a worker gives back when the client is served.
use http_dmmr_nginx.Base.{
  ℕ, ◌≡◌, ◌+◌, ◌-◌, ◌≤◌, refl, sym, ap, ◌∙◌, Bool, true, false, not, ◌||◌, List, [], ◌∷◌, ◌++◌,
  Option, none, some, arith, length, length-append, leb, ◌==◌, if◌then◌else◌, Bool-cases, inl, inr,
  append_assoc, append-nil,
}
use http_dmmr_nginx.Pool.Heap.{HeapPool, dmmr_heap_pool_alloc, dmmr_heap_pool_free}

abbrev pub queue_max : ℕ
queue_max = 128

-- struct job_fd_entry, with its place in the pool.
pub record Job : Type 0 where
  pub fd : ℕ
  pub slot : ℕ

pub record Jobs : Type 0 where
  pub pool : HeapPool
  pub queue : List Job
  pub queue_size : ℕ

unfoldable pub placed : ℕ → Jobs → Option ℕ × HeapPool → Bool × Jobs
placed fd q (none, pool) = (false, record q { pool = pool })
placed fd q (some slot, pool) = (
  true,
  record {
    pool = pool;
    queue = q.queue ++ record { fd = fd; slot = slot } ∷ [];
    queue_size = q.queue_size + 1;
  },
)

-- Whether the connection is queued; otherwise it is closed. The descriptor is not negative.
unfoldable pub enqueue_job : ℕ → Jobs → Bool × Jobs
enqueue_job fd q =
    if leb queue_max q.queue_size then (false, q) else placed fd q (dmmr_heap_pool_alloc q.pool)

unfoldable pub first_job : List Job → Jobs → Option Job × Jobs
first_job [] q = (none, q)
first_job (job ∷ rest) q = (some job, record q { queue = rest; queue_size = q.queue_size - 1 })

-- What a worker takes from the queue; it waits while the queue is empty, and stops with the program.
unfoldable pub take_job : Bool → Jobs → Option Job × Jobs
take_job running q = if not running || (q.queue_size == 0) then (none, q) else first_job q.queue q

-- A worker when it has served its client.
unfoldable pub finish_job : Job → Jobs → Jobs
finish_job job q = record q { pool = dmmr_heap_pool_free q.pool (some job.slot) }

-- What happens to the queue: a connection comes in, a worker looks for one, or a worker is done.
pub data Step : Type 0 where
  came : ℕ → Step
  took : Step
  done : Job → Step

abbrev pub IsJobs : Jobs → Type 0
IsJobs q = (q.queue_size ≡ length q.queue) × (q.queue_size ≤ queue_max)

abbrev pub fds : List Job → List ℕ
fds [] = []
fds (job ∷ rest) = job.fd ∷ fds rest

-- The connections that are queued, and those that are handed to workers.
unfoldable pub queued : List Step → Jobs → List ℕ
queued [] q = []
queued (came fd ∷ es) q =
    let r = enqueue_job fd q in let later = queued es r.1 in if r.0 then fd ∷ later else later
queued (took ∷ es) q = queued es (take_job true q).1
queued (done job ∷ es) q = queued es (finish_job job q)

abbrev pub fd_of : Option Job → List ℕ
fd_of none = []
fd_of (some job) = job.fd ∷ []

unfoldable pub run : List Step → Jobs → List ℕ × Jobs
run [] q = ([], q)
run (came fd ∷ es) q = run es (enqueue_job fd q).1
run (took ∷ es) q =
    let r = take_job true q in let later = run es r.1 in (fd_of r.0 ++ later.0, later.1)
run (done job ∷ es) q = run es (finish_job job q)

fds-append : (xs : List Job) (job : Job) → fds (xs ++ job ∷ []) ≡ fds xs ++ job.fd ∷ []
fds-append [] job = refl
fds-append (x ∷ xs) job = ap (λ ys. x.fd ∷ ys) (fds-append xs job)

enqueue_job-IsJobs :
    (fd : ℕ) (q : Jobs)
    → IsJobs q
    → IsJobs (enqueue_job fd q).1
      × (fds (enqueue_job fd q).1.queue
          ≡ (if (enqueue_job fd q).0 then fds q.queue ++ fd ∷ [] else fds q.queue))
unfolding enqueue_job placed
enqueue_job-IsJobs fd q v = elim (Bool-cases (leb queue_max q.queue_size)) [
  | inl full ↦ rw full (v, refl)
  | inr free ↦ rw free (put free (dmmr_heap_pool_alloc q.pool))
]
  where
    put :
        leb queue_max q.queue_size ≡ false
        → (r : Option ℕ × HeapPool)
        → IsJobs (placed fd q r).1
          × (fds (placed fd q r).1.queue
              ≡ (if (placed fd q r).0 then fds q.queue ++ fd ∷ [] else fds q.queue))
    put free (none, pool) = (v, refl)
    put free (some slot, pool) = (
      (
        omega (arith, v.0, length-append q.queue (record { fd = fd; slot = slot } ∷ [])),
        ground (arith, free, v.1),
      ),
      fds-append q.queue (record { fd = fd; slot = slot }),
    )

take_job-IsJobs :
    (q : Jobs)
    → IsJobs q
    → IsJobs (take_job true q).1
      × (fds q.queue ≡ fd_of (take_job true q).0 ++ fds (take_job true q).1.queue)
unfolding take_job first_job
take_job-IsJobs q v = elim (Bool-cases (q.queue_size == 0)) [
  | inl empty ↦ rw empty (v, refl)
  | inr some_there ↦ rw some_there (first q.queue refl)
]
  where
    first :
        (xs : List Job)
        → q.queue ≡ xs
        → IsJobs (first_job xs q).1
          × (fds xs ≡ fd_of (first_job xs q).0 ++ fds (first_job xs q).1.queue)
    first [] e = (v, ap fds (sym e))
    first (job ∷ rest) e = ((omega (arith, v.0, ap length e), omega (arith, v.1)), refl)

-- Through any connections, turns of workers and ends of service, from a queue whose size is right and
-- at most 128, the size stays right and at most 128, and the workers get the connections that were
-- queued in the order in which they came, each once: those that waited and those queued are those
-- handed out, followed by those that still wait.
pub run-IsJobs :
    (es : List Step) (q : Jobs)
    → IsJobs q
    → IsJobs (run es q).1 × (fds q.queue ++ queued es q ≡ (run es q).0 ++ fds (run es q).1.queue)
unfolding run queued finish_job
run-IsJobs [] q v = (v, append-nil (fds q.queue))
run-IsJobs (done job ∷ es) q v = run-IsJobs es (finish_job job q) v
run-IsJobs (took ∷ es) q v =
    let kept = take_job-IsJobs q v in
    let r = take_job true q in
    let later = run-IsJobs es r.1 kept.0 in
    (
      later.0,
      ap (λ xs. xs ++ queued es r.1) kept.1
          ∙ (append_assoc (fd_of r.0) (fds r.1.queue) (queued es r.1)
              ∙ (ap (λ xs. fd_of r.0 ++ xs) later.1
                  ∙ sym (append_assoc (fd_of r.0) (run es r.1).0 (fds (run es r.1).1.queue)))),
    )
run-IsJobs (came fd ∷ es) q v =
    let kept = enqueue_job-IsJobs fd q v in
    let later = run-IsJobs es (enqueue_job fd q).1 kept.0 in
    (later.0, joined (enqueue_job fd q).0 kept.1 ∙ later.1)
  where
    joined :
        (ok : Bool)
        → fds (enqueue_job fd q).1.queue ≡ (if ok then fds q.queue ++ fd ∷ [] else fds q.queue)
        → fds q.queue
            ++ (if ok then fd ∷ queued es (enqueue_job fd q).1 else queued es (enqueue_job fd q).1)
          ≡ fds (enqueue_job fd q).1.queue ++ queued es (enqueue_job fd q).1
    joined true e = sym (
        ap (λ xs. xs ++ queued es (enqueue_job fd q).1) e
        ∙ append_assoc (fds q.queue) (fd ∷ []) (queued es (enqueue_job fd q).1))
    joined false e = sym (ap (λ xs. xs ++ queued es (enqueue_job fd q).1) e)
