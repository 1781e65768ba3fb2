-- ===== src/Store/Creation.antt =====
-- `create_task` of redis_store.py: one task for each idempotency key, and when the method returns.
use e_commerce_agent.Base.{
  ℕ, zero, suc, ◌≡◌, ◌⊎◌, ap, eq_iff, Bool-cases, refl, inl, inr, String, Bool, true, false, Option,
  none, some, arith, ◌==◌, eq_refl, ◌∙◌, sym, Option-cases,
}
use e_commerce_agent.Domain.{TaskRecord}
use e_commerce_agent.Platform.{Platform}
use e_commerce_agent.Store.{Redis, create_keyed, create_task}

module _ (p : Platform) where
  open p use {get, put, del, get-put, get-del}

  -- The key stands for this task.
  abbrev pub Stands : String → TaskRecord → Redis p → Type 0
  Stands key task r =
      (task_id : String) × (get key r.idempotency ≡ some task_id)
      × (get task_id r.tasks ≡ some task)

  -- A return of the method, or of its calls of itself, has the key stand for the task returned.
  create_keyed-Stands :
      (fuel : ℕ) (task found : TaskRecord) (key : String) (created : Bool) (r r' : Redis p)
      → get "" r.tasks ≡ none
      → create_keyed p fuel task key r ≡ some ((found, created), r')
      → Stands key found r'
  unfolding create_keyed
  create_keyed-Stands zero task found key created r r' unnamed h = absurd (ground arith)
  create_keyed-Stands (suc fuel) task found key created r r' unnamed h =
      elim (Option-cases (get key r.idempotency)) [
        | inl free ↦ elim (Option-cases (get task.task_id r.tasks)) [
          | inl fresh ↦ (
            task.task_id,
            ground (arith, get-put key key task.task_id r.idempotency, eq_refl key),
            ground (arith, get-put task.task_id task.task_id task r.tasks, eq_refl task.task_id),
          )
          | inr (other, stored) ↦
              create_keyed-Stands fuel task found key created
                (record r { idempotency = del key r.idempotency }) r' unnamed (ground arith)
        ]
        | inr (task_id, taken) ↦ elim (Option-cases (get task_id r.tasks)) [
          | inl gone ↦
              create_keyed-Stands fuel task found key created
                (record r { idempotency = del key r.idempotency }) r' unnamed (ground arith)
          | inr (existing, stored) ↦ (task_id, ground arith, ground arith)
        ]
      ]

  Stands-create_keyed :
      (fuel : ℕ) (task found : TaskRecord) (key : String) (r : Redis p)
      → Stands key found r
      → create_keyed p (suc fuel) task key r ≡ some ((found, false), r)
  unfolding create_keyed
  Stands-create_keyed fuel task found key r (task_id, stands, stored) =
      ground (arith, stands, stored)

  create_task-keyed :
      (fuel : ℕ) (task : TaskRecord) (key : String) (r : Redis p)
      → (key == "") ≡ false
      → create_task p fuel task (some key) r ≡ create_keyed p fuel task (p.sha256 key) r
  unfolding create_task
  create_task-keyed fuel task key r given = rw given

  -- An idempotency key makes one task: after a call with a key that returned, whatever it created or
  -- found, a later call with the same key returns the same task as not created, and writes nothing.
  -- No task is stored under the empty id.
  pub create_task_idem :
      (fuel fuel' : ℕ) (task task' found : TaskRecord) (key : String) (created : Bool)
      (r r' : Redis p)
      → (key == "") ≡ false
      → get "" r.tasks ≡ none
      → create_task p fuel task (some key) r ≡ some ((found, created), r')
      → create_task p (suc fuel') task' (some key) r' ≡ some ((found, false), r')
  create_task_idem fuel fuel' task task' found key created r r' given unnamed h =
      create_task-keyed (suc fuel') task' key r' given
      ∙ Stands-create_keyed fuel' task' found (p.sha256 key) r' (
          create_keyed-Stands fuel task found (p.sha256 key) created r r' unnamed
            (sym (create_task-keyed fuel task key r given) ∙ h))

  create_keyed_free :
      (fuel : ℕ) (task : TaskRecord) (key : String) (r : Redis p)
      → get key r.idempotency ≡ none
      → get task.task_id r.tasks ≡ none
      → (r' : Redis p) × (create_keyed p (suc fuel) task key r ≡ some ((task, true), r'))
  unfolding create_keyed
  create_keyed_free fuel task key r free fresh = (
    record r {
      tasks = put task.task_id task r.tasks;
      idempotency = put key task.task_id r.idempotency;
    },
    ground arith,
  )

  create_keyed_again :
      (fuel : ℕ) (task : TaskRecord) (key : String) (r : Redis p) (task_id : String)
      → get key r.idempotency ≡ some task_id
      → get task_id r.tasks ≡ none
      → create_keyed p (suc fuel) task key r
        ≡ create_keyed p fuel task key (record r { idempotency = del key r.idempotency })
  unfolding create_keyed
  create_keyed_again fuel task key r task_id taken gone = rw taken (rw gone)

  -- With an id that is not in use the method calls itself at most once: two calls return.
  pub create_keyed_returns :
      (task : TaskRecord) (key : String) (r : Redis p)
      → get task.task_id r.tasks ≡ none
      → (found : TaskRecord) × (created : Bool) × (r' : Redis p) × (create_keyed p 2 task key r
          ≡ some ((found, created), r'))
  create_keyed_returns task key r fresh = elim (Option-cases (get key r.idempotency)) [
    | inl free ↦ let (r', e) = create_keyed_free 1 task key r free fresh in (task, true, r', e)
    | inr (task_id, taken) ↦ elim (Option-cases (get task_id r.tasks)) [
      | inr (existing, stored) ↦
          (existing, false, r, Stands-create_keyed 1 task existing key r (task_id, taken, stored))
      | inl gone ↦
          let (r', e) =
            create_keyed_free 0 task key (record r { idempotency = del key r.idempotency })
              (get-del key key r.idempotency ∙ (rw (eq_refl key))) fresh in
          (task, true, r', create_keyed_again 1 task key r task_id taken gone ∙ e)
    ]
  ]

  -- With an id that is in use, and a key that stands for nothing, no number of calls returns.
  pub create_keyed_diverges :
      (fuel : ℕ) (task other : TaskRecord) (key : String) (r : Redis p)
      → get "" r.tasks ≡ none
      → get key r.idempotency ≡ none
      → get task.task_id r.tasks ≡ some other
      → create_keyed p fuel task key r ≡ none
  unfolding create_keyed
  create_keyed_diverges zero task other key r unnamed free used = refl
  create_keyed_diverges (suc fuel) task other key r unnamed free used = ground (
    arith,
    create_keyed_diverges fuel task other key (record r { idempotency = del key r.idempotency })
        unnamed (get-del key key r.idempotency ∙ (rw (eq_refl key))) used,
  )

  create_keyed_stores :
      (fuel : ℕ) (task found : TaskRecord) (key : String) (r r' : Redis p)
      → create_keyed p fuel task key r ≡ some ((found, true), r')
      → (found ≡ task) × (get task.task_id r'.tasks ≡ some task)
  unfolding create_keyed
  create_keyed_stores zero task found key r r' h = absurd (ground arith)
  create_keyed_stores (suc fuel) task found key r r' h = ground (
    arith,
    get-put task.task_id task.task_id task r.tasks,
    eq_refl task.task_id,
    create_keyed_stores fuel task found key (record r { idempotency = del key r.idempotency }) r',
  )

  -- A task that is reported as created is stored, as it was given.
  pub create_task_stores :
      (fuel : ℕ) (task found : TaskRecord) (key : Option String) (r r' : Redis p)
      → create_task p fuel task key r ≡ some ((found, true), r')
      → (found ≡ task) × (get task.task_id r'.tasks ≡ some task)
  unfolding create_task
  create_task_stores fuel task found none r r' h =
      ground (arith, get-put task.task_id task.task_id task r.tasks, eq_refl task.task_id)
  create_task_stores fuel task found (some key) r r' h = ground (
    arith,
    get-put task.task_id task.task_id task r.tasks,
    eq_refl task.task_id,
    create_keyed_stores fuel task found (p.sha256 key) r r',
  )

  -- A task that is reported as found is the one that the key stands for; without a key, the id that was
  -- drawn for the new task is in use.
  pub create_task_finds :
      (fuel : ℕ) (task found : TaskRecord) (key : Option String) (r r' : Redis p)
      → get "" r.tasks ≡ none
      → create_task p fuel task key r ≡ some ((found, false), r')
      → ((k : String) × (key ≡ some k) × Stands (p.sha256 k) found r')
        ⊎ (((key ≡ none) ⊎ (key ≡ some ""))
            × (other : TaskRecord) × (get found.task_id r'.tasks ≡ some other))
  unfolding create_task
  create_task_finds fuel task found none r r' unnamed h =
      elim (Option-cases (get task.task_id r.tasks)) [
        | inl fresh ↦ absurd (ground arith)
        | inr (other, used) ↦ inr (inl refl, other, ground arith)
      ]
  create_task_finds fuel task found (some key) r r' unnamed h = elim (Bool-cases (key == "")) [
    | inl blank ↦ elim (Option-cases (get task.task_id r.tasks)) [
      | inl fresh ↦ absurd (ground arith)
      | inr (other, used) ↦ inr (inr (ap some ((eq_iff key "").0 blank)), other, ground arith)
    ]
    | inr given ↦ inl (
      key,
      refl,
      create_keyed-Stands fuel task found (p.sha256 key) false r r' unnamed (rw given at h),
    )
  ]
