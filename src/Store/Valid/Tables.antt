-- ===== src/Store/Valid/Tables.antt =====
-- The operations on instances, steps and the queue, one table or two at a time, keep a store valid.
use floxy_pro.Prelude.{Option, String, arith, nat_eq, pair_eq, refl, string_eq, ℕ}
use floxy_pro.Model.{QueueItem, StepStatus, WorkflowStatus, WorkflowStep}
use floxy_pro.Prelude.Maps.{Map, adjust, lookup}
use floxy_pro.Prelude.Maps.Everywhere.{delete-Everywhere}
use floxy_pro.Store.Cleanup.{forget_instance}
use floxy_pro.Store.Defs.{MemoryStore, if_found-keeps, or_nil}
use floxy_pro.Store.Instances.{create_instance, update_instance_status, with_status}
use floxy_pro.Store.Steps.{
  create_step, pause, pause_active_steps_and_clear_queue, registered, update_step,
  update_step_compensation_retry, update_step_status, with_step_status, write_step,
}
use floxy_pro.Store.Valid.{InstanceEntry, IsValid, QueueIsValid, StepsAreValid}
use floxy_pro.Store.Valid.Queue.{delete_where-QueueIsValid}
use floxy_pro.Store.Valid.Rows.{adjust-instances, delete_where-JoinsAreValid, insert-instances}
use floxy_pro.Store.Valid.Steps.{
  IsTame, adjust-StepsAreValid, create-StepsAreValid, forget-StepsAreValid,
  write_each-StepsAreValid,
}

module _ (s : MemoryStore) (h : IsValid s) where
  -- A store that differs only in a valid queue, and in its counter.
  pub with_queue :
      (q : Map ℕ QueueItem) (n : ℕ)
      → QueueIsValid q n
      → IsValid (record s { queue = q; next_queue_id = n })
  with_queue q n v = record {
    queue = v;
    steps = h.steps;
    instances = h.instances;
    letters = h.letters;
    joins = h.joins;
  }

  pub with_steps :
      (m : Map ℕ WorkflowStep)
      → StepsAreValid m s.steps_by_instance s.next_step_id
      → IsValid (record s { steps = m })
  with_steps m v = record {
    queue = h.queue;
    steps = v;
    instances = h.instances;
    letters = h.letters;
    joins = h.joins;
  }

  pub create_instance-IsValid :
      (workflow_id : String) (input : String) (now : ℕ)
      → IsValid (create_instance workflow_id input now s).1
  unfolding create_instance
  create_instance-IsValid workflow_id input now = record {
    queue = h.queue;
    steps = h.steps;
    instances = insert-instances s.instances s.next_instance_id h.instances _ refl;
    letters = h.letters;
    joins = h.joins;
  }

  pub update_instance_status-IsValid :
      (id : ℕ) (status : WorkflowStatus) (output : String) (error : Option String) (now later : ℕ)
      → IsValid (update_instance_status id status output error now later s).1
  unfolding update_instance_status with_status
  update_instance_status-IsValid id status output error now later =
      if_found-keeps IsValid (lookup id s.instances) s
        (record s { instances = adjust id (with_status status output error now later) s.instances })
        h
        (record {
          queue = h.queue;
          steps = h.steps;
          instances =
              adjust-instances s.instances s.next_instance_id h.instances id
                (with_status status output error now later) (λ i. refl);
          letters = h.letters;
          joins = h.joins;
        })

  pub create_step-IsValid :
      (fresh : String) (now : ℕ) (step : WorkflowStep) → IsValid (create_step fresh now step s).1
  unfolding create_step registered
  create_step-IsValid fresh now step = record {
    queue = h.queue;
    steps =
        create-StepsAreValid s.steps s.steps_by_instance s.next_step_id h.steps
          (registered fresh now s.next_step_id step) refl;
    instances = h.instances;
    letters = h.letters;
    joins = h.joins;
  }

  write_step-IsValid :
      (id : ℕ) (f : WorkflowStep → WorkflowStep) → IsTame f → IsValid (write_step id f s).1
  write_step-IsValid id f tame =
      if_found-keeps IsValid (lookup id s.steps) s (record s { steps = adjust id f s.steps }) h
        (with_steps (adjust id f s.steps)
          (adjust-StepsAreValid s.steps s.steps_by_instance s.next_step_id h.steps id f tame))

  pub update_step-IsValid :
      (id : ℕ) (status : StepStatus) (output : String) (error : Option String) (now : ℕ)
      → IsValid (update_step id status output error now s).1
  unfolding update_step
  update_step-IsValid id status output error now =
      write_step-IsValid id (with_step_status status output error now)
        (record { same_id = λ _. refl; same_instance = λ _. refl })

  pub update_step_status-IsValid :
      (id : ℕ) (status : StepStatus) → IsValid (update_step_status id status s).1
  unfolding update_step_status
  update_step_status-IsValid id status =
      write_step-IsValid id _ (record { same_id = λ _. refl; same_instance = λ _. refl })

  pub update_step_compensation_retry-IsValid :
      (id retries : ℕ) (status : StepStatus)
      → IsValid (update_step_compensation_retry id retries status s).1
  unfolding update_step_compensation_retry
  update_step_compensation_retry-IsValid id retries status =
      write_step-IsValid id _ (record { same_id = λ _. refl; same_instance = λ _. refl })

  pub pause-IsTame : IsTame pause
  pause-IsTame = record { same_id = λ step. ground arith; same_instance = λ step. ground arith }

  pub pause_active_steps_and_clear_queue-IsValid :
      (id : ℕ) → IsValid (pause_active_steps_and_clear_queue id s).1
  unfolding pause_active_steps_and_clear_queue
  pause_active_steps_and_clear_queue-IsValid id = record {
    queue = delete_where-QueueIsValid s.queue s.next_queue_id h.queue _;
    steps =
        write_each-StepsAreValid s.steps_by_instance s.next_step_id pause pause-IsTame
          (or_nil (lookup id s.steps_by_instance)) s.steps h.steps;
    instances = h.instances;
    letters = h.letters;
    joins = h.joins;
  }

  pub cleanup_step-IsValid : (id : ℕ) → IsValid (forget_instance id s)
  unfolding forget_instance
  cleanup_step-IsValid id = record {
    queue = h.queue;
    steps = forget-StepsAreValid s.steps s.steps_by_instance s.next_step_id h.steps id;
    instances = delete-Everywhere (InstanceEntry s.next_instance_id) s.instances id h.instances;
    letters = h.letters;
    joins = delete_where-JoinsAreValid s.join_states h.joins _;
  }
