-- ===== src/Store/Valid/Letters.antt =====
-- The operations on dead letters, and the cleanup, keep a store valid.
use floxy_pro.Prelude.{
  Bool, Option, Option-cases, String, [], arith, false, if◌then◌else◌, inl, inr, nat_eq, refl,
  string_eq, true, ℕ, ◌∷◌, ◌≡◌,
}
use floxy_pro.Model.{DeadLetterRecord, WorkflowCancelRequest, WorkflowInstance}
use floxy_pro.Prelude.Maps.{Map, adjust, lookup}
use floxy_pro.Prelude.Maps.Everywhere.{delete-Everywhere}
use floxy_pro.Store.Cleanup.{forget_instance, forget_old, is_old}
use floxy_pro.Store.DeadLetters.{
  create_dead_letter_record, requeue_dead_letter, requeued, reset_step, resume_instance,
  resume_join,
}
use floxy_pro.Store.Defs.{MemoryStore, if_found-keeps, or_nil}
use floxy_pro.Store.Requests.{create_cancel_request}
use floxy_pro.Store.Valid.{IsValid, LetterEntry}
use floxy_pro.Store.Valid.Rows.{adjust-instances, insert-letters}
use floxy_pro.Store.Valid.Steps.{IsTame, adjust-StepsAreValid, write_each-StepsAreValid}
use floxy_pro.Store.Valid.Tables.{cleanup_step-IsValid}

module _ (s : MemoryStore) (h : IsValid s) where
  pub create_dead_letter_record-IsValid :
      (rec : DeadLetterRecord) (now : ℕ) → IsValid (create_dead_letter_record rec now s).1
  unfolding create_dead_letter_record
  create_dead_letter_record-IsValid rec now = record {
    queue = h.queue;
    steps = h.steps;
    instances = h.instances;
    letters = insert-letters s.dead_letters s.next_dead_letter_id h.letters _ refl;
    joins = h.joins;
  }

  reset_step-IsTame : (input : Option String) → IsTame (reset_step input)
  unfolding reset_step
  reset_step-IsTame input = record { same_id = λ _. refl; same_instance = λ _. refl }

  resume_join-IsTame : IsTame resume_join
  unfolding resume_join
  resume_join-IsTame = record {
    same_id = λ step. ground arith;
    same_instance = λ step. ground arith;
  }

  resume_instance-id : (i : WorkflowInstance) → (resume_instance i).id ≡ i.id
  unfolding resume_instance
  resume_instance-id i = ground arith

  requeued-IsValid :
      (id : ℕ) (input : Option String) (rec : DeadLetterRecord) → IsValid (requeued id input rec s)
  unfolding requeued
  requeued-IsValid id input rec = record {
    queue = h.queue;
    steps =
        write_each-StepsAreValid s.steps_by_instance s.next_step_id resume_join resume_join-IsTame
          (or_nil (lookup rec.instance_id s.steps_by_instance))
          (adjust rec.step_id (reset_step input) s.steps)
          (adjust-StepsAreValid s.steps s.steps_by_instance s.next_step_id h.steps rec.step_id
            (reset_step input) (reset_step-IsTame input));
    instances =
        adjust-instances s.instances s.next_instance_id h.instances rec.instance_id resume_instance
          resume_instance-id;
    letters = delete-Everywhere (LetterEntry s.next_dead_letter_id) s.dead_letters id h.letters;
    joins = h.joins;
  }

  pub requeue_dead_letter-IsValid :
      (id : ℕ) (input : Option String) → IsValid (requeue_dead_letter id input s).1
  unfolding requeue_dead_letter
  requeue_dead_letter-IsValid id input = elim (Option-cases (lookup id s.dead_letters)) [
    | inl absent ↦ rw (absent, requeue_dead_letter) h
    | inr there ↦
        rw (there.1, requeue_dead_letter)
          (if_found-keeps IsValid (lookup (there.0).step_id s.steps) s _ h
            (requeued-IsValid id input there.0))
  ]

  pub create_cancel_request-IsValid :
      (req : WorkflowCancelRequest) (now : ℕ) → IsValid (create_cancel_request req now s).1
  unfolding create_cancel_request
  create_cancel_request-IsValid req now =
      elim (Option-cases (lookup req.instance_id s.cancel_requests)) [
        | inl absent ↦
            rw (absent, create_cancel_request)
              (record {
                queue = h.queue;
                steps = h.steps;
                instances = h.instances;
                letters = h.letters;
                joins = h.joins;
              })
        | inr there ↦ rw (there.1, create_cancel_request) h
      ]

pub forget_old-IsValid :
    (now : ℕ) (m : Map ℕ WorkflowInstance) (s : MemoryStore)
    → IsValid s
    → IsValid (forget_old now m s)
unfolding forget_old
forget_old-IsValid now [] s h = h
forget_old-IsValid now ((id, i) ∷ rest) s h =
    forget_old-IsValid now rest _ (choose (is_old now i.completed_at))
  where
    choose : (b : Bool) → IsValid (if b then forget_instance id s else s)
    choose true = cleanup_step-IsValid s h id
    choose false = h
