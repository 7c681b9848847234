-- ===== src/Builder/Ready.antt =====
-- What Build makes of a builder that a sequence of calls has filled.
-- The tasks that are handed to Parallel are made by NewTask, or have no links at least.
use floxy_pro.Prelude.{
  All, Bool, List, Option, Option-cases, String, [], arith, false, if◌then◌else◌, inl, inr, nat_eq,
  none, refl, some, str_iff, string_eq, subst, sym, true, ℕ, ◌==◌, ◌∷◌, ◌≡◌, ◌≢◌,
}
use floxy_pro.Builder.{
  Builder, BuilderError, BuilderOption, apply_builder_options, join_step, new_builder, no_steps,
  on_failure, step, with_builder_max_retries, with_dlq_enabled, workflow_without_name,
}
use floxy_pro.Builder.Calls.{
  Built, Call, build, call, call_all, call_confirm, call_join_step, call_on_failure, call_parallel,
  call_save_point, call_step, definition_of, if_valid, parallel, save_point, unless_error,
  wait_human_confirm,
}
use floxy_pro.Builder.Links.{AllLinked, IsClean, IsSound}
use floxy_pro.Builder.Parallel.{SoundUnlessFailed, parallel-IsSound, unless_failed-shut}
use floxy_pro.Builder.Reachable.{save_point-IsSound, wait_human_confirm-IsSound}
use floxy_pro.Builder.Sound.{join_step-IsSound, on_failure-IsSound, step-IsSound}
use floxy_pro.Graph.{Check, has, validate_workflow_definition}
use floxy_pro.Graph.Cycles.{IsAcyclic}
use floxy_pro.Graph.Valid.{AllWellFormed, validate_workflow_definition_iff}
use floxy_pro.Model.{WorkflowDefinition}
use floxy_pro.Prelude.Maps.{lookup}

abbrev pub IsCleanCall : Call → Type 0
IsCleanCall (call_step _ _ _) = Unit
IsCleanCall (call_on_failure _ _ _) = Unit
IsCleanCall (call_parallel _ tasks) = All IsClean tasks
IsCleanCall (call_join_step _ _ _) = Unit
IsCleanCall (call_save_point _) = Unit
IsCleanCall (call_confirm _ _) = Unit

call-IsSound : (c : Call) (b : Builder) → IsCleanCall c → IsSound b → SoundUnlessFailed (call c b)
unfolding call
call-IsSound (call_step name handler options) b clean sound _ =
    step-IsSound name handler options b sound
call-IsSound (call_on_failure name handler options) b clean sound _ =
    on_failure-IsSound name handler options b sound
call-IsSound (call_parallel name tasks) b clean sound fine =
    parallel-IsSound name tasks b clean sound fine
call-IsSound (call_join_step name wait_for strategy) b clean sound _ =
    join_step-IsSound name wait_for strategy b sound
call-IsSound (call_save_point name) b clean sound _ = save_point-IsSound name b sound
call-IsSound (call_confirm name options) b clean sound _ =
    wait_human_confirm-IsSound name options b sound

-- A failed builder stays as it is.
call-failed : {e : BuilderError} (c : Call) (b : Builder) → b.error ≡ some e → call c b ≡ b
unfolding call step on_failure parallel join_step save_point wait_human_confirm
call-failed (call_step _ _ _) b bad = unless_failed-shut (λ x. x ≡ b) b _ bad refl
call-failed (call_on_failure _ _ _) b bad = unless_failed-shut (λ x. x ≡ b) b _ bad refl
call-failed (call_parallel _ _) b bad = unless_failed-shut (λ x. x ≡ b) b _ bad refl
call-failed (call_join_step _ _ _) b bad = unless_failed-shut (λ x. x ≡ b) b _ bad refl
call-failed (call_save_point _) b bad = unless_failed-shut (λ x. x ≡ b) b _ bad refl
call-failed (call_confirm _ _) b bad = unless_failed-shut (λ x. x ≡ b) b _ bad refl

call_all-IsSound :
    (calls : List Call) (b : Builder)
    → All IsCleanCall calls
    → SoundUnlessFailed b
    → SoundUnlessFailed (call_all calls b)
unfolding call_all
call_all-IsSound [] b clean sound = sound
call_all-IsSound (c ∷ calls) b clean sound =
    call_all-IsSound calls (call c b) clean.1 (elim (Option-cases b.error) [
      | inl fine ↦ call-IsSound c b clean.0 (sound fine)
      | inr bad ↦ subst SoundUnlessFailed (sym (call-failed c b bad.1)) sound
    ])

apply_builder_options-IsSound :
    (options : List BuilderOption) (b : Builder)
    → IsSound b
    → IsSound (apply_builder_options options b)
unfolding apply_builder_options
apply_builder_options-IsSound [] b sound = sound
apply_builder_options-IsSound (with_builder_max_retries n ∷ options) b sound =
    apply_builder_options-IsSound options _
      (record { links = sound.links; start = sound.start; current = sound.current })
apply_builder_options-IsSound (with_dlq_enabled enabled ∷ options) b sound =
    apply_builder_options-IsSound options _
      (record { links = sound.links; start = sound.start; current = sound.current })

new_builder-IsSound :
    (name : String) (version : ℕ) (options : List BuilderOption)
    → IsSound (new_builder name version options)
unfolding new_builder lookup
new_builder-IsSound name version options = apply_builder_options-IsSound options _ (record {
  links = λ k d seen. absurd (cc seen);
  start = λ set. absurd (set refl);
  current = λ set. absurd (set refl);
})

unless_error-inr :
    (o : Option BuilderError) (x : Built) (def : WorkflowDefinition)
    → unless_error o x ≡ inr def
    → (o ≡ none) × (x ≡ inr def)
unless_error-inr none x def e = (refl, e)
unless_error-inr (some error) x def e = absurd (cc e)

if-inr :
    (c : Bool) (error : BuilderError) (x : Built) (def : WorkflowDefinition)
    → (if c then inl error else x) ≡ inr def
    → (c ≡ false) × (x ≡ inr def)
if-inr true error x def e = absurd (cc e)
if-inr false error x def e = (refl, e)

if_valid-inr :
    (check : Check) (built def : WorkflowDefinition)
    → if_valid check built ≡ inr def
    → (check ≡ none) × (built ≡ def)
if_valid-inr none built def e = (refl, cc e)
if_valid-inr (some error) built def e = absurd (cc e)

-- What the definition of a build is.
build-inr :
    (id : String) (b : Builder) (def : WorkflowDefinition)
    → build id b ≡ inr def
    → (b.error ≡ none)
      × (b.start_step ≢ "")
      × (definition_of id b ≡ def)
      × (validate_workflow_definition (definition_of id b) ≡ none)
unfolding build
build-inr id b def built =
    let (fine, named) = unless_error-inr b.error _ def built in
    let (name_set, started) = if-inr (b.name == "") workflow_without_name _ def named in
    let (start_set, checked) = if-inr (b.start_step == "") (no_steps b.name) _ def started in
    let (valid, same) = if_valid-inr _ (definition_of id b) def checked in
    (fine, ground (arith, start_set, str_iff b.start_step ""), same, valid)

-- Let a builder be filled by calls of its operations, where each task handed to Parallel has no links
-- of its own, as NewTask makes it. If Build then returns a definition, its start is one of its steps;
-- the next steps, the compensations and the parallel tasks of its steps are steps; each step is well
-- formed under its name; and no path of links from the start is infinite.
pub build_lem :
    (name : String) (version : ℕ) (options : List BuilderOption) (calls : List Call) (id : String)
    (def : WorkflowDefinition)
    → All IsCleanCall calls
    → build id (call_all calls (new_builder name version options)) ≡ inr def
    → (has def.definition.steps def.definition.start ≡ true)
      × AllLinked def.definition.steps
      × AllWellFormed def.definition.steps def.definition.steps
      × IsAcyclic def.definition.steps def.definition.start
build_lem name version options calls id def clean built =
    let b = call_all calls (new_builder name version options) in
    let (fine, set, same, valid) = build-inr id b def built in
    let sound =
      call_all-IsSound calls _ clean (λ _. new_builder-IsSound name version options) fine in
    let (formed, acyclic) = (validate_workflow_definition_iff (definition_of id b)).0 valid in
    subst
      (λ (d : WorkflowDefinition).
        (has d.definition.steps d.definition.start ≡ true)
        × AllLinked d.definition.steps
        × AllWellFormed d.definition.steps d.definition.steps
        × IsAcyclic d.definition.steps d.definition.start)
      same (sound.start set, sound.links, formed, acyclic)
