-- ===== src/Runtime/Tidy.antt =====
-- The queues of src/runtime/monitor.rs and their bounds.
use meta_agent_control_plane.Prelude.{
  ℕ, zero, suc, ◌≤◌, ◌≡◌, refl, ap, sym, ◌∙◌, false, List, [], ◌∷◌, map, length, arith,
}
use meta_agent_control_plane.Model.Numbers.{Uuid, DateTime}
use meta_agent_control_plane.Runtime.Data.{RuntimeHookEnvelope, ControlCommand}
use meta_agent_control_plane.Runtime.Monitor.{
  RuntimeConfig, RuntimeState, new_state, contains_id, truncate, accept_hook, new_command,
  write_command,
}
use meta_agent_control_plane.Runtime.Sampling.{Floats, Collected, sampled, failed, collect_once}
use meta_agent_control_plane.Runtime.Run.{Call, serve, run, serve_elim, run_induction}

module _ {ℓ} {A : Type ℓ} where
  pub length-truncate :
      (n : ℕ) (l : List A) → (length (truncate n l) ≤ n) × (length (truncate n l) ≤ length l)
  unfolding truncate
  length-truncate zero l = (omega arith, omega arith)
  length-truncate (suc n) [] = (omega arith, omega arith)
  length-truncate (suc n) (x ∷ l) = let ih = length-truncate n l in (omega arith, omega arith)

  pub truncate-truncate : (n m : ℕ) (l : List A) → n ≤ m → truncate n (truncate m l) ≡ truncate n l
  unfolding truncate
  truncate-truncate zero m l h = refl
  truncate-truncate (suc n) zero l h = absurd (omega arith)
  truncate-truncate (suc n) (suc m) [] h = refl
  truncate-truncate (suc n) (suc m) (x ∷ l) h = ap (◌∷◌ x) (truncate-truncate n m l (omega arith))

map-truncate {ℓ κ} :
    {A : Type ℓ} {B : Type κ} (f : A → B) (n : ℕ) (l : List A)
    → map f (truncate n l) ≡ truncate n (map f l)
unfolding truncate
map-truncate f zero l = refl
map-truncate f (suc n) [] = refl
map-truncate f (suc n) (x ∷ l) = ap (◌∷◌ (f x)) (map-truncate f n l)

-- No id occurs twice.
abbrev pub IsDistinct : List Uuid → Type 0
IsDistinct [] = Unit
IsDistinct (id ∷ ids) = (contains_id id ids ≡ false) × IsDistinct ids

contains_id-truncate :
    (n : ℕ) (id : Uuid) (ids : List Uuid)
    → contains_id id ids ≡ false
    → contains_id id (truncate n ids) ≡ false
unfolding contains_id truncate
contains_id-truncate zero id ids h = refl
contains_id-truncate (suc n) id [] h = refl
contains_id-truncate (suc n) id (i ∷ ids) h = ground (arith, contains_id-truncate n id ids)

truncate-IsDistinct : (n : ℕ) (ids : List Uuid) → IsDistinct ids → IsDistinct (truncate n ids)
unfolding truncate
truncate-IsDistinct zero ids d = tt
truncate-IsDistinct (suc n) [] d = tt
truncate-IsDistinct (suc n) (id ∷ ids) d =
    (contains_id-truncate n id ids d.0, truncate-IsDistinct n ids d.1)

length-write_command :
    (id : Uuid) (write : ControlCommand → ControlCommand) (commands : List ControlCommand)
    → length (write_command id write commands) ≡ length commands
unfolding write_command
length-write_command id write [] = refl
length-write_command id write (c ∷ commands) =
    ground (arith, length-write_command id write commands)

abbrev pub hook_id : RuntimeHookEnvelope → Uuid
hook_id hook = hook.event_id

-- The queues fit their capacities, and the window holds the ids of the retained hooks, each once.
pub record IsTidy (config : RuntimeConfig) (state : RuntimeState) : Type 0 where
  pub hooks_fit : length state.hooks ≤ config.hook_capacity
  pub commands_fit : length state.commands ≤ config.command_capacity
  pub window : state.hook_ids ≡ map hook_id state.hooks
  pub distinct : IsDistinct state.hook_ids

module _ (floats : Floats) (config : RuntimeConfig) where
  accept_hook-IsTidy :
      (state : RuntimeState) (hook : RuntimeHookEnvelope)
      → contains_id hook.event_id state.hook_ids ≡ false
      → IsTidy config state
      → IsTidy config (accept_hook config state hook)
  unfolding accept_hook
  accept_hook-IsTidy state hook new t = record {
    hooks_fit = (length-truncate config.hook_capacity (hook ∷ state.hooks)).0;
    commands_fit = t.commands_fit;
    window =
        ap (λ ids. truncate config.hook_capacity (hook.event_id ∷ ids)) t.window
        ∙ sym (map-truncate hook_id config.hook_capacity (hook ∷ state.hooks));
    distinct =
        truncate-IsDistinct config.hook_capacity (hook.event_id ∷ state.hook_ids) (new, t.distinct);
  }

  collect_once-IsTidy :
      (state : RuntimeState) (now : DateTime) (sample : Collected)
      → IsTidy config state
      → IsTidy config (collect_once floats state now sample)
  unfolding collect_once
  collect_once-IsTidy state now (sampled snapshot) t = record {
    hooks_fit = t.hooks_fit;
    commands_fit = t.commands_fit;
    window = t.window;
    distinct = t.distinct;
  }
  collect_once-IsTidy state now (failed error) t = record {
    hooks_fit = t.hooks_fit;
    commands_fit = t.commands_fit;
    window = t.window;
    distinct = t.distinct;
  }

  serve-IsTidy :
      (state : RuntimeState) (call : Call)
      → IsTidy config state
      → IsTidy config (serve floats config state call)
  serve-IsTidy state call t =
      serve_elim floats config (IsTidy config) state call t
        (λ hook good new. accept_hook-IsTidy state hook new t)
        (λ id now request capable. record {
          hooks_fit = t.hooks_fit;
          commands_fit =
              (length-truncate config.command_capacity
                (new_command id now request ∷ state.commands)).0;
          window = t.window;
          distinct = t.distinct;
        })
        (λ now ack command hit own. record {
          hooks_fit = t.hooks_fit;
          commands_fit = rw length-write_command t.commands_fit;
          window = t.window;
          distinct = t.distinct;
        })
        (λ now sample. collect_once-IsTidy state now sample t)

  -- After any run of the monitor from its start, the retained hooks and commands fit their
  -- capacities, the window of known ids is that of the retained hooks, and no id is in it twice.
  pub run-IsTidy : (calls : List Call) → IsTidy config (run floats config new_state calls)
  run-IsTidy calls =
      run_induction floats config (IsTidy config) serve-IsTidy new_state calls (record {
        hooks_fit = omega arith;
        commands_fit = omega arith;
        window = refl;
        distinct = tt;
      })
