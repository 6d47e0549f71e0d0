-- ===== src/Inventory/Halts.antt =====
-- How the closures that adopt and list databases stop: the ways in which they set the variables.
use rds_dbaas_operator.Prelude.{String, Bool, true, false, if◌then◌else◌, Option, none, some}
use rds_dbaas_operator.K8s.{Error, Step, Exec, continue}
use rds_dbaas_operator.K8s.Steps.{Ends, continue-Ends}
use rds_dbaas_operator.Inventory.Run.{Run, return_error, return_requeue_sync_reset}

-- The variables are set once, by returnError or by returnRequeueSyncReset.
pub data IsHalt (run : Run) : Run → Type 0 where
  errored : (e : Error) (reason message : String) → IsHalt run (return_error e reason message run)
  requeued : IsHalt run (return_requeue_sync_reset run)

-- A closure that stops has set the variables once.
abbrev pub Halts : {A : Type 0} → Run → Step Run A → Type 0
Halts run x = Ends (IsHalt run) (λ _. Unit) x

pub both-Halts :
    {S A B : Type 0} (run : Run) (x : Step Run A × S) (f : A → Exec S Run B)
    → Halts run x.0
    → ((a : A) (t : S) → Halts run (f a t).0)
    → Halts run (continue x f).0
both-Halts run x f h k = continue-Ends (IsHalt run) (λ _. Unit) (λ _. Unit) x f h (λ a t _. k a t)

pub if-Halts :
    {S A : Type 0} (run : Run) (b : Bool) (x y : Step Run A × S)
    → Halts run x.0
    → Halts run y.0
    → Halts run (if b then x else y).0
if-Halts run true x y h k = h
if-Halts run false x y h k = k

pub option-Halts :
    {S A B : Type 0} (run : Run) (o : Option B) (x : Step Run A × S) (f : B → Step Run A × S)
    → Halts run x.0
    → ((b : B) → Halts run (f b).0)
    → Halts run (elim o as (λ _. Step Run A × S) [ none ↦ x | some b ↦ f b ]).0
option-Halts run none x f h k = h
option-Halts run (some b) x f h k = k b
