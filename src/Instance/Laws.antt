-- ===== src/Instance/Laws.antt =====
-- What the reconciler of RDSInstance relies on of its client.
use rds_dbaas_operator.Prelude.{◌≡◌, Option}
use rds_dbaas_operator.K8s.{Result, ok}
use rds_dbaas_operator.K8s.Meta.{MetaLaws}
use rds_dbaas_operator.Ack.Instance.{DbInstance}
use rds_dbaas_operator.Crd.{RdsInstance}
use rds_dbaas_operator.Instance.Run.{Client, Run}

pub record ClientLaws {S : Type 0} (client : Client S) : Type 0 where
  pub meta_laws : MetaLaws client.meta
  -- The server stores the phase that is written.
  pub update_status-phase :
      (i : RdsInstance) (s : S) {i' : RdsInstance} {t : S}
      → client.update_status i s ≡ (ok i', t)
      → i'.phase ≡ i.phase
  -- CreateOrUpdate changes the caller's variables by its callback alone.
  pub create_or_update-instance :
      (db : DbInstance) (f : DbInstance → Run → S → Option (Result DbInstance) × Run × S)
      (run : Run) (s : S)
      → ((d : DbInstance) (v : Run) (t : S) → (f d v t).1.instance_ ≡ v.instance_)
      → (client.create_or_update_db_instance db f run s).1.instance_ ≡ run.instance_

-- CreateOrUpdate sets the phase of the caller's variables by its callback alone.
pub record PhaseLaws {S : Type 0} (client : Client S) : Type 0 where
  pub create_or_update-phase :
      (db : DbInstance) (f : DbInstance → Run → S → Option (Result DbInstance) × Run × S)
      (run : Run) (s : S)
      → ((d : DbInstance) (v : Run) (t : S) → (f d v t).1.phase ≡ v.phase)
      → (client.create_or_update_db_instance db f run s).1.phase ≡ run.phase
