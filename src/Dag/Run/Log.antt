-- ===== src/Dag/Run/Log.antt =====
-- A run of steps keeps the change log explaining the statuses.
use aof.Prelude.{sym}
use aof.Dag.Types.{Work}
use aof.Dag.Cascade.{skip}
use aof.Dag.Log.{Statuses, Explains, write-Explains}
use aof.Dag.Run.Steps.{Step, Run, cascade, condition, join, here, next, Setting}

module _ {s : Setting} {f : Statuses} where
  Step-Explains :
      {u v : Work} → Step s u v → Explains f u.changes u.hops → Explains f v.changes v.hops
  unfolding skip
  Step-Explains (cascade w id hop p _ _) ex = write-Explains id _ _ _ w ex (sym p)
  Step-Explains (condition w hop c _ p _ _ _) ex = write-Explains hop.id _ _ _ w ex (sym p)
  Step-Explains (join w hop _ p _ _) ex = write-Explains hop.id _ _ _ w ex (sym p)

  pub Run-Explains :
      {u v : Work} → Run s u v → Explains f u.changes u.hops → Explains f v.changes v.hops
  Run-Explains here ex = ex
  Run-Explains (next r st) ex = Step-Explains st (Run-Explains r ex)
