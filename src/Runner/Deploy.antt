-- ===== src/Runner/Deploy.antt =====
-- `run_deploy` of bridge_runner/runner.py, on the paths and files that it works on: the directory
-- of the module and the rest of the addons path, the copy of the former in the backup path, the
-- dump of the database, the ledger of nonces and the reports. An archive does not write into the
-- backup path. Moving and deleting directories, writing the ledger and writing a report succeed.
use pi_development_agent.Base.{
  ℕ, Text, String, string_Eq, Dict, insert, Bool, not, ◌&&◌, List, [], ◌∷◌, Option, none, some,
  if◌then◌else◌,
}
use pi_development_agent.Runner.Job.{Job, verify_job}
use pi_development_agent.Runner.Command.{Execute, run_odoo_module_command}
use pi_development_agent.Runner.Ledger.{write_nonce}

-- what `save_terminal_status` writes for a job
pub data Terminal : Type 0 where
  succeeded failed rolled_back : Terminal

-- `A` is what a directory holds, `D` a database, and `X` a dump of one.
pub record Machine (A D X : Type 0) : Type 0 where
  pub addon : Option A
  pub others : A
  pub backup : Option A
  pub database : D
  pub dump : Option X
  pub seen_nonces : List Text
  pub ledger : Text
  pub reports : Dict String Terminal

-- What the world outside answers to one job. `dumps` gives the file behind `backup_database` and
-- whether that call returned, `unpacks` the module's directory behind `safe_extract` and whether it
-- returned, `spills` the rest of the addons path behind it, into which it writes every member of
-- the archive that lies outside the module's directory, `restores` the database behind
-- `restore_database` and whether that returned.
pub record Outside (A D X : Type 0) : Type 0 where
  pub signed : Job → Bool
  pub now : ℕ
  pub told : Bool
  pub artifact : Option Text
  pub verify_digest : Text → Text → Bool
  pub dumps : D → Option X → Option X × Bool
  pub unpacks : Text → Option A → Option A × Bool
  pub spills : Text → A → A
  pub command : List Text
  pub execute : Execute D
  pub restarts : Bool
  pub restores : X → D → D × Bool
  pub restarts_again : Bool

module _ {A D X : Type 0} where
  unfoldable pub save_terminal_status : String → Terminal → Machine A D X → Machine A D X
  save_terminal_status job_uuid state m = record m { reports = insert job_uuid state m.reports }

  -- the end of a rollback, with the dump that there is
  unfoldable pub restore : Outside A D X → Job → Option X → Machine A D X → Machine A D X
  restore outside job none m = save_terminal_status job.job_uuid failed m
  restore outside job (some dump) m =
      let answer = outside.restores dump m.database in
      save_terminal_status job.job_uuid
        (if answer.1 && outside.restarts_again then rolled_back else failed)
        (record m { database = answer.0 })

  -- The addon's directory is what the backup holds, or nothing where there is no backup; then the
  -- database is restored and the server restarted.
  unfoldable pub roll_back : Outside A D X → Job → Machine A D X → Machine A D X
  roll_back outside job m =
      restore outside job m.dump (record m { addon = m.backup; backup = none })

  -- The outer handler rolls back only where a dump is there.
  unfoldable pub recover : Outside A D X → Job → Option X → Machine A D X → Machine A D X
  recover outside job none m = save_terminal_status job.job_uuid failed m
  recover outside job (some dump) m = roll_back outside job m

  -- the module command and the restart, with the inner handler
  unfoldable pub install : Outside A D X → Job → Machine A D X → Machine A D X
  install outside job m =
      let ran =
        run_odoo_module_command outside.execute outside.command job.operation job.module_name
          m.database in
      let tried : Machine A D X = record m { database = ran.0 } in
      if ran.1 && outside.restarts
      then save_terminal_status job.job_uuid succeeded tried
      else roll_back outside job tried

  -- `if existing.exists()`: the directory is moved over an older backup
  unfoldable pub set_aside : Machine A D X → Machine A D X
  set_aside m = elim m.addon [
    | none ↦ m
    | some files ↦ record m { addon = none; backup = some files }
  ]

  unfoldable pub unpack : Outside A D X → Job → Text → Machine A D X → Machine A D X
  unpack outside job artifact m =
      let aside = set_aside m in
      let out = outside.unpacks artifact aside.addon in
      let unpacked : Machine A D X = record aside {
        addon = out.0;
        others = outside.spills artifact aside.others;
      } in
      if out.1 then install outside job unpacked else recover outside job unpacked.dump unpacked

  -- from the paths of the job on
  unfoldable pub replace_addon : Outside A D X → Job → Text → Machine A D X → Machine A D X
  replace_addon outside job artifact m =
      let out = outside.dumps m.database m.dump in
      let dumped : Machine A D X = record m { dump = out.0 } in
      if out.1 then unpack outside job artifact dumped else recover outside job dumped.dump dumped

  -- what is done before there are paths: where it raises, nothing is rolled back
  unfoldable pub fetch : Outside A D X → Job → Option Text
  fetch outside job = if not outside.told then none else elim outside.artifact [
    | none ↦ none
    | some artifact ↦
        if outside.verify_digest artifact job.artifact_digest then some artifact else none
  ]

  abbrev pub use_nonce : Job → List Text → Machine A D X → Machine A D X
  use_nonce job seen m = record m { seen_nonces = seen; ledger = write_nonce job.nonce m.ledger }

  unfoldable pub deploy_fetched : Outside A D X → Job → Option Text → Machine A D X → Machine A D X
  deploy_fetched outside job none m = save_terminal_status job.job_uuid failed m
  deploy_fetched outside job (some artifact) m = replace_addon outside job artifact m

  -- The nonce is used up before anything else is done.
  unfoldable pub deploy_verified :
      Outside A D X → Job → Option (List Text) → Machine A D X → Machine A D X
  deploy_verified outside job none m = save_terminal_status job.job_uuid failed m
  deploy_verified outside job (some seen) m =
      deploy_fetched outside job (fetch outside job) (use_nonce job seen m)

  unfoldable pub run_deploy : Outside A D X → Job → Machine A D X → Machine A D X
  run_deploy outside job m =
      deploy_verified outside job (verify_job outside.signed outside.now job m.seen_nonces) m

-- `flush_pending_results`: a report is deleted once the bridge has taken it.
unfoldable pub flush_pending_results :
    (String → Terminal → Bool) → Dict String Terminal → Dict String Terminal
flush_pending_results takes [] = []
flush_pending_results takes ((job_uuid, state) ∷ reports) =
    let rest = flush_pending_results takes reports in
    if takes job_uuid state then rest else (job_uuid, state) ∷ rest
