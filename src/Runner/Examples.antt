-- ===== src/Runner/Examples.antt =====
-- Deployments on a small machine: a directory and a database are numbers, a dump is the database.
use pi_development_agent.Base.{
  ℕ, suc, codes, nat_Eq, list_Eq, ◌==◌, elem, String, string_Eq, true, false, [], ◌∷◌, none, some,
  lookup, insert, ◌≡◌, refl, arith,
}
use pi_development_agent.Runner.Job.{Job, verify_job}
use pi_development_agent.Runner.Ledger.{
  is_line_break, write_nonces, read_ledger, lines_text, read_ledger-write_nonces,
}
use pi_development_agent.Runner.Command.{
  flag_of, is_module_name, is_valid_command, run_odoo_module_command,
}
use pi_development_agent.Runner.Deploy.{
  failed, rolled_back, Machine, Outside, save_terminal_status, restore, roll_back, install,
  set_aside, unpack, replace_addon, fetch, deploy_fetched, deploy_verified, run_deploy,
}
use pi_development_agent.Runner.Atomic.{Atomic, server_of, run_deploy-Atomic}
use pi_development_agent.Runner.Success.{run_deploy-succeeded}
use pi_development_agent.Runner.Loss.{run_deploy-loses_addon}
use pi_development_agent.Runner.Replay.{restarts, done, more, run_deploy-replay}

abbrev job_for : String → Job
job_for operation = record {
  job_uuid = "j1";
  nonce = codes "n1";
  operation = some operation;
  module_name = codes "fleet";
  artifact_digest = codes "d";
  expires_at = 100;
}

abbrev server : Machine ℕ ℕ ℕ
server = record {
  addon = some 1;
  others = 7;
  backup = none;
  database = 5;
  dump = none;
  seen_nonces = [];
  ledger = [];
  reports = [];
}

abbrev outside : Outside ℕ ℕ ℕ
outside = record {
  signed = λ job. true;
  now = 50;
  told = true;
  artifact = some (codes "zip");
  verify_digest = λ artifact digest. digest == codes "d";
  dumps = λ d old. (some d, true);
  unpacks = λ artifact old. (some 2, true);
  spills = λ artifact others. others;
  command = codes "odoo" ∷ [];
  execute = λ command flag name d. (suc d, some 0);
  restarts = true;
  restores = λ x d. (x, true);
  restarts_again = true;
}

abbrev breaking : Outside ℕ ℕ ℕ
breaking = record outside { dumps = λ d old. (some 3, false) }

run_deploy-succeeded_example : is_module_name (codes "fleet") ≡ true
unfolding run_deploy deploy_verified verify_job elem fetch deploy_fetched replace_addon unpack
    set_aside install run_odoo_module_command is_valid_command flag_of is_module_name
    save_terminal_status lookup insert
run_deploy-succeeded_example = (run_deploy-succeeded outside (job_for "upgrade") server refl).3

run_deploy-loses_addon_example : (run_deploy breaking (job_for "upgrade") server).addon ≡ none
unfolding verify_job elem fetch
run_deploy-loses_addon_example =
    run_deploy-loses_addon breaking (job_for "upgrade") server (codes "n1" ∷ []) (codes "zip") 3
      refl refl refl refl

run_deploy-replay_example :
    run_deploy outside (job_for "install") (record (run_deploy outside (job_for "upgrade") server) {
      seen_nonces = read_ledger (run_deploy outside (job_for "upgrade") server).ledger;
    })
    ≡ save_terminal_status "j1" failed (record (run_deploy outside (job_for "upgrade") server) {
      seen_nonces = read_ledger (run_deploy outside (job_for "upgrade") server).ledger;
    })
unfolding verify_job elem is_line_break lines_text
run_deploy-replay_example =
    run_deploy-replay outside outside (job_for "upgrade") (job_for "install") server _
      (codes "n1" ∷ []) refl refl ([], refl, tt) (more done restarts) refl

read_ledger-write_nonces_example :
    read_ledger (write_nonces (codes "n1" ∷ codes "n2" ∷ []) []) ≡ codes "n1" ∷ codes "n2" ∷ []
unfolding is_line_break
read_ledger-write_nonces_example =
    read_ledger-write_nonces (codes "n1" ∷ codes "n2" ∷ []) (refl, (refl, tt))

run_deploy-Atomic_example :
    Atomic outside
      (job_for "deploy")
      (server_of server)
      (server_of (run_deploy outside (job_for "deploy") server))
unfolding run_deploy deploy_verified verify_job elem fetch deploy_fetched replace_addon unpack
    set_aside install run_odoo_module_command is_valid_command flag_of roll_back restore
    save_terminal_status lookup insert
run_deploy-Atomic_example =
    run_deploy-Atomic outside (job_for "deploy") server rolled_back
      (λ d old h. absurd (ground arith)) (λ d e old x h q. ground arith) (λ artifact others h. refl)
      refl refl (λ e. absurd (ground arith))

-- An archive that writes into another module: the rollback of its deployment leaves that module.
abbrev spilling : Outside ℕ ℕ ℕ
spilling = record outside { spills = λ artifact others. suc others }

spilled :
    ((run_deploy spilling (job_for "deploy") server).others ≡ 8)
    × (lookup "j1" (run_deploy spilling (job_for "deploy") server).reports ≡ some rolled_back)
unfolding run_deploy deploy_verified verify_job elem fetch deploy_fetched replace_addon unpack
    set_aside install run_odoo_module_command is_valid_command flag_of roll_back restore
    save_terminal_status lookup insert
spilled = (refl, refl)
