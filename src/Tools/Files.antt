-- ===== src/Tools/Files.antt =====
-- The part of `TOOL_REGISTRY` of backend/tool_registry.py for workspace files and Git.
use pi_development_agent.Base.{true, false, List, [], ◌∷◌}
use pi_development_agent.Tools.Entry.{ToolRegistryEntry, all_engines}

abbrev pub workspace_tools : List ToolRegistryEntry
workspace_tools =
    record {
      name = "list_directory";
      description = "List a directory inside the project workspace.";
      erp_compat = all_engines;
      risk_class = 1;
      is_write = false;
      requires_approval = false;
      supports_rollback = false;
      is_idempotent = true;
      evidence_kinds = [];
      required_permissions = [];
    }
    ∷ record {
      name = "read_file";
      description = "Read a UTF-8 file from the workspace.";
      erp_compat = all_engines;
      risk_class = 1;
      is_write = false;
      requires_approval = false;
      supports_rollback = false;
      is_idempotent = true;
      evidence_kinds = [];
      required_permissions = [];
    }
    ∷ record {
      name = "create_directory";
      description = "Create a directory in the workspace.";
      erp_compat = all_engines;
      risk_class = 2;
      is_write = true;
      requires_approval = true;
      supports_rollback = true;
      is_idempotent = true;
      evidence_kinds = "workspace_change" ∷ [];
      required_permissions = [];
    }
    ∷ record {
      name = "write_file";
      description = "Atomically write a file in the workspace.";
      erp_compat = all_engines;
      risk_class = 2;
      is_write = true;
      requires_approval = true;
      supports_rollback = true;
      is_idempotent = false;
      evidence_kinds = "workspace_change" ∷ [];
      required_permissions = "workspace:{path}" ∷ [];
    }
    ∷ record {
      name = "patch_file";
      description = "Targeted string replacement in an existing workspace file.";
      erp_compat = all_engines;
      risk_class = 2;
      is_write = true;
      requires_approval = true;
      supports_rollback = true;
      is_idempotent = false;
      evidence_kinds = "workspace_change" ∷ [];
      required_permissions = "workspace:{path}" ∷ [];
    }
    ∷ record {
      name = "create_worktree_branch";
      description = "Create an isolated Git branch for changes.";
      erp_compat = all_engines;
      risk_class = 2;
      is_write = true;
      requires_approval = false;
      supports_rollback = true;
      is_idempotent = false;
      evidence_kinds = "git_event" ∷ [];
      required_permissions = [];
    }
    ∷ record {
      name = "show_diff_preview";
      description = "Show a unified diff of pending changes before approval.";
      erp_compat = all_engines;
      risk_class = 1;
      is_write = false;
      requires_approval = false;
      supports_rollback = false;
      is_idempotent = true;
      evidence_kinds = "diff" ∷ [];
      required_permissions = [];
    }
    ∷ record {
      name = "commit_changes";
      description = "Commit approved changes to the Git branch.";
      erp_compat = all_engines;
      risk_class = 2;
      is_write = true;
      requires_approval = true;
      supports_rollback = true;
      is_idempotent = false;
      evidence_kinds = "git_event" ∷ "commit_hash" ∷ [];
      required_permissions = [];
    }
    ∷ record {
      name = "revert_changes";
      description = "Revert a committed change (class-3, requires approval).";
      erp_compat = all_engines;
      risk_class = 3;
      is_write = true;
      requires_approval = true;
      supports_rollback = false;
      is_idempotent = false;
      evidence_kinds = "git_event" ∷ [];
      required_permissions = [];
    }
    ∷ []
