-- ===== src/Planner/Graphs.antt =====
-- The task graphs that backend/agent.py writes out: the graph that `build_from_specification` returns
-- for every specification, and the templates of `decompose`.
use pi_development_agent.Base.{List, [], ◌∷◌, none, some}
use pi_development_agent.Planner.Task.{Task, pending, no_context}

-- `SupervisorPlanner.build_from_specification`; its argument is not read.
abbrev pub build_from_specification : List Task
build_from_specification =
    record {
      task_id = "scaffold_module";
      title = "Inspect environment and scaffold module files";
      depends_on = [];
      status = pending;
      retry_count = 0;
      max_retries = some 2;
      acceptance_criteria =
          some "Module manifest, security CSV, and __init__.py files are created and valid.";
      context_bundle = no_context;
      result = none;
      heartbeat_at = none;
    }
    ∷ record {
      task_id = "implement_models";
      title = "Implement Python models, fields, and constraints";
      depends_on = "scaffold_module" ∷ [];
      status = pending;
      retry_count = 0;
      max_retries = some 2;
      acceptance_criteria =
          some "All required models and fields from the specification are implemented.";
      context_bundle = no_context;
      result = none;
      heartbeat_at = none;
    }
    ∷ record {
      task_id = "implement_views";
      title = "Implement XML views, menus, and actions";
      depends_on = "implement_models" ∷ [];
      status = pending;
      retry_count = 0;
      max_retries = some 2;
      acceptance_criteria = some "Form, list, and action XML views are created and valid.";
      context_bundle = no_context;
      result = none;
      heartbeat_at = none;
    }
    ∷ record {
      task_id = "implement_security";
      title = "Configure access control and security rules";
      depends_on = "implement_models" ∷ [];
      status = pending;
      retry_count = 0;
      max_retries = some 2;
      acceptance_criteria = some "ACL entries exist for all models in ir.model.access.csv.";
      context_bundle = no_context;
      result = none;
      heartbeat_at = none;
    }
    ∷ record {
      task_id = "generate_tests";
      title = "Generate Odoo tests for the required business scenario";
      depends_on = "implement_models" ∷ "implement_views" ∷ "implement_security" ∷ [];
      status = pending;
      retry_count = 0;
      max_retries = some 2;
      acceptance_criteria =
          some "Odoo tests cover the core scenario and security-sensitive behavior.";
      context_bundle = no_context;
      result = none;
      heartbeat_at = none;
    }
    ∷ record {
      task_id = "validate_and_verify";
      title = "Package module and verify installation on Odoo 19";
      depends_on = "generate_tests" ∷ [];
      status = pending;
      retry_count = 0;
      max_retries = some 2;
      acceptance_criteria =
          some
            "Module passes static validation and verify_module_installation confirms clean installation.";
      context_bundle = no_context;
      result = none;
      heartbeat_at = none;
    }
    ∷ []

-- `_STANDARD_MODULE_TASK_GRAPH`
abbrev pub standard_module_task_graph : List Task
standard_module_task_graph =
    record {
      task_id = "task_01_inspect_ground";
      title = "Inspect & ground schema";
      depends_on = [];
      status = pending;
      retry_count = 0;
      max_retries = none;
      acceptance_criteria = none;
      context_bundle = no_context;
      result = none;
      heartbeat_at = none;
    }
    ∷ record {
      task_id = "task_02_extend_models";
      title = "Extend models / computed fields";
      depends_on = "task_01_inspect_ground" ∷ [];
      status = pending;
      retry_count = 0;
      max_retries = none;
      acceptance_criteria = none;
      context_bundle = no_context;
      result = none;
      heartbeat_at = none;
    }
    ∷ record {
      task_id = "task_03_config_model";
      title = "Create config model";
      depends_on = "task_01_inspect_ground" ∷ [];
      status = pending;
      retry_count = 0;
      max_retries = none;
      acceptance_criteria = none;
      context_bundle = no_context;
      result = none;
      heartbeat_at = none;
    }
    ∷ record {
      task_id = "task_04_views_menus";
      title = "Add views & menus";
      depends_on = "task_02_extend_models" ∷ "task_03_config_model" ∷ [];
      status = pending;
      retry_count = 0;
      max_retries = none;
      acceptance_criteria = none;
      context_bundle = no_context;
      result = none;
      heartbeat_at = none;
    }
    ∷ record {
      task_id = "task_05_security_access";
      title = "Add security access entries";
      depends_on = "task_02_extend_models" ∷ "task_03_config_model" ∷ "task_04_views_menus" ∷ [];
      status = pending;
      retry_count = 0;
      max_retries = none;
      acceptance_criteria = none;
      context_bundle = no_context;
      result = none;
      heartbeat_at = none;
    }
    ∷ record {
      task_id = "task_06_verify_install";
      title = "Verify module installation";
      depends_on = "task_05_security_access" ∷ [];
      status = pending;
      retry_count = 0;
      max_retries = none;
      acceptance_criteria = none;
      context_bundle = no_context;
      result = none;
      heartbeat_at = none;
    }
    ∷ []

-- `_CONVERSATIONAL_TASK_GRAPH`
abbrev pub conversational_task_graph : List Task
conversational_task_graph =
    record {
      task_id = "conversational_dialogue";
      title = "Respond to user inquiry and provide technical/instance guidance";
      depends_on = [];
      status = pending;
      retry_count = 0;
      max_retries = some 1;
      acceptance_criteria =
          some
            "Answer the user's inquiry directly, accurately, and conversationally based on Google Antigravity agent architecture, Odoo 19 capabilities, and live connected ERP instance context. Explain concepts clearly, answer technical questions, propose structured plans if discussing workflows, and do not modify any files or execute write actions. Call complete_task with outcome=SUCCESS once answered.";
      context_bundle = no_context;
      result = none;
      heartbeat_at = none;
    }
    ∷ []

-- `_INSPECTION_TASK_GRAPH`
abbrev pub inspection_task_graph : List Task
inspection_task_graph =
    record {
      task_id = "inspect_request";
      title = "Inspect the connected database and report findings";
      depends_on = [];
      status = pending;
      retry_count = 0;
      max_retries = some 1;
      acceptance_criteria =
          some
            "Use read-only inspection tools and return concrete database evidence. Do not modify the workspace or ERP.";
      context_bundle = no_context;
      result = none;
      heartbeat_at = none;
    }
    ∷ []

-- `_SIMPLE_TASK_GRAPH`
abbrev pub simple_task_graph : List Task
simple_task_graph =
    record {
      task_id = "task_01_execute";
      title = "Execute task";
      depends_on = [];
      status = pending;
      retry_count = 0;
      max_retries = none;
      acceptance_criteria = none;
      context_bundle = no_context;
      result = none;
      heartbeat_at = none;
    }
    ∷ []
