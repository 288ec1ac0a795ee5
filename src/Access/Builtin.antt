-- ===== src/Access/Builtin.antt =====
-- internal/identity/rbac/rbac.go: the built-in permissions and roles.
use control_center_developme.Prelude.{String, List, [], ◌∷◌}
use control_center_developme.Access.Scopes.{Role}

abbrev pub permission_all : String
permission_all = "*"

abbrev pub permission_overview_read : String
permission_overview_read = "system.overview.read"

abbrev pub permission_users_read : String
permission_users_read = "identity.users.read"

abbrev pub permission_users_write : String
permission_users_write = "identity.users.write"

abbrev pub permission_roles_read : String
permission_roles_read = "identity.roles.read"

abbrev pub permission_roles_write : String
permission_roles_write = "identity.roles.write"

abbrev pub permission_audit_read : String
permission_audit_read = "audit.events.read"

abbrev pub permission_resources_read : String
permission_resources_read = "resources.read"

abbrev pub permission_revisions_write : String
permission_revisions_write = "config.revisions.write"

abbrev pub permission_actions_read : String
permission_actions_read = "orchestration.actions.read"

abbrev pub permission_changes_write : String
permission_changes_write = "orchestration.changes.write"

abbrev pub permission_changes_approve : String
permission_changes_approve = "orchestration.changes.approve"

abbrev pub permission_jobs_read : String
permission_jobs_read = "orchestration.jobs.read"

abbrev pub permission_jobs_cancel : String
permission_jobs_cancel = "orchestration.jobs.cancel"

abbrev pub permission_actions_execute : String
permission_actions_execute = "orchestration.actions.execute"

abbrev pub permission_node_enrollment_plan : String
permission_node_enrollment_plan = "nodes.enrollment.plan"

abbrev pub permission_node_lifecycle_read : String
permission_node_lifecycle_read = "nodes.lifecycle.read"

abbrev pub permission_node_lifecycle_plan : String
permission_node_lifecycle_plan = "nodes.lifecycle.plan"

abbrev pub permission_automation_plan : String
permission_automation_plan = "automation.plan"

abbrev pub permission_pxe_plan : String
permission_pxe_plan = "pxe.plan"

abbrev pub permission_market_read : String
permission_market_read = "market.manifests.read"

abbrev pub permission_domain_provider_resolve : String
permission_domain_provider_resolve = "domain.provider.resolve"

abbrev pub permission_domain_lifecycle_plan : String
permission_domain_lifecycle_plan = "domain.lifecycle.plan"

abbrev pub permission_inventory_normalize : String
permission_inventory_normalize = "inventory.normalize"

abbrev pub permission_agent_enrollment_normalize : String
permission_agent_enrollment_normalize = "agent.enrollment.normalize"

abbrev pub permission_inventory_reconcile : String
permission_inventory_reconcile = "inventory.reconcile"

abbrev pub permission_inventory_freshness : String
permission_inventory_freshness = "inventory.freshness.evaluate"

abbrev pub permission_agent_heartbeat_evaluate : String
permission_agent_heartbeat_evaluate = "agent.heartbeat.evaluate"

abbrev pub permission_agent_lease_evaluate : String
permission_agent_lease_evaluate = "agent.lease.evaluate"

abbrev pub permission_core_objects_read : String
permission_core_objects_read = "core.objects.read"

abbrev pub permission_core_objects_write : String
permission_core_objects_write = "core.objects.write"

pub record PermissionDefinition : Type 0 where
  pub name : String
  pub description : String

abbrev defined : String → String → PermissionDefinition
defined name description = record { name = name; description = description }

-- builtinPermissions, BuiltinPermissions
abbrev pub builtin_permissions : List PermissionDefinition
builtin_permissions =
    defined permission_all "All permissions; valid only through an explicit role binding"
    ∷ defined permission_overview_read "Read system overview"
    ∷ defined permission_users_read "Read local identities"
    ∷ defined permission_users_write "Manage local identities"
    ∷ defined permission_roles_read "Read roles and bindings"
    ∷ defined permission_roles_write "Manage roles and bindings"
    ∷ defined permission_audit_read "Read security audit events"
    ∷ defined permission_resources_read "Read resource inventory and observed state"
    ∷ defined permission_revisions_write "Create immutable configuration revisions"
    ∷ defined permission_actions_read "Read executable action descriptors"
    ∷ defined permission_changes_write "Create changes"
    ∷ defined permission_changes_approve "Approve high-risk changes"
    ∷ defined permission_jobs_read "Read job execution state and outputs"
    ∷ defined permission_jobs_cancel "Request job cancellation"
    ∷ defined permission_actions_execute "Execute allowlisted orchestration actions"
    ∷ defined permission_node_enrollment_plan "Plan node enrollment"
    ∷ defined permission_node_lifecycle_read "Read node lifecycle state"
    ∷ defined permission_node_lifecycle_plan "Plan guarded node lifecycle transitions"
    ∷ defined permission_automation_plan "Plan software automation without host mutation"
    ∷ defined permission_pxe_plan "Plan PXE deployment without host mutation"
    ∷ defined permission_market_read "Read Market manifests"
    ∷ defined permission_domain_provider_resolve "Resolve compatible directory-service providers"
    ∷ defined permission_domain_lifecycle_plan "Plan directory-service lifecycle operations"
    ∷ defined permission_inventory_normalize "Normalize inventory observations"
    ∷ defined permission_agent_enrollment_normalize "Normalize agent enrollment contracts"
    ∷ defined permission_inventory_reconcile "Reconcile inventory observations"
    ∷ defined permission_inventory_freshness "Evaluate inventory freshness"
    ∷ defined permission_agent_heartbeat_evaluate "Evaluate agent heartbeat health"
    ∷ defined permission_agent_lease_evaluate "Evaluate agent lease state"
    ∷ defined permission_core_objects_read "Read distributed core topology and state objects"
    ∷ defined permission_core_objects_write
        "Apply typed distributed core object changes through Change and Job"
    ∷ []

abbrev role_of : String → String → List String → Role
role_of name description permissions = record {
  name = name;
  description = description;
  permissions = permissions;
}

-- BuiltinRoles
abbrev pub builtin_roles : List Role
builtin_roles =
    role_of "administrator" "Full Control Center administration" (permission_all ∷ [])
    ∷ role_of "operator" "Routine identity and system operations" (
        permission_overview_read ∷ permission_users_read ∷ permission_users_write
        ∷ permission_roles_read ∷ permission_resources_read ∷ permission_revisions_write
        ∷ permission_actions_read ∷ permission_changes_write ∷ permission_jobs_read
        ∷ permission_jobs_cancel ∷ permission_node_enrollment_plan ∷ permission_node_lifecycle_read
        ∷ permission_node_lifecycle_plan ∷ permission_automation_plan ∷ permission_pxe_plan
        ∷ permission_market_read ∷ permission_domain_provider_resolve
        ∷ permission_domain_lifecycle_plan ∷ permission_inventory_normalize
        ∷ permission_agent_enrollment_normalize ∷ permission_inventory_reconcile
        ∷ permission_inventory_freshness ∷ permission_agent_heartbeat_evaluate
        ∷ permission_agent_lease_evaluate ∷ permission_core_objects_read
        ∷ permission_core_objects_write ∷ [])
    ∷ role_of "auditor" "Read-only security and audit access" (
        permission_overview_read ∷ permission_audit_read ∷ permission_users_read
        ∷ permission_roles_read ∷ permission_resources_read ∷ permission_actions_read
        ∷ permission_jobs_read ∷ permission_market_read ∷ permission_node_lifecycle_read
        ∷ permission_core_objects_read ∷ [])
    ∷ role_of "viewer" "Read-only overview access" (
        permission_overview_read ∷ permission_resources_read ∷ permission_actions_read
        ∷ permission_market_read ∷ permission_node_lifecycle_read ∷ permission_core_objects_read
        ∷ [])
    ∷ []
