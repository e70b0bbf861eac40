-- ===== src/Workflows/JobDefaults.antt =====
-- internal/controller/workflow_controller.go: the defaults of a job, and the hardening of its
-- containers. What a template sets itself is kept.
pub mod Hardening
use terrakojo.Prelude.{
  String, Bool, true, false, ℤ, pos, Option, none, some, List, [], ◌∷◌, map, is_empty, ◌==◌,
  if◌then◌else◌,
}
use terrakojo.Api.Batch.{
  Capabilities, SecurityContext, Container, SeccompProfile, PodSecurityContext, PodSpec, JobSpec,
}

abbrev pub or_default {ℓ} : {A : Type ℓ} → Option A → A → Option A
or_default none d = some d
or_default (some a) d = some a

abbrev pub runtime_default : SeccompProfile
runtime_default = record { type = "RuntimeDefault"; localhost_profile = none }

abbrev pub default_seccomp : Option SeccompProfile → Option SeccompProfile
default_seccomp none = some runtime_default
default_seccomp (some p) = some (if p.type == "" then record p { type = "RuntimeDefault" } else p)

unfoldable pub default_pod_security : Option PodSecurityContext → PodSecurityContext
default_pod_security none = record {
  run_as_user = some (pos 1000);
  run_as_non_root = some true;
  seccomp_profile = some runtime_default;
}
default_pod_security (some c) = record c {
  run_as_user = or_default c.run_as_user (pos 1000);
  run_as_non_root = or_default c.run_as_non_root true;
  seccomp_profile = default_seccomp c.seccomp_profile;
}

abbrev pub drop_all : Capabilities
drop_all = record { add = []; drop = "ALL" ∷ [] }

abbrev pub default_capabilities : Option Capabilities → Capabilities
default_capabilities none = drop_all
default_capabilities (some c) = if is_empty c.drop then record c { drop = "ALL" ∷ [] } else c

unfoldable pub harden_security_context : Option SecurityContext → SecurityContext
harden_security_context none = record {
  capabilities = some drop_all;
  privileged = none;
  allow_privilege_escalation = some false;
}
harden_security_context (some c) = record c {
  allow_privilege_escalation = or_default c.allow_privilege_escalation false;
  capabilities = some (default_capabilities c.capabilities);
}

unfoldable pub harden_container : Container → Container
unfolding harden_security_context
harden_container c = record c {
  security_context = some (harden_security_context c.security_context);
}

unfoldable pub apply_job_defaults : JobSpec → JobSpec
unfolding default_pod_security harden_container
apply_job_defaults spec = record spec {
  backoff_limit = or_default spec.backoff_limit (pos 0);
  pod_spec = record (spec.pod_spec) {
    restart_policy =
        if spec.pod_spec.restart_policy == "" then "Never" else spec.pod_spec.restart_policy;
    security_context = some (default_pod_security spec.pod_spec.security_context);
    containers = map harden_container spec.pod_spec.containers;
    init_containers = map harden_container spec.pod_spec.init_containers;
  };
}
