-- ===== src/Api/Batch.antt =====
-- The part of k8s.io/api's batch/v1 and core/v1 types that a job template's defaults and environment
-- are computed on.
use terrakojo.Prelude.{ℤ, String, Bool, Option, List}

pub record EnvVar : Type 0 where
  pub name : String
  pub value : String

pub record Capabilities : Type 0 where
  pub add : List String
  pub drop : List String

pub record SecurityContext : Type 0 where
  pub capabilities : Option Capabilities
  pub privileged : Option Bool
  pub allow_privilege_escalation : Option Bool

pub record Container : Type 0 where
  pub name : String
  pub image : String
  pub env : List EnvVar
  pub security_context : Option SecurityContext

pub record SeccompProfile : Type 0 where
  pub type : String
  pub localhost_profile : Option String

pub record PodSecurityContext : Type 0 where
  pub run_as_user : Option ℤ
  pub run_as_non_root : Option Bool
  pub seccomp_profile : Option SeccompProfile

pub record PodSpec : Type 0 where
  pub init_containers : List Container
  pub containers : List Container
  pub restart_policy : String
  pub security_context : Option PodSecurityContext

-- `pod_spec` is `Template.Spec`
pub record JobSpec : Type 0 where
  pub backoff_limit : Option ℤ
  pub pod_spec : PodSpec
