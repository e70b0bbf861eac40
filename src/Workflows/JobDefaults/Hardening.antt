-- ===== src/Workflows/JobDefaults/Hardening.antt =====
-- What the defaults guarantee, and what they leave alone.
use terrakojo.Prelude.{
  String, ◌≡◌, refl, pos, not, Bool, true, false, Option, none, some, List, [], ◌∷◌, map, is_empty,
  ◌==◌, if◌then◌else◌, arith, All, Bool-cases, inl, inr,
}
use terrakojo.Api.Batch.{
  Capabilities, SecurityContext, Container, SeccompProfile, PodSecurityContext, JobSpec,
}
use terrakojo.Workflows.JobDefaults.{
  default_pod_security, harden_security_context, harden_container, apply_job_defaults, or_default,
  default_seccomp,
}

abbrev pub is_set {ℓ} : {A : Type ℓ} → Option A → Bool
is_set none = false
is_set (some a) = true

abbrev pub drops_some : Option Capabilities → Bool
drops_some none = false
drops_some (some c) = not (is_empty c.drop)

abbrev pub is_typed : Option SeccompProfile → Bool
is_typed none = false
is_typed (some p) = not (p.type == "")

-- privilege escalation is decided, and some capability is dropped
abbrev pub ExplicitContext : Option SecurityContext → Type 0
ExplicitContext none = ⊥
ExplicitContext (some c) =
    (is_set c.allow_privilege_escalation ≡ true) × (drops_some c.capabilities ≡ true)

abbrev pub ExplicitPod : Option PodSecurityContext → Type 0
ExplicitPod none = ⊥
ExplicitPod (some c) =
    (is_set c.run_as_user ≡ true)
    × (is_set c.run_as_non_root ≡ true)
    × (is_typed c.seccomp_profile ≡ true)

-- Nothing is left to the cluster's defaults.
pub record IsExplicit (spec : JobSpec) : Type 0 where
  pub backoff_limit : is_set spec.backoff_limit ≡ true
  pub restart_policy : (spec.pod_spec.restart_policy == "") ≡ false
  pub pod : ExplicitPod spec.pod_spec.security_context
  pub containers : All (λ c. ExplicitContext c.security_context) spec.pod_spec.containers
  pub init_containers : All (λ c. ExplicitContext c.security_context) spec.pod_spec.init_containers

ExplicitContext-harden :
    (c : Option SecurityContext) → ExplicitContext (some (harden_security_context c))
unfolding harden_security_context
ExplicitContext-harden none = (refl, refl)
ExplicitContext-harden (some c) = (ground arith, ground arith)

default_seccomp-typed : (p : Option SeccompProfile) → is_typed (default_seccomp p) ≡ true
default_seccomp-typed none = refl
default_seccomp-typed (some p) = elim (Bool-cases (p.type == "")) [
  | inl e ↦ rw e refl
  | inr e ↦ rw e (rw e refl)
]

policy_set : (p : String) → ((if p == "" then "Never" else p) == "") ≡ false
policy_set p = elim (Bool-cases (p == "")) [ inl e ↦ rw e refl | inr e ↦ rw e (rw e refl) ]

ExplicitPod-default : (c : Option PodSecurityContext) → ExplicitPod (some (default_pod_security c))
unfolding default_pod_security
ExplicitPod-default none = (refl, refl, refl)
ExplicitPod-default (some c) = (ground arith, ground arith, default_seccomp-typed c.seccomp_profile)

All-harden :
    (cs : List Container) → All (λ c. ExplicitContext c.security_context) (map harden_container cs)
unfolding harden_container
All-harden [] = tt
All-harden (c ∷ cs) = (ExplicitContext-harden c.security_context, All-harden cs)

-- After the defaults every container drops a capability and decides on privilege escalation, and
-- the pod's user, its seccomp profile, the restart policy and the retry limit are set.
pub apply_job_defaults-IsExplicit : (spec : JobSpec) → IsExplicit (apply_job_defaults spec)
unfolding apply_job_defaults
apply_job_defaults-IsExplicit spec = record {
  backoff_limit = ground arith;
  restart_policy = policy_set spec.pod_spec.restart_policy;
  pod = ExplicitPod-default spec.pod_spec.security_context;
  containers = All-harden spec.pod_spec.containers;
  init_containers = All-harden spec.pod_spec.init_containers;
}

harden_explicit :
    (c : Option SecurityContext) → ExplicitContext c → some (harden_security_context c) ≡ c
unfolding harden_security_context
harden_explicit none h = absurd h
harden_explicit (some c) (e, d) = ground arith

harden_containers_explicit :
    (cs : List Container)
    → All (λ c. ExplicitContext c.security_context) cs
    → map harden_container cs ≡ cs
unfolding harden_container
harden_containers_explicit [] h = refl
harden_containers_explicit (c ∷ cs) (h, hs) =
    cc (harden_explicit c.security_context h, harden_containers_explicit cs hs)

pod_explicit : (c : Option PodSecurityContext) → ExplicitPod c → some (default_pod_security c) ≡ c
unfolding default_pod_security
pod_explicit none h = absurd h
pod_explicit (some c) h = ground arith

backoff_explicit : {A : Type 0} (o : Option A) (d : A) → is_set o ≡ true → or_default o d ≡ o
backoff_explicit none d h = cc
backoff_explicit (some a) d h = refl

policy_explicit : (p : String) → (p == "") ≡ false → (if p == "" then "Never" else p) ≡ p
policy_explicit p h = rw h

-- What a template sets itself is kept: a job that leaves nothing open is not changed.
pub explicit_unchanged : (spec : JobSpec) → IsExplicit spec → apply_job_defaults spec ≡ spec
unfolding apply_job_defaults
explicit_unchanged spec h = λ i. record {
  backoff_limit = backoff_explicit spec.backoff_limit (pos 0) h.backoff_limit i;
  pod_spec = record {
    init_containers = harden_containers_explicit spec.pod_spec.init_containers h.init_containers i;
    containers = harden_containers_explicit spec.pod_spec.containers h.containers i;
    restart_policy = policy_explicit spec.pod_spec.restart_policy h.restart_policy i;
    security_context = pod_explicit spec.pod_spec.security_context h.pod i;
  };
}
