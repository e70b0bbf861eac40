-- ===== src/Api.antt =====
-- api/v1alpha1: the custom resources, and of the Kubernetes object types the fields that the
-- controllers read or write. A Go pointer is an `Option`; a nil slice or map is the empty list.
pub mod Batch
pub mod Github
use terrakojo.Prelude.{ℕ, ℤ, pos, String, Bool, true, false, Option, none, some, List, []}
use terrakojo.Prelude.Dictionary.{Dictionary}
use Batch.{JobSpec}

pub record ObjectKey : Type 0 where
  pub name : String
  pub namespace : String

pub record OwnerReference : Type 0 where
  pub kind : String
  pub name : String
  pub uid : String
  pub controller : Option Bool

pub record ObjectMeta : Type 0 where
  pub name : String
  pub generate_name : String
  pub namespace : String
  pub uid : String
  pub labels : Dictionary String
  pub annotations : Dictionary String
  pub finalizers : List String
  pub owner_references : List OwnerReference
  pub deletion_timestamp : Option ℕ
  pub generation : ℤ

abbrev pub key_of : ObjectMeta → ObjectKey
key_of meta = record { name = meta.name; namespace = meta.namespace }

-- `!meta.DeletionTimestamp.IsZero()`
abbrev pub is_deleted : ObjectMeta → Bool
is_deleted meta = elim (meta.deletion_timestamp) [ none ↦ false | some t ↦ true ]

-- the metadata of an object that a controller makes, before the API server has filled it in
abbrev pub blank_meta : ObjectMeta
blank_meta = record {
  name = "";
  generate_name = "";
  namespace = "";
  uid = "";
  labels = [];
  annotations = [];
  finalizers = [];
  owner_references = [];
  deletion_timestamp = none;
  generation = pos 0;
}

pub data ConditionStatus : Type 0 where
  condition_true condition_false condition_unknown : ConditionStatus

pub record Condition : Type 0 where
  pub type : String
  pub status : ConditionStatus
  pub observed_generation : ℤ
  pub last_transition_time : ℕ
  pub reason : String
  pub message : String

pub record BranchSpec : Type 0 where
  pub owner : String
  pub repository : String
  pub name : String
  pub pr_number : ℤ
  pub sha : String

pub record BranchStatus : Type 0 where
  pub conditions : List Condition
  pub workflows : List String
  pub changed_files : List String

pub record Branch : Type 0 where
  pub meta : ObjectMeta
  pub spec : BranchSpec
  pub status : BranchStatus

pub record WorkflowSpec : Type 0 where
  pub owner : String
  pub repository : String
  pub branch : String
  pub sha : String
  pub template : String
  pub path : String
  pub parameters : Dictionary String

pub record WorkflowStatus : Type 0 where
  pub conditions : List Condition
  pub phase : String
  pub jobs : List String
  pub check_run_id : ℤ
  pub check_run_name : String

pub record Workflow : Type 0 where
  pub meta : ObjectMeta
  pub spec : WorkflowSpec
  pub status : WorkflowStatus

pub record BranchInfo : Type 0 where
  pub ref : String
  pub pr_number : ℤ
  pub sha : String

pub record GithubSecretRef : Type 0 where
  pub name : String
  pub namespace : String

pub record RepositorySpec : Type 0 where
  pub owner : String
  pub name : String
  pub type : String
  pub default_branch : String
  pub github_secret_ref : GithubSecretRef

pub record RepositoryStatus : Type 0 where
  pub conditions : List Condition
  pub last_default_branch_head_sha : String
  pub last_bootstrap_reset_id : String
  pub synced : Bool

pub record Repository : Type 0 where
  pub meta : ObjectMeta
  pub spec : RepositorySpec
  pub status : RepositoryStatus

pub record WorkflowMatch : Type 0 where
  pub paths : List String
  pub execution_unit : String

pub record WorkflowTemplateSpec : Type 0 where
  pub display_name : String
  pub match : WorkflowMatch
  pub job : JobSpec

pub record WorkflowTemplate : Type 0 where
  pub meta : ObjectMeta
  pub spec : WorkflowTemplateSpec
  pub status : List Condition

-- a Job, with the status counters that decide a workflow's phase
pub record JobStatus : Type 0 where
  pub active : ℤ
  pub succeeded : ℤ
  pub failed : ℤ

pub record Job : Type 0 where
  pub meta : ObjectMeta
  pub spec : JobSpec
  pub status : JobStatus

-- the data of a Secret, its bytes read as text
pub record Secret : Type 0 where
  pub contents : Dictionary String
