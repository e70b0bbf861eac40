-- ===== src/Repositories/Heads.antt =====
-- The Branch objects of a repository against GitHub's heads
-- (internal/controller/repository_controller.go).
use Prim.Native.String.{len, slice}
use terrakojo.Prelude.{
  ℤ, pos, String, Bool, true, false, ◌||◌, ◌&&◌, not, Option, none, some, List, [], ◌∷◌, ◌⊕◌,
  contains, ◌==◌, leb, int_eq, if◌then◌else◌,
}
use terrakojo.Prelude.Dictionary.{Dictionary, lookup, remove, at}
use terrakojo.Api.{blank_meta, key_of, is_deleted, Branch, Repository}
use terrakojo.Control.{
  Ctl, pure, raise, gets, lift, attempt, wrapping, ignore_not_found, ◌>>=◌, ◌>>◌,
}
use terrakojo.Control.Errors.{Result, ok, err, branch_migration_pending}
use terrakojo.Control.Client.{create_branch, update_branch, delete_branch, get_branch}
use terrakojo.Sync.{BranchHead, BranchHeads, head_key}
use terrakojo.Text.Decimal.{itoa}

abbrev pub external_pr_identity : String
external_pr_identity = "terrakojo.io/pull-request-identity"

unfoldable pub branch_identity : Branch → String
branch_identity branch =
    let number = at external_pr_identity branch.meta.annotations in
    if not (number == "") then "pr:" ⊕ number else branch.spec.name

-- the branches of a key of the map
abbrev pub group_at : String → Dictionary (List Branch) → List Branch
group_at key groups = elim (lookup key groups) [ none ↦ [] | some branches ↦ branches ]

unfoldable pub short_sha : String → String
short_sha sha = if leb 8 (len sha) then slice sha 0 8 else sha

unfoldable pub hash_ref : (String → String) → String → String
hash_ref sha256_hex ref = slice (sha256_hex ref) 0 8

-- the name of the object for a head
unfoldable pub branch_name : (String → String) → Repository → BranchHead → String
unfolding short_sha hash_ref
branch_name sha256_hex repo head =
    if head.external_pr
    then repo.spec.name ⊕ "-pr-" ⊕ itoa head.info.pr_number ⊕ "-" ⊕ short_sha head.info.sha
    else repo.spec.name ⊕ "-" ⊕ hash_ref sha256_hex head.info.ref ⊕ "-" ⊕ short_sha head.info.sha

-- the object before it has its owner reference
abbrev pub branch_for : (String → String) → Repository → BranchHead → Branch
branch_for sha256_hex repo head = record {
  meta = record blank_meta {
    name = branch_name sha256_hex repo head;
    namespace = repo.meta.namespace;
    annotations =
        if head.external_pr then (external_pr_identity, itoa head.info.pr_number) ∷ [] else [];
    labels =
        ("terrakojo.io/repo-uid", repo.meta.uid) ∷ ("terrakojo.io/repo-name", repo.spec.name) ∷ [];
  };
  spec = record {
    owner = repo.spec.owner;
    repository = repo.spec.name;
    name = head.info.ref;
    pr_number = head.info.pr_number;
    sha = head.info.sha;
  };
  status = record { conditions = []; workflows = []; changed_files = [] };
}

unfoldable pub create_branch_resource : Repository → BranchHead → Ctl (Unit {0})
unfolding branch_name
create_branch_resource repo head = do
  branch ← gets (λ env calls. branch_for env.sha256_hex repo head)
  reference ← gets (λ env calls. env.set_controller_reference "Repository" repo.meta branch.meta)
  meta ← wrapping "failed to set controller reference" (lift reference)
  create_branch (record branch { meta = meta })
  pure tt

unfoldable pub needs_branch_update : Branch → BranchHead → Bool
needs_branch_update branch head = not (int_eq branch.spec.pr_number head.info.pr_number)

unfoldable pub update_branch_resource : Branch → BranchHead → Ctl (Unit {0})
update_branch_resource branch head = do
  update_branch (record branch { spec = record (branch.spec) { pr_number = head.info.pr_number } })
  pure tt

-- whether the object is for the head's ref and commit
abbrev pub is_current : Branch → BranchHead → Bool
is_current branch head = (branch.spec.sha == head.info.sha) && (branch.spec.name == head.info.ref)

unfoldable pub ensure_branch_resource : Repository → BranchHead → List Branch → Ctl (Unit {0})
unfolding create_branch_resource needs_branch_update update_branch_resource
ensure_branch_resource repo head [] =
    wrapping "failed to create branch" (create_branch_resource repo head)
ensure_branch_resource repo head (current ∷ others) =
    if is_current current head
    then (if needs_branch_update current head
        then wrapping "failed to update branch" (update_branch_resource current head)
        else pure tt)
    else do
      wrapping ("failed to delete branch with old SHA " ⊕ current.meta.name)
          (ignore_not_found (delete_branch (key_of current.meta)))
      wrapping "failed to create branch" (create_branch_resource repo head)

-- a head of the default branch at a commit
abbrev pub commit_head : Repository → String → BranchHead
commit_head repo sha = record {
  info = record { ref = repo.spec.default_branch; pr_number = pos 0; sha = sha };
  external_pr = false;
}

-- the SHAs of the objects, but for empty ones
unfoldable pub existing_shas : List Branch → List String
existing_shas [] = []
existing_shas (b ∷ branches) =
    let rest = existing_shas branches in if b.spec.sha == "" then rest else b.spec.sha ∷ rest

unfoldable pub ensure_commits : Repository → List String → List String → Ctl (Unit {0})
unfolding create_branch_resource
ensure_commits repo existing [] = pure tt
ensure_commits repo existing (sha ∷ shas) =
    if sha == "" || contains sha existing then ensure_commits repo existing shas else do
      wrapping ("failed to create branch for default branch commit " ⊕ sha)
          (create_branch_resource repo (commit_head repo sha))
      ensure_commits repo existing shas

unfoldable pub ensure_default_branch_commits :
    Repository → List String → List Branch → Ctl (Unit {0})
unfolding existing_shas ensure_commits
ensure_default_branch_commits repo shas existing = ensure_commits repo (existing_shas existing) shas

-- the ref of an external pull request, if the number is one's
unfoldable pub external_ref : ℤ → List (ℤ × String) → Option String
external_ref number [] = none
external_ref number ((n, ref) ∷ prs) = if int_eq n number then some ref else external_ref number prs

-- an object of the old form, named for a ref of this repository, whose pull request is from outside
unfoldable pub is_legacy : String → List (ℤ × String) → Branch → Bool
unfolding external_ref
is_legacy default_branch prs branch = elim (external_ref branch.spec.pr_number prs) [
  | none ↦ false
  | some ref ↦
      (at external_pr_identity branch.meta.annotations == "")
      && (ref == branch.spec.name)
      && not (ref == default_branch)
]

-- whether a retired object is still there
abbrev pub still_there : Result Branch → Ctl Bool
still_there (ok branch) env calls = (ok true, calls)
still_there (err e) env calls = (if env.is_not_found e then ok false else err e, calls)

unfoldable pub retire : Branch → Ctl Bool
retire branch = do
  (if is_deleted branch.meta
      then pure tt
      else ignore_not_found (delete_branch (key_of branch.meta)))
  answer ← attempt (get_branch (key_of branch.meta))
  still_there answer

-- the objects that are kept, and whether one that is retired is still there
unfoldable pub retire_legacy : String → List (ℤ × String) → List Branch → Ctl (List Branch × Bool)
unfolding is_legacy retire
retire_legacy default_branch prs [] = pure ([], false)
retire_legacy default_branch prs (b ∷ branches) =
    if not (is_legacy default_branch prs b)
    then (do rest ← retire_legacy default_branch prs branches; pure (b ∷ rest.0, rest.1))
    else (do
      pending ← retire b
      rest ← retire_legacy default_branch prs branches
      pure (rest.0, pending || rest.1))

unfoldable pub retire_groups :
    String → List (ℤ × String) → Dictionary (List Branch) → Ctl (Dictionary (List Branch) × Bool)
unfolding retire_legacy
retire_groups default_branch prs [] = pure ([], false)
retire_groups default_branch prs ((key, branches) ∷ groups) = do
  kept ← retire_legacy default_branch prs branches
  rest ← retire_groups default_branch prs groups
  pure ((key, kept.0) ∷ rest.0, kept.1 || rest.1)

-- each head gets its object; the groups that no head claims are left
unfoldable pub ensure_heads :
    Repository → List BranchHead → Dictionary (List Branch) → Ctl (Dictionary (List Branch))
unfolding ensure_branch_resource
ensure_heads repo [] groups = pure groups
ensure_heads repo (head ∷ heads) groups =
    if head.info.ref == repo.spec.default_branch then ensure_heads repo heads groups else do
      ensure_branch_resource repo head (group_at (head_key head) groups)
      ensure_heads repo heads (remove (head_key head) groups)

unfoldable pub delete_branches : List Branch → Ctl (Unit {0})
delete_branches [] = pure tt
delete_branches (b ∷ branches) = do
  ignore_not_found (delete_branch (key_of b.meta))
  delete_branches branches

unfoldable pub delete_groups : Dictionary (List Branch) → Ctl (Unit {0})
unfolding delete_branches
delete_groups [] = pure tt
delete_groups ((key, branches) ∷ groups) = do delete_branches branches; delete_groups groups

unfoldable pub sync_branch_heads :
    Repository → Dictionary (List Branch) → BranchHeads → Ctl (Unit {0})
unfolding retire_groups ensure_heads delete_groups
sync_branch_heads repo groups snapshot = do
  retired ← retire_groups repo.spec.default_branch snapshot.external_prs groups
  if retired.1 then raise branch_migration_pending else do
    stale ← ensure_heads repo snapshot.heads retired.0
    delete_groups (remove repo.spec.default_branch stale)
