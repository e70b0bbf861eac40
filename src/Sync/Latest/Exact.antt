-- ===== src/Sync/Latest/Exact.antt =====
-- internal/repository/sync: the heads of a snapshot, key by key.
use terrakojo.Prelude.{
  ◌≡◌, refl, sym, ap, subst, ◌∙◌, inl, inr, zero, suc, ℤ, pos, negsuc, String, true, false,
  Bool-cases, not, ◌||◌, Option, none, some, List, [], ◌∷◌, ◌==◌, int_le, is_pos, if◌then◌else◌,
  arith, eq_iff, contains, All,
}
use terrakojo.Prelude.Dictionary.{Dictionary, lookup, keys}
use terrakojo.Api.{Repository}
use terrakojo.Api.Github.{GithubBranch, PullRequest, PullRequestEnd}
use terrakojo.Text.Sort.{sort_strings, contains-sort_strings}
use terrakojo.Sync.{
  BranchHead, head_key, local_heads, pr_head, sha_of, with_local_sha, is_superseded, collect_prs,
  heads_with_sha, snapshot_of,
}
use terrakojo.Sync.Snapshot.{IsFiled, local_heads-IsTable, collect_prs-IsTable, lookup-IsFiled}
use terrakojo.Sync.Latest.{
  branch_sha, usable_head, with_key, candidates, newer, newest, branch_head, settled_head,
  chosen_head, latest_head, find_head,
}
use terrakojo.Sync.Latest.Locals.{lookup-local_heads}
use terrakojo.Sync.Latest.Merged.{merged, lookup-collect_prs}

-- every candidate has a positive number
abbrev IsNumbered : BranchHead → Type 0
IsNumbered head = is_pos head.info.pr_number ≡ true

candidates-All :
    (repo : Repository) (key : String) (prs : List (Option PullRequest))
    → All IsNumbered (candidates repo key prs)
candidates-All repo key [] = tt
candidates-All repo key (none ∷ prs) = candidates-All repo key prs
candidates-All repo key (some pr ∷ prs) = by_end pr.head (candidates-All repo key prs)
  where
    by_end :
        (end : Option PullRequestEnd)
        → All IsNumbered (candidates repo key prs)
        → All IsNumbered (with_key key (usable_head repo pr end) (candidates repo key prs))
    by_end none h = h
    by_end (some end) h =
        let head = pr_head repo pr end in
        elim (Bool-cases (head.info.ref == "" || not (is_pos head.info.pr_number))) [
          | inl unusable ↦ rw unusable h
          | inr usable ↦ rw usable (elim (Bool-cases (head_key head == key)) [
            | inl same ↦ rw same (ground arith, h)
            | inr other ↦ rw other h
          ])
        ]

newest-IsNumbered :
    (heads : List BranchHead) (m : BranchHead)
    → All IsNumbered heads
    → newest heads ≡ some m
    → IsNumbered m
newest-IsNumbered [] m h e = cc
newest-IsNumbered (head ∷ heads) m (h, hs) e =
    by_rest (newest heads) (λ n found. newest-IsNumbered heads n hs found) e
  where
    by_rest :
        (rest : Option BranchHead)
        → ((n : BranchHead) → rest ≡ some n → IsNumbered n)
        → newer head rest ≡ some m
        → IsNumbered m
    by_rest none numbered e = let same : head ≡ m = cc in subst IsNumbered same h
    by_rest (some n) numbered e = elim (Bool-cases (int_le n.info.pr_number head.info.pr_number)) [
      | inl older ↦
          let found : some head ≡ some m = rw older at e in
          let same : head ≡ m = cc in subst IsNumbered same h
      | inr is_newer ↦
          let found : some n ≡ some m = rw is_newer at e in
          let same : n ≡ m = cc in subst IsNumbered same (numbered n refl)
    ]

-- a head without a commit is left out
abbrev with_sha : Option BranchHead → Option BranchHead
with_sha none = none
with_sha (some head) = if head.info.sha == "" then none else some head

positive_above : (n : ℤ) → is_pos n ≡ true → int_le n (pos 0) ≡ false
positive_above (pos zero) h = cc
positive_above (pos (suc n)) h = ground arith
positive_above (negsuc n) h = cc

module _ (default_branch : String) (branches : List (Option GithubBranch)) where
  abbrev locals : Dictionary BranchHead
  locals = local_heads default_branch [] branches

  lookup_local :
      (key : String) → lookup key locals ≡ branch_head key (branch_sha default_branch branches key)
  unfolding lookup
  lookup_local key = lookup-local_heads default_branch key branches []

  local_sha : (key : String) → sha_of (lookup key locals) ≡ branch_sha default_branch branches key
  local_sha key = elim (Bool-cases (branch_sha default_branch branches key == "")) [
    | inl missing ↦
        rw (lookup_local key, missing)
          (sym ((eq_iff (branch_sha default_branch branches key) "").0 missing))
    | inr found ↦ rw (lookup_local key, found) refl
  ]

  with_sha-merged :
      (key : String) (found : Option BranchHead)
      → ((m : BranchHead) → found ≡ some m → IsNumbered m)
      → with_sha (merged locals (lookup key locals) found)
        ≡ chosen_head (branch_sha default_branch branches) key found
  with_sha-merged key none numbered =
      elim (Bool-cases (branch_sha default_branch branches key == "")) [
        | inl missing ↦ rw (lookup_local key, missing) refl
        | inr there ↦ rw (lookup_local key, there) (rw there refl)
      ]
  with_sha-merged key (some m) numbered = rw not_superseded by_sha
    where
      not_superseded : is_superseded m (lookup key locals) ≡ false
      not_superseded = elim (Bool-cases (branch_sha default_branch branches key == "")) [
        | inl missing ↦ rw (lookup_local key, missing) refl
        | inr there ↦
            rw (lookup_local key, there) (positive_above m.info.pr_number (numbered m refl))
      ]

      by_sha :
          with_sha (some (with_local_sha locals m))
          ≡ settled_head (branch_sha default_branch branches) m
      by_sha = elim (Bool-cases (m.info.sha == "")) [
        | inl lacks ↦ elim (Bool-cases m.external_pr) [
          | inl external ↦ rw (lacks, external) (rw lacks refl)
          | inr inner ↦ rw (lacks, inner) (rw (local_sha m.info.ref) refl)
        ]
        | inr has ↦ rw has (rw has refl)
      ]

find_head-heads_with_sha :
    (key : String) (heads : Dictionary BranchHead) (from : List String)
    → All IsFiled heads
    → find_head key (heads_with_sha heads from)
      ≡ (if contains key from then with_sha (lookup key heads) else none)
unfolding heads_with_sha
find_head-heads_with_sha key heads [] filed = refl
find_head-heads_with_sha key heads (k ∷ from) filed =
    by_lookup (lookup k heads) refl (find_head-heads_with_sha key heads from filed)
  where
    -- the key has no head with a commit
    dropped :
        (o : Option BranchHead)
        → with_sha o ≡ none
        → lookup k heads ≡ o
        → find_head key (heads_with_sha heads from)
          ≡ (if contains key from then with_sha (lookup key heads) else none)
        → find_head key (heads_with_sha heads from)
          ≡ (if (k == key) || contains key from then with_sha (lookup key heads) else none)
    dropped o nothing e later = elim (Bool-cases (k == key)) [
      | inl same ↦
          let at_key = subst (λ i. lookup i heads ≡ o) ((eq_iff k key).0 same) e in
          let empty : with_sha (lookup key heads) ≡ none = ap with_sha at_key ∙ nothing in
          later
          ∙ rw (same, empty)
              (elim (Bool-cases (contains key from)) [
                | inl held ↦ rw held refl
                | inr free ↦ rw free refl
              ])
      | inr other ↦ later ∙ rw other refl
    ]

    by_lookup :
        (o : Option BranchHead)
        → lookup k heads ≡ o
        → find_head key (heads_with_sha heads from)
          ≡ (if contains key from then with_sha (lookup key heads) else none)
        → find_head key (elim o as (λ o. List BranchHead) [
          | none ↦ heads_with_sha heads from
          | some head ↦
              if head.info.sha == ""
              then heads_with_sha heads from
              else head ∷ heads_with_sha heads from
        ])
          ≡ (if (k == key) || contains key from then with_sha (lookup key heads) else none)
    by_lookup none e later = dropped none refl e later
    by_lookup (some head) e later = elim (Bool-cases (head.info.sha == "")) [
      | inl lacks ↦ rw lacks (dropped (some head) (rw lacks refl) e later)
      | inr has ↦
          rw (has, (lookup-IsFiled k heads head filed e).0)
            (elim (Bool-cases (k == key)) [
              | inl same ↦
                  let found = subst (λ i. lookup i heads ≡ some head) ((eq_iff k key).0 same) e in
                  rw (same, found) (rw has refl)
              | inr other ↦ rw other later
            ])
    ]

-- a key that is not among the keys has no entry
lookup-keys :
    (key : String) (heads : Dictionary BranchHead)
    → contains key (keys heads) ≡ false
    → lookup key heads ≡ none
unfolding lookup keys
lookup-keys key [] new = refl
lookup-keys key ((k, v) ∷ heads) new =
    let other : (k == key) ≡ false = ground arith in rw other (lookup-keys key heads (ground arith))

-- Whatever GitHub lists, the head of a snapshot with a key is that of the pull request with the highest number
-- among those of the key, or the branch's where there is none: a pull request's head has its own
-- commit, one of the repository itself that has none takes the branch's, and without a commit there is no head.
pub snapshot_of-latest :
    (repo : Repository) (branches : List (Option GithubBranch)) (prs : List (Option PullRequest))
    (key : String)
    → find_head key (snapshot_of repo branches prs).heads ≡ latest_head repo branches prs key
unfolding snapshot_of
snapshot_of-latest repo branches prs key =
    let default_branch = repo.spec.default_branch in
    let locals = local_heads default_branch [] branches in
    let c = collect_prs repo locals (record { heads = locals; external_prs = [] }) prs in
    let (filed, distinct) =
      collect_prs-IsTable repo locals prs (record { heads = locals; external_prs = [] })
        (local_heads-IsTable default_branch branches [] (tt, tt)) in
    let chosen : with_sha (lookup key c.heads) ≡ latest_head repo branches prs key =
      ap with_sha
        (lookup-collect_prs repo key locals prs (record { heads = locals; external_prs = [] }))
      ∙ with_sha-merged default_branch branches key (newest (candidates repo key prs))
          (λ m. newest-IsNumbered (candidates repo key prs) m (candidates-All repo key prs)) in
    find_head-heads_with_sha key c.heads (sort_strings (keys c.heads)) filed
    ∙ rw (contains-sort_strings key (keys c.heads))
        (elim (Bool-cases (contains key (keys c.heads))) [
          | inl held ↦ rw held chosen
          | inr free ↦ rw free (sym (ap with_sha (lookup-keys key c.heads free)) ∙ chosen)
        ])
