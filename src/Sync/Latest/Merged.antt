-- ===== src/Sync/Latest/Merged.antt =====
-- internal/repository/sync: what the loop over the pull requests leaves under a key.
use terrakojo.Prelude.{
  ◌≡◌, refl, subst, ◌∙◌, inl, inr, ℤ, pos, negsuc, String, true, false, Bool-cases, not, ◌&&◌,
  Option, none, some, List, [], ◌∷◌, ◌==◌, int_le, is_pos, if◌then◌else◌, arith, eq_iff,
}
use terrakojo.Prelude.Dictionary.{Dictionary, lookup, lookup-insert}
use terrakojo.Api.{Repository}
use terrakojo.Api.Github.{PullRequest, PullRequestEnd}
use terrakojo.Sync.{
  BranchHead, head_key, Collected, add_head, add_pr, pr_head, with_local_sha, is_superseded,
  collect_prs,
}
use terrakojo.Sync.Latest.{usable_head, with_key, candidates, newer, newest}

int_le_trans : (a b c : ℤ) → int_le a b ≡ true → int_le b c ≡ true → int_le a c ≡ true
int_le_trans (pos a) (pos b) (pos c) h k = ground arith
int_le_trans (negsuc a) (pos b) (pos c) h k = refl
int_le_trans (negsuc a) (negsuc b) (pos c) h k = refl
int_le_trans (negsuc a) (negsuc b) (negsuc c) h k = ground arith
int_le_trans (pos a) (negsuc b) c h k = cc
int_le_trans (pos a) (pos b) (negsuc c) h k = cc
int_le_trans (negsuc a) (pos b) (negsuc c) h k = cc

-- a number that is not at most another one is at least that one
int_le_total : (a b : ℤ) → int_le a b ≡ false → int_le b a ≡ true
int_le_total (pos a) (pos b) h = ground arith
int_le_total (pos a) (negsuc b) h = refl
int_le_total (negsuc a) (pos b) h = cc
int_le_total (negsuc a) (negsuc b) h = ground arith

with_local_sha-number :
    (locals : Dictionary BranchHead) (head : BranchHead)
    → (with_local_sha locals head).info.pr_number ≡ head.info.pr_number
with_local_sha-number locals head =
    elim (Bool-cases (head.info.sha == "" && not head.external_pr)) [
      | inl lacks ↦ rw lacks refl
      | inr has ↦ rw has refl
    ]

-- what a key has after an existing head, and then the newest one of the others
abbrev pub merged :
    Dictionary BranchHead → Option BranchHead → Option BranchHead → Option BranchHead
merged locals existing none = existing
merged locals existing (some m) =
    if is_superseded m existing then existing else some (with_local_sha locals m)

merged-newer :
    (locals : Dictionary BranchHead) (existing : Option BranchHead) (head : BranchHead)
    (rest : Option BranchHead)
    → merged locals
        (if is_superseded head existing then existing else some (with_local_sha locals head))
        rest
      ≡ merged locals existing (newer head rest)
merged-newer locals existing head none = refl
merged-newer locals none head (some m) =
    rw (with_local_sha-number locals head)
      (elim (Bool-cases (int_le m.info.pr_number head.info.pr_number)) [
        | inl older ↦ rw older refl
        | inr is_newer ↦ rw is_newer refl
      ])
merged-newer locals (some e) head (some m) =
    let number = m.info.pr_number in
    elim (Bool-cases (int_le head.info.pr_number e.info.pr_number)) [
      | inl superseded ↦ elim (Bool-cases (int_le number head.info.pr_number)) [
        | inl older ↦
            rw
              (
                superseded,
                older,
                int_le_trans number head.info.pr_number e.info.pr_number older superseded,
              )
              (rw superseded refl)
        | inr is_newer ↦ rw (superseded, is_newer) refl
      ]
      | inr fresh ↦ elim (Bool-cases (int_le number head.info.pr_number)) [
        | inl older ↦ rw (fresh, with_local_sha-number locals head, older) (rw fresh refl)
        | inr is_newer ↦ elim (Bool-cases (int_le number e.info.pr_number)) [
          | inl below ↦
              let back = int_le_total head.info.pr_number e.info.pr_number fresh in
              let older = int_le_trans number e.info.pr_number head.info.pr_number below back in cc
          | inr above ↦ rw (fresh, with_local_sha-number locals head, is_newer, above) refl
        ]
      ]
    ]

lookup_own-add_head :
    (locals heads : Dictionary BranchHead) (head : BranchHead)
    → lookup (head_key head) (add_head locals head heads) ≡ (
        if is_superseded head (lookup (head_key head) heads)
        then lookup (head_key head) heads
        else some (with_local_sha locals head))
unfolding add_head
lookup_own-add_head locals heads head =
    elim (Bool-cases (is_superseded head (lookup (head_key head) heads))) [
      | inl superseded ↦ rw superseded refl
      | inr fresh ↦ rw fresh (
          lookup-insert (head_key head) (head_key head) (with_local_sha locals head) heads
          ∙ rw ((eq_iff (head_key head) (head_key head)).1 refl) refl)
    ]

lookup-add_head :
    (key : String) (locals heads : Dictionary BranchHead) (head : BranchHead)
    → lookup key (add_head locals head heads) ≡ (
        if head_key head == key
        then (if is_superseded head (lookup key heads)
            then lookup key heads
            else some (with_local_sha locals head))
        else lookup key heads)
unfolding add_head
lookup-add_head key locals heads head = elim (Bool-cases (head_key head == key)) [
  | inl same ↦ rw same (
      subst
        (λ k. lookup k (add_head locals head heads) ≡ (
          if is_superseded head (lookup k heads)
          then lookup k heads
          else some (with_local_sha locals head)))
        ((eq_iff (head_key head) key).0 same) (lookup_own-add_head locals heads head))
  | inr other ↦ elim (Bool-cases (is_superseded head (lookup (head_key head) heads))) [
    | inl superseded ↦ rw (superseded, other) refl
    | inr fresh ↦
        rw fresh
          (lookup-insert (head_key head) key (with_local_sha locals head) heads ∙ rw other refl)
  ]
]

-- What the loop over the pull requests leaves under a key: what was there, or the newest of the key's pull
-- requests.
pub lookup-collect_prs :
    (repo : Repository) (key : String) (locals : Dictionary BranchHead)
    (prs : List (Option PullRequest)) (c : Collected)
    → lookup key (collect_prs repo locals c prs).heads
      ≡ merged locals (lookup key c.heads) (newest (candidates repo key prs))
unfolding collect_prs
lookup-collect_prs repo key locals [] c = refl
lookup-collect_prs repo key locals (none ∷ prs) c = lookup-collect_prs repo key locals prs c
lookup-collect_prs repo key locals (some pr ∷ prs) c =
    lookup-collect_prs repo key locals prs _ ∙ by_end pr.head
  where
    by_end :
        (end : Option PullRequestEnd)
        → merged locals
            (lookup key
              (elim end as (λ e. Collected) [
                | none ↦ c
                | some e ↦ add_pr repo locals c pr e
              ]).heads)
            (newest (candidates repo key prs))
          ≡ merged locals
              (lookup key c.heads)
              (newest (with_key key (usable_head repo pr end) (candidates repo key prs)))
    by_end none = refl
    by_end (some end) =
        let head = pr_head repo pr end in
        elim (Bool-cases (head.info.ref == "")) [
          | inl unnamed ↦ rw unnamed refl
          | inr named ↦ elim (Bool-cases (is_pos head.info.pr_number)) [
            | inl numbered ↦
                rw (named, numbered, lookup-add_head key locals c.heads head)
                  (elim (Bool-cases (head_key head == key)) [
                    | inl same ↦ rw same (
                        merged-newer locals (lookup key c.heads) head
                          (newest (candidates repo key prs)))
                    | inr other ↦ rw other refl
                  ])
            | inr bad ↦ rw (named, bad) refl
          ]
        ]
