-- ===== src/Sync/Snapshot.antt =====
-- internal/repository/sync: the heads of a snapshot and the keys that they are filed under.
use terrakojo.Prelude.{
  ◌≡◌, refl, sym, subst, ◌∙◌, String, false, Bool-cases, inl, inr, not, ◌||◌, ◌&&◌, Option, none,
  some, List, [], ◌∷◌, ◌==◌, if◌then◌else◌, arith, eq_iff, contains, All, map, is_pos,
}
use terrakojo.Prelude.Dictionary.{Dictionary, lookup, insert, keys}
use terrakojo.Api.{Repository}
use terrakojo.Api.Github.{GithubBranch, PullRequest, PullRequestEnd}
use terrakojo.Text.Sort.{IsDistinct, sort_strings, sort_strings-IsDistinct}
use terrakojo.Sync.{
  BranchHead, head_key, local_head, local_heads, text_or_empty, commit_sha, Collected, add_head,
  add_pr, pr_head, with_local_sha, is_superseded, collect_prs, heads_with_sha, snapshot_of,
}

-- a head under its own key, and with a ref
abbrev pub IsFiled : String × BranchHead → Type 0
IsFiled (key, head) = (head_key head ≡ key) × ((head.info.ref == "") ≡ false)

-- the invariant of the map of heads
abbrev pub IsTable : Dictionary BranchHead → Type 0
IsTable heads = All IsFiled heads × IsDistinct (keys heads)

pub contains-keys-insert :
    (r k : String) (v : BranchHead) (es : Dictionary BranchHead)
    → contains r (keys (insert k v es)) ≡ ((k == r) || contains r (keys es))
unfolding keys insert
contains-keys-insert r k v [] = refl
contains-keys-insert r k v ((key, value) ∷ es) =
    ground (arith, contains-keys-insert r k v es, eq_iff key k)

insert-IsTable :
    (k : String) (v : BranchHead) (es : Dictionary BranchHead)
    → IsFiled (k, v)
    → IsTable es
    → IsTable (insert k v es)
unfolding keys insert
insert-IsTable k v [] h t = ((h, tt), (refl, tt))
insert-IsTable k v ((key, value) ∷ es) h ((f, fs), (new, ds)) = elim (Bool-cases (key == k)) [
  | inl same ↦
      let e : key ≡ k = ground (arith, eq_iff key k) in
      rw same ((h, fs), (subst (λ x. contains x (keys es) ≡ false) e new, ds))
  | inr other ↦
      let (gs, es') = insert-IsTable k v es h (fs, ds) in
      rw other (
        (f, gs),
        (contains-keys-insert key k v es ∙ ground (arith, eq_iff key k, eq_iff k key), es'),
      )
]

pub local_heads-IsTable :
    (default_branch : String) (branches : List (Option GithubBranch))
    (heads : Dictionary BranchHead)
    → IsTable heads
    → IsTable (local_heads default_branch heads branches)
unfolding local_heads head_key
local_heads-IsTable default_branch [] heads t = t
local_heads-IsTable default_branch (none ∷ branches) heads t =
    local_heads-IsTable default_branch branches heads t
local_heads-IsTable default_branch (some b ∷ branches) heads t =
    local_heads-IsTable default_branch branches _ (elim (Bool-cases (text_or_empty b.name == "")) [
      | inl unnamed ↦ rw unnamed t
      | inr named ↦
          elim (Bool-cases (commit_sha b.commit == "" || text_or_empty b.name == default_branch)) [
            | inl skipped ↦ rw (named, skipped) t
            | inr kept ↦
                rw (named, kept)
                  (insert-IsTable (text_or_empty b.name)
                    (local_head (text_or_empty b.name) (commit_sha b.commit)) heads (refl, named) t)
          ]
    ])

with_local_sha-IsFiled :
    (locals : Dictionary BranchHead) (head : BranchHead)
    → (head.info.ref == "") ≡ false
    → IsFiled (head_key head, with_local_sha locals head)
unfolding head_key
with_local_sha-IsFiled locals head named =
    elim (Bool-cases (head.info.sha == "" && not head.external_pr)) [
      | inl lacks ↦ rw lacks (refl, named)
      | inr has ↦ rw has (refl, named)
    ]

add_head-IsTable :
    (locals : Dictionary BranchHead) (head : BranchHead) (heads : Dictionary BranchHead)
    → (head.info.ref == "") ≡ false
    → IsTable heads
    → IsTable (add_head locals head heads)
unfolding add_head
add_head-IsTable locals head heads named t =
    elim (Bool-cases (is_superseded head (lookup (head_key head) heads))) [
      | inl there ↦ rw there t
      | inr new ↦ rw new (
          insert-IsTable (head_key head) (with_local_sha locals head) heads
            (with_local_sha-IsFiled locals head named) t)
    ]

add_pr-IsTable :
    (repo : Repository) (locals : Dictionary BranchHead) (c : Collected) (pr : PullRequest)
    (end : PullRequestEnd)
    → IsTable c.heads
    → IsTable (add_pr repo locals c pr end).heads
add_pr-IsTable repo locals c pr end t =
    let head = pr_head repo pr end in
    elim (Bool-cases (head.info.ref == "")) [
      | inl unnamed ↦ rw unnamed t
      | inr named ↦ elim (Bool-cases (is_pos head.info.pr_number)) [
        | inl numbered ↦ rw (named, numbered) (add_head-IsTable locals head c.heads named t)
        | inr bad ↦ rw (named, bad) t
      ]
    ]

pub collect_prs-IsTable :
    (repo : Repository) (locals : Dictionary BranchHead) (prs : List (Option PullRequest))
    (c : Collected)
    → IsTable c.heads
    → IsTable (collect_prs repo locals c prs).heads
unfolding collect_prs
collect_prs-IsTable repo locals [] c t = t
collect_prs-IsTable repo locals (none ∷ prs) c t = collect_prs-IsTable repo locals prs c t
collect_prs-IsTable repo locals (some pr ∷ prs) c t =
    collect_prs-IsTable repo locals prs _ (by_end pr.head)
  where
    by_end :
        (end : Option PullRequestEnd)
        → IsTable
            (elim end as (λ e. Collected) [ none ↦ c | some e ↦ add_pr repo locals c pr e ]).heads
    by_end none = t
    by_end (some end) = add_pr-IsTable repo locals c pr end t

pub lookup-IsFiled :
    (key : String) (heads : Dictionary BranchHead) (head : BranchHead)
    → All IsFiled heads
    → lookup key heads ≡ some head
    → IsFiled (key, head)
unfolding lookup
lookup-IsFiled key [] head h e = cc
lookup-IsFiled key ((k, v) ∷ heads) head (f, fs) e = elim (Bool-cases (k == key)) [
  | inl same ↦
      let at_key : k ≡ key = ground (arith, eq_iff k key) in
      let found : some v ≡ some head = rw same at e in
      let is_head : v ≡ head = cc in
      subst (λ x. IsFiled (key, x)) is_head (subst (λ x. IsFiled (x, v)) at_key f)
  | inr other ↦ lookup-IsFiled key heads head fs (rw other at e)
]

-- a head of a snapshot: it has a ref and a commit
abbrev pub IsHead : BranchHead → Type 0
IsHead head = ((head.info.ref == "") ≡ false) × ((head.info.sha == "") ≡ false)

-- the heads, what their keys are not, and that these are distinct
abbrev AreHeads : List String → List BranchHead → Type 0
AreHeads from heads =
    All IsHead heads
    × IsDistinct (map head_key heads)
    × ((r : String) → contains r from ≡ false → contains r (map head_key heads) ≡ false)

heads_with_sha-AreHeads :
    (heads : Dictionary BranchHead) (from : List String)
    → All IsFiled heads
    → IsDistinct from
    → AreHeads from (heads_with_sha heads from)
unfolding heads_with_sha
heads_with_sha-AreHeads heads [] fs ds = (tt, tt, λ r h. refl)
heads_with_sha-AreHeads heads (key ∷ from) fs (new, ds) =
    by_lookup (lookup key heads) refl (heads_with_sha-AreHeads heads from fs ds)
  where
    passed : (later : List BranchHead) → AreHeads from later → AreHeads (key ∷ from) later
    passed later (hs, distinct, none_else) = (hs, distinct, λ r h. none_else r (ground arith))

    by_lookup :
        (o : Option BranchHead)
        → lookup key heads ≡ o
        → AreHeads from (heads_with_sha heads from)
        → AreHeads (key ∷ from) (elim o as (λ o. List BranchHead) [
          | none ↦ heads_with_sha heads from
          | some head ↦
              if head.info.sha == ""
              then heads_with_sha heads from
              else head ∷ heads_with_sha heads from
        ])
    by_lookup none e later = passed _ later
    by_lookup (some head) e (hs, distinct, none_else) = elim (Bool-cases (head.info.sha == "")) [
      | inl lacks ↦ rw lacks (passed _ (hs, distinct, none_else))
      | inr has ↦
          let (filed, named) = lookup-IsFiled key heads head fs e in
          rw has (
            ((named, has), hs),
            (
              subst (λ k. contains k (map head_key (heads_with_sha heads from)) ≡ false) (sym filed)
                  (none_else key new),
              distinct,
            ),
            λ r h.
                let first : (key == r) ≡ false = ground arith in
                let later : contains r from ≡ false = ground arith in
                subst
                  (λ k. ((k == r) || contains r (map head_key (heads_with_sha heads from))) ≡ false)
                  (sym filed) (rw first (none_else r later)),
          )
    ]

-- Whatever branches and pull requests GitHub lists, every head of the snapshot has a ref and a commit, and no
-- two of its heads have the same key.
pub snapshot_of-AreHeads :
    (repo : Repository) (branches : List (Option GithubBranch)) (prs : List (Option PullRequest))
    → let heads = (snapshot_of repo branches prs).heads in
      All IsHead heads × IsDistinct (map head_key heads)
unfolding snapshot_of keys
snapshot_of-AreHeads repo branches prs =
    let locals = local_heads repo.spec.default_branch [] branches in
    let c = collect_prs repo locals (record { heads = locals; external_prs = [] }) prs in
    let (filed, distinct) =
      collect_prs-IsTable repo locals prs (record { heads = locals; external_prs = [] })
        (local_heads-IsTable repo.spec.default_branch branches [] (tt, tt)) in
    let (hs, ds, none_else) =
      heads_with_sha-AreHeads c.heads (sort_strings (keys c.heads)) filed
        (sort_strings-IsDistinct (keys c.heads) distinct) in
    (hs, ds)
