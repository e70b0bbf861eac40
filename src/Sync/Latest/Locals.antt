-- ===== src/Sync/Latest/Locals.antt =====
-- internal/repository/sync: what the loop over the branches leaves under a key.
use terrakojo.Prelude.{
  ◌≡◌, refl, sym, subst, ◌∙◌, inl, inr, String, true, false, Bool-cases, not, ◌||◌, ◌&&◌, Option,
  none, some, List, [], ◌∷◌, ◌==◌, if◌then◌else◌, eq_iff,
}
use terrakojo.Prelude.Dictionary.{Dictionary, lookup, insert, lookup-insert}
use terrakojo.Api.Github.{GithubBranch}
use terrakojo.Sync.{BranchHead, local_head, local_heads, text_or_empty, commit_sha}
use terrakojo.Sync.Latest.{branch_sha}

lookup-added :
    (default_branch key name sha : String) (heads : Dictionary BranchHead)
    → let found =
        if (name == key) && not (key == "") && not (key == default_branch) then sha else "" in
      lookup key (
        if name == "" || sha == "" || name == default_branch
        then heads
        else insert name (local_head name sha) heads)
      ≡ (if found == "" then lookup key heads else some (local_head key found))
lookup-added default_branch key name sha heads = elim (Bool-cases (name == key)) [
  | inl same ↦
      subst
        (λ n.
          let found =
            if (n == key) && not (key == "") && not (key == default_branch) then sha else "" in
          lookup key (
            if n == "" || sha == "" || n == default_branch
            then heads
            else insert n (local_head n sha) heads)
          ≡ (if found == "" then lookup key heads else some (local_head key found)))
        (sym ((eq_iff name key).0 same)) of_key
  | inr other ↦ rw other (others other)
]
  where
    of_key :
        let found =
          if (key == key) && not (key == "") && not (key == default_branch) then sha else "" in
        lookup key (
          if key == "" || sha == "" || key == default_branch
          then heads
          else insert key (local_head key sha) heads)
        ≡ (if found == "" then lookup key heads else some (local_head key found))
    of_key =
        let self : (key == key) ≡ true = (eq_iff key key).1 refl in
        elim (Bool-cases (key == "")) [
          | inl unnamed ↦ rw (self, unnamed) refl
          | inr named ↦ elim (Bool-cases (key == default_branch)) [
            | inl is_default ↦
                rw (self, named, is_default)
                  (elim (Bool-cases (sha == "")) [
                    | inl lacks ↦ rw lacks refl
                    | inr has ↦ rw has refl
                  ])
            | inr feature ↦ elim (Bool-cases (sha == "")) [
              | inl lacks ↦ rw (self, named, feature, lacks) refl
              | inr has ↦
                  rw (self, named, feature, has)
                    (lookup-insert key key (local_head key sha) heads ∙ rw self refl)
            ]
          ]
        ]

    others :
        (name == key) ≡ false
        → lookup key (
            if name == "" || sha == "" || name == default_branch
            then heads
            else insert name (local_head name sha) heads)
          ≡ lookup key heads
    others other = elim (Bool-cases (name == "" || sha == "" || name == default_branch)) [
      | inl skipped ↦ rw skipped refl
      | inr kept ↦ rw kept (lookup-insert name key (local_head name sha) heads ∙ rw other refl)
    ]

pub lookup-local_heads :
    (default_branch key : String) (branches : List (Option GithubBranch))
    (heads : Dictionary BranchHead)
    → lookup key (local_heads default_branch heads branches) ≡ (
        if branch_sha default_branch branches key == ""
        then lookup key heads
        else some (local_head key (branch_sha default_branch branches key)))
unfolding local_heads
lookup-local_heads default_branch key [] heads = refl
lookup-local_heads default_branch key (none ∷ branches) heads =
    lookup-local_heads default_branch key branches heads
    ∙ elim (Bool-cases (branch_sha default_branch branches key == "")) [
      | inl missing ↦ rw missing refl
      | inr found ↦ rw found (rw found refl)
    ]
lookup-local_heads default_branch key (some b ∷ branches) heads =
    let name = text_or_empty b.name in
    let sha = commit_sha b.commit in
    let added =
      if name == "" || sha == "" || name == default_branch
      then heads
      else insert name (local_head name sha) heads in
    lookup-local_heads default_branch key branches added
    ∙ elim (Bool-cases (branch_sha default_branch branches key == "")) [
      | inl missing ↦ rw missing (lookup-added default_branch key name sha heads)
      | inr found ↦ rw found (rw found refl)
    ]
