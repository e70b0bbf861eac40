-- ===== src/Repositories/Deletions.antt =====
-- Which Branch objects a sync of the heads deletes (internal/controller/repository_controller.go).
use terrakojo.Prelude.{
  ℤ, String, ◌≡◌, refl, sym, subst, Bool, true, false, ◌&&◌, not, ◌⊕◌, ◌==◌, Option, none, some,
  List, [], ◌∷◌, arith, eq_iff, Bool-cases, inl, inr,
}
use terrakojo.Prelude.Dictionary.{Dictionary, remove, at}
use terrakojo.Text.Decimal.{itoa}
use terrakojo.Api.{key_of, is_deleted, Branch, Repository}
use terrakojo.Control.Errors.{Result, ok, err}
use terrakojo.Control.Environment.{Env}
use terrakojo.Control.Calls.{Call}
use terrakojo.Control.Runs.{Returns, bind-Returns, pure-Returns}
use terrakojo.Control.Keeps.{
  Makes, makes_rules, Makes-bind, Makes-pure, Makes-ask, Makes-attempt, Makes-ignore_not_found,
  Makes-wrapping,
}
use terrakojo.Repositories.Grouping.{IsIn, HaveIdentity, IsGrouped}
use terrakojo.Control.Client.{create_branch, update_branch, delete_branch, get_branch}
use terrakojo.Sync.{BranchHead, head_key}
use terrakojo.Repositories.Heads.{
  branch_identity, external_pr_identity, create_branch_resource, update_branch_resource,
  ensure_branch_resource, is_current, needs_branch_update, is_legacy, external_ref, retire,
  still_there, retire_legacy, retire_groups, delete_branches, delete_groups,
}

-- A call that deletes a Branch names one of `existing` whose identity is not `protected`.
abbrev pub Spares : String → List Branch → Call → Type 0
Spares protected existing (Call.delete_branch key) =
    (b : Branch) × (key ≡ key_of b.meta)
    × ((branch_identity b == protected) ≡ false)
    × IsIn b existing
Spares protected existing _ = Unit {0}

-- a legacy object is not one of the default branch
legacy_spared :
    (protected : String) (prs : List (ℤ × String)) (b : Branch)
    → is_legacy protected prs b ≡ true
    → (branch_identity b == protected) ≡ false
unfolding is_legacy branch_identity
legacy_spared protected prs b h = go (external_ref b.spec.pr_number prs) h
  where
    go :
        (o : Option String)
        → elim o [
          | none ↦ false
          | some ref ↦
              (at external_pr_identity b.meta.annotations == "")
              && (ref == b.spec.name)
              && not (ref == protected)
        ]
          ≡ true
        → (branch_identity b == protected) ≡ false
    go none e = absurd (ground arith)
    go (some ref) e = ground (arith, eq_iff ref b.spec.name)

module _ (protected : String) (existing : List Branch) where
  delete-Spares :
      (b : Branch)
      → (branch_identity b == protected) ≡ false
      → IsIn b existing
      → Makes (Spares protected existing) (delete_branch (key_of b.meta))
  unfolding delete_branch
  delete-Spares b h held = record { at = λ env calls k. ((b, refl, h, held), k) }

  create-Spares :
      (repo : Repository) (head : BranchHead)
      → Makes (Spares protected existing) (create_branch_resource repo head)
  unfolding create_branch_resource create_branch
  create-Spares repo head = search makes_rules depth 12

  update-Spares :
      (b : Branch) (head : BranchHead)
      → Makes (Spares protected existing) (update_branch_resource b head)
  unfolding update_branch_resource update_branch
  update-Spares b head = search makes_rules depth 12

  pub ensure-Spares :
      (repo : Repository) (head : BranchHead) (key : String) (branches : List Branch)
      → HaveIdentity existing key branches
      → (key == protected) ≡ false
      → Makes (Spares protected existing) (ensure_branch_resource repo head branches)
  unfolding ensure_branch_resource
  ensure-Spares repo head key [] h other = Makes-wrapping _ _ (create-Spares repo head)
  ensure-Spares repo head key (b ∷ branches) ((h, held), hs) other =
      let spared = delete-Spares b (subst (λ i. (i == protected) ≡ false) (sym h) other) held in
      elim (Bool-cases (is_current b head)) [
        | inl current ↦ rw current (elim (Bool-cases (needs_branch_update b head)) [
          | inl differs ↦ rw differs (Makes-wrapping _ _ (update-Spares b head))
          | inr same ↦ rw same (Makes-pure _)
        ])
        | inr old ↦ rw old (
            Makes-bind _ _ (Makes-wrapping _ _ (Makes-ignore_not_found _ spared))
              (λ u. Makes-wrapping _ _ (create-Spares repo head)))
      ]

  retire-Spares :
      (b : Branch)
      → (branch_identity b == protected) ≡ false
      → IsIn b existing
      → Makes (Spares protected existing) (retire b)
  unfolding retire get_branch
  retire-Spares b other held = elim (Bool-cases (is_deleted b.meta)) [
    | inl gone ↦ rw gone (
        Makes-bind _ _ (Makes-pure _) (λ u.
          Makes-bind _ _ (Makes-attempt _ (Makes-ask _ (λ env. env.branch) tt)) still_there-Spares))
    | inr there ↦ rw there (
        Makes-bind _ _ (Makes-ignore_not_found _ (delete-Spares b other held)) (λ u.
          Makes-bind _ _ (Makes-attempt _ (Makes-ask _ (λ env. env.branch) tt)) still_there-Spares))
  ]
    where
      still_there-Spares :
          (answer : Result Branch) → Makes (Spares protected existing) (still_there answer)
      still_there-Spares (ok b) = record { at = λ env calls h. h }
      still_there-Spares (err e) = record { at = λ env calls h. h }

  retire_legacy-Spares :
      (prs : List (ℤ × String)) (key : String) (branches : List Branch)
      → HaveIdentity existing key branches
      → Makes (Spares protected existing) (retire_legacy protected prs branches)
  unfolding retire_legacy
  retire_legacy-Spares prs key [] h = Makes-pure _
  retire_legacy-Spares prs key (b ∷ branches) ((same, held), hs) =
      let rest = retire_legacy-Spares prs key branches hs in
      elim (Bool-cases (is_legacy protected prs b)) [
        | inl legacy ↦ rw (legacy) (
            Makes-bind _ _ (retire-Spares b (legacy_spared protected prs b legacy) held)
              (λ pending. Makes-bind _ _ rest (λ r. Makes-pure _)))
        | inr kept ↦ rw (kept) (Makes-bind _ _ rest (λ r. Makes-pure _))
      ]

  pub retire_groups-Spares :
      (prs : List (ℤ × String)) (groups : Dictionary (List Branch))
      → IsGrouped existing groups
      → Makes (Spares protected existing) (retire_groups protected prs groups)
  unfolding retire_groups
  retire_groups-Spares prs [] h = Makes-pure _
  retire_groups-Spares prs ((key, branches) ∷ groups) (h, hs) =
      Makes-bind _ _ (retire_legacy-Spares prs key branches h)
        (λ kept. Makes-bind _ _ (retire_groups-Spares prs groups hs) (λ r. Makes-pure _))

  retire_legacy-HaveIdentity :
      (prs : List (ℤ × String)) (key : String) (branches : List Branch) (env : Env)
      (calls : List Call) {later : List Call} (kept : List Branch × Bool)
      → HaveIdentity existing key branches
      → Returns (retire_legacy protected prs branches) env calls kept later
      → HaveIdentity existing key kept.0
  unfolding retire_legacy
  retire_legacy-HaveIdentity prs key [] env calls kept h e =
      subst (λ k. HaveIdentity existing key k.0) (pure-Returns env _ e).0 tt
  retire_legacy-HaveIdentity prs key (b ∷ branches) env calls kept (h, hs) e =
      elim (Bool-cases (is_legacy protected prs b)) [
        | inl legacy ↦ bind-Returns env (retire b) _ (rw legacy at e) λ pending m₁ e₁ r₁.
            bind-Returns env _ _ r₁ λ rest m₂ e₂ r₂.
              subst (λ k. HaveIdentity existing key k.0) (pure-Returns env _ r₂).0
                (retire_legacy-HaveIdentity prs key branches env m₁ rest hs e₂)
        | inr current ↦
            bind-Returns env (retire_legacy protected prs branches) _ (rw current at e)
              λ rest m₁ e₁ r₁.
                subst (λ k. HaveIdentity existing key k.0) (pure-Returns env _ r₁).0
                  (h, retire_legacy-HaveIdentity prs key branches env calls rest hs e₁)
      ]

  pub retire_groups-IsGrouped :
      (prs : List (ℤ × String)) (groups : Dictionary (List Branch)) (env : Env) (calls : List Call)
      {later : List Call} (kept : Dictionary (List Branch) × Bool)
      → IsGrouped existing groups
      → Returns (retire_groups protected prs groups) env calls kept later
      → IsGrouped existing kept.0
  unfolding retire_groups
  retire_groups-IsGrouped prs [] env calls kept h e =
      subst (λ k. IsGrouped existing k.0) (pure-Returns env _ e).0 tt
  retire_groups-IsGrouped prs ((key, branches) ∷ groups) env calls kept (h, hs) e =
      bind-Returns env _ _ e λ first m₁ e₁ r₁. bind-Returns env _ _ r₁ λ rest m₂ e₂ r₂.
        subst (λ k. IsGrouped existing k.0) (pure-Returns env _ r₂).0
          (
            retire_legacy-HaveIdentity prs key branches env calls first h e₁,
            retire_groups-IsGrouped prs groups env m₁ rest hs e₂,
          )

  -- every stale branch may be deleted: none has the identity `protected`
  delete_branches-Spares :
      (key : String) (branches : List Branch)
      → HaveIdentity existing key branches
      → (key == protected) ≡ false
      → Makes (Spares protected existing) (delete_branches branches)
  unfolding delete_branches
  delete_branches-Spares key [] h other = Makes-pure _
  delete_branches-Spares key (b ∷ branches) ((h, held), hs) other =
      Makes-bind _ _
        (Makes-ignore_not_found _
          (delete-Spares b (subst (λ i. (i == protected) ≡ false) (sym h) other) held))
        (λ u. delete_branches-Spares key branches hs other)

  pub delete_groups-Spares :
      (groups : Dictionary (List Branch))
      → IsGrouped existing groups
      → Makes (Spares protected existing) (delete_groups (remove protected groups))
  unfolding delete_groups remove
  delete_groups-Spares [] h = Makes-pure _
  delete_groups-Spares ((key, branches) ∷ groups) (h, hs) = elim (Bool-cases (key == protected)) [
    | inl same ↦ rw same (delete_groups-Spares groups hs)
    | inr other ↦ rw other (
        Makes-bind _ _ (delete_branches-Spares key branches h other)
          (λ u. delete_groups-Spares groups hs))
  ]

  -- the key of a head of another ref
  pub key_other :
      (head : BranchHead)
      → ((n : ℤ) → (("pr:" ⊕ itoa n) == protected) ≡ false)
      → (head.info.ref == protected) ≡ false
      → (head_key head == protected) ≡ false
  unfolding head_key
  key_other head no_pr local = elim (Bool-cases (head.external_pr)) [
    | inl external ↦ rw external (no_pr head.info.pr_number)
    | inr inner ↦ rw inner local
  ]
