-- ===== src/Webhook/Selection.antt =====
-- internal/webhook/webhook.go with internal/controller/repository_controller.go: the repository that a
-- webhook's labels select.
use terrakojo.Prelude.{
  ◌≡◌, ◌≢◌, ◌↔◌, refl, sym, ap, ◌∙◌, String, Bool, false, some, [], ◌∷◌, ◌==◌, if◌then◌else◌, arith,
  eq_iff, ◌||◌, not, All,
}
use terrakojo.Prelude.Dictionary.{Dictionary, lookup, insert, at, at-insert}
use terrakojo.Api.{Repository}
use terrakojo.Repositories.{required_labels, set_labels}
use terrakojo.Webhook.{WebhookInfo, sync_selector}

-- `labels.SelectorFromSet`: a label with each key, and with the value that is asked for
abbrev pub Selects : Dictionary String → Dictionary String → Type 0
Selects selector labels = All (λ (key, value). lookup key labels ≡ some value) selector

abbrev put : String → String → Dictionary String → Dictionary String
put k v labels = if at k labels == v then labels else insert k v labels

at-put :
    (j k v : String) (labels : Dictionary String)
    → at j (put k v labels) ≡ (if k == j then v else at j labels)
at-put j k v labels = ground (arith, at-insert k j v labels, eq_iff k j, eq_iff (at k labels) v)

-- what a key has after the wanted labels were written over `old`
abbrev overlaid : Dictionary String → String → String → String
overlaid [] j old = old
overlaid ((k, v) ∷ wanted) j old = overlaid wanted j (if k == j then v else old)

at-set_labels :
    (wanted labels : Dictionary String) (changed : Bool) (j : String)
    → at j (set_labels wanted labels changed).0 ≡ overlaid wanted j (at j labels)
unfolding set_labels
at-set_labels [] labels changed j = refl
at-set_labels ((k, v) ∷ wanted) labels changed j =
    at-set_labels wanted (put k v labels) (changed || not (at k labels == v)) j
    ∙ ap (overlaid wanted j) (at-put j k v labels)

lookup-of_at :
    (k v : String) (labels : Dictionary String)
    → v ≢ ""
    → at k labels ≡ v
    → lookup k labels ≡ some v
unfolding at
lookup-of_at k v labels given e = ground arith

at-of_lookup :
    (k v : String) (labels : Dictionary String) → lookup k labels ≡ some v → at k labels ≡ v
unfolding at
at-of_lookup k v labels e = rw e refl

-- The labels that the controller writes are those that the webhook selects by: a repository with an owner
-- and a name is selected for an event, once it has been labelled, exactly where these are the event's
-- owner and repository name.
pub set_labels-selected :
    (repo : Repository) (info : WebhookInfo)
    → repo.spec.owner ≢ ""
    → repo.spec.name ≢ ""
    → Selects (sync_selector info) (set_labels (required_labels repo) repo.meta.labels false).0
      ↔ ((info.owner ≡ repo.spec.owner) × (info.repository_name ≡ repo.spec.name))
set_labels-selected repo info owned named =
    let labels = (set_labels (required_labels repo) repo.meta.labels false).0 in
    let owner = at-set_labels (required_labels repo) repo.meta.labels false "terrakojo.io/owner" in
    let name =
      at-set_labels (required_labels repo) repo.meta.labels false "terrakojo.io/repo-name" in
    (
      (λ (selects_owner, (selects_name, u)). (
        sym (at-of_lookup "terrakojo.io/owner" info.owner labels selects_owner) ∙ owner,
        sym (at-of_lookup "terrakojo.io/repo-name" info.repository_name labels selects_name) ∙ name,
      )),
      λ (same_owner, same_name). (
        lookup-of_at "terrakojo.io/owner" repo.spec.owner labels owned owner
            ∙ ap some (sym same_owner),
        (
          lookup-of_at "terrakojo.io/repo-name" repo.spec.name labels named name
              ∙ ap some (sym same_name),
          tt,
        ),
      ),
    )
