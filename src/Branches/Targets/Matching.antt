-- ===== src/Branches/Targets/Matching.antt =====
-- Which files a template matches, and which templates match.
use terrakojo.Prelude.{
  String, ◌≡◌, refl, ◌∙◌, Bool, true, false, ◌&&◌, Option, none, some, List, [], ◌∷◌, any, keep,
  contains, is_empty, ◌==◌, if◌then◌else◌, arith, eq_iff,
}
use terrakojo.Prelude.Dictionary.{Dictionary, lookup, lookup-insert}
use terrakojo.Api.{WorkflowMatch, WorkflowTemplate}
use terrakojo.Branches.Targets.{
  MatchedTemplate, match_template, match_templates, match_templates_from, add_group,
}

-- whether one of the template's patterns matches the file
abbrev pub matched_by : (String → String → Bool) → WorkflowMatch → String → Bool
matched_by matches match file = any (λ pattern. matches pattern file) match.paths

abbrev pub or_else : Option MatchedTemplate → Option MatchedTemplate → Option MatchedTemplate
or_else none o = o
or_else (some g) o = some g

module _ (matches : String → String → Bool) where
  lookup-add_group :
      (name : String) (t : WorkflowTemplate) (kept : List String)
      (groups : Dictionary MatchedTemplate)
      → lookup name (add_group matches t kept groups)
        ≡ or_else
            (if t.meta.name == name
              then (if is_empty kept
                  then none
                  else some (record { match = t.spec.match; files = kept }))
              else none)
            (lookup name groups)
  lookup-add_group name t [] groups = ground arith
  lookup-add_group name t (f ∷ kept) groups = ground (
    arith,
    lookup-insert t.meta.name name (record { match = t.spec.match; files = f ∷ kept }) groups,
  )

  contains-keep :
      (p : String → Bool) (r : String) (files : List String)
      → contains r (keep p files) ≡ (p r && contains r files)
  unfolding keep
  contains-keep p r [] = none_of (p r)
    where
      none_of : (b : Bool) → false ≡ (b && false)
      none_of true = refl
      none_of false = refl
  contains-keep p r (f ∷ files) = ground (arith, eq_iff f r, contains-keep p r files)

  -- The files that a template keeps are exactly the changed files that one of its patterns matches.
  pub match_template_exact :
      (match : WorkflowMatch) (files : List String) (r : String)
      → contains r (match_template matches match files)
        ≡ (matched_by matches match r && contains r files)
  unfolding match_template
  match_template_exact match files r = contains-keep (matched_by matches match) r files

  -- what a template contributes to the groups: its matched files, unless there is none
  abbrev pub group_of : WorkflowTemplate → List String → Option MatchedTemplate
  group_of t files =
      let kept = match_template matches t.spec.match files in
      if is_empty kept then none else some (record { match = t.spec.match; files = kept })

  -- the group of a name: that of the last template of the name that matches a file
  abbrev pub last_group : String → List WorkflowTemplate → List String → Option MatchedTemplate
  last_group name [] files = none
  last_group name (t ∷ templates) files =
      or_else (last_group name templates files)
        (if t.meta.name == name then group_of t files else none)

  lookup-match_templates_from :
      (name : String) (groups : Dictionary MatchedTemplate) (templates : List WorkflowTemplate)
      (files : List String)
      → lookup name (match_templates_from matches groups templates files)
        ≡ or_else (last_group name templates files) (lookup name groups)
  unfolding match_templates_from
  lookup-match_templates_from name groups [] files = refl
  lookup-match_templates_from name groups (t ∷ templates) files =
      lookup-match_templates_from name
        (add_group matches t (match_template matches t.spec.match files) groups) templates files
      ∙ later (last_group name templates files) _ _
          (lookup-add_group name t (match_template matches t.spec.match files) groups)
    where
      later :
          {a : Option MatchedTemplate} (o b c : Option MatchedTemplate)
          → a ≡ or_else b c
          → or_else o a ≡ or_else (or_else o b) c
      later none b c e = e
      later (some g) b c e = refl

  -- The groups hold, for each name, the matched files of the last template of that name that
  -- matches a changed file, and nothing where there is none.
  pub match_templates_exact :
      (templates : List WorkflowTemplate) (files : List String) (name : String)
      → lookup name (match_templates matches templates files) ≡ last_group name templates files
  unfolding match_templates lookup
  match_templates_exact templates files name =
      lookup-match_templates_from name [] templates files
      ∙ or_none (last_group name templates files)
    where
      or_none : (o : Option MatchedTemplate) → or_else o none ≡ o
      or_none none = refl
      or_none (some g) = refl
