-- ===== src/Webhook/Refs.antt =====
-- internal/github/parser.go: the branch that a push names.
use Prim.Native.String.{[], ◌∷◌}
use text.Mathlib.TextLemmas.{cons-append, nil-append}
use terrakojo.Prelude.{◌≡◌, refl, String, some, ◌⊕◌, arith}
use terrakojo.Text.Space.{after_prefix, trim_prefix}
use terrakojo.Webhook.{PushPayload, process_push_event}

after_prefix-append : (p s : String) → after_prefix p (p ⊕ s) ≡ some s
unfolding after_prefix
after_prefix-append [] s = rw (nil-append s) refl
after_prefix-append (c ∷ p) s =
    let rest = after_prefix-append p s in rw (cons-append c p s) (ground (arith, rest))

-- Where a push's ref is "refs/heads/" followed by a branch's name, that name, which may have slashes of its
-- own, is the branch of the event.
pub process_push_event-branch :
    (event : PushPayload) (branch : String)
    → event.ref ≡ "refs/heads/" ⊕ branch
    → (process_push_event event).branch_name ≡ branch
unfolding process_push_event trim_prefix
process_push_event-branch event branch e = rw (e, after_prefix-append "refs/heads/" branch) refl
