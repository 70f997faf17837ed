-- ===== src/Workflow/Routing.antt =====
-- Where a phase goes after an action (workflow/resolve-next.ts).
use delta_agents.Common.{
  ℕ, zero, suc, ◌+◌, ◌<◌, String, ◌≡◌, refl, inl, inr, Bool, true, false, Option, none, some, List,
  [], ◌∷◌, ◌==◌, get_elem?, length, leb, Result, ok, err, arith, Option-cases, Bool-cases,
}
use delta_agents.Host.{Host, Reason, undeclared_success, undeclared_failure}
use delta_agents.Workflow.{
  ActionRef, plain, branch, Branch, proceed, ref_name, find_action_index, jump, after_plain,
  after_branch, next_of, resolve_next_step,
}

-- the target that a branch declares for an outcome
abbrev pub target_of : {H : Host} → Branch H → Result Reason (Unit {0}) → Option String
target_of b (ok u) = b.on_success
target_of b (err reason) = b.on_failure

get_elem?-below :
    {A : Type 0} (xs : List A) (i : ℕ) (x : A) → get_elem? xs i ≡ some x → i < length xs
get_elem?-below [] i x h = absurd (cc)
get_elem?-below (y ∷ xs) zero x h = omega arith
get_elem?-below (y ∷ xs) (suc i) x h = omega (arith, get_elem?-below xs i x h)

jump-to :
    (found : Option ℕ) (undeclared : Reason) (next : ℕ) (via : Bool)
    → jump found undeclared ≡ proceed next via
    → (found ≡ some next) × (via ≡ true)
jump-to none undeclared next via h = absurd (cc)
jump-to (some index) undeclared next via h = (cc, cc)

module _ {H : Host} where
  -- `j` is the first position of a reference with that name
  pub record IsFirst (actions : List (ActionRef H)) (name : String) (j : ℕ) : Type 0 where
    pub ref : ActionRef H
    pub here : get_elem? actions j ≡ some ref
    pub named : (ref_name ref == name) ≡ true
    pub earlier :
        (i : ℕ) (r : ActionRef H)
        → i < j
        → get_elem? actions i ≡ some r
        → (ref_name r == name) ≡ false

  earlier-cons :
      (r : ActionRef H) (rest : List (ActionRef H)) (name : String) (j : ℕ)
      → (ref_name r == name) ≡ false
      → IsFirst rest name j
      → (i : ℕ) (r' : ActionRef H) → i < suc j
      → get_elem? (r ∷ rest) i ≡ some r'
      → (ref_name r' == name) ≡ false
  earlier-cons r rest name j other f zero r' below at = ground arith
  earlier-cons r rest name j other f (suc i) r' below at = f.earlier i r' (ground arith) at

  IsFirst-cons :
      (r : ActionRef H) (rest : List (ActionRef H)) (name : String) (j : ℕ)
      → (ref_name r == name) ≡ false
      → IsFirst rest name j
      → IsFirst (r ∷ rest) name (suc j)
  IsFirst-cons r rest name j other f = record {
    ref = f.ref;
    here = f.here;
    named = f.named;
    earlier = earlier-cons r rest name j other f;
  }

  find_action_index-IsFirst :
      (actions : List (ActionRef H)) (name : String) (j : ℕ)
      → find_action_index actions name ≡ some j
      → IsFirst actions name j
  unfolding find_action_index
  find_action_index-IsFirst [] name j h = absurd (cc)
  find_action_index-IsFirst (r ∷ rest) name zero h = elim (Bool-cases (ref_name r == name)) [
    | inl same ↦ record {
      ref = r;
      here = refl;
      named = same;
      earlier = λ i r' below. absurd (ground arith);
    }
    | inr other ↦ absurd (ground arith)
  ]
  find_action_index-IsFirst (r ∷ rest) name (suc j) h = elim (Bool-cases (ref_name r == name)) [
    | inl same ↦ absurd (ground arith)
    | inr other ↦
        IsFirst-cons r rest name j other (find_action_index-IsFirst rest name j (ground arith))
  ]

  -- Why a phase proceeds from `index` to `next`.
  pub data Proceeds (actions : List (ActionRef H)) (index : ℕ) (result : Result Reason (Unit {0}))
      (next : ℕ) (via : Bool) : Type 0 where
    onwards :
        (name : String)
        → get_elem? actions index ≡ some (plain name)
        → result ≡ ok tt
        → next ≡ index + 1
        → next < length actions
        → via ≡ false
        → Proceeds actions index result next via
    jumps :
        (b : Branch H) (target : String)
        → get_elem? actions index ≡ some (branch b)
        → target_of b result ≡ some target
        → IsFirst actions target next
        → via ≡ true
        → Proceeds actions index result next via

  next_of-Proceeds :
      (at : Option (ActionRef H)) (actions : List (ActionRef H)) (index : ℕ)
      (result : Result Reason (Unit {0})) (next : ℕ) (via : Bool)
      → get_elem? actions index ≡ at
      → next_of at actions index result ≡ proceed next via
      → Proceeds actions index result next via
  unfolding next_of after_plain after_branch
  next_of-Proceeds none actions index result next via at h = absurd (cc)
  next_of-Proceeds (some (plain name)) actions index (err reason) next via at h = absurd (cc)
  next_of-Proceeds (some (plain name)) actions index (ok u) next via at h =
      elim (Bool-cases (leb (length actions) (index + 1))) [
        | inl last ↦ absurd (ground arith)
        | inr more ↦ onwards name at refl (ground arith) (ground arith) (ground arith)
      ]
  next_of-Proceeds (some (branch b)) actions index (ok u) next via at h =
      elim (Option-cases b.on_success) [
        | inl undeclared ↦ absurd (ground arith)
        | inr (target, e) ↦
            let (found, jumped) =
              jump-to (find_action_index actions target) (undeclared_success target) next via
                (ground arith) in
            jumps b target at e (find_action_index-IsFirst actions target next found) jumped
      ]
  next_of-Proceeds (some (branch b)) actions index (err reason) next via at h =
      elim (Option-cases b.on_failure) [
        | inl undeclared ↦ absurd (ground arith)
        | inr (target, e) ↦
            let (found, jumped) =
              jump-to (find_action_index actions target) (undeclared_failure target) next via
                (ground arith) in
            jumps b target at e (find_action_index-IsFirst actions target next found) jumped
      ]

  -- A phase proceeds only forward by one from a plain action that succeeded, within the list, or to the
  -- first action with the name that the branch at hand declares for the outcome.
  pub resolve_next_step-Proceeds :
      (actions : List (ActionRef H)) (index : ℕ) (result : Result Reason (Unit {0})) (next : ℕ)
      (via : Bool)
      → resolve_next_step actions index result ≡ proceed next via
      → Proceeds actions index result next via
  unfolding resolve_next_step
  resolve_next_step-Proceeds actions index result next via h =
      next_of-Proceeds (get_elem? actions index) actions index result next via refl h

  -- Wherever a phase proceeds to is inside its list of actions.
  pub resolve_next_step-inside :
      (actions : List (ActionRef H)) (index : ℕ) (result : Result Reason (Unit {0})) (next : ℕ)
      (via : Bool)
      → resolve_next_step actions index result ≡ proceed next via
      → next < length actions
  resolve_next_step-inside actions index result next via h =
      elim (resolve_next_step-Proceeds actions index result next via h) [
        | onwards name at fine step below straight ↦ below
        | jumps b target at declared first jumped ↦
            get_elem?-below actions next first.ref first.here
      ]
