-- ===== src/PoolCreation/Retries.antt =====
-- A dialog that submits one body again and again until a run returns: the pool is created once.
use danmaku.Prelude.{
  ℕ, ◌+◌, ◌≤◌, Bool-cases, ◌≡◌, refl, inl, inr, Option, none, some, List, [], ◌∷◌, arith, ◌∙◌,
}
use danmaku.Js.Number.{Number, to_number}
use danmaku.Js.Text.{is_empty, Text, text_eq_iff}
use danmaku.Js.Outcome.{Outcome, returned, thrown, Async, Thrown}
use danmaku.PoolCreation.{
  PoolVideoTarget, Saved, Workflow, refuses, run, await_bind, await_create, on_created, on_bound,
  proceed, reuse_or_create,
}

-- What `create()` adds to the count of pools: one if it succeeds.
abbrev pub added : {R : Type 0} → Outcome R → ℕ
added (returned r) = 1
added (thrown e) = 0

-- One more attempt after a run that threw.
abbrev resubmit :
    {R W : Type 0}
    → (Workflow R → W → Option R × Workflow R × W)
    → Outcome R × Workflow R × W
    → Option R × Workflow R × W
resubmit again (returned r, saved, w) = (some r, saved, w)
resubmit again (thrown e, saved, w) = again saved w

module _ {R W : Type 0} (count : W → ℕ) where
  -- Nothing is saved and no pool was added to `base`, or one was and is saved under `key`.
  abbrev pub Pending : Text → ℕ → Workflow R → W → Type 0
  Pending key base none w = count w ≡ base
  Pending key base (some s) w = (s.key ≡ key) × (count w ≡ base + 1)

  -- What is so after a run: one pool more if it returned, else what is still pending.
  abbrev pub Progress : Text → ℕ → Outcome R × Workflow R × W → Type 0
  Progress key base (returned r, saved, w) = (saved ≡ none) × (count w ≡ base + 1)
  Progress key base (thrown e, saved, w) = Pending key base saved w

  pub Pending-le :
      (key : Text) (base : ℕ) (saved : Workflow R) (w : W)
      → Pending key base saved w
      → count w ≤ base + 1
  Pending-le key base none w n = omega arith
  Pending-le key base (some s) w (_, n) = omega arith

module _ {B R W : Type 0} (stringify : B → Text) (create : Async W R)
    (bind : R → Number → Number → Async W (Unit {0})) where
  -- The targets of the attempts, in order; the first run that returns ends them.
  unfoldable pub attempts : B → List PoolVideoTarget → Workflow R → W → Option R × Workflow R × W
  unfolding run
  attempts body [] saved w = (none, saved, w)
  attempts body (t ∷ ts) saved w =
      resubmit (attempts body ts) (run stringify create bind body t saved w)

  module _ (count : W → ℕ)
      (create_counts : (w : W) → count (create w).1 ≡ count w + added (create w).0)
      (bind_keeps : (r : R) (video offset : Number) (w : W)
        → count (bind r video offset w).1 ≡ count w) where
    on_bound-Progress :
        (key : Text) (base : ℕ) (s : Saved R) (o : Outcome (Unit {0})) (w : W)
        → s.key ≡ key
        → count w ≡ base + 1
        → (let (out, saved) = on_bound s.result o (some s) in
            Progress count key base (out, saved, w))
    unfolding on_bound
    on_bound-Progress key base s (returned _) w same n = (refl, n)
    on_bound-Progress key base s (thrown e) w same n = (same, n)

    proceed-Progress :
        (key : Text) (base : ℕ) (t : PoolVideoTarget) (s : Saved R) (w : W)
        → s.key ≡ key
        → count w ≡ base + 1
        → Progress count key base (await_bind stringify create bind (proceed t s) w)
    unfolding await_bind proceed
    proceed-Progress key base t s w same n = elim (Bool-cases (is_empty t.video_id)) [
      | inl none_chosen ↦ rw none_chosen (refl, n)
      | inr chosen ↦ rw chosen (
          on_bound-Progress key base s _ _ same
            (bind_keeps s.result (to_number t.video_id) (to_number t.offset) w ∙ n))
    ]

    on_created-Progress :
        (key : Text) (base : ℕ) (t : PoolVideoTarget) (o : Outcome R) (w : W)
        → count w ≡ base + added o
        → Progress count key base (await_bind stringify create bind (on_created key t o none) w)
    unfolding on_created await_bind
    on_created-Progress key base t (returned r) w n = proceed-Progress key base t _ w refl n
    on_created-Progress key base t (thrown e) w n = omega arith

    reuse-Progress :
        (key : Text) (base : ℕ) (t : PoolVideoTarget) (saved : Workflow R) (w : W)
        → Pending count key base saved w
        → Progress count key base
            (await_create stringify create bind t (reuse_or_create t key saved) w)
    unfolding await_create reuse_or_create
    reuse-Progress key base t none w n =
        on_created-Progress key base t _ _ (omega (arith, create_counts w))
    reuse-Progress key base t (some s) w (same, n) =
        rw ((text_eq_iff s.key key).1 same) (proceed-Progress key base t s w same n)

    refused-Progress :
        (key : Text) (base : ℕ) (e : Thrown) (saved : Workflow R) (w : W)
        → Pending count key base saved w
        → Progress count key base (thrown e, saved, w)
    refused-Progress key base e saved w h = h

    -- A run goes on with what is pending, and ends it when it returns.
    pub run-Progress :
        (body : B) (base : ℕ) (t : PoolVideoTarget) (saved : Workflow R) (w : W)
        → Pending count (stringify body) base saved w
        → Progress count (stringify body) base (run stringify create bind body t saved w)
    unfolding run await_bind
    run-Progress body base t saved w h = elim (Bool-cases (refuses t)) [
      | inl bad ↦ rw bad h
      | inr good ↦ rw good (reuse-Progress (stringify body) base t saved w h)
    ]

    -- The attempts of a dialog, ended or not.
    abbrev Tally : Text → ℕ → Option R × Workflow R × W → Type 0
    Tally key base (some r, saved, w) = (saved ≡ none) × (count w ≡ base + 1)
    Tally key base (none, saved, w) = Pending count key base saved w

    resubmit-Tally :
        (key : Text) (base : ℕ) (again : Workflow R → W → Option R × Workflow R × W)
        → ((saved : Workflow R) (w : W)
            → Pending count key base saved w
            → Tally key base (again saved w))
        → (out : Outcome R × Workflow R × W) → Progress count key base out
        → Tally key base (resubmit again out)
    resubmit-Tally key base again ih (returned r, saved, w) p = p
    resubmit-Tally key base again ih (thrown e, saved, w) p = ih saved w p

    attempts-Tally :
        (body : B) (base : ℕ) (ts : List PoolVideoTarget) (saved : Workflow R) (w : W)
        → Pending count (stringify body) base saved w
        → Tally (stringify body) base (attempts body ts saved w)
    unfolding attempts
    attempts-Tally body base [] saved w h = h
    attempts-Tally body base (t ∷ ts) saved w h =
        resubmit-Tally (stringify body) base (attempts body ts) (attempts-Tally body base ts)
          (run stringify create bind body t saved w) (run-Progress body base t saved w h)

    Tally-bounds :
        (key : Text) (base : ℕ) (out : Option R × Workflow R × W)
        → Tally key base out
        → (count out.2 ≤ base + 1)
          × ((r : R) → out.0 ≡ some r → (count out.2 ≡ base + 1) × (out.1 ≡ none))
    Tally-bounds key base (some r, saved, w) (cleared, n) = (omega arith, λ _ _. (n, cleared))
    Tally-bounds key base (none, none, w) n = (omega arith, λ _ h. cc)
    Tally-bounds key base (none, some s, w) (same, n) = (omega arith, λ _ h. cc)

    -- Provided that a successful `create` adds one pool, a failing one none, and `bind` none:
    -- however many targets are tried for one body, from a workflow with nothing saved, at most one
    -- pool is added; once an attempt returns, exactly one was added and nothing is saved.
    pub attempts-create_once :
        (body : B) (ts : List PoolVideoTarget) (w : W)
        → (count (attempts body ts none w).2 ≤ count w + 1)
          × ((r : R)
              → (attempts body ts none w).0 ≡ some r
              → (count (attempts body ts none w).2 ≡ count w + 1)
                × ((attempts body ts none w).1 ≡ none))
    attempts-create_once body ts w =
        Tally-bounds (stringify body) (count w) (attempts body ts none w)
          (attempts-Tally body (count w) ts none w refl)
