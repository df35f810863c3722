-- ===== src/PoolCreation/Interleaving.antt =====
-- Runs of one workflow that overlap: a dialog may submit again, or close and reset the workflow,
-- while calls are in flight, and the calls settle in any order.
use danmaku.Prelude.{Bool-cases, ◌≡◌, refl, inl, inr, none, some, List, [], ◌∷◌, ◌++◌, All}
use danmaku.Js.Number.{Number}
use danmaku.Js.Outcome.{Outcome, returned, thrown}
use danmaku.Js.Text.{is_empty, Text, text_eq, text_eq_iff}
use mathlib.Core.Path.{subst}
use danmaku.PoolCreation.{
  PoolVideoTarget, Saved, Workflow, Bound, binding, ended, Created, creating, past, refuses, start,
  proceed, reuse_or_create, on_created, on_bound, reset,
}

-- A run at one of its awaits, with the key of the body that it was submitted with.
pub data Task (R : Type 0) : Type 0 where
  awaits_create : Text → PoolVideoTarget → Task R
  awaits_bind : (own_key : Text) → R → Number → Number → Task R

pub record System (R : Type 0) : Type 0 where
  pub saved : Workflow R
  pub tasks : List (Task R)

module _ {R : Type 0} where
  abbrev pub bound_task : (own_key : Text) → Bound R → List (Task R)
  bound_task own_key (binding key r video offset) = awaits_bind own_key r video offset ∷ []
  bound_task own_key (ended o) = []

  abbrev pub created_task : (own_key : Text) → PoolVideoTarget → Created R → List (Task R)
  created_task own_key t (creating key) = awaits_create own_key t ∷ []
  created_task own_key t (past b) = bound_task own_key b

  abbrev pub submitted : Text → PoolVideoTarget → System R → System R
  submitted key t s =
      let (c, saved') = start key t s.saved in
      record { saved = saved'; tasks = s.tasks ++ created_task key t c }

  abbrev pub create_settled :
      Text → PoolVideoTarget → Outcome R → List (Task R) → List (Task R) → System R → System R
  create_settled key t o before after s =
      let (b, saved') = on_created key t o s.saved in
      record { saved = saved'; tasks = before ++ (bound_task key b ++ after) }

  abbrev pub bind_settled :
      R → Outcome (Unit {0}) → List (Task R) → List (Task R) → System R → System R
  bind_settled r o before after s =
      let (out, saved') = on_bound r o s.saved in record { saved = saved'; tasks = before ++ after }

-- `Belongs key r`: the pool `r` was created for the body whose key is `key`. The server answers a
-- creation with a pool that belongs to the body it was sent.
module _ {R : Type 0} (Belongs : Text → R → Type 0) where
  abbrev pub Answers : Text → Outcome R → Type 0
  Answers key (returned r) = Belongs key r
  Answers key (thrown e) = Unit

  pub data Step (s : System R) : System R → Type 0 where
    submit : (key : Text) (t : PoolVideoTarget) → Step s (submitted key t s)
    create_settles :
        (key : Text) (t : PoolVideoTarget) (o : Outcome R) (before after : List (Task R))
        → s.tasks ≡ before ++ (awaits_create key t ∷ after)
        → Answers key o
        → Step s (create_settled key t o before after s)
    bind_settles :
        (key : Text) (r : R) (video offset : Number) (o : Outcome (Unit {0}))
        (before after : List (Task R))
        → s.tasks ≡ before ++ (awaits_bind key r video offset ∷ after)
        → Step s (bind_settled r o before after s)
    close : Step s (record s { saved = reset s.saved })

  pub data Reach : System R → Type 0 where
    initial : Reach (record { saved = none; tasks = [] })
    next : {s s' : System R} → Reach s → Step s s' → Reach s'

  abbrev pub SavedBelongs : Workflow R → Type 0
  SavedBelongs none = Unit
  SavedBelongs (some s) = Belongs s.key s.result

  abbrev pub TaskBelongs : Task R → Type 0
  TaskBelongs (awaits_create key t) = Unit
  TaskBelongs (awaits_bind key r video offset) = Belongs key r

  pub record IsFaithful (s : System R) : Type 0 where
    pub saved : SavedBelongs s.saved
    pub tasks : All TaskBelongs s.tasks

  All-append :
      (xs ys : List (Task R)) → All TaskBelongs xs → All TaskBelongs ys → All TaskBelongs (xs ++ ys)
  All-append [] ys p q = q
  All-append (x ∷ xs) ys (h, p) q = (h, All-append xs ys p q)

  All-parts :
      (xs ys : List (Task R)) (task : Task R)
      → All TaskBelongs (xs ++ (task ∷ ys))
      → All TaskBelongs xs × TaskBelongs task × All TaskBelongs ys
  All-parts [] ys task (h, p) = (tt, h, p)
  All-parts (x ∷ xs) ys task (h, p) = let (a, b, c) = All-parts xs ys task p in ((h, a), b, c)

  proceed-Belongs :
      (key : Text) (t : PoolVideoTarget) (s : Saved R)
      → s.key ≡ key
      → Belongs s.key s.result
      → (let (b, saved) = proceed t s in All TaskBelongs (bound_task key b) × SavedBelongs saved)
  unfolding proceed
  proceed-Belongs key t s own h = elim (Bool-cases (is_empty t.video_id)) [
    | inl e ↦ rw e (tt, tt)
    | inr e ↦ rw e ((subst (λ k. Belongs k s.result) own h, tt), h)
  ]

  reuse-Belongs :
      (key : Text) (t : PoolVideoTarget) (saved : Workflow R)
      → SavedBelongs saved
      → (let (c, saved') = reuse_or_create t key saved in
          All TaskBelongs (created_task key t c) × SavedBelongs saved')
  unfolding reuse_or_create
  reuse-Belongs key t none h = ((tt, tt), tt)
  reuse-Belongs key t (some s) h = elim (Bool-cases (text_eq s.key key)) [
    | inl same ↦ rw same (proceed-Belongs key t s ((text_eq_iff s.key key).0 same) h)
    | inr differs ↦ rw differs ((tt, tt), h)
  ]

  start-Belongs :
      (key : Text) (t : PoolVideoTarget) (saved : Workflow R)
      → SavedBelongs saved
      → (let (c, saved') = start key t saved in
          All TaskBelongs (created_task key t c) × SavedBelongs saved')
  unfolding start
  start-Belongs key t saved h = elim (Bool-cases (refuses t)) [
    | inl bad ↦ rw bad (tt, h)
    | inr good ↦ rw good (reuse-Belongs key t saved h)
  ]

  on_created-Belongs :
      (key : Text) (t : PoolVideoTarget) (o : Outcome R) (saved : Workflow R)
      → Answers key o
      → SavedBelongs saved
      → (let (b, saved') = on_created key t o saved in
          All TaskBelongs (bound_task key b) × SavedBelongs saved')
  unfolding on_created
  on_created-Belongs key t (returned r) saved a h = proceed-Belongs key t _ refl a
  on_created-Belongs key t (thrown e) saved a h = (tt, h)

  on_bound-Belongs :
      (r : R) (o : Outcome (Unit {0})) (saved : Workflow R)
      → SavedBelongs saved
      → SavedBelongs (on_bound r o saved).1
  unfolding on_bound
  on_bound-Belongs r (returned _) saved h = tt
  on_bound-Belongs r (thrown e) saved h = h

  Step-IsFaithful : {s s' : System R} → Step s s' → IsFaithful s → IsFaithful s'
  unfolding reset
  Step-IsFaithful {s} (submit key t) h =
      let (new, kept) = start-Belongs key t s.saved h.saved in
      record { saved = kept; tasks = All-append s.tasks _ h.tasks new }
  Step-IsFaithful {s} (create_settles key t o before after e a) h =
      let (new, kept) = on_created-Belongs key t o s.saved a h.saved in
      let (p, _, q) = All-parts before after _ (rw e at h.tasks) in
      record { saved = kept; tasks = All-append before _ p (All-append _ after new q) }
  Step-IsFaithful {s} (bind_settles key r video offset o before after e) h =
      let (p, _, q) = All-parts before after _ (rw e at h.tasks) in
      record { saved = on_bound-Belongs r o s.saved h.saved; tasks = All-append before after p q }
  Step-IsFaithful close h = record { saved = tt; tasks = h.tasks }

  -- However submissions, settling calls and resets interleave, every `bind` in flight links a pool
  -- that was created for the body which its own run was submitted with, and what is saved was
  -- created for the body under whose key it is saved.
  pub Reach-IsFaithful : {s : System R} → Reach s → IsFaithful s
  Reach-IsFaithful initial = record { saved = tt; tasks = tt }
  Reach-IsFaithful (next r st) = Step-IsFaithful st (Reach-IsFaithful r)
