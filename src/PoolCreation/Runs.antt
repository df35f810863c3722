-- ===== src/PoolCreation/Runs.antt =====
-- What one run of the pool creation workflow does.
use danmaku.Prelude.{true, Bool-cases, ◌≡◌, ◌≢◌, ◌⊎◌, inl, inr, none, some, arith}
use danmaku.Js.Text.{is_empty, Text, text_eq, text_eq_iff}
use danmaku.Js.Number.{Number, to_number}
use danmaku.Js.Outcome.{error, Outcome, returned, thrown, Async}
use danmaku.PoolCreation.{
  PoolVideoTarget, Saved, Workflow, refuses, invalid_target, run, await_bind, proceed, on_created,
  await_create, reuse_or_create,
}

module _ {B R W : Type 0} (stringify : B → Text) (create : Async W R)
    (bind : R → Number → Number → Async W (Unit {0})) where
  -- A target with a bad video ID or offset is rejected with the validation message: nothing is
  -- created or bound (the world is as it was), and a saved creation stays saved.
  pub run-refuses :
      (body : B) (t : PoolVideoTarget) (saved : Workflow R) (w : W)
      → refuses t ≡ true
      → run stringify create bind body t saved w ≡ (thrown (error invalid_target), saved, w)
  unfolding run
  run-refuses body t saved w h = ground arith

  -- Nothing is left saved, and where a video was chosen, the last thing that was done is a
  -- successful bind of the result, at the numbers that the target's texts denote.
  pub record IsCompleted (t : PoolVideoTarget) (r : R) (out : Outcome R × Workflow R × W)
      : Type 0 where
    pub cleared : out.1 ≡ none
    pub linked :
        (is_empty t.video_id ≡ true)
        ⊎ ((w : W) × (bind r (to_number t.video_id) (to_number t.offset) w ≡ (returned tt, out.2)))

  await_bind-IsCompleted :
      (t : PoolVideoTarget) (s : Saved R) (w : W) {r : R}
      → (await_bind stringify create bind (proceed t s) w).0 ≡ returned r
      → IsCompleted t r (await_bind stringify create bind (proceed t s) w)
  unfolding await_bind proceed
  await_bind-IsCompleted t s w {r} h = elim (Bool-cases (is_empty t.video_id)) [
    | inl none_chosen ↦ record { cleared = ground arith; linked = inl none_chosen }
    | inr chosen ↦
        let bound : (bind r (to_number t.video_id) (to_number t.offset) w).0 ≡ returned tt =
          ground arith in
        record { cleared = ground arith; linked = inr (w, ground arith) }
  ]

  create-IsCompleted :
      (key : Text) (t : PoolVideoTarget) (o : Outcome R) (saved : Workflow R) (w : W) {r : R}
      → (await_bind stringify create bind (on_created key t o saved) w).0 ≡ returned r
      → IsCompleted t r (await_bind stringify create bind (on_created key t o saved) w)
  unfolding on_created await_bind
  create-IsCompleted key t (returned r) saved w h = await_bind-IsCompleted t _ w h
  create-IsCompleted key t (thrown e) saved w h = cc

  reuse-IsCompleted :
      (key : Text) (t : PoolVideoTarget) (saved : Workflow R) (w : W) {r : R}
      → (await_create stringify create bind t (reuse_or_create t key saved) w).0 ≡ returned r
      → IsCompleted t r (await_create stringify create bind t (reuse_or_create t key saved) w)
  unfolding await_create reuse_or_create
  reuse-IsCompleted key t none w h = create-IsCompleted key t (create w).0 none (create w).1 h
  reuse-IsCompleted key t (some s) w h = elim (Bool-cases (text_eq s.key key)) [
    | inl same ↦ rw same (await_bind-IsCompleted t s w (rw same at h))
    | inr differs ↦
        rw differs (create-IsCompleted key t (create w).0 (some s) (create w).1 (rw differs at h))
  ]

  -- A run that returns a result is completed.
  pub run-IsCompleted :
      (body : B) (t : PoolVideoTarget) (saved : Workflow R) (w : W) (r : R)
      → (run stringify create bind body t saved w).0 ≡ returned r
      → IsCompleted t r (run stringify create bind body t saved w)
  unfolding run
  run-IsCompleted body t saved w r h = elim (Bool-cases (refuses t)) [
    | inl bad ↦ ground arith
    | inr good ↦ rw good (reuse-IsCompleted (stringify body) t saved w (rw good at h))
  ]

-- A run for a body whose pool is saved does not call `create` (whatever `create` does, the run is
-- the same), and what it returns is the saved result.
pub run-saved :
    {B R W : Type 0} (stringify : B → Text) (create create' : Async W R)
    (bind : R → Number → Number → Async W (Unit {0})) (body : B) (t : PoolVideoTarget) (s : Saved R)
    (w : W)
    → s.key ≡ stringify body
    → (run stringify create bind body t (some s) w ≡ run stringify create' bind body t (some s) w)
      × ((r : R) → (run stringify create bind body t (some s) w).0 ≡ returned r → r ≡ s.result)
unfolding run proceed
run-saved stringify create create' bind body t s w same =
    ground (arith, text_eq_iff s.key (stringify body))

-- A run for another body does not use what is saved: it ends with the outcome and in the world of
-- a run with nothing saved.
pub run-other_key :
    {B R W : Type 0} (stringify : B → Text) (create : Async W R)
    (bind : R → Number → Number → Async W (Unit {0})) (body : B) (t : PoolVideoTarget) (s : Saved R)
    (w : W)
    → s.key ≢ stringify body
    → ((run stringify create bind body t (some s) w).0
        ≡ (run stringify create bind body t none w).0)
      × ((run stringify create bind body t (some s) w).2
          ≡ (run stringify create bind body t none w).2)
unfolding run
run-other_key stringify create bind body t s w differs =
    ground (arith, text_eq_iff s.key (stringify body))
