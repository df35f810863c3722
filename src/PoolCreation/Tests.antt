-- ===== src/PoolCreation/Tests.antt =====
-- Runs of the pool creation workflow against a small server, and the theorems at those runs.
use danmaku.Prelude.{
  ℕ, ◌+◌, ◌≤◌, ◌-◌, ◌≡◌, refl, some, none, [], ◌∷◌, List, ◌==◌, if◌then◌else◌, negsuc, true, arith,
}
use danmaku.Js.Text.{Text, codes, text_eq}
use danmaku.Js.Number.{Number, integer, decimal, to_number, is_safe_integer}
use danmaku.Js.Outcome.{returned, thrown, Async, error, other}
use danmaku.PoolCreation.{PoolVideoTarget, Saved, run, refuses, reset}
use danmaku.PoolCreation.Runs.{IsCompleted, run-IsCompleted, run-saved, run-other_key}
use danmaku.PoolCreation.Retries.{attempts, attempts-create_once}
use danmaku.PoolCreation.Interleaving.{
  Reach, initial, next, submit, create_settles, close, IsFaithful, Reach-IsFaithful, awaits_bind,
}

-- The pools that were created, and how many binds will still fail.
record Server : Type 0 where
  pools : ℕ
  failures : ℕ

-- A pool is known by its number.
abbrev create : Async Server ℕ
create w = (returned w.pools, record w { pools = w.pools + 1 })

abbrev bind : ℕ → Number → Number → Async Server (Unit {0})
bind pool video offset w = (
  if w.failures == 0 then returned tt else thrown (error (codes "network error")),
  record w { failures = w.failures - 1 },
)

abbrev same : Text → Text
same body = body

abbrev body : Text
body = codes "{\"episodeId\":\"123\"}"

abbrev video_42 : PoolVideoTarget
video_42 = record { video_id = codes "42"; offset = codes "-1.25" }

abbrev no_video : PoolVideoTarget
no_video = record { video_id = []; offset = [] }

abbrev bad_video : PoolVideoTarget
bad_video = record { video_id = codes "1.5"; offset = codes "0" }

abbrev flaky : Server
flaky = record { pools = 7; failures = 1 }

abbrev saved_7 : Saved ℕ
saved_7 = record { key = body; result = 7 }

run_opened : Unit {0}
unfolding run to_number text_eq is_safe_integer refuses
run_opened = tt

-- The first bind fails, the second succeeds with the same pool, and no other is created.
retry_test :
    (run same create bind body video_42 none flaky ≡ (
      thrown (error (codes "弹幕池已创建，但关联视频失败；保持创建内容不变再次提交可重试关联：network error")),
      some saved_7,
      record { pools = 8; failures = 0 },
    ))
    × (attempts same create bind body (video_42 ∷ bad_video ∷ video_42 ∷ []) none flaky
        ≡ (some 7, none, record { pools = 8; failures = 0 }))
unfolding run_opened attempts
retry_test = (refl, refl)

refuses_tests :
    (refuses bad_video ≡ true)
    × (refuses (record { video_id = codes "-1"; offset = codes "0" }) ≡ true)
    × (refuses (record { video_id = codes "42"; offset = codes "Infinity" }) ≡ true)
    × (refuses (record { video_id = codes "42"; offset = codes " " }) ≡ true)
unfolding run_opened
refuses_tests = (refl, refl, refl, refl)

run-IsCompleted_example :
    IsCompleted same create bind video_42 7
      (run same create bind body video_42 none (record { pools = 7; failures = 0 }))
unfolding run_opened
run-IsCompleted_example =
    run-IsCompleted same create bind body video_42 none (record { pools = 7; failures = 0 }) 7 refl

abbrev refused : Async Server ℕ
refused w = (thrown other, w)

run-saved_example :
    (run same create bind body video_42 (some saved_7) flaky
      ≡ run same refused bind body video_42 (some saved_7) flaky)
    × ((r : ℕ) → (run same create bind body video_42 (some saved_7) flaky).0 ≡ returned r → r ≡ 7)
run-saved_example = run-saved same create refused bind body video_42 saved_7 flaky refl

abbrev other_body : Text
other_body = codes "x"

abbrev targets : List PoolVideoTarget
targets = video_42 ∷ bad_video ∷ video_42 ∷ []

attempts-create_once_example :
    ((attempts same create bind body targets none flaky).2.pools ≤ 8)
    × ((r : ℕ)
        → (attempts same create bind body targets none flaky).0 ≡ some r
        → ((attempts same create bind body targets none flaky).2.pools ≡ 8)
          × ((attempts same create bind body targets none flaky).1 ≡ none))
attempts-create_once_example =
    attempts-create_once same create bind (λ w. w.pools) (λ w. refl) (λ r v o w. refl) body targets
      flaky

-- A creation is in flight while the dialog closes; it settles after the reset.
abbrev Numbered : Text → ℕ → Type 0
Numbered key r = r ≡ 7

late-Reach : Reach Numbered (record {
  saved = some saved_7;
  tasks = awaits_bind body 7 (integer 42) (decimal (negsuc 124) 2) ∷ [];
})
unfolding run_opened reset
late-Reach =
    next (next (next initial (submit body video_42)) close)
      (create_settles body video_42 (returned 7) [] [] refl refl)

Reach-IsFaithful_example : IsFaithful Numbered (record {
  saved = some saved_7;
  tasks = awaits_bind body 7 (integer 42) (decimal (negsuc 124) 2) ∷ [];
})
Reach-IsFaithful_example = Reach-IsFaithful Numbered late-Reach

run-other_key_example :
    ((run same create bind (codes "{}") video_42 (some saved_7) flaky).0
      ≡ (run same create bind (codes "{}") video_42 none flaky).0)
    × ((run same create bind (codes "{}") video_42 (some saved_7) flaky).2
        ≡ (run same create bind (codes "{}") video_42 none flaky).2)
run-other_key_example =
    run-other_key same create bind (codes "{}") video_42 saved_7 flaky (λ e. ground arith)
