-- ===== src/Pools/Panel/Once.antt =====
-- A panel's dialog that is submitted again and again until it closes has one creation succeed.
use danmaku.Prelude.{
  ℕ, ◌+◌, ◌≤◌, ◌≡◌, ◌≢◌, refl, sym, arith, Bool, true, false, not, ◌&&◌, if◌then◌else◌, if-holds,
  and-left, ◌⊎◌, inl, inr, none, List, [], ◌∷◌, ◌++◌,
}
use mathlib.Core.Path.{subst}
use danmaku.Js.Text.{Text, codes, text_eq, text_eq_refl}
use danmaku.Js.Print.{number_text}
use danmaku.Js.Number.{Number}
use danmaku.Js.Outcome.{Outcome, returned, thrown, Async}
use danmaku.Js.Value.{Value}
use danmaku.Api.Client.{Request, Response, api_post, api_request, request_of, receive}
use danmaku.Api.Client.QueryString.{text_eq-ne}
use danmaku.PoolCreation.{PoolVideoTarget}
use danmaku.PoolCreation.Retries.{added, Pending, Pending-le, Progress}
use danmaku.Binding.{PoolVideoBinding, bind_pool}
use danmaku.Pools.Requests.{admin_path, create_pool, created_pool_id, created_message}
use danmaku.Pools.Requests.Counted.{submit_creation-Progress}
use danmaku.Pools.Panel.{PanelState, submit_create, creation_settled, submit_disabled}

module _ {F P W : Type 0} (cleared : F) (blank : F → Bool) (locked : Bool)
    (stringify : Value → Text) (fetch : Request → Async W Response) (source : Text)
    (invalidate : Text → W → W) (keys : List Text) (body_of : F → Value) where
  abbrev pub with_target : PoolVideoTarget → PanelState F P → PanelState F P
  with_target t p = record p {
    creation_binding = record p.creation_binding { video_id = t.video_id; offset = t.offset };
  }

  -- The video and the offset are chosen and the dialog is submitted, for each target in turn; the
  -- form stays as it is. A closed dialog takes no part.
  unfoldable pub submissions : List PoolVideoTarget → PanelState F P → W → PanelState F P × W
  unfolding submit_create
  submissions [] p w = (p, w)
  submissions (t ∷ ts) p w =
      let (p', w') =
        submit_create cleared blank locked stringify fetch source invalidate keys body_of
          (if p.create_open then with_target t p else p) w in
      submissions ts p' w'

  -- The dialog is open and what it has done for its form is pending, or it has closed after one
  -- creation.
  abbrev Tally : (W → ℕ) → ℕ → PanelState F P × W → Type 0
  Tally count base (p, w) =
      ((p.create_open ≡ true)
        × (p.creating ≡ false)
        × Pending count (stringify (body_of p.form)) base p.creation_binding.workflow w)
      ⊎ ((p.create_open ≡ false) × (count w ≡ base + 1))

  settled-Tally :
      (count : W → ℕ) (base : ℕ) (o : Outcome Value) (b : PoolVideoBinding Value)
      (p : PanelState F P) (w : W)
      → p.create_open ≡ true
      → Progress count (stringify (body_of p.form)) base (o, b.workflow, w)
      → Tally count base (creation_settled cleared blank locked o b p, w)
  unfolding creation_settled
  settled-Tally count base (returned v) b p w shown (_, n) = inr (refl, n)
  settled-Tally count base (thrown e) b p w shown h = inl (shown, refl, h)

  module _ (count : W → ℕ)
      (invalidate_keeps : (key : Text) (w : W) → count (invalidate key w) ≡ count w)
      (create_counts : (body : Value) (w : W)
        → count (api_post fetch (admin_path source (codes "/pools")) body w).1
          ≡ count w + added (api_post fetch (admin_path source (codes "/pools")) body w).0)
      (bind_keeps : (result : Value) (video offset : Number) (w : W)
        → count
            (bind_pool stringify fetch invalidate source created_pool_id result video offset w).1
          ≡ count w) where
    submit_create-Tally :
        (base : ℕ) (p : PanelState F P) (w : W)
        → Tally count base (p, w)
        → Tally count base
            (submit_create cleared blank locked stringify fetch source invalidate keys body_of p w)
    unfolding submit_create create_pool
    submit_create-Tally base p w (inl (shown, idle, pending)) =
        if-holds (Tally count base) (p.create_open && not (submit_disabled cleared blank locked p))
          _ _
          (λ _.
            settled-Tally count base _ _ (record p { creating = true }) _ shown
              (submit_creation-Progress stringify fetch invalidate source
                (api_post fetch (admin_path source (codes "/pools"))) created_pool_id count
                invalidate_keeps create_counts bind_keeps keys
                (created_message p.creation_binding.video_id) base (body_of p.form)
                p.creation_binding w pending))
          (λ _. inl (shown, idle, pending))
    submit_create-Tally base p w (inr (hidden, n)) =
        if-holds (Tally count base) (p.create_open && not (submit_disabled cleared blank locked p))
          _ _ (λ e. let shown = and-left p.create_open _ e in cc) (λ _. inr (hidden, n))

    with_target-Tally :
        (base : ℕ) (t : PoolVideoTarget) (p : PanelState F P) (w : W)
        → Tally count base (p, w)
        → Tally count base (if p.create_open then with_target t p else p, w)
    with_target-Tally base t p w (inl (shown, idle, pending)) =
        if-holds (λ q. Tally count base (q, w)) p.create_open _ _ (λ _. inl (shown, idle, pending))
          (λ hidden. cc)
    with_target-Tally base t p w (inr (hidden, n)) =
        if-holds (λ q. Tally count base (q, w)) p.create_open _ _ (λ shown. cc)
          (λ _. inr (hidden, n))

    submissions-Tally :
        (base : ℕ) (ts : List PoolVideoTarget) (p : PanelState F P) (w : W)
        → Tally count base (p, w)
        → Tally count base (submissions ts p w)
    unfolding submissions
    submissions-Tally base [] p w h = h
    submissions-Tally base (t ∷ ts) p w h =
        submissions-Tally base ts _ _
          (submit_create-Tally base _ w (with_target-Tally base t p w h))

    Tally-bounds :
        (base : ℕ) (out : PanelState F P × W)
        → Tally count base out
        → (count out.1 ≤ base + 1) × (out.0.create_open ≡ false → count out.1 ≡ base + 1)
    Tally-bounds base (p, w) (inl (shown, idle, pending)) =
        (Pending-le count _ base p.creation_binding.workflow w pending, λ hidden. cc)
    Tally-bounds base (p, w) (inr (hidden, n)) = (omega arith, λ _. n)

    submissions-Bounded :
        (ts : List PoolVideoTarget) (p : PanelState F P) (w : W)
        → p.create_open ≡ true
        → p.creating ≡ false
        → p.creation_binding.workflow ≡ none
        → (count (submissions ts p w).1 ≤ count w + 1)
          × ((submissions ts p w).0.create_open ≡ false
              → count (submissions ts p w).1 ≡ count w + 1)
    submissions-Bounded ts p w shown idle empty = Tally-bounds (count w) (submissions ts p w) (
        submissions-Tally (count w) ts p w (
          inl (
            shown,
            idle,
            subst (λ saved. Pending count (stringify (body_of p.form)) (count w) saved w)
                (sym empty) refl,
          )))

abbrev pub pools_of : (source : Text) → Text
pools_of source = admin_path source (codes "/pools")

-- Any server, with a count of the requests to create a pool of the source that it has answered with
-- success, whatever it did for them.
abbrev pub counted :
    {W : Type 0} → (source : Text) → (Request → Async W Response) → Request → Async (W × ℕ) Response
counted source fetch r (w, n) =
    let (o, w') = fetch r w in
    (o, (w', if text_eq r.path (pools_of source) then n + added (receive o) else n))

abbrev pub uncounted : {W : Type 0} → (Text → W → W) → Text → W × ℕ → W × ℕ
uncounted invalidate key (w, n) = (invalidate key w, n)

module _ {W : Type 0} (stringify : Value → Text) (fetch : Request → Async W Response)
    (source : Text) (invalidate : Text → W → W) where
  counted-create :
      (body : Value) (w : W × ℕ)
      → (api_post (counted source fetch) (pools_of source) body w).1.1
        ≡ w.1 + added (api_post (counted source fetch) (pools_of source) body w).0
  unfolding api_post api_request request_of
  counted-create body (w, n) = rw (text_eq_refl (pools_of source)) refl

  counted-bind :
      ((rest : Text) → pools_of source ≢ codes "/api/admin/videos/" ++ rest)
      → (result : Value) (video offset : Number) (w : W × ℕ)
      → (bind_pool stringify
          (counted source fetch)
          (uncounted invalidate)
          source
          created_pool_id
          result
          video
          offset
          w).1.1
        ≡ w.1
  unfolding bind_pool api_post api_request request_of
  counted-bind apart result video offset (w, n) =
      rw
        (text_eq-ne
          (codes "/api/admin/videos/"
            ++ (number_text video ++ (codes "/" ++ (source ++ codes "-bindings"))))
          (pools_of source) (λ e. apart _ (sym e)))
        refl

-- However often an open dialog with nothing saved is submitted, with whichever videos and offsets,
-- and whatever the server does: at most one of the requests to create a pool is answered with success,
-- and exactly one is when the dialog has closed; the name of the source is not that of the videos.
pub submissions-create_once :
    {F P W : Type 0} (cleared : F) (blank : F → Bool) (locked : Bool) (stringify : Value → Text)
    (fetch : Request → Async W Response) (source : Text) (invalidate : Text → W → W)
    (keys : List Text) (body_of : F → Value)
    → ((rest : Text) → pools_of source ≢ codes "/api/admin/videos/" ++ rest)
    → (ts : List PoolVideoTarget) (p : PanelState F P) (w : W) → p.create_open ≡ true
    → p.creating ≡ false
    → p.creation_binding.workflow ≡ none
    → (let (p', (w', created)) =
          submissions cleared blank locked stringify
            (counted source fetch)
            source
            (uncounted invalidate)
            keys
            body_of
            ts
            p
            (w, 0) in
        (created ≤ 1) × (p'.create_open ≡ false → created ≡ 1))
submissions-create_once cleared blank locked stringify fetch source invalidate keys body_of apart ts
      p w =
    submissions-Bounded cleared blank locked stringify (counted source fetch) source
      (uncounted invalidate) keys body_of (λ out. out.1) (λ key out. refl)
      (counted-create stringify fetch source invalidate)
      (counted-bind stringify fetch source invalidate apart) ts p (w, 0)
