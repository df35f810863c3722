-- ===== src/Pools/Panel/Phases.antt =====
-- A panel's dialog as an abstract machine of three phases.
use danmaku.Prelude.{
  ◌≡◌, refl, ap, ◌∙◌, Bool, Bool-cases, true, false, not, inl, inr, List, [], ◌∷◌, if◌then◌else◌,
}
use danmaku.Js.Outcome.{returned, thrown}
use danmaku.Pools.Panel.{
  PanelState, PanelEvent, create_clicked, cancel_clicked, dialog_changed, form_changed,
  create_submitted, create_settled, opened_panel, set_create_open, submit_disabled, panel_event,
  panel_events, creation_settled,
}
use danmaku.Pools.Panel.Sound.{IsSound, panel_event-IsSound}

-- What the user sees of the dialog.
pub data Phase : Type 0 where
  closed editing creating : Phase

abbrev phase_of : (running open_now : Bool) → Phase
phase_of true _ = creating
phase_of false true = editing
phase_of false false = closed

-- The machine's view of a panel.
abbrev pub abstraction : {F P : Type 0} → PanelState F P → Phase × F
abstraction p = (phase_of p.creating p.create_open, p.form)

module _ {F P : Type 0} (cleared : F) (blank : F → Bool) (locked : Bool) where
  -- The next phase, where `filled` says that the form is not blank.
  pub next_phase : (filled : Bool) → PanelEvent F P → Phase → Phase
  next_phase filled create_clicked closed = editing
  next_phase filled (dialog_changed true) closed = editing
  next_phase filled cancel_clicked editing = closed
  next_phase filled (dialog_changed false) editing = closed
  next_phase true create_submitted editing = creating
  next_phase filled (create_settled (returned v) b) creating = closed
  next_phase filled (create_settled (thrown e) b) creating = editing
  next_phase filled x phase = phase

  -- The next form: it can be filled in while the dialog is shown, but for a locked form while a
  -- creation runs; a success clears it.
  pub next_form : PanelEvent F P → Phase → F → F
  next_form (form_changed form) editing old = form
  next_form (form_changed form) creating old = if locked then old else form
  next_form (create_settled (returned v) b) creating old = cleared
  next_form x phase old = old

  pub step : PanelEvent F P → Phase × F → Phase × F
  unfolding next_phase next_form
  step x (phase, form) = (next_phase (not (blank form)) x phase, next_form x phase form)

  pub steps : List (PanelEvent F P) → Phase × F → Phase × F
  unfolding step
  steps [] s = s
  steps (x ∷ xs) s = steps xs (step x s)

  -- A sound panel creates, is edited, or is closed.
  in_phase :
      {R : Type 0} (p : PanelState F P)
      → IsSound p
      → (p.creating ≡ true → p.create_open ≡ true → R)
      → (p.creating ≡ false → p.create_open ≡ true → R)
      → (p.creating ≡ false → p.create_open ≡ false → R)
      → R
  in_phase p h running edited gone = elim (Bool-cases p.creating) [
    | inl e ↦ running e (h.shown e)
    | inr e ↦ elim (Bool-cases p.create_open) [ inl e' ↦ edited e e' | inr e' ↦ gone e e' ]
  ]

  panel_event-refines :
      (x : PanelEvent F P) (p : PanelState F P)
      → IsSound p
      → abstraction (panel_event cleared blank locked x p) ≡ step x (abstraction p)
  unfolding panel_event set_create_open creation_settled submit_disabled step next_phase next_form
  panel_event-refines (form_changed form) p h = elim (Bool-cases locked) [
    | inl l ↦
        in_phase p h (λ e e'. simp (e, e', l)) (λ e e'. simp (e, e', l)) (λ e e'. simp (e, e', l))
    | inr l ↦
        in_phase p h (λ e e'. simp (e, e', l)) (λ e e'. simp (e, e', l)) (λ e e'. simp (e, e', l))
  ]
  panel_event-refines create_submitted p h = elim (Bool-cases (blank p.form)) [
    | inl b ↦
        in_phase p h (λ e e'. simp (e, e', b)) (λ e e'. simp (e, e', b)) (λ e e'. simp (e, e', b))
    | inr b ↦
        in_phase p h (λ e e'. simp (e, e', b)) (λ e e'. simp (e, e', b)) (λ e e'. simp (e, e', b))
  ]
  panel_event-refines (dialog_changed true) p h =
      in_phase p h (λ e e'. simp (e, e')) (λ e e'. simp (e, e')) (λ e e'. simp (e, e'))
  panel_event-refines (dialog_changed false) p h =
      in_phase p h (λ e e'. simp (e, e')) (λ e e'. simp (e, e')) (λ e e'. simp (e, e'))
  panel_event-refines (create_settled (thrown e) b) p h =
      in_phase p h (λ e e'. simp (e, e')) (λ e e'. simp (e, e')) (λ e e'. simp (e, e'))
  panel_event-refines (create_settled (returned v) b) p h =
      in_phase p h (λ e e'. simp (e, e')) (λ e e'. simp (e, e')) (λ e e'. simp (e, e'))
  panel_event-refines x p h =
      in_phase p h (λ e e'. simp (e, e')) (λ e e'. simp (e, e')) (λ e e'. simp (e, e'))

  panel_events_from :
      (xs : List (PanelEvent F P)) (p : PanelState F P)
      → IsSound p
      → abstraction (panel_events cleared blank locked xs p) ≡ steps xs (abstraction p)
  unfolding panel_events steps
  panel_events_from [] p h = refl
  panel_events_from (x ∷ xs) p h =
      panel_events_from xs _ (panel_event-IsSound cleared blank locked x p h)
      ∙ ap (steps xs) (panel_event-refines x p h)

  -- Whatever happens on a panel: the phase of its dialog and the form in it are those of the machine
  -- after the same events, from its closed phase and a cleared form on. The user opens the closed
  -- dialog, and closes it while nothing runs; a submission begins a creation exactly where the open
  -- form is not blank; a success closes the dialog and clears the form, and a failure gives the open
  -- dialog back with the form.
  pub panel_events-refines :
      (xs : List (PanelEvent F P))
      → abstraction (panel_events cleared blank locked xs (opened_panel cleared blank locked))
        ≡ steps xs (closed, cleared)
  panel_events-refines xs =
      panel_events_from xs (opened_panel cleared blank locked)
        (record { shown = λ h. cc; fresh = λ _. refl })
