-- ===== src/Pools/Panel/Sound.antt =====
-- A panel's dialog stays open while a creation runs, and starts afresh whenever it is opened.
use danmaku.Prelude.{
  ◌≡◌, refl, sym, ◌∙◌, Bool, true, false, not, ◌&&◌, if◌then◌else◌, if-holds, and-left, List, [],
  ◌∷◌,
}
use danmaku.Js.Outcome.{returned, thrown}
use danmaku.Binding.{opening}
use danmaku.Pools.Panel.{
  PanelState, PanelEvent, list_changed, create_clicked, cancel_clicked, dialog_changed,
  form_changed, video_changed, offset_changed, pool_selected, binding_selected, danmaku_closed,
  binding_closed, create_submitted, create_settled, opened_panel, set_create_open, submit_disabled,
  panel_event, panel_events,
}

-- While a creation runs the dialog is open; while it is closed, no video is chosen for the next pool
-- and no result is saved.
pub record IsSound {F P : Type 0} (p : PanelState F P) : Type 0 where
  pub shown : p.creating ≡ true → p.create_open ≡ true
  pub fresh : p.create_open ≡ false → p.creation_binding ≡ opening

module _ {F P : Type 0} (cleared : F) (blank : F → Bool) (locked : Bool) where
  if-IsSound :
      (b : Bool) {p q : PanelState F P}
      → (b ≡ true → IsSound p)
      → (b ≡ false → IsSound q)
      → IsSound (if b then p else q)
  if-IsSound b h k = if-holds IsSound b _ _ h k

  -- A change of the panel that leaves the dialog as it is.
  kept-IsSound :
      (p q : PanelState F P)
      → q.creating ≡ p.creating
      → q.create_open ≡ p.create_open
      → q.creation_binding ≡ p.creation_binding
      → IsSound p
      → IsSound q
  kept-IsSound p q creating open_same binding h = record {
    shown = λ e. open_same ∙ h.shown (sym creating ∙ e);
    fresh = λ e. binding ∙ h.fresh (sym open_same ∙ e);
  }

  -- A change of the open dialog.
  open-IsSound : (q : PanelState F P) → q.create_open ≡ true → IsSound q
  open-IsSound q h = record { shown = λ _. h; fresh = λ e. cc }

  set_create_open-IsSound :
      (b : Bool) (p : PanelState F P)
      → p.creating ≡ false
      → IsSound (set_create_open cleared blank locked b p)
  unfolding set_create_open
  set_create_open-IsSound true p h = record { shown = λ _. refl; fresh = λ e. cc }
  set_create_open-IsSound false p h = record { shown = λ e. cc; fresh = λ _. refl }

  -- Every event keeps it.
  pub panel_event-IsSound :
      (x : PanelEvent F P) (p : PanelState F P)
      → IsSound p
      → IsSound (panel_event cleared blank locked x p)
  unfolding panel_event
  panel_event-IsSound (list_changed x) p h = kept-IsSound p _ refl refl refl h
  panel_event-IsSound create_clicked p h = open-IsSound _ refl
  panel_event-IsSound cancel_clicked p h =
      if-IsSound p.creating (λ _. h) (λ e. set_create_open-IsSound false p e)
  panel_event-IsSound (dialog_changed b) p h =
      if-IsSound p.creating (λ _. h) (λ e. set_create_open-IsSound b p e)
  panel_event-IsSound (form_changed form) p h =
      if-IsSound (p.create_open && not (locked && p.creating))
        (λ _. kept-IsSound p _ refl refl refl h) (λ _. h)
  panel_event-IsSound (video_changed s) p h =
      if-IsSound (p.create_open && not p.creating) (λ e. open-IsSound _ (and-left _ _ e)) (λ _. h)
  panel_event-IsSound (offset_changed s) p h =
      if-IsSound (p.create_open && not p.creating) (λ e. open-IsSound _ (and-left _ _ e)) (λ _. h)
  panel_event-IsSound (pool_selected pool) p h = kept-IsSound p _ refl refl refl h
  panel_event-IsSound (binding_selected pool) p h = kept-IsSound p _ refl refl refl h
  panel_event-IsSound danmaku_closed p h = kept-IsSound p _ refl refl refl h
  panel_event-IsSound binding_closed p h = kept-IsSound p _ refl refl refl h
  panel_event-IsSound create_submitted p h =
      if-IsSound (p.create_open && not (submit_disabled cleared blank locked p))
        (λ e. open-IsSound _ (and-left _ _ e)) (λ _. h)
  panel_event-IsSound (create_settled (returned v) b) p h =
      if-IsSound p.creating
        (λ _.
          set_create_open-IsSound false
            (record p { creating = false; creation_binding = b; form = cleared }) refl)
        (λ _. h)
  panel_event-IsSound (create_settled (thrown e) b) p h =
      if-IsSound p.creating {p = record p { creating = false; creation_binding = b }}
        (λ e'. open-IsSound (record p { creating = false; creation_binding = b }) (h.shown e'))
        (λ _. h)

  panel_events-preserves :
      (xs : List (PanelEvent F P)) (p : PanelState F P)
      → IsSound p
      → IsSound (panel_events cleared blank locked xs p)
  unfolding panel_events
  panel_events-preserves [] p h = h
  panel_events-preserves (x ∷ xs) p h =
      panel_events-preserves xs (panel_event cleared blank locked x p) (panel_event-IsSound x p h)

  -- Whatever happens on a panel, its dialog is open while a creation runs; and while it is closed,
  -- nothing is left in it: no video, the offset 0 and no saved result.
  pub panel_events-IsSound :
      (xs : List (PanelEvent F P))
      → IsSound (panel_events cleared blank locked xs (opened_panel cleared blank locked))
  panel_events-IsSound xs =
      panel_events-preserves xs _ (record { shown = λ h. cc; fresh = λ _. refl })
