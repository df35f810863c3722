-- ===== src/Pools/Panel.antt =====
-- PoolPanel of frontend/src/pages/iqiyi-page.tsx and its siblings: the list of pools, and the dialog
-- that creates one from a form `F`. A blank form cannot be submitted; `locked` says whether the fields
-- of the form are disabled while a creation runs.
pub mod Sound
pub mod Once
pub mod Phases
use danmaku.Prelude.{
  ◌≡◌, Bool, true, false, not, ◌&&◌, ◌||◌, Option, none, some, List, [], ◌∷◌, if◌then◌else◌,
}
use danmaku.Js.Text.{Text, codes}
use danmaku.Js.Outcome.{Outcome, returned, thrown, Async}
use danmaku.Js.Value.{Value}
use danmaku.Api.Client.{Request, Response}
use danmaku.PoolCreation.{Workflow}
use danmaku.Binding.{PoolVideoBinding, opening, open_changed, set_video_id, set_offset}
use danmaku.Pools.{ListQuery, opened_query, QueryEvent, query_event}
use danmaku.Pools.Requests.{create_pool}

pub record PanelState (F P : Type 0) : Type 0 where
  pub list : ListQuery
  pub create_open : Bool
  -- create.isPending
  pub creating : Bool
  pub creation_binding : PoolVideoBinding Value
  pub form : F
  pub selected_pool : Option P
  pub binding_pool : Option P

pub data PanelEvent (F P : Type 0) : Type 0 where
  list_changed : QueryEvent → PanelEvent F P
  -- the button that opens the dialog, the one that cancels it, and what the dialog itself reports
  create_clicked cancel_clicked : PanelEvent F P
  dialog_changed : Bool → PanelEvent F P
  form_changed : F → PanelEvent F P
  video_changed offset_changed : Text → PanelEvent F P
  pool_selected binding_selected : P → PanelEvent F P
  danmaku_closed binding_closed : PanelEvent F P
  create_submitted : PanelEvent F P
  -- the mutation ends, with the workflow that it leaves
  create_settled : Outcome Value → PoolVideoBinding Value → PanelEvent F P

module _ {F : Type 0} {P : Type 0} (cleared : F) (blank : F → Bool) (locked : Bool) where
  abbrev pub opened_panel : PanelState F P
  opened_panel = record {
    list = opened_query;
    create_open = false;
    creating = false;
    creation_binding = opening;
    form = cleared;
    selected_pool = none;
    binding_pool = none;
  }

  -- setCreateOpen, with the effect of `open`.
  unfoldable pub set_create_open : Bool → PanelState F P → PanelState F P
  unfolding open_changed
  set_create_open shown p = record p {
    create_open = shown;
    creation_binding = open_changed shown p.creation_binding;
  }

  unfoldable pub submit_disabled : PanelState F P → Bool
  submit_disabled p = p.creating || blank p.form

  -- The end of the creation: `onSuccess` closes the dialog and clears the form.
  unfoldable pub creation_settled :
      Outcome Value → PoolVideoBinding Value → PanelState F P → PanelState F P
  unfolding set_create_open
  creation_settled (returned _) b p =
      set_create_open false (record p { creating = false; creation_binding = b; form = cleared })
  creation_settled (thrown e) b p = record p { creating = false; creation_binding = b }

  unfoldable pub panel_event : PanelEvent F P → PanelState F P → PanelState F P
  unfolding query_event set_create_open submit_disabled creation_settled set_video_id set_offset
  panel_event (list_changed x) p = record p { list = query_event x p.list }
  panel_event create_clicked p = set_create_open true p
  panel_event cancel_clicked p = if p.creating then p else set_create_open false p
  panel_event (dialog_changed shown) p = if p.creating then p else set_create_open shown p
  panel_event (form_changed form) p =
      if p.create_open && not (locked && p.creating) then record p { form = form } else p
  panel_event (video_changed s) p =
      if p.create_open && not p.creating
      then record p { creation_binding = set_video_id s p.creation_binding }
      else p
  panel_event (offset_changed s) p =
      if p.create_open && not p.creating
      then record p { creation_binding = set_offset s p.creation_binding }
      else p
  panel_event (pool_selected pool) p = record p { selected_pool = some pool }
  panel_event (binding_selected pool) p = record p { binding_pool = some pool }
  panel_event danmaku_closed p = record p { selected_pool = none }
  panel_event binding_closed p = record p { binding_pool = none }
  panel_event create_submitted p =
      if p.create_open && not (submit_disabled p) then record p { creating = true } else p
  panel_event (create_settled o b) p = if p.creating then creation_settled o b p else p

  unfoldable pub panel_events : List (PanelEvent F P) → PanelState F P → PanelState F P
  unfolding panel_event
  panel_events [] p = p
  panel_events (x ∷ xs) p = panel_events xs (panel_event x p)

  -- Submitting, the server's answers included: the panel and the world after the mutation.
  module _ {W : Type 0} (stringify : Value → Text) (fetch : Request → Async W Response)
      (source : Text) (invalidate : Text → W → W) (keys : List Text) (body_of : F → Value) where
    unfoldable pub submit_create : PanelState F P → W → PanelState F P × W
    unfolding submit_disabled create_pool creation_settled
    submit_create p w =
        let (o, toast, b, w') =
          create_pool stringify fetch invalidate source keys (body_of p.form) p.creation_binding
            w in
        if p.create_open && not (submit_disabled p)
        then (creation_settled o b (record p { creating = true }), w')
        else (p, w)
